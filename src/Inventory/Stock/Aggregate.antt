-- ===== src/Inventory/Stock/Aggregate.antt =====
-- `aggregateItems` merges the items of one product and loses nothing.
use hpl_back.Base.{ℕ, ◌+◌, ◌≡◌, refl, ◌||◌, List, [], ◌∷◌, arith, ◌==◌}
use hpl_back.Inventory.Stock.{ReserveStockItem, add_quantity, aggregate_from, aggregate_items}
use hpl_back.Inventory.Stock.Balanced.{wanted, requested, mentions}

requested-add_quantity :
    (p : ℕ) (i : ReserveStockItem) (js : List ReserveStockItem)
    → requested p (add_quantity i js) ≡ wanted p i + requested p js
unfolding add_quantity
requested-add_quantity p i [] = omega arith
requested-add_quantity p i (j ∷ js) = ground (arith, requested-add_quantity p i js)

requested-aggregate_from :
    (p : ℕ) (acc items : List ReserveStockItem)
    → requested p (aggregate_from acc items) ≡ requested p acc + requested p items
unfolding aggregate_from
requested-aggregate_from p acc [] = omega arith
requested-aggregate_from p acc (i ∷ is) =
    omega
      (arith, requested-aggregate_from p (add_quantity i acc) is, requested-add_quantity p i acc)

-- The totals by product stay.
pub requested-aggregate_items :
    (p : ℕ) (items : List ReserveStockItem)
    → requested p (aggregate_items items) ≡ requested p items
unfolding aggregate_items
requested-aggregate_items p items = omega (arith, requested-aggregate_from p [] items)

mentions-add_quantity :
    (p : ℕ) (i : ReserveStockItem) (js : List ReserveStockItem)
    → mentions p (add_quantity i js) ≡ ((i.product_id == p) || mentions p js)
unfolding add_quantity
mentions-add_quantity p i [] = refl
mentions-add_quantity p i (j ∷ js) = ground (arith, mentions-add_quantity p i js)

mentions-aggregate_from :
    (p : ℕ) (acc items : List ReserveStockItem)
    → mentions p (aggregate_from acc items) ≡ (mentions p acc || mentions p items)
unfolding aggregate_from
mentions-aggregate_from p acc [] = ground arith
mentions-aggregate_from p acc (i ∷ is) =
    ground (arith, mentions-aggregate_from p (add_quantity i acc) is, mentions-add_quantity p i acc)

-- The products named stay.
pub mentions-aggregate_items :
    (p : ℕ) (items : List ReserveStockItem) → mentions p (aggregate_items items) ≡ mentions p items
unfolding aggregate_items
mentions-aggregate_items p items = mentions-aggregate_from p [] items
