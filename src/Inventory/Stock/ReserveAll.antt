-- ===== src/Inventory/Stock/ReserveAll.antt =====
-- `reserveStock` over a whole list of items.
use hpl_back.Base.{
  ℕ, ◌+◌, ◌≡◌, ◌≤◌, ◌↔◌, refl, sym, ◌∙◌, true, false, Option, List, [], ◌∷◌, arith, ==-refl, inl,
  inr, ◌⊎◌,
}
use hpl_back.Store.{Db, Result, ok, err, is_ok}
use hpl_back.Inventory.Stock.{
  reserve_item, reserve_loop, reserve_stock, aggregate_items, ReserveStockItem,
}
use hpl_back.Inventory.Stock.Balanced.{has_balance, free, requested, mentions, active, Balanced}
use hpl_back.Inventory.Stock.Aggregate.{requested-aggregate_items, mentions-aggregate_items}
use hpl_back.Inventory.Stock.Reserve.{
  reserve_item-Balanced, reserve_item_succeeds, reserve_item_needs, reserve_item_moves,
}

Result_cases : {A : Type 0} (r : Result A) → (is_ok r ≡ false) ⊎ ((a : A) × (r ≡ ok a))
Result_cases (ok a) = inr (a, refl)
Result_cases (err e) = inl refl

-- What a successful loop has moved, and that each product had a balance.
reserve_loop_moves :
    (actor : Option ℕ) (order : ℕ) (items : List ReserveStockItem) (db : Db) (p : ℕ)
    → is_ok (reserve_loop actor order items db).0 ≡ true
    → let db' = (reserve_loop actor order items db).1 in
      (active p db'.reservations ≡ active p db.reservations + requested p items)
      × (free p db ≡ free p db' + requested p items)
      × (mentions p items ≡ true → has_balance p db ≡ true)
unfolding reserve_loop
reserve_loop_moves actor order [] db p e = ground arith
reserve_loop_moves actor order (i ∷ is) db p e =
    let db' = (reserve_item actor order i db).1 in
    elim (Result_cases (reserve_item actor order i db).0) [
      | inl failed ↦ absurd (ground arith)
      | inr (r, done) ↦ ground (
        arith,
        reserve_item_moves actor order i db p done,
        reserve_item_needs actor order i db done,
        reserve_loop_moves actor order is db' p,
      )
    ]

-- Enough of every product makes the loop succeed.
reserve_loop_succeeds :
    (actor : Option ℕ) (order : ℕ) (items : List ReserveStockItem) (db : Db)
    → Balanced db
    → ((p : ℕ) → mentions p items ≡ true → has_balance p db ≡ true)
    → ((p : ℕ) → requested p items ≤ free p db)
    → is_ok (reserve_loop actor order items db).0 ≡ true
unfolding reserve_loop
reserve_loop_succeeds actor order [] db h known enough = refl
reserve_loop_succeeds actor order (i ∷ is) db h known enough =
    let db' = (reserve_item actor order i db).1 in
    let there : has_balance i.product_id db ≡ true =
      known i.product_id (ground (arith, ==-refl i.product_id)) in
    let fits : i.quantity ≤ free i.product_id db =
      ground (arith, enough i.product_id, ==-refl i.product_id) in
    let done = reserve_item_succeeds actor order i db h there fits in
    let rest =
      reserve_loop_succeeds actor order is db' (reserve_item-Balanced actor order i db h)
        (λ p m. ground (arith, known p, reserve_item_moves actor order i db p done))
        (λ p. ground (arith, enough p, reserve_item_moves actor order i db p done)) in
    ground (arith, done, rest)

-- When reserveStock returns, the active reservations of each product have grown, and what is
-- available has shrunk, by the total that the items ask of it.
pub reserve_stock_moves :
    (actor : Option ℕ) (order : ℕ) (items : List ReserveStockItem) (db : Db) (p : ℕ)
    → is_ok (reserve_stock actor order items db).0 ≡ true
    → let db' = (reserve_stock actor order items db).1 in
      (active p db'.reservations ≡ active p db.reservations + requested p items)
      × (free p db ≡ free p db' + requested p items)
unfolding reserve_stock
reserve_stock_moves actor order items db p e = ground (
  arith,
  reserve_loop_moves actor order (aggregate_items items) db p e,
  requested-aggregate_items p items,
)

-- In a balanced database reserveStock succeeds exactly when every product named has a balance and
-- the total asked of each product, over all items, is at most what is available.
pub reserve_stock_iff :
    (actor : Option ℕ) (order : ℕ) (items : List ReserveStockItem) (db : Db)
    → Balanced db
    → (is_ok (reserve_stock actor order items db).0 ≡ true) ↔ (
        ((p : ℕ) → mentions p items ≡ true → has_balance p db ≡ true)
        × ((p : ℕ) → requested p items ≤ free p db))
unfolding reserve_stock
reserve_stock_iff actor order items db h =
    let merged = aggregate_items items in
    (
      λ e. (
        λ p m.
            (reserve_loop_moves actor order merged db p e).2 (mentions-aggregate_items p items ∙ m),
        λ p. omega (
          arith,
          reserve_loop_moves actor order merged db p e,
          requested-aggregate_items p items,
        ),
      ),
      λ c.
          reserve_loop_succeeds actor order merged db h
            (λ p m. c.0 p (sym (mentions-aggregate_items p items) ∙ m))
            (λ p. omega (arith, c.1 p, requested-aggregate_items p items)),
    )
