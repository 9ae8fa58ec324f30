-- ===== src/Orders/Deliveries/Within.antt =====
-- What an order's items have left to deliver.
use mathlib.Core.Option.{some-injective}
use hpl_back.Base.{
  ℕ, ◌+◌, ◌≤◌, ◌≡◌, refl, sym, ap, ◌∙◌, some, List, [], ◌∷◌, arith, if◌then◌else◌, ◌==◌, length,
  get_elem?, set, get_elem?-set_self, get_elem?-set_ne, get_elem?-bound, Option_cases, inl, inr,
  All,
}
use native.Mathlib.Decide.{ℕ_discrete}
use hpl_back.Domain.{order_status_enum}
use hpl_back.Store.{Db, OrderItem, ok, for_each}
use hpl_back.Orders.Deliveries.{
  CreateDeliveryItem, with_delivered, add_delivered, items_in, find_order_item,
}
use hpl_back.Orders.Deliveries.Items.{times, named_once, found_row, Fits}

-- What the entries add to a row.
abbrev pub pending : ℕ → List CreateDeliveryItem → ℕ
pending k [] = 0
pending k (e ∷ es) = (if e.order_item_id == k then e.quantity else 0) + pending k es

-- With what the entries add, no row goes beyond its quantity.
abbrev pub Room : List CreateDeliveryItem → Db → Type 0
Room items db =
    (k : ℕ) (r : OrderItem)
    → get_elem? db.order_items k ≡ some r
    → r.delivered_quantity + pending k items ≤ r.quantity

-- No row's deliveries go beyond its quantity.
abbrev pub Within : Db → Type 0
Within db = Room [] db

add_delivered-Room :
    (e : CreateDeliveryItem) (es : List CreateDeliveryItem) (db : Db)
    → Room (e ∷ es) db
    → Room es (add_delivered e db).1
add_delivered-Room e es db h k r found =
    elim (Option_cases (get_elem? db.order_items e.order_item_id)) [
      | inl missing ↦ omega (arith, h k r (ground arith))
      | inr (old, at) ↦
          let new : OrderItem = with_delivered e.quantity old in
          let rows : (add_delivered e db).1.order_items ≡ set db.order_items e.order_item_id new =
            ground arith in
          elim (ℕ_discrete e.order_item_id k) [
            | yes this ↦
                let there : get_elem? (set db.order_items e.order_item_id new) e.order_item_id
                    ≡ some new =
                  get_elem?-set_self db.order_items e.order_item_id new
                    (get_elem?-bound db.order_items e.order_item_id at) in
                ground (arith, h e.order_item_id old at)
            | no other ↦
                let there : get_elem? (set db.order_items e.order_item_id new) k
                    ≡ get_elem? db.order_items k =
                  get_elem?-set_ne db.order_items e.order_item_id k new other in
                ground (arith, h k r (sym there ∙ ap (λ xs. get_elem? xs k) (sym rows) ∙ found))
          ]
    ]

pub add_all-Room :
    (items : List CreateDeliveryItem) (db : Db)
    → Room items db
    → (for_each add_delivered items db).0 ≡ ok tt × Within (for_each add_delivered items db).1
add_all-Room [] db h = (refl, h)
add_all-Room (e ∷ es) db h = add_all-Room es (add_delivered e db).1 (add_delivered-Room e es db h)

-- A row that no entry names gets nothing.
unnamed : (k : ℕ) (items : List CreateDeliveryItem) → times k items ≡ 0 → pending k items ≡ 0
unnamed k [] h = refl
unnamed k (e ∷ es) h = ground (arith, unnamed k es)

-- If a row is named once at most and each entry fits, all of them fit.
once-Fits :
    (rows : List (ℕ × OrderItem)) (k : ℕ) (r : OrderItem) (items : List CreateDeliveryItem)
    → times k items ≤ 1
    → r.delivered_quantity ≤ r.quantity
    → ((r' : OrderItem) → find_order_item k rows ≡ some r' → r' ≡ r)
    → All (Fits rows) items
    → r.delivered_quantity + pending k items ≤ r.quantity
once-Fits rows k r [] once within same_row fit = omega arith
once-Fits rows k r (e ∷ es) once within same_row ((r', found, fits), rest) =
    elim (ℕ_discrete e.order_item_id k) [
      | yes this ↦
          let is_row : r' ≡ r = same_row r' (ap (λ n. find_order_item n rows) (sym this) ∙ found) in
          let fits' : r.delivered_quantity + e.quantity ≤ r.quantity = rw (sym is_row) fits in
          ground (arith, unnamed k es)
      | no other ↦ ground (arith, once-Fits rows k r es (ground arith) within same_row rest)
    ]

-- The entries that pass the first loop leave room for all of them.
pub passed-Room :
    (order : ℕ) (items : List CreateDeliveryItem) (db : Db)
    → Within db
    → length (items_in 0 order items db.order_items) ≡ length items
    → All (Fits (items_in 0 order items db.order_items)) items
    → Room items db
passed-Room order items db within all_found fit k r found =
    once-Fits (items_in 0 order items db.order_items) k r items
      (named_once order k items db.order_items all_found (get_elem?-bound db.order_items k found))
      (omega (arith, within k r found))
      (λ r' selected.
        some-injective r' r (sym (found_row order k items db.order_items r' selected) ∙ found))
      fit
