-- ===== src/Inventory/Stock/Reserve.antt =====
-- What `reserveStock` does to the invariant.
use hpl_back.Base.{
  some, length, ℕ, ◌+◌, ◌≡◌, ◌≤◌, true, Option, List, [], ◌∷◌, arith, ℤ, pos, ◌+ℤ◌, +ℤ_parts,
  -ℤ_parts, eq_of_parts, ◌-ℤ◌, Option_cases, inl, inr,
}
use hpl_back.Store.{Db, StockBalance, StockReservation, ok}
use hpl_back.Inventory.Stock.{
  reserve_write, reserve_item, reserve_loop, reserve_stock, aggregate_items, ReserveStockItem,
  reservation_ttl_ms,
}
use hpl_back.Domain.{StockReservationStatus}
use hpl_back.Inventory.Stock.Balanced.{has_balance, free, wanted, active, active-append, Balanced}

-- The row that `reserveStock` creates.
abbrev pub reserved_row : ℕ → ReserveStockItem → Db → StockReservation
reserved_row order item db = record {
  product_id = item.product_id;
  order_id = order;
  quantity = item.quantity;
  status = StockReservationStatus.active;
  expires_at = some (db.now + reservation_ttl_ms);
}

-- If every balance agrees with the active reservations (reserved is their total, available is on-
-- hand minus reserved, neither is negative), then it does after the writing part of one round of
-- reserveStock, whatever row was read before: a stale read never oversells.
pub reserve_write-Balanced :
    (actor : Option ℕ) (order : ℕ) (item : ReserveStockItem) (read : Option StockBalance) (db : Db)
    → Balanced db
    → Balanced (reserve_write actor order item read db).1
unfolding reserve_write
reserve_write-Balanced actor order item read db h p =
    elim (Option_cases (db.balances item.product_id)) [
      | inl e ↦ ground (arith, h p)
      | inr (b, e) ↦
          let q : ℤ = pos item.quantity in
          ground (
            arith,
            h p,
            h item.product_id,
            active-append p db.reservations (reserved_row order item db),
            +ℤ_parts b.available b.reserved,
            +ℤ_parts b.reserved q,
            -ℤ_parts b.available q,
            +ℤ_parts (b.available -ℤ q) (b.reserved +ℤ q),
            eq_of_parts (b.available -ℤ q +ℤ (b.reserved +ℤ q)) b.on_hand,
            eq_of_parts (b.reserved +ℤ q) (pos (active p db.reservations + item.quantity)),
          )
    ]

pub reserve_item-Balanced :
    (actor : Option ℕ) (order : ℕ) (item : ReserveStockItem) (db : Db)
    → Balanced db
    → Balanced (reserve_item actor order item db).1
unfolding reserve_item
reserve_item-Balanced actor order item db h =
    reserve_write-Balanced actor order item (db.balances item.product_id) db h

pub reserve_loop-Balanced :
    (actor : Option ℕ) (order : ℕ) (items : List ReserveStockItem) (db : Db)
    → Balanced db
    → Balanced (reserve_loop actor order items db).1
unfolding reserve_loop
reserve_loop-Balanced actor order [] db h p = h p
reserve_loop-Balanced actor order (i ∷ is) db h p = ground (
  arith,
  reserve_item-Balanced actor order i db h p,
  reserve_loop-Balanced actor order is (reserve_item actor order i db).1
      (reserve_item-Balanced actor order i db h) p,
)

pub reserve_stock-Balanced :
    (actor : Option ℕ) (order : ℕ) (items : List ReserveStockItem) (db : Db)
    → Balanced db
    → Balanced (reserve_stock actor order items db).1
unfolding reserve_stock
reserve_stock-Balanced actor order items db h =
    reserve_loop-Balanced actor order (aggregate_items items) db h

-- One round succeeds exactly when the product has a balance with enough available; it then moves the
-- quantity from `available` to the active reservations and touches no other product.
pub reserve_item_succeeds :
    (actor : Option ℕ) (order : ℕ) (i : ReserveStockItem) (db : Db)
    → Balanced db
    → has_balance i.product_id db ≡ true
    → i.quantity ≤ free i.product_id db
    → (reserve_item actor order i db).0 ≡ ok (length db.reservations)
unfolding reserve_item reserve_write
reserve_item_succeeds actor order i db h e le = ground (arith, h i.product_id)

pub reserve_item_needs :
    (actor : Option ℕ) (order : ℕ) (i : ReserveStockItem) (db : Db) {r : ℕ}
    → (reserve_item actor order i db).0 ≡ ok r
    → has_balance i.product_id db ≡ true
unfolding reserve_item reserve_write
reserve_item_needs actor order i db e = ground arith

pub reserve_item_moves :
    (actor : Option ℕ) (order : ℕ) (i : ReserveStockItem) (db : Db) (p : ℕ) {r : ℕ}
    → (reserve_item actor order i db).0 ≡ ok r
    → let db' = (reserve_item actor order i db).1 in
      (active p db'.reservations ≡ active p db.reservations + wanted p i)
      × (free p db ≡ free p db' + wanted p i)
      × (has_balance p db' ≡ has_balance p db)
unfolding reserve_item reserve_write
reserve_item_moves actor order i db p e = elim (Option_cases (db.balances i.product_id)) [
  | inl none_there ↦ ground arith
  | inr (b, there) ↦ ground (
    arith,
    active-append p db.reservations (reserved_row order i db),
    -ℤ_parts b.available (pos i.quantity),
  )
]
