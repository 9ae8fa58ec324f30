-- ===== src/Inventory/Tests.antt =====
-- The inventory's theorems at a small warehouse.
use hpl_back.Base.{
  ℕ, ◌+◌, ◌≡◌, ◌≤◌, ◌↔◌, refl, true, false, none, some, List, [], ◌∷◌, arith, if◌then◌else◌, ◌==◌,
  pos, ◌+ℤ◌, ◌-ℤ◌, includes, get_elem?,
}
use hpl_back.Domain.{StockReservationStatus, order_status_enum, ExpectedReceiptStatus}
use hpl_back.Store.{ClientReceiptId, Db, StockBalance, StockReservation, Order, ok, is_ok, empty_db}
use hpl_back.Inventory.Stock.{
  ReserveStockItem, reserve_loop, reserve_item, aggregate_items, aggregate_from, add_quantity,
  reserve_write, reserve_stock, release_reservation, release_expired_reservations,
  commit_reservation, kept_on_expiry,
}
use hpl_back.Inventory.Stock.Balanced.{
  active, active_by, free, has_balance, requested, mentions, Balanced,
}
use hpl_back.Inventory.Stock.Reserve.{reserve_write-Balanced}
use hpl_back.Inventory.Stock.ReserveAll.{reserve_stock_iff, reserve_stock_moves}
use hpl_back.Inventory.Stock.Release.{release_reservation_frees}
use hpl_back.Inventory.Stock.Expire.{overdue, expired_total, release_expired_reservations_lem}
use hpl_back.Inventory.Stock.Commit.{
  AllMoved, commit_reservation_moves, commit_reservation_succeeds,
}
use hpl_back.Inventory.Receiving.{
  ReceiveExpectedReceipt, process_receipt, receive_all, receive_item, apply_receipt_quantity,
  create_event, apply_read, create_balance, raise_balance, raise_created, process_waiting_orders,
}
use hpl_back.Inventory.Receipts.{lock_expected_receipt, calculate_receipt_status}
use hpl_back.Inventory.Receiving.Goods.{Within, Gained}
use hpl_back.Inventory.Receiving.Outcome.{process_receipt-IsSound, process_receipt_idempotent}

abbrev panels : StockBalance
panels = record {
  on_hand = pos 10;
  reserved = pos 3;
  available = pos 7;
  version = 4;
  updated_by = none;
}

abbrev reservation : StockReservation
reservation = record {
  product_id = 5;
  order_id = 0;
  quantity = 3;
  status = StockReservationStatus.active;
  expires_at = some 100;
}

-- Product 5 has ten on hand, three of them reserved for order 0; receipt 0 expects eight more.
abbrev warehouse : Db
warehouse = record empty_db {
  now = 200;
  balances = λ p. if p == 5 then some panels else none;
  reservations = reservation ∷ [];
  receipts =
      record {
        supplier_id = none;
        ordered_at = 1;
        expected_date = 9;
        comment = none;
        created_by_id = none;
        status = ExpectedReceiptStatus.pending;
      }
      ∷ [];
  receipt_items =
      record { expected_receipt_id = 0; product_id = 5; quantity = 8; received_quantity = 0 } ∷ [];
}

warehouse-Balanced : Balanced warehouse
unfolding active ◌+ℤ◌
warehouse-Balanced p = ground arith

abbrev two_panels : ReserveStockItem
two_panels = record { product_id = 5; quantity = 2 }

reserve_write-Balanced_example :
    Balanced (reserve_write none 1 two_panels (some panels) warehouse).1
reserve_write-Balanced_example =
    reserve_write-Balanced none 1 two_panels (some panels) warehouse warehouse-Balanced

abbrev twice : List ReserveStockItem
twice = two_panels ∷ two_panels ∷ []

reserve_stock_iff_example : (is_ok (reserve_stock none 1 twice warehouse).0 ≡ true) ↔ (
    ((p : ℕ) → mentions p twice ≡ true → has_balance p warehouse ≡ true)
    × ((p : ℕ) → requested p twice ≤ free p warehouse))
reserve_stock_iff_example = reserve_stock_iff none 1 twice warehouse warehouse-Balanced

reserve_stock_moves_example :
    let db' = (reserve_stock none 1 twice warehouse).1 in
    (active 5 db'.reservations ≡ active 5 warehouse.reservations + 4) × (7 ≡ free 5 db' + 4)
unfolding reserve_stock reserve_loop reserve_item reserve_write aggregate_items aggregate_from
    add_quantity ◌+ℤ◌ ◌-ℤ◌
reserve_stock_moves_example = reserve_stock_moves none 1 twice warehouse 5 refl

release_reservation_frees_example :
    let (r, db') = release_reservation 0 none warehouse in
    (r ≡ ok tt)
    × Balanced db'
    × ((p : ℕ)
        → (active_by 0 p db'.reservations ≡ 0)
          × (active p db'.reservations + active_by 0 p warehouse.reservations
              ≡ active p warehouse.reservations)
          × (free p db' ≡ free p warehouse + active_by 0 p warehouse.reservations))
release_reservation_frees_example = release_reservation_frees 0 none warehouse warehouse-Balanced

release_expired_reservations_lem_example :
    let (res, db') = release_expired_reservations warehouse in
    (res ≡ ok (overdue 200 warehouse.reservations))
    × Balanced db'
    × (overdue 200 db'.reservations ≡ 0)
    × ((p : ℕ) → free p db' ≡ free p warehouse + expired_total 200 p warehouse.reservations)
    × ((j : ℕ) (o : Order)
        → get_elem? warehouse.orders j ≡ some o
        → includes kept_on_expiry o.status ≡ true
        → get_elem? db'.orders j ≡ some o)
release_expired_reservations_lem_example =
    release_expired_reservations_lem warehouse warehouse-Balanced (refl, tt)

commit_reservation_moves_example :
    let (r, db') = commit_reservation 0 (two_panels ∷ []) none warehouse in
    Balanced db' × (is_ok r ≡ true → AllMoved 0 (two_panels ∷ []) warehouse db')
commit_reservation_moves_example =
    commit_reservation_moves 0 (two_panels ∷ []) none warehouse warehouse-Balanced

commit_reservation_succeeds_example :
    is_ok (commit_reservation 0 (two_panels ∷ []) none warehouse).0 ≡ true
unfolding active_by
commit_reservation_succeeds_example =
    commit_reservation_succeeds 0 (two_panels ∷ []) none warehouse warehouse-Balanced
      (λ p m. ground arith) (λ p. ground arith)

-- Five of the eight ordered panels, in two lines for one item.
abbrev delivery : ReceiveExpectedReceipt
delivery = record {
  client_receipt_id = some (ClientReceiptId.text 77);
  comment = none;
  items =
      record {
        item_id = 0;
        accepted_quantity = some (pos 3);
        received_quantity = none;
        rejected_quantity = none;
      }
      ∷ record {
        item_id = 0;
        accepted_quantity = none;
        received_quantity = some (pos 2);
        rejected_quantity = some (pos 1);
      }
      ∷ [];
}

process_receipt-IsSound_example :
    let (r, db') = process_receipt 0 delivery (some 1) warehouse in
    Balanced db' × Within db' × Gained warehouse db' × (is_ok r ≡ false → db' ≡ warehouse)
process_receipt-IsSound_example =
    process_receipt-IsSound 0 delivery (some 1) warehouse warehouse-Balanced (omega arith)

process_receipt_idempotent_example :
    let db' = (process_receipt 0 delivery (some 1) warehouse).1 in
    process_receipt 0 delivery (some 2) db' ≡ (ok tt, db')
unfolding process_receipt lock_expected_receipt receive_all receive_item apply_receipt_quantity
    create_event apply_read create_balance raise_balance raise_created process_waiting_orders
    calculate_receipt_status ◌+ℤ◌ ◌-ℤ◌
process_receipt_idempotent_example =
    process_receipt_idempotent 0 delivery 1 2 77 warehouse refl warehouse-Balanced (omega arith)
      refl
