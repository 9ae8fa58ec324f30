-- ===== src/Orders/Deliveries/Frame.antt =====
-- The steps of a delivery that follow its items.
use Prim.Native.Nat.{min}
use hpl_back.Base.{
  ◌-ℤ◌, leb_ℤ, ℕ, ◌+◌, ◌-◌, ◌≡◌, ◌∙◌, Bool, ◌&&◌, Option, some, List, [], ◌∷◌, arith, ◌==◌,
  Option_cases, inl, inr, pos, select_from,
}
use hpl_back.Store.{
  Db, OrderItem, StockReservation, StockBalance, AuditEvent, Action, ◌>>=◌, ◌>>◌, pure,
  update_reservation, update_balance, throw_if, audit, conflict, modified_concurrently,
}
use hpl_back.Store.Keeps.{Keeps, Keeps-bind, Keeps-for_each, Keeps-if}
use hpl_back.Inventory.Stock.{
  ReserveStockItem, active_for, is_active, consume_row, aggregate_items, consume, commit_write,
  commit_one, commit_reservation,
}
use hpl_back.Deals.{try_finalize}
use hpl_back.Deals.Amounts.{try_finalize_rows}
use hpl_back.Orders.{
  set_shipment_status, update_order_shipment_status, shipment_status, items_of_order,
}
use hpl_back.Orders.Deliveries.{finish_delivery}

module _ (rows : List OrderItem) where
  abbrev pub SameItems : Db → Type 0
  SameItems db = db.order_items ≡ rows

  update_reservation-SameItems :
      (k : ℕ) (test : StockReservation → Bool) (change : StockReservation → StockReservation)
      → Keeps SameItems (update_reservation k test change)
  update_reservation-SameItems k test change db h = h

  consume-SameItems :
      (remaining : ℕ) (selected : List (ℕ × StockReservation))
      → Keeps SameItems (consume remaining selected)
  unfolding consume
  consume-SameItems remaining [] = λ db h. h
  consume-SameItems remaining ((k, r) ∷ rest) =
      let used = min remaining r.quantity in
      let more : Action (Unit {0}) = consume (remaining - used) rest in
      let update : Action ℕ =
        update_reservation k (λ row. is_active row && row.quantity == r.quantity)
          (consume_row used) in
      let claimed : ℕ → Action (Unit {0}) =
        λ count. throw_if (count == 0) (conflict modified_concurrently) in
      Keeps-if SameItems (remaining == 0) (pure tt) (update >>= λ count. claimed count >> more)
        (λ db h. h)
        (Keeps-bind SameItems update (λ count. claimed count >> more) (λ db h. h)
          (λ count.
            Keeps-bind SameItems (claimed count) (λ _. more) (λ db h. h)
              (λ _. consume-SameItems (remaining - used) rest)))

  abbrev committed_entry : Option ℕ → ℕ → ReserveStockItem → StockBalance → Action (Unit {0})
  committed_entry actor order item read = audit actor (
      AuditEvent.stock_committed (read.on_hand, read.reserved) order item.product_id item.quantity
        (read.on_hand -ℤ pos item.quantity) (read.reserved -ℤ pos item.quantity))

  -- The rest of the writes after the balance.
  abbrev use_up :
      Option ℕ
      → ℕ
      → ReserveStockItem
      → List (ℕ × StockReservation)
      → StockBalance
      → Action (Unit {0})
  use_up actor order item reservations read =
      consume item.quantity reservations >> committed_entry actor order item read

  commit_write-SameItems :
      (actor : Option ℕ) (order : ℕ) (item : ReserveStockItem)
      (reservations : List (ℕ × StockReservation)) (read : StockBalance)
      → Keeps SameItems (commit_write actor order item reservations read)
  unfolding commit_write
  commit_write-SameItems actor order item reservations read =
      Keeps-bind SameItems
        (update_balance item.product_id
          (λ b.
            leb_ℤ (pos item.quantity) b.on_hand
            && leb_ℤ (pos item.quantity) b.reserved
            && b.version == read.version)
          (λ b. record b {
            on_hand = b.on_hand -ℤ pos item.quantity;
            reserved = b.reserved -ℤ pos item.quantity;
            updated_by = some order;
            version = b.version + 1;
          }))
        (λ count.
          throw_if (count == 0) (conflict modified_concurrently)
          >> use_up actor order item reservations read)
        (λ db h. ground arith)
        (λ count.
          Keeps-bind SameItems (throw_if (count == 0) (conflict modified_concurrently))
            (λ _. use_up actor order item reservations read) (λ db h. h)
            (λ _.
              Keeps-bind SameItems (consume item.quantity reservations)
                (λ _. committed_entry actor order item read)
                (consume-SameItems item.quantity reservations) (λ _ db h. h)))

  commit_one-SameItems :
      (actor : Option ℕ) (order : ℕ) (item : ReserveStockItem)
      → Keeps SameItems (commit_one actor order item)
  unfolding commit_one
  commit_one-SameItems actor order item db h =
      let reservations = select_from 0 (active_for order item.product_id) db.reservations in
      elim (Option_cases (db.balances item.product_id)) [
        | inl missing ↦ ground arith
        | inr (read, found) ↦
            ground (arith, commit_write-SameItems actor order item reservations read db h)
      ]

  commit_reservation-SameItems :
      (order : ℕ) (items : List ReserveStockItem) (actor : Option ℕ)
      → Keeps SameItems (commit_reservation order items actor)
  unfolding commit_reservation
  commit_reservation-SameItems order items actor =
      Keeps-for_each SameItems (commit_one actor order) (aggregate_items items)
        (commit_one-SameItems actor order)

  update_order_shipment_status-SameItems :
      (k version : ℕ) → Keeps SameItems (update_order_shipment_status k version)
  unfolding update_order_shipment_status set_shipment_status
  update_order_shipment_status-SameItems k version db h =
      elim (Option_cases (shipment_status (items_of_order k db.order_items))) [
        | inl nothing ↦ ground arith
        | inr (next, e) ↦ ground arith
      ]

  try_finalize-SameItems : (deal_id actor : ℕ) → Keeps SameItems (try_finalize deal_id actor)
  try_finalize-SameItems deal_id actor db h = (try_finalize_rows deal_id actor db).0.3 ∙ h

  pub finish_delivery-SameItems :
      (order actor deal_id version : ℕ) (stock : List ReserveStockItem)
      → Keeps SameItems (finish_delivery order actor deal_id version stock)
  unfolding finish_delivery
  finish_delivery-SameItems order actor deal_id version stock =
      Keeps-bind SameItems (commit_reservation order stock (some actor))
        (λ _. update_order_shipment_status order version >> try_finalize deal_id actor)
        (commit_reservation-SameItems order stock (some actor))
        (λ _.
          Keeps-bind SameItems (update_order_shipment_status order version)
            (λ _. try_finalize deal_id actor) (update_order_shipment_status-SameItems order version)
            (λ _. try_finalize-SameItems deal_id actor))
