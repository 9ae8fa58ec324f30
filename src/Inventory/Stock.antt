-- ===== src/Inventory/Stock.antt =====
-- Reservations of stock (src/modules/inventory/inventory.service.ts): `reserveStock`,
-- `releaseReservation`, `releaseExpiredReservations` and `commitReservation`. `Number.EPSILON` in the
-- source absorbs float noise below the unit in which quantities are counted here.
pub mod Balanced
pub mod Aggregate
pub mod Reserve
pub mod ReserveAll
pub mod Consume
pub mod Expire
pub mod Commit
pub mod Release
use Prim.Native.Nat.{min}
use hpl_back.Base.{
  ℕ, ◌+◌, ◌-◌, ◌*◌, Bool, true, false, not, ◌&&◌, Option, none, some, List, [], ◌∷◌, ◌++◌, map,
  if◌then◌else◌, ◌==◌, ltb, leb, ℤ, pos, ◌+ℤ◌, ◌-ℤ◌, leb_ℤ, same, includes, length, get_elem?,
  sum_by, select_from,
}
use hpl_back.Domain.{
  StockReservationStatus, stock_reservation_status_enum, OrderStatus, order_status_enum,
}
use hpl_back.Store.{
  Db, StockBalance, StockReservation, Order, AuditEvent, insufficient_stock,
  insufficient_reservation, balance_missing, modified_concurrently, bad_request, conflict,
  not_found, Result, ok, err, Action, pure, throw, gets, catch, transaction, ◌>>=◌, ◌>>◌, modify,
  throw_if, or_throw, unless, for_each, audit, update_balance, update_reservation, update_order,
}

-- Three days, in milliseconds.
abbrev pub reservation_ttl_ms : ℕ
reservation_ttl_ms = 3 * 24 * 60 * 60 * 1000

pub record ReserveStockItem : Type 0 where
  pub product_id : ℕ
  pub quantity : ℕ

-- The map's entry of a product grows by the quantity; a new product comes last.
unfoldable pub add_quantity : ReserveStockItem → List ReserveStockItem → List ReserveStockItem
add_quantity i [] = i ∷ []
add_quantity i (j ∷ js) =
    if j.product_id == i.product_id
    then (record j { quantity = j.quantity + i.quantity }) ∷ js
    else j ∷ add_quantity i js

unfoldable pub aggregate_from :
    List ReserveStockItem → List ReserveStockItem → List ReserveStockItem
aggregate_from acc [] = acc
aggregate_from acc (i ∷ is) = aggregate_from (add_quantity i acc) is

unfoldable pub aggregate_items : List ReserveStockItem → List ReserveStockItem
aggregate_items = aggregate_from []

unfoldable pub calculate_available : StockBalance → ℤ
calculate_available b = b.on_hand -ℤ b.reserved

-- `version: balance?.version ?? -1`: no row has version -1.
abbrev pub at_version : Option StockBalance → StockBalance → Bool
at_version none b = false
at_version (some read) b = b.version == read.version

abbrev pub create_reservation : StockReservation → Action ℕ
create_reservation r db =
    (ok (length db.reservations), record db { reservations = db.reservations ++ (r ∷ []) })

abbrev column : (StockBalance → ℤ) → Option StockBalance → ℤ
column f none = pos 0
column f (some b) = f b

abbrev old_columns : Option StockBalance → Option (ℤ × ℤ)
old_columns none = none
old_columns (some b) = some (b.reserved, b.available)

-- The part of one round of `reserveStock` that follows the read: the guarded update, the reservation
-- row and the audit entry. `read` is the row as it was read, which another client may have changed.
unfoldable pub reserve_write : Option ℕ → ℕ → ReserveStockItem → Option StockBalance → Action ℕ
reserve_write actor order item read = do
  count ←
      update_balance item.product_id
        (λ b. leb_ℤ (pos item.quantity) b.available && at_version read b)
        (λ b. record b {
          reserved = b.reserved +ℤ pos item.quantity;
          available = b.available -ℤ pos item.quantity;
          updated_by = some order;
          version = b.version + 1;
        })
  throw_if (count == 0) (bad_request insufficient_stock)
  now ← gets (λ db. db.now)
  reservation ← create_reservation (record {
    product_id = item.product_id;
    order_id = order;
    quantity = item.quantity;
    status = StockReservationStatus.active;
    expires_at = some (now + reservation_ttl_ms);
  })
  audit actor (
      AuditEvent.stock_reserved (old_columns read) order item.product_id item.quantity
        (column (λ b. b.reserved) read +ℤ pos item.quantity)
        (column (λ b. b.available) read -ℤ pos item.quantity) (now + reservation_ttl_ms))
  pure reservation

unfoldable pub reserve_item : Option ℕ → ℕ → ReserveStockItem → Action ℕ
reserve_item actor order item = do
  read ← gets (λ db. db.balances item.product_id)
  reserve_write actor order item read

unfoldable pub reserve_loop : Option ℕ → ℕ → List ReserveStockItem → Action (List ℕ)
reserve_loop actor order [] = pure []
reserve_loop actor order (i ∷ is) = do
  reservation ← reserve_item actor order i
  rest ← reserve_loop actor order is
  pure (reservation ∷ rest)

unfoldable pub reserve_stock : Option ℕ → ℕ → List ReserveStockItem → Action (List ℕ)
reserve_stock actor order items = reserve_loop actor order (aggregate_items items)

abbrev pub is_active : StockReservation → Bool
is_active r = same r.status StockReservationStatus.active

-- An active reservation of an order.
abbrev pub active_of_order : ℕ → StockReservation → Bool
active_of_order order r = r.order_id == order && is_active r

abbrev pub set_released : ℕ → Action ℕ
set_released k =
    update_reservation k (λ _. true) (λ r. record r { status = StockReservationStatus.released })

abbrev with_version : StockBalance → StockBalance → Bool
with_version read b = b.version == read.version

-- One round of `releaseReservation` after the read of the balance.
unfoldable pub release_write :
    Option ℕ → ℕ → ℕ × StockReservation → Option StockBalance → Action (Unit {0})
release_write actor order (k, r) none = pure tt
release_write actor order (k, r) (some read) = do
  count ← update_balance r.product_id (with_version read) (λ b. record b {
    reserved = b.reserved -ℤ pos r.quantity;
    available = b.available +ℤ pos r.quantity;
    updated_by = some order;
    version = b.version + 1;
  })
  throw_if (count == 0) (conflict modified_concurrently)
  set_released k
  audit actor (
      AuditEvent.stock_released (read.reserved, read.available) order r.product_id r.quantity
        (read.reserved -ℤ pos r.quantity) (read.available +ℤ pos r.quantity))

unfoldable pub release_one : Option ℕ → ℕ → ℕ × StockReservation → Action (Unit {0})
release_one actor order (k, r) = do
  read ← gets (λ db. db.balances r.product_id)
  release_write actor order (k, r) read

unfoldable pub release_reservation : ℕ → Option ℕ → Action (Unit {0})
release_reservation order actor = do
  reservations ← gets (λ db. select_from 0 (active_of_order order) db.reservations)
  for_each (release_one actor order) reservations

-- `status: { notIn: […] }` of the order update in `releaseExpiredReservations`.
abbrev pub kept_on_expiry : List OrderStatus
kept_on_expiry =
    OrderStatus.cancelled ∷ OrderStatus.partially_shipped ∷ OrderStatus.shipped
    ∷ OrderStatus.completed ∷ []

abbrev back_to_waiting : Order → Order
back_to_waiting o = record o { status = OrderStatus.waiting_stock; version = o.version + 1 }

-- The transaction of one expired reservation, after the read of its balance. It returns whether it
-- released the reservation.
unfoldable pub expire_write : ℕ × StockReservation → Option StockBalance → Action Bool
expire_write (k, r) none = pure false
expire_write (k, r) (some read) = do
  count ← update_balance r.product_id (with_version read) (λ b. record b {
    reserved = b.reserved -ℤ pos r.quantity;
    available = b.available +ℤ pos r.quantity;
    version = b.version + 1;
  })
  throw_if (count == 0) (conflict modified_concurrently)
  set_released k
  remaining_active ←
      gets (λ db. length (select_from 0 (active_of_order r.order_id) db.reservations))
  unless (not (remaining_active == 0)) (do
    update_order r.order_id (λ o. not o.deleted && not (includes kept_on_expiry o.status))
        back_to_waiting
    pure tt)
  pure true

-- The second check, inside the transaction: another run may have handled the reservation.
unfoldable pub expire_current : ℕ × StockReservation → Option StockReservation → Action Bool
expire_current (k, r) none = pure false
expire_current (k, r) (some current) =
    if is_active current
    then (do read ← gets (λ db. db.balances r.product_id); expire_write (k, r) read)
    else pure false

unfoldable pub expire_one : ℕ × StockReservation → Action Bool
expire_one (k, r) = do
  current ← gets (λ db. get_elem? db.reservations k)
  expire_current (k, r) current

-- One round of the batch: an exception is logged and skipped.
unfoldable pub expire_round : ℕ → ℕ × StockReservation → Action ℕ
expire_round released_count kr =
    catch
      (do
        released ← transaction (expire_one kr)
        pure (if released then released_count + 1 else released_count))
      (λ _. pure released_count)

unfoldable pub expire_loop : ℕ → List (ℕ × StockReservation) → Action ℕ
expire_loop released_count [] = pure released_count
expire_loop released_count (kr ∷ rest) = do n ← expire_round released_count kr; expire_loop n rest

-- A null is before no time.
abbrev is_before : Option ℕ → ℕ → Bool
is_before none now = false
is_before (some time) now = ltb time now

-- Active and past its time.
abbrev pub expired_at : ℕ → StockReservation → Bool
expired_at now r = is_active r && is_before r.expires_at now

unfoldable pub release_expired_reservations : Action ℕ
release_expired_reservations = do
  expired ← gets (λ db. select_from 0 (expired_at db.now) db.reservations)
  expire_loop 0 expired

abbrev pub active_for : ℕ → ℕ → StockReservation → Bool
active_for order product r = r.order_id == order && r.product_id == product && is_active r

abbrev pub snd_quantity : ℕ × StockReservation → ℕ
snd_quantity (_, r) = r.quantity

-- The row still is as it was read.
abbrev unchanged : StockReservation → StockReservation → Bool
unchanged read r = is_active r && r.quantity == read.quantity

abbrev pub consume_row : ℕ → StockReservation → StockReservation
consume_row consumed r =
    if r.quantity - consumed == 0
    then record r { status = StockReservationStatus.fulfilled }
    else record r { quantity = r.quantity - consumed }

-- The inner loop of `commitReservation`: the oldest reservations are used up first.
unfoldable pub consume : ℕ → List (ℕ × StockReservation) → Action (Unit {0})
consume remaining [] = pure tt
consume remaining ((k, r) ∷ rest) = if remaining == 0 then pure tt else (do
  let consumed = min remaining r.quantity
  count ← update_reservation k (unchanged r) (consume_row consumed)
  throw_if (count == 0) (conflict modified_concurrently)
  consume (remaining - consumed) rest)

-- One product of `commitReservation` after the read of its balance.
unfoldable pub commit_write :
    Option ℕ → ℕ → ReserveStockItem → List (ℕ × StockReservation) → StockBalance → Action (Unit {0})
commit_write actor order item reservations read = do
  count ←
      update_balance item.product_id
        (λ b.
          leb_ℤ (pos item.quantity) b.on_hand
          && leb_ℤ (pos item.quantity) b.reserved
          && with_version read b)
        (λ b. record b {
          on_hand = b.on_hand -ℤ pos item.quantity;
          reserved = b.reserved -ℤ pos item.quantity;
          updated_by = some order;
          version = b.version + 1;
        })
  throw_if (count == 0) (conflict modified_concurrently)
  consume item.quantity reservations
  audit actor (
      AuditEvent.stock_committed (read.on_hand, read.reserved) order item.product_id item.quantity
        (read.on_hand -ℤ pos item.quantity) (read.reserved -ℤ pos item.quantity))

unfoldable pub commit_one : Option ℕ → ℕ → ReserveStockItem → Action (Unit {0})
commit_one actor order item = do
  reservations ← gets (λ db. select_from 0 (active_for order item.product_id) db.reservations)
  throw_if (ltb (sum_by snd_quantity reservations) item.quantity)
      (conflict insufficient_reservation)
  found ← gets (λ db. db.balances item.product_id)
  read ← or_throw found (not_found balance_missing)
  commit_write actor order item reservations read

unfoldable pub commit_reservation : ℕ → List ReserveStockItem → Option ℕ → Action (Unit {0})
commit_reservation order items actor = for_each (commit_one actor order) (aggregate_items items)
