-- ===== src/Orders.antt =====
-- Cancellation of orders, entry of payments, computed statuses (src/modules/orders/orders.service.ts and
-- src/modules/inventory/tasks/reserve-ttl.task.ts).
pub mod Cancel
pub mod Payments
pub mod Deliveries
pub mod Closed
mod Tests
use hpl_back.Base.{
  leb, all, any, ℕ, ◌+◌, ◌-◌, ◌*◌, Bool, true, false, not, ◌&&◌, Option, none, some, List, [], ◌∷◌,
  ◌++◌, if◌then◌else◌, ◌==◌, ltb, same, includes, length, get_elem?, select_from,
}
use hpl_back.Domain.{
  RoleName, role_name_enum, OrderStatus, order_status_enum, PaymentStatus, PaymentRecordStatus,
}
use hpl_back.Store.{
  Db, Deal, Order, OrderItem, AuditEvent, Activity, ActivityType, order_not_found, order_access,
  permission, not_positive, terminal_status, modified_concurrently, not_found, forbidden, conflict,
  bad_request, Exception, Result, ok, err, Action, pure, throw, gets, or_throw, catch, transaction,
  ◌>>=◌, ◌>>◌, modify, throw_if, unless, for_each, audit, update_order,
}
use hpl_back.Inventory.Stock.{release_reservation}
use hpl_back.Access.{
  PolicyUser, OrderPermissions, order_permissions, order_scope_filter, reads_owner,
}

-- An order that is not deleted.
abbrev pub live_order : ℕ → Db → Option Order
live_order k db = elim (get_elem? db.orders k) [
  | none ↦ none
  | some o ↦ if o.deleted then none else some o
]

-- `include: { deal: { select: { ownerId } } }`; the foreign key keeps the deal.
abbrev pub owner_of : Order → Db → Option ℕ
owner_of o db = elim (get_elem? db.deals o.deal_id) [ none ↦ none | some d ↦ some d.owner_id ]

unfoldable pub read_order : ℕ → Action (Order × ℕ)
read_order k = do
  found ← gets (live_order k)
  order ← or_throw found (not_found order_not_found)
  owner ← gets (owner_of order)
  owner_id ← or_throw owner (not_found order_not_found)
  pure (order, owner_id)

unfoldable pub assert_order_mutation_allowed :
    PolicyUser → Order → ℕ → (OrderPermissions → Bool) → Action (Unit {0})
assert_order_mutation_allowed user order owner selector =
    throw_if (not (selector (order_permissions user order.status owner))) (forbidden permission)

unfoldable pub assert_order_read_access : PolicyUser → ℕ → Action (Unit {0})
assert_order_read_access user owner =
    throw_if (not (reads_owner (order_scope_filter user) owner user.id)) (forbidden order_access)

abbrev pub terminal_statuses : List OrderStatus
terminal_statuses =
    OrderStatus.partially_shipped ∷ OrderStatus.shipped ∷ OrderStatus.completed
    ∷ OrderStatus.cancelled ∷ []

abbrev pub cancelled : Order → Order
cancelled o = record o { status = OrderStatus.cancelled; version = o.version + 1 }

-- The transaction of `cancelOrder`, after the read of the order.
unfoldable pub cancel_current : ℕ → ℕ → Order → Action Order
cancel_current actor k order = do
  release_reservation k (some actor)
  count ← update_order k (λ o. o.version == order.version) cancelled
  throw_if (count == 0) (conflict modified_concurrently)
  audit (some actor) (AuditEvent.order_cancelled k order.status)
  found ← gets (λ db. get_elem? db.orders k)
  or_throw found (not_found order_not_found)

unfoldable pub cancel_write : ℕ → ℕ → Action Order
cancel_write actor k = do
  found ← gets (live_order k)
  order ← or_throw found (not_found order_not_found)
  throw_if (includes terminal_statuses order.status) (conflict terminal_status)
  cancel_current actor k order

unfoldable pub cancel_order : ℕ → PolicyUser → Action (Order × OrderPermissions)
cancel_order k user = do
  existing ← read_order k
  assert_order_read_access user existing.1
  unless (includes terminal_statuses existing.0.status)
      (assert_order_mutation_allowed user existing.0 existing.1 (λ p. p.can_delete))
  order ← transaction (cancel_write user.id k)
  pure (order, order_permissions user order.status existing.1)

-- `paymentDate`, `comment` and `fileId` are copied and never read by what is modelled.
unfoldable pub add_payment : ℕ → ℕ → PolicyUser → Action ℕ
add_payment k amount user = do
  existing ← read_order k
  assert_order_mutation_allowed user existing.0 existing.1 (λ p. p.can_add_payment)
  throw_if (amount == 0) (bad_request not_positive)
  id ← gets (λ db. length db.payments)
  modify (λ db. record db {
    payments =
        db.payments
        ++ (record {
          order_id = k;
          amount = amount;
          status = PaymentRecordStatus.pending;
          created_by_id = user.id;
        }
            ∷ []);
  })
  pure id

abbrev pub reserve_ttl_ms : ℕ
reserve_ttl_ms = 3 * 24 * 60 * 60 * 1000

-- Waiting for payment since before the cutoff.
abbrev pub payment_overdue : ℕ → Order → Bool
payment_overdue now o =
    same o.status OrderStatus.waiting_payment
    && not o.deleted
    && ltb (o.created_at + reserve_ttl_ms) now

abbrev pub still_waiting : ℕ → Db → Option Order
still_waiting k db = elim (live_order k db) [
  | none ↦ none
  | some o ↦ if same o.status OrderStatus.waiting_payment then some o else none
]

abbrev pub add_activity : ℕ → ActivityType → Action (Unit {0})
add_activity author type = modify (λ db. record db {
  activities = db.activities ++ (record { author_id = author; type = type } ∷ []);
})

-- The transaction of one overdue order; the owner of its deal was read with the list.
unfoldable pub auto_cancel_write : ℕ → ℕ → Option Order → Action (Unit {0})
auto_cancel_write k owner none = pure tt
auto_cancel_write k owner (some current) = do
  release_reservation k (some owner)
  count ← update_order k (λ o. o.version == current.version) cancelled
  unless (count == 0) (do
    add_activity owner
        (ActivityType.status_changed k OrderStatus.waiting_payment OrderStatus.cancelled)
    audit none (AuditEvent.order_auto_cancelled_reserve_ttl k))

unfoldable pub auto_cancel : List Deal → ℕ × Order → Action (Unit {0})
auto_cancel deals (k, o) =
    catch
      (transaction (do
        deal ← or_throw (get_elem? deals o.deal_id) (not_found order_not_found)
        current ← gets (still_waiting k)
        auto_cancel_write k deal.owner_id current))
      (λ _. pure tt)

unfoldable pub cancel_expired_waiting_payment_orders : Action (Unit {0})
cancel_expired_waiting_payment_orders = do
  expired ← gets (λ db. select_from 0 (payment_overdue db.now) db.orders)
  deals ← gets (λ db. db.deals)
  for_each (auto_cancel deals) expired

unfoldable pub calculate_payment_status : ℕ → ℕ → PaymentStatus
calculate_payment_status paid_amount total_amount =
    if paid_amount == 0
    then PaymentStatus.unpaid
    else if leb total_amount paid_amount
    then PaymentStatus.paid
    else PaymentStatus.partially_paid

-- The status that the deliveries of an order's items give it.
unfoldable pub shipment_status : List OrderItem → Option OrderStatus
shipment_status items =
    if all (λ i. leb i.quantity i.delivered_quantity) items
    then some OrderStatus.shipped
    else if any (λ i. ltb 0 i.delivered_quantity) items
    then some OrderStatus.partially_shipped
    else none

abbrev pub items_of_order : ℕ → List OrderItem → List OrderItem
items_of_order k [] = []
items_of_order k (i ∷ is) =
    let rest = items_of_order k is in if i.order_id == k then i ∷ rest else rest

unfoldable pub set_shipment_status : ℕ → ℕ → Option OrderStatus → Action (Unit {0})
set_shipment_status k expected_version none = pure tt
set_shipment_status k expected_version (some next) = do
  count ←
      update_order k (λ o. o.version == expected_version)
        (λ o. record o { status = next; version = o.version + 1 })
  throw_if (count == 0) (conflict modified_concurrently)

unfoldable pub update_order_shipment_status : ℕ → ℕ → Action (Unit {0})
update_order_shipment_status k expected_version = do
  items ← gets (λ db. items_of_order k db.order_items)
  set_shipment_status k expected_version (shipment_status items)
