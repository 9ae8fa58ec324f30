-- ===== src/SupplierOrders.antt =====
-- Orders to suppliers (src/modules/supplier-orders): the status table, the checks that all operations
-- share, and the operations in the children.
pub mod Table
pub mod Dates
pub mod Status
pub mod Reminders
pub mod History
mod Tests
use hpl_back.Base.{
  ℕ, ◌+◌, Bool, true, false, not, ◌&&◌, ◌||◌, Option, none, some, List, [], ◌∷◌, ◌++◌,
  if◌then◌else◌, ◌==◌, ltb, same, includes, any, get_elem?,
}
use hpl_back.Domain.{
  RoleName, SupplierOrderStatus, supplier_order_status_enum, PaymentStatus, payment_status_enum,
}
use hpl_back.Store.{
  Db, Deal, Order, SupplierOrder, order_not_found, deal_not_found, permission, not_paid, not_found,
  forbidden, conflict, Action, pure, gets, or_throw, ◌>>=◌, ◌>>◌, throw_if, update_row,
  ActivityType, ok,
}
use hpl_back.Access.{PolicyUser, Permission, permission_enum, has_any_role, can_read_deal}
use hpl_back.Deals.{live_deal, is_value, order_for}

unfoldable pub supplier_order_status_transitions : SupplierOrderStatus → List SupplierOrderStatus
supplier_order_status_transitions SupplierOrderStatus.draft =
    SupplierOrderStatus.sent_to_production ∷ SupplierOrderStatus.in_production
    ∷ SupplierOrderStatus.ready_for_shipment ∷ SupplierOrderStatus.cancelled ∷ []
supplier_order_status_transitions SupplierOrderStatus.sent_to_production =
    SupplierOrderStatus.in_production ∷ SupplierOrderStatus.ready_for_shipment
    ∷ SupplierOrderStatus.cancelled ∷ []
supplier_order_status_transitions SupplierOrderStatus.in_production =
    SupplierOrderStatus.ready_for_shipment ∷ SupplierOrderStatus.cancelled ∷ []
supplier_order_status_transitions SupplierOrderStatus.ready_for_shipment =
    SupplierOrderStatus.shipped ∷ SupplierOrderStatus.cancelled ∷ []
supplier_order_status_transitions SupplierOrderStatus.shipped = SupplierOrderStatus.delivered ∷ []
supplier_order_status_transitions SupplierOrderStatus.delivered = []
supplier_order_status_transitions SupplierOrderStatus.cancelled = []

abbrev pub ready_confirmable_statuses : List SupplierOrderStatus
ready_confirmable_statuses =
    SupplierOrderStatus.draft ∷ SupplierOrderStatus.sent_to_production
    ∷ SupplierOrderStatus.in_production ∷ SupplierOrderStatus.ready_for_shipment ∷ []

abbrev pub readiness_reminder_stop_statuses : List SupplierOrderStatus
readiness_reminder_stop_statuses =
    SupplierOrderStatus.ready_for_shipment ∷ SupplierOrderStatus.shipped
    ∷ SupplierOrderStatus.delivered ∷ SupplierOrderStatus.cancelled ∷ []

abbrev pub client_shipment_supplier_statuses : List SupplierOrderStatus
client_shipment_supplier_statuses = SupplierOrderStatus.shipped ∷ SupplierOrderStatus.delivered ∷ []

unfoldable pub is_client_shipment_supplier_status : SupplierOrderStatus → Bool
is_client_shipment_supplier_status status = includes client_shipment_supplier_statuses status

-- Also used by the deliveries of an order.
unfoldable pub assert_paid_for_client_shipment : Option PaymentStatus → Action (Unit {0})
assert_paid_for_client_shipment status =
    throw_if (not (is_value status PaymentStatus.paid)) (conflict not_paid)

abbrev pub update_supplier_order :
    ℕ → (SupplierOrder → Bool) → (SupplierOrder → SupplierOrder) → Action ℕ
update_supplier_order k test change db =
    let (rows, n) = update_row k test change db.supplier_orders in
    (ok n, record db { supplier_orders = rows })

unfoldable pub assert_manage_allowed : PolicyUser → Action (Unit {0})
assert_manage_allowed user =
    throw_if (not (includes user.permissions Permission.supplier_orders_manage))
      (forbidden permission)

unfoldable pub assert_client_delivery_allowed : PolicyUser → Action (Unit {0})
assert_client_delivery_allowed user =
    throw_if (not (has_any_role user (RoleName.manager ∷ RoleName.head ∷ RoleName.director ∷ [])))
      (forbidden permission)

-- The payment status of the deal's order, if neither is deleted. The touch of the order in between
-- only locks its row.
abbrev pub client_payment : ℕ → Db → Option PaymentStatus
client_payment deal_id db = elim (live_deal deal_id db) [
  | none ↦ none
  | some d ↦ elim (order_for deal_id db) [
    | none ↦ none
    | some (_, o) ↦ if o.deleted then none else some o.payment_status
  ]
]

unfoldable pub assert_deal_paid_for_shipment : ℕ → Action (Unit {0})
unfolding assert_paid_for_client_shipment
assert_deal_paid_for_shipment deal_id = do
  status ← gets (client_payment deal_id)
  assert_paid_for_client_shipment status

abbrev pub readable_deal : ℕ → PolicyUser → Db → Bool
readable_deal deal_id user db = elim (live_deal deal_id db) [
  | none ↦ false
  | some d ↦ can_read_deal user d.owner_id
]

unfoldable pub assert_deal_access_or_not_found : ℕ → PolicyUser → Action (Unit {0})
assert_deal_access_or_not_found deal_id user = do
  readable ← gets (readable_deal deal_id user)
  throw_if (not readable) (not_found deal_not_found)

unfoldable pub require_accessible_order : ℕ → PolicyUser → Action SupplierOrder
unfolding assert_deal_access_or_not_found
require_accessible_order k user = do
  found ← gets (λ db. get_elem? db.supplier_orders k)
  order ← or_throw found (not_found order_not_found)
  assert_deal_access_or_not_found order.deal_id user
  pure order
