-- ===== src/SupplierOrders/Status.antt =====
-- The operations that move a supplier order's status (src/modules/supplier-orders/
-- supplier-orders.service.ts).
pub mod Moves
pub mod Calls
use hpl_back.Base.{
  ℕ, Bool, true, false, not, ◌&&◌, ◌||◌, Option, none, some, List, [], ◌∷◌, ◌++◌, if◌then◌else◌,
  ◌==◌, same, includes, get_elem?,
}
use hpl_back.Domain.{SupplierOrderStatus, supplier_order_status_enum}
use hpl_back.Store.{
  Db, SupplierOrder, AuditEvent, ActivityType, order_not_found, terminal_status,
  modified_concurrently, not_found, conflict, bad_request, Action, pure, throw, gets, or_throw,
  transaction, ◌>>=◌, ◌>>◌, throw_if, unless, audit,
}
use hpl_back.Access.{PolicyUser}
use hpl_back.Deals.{is_set, lock_fulfillment_rows, try_finalize, try_finalize_deal}
use hpl_back.Orders.{add_activity}
use hpl_back.SupplierOrders.{
  supplier_order_status_transitions, ready_confirmable_statuses, is_client_shipment_supplier_status,
  update_supplier_order, assert_manage_allowed, assert_client_delivery_allowed,
  assert_deal_paid_for_shipment, require_accessible_order,
}

-- `findUniqueOrThrow`.
unfoldable pub reread : ℕ → Action SupplierOrder
reread k = do
  found ← gets (λ db. get_elem? db.supplier_orders k)
  or_throw found (not_found order_not_found)

-- The transaction's `null` when the guarded update took no row.
abbrev pub when_claimed : ℕ → Action SupplierOrder → Action (Option SupplierOrder)
when_claimed count m = if count == 1 then (do o ← m; pure (some o)) else pure none

-- The row that another client left, if it is as wanted.
abbrev pub settle_lost :
    (SupplierOrder → Bool) → Action (Unit {0}) → Option SupplierOrder → Action SupplierOrder
settle_lost wanted m none = throw (conflict modified_concurrently)
settle_lost wanted m (some latest) =
    if wanted latest then m >> pure latest else throw (conflict modified_concurrently)

abbrev pub ready_confirmed : ℕ → ℕ → SupplierOrder → SupplierOrder
ready_confirmed now user o = record o {
  status = SupplierOrderStatus.ready_for_shipment;
  ready_confirmed_at = some now;
  ready_confirmed_by_id = some user;
}

abbrev pub may_confirm_ready : SupplierOrder → Bool
may_confirm_ready o =
    not (is_set o.ready_confirmed_at) && includes ready_confirmable_statuses o.status

unfoldable pub record_ready : ℕ → ℕ → ℕ → SupplierOrder → Action SupplierOrder
unfolding reread
record_ready k now user read = do
  add_activity user (
      ActivityType.supplier_order_status_changed read.deal_id k read.status
        SupplierOrderStatus.ready_for_shipment)
  audit (some user) (AuditEvent.supplier_order_ready_confirmed k read.status now user)
  reread k

unfoldable pub confirm_ready_write : ℕ → ℕ → ℕ → SupplierOrder → Action (Option SupplierOrder)
confirm_ready_write k now user read = do
  count ← update_supplier_order k may_confirm_ready (ready_confirmed now user)
  when_claimed count (record_ready k now user read)

-- `if (claimed) return claimed`, else what the row is by now.
abbrev pub claimed_or :
    ℕ → (SupplierOrder → Bool) → Action (Unit {0}) → Option SupplierOrder → Action SupplierOrder
claimed_or k wanted m (some o) = pure o
claimed_or k wanted m none = do
  latest ← gets (λ db. get_elem? db.supplier_orders k)
  settle_lost wanted m latest

unfoldable pub claim_ready : ℕ → PolicyUser → SupplierOrder → Action SupplierOrder
claim_ready k user read = do
  now ← gets (λ db. db.now)
  claimed ← transaction (confirm_ready_write k now user.id read)
  claimed_or k (λ o. is_set o.ready_confirmed_at) (pure tt) claimed

unfoldable pub ready_or_claim : ℕ → PolicyUser → SupplierOrder → Action SupplierOrder
ready_or_claim k user read =
    if is_set read.ready_confirmed_at
    then reread k
    else throw_if (not (includes ready_confirmable_statuses read.status))
        (bad_request terminal_status)
      >> claim_ready k user read

unfoldable pub confirm_ready : ℕ → PolicyUser → Action SupplierOrder
confirm_ready k user =
    assert_manage_allowed user >> (require_accessible_order k user >>= ready_or_claim k user)

abbrev pub delivered_now : ℕ → ℕ → SupplierOrder → SupplierOrder
delivered_now now user o = record o {
  status = SupplierOrderStatus.delivered;
  delivered_at = some now;
  delivered_by_id = some user;
}

abbrev pub is_shipped : SupplierOrder → Bool
is_shipped o = same o.status SupplierOrderStatus.shipped

abbrev pub is_delivered : SupplierOrder → Bool
is_delivered o = same o.status SupplierOrderStatus.delivered

unfoldable pub record_delivery : ℕ → ℕ → ℕ → ℕ → Action SupplierOrder
unfolding reread
record_delivery k now user deal_id = do
  add_activity user (ActivityType.client_delivery_confirmed deal_id k)
  audit (some user) (AuditEvent.client_delivery_confirmed k now user)
  try_finalize deal_id user
  reread k

unfoldable pub confirm_delivery_write : ℕ → ℕ → ℕ → ℕ → Action (Option SupplierOrder)
confirm_delivery_write k now user deal_id = do
  lock_fulfillment_rows deal_id
  assert_deal_paid_for_shipment deal_id
  count ← update_supplier_order k is_shipped (delivered_now now user)
  when_claimed count (record_delivery k now user deal_id)

unfoldable pub finalize_again : ℕ → ℕ → Action (Unit {0})
finalize_again deal_id user = do try_finalize_deal deal_id user; pure tt

unfoldable pub claim_delivery : ℕ → PolicyUser → SupplierOrder → Action SupplierOrder
claim_delivery k user read = do
  now ← gets (λ db. db.now)
  claimed ← transaction (confirm_delivery_write k now user.id read.deal_id)
  claimed_or k is_delivered (finalize_again read.deal_id user.id) claimed

unfoldable pub delivered_or_claim : ℕ → PolicyUser → SupplierOrder → Action SupplierOrder
delivered_or_claim k user read =
    throw_if (same read.status SupplierOrderStatus.cancelled) (bad_request terminal_status)
    >> (if is_delivered read
        then finalize_again read.deal_id user.id >> reread k
        else throw_if (not (is_shipped read)) (bad_request terminal_status)
          >> claim_delivery k user read)

unfoldable pub confirm_client_delivery : ℕ → PolicyUser → Action SupplierOrder
confirm_client_delivery k user =
    assert_client_delivery_allowed user
    >> (require_accessible_order k user >>= delivered_or_claim k user)

unfoldable pub record_status : ℕ → ℕ → SupplierOrder → SupplierOrderStatus → Action SupplierOrder
unfolding reread
record_status k user read status = do
  add_activity user (ActivityType.supplier_order_status_changed read.deal_id k read.status status)
  audit (some user) (AuditEvent.supplier_order_status_changed k read.status status)
  reread k

abbrev pub has_status : SupplierOrderStatus → SupplierOrder → Bool
has_status status o = same o.status status

-- The transaction of `updateStatus`; a lost race is no error if the row has the wanted status.
unfoldable pub update_status_write :
    ℕ → ℕ → SupplierOrder → SupplierOrderStatus → Action SupplierOrder
update_status_write k user read status = do
  unless (not (is_client_shipment_supplier_status status && not (same status read.status)))
      (assert_deal_paid_for_shipment read.deal_id)
  count ← update_supplier_order k (has_status read.status) (λ o. record o { status = status })
  latest ← gets (λ db. get_elem? db.supplier_orders k)
  if count == 0
      then settle_lost (has_status status) (pure tt) latest
      else record_status k user read status

unfoldable pub change_status :
    ℕ → SupplierOrderStatus → PolicyUser → SupplierOrder → Action SupplierOrder
change_status k status user read =
    if same status SupplierOrderStatus.delivered
    then confirm_client_delivery k user
    else (if same status read.status
        then pure read
        else throw_if (not (includes (supplier_order_status_transitions read.status) status))
            (bad_request terminal_status)
          >> transaction (update_status_write k user.id read status))

unfoldable pub update_status : ℕ → SupplierOrderStatus → PolicyUser → Action SupplierOrder
update_status k status user =
    assert_manage_allowed user >> (require_accessible_order k user >>= change_status k status user)
