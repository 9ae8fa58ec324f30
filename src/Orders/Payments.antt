-- ===== src/Orders/Payments.antt =====
-- `confirmPayment` (src/modules/orders/orders.service.ts): the accountant's answer to a pending payment.
pub mod Accounted
pub mod Confirm
pub mod Answer
use hpl_back.Base.{
  ℕ, ◌+◌, ◌-◌, Bool, true, false, not, ◌&&◌, ◌||◌, Option, none, some, List, [], ◌∷◌, ◌++◌,
  if◌then◌else◌, ◌==◌, ltb, same, includes, get_elem?, sum_by,
}
use hpl_back.Domain.{
  OrderStatus, order_status_enum, PaymentStatus, payment_status_enum, PaymentRecordStatus,
  payment_record_status_enum,
}
use hpl_back.Store.{
  Db, Order, Payment, AuditEvent, ActivityType, order_not_found, payment_not_found, permission,
  maker_checker, bad_payment_status, already_processed, order_is_cancelled, exceeds_total,
  deal_not_found, modified_concurrently, not_found, forbidden, conflict, bad_request, ok, Action,
  pure, gets, or_throw, transaction, ◌>>=◌, ◌>>◌, throw_if, unless, audit, update_order, update_row,
}
use hpl_back.Access.{PolicyUser, Permission, permission_enum, OrderPermissions, order_permissions}
use hpl_back.Deals.{try_finalize}
use hpl_back.Orders.{
  read_order, assert_order_mutation_allowed, add_activity, calculate_payment_status,
}

abbrev pub update_payment : ℕ → (Payment → Bool) → (Payment → Payment) → Action ℕ
update_payment k test change db =
    let (rows, n) = update_row k test change db.payments in (ok n, record db { payments = rows })

abbrev pub is_pending : Payment → Bool
is_pending p = same p.status PaymentRecordStatus.pending

-- A payment's share of what an order has been paid.
abbrev pub confirmed_amount : ℕ → Payment → ℕ
confirmed_amount order p =
    if p.order_id == order && same p.status PaymentRecordStatus.confirmed then p.amount else 0

-- `payment.aggregate` over the confirmed payments of an order; no rows sum to zero.
abbrev pub confirmed_total : ℕ → List Payment → ℕ
confirmed_total order = sum_by (confirmed_amount order)

-- The order's new columns; `Decimal.max(0, …)` is the subtraction on ℕ.
abbrev pub with_paid : Order → ℕ → Order → Order
with_paid read paid o = record o {
  paid_amount = paid;
  remaining_amount = read.total_amount - paid;
  payment_status = calculate_payment_status paid read.total_amount;
  version = o.version + 1;
}

-- The order is paid: the deal may be complete now.
unfoldable pub finish_paid : ℕ → ℕ → ℕ → Action Order
finish_paid actor order_id deal_id = do
  try_finalize deal_id actor
  completed ← gets (λ db. get_elem? db.orders order_id)
  or_throw completed (not_found order_not_found)

-- What follows the claim of the payment: the amounts, the guarded update of the order, the records, and
-- the deal's completion when all is paid.
unfoldable pub settle_order : ℕ → ℕ → ℕ → PaymentRecordStatus → Order → Action Order
settle_order actor payment_id order_id status order = do
  paid ← gets (λ db. confirmed_total order_id db.payments)
  throw_if (same status PaymentRecordStatus.confirmed && ltb order.total_amount paid)
      (conflict exceeds_total)
  count ← update_order order_id (λ o. o.version == order.version) (with_paid order paid)
  throw_if (count == 0) (conflict modified_concurrently)
  found ← gets (λ db. get_elem? db.orders order_id)
  updated ← or_throw found (not_found order_not_found)
  add_activity actor (ActivityType.payment_received order_id payment_id status)
  audit (some actor) (
      AuditEvent.payment_status_changed payment_id order_id status paid (order.total_amount - paid))
  (if same (calculate_payment_status paid order.total_amount) PaymentStatus.paid
      then finish_paid actor order_id order.deal_id
      else pure updated)

-- The transaction. The touches of the deal and of the order only lock their rows; `deal.update` throws
-- when there is no such row.
unfoldable pub confirm_write : ℕ → ℕ → Payment → PaymentRecordStatus → Action Order
confirm_write actor payment_id payment status = do
  found ← gets (λ db. get_elem? db.orders payment.order_id)
  order ← or_throw found (not_found order_not_found)
  throw_if (same order.status OrderStatus.cancelled) (conflict order_is_cancelled)
  deal ← gets (λ db. get_elem? db.deals order.deal_id)
  or_throw deal (not_found deal_not_found)
  count ← update_payment payment_id is_pending (λ p. record p { status = status })
  throw_if (count == 0) (conflict already_processed)
  settle_order actor payment_id payment.order_id status order

-- `confirmPayment` once the payment has passed its own checks.
unfoldable pub answer_payment :
    ℕ → Payment → PaymentRecordStatus → PolicyUser → Action (Order × OrderPermissions)
answer_payment payment_id payment status user = do
  existing ← read_order payment.order_id
  unless (same existing.0.status OrderStatus.cancelled)
      (assert_order_mutation_allowed user existing.0 existing.1 (λ p. p.can_confirm_payment))
  order ← transaction (confirm_write user.id payment_id payment status)
  pure (order, order_permissions user order.status existing.1)

abbrev pub is_answer : PaymentRecordStatus → Bool
is_answer status =
    same status PaymentRecordStatus.confirmed || same status PaymentRecordStatus.rejected

unfoldable pub confirm_payment :
    ℕ → PaymentRecordStatus → PolicyUser → Action (Order × OrderPermissions)
confirm_payment payment_id status user = do
  throw_if (not (includes user.permissions Permission.payments_confirm)) (forbidden permission)
  throw_if (not (is_answer status)) (bad_request bad_payment_status)
  found ← gets (λ db. get_elem? db.payments payment_id)
  payment ← or_throw found (not_found payment_not_found)
  throw_if (payment.created_by_id == user.id) (forbidden maker_checker)
  throw_if (not (is_pending payment)) (conflict already_processed)
  answer_payment payment_id payment status user
