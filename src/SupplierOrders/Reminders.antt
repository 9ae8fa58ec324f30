-- ===== src/SupplierOrders/Reminders.antt =====
-- `processReadinessReminders` (src/modules/supplier-orders/supplier-orders.service.ts): heads and
-- directors are told of goods that are due. A day is the number of whole days in the milliseconds.
pub mod Daily
pub mod Once
use hpl_back.Base.{
  ℕ, ◌+◌, ◌/◌, Bool, true, false, not, ◌&&◌, ◌||◌, Option, none, some, List, [], ◌∷◌, ◌++◌, map,
  if◌then◌else◌, ◌==◌, ltb, same, includes, any, length, select_from,
}
use hpl_back.Domain.{
  RoleName, role_name_enum, supplier_order_status_enum, ReminderKind, reminder_kind_enum,
}
use hpl_back.Store.{
  Db, User, SupplierOrder, SupplierOrderReminderClaim, Notification, Topic, Exception, Reason,
  unique_constraint, known_request, ok, Action, pure, throw, gets, transaction, catch, ◌>>=◌, ◌>>◌,
  throw_if,
}
use hpl_back.Deals.{is_set}
use hpl_back.SupplierOrders.{readiness_reminder_stop_statuses}

abbrev pub ms_per_day : ℕ
ms_per_day = 86400000

unfoldable pub start_of_utc_day : ℕ → ℕ
start_of_utc_day time = time / ms_per_day

abbrev pub is_claim : ℕ → ReminderKind → ℕ → SupplierOrderReminderClaim → Bool
is_claim k kind today c = c.supplier_order_id == k && same c.kind kind && c.reminder_date == today

abbrev pub is_claimed : ℕ → ReminderKind → ℕ → Db → Bool
is_claimed k kind today db = any (is_claim k kind today) db.reminder_claims

abbrev pub new_claim : ℕ → ReminderKind → ℕ → SupplierOrderReminderClaim
new_claim k kind today = record { supplier_order_id = k; kind = kind; reminder_date = today }

-- `supplierOrderReminderClaim.create`: a second row with the same columns violates their uniqueness.
abbrev pub add_claim : ℕ → ReminderKind → ℕ → Action (Unit {0})
add_claim k kind today = gets (is_claimed k kind today) >>= λ taken.
    throw_if taken (known_request unique_constraint) >> λ db.
    (ok tt, record db { reminder_claims = db.reminder_claims ++ (new_claim k kind today ∷ []) })

abbrev pub reminder_to : ℕ → ReminderKind → ℕ → Notification
reminder_to k kind user = record { user_id = user; topic = Topic.supplier_order_ready k kind }

-- `notification.createMany`.
abbrev pub notify_all : ℕ → ReminderKind → List ℕ → Action (Unit {0})
notify_all k kind recipients db =
    (ok tt, record db { notifications = db.notifications ++ map (reminder_to k kind) recipients })

-- The `catch`: a violated uniqueness counts as nothing created.
abbrev pub created_none : Exception → Action ℕ
created_none (known_request Reason.unique_constraint) = pure 0
created_none e = throw e

unfoldable pub claim_and_notify : ℕ → ReminderKind → ℕ → List ℕ → Action ℕ
claim_and_notify k kind today recipients =
    catch
      (transaction
        (add_claim k kind today >> notify_all k kind recipients >> pure (length recipients)))
      created_none

-- Two days before the day the goods are due, on the day, and after it.
abbrev pub is_due : ReminderKind → ℕ → ℕ → Bool
is_due ReminderKind.soft due today = today + 2 == due
is_due ReminderKind.due due today = today == due
is_due ReminderKind.overdue due today = ltb due today

-- `created += await m`, and then the rest.
abbrev pub add_created : Action ℕ → Action ℕ → Action ℕ
add_created m rest = m >>= λ a. rest >>= λ b. pure (a + b)

unfoldable pub remind_if : ℕ → ReminderKind → ℕ → ℕ → List ℕ → Action ℕ
remind_if k kind due today recipients db =
    if is_due kind due today then claim_and_notify k kind today recipients db else pure 0 db

unfoldable pub emit_readiness_reminders_for_order : ℕ → ℕ → ℕ → List ℕ → Action ℕ
emit_readiness_reminders_for_order k expected_ready_at today recipients =
    let due = start_of_utc_day expected_ready_at in
    add_created (remind_if k ReminderKind.soft due today recipients) (
      add_created (remind_if k ReminderKind.due due today recipients)
        (remind_if k ReminderKind.overdue due today recipients))

abbrev pub is_awaited : SupplierOrder → Bool
is_awaited o =
    is_set o.expected_ready_at
    && not (is_set o.ready_confirmed_at)
    && not (includes readiness_reminder_stop_statuses o.status)

-- The orders that were selected have a date.
unfoldable pub remind_dated : ℕ → List ℕ → ℕ → Option ℕ → Action ℕ
remind_dated today recipients k none = pure 0
remind_dated today recipients k (some time) =
    emit_readiness_reminders_for_order k time today recipients

abbrev pub remind_order : ℕ → List ℕ → ℕ × SupplierOrder → Action ℕ
remind_order today recipients (k, o) = remind_dated today recipients k o.expected_ready_at

unfoldable pub remind_all : ℕ → List ℕ → List (ℕ × SupplierOrder) → Action ℕ
remind_all today recipients [] = pure 0
remind_all today recipients (x ∷ xs) =
    add_created (remind_order today recipients x) (remind_all today recipients xs)

abbrev pub is_recipient : User → Bool
is_recipient u =
    u.is_active && (includes u.roles RoleName.head || includes u.roles RoleName.director)

abbrev pub first_of : ℕ × User → ℕ
first_of (k, _) = k

unfoldable pub resolve_head_director_user_ids : List User → List ℕ
resolve_head_director_user_ids users = map first_of (select_from 0 is_recipient users)

-- The early returns for no orders and for no recipients.
abbrev pub remind_some : ℕ → List ℕ → List (ℕ × SupplierOrder) → Action ℕ
remind_some today [] orders = pure 0
remind_some today (r ∷ rs) orders = remind_all today (r ∷ rs) orders

abbrev pub awaited_orders : Db → List (ℕ × SupplierOrder)
awaited_orders db = select_from 0 is_awaited db.supplier_orders

unfoldable pub process_readiness_reminders : ℕ → Action ℕ
process_readiness_reminders now db = elim (awaited_orders db) [
  | [] ↦ pure 0 db
  | x ∷ xs ↦
      remind_some (start_of_utc_day now) (resolve_head_director_user_ids db.users) (x ∷ xs) db
]
