-- ===== src/Deals/Installations.antt =====
-- The installation of a deal (src/modules/deals/deal-installation.service.ts).
pub mod Outcomes
pub mod Supervision
pub mod Kept
mod Tests
use hpl_back.Base.{
  ℕ, ◌+◌, Bool, true, false, not, ◌&&◌, ◌||◌, Option, none, some, List, [], ◌∷◌, ◌++◌,
  if◌then◌else◌, ◌==◌, ltb, same, get_elem?, length,
}
use hpl_back.Domain.{RoleName, role_name_enum, InstallationStatus, installation_status_enum}
use hpl_back.Store.{
  Db, Deal, DealInstallation, AuditEvent, ActivityType, deal_not_found, deal_access, permission,
  dates_out_of_order, installation_not_required, installation_missing, installation_done,
  modified_concurrently, not_found, forbidden, conflict, bad_request, ok, Action, pure, throw, gets,
  or_throw, transaction, ◌>>=◌, ◌>>◌, throw_if, unless, audit,
}
use hpl_back.Access.{PolicyUser, has_any_role, can_read_deal}
use hpl_back.Deals.{
  live_deal, is_set, is_installation_required, installation_for, update_installation,
  lock_fulfillment_rows, try_finalize,
}
use hpl_back.Orders.{add_activity}

-- `assertScheduler`, `assertSupervisor` and `assertAssessor`.
unfoldable pub assert_head_or_director : PolicyUser → Action (Unit {0})
assert_head_or_director user =
    throw_if (not (has_any_role user (RoleName.head ∷ RoleName.director ∷ [])))
      (forbidden permission)

unfoldable pub require_deal_for_management : ℕ → PolicyUser → Action Deal
require_deal_for_management deal_id user = do
  found ← gets (live_deal deal_id)
  deal ← or_throw found (not_found deal_not_found)
  throw_if (not (can_read_deal user deal.owner_id)) (not_found deal_not_found)
  pure deal

unfoldable pub require_deal_for_installation_access : ℕ → PolicyUser → Action Deal
require_deal_for_installation_access deal_id user = do
  found ← gets (live_deal deal_id)
  deal ← or_throw found (not_found deal_not_found)
  throw_if (not (can_read_deal user deal.owner_id)) (forbidden deal_access)
  pure deal

abbrev pub requires_installation : ℕ → Db → Bool
requires_installation deal_id db = elim (live_deal deal_id db) [
  | none ↦ false
  | some d ↦ is_installation_required d.installation_required
]

unfoldable pub assert_installation_required : ℕ → Action (Unit {0})
assert_installation_required deal_id = do
  required ← gets (requires_installation deal_id)
  throw_if (not required) (conflict installation_not_required)

pub record ScheduleInstallation : Type 0 where
  pub expected_installation_at : ℕ
  pub expected_completion_at : ℕ

abbrev pub is_instant : Option ℕ → ℕ → Bool
is_instant none t = false
is_instant (some a) t = a == t

abbrev pub dates_changed : ScheduleInstallation → DealInstallation → Bool
dates_changed dto i =
    not (is_instant i.expected_installation_at dto.expected_installation_at)
    || not (is_instant i.expected_completion_at dto.expected_completion_at)

abbrev pub scheduled_status : DealInstallation → InstallationStatus
scheduled_status i =
    if same i.status InstallationStatus.completed
    then i.status
    else if is_set i.started_at
    then InstallationStatus.in_progress
    else InstallationStatus.scheduled

abbrev pub rescheduled : ScheduleInstallation → DealInstallation → DealInstallation
rescheduled dto i = record i {
  expected_installation_at = some dto.expected_installation_at;
  expected_completion_at = some dto.expected_completion_at;
  status = scheduled_status i;
}

abbrev pub new_installation : ℕ → ScheduleInstallation → DealInstallation
new_installation deal_id dto = record {
  deal_id = deal_id;
  status = InstallationStatus.scheduled;
  expected_installation_at = some dto.expected_installation_at;
  expected_completion_at = some dto.expected_completion_at;
  assessment_comment = none;
  work_comment = none;
  assessed_at = none;
  assessed_by_id = none;
  started_at = none;
  supervisor_confirmed_at = none;
  supervisor_confirmed_by_id = none;
  completed_at = none;
}

abbrev pub add_installation : DealInstallation → Action ℕ
add_installation i db =
    (ok (length db.installations), record db { installations = db.installations ++ (i ∷ []) })

abbrev pub dates_of : DealInstallation → Option ℕ × Option ℕ
dates_of i = (i.expected_installation_at, i.expected_completion_at)

unfoldable pub record_rescheduled :
    ℕ → ScheduleInstallation → ℕ → ℕ → DealInstallation → Action (Unit {0})
record_rescheduled deal_id dto user k i = do
  add_activity user (ActivityType.installation_updated deal_id k)
  audit (some user)
      (AuditEvent.installation_dates_changed k (dates_of i) (dates_of (rescheduled dto i)))

-- The transaction's body, by what it read.
unfoldable pub schedule_existing :
    ℕ → ScheduleInstallation → ℕ → Option (ℕ × DealInstallation) → Action DealInstallation
schedule_existing deal_id dto user none = do
  k ← add_installation (new_installation deal_id dto)
  add_activity user (ActivityType.installation_updated deal_id k)
  audit (some user) (AuditEvent.installation_scheduled k (dates_of (new_installation deal_id dto)))
  pure (new_installation deal_id dto)
schedule_existing deal_id dto user (some (k, i)) = do
  throw_if (is_set i.completed_at) (conflict installation_done)
  update_installation k (λ _. true) (λ _. rescheduled dto i)
  unless (not (dates_changed dto i)) (record_rescheduled deal_id dto user k i)
  pure (rescheduled dto i)

unfoldable pub schedule_write : ℕ → ScheduleInstallation → ℕ → Action DealInstallation
schedule_write deal_id dto user = do
  lock_fulfillment_rows deal_id
  existing ← gets (installation_for deal_id)
  schedule_existing deal_id dto user existing

unfoldable pub schedule : ℕ → ScheduleInstallation → PolicyUser → Action DealInstallation
schedule deal_id dto user = do
  assert_head_or_director user
  throw_if (ltb dto.expected_completion_at dto.expected_installation_at)
      (bad_request dates_out_of_order)
  require_deal_for_management deal_id user
  assert_installation_required deal_id
  transaction (schedule_write deal_id dto user.id)

-- A comment that is given stands as what trimming leaves of it.
pub record UpdateInstallationAssessment : Type 0 where
  pub assessment_comment : Option (Option ℕ)
  pub work_comment : Option (Option ℕ)

abbrev pub comment_after : Option (Option ℕ) → Option ℕ → Option ℕ
comment_after none old = old
comment_after (some new) _ = new

abbrev pub same_comment : Option ℕ → Option ℕ → Bool
same_comment none none = true
same_comment (some a) (some b) = a == b
same_comment none (some _) = false
same_comment (some _) none = false

abbrev pub assessment_changed : UpdateInstallationAssessment → DealInstallation → Bool
assessment_changed dto i =
    not (
      same_comment (comment_after dto.assessment_comment i.assessment_comment) i.assessment_comment)

abbrev pub work_changed : UpdateInstallationAssessment → DealInstallation → Bool
work_changed dto i =
    not (same_comment (comment_after dto.work_comment i.work_comment) i.work_comment)

abbrev pub assessed : UpdateInstallationAssessment → ℕ → ℕ → DealInstallation → DealInstallation
assessed dto now user i =
    let changed = assessment_changed dto i in
    record i {
      assessment_comment = comment_after dto.assessment_comment i.assessment_comment;
      work_comment = comment_after dto.work_comment i.work_comment;
      assessed_at = if changed then some now else i.assessed_at;
      assessed_by_id = if changed then some user else i.assessed_by_id;
    }

unfoldable pub record_assessed : ℕ → ℕ → ℕ → Action (Unit {0})
record_assessed deal_id user k = do
  add_activity user (ActivityType.installation_updated deal_id k)
  audit (some user) (AuditEvent.installation_assessed k user)

unfoldable pub write_assessment :
    ℕ → UpdateInstallationAssessment → ℕ → ℕ → DealInstallation → ℕ → Action DealInstallation
write_assessment deal_id dto user k i now = do
  update_installation k (λ _. true) (λ _. assessed dto now user i)
  unless (not (assessment_changed dto i)) (record_assessed deal_id user k)
  pure (assessed dto now user i)

unfoldable pub assess_existing :
    ℕ → UpdateInstallationAssessment → ℕ → Option (ℕ × DealInstallation) → Action DealInstallation
assess_existing deal_id dto user none = throw (not_found installation_missing)
assess_existing deal_id dto user (some (k, i)) =
    if assessment_changed dto i || work_changed dto i
    then (gets (λ db. db.now) >>= write_assessment deal_id dto user k i)
    else pure i

unfoldable pub assessment_write : ℕ → UpdateInstallationAssessment → ℕ → Action DealInstallation
assessment_write deal_id dto user = do
  lock_fulfillment_rows deal_id
  existing ← gets (installation_for deal_id)
  assess_existing deal_id dto user existing

unfoldable pub update_assessment :
    ℕ → UpdateInstallationAssessment → PolicyUser → Action DealInstallation
update_assessment deal_id dto user = do
  assert_head_or_director user
  require_deal_for_installation_access deal_id user
  transaction (assessment_write deal_id dto user.id)

abbrev pub supervised : ℕ → ℕ → DealInstallation → DealInstallation
supervised now user i = record i {
  supervisor_confirmed_at = some now;
  supervisor_confirmed_by_id = some user;
}

abbrev pub is_unsupervised : DealInstallation → Bool
is_unsupervised i = not (is_set i.supervisor_confirmed_at)

unfoldable pub reread : ℕ → Action DealInstallation
reread k = do
  found ← gets (λ db. get_elem? db.installations k)
  or_throw found (not_found installation_missing)

unfoldable pub finalize_and_reread : ℕ → ℕ → ℕ → Action DealInstallation
finalize_and_reread deal_id user k = do try_finalize deal_id user; reread k

unfoldable pub record_supervised : ℕ → ℕ → ℕ → ℕ → Action (Unit {0})
record_supervised deal_id now user k = do
  add_activity user (ActivityType.installation_updated deal_id k)
  audit (some user) (AuditEvent.installation_supervisor_confirmed k now user)

-- Another client confirmed in between, or nothing was recorded.
unfoldable pub supervised_elsewhere : ℕ → ℕ → DealInstallation → Action DealInstallation
supervised_elsewhere deal_id user latest =
    if is_set latest.supervisor_confirmed_at
    then try_finalize deal_id user >> pure latest
    else throw (conflict modified_concurrently)

unfoldable pub claim_supervision : ℕ → ℕ → ℕ → ℕ → Action DealInstallation
claim_supervision deal_id now user k = do
  count ← update_installation k is_unsupervised (supervised now user)
  (if count == 1
      then record_supervised deal_id now user k >> finalize_and_reread deal_id user k
      else reread k >>= supervised_elsewhere deal_id user)

unfoldable pub supervise_existing : ℕ → ℕ → Option (ℕ × DealInstallation) → Action DealInstallation
supervise_existing deal_id user none = throw (not_found installation_missing)
supervise_existing deal_id user (some (k, i)) =
    if is_set i.supervisor_confirmed_at
    then finalize_and_reread deal_id user k
    else (gets (λ db. db.now) >>= λ now. claim_supervision deal_id now user k)

unfoldable pub supervision_write : ℕ → ℕ → Action DealInstallation
supervision_write deal_id user = do
  lock_fulfillment_rows deal_id
  existing ← gets (installation_for deal_id)
  supervise_existing deal_id user existing

unfoldable pub confirm_supervisor : ℕ → PolicyUser → Action DealInstallation
confirm_supervisor deal_id user = do
  assert_head_or_director user
  require_deal_for_management deal_id user
  transaction (supervision_write deal_id user.id)
