-- ===== src/Deals/Installations/Tests.antt =====
-- A head sets the dates of a job that was begun.
use hpl_back.Base.{refl, true, false, none, some, [], ◌∷◌}
use hpl_back.Domain.{RoleName, DealStage, FulfillmentSource, InstallationStatus}
use hpl_back.Store.{Db, DealInstallation, empty_db}
use hpl_back.Access.{PolicyUser, can_read_deal, deal_scope_filter, has_unscoped_deal_visibility}
use hpl_back.Deals.{
  completed_now, complete_installation, try_finalize, lock_fulfillment_rows, finalize_deal,
  evaluate_deal_completion, to_snapshot,
}
use hpl_back.Deals.Installations.{
  ScheduleInstallation, schedule, confirm_supervisor, assert_head_or_director,
  require_deal_for_management, supervision_write, supervise_existing, claim_supervision,
  record_supervised, finalize_and_reread, reread, supervised,
}
use hpl_back.Deals.Installations.Supervision.{Confirmed}
use hpl_back.Deals.Installations.Kept.{Call, Calls, supervision_stays}
use hpl_back.Deals.Installations.Outcomes.{ScheduleOutcome, schedule_outcome}

abbrev head : PolicyUser
head = record { id = 1; roles = RoleName.head ∷ []; permissions = [] }

abbrev job : DealInstallation
job = record {
  deal_id = 0;
  status = InstallationStatus.scheduled;
  expected_installation_at = some 600;
  expected_completion_at = some 700;
  assessment_comment = none;
  work_comment = none;
  assessed_at = none;
  assessed_by_id = none;
  started_at = some 650;
  supervisor_confirmed_at = none;
  supervisor_confirmed_by_id = none;
  completed_at = none;
}

abbrev site : Db
site = record empty_db {
  now = 500;
  deals =
      record {
        owner_id = 2;
        stage = DealStage.won;
        completed_at = none;
        deleted = false;
        fulfillment_source = some FulfillmentSource.warehouse_stock;
        installation_required = some true;
        total_amount = 500;
        items = [];
      }
      ∷ [];
  installations = job ∷ [];
}

abbrev later : ScheduleInstallation
later = record { expected_installation_at = 800; expected_completion_at = 900 }

schedule_outcome_example : ScheduleOutcome 0 later head site (schedule 0 later head site)
schedule_outcome_example = schedule_outcome 0 later head site

-- The supervisor confirms, and then another user tries to.
abbrev director : PolicyUser
director = record { id = 3; roles = RoleName.director ∷ []; permissions = [] }

abbrev confirmed : Db
confirmed = (confirm_supervisor 0 head site).1

confirmed-Confirmed : Confirmed 0 500 (some 1) confirmed
unfolding confirm_supervisor assert_head_or_director require_deal_for_management supervision_write
    supervise_existing claim_supervision record_supervised finalize_and_reread reread try_finalize
    lock_fulfillment_rows finalize_deal evaluate_deal_completion to_snapshot can_read_deal
    deal_scope_filter has_unscoped_deal_visibility complete_installation
confirmed-Confirmed = (completed_now 500 (supervised 500 1 job), refl, refl, refl)

supervision_stays_example : Confirmed 0 500 (some 1) (confirm_supervisor 0 director confirmed).1
supervision_stays_example =
    supervision_stays 0 500 (some 1) confirmed confirmed-Confirmed
      (Calls.then_call Calls.none_yet (Call.supervision 0 director refl))
