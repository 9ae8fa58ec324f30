-- ===== src/Deals/Installations/Kept.antt =====
-- Sequences of calls of the operations on installations.
use hpl_back.Base.{
  get_elem?-append, ℕ, ◌≡◌, refl, ◌||◌, Option, some, [], ◌∷◌, arith, get_elem?, set, Bool_cases,
  Option_cases, inl, inr,
}
use hpl_back.Store.{Db, DealInstallation, Action, transaction}
use hpl_back.Store.Keeps.{Keeps, Keeps-transaction}
use hpl_back.Access.{PolicyUser, can_read_deal}
use hpl_back.Deals.{live_deal, installation_for, lock_fulfillment_rows}
use hpl_back.Deals.Installations.{
  assert_head_or_director, require_deal_for_installation_access, ScheduleInstallation, schedule,
  rescheduled, new_installation, UpdateInstallationAssessment, assessment_changed, work_changed,
  assessed, record_assessed, write_assessment, assess_existing, assessment_write, update_assessment,
  confirm_supervisor,
}
use hpl_back.Deals.Installations.Outcomes.{leads, installation_for-get, schedule_outcome}
use hpl_back.Deals.Installations.Supervision.{
  Confirmed, set-ConfirmedIn, confirm_supervisor-Confirmed,
}

module _ (k at : ℕ) (by : Option ℕ) where
  schedule-Confirmed :
      (deal_id : ℕ) (dto : ScheduleInstallation) (user : PolicyUser)
      → Keeps (Confirmed k at by) (schedule deal_id dto user)
  schedule-Confirmed deal_id dto user db (i, here, confirmed, who) =
      elim (schedule_outcome deal_id dto user db) [
        | inl (fails, same_db) ↦ rw same_db (i, here, confirmed, who)
        | inr (done, may, inl (new, rows)) ↦ rw rows (
          i,
          get_elem?-append db.installations (new_installation deal_id dto ∷ []) k i here,
          confirmed,
          who,
        )
        | inr (done, may, inr (j, old, found, open_job, rows)) ↦ rw rows (
            set-ConfirmedIn k at by db.installations j old (rescheduled dto old)
              (installation_for-get deal_id j old db found) refl refl (i, here, confirmed, who))
      ]

  write_assessment-Confirmed :
      (deal_id : ℕ) (dto : UpdateInstallationAssessment) (user j : ℕ) (i : DealInstallation)
      (now : ℕ) (db : Db)
      → get_elem? db.installations j ≡ some i
      → Confirmed k at by db
      → Confirmed k at by (write_assessment deal_id dto user j i now db).1
  unfolding write_assessment record_assessed
  write_assessment-Confirmed deal_id dto user j i now db found h =
      let rows : (write_assessment deal_id dto user j i now db).1.installations
          ≡ set db.installations j (assessed dto now user i) =
        elim (Bool_cases (assessment_changed dto i)) [
          | inl changed ↦ ground arith
          | inr same_comment ↦ ground arith
        ] in
      rw rows
        (set-ConfirmedIn k at by db.installations j i (assessed dto now user i) found refl refl h)

  assessment_write-Confirmed :
      (deal_id : ℕ) (dto : UpdateInstallationAssessment) (user : ℕ)
      → Keeps (Confirmed k at by) (assessment_write deal_id dto user)
  unfolding assessment_write lock_fulfillment_rows assess_existing
  assessment_write-Confirmed deal_id dto user db h =
      elim (Option_cases (get_elem? db.deals deal_id)) [
        | inl missing ↦
            let same_db : (assessment_write deal_id dto user db).1 ≡ db = ground arith in
            rw same_db h
        | inr (d, there) ↦ elim (Option_cases (installation_for deal_id db)) [
          | inl no_job ↦
              let same_db : (assessment_write deal_id dto user db).1 ≡ db = ground arith in
              rw same_db h
          | inr ((j, i), found) ↦
              elim (Bool_cases (assessment_changed dto i || work_changed dto i)) [
                | inr unchanged ↦
                    let same_db : (assessment_write deal_id dto user db).1 ≡ db = ground arith in
                    rw same_db h
                | inl changed ↦
                    let goes : (assessment_write deal_id dto user db).1
                        ≡ (write_assessment deal_id dto user j i db.now db).1 =
                      ground arith in
                    rw goes (
                      write_assessment-Confirmed deal_id dto user j i db.now db
                        (installation_for-get deal_id j i db found) h)
              ]
        ]
      ]

  update_assessment-Confirmed :
      (deal_id : ℕ) (dto : UpdateInstallationAssessment) (user : PolicyUser)
      → Keeps (Confirmed k at by) (update_assessment deal_id dto user)
  unfolding update_assessment assert_head_or_director require_deal_for_installation_access
  update_assessment-Confirmed deal_id dto user db h =
      let write : Action DealInstallation = assessment_write deal_id dto user.id in
      elim (Bool_cases (leads user)) [
        | inr refused ↦
            let same_db : (update_assessment deal_id dto user db).1 ≡ db = ground arith in
            rw same_db h
        | inl may ↦ elim (Option_cases (live_deal deal_id db)) [
          | inl missing ↦
              let same_db : (update_assessment deal_id dto user db).1 ≡ db = ground arith in
              rw same_db h
          | inr (deal, found) ↦ elim (Bool_cases (can_read_deal user deal.owner_id)) [
            | inr hidden ↦
                let same_db : (update_assessment deal_id dto user db).1 ≡ db = ground arith in
                rw same_db h
            | inl readable ↦
                let goes : update_assessment deal_id dto user db ≡ transaction write db =
                  ground arith in
                rw goes (
                  Keeps-transaction (Confirmed k at by) write
                    (assessment_write-Confirmed deal_id dto user.id) db h)
          ]
        ]
      ]

-- One call of an operation on installations.
pub data Call (db db' : Db) : Type 0 where
  scheduling :
      (deal_id : ℕ) (dto : ScheduleInstallation) (user : PolicyUser)
      → db' ≡ (schedule deal_id dto user db).1
      → Call db db'
  assessment :
      (deal_id : ℕ) (dto : UpdateInstallationAssessment) (user : PolicyUser)
      → db' ≡ (update_assessment deal_id dto user db).1
      → Call db db'
  supervision :
      (deal_id : ℕ) (user : PolicyUser) → db' ≡ (confirm_supervisor deal_id user db).1 → Call db db'

pub data Calls (db : Db) : Db → Type 0 where
  none_yet : Calls db db
  then_call : {db1 db2 : Db} → Calls db db1 → Call db1 db2 → Calls db db2

Call-Confirmed :
    (k at : ℕ) (by : Option ℕ) (db db' : Db)
    → Call db db'
    → Confirmed k at by db
    → Confirmed k at by db'
Call-Confirmed k at by db db' (Call.scheduling deal_id dto user e) h =
    rw e (schedule-Confirmed k at by deal_id dto user db h)
Call-Confirmed k at by db db' (Call.assessment deal_id dto user e) h =
    rw e (update_assessment-Confirmed k at by deal_id dto user db h)
Call-Confirmed k at by db db' (Call.supervision deal_id user e) h =
    rw e (confirm_supervisor-Confirmed k at by deal_id user db h)

-- Once an installation has a supervisor's confirmation, its time and the user it names stay as they
-- are over any sequence of calls of the operations on installations, by any users and for any
-- deals, also where a call completes the installation or the deal.
pub supervision_stays :
    (k at : ℕ) (by : Option ℕ) (db : Db) {db' : Db}
    → Confirmed k at by db
    → Calls db db'
    → Confirmed k at by db'
supervision_stays k at by db h Calls.none_yet = h
supervision_stays k at by db h (Calls.then_call {db1 = db1} {db2 = db2} calls call) =
    Call-Confirmed k at by db1 db2 call (supervision_stays k at by db h calls)
