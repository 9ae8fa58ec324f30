-- ===== src/Deals/Installations/Outcomes.antt =====
-- What scheduling and assessing an installation write.
use hpl_back.Base.{
  ℕ, ◌+◌, ◌≤◌, ◌≡◌, ◌⊎◌, sym, ap, ◌∙◌, Bool, true, false, none, some, List, [], ◌∷◌, ◌++◌, arith,
  ltb, get_elem?, set, Bool_cases, Option_cases, inl, inr,
}
use hpl_back.Domain.{RoleName, role_name_enum}
use hpl_back.Store.{Db, Deal, DealInstallation, Result, Action, is_ok, transaction}
use hpl_back.Access.{PolicyUser, has_any_role, can_read_deal}
use hpl_back.Deals.{
  live_deal, is_set, installation_for, installation_of_deal, find_row, lock_fulfillment_rows,
}
use hpl_back.Deals.Installations.{
  assert_head_or_director, require_deal_for_management, requires_installation,
  assert_installation_required, ScheduleInstallation, dates_changed, rescheduled, new_installation,
  record_rescheduled, schedule_existing, schedule_write, schedule,
}

-- The row that is found stands in the table.
find_row-get {ℓ} :
    {A : Type ℓ} (i : ℕ) (test : A → Bool) (rows : List A) (k : ℕ) (r : A)
    → find_row i test rows ≡ some (k, r)
    → (j : ℕ) × (k ≡ i + j) × (get_elem? rows j ≡ some r) × (test r ≡ true)
find_row-get i test [] k r e = absurd (cc)
find_row-get i test (x ∷ rows) k r e = elim (Bool_cases (test x)) [
  | inl passes ↦ (0, ground arith, ground arith, ground arith)
  | inr fails ↦
      let (j, at, here, passes) = find_row-get (i + 1) test rows k r (ground arith) in
      (j + 1, omega arith, ground arith, passes)
]

pub installation_for-get :
    (deal_id k : ℕ) (i : DealInstallation) (db : Db)
    → installation_for deal_id db ≡ some (k, i)
    → get_elem? db.installations k ≡ some i
installation_for-get deal_id k i db found =
    let (j, at, here, passes) =
      find_row-get 0 (installation_of_deal deal_id) db.installations k i found in
    let same_place : j ≡ k = omega arith in
    ap (λ n. get_elem? db.installations n) (sym same_place) ∙ here

abbrev pub leads : PolicyUser → Bool
leads user = has_any_role user (RoleName.head ∷ RoleName.director ∷ [])

-- Who may schedule, which dates, for which deals.
abbrev pub MaySchedule : ℕ → ScheduleInstallation → PolicyUser → Db → Type 0
MaySchedule deal_id dto user db =
    (leads user ≡ true)
    × (dto.expected_installation_at ≤ dto.expected_completion_at)
    × (requires_installation deal_id db ≡ true)
    × ((deal : Deal) × (live_deal deal_id db ≡ some deal)
        × (can_read_deal user deal.owner_id ≡ true))

-- The deal's installation is added, or its row gets the dates if it is not completed.
abbrev pub Scheduled : ℕ → ScheduleInstallation → Db → List DealInstallation → Type 0
Scheduled deal_id dto db rows =
    ((installation_for deal_id db ≡ none)
      × (rows ≡ db.installations ++ (new_installation deal_id dto ∷ [])))
    ⊎ ((k : ℕ) × (i : DealInstallation) × (installation_for deal_id db ≡ some (k, i))
        × (is_set i.completed_at ≡ false)
        × (rows ≡ set db.installations k (rescheduled dto i)))

abbrev pub ScheduleOutcome :
    ℕ → ScheduleInstallation → PolicyUser → Db → Result DealInstallation × Db → Type 0
ScheduleOutcome deal_id dto user db (r, db') =
    ((is_ok r ≡ false) × (db' ≡ db))
    ⊎ ((is_ok r ≡ true)
        × MaySchedule deal_id dto user db
        × Scheduled deal_id dto db db'.installations)

-- The transaction, on its own.
abbrev WriteOutcome : ℕ → ScheduleInstallation → Db → Result DealInstallation × Db → Type 0
WriteOutcome deal_id dto db (r, db') =
    (is_ok r ≡ false) ⊎ ((is_ok r ≡ true) × Scheduled deal_id dto db db'.installations)

schedule_write_outcome :
    (deal_id : ℕ) (dto : ScheduleInstallation) (user : ℕ) (db : Db)
    → WriteOutcome deal_id dto db (schedule_write deal_id dto user db)
unfolding schedule_write lock_fulfillment_rows schedule_existing record_rescheduled
schedule_write_outcome deal_id dto user db = elim (Option_cases (get_elem? db.deals deal_id)) [
  | inl gone ↦ inl (ground arith)
  | inr (deal, there) ↦ elim (Option_cases (installation_for deal_id db)) [
    | inl new ↦ inr (ground arith, inl (new, ground arith))
    | inr ((k, i), found) ↦ elim (Bool_cases (is_set i.completed_at)) [
      | inl done ↦ inl (ground arith)
      | inr open_job ↦
          let row = installation_for-get deal_id k i db found in
          elim (Bool_cases (dates_changed dto i)) [
            | inl changed ↦ inr (ground arith, inr (k, i, found, open_job, ground arith))
            | inr same_dates ↦ inr (ground arith, inr (k, i, found, open_job, ground arith))
          ]
    ]
  ]
]

-- The scheduling of an installation either throws with nothing written, or returns; then the user
-- is a head or director who may read the deal, the end is not before the start, the undeleted deal
-- requires an installation, and either the deal had none and one with these dates is added, or its
-- installation is not completed and gets the dates and the status that they imply, and no other
-- installation changes.
pub schedule_outcome :
    (deal_id : ℕ) (dto : ScheduleInstallation) (user : PolicyUser) (db : Db)
    → ScheduleOutcome deal_id dto user db (schedule deal_id dto user db)
unfolding schedule assert_head_or_director require_deal_for_management assert_installation_required
schedule_outcome deal_id dto user db = elim (Bool_cases (leads user)) [
  | inr refused ↦ inl (ground arith, ground arith)
  | inl may ↦ elim (Bool_cases (ltb dto.expected_completion_at dto.expected_installation_at)) [
    | inl early ↦ inl (ground arith, ground arith)
    | inr ordered ↦ elim (Option_cases (live_deal deal_id db)) [
      | inl missing ↦ inl (ground arith, ground arith)
      | inr (deal, found) ↦ elim (Bool_cases (can_read_deal user deal.owner_id)) [
        | inr hidden ↦ inl (ground arith, ground arith)
        | inl readable ↦ elim (Bool_cases (requires_installation deal_id db)) [
          | inr idle ↦ inl (ground arith, ground arith)
          | inl required ↦ elim (schedule_write_outcome deal_id dto user.id db) [
            | inl fails ↦ inl (ground arith, ground arith)
            | inr (done, scheduled) ↦
                let write : Action DealInstallation = schedule_write deal_id dto user.id in
                let goes : schedule deal_id dto user db ≡ transaction write db = ground arith in
                let same_write : transaction write db ≡ write db = ground arith in
                rw (goes ∙ same_write)
                  (inr (done, (may, ground arith, required, (deal, found, readable)), scheduled))
          ]
        ]
      ]
    ]
  ]
]
