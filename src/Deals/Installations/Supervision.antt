-- ===== src/Deals/Installations/Supervision.antt =====
-- What the supervisor's confirmation and tryFinalize do to a confirmation that is there.
use hpl_back.Base.{
  ℕ, ◌≡◌, refl, sym, ap, ◌∙◌, Option, none, some, List, arith, if◌then◌else◌, ◌==◌, get_elem?, set,
  get_elem?-set_self, get_elem?-set_ne, get_elem?-bound, Bool_cases, Option_cases, inl, inr,
}
use native.Mathlib.Decide.{ℕ_discrete}
use hpl_back.Store.{
  Db, Deal, Order, DealInstallation, Action, transaction, not_found, conflict, installation_missing,
  modified_concurrently, throw, pure, gets, ◌>>=◌, ◌>>◌,
}
use hpl_back.Store.Keeps.{Keeps, Keeps-bind, Keeps-if, Keeps-transaction, Keeps-or_throw}
use hpl_back.Access.{PolicyUser, can_read_deal}
use hpl_back.Deals.Installations.Outcomes.{leads}
use hpl_back.Deals.{
  update_installation, live_deal, completed_now, is_set, try_finalize, lock_fulfillment_rows,
  complete_deal, complete_order, complete_installation, notify_deal_completed, order_closed,
  order_for, may_complete, installation_for, to_snapshot, evaluate_deal_completion, finalize_deal,
}
use hpl_back.Deals.Once.{
  marked, installed, finalize_completes, installed_closes, installed_same, complete_order_frame,
}
use hpl_back.Deals.Finalize.{finalize_open, finalize_idle, finalize_closes}
use hpl_back.Deals.Installations.{
  assert_head_or_director, require_deal_for_management, reread, finalize_and_reread,
  record_supervised, supervised_elsewhere, claim_supervision, supervise_existing, supervision_write,
  confirm_supervisor, is_unsupervised, supervised,
}

module _ (k at : ℕ) (by : Option ℕ) where
  -- The installation was confirmed then and by that user.
  abbrev pub ConfirmedIn : List DealInstallation → Type 0
  ConfirmedIn rows =
      (i : DealInstallation) × (get_elem? rows k ≡ some i)
      × (i.supervisor_confirmed_at ≡ some at)
      × (i.supervisor_confirmed_by_id ≡ by)

  abbrev pub Confirmed : Db → Type 0
  Confirmed db = ConfirmedIn db.installations

  -- A write that keeps both columns.
  pub set-ConfirmedIn :
      (rows : List DealInstallation) (j : ℕ) (old new : DealInstallation)
      → get_elem? rows j ≡ some old
      → new.supervisor_confirmed_at ≡ old.supervisor_confirmed_at
      → new.supervisor_confirmed_by_id ≡ old.supervisor_confirmed_by_id
      → ConfirmedIn rows
      → ConfirmedIn (set rows j new)
  set-ConfirmedIn rows j old new found same_at same_by (i, here, confirmed, who) =
      elim (ℕ_discrete j k) [
        | yes this ↦
            let there = get_elem?-set_self rows j new (get_elem?-bound rows j found) in
            (
              new,
              ap (λ n. get_elem? (set rows j new) n) (sym this) ∙ there,
              ground arith,
              ground arith,
            )
        | no other ↦ (i, get_elem?-set_ne rows j k new other ∙ here, confirmed, who)
      ]

  complete_order-installations :
      (order : Option (ℕ × Order)) (db : Db)
      → (complete_order order db).1.installations ≡ db.installations
  unfolding complete_order
  complete_order-installations none db = refl
  complete_order-installations (some (j, o)) db = elim (Bool_cases (order_closed o)) [
    | inl closed ↦ ground arith
    | inr pending ↦ elim (Option_cases (get_elem? db.orders j)) [
      | inl no_row ↦ ground arith
      | inr (row, found) ↦ ground arith
    ]
  ]

  complete_deal-installations :
      (deal_id actor : ℕ) (d : Deal) (order : Option (ℕ × Order)) (db : Db)
      → (complete_deal deal_id actor d order db).1.installations ≡ db.installations
  unfolding complete_deal notify_deal_completed
  complete_deal-installations deal_id actor d order db =
      elim (Option_cases (get_elem? db.deals deal_id)) [
        | inl no_row ↦ ground arith
        | inr (row, found) ↦ elim (Bool_cases (may_complete row)) [
          | inr fails ↦ ground arith
          | inl passes ↦
              let claimed : Db = record db { deals = set db.deals deal_id (marked db.now row) } in
              let (done, frame) = complete_order_frame order claimed in
              let same_rows = complete_order-installations order claimed in
              ground (arith, done, same_rows)
        ]
      ]

  complete_installation-Confirmed :
      (i : Option (ℕ × DealInstallation)) → Keeps Confirmed (complete_installation i)
  unfolding complete_installation
  complete_installation-Confirmed none db h = h
  complete_installation-Confirmed (some (j, i)) db h =
      elim (Option_cases (get_elem? db.installations j)) [
        | inl missing ↦
            let same_rows : (complete_installation (some (j, i)) db).1.installations
                ≡ db.installations =
              ground arith in
            rw same_rows h
        | inr (row, found) ↦ elim (Bool_cases (is_set row.completed_at)) [
          | inl done ↦
              let same_rows : (complete_installation (some (j, i)) db).1.installations
                  ≡ db.installations =
                ground arith in
              rw same_rows h
          | inr open_job ↦
              let new : DealInstallation = completed_now db.now row in
              let rows : (complete_installation (some (j, i)) db).1.installations
                  ≡ set db.installations j new =
                ground arith in
              rw rows (set-ConfirmedIn db.installations j row new found refl refl h)
        ]
      ]

  installed-Confirmed :
      (deal_id : ℕ) (d : Deal) (db : Db) → Confirmed db → Confirmed (installed deal_id d db)
  installed-Confirmed deal_id d db h =
      elim (Bool_cases
        (evaluate_deal_completion (to_snapshot deal_id d db)).can_complete_installation) [
          | inl closes ↦
              rw (installed_closes deal_id d db closes)
                (complete_installation-Confirmed (installation_for deal_id db) db h)
          | inr idle ↦ rw (installed_same deal_id d db idle) h
        ]

  finalize_deal-Confirmed :
      (deal_id actor : ℕ) (d : Deal) → Keeps Confirmed (finalize_deal deal_id actor d)
  finalize_deal-Confirmed deal_id actor d db h =
      elim (Bool_cases (evaluate_deal_completion (to_snapshot deal_id d db)).can_complete_deal) [
        | inl can ↦
            rw
              (
                finalize_completes deal_id d db actor can,
                complete_deal-installations deal_id actor d (order_for deal_id db)
                    (installed deal_id d db),
              )
              (installed-Confirmed deal_id d db h)
        | inr never ↦
            elim (Bool_cases
              (evaluate_deal_completion (to_snapshot deal_id d db)).can_complete_installation) [
                | inl closes ↦
                    rw (finalize_closes deal_id actor db d never closes)
                      (complete_installation-Confirmed (installation_for deal_id db) db h)
                | inr idle ↦ rw (finalize_idle deal_id actor db d never idle) h
              ]
      ]

  try_finalize-Confirmed : (deal_id actor : ℕ) → Keeps Confirmed (try_finalize deal_id actor)
  unfolding try_finalize lock_fulfillment_rows
  try_finalize-Confirmed deal_id actor db h = elim (Option_cases (get_elem? db.deals deal_id)) [
    | inl missing ↦
        let same_db : (try_finalize deal_id actor db).1 ≡ db = ground arith in rw same_db h
    | inr (d, found) ↦ elim (Bool_cases d.deleted) [
      | inl deleted ↦
          let same_db : (try_finalize deal_id actor db).1 ≡ db = ground arith in rw same_db h
      | inr live ↦
          rw (finalize_open deal_id actor db d found live)
            (finalize_deal-Confirmed deal_id actor d db h)
    ]
  ]

  reread-Confirmed : (j : ℕ) → Keeps Confirmed (reread j)
  unfolding reread
  reread-Confirmed j db h =
      Keeps-or_throw Confirmed (get_elem? db.installations j) (not_found installation_missing) db h

  finalize_and_reread-Confirmed :
      (deal_id user j : ℕ) → Keeps Confirmed (finalize_and_reread deal_id user j)
  unfolding finalize_and_reread
  finalize_and_reread-Confirmed deal_id user j =
      Keeps-bind Confirmed (try_finalize deal_id user) (λ _. reread j)
        (try_finalize-Confirmed deal_id user) (λ _. reread-Confirmed j)

  -- The guarded update takes only a row without a confirmation.
  update-Confirmed :
      (j now user : ℕ)
      → Keeps Confirmed (update_installation j is_unsupervised (supervised now user))
  update-Confirmed j now user db (i, here, confirmed, who) =
      elim (Option_cases (get_elem? db.installations j)) [
        | inl missing ↦ (i, ground arith, confirmed, who)
        | inr (row, found) ↦ elim (Bool_cases (is_unsupervised row)) [
          | inr taken ↦ (i, ground arith, confirmed, who)
          | inl free ↦ elim (ℕ_discrete j k) [
            | yes this ↦
                let same_row : get_elem? db.installations j ≡ some i =
                  ap (λ n. get_elem? db.installations n) this ∙ here in
                ground arith
            | no other ↦
                let there = get_elem?-set_ne db.installations j k (supervised now user row) other in
                (i, ground arith, confirmed, who)
          ]
        ]
      ]

  supervised_elsewhere-Confirmed :
      (deal_id user : ℕ) (latest : DealInstallation)
      → Keeps Confirmed (supervised_elsewhere deal_id user latest)
  unfolding supervised_elsewhere
  supervised_elsewhere-Confirmed deal_id user latest =
      Keeps-if Confirmed (is_set latest.supervisor_confirmed_at)
        (try_finalize deal_id user >> pure latest) (throw (conflict modified_concurrently))
        (Keeps-bind Confirmed (try_finalize deal_id user) (λ _. pure latest)
          (try_finalize-Confirmed deal_id user) (λ _ db h. h))
        (λ db h. h)

  claim_supervision-Confirmed :
      (deal_id now user j : ℕ) → Keeps Confirmed (claim_supervision deal_id now user j)
  unfolding claim_supervision record_supervised
  claim_supervision-Confirmed deal_id now user j =
      let claimed : Action DealInstallation =
        record_supervised deal_id now user j >> finalize_and_reread deal_id user j in
      let lost : Action DealInstallation = reread j >>= supervised_elsewhere deal_id user in
      Keeps-bind Confirmed (update_installation j is_unsupervised (supervised now user))
        (λ count. if count == 1 then claimed else lost) (update-Confirmed j now user)
        (λ count.
          Keeps-if Confirmed (count == 1) claimed lost
            (Keeps-bind Confirmed (record_supervised deal_id now user j)
              (λ _. finalize_and_reread deal_id user j) (λ db h. h)
              (λ _. finalize_and_reread-Confirmed deal_id user j))
            (Keeps-bind Confirmed (reread j) (supervised_elsewhere deal_id user)
              (reread-Confirmed j) (supervised_elsewhere-Confirmed deal_id user)))

  supervise_existing-Confirmed :
      (deal_id user : ℕ) (existing : Option (ℕ × DealInstallation))
      → Keeps Confirmed (supervise_existing deal_id user existing)
  unfolding supervise_existing
  supervise_existing-Confirmed deal_id user none = λ db h. h
  supervise_existing-Confirmed deal_id user (some (j, i)) =
      let claim : Action DealInstallation =
        gets (λ db. db.now) >>= λ now. claim_supervision deal_id now user j in
      Keeps-if Confirmed (is_set i.supervisor_confirmed_at) (finalize_and_reread deal_id user j)
        claim (finalize_and_reread-Confirmed deal_id user j)
        (λ db h. claim_supervision-Confirmed deal_id db.now user j db h)

  supervision_write-Confirmed :
      (deal_id user : ℕ) → Keeps Confirmed (supervision_write deal_id user)
  unfolding supervision_write lock_fulfillment_rows
  supervision_write-Confirmed deal_id user db h = elim (Option_cases (get_elem? db.deals deal_id)) [
    | inl missing ↦
        let same_db : (supervision_write deal_id user db).1 ≡ db = ground arith in rw same_db h
    | inr (d, found) ↦
        let goes : (supervision_write deal_id user db).1
            ≡ (supervise_existing deal_id user (installation_for deal_id db) db).1 =
          ground arith in
        rw goes (supervise_existing-Confirmed deal_id user (installation_for deal_id db) db h)
  ]

  pub confirm_supervisor-Confirmed :
      (deal_id : ℕ) (user : PolicyUser) → Keeps Confirmed (confirm_supervisor deal_id user)
  unfolding confirm_supervisor assert_head_or_director require_deal_for_management
  confirm_supervisor-Confirmed deal_id user db h =
      let write : Action DealInstallation = supervision_write deal_id user.id in
      elim (Bool_cases (leads user)) [
        | inr refused ↦
            let same_db : (confirm_supervisor deal_id user db).1 ≡ db = ground arith in rw same_db h
        | inl may ↦ elim (Option_cases (live_deal deal_id db)) [
          | inl missing ↦
              let same_db : (confirm_supervisor deal_id user db).1 ≡ db = ground arith in
              rw same_db h
          | inr (deal, found) ↦ elim (Bool_cases (can_read_deal user deal.owner_id)) [
            | inr hidden ↦
                let same_db : (confirm_supervisor deal_id user db).1 ≡ db = ground arith in
                rw same_db h
            | inl readable ↦
                let goes : confirm_supervisor deal_id user db ≡ transaction write db =
                  ground arith in
                rw goes (
                  Keeps-transaction Confirmed write (supervision_write-Confirmed deal_id user.id) db
                    h)
          ]
        ]
      ]
