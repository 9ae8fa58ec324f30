-- ===== src/Deals/Finalize.antt =====
-- What `tryFinalize` does to the database.
use hpl_back.Base.{
  ℕ, suc, ◌+◌, ◌≡◌, refl, ap, Bool, true, false, none, some, List, [], ◌∷◌, arith, get_elem?, set,
  Bool_cases, Option_cases, inl, inr,
}
use hpl_back.Domain.{deal_stage_enum, order_status_enum}
use hpl_back.Store.{Db, Deal, DealInstallation, ok}
use hpl_back.Deals.{
  DealCompletionSnapshot, is_set, find_row, installation_for, installation_of_deal, to_snapshot,
  evaluate_deal_completion, completed_now, lock_fulfillment_rows, complete_installation,
  finalize_deal, try_finalize,
}
use hpl_back.Deals.Rules.{evaluate_deal_completion_closed}

pub find_row-set {ℓ} :
    {A : Type ℓ} (i : ℕ) (test : A → Bool) (rows : List A) (k : ℕ) (r : A)
    → find_row i test rows ≡ some (k, r)
    → (j : ℕ) × (k ≡ i + j)
      × (get_elem? rows j ≡ some r)
      × (test r ≡ true)
      × ((r' : A) → test r' ≡ true → find_row i test (set rows j r') ≡ some (k, r'))
find_row-set i test [] k r e = ground arith
find_row-set i test (x ∷ rows) k r e = elim (Bool_cases (test x)) [
  | inl passes ↦ (0, ground arith, ground arith, ground arith, λ r' t. ground arith)
  | inr fails ↦
      let (j, at, got, holds, put) = find_row-set (i + 1) test rows k r (ground arith) in
      (suc j, ground arith, ground arith, holds, λ r' t. ground (arith, put r' t))
]

pub evaluate_closed :
    (s : DealCompletionSnapshot)
    → is_set s.installation_completed_at ≡ true
    → (evaluate_deal_completion s).can_complete_installation ≡ false
unfolding evaluate_deal_completion
evaluate_closed s closed = ground arith

evaluate_ready :
    (s : DealCompletionSnapshot)
    → s.installation_required ≡ some true
    → s.installation_completed_at ≡ none
    → is_set s.supervisor_confirmed_by_id ≡ true
    → (evaluate_deal_completion s).can_complete_installation ≡ true
unfolding evaluate_deal_completion
evaluate_ready s required fresh confirmed = ground arith

-- The installation of the deal is closed and the deal owes one.
abbrev pub InstallationClosed : ℕ → Db → Type 0
InstallationClosed deal_id db =
    (d : Deal) × (j : ℕ) × (i : DealInstallation) × (get_elem? db.deals deal_id ≡ some d)
    × (d.deleted ≡ false)
    × (d.installation_required ≡ some true)
    × (installation_for deal_id db ≡ some (j, i))
    × (is_set i.completed_at ≡ true)

module _ (deal_id actor : ℕ) (db : Db) (d : Deal) where
  pub finalize_open :
      get_elem? db.deals deal_id ≡ some d
      → d.deleted ≡ false
      → try_finalize deal_id actor db ≡ finalize_deal deal_id actor d db
  unfolding try_finalize lock_fulfillment_rows
  finalize_open found live = ground arith

  pub finalize_idle :
      (evaluate_deal_completion (to_snapshot deal_id d db)).can_complete_deal ≡ false
      → (evaluate_deal_completion (to_snapshot deal_id d db)).can_complete_installation ≡ false
      → finalize_deal deal_id actor d db ≡ (ok false, db)
  unfolding finalize_deal
  finalize_idle never closed = rw (never, closed)

  pub finalize_closes :
      (evaluate_deal_completion (to_snapshot deal_id d db)).can_complete_deal ≡ false
      → (evaluate_deal_completion (to_snapshot deal_id d db)).can_complete_installation ≡ true
      → finalize_deal deal_id actor d db
        ≡ (ok false, (complete_installation (installation_for deal_id db) db).1)
  unfolding finalize_deal complete_installation
  finalize_closes never closes = elim (Option_cases (installation_for deal_id db)) [
    | inl no_row ↦ rw (never, closes) (ground arith)
    | inr (row, found) ↦ rw (never, closes) (ground arith)
  ]

pub finalize_refuses :
    (deal_id actor : ℕ) (db : Db) (d : Deal)
    → (evaluate_deal_completion (to_snapshot deal_id d db)).can_complete_deal ≡ false
    → (finalize_deal deal_id actor d db).0 ≡ ok false
finalize_refuses deal_id actor db d never =
    elim (Bool_cases
      (evaluate_deal_completion (to_snapshot deal_id d db)).can_complete_installation) [
        | inl closes ↦ ap (λ r. r.0) (finalize_closes deal_id actor db d never closes)
        | inr idle ↦ ap (λ r. r.0) (finalize_idle deal_id actor db d never idle)
      ]

pub try_finalize_closed :
    (deal_id actor : ℕ) (db : Db)
    → InstallationClosed deal_id db
    → try_finalize deal_id actor db ≡ (ok false, db)
unfolding to_snapshot
try_finalize_closed deal_id actor db (d, j, i, found, live, required, installation, closed) =
    let never =
      evaluate_deal_completion_closed (to_snapshot deal_id d db) required (ground arith) in
    rw (finalize_open deal_id actor db d found live) (
      finalize_idle deal_id actor db d never
        (evaluate_closed (to_snapshot deal_id d db) (ground arith)))

-- The installation's row after it is closed.
pub complete_installation-closed :
    (deal_id : ℕ) (db : Db) (j : ℕ) (i : DealInstallation)
    → installation_for deal_id db ≡ some (j, i)
    → i.completed_at ≡ none
    → installation_for deal_id (complete_installation (installation_for deal_id db) db).1
      ≡ some (j, completed_now db.now i)
unfolding complete_installation
complete_installation-closed deal_id db j i installation fresh =
    let (p, at, got, holds, put) =
      find_row-set 0 (installation_of_deal deal_id) db.installations j i installation in
    ground (arith, put (completed_now db.now i) holds)

-- If tryFinalize runs on an undeleted deal that owes an installation which the supervisor confirmed
-- and nobody closed, while the deal cannot be completed, then in every later database with the same
-- deals and with the installations that this run left, whatever was paid and delivered since,
-- tryFinalize completes nothing and changes nothing.
pub try_finalize_early :
    (deal_id actor actor' : ℕ) (db db' : Db) (d : Deal) (j : ℕ) (i : DealInstallation)
    → get_elem? db.deals deal_id ≡ some d
    → d.deleted ≡ false
    → d.installation_required ≡ some true
    → installation_for deal_id db ≡ some (j, i)
    → i.completed_at ≡ none
    → is_set i.supervisor_confirmed_by_id ≡ true
    → (evaluate_deal_completion (to_snapshot deal_id d db)).can_complete_deal ≡ false
    → db'.deals ≡ db.deals
    → db'.installations ≡ (try_finalize deal_id actor db).1.installations
    → try_finalize deal_id actor' db' ≡ (ok false, db')
unfolding to_snapshot
try_finalize_early deal_id actor actor' db db' d j i found live required installation fresh
      confirmed never deals installations =
    let closes =
      finalize_closes deal_id actor db d never
        (evaluate_ready (to_snapshot deal_id d db) required (ground arith) (ground arith)) in
    let after : installation_for deal_id db' ≡ some (j, completed_now db.now i) =
      rw (installations, finalize_open deal_id actor db d found live, closes)
        (complete_installation-closed deal_id db j i installation fresh) in
    try_finalize_closed deal_id actor' db'
      (d, j, completed_now db.now i, rw deals found, live, required, after, refl)
