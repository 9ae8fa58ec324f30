-- ===== src/Deals/Once.antt =====
-- A deal is completed at most once: what the completing run of `tryFinalize` writes.
use hpl_back.Base.{
  ℕ, ◌≡◌, refl, ap, Bool, true, false, not, Option, none, some, List, [], ◌∷◌, ◌++◌, map, arith,
  ◌==◌, same, length, get_elem?, set, select_from, Bool_cases, Option_cases, inl, inr,
}
use hpl_back.Domain.{DealStage, deal_stage_enum, order_status_enum}
use hpl_back.Store.{Db, Deal, Order, ok, unless}
use hpl_back.Deals.{
  DealCompletionSnapshot, is_set, order_for, installation_for, is_installation_required,
  to_snapshot, evaluate_deal_completion, completed_now, complete_installation, complete_order,
  order_closed, complete_deal, finalize_deal, unique_ids, notify_deal_completed, is_active_head,
  row_id, note_deal,
}
use hpl_back.Deals.Finalize.{evaluate_closed, complete_installation-closed}

-- What the claim of the deal asks of its row.
pub evaluate_open :
    (s : DealCompletionSnapshot)
    → (evaluate_deal_completion s).can_complete_deal ≡ true
    → (s.completed_at ≡ none) × (same s.stage DealStage.won ≡ true)
unfolding evaluate_deal_completion
evaluate_open s can = (ground arith, ground arith)

abbrev closes_installation : ℕ → Deal → Db → Bool
closes_installation deal_id d db =
    (evaluate_deal_completion (to_snapshot deal_id d db)).can_complete_installation

-- The database after the installation was closed, where the evaluation says so.
abbrev pub installed : ℕ → Deal → Db → Db
installed deal_id d db =
    (unless (not (closes_installation deal_id d db))
      (complete_installation (installation_for deal_id db)) db).1

-- The recipients: the owner and the active heads.
abbrev pub recipients : Deal → Db → List ℕ
recipients d db = unique_ids (d.owner_id ∷ map row_id (select_from 0 is_active_head db.users))

abbrev pub marked : ℕ → Deal → Deal
marked now d = record d { completed_at = some now }

append_none {ℓ κ} :
    {A : Type ℓ} {B : Type κ} (f : A → B) (xs : List A) (ys : List B)
    → length xs ≡ 0
    → ys ++ map f xs ≡ ys
append_none f [] [] e = refl
append_none f [] (y ∷ ys) e = ap (λ t. y ∷ t) (append_none f [] ys e)
append_none f (x ∷ xs) ys e = ground arith

-- What completing the order leaves alone.
abbrev pub OrderOnly : Db → Db → Type 0
OrderOnly db db' =
    (db'.deals ≡ db.deals)
    × (db'.installations ≡ db.installations)
    × (db'.users ≡ db.users)
    × (db'.notifications ≡ db.notifications)

pub complete_order_frame :
    (order : Option (ℕ × Order)) (db : Db)
    → ((complete_order order db).0 ≡ ok tt) × OrderOnly db (complete_order order db).1
unfolding complete_order
complete_order_frame none db = (refl, (refl, refl, refl, refl))
complete_order_frame (some (k, o)) db = elim (Bool_cases (order_closed o)) [
  | inl closed ↦ ground arith
  | inr pending ↦ elim (Option_cases (get_elem? db.orders k)) [
    | inl no_row ↦ ground arith
    | inr (row, found) ↦ ground arith
  ]
]

module _ (deal_id actor : ℕ) (d : Deal) (order : Option (ℕ × Order)) (db : Db) where
  pub complete_deal_writes :
      get_elem? db.deals deal_id ≡ some d
      → d.deleted ≡ false
      → d.completed_at ≡ none
      → same d.stage DealStage.won ≡ true
      → let db' = (complete_deal deal_id actor d order db).1 in
        ((complete_deal deal_id actor d order db).0 ≡ ok true)
        × (db'.deals ≡ set db.deals deal_id (marked db.now d))
        × (db'.installations ≡ db.installations)
        × (db'.notifications ≡ db.notifications ++ map (note_deal deal_id) (recipients d db))
  unfolding complete_deal notify_deal_completed
  complete_deal_writes found live pending won =
      let frame =
        complete_order_frame order (record db { deals = set db.deals deal_id (marked db.now d) }) in
      (
        ground (arith, frame),
        ground (arith, frame),
        ground (arith, frame),
        elim (Bool_cases (length (recipients d db) == 0)) [
          | inl nobody ↦
              ground
                (arith, frame, append_none (note_deal deal_id) (recipients d db) db.notifications)
          | inr somebody ↦ ground (arith, frame)
        ],
      )

evaluate_not_required :
    (s : DealCompletionSnapshot)
    → (evaluate_deal_completion s).can_complete_deal ≡ true
    → (evaluate_deal_completion s).can_complete_installation ≡ false
    → is_installation_required s.installation_required ≡ false
unfolding evaluate_deal_completion
evaluate_not_required s can idle = ground arith

evaluate_idle :
    (s : DealCompletionSnapshot)
    → is_installation_required s.installation_required ≡ false
    → (evaluate_deal_completion s).can_complete_installation ≡ false
unfolding evaluate_deal_completion
evaluate_idle s not_required = ground arith

pub evaluate_completed :
    (s : DealCompletionSnapshot) (t : ℕ)
    → s.completed_at ≡ some t
    → (evaluate_deal_completion s).can_complete_deal ≡ false
unfolding evaluate_deal_completion
evaluate_completed s t e = ground arith

evaluate_unclosed :
    (s : DealCompletionSnapshot)
    → (evaluate_deal_completion s).can_complete_installation ≡ true
    → (s.installation_completed_at ≡ none) × (is_set s.supervisor_confirmed_by_id ≡ true)
unfolding evaluate_deal_completion
evaluate_unclosed s can = (ground arith, ground arith)

module _ (deal_id : ℕ) (d : Deal) (db : Db) where
  abbrev can_complete : Bool
  can_complete = (evaluate_deal_completion (to_snapshot deal_id d db)).can_complete_deal

  pub installed_closes :
      closes_installation deal_id d db ≡ true
      → installed deal_id d db ≡ (complete_installation (installation_for deal_id db) db).1
  installed_closes closes =
      ap (λ c. (unless (not c) (complete_installation (installation_for deal_id db)) db).1) closes

  pub installed_same : closes_installation deal_id d db ≡ false → installed deal_id d db ≡ db
  installed_same idle =
      ap (λ c. (unless (not c) (complete_installation (installation_for deal_id db)) db).1) idle

  complete_installation_frame :
      let db' = (complete_installation (installation_for deal_id db) db).1 in
      (db'.deals ≡ db.deals)
      × (db'.users ≡ db.users)
      × (db'.notifications ≡ db.notifications)
      × (db'.now ≡ db.now)
  unfolding complete_installation
  complete_installation_frame = elim (Option_cases (installation_for deal_id db)) [
    | inl no_row ↦ ground arith
    | inr (row, found) ↦ ground arith
  ]

  pub installed_frame :
      let db' = installed deal_id d db in
      (db'.deals ≡ db.deals)
      × (db'.users ≡ db.users)
      × (db'.notifications ≡ db.notifications)
      × (db'.now ≡ db.now)
  installed_frame = elim (Bool_cases (closes_installation deal_id d db)) [
    | inl closes ↦ rw (installed_closes closes) complete_installation_frame
    | inr idle ↦ rw (installed_same idle) (refl, refl, refl, refl)
  ]

  complete_installation_ok : (complete_installation (installation_for deal_id db) db).0 ≡ ok tt
  unfolding complete_installation
  complete_installation_ok = elim (Option_cases (installation_for deal_id db)) [
    | inl no_row ↦ ground arith
    | inr (row, found) ↦ ground arith
  ]

  pub finalize_completes :
      (actor : ℕ)
      → can_complete ≡ true
      → finalize_deal deal_id actor d db
        ≡ complete_deal deal_id actor d (order_for deal_id db) (installed deal_id d db)
  unfolding finalize_deal complete_installation complete_deal
  finalize_completes actor can = elim (Bool_cases (closes_installation deal_id d db)) [
    | inl closes ↦ rw (can, installed_closes closes, closes, complete_installation_ok)
    | inr idle ↦ rw (can, installed_same idle, idle)
  ]

  -- A later run finds nothing to do at the installation.
  pub installed_idle :
      (d' : Deal) (db' : Db)
      → can_complete ≡ true
      → d'.installation_required ≡ d.installation_required
      → db'.installations ≡ (installed deal_id d db).installations
      → closes_installation deal_id d' db' ≡ false
  unfolding to_snapshot
  installed_idle d' db' can same_required rows =
      elim (Bool_cases (closes_installation deal_id d db)) [
        | inl closes ↦ elim (Option_cases (installation_for deal_id db)) [
          | inl no_row ↦ ground (arith, evaluate_unclosed (to_snapshot deal_id d db) closes)
          | inr ((j, i), found) ↦
              let (fresh, confirmed) = evaluate_unclosed (to_snapshot deal_id d db) closes in
              let after : installation_for deal_id db' ≡ some (j, completed_now db.now i) =
                rw (rows, installed_closes closes)
                  (complete_installation-closed deal_id db j i found (ground arith)) in
              evaluate_closed (to_snapshot deal_id d' db') (ground arith)
        ]
        | inr idle ↦
            evaluate_idle (to_snapshot deal_id d' db')
              (rw same_required (evaluate_not_required (to_snapshot deal_id d db) can idle))
      ]
