-- ===== src/Deals/Amounts.antt =====
-- What completing a deal does to the orders and the payments.
use hpl_back.Base.{
  ℕ, ◌≡◌, ◌⊎◌, refl, ◌∙◌, Option, none, some, arith, get_elem?, set, Bool_cases, Option_cases, inl,
  inr,
}
use hpl_back.Store.{Db, Deal, Order, DealInstallation}
use hpl_back.Deals.{
  try_finalize, lock_fulfillment_rows, finalize_deal, complete_deal, complete_order,
  completed_order, complete_installation, notify_deal_completed, order_closed, order_for,
  may_complete, installation_for, to_snapshot, evaluate_deal_completion, Evaluation,
}
use hpl_back.Deals.Once.{
  complete_order_frame, marked, installed, finalize_completes, installed_closes, installed_same,
}
use hpl_back.Deals.Finalize.{finalize_open, finalize_idle, finalize_closes}

-- The tables that no completion writes.
abbrev pub Untouched : Db → Db → Type 0
Untouched db db' =
    (db'.payments ≡ db.payments)
    × (db'.balances ≡ db.balances)
    × (db'.reservations ≡ db.reservations)
    × (db'.order_items ≡ db.order_items)
    × (db'.supplier_orders ≡ db.supplier_orders)

-- At most one order is completed.
abbrev pub OrderCompleted : Db → Db → Type 0
OrderCompleted db db' =
    Untouched db db'
    × ((db'.orders ≡ db.orders)
        ⊎ ((k : ℕ) × (row : Order) × (get_elem? db.orders k ≡ some row)
            × (db'.orders ≡ set db.orders k (completed_order row))))

complete_order_rows :
    (order : Option (ℕ × Order)) (db : Db) → OrderCompleted db (complete_order order db).1
unfolding complete_order
complete_order_rows none db = ((refl, refl, refl, refl, refl), inl refl)
complete_order_rows (some (k, o)) db = elim (Bool_cases (order_closed o)) [
  | inl closed ↦ (ground arith, inl (ground arith))
  | inr pending ↦ elim (Option_cases (get_elem? db.orders k)) [
    | inl no_row ↦ (ground arith, inl (ground arith))
    | inr (row, found) ↦ elim (Bool_cases (order_closed row)) [
      | inl row_closed ↦ (ground arith, inl (ground arith))
      | inr row_pending ↦ (ground arith, inr (k, row, found, ground arith))
    ]
  ]
]

complete_deal_rows :
    (deal_id actor : ℕ) (d : Deal) (order : Option (ℕ × Order)) (db : Db)
    → OrderCompleted db (complete_deal deal_id actor d order db).1
unfolding complete_deal notify_deal_completed
complete_deal_rows deal_id actor d order db = elim (Option_cases (get_elem? db.deals deal_id)) [
  | inl no_row ↦ (ground arith, inl (ground arith))
  | inr (row, found) ↦ elim (Bool_cases (may_complete row)) [
    | inr fails ↦ (ground arith, inl (ground arith))
    | inl passes ↦
        let claimed : Db = record db { deals = set db.deals deal_id (marked db.now row) } in
        let (done, frame) = complete_order_frame order claimed in
        let (kept, orders) = complete_order_rows order claimed in
        (
          ground (arith, done, kept),
          elim orders [
            | inl same_rows ↦ inl (ground (arith, done, same_rows))
            | inr (k, o, at, changed) ↦ inr (k, o, at, ground (arith, done, changed))
          ],
        )
  ]
]

abbrev evaluation : ℕ → Deal → Db → Evaluation
evaluation deal_id d db = evaluate_deal_completion (to_snapshot deal_id d db)

complete_installation_rows :
    (i : Option (ℕ × DealInstallation)) (db : Db)
    → Untouched db (complete_installation i db).1
      × ((complete_installation i db).1.orders ≡ db.orders)
unfolding complete_installation
complete_installation_rows none db = ((refl, refl, refl, refl, refl), refl)
complete_installation_rows (some (k, i)) db = ((refl, refl, refl, refl, refl), refl)

installed_rows :
    (deal_id : ℕ) (d : Deal) (db : Db)
    → Untouched db (installed deal_id d db) × ((installed deal_id d db).orders ≡ db.orders)
installed_rows deal_id d db =
    elim (Bool_cases (evaluation deal_id d db).can_complete_installation) [
      | inl closes ↦
          rw (installed_closes deal_id d db closes)
            (complete_installation_rows (installation_for deal_id db) db)
      | inr idle ↦ rw (installed_same deal_id d db idle) ((refl, refl, refl, refl, refl), refl)
    ]

OrderCompleted-after :
    (db db1 db2 : Db)
    → Untouched db db1 × (db1.orders ≡ db.orders)
    → OrderCompleted db1 db2
    → OrderCompleted db db2
OrderCompleted-after db db1 db2 ((a, b, c, d, e), same_rows) ((a', b', c', d', e'), orders) = (
  (a' ∙ a, b' ∙ b, c' ∙ c, d' ∙ d, e' ∙ e),
  elim orders [
    | inl same_again ↦ inl (same_again ∙ same_rows)
    | inr (k, o, at, changed) ↦ inr (k, o, rw (← same_rows) at, rw (← same_rows) changed)
  ],
)

finalize_deal_rows :
    (deal_id actor : ℕ) (d : Deal) (db : Db)
    → OrderCompleted db (finalize_deal deal_id actor d db).1
finalize_deal_rows deal_id actor d db =
    elim (Bool_cases (evaluation deal_id d db).can_complete_deal) [
      | inl can ↦ rw (finalize_completes deal_id d db actor can) (
          OrderCompleted-after db (installed deal_id d db)
            (complete_deal deal_id actor d (order_for deal_id db) (installed deal_id d db)).1
            (installed_rows deal_id d db)
            (complete_deal_rows deal_id actor d (order_for deal_id db) (installed deal_id d db)))
      | inr never ↦ elim (Bool_cases (evaluation deal_id d db).can_complete_installation) [
        | inl closes ↦
            let (kept, same_rows) = complete_installation_rows (installation_for deal_id db) db in
            rw (finalize_closes deal_id actor db d never closes) (kept, inl same_rows)
        | inr idle ↦
            rw (finalize_idle deal_id actor db d never idle)
              ((refl, refl, refl, refl, refl), inl refl)
      ]
    ]

pub try_finalize_rows :
    (deal_id actor : ℕ) (db : Db) → OrderCompleted db (try_finalize deal_id actor db).1
unfolding try_finalize lock_fulfillment_rows
try_finalize_rows deal_id actor db = elim (Option_cases (get_elem? db.deals deal_id)) [
  | inl missing ↦ (ground arith, inl (ground arith))
  | inr (d, found) ↦ elim (Bool_cases d.deleted) [
    | inl deleted ↦ (ground arith, inl (ground arith))
    | inr live ↦
        rw (finalize_open deal_id actor db d found live) (finalize_deal_rows deal_id actor d db)
  ]
]
