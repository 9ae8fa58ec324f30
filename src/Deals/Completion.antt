-- ===== src/Deals/Completion.antt =====
-- The run of `tryFinalize` that completes a deal, and every run after it.
use hpl_back.Base.{
  ℕ, zero, suc, ◌+◌, ◌<◌, ◌≡◌, refl, ap, Bool, true, false, ◌&&◌, ◌||◌, Option, none, some, List,
  [], ◌∷◌, ◌++◌, map, arith, if◌then◌else◌, ◌==◌, any, get_elem?, set, get_elem?-set_self,
  get_elem?-bound, select_from, sum_by, sum_by-append, Bool_cases, Option_cases, inl, inr,
}
use hpl_back.Store.{Db, User, Deal, Notification, ok, Topic}
use hpl_back.Deals.{
  to_snapshot, evaluate_deal_completion, order_for, try_finalize, lock_fulfillment_rows,
  unique_from, unique_ids, is_active_head, row_id, note_deal,
}
use hpl_back.Deals.Finalize.{finalize_open, finalize_idle, finalize_refuses}
use hpl_back.Deals.Once.{
  installed, installed_frame, installed_idle, finalize_completes, evaluate_open, evaluate_completed,
  complete_deal_writes, marked, recipients,
}

abbrev occurs : ℕ → List ℕ → Bool
occurs u = any (λ x. x == u)

abbrev one_if : Bool → ℕ
one_if b = if b then 1 else 0

abbrev times : ℕ → List ℕ → ℕ
times u = sum_by (λ x. one_if (x == u))

times-occurs_not : (u : ℕ) (xs : List ℕ) → occurs u xs ≡ false → times u xs ≡ 0
times-occurs_not u [] e = refl
times-occurs_not u (x ∷ xs) e = ground (arith, times-occurs_not u xs)

occurs-append : (u : ℕ) (xs ys : List ℕ) → occurs u (xs ++ ys) ≡ (occurs u xs || occurs u ys)
occurs-append u [] ys = refl
occurs-append u (x ∷ xs) ys = ground (arith, occurs-append u xs ys)

occurs_same : (x u : ℕ) (xs : List ℕ) → x ≡ u → occurs x xs ≡ occurs u xs
occurs_same x u xs e = ap (λ y. occurs y xs) e

unique_from-times :
    (u : ℕ) (seen xs : List ℕ)
    → times u seen ≡ one_if (occurs u seen)
    → times u (unique_from seen xs) ≡ one_if (occurs u seen || occurs u xs)
unfolding unique_from
unique_from-times u seen [] h = ground arith
unique_from-times u seen (x ∷ xs) h = elim (Bool_cases (occurs x seen)) [
  | inl old ↦ rw old (elim (Bool_cases (x == u)) [
    | inl hit ↦ ground (arith, unique_from-times u seen xs h, occurs_same x u seen (ground arith))
    | inr miss ↦ ground (arith, unique_from-times u seen xs h)
  ])
  | inr new ↦
      let grown : times u (seen ++ (x ∷ [])) ≡ one_if (occurs u (seen ++ (x ∷ []))) =
        elim (Bool_cases (x == u)) [
          | inl hit ↦ ground (
            arith,
            h,
            sum_by-append (λ y. one_if (y == u)) seen (x ∷ []),
            occurs-append u seen (x ∷ []),
            occurs_same x u seen (ground arith),
          )
          | inr miss ↦ ground (
            arith,
            h,
            sum_by-append (λ y. one_if (y == u)) seen (x ∷ []),
            occurs-append u seen (x ∷ []),
          )
        ] in
      rw new (
        ground
          (arith, unique_from-times u (seen ++ (x ∷ [])) xs grown, occurs-append u seen (x ∷ [])))
]

select_from-before :
    (i u : ℕ) (p : User → Bool) (rows : List User)
    → u < i
    → occurs u (map row_id (select_from i p rows)) ≡ false
select_from-before i u p [] lt = refl
select_from-before i u p (r ∷ rows) lt = ground (arith, select_from-before (i + 1) u p rows)

abbrev holds_at : (User → Bool) → Option User → Bool
holds_at p none = false
holds_at p (some r) = p r

select_from-at :
    (i u : ℕ) (p : User → Bool) (rows : List User)
    → occurs (i + u) (map row_id (select_from i p rows)) ≡ holds_at p (get_elem? rows u)
select_from-at i u p [] = ground arith
select_from-at i zero p (r ∷ rows) = ground (arith, select_from-before (i + 1) i p rows)
select_from-at i (suc u) p (r ∷ rows) = ground (arith, select_from-at (i + 1) u p rows)

abbrev pub tells_completion : ℕ → Topic → Bool
tells_completion deal_id (Topic.deal_completed k) = k == deal_id
tells_completion deal_id _ = false

-- The notifications of a user about a deal.
abbrev pub notified : ℕ → ℕ → List Notification → ℕ
notified deal_id u = sum_by (λ n. one_if (n.user_id == u && tells_completion deal_id n.topic))

-- The owner of the deal, or an active head.
abbrev pub informed : Deal → List User → ℕ → Bool
informed d users u = d.owner_id == u || holds_at is_active_head (get_elem? users u)

notified-notes :
    (deal_id u : ℕ) (ids : List ℕ) → notified deal_id u (map (note_deal deal_id) ids) ≡ times u ids
notified-notes deal_id u [] = refl
notified-notes deal_id u (x ∷ xs) = ground (arith, notified-notes deal_id u xs)

recipients-times :
    (d : Deal) (db : Db) (u : ℕ) → times u (recipients d db) ≡ one_if (informed d db.users u)
unfolding unique_ids
recipients-times d db u = ground (
  arith,
  unique_from-times u [] (d.owner_id ∷ map row_id (select_from 0 is_active_head db.users)) refl,
  select_from-at 0 u is_active_head db.users,
)

module _ (deal_id actor : ℕ) (d : Deal) (db : Db) where
  -- If an undeleted deal can be completed, tryFinalize returns that it was, sets the deal's
  -- completion time and no other deal's, leaves the installations as closing the deal's own leaves
  -- them, and sends one notification about the deal to each user who is its owner or an active
  -- head, even one who is both, and none to anyone else.
  pub try_finalize_completes :
      get_elem? db.deals deal_id ≡ some d
      → d.deleted ≡ false
      → (evaluate_deal_completion (to_snapshot deal_id d db)).can_complete_deal ≡ true
      → let db' = (try_finalize deal_id actor db).1 in
        ((try_finalize deal_id actor db).0 ≡ ok true)
        × (db'.deals ≡ set db.deals deal_id (marked db.now d))
        × (db'.installations ≡ (installed deal_id d db).installations)
        × ((u : ℕ)
            → notified deal_id u db'.notifications
              ≡ notified deal_id u db.notifications + one_if (informed d db.users u))
  unfolding to_snapshot
  try_finalize_completes found live can =
      let (pending, won) = evaluate_open (to_snapshot deal_id d db) can in
      let (deals, users, notes, now) = installed_frame deal_id d db in
      let (returned, deal_rows, installation_rows, sent) =
        complete_deal_writes deal_id actor d (order_for deal_id db) (installed deal_id d db)
          (rw deals found) live pending won in
      rw (finalize_open deal_id actor db d found live, finalize_completes deal_id d db actor can)
        (
          returned,
          rw (deal_rows, deals, now),
          installation_rows,
          λ u.
              let told = map (note_deal deal_id) (recipients d (installed deal_id d db)) in
              rw (sent, notes)
                (ground (
                  arith,
                  sum_by-append (λ n. one_if (n.user_id == u && tells_completion deal_id n.topic))
                      db.notifications told,
                  notified-notes deal_id u (recipients d (installed deal_id d db)),
                  recipients-times d (installed deal_id d db) u,
                  ap (λ us. informed d us u) users,
                )),
        )

  -- The deal's row after the completing run.
  completed_row :
      get_elem? db.deals deal_id ≡ some d
      → get_elem? (set db.deals deal_id (marked db.now d)) deal_id ≡ some (marked db.now d)
  completed_row found =
      get_elem?-set_self db.deals deal_id (marked db.now d) (get_elem?-bound db.deals deal_id found)

  try_finalize_again :
      (actor' : ℕ)
      → get_elem? db.deals deal_id ≡ some d
      → d.deleted ≡ false
      → (evaluate_deal_completion (to_snapshot deal_id d db)).can_complete_deal ≡ true
      → let db' = (try_finalize deal_id actor db).1 in
        try_finalize deal_id actor' db' ≡ (ok false, db')
  unfolding to_snapshot
  try_finalize_again actor' found live can =
      let db' : Db = (try_finalize deal_id actor db).1 in
      let (returned, deal_rows, installation_rows, sent) = try_finalize_completes found live can in
      let row : get_elem? db'.deals deal_id ≡ some (marked db.now d) =
        rw deal_rows (completed_row found) in
      rw (finalize_open deal_id actor' db' (marked db.now d) row live) (
        finalize_idle deal_id actor' db' (marked db.now d)
          (evaluate_completed (to_snapshot deal_id (marked db.now d) db') db.now refl)
          (installed_idle deal_id d db (marked db.now d) db' can refl installation_rows))

-- A run that returns `completed: true` is the one that found the deal ready.
finalized_ready :
    (deal_id actor : ℕ) (db : Db)
    → (try_finalize deal_id actor db).0 ≡ ok true
    → (d : Deal) × (get_elem? db.deals deal_id ≡ some d)
      × (d.deleted ≡ false)
      × ((evaluate_deal_completion (to_snapshot deal_id d db)).can_complete_deal ≡ true)
unfolding try_finalize lock_fulfillment_rows
finalized_ready deal_id actor db done = elim (Option_cases (get_elem? db.deals deal_id)) [
  | inl missing ↦ ground arith
  | inr (d, found) ↦ elim (Bool_cases d.deleted) [
    | inl deleted ↦ ground arith
    | inr live ↦
        elim (Bool_cases (evaluate_deal_completion (to_snapshot deal_id d db)).can_complete_deal) [
          | inl can ↦ (d, found, live, can)
          | inr never ↦ ground (
            arith,
            finalize_open deal_id actor db d found live,
            finalize_refuses deal_id actor db d never,
          )
        ]
  ]
]

-- After a run of tryFinalize that completed a deal, another run for the deal, by any actor, returns
-- that nothing was completed and changes nothing, so no second notification or audit entry is
-- written.
pub try_finalize_once :
    (deal_id actor actor' : ℕ) (db : Db)
    → (try_finalize deal_id actor db).0 ≡ ok true
    → let db' = (try_finalize deal_id actor db).1 in
      try_finalize deal_id actor' db' ≡ (ok false, db')
try_finalize_once deal_id actor actor' db done =
    let (d, found, live, can) = finalized_ready deal_id actor db done in
    try_finalize_again deal_id actor d db actor' found live can
