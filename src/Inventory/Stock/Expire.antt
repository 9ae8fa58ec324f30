-- ===== src/Inventory/Stock/Expire.antt =====
-- What `releaseExpiredReservations` does: no active reservation that is past its time remains.
use hpl_back.Base.{
  All, get_elem?-set_ne, sum_by-set, includes, suc, ℕ, ◌+◌, ◌-◌, ◌≡◌, refl, sym, ◌∙◌, Bool, true,
  some, List, [], ◌∷◌, arith, if◌then◌else◌, Option_cases, Bool_cases, inl, inr, ℤ, pos, ◌+ℤ◌, ◌-ℤ◌,
  +ℤ_parts, -ℤ_parts, eq_of_parts, length, get_elem?, set, select_from, select-Snapshot, Snapshot,
  Snapshot-set, sum_by,
}
use mathlib.Core.Path.{subst}
use native.Mathlib.Decide.{ℕ_discrete}
use hpl_back.Domain.{order_status_enum, stock_reservation_status_enum}
use hpl_back.Store.{Order, Db, StockReservation, ok}
use hpl_back.Inventory.Stock.{
  kept_on_expiry, back_to_waiting, expire_write, expire_current, expire_one, expire_round,
  expire_loop, release_expired_reservations, expired_at, is_active,
}
use hpl_back.Inventory.Stock.Balanced.{
  held, free, active, sum_sel, Balanced, has_balance, released, active-released, sum_sel-select,
}

module _ (k : ℕ) (r : StockReservation) (n : ℕ) (db : Db) where
  -- A round over a row that still is active, of a product with a balance.
  expire_round_counts :
      get_elem? db.reservations k ≡ some r
      → is_active r ≡ true
      → has_balance r.product_id db ≡ true
      → let (res, db') = expire_round n (k, r) db in
        (res ≡ ok (n + 1)) × (db'.reservations ≡ set db.reservations k (released r))
  unfolding expire_round expire_one expire_current expire_write
  expire_round_counts e live known = ground arith

  expire_round-Balanced :
      get_elem? db.reservations k ≡ some r
      → is_active r ≡ true
      → Balanced db
      → Balanced (expire_round n (k, r) db).1
  unfolding expire_round expire_one expire_current expire_write
  expire_round-Balanced e live h p = elim (Option_cases (db.balances r.product_id)) [
    | inl no_balance ↦ ground (arith, h p)
    | inr (b, found) ↦
        let q : ℤ = pos r.quantity in
        ground (
          arith,
          h p,
          h r.product_id,
          active-released p db.reservations k r e,
          +ℤ_parts b.available b.reserved,
          -ℤ_parts b.reserved q,
          +ℤ_parts b.available q,
          +ℤ_parts (b.available +ℤ q) (b.reserved -ℤ q),
          eq_of_parts (b.available +ℤ q +ℤ (b.reserved -ℤ q)) b.on_hand,
          eq_of_parts (b.reserved -ℤ q) (pos (active p db.reservations - r.quantity)),
        )
  ]

  -- It frees what the row held, and an order in a kept status stays as it was.
  expire_round_moves :
      (p : ℕ)
      → get_elem? db.reservations k ≡ some r
      → is_active r ≡ true
      → has_balance r.product_id db ≡ true
      → Balanced db
      → let db' = (expire_round n (k, r) db).1 in
        (has_balance p db' ≡ has_balance p db) × (free p db' ≡ free p db + held p r)
  unfolding expire_round expire_one expire_current expire_write
  expire_round_moves p e live known h = elim (Option_cases (db.balances r.product_id)) [
    | inl no_balance ↦ ground arith
    | inr (b, found) ↦ ground (arith, h r.product_id, +ℤ_parts b.available (pos r.quantity))
  ]

  expire_round_order :
      (j : ℕ) (o : Order)
      → get_elem? db.orders j ≡ some o
      → includes kept_on_expiry o.status ≡ true
      → get_elem? (expire_round n (k, r) db).1.orders j ≡ some o
  unfolding expire_round expire_one expire_current expire_write
  expire_round_order j o e kept = elim (ℕ_discrete r.order_id j) [
    | yes same_order ↦ ground arith
    | no other ↦ elim (Option_cases (get_elem? db.orders r.order_id)) [
      | inl no_order ↦ ground arith
      | inr (x, found) ↦
          ground (arith, get_elem?-set_ne db.orders r.order_id j (back_to_waiting x) other)
    ]
  ]

-- How many reservations are active and past their time.
unfoldable pub overdue : ℕ → List StockReservation → ℕ
overdue now rows = sum_by (λ r. if expired_at now r then 1 else 0) rows

overdue-released :
    (now : ℕ) (rows : List StockReservation) (k : ℕ) (r : StockReservation)
    → get_elem? rows k ≡ some r
    → expired_at now r ≡ true
    → overdue now (set rows k (released r)) + 1 ≡ overdue now rows
unfolding overdue
overdue-released now rows k r e late =
    ground (arith, sum_by-set (λ x. if expired_at now x then 1 else 0) rows k r (released r) e)

-- The products of a selection have balances.
abbrev Known : Db → List (ℕ × StockReservation) → Type 0
Known db [] = Unit
Known db ((k, r) ∷ rest) = (has_balance r.product_id db ≡ true) × Known db rest

Known-select :
    (db : Db) (test : StockReservation → Bool) (i : ℕ) (rows : List StockReservation)
    → All (λ r. has_balance r.product_id db ≡ true) rows
    → Known db (select_from i test rows)
Known-select db test i [] a = tt
Known-select db test i (r ∷ rows) a = elim (Bool_cases (test r)) [
  | inl picked ↦ rw picked (a.0, Known-select db test (suc i) rows a.1)
  | inr left_out ↦ rw left_out (Known-select db test (suc i) rows a.1)
]

Known-kept :
    (db db' : Db) (sel : List (ℕ × StockReservation))
    → ((p : ℕ) → has_balance p db' ≡ has_balance p db)
    → Known db sel
    → Known db' sel
Known-kept db db' [] same_keys s = tt
Known-kept db db' ((k, r) ∷ rest) same_keys s =
    (same_keys r.product_id ∙ s.0, Known-kept db db' rest same_keys s.1)

expire_loop-cons :
    (n : ℕ) (k : ℕ) (r : StockReservation) (rest : List (ℕ × StockReservation)) (db : Db)
    → (expire_round n (k, r) db).0 ≡ ok (n + 1)
    → expire_loop n ((k, r) ∷ rest) db ≡ expire_loop (n + 1) rest (expire_round n (k, r) db).1
unfolding expire_loop
expire_loop-cons n k r rest db e = ground arith

expire_loop_lem :
    (now n : ℕ) (sel : List (ℕ × StockReservation)) (db : Db)
    → Balanced db
    → Known db sel
    → Snapshot (expired_at now) db.reservations sel
    → let (res, db') = expire_loop n sel db in
      (res ≡ ok (n + length sel))
      × Balanced db'
      × (overdue now db'.reservations + length sel ≡ overdue now db.reservations)
      × ((p : ℕ) → free p db' ≡ free p db + sum_sel (held p) sel)
      × ((j : ℕ) (o : Order)
          → get_elem? db.orders j ≡ some o
          → includes kept_on_expiry o.status ≡ true
          → get_elem? db'.orders j ≡ some o)
unfolding expire_loop
expire_loop_lem now n [] db h known s =
    (ground arith, h, omega arith, λ p. omega arith, λ j o e kept. e)
expire_loop_lem now n ((k, r) ∷ rest) db h known s =
    let db' = (expire_round n (k, r) db).1 in
    let live : is_active r ≡ true = ground (arith, s.1) in
    let counted = expire_round_counts k r n db s.0 live known.0 in
    let balanced = expire_round-Balanced k r n db s.0 live h in
    let later =
      expire_loop_lem now (n + 1) rest db' balanced
        (Known-kept db db' rest (λ p. (expire_round_moves k r n db p s.0 live known.0 h).0) known.1)
        (subst (λ (rows : List StockReservation). Snapshot (expired_at now) rows rest)
          (sym counted.1)
          (Snapshot-set (expired_at now) db.reservations k (released r) rest s.2 s.3)) in
    let less = overdue-released now db.reservations k r s.0 s.1 in
    rw (expire_loop-cons n k r rest db counted.0) (
      ground (arith, later.0),
      later.1,
      ground (arith, later.2, counted.1, less),
      λ p. ground (arith, later.3 p, expire_round_moves k r n db p s.0 live known.0 h),
      λ j o e kept. later.4 j o (expire_round_order k r n db j o e kept) kept,
    )

length-select :
    (now i : ℕ) (rows : List StockReservation)
    → length (select_from i (expired_at now) rows) ≡ overdue now rows
unfolding overdue
length-select now i [] = refl
length-select now i (r ∷ rows) = ground (arith, length-select now (suc i) rows)

-- What the expired reservations hold of a product.
abbrev pub expired_total : ℕ → ℕ → List StockReservation → ℕ
expired_total now p rows = sum_by (λ r. if expired_at now r then held p r else 0) rows

-- If the database is balanced and every product with a reservation has a balance, the expiry run
-- returns the number of active reservations past their time, keeps the balance invariant, leaves
-- none of them active, makes just their quantities available again, and leaves every order in a
-- kept status (cancelled, shipped in part or whole, completed) as it was.
pub release_expired_reservations_lem :
    (db : Db)
    → Balanced db
    → All (λ r. has_balance r.product_id db ≡ true) db.reservations
    → let (res, db') = release_expired_reservations db in
      (res ≡ ok (overdue db.now db.reservations))
      × Balanced db'
      × (overdue db.now db'.reservations ≡ 0)
      × ((p : ℕ) → free p db' ≡ free p db + expired_total db.now p db.reservations)
      × ((j : ℕ) (o : Order)
          → get_elem? db.orders j ≡ some o
          → includes kept_on_expiry o.status ≡ true
          → get_elem? db'.orders j ≡ some o)
unfolding release_expired_reservations
release_expired_reservations_lem db h known =
    let test = expired_at db.now in
    let sel = select_from 0 test db.reservations in
    let all =
      expire_loop_lem db.now 0 sel db h (Known-select db test 0 db.reservations known)
        (select-Snapshot test db.reservations) in
    let count = length-select db.now 0 db.reservations in
    (
      ground (arith, all.0, count),
      all.1,
      omega (arith, all.2, count),
      λ p. omega (arith, all.3 p, sum_sel-select (held p) 0 test db.reservations),
      all.4,
    )
