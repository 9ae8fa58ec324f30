-- ===== src/Inventory/Stock/Release.antt =====
-- What `releaseReservation` does: every active reservation of the order is given back.
use hpl_back.Base.{
  suc, ℕ, ◌+◌, ◌-◌, ◌≡◌, refl, sym, true, Option, some, List, [], ◌∷◌, arith, if◌then◌else◌,
  Option_cases, inl, inr, ◌⊎◌, ℤ, pos, ◌+ℤ◌, ◌-ℤ◌, +ℤ_parts, -ℤ_parts, eq_of_parts, get_elem?, set,
  select_from, select-Snapshot, Snapshot, Snapshot-set, Above, sum_by,
}
use mathlib.Core.Path.{subst}
use hpl_back.Store.{Db, StockReservation, ok, for_each, for_each-cons}
use hpl_back.Inventory.Stock.{
  release_write, release_one, release_reservation, active_of_order, is_active,
}
use hpl_back.Inventory.Stock.Balanced.{
  held, held_by, free, active, active_by, sum_sel, Balanced, released, active-released,
  active_by-released, held-le-active, sum_sel-select,
}

module _ (actor : Option ℕ) (order k : ℕ) (r : StockReservation) (db : Db) where
  release_one_done :
      get_elem? db.reservations k ≡ some r → (release_one actor order (k, r) db).0 ≡ ok tt
  unfolding release_one release_write
  release_one_done e = ground arith

  release_one-Balanced :
      get_elem? db.reservations k ≡ some r
      → is_active r ≡ true
      → Balanced db
      → Balanced (release_one actor order (k, r) db).1
  unfolding release_one release_write
  release_one-Balanced e live h p = elim (Option_cases (db.balances r.product_id)) [
    | inl no_balance ↦ ground (arith, h p)
    | inr (b, found) ↦
        let q : ℤ = pos r.quantity in
        ground (
          arith,
          h p,
          h r.product_id,
          active-released p db.reservations k r e,
          +ℤ_parts b.available b.reserved,
          -ℤ_parts b.reserved q,
          +ℤ_parts b.available q,
          +ℤ_parts (b.available +ℤ q) (b.reserved -ℤ q),
          eq_of_parts (b.available +ℤ q +ℤ (b.reserved -ℤ q)) b.on_hand,
          eq_of_parts (b.reserved -ℤ q) (pos (active p db.reservations - r.quantity)),
        )
  ]

  release_one_rows :
      get_elem? db.reservations k ≡ some r
      → let rows = (release_one actor order (k, r) db).1.reservations in
        (rows ≡ db.reservations) ⊎ (rows ≡ set db.reservations k (released r))
  unfolding release_one release_write
  release_one_rows e = ground arith

  release_one_moves :
      (p : ℕ)
      → get_elem? db.reservations k ≡ some r
      → is_active r ≡ true
      → Balanced db
      → let db' = (release_one actor order (k, r) db).1 in
        (active p db'.reservations + held p r ≡ active p db.reservations)
        × (active_by order p db'.reservations + held_by order p r
            ≡ active_by order p db.reservations)
        × (free p db' ≡ free p db + held p r)
  unfolding release_one release_write
  release_one_moves p e live h = elim (Option_cases (db.balances r.product_id)) [
    | inl no_balance ↦
        ground (arith, h r.product_id, held-le-active r.product_id db.reservations k r e)
    | inr (b, found) ↦ ground (
      arith,
      h r.product_id,
      active-released p db.reservations k r e,
      active_by-released order p db.reservations k r e,
      +ℤ_parts b.available (pos r.quantity),
    )
  ]

-- The rows that come later in the selection are not touched by a round.
release_one-Snapshot :
    (actor : Option ℕ) (order k : ℕ) (r : StockReservation) (db : Db)
    (rest : List (ℕ × StockReservation))
    → get_elem? db.reservations k ≡ some r
    → Above (suc k) rest
    → Snapshot (active_of_order order) db.reservations rest
    → Snapshot (active_of_order order) (release_one actor order (k, r) db).1.reservations rest
release_one-Snapshot actor order k r db rest e above s =
    let P = λ (rows : List StockReservation). Snapshot (active_of_order order) rows rest in
    elim (release_one_rows actor order k r db e) [
      | inl same_rows ↦ subst P (sym same_rows) s
      | inr one_set ↦
          subst P (sym one_set)
            (Snapshot-set (active_of_order order) db.reservations k (released r) rest above s)
    ]

-- The whole loop over a selection of active reservations of the order.
release_loop_lem :
    (actor : Option ℕ) (order : ℕ) (sel : List (ℕ × StockReservation)) (db : Db)
    → Balanced db
    → Snapshot (active_of_order order) db.reservations sel
    → let (r, db') = for_each (release_one actor order) sel db in
      (r ≡ ok tt)
      × Balanced db'
      × ((p : ℕ)
          → (active p db'.reservations + sum_sel (held p) sel ≡ active p db.reservations)
            × (active_by order p db'.reservations + sum_sel (held_by order p) sel
                ≡ active_by order p db.reservations)
            × (free p db' ≡ free p db + sum_sel (held p) sel))
release_loop_lem actor order [] db h s = (refl, h, λ p. (omega arith, omega arith, omega arith))
release_loop_lem actor order ((k, r) ∷ rest) db h s =
    let db' = (release_one actor order (k, r) db).1 in
    let live : is_active r ≡ true = ground (arith, s.1) in
    let done = release_one_done actor order k r db s.0 in
    let balanced = release_one-Balanced actor order k r db s.0 live h in
    let later =
      release_loop_lem actor order rest db' balanced
        (release_one-Snapshot actor order k r db rest s.0 s.2 s.3) in
    rw (for_each-cons (release_one actor order) (k, r) rest db done) (
      later.0,
      later.1,
      λ p. ground (arith, release_one_moves actor order k r db p s.0 live h, later.2 p),
    )

sum_by-active :
    (order p : ℕ) (rows : List StockReservation)
    → (sum_by (λ r. if active_of_order order r then held p r else 0) rows ≡ active_by order p rows)
      × (sum_by (λ r. if active_of_order order r then held_by order p r else 0) rows
          ≡ active_by order p rows)
unfolding active_by
sum_by-active order p [] = (refl, refl)
sum_by-active order p (r ∷ rows) = ground (arith, sum_by-active order p rows)

-- In a balanced database releaseReservation returns and keeps the balance invariant; afterwards the
-- order has nothing reserved of any product, and what it had reserved has left the active total and
-- is available again.
pub release_reservation_frees :
    (order : ℕ) (actor : Option ℕ) (db : Db)
    → Balanced db
    → let (r, db') = release_reservation order actor db in
      (r ≡ ok tt)
      × Balanced db'
      × ((p : ℕ)
          → (active_by order p db'.reservations ≡ 0)
            × (active p db'.reservations + active_by order p db.reservations
                ≡ active p db.reservations)
            × (free p db' ≡ free p db + active_by order p db.reservations))
unfolding release_reservation
release_reservation_frees order actor db h =
    let test = active_of_order order in
    let sel = select_from 0 test db.reservations in
    let all = release_loop_lem actor order sel db h (select-Snapshot test db.reservations) in
    (
      all.0,
      all.1,
      λ p. ground (
        arith,
        all.2 p,
        sum_by-active order p db.reservations,
        sum_sel-select (held p) 0 test db.reservations,
        sum_sel-select (held_by order p) 0 test db.reservations,
      ),
    )
