-- ===== src/Inventory/Stock/Consume.antt =====
-- The inner loop of `commitReservation`: reservations are used up, oldest first.
use Prim.Native.Nat.{min}
use hpl_back.Base.{
  ℕ, ◌+◌, ◌-◌, ◌≡◌, ◌≤◌, refl, true, false, List, [], ◌∷◌, arith, if◌then◌else◌, ◌==◌, ==-refl,
  Bool_cases, inl, inr, get_elem?, set, Snapshot, Snapshot-set, sum_by, sum_by-set, some,
  select_from,
}
use hpl_back.Store.{Db, StockReservation, ok}
use hpl_back.Inventory.Stock.{consume, consume_row, active_for, snd_quantity}
use hpl_back.Inventory.Stock.Balanced.{held, held_by, active, active_by, sum_sel, sum_sel-select}

-- A quantity of the product `p`, counted for `p'`.
abbrev pub part : ℕ → ℕ → ℕ → ℕ
part p p' n = if p == p' then n else 0

active_consumed :
    (order p p' c : ℕ) (rows : List StockReservation) (k : ℕ) (r : StockReservation)
    → get_elem? rows k ≡ some r
    → active_for order p r ≡ true
    → c ≤ r.quantity
    → active p' (set rows k (consume_row c r)) + part p p' c ≡ active p' rows
unfolding active
active_consumed order p p' c rows k r e live le =
    ground (arith, sum_by-set (held p') rows k r (consume_row c r) e)

active_by_consumed :
    (order p o p' c : ℕ) (rows : List StockReservation) (k : ℕ) (r : StockReservation)
    → get_elem? rows k ≡ some r
    → active_for order p r ≡ true
    → c ≤ r.quantity
    → active_by o p' (set rows k (consume_row c r)) + (if order == o then part p p' c else 0)
      ≡ active_by o p' rows
unfolding active_by
active_by_consumed order p o p' c rows k r e live le =
    ground (arith, sum_by-set (held_by o p') rows k r (consume_row c r) e)

-- One round, when something remains.
consume-cons :
    (order p n k : ℕ) (r : StockReservation) (rest : List (ℕ × StockReservation)) (db : Db)
    → (n == 0) ≡ false
    → get_elem? db.reservations k ≡ some r
    → active_for order p r ≡ true
    → consume n ((k, r) ∷ rest) db
      ≡ consume
          (n - min n r.quantity)
          rest
          (record db { reservations = set db.reservations k (consume_row (min n r.quantity) r) })
unfolding consume
consume-cons order p n k r rest db more e live = ground (arith, ==-refl r.quantity)

-- The loop uses up just what was asked, if the selection holds as much, and touches nothing but the
-- reservation rows.
pub consume_lem :
    (order p : ℕ) (sel : List (ℕ × StockReservation)) (n : ℕ) (db : Db)
    → Snapshot (active_for order p) db.reservations sel
    → n ≤ sum_sel (λ r. r.quantity) sel
    → let (r, db') = consume n sel db in
      (r ≡ ok tt)
      × (db'.balances ≡ db.balances)
      × ((p' : ℕ) → active p' db'.reservations + part p p' n ≡ active p' db.reservations)
      × ((o p' : ℕ)
          → active_by o p' db'.reservations + (if order == o then part p p' n else 0)
            ≡ active_by o p' db.reservations)
unfolding consume
consume_lem order p [] n db s le = (refl, refl, λ p'. ground arith, λ o p'. ground arith)
consume_lem order p ((k, r) ∷ rest) n db s le = elim (Bool_cases (n == 0)) [
  | inl nothing_left ↦ rw nothing_left (refl, refl, λ p'. ground arith, λ o p'. ground arith)
  | inr more ↦
      let c = min n r.quantity in
      let rows = set db.reservations k (consume_row c r) in
      let later =
        consume_lem order p rest (n - c) (record db { reservations = rows })
          (Snapshot-set (active_for order p) db.reservations k (consume_row c r) rest s.2 s.3)
          (omega arith) in
      rw (consume-cons order p n k r rest db more s.0 s.1) (
        later.0,
        later.1,
        λ p'. ground (
          arith,
          later.2 p',
          active_consumed order p p' c db.reservations k r s.0 s.1 (omega arith),
        ),
        λ o p'. ground (
          arith,
          later.3 o p',
          active_by_consumed order p o p' c db.reservations k r s.0 s.1 (omega arith),
        ),
      )
]

sum_by-snd_quantity :
    (sel : List (ℕ × StockReservation)) → sum_by snd_quantity sel ≡ sum_sel (λ r. r.quantity) sel
sum_by-snd_quantity [] = refl
sum_by-snd_quantity ((k, r) ∷ sel) = omega (arith, sum_by-snd_quantity sel)

sum_by-active_for :
    (order p : ℕ) (rows : List StockReservation)
    → sum_by (λ r. if active_for order p r then r.quantity else 0) rows ≡ active_by order p rows
unfolding active_by
sum_by-active_for order p [] = refl
sum_by-active_for order p (r ∷ rows) = ground (arith, sum_by-active_for order p rows)

-- What the query of `commitReservation` finds adds up to the order's active total of the product.
pub sum_sel-active_for :
    (order p : ℕ) (rows : List StockReservation)
    → let sel = select_from 0 (active_for order p) rows in
      (sum_by snd_quantity sel ≡ active_by order p rows)
      × (sum_sel (λ r. r.quantity) sel ≡ active_by order p rows)
sum_sel-active_for order p rows =
    let sel = select_from 0 (active_for order p) rows in
    omega (
      arith,
      sum_by-snd_quantity sel,
      sum_sel-select (λ r. r.quantity) 0 (active_for order p) rows,
      sum_by-active_for order p rows,
    )

pub active_by-le-active :
    (order p : ℕ) (rows : List StockReservation) → active_by order p rows ≤ active p rows
unfolding active_by active
active_by-le-active order p [] = omega arith
active_by-le-active order p (r ∷ rows) = ground (arith, active_by-le-active order p rows)
