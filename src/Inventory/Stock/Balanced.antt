-- ===== src/Inventory/Stock/Balanced.antt =====
-- The invariant of the stock: what the columns of a balance have to do with the reservation rows.
use hpl_back.Base.{
  suc, refl, set, le-sum_by, select_from, ℕ, ◌+◌, ◌≡◌, ◌≤◌, Bool, true, false, Option, none, some,
  List, [], ◌∷◌, ◌++◌, arith, if◌then◌else◌, ◌==◌, pos, ◌+ℤ◌, ◌≤ℤ◌, sum_by, sum_by-append,
  sum_by-set, get_elem?, any, pos_part, ◌&&◌,
}
use hpl_back.Domain.{StockReservationStatus}
use hpl_back.Store.{Db, StockBalance, StockReservation}
use hpl_back.Inventory.Stock.{is_active, ReserveStockItem}

-- What a reservation row holds of a product.
abbrev pub held : ℕ → StockReservation → ℕ
held p r = if r.product_id == p && is_active r then r.quantity else 0

-- The total of the active reservations of a product.
unfoldable pub active : ℕ → List StockReservation → ℕ
active p rows = sum_by (held p) rows

-- `reserved` is the total of the active reservations, `available` is `onHand - reserved`, and neither
-- is negative. A product with no balance has no active reservation.
abbrev pub IsBalanced : Option StockBalance → ℕ → Type 0
IsBalanced none total = total ≡ 0
IsBalanced (some b) total =
    (b.reserved ≡ pos total) × (b.available +ℤ b.reserved ≡ b.on_hand) × (pos 0 ≤ℤ b.available)

abbrev pub Balanced : Db → Type 0
Balanced db = (p : ℕ) → IsBalanced (db.balances p) (active p db.reservations)

pub active-append :
    (p : ℕ) (rows : List StockReservation) (r : StockReservation)
    → active p (rows ++ (r ∷ [])) ≡ active p rows + held p r
unfolding active
active-append p rows r = omega (arith, sum_by-append (held p) rows (r ∷ []))

-- What can still be reserved of a product.
abbrev pub free_of : Option StockBalance → ℕ
free_of none = 0
free_of (some b) = pos_part b.available

abbrev pub free : ℕ → Db → ℕ
free p db = free_of (db.balances p)

abbrev pub is_some {ℓ} : {A : Type ℓ} → Option A → Bool
is_some none = false
is_some (some _) = true

abbrev pub has_balance : ℕ → Db → Bool
has_balance p db = is_some (db.balances p)

-- How much of a product a list of items asks for.
abbrev pub wanted : ℕ → ReserveStockItem → ℕ
wanted p i = if i.product_id == p then i.quantity else 0

abbrev pub requested : ℕ → List ReserveStockItem → ℕ
requested p items = sum_by (wanted p) items

-- Whether a list of items names a product.
abbrev pub mentions : ℕ → List ReserveStockItem → Bool
mentions p items = any (λ i. i.product_id == p) items

-- What a reservation row holds of a product for an order, and the total of the active ones.
abbrev pub held_by : ℕ → ℕ → StockReservation → ℕ
held_by order p r = if r.order_id == order then held p r else 0

unfoldable pub active_by : ℕ → ℕ → List StockReservation → ℕ
active_by order p rows = sum_by (held_by order p) rows

-- A column's sum over a selection.
abbrev pub sum_sel : (StockReservation → ℕ) → List (ℕ × StockReservation) → ℕ
sum_sel w [] = 0
sum_sel w ((k, r) ∷ sel) = w r + sum_sel w sel

abbrev pub released : StockReservation → StockReservation
released r = record r { status = StockReservationStatus.released }

pub active-released :
    (p : ℕ) (rows : List StockReservation) (k : ℕ) (r : StockReservation)
    → get_elem? rows k ≡ some r
    → active p (set rows k (released r)) + held p r ≡ active p rows
unfolding active
active-released p rows k r e = ground (arith, sum_by-set (held p) rows k r (released r) e)

pub active_by-released :
    (order p : ℕ) (rows : List StockReservation) (k : ℕ) (r : StockReservation)
    → get_elem? rows k ≡ some r
    → active_by order p (set rows k (released r)) + held_by order p r ≡ active_by order p rows
unfolding active_by
active_by-released order p rows k r e =
    ground (arith, sum_by-set (held_by order p) rows k r (released r) e)

pub held-le-active :
    (p : ℕ) (rows : List StockReservation) (k : ℕ) (r : StockReservation)
    → get_elem? rows k ≡ some r
    → held p r ≤ active p rows
unfolding active
held-le-active p rows k r e = le-sum_by (held p) rows k r e

-- The sum over what a query returns is the sum over the rows that pass its test.
pub sum_sel-select :
    (w : StockReservation → ℕ) (i : ℕ) (test : StockReservation → Bool)
    (rows : List StockReservation)
    → sum_sel w (select_from i test rows) ≡ sum_by (λ r. if test r then w r else 0) rows
sum_sel-select w i test [] = refl
sum_sel-select w i test (r ∷ rows) = ground (arith, sum_sel-select w (suc i) test rows)
