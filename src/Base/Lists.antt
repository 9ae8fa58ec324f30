-- ===== src/Base/Lists.antt =====
-- Lists by native positions. A table of the database is a list of rows; a row's id is its position.
use Prim.Native.Nat.{ℕ, zero, suc, ◌+◌, ◌≤◌, ◌<◌}
use mathlib.Core.Path.{◌≡◌, refl, ap, ◌∙◌, subst}
use mathlib.Core.Logic.{◌≢◌, inl, inr}
use mathlib.Core.Bool.{Bool, true, false, ◌&&◌, ◌||◌}
use mathlib.Core.List.{List, [], ◌∷◌, ◌++◌}
use mathlib.Core.Option.{Option, none, some, some-injective}
use native.Mathlib.Omega.{arith}
use hpl_back.Base.Tests.{if◌then◌else◌, Bool_cases}

module _ {ℓ} {A : Type ℓ} where
  abbrev pub length : List A → ℕ
  length [] = 0
  length (_ ∷ xs) = suc (length xs)

  abbrev pub get_elem? : List A → ℕ → Option A
  get_elem? [] _ = none
  get_elem? (x ∷ _) zero = some x
  get_elem? (_ ∷ xs) (suc i) = get_elem? xs i

  -- A write out of bounds changes nothing.
  abbrev pub set : List A → ℕ → A → List A
  set [] _ _ = []
  set (_ ∷ xs) zero v = v ∷ xs
  set (x ∷ xs) (suc i) v = x ∷ set xs i v

  abbrev pub drop : ℕ → List A → List A
  drop zero xs = xs
  drop (suc _) [] = []
  drop (suc n) (_ ∷ xs) = drop n xs

  abbrev pub take : ℕ → List A → List A
  take zero _ = []
  take (suc _) [] = []
  take (suc n) (x ∷ xs) = x ∷ take n xs

  -- `some` and `every` of an array.
  abbrev pub any : (A → Bool) → List A → Bool
  any p [] = false
  any p (x ∷ xs) = p x || any p xs

  abbrev pub all : (A → Bool) → List A → Bool
  all p [] = true
  all p (x ∷ xs) = p x && all p xs

  abbrev pub All {κ} : (A → Type κ) → List A → Type κ
  All P [] = Unit
  All P (x ∷ xs) = P x × All P xs

  -- The sum of a column.
  abbrev pub sum_by : (A → ℕ) → List A → ℕ
  sum_by w [] = 0
  sum_by w (x ∷ xs) = w x + sum_by w xs

  -- The rows that pass a test, with their ids, from id `i` on.
  abbrev pub select_from : ℕ → (A → Bool) → List A → List (ℕ × A)
  select_from i p [] = []
  select_from i p (x ∷ xs) =
      if p x then (i, x) ∷ select_from (suc i) p xs else select_from (suc i) p xs

  -- All ids of a selection are at least `i`.
  abbrev pub Above : ℕ → List (ℕ × A) → Type 0
  Above i [] = Unit
  Above i ((k, _) ∷ rest) = (i ≤ k) × Above i rest

  -- A selection with ascending ids whose rows pass the test and still stand in the table.
  abbrev pub Snapshot : (A → Bool) → List A → List (ℕ × A) → Type ℓ
  Snapshot p rows [] = Unit
  Snapshot p rows ((k, r) ∷ rest) =
      (get_elem? rows k ≡ some r) × (p r ≡ true) × Above (suc k) rest × Snapshot p rows rest

  pub length-set : (xs : List A) (i : ℕ) (v : A) → length (set xs i v) ≡ length xs
  length-set [] i v = refl
  length-set (x ∷ xs) zero v = refl
  length-set (x ∷ xs) (suc i) v = ap suc (length-set xs i v)

  pub get_elem?-set_self :
      (xs : List A) (i : ℕ) (v : A) → i < length xs → get_elem? (set xs i v) i ≡ some v
  get_elem?-set_self [] i v h = elim h [ ]
  get_elem?-set_self (x ∷ xs) zero v h = refl
  get_elem?-set_self (x ∷ xs) (suc i) v h = get_elem?-set_self xs i v (omega arith)

  pub get_elem?-set_ne :
      (xs : List A) (i j : ℕ) (v : A) → i ≢ j → get_elem? (set xs i v) j ≡ get_elem? xs j
  get_elem?-set_ne [] i j v h = refl
  get_elem?-set_ne (x ∷ xs) zero zero v h = absurd (h refl)
  get_elem?-set_ne (x ∷ xs) zero (suc j) v h = refl
  get_elem?-set_ne (x ∷ xs) (suc i) zero v h = refl
  get_elem?-set_ne (x ∷ xs) (suc i) (suc j) v h = get_elem?-set_ne xs i j v (λ e. h (ap suc e))

  pub get_elem?-bound : (xs : List A) (i : ℕ) {v : A} → get_elem? xs i ≡ some v → i < length xs
  get_elem?-bound [] i h = cc
  get_elem?-bound (x ∷ xs) zero h = omega arith
  get_elem?-bound (x ∷ xs) (suc i) h = omega (arith, get_elem?-bound xs i h)

  pub get_elem?-append :
      (xs ys : List A) (i : ℕ) (v : A) → get_elem? xs i ≡ some v → get_elem? (xs ++ ys) i ≡ some v
  get_elem?-append [] ys i v h = absurd (cc)
  get_elem?-append (x ∷ xs) ys zero v h = h
  get_elem?-append (x ∷ xs) ys (suc i) v h = get_elem?-append xs ys i v h

  -- A write moves a column's sum from the old row's part to the new row's.
  pub sum_by-set :
      (w : A → ℕ) (xs : List A) (i : ℕ) (a v : A)
      → get_elem? xs i ≡ some a
      → sum_by w (set xs i v) + w a ≡ sum_by w xs + w v
  sum_by-set w [] i a v h = cc
  sum_by-set w (x ∷ xs) zero a v h = ground arith
  sum_by-set w (x ∷ xs) (suc i) a v h = omega (arith, sum_by-set w xs i a v h)

  pub sum_by-append : (w : A → ℕ) (xs ys : List A) → sum_by w (xs ++ ys) ≡ sum_by w xs + sum_by w ys
  sum_by-append w [] ys = omega arith
  sum_by-append w (x ∷ xs) ys = omega (arith, sum_by-append w xs ys)

  pub le-sum_by :
      (w : A → ℕ) (xs : List A) (i : ℕ) (a : A) → get_elem? xs i ≡ some a → w a ≤ sum_by w xs
  le-sum_by w [] i a h = cc
  le-sum_by w (x ∷ xs) zero a h = ground arith
  le-sum_by w (x ∷ xs) (suc i) a h = omega (arith, le-sum_by w xs i a h)

module _ {ℓ} {A : Type ℓ} where
  pub Above-weaken : (i j : ℕ) (rows : List (ℕ × A)) → i ≤ j → Above j rows → Above i rows
  Above-weaken i j [] h a = tt
  Above-weaken i j ((k, r) ∷ rest) h a = (omega arith, Above-weaken i j rest h a.1)

  pub select_from-Above : (i : ℕ) (p : A → Bool) (xs : List A) → Above i (select_from i p xs)
  select_from-Above i p [] = tt
  select_from-Above i p (x ∷ xs) =
      let rest =
        Above-weaken i (suc i) (select_from (suc i) p xs) (omega arith)
          (select_from-Above (suc i) p xs) in
      elim (Bool_cases (p x)) [ inl e ↦ rw e (omega arith, rest) | inr e ↦ rw e rest ]

  drop-cons :
      (rows : List A) (i : ℕ) (x : A) (r : List A)
      → drop i rows ≡ x ∷ r
      → (get_elem? rows i ≡ some x) × (drop (suc i) rows ≡ r)
  drop-cons [] zero x r h = absurd (cc)
  drop-cons [] (suc i) x r h = absurd (cc)
  drop-cons (y ∷ ys) zero x r h = (cc, cc)
  drop-cons (y ∷ ys) (suc i) x r h = drop-cons ys i x r h

  select_from_suffix :
      (rows : List A) (i : ℕ) (p : A → Bool) (xs : List A)
      → drop i rows ≡ xs
      → Snapshot p rows (select_from i p xs)
  select_from_suffix rows i p [] h = tt
  select_from_suffix rows i p (x ∷ xs) h =
      let (here, later) = drop-cons rows i x xs h in
      let rest = select_from_suffix rows (suc i) p xs later in
      elim (Bool_cases (p x)) [
        | inl e ↦ rw e (here, e, select_from-Above (suc i) p xs, rest)
        | inr e ↦ rw e rest
      ]

  -- What a query returns is a snapshot of the table.
  pub select-Snapshot : (p : A → Bool) (rows : List A) → Snapshot p rows (select_from 0 p rows)
  select-Snapshot p rows = select_from_suffix rows 0 p rows refl

  -- A write to a row before those of the selection leaves it a snapshot.
  pub Snapshot-set :
      (p : A → Bool) (rows : List A) (j : ℕ) (v : A) (sel : List (ℕ × A))
      → Above (suc j) sel
      → Snapshot p rows sel
      → Snapshot p (set rows j v) sel
  Snapshot-set p rows j v [] a s = tt
  Snapshot-set p rows j v ((k, r) ∷ rest) a s = (
    get_elem?-set_ne rows j k v (λ e. absurd (omega arith)) ∙ s.0,
    s.1,
    s.2,
    Snapshot-set p rows j v rest a.1 s.3,
  )

module _ {ℓ κ} {A : Type ℓ} (P : A → Type κ) where
  pub All-get : (xs : List A) (i : ℕ) (a : A) → get_elem? xs i ≡ some a → All P xs → P a
  All-get [] i a e h = absurd (cc)
  All-get (x ∷ xs) zero a e h = subst P (some-injective x a e) h.0
  All-get (x ∷ xs) (suc i) a e h = All-get xs i a e h.1

  pub All-set : (xs : List A) (i : ℕ) (v : A) → All P xs → P v → All P (set xs i v)
  All-set [] i v h p = tt
  All-set (x ∷ xs) zero v h p = (p, h.1)
  All-set (x ∷ xs) (suc i) v h p = (h.0, All-set xs i v h.1 p)

  pub All-append : (xs ys : List A) → All P xs → All P ys → All P (xs ++ ys)
  All-append [] ys h k = k
  All-append (x ∷ xs) ys h k = (h.0, All-append xs ys h.1 k)

pub any-append_last {ℓ} :
    {A : Type ℓ} (p : A → Bool) (xs : List A) (x : A) → p x ≡ true → any p (xs ++ (x ∷ [])) ≡ true
any-append_last p [] x h = ground arith
any-append_last p (y ∷ ys) x h = ground (arith, any-append_last p ys x h)
