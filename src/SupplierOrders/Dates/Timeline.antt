-- ===== src/SupplierOrders/Dates/Timeline.antt =====
-- What the check of the dates allows.
use hpl_back.Base.{
  inl, inr, Bool_cases, ℕ, ◌≤◌, ◌≡◌, ◌↔◌, refl, Option, none, some, List, [], ◌∷◌, arith,
}
use hpl_back.Store.{Db, ok, is_ok}
use hpl_back.Store.Reads.{Reads}
use hpl_back.SupplierOrders.Dates.{TimelineDates, assert_timeline_dates}

-- The dates that are set, in the order of the list.
abbrev pub set_dates : List (Option ℕ) → List ℕ
set_dates [] = []
set_dates (none ∷ rest) = set_dates rest
set_dates (some d ∷ rest) = d ∷ set_dates rest

abbrev pub InOrderFrom : ℕ → List ℕ → Type 0
InOrderFrom a [] = Unit
InOrderFrom a (b ∷ rest) = (a ≤ b) × InOrderFrom b rest

-- No date of the list is before an earlier one.
abbrev pub InOrder : List ℕ → Type 0
InOrder [] = Unit
InOrder (a ∷ rest) = InOrderFrom a rest

-- Ordered, ready, shipped and arrived, one after the other.
abbrev pub IsTimeline : TimelineDates → Type 0
IsTimeline d = InOrder (
    set_dates
      (d.ordered_at ∷ d.expected_ready_at ∷ d.expected_shipment_at ∷ d.expected_arrival_at ∷ []))

passes :
    (o r s a : Option ℕ) (db : Db)
    → assert_timeline_dates
        (record {
          ordered_at = o;
          expected_ready_at = r;
          expected_shipment_at = s;
          expected_arrival_at = a;
        })
        db
      ≡ (ok tt, db)
    → InOrder (set_dates (o ∷ r ∷ s ∷ a ∷ []))
unfolding assert_timeline_dates
passes none none none none db e = tt
passes none none none (some a) db e = tt
passes none none (some s) none db e = tt
passes none none (some s) (some a) db e = ground arith
passes none (some r) none none db e = tt
passes none (some r) none (some a) db e = ground arith
passes none (some r) (some s) none db e = ground arith
passes none (some r) (some s) (some a) db e = ground arith
passes (some o) none none none db e = tt
passes (some o) none none (some a) db e = ground arith
passes (some o) none (some s) none db e = ground arith
passes (some o) none (some s) (some a) db e = ground arith
passes (some o) (some r) none none db e = ground arith
passes (some o) (some r) none (some a) db e = ground arith
passes (some o) (some r) (some s) none db e = ground arith
passes (some o) (some r) (some s) (some a) db e = ground arith

passed :
    (o r s a : Option ℕ) (db : Db)
    → InOrder (set_dates (o ∷ r ∷ s ∷ a ∷ []))
    → assert_timeline_dates
        (record {
          ordered_at = o;
          expected_ready_at = r;
          expected_shipment_at = s;
          expected_arrival_at = a;
        })
        db
      ≡ (ok tt, db)
unfolding assert_timeline_dates
passed none none none none db e = refl
passed none none none (some a) db e = refl
passed none none (some s) none db e = refl
passed none none (some s) (some a) db e = ground arith
passed none (some r) none none db e = refl
passed none (some r) none (some a) db e = ground arith
passed none (some r) (some s) none db e = ground arith
passed none (some r) (some s) (some a) db e = ground arith
passed (some o) none none none db e = refl
passed (some o) none none (some a) db e = ground arith
passed (some o) none (some s) none db e = ground arith
passed (some o) none (some s) (some a) db e = ground arith
passed (some o) (some r) none none db e = ground arith
passed (some o) (some r) none (some a) db e = ground arith
passed (some o) (some r) (some s) none db e = ground arith
passed (some o) (some r) (some s) (some a) db e = ground arith

-- assertTimelineDates passes, with nothing written, exactly when the dates that are set, taken as
-- ordered, ready, shipment and arrival, are in that order, each no earlier than the one before.
pub assert_timeline_dates_iff :
    (d : TimelineDates) (db : Db) → (assert_timeline_dates d db ≡ (ok tt, db)) ↔ IsTimeline d
assert_timeline_dates_iff d db = (
  passes d.ordered_at d.expected_ready_at d.expected_shipment_at d.expected_arrival_at db,
  passed d.ordered_at d.expected_ready_at d.expected_shipment_at d.expected_arrival_at db,
)

pub assert_timeline_dates-Reads : (d : TimelineDates) (db : Db) → Reads (assert_timeline_dates d) db
unfolding assert_timeline_dates
assert_timeline_dates-Reads d db = elim (Bool_cases (is_ok (assert_timeline_dates d db).0)) [
  | inl passes ↦ inr (tt, ground arith)
  | inr fails ↦ inl (fails, ground arith)
]
