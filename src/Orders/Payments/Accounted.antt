-- ===== src/Orders/Payments/Accounted.antt =====
-- The books of an order: its columns agree with the payments that were confirmed.
use hpl_back.Base.{
  ℕ, ◌+◌, ◌≤◌, ◌≡◌, refl, sym, ap, ◌∙◌, ◌≢◌, zero, suc, true, false, some, List, [], ◌∷◌, arith,
  same, get_elem?, set, get_elem?-set_ne, sum_by-set, inl, inr,
}
use native.Mathlib.Decide.{ℕ_discrete}
use hpl_back.Domain.{payment_status_enum, PaymentRecordStatus, payment_record_status_enum}
use hpl_back.Store.{Db, Order, Payment}
use hpl_back.Store.Keeps.{Keeps}
use hpl_back.Deals.{try_finalize, completed_order}
use hpl_back.Deals.Amounts.{try_finalize_rows}
use hpl_back.Orders.{calculate_payment_status}
use hpl_back.Orders.Payments.{confirmed_amount, confirmed_total, is_pending, with_paid}

abbrev pub IsAccounted : Order → ℕ → Type 0
IsAccounted o paid =
    (o.paid_amount ≡ paid)
    × (paid + o.remaining_amount ≡ o.total_amount)
    × (o.payment_status ≡ calculate_payment_status paid o.total_amount)

-- Of every order: paid is the sum of its confirmed payments, paid and remaining make the total (so
-- nobody pays more than the total), and the payment status follows from the two.
abbrev pub RowsAccounted : List Order → List Payment → Type 0
RowsAccounted orders payments =
    (k : ℕ) (o : Order) → get_elem? orders k ≡ some o → IsAccounted o (confirmed_total k payments)

abbrev pub Accounted : Db → Type 0
Accounted db = RowsAccounted db.orders db.payments

set_value {ℓ} :
    {A : Type ℓ} (xs : List A) (k : ℕ) (v o : A) → get_elem? (set xs k v) k ≡ some o → o ≡ v
set_value [] k v o e = ground arith
set_value (x ∷ xs) zero v o e = ground arith
set_value (x ∷ xs) (suc k) v o e = set_value xs k v o e

pub RowsAccounted-set :
    (orders : List Order) (payments payments' : List Payment) (k : ℕ) (row : Order)
    → RowsAccounted orders payments
    → ((j : ℕ) → j ≢ k → confirmed_total j payments' ≡ confirmed_total j payments)
    → IsAccounted row (confirmed_total k payments')
    → RowsAccounted (set orders k row) payments'
RowsAccounted-set orders payments payments' k row h others mine j o found = elim (ℕ_discrete j k) [
  | yes same_row ↦
      let is_row : o ≡ row =
        set_value orders k row o
          (ap (λ i. get_elem? (set orders k row) i) (sym same_row) ∙ found) in
      rw (same_row, is_row) mine
  | no other ↦
      rw (others j other)
        (h j o (sym (get_elem?-set_ne orders k j row (λ e. other (sym e))) ∙ found))
]

-- The books are in order and the payments are these.
abbrev pub Books : List Payment → Db → Type 0
Books payments db = Accounted db × (db.payments ≡ payments)

-- A completed order keeps its books.
pub try_finalize-Books :
    (payments : List Payment) (deal_id actor : ℕ)
    → Keeps (Books payments) (try_finalize deal_id actor)
try_finalize-Books payments deal_id actor db (h, these) =
    let (kept, orders) = try_finalize_rows deal_id actor db in
    elim orders [
      | inl same_rows ↦ (rw (same_rows, kept.0) h, kept.0 ∙ these)
      | inr (k, row, found, changed) ↦ (
        rw (changed, kept.0)
            (RowsAccounted-set db.orders db.payments db.payments k (completed_order row) h
              (λ _ _. refl) (h k row found)),
        kept.0 ∙ these,
      )
    ]

-- The claim of a payment moves no other order's total.
pub claim_other :
    (j i : ℕ) (p p' : Payment) (payments : List Payment)
    → get_elem? payments i ≡ some p
    → p'.order_id ≡ p.order_id
    → j ≢ p.order_id
    → confirmed_total j (set payments i p') ≡ confirmed_total j payments
claim_other j i p p' payments found same_order other =
    ground (arith, sum_by-set (confirmed_amount j) payments i p p' found)

pub claim_rejected :
    (j i : ℕ) (p p' : Payment) (payments : List Payment)
    → get_elem? payments i ≡ some p
    → is_pending p ≡ true
    → same p'.status PaymentRecordStatus.confirmed ≡ false
    → confirmed_total j (set payments i p') ≡ confirmed_total j payments
claim_rejected j i p p' payments found pending rejected =
    ground (arith, sum_by-set (confirmed_amount j) payments i p p' found)

pub with_paid-IsAccounted :
    (read o : Order) (paid : ℕ)
    → paid ≤ read.total_amount
    → o.total_amount ≡ read.total_amount
    → IsAccounted (with_paid read paid o) paid
with_paid-IsAccounted read o paid within same_total =
    (refl, omega arith, ap (λ t. calculate_payment_status paid t) (sym same_total))
