-- ===== src/Orders/Payments/Answer.antt =====
-- What `confirmPayment` does on every outcome.
use hpl_back.Base.{
  ℕ, ◌≡◌, ◌⊎◌, refl, ap, ◌∙◌, true, false, not, some, arith, ◌==◌, same, includes, get_elem?, set,
  Bool_cases, Option_cases, inl, inr,
}
use hpl_back.Domain.{
  OrderStatus, order_status_enum, payment_status_enum, PaymentRecordStatus,
  payment_record_status_enum,
}
use hpl_back.Store.{
  Db, Order, Payment, Result, is_ok, Action, pure, transaction, unless, forbidden, permission,
  ◌>>=◌,
}
use hpl_back.Store.Reads.{
  Like, transaction_fails, transaction_returns, throw_if-Reads, unless-Reads, after_reading,
  after_transaction,
}
use hpl_back.Access.{PolicyUser, Permission, permission_enum, OrderPermissions, order_permissions}
use hpl_back.Orders.{read_order, assert_order_mutation_allowed}
use hpl_back.Orders.Cancel.{read_order-Reads}
use hpl_back.Orders.Payments.{
  is_pending, is_answer, settle_order, confirm_write, confirm_payment, answer_payment,
}
use hpl_back.Orders.Payments.Accounted.{Accounted, Books, claim_other, claim_rejected}
use hpl_back.Orders.Payments.Confirm.{settle_order-Books}

abbrev pub answered : PaymentRecordStatus → Payment → Payment
answered status p = record p { status = status }

abbrev claimed : ℕ → Payment → PaymentRecordStatus → Db → Db
claimed payment_id payment status db = record db {
  payments = set db.payments payment_id (answered status payment);
}

module _ (actor payment_id : ℕ) (payment : Payment) (status : PaymentRecordStatus) (db : Db) where
  confirm_write_cases :
      get_elem? db.payments payment_id ≡ some payment
      → is_pending payment ≡ true
      → (is_ok (confirm_write actor payment_id payment status db).0 ≡ false)
        ⊎ ((order : Order) × (get_elem? db.orders payment.order_id ≡ some order)
            × (confirm_write actor payment_id payment status db
                ≡ settle_order actor payment_id payment.order_id status order
                    (claimed payment_id payment status db)))
  unfolding confirm_write
  confirm_write_cases found pending = elim (Option_cases (get_elem? db.orders payment.order_id)) [
    | inl no_order ↦ inl (ground arith)
    | inr (order, at) ↦ elim (Bool_cases (same order.status OrderStatus.cancelled)) [
      | inl cancelled ↦ inl (ground arith)
      | inr live ↦ elim (Option_cases (get_elem? db.deals order.deal_id)) [
        | inl no_deal ↦ inl (ground arith)
        | inr (deal, deal_at) ↦ inr (order, at, ground arith)
      ]
    ]
  ]

  confirm_write-Books :
      get_elem? db.payments payment_id ≡ some payment
      → is_pending payment ≡ true
      → Accounted db
      → is_ok (confirm_write actor payment_id payment status db).0 ≡ true
      → Books
          (set db.payments payment_id (answered status payment))
          (confirm_write actor payment_id payment status db).1
  confirm_write-Books found pending h done = elim (confirm_write_cases found pending) [
    | inl fails ↦ ground (arith, fails, done)
    | inr (order, at, settles) ↦ rw settles (
        settle_order-Books actor payment_id payment.order_id status order
          (claimed payment_id payment status db) db.payments at h
          (λ j other.
            claim_other j payment_id payment (answered status payment) db.payments found refl other)
          (λ rejected. ground (
            arith,
            claim_rejected payment.order_id payment_id payment (answered status payment) db.payments
                found pending rejected,
            h payment.order_id order at,
          ))
          (rw (← settles) done))
  ]

answer_payment-Like :
    (payment_id : ℕ) (payment : Payment) (status : PaymentRecordStatus) (user : PolicyUser)
    (db : Db)
    → Like
        (answer_payment payment_id payment status user)
        (transaction (confirm_write user.id payment_id payment status) db)
        db
unfolding answer_payment assert_order_mutation_allowed
answer_payment-Like payment_id payment status user db =
    let t = transaction (confirm_write user.id payment_id payment status) db in
    let may_confirm : Order × ℕ → Action (Unit {0}) = λ existing.
      unless (same existing.0.status OrderStatus.cancelled)
        (assert_order_mutation_allowed user existing.0 existing.1 (λ p. p.can_confirm_payment)) in
    let finish : Order × ℕ → Action (Order × OrderPermissions) = λ existing.
      transaction (confirm_write user.id payment_id payment status) >>= λ order.
      pure (order, order_permissions user order.status existing.1) in
    after_reading (read_order payment.order_id)
      (λ existing. may_confirm existing >>= λ _. finish existing) t db
      (read_order-Reads payment.order_id db)
      (λ existing.
        after_reading (may_confirm existing) (λ _. finish existing) t db
          (unless-Reads (same existing.0.status OrderStatus.cancelled)
            (assert_order_mutation_allowed user existing.0 existing.1 (λ p. p.can_confirm_payment))
            db
            (throw_if-Reads
              (not (order_permissions user existing.0.status existing.1).can_confirm_payment)
              (forbidden permission) db))
          (λ _.
            after_transaction (transaction (confirm_write user.id payment_id payment status))
              (λ order. (order, order_permissions user order.status existing.1)) db))

-- The guards throw with nothing written, or hand on a pending payment of somebody else.
confirm_payment_cases :
    (payment_id : ℕ) (status : PaymentRecordStatus) (user : PolicyUser) (db : Db)
    → ((is_ok (confirm_payment payment_id status user db).0 ≡ false)
        × ((confirm_payment payment_id status user db).1 ≡ db))
      ⊎ ((payment : Payment) × (get_elem? db.payments payment_id ≡ some payment)
          × (is_pending payment ≡ true)
          × ((payment.created_by_id == user.id) ≡ false)
          × (confirm_payment payment_id status user db
              ≡ answer_payment payment_id payment status user db))
unfolding confirm_payment
confirm_payment_cases payment_id status user db =
    elim (Bool_cases (includes user.permissions Permission.payments_confirm)) [
      | inr not_allowed ↦ inl (ground arith, ground arith)
      | inl allowed ↦ elim (Bool_cases (is_answer status)) [
        | inr not_answer ↦ inl (ground arith, ground arith)
        | inl answer ↦ elim (Option_cases (get_elem? db.payments payment_id)) [
          | inl missing ↦ inl (ground arith, ground arith)
          | inr (payment, found) ↦ elim (Bool_cases (payment.created_by_id == user.id)) [
            | inl own ↦ inl (ground arith, ground arith)
            | inr others ↦ elim (Bool_cases (is_pending payment)) [
              | inr processed ↦ inl (ground arith, ground arith)
              | inl pending ↦ inr (payment, found, pending, others, ground arith)
            ]
          ]
        ]
      ]
    ]

-- What a call that returned tells of the payment.
abbrev pub Answered : ℕ → PaymentRecordStatus → PolicyUser → Db → Db → Type 0
Answered payment_id status user db db' =
    (payment : Payment) × (get_elem? db.payments payment_id ≡ some payment)
    × (is_pending payment ≡ true)
    × ((payment.created_by_id == user.id) ≡ false)
    × (db'.payments ≡ set db.payments payment_id (answered status payment))

-- The books are kept, a throw changes nothing, and what returned answered a pending payment.
abbrev pub PaymentOutcome {ℓ} :
    {A : Type ℓ} → ℕ → PaymentRecordStatus → PolicyUser → Db → Result A × Db → Type 0
PaymentOutcome payment_id status user db (r, db') =
    Accounted db'
    × (is_ok r ≡ false → db' ≡ db)
    × (is_ok r ≡ true → Answered payment_id status user db db')

unchanged_outcome :
    {A : Type 0} (payment_id : ℕ) (status : PaymentRecordStatus) (user : PolicyUser) (db : Db)
    (x : Result A × Db)
    → Accounted db
    → is_ok x.0 ≡ false
    → x.1 ≡ db
    → PaymentOutcome payment_id status user db x
unchanged_outcome payment_id status user db x h fails same_db =
    (rw same_db h, λ _. same_db, λ done. absurd (cc (fails, done)))

answer_outcome :
    (payment_id : ℕ) (payment : Payment) (status : PaymentRecordStatus) (user : PolicyUser)
    (db : Db)
    → Accounted db
    → get_elem? db.payments payment_id ≡ some payment
    → is_pending payment ≡ true
    → (payment.created_by_id == user.id) ≡ false
    → PaymentOutcome payment_id status user db (answer_payment payment_id payment status user db)
unfolding Like
answer_outcome payment_id payment status user db h found pending others =
    let write : Action Order = confirm_write user.id payment_id payment status in
    let x : Result (Order × OrderPermissions) × Db =
      answer_payment payment_id payment status user db in
    elim (answer_payment-Like payment_id payment status user db) [
      | inl (fails, same_db) ↦ unchanged_outcome payment_id status user db x h fails same_db
      | inr (outcome, same_db) ↦ elim (Bool_cases (is_ok (write db).0)) [
        | inr thrown ↦
            let (fails, rolled) = transaction_fails write db thrown in
            unchanged_outcome payment_id status user db x h (outcome ∙ fails) (same_db ∙ rolled)
        | inl done ↦
            let same_write : x.1 ≡ (write db).1 =
              same_db ∙ ap (λ y. y.1) (transaction_returns write db done) in
            let returned : is_ok x.0 ≡ true =
              outcome ∙ ap (λ y. is_ok y.0) (transaction_returns write db done) ∙ done in
            let (books, payments) =
              confirm_write-Books user.id payment_id payment status db found pending h done in
            (
              rw same_write books,
              λ fails. absurd (cc (fails, returned)),
              λ _. (
                payment,
                found,
                pending,
                others,
                ap (λ (y : Db). y.payments) same_write ∙ payments,
              ),
            )
      ]
    ]

-- If every order's books are in order (paid is the total of its confirmed payments, paid and
-- remaining make up the order's total, and the payment status follows from them), they are after
-- confirmPayment too, whatever its outcome; a call that throws writes nothing; and a call that
-- returns has answered a payment that was pending and that another user had created, and has
-- changed no other payment.
pub confirm_payment_outcome :
    (payment_id : ℕ) (status : PaymentRecordStatus) (user : PolicyUser) (db : Db)
    → Accounted db
    → PaymentOutcome payment_id status user db (confirm_payment payment_id status user db)
confirm_payment_outcome payment_id status user db h =
    elim (confirm_payment_cases payment_id status user db) [
      | inl (fails, same_db) ↦
          unchanged_outcome payment_id status user db (confirm_payment payment_id status user db) h
            fails same_db
      | inr (payment, found, pending, others, e) ↦
          rw e (answer_outcome payment_id payment status user db h found pending others)
    ]
