-- ===== src/Orders/Payments/Confirm.antt =====
-- The transaction of `confirmPayment` and the books of the orders.
use hpl_back.Base.{
  ℕ, ◌-◌, ◌≤◌, ◌≡◌, ◌≢◌, refl, true, false, ◌&&◌, some, List, [], ◌∷◌, ◌++◌, arith, if◌then◌else◌,
  ltb, same, get_elem?, set, get_elem?-set_self, get_elem?-bound, Bool_cases, inl, inr,
}
use hpl_back.Domain.{
  order_status_enum, PaymentStatus, payment_status_enum, PaymentRecordStatus,
  payment_record_status_enum,
}
use hpl_back.Store.{
  Db, Order, Payment, ActivityType, AuditEvent, is_ok, pure, gets, or_throw, order_not_found,
  not_found, ◌>>=◌,
}
use hpl_back.Store.Keeps.{Keeps, Keeps-bind, Keeps-or_throw}
use hpl_back.Deals.{try_finalize}
use hpl_back.Orders.{calculate_payment_status}
use hpl_back.Orders.Payments.{confirmed_total, with_paid, settle_order, finish_paid}
use hpl_back.Orders.Payments.Accounted.{
  Accounted, RowsAccounted, RowsAccounted-set, Books, try_finalize-Books, with_paid-IsAccounted,
}

finish_paid-Books :
    (payments : List Payment) (actor order_id deal_id : ℕ)
    → Keeps (Books payments) (finish_paid actor order_id deal_id)
unfolding finish_paid
finish_paid-Books payments actor order_id deal_id =
    Keeps-bind (Books payments) (try_finalize deal_id actor)
      (λ _. gets (λ db. get_elem? db.orders order_id) >>= λ completed.
        or_throw completed (not_found order_not_found))
      (try_finalize-Books payments deal_id actor)
      (λ _ db.
        Keeps-or_throw (Books payments) (get_elem? db.orders order_id) (not_found order_not_found)
          db)

module _ (actor payment_id order_id : ℕ) (status : PaymentRecordStatus) (order : Order)
    (db : Db) where
  abbrev pub paid : ℕ
  paid = confirmed_total order_id db.payments

  -- The database when the amounts, the activity and the audit entry are written.
  abbrev settled : Db
  settled = record db {
    orders = set db.orders order_id (with_paid order paid order);
    activities =
        db.activities
        ++ (record {
          author_id = actor;
          type = ActivityType.payment_received order_id payment_id status;
        }
            ∷ []);
    audit_log =
        db.audit_log
        ++ (record {
          user_id = some actor;
          event =
              AuditEvent.payment_status_changed payment_id order_id status paid
                (order.total_amount - paid);
        }
            ∷ []);
  }

  settle_steps :
      get_elem? db.orders order_id ≡ some order
      → (same status PaymentRecordStatus.confirmed && ltb order.total_amount paid) ≡ false
      → settle_order actor payment_id order_id status order db
        ≡ (if same (calculate_payment_status paid order.total_amount) PaymentStatus.paid
              then finish_paid actor order_id order.deal_id
              else pure (with_paid order paid order))
            settled
  unfolding settle_order
  settle_steps found within =
      let row =
        get_elem?-set_self db.orders order_id (with_paid order paid order)
          (get_elem?-bound db.orders order_id found) in
      elim (Bool_cases
        (same (calculate_payment_status paid order.total_amount) PaymentStatus.paid)) [
          | inl all_paid ↦ ground (arith, row)
          | inr open_amount ↦ ground (arith, row)
        ]

  settle_throws :
      (same status PaymentRecordStatus.confirmed && ltb order.total_amount paid) ≡ true
      → is_ok (settle_order actor payment_id order_id status order db).0 ≡ false
  unfolding settle_order
  settle_throws too_much = ground arith

  -- A run that returns leaves the settled database, with the deal completed perhaps.
  pub settle_order-Books :
      (payments : List Payment)
      → get_elem? db.orders order_id ≡ some order
      → RowsAccounted db.orders payments
      → ((j : ℕ) → j ≢ order_id → confirmed_total j db.payments ≡ confirmed_total j payments)
      → (same status PaymentRecordStatus.confirmed ≡ false → paid ≤ order.total_amount)
      → is_ok (settle_order actor payment_id order_id status order db).0 ≡ true
      → Books db.payments (settle_order actor payment_id order_id status order db).1
  settle_order-Books payments found h others rejected done =
      elim (Bool_cases (same status PaymentRecordStatus.confirmed && ltb order.total_amount paid)) [
        | inl too_much ↦ ground (arith, settle_throws too_much, done)
        | inr within ↦
            let books : Accounted settled =
              RowsAccounted-set db.orders payments db.payments order_id (with_paid order paid order)
                h others (with_paid-IsAccounted order order paid (ground (arith, rejected)) refl) in
            elim (Bool_cases
              (same (calculate_payment_status paid order.total_amount) PaymentStatus.paid)) [
                | inl all_paid ↦
                    rw (settle_steps found within, all_paid)
                      (finish_paid-Books db.payments actor order_id order.deal_id settled
                        (books, refl))
                | inr some_open ↦ rw (settle_steps found within, some_open) (books, refl)
              ]
      ]
