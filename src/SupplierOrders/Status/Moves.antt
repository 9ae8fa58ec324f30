-- ===== src/SupplierOrders/Status/Moves.antt =====
-- Every operation moves the status of at most one supplier order, by the table, and no goods go to a
-- client who has not paid.
use hpl_back.Base.{
  ℕ, ◌≡◌, ◌⊎◌, refl, ◌∙◌, Bool, true, false, not, ◌&&◌, some, [], ◌∷◌, ◌++◌, arith, same, includes,
  get_elem?, set, inl, inr, Bool_cases, Option_cases,
}
use hpl_back.Domain.{
  SupplierOrderStatus, supplier_order_status_enum, PaymentStatus, payment_status_enum,
}
use hpl_back.Store.{Db, SupplierOrder, Result, ok, err, Action, ActivityType, AuditEvent, ◌>>=◌}
use hpl_back.Deals.{is_value, try_finalize, try_finalize_deal, lock_fulfillment_rows}
use hpl_back.Deals.Amounts.{try_finalize_rows}
use hpl_back.SupplierOrders.{
  supplier_order_status_transitions, ready_confirmable_statuses, is_client_shipment_supplier_status,
  client_payment, assert_deal_paid_for_shipment,
}
use hpl_back.SupplierOrders.Table.{Move, transitions_iff, same_status}
use hpl_back.SupplierOrders.Status.{
  reread, ready_confirmed, may_confirm_ready, record_ready, confirm_ready_write, delivered_now,
  is_shipped, record_delivery, confirm_delivery_write, finalize_again, record_status, has_status,
  update_status_write,
}

-- Nothing happened to the supplier orders, or one moved by the table, and the client has paid if it
-- went to the client.
abbrev pub Moved : Db → Db → Type 0
Moved db db' =
    (db'.supplier_orders ≡ db.supplier_orders)
    ⊎ ((k : ℕ) × (row : SupplierOrder) × (row' : SupplierOrder) × (get_elem? db.supplier_orders k
          ≡ some row)
        × (db'.supplier_orders ≡ set db.supplier_orders k row')
        × (row'.deal_id ≡ row.deal_id)
        × ((row'.status ≡ row.status) ⊎ Move row.status row'.status)
        × (is_client_shipment_supplier_status row'.status ≡ true
            → is_value (client_payment row.deal_id db) PaymentStatus.paid ≡ true))

abbrev pub Kept : {A : Type 0} → Action A → Type 0
Kept m = (db : Db) → (m db).1.supplier_orders ≡ db.supplier_orders

pub Kept-after :
    {A B : Type 0} (f : A → Action B) (r : Result A) (db : Db)
    → ((a : A) → Kept (f a))
    → (elim r as (λ _. Result B × Db) [ ok a ↦ f a db | err e ↦ (err e, db) ]).1.supplier_orders
      ≡ db.supplier_orders
Kept-after f (ok a) db h = h a db
Kept-after f (err e) db h = refl

pub Kept-bind :
    {A B : Type 0} (m : Action A) (f : A → Action B)
    → Kept m
    → ((a : A) → Kept (f a))
    → Kept (m >>= f)
Kept-bind m f h k db = Kept-after f (m db).0 (m db).1 k ∙ h db

pub reread-Kept : (k : ℕ) → Kept (reread k)
unfolding reread
reread-Kept k db = ground arith

record_ready-Kept : (k now user : ℕ) (read : SupplierOrder) → Kept (record_ready k now user read)
unfolding record_ready reread
record_ready-Kept k now user read db = ground arith

record_status-Kept :
    (k user : ℕ) (read : SupplierOrder) (status : SupplierOrderStatus)
    → Kept (record_status k user read status)
unfolding record_status reread
record_status-Kept k user read status db = ground arith

try_finalize-Kept : (deal_id user : ℕ) → Kept (try_finalize deal_id user)
try_finalize-Kept deal_id user db = (try_finalize_rows deal_id user db).0.4

pub finalize_again-Kept : (deal_id user : ℕ) → Kept (finalize_again deal_id user)
unfolding finalize_again try_finalize_deal
finalize_again-Kept deal_id user db = ground (arith, try_finalize-Kept deal_id user db)

record_delivery-Kept : (k now user deal_id : ℕ) → Kept (record_delivery k now user deal_id)
unfolding record_delivery
record_delivery-Kept k now user deal_id db =
    Kept-bind (try_finalize deal_id user) (λ _. reread k) (try_finalize-Kept deal_id user)
      (λ _. reread-Kept k)
      (record db {
        activities =
            db.activities
            ++ (record { author_id = user; type = ActivityType.client_delivery_confirmed deal_id k }
                ∷ []);
        audit_log =
            db.audit_log
            ++ (record {
              user_id = some user;
              event = AuditEvent.client_delivery_confirmed k now user;
            }
                ∷ []);
      })

confirmable :
    (s : SupplierOrderStatus)
    → includes ready_confirmable_statuses s ≡ true
    → (SupplierOrderStatus.ready_for_shipment ≡ s) ⊎ Move s SupplierOrderStatus.ready_for_shipment
confirmable SupplierOrderStatus.draft e = inr (Move.forward (omega arith) (omega arith))
confirmable SupplierOrderStatus.sent_to_production e =
    inr (Move.forward (omega arith) (omega arith))
confirmable SupplierOrderStatus.in_production e = inr (Move.forward (omega arith) (omega arith))
confirmable SupplierOrderStatus.ready_for_shipment e = inl refl
confirmable SupplierOrderStatus.shipped e = ground arith
confirmable SupplierOrderStatus.delivered e = ground arith
confirmable SupplierOrderStatus.cancelled e = ground arith

pub confirm_ready_write-Moved :
    (k now user : ℕ) (read : SupplierOrder) (db : Db)
    → Moved db (confirm_ready_write k now user read db).1
unfolding confirm_ready_write is_client_shipment_supplier_status
confirm_ready_write-Moved k now user read db =
    elim (Option_cases (get_elem? db.supplier_orders k)) [
      | inl no_row ↦ inl (ground arith)
      | inr (row, found) ↦ elim (Bool_cases (may_confirm_ready row)) [
        | inr fails ↦ inl (ground arith)
        | inl passes ↦
            let claimed : Db = record db {
              supplier_orders = set db.supplier_orders k (ready_confirmed now user row);
            } in
            inr (
              k,
              row,
              ready_confirmed now user row,
              found,
              ground (arith, record_ready-Kept k now user read claimed),
              refl,
              confirmable row.status (ground arith),
              λ shipped. ground arith,
            )
      ]
    ]

-- The client of the row's deal has paid.
abbrev paid_for : Db → ℕ → Bool
paid_for db deal_id = is_value (client_payment deal_id db) PaymentStatus.paid

pub confirm_delivery_write-Moved :
    (k now user deal_id : ℕ) (db : Db)
    → ((row : SupplierOrder) → get_elem? db.supplier_orders k ≡ some row → row.deal_id ≡ deal_id)
    → Moved db (confirm_delivery_write k now user deal_id db).1
unfolding confirm_delivery_write lock_fulfillment_rows assert_deal_paid_for_shipment
confirm_delivery_write-Moved k now user deal_id db same_deal =
    elim (Option_cases (get_elem? db.deals deal_id)) [
      | inl no_deal ↦ inl (ground arith)
      | inr (deal, deal_at) ↦ elim (Bool_cases (paid_for db deal_id)) [
        | inr unpaid ↦ inl (ground arith)
        | inl paid ↦ elim (Option_cases (get_elem? db.supplier_orders k)) [
          | inl no_row ↦ inl (ground arith)
          | inr (row, found) ↦ elim (Bool_cases (is_shipped row)) [
            | inr fails ↦ inl (ground arith)
            | inl shipped ↦
                let claimed : Db = record db {
                  supplier_orders = set db.supplier_orders k (delivered_now now user row);
                } in
                inr (
                  k,
                  row,
                  delivered_now now user row,
                  found,
                  ground (arith, record_delivery-Kept k now user deal_id claimed),
                  refl,
                  inr (
                      Move.deliver (same_status row.status SupplierOrderStatus.shipped shipped)
                        refl),
                  λ _. rw (same_deal row found) paid,
                )
          ]
        ]
      ]
    ]

pub update_status_write-Moved :
    (k user : ℕ) (read : SupplierOrder) (status : SupplierOrderStatus) (db : Db)
    → ((row : SupplierOrder)
        → get_elem? db.supplier_orders k ≡ some row
        → row.deal_id ≡ read.deal_id)
    → includes (supplier_order_status_transitions read.status) status ≡ true
    → same status read.status ≡ false
    → Moved db (update_status_write k user read status db).1
unfolding update_status_write assert_deal_paid_for_shipment
update_status_write-Moved k user read status db same_deal allowed changes =
    elim (Bool_cases
      (is_client_shipment_supplier_status status && not (paid_for db read.deal_id))) [
        | inl blocked ↦ inl (ground arith)
        | inr free ↦ elim (Option_cases (get_elem? db.supplier_orders k)) [
          | inl no_row ↦ inl (ground arith)
          | inr (row, found) ↦ elim (Bool_cases (has_status read.status row)) [
            | inr fails ↦ elim (Bool_cases (has_status status row)) [
              | inl lost ↦ inl (ground arith)
              | inr other ↦ inl (ground arith)
            ]
            | inl unchanged ↦
                let row' : SupplierOrder = record row { status = status } in
                let claimed : Db = record db { supplier_orders = set db.supplier_orders k row' } in
                inr (
                  k,
                  row,
                  row',
                  found,
                  ground (arith, record_status-Kept k user read status claimed),
                  refl,
                  inr (
                      rw (same_status row.status read.status unchanged)
                        ((transitions_iff read.status status).0 allowed)),
                  λ shipped. rw (same_deal row found) (ground arith),
                )
          ]
        ]
      ]
