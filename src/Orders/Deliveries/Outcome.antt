-- ===== src/Orders/Deliveries/Outcome.antt =====
-- `createDelivery` as a whole.
use hpl_back.Base.{
  ℕ, ◌≡◌, ◌⊎◌, refl, sym, ap, ◌∙◌, Bool, true, false, some, List, arith, ◌==◌, same, length,
  get_elem?, Bool_cases, Option_cases, inl, inr,
}
use hpl_back.Domain.{OrderStatus, order_status_enum, PaymentStatus, payment_status_enum}
use hpl_back.Store.{Db, Order, Result, Action, is_ok, for_each, transaction}
use hpl_back.Store.Keeps.{Keeps}
use hpl_back.Access.{PolicyUser}
use hpl_back.Inventory.Stock.{ReserveStockItem}
use hpl_back.Deals.{lock_fulfillment_rows}
use hpl_back.SupplierOrders.{assert_paid_for_client_shipment}
use hpl_back.Orders.{live_order, read_order, assert_order_mutation_allowed, owner_of}
use hpl_back.Orders.Deliveries.{
  CreateDelivery, add_delivery, add_delivered, items_in, finish_delivery, write_delivery, deliver,
  delivery_write, create_delivery,
}
use hpl_back.Orders.Deliveries.Items.{stock_items-Reads}
use hpl_back.Orders.Deliveries.Frame.{finish_delivery-SameItems}
use hpl_back.Orders.Deliveries.Within.{Room, Within, add_all-Room, passed-Room}

write_delivery-Within :
    (dto : CreateDelivery) (actor deal_id version : ℕ) (stock : List ReserveStockItem) (db : Db)
    → Room dto.items db
    → Within (write_delivery dto actor deal_id version stock db).1
unfolding write_delivery
write_delivery-Within dto actor deal_id version stock db h =
    let db1 : Db = (add_delivery dto db).1 in
    let db2 : Db = (for_each add_delivered dto.items db1).1 in
    let (done, within) = add_all-Room dto.items db1 h in
    let finish : Action Bool = finish_delivery dto.order_id actor deal_id version stock in
    let same_items : (finish db2).1.order_items ≡ db2.order_items =
      finish_delivery-SameItems db2.order_items dto.order_id actor deal_id version stock db2 refl in
    let ends : (write_delivery dto actor deal_id version stock db).1 ≡ (finish db2).1 =
      ground arith in
    λ k r found.
      within k r
        (sym (ap (λ xs. get_elem? xs k) (ap (λ (d : Db). d.order_items) ends ∙ same_items)) ∙ found)

deliver-Within :
    (dto : CreateDelivery) (actor deal_id version : ℕ)
    → Keeps Within (deliver dto actor deal_id version)
unfolding deliver
deliver-Within dto actor deal_id version db within =
    let rows = items_in 0 dto.order_id dto.items db.order_items in
    elim (Bool_cases (length rows == length dto.items)) [
      | inr short ↦
          let same_db : (deliver dto actor deal_id version db).1 ≡ db = ground arith in
          rw same_db within
      | inl all_found ↦ elim (stock_items-Reads rows dto.items db) [
        | inl (fails, same_db) ↦
            let rolled : (deliver dto actor deal_id version db).1 ≡ db = ground arith in
            rw rolled within
        | inr (stock, e, fit) ↦
            let e0 = ap (λ y. y.0) e in
            let e1 = ap (λ y. y.1) e in
            let goes : (deliver dto actor deal_id version db).1
                ≡ (write_delivery dto actor deal_id version stock db).1 =
              ground arith in
            rw goes (
              write_delivery-Within dto actor deal_id version stock db
                (passed-Room dto.order_id dto.items db within (ground arith) fit))
      ]
    ]

-- The order is there, not cancelled, and paid.
abbrev pub MayDeliver : ℕ → Db → Type 0
MayDeliver k db =
    (o : Order) × (live_order k db ≡ some o)
    × (same o.status OrderStatus.cancelled ≡ false)
    × (same o.payment_status PaymentStatus.paid ≡ true)

-- No item goes beyond its quantity; a call that throws writes nothing; one that returns was for a paid
-- order.
abbrev pub DeliveryOutcome {ℓ} : {A : Type ℓ} → ℕ → Db → Result A × Db → Type 0
DeliveryOutcome k db (r, db') =
    Within db' × (is_ok r ≡ false → db' ≡ db) × (is_ok r ≡ true → MayDeliver k db)

delivery_write_cases :
    (dto : CreateDelivery) (actor deal_id : ℕ) (db : Db)
    → ((is_ok (delivery_write dto actor deal_id db).0 ≡ false)
        × ((delivery_write dto actor deal_id db).1 ≡ db))
      ⊎ (MayDeliver dto.order_id db
          × ((version : ℕ) × (delivery_write dto actor deal_id db
                ≡ deliver dto actor deal_id version db)))
unfolding delivery_write lock_fulfillment_rows assert_paid_for_client_shipment
delivery_write_cases dto actor deal_id db = elim (Option_cases (get_elem? db.deals deal_id)) [
  | inl gone ↦ inl (ground arith, ground arith)
  | inr (deal, there) ↦ elim (Option_cases (live_order dto.order_id db)) [
    | inl missing ↦ inl (ground arith, ground arith)
    | inr (o, found) ↦ elim (Bool_cases (same o.status OrderStatus.cancelled)) [
      | inl cancelled ↦ inl (ground arith, ground arith)
      | inr open_order ↦ elim (Bool_cases (same o.payment_status PaymentStatus.paid)) [
        | inr unpaid ↦ inl (ground arith, ground arith)
        | inl paid ↦ inr ((o, found, open_order, paid), (o.version, ground arith))
      ]
    ]
  ]
]

unchanged_delivery :
    {A : Type 0} (k : ℕ) (db : Db) (x : Result A × Db)
    → Within db
    → is_ok x.0 ≡ false
    → x.1 ≡ db
    → DeliveryOutcome k db x
unchanged_delivery k db x within fails same_db =
    (rw same_db within, λ _. same_db, λ done. absurd (cc (fails, done)))

transaction_outcome :
    (dto : CreateDelivery) (actor deal_id : ℕ) (db : Db)
    → Within db
    → DeliveryOutcome dto.order_id db (transaction (delivery_write dto actor deal_id) db)
transaction_outcome dto actor deal_id db within =
    let write : Action ℕ = delivery_write dto actor deal_id in
    elim (Bool_cases (is_ok (write db).0)) [
      | inr thrown ↦
          unchanged_delivery dto.order_id db (transaction write db) within (ground arith)
            (ground arith)
      | inl done ↦ elim (delivery_write_cases dto actor deal_id db) [
        | inl (fails, same_db) ↦ absurd (cc (fails, done))
        | inr (may, (version, e)) ↦
            let goes : (transaction write db).1 ≡ (deliver dto actor deal_id version db).1 =
              ground arith in
            let returned : is_ok (transaction write db).0 ≡ true = ground arith in
            (
              rw goes (deliver-Within dto actor deal_id version db within),
              λ fails. absurd (cc (fails, returned)),
              λ _. may,
            )
      ]
    ]

create_delivery_cases :
    (dto : CreateDelivery) (user : PolicyUser) (db : Db)
    → ((is_ok (create_delivery dto user db).0 ≡ false) × ((create_delivery dto user db).1 ≡ db))
      ⊎ ((deal_id : ℕ) × (create_delivery dto user db
            ≡ transaction (delivery_write dto user.id deal_id) db))
unfolding create_delivery read_order assert_order_mutation_allowed
create_delivery_cases dto user db = elim (Option_cases (live_order dto.order_id db)) [
  | inl missing ↦ inl (ground arith, ground arith)
  | inr (o, found) ↦ elim (Option_cases (owner_of o db)) [
    | inl gone ↦ inl (ground arith, ground arith)
    | inr (owner, there) ↦ elim (Bool_cases (is_ok (create_delivery dto user db).0)) [
      | inr fails ↦ inl (fails, ground arith)
      | inl done ↦ inr (o.deal_id, ground arith)
    ]
  ]
]

-- If no order item's delivered quantity is above its quantity, then none is after createDelivery,
-- whatever its outcome and also if the request names an item several times; a call that throws
-- writes nothing; and a call that returns was for an order that was neither deleted nor cancelled
-- and was paid.
pub create_delivery_outcome :
    (dto : CreateDelivery) (user : PolicyUser) (db : Db)
    → Within db
    → DeliveryOutcome dto.order_id db (create_delivery dto user db)
create_delivery_outcome dto user db within = elim (create_delivery_cases dto user db) [
  | inl (fails, same_db) ↦
      unchanged_delivery dto.order_id db (create_delivery dto user db) within fails same_db
  | inr (deal_id, e) ↦ rw e (transaction_outcome dto user.id deal_id db within)
]
