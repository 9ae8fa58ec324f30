-- ===== src/Orders/Closed.antt =====
-- Orders that are shipped, cancelled or completed, and the operations that users call on them.
use hpl_back.Base.{
  ℕ, ◌≡◌, ◌⊎◌, true, false, some, arith, get_elem?, same, includes, Bool_cases, Option_cases, inl,
  inr,
}
use hpl_back.Domain.{OrderStatus, order_status_enum, role_name_enum, RoleName}
use hpl_back.Store.{Db, Order, Action, is_ok}
use hpl_back.Access.{PolicyUser, has_role, order_permissions, reads_owner, order_scope_filter}
use hpl_back.Orders.{
  owner_of, read_order, assert_order_mutation_allowed, assert_order_read_access, cancel_write,
  cancel_order, add_payment, terminal_statuses,
}
use hpl_back.Orders.Deliveries.{CreateDelivery, create_delivery}

abbrev pub IsClosed : OrderStatus → Type 0
IsClosed status =
    (status ≡ OrderStatus.shipped)
    ⊎ (status ≡ OrderStatus.cancelled)
    ⊎ (status ≡ OrderStatus.completed)

-- The call throws and nothing is written.
abbrev pub Refused : {A : Type 0} → Action A → Db → Type 0
Refused m db = (is_ok (m db).0 ≡ false) × ((m db).1 ≡ db)

-- Nobody may add payments to a closed order or deliver from it.
closed_permissions :
    (user : PolicyUser) (status : OrderStatus) (owner : ℕ)
    → IsClosed status
    → ((order_permissions user status owner).can_add_payment ≡ false)
      × ((order_permissions user status owner).can_create_delivery ≡ false)
unfolding order_permissions
closed_permissions user status owner closed = elim (Bool_cases (has_role user RoleName.head)) [
  | inl head ↦ elim closed [
    | inl shipped ↦ (ground arith, ground arith)
    | inr (inl cancelled) ↦ (ground arith, ground arith)
    | inr (inr completed) ↦ (ground arith, ground arith)
  ]
  | inr other ↦ elim closed [
    | inl shipped ↦ (ground arith, ground arith)
    | inr (inl cancelled) ↦ (ground arith, ground arith)
    | inr (inr completed) ↦ (ground arith, ground arith)
  ]
]

module _ (k : ℕ) (o : Order) (user : PolicyUser) (db : Db) where
  add_payment-Refused :
      (amount : ℕ)
      → get_elem? db.orders k ≡ some o
      → IsClosed o.status
      → Refused (add_payment k amount user) db
  unfolding add_payment read_order assert_order_mutation_allowed
  add_payment-Refused amount found closed = elim (Bool_cases o.deleted) [
    | inl deleted ↦ (ground arith, ground arith)
    | inr live ↦ elim (Option_cases (owner_of o db)) [
      | inl gone ↦ (ground arith, ground arith)
      | inr (owner, there) ↦
          let denied = (closed_permissions user o.status owner closed).0 in
          (ground arith, ground arith)
    ]
  ]

  create_delivery-Refused :
      (dto : CreateDelivery)
      → dto.order_id ≡ k
      → get_elem? db.orders k ≡ some o
      → IsClosed o.status
      → Refused (create_delivery dto user) db
  unfolding create_delivery read_order assert_order_mutation_allowed
  create_delivery-Refused dto named found closed = elim (Bool_cases o.deleted) [
    | inl deleted ↦ (ground arith, ground arith)
    | inr live ↦ elim (Option_cases (owner_of o db)) [
      | inl gone ↦ (ground arith, ground arith)
      | inr (owner, there) ↦
          let denied = (closed_permissions user o.status owner closed).1 in
          elim (Bool_cases (same o.status OrderStatus.cancelled)) [
            | inl cancelled ↦ (ground arith, ground arith)
            | inr other ↦ (ground arith, ground arith)
          ]
    ]
  ]

  cancel_order-Refused :
      get_elem? db.orders k ≡ some o → IsClosed o.status → Refused (cancel_order k user) db
  unfolding cancel_order cancel_write read_order assert_order_read_access
  cancel_order-Refused found closed = elim (Bool_cases o.deleted) [
    | inl deleted ↦ (ground arith, ground arith)
    | inr live ↦
        let terminal : includes terminal_statuses o.status ≡ true = elim closed [
          | inl shipped ↦ ground arith
          | inr (inl cancelled) ↦ ground arith
          | inr (inr completed) ↦ ground arith
        ] in
        elim (Option_cases (owner_of o db)) [
          | inl gone ↦ (ground arith, ground arith)
          | inr (owner, there) ↦
              elim (Bool_cases (reads_owner (order_scope_filter user) owner user.id)) [
                | inl readable ↦ (ground arith, ground arith)
                | inr hidden ↦ (ground arith, ground arith)
              ]
        ]
  ]

-- For an order that is shipped, cancelled or completed, every addPayment, createDelivery and
-- cancelOrder call, by any user, whatever the user's roles, throws and writes nothing.
pub closed_orders_refuse :
    (k amount : ℕ) (dto : CreateDelivery) (o : Order) (user : PolicyUser) (db : Db)
    → dto.order_id ≡ k
    → get_elem? db.orders k ≡ some o
    → IsClosed o.status
    → Refused (add_payment k amount user) db
      × Refused (create_delivery dto user) db
      × Refused (cancel_order k user) db
closed_orders_refuse k amount dto o user db named found closed = (
  add_payment-Refused k o user db amount found closed,
  create_delivery-Refused k o user db dto named found closed,
  cancel_order-Refused k o user db found closed,
)
