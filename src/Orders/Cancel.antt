-- ===== src/Orders/Cancel.antt =====
-- What a cancellation does to the stock.
use hpl_back.Base.{
  ℕ, ◌+◌, ◌≡◌, ◌⊎◌, refl, sym, true, false, not, some, arith, includes, Bool_cases, Option_cases,
  inl, inr, get_elem?,
}
use hpl_back.Domain.{order_status_enum}
use hpl_back.Store.{
  Db, Order, Result, forbidden, order_access, permission, is_ok, Action, pure, unless, ◌>>=◌,
  transaction,
}
use hpl_back.Access.{
  PolicyUser, reads_owner, OrderPermissions, order_permissions, order_scope_filter,
}
use hpl_back.Store.Reads.{
  Reads, Like, transaction_fails, transaction_returns, throw_if-Reads, unless-Reads, after_reading,
  after_transaction,
}
use hpl_back.Orders.{
  live_order, terminal_statuses, cancel_current, cancel_write, cancel_order, read_order, owner_of,
  assert_order_read_access, assert_order_mutation_allowed,
}
use hpl_back.Inventory.Stock.{release_reservation}
use hpl_back.Inventory.Stock.Balanced.{active_by, free, Balanced}
use hpl_back.Inventory.Stock.Release.{release_reservation_frees}

-- The order's reservations are gone and their stock is available again.
abbrev pub Freed : ℕ → Db → Db → Type 0
Freed k db db' =
    (p : ℕ)
    → (active_by k p db'.reservations ≡ 0)
      × (free p db' ≡ free p db + active_by k p db.reservations)

-- The stock as another database has it.
abbrev SameStock : Db → Db → Type 0
SameStock db db' = (db'.balances ≡ db.balances) × (db'.reservations ≡ db.reservations)

cancel_current_stock :
    (actor k : ℕ) (order : Order) (db : Db)
    → Balanced db
    → SameStock (release_reservation k (some actor) db).1 (cancel_current actor k order db).1
unfolding cancel_current
cancel_current_stock actor k order db h =
    let done = (release_reservation_frees k (some actor) db h).0 in
    elim (Option_cases (get_elem? (release_reservation k (some actor) db).1.orders k)) [
      | inl no_row ↦ (ground (arith, done), ground (arith, done))
      | inr (row, found) ↦ (ground (arith, done), ground (arith, done))
    ]

cancel_write_cases :
    (actor k : ℕ) (db : Db)
    → (is_ok (cancel_write actor k db).0 ≡ false)
      ⊎ ((order : Order) × (cancel_write actor k db ≡ cancel_current actor k order db))
unfolding cancel_write
cancel_write_cases actor k db = elim (Option_cases (live_order k db)) [
  | inl missing ↦ inl (rw missing)
  | inr (order, found) ↦ elim (Bool_cases (includes terminal_statuses order.status)) [
    | inl terminal ↦ inl (rw (found, terminal))
    | inr open_order ↦ inr (order, rw (found, open_order))
  ]
]

-- A cancelled order's stock, and the database of a call that throws.
abbrev pub CancelOutcome {ℓ} : {A : Type ℓ} → ℕ → Db → Result A × Db → Type 0
CancelOutcome k db (r, db') =
    Balanced db' × (is_ok r ≡ false → db' ≡ db) × (is_ok r ≡ true → Freed k db db')

cancel_current_outcome :
    (actor k : ℕ) (order : Order) (db : Db)
    → Balanced db
    → Balanced (cancel_current actor k order db).1 × Freed k db (cancel_current actor k order db).1
cancel_current_outcome actor k order db h =
    let (balances, rows) = cancel_current_stock actor k order db h in
    let (done, kept, moves) = release_reservation_frees k (some actor) db h in
    (λ p. rw (balances, rows) (kept p), λ p. rw (balances, rows) ((moves p).0, (moves p).2))

rolled_back :
    {A : Type 0} (k : ℕ) (db : Db) (x : Result A × Db)
    → Balanced db
    → is_ok x.0 ≡ false
    → x.1 ≡ db
    → CancelOutcome k db x
rolled_back k db x h fails same = (λ p. rw same (h p), λ _. same, λ done. ground (arith, fails))

cancel_transaction :
    (actor k : ℕ) (db : Db)
    → Balanced db
    → CancelOutcome k db (transaction (cancel_write actor k) db)
cancel_transaction actor k db h = elim (Bool_cases (is_ok (cancel_write actor k db).0)) [
  | inr thrown ↦
      let (fails, same) = transaction_fails (cancel_write actor k) db thrown in
      rolled_back k db (transaction (cancel_write actor k) db) h fails same
  | inl done ↦ elim (cancel_write_cases actor k db) [
    | inl fails ↦ ground (arith, fails, done)
    | inr (order, e) ↦
        let (kept, freed) = cancel_current_outcome actor k order db h in
        rw (transaction_returns (cancel_write actor k) db done, e)
          (kept, λ fails. ground (arith, done, e, fails), λ _. freed)
  ]
]

pub read_order-Reads : (k : ℕ) (db : Db) → Reads (read_order k) db
unfolding read_order
read_order-Reads k db = elim (Option_cases (live_order k db)) [
  | inl missing ↦ inl (rw missing (refl, refl))
  | inr (order, found) ↦ elim (Option_cases (owner_of order db)) [
    | inl no_owner ↦ inl ((ground arith, ground arith))
    | inr (owner, owned) ↦ inr ((order, owner), ground arith)
  ]
]

access-Reads :
    (user : PolicyUser) (owner : ℕ) (db : Db) → Reads (assert_order_read_access user owner) db
unfolding assert_order_read_access
access-Reads user owner db =
    throw_if-Reads (not (reads_owner (order_scope_filter user) owner user.id))
      (forbidden order_access) db

-- `cancelOrder` throws before it writes, or ends as its transaction does.
cancel_order_cases :
    (k : ℕ) (user : PolicyUser) (db : Db)
    → ((is_ok (cancel_order k user db).0 ≡ false) × ((cancel_order k user db).1 ≡ db))
      ⊎ ((is_ok (cancel_order k user db).0 ≡ is_ok (transaction (cancel_write user.id k) db).0)
          × ((cancel_order k user db).1 ≡ (transaction (cancel_write user.id k) db).1))
unfolding cancel_order assert_order_mutation_allowed Like
cancel_order_cases k user db =
    let t = transaction (cancel_write user.id k) db in
    let may_delete : Order × ℕ → Action (Unit {0}) = λ existing.
      unless (includes terminal_statuses existing.0.status)
        (assert_order_mutation_allowed user existing.0 existing.1 (λ p. p.can_delete)) in
    let finish : Order × ℕ → Action (Order × OrderPermissions) = λ existing.
      transaction (cancel_write user.id k) >>= λ order.
      pure (order, order_permissions user order.status existing.1) in
    let guarded : Order × ℕ → Action (Order × OrderPermissions) =
      λ existing. may_delete existing >>= λ _. finish existing in
    after_reading (read_order k)
      (λ existing. assert_order_read_access user existing.1 >>= λ _. guarded existing) t db
      (read_order-Reads k db)
      (λ existing.
        after_reading (assert_order_read_access user existing.1) (λ _. guarded existing) t db
          (access-Reads user existing.1 db)
          (λ _.
            after_reading (may_delete existing) (λ _. finish existing) t db
              (unless-Reads (includes terminal_statuses existing.0.status)
                (assert_order_mutation_allowed user existing.0 existing.1 (λ p. p.can_delete)) db
                (throw_if-Reads
                  (not (order_permissions user existing.0.status existing.1).can_delete)
                  (forbidden permission) db))
              (λ _.
                after_transaction (transaction (cancel_write user.id k))
                  (λ order. (order, order_permissions user order.status existing.1)) db)))

-- In a balanced database cancelOrder keeps the balance invariant; a call that throws, for whatever
-- reason, changes nothing; after one that returns the order has nothing reserved of any product,
-- and what it had reserved is available again.
pub cancel_order_frees :
    (k : ℕ) (user : PolicyUser) (db : Db)
    → Balanced db
    → CancelOutcome k db (cancel_order k user db)
cancel_order_frees k user db h = elim (cancel_order_cases k user db) [
  | inl (fails, same) ↦ rolled_back k db (cancel_order k user db) h fails same
  | inr (outcome, same) ↦
      let (kept, thrown, freed) = cancel_transaction user.id k db h in
      (
        λ p. rw same (kept p),
        λ f. rw (same, thrown (rw (sym outcome) f)),
        λ o p. rw same (freed (rw (sym outcome) o) p),
      )
]
