-- ===== src/SupplierOrders/Status/Calls.antt =====
-- The operations themselves, with what they check first.
use mathlib.Core.Option.{some-injective}
use hpl_back.Base.{
  ℕ, ◌≡◌, refl, sym, ap, ◌∙◌, Bool, true, false, not, Option, none, some, [], ◌∷◌, arith,
  if◌then◌else◌, same, includes, get_elem?, inl, inr, Bool_cases, Option_cases,
}
use hpl_back.Domain.{RoleName, role_name_enum, SupplierOrderStatus, supplier_order_status_enum}
use hpl_back.Store.{
  Db, SupplierOrder, Exception, forbidden, permission, bad_request, terminal_status, ok, is_ok,
  Action, pure, throw_if, ◌>>=◌, ◌>>◌, transaction,
}
use hpl_back.Store.Reads.{Reads, throw_if-Reads, bind_fails, bind_returns}
use hpl_back.Access.{PolicyUser, Permission, permission_enum, has_any_role}
use hpl_back.Deals.{is_set}
use hpl_back.SupplierOrders.{
  supplier_order_status_transitions, ready_confirmable_statuses, assert_manage_allowed,
  assert_client_delivery_allowed, require_accessible_order, assert_deal_access_or_not_found,
  readable_deal,
}
use hpl_back.SupplierOrders.Status.{
  reread, confirm_ready_write, confirm_ready, is_shipped, is_delivered, confirm_delivery_write,
  finalize_again, confirm_client_delivery, update_status_write, update_status, settle_lost,
  claimed_or, claim_ready, ready_or_claim, claim_delivery, delivered_or_claim, change_status,
}
use hpl_back.SupplierOrders.Status.Moves.{
  Moved, Kept, Kept-after, reread-Kept, finalize_again-Kept, Kept-bind, confirm_ready_write-Moved,
  confirm_delivery_write-Moved, update_status_write-Moved,
}

Moved-same :
    (db db' db'' : Db) → db''.supplier_orders ≡ db'.supplier_orders → Moved db db' → Moved db db''
Moved-same db db' db'' e (inl same_rows) = inl (e ∙ same_rows)
Moved-same db db' db'' e (inr (k, row, row', found, rows, deal, moves, paid)) =
    inr (k, row, row', found, e ∙ rows, deal, moves, paid)

Kept-Moved : {A : Type 0} (m : Action A) (db : Db) → Kept m → Moved db (m db).1
Kept-Moved m db h = inl (h db)

Moved-then :
    {A B : Type 0} (m : Action A) (f : A → Action B) (db : Db)
    → Moved db (m db).1
    → ((a : A) → Kept (f a))
    → Moved db ((m >>= f) db).1
Moved-then m f db h k = Moved-same db (m db).1 ((m >>= f) db).1 (Kept-after f (m db).0 (m db).1 k) h

Moved-transaction :
    {A : Type 0} (m : Action A) (db : Db) → Moved db (m db).1 → Moved db (transaction m db).1
Moved-transaction m db h = elim (Bool_cases (is_ok (m db).0)) [
  | inl done ↦ Moved-same db (m db).1 (transaction m db).1 (ground arith) h
  | inr thrown ↦ inl (ground arith)
]

Moved-Reads :
    {A B : Type 0} (m : Action A) (f : A → Action B) (db : Db)
    → Reads m db
    → ((a : A) → m db ≡ (ok a, db) → Moved db (f a db).1)
    → Moved db ((m >>= f) db).1
Moved-Reads m f db (inl fails) h =
    inl (ap (λ (d : Db). d.supplier_orders) (bind_fails m f db fails).1)
Moved-Reads m f db (inr (a, e)) h = rw (bind_returns m f db a e) (h a e)

Moved-throw_if :
    {B : Type 0} (c : Bool) (e : Exception) (m : Action B) (db : Db)
    → (c ≡ false → Moved db (m db).1)
    → Moved db ((throw_if c e >> m) db).1
Moved-throw_if true e m db h = inl refl
Moved-throw_if false e m db h = h refl

Moved-if :
    {B : Type 0} (c : Bool) (m n : Action B) (db : Db)
    → (c ≡ true → Moved db (m db).1)
    → (c ≡ false → Moved db (n db).1)
    → Moved db ((if c then m else n) db).1
Moved-if true m n db h k = h refl
Moved-if false m n db h k = k refl

settle_lost-Kept :
    (wanted : SupplierOrder → Bool) (m : Action (Unit {0})) (o : Option SupplierOrder)
    → Kept m
    → Kept (settle_lost wanted m o)
settle_lost-Kept wanted m none h db = refl
settle_lost-Kept wanted m (some o) h db = elim (Bool_cases (wanted o)) [
  | inl settled ↦ rw settled (Kept-bind m (λ _. pure o) h (λ _ db'. refl) db)
  | inr other ↦ rw other refl
]

claimed_or-Kept :
    (k : ℕ) (wanted : SupplierOrder → Bool) (m : Action (Unit {0})) (o : Option SupplierOrder)
    → Kept m
    → Kept (claimed_or k wanted m o)
claimed_or-Kept k wanted m (some o) h db = refl
claimed_or-Kept k wanted m none h db =
    settle_lost-Kept wanted m (get_elem? db.supplier_orders k) h db

pub require_accessible_order-Reads :
    (k : ℕ) (user : PolicyUser) (db : Db) → Reads (require_accessible_order k user) db
unfolding require_accessible_order assert_deal_access_or_not_found
require_accessible_order-Reads k user db = elim (Option_cases (get_elem? db.supplier_orders k)) [
  | inl missing ↦ inl (ground arith, ground arith)
  | inr (o, found) ↦ elim (Bool_cases (readable_deal o.deal_id user db)) [
    | inl readable ↦ inr (o, ground arith)
    | inr hidden ↦ inl (ground arith, ground arith)
  ]
]

-- What was read is the row.
pub read_row :
    (k : ℕ) (user : PolicyUser) (db : Db) (o : SupplierOrder)
    → require_accessible_order k user db ≡ (ok o, db)
    → get_elem? db.supplier_orders k ≡ some o
unfolding require_accessible_order assert_deal_access_or_not_found
read_row k user db o e = ground arith

pub manage-Reads : (user : PolicyUser) (db : Db) → Reads (assert_manage_allowed user) db
unfolding assert_manage_allowed
manage-Reads user db =
    throw_if-Reads (not (includes user.permissions Permission.supplier_orders_manage))
      (forbidden permission) db

delivery-Reads : (user : PolicyUser) (db : Db) → Reads (assert_client_delivery_allowed user) db
unfolding assert_client_delivery_allowed
delivery-Reads user db =
    throw_if-Reads
      (not (has_any_role user (RoleName.manager ∷ RoleName.head ∷ RoleName.director ∷ [])))
      (forbidden permission) db

claim_ready-Moved :
    (k : ℕ) (user : PolicyUser) (read : SupplierOrder) (db : Db)
    → Moved db (claim_ready k user read db).1
unfolding claim_ready
claim_ready-Moved k user read db =
    Moved-then (transaction (confirm_ready_write k db.now user.id read))
      (claimed_or k (λ o. is_set o.ready_confirmed_at) (pure tt)) db
      (Moved-transaction (confirm_ready_write k db.now user.id read) db
        (confirm_ready_write-Moved k db.now user.id read db))
      (λ o. claimed_or-Kept k (λ o'. is_set o'.ready_confirmed_at) (pure tt) o (λ db'. refl))

ready_or_claim-Moved :
    (k : ℕ) (user : PolicyUser) (read : SupplierOrder) (db : Db)
    → Moved db (ready_or_claim k user read db).1
unfolding ready_or_claim
ready_or_claim-Moved k user read db =
    let fits : Bool = includes ready_confirmable_statuses read.status in
    Moved-if (is_set read.ready_confirmed_at) (reread k)
      (throw_if (not fits) (bad_request terminal_status) >> claim_ready k user read) db
      (λ _. Kept-Moved (reread k) db (reread-Kept k))
      (λ _.
        Moved-throw_if (not fits) (bad_request terminal_status) (claim_ready k user read) db
          (λ _. claim_ready-Moved k user read db))

-- confirmReady, returned or thrown, either leaves the supplier orders as they were or changes one
-- of them, whose deal stays and whose status stays or makes one move of the abstract machine; if
-- the order is then shipped or delivered, the client's order of the deal was paid before the call.
pub confirm_ready-Moved :
    (k : ℕ) (user : PolicyUser) (db : Db) → Moved db (confirm_ready k user db).1
unfolding confirm_ready
confirm_ready-Moved k user db =
    Moved-Reads (assert_manage_allowed user)
      (λ _. require_accessible_order k user >>= ready_or_claim k user) db (manage-Reads user db)
      (λ _ _.
        Moved-Reads (require_accessible_order k user) (ready_or_claim k user) db
          (require_accessible_order-Reads k user db)
          (λ read _. ready_or_claim-Moved k user read db))

claim_delivery-Moved :
    (k : ℕ) (user : PolicyUser) (read : SupplierOrder) (db : Db)
    → get_elem? db.supplier_orders k ≡ some read
    → Moved db (claim_delivery k user read db).1
unfolding claim_delivery
claim_delivery-Moved k user read db at =
    let again : Action (Unit {0}) = finalize_again read.deal_id user.id in
    Moved-then (transaction (confirm_delivery_write k db.now user.id read.deal_id))
      (claimed_or k is_delivered again) db
      (Moved-transaction (confirm_delivery_write k db.now user.id read.deal_id) db (
        confirm_delivery_write-Moved k db.now user.id read.deal_id db (λ row found.
          ap (λ (o : SupplierOrder). o.deal_id) (some-injective row read (sym found ∙ at)))))
      (λ o. claimed_or-Kept k is_delivered again o (finalize_again-Kept read.deal_id user.id))

delivered_or_claim-Moved :
    (k : ℕ) (user : PolicyUser) (read : SupplierOrder) (db : Db)
    → get_elem? db.supplier_orders k ≡ some read
    → Moved db (delivered_or_claim k user read db).1
unfolding delivered_or_claim
delivered_or_claim-Moved k user read db at =
    let again : Action (Unit {0}) = finalize_again read.deal_id user.id in
    let claim : Action SupplierOrder =
      throw_if (not (is_shipped read)) (bad_request terminal_status)
      >> claim_delivery k user read in
    Moved-throw_if (same read.status SupplierOrderStatus.cancelled) (bad_request terminal_status)
      (if is_delivered read then again >> reread k else claim) db
      (λ _.
        Moved-if (is_delivered read) (again >> reread k) claim db
          (λ _.
            Moved-then again (λ _. reread k) db
              (Kept-Moved again db (finalize_again-Kept read.deal_id user.id)) (λ _. reread-Kept k))
          (λ _.
            Moved-throw_if (not (is_shipped read)) (bad_request terminal_status)
              (claim_delivery k user read) db (λ _. claim_delivery-Moved k user read db at)))

-- confirmClientDelivery, returned or thrown, either leaves the supplier orders as they were or
-- changes one of them, whose deal stays and whose status stays or makes one move of the abstract
-- machine; if the order is then shipped or delivered, the client's order of the deal was paid
-- before the call.
pub confirm_client_delivery-Moved :
    (k : ℕ) (user : PolicyUser) (db : Db) → Moved db (confirm_client_delivery k user db).1
unfolding confirm_client_delivery
confirm_client_delivery-Moved k user db =
    Moved-Reads (assert_client_delivery_allowed user)
      (λ _. require_accessible_order k user >>= delivered_or_claim k user) db
      (delivery-Reads user db)
      (λ _ _.
        Moved-Reads (require_accessible_order k user) (delivered_or_claim k user) db
          (require_accessible_order-Reads k user db)
          (λ read e. delivered_or_claim-Moved k user read db (read_row k user db read e)))

change_status-Moved :
    (k : ℕ) (status : SupplierOrderStatus) (user : PolicyUser) (read : SupplierOrder) (db : Db)
    → get_elem? db.supplier_orders k ≡ some read
    → Moved db (change_status k status user read db).1
unfolding change_status
change_status-Moved k status user read db at =
    let fits : Bool = includes (supplier_order_status_transitions read.status) status in
    let write : Action SupplierOrder = update_status_write k user.id read status in
    let change : Action SupplierOrder =
      throw_if (not fits) (bad_request terminal_status) >> transaction write in
    Moved-if (same status SupplierOrderStatus.delivered) (confirm_client_delivery k user)
      (if same status read.status then pure read else change) db
      (λ _. confirm_client_delivery-Moved k user db)
      (λ _.
        Moved-if (same status read.status) (pure read) change db (λ _. inl refl)
          (λ changes.
            Moved-throw_if (not fits) (bad_request terminal_status) (transaction write) db
              (λ allowed. Moved-transaction write db (
                update_status_write-Moved k user.id read status db
                  (λ row found.
                    ap (λ (o : SupplierOrder). o.deal_id)
                      (some-injective row read (sym found ∙ at)))
                  (ground (arith, allowed)) changes))))

-- updateStatus, returned or thrown, either leaves the supplier orders as they were or changes one
-- of them, whose deal stays and whose status stays or makes one move of the abstract machine; if
-- the order is then shipped or delivered, the client's order of the deal was paid before the call.
pub update_status-Moved :
    (k : ℕ) (status : SupplierOrderStatus) (user : PolicyUser) (db : Db)
    → Moved db (update_status k status user db).1
unfolding update_status
update_status-Moved k status user db =
    Moved-Reads (assert_manage_allowed user)
      (λ _. require_accessible_order k user >>= change_status k status user) db
      (manage-Reads user db)
      (λ _ _.
        Moved-Reads (require_accessible_order k user) (change_status k status user) db
          (require_accessible_order-Reads k user db)
          (λ read e. change_status-Moved k status user read db (read_row k user db read e)))
