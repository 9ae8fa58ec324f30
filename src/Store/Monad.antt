-- ===== src/Store/Monad.antt =====
-- What a service method is: a database action that may throw. What was written before an exception
-- stays written, so that a `catch` sees it; a transaction takes it back.
use hpl_back.Base.{
  arith, ◌≡◌, ℕ, Bool, true, false, Option, none, some, List, [], ◌∷◌, ◌++◌, if◌then◌else◌, ◌==◌,
  get_elem?, set, get_elem?-set_self, get_elem?-bound, Bool_cases, inl, inr,
}
use hpl_back.Store.Rows.{
  Db, AuditEvent, StockBalance, StockReservation, Order, OrderItem, ExpectedReceipt,
  ExpectedReceiptItem,
}

-- Why a method threw; the constructors name the messages.
pub data Reason : Type 0 where
  insufficient_stock insufficient_reservation balance_missing modified_concurrently : Reason
  no_items item_not_found receipt_not_found receipt_cancelled receiving_began : Reason
  actor_required accepted_not_positive exceeds_expected rejected_negative : Reason
  below_received deal_not_found deal_access deal_not_won fulfillment_source_required : Reason
  order_exists order_not_found payment_not_found not_positive permission maker_checker : Reason
  bad_payment_status already_processed order_is_cancelled exceeds_total not_paid : Reason
  exceeds_remaining terminal_status order_access price_below_purchase discount_limit : Reason
  discount_forbidden role_assignment protected_account invalid_size invalid_area : Reason
  dates_out_of_order fulfillment_source_conflict quote_missing quote_not_accepted : Reason
  supplier_not_found unique_constraint installation_not_required : Reason
  installation_missing installation_done : Reason

-- The exception classes of @nestjs/common, of src/common/exceptions and of the Prisma client.
pub data Exception : Type 0 where
  bad_request conflict not_found forbidden business known_request : Reason → Exception

pub data Result {ℓ} (A : Type ℓ) : Type ℓ where
  ok : A → Result A
  err : Exception → Result A

abbrev pub Action : Type 0 → Type 0
Action A = Db → Result A × Db

module _ {A : Type 0} where
  abbrev pub pure : A → Action A
  pure a db = (ok a, db)

  abbrev pub throw : Exception → Action A
  throw e db = (err e, db)

  abbrev pub gets : (Db → A) → Action A
  gets f db = (ok (f db), db)

  abbrev pub or_throw : Option A → Exception → Action A
  or_throw none e = throw e
  or_throw (some a) e = pure a

  -- What `try { m } catch (error) { handler(error) }` does.
  abbrev pub catch : Action A → (Exception → Action A) → Action A
  catch m handler db = let (r, db') = m db in elim r [ ok a ↦ (ok a, db') | err e ↦ handler e db' ]

  -- `prisma.$transaction`: an exception that leaves it rolls the database back.
  abbrev pub transaction : Action A → Action A
  transaction m db = let (r, db') = m db in elim r [ ok a ↦ (ok a, db') | err e ↦ (err e, db) ]

infixl 5 ◌>>=◌ ◌>>◌
abbrev pub ◌>>=◌ : {A B : Type 0} → Action A → (A → Action B) → Action B
◌>>=◌ m f db = let (r, db') = m db in elim r [ ok a ↦ f a db' | err e ↦ (err e, db') ]

abbrev pub ◌>>◌ : {A B : Type 0} → Action A → Action B → Action B
m >> k = m >>= λ _. k

abbrev pub modify : (Db → Db) → Action (Unit {0})
modify f db = (ok tt, f db)

abbrev pub throw_if : Bool → Exception → Action (Unit {0})
throw_if c e db = (if c then err e else ok tt, db)

abbrev pub unless : Bool → Action (Unit {0}) → Action (Unit {0})
unless c m db = if c then (ok tt, db) else m db

-- `for (const x of xs) await f(x)`.
abbrev pub for_each {ℓ} : {A : Type ℓ} → (A → Action (Unit {0})) → List A → Action (Unit {0})
for_each f [] = pure tt
for_each f (x ∷ xs) = f x >> for_each f xs

-- `auditLog.create`.
abbrev pub audit : Option ℕ → AuditEvent → Action (Unit {0})
audit user e =
    modify
      λ db. record db { audit_log = db.audit_log ++ (record { user_id = user; event = e } ∷ []) }

abbrev pub at_key : ℕ → StockBalance → (ℕ → Option StockBalance) → ℕ → Option StockBalance
at_key p b f q = if p == q then some b else f q

-- `stockBalance.updateMany` where the product is `p` and the row passes the test: the number of rows
-- that were updated.
abbrev pub update_balance : ℕ → (StockBalance → Bool) → (StockBalance → StockBalance) → Action ℕ
update_balance p test change db = elim (db.balances p) [
  | none ↦ (ok 0, db)
  | some b ↦
      if test b
      then (ok 1, record db { balances = at_key p (change b) db.balances })
      else (ok 0, db)
]

-- `updateMany` on the row with an id, if it passes the test: the table and the number of rows updated.
abbrev pub update_row {ℓ} : {A : Type ℓ} → ℕ → (A → Bool) → (A → A) → List A → List A × ℕ
update_row k test change rows = elim (get_elem? rows k) [
  | none ↦ (rows, 0)
  | some r ↦ if test r then (set rows k (change r), 1) else (rows, 0)
]

abbrev pub update_reservation :
    ℕ → (StockReservation → Bool) → (StockReservation → StockReservation) → Action ℕ
update_reservation k test change db =
    let (rows, n) = update_row k test change db.reservations in
    (ok n, record db { reservations = rows })

abbrev pub update_order : ℕ → (Order → Bool) → (Order → Order) → Action ℕ
update_order k test change db =
    let (rows, n) = update_row k test change db.orders in (ok n, record db { orders = rows })

abbrev pub is_ok {ℓ} : {A : Type ℓ} → Result A → Bool
is_ok (ok _) = true
is_ok (err _) = false

-- An action that returns hands its value and its database on.
pub >>=-ok :
    {A : Type 0} {B : Type 0} (m : Action A) (f : A → Action B) (db : Db) (a : A)
    → (m db).0 ≡ ok a
    → (m >>= f) db ≡ f a (m db).1
>>=-ok m f db a e = ground arith

pub for_each-cons {ℓ} :
    {A : Type ℓ} (f : A → Action (Unit {0})) (x : A) (xs : List A) (db : Db)
    → (f x db).0 ≡ ok tt
    → for_each f (x ∷ xs) db ≡ for_each f xs (f x db).1
for_each-cons f x xs db e = ground arith

-- `orderItem.update` and `expectedReceiptItem.update` of a row that was read.
abbrev pub update_order_item : ℕ → (OrderItem → OrderItem) → Action (Unit {0})
update_order_item k change db =
    (ok tt, record db { order_items = (update_row k (λ _. true) change db.order_items).0 })

abbrev pub update_receipt_item :
    ℕ → (ExpectedReceiptItem → Bool) → (ExpectedReceiptItem → ExpectedReceiptItem) → Action ℕ
update_receipt_item k test change db =
    let (rows, n) = update_row k test change db.receipt_items in
    (ok n, record db { receipt_items = rows })

abbrev pub update_receipt : ℕ → (ExpectedReceipt → ExpectedReceipt) → Action (Unit {0})
update_receipt k change db =
    (ok tt, record db { receipts = (update_row k (λ _. true) change db.receipts).0 })

-- A throw ends the loop where it happened.
pub for_each_stops {ℓ} :
    {A : Type ℓ} (f : A → Action (Unit {0})) (x : A) (xs : List A) (db : Db)
    → is_ok (f x db).0 ≡ false
    → (is_ok (for_each f (x ∷ xs) db).0 ≡ false) × ((for_each f (x ∷ xs) db).1 ≡ (f x db).1)
for_each_stops f x xs db e = ground arith

-- An update keeps the row with its id.
pub update_row-some {ℓ} :
    {A : Type ℓ} (k : ℕ) (test : A → Bool) (change : A → A) (rows : List A) (r : A)
    → get_elem? rows k ≡ some r
    → (r' : A) × (get_elem? (update_row k test change rows).0 k ≡ some r')
update_row-some k test change rows r e = elim (Bool_cases (test r)) [
  | inl passes ↦
      (change r, ground (arith, get_elem?-set_self rows k (change r) (get_elem?-bound rows k e)))
  | inr fails ↦ (r, ground arith)
]
