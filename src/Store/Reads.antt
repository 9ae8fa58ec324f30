-- ===== src/Store/Reads.antt =====
-- Steps that only read, before a transaction: a method that checks first and then writes ends as its
-- transaction does, or throws with nothing written.
use hpl_back.Base.{◌≡◌, ◌⊎◌, refl, inl, inr, Bool, Option, none, some, true, false, arith}
use hpl_back.Store.Rows.{Db}
use hpl_back.Store.Monad.{
  Result, Exception, ok, is_ok, Action, pure, throw_if, or_throw, gets, unless, ◌>>=◌, transaction,
}

pub transaction_fails :
    {A : Type 0} (m : Action A) (db : Db)
    → is_ok (m db).0 ≡ false
    → (is_ok (transaction m db).0 ≡ false) × ((transaction m db).1 ≡ db)
transaction_fails m db fails = (ground arith, ground arith)

pub transaction_returns :
    {A : Type 0} (m : Action A) (db : Db) → is_ok (m db).0 ≡ true → transaction m db ≡ m db
transaction_returns m db done = ground arith

-- A step that writes nothing: it throws or hands a value on.
abbrev pub Reads : {A : Type 0} → Action A → Db → Type 0
Reads {A = A} m db = ((is_ok (m db).0 ≡ false) × ((m db).1 ≡ db)) ⊎ ((a : A) × (m db ≡ (ok a, db)))

pub throw_if-Reads : (c : Bool) (e : Exception) (db : Db) → Reads (throw_if c e) db
throw_if-Reads true e db = inl (refl, refl)
throw_if-Reads false e db = inr (tt, refl)

pub unless-Reads : (c : Bool) (m : Action (Unit {0})) (db : Db) → Reads m db → Reads (unless c m) db
unless-Reads true m db h = inr (tt, refl)
unless-Reads false m db h = h

pub bind_fails :
    {A B : Type 0} (m : Action A) (f : A → Action B) (db : Db)
    → (is_ok (m db).0 ≡ false) × ((m db).1 ≡ db)
    → (is_ok ((m >>= f) db).0 ≡ false) × (((m >>= f) db).1 ≡ db)
bind_fails m f db h = (ground (arith, h), ground (arith, h))

pub bind_returns :
    {A B : Type 0} (m : Action A) (f : A → Action B) (db : Db) (a : A)
    → m db ≡ (ok a, db)
    → (m >>= f) db ≡ f a db
bind_returns m f db a e = ground (arith, e)

-- A first step that only reads, before one that throws unchanged or behaves like the transaction.
unfoldable pub Like : {A R : Type 0} → Action A → (Result R × Db) → Db → Type 0
Like m t db =
    ((is_ok (m db).0 ≡ false) × ((m db).1 ≡ db)) ⊎ ((is_ok (m db).0 ≡ is_ok t.0) × ((m db).1 ≡ t.1))

pub after_reading :
    {A B R : Type 0} (m : Action A) (f : A → Action B) (t : Result R × Db) (db : Db)
    → Reads m db
    → ((a : A) → Like (f a) t db)
    → Like (m >>= f) t db
unfolding Like
after_reading m f t db (inl fails) h = inl (bind_fails m f db fails)
after_reading m f t db (inr (a, e)) h = rw (bind_returns m f db a e) (h a)

pub after_transaction :
    {B R : Type 0} (m : Action R) (f : R → B) (db : Db) → Like (m >>= λ o. pure (f o)) (m db) db
unfolding Like
after_transaction m f db = inr (ground arith, ground arith)

pub gets-Reads : {A : Type 0} (f : Db → A) (db : Db) → Reads (gets f) db
gets-Reads f db = inr (f db, refl)

pub or_throw-Reads : {A : Type 0} (o : Option A) (e : Exception) (db : Db) → Reads (or_throw o e) db
or_throw-Reads none e db = inl (refl, refl)
or_throw-Reads (some a) e db = inr (a, refl)
