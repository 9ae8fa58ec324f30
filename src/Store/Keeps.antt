-- ===== src/Store/Keeps.antt =====
-- Invariants of actions: a predicate on the database that holds before an action holds after it,
-- whether it returns or throws.
use hpl_back.Base.{Bool, true, false, Option, none, some, List, [], ◌∷◌, if◌then◌else◌}
use hpl_back.Store.Rows.{Db}
use hpl_back.Store.Monad.{
  Action, Result, Exception, ok, err, ◌>>=◌, unless, for_each, catch, transaction, or_throw,
}

abbrev pub Keeps : (Db → Type 0) → {A : Type 0} → Action A → Type 0
Keeps P m = (db : Db) → P db → P (m db).1

module _ (P : Db → Type 0) where
  keeps_after :
      {A B : Type 0} (f : A → Action B) (r : Result A) (db : Db)
      → ((a : A) → Keeps P (f a))
      → P db
      → P (elim r as (λ _. Result B × Db) [ ok a ↦ f a db | err e ↦ (err e, db) ]).1
  keeps_after f (ok a) db h p = h a db p
  keeps_after f (err e) db h p = p

  pub Keeps-bind :
      {A B : Type 0} (m : Action A) (f : A → Action B)
      → Keeps P m
      → ((a : A) → Keeps P (f a))
      → Keeps P (m >>= f)
  Keeps-bind m f h k db p = keeps_after f (m db).0 (m db).1 k (h db p)

  pub Keeps-for_each {ℓ} :
      {A : Type ℓ} (f : A → Action (Unit {0})) (xs : List A)
      → ((x : A) → Keeps P (f x))
      → Keeps P (for_each f xs)
  Keeps-for_each f [] h db p = p
  Keeps-for_each f (x ∷ xs) h db p =
      Keeps-bind (f x) (λ _. for_each f xs) (h x) (λ _. Keeps-for_each f xs h) db p

  keeps_handled :
      {A : Type 0} (handler : Exception → Action A) (r : Result A) (db : Db)
      → ((e : Exception) → Keeps P (handler e))
      → P db
      → P (elim r as (λ _. Result A × Db) [ ok a ↦ (ok a, db) | err e ↦ handler e db ]).1
  keeps_handled handler (ok a) db h p = p
  keeps_handled handler (err e) db h p = h e db p

  pub Keeps-catch :
      {A : Type 0} (m : Action A) (handler : Exception → Action A)
      → Keeps P m
      → ((e : Exception) → Keeps P (handler e))
      → Keeps P (catch m handler)
  Keeps-catch m handler h k db p = keeps_handled handler (m db).0 (m db).1 k (h db p)

  pub Keeps-if :
      {A : Type 0} (c : Bool) (m n : Action A)
      → Keeps P m
      → Keeps P n
      → Keeps P (if c then m else n)
  Keeps-if true m n h k db p = h db p
  Keeps-if false m n h k db p = k db p

  pub Keeps-unless : (c : Bool) (m : Action (Unit {0})) → Keeps P m → Keeps P (unless c m)
  Keeps-unless true m h db p = p
  Keeps-unless false m h db p = h db p

  pub Keeps-or_throw : {A : Type 0} (o : Option A) (e : Exception) → Keeps P (or_throw o e)
  Keeps-or_throw none e db p = p
  Keeps-or_throw (some a) e db p = p

  rolled_back :
      {A : Type 0} (r : Result A) (before after : Db)
      → P before
      → P after
      → P (elim r as (λ _. Result A × Db) [ ok a ↦ (ok a, after) | err e ↦ (err e, before) ]).1
  rolled_back (ok a) before after p q = q
  rolled_back (err e) before after p q = p

  pub Keeps-transaction : {A : Type 0} (m : Action A) → Keeps P m → Keeps P (transaction m)
  Keeps-transaction m h db p = rolled_back (m db).0 db (m db).1 p (h db p)
