-- ===== src/SupplierOrders/Reminders/Once.antt =====
-- Whole runs of the reminders, and a second run on the same day.
use hpl_back.Base.{ℕ, ◌+◌, ◌≡◌, ◌⊎◌, refl, ◌∙◌, List, [], ◌∷◌, arith, length, inl, inr}
use hpl_back.Domain.{reminder_kind_enum}
use hpl_back.Store.{Db, SupplierOrder, Result, ok, pure}
use hpl_back.SupplierOrders.Reminders.{
  start_of_utc_day, remind_dated, remind_all, remind_some, awaited_orders,
  resolve_head_director_user_ids, process_readiness_reminders,
}
use hpl_back.SupplierOrders.Reminders.Daily.{
  Grows-refl, Sends, Silent, add_created-Sends, add_created-Silent, DateReminded, OrderReminded,
  DateReminded-Stable, remind_dated-Sends, remind_dated-Silent,
}

List_cases : {A : Type 0} (xs : List A) → (xs ≡ []) ⊎ ((x : A) × (rest : List A) × (xs ≡ x ∷ rest))
List_cases [] = inl refl
List_cases (x ∷ rest) = inr (x, rest, refl)

abbrev AllReminded : ℕ → List (ℕ × SupplierOrder) → Db → Type 0
AllReminded today [] db = Unit
AllReminded today (x ∷ xs) db = OrderReminded today x db × AllReminded today xs db

remind_all-Sends :
    (today : ℕ) (recipients : List ℕ) (xs : List (ℕ × SupplierOrder)) (db : Db)
    → Sends (AllReminded today xs) (remind_all today recipients xs) db
unfolding remind_all
remind_all-Sends today recipients [] db = (0, refl, omega arith, Grows-refl db, tt)
remind_all-Sends today recipients ((k, o) ∷ xs) db =
    add_created-Sends (DateReminded today k o.expected_ready_at) (AllReminded today xs)
      (remind_dated today recipients k o.expected_ready_at) (remind_all today recipients xs) db
      (DateReminded-Stable today k o.expected_ready_at)
      (remind_dated-Sends today recipients k o.expected_ready_at db)
      (λ db'. remind_all-Sends today recipients xs db')

remind_all-Silent :
    (today : ℕ) (recipients : List ℕ) (xs : List (ℕ × SupplierOrder)) (db : Db)
    → AllReminded today xs db
    → Silent (remind_all today recipients xs) db
unfolding remind_all
remind_all-Silent today recipients [] db h = refl
remind_all-Silent today recipients ((k, o) ∷ xs) db (h, rest) =
    add_created-Silent (remind_dated today recipients k o.expected_ready_at)
      (remind_all today recipients xs) db
      (remind_dated-Silent today recipients k o.expected_ready_at db h)
      (remind_all-Silent today recipients xs db rest)

-- The reminders are sent, or there is nobody to tell.
remind_some-Sends :
    (today : ℕ) (recipients : List ℕ) (xs : List (ℕ × SupplierOrder)) (db : Db)
    → Sends (λ d. (recipients ≡ []) ⊎ AllReminded today xs d) (remind_some today recipients xs) db
remind_some-Sends today [] xs db = (0, refl, omega arith, Grows-refl db, inl refl)
remind_some-Sends today (r ∷ rs) xs db =
    let (n, returned, sent, grows, all_reminded) = remind_all-Sends today (r ∷ rs) xs db in
    (n, returned, sent, grows, inr all_reminded)

remind_some-Silent :
    (today : ℕ) (recipients : List ℕ) (xs : List (ℕ × SupplierOrder)) (db : Db)
    → (recipients ≡ []) ⊎ AllReminded today xs db
    → Silent (remind_some today recipients xs) db
remind_some-Silent today [] xs db h = refl
remind_some-Silent today (r ∷ rs) xs db (inl nobody) = absurd (cc)
remind_some-Silent today (r ∷ rs) xs db (inr h) = remind_all-Silent today (r ∷ rs) xs db h

process_reads :
    (now : ℕ) (db : Db)
    → process_readiness_reminders now db
      ≡ remind_some
          (start_of_utc_day now)
          (resolve_head_director_user_ids db.users)
          (awaited_orders db)
          db
unfolding process_readiness_reminders remind_all
process_reads now db = nothing (awaited_orders db)
  where
    nothing :
        (xs : List (ℕ × SupplierOrder))
        → elim xs as (λ _. Result ℕ × Db) [
          | [] ↦ pure 0 db
          | x ∷ rest ↦
              remind_some
                (start_of_utc_day now)
                (resolve_head_director_user_ids db.users)
                (x ∷ rest)
                db
        ]
          ≡ remind_some (start_of_utc_day now) (resolve_head_director_user_ids db.users) xs db
    nothing [] = elim (List_cases (resolve_head_director_user_ids db.users)) [
      | inl nobody ↦ rw nobody refl
      | inr (r, rs, e) ↦ rw e refl
    ]
    nothing (x ∷ rest) = refl

-- processReadinessReminders never throws and returns the number of notifications that it added; a
-- second run on the same day, right after it, returns zero and changes nothing.
pub reminders_once :
    (now now' : ℕ) (db : Db)
    → start_of_utc_day now' ≡ start_of_utc_day now
    → (n : ℕ) × ((process_readiness_reminders now db).0 ≡ ok n)
      × (length (process_readiness_reminders now db).1.notifications ≡ length db.notifications + n)
      × (process_readiness_reminders now' (process_readiness_reminders now db).1
          ≡ (ok 0, (process_readiness_reminders now db).1))
reminders_once now now' db same_day =
    let today = start_of_utc_day now in
    let xs = awaited_orders db in
    let recipients = resolve_head_director_user_ids db.users in
    let (n, returned, sent, (orders, users, claims), h) =
      remind_some-Sends today recipients xs db in
    let after : Db = (remind_some today recipients xs db).1 in
    let again : process_readiness_reminders now' after ≡ (ok 0, after) =
      process_reads now' after
      ∙ rw (same_day, orders, users) (remind_some-Silent today recipients xs after h) in
    rw (process_reads now db) (n, returned, sent, again)
