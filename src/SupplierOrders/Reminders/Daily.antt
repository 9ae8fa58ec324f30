-- ===== src/SupplierOrders/Reminders/Daily.antt =====
-- What the reminders of one order leave: their claims, and as many notifications as they count.
use hpl_back.Base.{
  ℕ, ◌+◌, ◌≡◌, refl, ap, ◌∙◌, Bool, true, false, Option, none, some, List, [], ◌∷◌, ◌++◌, map,
  if◌then◌else◌, arith, any, length, any-append_last, Bool_cases, inl, inr,
}
use hpl_back.Domain.{ReminderKind, reminder_kind_enum}
use hpl_back.Store.{Db, SupplierOrder, ok, Action, pure}
use hpl_back.SupplierOrders.Reminders.{
  is_claim, is_claimed, new_claim, reminder_to, claim_and_notify, is_due, add_created, remind_if,
  start_of_utc_day, emit_readiness_reminders_for_order, remind_dated,
}

length-append : {A : Type 0} (xs ys : List A) → length (xs ++ ys) ≡ length xs + length ys
length-append [] ys = omega arith
length-append (x ∷ xs) ys = omega (arith, length-append xs ys)

length-map : {A B : Type 0} (f : A → B) (xs : List A) → length (map f xs) ≡ length xs
length-map f [] = refl
length-map f (x ∷ xs) = ground (arith, length-map f xs)

any-append :
    {A : Type 0} (p : A → Bool) (xs ys : List A) → any p xs ≡ true → any p (xs ++ ys) ≡ true
any-append p [] ys h = ground arith
any-append p (x ∷ xs) ys h = ground (arith, any-append p xs ys)

-- Claims stay, and the orders and the users are as they were.
abbrev pub Grows : Db → Db → Type 0
Grows db db' =
    (db'.supplier_orders ≡ db.supplier_orders)
    × (db'.users ≡ db.users)
    × ((k : ℕ) (kind : ReminderKind) (day : ℕ)
        → is_claimed k kind day db ≡ true
        → is_claimed k kind day db' ≡ true)

pub Grows-refl : (db : Db) → Grows db db
Grows-refl db = (refl, refl, λ k kind day h. h)

Grows-trans : (db db' db'' : Db) → Grows db db' → Grows db' db'' → Grows db db''
Grows-trans db db' db'' (o, u, c) (o', u', c') =
    (o' ∙ o, u' ∙ u, λ k kind day h. c' k kind day (c k kind day h))

-- A step returns how many notifications it created; the database grows, and `Q` holds of it.
abbrev pub Sends : (Db → Type 0) → Action ℕ → Db → Type 0
Sends Q m db =
    (n : ℕ) × ((m db).0 ≡ ok n)
    × (length (m db).1.notifications ≡ length db.notifications + n)
    × Grows db (m db).1
    × Q (m db).1

abbrev pub Stable : (Db → Type 0) → Type 0
Stable Q = (db db' : Db) → Grows db db' → Q db → Q db'

pub add_created-Sends :
    (P Q : Db → Type 0) (m rest : Action ℕ) (db : Db)
    → Stable P
    → Sends P m db
    → ((db' : Db) → Sends Q rest db')
    → Sends (λ d. P d × Q d) (add_created m rest) db
add_created-Sends P Q m rest db stable (a, returned, sent, grows, p) h =
    let (b, returned', sent', grows', q) = h (m db).1 in
    let e : add_created m rest db ≡ (ok (a + b), (rest (m db).1).1) = ground arith in
    (
      a + b,
      ap (λ y. y.0) e,
      rw e (omega (arith, sent, sent')),
      rw e (Grows-trans db (m db).1 (rest (m db).1).1 grows grows'),
      rw e (stable (m db).1 (rest (m db).1).1 grows' p, q),
    )

-- A step that finds nothing to do.
abbrev pub Silent : Action ℕ → Db → Type 0
Silent m db = m db ≡ (ok 0, db)

pub add_created-Silent :
    (m rest : Action ℕ) (db : Db) → Silent m db → Silent rest db → Silent (add_created m rest) db
add_created-Silent m rest db h k =
    let h0 = ap (λ y. y.0) h in
    let h1 = ap (λ y. y.1) h in let k0 = ap (λ y. y.0) k in let k1 = ap (λ y. y.1) k in ground arith

reflexive_claim :
    (k : ℕ) (kind : ReminderKind) (day : ℕ) → is_claim k kind day (new_claim k kind day) ≡ true
reflexive_claim k kind day = ground arith

-- If a reminder is due today, its claim is there.
abbrev Claimed : ℕ → ReminderKind → ℕ → ℕ → Db → Type 0
Claimed k kind due today db = is_due kind due today ≡ true → is_claimed k kind today db ≡ true

Claimed-Stable : (k : ℕ) (kind : ReminderKind) (due today : ℕ) → Stable (Claimed k kind due today)
Claimed-Stable k kind due today db db' (o, u, c) h wanted = c k kind today (h wanted)

claim-taken :
    (k : ℕ) (kind : ReminderKind) (today : ℕ) (recipients : List ℕ) (db : Db)
    → is_claimed k kind today db ≡ true
    → claim_and_notify k kind today recipients db ≡ (ok 0, db)
unfolding claim_and_notify
claim-taken k kind today recipients db taken = ground arith

abbrev notified : ℕ → ReminderKind → ℕ → List ℕ → Db → Db
notified k kind today recipients db = record db {
  reminder_claims = db.reminder_claims ++ (new_claim k kind today ∷ []);
  notifications = db.notifications ++ map (reminder_to k kind) recipients;
}

claim-new :
    (k : ℕ) (kind : ReminderKind) (today : ℕ) (recipients : List ℕ) (db : Db)
    → is_claimed k kind today db ≡ false
    → claim_and_notify k kind today recipients db
      ≡ (ok (length recipients), notified k kind today recipients db)
unfolding claim_and_notify
claim-new k kind today recipients db fresh = ground arith

notified-Grows :
    (k : ℕ) (kind : ReminderKind) (today : ℕ) (recipients : List ℕ) (db : Db)
    → Grows db (notified k kind today recipients db)
notified-Grows k kind today recipients db = (
  refl,
  refl,
  λ j kind' day h.
      any-append (is_claim j kind' day) db.reminder_claims (new_claim k kind today ∷ []) h,
)

notified-length :
    (k : ℕ) (kind : ReminderKind) (today : ℕ) (recipients : List ℕ) (db : Db)
    → length (notified k kind today recipients db).notifications
      ≡ length db.notifications + length recipients
notified-length k kind today recipients db =
    length-append db.notifications (map (reminder_to k kind) recipients)
    ∙ ap (λ n. length db.notifications + n) (length-map (reminder_to k kind) recipients)

claim_and_notify-Sends :
    (k : ℕ) (kind : ReminderKind) (due today : ℕ) (recipients : List ℕ) (db : Db)
    → Sends (Claimed k kind due today) (claim_and_notify k kind today recipients) db
claim_and_notify-Sends k kind due today recipients db =
    elim (Bool_cases (is_claimed k kind today db)) [
      | inl taken ↦
          rw (claim-taken k kind today recipients db taken)
            (0, refl, omega arith, Grows-refl db, λ wanted. taken)
      | inr fresh ↦ rw (claim-new k kind today recipients db fresh) (
        length recipients,
        refl,
        notified-length k kind today recipients db,
        notified-Grows k kind today recipients db,
        λ wanted.
            any-append_last (is_claim k kind today) db.reminder_claims (new_claim k kind today)
              (reflexive_claim k kind today),
      )
    ]

remind_if-wanted :
    (k : ℕ) (kind : ReminderKind) (due today : ℕ) (recipients : List ℕ) (db : Db)
    → is_due kind due today ≡ true
    → remind_if k kind due today recipients db ≡ claim_and_notify k kind today recipients db
unfolding remind_if
remind_if-wanted k kind due today recipients db wanted =
    ap (λ b. if b then claim_and_notify k kind today recipients db else pure 0 db) wanted

remind_if-other :
    (k : ℕ) (kind : ReminderKind) (due today : ℕ) (recipients : List ℕ) (db : Db)
    → is_due kind due today ≡ false
    → remind_if k kind due today recipients db ≡ (ok 0, db)
unfolding remind_if
remind_if-other k kind due today recipients db other =
    ap (λ b. if b then claim_and_notify k kind today recipients db else pure 0 db) other

remind_if-Sends :
    (k : ℕ) (kind : ReminderKind) (due today : ℕ) (recipients : List ℕ) (db : Db)
    → Sends (Claimed k kind due today) (remind_if k kind due today recipients) db
remind_if-Sends k kind due today recipients db = elim (Bool_cases (is_due kind due today)) [
  | inl wanted ↦
      rw (remind_if-wanted k kind due today recipients db wanted)
        (claim_and_notify-Sends k kind due today recipients db)
  | inr other ↦
      rw (remind_if-other k kind due today recipients db other)
        (0, refl, omega arith, Grows-refl db, λ wanted. absurd (cc (wanted, other)))
]

remind_if-Silent :
    (k : ℕ) (kind : ReminderKind) (due today : ℕ) (recipients : List ℕ) (db : Db)
    → Claimed k kind due today db
    → Silent (remind_if k kind due today recipients) db
remind_if-Silent k kind due today recipients db h = elim (Bool_cases (is_due kind due today)) [
  | inl wanted ↦
      remind_if-wanted k kind due today recipients db wanted
      ∙ claim-taken k kind today recipients db (h wanted)
  | inr other ↦ remind_if-other k kind due today recipients db other
]

-- All of an order's reminders that are due today have their claims.
abbrev LaterClaimed : ℕ → ℕ → ℕ → Db → Type 0
LaterClaimed k due today db =
    Claimed k ReminderKind.due due today db × Claimed k ReminderKind.overdue due today db

abbrev Reminded : ℕ → ℕ → ℕ → Db → Type 0
Reminded k due today db = Claimed k ReminderKind.soft due today db × LaterClaimed k due today db

abbrev pub DateReminded : ℕ → ℕ → Option ℕ → Db → Type 0
DateReminded today k none db = Unit
DateReminded today k (some time) db = Reminded k (start_of_utc_day time) today db

abbrev pub OrderReminded : ℕ → ℕ × SupplierOrder → Db → Type 0
OrderReminded today (k, o) db = DateReminded today k o.expected_ready_at db

Reminded-Stable : (k due today : ℕ) → Stable (Reminded k due today)
Reminded-Stable k due today db db' grows (s, (d, o)) = (
  Claimed-Stable k ReminderKind.soft due today db db' grows s,
  (
    Claimed-Stable k ReminderKind.due due today db db' grows d,
    Claimed-Stable k ReminderKind.overdue due today db db' grows o,
  ),
)

pub DateReminded-Stable : (today k : ℕ) (date : Option ℕ) → Stable (DateReminded today k date)
DateReminded-Stable today k none db db' grows h = tt
DateReminded-Stable today k (some time) db db' grows h =
    Reminded-Stable k (start_of_utc_day time) today db db' grows h

emit-Sends :
    (k time today : ℕ) (recipients : List ℕ) (db : Db)
    → Sends
        (Reminded k (start_of_utc_day time) today)
        (emit_readiness_reminders_for_order k time today recipients)
        db
unfolding emit_readiness_reminders_for_order
emit-Sends k time today recipients db =
    let due = start_of_utc_day time in
    add_created-Sends (Claimed k ReminderKind.soft due today) (LaterClaimed k due today)
      (remind_if k ReminderKind.soft due today recipients)
      (add_created (remind_if k ReminderKind.due due today recipients)
        (remind_if k ReminderKind.overdue due today recipients))
      db (Claimed-Stable k ReminderKind.soft due today)
      (remind_if-Sends k ReminderKind.soft due today recipients db)
      (λ db'.
        add_created-Sends (Claimed k ReminderKind.due due today)
          (Claimed k ReminderKind.overdue due today)
          (remind_if k ReminderKind.due due today recipients)
          (remind_if k ReminderKind.overdue due today recipients) db'
          (Claimed-Stable k ReminderKind.due due today)
          (remind_if-Sends k ReminderKind.due due today recipients db')
          (λ db''. remind_if-Sends k ReminderKind.overdue due today recipients db''))

emit-Silent :
    (k time today : ℕ) (recipients : List ℕ) (db : Db)
    → Reminded k (start_of_utc_day time) today db
    → Silent (emit_readiness_reminders_for_order k time today recipients) db
unfolding emit_readiness_reminders_for_order
emit-Silent k time today recipients db (s, (d, o)) =
    let due = start_of_utc_day time in
    add_created-Silent (remind_if k ReminderKind.soft due today recipients)
      (add_created (remind_if k ReminderKind.due due today recipients)
        (remind_if k ReminderKind.overdue due today recipients))
      db (remind_if-Silent k ReminderKind.soft due today recipients db s)
      (add_created-Silent (remind_if k ReminderKind.due due today recipients)
        (remind_if k ReminderKind.overdue due today recipients) db
        (remind_if-Silent k ReminderKind.due due today recipients db d)
        (remind_if-Silent k ReminderKind.overdue due today recipients db o))

pub remind_dated-Sends :
    (today : ℕ) (recipients : List ℕ) (k : ℕ) (date : Option ℕ) (db : Db)
    → Sends (DateReminded today k date) (remind_dated today recipients k date) db
unfolding remind_dated
remind_dated-Sends today recipients k none db = (0, refl, omega arith, Grows-refl db, tt)
remind_dated-Sends today recipients k (some time) db = emit-Sends k time today recipients db

pub remind_dated-Silent :
    (today : ℕ) (recipients : List ℕ) (k : ℕ) (date : Option ℕ) (db : Db)
    → DateReminded today k date db
    → Silent (remind_dated today recipients k date) db
unfolding remind_dated
remind_dated-Silent today recipients k none db h = refl
remind_dated-Silent today recipients k (some time) db h = emit-Silent k time today recipients db h
