-- ===== src/SupplierOrders/History.antt =====
-- Histories of supplier orders: any sequence of calls by any users, with other services at work on the
-- other tables in between.
use mathlib.Core.Option.{some-injective}
use hpl_back.Base.{
  get_elem?-append, ℕ, ◌+◌, ◌≤◌, ◌<◌, ◌≡◌, ◌⊎◌, refl, sym, ap, ◌∙◌, true, ◌||◌, some, [], ◌∷◌,
  arith, same, get_elem?, set, get_elem?-set_self, get_elem?-set_ne, get_elem?-bound, inl, inr,
}
use mathlib.Core.Path.{subst}
use native.Mathlib.Decide.{ℕ_discrete}
use hpl_back.Domain.{
  SupplierOrderStatus, supplier_order_status_enum, supplier_order_status_position,
}
use hpl_back.Store.{Db, SupplierOrder}
use hpl_back.Access.{PolicyUser}
use hpl_back.SupplierOrders.Table.{Move}
use hpl_back.SupplierOrders.Status.{confirm_ready, confirm_client_delivery, update_status}
use hpl_back.SupplierOrders.Status.Moves.{Moved}
use hpl_back.SupplierOrders.Status.Calls.{
  confirm_ready-Moved, confirm_client_delivery-Moved, update_status-Moved,
}
use hpl_back.SupplierOrders.Dates.{
  CreateSupplierOrder, create_for_deal, new_supplier_order, UpdateSupplierOrderDates, update_dates,
  with_dates, next_dates,
}
use hpl_back.SupplierOrders.Dates.Create.{create_for_deal_outcome}
use hpl_back.SupplierOrders.Dates.Update.{update_dates_outcome}

pub data Step (db db' : Db) : Type 0 where
  ready : (k : ℕ) (user : PolicyUser) → db' ≡ (confirm_ready k user db).1 → Step db db'
  delivery : (k : ℕ) (user : PolicyUser) → db' ≡ (confirm_client_delivery k user db).1 → Step db db'
  status :
      (k : ℕ) (s : SupplierOrderStatus) (user : PolicyUser)
      → db' ≡ (update_status k s user db).1
      → Step db db'
  create :
      (deal_id : ℕ) (dto : CreateSupplierOrder) (user : PolicyUser)
      → db' ≡ (create_for_deal deal_id dto user db).1
      → Step db db'
  dates :
      (k : ℕ) (dto : UpdateSupplierOrderDates) (user : PolicyUser)
      → db' ≡ (update_dates k dto user db).1
      → Step db db'
  elsewhere : db'.supplier_orders ≡ db.supplier_orders → Step db db'

pub data Reach (db : Db) : Db → Type 0 where
  here : Reach db db
  next : {db1 db2 : Db} → Reach db db1 → Step db1 db2 → Reach db db2

-- A chain of moves.
pub data Follows (s : SupplierOrderStatus) : SupplierOrderStatus → Type 0 where
  stay : Follows s s
  move : {t u : SupplierOrderStatus} → Follows s t → Move t u → Follows s u

abbrev position : SupplierOrderStatus → ℕ
position = supplier_order_status_position

Move-position : (s t : SupplierOrderStatus) → Move s t → position s < position t
Move-position s t (Move.forward up within) = up
Move-position s t (Move.ship e f) = rw (e, f) (omega arith)
Move-position s t (Move.deliver e f) = rw (e, f) (omega arith)
Move-position s t (Move.cancel early f) = rw f (omega arith)

-- Delivered and cancelled orders have no move.
final_stays :
    (s t : SupplierOrderStatus)
    → (same s SupplierOrderStatus.delivered || same s SupplierOrderStatus.cancelled) ≡ true
    → ¬ (Move s t)
final_stays s t final (Move.forward up within) = ground arith
final_stays s t final (Move.ship e f) = ground arith
final_stays s t final (Move.deliver e f) = ground arith
final_stays s t final (Move.cancel early f) = ground arith

-- The row is still the deal's, at its status or one move on.
abbrev Next : ℕ → SupplierOrder → Db → Type 0
Next k row db' =
    (row' : SupplierOrder) × (get_elem? db'.supplier_orders k ≡ some row')
    × (row'.deal_id ≡ row.deal_id)
    × ((row'.status ≡ row.status) ⊎ Move row.status row'.status)

-- A write of one row that stays with its deal and makes at most a move.
set-Next :
    (db db' : Db) (j k : ℕ) (old new row : SupplierOrder)
    → get_elem? db.supplier_orders j ≡ some old
    → db'.supplier_orders ≡ set db.supplier_orders j new
    → new.deal_id ≡ old.deal_id
    → (new.status ≡ old.status) ⊎ Move old.status new.status
    → get_elem? db.supplier_orders k ≡ some row
    → Next k row db'
set-Next db db' j k old new row at rows deal moves found = elim (ℕ_discrete j k) [
  | yes this ↦
      let same_row : old ≡ row =
        some-injective old row (sym at ∙ ap (λ i. get_elem? db.supplier_orders i) this ∙ found) in
      let there : get_elem? (set db.supplier_orders j new) k ≡ some new =
        ap (λ i. get_elem? (set db.supplier_orders j new) i) (sym this)
        ∙ get_elem?-set_self db.supplier_orders j new (get_elem?-bound db.supplier_orders j at) in
      (
        new,
        rw rows there,
        deal ∙ ap (λ (o : SupplierOrder). o.deal_id) same_row,
        subst (λ (o : SupplierOrder). (new.status ≡ o.status) ⊎ Move o.status new.status) same_row
            moves,
      )
  | no other ↦
      (row, rw rows (get_elem?-set_ne db.supplier_orders j k new other ∙ found), refl, inl refl)
]

Moved-Later :
    (db db' : Db) (k : ℕ) (row : SupplierOrder)
    → Moved db db'
    → get_elem? db.supplier_orders k ≡ some row
    → Next k row db'
Moved-Later db db' k row (inl same_rows) found = (row, rw same_rows found, refl, inl refl)
Moved-Later db db' k row (inr (j, old, new, at, rows, deal, moves, paid)) found =
    set-Next db db' j k old new row at rows deal moves found

Step-Next :
    (db db' : Db) (k : ℕ) (row : SupplierOrder)
    → Step db db'
    → get_elem? db.supplier_orders k ≡ some row
    → Next k row db'
Step-Next db db' k row (Step.ready j user e) found =
    Moved-Later db db' k row (rw e (confirm_ready-Moved j user db)) found
Step-Next db db' k row (Step.delivery j user e) found =
    Moved-Later db db' k row (rw e (confirm_client_delivery-Moved j user db)) found
Step-Next db db' k row (Step.status j s user e) found =
    Moved-Later db db' k row (rw e (update_status-Moved j s user db)) found
Step-Next db db' k row (Step.create deal_id dto user e) found =
    elim (create_for_deal_outcome deal_id dto user db) [
      | inl (fails, same_db) ↦ (row, rw (e, same_db) found, refl, inl refl)
      | inr (may, done, rows) ↦ (
        row,
        rw (e, rows)
            (get_elem?-append db.supplier_orders (new_supplier_order deal_id dto user.id ∷ []) k row
              found),
        refl,
        inl refl,
      )
    ]
Step-Next db db' k row (Step.dates j dto user e) found = elim (update_dates_outcome j dto user db) [
  | inl same_rows ↦ (row, rw (e, same_rows) found, refl, inl refl)
  | inr (read, at, running, timely, rows) ↦
      set-Next db db' j k read (with_dates (next_dates dto read) dto.comment read) row at
        (ap (λ (d : Db). d.supplier_orders) e ∙ rows) refl (inl refl) found
]
Step-Next db db' k row (Step.elsewhere same_rows) found = (row, rw same_rows found, refl, inl refl)

Follows-then : (s t u : SupplierOrderStatus) → Follows s t → (u ≡ t) ⊎ Move t u → Follows s u
Follows-then s t u f (inl e) = subst (λ x. Follows s x) (sym e) f
Follows-then s t u f (inr m) = Follows.move f m

-- The goods of an order of a deal, later on.
abbrev pub Later : ℕ → SupplierOrder → Db → Type 0
Later k row db' =
    (row' : SupplierOrder) × (get_elem? db'.supplier_orders k ≡ some row')
    × (row'.deal_id ≡ row.deal_id)
    × Follows row.status row'.status

Later-step :
    (k : ℕ) (row : SupplierOrder) (db1 db2 : Db) → Step db1 db2 → Later k row db1 → Later k row db2
Later-step k row db1 db2 st (row1, found, deal, follows) =
    let (row2, found2, deal2, moves) = Step-Next db1 db2 k row1 st found in
    (row2, found2, deal2 ∙ deal, Follows-then row.status row1.status row2.status follows moves)

pub history_follows :
    (k : ℕ) (row : SupplierOrder) (db : Db) {db' : Db}
    → get_elem? db.supplier_orders k ≡ some row
    → Reach db db'
    → Later k row db'
history_follows k row db found Reach.here = (row, found, refl, Follows.stay)
history_follows k row db found (Reach.next {db1 = db1} {db2 = db2} r st) =
    Later-step k row db1 db2 st (history_follows k row db found r)

-- The number of moves in a chain.
pub moves : {s t : SupplierOrderStatus} → Follows s t → ℕ
moves Follows.stay = 0
moves (Follows.move f m) = moves f + 1

pub moves_bound :
    (s t : SupplierOrderStatus) (f : Follows s t)
    → moves f + supplier_order_status_position s ≤ supplier_order_status_position t
unfolding moves
moves_bound s t Follows.stay = omega arith
moves_bound s t (Follows.move {t = r} f m) = omega (arith, moves_bound s r f, Move-position r t m)

pub Follows-final :
    (s : SupplierOrderStatus) {t : SupplierOrderStatus}
    → (same s SupplierOrderStatus.delivered || same s SupplierOrderStatus.cancelled) ≡ true
    → Follows s t
    → t ≡ s
Follows-final s final Follows.stay = refl
Follows-final s final (Follows.move {t = r} {u = u} f m) =
    let e : r ≡ s = Follows-final s final f in
    absurd (final_stays s u final (subst (λ x. Move x u) e m))

position_bound : (s : SupplierOrderStatus) → supplier_order_status_position s ≤ 6
position_bound SupplierOrderStatus.draft = omega arith
position_bound SupplierOrderStatus.sent_to_production = omega arith
position_bound SupplierOrderStatus.in_production = omega arith
position_bound SupplierOrderStatus.ready_for_shipment = omega arith
position_bound SupplierOrderStatus.shipped = omega arith
position_bound SupplierOrderStatus.delivered = omega arith
position_bound SupplierOrderStatus.cancelled = omega arith

-- Over any sequence of calls of the supplier-order operations by any users, with steps of other
-- services that leave the supplier orders alone in between, a supplier order stays in the table and
-- its status follows a chain of at most six moves of the abstract machine.
pub history_moves :
    (k : ℕ) (row : SupplierOrder) (db db' : Db)
    → get_elem? db.supplier_orders k ≡ some row
    → Reach db db'
    → (row' : SupplierOrder) × (get_elem? db'.supplier_orders k ≡ some row')
      × (f : Follows row.status row'.status) × (moves f ≤ 6)
history_moves k row db db' found r =
    let (row', there, deal, f) = history_follows k row db found r in
    (
      row',
      there,
      f,
      omega (arith, moves_bound row.status row'.status f, position_bound row'.status),
    )

-- A supplier order that is delivered or cancelled keeps that status over any sequence of calls of
-- the supplier-order operations by any users, with steps of other services that leave the supplier
-- orders alone in between.
pub history_final :
    (k : ℕ) (row : SupplierOrder) (db db' : Db)
    → get_elem? db.supplier_orders k ≡ some row
    → (same row.status SupplierOrderStatus.delivered
        || same row.status SupplierOrderStatus.cancelled)
      ≡ true
    → Reach db db'
    → (row' : SupplierOrder) × (get_elem? db'.supplier_orders k ≡ some row')
      × (row'.status ≡ row.status)
history_final k row db db' found final r =
    let (row', there, deal, f) = history_follows k row db found r in
    (row', there, Follows-final row.status final f)
