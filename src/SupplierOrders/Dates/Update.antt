-- ===== src/SupplierOrders/Dates/Update.antt =====
-- What a change of the planned dates writes, and the order of all dates.
use hpl_back.Base.{
  ℕ, ◌≡◌, ◌⊎◌, ap, Bool, true, false, not, ◌&&◌, ◌||◌, some, [], ◌∷◌, arith, same, includes,
  get_elem?, set, get_elem?-set_self, get_elem?-bound, Bool_cases, inl, inr, All, All-set,
  All-append,
}
use hpl_back.Domain.{SupplierOrderStatus, supplier_order_status_enum}
use hpl_back.Store.{Db, SupplierOrder, is_ok}
use hpl_back.Access.{PolicyUser, Permission, permission_enum}
use hpl_back.SupplierOrders.{assert_manage_allowed}
use hpl_back.SupplierOrders.Status.{reread}
use hpl_back.SupplierOrders.Status.Calls.{read_row, require_accessible_order-Reads}
use hpl_back.SupplierOrders.Dates.{
  CreateSupplierOrder, UpdateSupplierOrderDates, TimelineDates, next_dates, date_changed,
  comment_changed, with_dates, record_dates, update_dates_write, update_read_dates, update_dates,
  create_for_deal, new_supplier_order,
}
use hpl_back.SupplierOrders.Dates.Timeline.{
  IsTimeline, assert_timeline_dates_iff, assert_timeline_dates-Reads,
}
use hpl_back.SupplierOrders.Dates.Create.{create_for_deal_outcome}

update_dates_write_rows :
    (k : ℕ) (dto : UpdateSupplierOrderDates) (user : ℕ) (read : SupplierOrder) (db : Db)
    → get_elem? db.supplier_orders k ≡ some read
    → (is_ok (update_dates_write k dto user read db).0 ≡ true)
      × ((update_dates_write k dto user read db).1.supplier_orders
          ≡ set db.supplier_orders k (with_dates (next_dates dto read) dto.comment read))
unfolding update_dates_write reread record_dates
update_dates_write_rows k dto user read db found =
    let row : SupplierOrder = with_dates (next_dates dto read) dto.comment read in
    let there =
      get_elem?-set_self db.supplier_orders k row (get_elem?-bound db.supplier_orders k found) in
    elim (Bool_cases (date_changed dto read)) [
      | inl changed ↦ (ground (arith, there), ground (arith, there))
      | inr same_dates ↦ (ground (arith, there), ground (arith, there))
    ]

abbrev pub is_over : SupplierOrder → Bool
is_over o =
    same o.status SupplierOrderStatus.delivered || same o.status SupplierOrderStatus.cancelled

-- The rows stay, or the order's row has the new dates, which are in order and not of an order that is
-- over.
abbrev pub DatesOutcome : ℕ → UpdateSupplierOrderDates → Db → Db → Type 0
DatesOutcome k dto db db' =
    (db'.supplier_orders ≡ db.supplier_orders)
    ⊎ ((read : SupplierOrder) × (get_elem? db.supplier_orders k ≡ some read)
        × (is_over read ≡ false)
        × IsTimeline (next_dates dto read)
        × (db'.supplier_orders
            ≡ set db.supplier_orders k (with_dates (next_dates dto read) dto.comment read)))

update_read_dates_outcome :
    (k : ℕ) (dto : UpdateSupplierOrderDates) (user : PolicyUser) (read : SupplierOrder) (db : Db)
    → get_elem? db.supplier_orders k ≡ some read
    → DatesOutcome k dto db (update_read_dates k dto user read db).1
unfolding update_read_dates reread
update_read_dates_outcome k dto user read db found = elim (Bool_cases (is_over read)) [
  | inl over ↦ inl (ground arith)
  | inr running ↦ elim (assert_timeline_dates-Reads (next_dates dto read) db) [
    | inl (fails, same_db) ↦ inl (ground arith)
    | inr (unit, timely) ↦
        let timely0 = ap (λ y. y.0) timely in
        let timely1 = ap (λ y. y.1) timely in
        elim (Bool_cases (not (date_changed dto read) && not (comment_changed dto read))) [
          | inl unchanged ↦ inl (ground arith)
          | inr changed ↦
              let (done, rows) = update_dates_write_rows k dto user.id read db found in
              inr (
                read,
                found,
                running,
                (assert_timeline_dates_iff (next_dates dto read) db).0 timely,
                ground arith,
              )
        ]
  ]
]

-- updateDates, returned or thrown, leaves the supplier orders as they were, or it has written the
-- requested dates and comment into one order's row and nothing else; that order is neither
-- delivered nor cancelled and its dates are in order.
pub update_dates_outcome :
    (k : ℕ) (dto : UpdateSupplierOrderDates) (user : PolicyUser) (db : Db)
    → DatesOutcome k dto db (update_dates k dto user db).1
unfolding update_dates assert_manage_allowed
update_dates_outcome k dto user db =
    elim (Bool_cases (includes user.permissions Permission.supplier_orders_manage)) [
      | inr refused ↦ inl (ground arith)
      | inl managed ↦ elim (require_accessible_order-Reads k user db) [
        | inl (fails, same_db) ↦ inl (ground arith)
        | inr (read, e) ↦
            let e0 = ap (λ y. y.0) e in
            let e1 = ap (λ y. y.1) e in
            let same_call : (update_dates k dto user db).1
                ≡ (update_read_dates k dto user read db).1 =
              ground arith in
            rw same_call (update_read_dates_outcome k dto user read db (read_row k user db read e))
      ]
    ]

abbrev pub timeline : SupplierOrder → TimelineDates
timeline o = record {
  ordered_at = o.ordered_at;
  expected_ready_at = o.expected_ready_at;
  expected_shipment_at = o.expected_shipment_at;
  expected_arrival_at = o.expected_arrival_at;
}

abbrev pub IsScheduled : SupplierOrder → Type 0
IsScheduled o = IsTimeline (timeline o)

-- Every supplier order's dates are in order.
abbrev pub Scheduled : Db → Type 0
Scheduled db = All IsScheduled db.supplier_orders

create_for_deal-Scheduled :
    (deal_id : ℕ) (dto : CreateSupplierOrder) (user : PolicyUser) (db : Db)
    → Scheduled db
    → Scheduled (create_for_deal deal_id dto user db).1
create_for_deal-Scheduled deal_id dto user db h =
    elim (create_for_deal_outcome deal_id dto user db) [
      | inl (fails, same_db) ↦ rw same_db h
      | inr (may, done, rows) ↦ rw rows (
          All-append IsScheduled db.supplier_orders (new_supplier_order deal_id dto user.id ∷ []) h
            (may.1, tt))
    ]

update_dates-Scheduled :
    (k : ℕ) (dto : UpdateSupplierOrderDates) (user : PolicyUser) (db : Db)
    → Scheduled db
    → Scheduled (update_dates k dto user db).1
update_dates-Scheduled k dto user db h = elim (update_dates_outcome k dto user db) [
  | inl same_rows ↦ rw same_rows h
  | inr (read, found, running, timely, rows) ↦ rw rows (
      All-set IsScheduled db.supplier_orders k (with_dates (next_dates dto read) dto.comment read) h
        timely)
]

-- If the dates of every supplier order are in order, they are after createForDeal and after
-- updateDates, whatever the outcome.
pub dates_stay_in_order :
    (deal_id k : ℕ) (new : CreateSupplierOrder) (dates : UpdateSupplierOrderDates)
    (user : PolicyUser) (db : Db)
    → Scheduled db
    → Scheduled (create_for_deal deal_id new user db).1 × Scheduled (update_dates k dates user db).1
dates_stay_in_order deal_id k new dates user db h =
    (create_for_deal-Scheduled deal_id new user db h, update_dates-Scheduled k dates user db h)
