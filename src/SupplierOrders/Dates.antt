-- ===== src/SupplierOrders/Dates.antt =====
-- The creation of a supplier order and the change of its planned dates (src/modules/supplier-orders/
-- supplier-orders.service.ts).
pub mod Timeline
pub mod Create
pub mod Update
use hpl_back.Base.{
  ℕ, ◌+◌, Bool, true, false, not, ◌&&◌, ◌||◌, Option, none, some, List, [], ◌∷◌, ◌++◌,
  if◌then◌else◌, ◌==◌, ltb, same, any, get_elem?, length,
}
use hpl_back.Domain.{
  SupplierOrderStatus, supplier_order_status_enum, FulfillmentSource, fulfillment_source_enum,
  QuoteStatus, quote_status_enum,
}
use hpl_back.Store.{
  Db, Deal, SupplierOrder, PanelQuote, AuditEvent, ActivityType, deal_not_found, dates_out_of_order,
  fulfillment_source_conflict, fulfillment_source_required, quote_missing, quote_not_accepted,
  supplier_not_found, terminal_status, not_found, conflict, bad_request, business, ok, Action, pure,
  gets, or_throw, transaction, ◌>>=◌, ◌>>◌, throw_if, unless, audit,
}
use hpl_back.Access.{PolicyUser, can_read_deal}
use hpl_back.Deals.{is_set, is_value}
use hpl_back.Orders.{add_activity}
use hpl_back.SupplierOrders.{update_supplier_order, assert_manage_allowed, require_accessible_order}
use hpl_back.Deals.{live_deal}
use hpl_back.SupplierOrders.Status.{reread}

-- Both are set and the first is earlier.
abbrev pub precedes : Option ℕ → Option ℕ → Bool
precedes none _ = false
precedes (some _) none = false
precedes (some a) (some b) = ltb a b

-- `??`.
abbrev pub or_else : Option ℕ → Option ℕ → Option ℕ
or_else none o = o
or_else (some a) _ = some a

pub record TimelineDates : Type 0 where
  pub ordered_at : Option ℕ
  pub expected_ready_at : Option ℕ
  pub expected_shipment_at : Option ℕ
  pub expected_arrival_at : Option ℕ

unfoldable pub assert_timeline_dates : TimelineDates → Action (Unit {0})
assert_timeline_dates d = do
  throw_if (precedes d.expected_ready_at d.ordered_at) (bad_request dates_out_of_order)
  throw_if (precedes d.expected_shipment_at (or_else d.expected_ready_at d.ordered_at))
      (bad_request dates_out_of_order)
  throw_if (precedes d.expected_arrival_at d.expected_shipment_at) (bad_request dates_out_of_order)
  throw_if
      (not (is_set d.expected_shipment_at)
        && precedes d.expected_arrival_at (or_else d.expected_ready_at d.ordered_at))
      (bad_request dates_out_of_order)

-- The comment is what `comment?.trim() || null` leaves of it.
pub record CreateSupplierOrder : Type 0 where
  pub supplier_id : ℕ
  pub ordered_at : ℕ
  pub expected_ready_at : ℕ
  pub expected_shipment_at : Option ℕ
  pub expected_arrival_at : Option ℕ
  pub comment : Option ℕ

abbrev pub is_accepted_quote : PanelQuote → Bool
is_accepted_quote q =
    (same q.status QuoteStatus.approved || same q.status QuoteStatus.converted)
    && is_set q.client_accepted_at

abbrev pub quote_of_deal : ℕ → PanelQuote → Bool
quote_of_deal deal_id q = elim q.deal_id [ none ↦ false | some d ↦ d == deal_id ]

unfoldable pub assert_hpl_deal_ready_for_supplier_order : ℕ → Action (Unit {0})
assert_hpl_deal_ready_for_supplier_order deal_id = do
  quotes ← gets (λ db. db.panel_quotes)
  throw_if (not (any (quote_of_deal deal_id) quotes)) (conflict quote_missing)
  throw_if (not (any (λ q. quote_of_deal deal_id q && is_accepted_quote q) quotes))
      (conflict quote_not_accepted)

abbrev pub new_supplier_order : ℕ → CreateSupplierOrder → ℕ → SupplierOrder
new_supplier_order deal_id dto user = record {
  deal_id = deal_id;
  supplier_id = dto.supplier_id;
  status = SupplierOrderStatus.sent_to_production;
  ordered_at = some dto.ordered_at;
  expected_ready_at = some dto.expected_ready_at;
  expected_shipment_at = dto.expected_shipment_at;
  expected_arrival_at = dto.expected_arrival_at;
  comment = dto.comment;
  created_by_id = some user;
  ready_confirmed_at = none;
  ready_confirmed_by_id = none;
  delivered_at = none;
  delivered_by_id = none;
}

-- `supplierOrder.create`: the id of the new row.
abbrev pub add_supplier_order : SupplierOrder → Action ℕ
add_supplier_order o db =
    (ok (length db.supplier_orders), record db { supplier_orders = db.supplier_orders ++ (o ∷ []) })

unfoldable pub create_write : ℕ → CreateSupplierOrder → ℕ → Action SupplierOrder
create_write deal_id dto user = do
  k ← add_supplier_order (new_supplier_order deal_id dto user)
  add_activity user (ActivityType.supplier_order_created deal_id k)
  audit (some user) (AuditEvent.supplier_order_created k deal_id)
  pure (new_supplier_order deal_id dto user)

abbrev pub new_dates : CreateSupplierOrder → TimelineDates
new_dates dto = record {
  ordered_at = some dto.ordered_at;
  expected_ready_at = some dto.expected_ready_at;
  expected_shipment_at = dto.expected_shipment_at;
  expected_arrival_at = dto.expected_arrival_at;
}

unfoldable pub assert_supplier_source : Option FulfillmentSource → Action (Unit {0})
assert_supplier_source source = do
  throw_if (is_value source FulfillmentSource.warehouse_stock)
      (business fulfillment_source_conflict)
  throw_if (not (is_value source FulfillmentSource.supplier_order))
      (business fulfillment_source_required)

unfoldable pub create_for_deal : ℕ → CreateSupplierOrder → PolicyUser → Action SupplierOrder
create_for_deal deal_id dto user = do
  assert_manage_allowed user
  assert_timeline_dates (new_dates dto)
  found ← gets (live_deal deal_id)
  deal ← or_throw found (not_found deal_not_found)
  throw_if (not (can_read_deal user deal.owner_id)) (not_found deal_not_found)
  assert_supplier_source deal.fulfillment_source
  assert_hpl_deal_ready_for_supplier_order deal_id
  suppliers ← gets (λ db. db.suppliers)
  throw_if (not (ltb dto.supplier_id suppliers)) (not_found supplier_not_found)
  transaction (create_write deal_id dto user.id)

-- An absent field stands for `undefined`; a given comment is what trimming leaves of it.
pub record UpdateSupplierOrderDates : Type 0 where
  pub expected_ready_at : Option ℕ
  pub expected_shipment_at : Option ℕ
  pub expected_arrival_at : Option ℕ
  pub comment : Option (Option ℕ)

abbrev pub same_instant : Option ℕ → Option ℕ → Bool
same_instant none none = true
same_instant (some a) (some b) = a == b
same_instant none (some _) = false
same_instant (some _) none = false

abbrev pub next_dates : UpdateSupplierOrderDates → SupplierOrder → TimelineDates
next_dates dto o = record {
  ordered_at = o.ordered_at;
  expected_ready_at = or_else dto.expected_ready_at o.expected_ready_at;
  expected_shipment_at = or_else dto.expected_shipment_at o.expected_shipment_at;
  expected_arrival_at = or_else dto.expected_arrival_at o.expected_arrival_at;
}

abbrev pub date_changed : UpdateSupplierOrderDates → SupplierOrder → Bool
date_changed dto o =
    (is_set dto.expected_ready_at && not (same_instant dto.expected_ready_at o.expected_ready_at))
    || (is_set dto.expected_shipment_at
        && not (same_instant dto.expected_shipment_at o.expected_shipment_at))
    || (is_set dto.expected_arrival_at
        && not (same_instant dto.expected_arrival_at o.expected_arrival_at))

abbrev pub comment_after : Option (Option ℕ) → Option ℕ → Option ℕ
comment_after none old = old
comment_after (some new) _ = new

abbrev pub comment_changed : UpdateSupplierOrderDates → SupplierOrder → Bool
comment_changed dto o = not (same_instant (comment_after dto.comment o.comment) o.comment)

abbrev pub dates_of : SupplierOrder → Option ℕ × Option ℕ × Option ℕ
dates_of o = (o.expected_ready_at, o.expected_shipment_at, o.expected_arrival_at)

abbrev pub with_dates : TimelineDates → Option (Option ℕ) → SupplierOrder → SupplierOrder
with_dates d comment o = record o {
  expected_ready_at = d.expected_ready_at;
  expected_shipment_at = d.expected_shipment_at;
  expected_arrival_at = d.expected_arrival_at;
  comment = comment_after comment o.comment;
}

unfoldable pub record_dates : ℕ → ℕ → SupplierOrder → SupplierOrder → Action (Unit {0})
record_dates k user read updated = do
  add_activity user (ActivityType.supplier_order_dates_changed read.deal_id k)
  audit (some user) (AuditEvent.supplier_order_dates_changed k (dates_of read) (dates_of updated))

unfoldable pub update_dates_write :
    ℕ → UpdateSupplierOrderDates → ℕ → SupplierOrder → Action SupplierOrder
update_dates_write k dto user read = do
  update_supplier_order k (λ _. true) (with_dates (next_dates dto read) dto.comment)
  updated ← reread k
  unless (not (date_changed dto read)) (record_dates k user read updated)
  pure updated

unfoldable pub update_read_dates :
    ℕ → UpdateSupplierOrderDates → PolicyUser → SupplierOrder → Action SupplierOrder
update_read_dates k dto user read = do
  throw_if
      (same read.status SupplierOrderStatus.delivered
        || same read.status SupplierOrderStatus.cancelled)
      (bad_request terminal_status)
  assert_timeline_dates (next_dates dto read)
  (if not (date_changed dto read) && not (comment_changed dto read)
      then reread k
      else transaction (update_dates_write k dto user.id read))

unfoldable pub update_dates : ℕ → UpdateSupplierOrderDates → PolicyUser → Action SupplierOrder
update_dates k dto user =
    assert_manage_allowed user >> (require_accessible_order k user >>= update_read_dates k dto user)
