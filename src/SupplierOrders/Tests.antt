-- ===== src/SupplierOrders/Tests.antt =====
-- A paid deal with goods that wait to be shipped, and the theorems on it.
use hpl_back.Base.{
  ℕ, ◌+◌, ◌≤◌, ◌≡◌, ◌↔◌, refl, true, false, none, some, [], ◌∷◌, length, includes, get_elem?, arith,
}
use hpl_back.Domain.{
  RoleName, FulfillmentSource, DealStage, OrderStatus, PaymentStatus, SupplierOrderStatus,
  supplier_order_status_enum, QuoteStatus,
}
use hpl_back.Store.{Db, SupplierOrder, ok, empty_db}
use hpl_back.Access.{PolicyUser, Permission}
use hpl_back.SupplierOrders.{supplier_order_status_transitions}
use hpl_back.SupplierOrders.Table.{Move, transitions_iff}
use hpl_back.SupplierOrders.Status.{confirm_ready, confirm_client_delivery, update_status}
use hpl_back.SupplierOrders.Status.Moves.{Moved}
use hpl_back.SupplierOrders.Status.Calls.{
  confirm_ready-Moved, confirm_client_delivery-Moved, update_status-Moved,
}
use hpl_back.SupplierOrders.History.{
  Step, Reach, Follows, moves, Later, history_follows, history_moves, history_final,
}
use hpl_back.SupplierOrders.Dates.{
  TimelineDates, assert_timeline_dates, CreateSupplierOrder, create_for_deal,
  UpdateSupplierOrderDates, update_dates,
}
use hpl_back.SupplierOrders.Dates.Timeline.{IsTimeline, assert_timeline_dates_iff}
use hpl_back.SupplierOrders.Dates.Create.{CreateOutcome, create_for_deal_outcome}
use hpl_back.SupplierOrders.Dates.Update.{
  DatesOutcome, update_dates_outcome, Scheduled, dates_stay_in_order,
}
use hpl_back.SupplierOrders.Reminders.{start_of_utc_day, process_readiness_reminders}
use hpl_back.SupplierOrders.Reminders.Once.{reminders_once}

abbrev head : PolicyUser
head = record {
  id = 0;
  roles = RoleName.head ∷ [];
  permissions = Permission.supplier_orders_manage ∷ [];
}

abbrev goods : SupplierOrderStatus → SupplierOrder
goods status = record {
  deal_id = 0;
  supplier_id = 0;
  status = status;
  ordered_at = some 100;
  expected_ready_at = some 300000000;
  expected_shipment_at = none;
  expected_arrival_at = some 400000000;
  comment = none;
  created_by_id = some 0;
  ready_confirmed_at = none;
  ready_confirmed_by_id = none;
  delivered_at = none;
  delivered_by_id = none;
}

abbrev shop : SupplierOrderStatus → Db
shop status = record empty_db {
  now = 500;
  users = record { is_active = true; roles = RoleName.head ∷ [] } ∷ [];
  deals =
      record {
        owner_id = 2;
        stage = DealStage.won;
        completed_at = none;
        deleted = false;
        fulfillment_source = some FulfillmentSource.supplier_order;
        installation_required = some false;
        total_amount = 500;
        items = [];
      }
      ∷ [];
  orders =
      record {
        deal_id = 0;
        status = OrderStatus.confirmed;
        payment_status = PaymentStatus.paid;
        total_amount = 500;
        paid_amount = 500;
        remaining_amount = 0;
        deleted = false;
        version = 0;
        created_at = 0;
      }
      ∷ [];
  panel_quotes =
      record { deal_id = some 0; status = QuoteStatus.converted; client_accepted_at = some 50 }
      ∷ [];
  suppliers = 1;
  supplier_orders = goods status ∷ [];
}

transitions_iff_example :
    (includes
        (supplier_order_status_transitions SupplierOrderStatus.draft)
        SupplierOrderStatus.cancelled
      ≡ true)
    ↔ Move SupplierOrderStatus.draft SupplierOrderStatus.cancelled
transitions_iff_example = transitions_iff SupplierOrderStatus.draft SupplierOrderStatus.cancelled

confirm_ready-Moved_example :
    Moved
      (shop SupplierOrderStatus.in_production)
      (confirm_ready 0 head (shop SupplierOrderStatus.in_production)).1
confirm_ready-Moved_example = confirm_ready-Moved 0 head (shop SupplierOrderStatus.in_production)

confirm_client_delivery-Moved_example :
    Moved
      (shop SupplierOrderStatus.shipped)
      (confirm_client_delivery 0 head (shop SupplierOrderStatus.shipped)).1
confirm_client_delivery-Moved_example =
    confirm_client_delivery-Moved 0 head (shop SupplierOrderStatus.shipped)

update_status-Moved_example :
    Moved
      (shop SupplierOrderStatus.ready_for_shipment)
      (update_status 0 SupplierOrderStatus.shipped head
        (shop SupplierOrderStatus.ready_for_shipment)).1
update_status-Moved_example =
    update_status-Moved 0 SupplierOrderStatus.shipped head
      (shop SupplierOrderStatus.ready_for_shipment)

abbrev confirmed : Db
confirmed = (confirm_ready 0 head (shop SupplierOrderStatus.in_production)).1

abbrev one_confirmation : Reach (shop SupplierOrderStatus.in_production) confirmed
one_confirmation = Reach.next Reach.here (Step.ready 0 head refl)

history_follows_example : Later 0 (goods SupplierOrderStatus.in_production) confirmed
history_follows_example =
    history_follows 0 (goods SupplierOrderStatus.in_production)
      (shop SupplierOrderStatus.in_production) refl one_confirmation

history_moves_example :
    (row' : SupplierOrder) × (get_elem? confirmed.supplier_orders 0 ≡ some row')
    × (f : Follows SupplierOrderStatus.in_production row'.status) × (moves f ≤ 6)
history_moves_example =
    history_moves 0 (goods SupplierOrderStatus.in_production)
      (shop SupplierOrderStatus.in_production) confirmed refl one_confirmation

abbrev cancelled : Db
cancelled = shop SupplierOrderStatus.cancelled

abbrev refused : Db
refused = (update_status 0 SupplierOrderStatus.shipped head cancelled).1

history_final_example :
    (row' : SupplierOrder) × (get_elem? refused.supplier_orders 0 ≡ some row')
    × (row'.status ≡ SupplierOrderStatus.cancelled)
history_final_example =
    history_final 0 (goods SupplierOrderStatus.cancelled) cancelled refused refl refl
      (Reach.next Reach.here (Step.status 0 SupplierOrderStatus.shipped head refl))

abbrev planned : TimelineDates
planned = record {
  ordered_at = some 10;
  expected_ready_at = none;
  expected_shipment_at = some 30;
  expected_arrival_at = some 20;
}

assert_timeline_dates_iff_example :
    (assert_timeline_dates planned empty_db ≡ (ok tt, empty_db)) ↔ IsTimeline planned
assert_timeline_dates_iff_example = assert_timeline_dates_iff planned empty_db

abbrev request : CreateSupplierOrder
request = record {
  supplier_id = 0;
  ordered_at = 200;
  expected_ready_at = 300;
  expected_shipment_at = some 300;
  expected_arrival_at = none;
  comment = none;
}

abbrev later : UpdateSupplierOrderDates
later = record {
  expected_ready_at = some 350000000;
  expected_shipment_at = some 360000000;
  expected_arrival_at = none;
  comment = some (some 1);
}

abbrev waiting : Db
waiting = shop SupplierOrderStatus.in_production

create_for_deal_outcome_example :
    CreateOutcome 0 request head waiting (create_for_deal 0 request head waiting)
create_for_deal_outcome_example = create_for_deal_outcome 0 request head waiting

update_dates_outcome_example : DatesOutcome 0 later waiting (update_dates 0 later head waiting).1
update_dates_outcome_example = update_dates_outcome 0 later head waiting

waiting-Scheduled : Scheduled waiting
waiting-Scheduled = (ground arith, tt)

dates_stay_in_order_example :
    Scheduled (create_for_deal 0 request head waiting).1
    × Scheduled (update_dates 0 later head waiting).1
dates_stay_in_order_example = dates_stay_in_order 0 0 request later head waiting waiting-Scheduled

-- Two runs on the day on which the goods are due.
reminders_once_example :
    (n : ℕ) × ((process_readiness_reminders 300000001 waiting).0 ≡ ok n)
    × (length (process_readiness_reminders 300000001 waiting).1.notifications ≡ 0 + n)
    × (process_readiness_reminders 300000777 (process_readiness_reminders 300000001 waiting).1
        ≡ (ok 0, (process_readiness_reminders 300000001 waiting).1))
unfolding start_of_utc_day
reminders_once_example = reminders_once 300000001 300000777 waiting refl
