-- ===== src/Deals/Tests.antt =====
-- A won deal with an installation, paid and unpaid.
use hpl_back.Base.{
  ℕ, ◌+◌, ◌≡◌, ◌↔◌, refl, true, false, none, some, [], ◌∷◌, set, if◌then◌else◌, same,
}
use hpl_back.Domain.{
  RoleName, DealStage, deal_stage_enum, FulfillmentSource, OrderStatus, PaymentStatus,
  payment_status_enum, SupplierOrderStatus, InstallationStatus,
}
use hpl_back.Store.{SupplierOrder, Db, Deal, Order, DealInstallation, ok, empty_db}
use hpl_back.Deals.{
  is_value, to_snapshot, evaluate_deal_completion, are_materials_delivered,
  are_all_client_supplier_orders_delivered, try_finalize, lock_fulfillment_rows, finalize_deal,
  complete_deal, complete_order, complete_installation, notify_deal_completed, unique_ids,
  unique_from,
}
use hpl_back.Deals.Rules.{Delivered, InstallationReady, evaluate_deal_completion_iff}
use hpl_back.Deals.Finalize.{try_finalize_early}
use hpl_back.Deals.Once.{installed, marked}
use hpl_back.Deals.Completion.{notified, informed, try_finalize_completes, try_finalize_once}

abbrev deal : Deal
deal = record {
  owner_id = 0;
  stage = DealStage.won;
  completed_at = none;
  deleted = false;
  fulfillment_source = some FulfillmentSource.supplier_order;
  installation_required = some true;
  total_amount = 500;
  items = [];
}

abbrev installation : DealInstallation
installation = record {
  deal_id = 0;
  status = InstallationStatus.scheduled;
  expected_installation_at = some 50;
  expected_completion_at = some 60;
  assessment_comment = none;
  work_comment = none;
  assessed_at = none;
  assessed_by_id = none;
  started_at = none;
  supervisor_confirmed_at = some 70;
  supervisor_confirmed_by_id = some 1;
  completed_at = none;
}

abbrev order_with : PaymentStatus → Order
order_with payment_status = record {
  deal_id = 0;
  status = OrderStatus.confirmed;
  payment_status = payment_status;
  total_amount = 500;
  paid_amount = 0;
  remaining_amount = 500;
  deleted = false;
  version = 0;
  created_at = 0;
}

abbrev delivered_order : SupplierOrder
delivered_order = record {
  deal_id = 0;
  supplier_id = 0;
  status = SupplierOrderStatus.delivered;
  ordered_at = some 10;
  expected_ready_at = some 20;
  expected_shipment_at = none;
  expected_arrival_at = none;
  comment = none;
  created_by_id = some 1;
  ready_confirmed_at = some 30;
  ready_confirmed_by_id = some 1;
  delivered_at = some 40;
  delivered_by_id = some 1;
}

-- User 0 owns the deal, user 1 is an active head.
abbrev office : PaymentStatus → Db
office payment_status = record empty_db {
  now = 200;
  users =
      record { is_active = true; roles = RoleName.manager ∷ [] }
      ∷ record { is_active = true; roles = RoleName.head ∷ [] }
      ∷ [];
  balances = λ _. none;
  deals = deal ∷ [];
  orders = order_with payment_status ∷ [];
  supplier_orders = delivered_order ∷ [];
  installations = installation ∷ [];
}

abbrev paid_office : Db
paid_office = office PaymentStatus.paid

abbrev unpaid_office : Db
unpaid_office = office PaymentStatus.unpaid

-- The client pays after the supervisor confirmed.
abbrev paid_later : Db
paid_later = record paid_office { installations = (try_finalize 0 1 unpaid_office).1.installations }

evaluate_deal_completion_iff_example :
    ((evaluate_deal_completion (to_snapshot 0 deal paid_office)).can_complete_deal ≡ true) ↔ (
      ((to_snapshot 0 deal paid_office).completed_at ≡ none)
      × (same (to_snapshot 0 deal paid_office).stage DealStage.won ≡ true)
      × (is_value (to_snapshot 0 deal paid_office).payment_status PaymentStatus.paid ≡ true)
      × Delivered (to_snapshot 0 deal paid_office)
      × InstallationReady (to_snapshot 0 deal paid_office))
evaluate_deal_completion_iff_example = evaluate_deal_completion_iff (to_snapshot 0 deal paid_office)

try_finalize_early_example : try_finalize 0 1 paid_later ≡ (ok false, paid_later)
unfolding evaluate_deal_completion to_snapshot are_materials_delivered
    are_all_client_supplier_orders_delivered
try_finalize_early_example =
    try_finalize_early 0 1 1 unpaid_office paid_later deal 0 installation refl refl refl refl refl
      refl refl refl refl

try_finalize_completes_example :
    ((try_finalize 0 1 paid_office).0 ≡ ok true)
    × ((try_finalize 0 1 paid_office).1.deals ≡ set paid_office.deals 0 (marked 200 deal))
    × ((try_finalize 0 1 paid_office).1.installations
        ≡ (installed 0 deal paid_office).installations)
    × ((u : ℕ)
        → notified 0 u (try_finalize 0 1 paid_office).1.notifications
          ≡ notified 0 u paid_office.notifications
            + (if informed deal paid_office.users u then 1 else 0))
unfolding evaluate_deal_completion to_snapshot are_materials_delivered
    are_all_client_supplier_orders_delivered
try_finalize_completes_example = try_finalize_completes 0 1 deal paid_office refl refl refl

try_finalize_once_example :
    try_finalize 0 7 (try_finalize 0 1 paid_office).1 ≡ (ok false, (try_finalize 0 1 paid_office).1)
unfolding evaluate_deal_completion to_snapshot are_materials_delivered
    are_all_client_supplier_orders_delivered try_finalize lock_fulfillment_rows finalize_deal
    complete_deal complete_order complete_installation notify_deal_completed unique_ids unique_from
try_finalize_once_example = try_finalize_once 0 1 7 paid_office refl
