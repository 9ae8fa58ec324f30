-- ===== src/Deals.antt =====
-- When a deal is complete (src/modules/deals/deal-completion.rules.ts and deal-completion.service.ts).
-- `null` and `undefined` are one value here, since the code tests them alike.
pub mod Rules
pub mod Finalize
pub mod Once
pub mod Completion
pub mod Amounts
pub mod Installations
mod Tests
use hpl_back.Base.{
  ℕ, ◌+◌, Bool, true, false, not, ◌&&◌, ◌||◌, Option, none, some, List, [], ◌∷◌, ◌++◌, map,
  if◌then◌else◌, ◌==◌, Enum, same, includes, any, all, length, get_elem?, select_from,
}
use hpl_back.Domain.{
  RoleName, role_name_enum, DealStage, deal_stage_enum, FulfillmentSource, fulfillment_source_enum,
  OrderStatus, order_status_enum, PaymentStatus, payment_status_enum, SupplierOrderStatus,
  supplier_order_status_enum, InstallationStatus,
}
use hpl_back.Store.{
  Db, User, Deal, Order, SupplierOrder, DealInstallation, Activity, ActivityType, Notification,
  Topic, AuditEvent, deal_not_found, not_found, ok, Action, pure, throw, gets, or_throw, ◌>>=◌,
  ◌>>◌, modify, transaction, unless, audit, update_row, update_order,
}

pub record DealCompletionSnapshot : Type 0 where
  pub stage : DealStage
  pub completed_at : Option ℕ
  pub payment_status : Option PaymentStatus
  pub fulfillment_source : Option FulfillmentSource
  pub order_status : Option OrderStatus
  pub supplier_order_statuses : List SupplierOrderStatus
  pub installation_required : Option Bool
  pub supervisor_confirmed_by_id : Option ℕ
  pub installation_completed_at : Option ℕ

abbrev pub is_set {ℓ} : {A : Type ℓ} → Option A → Bool
is_set none = false
is_set (some _) = true

abbrev pub is_value : {A : Type 0} → ⦃enum : Enum A⦄ → Option A → A → Bool
is_value none a = false
is_value (some b) a = same b a

abbrev pub is_installation_required : Option Bool → Bool
is_installation_required none = false
is_installation_required (some required) = required

abbrev pub client_required_supplier_statuses : List SupplierOrderStatus → List SupplierOrderStatus
client_required_supplier_statuses [] = []
client_required_supplier_statuses (s ∷ ss) =
    if same s SupplierOrderStatus.cancelled
    then client_required_supplier_statuses ss
    else s ∷ client_required_supplier_statuses ss

unfoldable pub are_all_client_supplier_orders_delivered : List SupplierOrderStatus → Bool
are_all_client_supplier_orders_delivered statuses =
    let required = client_required_supplier_statuses statuses in
    if length required == 0 then false else all (λ s. same s SupplierOrderStatus.delivered) required

unfoldable pub are_materials_delivered : DealCompletionSnapshot → Bool
are_materials_delivered input =
    if is_value input.fulfillment_source FulfillmentSource.supplier_order
    then are_all_client_supplier_orders_delivered input.supplier_order_statuses
    else if is_value input.fulfillment_source FulfillmentSource.warehouse_stock
    then is_value input.order_status OrderStatus.shipped
      || is_value input.order_status OrderStatus.completed
    else false

pub record Evaluation : Type 0 where
  pub can_complete_deal : Bool
  pub can_complete_installation : Bool

abbrev pub can_complete_installation : DealCompletionSnapshot → Bool
can_complete_installation s =
    is_installation_required s.installation_required
    && not (is_set s.installation_completed_at)
    && is_set s.supervisor_confirmed_by_id

unfoldable pub evaluate_deal_completion : DealCompletionSnapshot → Evaluation
evaluate_deal_completion s =
    let can_install = can_complete_installation s in
    let answer : Bool → Evaluation =
      λ deal. record { can_complete_deal = deal; can_complete_installation = can_install } in
    if is_set s.completed_at || same s.stage DealStage.lost
    then answer false
    else if not (same s.stage DealStage.won)
    then answer false
    else if not (is_set s.installation_required)
    then answer false
    else (let paid = is_value s.payment_status PaymentStatus.paid in
        let delivered = are_materials_delivered s in
        if not paid || not delivered
        then answer false
        else if is_installation_required s.installation_required
        then answer can_install
        else answer true)

abbrev update_deal : ℕ → (Deal → Bool) → (Deal → Deal) → Action ℕ
update_deal k test change db =
    let (rows, n) = update_row k test change db.deals in (ok n, record db { deals = rows })

abbrev update_installation :
    ℕ → (DealInstallation → Bool) → (DealInstallation → DealInstallation) → Action ℕ
update_installation k test change db =
    let (rows, n) = update_row k test change db.installations in
    (ok n, record db { installations = rows })

-- The first row that passes the test, with its id; `dealId` is unique in both tables.
abbrev pub find_row {ℓ} : {A : Type ℓ} → ℕ → (A → Bool) → List A → Option (ℕ × A)
find_row i test [] = none
find_row i test (r ∷ rows) =
    let rest = find_row (i + 1) test rows in if test r then some (i, r) else rest

abbrev pub order_of_deal : ℕ → Order → Bool
order_of_deal deal_id o = o.deal_id == deal_id

abbrev pub installation_of_deal : ℕ → DealInstallation → Bool
installation_of_deal deal_id i = i.deal_id == deal_id

-- `deal.update` throws when there is no such row; `updatedAt` is not kept here, and the touch of the
-- order changes nothing else.
unfoldable pub lock_fulfillment_rows : ℕ → Action Deal
lock_fulfillment_rows deal_id = do
  found ← gets (λ db. get_elem? db.deals deal_id)
  or_throw found (not_found deal_not_found)

abbrev order_column : {A : Type 0} → (Order → A) → Option (ℕ × Order) → Option A
order_column f none = none
order_column f (some (_, o)) = if o.deleted then none else some (f o)

abbrev installation_column :
    {A : Type 0} → (DealInstallation → Option A) → Option (ℕ × DealInstallation) → Option A
installation_column f none = none
installation_column f (some (_, i)) = f i

abbrev pub supplier_statuses : ℕ → List SupplierOrder → List SupplierOrderStatus
supplier_statuses deal_id [] = []
supplier_statuses deal_id (o ∷ os) =
    let rest = supplier_statuses deal_id os in
    if o.deal_id == deal_id then o.status ∷ rest else rest

-- The deal's order and installation, as the include clause loads them.
abbrev pub order_for : ℕ → Db → Option (ℕ × Order)
order_for deal_id db = find_row 0 (order_of_deal deal_id) db.orders

abbrev pub installation_for : ℕ → Db → Option (ℕ × DealInstallation)
installation_for deal_id db = find_row 0 (installation_of_deal deal_id) db.installations

abbrev pub live_deal : ℕ → Db → Option Deal
live_deal k db = elim (get_elem? db.deals k) [
  | none ↦ none
  | some d ↦ if d.deleted then none else some d
]

unfoldable pub to_snapshot : ℕ → Deal → Db → DealCompletionSnapshot
to_snapshot deal_id deal db = record {
  stage = deal.stage;
  completed_at = deal.completed_at;
  payment_status = order_column (λ o. o.payment_status) (order_for deal_id db);
  fulfillment_source = deal.fulfillment_source;
  order_status = order_column (λ o. o.status) (order_for deal_id db);
  supplier_order_statuses = supplier_statuses deal_id db.supplier_orders;
  installation_required = deal.installation_required;
  supervisor_confirmed_by_id =
      installation_column (λ i. i.supervisor_confirmed_by_id) (installation_for deal_id db);
  installation_completed_at =
      installation_column (λ i. i.completed_at) (installation_for deal_id db);
}

unfoldable pub unique_from : List ℕ → List ℕ → List ℕ
unique_from seen [] = seen
unique_from seen (x ∷ xs) =
    unique_from (if any (λ y. y == x) seen then seen else seen ++ (x ∷ [])) xs

unfoldable pub unique_ids : List ℕ → List ℕ
unique_ids = unique_from []

abbrev pub is_active_head : User → Bool
is_active_head u = u.is_active && includes u.roles RoleName.head

abbrev pub row_id : ℕ × User → ℕ
row_id (k, _) = k

abbrev pub note_deal : ℕ → ℕ → Notification
note_deal deal_id user_id = record { user_id = user_id; topic = Topic.deal_completed deal_id }

unfoldable pub notify_deal_completed : ℕ → Deal → Action (Unit {0})
notify_deal_completed deal_id deal = do
  heads ← gets (λ db. select_from 0 is_active_head db.users)
  let recipients = unique_ids (deal.owner_id ∷ map row_id heads)
  unless (length recipients == 0) (
      modify (λ db. record db {
        notifications = db.notifications ++ map (note_deal deal_id) recipients;
      }))

abbrev pub completed_now : ℕ → DealInstallation → DealInstallation
completed_now now i = record i { status = InstallationStatus.completed; completed_at = some now }

unfoldable pub complete_installation : Option (ℕ × DealInstallation) → Action (Unit {0})
complete_installation none = pure tt
complete_installation (some (k, _)) = do
  now ← gets (λ db. db.now)
  update_installation k (λ i. not (is_set i.completed_at)) (completed_now now)
  pure tt

-- An order that completion leaves as it is.
abbrev pub order_closed : Order → Bool
order_closed o =
    o.deleted || same o.status OrderStatus.cancelled || same o.status OrderStatus.completed

abbrev pub completed_order : Order → Order
completed_order o = record o { status = OrderStatus.completed; version = o.version + 1 }

unfoldable pub complete_order : Option (ℕ × Order) → Action (Unit {0})
complete_order none = pure tt
complete_order (some (k, o)) =
    unless (order_closed o) (do update_order k (λ o. not (order_closed o)) completed_order; pure tt)

abbrev pub may_complete : Deal → Bool
may_complete d = not (is_set d.completed_at) && not d.deleted && same d.stage DealStage.won

-- What follows when the deal can be completed: the claim, the order, the records.
unfoldable pub complete_deal : ℕ → ℕ → Deal → Option (ℕ × Order) → Action Bool
complete_deal deal_id actor deal order = do
  completed_at ← gets (λ db. db.now)
  count ← update_deal deal_id may_complete (λ d. record d { completed_at = some completed_at })
  if not (count == 1) then pure false else (do
    complete_order order
    modify (λ db. record db {
      activities =
          db.activities
          ++ (record { author_id = actor; type = ActivityType.deal_completed deal_id completed_at }
              ∷ []);
    })
    audit (some actor) (AuditEvent.deal_completed deal_id completed_at)
    notify_deal_completed deal_id deal
    pure true)

unfoldable pub finalize_deal : ℕ → ℕ → Deal → Action Bool
finalize_deal deal_id actor deal = do
  evaluation ← gets (λ db. evaluate_deal_completion (to_snapshot deal_id deal db))
  order ← gets (order_for deal_id)
  installation ← gets (installation_for deal_id)
  unless (not evaluation.can_complete_installation) (complete_installation installation)
  if evaluation.can_complete_deal then complete_deal deal_id actor deal order else pure false

unfoldable pub try_finalize : ℕ → ℕ → Action Bool
try_finalize deal_id actor = do
  deal ← lock_fulfillment_rows deal_id
  if deal.deleted then pure false else finalize_deal deal_id actor deal

unfoldable pub try_finalize_deal : ℕ → ℕ → Action Bool
try_finalize_deal deal_id actor = transaction (try_finalize deal_id actor)
