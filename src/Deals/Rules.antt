-- ===== src/Deals/Rules.antt =====
-- What the completion rules ask of a deal.
use hpl_back.Base.{
  ◌≡◌, ◌⊎◌, ◌↔◌, refl, Bool, true, false, not, ◌&&◌, ◌||◌, Option, none, some, List, [], ◌∷◌, arith,
  ◌==◌, same, any, all, length, Bool_cases, inl, inr,
}
use hpl_back.Domain.{
  DealStage, deal_stage_enum, FulfillmentSource, fulfillment_source_enum, OrderStatus,
  order_status_enum, PaymentStatus, payment_status_enum, SupplierOrderStatus,
  supplier_order_status_enum,
}
use hpl_back.Deals.{
  DealCompletionSnapshot, is_set, is_value, is_installation_required,
  client_required_supplier_statuses, are_all_client_supplier_orders_delivered,
  are_materials_delivered, can_complete_installation, evaluate_deal_completion,
}

-- Some order of the client was delivered and none is still under way.
abbrev pub supplied : List SupplierOrderStatus → Bool
supplied statuses =
    any (λ s. same s SupplierOrderStatus.delivered) statuses
    && all (λ s. same s SupplierOrderStatus.delivered || same s SupplierOrderStatus.cancelled)
        statuses

required_all :
    (statuses : List SupplierOrderStatus)
    → all (λ s. same s SupplierOrderStatus.delivered) (client_required_supplier_statuses statuses)
      ≡ all
          (λ s. same s SupplierOrderStatus.delivered || same s SupplierOrderStatus.cancelled)
          statuses
required_all [] = refl
required_all (s ∷ ss) = ground (arith, required_all ss)

required_any :
    (statuses : List SupplierOrderStatus)
    → all
        (λ s. same s SupplierOrderStatus.delivered || same s SupplierOrderStatus.cancelled)
        statuses
      ≡ true
    → any (λ s. same s SupplierOrderStatus.delivered) statuses
      ≡ not (length (client_required_supplier_statuses statuses) == 0)
required_any [] h = refl
required_any (s ∷ ss) h = ground (arith, required_any ss)

pub all_delivered_lem :
    (statuses : List SupplierOrderStatus)
    → are_all_client_supplier_orders_delivered statuses ≡ supplied statuses
unfolding are_all_client_supplier_orders_delivered
all_delivered_lem statuses =
    elim (Bool_cases (
      all (λ s. same s SupplierOrderStatus.delivered)
        (client_required_supplier_statuses statuses))) [
          | inl every ↦ ground (arith, required_all statuses, required_any statuses)
          | inr some_open ↦ ground (arith, required_all statuses)
        ]

-- The materials are with the client.
abbrev pub Delivered : DealCompletionSnapshot → Type 0
Delivered s =
    ((s.fulfillment_source ≡ some FulfillmentSource.supplier_order)
      × (supplied s.supplier_order_statuses ≡ true))
    ⊎ ((s.fulfillment_source ≡ some FulfillmentSource.warehouse_stock)
        × (is_value s.order_status OrderStatus.shipped
              || is_value s.order_status OrderStatus.completed
            ≡ true))

-- No installation is owed, or one is that the supervisor confirmed and nobody has closed.
abbrev pub InstallationReady : DealCompletionSnapshot → Type 0
InstallationReady s =
    (s.installation_required ≡ some false)
    ⊎ ((s.installation_required ≡ some true)
        × (s.installation_completed_at ≡ none)
        × (is_set s.supervisor_confirmed_by_id ≡ true))

source_cases :
    (s : DealCompletionSnapshot) (f : Option FulfillmentSource)
    → s.fulfillment_source ≡ f
    → (are_materials_delivered s ≡ true) ↔ Delivered s
unfolding are_materials_delivered
source_cases s none e = (λ h. ground arith, λ h. ground arith)
source_cases s (some FulfillmentSource.supplier_order) e = (
  λ h. inl (e, ground (arith, all_delivered_lem s.supplier_order_statuses)),
  λ h. ground (arith, all_delivered_lem s.supplier_order_statuses),
)
source_cases s (some FulfillmentSource.warehouse_stock) e =
    (λ h. inr (e, ground arith), λ h. ground arith)

installation_cases :
    (s : DealCompletionSnapshot) (r : Option Bool)
    → s.installation_required ≡ r
    → ((is_set s.installation_required
          && (not (is_installation_required s.installation_required)
              || can_complete_installation s))
        ≡ true)
      ↔ InstallationReady s
installation_cases s none e = (λ h. ground arith, λ h. ground arith)
installation_cases s (some false) e = (λ h. inl e, λ h. ground arith)
installation_cases s (some true) e = (λ h. inr (e, ground arith, ground arith), λ h. ground arith)

can_complete_lem :
    (s : DealCompletionSnapshot)
    → (evaluate_deal_completion s).can_complete_deal ≡ (
        not (is_set s.completed_at)
        && same s.stage DealStage.won
        && is_value s.payment_status PaymentStatus.paid
        && are_materials_delivered s
        && (is_set s.installation_required
            && (not (is_installation_required s.installation_required)
                || can_complete_installation s)))
unfolding evaluate_deal_completion
can_complete_lem s = elim (Bool_cases (are_materials_delivered s)) [
  | inl delivered ↦ ground arith
  | inr undelivered ↦ ground arith
]

-- A deal can be completed exactly when it is not completed yet, is won and paid, its materials are
-- delivered (by a supplier: some client order was delivered and all others were delivered or
-- cancelled; from the warehouse: the order is shipped or completed) and either it owes no
-- installation, or it owes one that the supervisor confirmed and that is not closed yet.
pub evaluate_deal_completion_iff :
    (s : DealCompletionSnapshot)
    → ((evaluate_deal_completion s).can_complete_deal ≡ true) ↔ (
        (s.completed_at ≡ none)
        × (same s.stage DealStage.won ≡ true)
        × (is_value s.payment_status PaymentStatus.paid ≡ true)
        × Delivered s
        × InstallationReady s)
evaluate_deal_completion_iff s = (
  λ h. (
    ground (arith, can_complete_lem s),
    ground (arith, can_complete_lem s),
    ground (arith, can_complete_lem s),
    (source_cases s s.fulfillment_source refl).0 (ground (arith, can_complete_lem s)),
    (installation_cases s s.installation_required refl).0 (ground (arith, can_complete_lem s)),
  ),
  λ (pending, won, paid, delivered, ready).
      let materials = (source_cases s s.fulfillment_source refl).1 delivered in
      let installation = (installation_cases s s.installation_required refl).1 ready in
      ground (arith, can_complete_lem s, materials, installation),
)

-- Once the installation is closed, a deal that owes one can no longer be completed.
pub evaluate_deal_completion_closed :
    (s : DealCompletionSnapshot)
    → s.installation_required ≡ some true
    → is_set s.installation_completed_at ≡ true
    → (evaluate_deal_completion s).can_complete_deal ≡ false
unfolding evaluate_deal_completion
evaluate_deal_completion_closed s required closed = ground arith
