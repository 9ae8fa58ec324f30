-- ===== src/Access/Policies.antt =====
-- What the policies let whom do.
use hpl_back.Base.{ℕ, ◌≡◌, true, false, not, arith, includes, Bool_cases, inl, inr}
use hpl_back.Domain.{
  RoleName, role_name_enum, OrderStatus, order_status_enum, DealStage, deal_stage_enum,
}
use hpl_back.Access.{
  PolicyUser, order_permissions, order_final_statuses, deal_permissions, closed_deal_stages,
  can_read_deal, order_scope_filter, deal_scope_filter, meets_scope, has_unscoped_order_visibility,
  has_unscoped_deal_visibility,
}

-- A user who may change an order finds it within the scope of orders that the same policy lets the
-- user list, and the order's status is not a final one.
pub order_permissions-scope :
    (user : PolicyUser) (status : OrderStatus) (owner : ℕ)
    → (order_permissions user status owner).can_edit ≡ true
    → (meets_scope (order_scope_filter user) owner ≡ true)
      × (includes order_final_statuses status ≡ false)
unfolding order_permissions order_scope_filter has_unscoped_order_visibility
order_permissions-scope user status owner edits =
    elim (Bool_cases (includes user.roles RoleName.head)) [
      | inl head ↦ (ground arith, ground arith)
      | inr not_head ↦ (ground arith, ground arith)
    ]

-- A user who may edit a deal may read it, and may change its stage just when the deal is not closed
-- (won or lost).
pub deal_permissions-scope :
    (user : PolicyUser) (stage : DealStage) (owner : ℕ)
    → (deal_permissions user stage owner).can_edit ≡ true
    → (can_read_deal user owner ≡ true)
      × ((deal_permissions user stage owner).can_change_stage
          ≡ not (includes closed_deal_stages stage))
unfolding deal_permissions can_read_deal deal_scope_filter has_unscoped_deal_visibility
deal_permissions-scope user stage owner edits =
    elim (Bool_cases (includes user.roles RoleName.head)) [
      | inl head ↦ (ground arith, ground arith)
      | inr not_head ↦ (ground arith, ground arith)
    ]
