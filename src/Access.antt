-- ===== src/Access.antt =====
-- Roles and the policies that read them (src/common/enums/role.enum.ts, src/modules/orders/services,
-- src/modules/deals/services/deal-policy.service.ts, src/auth/rbac/role-assignment.policy.ts).
use hpl_back.Base.{
  ℕ, ◌+◌, Bool, true, false, not, ◌&&◌, ◌||◌, Option, none, some, List, [], ◌∷◌, if◌then◌else◌,
  ◌==◌, Enum, same, includes, any, length,
}
use hpl_back.Domain.{
  RoleName, role_name_enum, OrderStatus, order_status_enum, DealStage, deal_stage_enum,
}
mod Permissions
pub mod Matrix
pub mod Policies
pub mod Synchronize
pub mod Separation
pub use Permissions.*
mod Tests

pub record PolicyUser : Type 0 where
  pub id : ℕ
  pub roles : List RoleName
  pub permissions : List Permission

abbrev pub has_role : PolicyUser → RoleName → Bool
has_role user role = includes user.roles role

abbrev pub has_any_role : PolicyUser → List RoleName → Bool
has_any_role user roles = any (λ role. includes user.roles role) roles

abbrev pub unscoped_deal_roles : List RoleName
unscoped_deal_roles = RoleName.head ∷ RoleName.director ∷ RoleName.accountant ∷ []

abbrev pub unscoped_order_roles : List RoleName
unscoped_order_roles =
    RoleName.head ∷ RoleName.director ∷ RoleName.accountant ∷ RoleName.storekeeper ∷ []

unfoldable pub has_unscoped_deal_visibility : PolicyUser → Bool
has_unscoped_deal_visibility user = has_any_role user unscoped_deal_roles

unfoldable pub has_unscoped_order_visibility : PolicyUser → Bool
has_unscoped_order_visibility user = has_any_role user unscoped_order_roles

pub record OrderPermissions : Type 0 where
  pub can_edit : Bool
  pub can_delete : Bool
  pub can_add_payment : Bool
  pub can_confirm_payment : Bool
  pub can_create_delivery : Bool

abbrev pub order_final_statuses : List OrderStatus
order_final_statuses = OrderStatus.shipped ∷ OrderStatus.cancelled ∷ OrderStatus.completed ∷ []

-- `OrderPolicyService.getPermissions`, on the order's status and its deal's owner.
unfoldable pub order_permissions : PolicyUser → OrderStatus → ℕ → OrderPermissions
order_permissions user status owner =
    let is_final = includes order_final_statuses status in
    let is_owner = owner == user.id in
    let can_mutate_as_head = has_role user RoleName.head && not is_final in
    let can_mutate_own =
      (has_role user RoleName.manager || has_role user RoleName.storekeeper)
      && is_owner
      && not is_final in
    let can_mutate = can_mutate_as_head || can_mutate_own in
    record {
      can_edit = can_mutate;
      can_delete = can_mutate;
      can_add_payment = can_mutate;
      can_confirm_payment = has_role user RoleName.accountant;
      can_create_delivery = can_mutate;
    }

-- `OrderPolicyService.getScopeFilter`: no filter, or the owner that the deal must have.
unfoldable pub order_scope_filter : PolicyUser → Option ℕ
unfolding has_unscoped_order_visibility
order_scope_filter user = if has_unscoped_order_visibility user then none else some user.id

pub record DealPermissions : Type 0 where
  pub can_edit : Bool
  pub can_delete : Bool
  pub can_change_stage : Bool
  pub can_mutate_commercial : Bool
  pub can_bypass_stage_validation : Bool

abbrev pub closed_deal_stages : List DealStage
closed_deal_stages = DealStage.won ∷ DealStage.lost ∷ []

-- `DealPolicyService.getPermissions`.
unfoldable pub deal_permissions : PolicyUser → DealStage → ℕ → DealPermissions
deal_permissions user stage owner =
    let is_owner = owner == user.id in
    let is_closed = includes closed_deal_stages stage in
    let is_head = has_role user RoleName.head in
    let is_manager = has_role user RoleName.manager in
    let can_edit = is_head || (is_manager && is_owner) in
    record {
      can_edit = can_edit;
      can_delete = can_edit;
      can_change_stage = can_edit && not is_closed;
      can_mutate_commercial = can_edit && not is_closed;
      can_bypass_stage_validation = is_head;
    }

-- `DealPolicyService.getScopeFilter` and `canReadDeal`.
unfoldable pub deal_scope_filter : PolicyUser → Option ℕ
unfolding has_unscoped_deal_visibility
deal_scope_filter user = if has_unscoped_deal_visibility user then none else some user.id

-- A `where` filter on the owner: `{}` holds of every deal.
abbrev pub meets_scope : Option ℕ → ℕ → Bool
meets_scope none owner = true
meets_scope (some id) owner = owner == id

-- A user may read a deal of an owner in the user's scope.
abbrev pub reads_owner : Option ℕ → ℕ → ℕ → Bool
reads_owner none owner user_id = true
reads_owner (some _) owner user_id = owner == user_id

unfoldable pub can_read_deal : PolicyUser → ℕ → Bool
unfolding deal_scope_filter
can_read_deal user owner = reads_owner (deal_scope_filter user) owner user.id
