-- ===== src/Access/Tests.antt =====
-- The policies' theorems on concrete users.
use hpl_back.Base.{◌≡◌, refl, some, true, false, not, [], ◌∷◌, includes}
use hpl_back.Domain.{
  RoleName, role_name_enum, OrderStatus, order_status_enum, DealStage, deal_stage_enum,
}
use hpl_back.Access.Separation.{granted, admin_separated}
use hpl_back.Access.Synchronize.{Rbac, observer, synchronize_rbac}
use hpl_back.Access.Synchronize.Exact.{IsMatrix, synchronize_rbac_exact}
use hpl_back.Access.{
  Permission, PolicyUser, order_permissions, order_final_statuses, deal_permissions,
  closed_deal_stages, can_read_deal, order_scope_filter, meets_scope,
}
use hpl_back.Access.Policies.{order_permissions-scope, deal_permissions-scope}

abbrev manager_7 : PolicyUser
manager_7 = record { id = 7; roles = RoleName.manager ∷ []; permissions = [] }

abbrev accountant_3 : PolicyUser
accountant_3 = record { id = 3; roles = RoleName.accountant ∷ []; permissions = [] }

order_permissions-scope_example :
    (meets_scope (order_scope_filter manager_7) 7 ≡ true)
    × (includes order_final_statuses OrderStatus.confirmed ≡ false)
unfolding order_permissions
order_permissions-scope_example = order_permissions-scope manager_7 OrderStatus.confirmed 7 refl

deal_permissions-scope_example :
    (can_read_deal manager_7 7 ≡ true)
    × ((deal_permissions manager_7 DealStage.won 7).can_change_stage
        ≡ not (includes closed_deal_stages DealStage.won))
unfolding deal_permissions
deal_permissions-scope_example = deal_permissions-scope manager_7 DealStage.won 7 refl

admin_separated_example :
    granted (RoleName.admin ∷ RoleName.manager ∷ []) Permission.payments_confirm
    ≡ granted (RoleName.manager ∷ []) Permission.payments_confirm
admin_separated_example = admin_separated (RoleName.manager ∷ []) Permission.payments_confirm refl

-- A database of an earlier version, with the role OBSERVER and a grant that the matrix does not have.
abbrev old : Rbac
old = record {
  roles = observer ∷ 0 ∷ [];
  permissions = 3 ∷ [];
  role_permissions = (0, 90) ∷ (observer, 3) ∷ [];
  user_roles = (5, observer) ∷ (6, 0) ∷ [];
}

synchronize_rbac_exact_example :
    (db' : Rbac) × (synchronize_rbac old ≡ some db') × IsMatrix db'.role_permissions
synchronize_rbac_exact_example = synchronize_rbac_exact old
