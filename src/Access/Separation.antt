-- ===== src/Access/Separation.antt =====
-- Who holds which privilege, over all combinations of roles.
use hpl_back.Base.{
  ◌≡◌, refl, ap, Bool, true, not, List, [], ◌∷◌, arith, ◌==◌, any, all, includes, same, inl, inr,
  Bool_cases,
}
use hpl_back.Domain.{RoleName, role_name_enum}
use hpl_back.Access.Permissions.{Permission, permission_enum, permission_position}
use hpl_back.Access.Matrix.{role_has_permission, business_mutation_permissions, admin_permissions}

-- What the roles of a user grant together.
abbrev pub granted : List RoleName → Permission → Bool
granted roles slug = any (λ role. role_has_permission role slug) roles

-- Only one role holds the permission.
abbrev pub HeldBy : Permission → RoleName → Type 0
HeldBy slug role = (roles : List RoleName) → granted roles slug ≡ includes roles role

held_by :
    (slug : Permission) (role : RoleName)
    → ((r : RoleName) → role_has_permission r slug ≡ same r role)
    → HeldBy slug role
held_by slug role each [] = refl
held_by slug role each (r ∷ rs) = ground (arith, each r, held_by slug role each rs)

confirm_role :
    (r : RoleName) → role_has_permission r Permission.payments_confirm ≡ same r RoleName.accountant
confirm_role RoleName.admin = refl
confirm_role RoleName.director = refl
confirm_role RoleName.head = refl
confirm_role RoleName.manager = refl
confirm_role RoleName.accountant = refl
confirm_role RoleName.storekeeper = refl
confirm_role RoleName.engineer = refl

users_role : (r : RoleName) → role_has_permission r Permission.users_manage ≡ same r RoleName.admin
users_role RoleName.admin = refl
users_role RoleName.director = refl
users_role RoleName.head = refl
users_role RoleName.manager = refl
users_role RoleName.accountant = refl
users_role RoleName.storekeeper = refl
users_role RoleName.engineer = refl

currency_role :
    (r : RoleName)
    → role_has_permission r Permission.currency_rates_manage ≡ same r RoleName.director
currency_role RoleName.admin = refl
currency_role RoleName.director = refl
currency_role RoleName.head = refl
currency_role RoleName.manager = refl
currency_role RoleName.accountant = refl
currency_role RoleName.storekeeper = refl
currency_role RoleName.engineer = refl

pricing_role :
    (r : RoleName) → role_has_permission r Permission.panel_pricing_manage ≡ same r RoleName.head
pricing_role RoleName.admin = refl
pricing_role RoleName.director = refl
pricing_role RoleName.head = refl
pricing_role RoleName.manager = refl
pricing_role RoleName.accountant = refl
pricing_role RoleName.storekeeper = refl
pricing_role RoleName.engineer = refl

accept_role :
    (r : RoleName) → role_has_permission r Permission.quotes_client_accept ≡ same r RoleName.manager
accept_role RoleName.admin = refl
accept_role RoleName.director = refl
accept_role RoleName.head = refl
accept_role RoleName.manager = refl
accept_role RoleName.accountant = refl
accept_role RoleName.storekeeper = refl
accept_role RoleName.engineer = refl

receive_role :
    (r : RoleName)
    → role_has_permission r Permission.warehouse_purchases_receive ≡ same r RoleName.storekeeper
receive_role RoleName.admin = refl
receive_role RoleName.director = refl
receive_role RoleName.head = refl
receive_role RoleName.manager = refl
receive_role RoleName.accountant = refl
receive_role RoleName.storekeeper = refl
receive_role RoleName.engineer = refl

technical_role :
    (r : RoleName)
    → role_has_permission r Permission.installation_update_technical ≡ same r RoleName.engineer
technical_role RoleName.admin = refl
technical_role RoleName.director = refl
technical_role RoleName.head = refl
technical_role RoleName.manager = refl
technical_role RoleName.accountant = refl
technical_role RoleName.storekeeper = refl
technical_role RoleName.engineer = refl

-- Each of these permissions is held by just one role: confirming payments by the accountant,
-- managing users by the administrator, currency rates by the director, panel pricing by the head,
-- recording the client's acceptance of a quote by the manager, receiving purchases by the
-- storekeeper, and the technical data of installations by the engineer.
pub privileges_separated :
    HeldBy Permission.payments_confirm RoleName.accountant
    × HeldBy Permission.users_manage RoleName.admin
    × HeldBy Permission.currency_rates_manage RoleName.director
    × HeldBy Permission.panel_pricing_manage RoleName.head
    × HeldBy Permission.quotes_client_accept RoleName.manager
    × HeldBy Permission.warehouse_purchases_receive RoleName.storekeeper
    × HeldBy Permission.installation_update_technical RoleName.engineer
privileges_separated = (
  held_by Permission.payments_confirm RoleName.accountant confirm_role,
  held_by Permission.users_manage RoleName.admin users_role,
  held_by Permission.currency_rates_manage RoleName.director currency_role,
  held_by Permission.panel_pricing_manage RoleName.head pricing_role,
  held_by Permission.quotes_client_accept RoleName.manager accept_role,
  held_by Permission.warehouse_purchases_receive RoleName.storekeeper receive_role,
  held_by Permission.installation_update_technical RoleName.engineer technical_role,
)

-- A test over all members of a list holds at each value with a member's position.
all-includes :
    (f : Permission → Bool) (xs : List Permission) (p : Permission)
    → ((x : Permission) → permission_position x ≡ permission_position p → f x ≡ f p)
    → all f xs ≡ true
    → includes xs p ≡ true
    → f p ≡ true
all-includes f [] p resp every found = ground arith
all-includes f (x ∷ xs) p resp every found = elim (Bool_cases (same x p)) [
  | inl same_slug ↦ ground (arith, resp x (ground arith))
  | inr other ↦ all-includes f xs p resp (ground arith) (ground arith)
]

admin_lacks : Permission → Bool
admin_lacks p = not (role_has_permission RoleName.admin p)

admin_table : all admin_lacks business_mutation_permissions ≡ true
unfolding admin_lacks
admin_table = refl

-- The administrator's role adds none of the business mutation permissions to what a user's other
-- roles grant.
pub admin_separated :
    (roles : List RoleName) (p : Permission)
    → includes business_mutation_permissions p ≡ true
    → granted (RoleName.admin ∷ roles) p ≡ granted roles p
unfolding admin_lacks
admin_separated roles p business =
    let lacks : admin_lacks p ≡ true =
      all-includes admin_lacks business_mutation_permissions p
        (λ x e. ap (λ n. not (any (λ y. permission_position y == n) admin_permissions)) e)
        admin_table business in
    ground (arith, lacks)
