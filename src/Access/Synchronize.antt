-- ===== src/Access/Synchronize.antt =====
-- `synchronizeRbac` (src/auth/rbac/synchronize-rbac.ts), which brings the stored roles and grants in
-- line with the matrix. Stored roles and slugs are numbers: a known one's is its position, and
-- larger numbers are what earlier versions stored. A grant is a pair of a role and a slug; the
-- `Error`s that the code throws are `none`.
pub mod Exact
use hpl_back.Base.{
  ℕ, Bool, true, false, not, ◌&&◌, ◌||◌, Option, none, some, List, [], ◌∷◌, ◌++◌, map,
  if◌then◌else◌, ◌==◌, any, includes,
}
use hpl_back.Domain.{RoleName, role_name_position}
use hpl_back.Access.Permissions.{Permission, permission_enum, permission_position}
use hpl_back.Access.Matrix.{permission_definitions, target_role_names, role_permission_slugs}

pub record Rbac : Type 0 where
  pub roles : List ℕ
  pub permissions : List ℕ
  pub role_permissions : List (ℕ × ℕ)
  pub user_roles : List (ℕ × ℕ)

-- The role OBSERVER of earlier versions.
abbrev pub observer : ℕ
observer = 7

abbrev pub keep {ℓ} : {A : Type ℓ} → (A → Bool) → List A → List A
keep test [] = []
keep test (x ∷ xs) = let rest = keep test xs in if test x then x ∷ rest else rest

abbrev pub is_grant : ℕ → ℕ → ℕ × ℕ → Bool
is_grant role slug (r, s) = r == role && s == slug

abbrev not_observer_user : ℕ × ℕ → Bool
not_observer_user (user, role) = not (role == observer)

abbrev pub not_observer_grant : ℕ × ℕ → Bool
not_observer_grant (role, slug) = not (role == observer)

unfoldable pub remove_obsolete_observer_assignments : Rbac → Rbac
remove_obsolete_observer_assignments db = record db {
  user_roles = keep not_observer_user db.user_roles;
  role_permissions = keep not_observer_grant db.role_permissions;
  roles = keep (λ r. not (r == observer)) db.roles;
}

-- `upsert` on a table of names: an update of the description is not kept.
unfoldable pub upsert : ℕ → List ℕ → List ℕ
upsert name rows = if any (λ x. x == name) rows then rows else rows ++ (name ∷ [])

unfoldable pub upsert_all : List ℕ → List ℕ → List ℕ
upsert_all [] rows = rows
upsert_all (name ∷ names) rows = upsert_all names (upsert name rows)

unfoldable pub upsert_grant : ℕ → ℕ → List (ℕ × ℕ) → List (ℕ × ℕ)
upsert_grant role slug rows =
    if any (is_grant role slug) rows then rows else rows ++ ((role, slug) ∷ [])

-- The slug has a row in the map of seeded permissions.
unfoldable pub is_seeded : Permission → Bool
is_seeded p = includes permission_definitions p

-- The inner loop over a role's slugs; a slug that was not seeded is an error.
unfoldable pub grant_all : ℕ → List Permission → List (ℕ × ℕ) → Option (List (ℕ × ℕ))
grant_all role [] rows = some rows
grant_all role (p ∷ ps) rows =
    let rest = grant_all role ps (upsert_grant role (permission_position p) rows) in
    if is_seeded p then rest else none

abbrev pub still_granted : ℕ → List Permission → ℕ × ℕ → Bool
still_granted role slugs (r, s) =
    not (r == role && not (any (λ p. permission_position p == s) slugs))

-- One role: grant its slugs, and delete its other grants.
unfoldable pub synchronize_slugs : ℕ → List Permission → List (ℕ × ℕ) → Option (List (ℕ × ℕ))
synchronize_slugs role slugs rows = elim (grant_all role slugs rows) [
  | none ↦ none
  | some granted ↦ some (keep (still_granted role slugs) granted)
]

unfoldable pub synchronize_role : RoleName → List (ℕ × ℕ) → Option (List (ℕ × ℕ))
synchronize_role role rows =
    synchronize_slugs (role_name_position role) (role_permission_slugs role) rows

unfoldable pub synchronize_roles : List RoleName → List (ℕ × ℕ) → Option (List (ℕ × ℕ))
synchronize_roles [] rows = some rows
synchronize_roles (r ∷ rs) rows = elim (synchronize_role r rows) [
  | none ↦ none
  | some rows' ↦ synchronize_roles rs rows'
]

-- The tables with every role and slug seeded, and these grants.
unfoldable pub seeded_with : Rbac → List (ℕ × ℕ) → Rbac
seeded_with db grants = record db {
  roles = upsert_all (map role_name_position target_role_names) db.roles;
  permissions = upsert_all (map permission_position permission_definitions) db.permissions;
  role_permissions = grants;
}

unfoldable pub synchronize_rbac : Rbac → Option Rbac
synchronize_rbac before =
    let db = remove_obsolete_observer_assignments before in
    elim (synchronize_roles target_role_names db.role_permissions) [
      | none ↦ none
      | some grants ↦ some (seeded_with db grants)
    ]
