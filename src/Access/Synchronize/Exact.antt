-- ===== src/Access/Synchronize/Exact.antt =====
-- After a synchronisation the stored grants are the matrix, whatever was stored before.
use mathlib.Core.Option.{some-injective}
use hpl_back.Base.{
  ℕ, ◌≡◌, refl, sym, ap, ◌∙◌, Bool, true, false, not, ◌&&◌, ◌||◌, Option, none, some, List, [], ◌∷◌,
  ◌++◌, arith, if◌then◌else◌, ◌==◌, any, all, includes, same, inl, inr, Bool_cases,
}
use hpl_back.Domain.{RoleName, role_name_position, role_name_enum}
use hpl_back.Access.Permissions.{Permission, permission_enum, permission_position}
use hpl_back.Access.Matrix.{target_role_names, role_permission_slugs}
use hpl_back.Access.Synchronize.{
  Rbac, observer, is_seeded, keep, is_grant, not_observer_grant,
  remove_obsolete_observer_assignments, upsert_grant, grant_all, still_granted, synchronize_slugs,
  synchronize_role, synchronize_roles, synchronize_rbac, seeded_with,
}

-- A role has a grant of a slug.
abbrev pub has : ℕ → ℕ → List (ℕ × ℕ) → Bool
has role slug rows = any (is_grant role slug) rows

abbrev pub lists : List Permission → ℕ → Bool
lists slugs slug = any (λ p. permission_position p == slug) slugs

module _ (a b : ℕ) where
  has-append : (xs ys : List (ℕ × ℕ)) → has a b (xs ++ ys) ≡ (has a b xs || has a b ys)
  has-append [] ys = refl
  has-append ((r, s) ∷ xs) ys = ground (arith, has-append xs ys)

  has-upsert_grant :
      (role slug : ℕ) (rows : List (ℕ × ℕ))
      → has a b (upsert_grant role slug rows) ≡ (has a b rows || (role == a && slug == b))
  unfolding upsert_grant
  has-upsert_grant role slug rows = elim (Bool_cases (role == a && slug == b)) [
    | inr other ↦ ground (arith, has-append rows ((role, slug) ∷ []))
    | inl this ↦
        let same_grant : has role slug rows ≡ has a b rows =
          ap (λ r. has r slug rows) (ground arith) ∙ ap (λ s. has a s rows) (ground arith) in
        ground (arith, same_grant, has-append rows ((role, slug) ∷ []))
  ]

  has-grant_all :
      (role : ℕ) (slugs : List Permission) (rows : List (ℕ × ℕ))
      → all is_seeded slugs ≡ true
      → (rows' : List (ℕ × ℕ)) × (grant_all role slugs rows ≡ some rows')
        × (has a b rows' ≡ (has a b rows || (role == a && lists slugs b)))
  unfolding grant_all
  has-grant_all role [] rows seeded = (rows, refl, ground arith)
  has-grant_all role (p ∷ ps) rows seeded =
      let (rows', granted, h) =
        has-grant_all role ps (upsert_grant role (permission_position p) rows) (ground arith) in
      (rows', ground arith, ground (arith, has-upsert_grant role (permission_position p) rows))

  has-keep-observer :
      (rows : List (ℕ × ℕ))
      → has a b (keep not_observer_grant rows) ≡ (has a b rows && not (a == observer))
  has-keep-observer [] = refl
  has-keep-observer ((r, s) ∷ rows) = ground (arith, has-keep-observer rows)

  has-keep :
      (role : ℕ) (slugs : List Permission) (rows : List (ℕ × ℕ))
      → has a b (keep (still_granted role slugs) rows)
        ≡ (has a b rows && not (a == role && not (lists slugs b)))
  has-keep role slugs [] = refl
  has-keep role slugs ((r, s) ∷ rows) = elim (Bool_cases (s == b)) [
    | inr other ↦ ground (arith, has-keep role slugs rows)
    | inl this ↦
        let same_lists : lists slugs s ≡ lists slugs b = ap (λ x. lists slugs x) (ground arith) in
        ground (arith, has-keep role slugs rows, same_lists)
  ]

  -- One role afterwards: its slugs, and nothing else; other roles keep theirs.
  has-synchronize_slugs :
      (role : ℕ) (slugs : List Permission) (rows : List (ℕ × ℕ))
      → all is_seeded slugs ≡ true
      → (rows' : List (ℕ × ℕ)) × (synchronize_slugs role slugs rows ≡ some rows')
        × (has a b rows' ≡ (if role == a then lists slugs b else has a b rows))
  unfolding synchronize_slugs
  has-synchronize_slugs role slugs rows seeded =
      let (granted, e, h) = has-grant_all role slugs rows seeded in
      (
        keep (still_granted role slugs) granted,
        ground (arith, e),
        ground (arith, h, has-keep role slugs granted),
      )

role_of : ℕ → RoleName
role_of n =
    if n == 0
    then RoleName.admin
    else if n == 1
    then RoleName.director
    else if n == 2
    then RoleName.head
    else if n == 3
    then RoleName.manager
    else if n == 4
    then RoleName.accountant
    else if n == 5
    then RoleName.storekeeper
    else RoleName.engineer

role_of-position : (r : RoleName) → role_of (role_name_position r) ≡ r
unfolding role_of
role_of-position RoleName.admin = refl
role_of-position RoleName.director = refl
role_of-position RoleName.head = refl
role_of-position RoleName.manager = refl
role_of-position RoleName.accountant = refl
role_of-position RoleName.storekeeper = refl
role_of-position RoleName.engineer = refl

position_injective : (r s : RoleName) → role_name_position r ≡ role_name_position s → r ≡ s
position_injective r s e = sym (role_of-position r) ∙ ap role_of e ∙ role_of-position s

slugs_seeded : (r : RoleName) → all is_seeded (role_permission_slugs r) ≡ true
unfolding is_seeded
slugs_seeded RoleName.admin = refl
slugs_seeded RoleName.director = refl
slugs_seeded RoleName.head = refl
slugs_seeded RoleName.manager = refl
slugs_seeded RoleName.accountant = refl
slugs_seeded RoleName.storekeeper = refl
slugs_seeded RoleName.engineer = refl

synchronize_roles-cons :
    (r : RoleName) (rs : List RoleName) (rows first : List (ℕ × ℕ))
    → synchronize_role r rows ≡ some first
    → synchronize_roles (r ∷ rs) rows ≡ synchronize_roles rs first
unfolding synchronize_roles
synchronize_roles-cons r rs rows first e =
    ap
      (λ o. elim o as (λ _. Option (List (ℕ × ℕ))) [
        | none ↦ none
        | some rows' ↦ synchronize_roles rs rows'
      ])
      e

-- How two rounds of the loop combine.
combine :
    (hit later mine rest first final : Bool)
    → first ≡ (if hit then mine else rest)
    → final ≡ (if later then mine else first)
    → final ≡ (if hit || later then mine else rest)
combine true true mine rest first final e f = f
combine true false mine rest first final e f = f ∙ e
combine false true mine rest first final e f = f
combine false false mine rest first final e f = f ∙ e

abbrev slugs_of : RoleName → ℕ → Bool
slugs_of r b = lists (role_permission_slugs r) b

module _ (role : RoleName) (b : ℕ) where
  abbrev a : ℕ
  a = role_name_position role

  -- What the round of another name writes is the round of this one, where the names agree.
  mine_of :
      (r : RoleName) (rest : Bool)
      → (if same r role then slugs_of r b else rest)
        ≡ (if same r role then slugs_of role b else rest)
  mine_of r rest = elim (Bool_cases (same r role)) [
    | inl this ↦ rw this (ap (λ x. slugs_of x b) (position_injective r role (ground (arith, this))))
    | inr other ↦ rw other
  ]

  has-synchronize_roles :
      (roles : List RoleName) (rows : List (ℕ × ℕ))
      → (rows' : List (ℕ × ℕ)) × (synchronize_roles roles rows ≡ some rows')
        × (has a b rows' ≡ (if includes roles role then slugs_of role b else has a b rows))
  unfolding synchronize_roles synchronize_role
  has-synchronize_roles [] rows = (rows, refl, refl)
  has-synchronize_roles (r ∷ rs) rows =
      let (first, e, h) =
        has-synchronize_slugs a b (role_name_position r) (role_permission_slugs r) rows
          (slugs_seeded r) in
      let (rows', e', h') = has-synchronize_roles rs first in
      (
        rows',
        synchronize_roles-cons r rs rows first e ∙ e',
        combine (same r role) (includes rs role) (slugs_of role b) (has a b rows) (has a b first)
            (has a b rows') (h ∙ mine_of r (has a b rows)) h',
      )

every_target : (role : RoleName) → includes target_role_names role ≡ true
every_target RoleName.admin = refl
every_target RoleName.director = refl
every_target RoleName.head = refl
every_target RoleName.manager = refl
every_target RoleName.accountant = refl
every_target RoleName.storekeeper = refl
every_target RoleName.engineer = refl

position-ne-observer : (r : RoleName) → (role_name_position r == observer) ≡ false
position-ne-observer RoleName.admin = refl
position-ne-observer RoleName.director = refl
position-ne-observer RoleName.head = refl
position-ne-observer RoleName.manager = refl
position-ne-observer RoleName.accountant = refl
position-ne-observer RoleName.storekeeper = refl
position-ne-observer RoleName.engineer = refl

has-observer :
    (b : ℕ) (roles : List RoleName) (rows : List (ℕ × ℕ))
    → has observer b rows ≡ false
    → (rows' : List (ℕ × ℕ)) × (synchronize_roles roles rows ≡ some rows')
      × (has observer b rows' ≡ false)
unfolding synchronize_roles synchronize_role
has-observer b [] rows absent = (rows, refl, absent)
has-observer b (r ∷ rs) rows absent =
    let (first, e, h) =
      has-synchronize_slugs observer b (role_name_position r) (role_permission_slugs r) rows
        (slugs_seeded r) in
    let still : has observer b first ≡ false = h ∙ rw (position-ne-observer r) absent in
    let (rows', e', h') = has-observer b rs first still in
    (rows', synchronize_roles-cons r rs rows first e ∙ e', h')

abbrev cleared : Rbac → List (ℕ × ℕ)
cleared db = keep not_observer_grant db.role_permissions

cleared-observer : (b : ℕ) (db : Rbac) → has observer b (cleared db) ≡ false
cleared-observer b db = ground (arith, has-keep-observer observer b db.role_permissions)

synchronized :
    (db : Rbac) (rows : List (ℕ × ℕ))
    → synchronize_roles target_role_names (cleared db) ≡ some rows
    → (db' : Rbac) × (synchronize_rbac db ≡ some db') × (db'.role_permissions ≡ rows)
unfolding synchronize_rbac remove_obsolete_observer_assignments seeded_with
synchronized db rows e = (
  seeded_with (remove_obsolete_observer_assignments db) rows,
  ap
      (λ o. elim o as (λ _. Option Rbac) [
        | none ↦ none
        | some grants ↦ some (seeded_with (remove_obsolete_observer_assignments db) grants)
      ])
      e,
  refl,
)

-- The stored grants are just the matrix.
abbrev pub IsMatrix : List (ℕ × ℕ) → Type 0
IsMatrix rows =
    ((role : RoleName) (slug : ℕ)
      → has (role_name_position role) slug rows ≡ lists (role_permission_slugs role) slug)
    × ((slug : ℕ) → has observer slug rows ≡ false)

-- From any database, synchronizeRbac returns, and afterwards the stored grants of each role are
-- just the permissions that the matrix lists for it, and the obsolete role OBSERVER has none.
pub synchronize_rbac_exact :
    (db : Rbac) → (db' : Rbac) × (synchronize_rbac db ≡ some db') × IsMatrix db'.role_permissions
synchronize_rbac_exact db =
    let (rows, e, h) = has-synchronize_roles RoleName.admin 0 target_role_names (cleared db) in
    let (db', done, grants) = synchronized db rows e in
    (
      db',
      done,
      rw grants (
        λ role slug.
            let (rows', e', h') = has-synchronize_roles role slug target_role_names (cleared db) in
            rw (some-injective rows rows' (sym e ∙ e')) (h' ∙ rw (every_target role)),
        λ slug.
            let (rows', e', h') =
              has-observer slug target_role_names (cleared db) (cleared-observer slug db) in
            rw (some-injective rows rows' (sym e ∙ e')) h',
      ),
    )
