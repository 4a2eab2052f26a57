-- ===== src/Courier/Members/Rows.antt =====
-- The rows of `organization_member` under the statements of packages/courier/src/db/member.rs.
use hurry.Prelude.{
  ℕ, ◌+◌, ◌≤◌, true, false, not, ◌&&◌, none, some, List, [], ◌∷◌, ◌≡◌, refl, arith, nat_eq,
  if◌then◌else◌,
}
use hurry.Courier.Auth.{OrgRole, is_admin, admin, member}
use hurry.Courier.Tables.{MemberRow, IdentityRow, role_in, is_member, has_identity, human_admins}
use hurry.Courier.Members.{without_row, with_role, admin_row_exists}

-- The primary key: no two rows of one organization and account.
abbrev pub Unique : List MemberRow → Type 0
Unique [] = Unit
Unique (row ∷ rows) = (is_member row.organization_id row.account_id rows ≡ false) × Unique rows

module _ (o a p b : ℕ) where
  pub is_member-without_row :
      (rows : List MemberRow)
      → is_member p b (without_row o a rows)
        ≡ (if nat_eq o p && nat_eq a b then false else is_member p b rows)
  unfolding is_member without_row
  is_member-without_row [] = ground arith
  is_member-without_row (row ∷ rows) = ground (arith, is_member-without_row rows)

  pub role_in-without_row :
      (rows : List MemberRow)
      → role_in p b (without_row o a rows)
        ≡ (if nat_eq o p && nat_eq a b then none else role_in p b rows)
  unfolding role_in without_row
  role_in-without_row [] = ground arith
  role_in-without_row (row ∷ rows) = ground (arith, role_in-without_row rows)

  module _ (role : OrgRole) where
    pub is_member-with_role :
        (rows : List MemberRow) → is_member p b (with_role o a role rows) ≡ is_member p b rows
    unfolding is_member with_role
    is_member-with_role [] = refl
    is_member-with_role (row ∷ rows) = ground (arith, is_member-with_role rows)

    pub role_in-with_role :
        (rows : List MemberRow)
        → role_in p b (with_role o a role rows) ≡ (
            if nat_eq o p && (nat_eq a b && is_member p b rows)
            then some role
            else role_in p b rows)
    unfolding role_in with_role is_member
    role_in-with_role [] = ground arith
    role_in-with_role (row ∷ rows) = ground (arith, role_in-with_role rows)

pub is_member-role_in :
    (o a : ℕ) (rows : List MemberRow) {role : OrgRole}
    → role_in o a rows ≡ some role
    → is_member o a rows ≡ true
unfolding is_member role_in
is_member-role_in o a [] {role} h = cc
is_member-role_in o a (row ∷ rows) {role} h =
    ground (arith, is_member-role_in o a rows {role = role})

pub Unique-without_row :
    (o a : ℕ) (rows : List MemberRow) → Unique rows → Unique (without_row o a rows)
unfolding without_row
Unique-without_row o a [] u = tt
Unique-without_row o a (row ∷ rows) u = ground (
  arith,
  Unique-without_row o a rows,
  is_member-without_row o a row.organization_id row.account_id rows,
)

pub Unique-with_role :
    (o a : ℕ) (role : OrgRole) (rows : List MemberRow)
    → Unique rows
    → Unique (with_role o a role rows)
unfolding with_role
Unique-with_role o a role [] u = tt
Unique-with_role o a role (row ∷ rows) u = ground (
  arith,
  Unique-with_role o a role rows,
  is_member-with_role o a row.organization_id row.account_id role rows,
)

module _ (identities : List IdentityRow) where
  admin_row_exists-is_member :
      (o a : ℕ) (rows : List MemberRow)
      → is_member o a rows ≡ false
      → admin_row_exists o a identities rows ≡ false
  unfolding admin_row_exists is_member
  admin_row_exists-is_member o a [] h = refl
  admin_row_exists-is_member o a (row ∷ rows) h =
      ground (arith, admin_row_exists-is_member o a rows)

  pub admin_row_exists-role_in :
      (o a : ℕ) (rows : List MemberRow)
      → Unique rows
      → role_in o a rows ≡ some member
      → admin_row_exists o a identities rows ≡ false
  unfolding admin_row_exists role_in
  admin_row_exists-role_in o a [] u h = refl
  admin_row_exists-role_in o a (row ∷ rows) u h =
      ground (arith, admin_row_exists-role_in o a rows, admin_row_exists-is_member o a rows)

  pub human_admins-identity :
      (p : ℕ) (x : IdentityRow) (rows : List MemberRow)
      → human_admins p identities rows ≤ human_admins p (x ∷ identities) rows
  unfolding human_admins has_identity
  human_admins-identity p x [] = omega arith
  human_admins-identity p x (row ∷ rows) = ground (arith, human_admins-identity p x rows)

  pub admin_row_exists-admin :
      (o a : ℕ) (rows : List MemberRow)
      → role_in o a rows ≡ some admin
      → has_identity a identities ≡ true
      → admin_row_exists o a identities rows ≡ true
  unfolding admin_row_exists role_in
  admin_row_exists-admin o a [] h k = cc
  admin_row_exists-admin o a (row ∷ rows) h k = ground (arith, admin_row_exists-admin o a rows)

  -- A removed row takes at most its own administrator.
  pub human_admins-without_row :
      (o a p : ℕ) (rows : List MemberRow)
      → Unique rows
      → human_admins p identities rows
        ≡ human_admins p identities (without_row o a rows)
          + (if nat_eq o p && admin_row_exists o a identities rows then 1 else 0)
  unfolding human_admins without_row admin_row_exists
  human_admins-without_row o a p [] u = ground arith
  human_admins-without_row o a p (row ∷ rows) u =
      ground (arith, human_admins-without_row o a p rows, admin_row_exists-is_member o a rows)

  -- A new role loses at most the administrator of its row, and only if it is another role.
  pub human_admins-with_role :
      (o a p : ℕ) (role : OrgRole) (rows : List MemberRow)
      → Unique rows
      → human_admins p identities rows
        ≤ human_admins p identities (with_role o a role rows)
          + (if nat_eq o p && (not (is_admin role) && admin_row_exists o a identities rows)
              then 1
              else 0)
  unfolding human_admins with_role admin_row_exists
  human_admins-with_role o a p role [] u = ground arith
  human_admins-with_role o a p role (row ∷ rows) u =
      ground (arith, human_admins-with_role o a p role rows, admin_row_exists-is_member o a rows)
