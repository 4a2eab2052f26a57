-- ===== src/Courier/Invariant/Members.antt =====
-- Memberships under the endpoints of packages/courier/src/api/v1.
use hurry.Prelude.{
  [], ◌∙◌, ℕ, ◌≤◌, String, true, false, not, ◌&&◌, Option, some, List, ◌∷◌, ◌≡◌, refl, sym, subst,
  arith,
}
use hurry.Courier.Auth.{OrgRole, is_admin, admin, member}
use hurry.Courier.Tables.{
  Db, MemberRow, IdentityRow, OrganizationRow, role_in, has_identity, human_admins,
  organization_exists,
}
use hurry.Courier.Members.{is_last_admin, without_row, with_role}
use hurry.Courier.Members.Rows.{
  Unique, Unique-without_row, Unique-with_role, human_admins-without_row, human_admins-with_role,
  human_admins-identity, admin_row_exists-role_in,
}
use hurry.Courier.Organizations.{with_name}
use hurry.Courier.Effect.{
  organization_renamed, account_named, with_signup, Effect, nothing, keys_revoked, member_removed,
  role_set, organization_created, signed_up, bot_created, key_created, key_revoked,
  invitation_created, accepted, invitation_revoked,
}

-- The organization, if there is one of this id, has an administrator with a GitHub identity.
abbrev pub IsGoverned : ℕ → Db → Type 0
IsGoverned o d =
    organization_exists o d.organizations ≡ true → 1 ≤ human_admins o d.identities d.members

has_identity-own :
    (a u : ℕ) (name : String) (rows : List IdentityRow)
    → has_identity a (record { account_id = a; github_user_id = u; github_username = name } ∷ rows)
      ≡ true
unfolding has_identity
has_identity-own a u name rows = ground arith

module _ (o : ℕ) where
  -- The tables that decide it.
  abbrev Governs : List OrganizationRow → List IdentityRow → List MemberRow → Type 0
  Governs organizations identities rows =
      organization_exists o organizations ≡ true → 1 ≤ human_admins o identities rows

  inserted :
      (organizations : List OrganizationRow) (identities : List IdentityRow) (row : MemberRow)
      (rows : List MemberRow)
      → Governs organizations identities rows
      → Governs organizations identities (row ∷ rows)
  unfolding human_admins
  inserted organizations identities row rows h e = omega (arith, h e)

  -- A new organization comes with an administrator who has an identity.
  founded :
      (organizations : List OrganizationRow) (identities : List IdentityRow) (rows : List MemberRow)
      (org account : ℕ) (name : String)
      → has_identity account identities ≡ true
      → Governs organizations identities rows
      → Governs
          (record { id = org; name = name } ∷ organizations)
          identities
          (record { organization_id = org; account_id = account; role = admin } ∷ rows)
  unfolding human_admins organization_exists
  founded organizations identities rows org account name human h e = ground (arith, h)

  identified :
      (organizations : List OrganizationRow) (identities : List IdentityRow) (row : IdentityRow)
      (rows : List MemberRow)
      → Governs organizations identities rows
      → Governs organizations (row ∷ identities) rows
  identified organizations identities row rows h e =
      omega (arith, h e, human_admins-identity identities o row rows)

  removed :
      (d : Db) (org target : ℕ) (role : OrgRole)
      → Unique d.members
      → role_in org target d.members ≡ some role
      → (is_admin role ≡ true → is_last_admin org target d ≡ false)
      → IsGoverned o d
      → Governs d.organizations d.identities (without_row org target d.members)
  unfolding is_last_admin
  removed d org target admin u found last h e =
      ground (arith, last refl, h e, human_admins-without_row d.identities org target o d.members u)
  removed d org target member u found last h e = ground (
    arith,
    h e,
    human_admins-without_row d.identities org target o d.members u,
    admin_row_exists-role_in d.identities org target d.members u found,
  )

  changed :
      (d : Db) (org target : ℕ) (role requested : OrgRole)
      → Unique d.members
      → role_in org target d.members ≡ some role
      → (is_admin role && not (is_admin requested) ≡ true → is_last_admin org target d ≡ false)
      → IsGoverned o d
      → Governs d.organizations d.identities (with_role org target requested d.members)
  unfolding is_last_admin
  changed d org target admin member u found last h e =
      ground
        (arith, last refl, h e, human_admins-with_role d.identities org target o member d.members u)
  changed d org target admin admin u found last h e =
      ground (arith, h e, human_admins-with_role d.identities org target o admin d.members u)
  changed d org target member requested u found last h e = ground (
    arith,
    h e,
    human_admins-with_role d.identities org target o requested d.members u,
    admin_row_exists-role_in d.identities org target d.members u found,
  )

  of_tables :
      (d : Db) {organizations : List OrganizationRow} {identities : List IdentityRow}
      {rows : List MemberRow}
      → d.organizations ≡ organizations
      → d.identities ≡ identities
      → d.members ≡ rows
      → Governs organizations identities rows
      → IsGoverned o d
  of_tables d {organizations} {identities} eo ei em h =
      subst (λ x. Governs x d.identities d.members) (sym eo)
        (subst (λ x. Governs organizations x d.members) (sym ei)
          (subst (λ x. Governs organizations identities x) (sym em) h))

  organization_exists-with_name :
      (org : ℕ) (name : String) (rows : List OrganizationRow)
      → organization_exists o (with_name org name rows) ≡ organization_exists o rows
  unfolding organization_exists with_name
  organization_exists-with_name org name [] = refl
  organization_exists-with_name org name (row ∷ rows) =
      ground (arith, organization_exists-with_name org name rows)

  pub signup-IsGoverned :
      (email : String) (name : Option String) (user : ℕ) (username org_name : String) (d : Db)
      (d' : Db)
      → d' ≡ with_signup email name user username org_name d
      → IsGoverned o d
      → IsGoverned o d'
  signup-IsGoverned email name user username org_name d d' e h = subst (IsGoverned o) (sym e) (
      founded d.organizations _ d.members d.next_organization d.next_account org_name
        (has_identity-own d.next_account user username d.identities)
        (identified d.organizations d.identities _ d.members h))

  pub Effect-IsGoverned :
      {account : ℕ} {d d' : Db}
      → has_identity account d.identities ≡ true
      → Unique d.members
      → IsGoverned o d
      → Effect account d d'
      → IsGoverned o d'
  Effect-IsGoverned human u h (nothing e) = subst (IsGoverned o) (sym e) h
  Effect-IsGoverned human u h (keys_revoked now org target may e) = subst (IsGoverned o) (sym e) h
  Effect-IsGoverned {d = d} human u h (member_removed now org target role may found last e) =
      subst (IsGoverned o) (sym e) (removed d org target role u found last h)
  Effect-IsGoverned {d = d} human u h (role_set org target role requested may found last e) =
      subst (IsGoverned o) (sym e) (changed d org target role requested u found last h)
  Effect-IsGoverned {account} {d} {d'} human u h (organization_created name full fresh e) =
      subst (IsGoverned o) (sym e)
        (founded d.organizations d.identities d.members d.next_organization account name human h)
  Effect-IsGoverned human u h (account_named name full e) = subst (IsGoverned o) (sym e) h
  Effect-IsGoverned {d = d} human u h (organization_renamed org name may full e) =
      subst (IsGoverned o) (sym e)
        (λ q. h (sym (organization_exists-with_name org name d.organizations) ∙ q))
  Effect-IsGoverned {account} {d} {d'} human u h
        (signed_up email name user username org_name own fresh e) =
      signup-IsGoverned email name user username org_name d d' e h
  Effect-IsGoverned {d = d} {d'} human u h
        (bot_created hash org name email may named reachable fresh e) =
      subst (IsGoverned o) (sym e) (inserted d.organizations d.identities _ d.members h)
  Effect-IsGoverned {account} {d} {d'} human u h (key_created org name hash role found full e) =
      subst (IsGoverned o) (sym e) h
  Effect-IsGoverned human u h (key_revoked now id key stored live may e) =
      subst (IsGoverned o) (sym e) h
  Effect-IsGoverned {account} {d} {d'} human u h
        (invitation_created now token org role expires_at max_uses may ahead enough e) =
      subst (IsGoverned o) (sym e) h
  Effect-IsGoverned {account} {d} {d'} human u h
        (accepted now token inv found unrevoked in_time free fresh e) =
      subst (IsGoverned o) (sym e) (inserted d.organizations d.identities _ d.members h)
  Effect-IsGoverned human u h (invitation_revoked now org id may e) = subst (IsGoverned o) (sym e) h

-- The primary key of the memberships.
pub Effect-Unique :
    {account : ℕ} {d d' : Db} → Unique d.members → Effect account d d' → Unique d'.members
Effect-Unique u (nothing e) = subst (λ x. Unique x.members) (sym e) u
Effect-Unique u (keys_revoked now org target may e) = subst (λ x. Unique x.members) (sym e) u
Effect-Unique {d = d} u (member_removed now org target role may found last e) =
    subst (λ x. Unique x.members) (sym e) (Unique-without_row org target d.members u)
Effect-Unique {d = d} u (role_set org target role requested may found last e) =
    subst (λ x. Unique x.members) (sym e) (Unique-with_role org target requested d.members u)
Effect-Unique {account} {d} {d'} u (organization_created name full fresh e) =
    subst (λ x. Unique x.members) (sym e) (fresh, u)
Effect-Unique u (account_named name full e) = subst (λ x. Unique x.members) (sym e) u
Effect-Unique u (organization_renamed org name may full e) = subst (λ x. Unique x.members) (sym e) u
Effect-Unique {account} {d} {d'} u (signed_up email name user username org_name own fresh e) =
    subst (λ x. Unique x.members) (sym e) (fresh, u)
Effect-Unique {d = d} {d'} u (bot_created hash org name email may named reachable fresh e) =
    subst (λ x. Unique x.members) (sym e) (fresh, u)
Effect-Unique {account} {d} {d'} u (key_created org name hash role found full e) =
    subst (λ x. Unique x.members) (sym e) u
Effect-Unique u (key_revoked now id key stored live may e) = subst (λ x. Unique x.members) (sym e) u
Effect-Unique {account} {d} {d'} u
      (invitation_created now token org role expires_at max_uses may ahead enough e) =
    subst (λ x. Unique x.members) (sym e) u
Effect-Unique {account} {d} {d'} u (accepted now token inv found unrevoked in_time free fresh e) =
    subst (λ x. Unique x.members) (sym e) (fresh, u)
Effect-Unique u (invitation_revoked now org id may e) = subst (λ x. Unique x.members) (sym e) u
