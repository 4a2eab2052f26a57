-- ===== src/Courier/Tables.antt =====
-- The tables of the server's database (packages/courier/schema/migrations), and the reads of them
-- that several queries share. Times are seconds after the epoch; creation times, which only lists
-- show, are left out.
use hurry.Prelude.{
  ℕ, ◌+◌, String, ◌==◌, Bool, false, not, ◌||◌, ◌&&◌, Option, none, some, List, [], ◌∷◌,
  if◌then◌else◌, nat_eq,
}
use hurry.Courier.Auth.{OrgRole, is_admin}

-- A Postgres `INT`, which can be negative.
pub data ℤ : Type 0 where
  pos : ℕ → ℤ
  negsuc : ℕ → ℤ

pub record AccountRow : Type 0 where
  pub id : ℕ
  pub email : String
  pub name : Option String
  pub disabled_at : Option ℕ

pub record IdentityRow : Type 0 where
  pub account_id : ℕ
  pub github_user_id : ℕ
  pub github_username : String

pub record OrganizationRow : Type 0 where
  pub id : ℕ
  pub name : String

pub record MemberRow : Type 0 where
  pub organization_id : ℕ
  pub account_id : ℕ
  pub role : OrgRole

pub record ApiKeyRow : Type 0 where
  pub id : ℕ
  pub account_id : ℕ
  pub name : String
  pub hash : String
  pub organization_id : ℕ
  pub revoked_at : Option ℕ

pub record InvitationRow : Type 0 where
  pub id : ℕ
  pub organization_id : ℕ
  pub token : String
  pub role : OrgRole
  pub created_by : ℕ
  pub expires_at : Option ℕ
  pub max_uses : Option ℤ
  pub use_count : ℕ
  pub revoked_at : Option ℕ

pub record RedemptionRow : Type 0 where
  pub invitation_id : ℕ
  pub account_id : ℕ

-- The tables, and the next value of each table's sequence of ids.
pub record Db : Type 0 where
  pub accounts : List AccountRow
  pub identities : List IdentityRow
  pub organizations : List OrganizationRow
  pub members : List MemberRow
  pub api_keys : List ApiKeyRow
  pub invitations : List InvitationRow
  pub redemptions : List RedemptionRow
  pub next_account : ℕ
  pub next_organization : ℕ
  pub next_key : ℕ
  pub next_invitation : ℕ

-- The conditions of a foreign key to each table.
unfoldable pub account_exists : ℕ → List AccountRow → Bool
account_exists a [] = false
account_exists a (row ∷ rows) = nat_eq row.id a || account_exists a rows

unfoldable pub organization_exists : ℕ → List OrganizationRow → Bool
organization_exists o [] = false
organization_exists o (row ∷ rows) = nat_eq row.id o || organization_exists o rows

-- `JOIN github_identity gi ON gi.account_id = a`
unfoldable pub has_identity : ℕ → List IdentityRow → Bool
has_identity a [] = false
has_identity a (row ∷ rows) = nat_eq row.account_id a || has_identity a rows

unfoldable pub github_user_exists : ℕ → List IdentityRow → Bool
github_user_exists u [] = false
github_user_exists u (row ∷ rows) = nat_eq row.github_user_id u || github_user_exists u rows

-- `WHERE organization_id = $1 AND account_id = $2`
abbrev pub is_row : ℕ → ℕ → MemberRow → Bool
is_row o a row = nat_eq row.organization_id o && nat_eq row.account_id a

unfoldable pub role_in : ℕ → ℕ → List MemberRow → Option OrgRole
role_in o a [] = none
role_in o a (row ∷ rows) = if is_row o a row then some row.role else role_in o a rows

unfoldable pub is_member : ℕ → ℕ → List MemberRow → Bool
is_member o a [] = false
is_member o a (row ∷ rows) = is_row o a row || is_member o a rows

-- A row of the organization whose account is an administrator with a GitHub identity.
abbrev pub is_human_admin : ℕ → List IdentityRow → MemberRow → Bool
is_human_admin o identities row =
    nat_eq row.organization_id o && (has_identity row.account_id identities && is_admin row.role)

-- `SELECT COUNT(*)` of those rows
unfoldable pub human_admins : ℕ → List IdentityRow → List MemberRow → ℕ
human_admins o identities [] = 0
human_admins o identities (row ∷ rows) =
    (if is_human_admin o identities row then 1 else 0) + human_admins o identities rows

-- `INSERT INTO organization_member`, with the table's primary key and foreign keys
unfoldable pub insert_member : MemberRow → Db → Option Db
unfolding account_exists organization_exists is_member
insert_member row d =
    if account_exists row.account_id d.accounts
      && (organization_exists row.organization_id d.organizations
          && not (is_member row.organization_id row.account_id d.members))
    then some (record d { members = row ∷ d.members })
    else none

-- `INSERT INTO organization`
unfoldable pub insert_organization : String → Db → ℕ × Db
insert_organization name d = (
  d.next_organization,
  record d {
    organizations = record { id = d.next_organization; name = name } ∷ d.organizations;
    next_organization = d.next_organization + 1;
  },
)

-- `INSERT INTO account`
unfoldable pub insert_account : String → Option String → Db → ℕ × Db
insert_account email name d = (
  d.next_account,
  record d {
    accounts =
        record { id = d.next_account; email = email; name = name; disabled_at = none } ∷ d.accounts;
    next_account = d.next_account + 1;
  },
)

-- `INSERT INTO github_identity`, with its two unique columns
unfoldable pub insert_identity : IdentityRow → Db → Option Db
unfolding has_identity github_user_exists account_exists
insert_identity row d =
    if account_exists row.account_id d.accounts
      && not (
          has_identity row.account_id d.identities
          || github_user_exists row.github_user_id d.identities)
    then some (record d { identities = row ∷ d.identities })
    else none

unfoldable pub hash_exists : String → List ApiKeyRow → Bool
hash_exists h [] = false
hash_exists h (row ∷ rows) = row.hash == h || hash_exists h rows

-- `INSERT INTO api_key`, with its unique hash and foreign keys
unfoldable pub insert_key : ℕ → String → String → ℕ → Db → Option (ℕ × Db)
unfolding hash_exists account_exists organization_exists
insert_key account name hash org d =
    if account_exists account d.accounts
      && (organization_exists org d.organizations && not (hash_exists hash d.api_keys))
    then some (
      d.next_key,
      record d {
        api_keys =
            record {
              id = d.next_key;
              account_id = account;
              name = name;
              hash = hash;
              organization_id = org;
              revoked_at = none;
            }
            ∷ d.api_keys;
        next_key = d.next_key + 1;
      },
    )
    else none
