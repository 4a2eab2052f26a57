-- ===== src/Courier/Effect.antt =====
-- What the requests of a session (packages/courier/src/api/v1/me, organizations and invitations) may
-- do to the database, as a relation: each constructor is a change of the rows and the facts that
-- justify it.
use Prim.Native.String
use hurry.Prelude.{
  ℕ, ◌+◌, String, ◌==◌, Bool, true, false, not, ◌&&◌, Option, none, some, ◌∷◌, ◌≡◌, ◌⊎◌,
}
use hurry.Courier.Auth.{OrgRole, is_admin, admin, member, trim}
use hurry.Courier.Tables.{Db, ℤ, ApiKeyRow, InvitationRow, role_in, is_member}
use hurry.Courier.Members.{is_last_admin, without_row, with_role, revoke_keys, is_live}
use hurry.Courier.Organizations.{with_name}
use hurry.Courier.Me.{with_account_name}
use hurry.Courier.Keys.{get_api_key, revoke_key_id}
use hurry.Courier.Invitations.{
  find_invitation, has_passed, is_used_up, increment, revoke_invitation_id,
}
use hurry.Courier.Invitations.Endpoints.{less_than_one}

abbrev pub IsAdmin : Db → ℕ → ℕ → Type 0
IsAdmin d org account = role_in org account d.members ≡ some admin

-- The account itself, or an administrator of the organization.
abbrev pub MayManage : Db → ℕ → ℕ → ℕ → Type 0
MayManage d org account target = (target ≡ account) ⊎ IsAdmin d org account

abbrev pub without_keys : ℕ → ℕ → ℕ → Db → Db
without_keys now target org d = record d { api_keys = revoke_keys now target org d.api_keys }

-- A name that is empty, where there is one.
abbrev pub is_nothing : Option String → Bool
is_nothing none = false
is_nothing (some name) = name == ""

-- A new organization with its first administrator.
abbrev pub with_founded : String → ℕ → Db → Db
with_founded name creator d = record d {
  organizations = record { id = d.next_organization; name = name } ∷ d.organizations;
  next_organization = d.next_organization + 1;
  members =
      record { organization_id = d.next_organization; account_id = creator; role = admin }
      ∷ d.members;
}

-- A new account with its GitHub identity and its own organization.
abbrev pub with_signup : String → Option String → ℕ → String → String → Db → Db
with_signup email name user username org_name d = record (with_founded org_name d.next_account d) {
  accounts =
      record { id = d.next_account; email = email; name = name; disabled_at = none } ∷ d.accounts;
  next_account = d.next_account + 1;
  identities =
      record { account_id = d.next_account; github_user_id = user; github_username = username }
      ∷ d.identities;
}

abbrev pub with_key : String → String → ℕ → ℕ → Db → Db
with_key name hash org account d = record d {
  api_keys =
      record {
        id = d.next_key;
        account_id = account;
        name = name;
        hash = hash;
        organization_id = org;
        revoked_at = none;
      }
      ∷ d.api_keys;
  next_key = d.next_key + 1;
}

-- A new account without a GitHub identity, a member with a key.
abbrev pub with_bot : String → ℕ → String → String → Db → Db
with_bot hash org name email d =
    record (with_key (String.◌++◌ name " API Key") hash org d.next_account d) {
      accounts =
          record { id = d.next_account; email = email; name = some name; disabled_at = none }
          ∷ d.accounts;
      next_account = d.next_account + 1;
      members =
          record { organization_id = org; account_id = d.next_account; role = member } ∷ d.members;
    }

abbrev pub with_invitation : String → ℕ → OrgRole → ℕ → Option ℕ → Option ℤ → Db → Db
with_invitation token org role created_by expires_at max_uses d = record d {
  invitations =
      record {
        id = d.next_invitation;
        organization_id = org;
        token = token;
        role = role;
        created_by = created_by;
        expires_at = expires_at;
        max_uses = max_uses;
        use_count = 0;
        revoked_at = none;
      }
      ∷ d.invitations;
  next_invitation = d.next_invitation + 1;
}

-- The account is a member with the invitation's role, and the use is counted and recorded.
abbrev pub with_joined : InvitationRow → ℕ → Db → Db
with_joined inv account d = record d {
  members =
      record { organization_id = inv.organization_id; account_id = account; role = inv.role }
      ∷ d.members;
  invitations = increment inv.id d.invitations;
  redemptions = record { invitation_id = inv.id; account_id = account } ∷ d.redemptions;
}

-- A request of `account` changes the database `d` to `d'`.
pub data Effect (account : ℕ) (d d' : Db) : Type 0 where
  nothing : d' ≡ d → Effect account d d'
  keys_revoked :
      (now org target : ℕ)
      → MayManage d org account target
      → d' ≡ without_keys now target org d
      → Effect account d d'
  member_removed :
      (now org target : ℕ) (role : OrgRole)
      → MayManage d org account target
      → role_in org target d.members ≡ some role
      → (is_admin role ≡ true → is_last_admin org target d ≡ false)
      → d' ≡ record (without_keys now target org d) { members = without_row org target d.members }
      → Effect account d d'
  role_set :
      (org target : ℕ) (role requested : OrgRole)
      → IsAdmin d org account
      → role_in org target d.members ≡ some role
      → (is_admin role && not (is_admin requested) ≡ true → is_last_admin org target d ≡ false)
      → d' ≡ record d { members = with_role org target requested d.members }
      → Effect account d d'
  organization_created :
      (name : String)
      → (trim name == "") ≡ false
      → is_member d.next_organization account d.members ≡ false
      → d' ≡ with_founded name account d
      → Effect account d d'
  organization_renamed :
      (org : ℕ) (name : String)
      → IsAdmin d org account
      → (name == "") ≡ false
      → d' ≡ record d { organizations = with_name org name d.organizations }
      → Effect account d d'
  -- by the account's own name, or none
  account_named :
      (name : Option String)
      → is_nothing name ≡ false
      → d' ≡ record d { accounts = with_account_name account name d.accounts }
      → Effect account d d'
  -- A first login; `account` is the new one.
  signed_up :
      (email : String) (name : Option String) (user : ℕ) (username org_name : String)
      → account ≡ d.next_account
      → is_member d.next_organization d.next_account d.members ≡ false
      → d' ≡ with_signup email name user username org_name d
      → Effect account d d'
  bot_created :
      (hash : String) (org : ℕ) (name email : String)
      → IsAdmin d org account
      → (name == "") ≡ false
      → (email == "") ≡ false
      → is_member org d.next_account d.members ≡ false
      → d' ≡ with_bot hash org name email d
      → Effect account d d'
  key_created :
      (org : ℕ) (name hash : String) (role : OrgRole)
      → role_in org account d.members ≡ some role
      → (name == "") ≡ false
      → d' ≡ with_key name hash org account d
      → Effect account d d'
  key_revoked :
      (now id : ℕ) (key : ApiKeyRow)
      → get_api_key id d ≡ some key
      → is_live key.revoked_at ≡ true
      → MayManage d key.organization_id account key.account_id
      → d' ≡ record d { api_keys = revoke_key_id now id d.api_keys }
      → Effect account d d'
  invitation_created :
      (now : ℕ) (token : String) (org : ℕ) (role : OrgRole) (expires_at : Option ℕ)
      (max_uses : Option ℤ)
      → IsAdmin d org account
      → has_passed now expires_at ≡ false
      → less_than_one max_uses ≡ false
      → d' ≡ with_invitation token org role account expires_at max_uses d
      → Effect account d d'
  accepted :
      (now : ℕ) (token : String) (inv : InvitationRow)
      → find_invitation token d.invitations ≡ some inv
      → has_passed now inv.revoked_at ≡ false
      → has_passed now inv.expires_at ≡ false
      → is_used_up inv.use_count inv.max_uses ≡ false
      → is_member inv.organization_id account d.members ≡ false
      → d' ≡ with_joined inv account d
      → Effect account d d'
  -- The organization that `account` administers need not be the invitation's.
  invitation_revoked :
      (now org id : ℕ)
      → IsAdmin d org account
      → d' ≡ record d { invitations = revoke_invitation_id now id d.invitations }
      → Effect account d d'
