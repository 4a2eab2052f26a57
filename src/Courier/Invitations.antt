-- ===== src/Courier/Invitations.antt =====
-- Invitations: the database operations (packages/courier/src/db/invitation.rs).
pub mod Endpoints
pub mod Laws
use hurry.Prelude.{
  ℕ, ◌+◌, ◌^◌, String, ◌==◌, Bool, true, false, not, ◌&&◌, ◌||◌, Option, none, some, List, [], ◌∷◌,
  if◌then◌else◌, nat_eq, leb, ltb,
}
use hurry.Courier.Auth.{OrgRole}
use hurry.Courier.Tables.{
  Db, ℤ, pos, negsuc, InvitationRow, RedemptionRow, OrganizationRow, is_member, insert_member,
  organization_exists, account_exists,
}
use hurry.Courier.Calls.{
  Call, pure, query, execute, or_return, require, log_audit_event, ◌>>=◌, ◌>>◌,
}
use hurry.Courier.Members.{is_live, require_admin, event}

unfoldable pub find_invitation : String → List InvitationRow → Option InvitationRow
find_invitation token [] = none
find_invitation token (row ∷ rows) =
    if row.token == token then some row else find_invitation token rows

unfoldable pub token_exists : String → List InvitationRow → Bool
token_exists token [] = false
token_exists token (row ∷ rows) = row.token == token || token_exists token rows

-- `Postgres::create_invitation`, with the table's unique token and foreign keys
unfoldable pub create_invitation_row :
    ℕ → String → OrgRole → ℕ → Option ℕ → Option ℤ → Db → Option (ℕ × Db)
unfolding token_exists organization_exists account_exists
create_invitation_row org token role created_by expires_at max_uses d =
    if organization_exists org d.organizations
      && (account_exists created_by d.accounts && not (token_exists token d.invitations))
    then some (
      d.next_invitation,
      record d {
        invitations =
            record {
              id = d.next_invitation;
              organization_id = org;
              token = token;
              role = role;
              created_by = created_by;
              expires_at = expires_at;
              max_uses = max_uses;
              use_count = 0;
              revoked_at = none;
            }
            ∷ d.invitations;
        next_invitation = d.next_invitation + 1;
      },
    )
    else none

-- `AcceptInvitationResult`
pub data AcceptInvitationResult : Type 0 where
  success : ℕ → OrgRole → AcceptInvitationResult
  not_found revoked expired max_uses_reached already_member : AcceptInvitationResult

-- `o.is_some_and(|t| t <= now)`
abbrev pub has_passed : ℕ → Option ℕ → Bool
has_passed now none = false
has_passed now (some t) = leb t now

-- `use_count >= max`
abbrev pub at_least : ℕ → ℤ → Bool
at_least n (pos m) = leb m n
at_least n (negsuc m) = true

-- `max_uses.is_some_and(|used| use_count >= used)`
abbrev pub is_used_up : ℕ → Option ℤ → Bool
is_used_up n none = false
is_used_up n (some m) = at_least n m

unfoldable pub is_redeemed : ℕ → ℕ → List RedemptionRow → Bool
is_redeemed invitation account [] = false
is_redeemed invitation account (row ∷ rows) =
    (nat_eq row.invitation_id invitation && nat_eq row.account_id account)
    || is_redeemed invitation account rows

-- `SET use_count = use_count + 1 WHERE id = $1`
unfoldable pub increment : ℕ → List InvitationRow → List InvitationRow
increment id [] = []
increment id (row ∷ rows) =
    (if nat_eq row.id id then record row { use_count = row.use_count + 1 } else row)
    ∷ increment id rows

-- `INSERT INTO invitation_redemption`, with its unique pair
unfoldable pub redeem : ℕ → ℕ → Db → Option Db
unfolding is_redeemed
redeem invitation account d =
    if is_redeemed invitation account d.redemptions
    then none
    else some (record d {
      redemptions = record { invitation_id = invitation; account_id = account } ∷ d.redemptions;
    })

-- What the transaction of `accept_invitation` writes, from the increment on. An `INT` that would
-- overflow is an error.
unfoldable pub join : InvitationRow → ℕ → Db → Option Db
unfolding increment insert_member redeem
join inv account d =
    if ltb (inv.use_count + 1) (2 ^ 31)
    then (elim (insert_member
        (record { organization_id = inv.organization_id; account_id = account; role = inv.role })
        (record d { invitations = increment inv.id d.invitations })) [
          | none ↦ none
          | some d' ↦ redeem inv.id account d'
        ])
    else none

abbrev pub joined : InvitationRow → Option Db → Option (AcceptInvitationResult × Db)
joined inv none = none
joined inv (some d) = some (AcceptInvitationResult.success inv.organization_id inv.role, d)

-- The checks of `accept_invitation` on the invitation that it found, and what follows them.
unfoldable pub accept_found : ℕ → InvitationRow → ℕ → Db → Option (AcceptInvitationResult × Db)
unfolding is_member join
accept_found now inv account d =
    if has_passed now inv.revoked_at
    then some (AcceptInvitationResult.revoked, d)
    else if has_passed now inv.expires_at
    then some (AcceptInvitationResult.expired, d)
    else if is_used_up inv.use_count inv.max_uses
    then some (AcceptInvitationResult.max_uses_reached, d)
    else if is_member inv.organization_id account d.members
    then some (AcceptInvitationResult.already_member, d)
    else joined inv (join inv account d)

-- `Postgres::accept_invitation`
unfoldable pub accept_invitation : ℕ → String → ℕ → Db → Option (AcceptInvitationResult × Db)
unfolding find_invitation accept_found
accept_invitation now token account d = elim (find_invitation token d.invitations) [
  | none ↦ some (AcceptInvitationResult.not_found, d)
  | some inv ↦ accept_found now inv account d
]

unfoldable pub revoke_invitation_id : ℕ → ℕ → List InvitationRow → List InvitationRow
revoke_invitation_id now id [] = []
revoke_invitation_id now id (row ∷ rows) =
    (if nat_eq row.id id && is_live row.revoked_at
      then record row { revoked_at = some now }
      else row)
    ∷ revoke_invitation_id now id rows

unfoldable pub live_invitation_exists : ℕ → List InvitationRow → Bool
live_invitation_exists id [] = false
live_invitation_exists id (row ∷ rows) =
    (nat_eq row.id id && is_live row.revoked_at) || live_invitation_exists id rows

-- `Postgres::revoke_invitation`
unfoldable pub revoke_invitation : ℕ → ℕ → Db → Option (Bool × Db)
unfolding live_invitation_exists revoke_invitation_id
revoke_invitation now id d = some (
  live_invitation_exists id d.invitations,
  record d { invitations = revoke_invitation_id now id d.invitations },
)

-- `expires_at.is_none_or(|exp| exp > now)`
abbrev pub not_expired : ℕ → Option ℕ → Bool
not_expired now none = true
not_expired now (some expires) = ltb now expires

-- `max_uses.is_none_or(|max| use_count < max)`
abbrev pub has_uses : ℕ → Option ℤ → Bool
has_uses n none = true
has_uses n (some (pos max)) = ltb n max
has_uses n (some (negsuc max)) = false

-- `valid` of `Postgres::get_invitation_preview`
unfoldable pub preview_valid : ℕ → InvitationRow → Bool
preview_valid now inv =
    is_live inv.revoked_at
    && (not_expired now inv.expires_at && has_uses inv.use_count inv.max_uses)

-- `InvitationPreview`
pub record InvitationPreview : Type 0 where
  pub organization_name : String
  pub role : OrgRole
  pub expires_at : Option ℕ
  pub valid : Bool

unfoldable pub organization_name_of : ℕ → List OrganizationRow → Option String
organization_name_of org [] = none
organization_name_of org (row ∷ rows) =
    if nat_eq row.id org then some row.name else organization_name_of org rows

-- `Postgres::get_invitation_preview`, where the query joins the organization
unfoldable pub get_invitation_preview : ℕ → String → Db → Option InvitationPreview
unfolding find_invitation organization_name_of preview_valid
get_invitation_preview now token d = elim (find_invitation token d.invitations) [
  | none ↦ none
  | some inv ↦ elim (organization_name_of inv.organization_id d.organizations) [
    | none ↦ none
    | some name ↦ some (record {
      organization_name = name;
      role = inv.role;
      expires_at = inv.expires_at;
      valid = preview_valid now inv;
    })
  ]
]
