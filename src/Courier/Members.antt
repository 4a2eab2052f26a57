-- ===== src/Courier/Members.antt =====
-- Members of organizations: the database operations (packages/courier/src/db/member.rs,
-- `revoke_account_org_api_keys` of db/api_key.rs) and the endpoints that change memberships
-- (api/v1/organizations/leave.rs, members/remove.rs, members/update.rs). `now` is the time of the
-- statement, `account` the session's account.
pub mod Rows
use hurry.Prelude.{
  ℕ, ◌+◌, Bool, true, false, not, ◌&&◌, Option, none, some, List, [], ◌∷◌, if◌then◌else◌, nat_eq,
  String,
}
use hurry.Courier.Auth.{OrgRole, is_admin, admin, member}
use hurry.Courier.Tables.{
  Db, MemberRow, ApiKeyRow, IdentityRow, is_row, role_in, is_member, is_human_admin, human_admins,
  has_identity,
}
use hurry.Courier.Calls.{
  AuditRow, Call, pure, return, query, execute, or_return, require, log_audit_event, ◌>>=◌, ◌>>◌,
}

-- `Postgres::get_member_role`
unfoldable pub get_member_role : ℕ → ℕ → Db → Option OrgRole
unfolding role_in
get_member_role org account d = role_in org account d.members

unfoldable pub admin_row_exists : ℕ → ℕ → List IdentityRow → List MemberRow → Bool
admin_row_exists org account identities [] = false
admin_row_exists org account identities (row ∷ rows) =
    if nat_eq row.account_id account && is_human_admin org identities row
    then true
    else admin_row_exists org account identities rows

-- `Postgres::is_last_admin`
unfoldable pub is_last_admin : ℕ → ℕ → Db → Bool
unfolding admin_row_exists human_admins
is_last_admin org account d =
    admin_row_exists org account d.identities d.members
    && nat_eq (human_admins org d.identities d.members) 1

unfoldable pub without_row : ℕ → ℕ → List MemberRow → List MemberRow
without_row org account [] = []
without_row org account (row ∷ rows) =
    let rest = without_row org account rows in if is_row org account row then rest else row ∷ rest

-- `Postgres::remove_organization_member`
unfoldable pub remove_organization_member : ℕ → ℕ → Db → Option (Bool × Db)
unfolding is_member without_row
remove_organization_member org account d =
    some (is_member org account d.members, record d { members = without_row org account d.members })

unfoldable pub with_role : ℕ → ℕ → OrgRole → List MemberRow → List MemberRow
with_role org account role [] = []
with_role org account role (row ∷ rows) =
    let rest = with_role org account role rows in
    if is_row org account row then record row { role = role } ∷ rest else row ∷ rest

-- `Postgres::update_member_role`
unfoldable pub update_member_role : ℕ → ℕ → OrgRole → Db → Option (Bool × Db)
unfolding is_member with_role
update_member_role org account role d =
    some
      (is_member org account d.members, record d { members = with_role org account role d.members })

-- `revoked_at IS NULL`
abbrev pub is_live : Option ℕ → Bool
is_live none = true
is_live (some t) = false

abbrev pub is_key_of : ℕ → ℕ → ApiKeyRow → Bool
is_key_of account org key =
    nat_eq key.account_id account && (nat_eq key.organization_id org && is_live key.revoked_at)

unfoldable pub live_keys : ℕ → ℕ → List ApiKeyRow → ℕ
live_keys account org [] = 0
live_keys account org (key ∷ keys) =
    (if is_key_of account org key then 1 else 0) + live_keys account org keys

unfoldable pub revoke_keys : ℕ → ℕ → ℕ → List ApiKeyRow → List ApiKeyRow
revoke_keys now account org [] = []
revoke_keys now account org (key ∷ keys) =
    (if is_key_of account org key then record key { revoked_at = some now } else key)
    ∷ revoke_keys now account org keys

-- `Postgres::revoke_account_org_api_keys`
unfoldable pub revoke_account_org_api_keys : ℕ → ℕ → ℕ → Db → Option (ℕ × Db)
unfolding live_keys revoke_keys
revoke_account_org_api_keys now account org d = some (
  live_keys account org d.api_keys,
  record d { api_keys = revoke_keys now account org d.api_keys },
)

-- `match db.get_member_role(..) { Ok(Some(role)) if role.is_admin() => {} .. }`
unfoldable pub require_admin : {R : Type 0} → ℕ → ℕ → R → Call R (Unit {0})
require_admin org account forbidden = do
  found ← query (get_member_role org account)
  role ← or_return found forbidden
  require (is_admin role) forbidden

-- `if loses { match db.is_last_admin(..) { Ok(true) => return Response::LastAdmin, .. } }`
unfoldable pub refuse_last_admin : {R : Type 0} → Bool → ℕ → ℕ → R → Call R (Unit {0})
refuse_last_admin loses org account last_admin =
    if loses
    then (do last ← query (is_last_admin org account); require (not last) last_admin)
    else pure tt

abbrev pub event : ℕ → ℕ → String → AuditRow
event account org action = record {
  account_id = some account;
  organization_id = some org;
  action = action;
}

-- `Response` of leave.rs
pub data LeaveResponse : Type 0 where
  success last_admin not_found error : LeaveResponse

-- leave.rs, up to the check for the last administrator
unfoldable pub leave_checks : ℕ → ℕ → Call LeaveResponse (Unit {0})
leave_checks account org = do
  found ← query (get_member_role org account)
  role ← or_return found LeaveResponse.not_found
  refuse_last_admin (is_admin role) org account LeaveResponse.last_admin

-- leave.rs, the writes
unfoldable pub leave_writes : ℕ → ℕ → ℕ → Call LeaveResponse LeaveResponse
leave_writes now account org = do
  keys_revoked ← execute (revoke_account_org_api_keys now account org)
  removed ← execute (remove_organization_member org account)
  require removed LeaveResponse.not_found
  log_audit_event (event account org "organization.member.left")
  pure LeaveResponse.success

-- leave.rs
unfoldable pub leave : ℕ → ℕ → ℕ → Call LeaveResponse LeaveResponse
leave now account org = leave_checks account org >> leave_writes now account org

-- `Response` of members/remove.rs
pub data RemoveResponse : Type 0 where
  success cannot_remove_self last_admin forbidden not_found error : RemoveResponse

-- members/remove.rs
unfoldable pub remove_member : ℕ → ℕ → ℕ → ℕ → Call RemoveResponse RemoveResponse
remove_member now account org target = do
  require (not (nat_eq account target)) RemoveResponse.cannot_remove_self
  require_admin org account RemoveResponse.forbidden
  found ← query (get_member_role org target)
  role ← or_return found RemoveResponse.not_found
  refuse_last_admin (is_admin role) org target RemoveResponse.last_admin
  keys_revoked ← execute (revoke_account_org_api_keys now target org)
  removed ← execute (remove_organization_member org target)
  require removed RemoveResponse.not_found
  log_audit_event (event account org "organization.member.removed")
  pure RemoveResponse.success

-- `Response` of members/update.rs
pub data UpdateResponse : Type 0 where
  success last_admin forbidden not_found error : UpdateResponse

-- members/update.rs
unfoldable pub update_role : ℕ → ℕ → ℕ → OrgRole → Call UpdateResponse UpdateResponse
update_role account org target requested = do
  require_admin org account UpdateResponse.forbidden
  found ← query (get_member_role org target)
  current_role ← or_return found UpdateResponse.not_found
  refuse_last_admin (is_admin current_role && not (is_admin requested)) org target
      UpdateResponse.last_admin
  updated ← execute (update_member_role org target requested)
  require updated UpdateResponse.not_found
  log_audit_event (event account org "organization.member.role_updated")
  pure UpdateResponse.success
