-- ===== src/Courier/Invitations/Endpoints.antt =====
-- The endpoints of invitations: packages/courier/src/api/v1/invitations/create.rs, accept.rs and
-- revoke.rs. The generated token is an argument.
use hurry.Prelude.{ℕ, ◌+◌, String, Bool, true, false, not, Option, none, some, ltb}
use hurry.Courier.Auth.{OrgRole}
use hurry.Courier.Tables.{ℤ, pos, negsuc}
use hurry.Courier.Calls.{Call, pure, execute, require, log_audit_event, ◌>>=◌, ◌>>◌}
use hurry.Courier.Members.{require_admin, event}
use hurry.Courier.Invitations.{
  create_invitation_row, AcceptInvitationResult, has_passed, accept_invitation, revoke_invitation,
}

-- `Response` of invitations/create.rs, with the invitation's id
pub data CreateInvitationResponse : Type 0 where
  created : ℕ → CreateInvitationResponse
  expires_at_in_the_past max_uses_less_than_one forbidden error : CreateInvitationResponse

-- `max < 1`
abbrev pub less_than_one : Option ℤ → Bool
less_than_one none = false
less_than_one (some (pos m)) = ltb m 1
less_than_one (some (negsuc m)) = true

-- more than `LONG_LIVED_THRESHOLD`, seven days, from now
abbrev pub long_lived : ℕ → Option ℕ → Bool
long_lived now none = true
long_lived now (some expires) = ltb (now + 604800) expires

-- invitations/create.rs; `token` makes a long-lived token from `true`, and a short one from `false`.
unfoldable pub create_invitation :
    ℕ
    → (Bool → String)
    → ℕ
    → ℕ
    → OrgRole
    → Option ℕ
    → Option ℤ
    → Call CreateInvitationResponse CreateInvitationResponse
create_invitation now token account org role expires_at max_uses = do
  require_admin org account CreateInvitationResponse.forbidden
  require (not (has_passed now expires_at)) CreateInvitationResponse.expires_at_in_the_past
  require (not (less_than_one max_uses)) CreateInvitationResponse.max_uses_less_than_one
  invitation_id ← execute (
      create_invitation_row org (token (long_lived now expires_at)) role account expires_at
        max_uses)
  log_audit_event (event account org "invitation.created")
  pure (CreateInvitationResponse.created invitation_id)

-- `Response` of invitations/accept.rs
pub data AcceptResponse : Type 0 where
  success : ℕ → OrgRole → AcceptResponse
  revoked expired max_uses_reached not_found conflict error : AcceptResponse

-- The arms of accept.rs.
unfoldable pub accept_response : ℕ → AcceptInvitationResult → Call AcceptResponse AcceptResponse
accept_response account (AcceptInvitationResult.success org role) = do
  log_audit_event (event account org "invitation.accepted")
  pure (AcceptResponse.success org role)
accept_response account AcceptInvitationResult.not_found = pure AcceptResponse.not_found
accept_response account AcceptInvitationResult.revoked = pure AcceptResponse.revoked
accept_response account AcceptInvitationResult.expired = pure AcceptResponse.expired
accept_response account AcceptInvitationResult.max_uses_reached =
    pure AcceptResponse.max_uses_reached
accept_response account AcceptInvitationResult.already_member = pure AcceptResponse.conflict

-- invitations/accept.rs
unfoldable pub accept : ℕ → ℕ → String → Call AcceptResponse AcceptResponse
accept now account token = execute (accept_invitation now token account) >>= accept_response account

-- `Response` of invitations/revoke.rs
pub data RevokeResponse : Type 0 where
  success forbidden not_found error : RevokeResponse

-- invitations/revoke.rs
unfoldable pub revoke : ℕ → ℕ → ℕ → ℕ → Call RevokeResponse RevokeResponse
revoke now account org invitation_id = do
  require_admin org account RevokeResponse.forbidden
  found ← execute (revoke_invitation now invitation_id)
  require found RevokeResponse.not_found
  log_audit_event (event account org "invitation.revoked")
  pure RevokeResponse.success
