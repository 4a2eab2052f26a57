-- ===== src/Courier/Serve.antt =====
-- The endpoints of packages/courier/src/api/v1/me, organizations and invitations that change the
-- database, as one function on the requests of an account's session.
use hurry.Prelude.{ℕ, String}
use hurry.Courier.Request.{Request}
use hurry.Courier.Calls.{World, respond}
use hurry.Courier.Members.{
  leave, remove_member, update_role, LeaveResponse, RemoveResponse, UpdateResponse,
}
use hurry.Courier.Organizations.{
  rename, RenameResponse, create_organization, create_bot, CreateResponse, CreateBotResponse,
}
use hurry.Courier.Me.{update_me, UpdateMeResponse}
use hurry.Courier.Keys.{create_key, delete_key, CreateKeyResponse, DeleteKeyResponse}
use hurry.Courier.Invitations.Endpoints.{
  create_invitation, accept, revoke, CreateInvitationResponse, AcceptResponse, RevokeResponse,
}
pub mod Refines

-- The endpoint of a request, without its answer.
unfoldable pub serve : (String → String) → ℕ → Request → World → World
serve token_hash account (Request.leave now org) w =
    (respond LeaveResponse.error (leave now account org) w).1
serve token_hash account (Request.remove_member now org target) w =
    (respond RemoveResponse.error (remove_member now account org target) w).1
serve token_hash account (Request.update_role org target role) w =
    (respond UpdateResponse.error (update_role account org target role) w).1
serve token_hash account (Request.create_organization name) w =
    (respond CreateResponse.error (create_organization account name) w).1
serve token_hash account (Request.update_me name) w =
    (respond UpdateMeResponse.error (update_me account name) w).1
serve token_hash account (Request.rename org name) w =
    (respond RenameResponse.error (rename account org name) w).1
serve token_hash account (Request.create_bot token org name responsible_email) w =
    (respond CreateBotResponse.error
      (create_bot token_hash token account org name responsible_email) w).1
serve token_hash account (Request.create_key token org name) w =
    (respond CreateKeyResponse.error (create_key token_hash token account org name) w).1
serve token_hash account (Request.delete_key now org key) w =
    (respond DeleteKeyResponse.error (delete_key now account org key) w).1
serve token_hash account (Request.create_invitation now token org role expires_at max_uses) w =
    (respond CreateInvitationResponse.error
      (create_invitation now token account org role expires_at max_uses) w).1
serve token_hash account (Request.accept now token) w =
    (respond AcceptResponse.error (accept now account token) w).1
serve token_hash account (Request.revoke now org invitation) w =
    (respond RevokeResponse.error (revoke now account org invitation) w).1
