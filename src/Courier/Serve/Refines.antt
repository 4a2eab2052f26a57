-- ===== src/Courier/Serve/Refines.antt =====
-- The endpoints of packages/courier/src/api/v1/me, organizations and invitations do what `Effect`
-- allows, whichever of their calls fail.
mod Members
use hurry.Prelude.{
  ℕ, String, ◌==◌, Bool, true, false, not, ◌&&◌, ◌||◌, Option, none, some, ◌≡◌, refl, sym, ap, ◌∙◌,
  subst, ◌⊎◌, inl, inr, arith, Bool-cases, nat_eq, if◌then◌else◌,
}
use hurry.Courier.Auth.{OrgRole, is_admin, admin, member, trim}
use hurry.Courier.Tables.{Db, ℤ, ApiKeyRow, role_in, insert_key}
use hurry.Courier.Calls.{
  log_audit_event, World, Call, query, execute, require, or_return, pure, ◌>>=◌, ◌>>◌, respond,
}
use hurry.Courier.Calls.Leads.{
  Leads, stay, if-Leads, query-Leads, update-Leads, execute-Leads, or_return-Leads, require-Leads,
  log-Leads, respond-Leads, bind-Leads,
}
use hurry.Courier.Members.{
  get_member_role, is_last_admin, require_admin, refuse_last_admin, remove_organization_member,
  update_member_role, revoke_account_org_api_keys, leave, leave_checks, leave_writes, remove_member,
  update_role, event, LeaveResponse, RemoveResponse, UpdateResponse,
}
use hurry.Courier.Organizations.{
  rename, rename_organization, RenameResponse, create_organization, create_bot, CreateResponse,
  CreateBotResponse, create_organization_with_admin, create_bot_account,
}
use hurry.Courier.Keys.{
  create_key, delete_key, CreateKeyResponse, DeleteKeyResponse, get_api_key, revoke_api_key,
}
use hurry.Courier.Invitations.{
  create_invitation_row, accept_invitation, AcceptInvitationResult, revoke_invitation,
}
use hurry.Courier.Invitations.Endpoints.{
  create_invitation, accept, accept_response, revoke, CreateInvitationResponse, AcceptResponse,
  RevokeResponse, long_lived,
}
use hurry.Courier.Effect.{
  organization_renamed, account_named, is_nothing, Effect, nothing, keys_revoked, member_removed,
  role_set, organization_created, bot_created, key_created, key_revoked, invitation_created,
  accepted, invitation_revoked, MayManage, IsAdmin,
}
use hurry.Courier.Created.{
  create_organization_lem, create_bot_lem, insert_key_lem, create_invitation_lem, accept_lem,
  join_lem,
}
use hurry.Courier.Me.{
  update_me, update_account_name, UpdateMeResponse, name_updated, is_blank, trimmed_name,
}
use hurry.Courier.Request.{Request}
use hurry.Courier.Serve.{serve}
use hurry.Courier.Serve.Refines.Members.{
  is_admin-admin, not-false, require_admin-Leads, refuse-Leads, leave-Leads, remove_member-Leads,
  update_role-Leads,
}

module _ (account : ℕ) (d : Db) where
  abbrev E : Db → Type 0
  E = Effect account d

  same : E d
  same = nothing refl

  pub create_organization-Leads : (name : String) → Leads E d (create_organization account name)
  unfolding create_organization
  create_organization-Leads name = require-Leads E d _ _ CreateResponse.empty_name same (λ full.
      execute-Leads E d _ same (create_organization_with_admin name account) (λ org d' e.
        log-Leads E d' _ (event account org "organization.created") (
          let (fresh, made) = create_organization_lem name account d org d' e in
          stay E d' (organization_created name (not-false _ full) fresh made))))

  pub update_me-Leads : (name : Option String) → Leads E d (update_me account name)
  unfolding update_me update_account_name ◌>>◌
  update_me-Leads name = require-Leads E d _ _ UpdateMeResponse.empty_name same (λ full.
      let done = account_named (trimmed_name name) (named name full) refl in
      update-Leads E d _ same (update_account_name account (trimmed_name name)) refl
        (log-Leads E _ _ (name_updated account) (stay E _ done)))
    where
      named :
          (name : Option String)
          → not (is_blank name) ≡ true
          → is_nothing (trimmed_name name) ≡ false
      named none full = refl
      named (some name) full = not-false _ full

  pub rename-Leads : (org : ℕ) (name : String) → Leads E d (rename account org name)
  unfolding rename rename_organization
  rename-Leads org name = require-Leads E d _ _ RenameResponse.empty_name same (λ full.
      require_admin-Leads E d _ same org account RenameResponse.forbidden (λ may.
        let done = organization_renamed org (trim name) may (not-false _ full) refl in
        update-Leads E d _ same (rename_organization org (trim name)) refl (
          require-Leads E _ _ _ RenameResponse.not_found done
            (λ _. log-Leads E _ _ (event account org "organization.renamed") (stay E _ done)))))

  pub create_bot-Leads :
      (token_hash : String → String) (token : String) (org : ℕ) (name email : String)
      → Leads E d (create_bot token_hash token account org name email)
  unfolding create_bot
  create_bot-Leads token_hash token org name email =
      require_admin-Leads E d _ same org account CreateBotResponse.forbidden (λ may.
        require-Leads E d _ _ CreateBotResponse.empty_name same (λ named.
          require-Leads E d _ _ CreateBotResponse.empty_email same (λ reachable.
            execute-Leads E d _ same
              (create_bot_account token_hash token org (trim name) (trim email))
              (λ bot d' e. log-Leads E d' _ (event account org "bot.created") (
                let (fresh, made) =
                  create_bot_lem token_hash token org (trim name) (trim email) d bot d' e in
                stay E d' (
                  bot_created (token_hash token) org (trim name) (trim email) may
                    (not-false _ named) (not-false _ reachable) fresh made))))))

  pub create_key-Leads :
      (token_hash : String → String) (token : String) (org : ℕ) (name : String)
      → Leads E d (create_key token_hash token account org name)
  unfolding create_key get_member_role
  create_key-Leads token_hash token org name =
      query-Leads E d _ same (get_member_role org account) (
        or_return-Leads E d _ same (get_member_role org account d) CreateKeyResponse.forbidden
          (λ role found. require-Leads E d _ _ CreateKeyResponse.empty_name same (λ full.
            execute-Leads E d _ same (insert_key account (trim name) (token_hash token) org)
              (λ id d' e.
                let done =
                  key_created org (trim name) (token_hash token) role found (not-false _ full)
                    (insert_key_lem account (trim name) (token_hash token) org d id d' e) in
                log-Leads E d' _ (event account org "api_key.created") (
                  query-Leads E d' _ done (get_api_key id) (
                    or_return-Leads E d' _ done (get_api_key id d') CreateKeyResponse.error
                      (λ key q. stay E d' done)))))))

  pub delete_key-Leads : (now org id : ℕ) → Leads E d (delete_key now account org id)
  unfolding delete_key get_member_role revoke_api_key
  delete_key-Leads now org id = query-Leads E d _ same (get_member_role org account) (
      or_return-Leads E d _ same (get_member_role org account d) DeleteKeyResponse.forbidden
        (λ role found. query-Leads E d _ same (get_api_key id) (
          or_return-Leads E d _ same (get_api_key id d) DeleteKeyResponse.not_found (λ key stored.
            require-Leads E d _ _ DeleteKeyResponse.not_found same (λ in_org.
              require-Leads E d _ _ DeleteKeyResponse.not_found same (λ live.
                require-Leads E d _ _ DeleteKeyResponse.forbidden same (λ allowed.
                  let done =
                    key_revoked now id key stored live (owner key role in_org allowed found) refl in
                  update-Leads E d _ same (revoke_api_key now id) refl (
                    require-Leads E _ _ _ DeleteKeyResponse.not_found done (λ _.
                      log-Leads E _ _ (event account org "api_key.revoked") (stay E _ done))))))))))
    where
      owner :
          (key : ApiKeyRow) (role : OrgRole)
          → nat_eq key.organization_id org ≡ true
          → (nat_eq key.account_id account || is_admin role) ≡ true
          → role_in org account d.members ≡ some role
          → MayManage d key.organization_id account key.account_id
      owner key role o h r = elim (Bool-cases (nat_eq key.account_id account)) [
        | inl own ↦ inl (ground arith)
        | inr other ↦ inr (
            subst (λ x. role_in x account d.members ≡ some admin) (ground arith)
              (r ∙ ap some (is_admin-admin role (ground arith))))
      ]

  pub create_invitation-Leads :
      (now : ℕ) (token : Bool → String) (org : ℕ) (role : OrgRole) (expires_at : Option ℕ)
      (max_uses : Option ℤ)
      → Leads E d (create_invitation now token account org role expires_at max_uses)
  unfolding create_invitation
  create_invitation-Leads now token org role expires_at max_uses =
      require_admin-Leads E d _ same org account CreateInvitationResponse.forbidden (λ may.
        require-Leads E d _ _ CreateInvitationResponse.expires_at_in_the_past same (λ ahead.
          require-Leads E d _ _ CreateInvitationResponse.max_uses_less_than_one same (λ enough.
            execute-Leads E d _ same
              (create_invitation_row org (token (long_lived now expires_at)) role account expires_at
                max_uses)
              (λ id d' e. log-Leads E d' _ (event account org "invitation.created") (
                stay E d' (
                  invitation_created now _ org role expires_at max_uses may (not-false _ ahead)
                    (not-false _ enough)
                    (create_invitation_lem org _ role account expires_at max_uses d id d' e)))))))

  pub accept-Leads : (now : ℕ) (token : String) → Leads E d (accept now account token)
  unfolding accept accept_response ◌>>◌
  accept-Leads now token =
      execute-Leads E d _ same (accept_invitation now token account)
        (λ result d' e. answered d' (done d' result e) result)
    where
      done :
          (d' : Db) (result : AcceptInvitationResult)
          → accept_invitation now token account d ≡ some (result, d')
          → E d'
      done d' result e = elim (accept_lem now token account d d' result e) [
        | inl kept ↦ nothing kept
        | inr (inv, found, a) ↦
            let (fresh, joined) = join_lem inv account d d' a.joins in
            accepted now token inv found a.unrevoked a.in_time a.free fresh joined
      ]

      answered :
          (d' : Db)
          → E d'
          → (result : AcceptInvitationResult) → Leads E d' (accept_response account result)
      answered d' done (AcceptInvitationResult.success org role) =
          log-Leads E d' _ (event account org "invitation.accepted") (stay E d' done)
      answered d' done AcceptInvitationResult.not_found = stay E d' done
      answered d' done AcceptInvitationResult.revoked = stay E d' done
      answered d' done AcceptInvitationResult.expired = stay E d' done
      answered d' done AcceptInvitationResult.max_uses_reached = stay E d' done
      answered d' done AcceptInvitationResult.already_member = stay E d' done

  pub revoke-Leads : (now org id : ℕ) → Leads E d (revoke now account org id)
  unfolding revoke revoke_invitation
  revoke-Leads now org id =
      require_admin-Leads E d _ same org account RevokeResponse.forbidden (λ may.
        let done = invitation_revoked now org id may refl in
        update-Leads E d _ same (revoke_invitation now id) refl (
          require-Leads E _ _ _ RevokeResponse.not_found done
            (λ _. log-Leads E _ _ (event account org "invitation.revoked") (stay E _ done))))

-- Whatever a session asks of the endpoints of profiles, organizations, members, bots, keys and
-- invitations, and whichever calls to the database fail: what the endpoint does to the database is
-- nothing, or one of the changes of rows that `Effect` lists, on the facts that it asks for.
pub serve-Effect :
    (token_hash : String → String) (account : ℕ) (r : Request) (w : World)
    → Effect account w.db (serve token_hash account r w).db
unfolding serve
serve-Effect h a (Request.leave now org) w =
    respond-Leads (Effect a w.db) w.db _ _ (leave-Leads a w.db now org) w refl
serve-Effect h a (Request.remove_member now org target) w =
    respond-Leads (Effect a w.db) w.db _ _ (remove_member-Leads a w.db now org target) w refl
serve-Effect h a (Request.update_role org target role) w =
    respond-Leads (Effect a w.db) w.db _ _ (update_role-Leads a w.db org target role) w refl
serve-Effect h a (Request.create_organization name) w =
    respond-Leads (Effect a w.db) w.db _ _ (create_organization-Leads a w.db name) w refl
serve-Effect h a (Request.update_me name) w =
    respond-Leads (Effect a w.db) w.db _ _ (update_me-Leads a w.db name) w refl
serve-Effect h a (Request.rename org name) w =
    respond-Leads (Effect a w.db) w.db _ _ (rename-Leads a w.db org name) w refl
serve-Effect h a (Request.create_bot token org name email) w =
    respond-Leads (Effect a w.db) w.db _ _ (create_bot-Leads a w.db h token org name email) w refl
serve-Effect h a (Request.create_key token org name) w =
    respond-Leads (Effect a w.db) w.db _ _ (create_key-Leads a w.db h token org name) w refl
serve-Effect h a (Request.delete_key now org id) w =
    respond-Leads (Effect a w.db) w.db _ _ (delete_key-Leads a w.db now org id) w refl
serve-Effect h a (Request.create_invitation now token org role expires_at max_uses) w =
    respond-Leads (Effect a w.db) w.db _ _
      (create_invitation-Leads a w.db now token org role expires_at max_uses) w refl
serve-Effect h a (Request.accept now token) w =
    respond-Leads (Effect a w.db) w.db _ _ (accept-Leads a w.db now token) w refl
serve-Effect h a (Request.revoke now org id) w =
    respond-Leads (Effect a w.db) w.db _ _ (revoke-Leads a w.db now org id) w refl
