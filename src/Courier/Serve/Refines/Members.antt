-- ===== src/Courier/Serve/Refines/Members.antt =====
-- The endpoints that change memberships (packages/courier/src/api/v1/organizations/leave.rs,
-- members/remove.rs, members/update.rs) do what `Effect` allows.
use hurry.Prelude.{ℕ, String, Bool, true, false, not, ◌&&◌, some, ◌≡◌, refl, ap, ◌∙◌, inl, inr}
use hurry.Courier.Auth.{OrgRole, is_admin, admin, member}
use hurry.Courier.Tables.{Db, role_in}
use hurry.Courier.Calls.{
  log_audit_event, Call, query, execute, require, or_return, pure, ◌>>=◌, ◌>>◌,
}
use hurry.Courier.Calls.Leads.{
  Leads, stay, query-Leads, update-Leads, or_return-Leads, require-Leads, log-Leads, bind-Leads,
}
use hurry.Courier.Members.{
  get_member_role, is_last_admin, require_admin, refuse_last_admin, remove_organization_member,
  update_member_role, revoke_account_org_api_keys, leave, leave_checks, leave_writes, remove_member,
  update_role, event, LeaveResponse, RemoveResponse, UpdateResponse,
}
use hurry.Courier.Effect.{
  Effect, nothing, keys_revoked, member_removed, role_set, MayManage, IsAdmin,
}

pub is_admin-admin : (role : OrgRole) → is_admin role ≡ true → role ≡ admin
is_admin-admin member h = cc
is_admin-admin admin h = refl

pub not-false : (b : Bool) → not b ≡ true → b ≡ false
not-false true h = cc
not-false false h = refl

module _ (P : Db → Type 0) (d : Db) {R : Type 0} (next : Call R R) (stays : P d) where
  pub require_admin-Leads :
      (org account : ℕ) (forbidden : R)
      → (IsAdmin d org account → Leads P d next)
      → Leads P d (require_admin org account forbidden >> next)
  unfolding require_admin get_member_role ◌>>◌
  require_admin-Leads org account forbidden h =
      bind-Leads P d (query (get_member_role org account)) _ (λ _. next)
        (query-Leads P d _ stays (get_member_role org account) (
          bind-Leads P d (or_return (get_member_role org account d) forbidden)
            (λ role. require (is_admin role) forbidden) (λ _. next)
            (or_return-Leads P d _ stays (get_member_role org account d) forbidden (λ role found.
              require-Leads P d next (is_admin role) forbidden stays
                (λ is. h (found ∙ ap some (is_admin-admin role is)))))))

  pub refuse-Leads :
      (loses : Bool) (org account : ℕ) (last_admin : R)
      → ((loses ≡ true → is_last_admin org account d ≡ false) → Leads P d next)
      → Leads P d (refuse_last_admin loses org account last_admin >> next)
  unfolding refuse_last_admin ◌>>◌
  refuse-Leads true org account last_admin h =
      bind-Leads P d (query (is_last_admin org account)) (λ last. require (not last) last_admin)
        (λ _. next)
        (query-Leads P d _ stays (is_last_admin org account)
          (require-Leads P d next _ last_admin stays (λ e. h (λ _. not-false _ e))))
  refuse-Leads false org account last_admin h = h (λ e. cc)

module _ (account : ℕ) (d : Db) where
  abbrev E : Db → Type 0
  E = Effect account d

  same : E d
  same = nothing refl

  out-Leads :
      {R : Type 0} (now org target : ℕ) (role : OrgRole) (action : String) (not_found success : R)
      → MayManage d org account target
      → role_in org target d.members ≡ some role
      → (is_admin role ≡ true → is_last_admin org target d ≡ false)
      → Leads E d (do
        count ← execute (revoke_account_org_api_keys now target org)
        removed ← execute (remove_organization_member org target)
        require removed not_found
        log_audit_event (event account org action)
        pure success)
  unfolding revoke_account_org_api_keys remove_organization_member
  out-Leads now org target role action not_found success may found last =
      let done = member_removed now org target role may found last refl in
      update-Leads E d _ same (revoke_account_org_api_keys now target org) refl (
        update-Leads E _ _ (keys_revoked now org target may refl)
          (remove_organization_member org target) refl
          (require-Leads E _ _ _ not_found done
            (λ _. log-Leads E _ _ (event account org action) (stay E _ done))))

  pub leave-Leads : (now org : ℕ) → Leads E d (leave now account org)
  unfolding leave leave_checks leave_writes get_member_role ◌>>◌
  leave-Leads now org =
      let next : Call LeaveResponse LeaveResponse = leave_writes now account org in
      bind-Leads E d (query (get_member_role org account)) _ (λ _. next)
        (query-Leads E d _ same (get_member_role org account) (
          bind-Leads E d (or_return (get_member_role org account d) LeaveResponse.not_found)
            (λ role. refuse_last_admin (is_admin role) org account LeaveResponse.last_admin)
            (λ _. next)
            (or_return-Leads E d _ same (get_member_role org account d) LeaveResponse.not_found
              (λ role found.
                refuse-Leads E d next same (is_admin role) org account LeaveResponse.last_admin
                  (λ last. out-Leads now org account role _ _ _ (inl refl) found last)))))

  pub remove_member-Leads : (now org target : ℕ) → Leads E d (remove_member now account org target)
  unfolding remove_member get_member_role
  remove_member-Leads now org target =
      require-Leads E d _ _ RemoveResponse.cannot_remove_self same (λ _.
        require_admin-Leads E d _ same org account RemoveResponse.forbidden (λ may.
          query-Leads E d _ same (get_member_role org target) (
            or_return-Leads E d _ same (get_member_role org target d) RemoveResponse.not_found
              (λ role found.
                refuse-Leads E d _ same (is_admin role) org target RemoveResponse.last_admin
                  (λ last. out-Leads now org target role _ _ _ (inr may) found last)))))

  pub update_role-Leads :
      (org target : ℕ) (requested : OrgRole) → Leads E d (update_role account org target requested)
  unfolding update_role get_member_role update_member_role
  update_role-Leads org target requested =
      require_admin-Leads E d _ same org account UpdateResponse.forbidden (λ may.
        query-Leads E d _ same (get_member_role org target) (
          or_return-Leads E d _ same (get_member_role org target d) UpdateResponse.not_found
            (λ role found.
              refuse-Leads E d _ same (is_admin role && not (is_admin requested)) org target
                UpdateResponse.last_admin
                (λ last.
                  let done = role_set org target role requested may found last refl in
                  update-Leads E d _ same (update_member_role org target requested) refl (
                    require-Leads E _ _ _ UpdateResponse.not_found done (λ _.
                      log-Leads E _ _ (event account org "organization.member.role_updated")
                        (stay E _ done)))))))
