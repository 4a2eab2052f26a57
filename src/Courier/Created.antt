-- ===== src/Courier/Created.antt =====
-- What the transactions of packages/courier/src/db/organization.rs, account.rs, bot_account.rs and
-- invitation.rs leave when they succeed.
use hurry.Prelude.{ℕ, String, false, Option, some, ◌∷◌, ◌≡◌, ◌⊎◌, inl, inr, Option-cases, arith}
use hurry.Courier.Auth.{OrgRole}
use hurry.Courier.Tables.{
  Db, ℤ, InvitationRow, MemberRow, is_member, insert_member, insert_organization, insert_account,
  insert_identity, insert_key,
}
use hurry.Courier.Effect.{
  with_founded, with_signup, with_key, with_bot, with_invitation, with_joined,
}
use hurry.Courier.Invitations.{
  has_passed, create_invitation_row, join, redeem, accept_invitation, accept_found, find_invitation,
  is_used_up, AcceptInvitationResult,
}
use hurry.Courier.Organizations.{
  create_organization_with_admin, signup_with_github, create_bot_account,
}

pub insert_member_lem :
    (row : MemberRow) (d d' : Db)
    → insert_member row d ≡ some d'
    → (d' ≡ record d { members = row ∷ d.members })
      × (is_member row.organization_id row.account_id d.members ≡ false)
unfolding insert_member
insert_member_lem row d d' h = ground arith

pub insert_key_lem :
    (account : ℕ) (name hash : String) (org : ℕ) (d : Db) (id : ℕ) (d' : Db)
    → insert_key account name hash org d ≡ some (id, d')
    → d' ≡ with_key name hash org account d
unfolding insert_key
insert_key_lem account name hash org d id d' h = ground arith

-- The tables after each transaction.
pub create_organization_lem :
    (name : String) (creator : ℕ) (d : Db) (org : ℕ) (d' : Db)
    → create_organization_with_admin name creator d ≡ some (org, d')
    → (is_member d.next_organization creator d.members ≡ false) × (d' ≡ with_founded name creator d)
unfolding create_organization_with_admin insert_organization insert_member
create_organization_lem name creator d org d' h = ground arith

pub signup_lem :
    (email : String) (name : Option String) (user : ℕ) (username org_name : String) (d : Db)
    (account org : ℕ) (d' : Db)
    → signup_with_github email name user username org_name d ≡ some ((account, org), d')
    → (account ≡ d.next_account)
      × (is_member d.next_organization d.next_account d.members ≡ false)
      × (d' ≡ with_signup email name user username org_name d)
unfolding signup_with_github insert_account insert_identity insert_organization insert_member
signup_lem email name user username org_name d account org d' h = ground arith

pub create_bot_lem :
    (token_hash : String → String) (token : String) (org : ℕ) (name email : String) (d : Db)
    (bot : ℕ) (d' : Db)
    → create_bot_account token_hash token org name email d ≡ some (bot, d')
    → (is_member org d.next_account d.members ≡ false)
      × (d' ≡ with_bot (token_hash token) org name email d)
unfolding create_bot_account insert_account insert_member insert_key
create_bot_lem token_hash token org name email d bot d' h = ground arith

-- What a redemption leaves when it succeeds.
pub join_lem :
    (inv : InvitationRow) (account : ℕ) (d d' : Db)
    → join inv account d ≡ some d'
    → (is_member inv.organization_id account d.members ≡ false) × (d' ≡ with_joined inv account d)
unfolding join insert_member redeem
join_lem inv account d d' h = ground arith

-- An invitation that was accepted, and what made it so.
pub record IsAccepted (now : ℕ) (inv : InvitationRow) (account : ℕ) (d d' : Db) : Type 0 where
  pub unrevoked : has_passed now inv.revoked_at ≡ false
  pub in_time : has_passed now inv.expires_at ≡ false
  pub free : is_used_up inv.use_count inv.max_uses ≡ false
  pub joins : join inv account d ≡ some d'

accept_found_lem :
    (now : ℕ) (inv : InvitationRow) (account : ℕ) (d d' : Db) (result : AcceptInvitationResult)
    → accept_found now inv account d ≡ some (result, d')
    → (d' ≡ d)
      ⊎ ((has_passed now inv.revoked_at ≡ false)
          × (has_passed now inv.expires_at ≡ false)
          × (is_used_up inv.use_count inv.max_uses ≡ false)
          × (join inv account d ≡ some d'))
unfolding accept_found
accept_found_lem now inv account d d' result h = ground arith

-- An accepted invitation that changes anything was found, and is accepted.
pub accept_lem :
    (now : ℕ) (token : String) (account : ℕ) (d d' : Db) (result : AcceptInvitationResult)
    → accept_invitation now token account d ≡ some (result, d')
    → (d' ≡ d)
      ⊎ ((inv : InvitationRow) × (find_invitation token d.invitations ≡ some inv)
          × IsAccepted now inv account d d')
unfolding accept_invitation
accept_lem now token account d d' result h =
    elim (Option-cases (find_invitation token d.invitations)) [
      | inl e ↦ inl (ground arith)
      | inr (inv, e) ↦ elim (accept_found_lem now inv account d d' result (ground arith)) [
        | inl same ↦ inl same
        | inr (unrevoked, in_time, free, joins) ↦ inr (
          inv,
          e,
          record { unrevoked = unrevoked; in_time = in_time; free = free; joins = joins },
        )
      ]
    ]

pub create_invitation_lem :
    (org : ℕ) (token : String) (role : OrgRole) (created_by : ℕ) (expires_at : Option ℕ)
    (max_uses : Option ℤ) (d : Db) (id : ℕ) (d' : Db)
    → create_invitation_row org token role created_by expires_at max_uses d ≡ some (id, d')
    → d' ≡ with_invitation token org role created_by expires_at max_uses d
unfolding create_invitation_row
create_invitation_lem org token role created_by expires_at max_uses d id d' h = ground arith
