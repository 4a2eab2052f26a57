-- ===== src/Examples/Courier.antt =====
-- Tests and examples on a small database of the server (packages/courier).
use Prim.Native.String
use hurry.Prelude.{
  nat_eq, ℕ, String, true, false, none, some, [], ◌∷◌, ◌≡◌, refl, ◌⊎◌, inl, ◌↔◌, arith,
}
use hurry.Courier.Auth.{admin, member, trim}
use hurry.Courier.Tables.{
  Db, pos, InvitationRow, has_identity, human_admins, is_member, role_in, organization_exists,
  insert_member,
}
use hurry.Courier.Calls.{World, value, respond}
use hurry.Courier.Members.{
  LeaveResponse, is_last_admin, leave, leave_checks, leave_writes, get_member_role,
  refuse_last_admin, revoke_account_org_api_keys, remove_organization_member,
}
use hurry.Courier.Members.Rows.{Unique}
use hurry.Courier.Keys.{token_lookup, find_token, is_enabled}
use hurry.Courier.Invitations.{
  find_invitation, preview_valid, accept_found, accept_invitation, AcceptInvitationResult,
  is_redeemed, join, redeem, get_invitation_preview,
}
use hurry.Courier.Invitations.Endpoints.{
  accept, accept_response, AcceptResponse, revoke, RevokeResponse,
}
use hurry.Courier.Invitations.Laws.{
  IsRefused, preview_valid-accept_found, accept_again, revoke_of_any,
}
use hurry.Courier.Effect.{Effect}
use hurry.Courier.Invariant.Members.{IsGoverned}
use hurry.Courier.Invariant.Keys.{KeysBelong}
use hurry.Courier.Invariant.Invitations.{Counted, WithinUses, redemptions_of}
use hurry.Courier.Request.{Request}
use hurry.Courier.Serve.{serve}
use hurry.Courier.Serve.Refines.{serve-Effect}
use hurry.Courier.Reach.{Reach}
use hurry.Courier.Safety.{Reach-IsGoverned, token_lookup-is_member, invitation-IsCounted}
use hurry.Courier.Authority.{serve-role_in}
use hurry.Courier.Races.{both_leave, both_leave-human_admins}

abbrev token_hash : String → String
token_hash token = String.◌++◌ "#" token

-- The invitation of the first organization, used once of two times.
abbrev invitation : InvitationRow
invitation = record {
  id = 0;
  organization_id = 1;
  token = "join";
  role = member;
  created_by = 10;
  expires_at = none;
  max_uses = some (pos 2);
  use_count = 1;
  revoked_at = none;
}

-- Organization 1 has the administrators 10 and 11, organization 2 has 20. Account 12 has joined
-- organization 1 by the invitation and left it. Account 13 is a bot.
abbrev db : Db
db = record {
  accounts =
      record { id = 10; email = "a@x"; name = none; disabled_at = none }
      ∷ record { id = 11; email = "b@x"; name = none; disabled_at = none }
      ∷ record { id = 12; email = "c@x"; name = none; disabled_at = none }
      ∷ record { id = 13; email = "a@x"; name = some "ci"; disabled_at = none }
      ∷ record { id = 20; email = "d@x"; name = none; disabled_at = none }
      ∷ [];
  identities =
      record { account_id = 10; github_user_id = 100; github_username = "a" }
      ∷ record { account_id = 11; github_user_id = 101; github_username = "b" }
      ∷ record { account_id = 12; github_user_id = 102; github_username = "c" }
      ∷ record { account_id = 20; github_user_id = 103; github_username = "d" }
      ∷ [];
  organizations = record { id = 2; name = "two" } ∷ record { id = 1; name = "one" } ∷ [];
  members =
      record { organization_id = 1; account_id = 13; role = member }
      ∷ record { organization_id = 1; account_id = 10; role = admin }
      ∷ record { organization_id = 1; account_id = 11; role = admin }
      ∷ record { organization_id = 2; account_id = 20; role = admin }
      ∷ [];
  api_keys =
      record {
        id = 5;
        account_id = 12;
        name = "old";
        hash = "#t12";
        organization_id = 1;
        revoked_at = some 3;
      }
      ∷ record {
        id = 4;
        account_id = 13;
        name = "ci API Key";
        hash = "#t13";
        organization_id = 1;
        revoked_at = none;
      }
      ∷ [];
  invitations = invitation ∷ [];
  redemptions = record { invitation_id = 0; account_id = 12 } ∷ [];
  next_account = 21;
  next_organization = 3;
  next_key = 6;
  next_invitation = 1;
}

abbrev world : World
world = record { db = db; audit = []; calls = 0; down = λ n. false }

trimmed : trim "  two words " ≡ "two words"
unfolding trim
trimmed = refl

-- The last administrator may not leave, the last but one may.
last_stays : (respond LeaveResponse.error (leave 7 20 2) world).0 ≡ LeaveResponse.last_admin
unfolding respond leave leave_checks leave_writes get_member_role is_last_admin refuse_last_admin
    has_identity
last_stays = refl

other_leaves :
    ((respond LeaveResponse.error (leave 7 11 1) world).0 ≡ LeaveResponse.success)
    × (is_member 1 11 (respond LeaveResponse.error (leave 7 11 1) world).1.db.members ≡ false)
unfolding respond leave leave_checks leave_writes get_member_role is_last_admin refuse_last_admin
    has_identity revoke_account_org_api_keys remove_organization_member is_member
other_leaves = (refl, refl)

-- A failed third call leaves the member in place, and is answered as an error.
interrupted :
    (respond LeaveResponse.error (leave 7 11 1) (record world { down = λ n. nat_eq n 3 })).0
    ≡ LeaveResponse.error
unfolding respond leave leave_checks leave_writes get_member_role is_last_admin refuse_last_admin
    has_identity revoke_account_org_api_keys remove_organization_member is_member
interrupted = refl

accepted_once :
    (respond AcceptResponse.error (accept 7 20 "join") world).0 ≡ AcceptResponse.success 1 member
unfolding respond accept accept_response accept_invitation join insert_member redeem is_member
accepted_once = refl

previewed :
    get_invitation_preview 7 "join" db
    ≡ some (record { organization_name = "one"; role = member; expires_at = none; valid = true })
unfolding get_invitation_preview
previewed = refl

a_is_human : has_identity 10 db.identities ≡ true
unfolding has_identity
a_is_human = refl

d_is_human : has_identity 20 db.identities ≡ true
unfolding has_identity
d_is_human = refl

db-Unique : Unique db.members
unfolding is_member
db-Unique = (refl, (refl, (refl, (refl, tt))))

db-IsGoverned : IsGoverned 1 db
unfolding organization_exists human_admins has_identity
db-IsGoverned e = omega arith

db-KeysBelong : KeysBelong db
unfolding is_member
db-KeysBelong = ((λ e. cc), ((λ e. refl), tt))

db-Counted : Counted db
unfolding redemptions_of
db-Counted = record {
  numbered = (omega arith, tt);
  below = (omega arith, tt);
  counted = ((refl, omega arith), tt);
}

-- Account 20 joins organization 1 by the invitation.
abbrev joining : Request
joining = Request.accept 7 "join"

abbrev history : Reach token_hash world (serve token_hash 20 joining world)
history = Reach.request 20 joining Reach.start d_is_human

serve-Effect_example : Effect 10 db (serve token_hash 10 (Request.remove_member 7 1 11) world).db
serve-Effect_example = serve-Effect token_hash 10 (Request.remove_member 7 1 11) world

Reach-IsGoverned_example : IsGoverned 1 (serve token_hash 20 joining world).db
Reach-IsGoverned_example =
    Reach-IsGoverned token_hash {first = world} {w = serve token_hash 20 joining world} 1 db-Unique
      db-IsGoverned history

found_token : token_lookup token_hash "t13" (serve token_hash 20 joining world).db ≡ some (13, 1)
unfolding serve respond accept accept_response accept_invitation join insert_member redeem is_member
    token_lookup find_token is_enabled
found_token = refl

token_lookup-is_member_example :
    is_member 1 13 (serve token_hash 20 joining world).db.members ≡ true
token_lookup-is_member_example =
    token_lookup-is_member token_hash {first = world} {w = serve token_hash 20 joining world} "t13"
      db-KeysBelong history found_token

abbrev used : InvitationRow
used = record invitation { use_count = 2 }

found_used : find_invitation "join" (serve token_hash 20 joining world).db.invitations ≡ some used
unfolding serve respond accept accept_response accept_invitation join insert_member redeem is_member
found_used = refl

invitation-IsCounted_example :
    (◌≡◌ {A = ℕ} 2 (redemptions_of 0 (serve token_hash 20 joining world).db.redemptions))
    × WithinUses 2 (some (pos 2))
invitation-IsCounted_example =
    invitation-IsCounted token_hash {first = world} {w = serve token_hash 20 joining world} "join"
      {inv = used} db-Counted history found_used

serve-role_in_example :
    (role_in 1 11 (serve token_hash 10 (Request.update_role 1 11 member) world).db.members
      ≡ role_in 1 11 db.members)
    ⊎ (◌≡◌ {A = ℕ} 11 10)
    ⊎ (role_in 1 10 db.members ≡ some admin)
serve-role_in_example = serve-role_in token_hash 10 (Request.update_role 1 11 member) world 1 11

a_rules : role_in 1 10 db.members ≡ some admin
unfolding role_in
a_rules = refl

b_rules : role_in 1 11 db.members ≡ some admin
unfolding role_in
b_rules = refl

d_rules : role_in 2 20 db.members ≡ some admin
unfolding role_in
d_rules = refl

b_is_human : has_identity 11 db.identities ≡ true
unfolding has_identity
b_is_human = refl

two_admins : human_admins 1 db.identities db.members ≡ 2
unfolding human_admins has_identity
two_admins = refl

both_leave-human_admins_example :
    let (left, right, w') = both_leave 7 1 10 11 world in
    (left ≡ value LeaveResponse.success)
    × (right ≡ value LeaveResponse.success)
    × (human_admins 1 w'.db.identities w'.db.members ≡ 0)
both_leave-human_admins_example =
    both_leave-human_admins 7 1 10 11 world (λ n. refl) db-Unique (omega arith)
      (a_rules, a_is_human) (b_rules, b_is_human) two_admins

preview_valid-accept_found_example :
    (preview_valid 7 invitation ≡ false) ↔ IsRefused (accept_found 7 invitation 20 db)
preview_valid-accept_found_example = preview_valid-accept_found 7 invitation 20 db (inl refl)

found : find_invitation "join" db.invitations ≡ some invitation
unfolding find_invitation
found = refl

c_redeemed : is_redeemed 0 12 db.redemptions ≡ true
unfolding is_redeemed
c_redeemed = refl

c_left : is_member 1 12 db.members ≡ false
unfolding is_member
c_left = refl

accept_again_example :
    ((respond AcceptResponse.error (accept 7 12 "join") world).0 ≡ AcceptResponse.error)
    × ((respond AcceptResponse.error (accept 7 12 "join") world).1.db ≡ db)
accept_again_example =
    accept_again 7 12 "join" invitation world refl found c_redeemed c_left refl refl refl

-- The administrator of organization 2 revokes the invitation of organization 1.
revoke_of_any_example :
    let (answer, w') = respond RevokeResponse.error (revoke 7 20 2 0) world in
    (answer ≡ RevokeResponse.success)
    × (accept_invitation 9 "join" 11 w'.db ≡ some (AcceptInvitationResult.revoked, w'.db))
revoke_of_any_example =
    revoke_of_any 7 9 20 2 11 "join" invitation world (λ n. refl) d_rules found refl (omega arith)
