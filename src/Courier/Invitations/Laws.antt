-- ===== src/Courier/Invitations/Laws.antt =====
-- What the endpoints of invitations (packages/courier/src/api/v1/invitations) answer.
use hurry.Prelude.{
  ℕ, ◌+◌, ◌≤◌, String, ◌==◌, Bool, true, false, not, ◌&&◌, Option, none, some, List, [], ◌∷◌, ◌≡◌,
  refl, subst, ◌⊎◌, inl, inr, ◌↔◌, arith, if◌then◌else◌, Bool-cases,
}
use hurry.Courier.Auth.{admin}
use hurry.Courier.Tables.{Db, ℤ, pos, negsuc, InvitationRow, is_member, insert_member, role_in}
use hurry.Courier.Calls.{World, respond}
use hurry.Courier.Members.{is_live, require_admin, get_member_role}
use hurry.Courier.Invitations.{
  find_invitation, preview_valid, accept_invitation, accept_found, AcceptInvitationResult,
  has_passed, is_used_up, has_uses, not_expired, is_redeemed, join, joined, redeem,
  revoke_invitation, revoke_invitation_id, live_invitation_exists,
}
use hurry.Courier.Invitations.Endpoints.{accept, AcceptResponse, revoke, RevokeResponse}

join-redeemed :
    (inv : InvitationRow) (account : ℕ) (d : Db)
    → is_redeemed inv.id account d.redemptions ≡ true
    → join inv account d ≡ none
unfolding join insert_member redeem
join-redeemed inv account d h = ground arith

accept_invitation-redeemed :
    (now account : ℕ) (token : String) (inv : InvitationRow) (d : Db)
    → find_invitation token d.invitations ≡ some inv
    → is_redeemed inv.id account d.redemptions ≡ true
    → is_member inv.organization_id account d.members ≡ false
    → has_passed now inv.revoked_at ≡ false
    → has_passed now inv.expires_at ≡ false
    → is_used_up inv.use_count inv.max_uses ≡ false
    → accept_invitation now token account d ≡ none
unfolding accept_invitation accept_found
accept_invitation-redeemed now account token inv d found redeemed out live fresh free =
    ground (arith, join-redeemed inv account d redeemed)

-- The answers by which an invitation itself is refused.
abbrev pub IsRefused : Option (AcceptInvitationResult × Db) → Type 0
IsRefused (some (AcceptInvitationResult.revoked, d)) = Unit
IsRefused (some (AcceptInvitationResult.expired, d)) = Unit
IsRefused (some (AcceptInvitationResult.max_uses_reached, d)) = Unit
IsRefused (some (AcceptInvitationResult.success org role, d)) = ⊥
IsRefused (some (AcceptInvitationResult.not_found, d)) = ⊥
IsRefused (some (AcceptInvitationResult.already_member, d)) = ⊥
IsRefused none = ⊥

revoked-live :
    (now : ℕ) (o : Option ℕ)
    → (is_live o ≡ true) ⊎ (has_passed now o ≡ true)
    → has_passed now o ≡ not (is_live o)
revoked-live now none h = refl
revoked-live now (some t) h = ground arith

expired-not : (now : ℕ) (o : Option ℕ) → has_passed now o ≡ not (not_expired now o)
expired-not now none = refl
expired-not now (some t) = ground arith

used-not : (n : ℕ) (o : Option ℤ) → is_used_up n o ≡ not (has_uses n o)
used-not n none = refl
used-not n (some (pos m)) = ground arith
used-not n (some (negsuc m)) = refl

joined-IsRefused : (inv : InvitationRow) (o : Option Db) → ¬ IsRefused (joined inv o)
joined-IsRefused inv none h = h
joined-IsRefused inv (some d) h = h

-- The answer from the results of the checks.
abbrev answered :
    Bool
    → Bool
    → Bool
    → Bool
    → InvitationRow
    → Option Db
    → Db
    → Option (AcceptInvitationResult × Db)
answered r e u m inv o d =
    if r
    then some (AcceptInvitationResult.revoked, d)
    else if e
    then some (AcceptInvitationResult.expired, d)
    else if u
    then some (AcceptInvitationResult.max_uses_reached, d)
    else if m
    then some (AcceptInvitationResult.already_member, d)
    else joined inv o

answered-IsRefused :
    (r e u m : Bool) (inv : InvitationRow) (o : Option Db) (d : Db)
    → ((not r && (not e && not u)) ≡ false) ↔ IsRefused (answered r e u m inv o d)
answered-IsRefused true e u m inv o d = (λ h. tt, λ h. refl)
answered-IsRefused false true u m inv o d = (λ h. tt, λ h. refl)
answered-IsRefused false false true m inv o d = (λ h. tt, λ h. refl)
answered-IsRefused false false false true inv o d = (λ h. cc, λ h. absurd h)
answered-IsRefused false false false false inv o d =
    (λ h. cc, λ h. absurd (joined-IsRefused inv o h))

-- The preview says what accepting would: for an invitation that is not marked as revoked in the
-- future, `valid` is false exactly when accepting it is refused as revoked, expired or used up,
-- whoever accepts.
pub preview_valid-accept_found :
    (now : ℕ) (inv : InvitationRow) (account : ℕ) (d : Db)
    → (is_live inv.revoked_at ≡ true) ⊎ (has_passed now inv.revoked_at ≡ true)
    → (preview_valid now inv ≡ false) ↔ IsRefused (accept_found now inv account d)
unfolding preview_valid accept_found
preview_valid-accept_found now inv account d past =
    let h =
      answered-IsRefused (has_passed now inv.revoked_at) (has_passed now inv.expires_at)
        (is_used_up inv.use_count inv.max_uses) (is_member inv.organization_id account d.members)
        inv (join inv account d) d in
    let same : (not (has_passed now inv.revoked_at)
          && (not (has_passed now inv.expires_at) && not (is_used_up inv.use_count inv.max_uses)))
        ≡ preview_valid now inv =
      ground (
        arith,
        revoked-live now inv.revoked_at past,
        expired-not now inv.expires_at,
        used-not inv.use_count inv.max_uses,
      ) in
    subst (λ x. (x ≡ false) ↔ IsRefused (accept_found now inv account d)) same h

-- Who has left an organization cannot come back by the same invitation: if the account has redeemed
-- the invitation and is no member now, the invitation is not refused, and the call does not fail,
-- then accepting it is answered with an internal error, and changes nothing.
pub accept_again :
    (now account : ℕ) (token : String) (inv : InvitationRow) (w : World)
    → w.down w.calls ≡ false
    → find_invitation token w.db.invitations ≡ some inv
    → is_redeemed inv.id account w.db.redemptions ≡ true
    → is_member inv.organization_id account w.db.members ≡ false
    → has_passed now inv.revoked_at ≡ false
    → has_passed now inv.expires_at ≡ false
    → is_used_up inv.use_count inv.max_uses ≡ false
    → ((respond AcceptResponse.error (accept now account token) w).0 ≡ AcceptResponse.error)
      × ((respond AcceptResponse.error (accept now account token) w).1.db ≡ w.db)
unfolding respond accept
accept_again now account token inv w up found redeemed out live fresh free =
    let fails : accept_invitation now token account w.db ≡ none =
      accept_invitation-redeemed now account token inv w.db found redeemed out live fresh free in
    (ground (arith, up), ground (arith, up))

find-revoke_invitation_id :
    (now : ℕ) (token : String) (inv : InvitationRow) (rows : List InvitationRow)
    → find_invitation token rows ≡ some inv
    → is_live inv.revoked_at ≡ true
    → (find_invitation token (revoke_invitation_id now inv.id rows)
        ≡ some (record inv { revoked_at = some now }))
      × (live_invitation_exists inv.id rows ≡ true)
unfolding find_invitation revoke_invitation_id live_invitation_exists
find-revoke_invitation_id now token inv [] h k = cc
find-revoke_invitation_id now token inv (row ∷ rows) h k = elim (Bool-cases (row.token == token)) [
  | inl here ↦
      let same : row ≡ inv = ground arith in
      subst
        (λ i.
          (find_invitation token (revoke_invitation_id now i.id (row ∷ rows))
            ≡ some (record i { revoked_at = some now }))
          × (live_invitation_exists i.id (row ∷ rows) ≡ true))
        same
        (let live : is_live row.revoked_at ≡ true = ground arith in (ground arith, ground arith))
  | inr later ↦
      let r : find_invitation token rows ≡ some inv = ground arith in
      let ih = find-revoke_invitation_id now token inv rows r k in
      (ground (arith, ih.0), ground (arith, ih.1))
]

-- An administrator of any organization can revoke any invitation: if no call fails, and the
-- session's account is an administrator of the organization in the path, then revoking an
-- invitation that is not revoked, of whatever organization, succeeds, and from then on accepting it
-- by its token is refused as revoked, whoever accepts.
pub revoke_of_any :
    (now later account org other : ℕ) (token : String) (inv : InvitationRow) (w : World)
    → ((n : ℕ) → w.down n ≡ false)
    → role_in org account w.db.members ≡ some admin
    → find_invitation token w.db.invitations ≡ some inv
    → is_live inv.revoked_at ≡ true
    → now ≤ later
    → let (answer, w') = respond RevokeResponse.error (revoke now account org inv.id) w in
      (answer ≡ RevokeResponse.success)
      × (accept_invitation later token other w'.db ≡ some (AcceptInvitationResult.revoked, w'.db))
unfolding respond revoke require_admin get_member_role revoke_invitation accept_invitation
    accept_found
revoke_of_any now later account org other token inv w up may found live le =
    let r = find-revoke_invitation_id now token inv w.db.invitations found live in
    (
      ground (arith, up w.calls, up (w.calls + 1), r.1),
      ground (arith, up w.calls, up (w.calls + 1), r.0, r.1),
    )
