-- ===== src/Courier/Safety.antt =====
-- What is always true of the server's database under the endpoints of
-- packages/courier/src/api/v1, and what a request may change.
use hurry.Prelude.{
  ℕ, String, ◌==◌, true, some, List, [], ◌∷◌, ◌≡◌, subst, inl, inr, arith, All, Bool-cases,
}
use hurry.Courier.Tables.{InvitationRow, RedemptionRow, is_member}
use hurry.Courier.Calls.{World}
use hurry.Courier.Members.Rows.{Unique}
use hurry.Courier.Keys.{token_lookup}
use hurry.Courier.Invitations.{find_invitation}
use hurry.Courier.Effect.{signed_up}
use hurry.Courier.Created.{signup_lem}
use hurry.Courier.Invariant.Members.{
  IsGoverned, Effect-IsGoverned, signup-IsGoverned, Effect-Unique,
}
use hurry.Courier.Invariant.Keys.{KeysBelong, Effect-KeysBelong, find_token-Belong}
use hurry.Courier.Invariant.Invitations.{
  Counted, Effect-Counted, IsCounted, WithinUses, redemptions_of,
}
use hurry.Courier.Serve.Refines.{serve-Effect}
use hurry.Courier.Reach.{Reach, start, request, signup}

IsCounted-find_invitation :
    (redemptions : List RedemptionRow) (token : String) (rows : List InvitationRow)
    (inv : InvitationRow)
    → All (IsCounted redemptions) rows
    → find_invitation token rows ≡ some inv
    → IsCounted redemptions inv
unfolding find_invitation
IsCounted-find_invitation redemptions token [] inv h q = cc
IsCounted-find_invitation redemptions token (row ∷ rows) inv h q =
    elim (Bool-cases (row.token == token)) [
      | inl here ↦ let same : row ≡ inv = ground arith in subst (IsCounted redemptions) same h.0
      | inr later ↦ IsCounted-find_invitation redemptions token rows inv h.1 (ground arith)
    ]

module _ (token_hash : String → String) {first : World} where
  Reach-Unique :
      {w : World} → Unique first.db.members → Reach token_hash first w → Unique w.db.members
  Reach-Unique u start = u
  Reach-Unique u (request {w} account r so_far session) =
      Effect-Unique (Reach-Unique u so_far) (serve-Effect token_hash account r w)
  Reach-Unique u (signup {w} email name user username org_name account org d so_far e) =
      Effect-Unique (Reach-Unique u so_far) (
        let (own, fresh, made) =
          signup_lem email name user username org_name w.db account org d e in
        signed_up email name user username org_name own fresh made)

  -- An organization never loses its last human administrator: if the members' rows have different
  -- keys, and the organization, unless it does not exist yet, has an administrator with a GitHub
  -- identity, then it has one after any signups and requests of GitHub users' sessions, one after
  -- another, whichever calls fail.
  pub Reach-IsGoverned :
      {w : World} (o : ℕ)
      → Unique first.db.members
      → IsGoverned o first.db
      → Reach token_hash first w
      → IsGoverned o w.db
  Reach-IsGoverned o u h start = h
  Reach-IsGoverned o u h (request {w} account r so_far session) =
      Effect-IsGoverned o session (Reach-Unique u so_far) (Reach-IsGoverned o u h so_far)
        (serve-Effect token_hash account r w)
  Reach-IsGoverned o u h (signup {w} email name user username org_name account org d so_far e) =
      signup-IsGoverned o email name user username org_name w.db d
        (signup_lem email name user username org_name w.db account org d e).2
        (Reach-IsGoverned o u h so_far)

  Reach-KeysBelong : {w : World} → KeysBelong first.db → Reach token_hash first w → KeysBelong w.db
  Reach-KeysBelong h start = h
  Reach-KeysBelong h (request {w} account r so_far session) =
      Effect-KeysBelong (Reach-KeysBelong h so_far) (serve-Effect token_hash account r w)
  Reach-KeysBelong h (signup {w} email name user username org_name account org d so_far e) =
      Effect-KeysBelong (Reach-KeysBelong h so_far) (
        let (own, fresh, made) =
          signup_lem email name user username org_name w.db account org d e in
        signed_up email name user username org_name own fresh made)

  -- A token that the server takes is a member's: if it is so at first that each key that is not
  -- revoked belongs to a member of its organization, then after any signups and requests, one after
  -- another, whichever calls fail, the account of a token that is found is a member of the
  -- token's organization.
  pub token_lookup-is_member :
      {w : World} (token : String) {account org : ℕ}
      → KeysBelong first.db
      → Reach token_hash first w
      → token_lookup token_hash token w.db ≡ some (account, org)
      → is_member org account w.db.members ≡ true
  unfolding token_lookup
  token_lookup-is_member {w} token h reach q =
      find_token-Belong (token_hash token) w.db.accounts w.db.members w.db.api_keys
        (Reach-KeysBelong h reach) q

  Reach-Counted : {w : World} → Counted first.db → Reach token_hash first w → Counted w.db
  Reach-Counted h start = h
  Reach-Counted h (request {w} account r so_far session) =
      Effect-Counted (Reach-Counted h so_far) (serve-Effect token_hash account r w)
  Reach-Counted h (signup {w} email name user username org_name account org d so_far e) =
      Effect-Counted (Reach-Counted h so_far) (
        let (own, fresh, made) =
          signup_lem email name user username org_name w.db account org d e in
        signed_up email name user username org_name own fresh made)

  -- No invitation is redeemed more often than it allows: if the invitations' counts are so at first,
  -- and ids are in order below the next ones, then after any signups and requests, one after
  -- another, whichever calls fail, an invitation's count of uses is the number of its redemptions,
  -- and not above its limit.
  pub invitation-IsCounted :
      {w : World} (token : String) {inv : InvitationRow}
      → Counted first.db
      → Reach token_hash first w
      → find_invitation token w.db.invitations ≡ some inv
      → (inv.use_count ≡ redemptions_of inv.id w.db.redemptions)
        × WithinUses inv.use_count inv.max_uses
  invitation-IsCounted {w} token {inv} h reach found =
      IsCounted-find_invitation w.db.redemptions token w.db.invitations inv
        (Reach-Counted h reach).counted found
