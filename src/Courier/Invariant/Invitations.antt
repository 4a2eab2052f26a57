-- ===== src/Courier/Invariant/Invitations.antt =====
-- Invitations and their redemptions under the endpoints of packages/courier/src/api/v1.
use hurry.Prelude.{
  ℕ, ◌+◌, ◌≤◌, ◌<◌, String, ◌==◌, false, Option, none, some, List, [], ◌∷◌, ◌≡◌, refl, sym, ap,
  subst, inl, inr, arith, nat_eq, if◌then◌else◌, All, Bool-cases,
}
use hurry.Courier.Tables.{Db, ℤ, pos, negsuc, InvitationRow, RedemptionRow}
use hurry.Courier.Invitations.{find_invitation, increment, revoke_invitation_id, is_used_up}
use hurry.Courier.Invitations.Endpoints.{less_than_one}
use hurry.Courier.Effect.{
  organization_renamed, account_named, Effect, nothing, keys_revoked, member_removed, role_set,
  organization_created, signed_up, bot_created, key_created, key_revoked, invitation_created,
  accepted, invitation_revoked,
}

-- The rows stand newest first, with ids below the next one.
abbrev pub Numbered : ℕ → List InvitationRow → Type 0
Numbered n [] = Unit
Numbered n (row ∷ rows) = (row.id < n) × Numbered row.id rows

abbrev pub WithinUses : ℕ → Option ℤ → Type 0
WithinUses n none = Unit
WithinUses n (some (pos max)) = n ≤ max
WithinUses n (some (negsuc max)) = ⊥

unfoldable pub redemptions_of : ℕ → List RedemptionRow → ℕ
redemptions_of id [] = 0
redemptions_of id (row ∷ rows) =
    (if nat_eq row.invitation_id id then 1 else 0) + redemptions_of id rows

-- The count of uses is the number of redemptions, and within the limit.
abbrev pub IsCounted : List RedemptionRow → InvitationRow → Type 0
IsCounted redemptions row =
    (row.use_count ≡ redemptions_of row.id redemptions) × WithinUses row.use_count row.max_uses

abbrev pub Below : ℕ → List RedemptionRow → Type 0
Below n = All (λ row. row.invitation_id < n)

pub record Counted (d : Db) : Type 0 where
  pub numbered : Numbered d.next_invitation d.invitations
  pub below : Below d.next_invitation d.redemptions
  pub counted : All (IsCounted d.redemptions) d.invitations

Below-redemptions_of :
    (n id : ℕ) (rows : List RedemptionRow) → Below n rows → n ≤ id → redemptions_of id rows ≡ 0
unfolding redemptions_of
Below-redemptions_of n id [] h k = refl
Below-redemptions_of n id (row ∷ rows) h k = ground (arith, Below-redemptions_of n id rows h.1 k)

Below-more : (n m : ℕ) (rows : List RedemptionRow) → n ≤ m → Below n rows → Below m rows
Below-more n m [] k h = tt
Below-more n m (row ∷ rows) k h = (omega arith, Below-more n m rows k h.1)

Numbered-increment :
    (n id : ℕ) (rows : List InvitationRow) → Numbered n rows → Numbered n (increment id rows)
unfolding increment
Numbered-increment n id [] h = tt
Numbered-increment n id (row ∷ rows) h = ground (arith, Numbered-increment row.id id rows h.1)

Numbered-revoke :
    (n now id : ℕ) (rows : List InvitationRow)
    → Numbered n rows
    → Numbered n (revoke_invitation_id now id rows)
unfolding revoke_invitation_id
Numbered-revoke n now id [] h = tt
Numbered-revoke n now id (row ∷ rows) h = ground (arith, Numbered-revoke row.id now id rows h.1)

pub find-below :
    (n : ℕ) (token : String) (rows : List InvitationRow) {inv : InvitationRow}
    → Numbered n rows
    → find_invitation token rows ≡ some inv
    → inv.id < n
unfolding find_invitation
find-below n token [] h q = cc
find-below n token (row ∷ rows) {inv} h q =
    ground (arith, find-below row.id token rows {inv = inv} h.1)

-- A redemption of another invitation does not count.
IsCounted-other :
    (id account : ℕ) (redemptions : List RedemptionRow) (n : ℕ) (rows : List InvitationRow)
    → Numbered n rows
    → n ≤ id
    → All (IsCounted redemptions) rows
    → All
        (IsCounted (record { invitation_id = id; account_id = account } ∷ redemptions))
        (increment id rows)
unfolding increment redemptions_of
IsCounted-other id account redemptions n [] o k h = tt
IsCounted-other id account redemptions n (row ∷ rows) o k h =
    ground (arith, IsCounted-other id account redemptions row.id rows o.1)

WithinUses-next : (n : ℕ) (max : Option ℤ) → is_used_up n max ≡ false → WithinUses (n + 1) max
WithinUses-next n none h = tt
WithinUses-next n (some (pos max)) h = ground arith
WithinUses-next n (some (negsuc max)) h = cc

-- The accepted invitation has one use more, and one redemption.
IsCounted-increment :
    (account : ℕ) (token : String) (redemptions : List RedemptionRow) (n : ℕ)
    (rows : List InvitationRow) (inv : InvitationRow)
    → Numbered n rows
    → find_invitation token rows ≡ some inv
    → is_used_up inv.use_count inv.max_uses ≡ false
    → All (IsCounted redemptions) rows
    → All
        (IsCounted (record { invitation_id = inv.id; account_id = account } ∷ redemptions))
        (increment inv.id rows)
unfolding increment redemptions_of find_invitation
IsCounted-increment account token redemptions n [] inv o q free h = cc
IsCounted-increment account token redemptions n (row ∷ rows) inv o q free h =
    elim (Bool-cases (row.token == token)) [
      | inl here ↦ let same : row ≡ inv = ground arith in subst Holds same (own (ground arith))
      | inr later ↦
          let r : find_invitation token rows ≡ some inv = ground arith in
          (
            ground (arith, find-below row.id token rows {inv = inv} o.1 r),
            IsCounted-increment account token redemptions row.id rows inv o.1 r free h.1,
          )
    ]
  where
    Holds : InvitationRow → Type 0
    Holds i =
        All (IsCounted (record { invitation_id = i.id; account_id = account } ∷ redemptions))
          (increment i.id (row ∷ rows))

    own : is_used_up row.use_count row.max_uses ≡ false → Holds row
    own k = (
      ground (arith, WithinUses-next row.use_count row.max_uses),
      IsCounted-other row.id account redemptions row.id rows o.1 (omega arith) h.1,
    )

IsCounted-revoke :
    (now id : ℕ) (redemptions : List RedemptionRow) (rows : List InvitationRow)
    → All (IsCounted redemptions) rows
    → All (IsCounted redemptions) (revoke_invitation_id now id rows)
unfolding revoke_invitation_id
IsCounted-revoke now id redemptions [] h = tt
IsCounted-revoke now id redemptions (row ∷ rows) h =
    ground (arith, IsCounted-revoke now id redemptions rows h.1)

-- A new invitation has no uses, and its id is new.
IsCounted-created :
    (max : Option ℤ) (id : ℕ) (redemptions : List RedemptionRow)
    → less_than_one max ≡ false
    → Below id redemptions
    → (0 ≡ redemptions_of id redemptions) × WithinUses 0 max
IsCounted-created none id redemptions h b = ground (arith, Below-redemptions_of id id redemptions b)
IsCounted-created (some (pos m)) id redemptions h b =
    ground (arith, Below-redemptions_of id id redemptions b)
IsCounted-created (some (negsuc m)) id redemptions h b = cc

-- The tables that decide it.
abbrev Counts : ℕ → List InvitationRow → List RedemptionRow → Type 0
Counts n invitations redemptions =
    Numbered n invitations × Below n redemptions × All (IsCounted redemptions) invitations

to_tables : (d : Db) → Counted d → Counts d.next_invitation d.invitations d.redemptions
to_tables d h = (h.numbered, h.below, h.counted)

of_tables :
    (d : Db) {n : ℕ} {invitations : List InvitationRow} {redemptions : List RedemptionRow}
    → d.next_invitation ≡ n
    → d.invitations ≡ invitations
    → d.redemptions ≡ redemptions
    → Counts n invitations redemptions
    → Counted d
of_tables d {n} {invitations} {redemptions} en ei er h =
    let k : Counts d.next_invitation d.invitations d.redemptions =
      subst (λ x. Counts x d.invitations d.redemptions) (sym en)
        (subst (λ x. Counts n x d.redemptions) (sym ei)
          (subst (λ x. Counts n invitations x) (sym er) h)) in
    record { numbered = k.0; below = k.1; counted = k.2 }

Counted-join :
    (account : ℕ) (token : String) (d : Db) (inv : InvitationRow)
    → Counted d
    → find_invitation token d.invitations ≡ some inv
    → is_used_up inv.use_count inv.max_uses ≡ false
    → Counts d.next_invitation
        (increment inv.id d.invitations)
        (record { invitation_id = inv.id; account_id = account } ∷ d.redemptions)
Counted-join account token d inv h found free = (
  Numbered-increment d.next_invitation inv.id d.invitations h.numbered,
  (find-below d.next_invitation token d.invitations h.numbered found, h.below),
  IsCounted-increment account token d.redemptions d.next_invitation d.invitations inv h.numbered
      found free h.counted,
)

pub Effect-Counted : {account : ℕ} {d d' : Db} → Counted d → Effect account d d' → Counted d'
Effect-Counted h (nothing e) = subst Counted (sym e) h
Effect-Counted {d = d} {d'} h (keys_revoked now org target may e) =
    of_tables d' (ap (λ x. x.next_invitation) e) (ap (λ x. x.invitations) e)
      (ap (λ x. x.redemptions) e) (to_tables d h)
Effect-Counted {d = d} {d'} h (member_removed now org target role may found last e) =
    of_tables d' (ap (λ x. x.next_invitation) e) (ap (λ x. x.invitations) e)
      (ap (λ x. x.redemptions) e) (to_tables d h)
Effect-Counted {d = d} {d'} h (role_set org target role requested may found last e) =
    of_tables d' (ap (λ x. x.next_invitation) e) (ap (λ x. x.invitations) e)
      (ap (λ x. x.redemptions) e) (to_tables d h)
Effect-Counted {account} {d} {d'} h (organization_created name full fresh e) =
    of_tables d' (ap (λ x. x.next_invitation) e) (ap (λ x. x.invitations) e)
      (ap (λ x. x.redemptions) e) (to_tables d h)
Effect-Counted {d = d} {d'} h (account_named name full e) =
    of_tables d' (ap (λ x. x.next_invitation) e) (ap (λ x. x.invitations) e)
      (ap (λ x. x.redemptions) e) (to_tables d h)
Effect-Counted {d = d} {d'} h (organization_renamed org name may full e) =
    of_tables d' (ap (λ x. x.next_invitation) e) (ap (λ x. x.invitations) e)
      (ap (λ x. x.redemptions) e) (to_tables d h)
Effect-Counted {account} {d} {d'} h (signed_up email name user username org_name own fresh e) =
    of_tables d' (ap (λ x. x.next_invitation) e) (ap (λ x. x.invitations) e)
      (ap (λ x. x.redemptions) e) (to_tables d h)
Effect-Counted {d = d} {d'} h (bot_created hash org name email may named reachable fresh e) =
    of_tables d' (ap (λ x. x.next_invitation) e) (ap (λ x. x.invitations) e)
      (ap (λ x. x.redemptions) e) (to_tables d h)
Effect-Counted {account} {d} {d'} h (key_created org name hash role found full e) =
    of_tables d' (ap (λ x. x.next_invitation) e) (ap (λ x. x.invitations) e)
      (ap (λ x. x.redemptions) e) (to_tables d h)
Effect-Counted {d = d} {d'} h (key_revoked now id key stored live may e) =
    of_tables d' (ap (λ x. x.next_invitation) e) (ap (λ x. x.invitations) e)
      (ap (λ x. x.redemptions) e) (to_tables d h)
Effect-Counted {account} {d} {d'} h
      (invitation_created now token org role expires_at max_uses may ahead enough e) =
    of_tables d' (ap (λ x. x.next_invitation) e) (ap (λ x. x.invitations) e)
      (ap (λ x. x.redemptions) e)
      (
        (omega arith, h.numbered),
        Below-more d.next_invitation (d.next_invitation + 1) d.redemptions (omega arith) h.below,
        (IsCounted-created max_uses d.next_invitation d.redemptions enough h.below, h.counted),
      )
Effect-Counted {account} {d} {d'} h (accepted now token inv found unrevoked in_time free fresh e) =
    of_tables d' (ap (λ x. x.next_invitation) e) (ap (λ x. x.invitations) e)
      (ap (λ x. x.redemptions) e) (Counted-join account token d inv h found free)
Effect-Counted {d = d} {d'} h (invitation_revoked now org id may e) =
    of_tables d' (ap (λ x. x.next_invitation) e) (ap (λ x. x.invitations) e)
      (ap (λ x. x.redemptions) e)
      (
        Numbered-revoke d.next_invitation now id d.invitations h.numbered,
        h.below,
        IsCounted-revoke now id d.redemptions d.invitations h.counted,
      )
