-- ===== src/Courier/Authority.antt =====
-- Who may change memberships by the endpoints of packages/courier/src/api/v1.
use hurry.Prelude.{
  ℕ, String, false, ◌&&◌, some, List, ◌∷◌, ◌≡◌, sym, ap, subst, ◌∙◌, ◌⊎◌, inl, inr, arith, nat_eq,
  Bool-cases,
}
use hurry.Courier.Auth.{admin}
use hurry.Courier.Tables.{Db, MemberRow, role_in}
use hurry.Courier.Calls.{World}
use hurry.Courier.Members.{without_row, with_role}
use hurry.Courier.Members.Rows.{role_in-without_row, role_in-with_role}
use hurry.Courier.Effect.{
  organization_renamed, account_named, Effect, IsAdmin, MayManage, nothing, keys_revoked,
  member_removed, role_set, organization_created, signed_up, bot_created, key_created, key_revoked,
  invitation_created, accepted, invitation_revoked,
}
use hurry.Courier.Request.{Request}
use hurry.Courier.Serve.{serve}
use hurry.Courier.Serve.Refines.{serve-Effect}

role_in-row :
    (o a : ℕ) (row : MemberRow) (rows : List MemberRow)
    → (role_in o a (row ∷ rows) ≡ role_in o a rows)
      ⊎ ((row.organization_id ≡ o) × (row.account_id ≡ a))
unfolding role_in
role_in-row o a row rows = ground arith

-- What happens to the role of one account in one organization.
module _ (account : ℕ) (d d' : Db) (o a : ℕ) where
  abbrev Kept : Type 0
  Kept = role_in o a d'.members ≡ role_in o a d.members

  kept : d'.members ≡ d.members → Kept ⊎ MayManage d o account a
  kept e = inl (ap (role_in o a) e)

  added :
      (row : MemberRow)
      → d'.members ≡ row ∷ d.members
      → (row.organization_id ≡ o → row.account_id ≡ a → MayManage d o account a)
      → Kept ⊎ MayManage d o account a
  added row e may = elim (role_in-row o a row d.members) [
    | inl same ↦ inl (ap (role_in o a) e ∙ same)
    | inr its ↦ inr (may its.0 its.1)
  ]

  -- A change to the row of `target` in `org` changes no other role.
  at_row :
      (org target : ℕ) (rows : List MemberRow)
      → d'.members ≡ rows
      → (nat_eq org o && nat_eq target a ≡ false → role_in o a rows ≡ role_in o a d.members)
      → MayManage d org account target
      → Kept ⊎ MayManage d o account a
  at_row org target rows e others may = elim (Bool-cases (nat_eq org o && nat_eq target a)) [
    | inl its ↦
        let eo : org ≡ o = ground arith in
        let ea : target ≡ a = ground arith in
        inr
          (subst (λ x. MayManage d x account a) eo (subst (λ x. MayManage d org account x) ea may))
    | inr other ↦ inl (ap (role_in o a) e ∙ others other)
  ]

-- A role changes only by the account itself or by an administrator of the organization.
Effect-role_in :
    {account : ℕ} {d d' : Db} (o a : ℕ)
    → Effect account d d'
    → (role_in o a d'.members ≡ role_in o a d.members) ⊎ MayManage d o account a
Effect-role_in {account} {d} {d'} o a (nothing e) = kept account d d' o a (ap (λ x. x.members) e)
Effect-role_in {account} {d} {d'} o a (keys_revoked now org target may e) =
    kept account d d' o a (ap (λ x. x.members) e)
Effect-role_in {account} {d} {d'} o a (member_removed now org target role may found last e) =
    at_row account d d' o a org target (without_row org target d.members) (ap (λ x. x.members) e)
      (λ other. ground (arith, role_in-without_row org target o a d.members)) may
Effect-role_in {account} {d} {d'} o a (role_set org target role requested may found last e) =
    at_row account d d' o a org target (with_role org target requested d.members)
      (ap (λ x. x.members) e)
      (λ other. ground (arith, role_in-with_role org target o a requested d.members)) (inr may)
Effect-role_in {account} {d} {d'} o a (organization_created name full fresh e) =
    added account d d' o a _ (ap (λ x. x.members) e) (λ eo ea. inl (sym ea))
Effect-role_in {account} {d} {d'} o a (account_named name full e) =
    kept account d d' o a (ap (λ x. x.members) e)
Effect-role_in {account} {d} {d'} o a (organization_renamed org name may full e) =
    kept account d d' o a (ap (λ x. x.members) e)
Effect-role_in {account} {d} {d'} o a (signed_up email name user username org_name own fresh e) =
    added account d d' o a _ (ap (λ x. x.members) e) (λ eo ea. inl (sym ea ∙ sym own))
Effect-role_in {account} {d} {d'} o a
      (bot_created hash org name email may named reachable fresh e) =
    added account d d' o a _ (ap (λ x. x.members) e)
      (λ eo ea. inr (subst (λ x. IsAdmin d x account) eo may))
Effect-role_in {account} {d} {d'} o a (key_created org name hash role found full e) =
    kept account d d' o a (ap (λ x. x.members) e)
Effect-role_in {account} {d} {d'} o a (key_revoked now id key stored live may e) =
    kept account d d' o a (ap (λ x. x.members) e)
Effect-role_in {account} {d} {d'} o a
      (invitation_created now token org role expires_at max_uses may ahead enough e) =
    kept account d d' o a (ap (λ x. x.members) e)
Effect-role_in {account} {d} {d'} o a
      (accepted now token inv found unrevoked in_time free fresh e) =
    added account d d' o a _ (ap (λ x. x.members) e) (λ eo ea. inl (sym ea))
Effect-role_in {account} {d} {d'} o a (invitation_revoked now org id may e) =
    kept account d d' o a (ap (λ x. x.members) e)

-- Nobody's membership is touched without authority: if a request of a session changes an account's
-- role in an organization, grants it or takes it away, then the session's account is that account
-- itself or was an administrator of that organization.
pub serve-role_in :
    (token_hash : String → String) (account : ℕ) (r : Request) (w : World) (o a : ℕ)
    → (role_in o a (serve token_hash account r w).db.members ≡ role_in o a w.db.members)
      ⊎ (a ≡ account)
      ⊎ (role_in o account w.db.members ≡ some admin)
serve-role_in token_hash account r w o a = Effect-role_in o a (serve-Effect token_hash account r w)
