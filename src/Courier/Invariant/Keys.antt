-- ===== src/Courier/Invariant/Keys.antt =====
-- API keys and memberships under the endpoints of packages/courier/src/api/v1.
use hurry.Prelude.{ap, ℕ, String, true, some, List, [], ◌∷◌, ◌≡◌, refl, sym, subst, arith, All}
use hurry.Courier.Auth.{OrgRole, member}
use hurry.Courier.Tables.{Db, MemberRow, ApiKeyRow, AccountRow, is_member}
use hurry.Courier.Members.{without_row, with_role, revoke_keys, is_live}
use hurry.Courier.Members.Rows.{is_member-without_row, is_member-with_role, is_member-role_in}
use hurry.Courier.Keys.{revoke_key_id, find_token}
use hurry.Courier.Effect.{
  organization_renamed, account_named, Effect, nothing, keys_revoked, member_removed, role_set,
  organization_created, signed_up, bot_created, key_created, key_revoked, invitation_created,
  accepted, invitation_revoked,
}

-- A key that is not revoked belongs to a member of its organization.
abbrev pub BelongsTo : List MemberRow → ApiKeyRow → Type 0
BelongsTo rows key =
    is_live key.revoked_at ≡ true → is_member key.organization_id key.account_id rows ≡ true

abbrev pub Belong : List MemberRow → List ApiKeyRow → Type 0
Belong rows = All (BelongsTo rows)

Belong-more :
    (rows rows' : List MemberRow) (keys : List ApiKeyRow)
    → ((o a : ℕ) → is_member o a rows ≡ true → is_member o a rows' ≡ true)
    → Belong rows keys
    → Belong rows' keys
Belong-more rows rows' [] more h = tt
Belong-more rows rows' (key ∷ keys) more h = (
  λ live. more key.organization_id key.account_id (h.0 live),
  Belong-more rows rows' keys more h.1,
)

Belong-row :
    (row : MemberRow) (rows : List MemberRow) (keys : List ApiKeyRow)
    → Belong rows keys
    → Belong (row ∷ rows) keys
unfolding is_member
Belong-row row rows keys h = Belong-more rows (row ∷ rows) keys (λ o a e. ground arith) h

is_member-own :
    (o a p b : ℕ) (role : OrgRole) (rows : List MemberRow)
    → p ≡ o
    → b ≡ a
    → is_member p b (record { organization_id = o; account_id = a; role = role } ∷ rows) ≡ true
unfolding is_member
is_member-own o a p b role rows eo ea = ground arith

Belong-with_role :
    (o a : ℕ) (role : OrgRole) (rows : List MemberRow) (keys : List ApiKeyRow)
    → Belong rows keys
    → Belong (with_role o a role rows) keys
Belong-with_role o a role rows keys h =
    Belong-more rows (with_role o a role rows) keys
      (λ p b e. ground (arith, is_member-with_role o a p b role rows)) h

Belong-revoke_keys :
    (now account org : ℕ) (rows : List MemberRow) (keys : List ApiKeyRow)
    → Belong rows keys
    → Belong rows (revoke_keys now account org keys)
unfolding revoke_keys
Belong-revoke_keys now account org rows [] h = tt
Belong-revoke_keys now account org rows (key ∷ keys) h =
    (λ live. ground (arith, h.0), Belong-revoke_keys now account org rows keys h.1)

-- Who loses the membership has lost the keys.
Belong-without_row :
    (now account org : ℕ) (rows : List MemberRow) (keys : List ApiKeyRow)
    → Belong rows keys
    → Belong (without_row org account rows) (revoke_keys now account org keys)
unfolding revoke_keys
Belong-without_row now account org rows [] h = tt
Belong-without_row now account org rows (key ∷ keys) h = (
  λ live.
      ground
        (arith, h.0, is_member-without_row org account key.organization_id key.account_id rows),
  Belong-without_row now account org rows keys h.1,
)

Belong-revoke_key_id :
    (now id : ℕ) (rows : List MemberRow) (keys : List ApiKeyRow)
    → Belong rows keys
    → Belong rows (revoke_key_id now id keys)
unfolding revoke_key_id
Belong-revoke_key_id now id rows [] h = tt
Belong-revoke_key_id now id rows (key ∷ keys) h =
    (λ live. ground (arith, h.0), Belong-revoke_key_id now id rows keys h.1)

abbrev pub KeysBelong : Db → Type 0
KeysBelong d = Belong d.members d.api_keys

of_tables :
    (d : Db) {rows : List MemberRow} {keys : List ApiKeyRow}
    → d.members ≡ rows
    → d.api_keys ≡ keys
    → Belong rows keys
    → KeysBelong d
of_tables d {rows} em ek h =
    subst (λ x. Belong x d.api_keys) (sym em) (subst (λ x. Belong rows x) (sym ek) h)

pub Effect-KeysBelong :
    {account : ℕ} {d d' : Db} → KeysBelong d → Effect account d d' → KeysBelong d'
Effect-KeysBelong h (nothing e) = subst KeysBelong (sym e) h
Effect-KeysBelong {d = d} h (keys_revoked now org target may e) =
    subst KeysBelong (sym e) (Belong-revoke_keys now target org d.members d.api_keys h)
Effect-KeysBelong {d = d} h (member_removed now org target role may found last e) =
    subst KeysBelong (sym e) (Belong-without_row now target org d.members d.api_keys h)
Effect-KeysBelong {d = d} h (role_set org target role requested may found last e) =
    subst KeysBelong (sym e) (Belong-with_role org target requested d.members d.api_keys h)
Effect-KeysBelong {account} {d} {d'} h (organization_created name full fresh e) =
    subst KeysBelong (sym e) (Belong-row _ d.members d.api_keys h)
Effect-KeysBelong h (account_named name full e) = subst KeysBelong (sym e) h
Effect-KeysBelong {d = d} {d'} h (organization_renamed org name may full e) =
    of_tables d' (ap (λ x. x.members) e) (ap (λ x. x.api_keys) e) h
Effect-KeysBelong {account} {d} {d'} h (signed_up email name user username org_name own fresh e) =
    subst KeysBelong (sym e) (Belong-row _ d.members d.api_keys h)
Effect-KeysBelong {d = d} {d'} h (bot_created hash org name email may named reachable fresh e) =
    subst KeysBelong (sym e) (
      λ live. is_member-own org d.next_account org d.next_account member d.members refl refl,
      Belong-row _ d.members d.api_keys h,
    )
Effect-KeysBelong {account} {d} {d'} h (key_created org name hash role found full e) =
    subst KeysBelong (sym e) (λ live. is_member-role_in org account d.members found, h)
Effect-KeysBelong {d = d} h (key_revoked now id key stored live may e) =
    subst KeysBelong (sym e) (Belong-revoke_key_id now id d.members d.api_keys h)
Effect-KeysBelong {account} {d} {d'} h
      (invitation_created now token org role expires_at max_uses may ahead enough e) =
    subst KeysBelong (sym e) h
Effect-KeysBelong {account} {d} {d'} h
      (accepted now token inv found unrevoked in_time free fresh e) =
    subst KeysBelong (sym e) (Belong-row _ d.members d.api_keys h)
Effect-KeysBelong h (invitation_revoked now org id may e) = subst KeysBelong (sym e) h

pub find_token-Belong :
    (hash : String) (accounts : List AccountRow) (rows : List MemberRow) (keys : List ApiKeyRow)
    {account org : ℕ}
    → Belong rows keys
    → find_token hash accounts keys ≡ some (account, org)
    → is_member org account rows ≡ true
unfolding find_token
find_token-Belong hash accounts rows [] h q = cc
find_token-Belong hash accounts rows (key ∷ keys) {account} {org} h q =
    ground
      (arith, h.0, find_token-Belong hash accounts rows keys {account = account} {org = org} h.1)
