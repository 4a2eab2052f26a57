-- ===== src/Courier/Organizations.antt =====
-- Accounts and organizations that are created: packages/courier/src/db/organization.rs, account.rs
-- and bot_account.rs, and the endpoints api/v1/organizations/create.rs, rename.rs and
-- bots/create.rs.
use Prim.Native.String
use hurry.Prelude.{
  Bool, List, [], ◌∷◌, if◌then◌else◌, nat_eq, ℕ, String, ◌==◌, not, Option, none, some,
}
use hurry.Courier.Auth.{admin, member, trim}
use hurry.Courier.Tables.{
  OrganizationRow, organization_exists, Db, insert_member, insert_organization, insert_account,
  insert_identity, insert_key,
}
use hurry.Courier.Calls.{Call, pure, execute, require, log_audit_event, ◌>>=◌, ◌>>◌}
use hurry.Courier.Members.{require_admin, event}

abbrev with_result : {A : Type 0} → A → Option Db → Option (A × Db)
with_result a none = none
with_result a (some d) = some (a, d)

abbrev then_db : {A : Type 0} → Option Db → (Db → Option (A × Db)) → Option (A × Db)
then_db none next = none
then_db (some d) next = next d

-- `Postgres::create_organization_with_admin`
unfoldable pub create_organization_with_admin : String → ℕ → Db → Option (ℕ × Db)
unfolding insert_organization insert_member
create_organization_with_admin name creator d =
    let (org, d') = insert_organization name d in
    with_result org
      (insert_member (record { organization_id = org; account_id = creator; role = admin }) d')

-- `Postgres::signup_with_github`: the new account and its organization.
unfoldable pub signup_with_github :
    String → Option String → ℕ → String → String → Db → Option ((ℕ × ℕ) × Db)
unfolding insert_account insert_identity insert_organization insert_member
signup_with_github email name github_user_id github_username org_name d =
    let (account, d') = insert_account email name d in
    then_db
      (insert_identity
        (record {
          account_id = account;
          github_user_id = github_user_id;
          github_username = github_username;
        })
        d')
      (λ d''.
        let (org, d''') = insert_organization org_name d'' in
        with_result (account, org)
          (insert_member (record { organization_id = org; account_id = account; role = admin })
            d'''))

abbrev then_value : {A B : Type 0} → Option (B × Db) → (Db → Option (A × Db)) → Option (A × Db)
then_value none next = none
then_value (some (b, d)) next = next d

-- `Postgres::create_bot_account`, with the generated token and the hash of tokens.
unfoldable pub create_bot_account :
    (String → String) → String → ℕ → String → String → Db → Option (ℕ × Db)
unfolding insert_account insert_member insert_key
create_bot_account token_hash token org name responsible_email d =
    let (account, d') = insert_account responsible_email (some name) d in
    then_db
      (insert_member (record { organization_id = org; account_id = account; role = member }) d')
      (λ e.
        then_value (insert_key account (String.◌++◌ name " API Key") (token_hash token) org e)
          (λ f. some (account, f)))

-- `Response` of organizations/create.rs, with the new organization's id
pub data CreateResponse : Type 0 where
  created : ℕ → CreateResponse
  empty_name error : CreateResponse

-- organizations/create.rs
unfoldable pub create_organization : ℕ → String → Call CreateResponse CreateResponse
create_organization account name = do
  require (not (trim name == "")) CreateResponse.empty_name
  org_id ← execute (create_organization_with_admin name account)
  log_audit_event (event account org_id "organization.created")
  pure (CreateResponse.created org_id)

-- `Response` of bots/create.rs, with the bot's account
pub data CreateBotResponse : Type 0 where
  created : ℕ → CreateBotResponse
  empty_name empty_email forbidden error : CreateBotResponse

-- bots/create.rs
unfoldable pub create_bot :
    (String → String) → String → ℕ → ℕ → String → String → Call CreateBotResponse CreateBotResponse
create_bot token_hash token account org name responsible_email = do
  require_admin org account CreateBotResponse.forbidden
  require (not (trim name == "")) CreateBotResponse.empty_name
  require (not (trim responsible_email == "")) CreateBotResponse.empty_email
  bot ← execute (create_bot_account token_hash token org (trim name) (trim responsible_email))
  log_audit_event (event account org "bot.created")
  pure (CreateBotResponse.created bot)

unfoldable pub with_name : ℕ → String → List OrganizationRow → List OrganizationRow
with_name org name [] = []
with_name org name (row ∷ rows) =
    (if nat_eq row.id org then record row { name = name } else row) ∷ with_name org name rows

-- `Postgres::rename_organization`
unfoldable pub rename_organization : ℕ → String → Db → Option (Bool × Db)
unfolding organization_exists with_name
rename_organization org name d = some (
  organization_exists org d.organizations,
  record d { organizations = with_name org name d.organizations },
)

-- `Response` of organizations/rename.rs
pub data RenameResponse : Type 0 where
  success empty_name forbidden not_found error : RenameResponse

-- organizations/rename.rs
unfoldable pub rename : ℕ → ℕ → String → Call RenameResponse RenameResponse
rename account org name = do
  require (not (trim name == "")) RenameResponse.empty_name
  require_admin org account RenameResponse.forbidden
  renamed ← execute (rename_organization org (trim name))
  require renamed RenameResponse.not_found
  log_audit_event (event account org "organization.renamed")
  pure RenameResponse.success
