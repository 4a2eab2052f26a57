-- ===== src/Courier/Keys.antt =====
-- API keys: packages/courier/src/db/api_key.rs and the endpoints
-- api/v1/organizations/api_keys/create.rs and delete.rs. The generated token and the hash of tokens
-- are arguments.
use hurry.Prelude.{
  ℕ, String, ◌==◌, Bool, false, not, ◌&&◌, ◌||◌, Option, none, some, List, [], ◌∷◌, if◌then◌else◌,
  nat_eq,
}
use hurry.Courier.Auth.{is_admin, trim}
use hurry.Courier.Tables.{Db, AccountRow, ApiKeyRow, insert_key}
use hurry.Courier.Calls.{
  Call, pure, query, execute, or_return, require, log_audit_event, ◌>>=◌, ◌>>◌,
}
use hurry.Courier.Members.{is_live, get_member_role, event}

-- `JOIN account`, where `account.disabled_at IS NULL`
unfoldable pub is_enabled : ℕ → List AccountRow → Bool
is_enabled account [] = false
is_enabled account (row ∷ rows) =
    (nat_eq row.id account && is_live row.disabled_at) || is_enabled account rows

unfoldable pub find_token : String → List AccountRow → List ApiKeyRow → Option (ℕ × ℕ)
unfolding is_enabled
find_token hash accounts [] = none
find_token hash accounts (key ∷ keys) =
    if key.hash == hash && (is_live key.revoked_at && is_enabled key.account_id accounts)
    then some (key.account_id, key.organization_id)
    else find_token hash accounts keys

-- `Postgres::token_lookup`: the account and the organization of a token. `validate` returns them
-- with the token.
unfoldable pub token_lookup : (String → String) → String → Db → Option (ℕ × ℕ)
unfolding find_token
token_lookup token_hash token d = find_token (token_hash token) d.accounts d.api_keys

unfoldable pub find_key : ℕ → List ApiKeyRow → Option ApiKeyRow
find_key id [] = none
find_key id (key ∷ keys) = if nat_eq key.id id then some key else find_key id keys

-- `Postgres::get_api_key`
unfoldable pub get_api_key : ℕ → Db → Option ApiKeyRow
unfolding find_key
get_api_key id d = find_key id d.api_keys

unfoldable pub revoke_key_id : ℕ → ℕ → List ApiKeyRow → List ApiKeyRow
revoke_key_id now id [] = []
revoke_key_id now id (key ∷ keys) =
    (if nat_eq key.id id && is_live key.revoked_at
      then record key { revoked_at = some now }
      else key)
    ∷ revoke_key_id now id keys

unfoldable pub live_key_exists : ℕ → List ApiKeyRow → Bool
live_key_exists id [] = false
live_key_exists id (key ∷ keys) =
    (nat_eq key.id id && is_live key.revoked_at) || live_key_exists id keys

-- `Postgres::revoke_api_key`
unfoldable pub revoke_api_key : ℕ → ℕ → Db → Option (Bool × Db)
unfolding live_key_exists revoke_key_id
revoke_api_key now id d =
    some (live_key_exists id d.api_keys, record d { api_keys = revoke_key_id now id d.api_keys })

-- `Response` of api_keys/create.rs, with the key that it answers
pub data CreateKeyResponse : Type 0 where
  created : ApiKeyRow → CreateKeyResponse
  empty_name forbidden error : CreateKeyResponse

-- api_keys/create.rs
unfoldable pub create_key :
    (String → String) → String → ℕ → ℕ → String → Call CreateKeyResponse CreateKeyResponse
create_key token_hash token account org name = do
  found ← query (get_member_role org account)
  role ← or_return found CreateKeyResponse.forbidden
  require (not (trim name == "")) CreateKeyResponse.empty_name
  key_id ← execute (insert_key account (trim name) (token_hash token) org)
  log_audit_event (event account org "api_key.created")
  stored ← query (get_api_key key_id)
  key ← or_return stored CreateKeyResponse.error
  pure (CreateKeyResponse.created key)

-- `Response` of api_keys/delete.rs
pub data DeleteKeyResponse : Type 0 where
  deleted not_found forbidden error : DeleteKeyResponse

-- api_keys/delete.rs
unfoldable pub delete_key : ℕ → ℕ → ℕ → ℕ → Call DeleteKeyResponse DeleteKeyResponse
delete_key now account org key_id = do
  found ← query (get_member_role org account)
  user_role ← or_return found DeleteKeyResponse.forbidden
  stored ← query (get_api_key key_id)
  key ← or_return stored DeleteKeyResponse.not_found
  require (nat_eq key.organization_id org) DeleteKeyResponse.not_found
  require (is_live key.revoked_at) DeleteKeyResponse.not_found
  require (nat_eq key.account_id account || is_admin user_role) DeleteKeyResponse.forbidden
  revoked ← execute (revoke_api_key now key_id)
  require revoked DeleteKeyResponse.not_found
  log_audit_event (event account org "api_key.revoked")
  pure DeleteKeyResponse.deleted
