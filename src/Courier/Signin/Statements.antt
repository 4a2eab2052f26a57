-- ===== src/Courier/Signin/Statements.antt =====
-- The statements on the tables of the sign-in: packages/courier/src/db/oauth.rs and session.rs. A
-- statement has the hash of a code or a session's token.
use hurry.Prelude.{
  ℕ, ◌+◌, String, ◌==◌, Bool, true, false, not, ◌&&◌, ◌||◌, Option, none, some, List, [], ◌∷◌, leb,
  nat_eq, if◌then◌else◌,
}
use hurry.Courier.Tables.{AccountRow, account_exists}
use hurry.Courier.Signin.Calls.{OAuthState, ExchangeCode, UserSession, Store}

abbrev ltb : ℕ → ℕ → Bool
ltb a b = not (leb b a)

unfoldable state_exists : String → List OAuthState → Bool
state_exists t [] = false
state_exists t (row ∷ rows) = row.state_token == t || state_exists t rows

-- `Postgres::store_oauth_state`
unfoldable pub store_oauth_state : OAuthState → ℕ → Store → Option (Unit {0} × Store)
unfolding state_exists
store_oauth_state row now d =
    if state_exists row.state_token d.states
    then none
    else some (tt, record d { states = row ∷ d.states })

unfoldable pub find_state : ℕ → String → List OAuthState → Option OAuthState
find_state now t [] = none
find_state now t (row ∷ rows) =
    if row.state_token == t && ltb now row.expires_at then some row else find_state now t rows

unfoldable pub delete_state : ℕ → String → List OAuthState → List OAuthState
delete_state now t [] = []
delete_state now t (row ∷ rows) =
    let rest = delete_state now t rows in
    if row.state_token == t && ltb now row.expires_at then rest else row ∷ rest

-- `Postgres::consume_oauth_state`
unfoldable pub consume_oauth_state : String → ℕ → Store → Option (Option OAuthState × Store)
unfolding find_state delete_state
consume_oauth_state t now d =
    some (find_state now t d.states, record d { states = delete_state now t d.states })

unfoldable pub live_states : ℕ → List OAuthState → List OAuthState
live_states now [] = []
live_states now (row ∷ rows) =
    let rest = live_states now rows in if ltb row.expires_at now then rest else row ∷ rest

unfoldable pub live_codes : ℕ → List ExchangeCode → List ExchangeCode
live_codes now [] = []
live_codes now (row ∷ rows) =
    let rest = live_codes now rows in if ltb row.expires_at now then rest else row ∷ rest

-- `Postgres::cleanup_expired_oauth_state`
unfoldable pub cleanup_expired_oauth_state : ℕ → Store → Option (Unit {0} × Store)
unfolding live_states
cleanup_expired_oauth_state now d = some (tt, record d { states = live_states now d.states })

-- `Postgres::cleanup_expired_exchange_codes`
unfoldable pub cleanup_expired_exchange_codes : ℕ → Store → Option (Unit {0} × Store)
unfolding live_codes
cleanup_expired_exchange_codes now d = some (tt, record d { codes = live_codes now d.codes })

unfoldable pub find_code : String → List ExchangeCode → Option ExchangeCode
find_code h [] = none
find_code h (row ∷ rows) = if row.code_hash == h then some row else find_code h rows

abbrev pub is_there {ℓ} : {A : Type ℓ} → Option A → Bool
is_there none = false
is_there (some a) = true

-- `Postgres::create_exchange_code`
unfoldable pub create_exchange_code :
    String → ℕ → String → Bool → ℕ → ℕ → Store → Option (Unit {0} × Store)
unfolding find_code account_exists
create_exchange_code h account redirect_uri new_user expires_at now d =
    if account_exists account d.db.accounts && not (is_there (find_code h d.codes))
    then some (
      tt,
      record d {
        codes =
            record {
              code_hash = h;
              account_id = account;
              redirect_uri = redirect_uri;
              new_user = new_user;
              expires_at = expires_at;
              redeemed_at = none;
            }
            ∷ d.codes;
      },
    )
    else none

-- `ExchangeCodeRedemption` and `RedeemExchangeCodeError`
pub data Redemption : Type 0 where
  redeemed : (account : ℕ) (new_user : Bool) → Redemption
  not_found expired already_redeemed : Redemption

unfoldable pub mark_redeemed : ℕ → String → List ExchangeCode → List ExchangeCode
mark_redeemed now h [] = []
mark_redeemed now h (row ∷ rows) =
    let rest = mark_redeemed now h rows in
    if row.code_hash == h then record row { redeemed_at = some now } ∷ rest else row ∷ rest

abbrev pub redeem_row : String → ℕ → Option ExchangeCode → Store → Redemption × Store
redeem_row h now none d = (not_found, d)
redeem_row h now (some row) d =
    if is_there row.redeemed_at
    then (already_redeemed, d)
    else if leb row.expires_at now
    then (expired, d)
    else (redeemed row.account_id row.new_user, record d { codes = mark_redeemed now h d.codes })

-- `Postgres::redeem_exchange_code`
unfoldable pub redeem_exchange_code : String → ℕ → Store → Option (Redemption × Store)
unfolding find_code mark_redeemed
redeem_exchange_code h now d = some (redeem_row h now (find_code h d.codes) d)

unfoldable pub session_exists : String → List UserSession → Bool
session_exists h [] = false
session_exists h (row ∷ rows) = row.session_token == h || session_exists h rows

-- `Postgres::create_session`
unfoldable pub create_session : ℕ → String → ℕ → ℕ → Store → Option (Unit {0} × Store)
unfolding session_exists account_exists
create_session account h expires_at now d =
    if account_exists account d.db.accounts && not (session_exists h d.sessions)
    then some (
      tt,
      record d {
        sessions =
            record {
              account_id = account;
              session_token = h;
              expires_at = expires_at;
              last_accessed_at = now;
            }
            ∷ d.sessions;
      },
    )
    else none

-- `JOIN account a ON us.account_id = a.id` where `a.disabled_at IS NULL`
unfoldable pub is_enabled : ℕ → List AccountRow → Bool
is_enabled account [] = false
is_enabled account (row ∷ rows) =
    (nat_eq row.id account && not (is_there row.disabled_at)) || is_enabled account rows

unfoldable pub find_session : ℕ → String → List AccountRow → List UserSession → Option UserSession
unfolding is_enabled
find_session now h accounts [] = none
find_session now h accounts (row ∷ rows) =
    if row.session_token == h && (ltb now row.expires_at && is_enabled row.account_id accounts)
    then some row
    else find_session now h accounts rows

-- The query of `Postgres::validate_session`.
unfoldable pub select_session : String → ℕ → Store → Option (Option UserSession × Store)
unfolding find_session
select_session h now d = some (find_session now h d.db.accounts d.sessions, d)

unfoldable pub with_expiry : ℕ → String → List UserSession → List UserSession
with_expiry now h [] = []
with_expiry now h (row ∷ rows) =
    let rest = with_expiry now h rows in
    if row.session_token == h
    then record row { last_accessed_at = now; expires_at = now + 86400 } ∷ rest
    else row ∷ rest

-- The update of `Postgres::validate_session`.
unfoldable pub slide_session : String → ℕ → Store → Option (Unit {0} × Store)
unfolding with_expiry
slide_session h now d = some (tt, record d { sessions = with_expiry now h d.sessions })

unfoldable pub without_session : String → List UserSession → List UserSession
without_session h [] = []
without_session h (row ∷ rows) =
    let rest = without_session h rows in if row.session_token == h then rest else row ∷ rest

-- `Postgres::revoke_session`
unfoldable pub revoke_session : String → ℕ → Store → Option (Bool × Store)
unfolding session_exists without_session
revoke_session h now d =
    some (session_exists h d.sessions, record d { sessions = without_session h d.sessions })
