-- ===== src/Courier/Signin.antt =====
-- The sign-in with GitHub and the sessions: packages/courier/src/oauth.rs, the endpoints
-- packages/courier/src/api/v1/oauth (start.rs, callback.rs, exchange.rs and logout.rs), and the
-- extractor of sessions in packages/courier/src/auth.rs. GitHub, the URL parser and the hash of tokens
-- are parameters, and the random tokens are arguments.
pub mod Calls
pub mod Accounts
pub mod Statements
pub mod Triples
pub mod Serve
pub mod Leaves
pub mod Rows
pub mod Codes
pub mod Sessions
pub mod Redirects
pub mod Lives
use hurry.Prelude.{
  ℕ, ◌+◌, String, ◌==◌, Bool, true, false, not, ◌&&◌, ◌||◌, Option, none, some, List, [], ◌∷◌,
  if◌then◌else◌,
}
use hurry.Courier.Tables.{AccountRow}
use hurry.Courier.Calls.{AuditRow}
use hurry.Courier.Signin.Calls.{
  OAuthState, Call, Site, pure, return, fail, execute, or_exit, ignore, now_utc, ◌>>=◌,
  log_audit_event, respond,
}
use hurry.Courier.Signin.Accounts.{
  get_account_by_github_id, update_account_email, update_github_username, signup,
}
use hurry.Courier.Signin.Statements.{
  store_oauth_state, consume_oauth_state, cleanup_expired_oauth_state,
  cleanup_expired_exchange_codes, create_exchange_code, Redemption, redeem_exchange_code,
  create_session, select_session, slide_session, revoke_session, is_there,
}
use hurry.Courier.Signin.Calls
use hurry.Courier.Signin.Statements

pub record GitHubUser : Type 0 where
  pub id : ℕ
  pub login : String
  pub name : Option String
  pub email : Option String

pub record GitHubEmail : Type 0 where
  pub email : String
  pub primary : Bool
  pub verified : Bool

-- Whether a client is configured, what GitHub answers, the configured list, and the crates of URLs and hashes: `parse` is
-- `Url::parse`, of which the text stands for the URL, and `origin` its serialized origin.
pub record GitHub : Type 0 where
  pub client : Option (Unit {0})
  pub exchange_code : (code verifier : String) → Option String
  pub fetch_user : (access_token : String) → Option GitHubUser
  pub fetch_emails : (access_token : String) → Option (List GitHubEmail)
  pub redirect_allowlist : List String
  pub parse : String → Option String
  pub origin : String → String
  pub hash : String → String

unfoldable pub primary_email : List GitHubEmail → Option String
primary_email [] = none
primary_email (e ∷ emails) = if e.primary && e.verified then some e.email else primary_email emails

abbrev pub or_default : Option String → Option String → String
or_default none none = ""
or_default none (some email) = email
or_default (some email) other = email

abbrev event : Option ℕ → Option ℕ → String → AuditRow
event account org action = record { account_id = account; organization_id = org; action = action }

pub data StartResponse : Type 0 where
  redirect invalid_redirect_uri not_configured error : StartResponse

-- `success` has the URL, and what is appended to it. The texts of errors are left out.
pub data CallbackResponse : Type 0 where
  success : (redirect_uri auth_code : String) (new_user : Bool) → CallbackResponse
  invalid_state token_exchange_failed no_email account_disabled : CallbackResponse
  not_configured error : CallbackResponse

pub data ExchangeResponse : Type 0 where
  success : (session_token : String) → ExchangeResponse
  not_found expired already_redeemed error : ExchangeResponse

-- An extracted session, or a rejection.
pub data SessionResponse : Type 0 where
  session : (account : ℕ) → SessionResponse
  unauthorized error : SessionResponse

-- `rejected` is the extractor's answer to a token of no session.
pub data LogoutResponse : Type 0 where
  success rejected error : LogoutResponse

module _ (github : GitHub) where
  abbrev has_origin : String → Option String → Bool
  has_origin origin none = false
  has_origin origin (some url) = github.origin url == origin

  unfoldable pub is_allowed : String → List String → Bool
  is_allowed origin [] = false
  is_allowed origin (allowed ∷ rest) =
      has_origin origin (github.parse allowed) || is_allowed origin rest

  abbrev pub allowed_url : Option String → Option String
  allowed_url none = none
  allowed_url (some url) =
      if is_allowed (github.origin url) github.redirect_allowlist then some url else none

  -- `GitHub::validate_redirect_uri`; none is an error.
  unfoldable pub validate_redirect_uri : String → Option String
  unfolding is_allowed
  validate_redirect_uri uri = allowed_url (github.parse uri)

  -- `start::handle`, with the tokens of `authorization_url`.
  unfoldable pub handle_start :
      (redirect_uri csrf_token pkce_verifier : String) → Call StartResponse StartResponse
  handle_start uri csrf_token pkce_verifier = do
    client ← or_exit github.client (return StartResponse.not_configured)
    redirect_uri ← or_exit (validate_redirect_uri uri) (return StartResponse.invalid_redirect_uri)
    now ← now_utc
    stored ← execute (
        store_oauth_state (record {
          state_token = csrf_token;
          pkce_verifier = pkce_verifier;
          redirect_uri = redirect_uri;
          expires_at = now + 600;
        }))
    pure StartResponse.redirect

  abbrev pub log_failure : {A : Type 0} → Call CallbackResponse A → Call CallbackResponse A
  log_failure exit = log_audit_event (event none none "oauth.failure") >>= λ logged. exit

  abbrev pub mail : String → AccountRow → Call CallbackResponse (Unit {0})
  mail email account =
      if account.email == email
      then pure tt
      else ignore (execute (update_account_email account.id email))

  abbrev pub enabled : AccountRow → Call CallbackResponse (ℕ × Bool)
  enabled account =
      if is_there account.disabled_at
      then return CallbackResponse.account_disabled
      else pure (account.id, false)

  -- The account of a GitHub user, and whether it is new.
  abbrev pub known_account : String → GitHubUser → AccountRow → Call CallbackResponse (ℕ × Bool)
  known_account email user account = do
    mailed ← mail email account
    named ← ignore (execute (update_github_username account.id user.login))
    enabled account

  abbrev pub new_account : String → GitHubUser → Call CallbackResponse (ℕ × Bool)
  new_account email user = do
    created ← execute (signup email user.name user.id user.login "Personal")
    logged ← log_audit_event (event (some created.0) (some created.1) "account.created")
    pure (created.0, true)

  abbrev pub account_of : String → GitHubUser → Option AccountRow → Call CallbackResponse (ℕ × Bool)
  account_of email user none = new_account email user
  account_of email user (some account) = known_account email user account

  -- `callback::handle`, after the user and the emails are fetched.
  unfoldable pub sign_in :
      (redirect_uri stored_uri auth_code email : String)
      → GitHubUser
      → Call CallbackResponse CallbackResponse
  sign_in redirect_uri stored_uri auth_code email user = do
    known ← execute (get_account_by_github_id user.id)
    account ← account_of email user known
    now ← now_utc
    issued ←
        execute
          (create_exchange_code (github.hash auth_code) account.0 stored_uri account.1 (now + 60))
    logged ← log_audit_event (event (some account.0) none "oauth.success")
    pure (CallbackResponse.success redirect_uri auth_code account.1)

  abbrev pub with_email :
      (redirect_uri stored_uri auth_code : String)
      → GitHubUser
      → String
      → Call CallbackResponse CallbackResponse
  with_email redirect_uri stored_uri auth_code user email =
      if email == ""
      then return CallbackResponse.no_email
      else sign_in redirect_uri stored_uri auth_code email user

  -- `callback::handle`, from the exchange of the authorization code on.
  unfoldable pub fetch :
      (redirect_uri : String)
      → OAuthState
      → (code auth_code : String) → Call CallbackResponse CallbackResponse
  fetch redirect_uri oauth_state code auth_code = do
    access_token ←
        or_exit (github.exchange_code code oauth_state.pkce_verifier)
          (log_failure (return CallbackResponse.token_exchange_failed))
    user ← or_exit (github.fetch_user access_token) (log_failure fail)
    emails ← or_exit (github.fetch_emails access_token) (log_failure fail)
    with_email redirect_uri oauth_state.redirect_uri auth_code user
        (or_default (primary_email emails) user.email)

  -- `callback::handle`, with the exchange code that it generates.
  unfoldable pub handle_callback :
      (code state auth_code : String) → Call CallbackResponse CallbackResponse
  handle_callback code state auth_code = do
    client ← or_exit github.client (return CallbackResponse.not_configured)
    consumed ← execute (consume_oauth_state state)
    oauth_state ← or_exit consumed (return CallbackResponse.invalid_state)
    redirect_uri ← or_exit (github.parse oauth_state.redirect_uri) fail
    fetch redirect_uri oauth_state code auth_code

  abbrev pub exchanged : String → Redemption → Call ExchangeResponse ExchangeResponse
  exchanged token (Redemption.redeemed account new_user) = do
    now ← now_utc
    created ← execute (create_session account (github.hash token) (now + 86400))
    logged ← log_audit_event (event (some account) none "session.created")
    pure (ExchangeResponse.success token)
  exchanged token Redemption.not_found = return ExchangeResponse.not_found
  exchanged token Redemption.expired = return ExchangeResponse.expired
  exchanged token Redemption.already_redeemed = return ExchangeResponse.already_redeemed

  -- `exchange::handle`, with the session token that it generates.
  unfoldable pub handle_exchange :
      (session_token auth_code : String) → Call ExchangeResponse ExchangeResponse
  handle_exchange token auth_code =
      execute (redeem_exchange_code (github.hash auth_code)) >>= exchanged token

  -- `Postgres::validate_session` in the extractor of `SessionContext`.
  unfoldable pub validate_session : {R : Type 0} → R → String → Call R ℕ
  validate_session refused token = do
    found ← execute (select_session (github.hash token))
    row ← or_exit found (return refused)
    slid ← execute (slide_session (github.hash token))
    pure row.account_id

  unfoldable pub from_request_parts : String → Call SessionResponse SessionResponse
  from_request_parts token = do
    account ← validate_session SessionResponse.unauthorized token
    pure (SessionResponse.session account)

  abbrev pub log_revoked : ℕ → Bool → Call LogoutResponse (Unit {0})
  log_revoked account revoked =
      if revoked then log_audit_event (event (some account) none "session.revoked") else pure tt

  -- `logout::handle`, which has the session of its token.
  unfoldable pub handle_logout : String → Call LogoutResponse LogoutResponse
  handle_logout token = do
    account ← validate_session LogoutResponse.rejected token
    revoked ← execute (revoke_session (github.hash token))
    logged ← log_revoked account revoked
    pure LogoutResponse.success

  -- The task that a callback spawns.
  unfoldable pub clean_up : Call (Unit {0}) (Unit {0})
  clean_up = do
    states ← ignore (execute cleanup_expired_oauth_state)
    ignore (execute cleanup_expired_exchange_codes)
