-- ===== src/Examples/Signin.antt =====
-- A sign-in (packages/courier/src/api/v1/oauth) with URLs as their own origins and tokens as their own
-- hashes.
use hurry.Prelude.{true, false, none, some, List, [], ◌∷◌, ◌≡◌, ◌≢◌, refl}
use hurry.Courier.Tables.{Db}
use hurry.Courier.Signin.Calls.{
  ExchangeCode, Site, respond, ◌>>=◌, execute, or_exit, ignore, log_audit_event,
}
use hurry.Courier.Signin.Accounts.{
  get_account_by_github_id, update_account_email, update_github_username, signup,
}
use hurry.Courier.Signin.Statements.{
  find_code, store_oauth_state, consume_oauth_state, create_exchange_code, redeem_exchange_code,
  create_session, select_session, slide_session, revoke_session, cleanup_expired_oauth_state,
  cleanup_expired_exchange_codes,
}
use hurry.Courier.Signin.{
  GitHub, StartResponse, CallbackResponse, ExchangeResponse, SessionResponse, LogoutResponse,
  primary_email, validate_redirect_uri, handle_start, sign_in, fetch, handle_callback,
  handle_exchange, validate_session, from_request_parts, handle_logout, clean_up,
}
use hurry.Courier.Signin.Serve.{SigninRequest, serve_all}
use hurry.Courier.Signin.Codes.{exchange_once}
use hurry.Courier.Signin.Sessions.{logout_final}
use hurry.Courier.Signin.Lives.{at_time, exchange-session}
use hurry.Courier.Signin.Redirects.{IsListed, callback-IsListed}

abbrev github : GitHub
github = record {
  client = some tt;
  exchange_code = λ code verifier. some "access";
  fetch_user = λ token. some (record { id = 7; login = "ana"; name = none; email = none });
  fetch_emails = λ token. some (
      record { email = "old@x"; primary = false; verified = true }
      ∷ record { email = "ana@x"; primary = true; verified = true }
      ∷ []);
  redirect_allowlist = "https://app" ∷ [];
  parse = λ uri. some uri;
  origin = λ url. url;
  hash = λ token. token;
}

abbrev empty_db : Db
empty_db = record {
  accounts = [];
  identities = [];
  organizations = [];
  members = [];
  api_keys = [];
  invitations = [];
  redemptions = [];
  next_account = 0;
  next_organization = 0;
  next_key = 0;
  next_invitation = 0;
}

abbrev empty : Site
empty = record {
  store = record { db = empty_db; states = []; codes = []; sessions = [] };
  audit = [];
  calls = 0;
  down = λ n. false;
  now = λ n. n;
}

run : Unit {0}
unfolding respond ◌>>=◌ execute or_exit ignore log_audit_event get_account_by_github_id
    update_account_email update_github_username signup store_oauth_state consume_oauth_state
    create_exchange_code redeem_exchange_code create_session select_session slide_session
    revoke_session cleanup_expired_oauth_state cleanup_expired_exchange_codes primary_email
    validate_redirect_uri handle_start sign_in fetch handle_callback handle_exchange
    validate_session from_request_parts handle_logout clean_up serve_all
run = tt

abbrev started : List SigninRequest
started = SigninRequest.start "https://app" "csrf" "verifier" ∷ []

abbrev opened : Site
opened = serve_all github started empty

elsewhere :
    (respond StartResponse.error (handle_start github "https://evil" "csrf" "verifier") empty).0
    ≡ StartResponse.invalid_redirect_uri
unfolding run
elsewhere = refl

redirected :
    (respond CallbackResponse.error (handle_callback github "code" "csrf" "auth") opened).0
    ≡ CallbackResponse.success "https://app" "auth" true
unfolding run
redirected = refl

-- A state is consumed, and another one is not stored.
replayed :
    (respond CallbackResponse.error
      (handle_callback github "code" "csrf" "again")
      (serve_all github (SigninRequest.callback "code" "csrf" "auth" ∷ []) opened)).0
    ≡ CallbackResponse.invalid_state
unfolding run
replayed = refl

abbrev issued : Site
issued = serve_all github (SigninRequest.callback "code" "csrf" "auth" ∷ []) opened

exchanged :
    (respond ExchangeResponse.error (handle_exchange github "token" "auth") issued).0
    ≡ ExchangeResponse.success "token"
unfolding run
exchanged = refl

abbrev signed_in : Site
signed_in = serve_all github (SigninRequest.exchange "token" "auth" ∷ []) issued

authenticated :
    (respond SessionResponse.error (from_request_parts github "token") signed_in).0
    ≡ SessionResponse.session 0
unfolding run
authenticated = refl

second :
    (respond ExchangeResponse.error (handle_exchange github "other" "auth") signed_in).0
    ≡ ExchangeResponse.already_redeemed
unfolding run
second = refl

-- A second sign-in of the same user finds the account.
known :
    (respond CallbackResponse.error
      (handle_callback github "code" "csrf" "auth2")
      (serve_all github started signed_in)).0
    ≡ CallbackResponse.success "https://app" "auth2" false
unfolding run
known = refl

logged_out :
    (respond LogoutResponse.error (handle_logout github "token") signed_in).0
    ≡ LogoutResponse.success
unfolding run
logged_out = refl

abbrev between : List SigninRequest
between =
    SigninRequest.start "https://app" "csrf2" "verifier"
    ∷ SigninRequest.callback "code" "csrf2" "auth2"
    ∷ SigninRequest.exchange "token2" "auth2"
    ∷ []

exchange_once_example :
    (respond ExchangeResponse.error (handle_exchange github "other" "auth") (
      serve_all github between
        (respond ExchangeResponse.error (handle_exchange github "token" "auth") issued).1)).0
    ≢ ExchangeResponse.success "other"
unfolding run
exchange_once_example =
    exchange_once github "token" "auth" issued "token" between "other" "other" exchanged
      (tt, ((λ e. cc), (tt, tt)))

logout_final_example :
    (respond SessionResponse.error (from_request_parts github "token") (
      serve_all github between
        (respond LogoutResponse.error (handle_logout github "token") signed_in).1)).0
    ≢ SessionResponse.session 0
unfolding run
logout_final_example =
    logout_final github "token" signed_in between 0 logged_out (tt, (tt, ((λ e. cc), tt)))

callback-IsListed_example : IsListed github "https://app"
unfolding run
callback-IsListed_example =
    callback-IsListed github (λ uri url e. refl) started empty "code" "csrf" "auth" "https://app"
      "auth" true refl redirected

abbrev auth_row : ExchangeCode
auth_row = record {
  code_hash = "auth";
  account_id = 0;
  redirect_uri = "https://app";
  new_user = true;
  expires_at = 65;
  redeemed_at = none;
}

auth_found : find_code "auth" issued.store.codes ≡ some auth_row
unfolding run
auth_found = refl

exchange-session_example :
    let first =
      respond ExchangeResponse.error (handle_exchange github "token" "auth") (at_time 30 issued) in
    (first.0 ≡ ExchangeResponse.success "token")
    × ((respond SessionResponse.error (from_request_parts github "token") (at_time 100 first.1)).0
        ≡ SessionResponse.session 0)
unfolding run
exchange-session_example =
    exchange-session github "token" "auth" issued auth_row 30 100 auth_found refl refl refl refl
      refl refl
