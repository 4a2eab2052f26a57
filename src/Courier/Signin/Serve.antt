-- ===== src/Courier/Signin/Serve.antt =====
-- The endpoints of the sign-in as one function on requests, and what they keep
-- (packages/courier/src/api/v1/oauth).
pub mod Callback
pub mod Requests
use hurry.Prelude.{
  ℕ, String, Bool, true, false, Option, none, some, List, [], ◌∷◌, ◌≡◌, refl, sym, subst, All,
  arith, if◌then◌else◌, ◌==◌, leb, Bool-cases, inl, inr,
}
use hurry.Courier.Tables.{Db, AccountRow}
use hurry.Courier.Signin.Calls.{
  OAuthState, ExchangeCode, UserSession, Store, Site, Call, execute, ignore, log_audit_event, ◌>>=◌,
  respond, fail, return, pure,
}
use hurry.Courier.Signin.Accounts.{
  get_account_by_github_id, update_account_email, update_github_username, signup, in_store,
}
use hurry.Courier.Signin.Statements
use hurry.Courier.Signin.Statements.{
  store_oauth_state, find_state, delete_state, consume_oauth_state, live_states, live_codes,
  cleanup_expired_oauth_state, cleanup_expired_exchange_codes, create_exchange_code, Redemption,
  mark_redeemed, redeem_exchange_code, redeem_row, find_code, is_there, create_session,
  select_session, with_expiry, slide_session, without_session, revoke_session,
}
use hurry.Courier.Signin.Triples.{
  Any, Triple, fail-Triple, now-Triple, pure-Triple, return-Triple, write-Triple, execute-Triple,
  or_exit-Triple, if-Triple, ignore-Triple, bind-Triple, log-Triple, respond-Triple,
}
use hurry.Courier.Signin.{
  GitHub, GitHubUser, StartResponse, CallbackResponse, ExchangeResponse, SessionResponse,
  LogoutResponse, validate_redirect_uri, handle_start, log_failure, mail, enabled, known_account,
  new_account, account_of, sign_in, fetch, with_email, handle_callback, exchanged, handle_exchange,
  validate_session, from_request_parts, log_revoked, handle_logout, clean_up,
}

pub data SigninRequest : Type 0 where
  start : (redirect_uri csrf_token pkce_verifier : String) → SigninRequest
  callback : (code state auth_code : String) → SigninRequest
  exchange : (session_token auth_code : String) → SigninRequest
  authenticate logout : (token : String) → SigninRequest
  cleanup : SigninRequest

-- What `P` of the tables must satisfy to be kept: `Goes` holds of the URLs that a callback redirects
-- to, and `NewCode` and `NewToken` of the hashes of generated codes and tokens.
pub record Keeps (github : GitHub) (P : Store → Type 0) (Goes NewCode NewToken : String → Type 0)
    : Type 0 where
  pub started :
      (d : Store) (row : OAuthState) (uri : String)
      → validate_redirect_uri github uri ≡ some row.redirect_uri
      → P d
      → P (record d { states = row ∷ d.states })
  pub consumed :
      (d : Store) (now : ℕ) (t : String)
      → P d
      → P (record d { states = delete_state now t d.states })
  pub goes :
      (d : Store) (now : ℕ) (t : String) (row : OAuthState) (url : String)
      → P d
      → find_state now t d.states ≡ some row
      → github.parse row.redirect_uri ≡ some url
      → Goes url
  pub cleaned_states :
      (d : Store) (now : ℕ) → P d → P (record d { states = live_states now d.states })
  pub cleaned_codes : (d : Store) (now : ℕ) → P d → P (record d { codes = live_codes now d.codes })
  pub changed : (d : Store) (db : Db) → P d → P (record d { db = db })
  pub issued :
      (d : Store) (row : ExchangeCode)
      → NewCode row.code_hash
      → P d
      → P (record d { codes = row ∷ d.codes })
  pub redeemed :
      (d : Store) (now : ℕ) (h : String)
      → P d
      → P (record d { codes = mark_redeemed now h d.codes })
  pub opened :
      (d : Store) (row : UserSession)
      → NewToken row.session_token
      → P d
      → P (record d { sessions = row ∷ d.sessions })
  pub slid :
      (d : Store) (now : ℕ) (h : String)
      → P d
      → P (record d { sessions = with_expiry now h d.sessions })
  pub closed :
      (d : Store) (h : String) → P d → P (record d { sessions = without_session h d.sessions })

pub some_inj : {A : Type 0} {a b : A} → ◌≡◌ {A = Option A} (some a) (some b) → a ≡ b
some_inj e = cc

pub when_some :
    {A : Type 0} {y : A} (b : Bool) (x : A)
    → ◌≡◌ {A = Option A} (if b then some x else none) (some y)
    → x ≡ y
when_some true x e = some_inj e
when_some false x e = absurd cc

pub unless_some :
    {A : Type 0} {y : A} (b : Bool) (x : A)
    → ◌≡◌ {A = Option A} (if b then none else some x) (some y)
    → x ≡ y
unless_some true x e = absurd cc
unless_some false x e = some_inj e

pub in_store-P :
    (P : Store → Type 0) {A : Type 0} (d : Store) (o : Option (A × Db)) (a : A) (d' : Store)
    → ((db : Db) → P d → P (record d { db = db }))
    → in_store d o ≡ some (a, d')
    → P d
    → P d'
in_store-P P d none a d' h e p = absurd cc
in_store-P P d (some (b, db)) a d' h e p = subst (λ y. P y.1) (some_inj e) (h db p)

module _ (github : GitHub) where
  -- The state after a request.
  unfoldable pub serve : SigninRequest → Site → Site
  serve (start uri csrf_token pkce_verifier) s =
      (respond StartResponse.error (handle_start github uri csrf_token pkce_verifier) s).1
  serve (callback code state auth_code) s =
      (respond CallbackResponse.error (handle_callback github code state auth_code) s).1
  serve (exchange token auth_code) s =
      (respond ExchangeResponse.error (handle_exchange github token auth_code) s).1
  serve (authenticate token) s =
      (respond SessionResponse.error (from_request_parts github token) s).1
  serve (logout token) s = (respond LogoutResponse.error (handle_logout github token) s).1
  serve cleanup s = (respond tt (clean_up github) s).1

  unfoldable pub serve_all : List SigninRequest → Site → Site
  unfolding serve
  serve_all [] s = s
  serve_all (request ∷ requests) s = serve_all requests (serve request s)

  module _ (NewCode NewToken : String → Type 0) where
    -- The codes and tokens that a request generates are new ones.
    abbrev pub IsNew : SigninRequest → Type 0
    IsNew (start uri csrf_token pkce_verifier) = Unit {0}
    IsNew (callback code state auth_code) = NewCode (github.hash auth_code)
    IsNew (exchange token auth_code) = NewToken (github.hash token)
    IsNew (authenticate token) = Unit {0}
    IsNew (logout token) = Unit {0}
    IsNew cleanup = Unit {0}

-- Where a callback redirects to.
abbrev pub GoesTo : (String → Type 0) → CallbackResponse → Type 0
GoesTo Goes (CallbackResponse.success uri auth_code new_user) = Goes uri
GoesTo Goes CallbackResponse.invalid_state = Unit {0}
GoesTo Goes CallbackResponse.token_exchange_failed = Unit {0}
GoesTo Goes CallbackResponse.no_email = Unit {0}
GoesTo Goes CallbackResponse.account_disabled = Unit {0}
GoesTo Goes CallbackResponse.not_configured = Unit {0}
GoesTo Goes CallbackResponse.error = Unit {0}
