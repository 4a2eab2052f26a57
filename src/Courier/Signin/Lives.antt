-- ===== src/Courier/Signin/Lives.antt =====
-- A code that is exchanged opens a session (packages/courier/src/api/v1/oauth/exchange.rs and the
-- extractor of sessions in packages/courier/src/auth.rs).
use hurry.Prelude.{ℕ, ◌+◌, String, true, false, some, ◌≡◌, refl, eq_refl, leb}
use hurry.Courier.Tables.{account_exists}
use hurry.Courier.Signin.Calls.{
  ExchangeCode, Site, respond, ◌>>=◌, execute, or_exit, log_audit_event,
}
use hurry.Courier.Signin.Statements.{
  find_code, redeem_exchange_code, create_session, session_exists, select_session, find_session,
  is_enabled, slide_session, is_there,
}
use hurry.Courier.Signin.{
  GitHub, ExchangeResponse, SessionResponse, handle_exchange, validate_session, from_request_parts,
}

-- The same server at a time, with all calls answered.
abbrev pub at_time : ℕ → Site → Site
at_time t s = record s { down = λ n. false; now = λ n. t }

module _ (github : GitHub) where
  -- A code that is there, is not redeemed and is not expired is exchanged for a session of its account,
  -- if the account is there and not disabled, all calls are answered and the token's hash is new: the
  -- token is of a session of that account at any time in the next 24 hours.
  pub exchange-session :
      (token auth_code : String) (s : Site) (row : ExchangeCode) (t later : ℕ)
      → find_code (github.hash auth_code) s.store.codes ≡ some row
      → is_there row.redeemed_at ≡ false
      → leb row.expires_at t ≡ false
      → account_exists row.account_id s.store.db.accounts ≡ true
      → is_enabled row.account_id s.store.db.accounts ≡ true
      → session_exists (github.hash token) s.store.sessions ≡ false
      → leb (t + 86400) later ≡ false
      → let first =
          respond ExchangeResponse.error (handle_exchange github token auth_code) (at_time t s) in
        (first.0 ≡ ExchangeResponse.success token)
        × ((respond SessionResponse.error
              (from_request_parts github token)
              (at_time later first.1)).0
            ≡ SessionResponse.session row.account_id)
  unfolding respond ◌>>=◌ execute or_exit log_audit_event handle_exchange from_request_parts
      validate_session redeem_exchange_code create_session select_session find_session slide_session
  exchange-session token auth_code s row t later found unredeemed live there enabled fresh soon = (
    rw found (rw unredeemed (rw live (rw there (rw fresh refl)))),
    rw found (
        rw unredeemed (
          rw live
            (rw there (rw fresh (rw (eq_refl (github.hash token)) (rw soon (rw enabled refl))))))),
  )
