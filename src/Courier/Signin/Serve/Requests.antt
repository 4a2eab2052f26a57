-- ===== src/Courier/Signin/Serve/Requests.antt =====
-- What exchanges, sessions and all requests of the sign-in keep
-- (packages/courier/src/api/v1/oauth and db/session.rs).
use hurry.Prelude.{
  ℕ, String, Option, none, some, List, [], ◌∷◌, subst, All, leb, Bool-cases, inl, inr,
}
use hurry.Courier.Signin.Calls.{ExchangeCode, Store, Site}
use hurry.Courier.Signin.Statements.{
  cleanup_expired_oauth_state, cleanup_expired_exchange_codes, Redemption, redeem_exchange_code,
  redeem_row, find_code, is_there, create_session, select_session, slide_session, revoke_session,
}
use hurry.Courier.Signin.Triples.{
  Any, Triple, now-Triple, pure-Triple, return-Triple, write-Triple, or_exit-Triple, if-Triple,
  ignore-Triple, bind-Triple, log-Triple, respond-Triple,
}
use hurry.Courier.Signin.{
  GitHub, exchanged, handle_exchange, validate_session, from_request_parts, handle_logout, clean_up,
}
use hurry.Courier.Signin.Serve.{
  SigninRequest, Keeps, GoesTo, IsNew, serve, serve_all, some_inj, when_some,
}
use hurry.Courier.Signin.Serve.Callback.{started, called_back}

module _ (github : GitHub) where
  module _ (P : Store → Type 0) (Goes NewCode NewToken : String → Type 0)
      (k : Keeps github P Goes NewCode NewToken) where
    redeemed_row :
        (h : String) (now : ℕ) (o : Option ExchangeCode) (d : Store)
        → P d
        → P (redeem_row h now o d).1
    redeemed_row h now none d p = p
    redeemed_row h now (some row) d p = elim (Bool-cases (is_there row.redeemed_at)) [
      | inl already ↦ rw already p
      | inr fresh ↦ elim (Bool-cases (leb row.expires_at now)) [
        | inl expired ↦ rw fresh (rw expired p)
        | inr live ↦ rw fresh (rw live (k.redeemed d now h p))
      ]
    ]

    pub exchanged-Triple :
        (token : String) (r : Redemption)
        → NewToken (github.hash token)
        → Triple P Any (exchanged github token r) Any
    unfolding create_session
    exchanged-Triple token (Redemption.redeemed account new_user) new =
        bind-Triple P Any (now-Triple P Any) (λ now u.
          bind-Triple P Any {V = Any}
            (write-Triple P Any _
              (λ t d a d' p e. subst (λ y. P y.1) (when_some _ _ e) (k.opened d _ new p)))
            (λ a u. bind-Triple P Any (log-Triple P Any _) (λ a u. pure-Triple P Any _ tt)))
    exchanged-Triple token Redemption.not_found new = return-Triple P Any _ tt
    exchanged-Triple token Redemption.expired new = return-Triple P Any _ tt
    exchanged-Triple token Redemption.already_redeemed new = return-Triple P Any _ tt

    exchange-Triple :
        (token auth_code : String)
        → NewToken (github.hash token)
        → Triple P Any (handle_exchange github token auth_code) Any
    unfolding handle_exchange redeem_exchange_code
    exchange-Triple token auth_code new =
        bind-Triple P Any {V = Any}
          (write-Triple P Any _ (λ t d a d' p e.
            subst (λ y. P y.1) (some_inj e)
              (redeemed_row (github.hash auth_code) t (find_code (github.hash auth_code) d.codes) d
                p)))
          (λ r u. exchanged-Triple token r new)

    validated :
        {R : Type 0} (refused : R) (token : String)
        → Triple P Any (validate_session github refused token) Any
    unfolding validate_session select_session slide_session
    validated refused token =
        bind-Triple P Any {V = Any}
          (write-Triple P Any _ (λ t d a d' p e. subst (λ y. P y.1) (some_inj e) p))
          (λ found u.
            bind-Triple P Any {V = Any}
              (or_exit-Triple P Any _ (λ a e. tt) (return-Triple P Any _ tt))
              (λ row u.
                bind-Triple P Any {V = Any}
                  (write-Triple P Any _ (λ t d a d' p e.
                    subst (λ y. P y.1) (some_inj e) (k.slid d t (github.hash token) p)))
                  (λ a u. pure-Triple P Any _ tt)))

    authenticated : (token : String) → Triple P Any (from_request_parts github token) Any
    unfolding from_request_parts
    authenticated token =
        bind-Triple P Any (validated _ token) (λ account u. pure-Triple P Any _ tt)

    logged_out : (token : String) → Triple P Any (handle_logout github token) Any
    unfolding handle_logout revoke_session
    logged_out token = bind-Triple P Any (validated _ token) (λ account u.
        bind-Triple P Any {V = Any}
          (write-Triple P Any _
            (λ t d a d' p e. subst (λ y. P y.1) (some_inj e) (k.closed d (github.hash token) p)))
          (λ revoked u.
            bind-Triple P Any {V = Any}
              (if-Triple P Any _ (log-Triple P Any _) (pure-Triple P Any _ tt))
              (λ a u. pure-Triple P Any _ tt)))

    cleaned : Triple P Any (clean_up github) Any
    unfolding clean_up cleanup_expired_oauth_state cleanup_expired_exchange_codes
    cleaned =
        bind-Triple P Any
          (ignore-Triple P Any {V = Any} (
            write-Triple P Any _
              (λ t d a d' p e. subst (λ y. P y.1) (some_inj e) (k.cleaned_states d t p))))
          (λ a u. ignore-Triple P Any {V = Any} (
            write-Triple P Any _
              (λ t d a d' p e. subst (λ y. P y.1) (some_inj e) (k.cleaned_codes d t p))))

    pub serve-keeps :
        (request : SigninRequest) (s : Site)
        → IsNew github NewCode NewToken request
        → P s.store
        → P (serve github request s).store
    unfolding serve
    serve-keeps (SigninRequest.start uri csrf_token pkce_verifier) s new p =
        (respond-Triple P Any s
          (started github P Goes NewCode NewToken k uri csrf_token pkce_verifier) tt p).1
    serve-keeps (SigninRequest.callback code state auth_code) s new p =
        (respond-Triple P (GoesTo Goes) s
          (called_back github P Goes NewCode NewToken k code state auth_code new) tt p).1
    serve-keeps (SigninRequest.exchange token auth_code) s new p =
        (respond-Triple P Any s (exchange-Triple token auth_code new) tt p).1
    serve-keeps (SigninRequest.authenticate token) s new p =
        (respond-Triple P Any s (authenticated token) tt p).1
    serve-keeps (SigninRequest.logout token) s new p =
        (respond-Triple P Any s (logged_out token) tt p).1
    serve-keeps SigninRequest.cleanup s new p = (respond-Triple P Any s cleaned tt p).1

    pub serve_all-keeps :
        (requests : List SigninRequest) (s : Site)
        → All (IsNew github NewCode NewToken) requests
        → P s.store
        → P (serve_all github requests s).store
    unfolding serve_all
    serve_all-keeps [] s new p = p
    serve_all-keeps (request ∷ requests) s (new, news) p =
        serve_all-keeps requests (serve github request s) news (serve-keeps request s new p)
