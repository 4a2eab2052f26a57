-- ===== src/Courier/Signin/Sessions.antt =====
-- Sessions that are logged out (packages/courier/src/api/v1/oauth/logout.rs and db/session.rs).
use hurry.Prelude.{
  ℕ, String, true, false, Option, none, some, List, [], ◌∷◌, ◌≡◌, ◌≢◌, refl, sym, ap, ◌∙◌, subst,
  All, Bool-cases, inl, inr, ◌==◌, eq_refl, eq_iff,
}
use hurry.Courier.Tables.{AccountRow}
use hurry.Courier.Signin.Calls.{UserSession, Store, Site, respond}
use hurry.Courier.Signin.Statements.{
  with_expiry, without_session, find_session, select_session, slide_session, revoke_session,
}
use hurry.Courier.Signin.Triples.{
  Any, Triple, execute-Triple, or_exit-Triple, bind-Triple, write-Triple, log-Triple, pure-Triple,
  return-Triple, respond-Triple, if-Triple,
}
use hurry.Courier.Signin.{
  GitHub, SessionResponse, LogoutResponse, validate_session, from_request_parts, handle_logout,
}
use hurry.Courier.Signin.Serve.{SigninRequest, Keeps, serve_all, IsNew, some_inj}
use hurry.Courier.Signin.Serve.Requests.{serve_all-keeps}
use hurry.Courier.Signin.Rows.{all_or, all_set}
use hurry.Courier.Signin.Leaves.{Leaves, after-Leaves, kept, execute-Leaves, respond-Leaves}

module _ (github : GitHub) where
  -- No session has the hash.
  abbrev IsOther : String → UserSession → Type 0
  IsOther h row = row.session_token ≢ h

  abbrev Gone : String → Store → Type 0
  Gone h d = All (IsOther h) d.sessions

  with_expiry-Gone :
      (h : String) (now : ℕ) (k : String) (rows : List UserSession)
      → All (IsOther h) rows
      → All (IsOther h) (with_expiry now k rows)
  unfolding with_expiry
  with_expiry-Gone h now k [] ps = tt
  with_expiry-Gone h now k (row ∷ rows) (p, ps) =
      all_set (IsOther h) _ row _ _ p p (with_expiry-Gone h now k rows ps)

  without_session-Gone :
      (h k : String) (rows : List UserSession)
      → All (IsOther h) rows
      → All (IsOther h) (without_session k rows)
  unfolding without_session
  without_session-Gone h k [] ps = tt
  without_session-Gone h k (row ∷ rows) (p, ps) =
      all_or (IsOther h) _ row _ p (without_session-Gone h k rows ps)

  revoked-Gone : (h : String) (rows : List UserSession) → All (IsOther h) (without_session h rows)
  unfolding without_session
  revoked-Gone h [] = tt
  revoked-Gone h (row ∷ rows) = elim (Bool-cases (row.session_token == h)) [
    | inl same ↦ rw same (revoked-Gone h rows)
    | inr other ↦
        rw other ((λ e. differs (sym other ∙ ap (λ x. x == h) e ∙ eq_refl h)), revoked-Gone h rows)
  ]
    where
      differs : false ≡ true → ⊥
      differs e = cc

  Gone-Keeps : (h : String) → Keeps github (Gone h) Any Any (λ t. t ≢ h)
  Gone-Keeps h = record {
    started = λ d row uri e p. p;
    consumed = λ d now t p. p;
    goes = λ d now t row url p e f. tt;
    cleaned_states = λ d now p. p;
    cleaned_codes = λ d now p. p;
    changed = λ d db p. p;
    issued = λ d row new p. p;
    redeemed = λ d now k p. p;
    opened = λ d row new p. (new, p);
    slid = λ d now k p. with_expiry-Gone h now k d.sessions p;
    closed = λ d k p. without_session-Gone h k d.sessions p;
  }

  find_session-Gone :
      (now : ℕ) (h : String) (accounts : List AccountRow) (rows : List UserSession)
      → All (IsOther h) rows
      → find_session now h accounts rows ≡ none
  unfolding find_session
  find_session-Gone now h accounts [] ps = refl
  find_session-Gone now h accounts (row ∷ rows) (p, ps) =
      elim (Bool-cases (row.session_token == h)) [
        | inl same ↦ absurd (p ((eq_iff row.session_token h).0 same))
        | inr other ↦ rw other (find_session-Gone now h accounts rows ps)
      ]

  abbrev Succeeds : LogoutResponse → Type 0
  Succeeds LogoutResponse.success = Unit {0}
  Succeeds LogoutResponse.rejected = ⊥
  Succeeds LogoutResponse.error = ⊥

  logout-Gone :
      (token : String) → Leaves Succeeds (Gone (github.hash token)) (handle_logout github token)
  unfolding handle_logout validate_session select_session slide_session revoke_session
  logout-Gone token =
      after-Leaves Succeeds (Gone h)
        (bind-Triple Any Fails {V = Any} (write-Triple Any Fails _ (λ t d a d' p e. tt)) (λ found u.
          bind-Triple Any Fails {V = Any}
            (or_exit-Triple Any Fails _ (λ a e. tt) (return-Triple Any Fails _ (λ e. e)))
            (λ row u.
              bind-Triple Any Fails {V = Any} (write-Triple Any Fails _ (λ t d a d' p e. tt))
                (λ a u. pure-Triple Any Fails _ tt))))
        (λ account. execute-Leaves Succeeds (Gone h) _ _ (λ now s revoked s' e.
          kept Succeeds (Gone h)
            (bind-Triple (Gone h) Any {V = Any}
              (if-Triple (Gone h) Any revoked (log-Triple (Gone h) Any _)
                (pure-Triple (Gone h) Any _ tt))
              (λ a u. pure-Triple (Gone h) Any _ tt))
            s' (subst (λ y. Gone h y.1) (some_inj e) (revoked-Gone h s.store.sessions))))
    where
      h : String
      h = github.hash token

      Fails : LogoutResponse → Type 0
      Fails r = Succeeds r → ⊥

  abbrev NoSession : SessionResponse → Type 0
  NoSession (SessionResponse.session account) = ⊥
  NoSession SessionResponse.unauthorized = Unit {0}
  NoSession SessionResponse.error = Unit {0}

  refuses :
      (token : String)
      → Triple (Gone (github.hash token)) NoSession (from_request_parts github token) NoSession
  unfolding from_request_parts validate_session select_session
  refuses token =
      bind-Triple (Gone h) NoSession {V = λ account. ⊥}
        (bind-Triple (Gone h) NoSession {V = λ found. found ≡ none}
          (execute-Triple (Gone h) NoSession _ (λ now d found d' p e.
            subst (λ y. (y.0 ≡ none) × Gone h y.1) (some_inj e)
              (find_session-Gone now h d.db.accounts d.sessions p, p)))
          (λ found q.
            bind-Triple (Gone h) NoSession {V = λ row. ⊥}
              (or_exit-Triple (Gone h) NoSession _ (λ row e. absurd (no_row row (sym q ∙ e)))
                (return-Triple (Gone h) NoSession _ tt))
              (λ row bad. absurd bad)))
        (λ account bad. absurd bad)
    where
      h : String
      h = github.hash token

      no_row : (row : UserSession) → ◌≡◌ {A = Option UserSession} none (some row) → ⊥
      no_row row e = cc

  -- A logout is final: once a logout with a token has succeeded, the token is of no session,
  -- whatever requests come between and whichever calls fail, where no exchange generates a token with
  -- the same hash again.
  pub logout_final :
      (token : String) (s : Site) (requests : List SigninRequest) (account : ℕ)
      → let out = respond LogoutResponse.error (handle_logout github token) s in
        out.0 ≡ LogoutResponse.success
        → All (IsNew github Any (λ t. t ≢ github.hash token)) requests
        → (respond SessionResponse.error
            (from_request_parts github token)
            (serve_all github requests out.1)).0
          ≢ SessionResponse.session account
  logout_final token s requests account e new bad =
      let h = github.hash token in
      let out = respond LogoutResponse.error (handle_logout github token) s in
      let gone =
        respond-Leaves Succeeds (Gone h) s (logout-Gone token) (λ q. q)
          (subst Succeeds (sym e) tt) in
      let later =
        serve_all-keeps github (Gone h) Any Any (λ t. t ≢ h) (Gone-Keeps h) requests out.1 new
          gone in
      subst NoSession bad
        (respond-Triple (Gone h) NoSession (serve_all github requests out.1) (refuses token) tt
          later).0
