-- ===== src/Courier/Signin/Redirects.antt =====
-- Where callbacks redirect to (packages/courier/src/oauth.rs and api/v1/oauth).
use mathlib.Core.List.{Memᴰ}
use hurry.Prelude.{
  ℕ, String, Bool, true, false, not, ◌&&◌, Option, none, some, List, [], ◌∷◌, ◌≡◌, refl, sym, ap,
  ◌∙◌, subst, All, Option-cases, Bool-cases, inl, inr, ◌==◌, eq_iff, leb,
}
use hurry.Courier.Signin.Calls.{OAuthState, Store, Site, respond}
use hurry.Courier.Signin.Statements.{find_state, delete_state, live_states}
use hurry.Courier.Signin.Triples.{Any, respond-Triple}
use hurry.Courier.Signin.{
  GitHub, CallbackResponse, is_allowed, allowed_url, validate_redirect_uri, handle_callback,
}
use hurry.Courier.Signin.Serve.{SigninRequest, Keeps, serve_all, IsNew, GoesTo, some_inj}
use hurry.Courier.Signin.Serve.Callback.{called_back}
use hurry.Courier.Signin.Serve.Requests.{serve_all-keeps}
use hurry.Courier.Signin.Rows.{all_or}

module _ (github : GitHub) where
  -- The origin of the URL is that of a URL in the configured list.
  pub record IsListed (url : String) : Type 0 where
    pub entry : String
    pub among : Memᴰ entry github.redirect_allowlist
    pub listed : String
    pub parsed : github.parse entry ≡ some listed
    pub same_origin : github.origin listed ≡ github.origin url

  -- What the stored text of a URL is parsed as has a listed origin.
  abbrev IsSafe : OAuthState → Type 0
  IsSafe row = (url : String) → github.parse row.redirect_uri ≡ some url → IsListed url

  abbrev Safe : Store → Type 0
  Safe d = All IsSafe d.states

  delete_state-Safe :
      (now : ℕ) (t : String) (rows : List OAuthState)
      → All IsSafe rows
      → All IsSafe (delete_state now t rows)
  unfolding delete_state
  delete_state-Safe now t [] ps = tt
  delete_state-Safe now t (row ∷ rows) (p, ps) =
      all_or IsSafe _ row _ p (delete_state-Safe now t rows ps)

  live_states-Safe :
      (now : ℕ) (rows : List OAuthState) → All IsSafe rows → All IsSafe (live_states now rows)
  unfolding live_states
  live_states-Safe now [] ps = tt
  live_states-Safe now (row ∷ rows) (p, ps) = all_or IsSafe _ row _ p (live_states-Safe now rows ps)

  find_state-IsSafe :
      (now : ℕ) (t : String) (rows : List OAuthState) (row : OAuthState)
      → All IsSafe rows
      → find_state now t rows ≡ some row
      → IsSafe row
  unfolding find_state
  find_state-IsSafe now t [] row ps e = absurd cc
  find_state-IsSafe now t (first ∷ rows) row (p, ps) e =
      elim (Bool-cases (first.state_token == t && not (leb first.expires_at now))) [
        | inl this ↦ subst IsSafe (some_inj (rw this at e)) p
        | inr other ↦ find_state-IsSafe now t rows row ps (rw other at e)
      ]

  -- The entry of the list that has the origin.
  record Finds (origin : String) (list : List String) : Type 0 where
    entry : String
    among : Memᴰ entry list
    listed : String
    parsed : github.parse entry ≡ some listed
    same_origin : github.origin listed ≡ origin

  next_Finds :
      (origin entry : String) (list : List String) → Finds origin list → Finds origin (entry ∷ list)
  next_Finds origin entry list f = record {
    entry = f.entry;
    among = Memᴰ.tail f.among;
    listed = f.listed;
    parsed = f.parsed;
    same_origin = f.same_origin;
  }

  allowed-Finds :
      (origin : String) (list : List String)
      → is_allowed github origin list ≡ true
      → Finds origin list
  unfolding is_allowed
  allowed-Finds origin [] e = absurd (no e)
    where
      no : false ≡ true → ⊥
      no e = cc
  allowed-Finds origin (entry ∷ list) e = elim (Option-cases (github.parse entry)) [
    | inl q ↦ next_Finds origin entry list (allowed-Finds origin list (rw q at e))
    | inr (listed, q) ↦ elim (Bool-cases (github.origin listed == origin)) [
      | inl same ↦ record {
        entry = entry;
        among = Memᴰ.head refl;
        listed = listed;
        parsed = q;
        same_origin = (eq_iff (github.origin listed) origin).0 same;
      }
      | inr other ↦
          next_Finds origin entry list (allowed-Finds origin list (rw other at (rw q at e)))
    ]
  ]

  valid-IsListed :
      (parsed : Option String) (url : String)
      → allowed_url github parsed ≡ some url
      → (parsed ≡ some url) × IsListed url
  valid-IsListed none url e = absurd cc
  valid-IsListed (some found) url e =
      elim (Bool-cases (is_allowed github (github.origin found) github.redirect_allowlist)) [
        | inl listed ↦
            let same = some_inj (rw listed at e) in
            (ap some same, subst IsListed same (of_finds (allowed-Finds _ _ listed)))
        | inr unlisted ↦ absurd (nothing (rw unlisted at e))
      ]
    where
      of_finds : Finds (github.origin found) github.redirect_allowlist → IsListed found
      of_finds f = record {
        entry = f.entry;
        among = f.among;
        listed = f.listed;
        parsed = f.parsed;
        same_origin = f.same_origin;
      }

      nothing : ◌≡◌ {A = Option String} none (some url) → ⊥
      nothing e = cc

  module _
      (reparses : (uri url : String)
        → github.parse uri ≡ some url
        → github.parse url ≡ some url) where
    Safe-Keeps : Keeps github Safe IsListed Any Any
    unfolding validate_redirect_uri
    Safe-Keeps = record {
      started = λ d row uri e p.
          let v = valid-IsListed (github.parse uri) row.redirect_uri e in
          (
            (λ url f. subst IsListed (some_inj (sym (reparses uri row.redirect_uri v.0) ∙ f)) v.1),
            p,
          );
      consumed = λ d now t p. delete_state-Safe now t d.states p;
      goes = λ d now t row url p e f. find_state-IsSafe now t d.states row p e url f;
      cleaned_states = λ d now p. live_states-Safe now d.states p;
      cleaned_codes = λ d now p. p;
      changed = λ d db p. p;
      issued = λ d row new p. p;
      redeemed = λ d now k p. p;
      opened = λ d row new p. p;
      slid = λ d now k p. p;
      closed = λ d k p. p;
    }

    all-IsNew : (requests : List SigninRequest) → All (IsNew github Any Any) requests
    all-IsNew [] = tt
    all-IsNew (SigninRequest.start uri csrf_token pkce_verifier ∷ requests) =
        (tt, all-IsNew requests)
    all-IsNew (SigninRequest.callback code state auth_code ∷ requests) = (tt, all-IsNew requests)
    all-IsNew (SigninRequest.exchange token auth_code ∷ requests) = (tt, all-IsNew requests)
    all-IsNew (SigninRequest.authenticate token ∷ requests) = (tt, all-IsNew requests)
    all-IsNew (SigninRequest.logout token ∷ requests) = (tt, all-IsNew requests)
    all-IsNew (SigninRequest.cleanup ∷ requests) = (tt, all-IsNew requests)

    -- No open redirect: after any requests from no stored states, whichever calls fail, a callback
    -- that hands out a code redirects to a URL whose origin is that of a URL in the configured list.
    -- The text of a parsed URL parses as that URL.
    pub callback-IsListed :
        (requests : List SigninRequest) (s : Site) (code state auth_code uri given : String)
        (new_user : Bool)
        → s.store.states ≡ []
        → (respond CallbackResponse.error
            (handle_callback github code state auth_code)
            (serve_all github requests s)).0
          ≡ CallbackResponse.success uri given new_user
        → IsListed uri
    callback-IsListed requests s code state auth_code uri given new_user empty e =
        let safe =
          serve_all-keeps github Safe IsListed Any Any Safe-Keeps requests s (all-IsNew requests)
            (subst (All IsSafe) (sym empty) tt) in
        subst (GoesTo IsListed) e
          (respond-Triple Safe (GoesTo IsListed) (serve_all github requests s)
            (called_back github Safe IsListed Any Any Safe-Keeps code state auth_code tt) tt safe).0
