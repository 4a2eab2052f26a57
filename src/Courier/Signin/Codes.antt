-- ===== src/Courier/Signin/Codes.antt =====
-- Exchange codes are redeemed once (packages/courier/src/api/v1/oauth/exchange.rs).
use hurry.Prelude.{
  ℕ, String, Bool, true, false, Option, none, some, List, [], ◌∷◌, ◌≡◌, ◌≢◌, refl, sym, ap, ◌∙◌,
  subst, All, Bool-cases, inl, inr, ◌==◌, eq_refl, eq_iff, leb,
}
use hurry.Courier.Signin.Calls.{ExchangeCode, Store, Site, respond}
use hurry.Courier.Signin.Statements.{
  live_codes, mark_redeemed, find_code, is_there, redeem_row, redeem_exchange_code, Redemption,
}
use hurry.Courier.Signin.Triples.{
  Any, Triple, execute-Triple, bind-Triple, return-Triple, respond-Triple,
}
use hurry.Courier.Signin.{GitHub, ExchangeResponse, exchanged, handle_exchange}
use hurry.Courier.Signin.Serve.{SigninRequest, Keeps, serve_all, IsNew, some_inj}
use hurry.Courier.Signin.Serve.Requests.{serve_all-keeps, exchanged-Triple}
use hurry.Courier.Signin.Rows.{all_or, all_set}
use hurry.Courier.Signin.Leaves.{Leaves, Left, kept, execute-Leaves, respond-Leaves}

module _ (github : GitHub) where
  -- The code is spent: what has its hash is redeemed.
  abbrev IsSpent : String → ExchangeCode → Type 0
  IsSpent h row = row.code_hash ≡ h → is_there row.redeemed_at ≡ true

  abbrev pub Spent : String → Store → Type 0
  Spent h d = All (IsSpent h) d.codes

  live_codes-Spent :
      (h : String) (now : ℕ) (rows : List ExchangeCode)
      → All (IsSpent h) rows
      → All (IsSpent h) (live_codes now rows)
  unfolding live_codes
  live_codes-Spent h now [] ps = tt
  live_codes-Spent h now (row ∷ rows) (p, ps) =
      all_or (IsSpent h) _ row _ p (live_codes-Spent h now rows ps)

  mark-Spent :
      (h : String) (now : ℕ) (k : String) (rows : List ExchangeCode)
      → All (IsSpent h) rows
      → All (IsSpent h) (mark_redeemed now k rows)
  unfolding mark_redeemed
  mark-Spent h now k [] ps = tt
  mark-Spent h now k (row ∷ rows) (p, ps) =
      all_set (IsSpent h) _ row _ _ p (λ e. refl) (mark-Spent h now k rows ps)

  marked-Spent :
      (h : String) (now : ℕ) (rows : List ExchangeCode) → All (IsSpent h) (mark_redeemed now h rows)
  unfolding mark_redeemed
  marked-Spent h now [] = tt
  marked-Spent h now (row ∷ rows) = elim (Bool-cases (row.code_hash == h)) [
    | inl same ↦ rw same ((λ e. refl), marked-Spent h now rows)
    | inr other ↦ rw other (
      (λ e. absurd (differs (sym other ∙ ap (λ x. x == h) e ∙ eq_refl h))),
      marked-Spent h now rows,
    )
  ]
    where
      differs : false ≡ true → ⊥
      differs e = cc

  Spent-Keeps : (h : String) → Keeps github (Spent h) Any (λ c. c ≢ h) Any
  Spent-Keeps h = record {
    started = λ d row uri e p. p;
    consumed = λ d now t p. p;
    goes = λ d now t row url p e f. tt;
    cleaned_states = λ d now p. p;
    cleaned_codes = λ d now p. live_codes-Spent h now d.codes p;
    changed = λ d db p. p;
    issued = λ d row new p. ((λ e. absurd (new e)), p);
    redeemed = λ d now k p. mark-Spent h now k d.codes p;
    opened = λ d row new p. p;
    slid = λ d now k p. p;
    closed = λ d k p. p;
  }

  find_code-IsSpent :
      (h : String) (rows : List ExchangeCode) (row : ExchangeCode)
      → All (IsSpent h) rows
      → find_code h rows ≡ some row
      → is_there row.redeemed_at ≡ true
  unfolding find_code
  find_code-IsSpent h [] row ps e = absurd cc
  find_code-IsSpent h (first ∷ rows) row (p, ps) e = elim (Bool-cases (first.code_hash == h)) [
    | inl same ↦
        let found = rw same at e in
        subst (λ r. is_there r.redeemed_at ≡ true) (some_inj found)
          (p ((eq_iff first.code_hash h).0 same))
    | inr other ↦ find_code-IsSpent h rows row ps (rw other at e)
  ]

  abbrev Succeeds : ExchangeResponse → Type 0
  Succeeds (ExchangeResponse.success token) = Unit {0}
  Succeeds ExchangeResponse.not_found = ⊥
  Succeeds ExchangeResponse.expired = ⊥
  Succeeds ExchangeResponse.already_redeemed = ⊥
  Succeeds ExchangeResponse.error = ⊥

  redeemed_row-Spent :
      (h : String) (now : ℕ) (o : Option ExchangeCode) (d : Store) (account : ℕ) (new_user : Bool)
      (d' : Store)
      → redeem_row h now o d ≡ (Redemption.redeemed account new_user, d')
      → Spent h d'
  redeemed_row-Spent h now none d account new_user d' e = absurd (refused (ap (λ r. r.0) e))
    where
      refused : Redemption.not_found ≡ Redemption.redeemed account new_user → ⊥
      refused e = cc
  redeemed_row-Spent h now (some row) d account new_user d' e =
      elim (Bool-cases (is_there row.redeemed_at)) [
        | inl already ↦ absurd (refused (ap (λ r. r.0) (rw already at e)))
        | inr fresh ↦ elim (Bool-cases (leb row.expires_at now)) [
          | inl late ↦ absurd (expired (ap (λ r. r.0) (rw late at (rw fresh at e))))
          | inr live ↦
              subst (Spent h) (ap (λ r. r.1) (rw live at (rw fresh at e)))
                (marked-Spent h now d.codes)
        ]
      ]
    where
      refused : Redemption.already_redeemed ≡ Redemption.redeemed account new_user → ⊥
      refused e = cc

      expired : Redemption.expired ≡ Redemption.redeemed account new_user → ⊥
      expired e = cc

  exchange-Spent :
      (token auth_code : String)
      → Leaves Succeeds (Spent (github.hash auth_code)) (handle_exchange github token auth_code)
  unfolding handle_exchange redeem_exchange_code
  exchange-Spent token auth_code =
      execute-Leaves Succeeds (Spent (github.hash auth_code)) _ _
        (λ now s r s' e. left now s r s' (some_inj e))
    where
      h : String
      h = github.hash auth_code

      left :
          (now : ℕ) (s : Site) (r : Redemption) (s' : Site)
          → redeem_row h now (find_code h s.store.codes) s.store ≡ (r, s'.store)
          → Left Succeeds (Spent h) (exchanged github token r s')
      left now s (Redemption.redeemed account new_user) s' e =
          kept Succeeds (Spent h)
            (exchanged-Triple github (Spent h) Any (λ c. c ≢ h) Any (Spent-Keeps h) token
              (Redemption.redeemed account new_user) tt)
            s' (redeemed_row-Spent h now _ s.store account new_user s'.store e)
      left now s Redemption.not_found s' e = λ q. absurd q
      left now s Redemption.expired s' e = λ q. absurd q
      left now s Redemption.already_redeemed s' e = λ q. absurd q

  abbrev IsRefused : Redemption → Type 0
  IsRefused (Redemption.redeemed account new_user) = ⊥
  IsRefused Redemption.not_found = Unit {0}
  IsRefused Redemption.expired = Unit {0}
  IsRefused Redemption.already_redeemed = Unit {0}

  abbrev Fails : ExchangeResponse → Type 0
  Fails r = Succeeds r → ⊥

  spent_row :
      (h : String) (now : ℕ) (o : Option ExchangeCode) (d : Store)
      → ((row : ExchangeCode) → o ≡ some row → is_there row.redeemed_at ≡ true)
      → Spent h d
      → IsRefused (redeem_row h now o d).0 × Spent h (redeem_row h now o d).1
  spent_row h now none d spent p = (tt, p)
  spent_row h now (some row) d spent p = rw (spent row refl) (tt, p)

  refused :
      (h token : String) (r : Redemption)
      → IsRefused r
      → Triple (Spent h) Fails (exchanged github token r) Fails
  refused h token (Redemption.redeemed account new_user) q = absurd q
  refused h token Redemption.not_found q = return-Triple (Spent h) Fails _ (λ e. e)
  refused h token Redemption.expired q = return-Triple (Spent h) Fails _ (λ e. e)
  refused h token Redemption.already_redeemed q = return-Triple (Spent h) Fails _ (λ e. e)

  spent_exchange :
      (token auth_code : String)
      → Triple (Spent (github.hash auth_code)) Fails (handle_exchange github token auth_code) Fails
  unfolding handle_exchange redeem_exchange_code
  spent_exchange token auth_code =
      bind-Triple (Spent h) Fails {V = IsRefused}
        (execute-Triple (Spent h) Fails _ (λ now d r d' p e.
          subst (λ y. IsRefused y.0 × Spent h y.1) (some_inj e)
            (spent_row h now (find_code h d.codes) d
              (λ row found. find_code-IsSpent h d.codes row p found) p)))
        (λ r q. refused h token r q)
    where
      h : String
      h = github.hash auth_code

  -- An exchange code is good for one session: once an exchange of it has succeeded, no later exchange
  -- of it succeeds, whatever requests and cleanups come between and whichever calls fail, where no
  -- callback generates a code with the same hash again.
  pub exchange_once :
      (token auth_code : String) (s : Site) (session : String) (requests : List SigninRequest)
      (again other : String)
      → let first = respond ExchangeResponse.error (handle_exchange github token auth_code) s in
        first.0 ≡ ExchangeResponse.success session
        → All (IsNew github (λ c. c ≢ github.hash auth_code) Any) requests
        → (respond ExchangeResponse.error
            (handle_exchange github again auth_code)
            (serve_all github requests first.1)).0
          ≢ ExchangeResponse.success other
  exchange_once token auth_code s session requests again other e new bad =
      let h = github.hash auth_code in
      let first = respond ExchangeResponse.error (handle_exchange github token auth_code) s in
      let spent =
        respond-Leaves Succeeds (Spent h) s (exchange-Spent token auth_code) (λ q. q)
          (subst Succeeds (sym e) tt) in
      let later =
        serve_all-keeps github (Spent h) Any (λ c. c ≢ h) Any (Spent-Keeps h) requests first.1 new
          spent in
      (respond-Triple (Spent h) Fails (serve_all github requests first.1)
          (spent_exchange again auth_code) (λ q. q) later).0
        (subst Succeeds (sym bad) tt)
