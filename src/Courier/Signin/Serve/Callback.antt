-- ===== src/Courier/Signin/Serve/Callback.antt =====
-- What starting a sign-in and its callback keep (packages/courier/src/api/v1/oauth/start.rs and
-- callback.rs).
use hurry.Prelude.{String, Option, none, some, ◌≡◌, subst}
use hurry.Courier.Tables.{AccountRow}
use hurry.Courier.Signin.Calls.{OAuthState, Store, Call}
use hurry.Courier.Signin.Accounts.{
  get_account_by_github_id, update_account_email, update_github_username, signup,
}
use hurry.Courier.Signin.Statements.{store_oauth_state, consume_oauth_state, create_exchange_code}
use hurry.Courier.Signin.Triples.{
  Any, Triple, fail-Triple, now-Triple, pure-Triple, return-Triple, write-Triple, execute-Triple,
  or_exit-Triple, if-Triple, ignore-Triple, bind-Triple, log-Triple,
}
use hurry.Courier.Signin.{
  GitHub, GitHubUser, CallbackResponse, validate_redirect_uri, handle_start, log_failure, mail,
  account_of, sign_in, fetch, handle_callback,
}
use hurry.Courier.Signin.Serve.{Keeps, GoesTo, some_inj, when_some, unless_some, in_store-P}

module _ (github : GitHub) where
  module _ (P : Store → Type 0) (Goes NewCode NewToken : String → Type 0)
      (k : Keeps github P Goes NewCode NewToken) where
    pub started :
        (uri csrf_token pkce_verifier : String)
        → Triple P Any (handle_start github uri csrf_token pkce_verifier) Any
    unfolding handle_start store_oauth_state
    started uri csrf_token pkce_verifier =
        bind-Triple P Any {V = Any} (or_exit-Triple P Any _ (λ a e. tt) (return-Triple P Any _ tt))
          (λ a u.
            bind-Triple P Any {V = λ url. validate_redirect_uri github uri ≡ some url}
              (or_exit-Triple P Any _ (λ url e. e) (return-Triple P Any _ tt))
              (λ url valid. bind-Triple P Any (now-Triple P Any) (λ now u.
                bind-Triple P Any
                  (write-Triple P Any _ (λ t d a d' p e.
                    subst (λ y. P y.1) (unless_some _ _ e) (k.started d _ uri valid p)))
                  (λ a u. pure-Triple P Any _ tt))))

    mailed :
        (email : String) (account : AccountRow)
        → Triple P (GoesTo Goes) (mail github email account) Any
    unfolding update_account_email
    mailed email account = if-Triple P (GoesTo Goes) _ (pure-Triple P (GoesTo Goes) _ tt) (
        ignore-Triple P (GoesTo Goes) {V = Any} (
          write-Triple P (GoesTo Goes) _
            (λ t d a d' p e. subst (λ y. P y.1) (some_inj e) (k.changed d _ p))))

    account_found :
        (email : String) (user : GitHubUser) (known : Option AccountRow)
        → Triple P (GoesTo Goes) (account_of github email user known) Any
    unfolding update_github_username signup
    account_found email user none =
        bind-Triple P (GoesTo Goes) {V = Any}
          (write-Triple P (GoesTo Goes) _ (λ t d a d' p e. in_store-P P d _ a d' (k.changed d) e p))
          (λ created u.
            bind-Triple P (GoesTo Goes) (log-Triple P (GoesTo Goes) _)
              (λ a u. pure-Triple P (GoesTo Goes) _ tt))
    account_found email user (some account) =
        bind-Triple P (GoesTo Goes) (mailed email account) (λ a u.
          bind-Triple P (GoesTo Goes)
            (ignore-Triple P (GoesTo Goes) {V = Any} (
              write-Triple P (GoesTo Goes) _
                (λ t d a d' p e. subst (λ y. P y.1) (some_inj e) (k.changed d _ p))))
            (λ a u.
              if-Triple P (GoesTo Goes) _ (return-Triple P (GoesTo Goes) _ tt)
                (pure-Triple P (GoesTo Goes) _ tt)))

    signed_in :
        (url stored auth_code email : String) (user : GitHubUser)
        → Goes url
        → NewCode (github.hash auth_code)
        → Triple P (GoesTo Goes) (sign_in github url stored auth_code email user) (GoesTo Goes)
    unfolding sign_in get_account_by_github_id create_exchange_code
    signed_in url stored auth_code email user goes new =
        bind-Triple P (GoesTo Goes) {V = Any}
          (write-Triple P (GoesTo Goes) _ (λ t d a d' p e. subst (λ y. P y.1) (some_inj e) p))
          (λ known u. bind-Triple P (GoesTo Goes) (account_found email user known) (λ account u.
            bind-Triple P (GoesTo Goes) (now-Triple P (GoesTo Goes)) (λ now u.
              bind-Triple P (GoesTo Goes)
                (write-Triple P (GoesTo Goes) _
                  (λ t d a d' p e. subst (λ y. P y.1) (when_some _ _ e) (k.issued d _ new p)))
                (λ a u.
                  bind-Triple P (GoesTo Goes) (log-Triple P (GoesTo Goes) _)
                    (λ a u. pure-Triple P (GoesTo Goes) _ goes)))))

    failure_logged :
        {A : Type 0} {V : A → Type 0} {exit : Call CallbackResponse A}
        → Triple P (GoesTo Goes) exit V
        → Triple P (GoesTo Goes) (log_failure github exit) V
    failure_logged h = bind-Triple P (GoesTo Goes) (log-Triple P (GoesTo Goes) _) (λ a u. h)

    fetched :
        (url : String) (row : OAuthState) (code auth_code : String)
        → Goes url
        → NewCode (github.hash auth_code)
        → Triple P (GoesTo Goes) (fetch github url row code auth_code) (GoesTo Goes)
    unfolding fetch
    fetched url row code auth_code goes new =
        bind-Triple P (GoesTo Goes) {V = Any}
          (or_exit-Triple P (GoesTo Goes) _ (λ a e. tt)
            (failure_logged (return-Triple P (GoesTo Goes) _ tt)))
          (λ token u.
            bind-Triple P (GoesTo Goes) {V = Any}
              (or_exit-Triple P (GoesTo Goes) _ (λ a e. tt)
                (failure_logged (fail-Triple P (GoesTo Goes))))
              (λ user u.
                bind-Triple P (GoesTo Goes) {V = Any}
                  (or_exit-Triple P (GoesTo Goes) _ (λ a e. tt)
                    (failure_logged (fail-Triple P (GoesTo Goes))))
                  (λ emails u.
                    if-Triple P (GoesTo Goes) _ (return-Triple P (GoesTo Goes) _ tt)
                      (signed_in url row.redirect_uri auth_code _ user goes new))))

    pub called_back :
        (code state auth_code : String)
        → NewCode (github.hash auth_code)
        → Triple P (GoesTo Goes) (handle_callback github code state auth_code) (GoesTo Goes)
    unfolding handle_callback consume_oauth_state
    called_back code state auth_code new =
        bind-Triple P (GoesTo Goes) {V = Any}
          (or_exit-Triple P (GoesTo Goes) _ (λ a e. tt) (return-Triple P (GoesTo Goes) _ tt))
          (λ client u.
            bind-Triple P (GoesTo Goes) {V = Leads}
              (execute-Triple P (GoesTo Goes) _ (λ t d a d' p e.
                subst (λ y. Leads y.0 × P y.1) (some_inj e)
                  (
                    (λ row url found parsed. k.goes d t state row url p found parsed),
                    k.consumed d t state p,
                  )))
              (λ consumed leads.
                bind-Triple P (GoesTo Goes)
                  {V = λ row. (url : String) → github.parse row.redirect_uri ≡ some url → Goes url}
                  (or_exit-Triple P (GoesTo Goes) _ (λ row e url parsed. leads row url e parsed)
                    (return-Triple P (GoesTo Goes) _ tt))
                  (λ row goes.
                    bind-Triple P (GoesTo Goes) {V = Goes}
                      (or_exit-Triple P (GoesTo Goes) _ goes (fail-Triple P (GoesTo Goes)))
                      (λ url here. fetched url row code auth_code here new))))
      where
        Leads : Option OAuthState → Type 0
        Leads o =
            (row : OAuthState) (url : String)
            → o ≡ some row
            → github.parse row.redirect_uri ≡ some url
            → Goes url
