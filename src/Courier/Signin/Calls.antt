-- ===== src/Courier/Signin/Calls.antt =====
-- The tables of the sign-in (packages/courier/schema/schema.sql) and how its handlers call the
-- database. A call takes effect whole, or fails and changes nothing; `now n` is the time after `n`
-- calls, which the database and the server share.
use hurry.Prelude.{ℕ, ◌+◌, String, Bool, Option, none, some, List, ◌∷◌, if◌then◌else◌}
use hurry.Courier.Tables.{Db}
use hurry.Courier.Calls.{AuditRow, Exit, value, returned, failed}

-- `oauth_state`
pub record OAuthState : Type 0 where
  pub state_token : String
  pub pkce_verifier : String
  pub redirect_uri : String
  pub expires_at : ℕ

-- `oauth_exchange_code`; its unique hash stands for its id.
pub record ExchangeCode : Type 0 where
  pub code_hash : String
  pub account_id : ℕ
  pub redirect_uri : String
  pub new_user : Bool
  pub expires_at : ℕ
  pub redeemed_at : Option ℕ

-- `user_session`; its unique hash stands for its id.
pub record UserSession : Type 0 where
  pub account_id : ℕ
  pub session_token : String
  pub expires_at : ℕ
  pub last_accessed_at : ℕ

pub record Store : Type 0 where
  pub db : Db
  pub states : List OAuthState
  pub codes : List ExchangeCode
  pub sessions : List UserSession

pub record Site : Type 0 where
  pub store : Store
  pub audit : List AuditRow
  pub calls : ℕ
  pub down : ℕ → Bool
  pub now : ℕ → ℕ

abbrev pub Call : Type 0 → Type 0 → Type 0
Call R A = Site → Exit R A × Site

abbrev pub tick : Site → Site
tick s = record s { calls = s.calls + 1 }

module _ {R A : Type 0} where
  abbrev pub pure : A → Call R A
  pure a s = (value a, s)

  -- `return r;`
  abbrev pub return : R → Call R A
  return r s = (returned r, s)

  -- An error that is not of the database.
  abbrev pub fail : Call R A
  fail s = (failed, s)

  abbrev pub commit : Option (A × Store) → Site → Exit R A × Site
  commit none s = (failed, tick s)
  commit (some (a, store)) s = (value a, record (tick s) { store = store })

  -- A statement or a transaction, at the time of its call; none is a constraint that it breaks.
  unfoldable pub execute : (ℕ → Store → Option (A × Store)) → Call R A
  execute statement s =
      if s.down s.calls then (failed, tick s) else commit (statement (s.now s.calls) s.store) s

  -- `match o { Some(a) => a, None => exit }`
  unfoldable pub or_exit : Option A → Call R A → Call R A
  or_exit none exit = exit
  or_exit (some a) exit = pure a

  abbrev pub ignored : Exit R A × Site → Exit R (Unit {0}) × Site
  ignored (value a, s) = (value tt, s)
  ignored (returned r, s) = (returned r, s)
  ignored (failed, s) = (value tt, s)

  -- `if let Err(error) = m { error!(..) }`
  unfoldable pub ignore : Call R A → Call R (Unit {0})
  ignore m s = ignored (m s)

-- `OffsetDateTime::now_utc()`
abbrev pub now_utc : {R : Type 0} → Call R ℕ
now_utc s = (value (s.now s.calls), s)

abbrev pub follow : {R A B : Type 0} → (A → Call R B) → Exit R A × Site → Exit R B × Site
follow next (value a, s) = next a s
follow next (returned r, s) = (returned r, s)
follow next (failed, s) = (failed, s)

infixl 5 ◌>>=◌
unfoldable pub ◌>>=◌ : {R A B : Type 0} → Call R A → (A → Call R B) → Call R B
◌>>=◌ m next s = follow next (m s)

-- `let _ = db.log_audit_event(..)`: an error is ignored.
unfoldable pub log_audit_event : {R : Type 0} → AuditRow → Call R (Unit {0})
log_audit_event row s =
    (value tt, if s.down s.calls then tick s else record (tick s) { audit = row ∷ s.audit })

abbrev pub answer : {R : Type 0} → R → Exit R R × Site → R × Site
answer error (value r, s) = (r, s)
answer error (returned r, s) = (r, s)
answer error (failed, s) = (error, s)

-- The whole handler: what fails is answered by `Response::Error`.
unfoldable pub respond : {R : Type 0} → R → Call R R → Site → R × Site
respond error m s = answer error (m s)
