-- ===== src/Courier/Calls.antt =====
-- How the server's handlers (packages/courier/src/api/v1) call the database and return: each call
-- takes effect whole, or fails and changes nothing.
pub mod Leads
use hurry.Prelude.{
  ℕ, ◌+◌, String, Bool, true, false, Option, none, some, List, [], ◌∷◌, if◌then◌else◌,
}
use hurry.Courier.Tables.{Db}

-- A row of `audit_log`, less the details.
pub record AuditRow : Type 0 where
  pub account_id : Option ℕ
  pub organization_id : Option ℕ
  pub action : String

-- `down n` says that the call of number `n` does not reach the database.
pub record World : Type 0 where
  pub db : Db
  pub audit : List AuditRow
  pub calls : ℕ
  pub down : ℕ → Bool

-- What a part of a handler comes to: a value for the rest, an early `return`, or a call's error.
pub data Exit (R : Type 0) (A : Type 0) : Type 0 where
  value : A → Exit R A
  returned : R → Exit R A
  failed : Exit R A

abbrev pub Call : Type 0 → Type 0 → Type 0
Call R A = World → Exit R A × World

abbrev pub tick : World → World
tick w = record w { calls = w.calls + 1 }

module _ {R A : Type 0} where
  abbrev pub pure : A → Call R A
  pure a w = (value a, w)

  -- `return r;`
  abbrev pub return : R → Call R A
  return r w = (returned r, w)

  -- A call that reads.
  unfoldable pub query : (Db → A) → Call R A
  query read w = if w.down w.calls then (failed, tick w) else (value (read w.db), tick w)

  abbrev pub commit : Option (A × Db) → World → Exit R A × World
  commit none w = (failed, tick w)
  commit (some (a, d)) w = (value a, record (tick w) { db = d })

  -- A statement or a transaction that writes; `none` is a constraint that it breaks.
  unfoldable pub execute : (Db → Option (A × Db)) → Call R A
  execute write w = if w.down w.calls then (failed, tick w) else commit (write w.db) w

  -- `match o { Some(a) => a, None => return r }`
  unfoldable pub or_return : Option A → R → Call R A
  or_return none r = return r
  or_return (some a) r = pure a

-- What follows a part, if it comes to a value.
abbrev pub follow : {R A B : Type 0} → (A → Call R B) → Exit R A × World → Exit R B × World
follow next (value a, w) = next a w
follow next (returned r, w) = (returned r, w)
follow next (failed, w) = (failed, w)

infixl 5 ◌>>=◌ ◌>>◌
unfoldable pub ◌>>=◌ : {R A B : Type 0} → Call R A → (A → Call R B) → Call R B
◌>>=◌ m next w = follow next (m w)

unfoldable pub ◌>>◌ : {R A B : Type 0} → Call R A → Call R B → Call R B
unfolding ◌>>=◌
m >> next = m >>= λ _. next

-- `if !b { return r; }`
unfoldable pub require : {R : Type 0} → Bool → R → Call R (Unit {0})
require true r = pure tt
require false r = return r

-- `let _ = db.log_audit_event(..)`: an error is ignored.
unfoldable pub log_audit_event : {R : Type 0} → AuditRow → Call R (Unit {0})
log_audit_event row w =
    (value tt, if w.down w.calls then tick w else record (tick w) { audit = row ∷ w.audit })

abbrev pub answer : {R : Type 0} → R → Exit R R × World → R × World
answer error (value r, w) = (r, w)
answer error (returned r, w) = (r, w)
answer error (failed, w) = (error, w)

-- The whole handler: a failed call is answered by `Response::Error`. What unfolds it unfolds the
-- calls too.
unfoldable pub respond : {R : Type 0} → R → Call R R → World → R × World
unfolding ◌>>=◌ ◌>>◌ query execute or_return require log_audit_event
respond error m w = answer error (m w)
