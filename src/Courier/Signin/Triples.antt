-- ===== src/Courier/Signin/Triples.antt =====
-- Rules for what a handler of the sign-in (packages/courier/src/api/v1/oauth) leaves in the tables
-- and answers, whichever of its calls fail.
use hurry.Prelude.{◌∷◌, Bool, true, false, Option, none, some, ℕ, ◌≡◌, refl, if◌then◌else◌}
use hurry.Courier.Calls.{AuditRow, Exit, value, returned, failed}
use hurry.Courier.Signin.Calls.{
  Store, Site, Call, tick, commit, pure, return, fail, now_utc, execute, or_exit, ignored, ignore,
  ◌>>=◌, follow, log_audit_event, answer, respond,
}

abbrev pub Any {ℓ} : {A : Type ℓ} → A → Type 0
Any a = Unit {0}

module _ (P : Store → Type 0) {R : Type 0} (Ok : R → Type 0) where
  abbrev pub Post : {A : Type 0} → (A → Type 0) → Exit R A × Site → Type 0
  Post V (value a, s) = V a × P s.store
  Post V (returned r, s) = Ok r × P s.store
  Post V (failed, s) = P s.store

  -- From tables that `P` holds of, a part comes to a value that `V` holds of or to an answer that `Ok`
  -- holds of, or fails, and leaves tables that `P` holds of.
  pub record Triple {A : Type 0} (m : Call R A) (V : A → Type 0) : Type 0 where
    pub post : (s : Site) → P s.store → Post V (m s)

  pub fail-Triple : {A : Type 0} {V : A → Type 0} → Triple fail V
  fail-Triple = record { post = λ s p. p }

  pub now-Triple : Triple now_utc Any
  now-Triple = record { post = λ s p. (tt, p) }

  module _ {A : Type 0} {V : A → Type 0} where
    pub pure-Triple : (a : A) → V a → Triple (pure a) V
    pure-Triple a v = record { post = λ s p. (v, p) }

    pub return-Triple : (r : R) → Ok r → Triple (return r) V
    return-Triple r q = record { post = λ s p. (q, p) }

    pub execute-Triple :
        (statement : ℕ → Store → Option (A × Store))
        → ((now : ℕ) (d : Store) (a : A) (d' : Store)
            → P d
            → statement now d ≡ some (a, d')
            → V a × P d')
        → Triple (execute statement) V
    unfolding execute
    execute-Triple statement h = record { post = λ s p. reached s p (s.down s.calls) }
      where
        done :
            (s : Site)
            → P s.store
            → (o : Option (A × Store)) → statement (s.now s.calls) s.store ≡ o
            → Post V (commit o s)
        done s p none e = p
        done s p (some (a, d')) e = h (s.now s.calls) s.store a d' p e

        reached :
            (s : Site)
            → P s.store
            → (b : Bool)
            → Post V (if b then (failed, tick s) else commit (statement (s.now s.calls) s.store) s)
        reached s p true = p
        reached s p false = done s p (statement (s.now s.calls) s.store) refl

    pub or_exit-Triple :
        (o : Option A) {exit : Call R A}
        → ((a : A) → o ≡ some a → V a)
        → Triple exit V
        → Triple (or_exit o exit) V
    unfolding or_exit
    or_exit-Triple none h k = k
    or_exit-Triple (some a) h k = pure-Triple a (h a refl)

    pub if-Triple :
        (b : Bool) {m n : Call R A} → Triple m V → Triple n V → Triple (if b then m else n) V
    if-Triple true h k = h
    if-Triple false h k = k

    pub ignore-Triple : {m : Call R A} → Triple m V → Triple (ignore m) Any
    unfolding ignore
    ignore-Triple {m} h = record { post = λ s p. ended (m s) (h.post s p) }
      where
        ended : (r : Exit R A × Site) → Post V r → Post Any (ignored r)
        ended (value a, s') (v, q) = (tt, q)
        ended (returned r, s') q = q
        ended (failed, s') q = (tt, q)

    pub bind-Triple :
        {B : Type 0} {W : B → Type 0} {m : Call R A} {next : A → Call R B}
        → Triple m V
        → ((a : A) → V a → Triple (next a) W)
        → Triple (m >>= next) W
    unfolding ◌>>=◌
    bind-Triple {B} {W} {m} {next} h k = record { post = λ s p. continued (m s) (h.post s p) }
      where
        continued : (r : Exit R A × Site) → Post V r → Post W (follow next r)
        continued (value a, s') (v, q) = (k a v).post s' q
        continued (returned r, s') q = q
        continued (failed, s') q = q

  -- A statement whose value does not matter.
  pub write-Triple :
      {A : Type 0} (statement : ℕ → Store → Option (A × Store))
      → ((now : ℕ) (d : Store) (a : A) (d' : Store) → P d → statement now d ≡ some (a, d') → P d')
      → Triple (execute statement) Any
  write-Triple statement h = execute-Triple statement (λ now d a d' p e. (tt, h now d a d' p e))

  pub log-Triple : (row : AuditRow) → Triple (log_audit_event row) Any
  unfolding log_audit_event
  log-Triple row = record { post = λ s p. (tt, kept s p (s.down s.calls)) }
    where
      kept :
          (s : Site)
          → P s.store
          → (b : Bool) → P (if b then tick s else record (tick s) { audit = row ∷ s.audit }).store
      kept s p true = p
      kept s p false = p

  pub respond-Triple :
      {error : R} {m : Call R R} (s : Site)
      → Triple m Ok
      → Ok error
      → P s.store
      → Ok (respond error m s).0 × P (respond error m s).1.store
  unfolding respond
  respond-Triple {error} {m} s h k p = answered (m s) (h.post s p)
    where
      answered :
          (r : Exit R R × Site) → Post Ok r → Ok (answer error r).0 × P (answer error r).1.store
      answered (value a, s') q = q
      answered (returned a, s') q = q
      answered (failed, s') q = (k, q)
