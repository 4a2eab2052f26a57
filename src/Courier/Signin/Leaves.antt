-- ===== src/Courier/Signin/Leaves.antt =====
-- Rules for what the tables satisfy after a handler of the sign-in
-- (packages/courier/src/api/v1/oauth) that succeeds.
use hurry.Prelude.{Bool, true, false, Option, none, some, ℕ, ◌≡◌, refl, if◌then◌else◌}
use hurry.Courier.Calls.{Exit, value, returned, failed}
use hurry.Courier.Signin.Calls.{
  Store, Site, Call, tick, commit, execute, ◌>>=◌, follow, answer, respond,
}
use hurry.Courier.Signin.Triples.{Any, Triple, Post}

module _ {R : Type 0} (Succeeds : R → Type 0) (Q : Store → Type 0) where
  abbrev pub Left : Exit R R × Site → Type 0
  Left (value r, s) = Succeeds r → Q s.store
  Left (returned r, s) = Succeeds r → Q s.store
  Left (failed, s) = Unit {0}

  -- Where a part succeeds, it leaves tables that `Q` holds of.
  pub record Leaves (m : Call R R) : Type 0 where
    pub left : (s : Site) → Left (m s)

  abbrev pub Fails : R → Type 0
  Fails r = Succeeds r → ⊥

  -- A part that does not succeed comes first.
  pub after-Leaves :
      {A : Type 0} {m : Call R A} {next : A → Call R R}
      → Triple Any Fails m Any
      → ((a : A) → Leaves (next a))
      → Leaves (m >>= next)
  unfolding ◌>>=◌
  after-Leaves {A} {m} {next} h k = record { left = λ s. continued (m s) (h.post s tt) }
    where
      continued : (r : Exit R A × Site) → Post Any Fails Any r → Left (follow next r)
      continued (value a, s') q = (k a).left s'
      continued (returned r, s') (q, u) = λ e. absurd (q e)
      continued (failed, s') q = tt

  -- What remains to be done, from tables that `Q` holds of.
  pub kept : {m : Call R R} → Triple Q Any m Any → (s : Site) → Q s.store → Left (m s)
  kept {m} h s p = ended (m s) (h.post s p)
    where
      ended : (r : Exit R R × Site) → Post Q Any Any r → Left r
      ended (value a, s') (u, q) = λ e. q
      ended (returned r, s') (u, q) = λ e. q
      ended (failed, s') q = tt

  -- A statement after which `Q` holds, if what follows succeeds.
  pub execute-Leaves :
      {A : Type 0} (statement : ℕ → Store → Option (A × Store)) (next : A → Call R R)
      → ((now : ℕ) (s : Site) (a : A) (s' : Site)
          → statement now s.store ≡ some (a, s'.store)
          → Left (next a s'))
      → Leaves (execute statement >>= next)
  unfolding ◌>>=◌ execute
  execute-Leaves {A} statement next h = record { left = λ s. reached s (s.down s.calls) }
    where
      done :
          (s : Site) (o : Option (A × Store))
          → statement (s.now s.calls) s.store ≡ o
          → Left (follow next (commit o s))
      done s none e = tt
      done s (some (a, d')) e = h (s.now s.calls) s a (record (tick s) { store = d' }) e

      reached :
          (s : Site) (b : Bool)
          → Left (
              follow next
                (if b then (failed, tick s) else commit (statement (s.now s.calls) s.store) s))
      reached s true = tt
      reached s false = done s (statement (s.now s.calls) s.store) refl

  pub respond-Leaves :
      {error : R} {m : Call R R} (s : Site)
      → Leaves m
      → Fails error
      → Succeeds (respond error m s).0
      → Q (respond error m s).1.store
  unfolding respond
  respond-Leaves {error} {m} s h bad e = answered (m s) (h.left s) e
    where
      answered :
          (r : Exit R R × Site) → Left r → Succeeds (answer error r).0 → Q (answer error r).1.store
      answered (value a, s') q e = q e
      answered (returned a, s') q e = q e
      answered (failed, s') q e = absurd (bad e)
