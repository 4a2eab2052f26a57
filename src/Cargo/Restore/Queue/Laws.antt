-- ===== src/Cargo/Restore/Queue/Laws.antt =====
-- What `restore_units` (packages/hurry/src/cargo/cache/restore.rs) guarantees before it hands the
-- files to the workers, and where it gives up.
use mathlib.Core.List.{Memᴰ}
use hurry.Prelude.{
  ℕ, zero, suc, ◌<◌, true, false, some, List, [], ◌∷◌, ◌≡◌, sym, ap, ◌∙◌, subst, inl, inr, arith,
  All, All-Memᴰ, get_elem?, Bool-cases, contains, ◌==◌, eq_iff,
}
use hurry.Cargo.Result.{ok, OnOk}
use hurry.Cargo.Units.{UnitHash, UnitPlan, info}
use hurry.Cargo.Restore.Filter.Complete.{hashes, InOrder, AreDistinct}
use hurry.Cargo.Restore.Queue.{FileRestoreKey, Env, RestoreState}
use hurry.Cargo.Restore.Queue.Loop.{restore_units}
use hurry.Cargo.Restore.Queue.Mtimes.{IsStamped, IsOnTime, IsOnTime-Keeps}
use hurry.Cargo.Restore.Queue.Keeps.{queue_units-keeps}
use hurry.Clients.Saved.{CargoRestoreResponse}

contains_of_get_elem? :
    (xs : List UnitHash) (i : ℕ) (d : UnitHash) → get_elem? xs i ≡ some d → contains xs d ≡ true
unfolding contains
contains_of_get_elem? [] i d e = cc
contains_of_get_elem? (x ∷ xs) zero d e = ground (arith, eq_iff x d)
contains_of_get_elem? (x ∷ xs) (suc i) d e = ground (arith, contains_of_get_elem? xs i d)

All-contains :
    (P : UnitHash → Type 0) (xs : List UnitHash) (d : UnitHash)
    → All P xs
    → contains xs d ≡ true
    → P d
unfolding contains
All-contains P [] d h e = absurd (ground arith)
All-contains P (x ∷ xs) d h e = elim (Bool-cases (x == d)) [
  | inl same ↦ subst P ((eq_iff x d).0 same) h.0
  | inr other ↦ All-contains P xs d h.1 (ground arith)
]

-- In a plan in order a dependency stands before its dependent.
InOrder-lt :
    (units : List UnitPlan) (i j : ℕ) (u : UnitPlan) (d : UnitHash)
    → InOrder units
    → get_elem? units j ≡ some u
    → contains (info u).deps d ≡ true
    → get_elem? (hashes units) i ≡ some d
    → i < j
InOrder-lt [] i j u d o at dep e = cc
InOrder-lt (v ∷ units) i zero u d o at dep e =
    let same : v ≡ u = cc in
    let absent =
      All-contains (λ x. contains (hashes (v ∷ units)) x ≡ false) (info v).deps d o.0
        (rw same dep) in
    let present = contains_of_get_elem? (hashes (v ∷ units)) i d e in cc
InOrder-lt (v ∷ units) zero (suc j) u d o at dep e = omega arith
InOrder-lt (v ∷ units) (suc i) (suc j) u d o at dep e =
    omega (arith, InOrder-lt units i j u d o.1 at dep e)

contains-hashes :
    (units : List UnitPlan) (u : UnitPlan)
    → Memᴰ u units
    → contains (hashes units) (info u).unit_hash ≡ true
unfolding contains
contains-hashes [] u m = elim m [ ]
contains-hashes (v ∷ units) u (Memᴰ.head e) =
    ground (arith, eq_iff (info v).unit_hash (info u).unit_hash, ap (λ x. (info x).unit_hash) e)
contains-hashes (v ∷ units) u (Memᴰ.tail m) = ground (arith, contains-hashes units u m)

-- Where no two units have one hash, the place of a unit's hash is the unit's.
get_elem?-of_hash :
    (units : List UnitPlan) (i : ℕ) (u : UnitPlan)
    → AreDistinct units
    → Memᴰ u units
    → get_elem? (hashes units) i ≡ some (info u).unit_hash
    → get_elem? units i ≡ some u
get_elem?-of_hash [] i u d m e = elim m [ ]
get_elem?-of_hash (v ∷ units) zero u d (Memᴰ.head same) e = ap some (sym same)
get_elem?-of_hash (v ∷ units) zero u d (Memᴰ.tail m) e =
    let same : (info v).unit_hash ≡ (info u).unit_hash = cc in
    let present = contains-hashes units u m in
    let absent = ap (contains (hashes units)) (sym same) ∙ d.0 in cc
get_elem?-of_hash (v ∷ units) (suc i) u d (Memᴰ.head same) e =
    let present = contains_of_get_elem? (hashes units) i (info u).unit_hash e in
    let absent = ap (λ x. contains (hashes units) (info x).unit_hash) same ∙ d.0 in cc
get_elem?-of_hash (v ∷ units) (suc i) u d (Memᴰ.tail m) e = get_elem?-of_hash units i u d.1 m e

module _ (env : Env) (units : List UnitPlan) (saved_units : CargoRestoreResponse) (s : RestoreState)
    (runs : restore_units env units saved_units ≡ ok s) where
  restore_units-IsOnTime : IsOnTime (hashes units) s
  unfolding restore_units
  restore_units-IsOnTime =
      subst (OnOk (IsOnTime (hashes units))) runs
        (queue_units-keeps env (IsOnTime-Keeps (hashes units)) _ _ 0 units _ (λ k. ground arith) tt)

  -- After the loop has succeeded on a plan in dependency order, where no two units have one hash: if
  -- the unit of a queued file depends on the unit of another queued file, then the first file is
  -- stamped later than the other.
  pub restore_ordered :
      (q r : FileRestoreKey) (u : UnitPlan)
      → InOrder units
      → AreDistinct units
      → Memᴰ u units
      → Memᴰ q s.files_to_restore
      → Memᴰ r s.files_to_restore
      → (info u).unit_hash ≡ r.unit_hash
      → contains (info u).deps q.unit_hash ≡ true
      → q.mtime < r.mtime
  restore_ordered q r u o d mu mq mr same dep =
      let tq = All-Memᴰ (IsStamped (hashes units)) s.files_to_restore restore_units-IsOnTime mq in
      let tr = All-Memᴰ (IsStamped (hashes units)) s.files_to_restore restore_units-IsOnTime mr in
      let at = get_elem?-of_hash units r.mtime u d mu (tr ∙ ap some (sym same)) in
      InOrder-lt units q.mtime r.mtime u q.unit_hash o at dep tq
