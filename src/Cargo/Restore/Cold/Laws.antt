-- ===== src/Cargo/Restore/Cold/Laws.antt =====
-- A restore from nothing, from the response to the fingerprints that Cargo finds afterwards:
-- `restore_units` (packages/hurry/src/cargo/cache/restore.rs).
use hurry.Prelude.{
  String, true, false, Bool, none, List, [], ◌∷◌, map, ◌≡◌, ◌≢◌, refl, sym, ap, subst, ◌∙◌, inl,
  inr, Bool-cases, All, append-nil, contains,
}
use hurry.Cargo.Units.{UnitHash, UnitPlan, info}
use hurry.Cargo.Fingerprint.{Fingerprint, hash_u64, stored}
use hurry.Cargo.Fingerprint.Relocate.{Tree, native_hash, on_disk}
use hurry.Cargo.Fingerprint.SaveRestore.{rewrite_units, inputs, IsPlan, rewrite_units-IsRelocated}
use hurry.Cargo.Restore.Filter.Complete.{AreDistinct}
use hurry.Cargo.Restore.Filter.{
  missing_dep, FilterState, filter_unit, filter_loop, filter_start,
  filter_units_with_incomplete_deps,
}
use hurry.Cargo.Restore.Queue.{Env}
use hurry.Cargo.Restore.Queue.Loop.{skipped, restore_start, restore_units}
use hurry.Cargo.Restore.Cold.Loop.{IsOffered, plan_of, calls, RestoresAll, queue_units-RestoresAll}
use hurry.Clients.Saved
use hurry.Clients.Saved.{CargoRestoreResponse}

-- All dependencies are among the hashes.
abbrev pub HaveDeps : List UnitHash → List UnitPlan → Type 0
HaveDeps available = All (λ unit. All (λ d. contains available d ≡ true) (info unit).deps)

no_missing_dep :
    (available deps : List UnitHash)
    → All (λ d. contains available d ≡ true) deps
    → missing_dep available deps ≡ none
unfolding missing_dep
no_missing_dep available [] h = refl
no_missing_dep available (d ∷ deps) h = rw (h.0) (no_missing_dep available deps h.1)

filter_nothing :
    (s : FilterState) (units : List UnitPlan) → HaveDeps s.available units → filter_loop s units ≡ s
unfolding filter_loop filter_unit
filter_nothing s [] h = refl
filter_nothing s (unit ∷ units) h = elim (Bool-cases (contains s.available (info unit).unit_hash)) [
  | inl available ↦
      rw (available, no_missing_dep s.available (info unit).deps h.0) (filter_nothing s units h.1)
  | inr absent ↦ rw absent (filter_nothing s units h.1)
]

filter_none :
    (units : List UnitPlan) (keys : List UnitHash)
    → HaveDeps keys units
    → (filter_units_with_incomplete_deps units keys []).0 ≡ []
unfolding filter_units_with_incomplete_deps filter_start
filter_none units keys h =
    ap (λ s. s.filtered_hashes)
      (filter_nothing (filter_start keys []) units
        (subst (λ l. HaveDeps l units) (sym (append-nil keys)) h))

skip_none :
    (exists : UnitPlan → Bool) (units : List UnitPlan)
    → All (λ unit. exists unit ≡ false) units
    → skipped exists units ≡ []
unfolding skipped
skip_none exists [] h = refl
skip_none exists (unit ∷ units) h = rw (h.0) (skip_none exists units h.1)

-- A plan with nothing on disk and everything in the response, saved with the sources in `shared`,
-- for a machine that has them in `target`.
pub record IsCold (env : Env) (shared target : String → String) (ts : List Tree)
    (us : List (UnitPlan × Fingerprint)) (saved_units : CargoRestoreResponse) : Type 0 where
  pub nonzero : (path : String) → env.hashers.path_hash path ≢ 0
  pub absent : All (λ unit. env.exists unit ≡ false) (plan_of us)
  pub offered : All (IsOffered env saved_units) us
  pub distinct : AreDistinct (plan_of us)
  pub deps : HaveDeps (Saved.keys saved_units) (plan_of us)
  pub builds : calls us ≡ inputs env.hashers shared target ts
  pub ordered : IsPlan env.hashers shared [] ts

-- A restore from nothing succeeds. If no unit is on disk, and the response holds each unit and each
-- dependency, the unit as one of its kind, with the fingerprint that Cargo computes for the shared
-- place of the sources; if no two units have one hash, dependencies come first, no two fingerprints
-- have one hash, the path hash is never zero, every path that a unit was saved with has a destination
-- in the workspace, and the loop's own writes for the units do not fail: then every
-- unit counts as restored, and the fingerprints that the loop writes, one for each unit in the plan's
-- order, have the hashes, and are stored as the fingerprints, that Cargo computes on the machine.
pub restore_units-RestoresAll :
    (env : Env) (shared target : String → String) (ts : List Tree)
    (us : List (UnitPlan × Fingerprint)) (saved_units : CargoRestoreResponse)
    → IsCold env shared target ts us saved_units
    → (fs : List Fingerprint) × RestoresAll
        (plan_of us)
        fs
        (restore_units env (plan_of us) saved_units)
        (restore_start saved_units [])
      × (map (hash_u64 env.hashers) fs ≡ map (native_hash env.hashers target) ts)
      × (map (stored env.hashers) fs ≡ map (on_disk env.hashers target) ts)
unfolding restore_units
restore_units-RestoresAll env shared target ts us saved_units c =
    let r = rewrite_units-IsRelocated env.hashers c.nonzero shared target ts [] [] c.ordered tt in
    let run =
      queue_units-RestoresAll env 0 us (restore_start saved_units []) r.moved_units c.offered
        c.distinct (ap (λ l. rewrite_units env.hashers l []) c.builds ∙ r.succeeds) in
    (
      r.moved_units,
      rw (skip_none env.exists (plan_of us) c.absent)
          (rw (filter_none (plan_of us) (Saved.keys saved_units) c.deps) run),
      r.hashes,
      r.kept,
    )
