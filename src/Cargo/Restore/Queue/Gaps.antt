-- ===== src/Cargo/Restore/Queue/Gaps.antt =====
-- Two plans on which `restore_units` (packages/hurry/src/cargo/cache/restore.rs) does not do what its
-- comments promise: both have a unit on disk that the response does not hold.
use hurry.Prelude.{
  ℕ, String, true, false, Option, none, some, List, [], ◌∷◌, ◌++◌, ◌≡◌, ◌≢◌, refl, arith, contains,
  insert, contains-append, eq_refl, eq-false_of_ne, get_value,
}
use hurry.Cargo.Result.{ok, err, dep_not_found}
use hurry.Cargo.Units.{UnitHash, UnitPlan, info, src_path}
use hurry.Cargo.Fingerprint.{Fingerprint, fingerprint, nil, dep, rewrite}
use hurry.Cargo.Fingerprint.Rewrite.{fields_of, deps_of, CanMove}
use hurry.Cargo.Restore.Filter.{filter_units_with_incomplete_deps, filter_unit}
use hurry.Cargo.Restore.Queue.{touched, Env, RestoreState}
use hurry.Cargo.Restore.Queue.Loop.{
  skipped, queue_unit, queue_units, restore_start, restore_units, starting_mtime,
}
use hurry.Clients.Saved
use hurry.Clients.Saved.{SavedUnit, CargoRestoreResponse}

-- No dependency can be looked up in an empty map.
rewrite_no_entries :
    (env : Env) (f : Fingerprint) (path : Option String)
    → CanMove path (fields_of f)
    → deps_of f ≢ nil
    → rewrite env.hashers f path [] ≡ err dep_not_found
unfolding rewrite get_value
rewrite_no_entries env (fingerprint fields nil memo) path c d = absurd (d refl)
rewrite_no_entries env (fingerprint fields (dep p n v f deps) memo) none c d = refl
rewrite_no_entries env (fingerprint fields (dep p n v f deps) memo) (some path) c d = ground arith

abbrev after_touch : RestoreState → UnitHash → RestoreState
after_touch s h = record s {
  saved_units = Saved.without s.saved_units h;
  effects = s.effects ++ touched h starting_mtime ∷ [];
}

-- A round for a unit that is on disk and not in the response.
touch_round :
    (env : Env) (skip incomplete : List UnitHash) (i : ℕ) (unit : UnitPlan) (s : RestoreState)
    → contains skip (info unit).unit_hash ≡ true
    → contains incomplete (info unit).unit_hash ≡ false
    → Saved.get s.saved_units (info unit).unit_hash ≡ none
    → queue_unit env skip incomplete i unit s ≡ ok (after_touch s (info unit).unit_hash)
unfolding queue_unit Saved.take
touch_round env skip incomplete i unit s on_disk complete unsaved =
    rw (complete, unsaved) (rw on_disk)

-- A round for a unit of the response that is not on disk, when no fingerprint was recorded before.
failing_round :
    (env : Env) (skip incomplete : List UnitHash) (i : ℕ) (unit : UnitPlan) (s : RestoreState)
    (saved : SavedUnit) (f : Fingerprint)
    → contains skip (info unit).unit_hash ≡ false
    → contains incomplete (info unit).unit_hash ≡ false
    → Saved.get s.saved_units (info unit).unit_hash ≡ some saved
    → env.from_json (Saved.fingerprint saved) ≡ some f
    → s.dep_fingerprints ≡ []
    → CanMove (src_path unit) (fields_of f)
    → deps_of f ≢ nil
    → queue_unit env skip incomplete i unit s ≡ err dep_not_found
unfolding queue_unit Saved.take
failing_round env skip incomplete i unit s saved f new complete is_saved parses empty can deps =
    rw (complete, is_saved)
      (rw parses (rw new (rw empty (rw (rewrite_no_entries env f (src_path unit) can deps)))))

module _ (env : Env) (saved_units : CargoRestoreResponse) (b c : UnitPlan)
    (b_on_disk : env.exists b ≡ true) (c_new : env.exists c ≡ false) (b_alone : (info b).deps ≡ [])
    (c_needs_b : (info c).deps ≡ (info b).unit_hash ∷ [])
    (distinct : (info b).unit_hash ≢ (info c).unit_hash)
    (b_unsaved : Saved.get saved_units (info b).unit_hash ≡ none) where
  skip_list : skipped env.exists (b ∷ c ∷ []) ≡ (info b).unit_hash ∷ []
  unfolding skipped insert
  skip_list = rw (b_on_disk, c_new)

  b_available :
      contains (Saved.keys saved_units ++ (info b).unit_hash ∷ []) (info b).unit_hash ≡ true
  unfolding contains
  b_available = ground (
    arith,
    contains-append (info b).unit_hash (Saved.keys saved_units) ((info b).unit_hash ∷ []),
    eq_refl (info b).unit_hash,
  )

  nothing_filtered :
      (filter_units_with_incomplete_deps
        (b ∷ c ∷ [])
        (Saved.keys saved_units)
        ((info b).unit_hash ∷ [])).0
      ≡ []
  unfolding filter_units_with_incomplete_deps filter_unit
  nothing_filtered = simp (b_alone, c_needs_b, b_available) (ground (arith, b_available))

  -- A plan of two units, where the first is on disk and not in the response and has no dependencies,
  -- and the second is not on disk and needs only the first: if the response holds the second, its
  -- fingerprint parses and has a dependency, and its path can be replaced, then the restore ends with
  -- the error that the dependency's fingerprint hash was not found.
  pub restore_aborts :
      (saved : SavedUnit) (f : Fingerprint)
      → Saved.get saved_units (info c).unit_hash ≡ some saved
      → env.from_json (Saved.fingerprint saved) ≡ some f
      → CanMove (src_path c) (fields_of f)
      → deps_of f ≢ nil
      → restore_units env (b ∷ c ∷ []) saved_units ≡ err dep_not_found
  unfolding restore_units queue_units contains
  restore_aborts saved f c_saved parses can_move has_deps =
      rw (skip_list, nothing_filtered)
        (rw (touch_round env ((info b).unit_hash ∷ []) [] 0 b s₀ b_skipped refl b_unsaved) (
          rw (
            failing_round env ((info b).unit_hash ∷ []) [] 1 c (after_touch s₀ (info b).unit_hash)
              saved f c_not_skipped refl c_left parses refl can_move has_deps)))
    where
      s₀ : RestoreState
      s₀ = restore_start saved_units ((info b).unit_hash ∷ [])

      b_skipped : contains ((info b).unit_hash ∷ []) (info b).unit_hash ≡ true
      b_skipped = ground (arith, eq_refl (info b).unit_hash)

      c_not_skipped : contains ((info b).unit_hash ∷ []) (info c).unit_hash ≡ false
      c_not_skipped = ground (arith, eq-false_of_ne (info b).unit_hash (info c).unit_hash)

      c_left :
          Saved.get (Saved.without saved_units (info b).unit_hash) (info c).unit_hash ≡ some saved
      c_left = ground (
        arith,
        Saved.get-without saved_units (info b).unit_hash (info c).unit_hash,
        eq-false_of_ne (info b).unit_hash (info c).unit_hash,
      )
