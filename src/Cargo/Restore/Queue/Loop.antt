-- ===== src/Cargo/Restore/Queue/Loop.antt =====
-- The loop of `restore_units` (packages/hurry/src/cargo/cache/restore.rs) over the plan.
use hurry.Prelude.{
  ℕ, ◌+◌, Bool, Option, none, some, List, [], ◌∷◌, contains, insert, put_value, if◌then◌else◌,
}
use hurry.Cargo.Result.{Result, ok, ◌>>=◌, ◌>>◌}
use hurry.Cargo.Units.{UnitHash, UnitPlan, info, src_path}
use hurry.Cargo.Fingerprint.{Fingerprint, hash_u64, rewrite}
use hurry.Cargo.Restore.Filter.{filter_units_with_incomplete_deps}
use hurry.Cargo.Restore.Progress.{init_pending}
use hurry.Cargo.Restore.Queue.{touched, wrote_fingerprint, Env, RestoreState, or_error, with_effect}
use hurry.Cargo.Restore.Queue.Files.{queue_unit_files}
use hurry.Clients.Saved
use hurry.Clients.Saved.{SavedUnit, CargoRestoreResponse}

-- `units_to_skip`, as a function of the plan.
unfoldable pub skipped : (UnitPlan → Bool) → List UnitPlan → List UnitHash
skipped exists [] = []
skipped exists (unit ∷ units) =
    if exists unit
    then insert (info unit).unit_hash (skipped exists units)
    else skipped exists units

-- `Duration::from_secs(i)` after `starting_mtime`, which is the epoch.
abbrev pub starting_mtime : ℕ
starting_mtime = 0

-- The units on disk count as restored.
abbrev pub restore_start : CargoRestoreResponse → List UnitHash → RestoreState
restore_start saved_units units_to_skip = record {
  saved_units = saved_units;
  restored = units_to_skip;
  dep_fingerprints = [];
  pending = [];
  files_to_restore = [];
  effects = [];
}

module _ (env : Env) where
  -- A unit that is on disk and in the response: its local fingerprint stands for the cached one.
  unfoldable pub record_skipped : ℕ → UnitPlan → Fingerprint → RestoreState → Result RestoreState
  record_skipped mtime unit cached s = do
    local ← env.local_fingerprint unit
    ok (
        with_effect
          (record s {
            dep_fingerprints = put_value (hash_u64 env.hashers cached) local s.dep_fingerprints;
          })
          (touched (info unit).unit_hash mtime))

  -- A unit that is only in the response.
  unfoldable pub restore_unit :
      ℕ → UnitPlan → SavedUnit → Fingerprint → RestoreState → Result RestoreState
  unfolding queue_unit_files init_pending
  restore_unit mtime unit saved cached s = do
    let h = (info unit).unit_hash
    r ← rewrite env.hashers cached (src_path unit) s.dep_fingerprints
    env.write_fingerprint unit r.0
    s' ← queue_unit_files env mtime saved unit (
        with_effect (record s { dep_fingerprints = r.1; pending = init_pending h s.pending })
          (wrote_fingerprint h r.0))
    ok (record s' { restored = insert h s'.restored })

  -- The part of a round after the response was asked for the unit.
  unfoldable pub queue_saved :
      List UnitHash → ℕ → UnitPlan → Option SavedUnit → RestoreState → Result RestoreState
  unfolding record_skipped restore_unit
  queue_saved units_to_skip mtime unit none s = ok (
      if contains units_to_skip (info unit).unit_hash
      then with_effect s (touched (info unit).unit_hash starting_mtime)
      else s)
  queue_saved units_to_skip mtime unit (some saved) s = do
    cached ← or_error (env.from_json (Saved.fingerprint saved))
    (if contains units_to_skip (info unit).unit_hash
        then record_skipped mtime unit cached s
        else restore_unit mtime unit saved cached s)

  -- One round of the loop.
  unfoldable pub queue_unit :
      List UnitHash → List UnitHash → ℕ → UnitPlan → RestoreState → Result RestoreState
  unfolding queue_saved
  queue_unit units_to_skip incomplete mtime unit s =
      let h = (info unit).unit_hash in
      if contains incomplete h
      then ok s
      else (let (saved, rest) = Saved.take s.saved_units h in
          queue_saved units_to_skip mtime unit saved (record s { saved_units = rest }))

  unfoldable pub queue_units :
      List UnitHash → List UnitHash → ℕ → List UnitPlan → RestoreState → Result RestoreState
  queue_units units_to_skip incomplete i [] s = ok s
  queue_units units_to_skip incomplete i (unit ∷ units) s = do
    s' ← queue_unit units_to_skip incomplete i unit s
    queue_units units_to_skip incomplete (i + 1) units s'

  -- `restore_units` up to the point where the files are sent to the workers.
  unfoldable pub restore_units : List UnitPlan → CargoRestoreResponse → Result RestoreState
  unfolding queue_units
  restore_units units saved_units =
      let units_to_skip = skipped env.exists units in
      let incomplete =
        (filter_units_with_incomplete_deps units (Saved.keys saved_units) units_to_skip).0 in
      queue_units units_to_skip incomplete 0 units (restore_start saved_units units_to_skip)
