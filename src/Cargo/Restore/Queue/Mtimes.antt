-- ===== src/Cargo/Restore/Queue/Mtimes.antt =====
-- Modification times in the loop of `restore_units` (packages/hurry/src/cargo/cache/restore.rs): a
-- file's time is its unit's place in the plan.
use hurry.Prelude.{List, ◌≡◌, some, All, All-append, get_elem?}
use hurry.Cargo.Result.{OnOk-bind, OnOk-any}
use hurry.Cargo.Units.{UnitHash}
use hurry.Cargo.Restore.Progress.{add_pending}
use hurry.Cargo.Restore.Queue.{FileRestoreKey, RestoreState}
use hurry.Cargo.Restore.Queue.Files.{queue_file}
use hurry.Cargo.Restore.Queue.Keeps.{Keeps}

-- The time is a place in the plan where the file's unit stands.
abbrev pub IsStamped : List UnitHash → FileRestoreKey → Type 0
IsStamped hs q = get_elem? hs q.mtime ≡ some q.unit_hash

abbrev pub IsOnTime : List UnitHash → RestoreState → Type 0
IsOnTime hs s = All (IsStamped hs) s.files_to_restore

-- Every step of the loop keeps the times.
pub IsOnTime-Keeps : (hs : List UnitHash) → Keeps hs (IsOnTime hs) (λ h s. Unit)
unfolding queue_file
IsOnTime-Keeps hs = record {
  file = λ h mtime key write s at t.
      OnOk-bind (λ _. Unit {0}) (λ s'. IsOnTime hs s' × Unit {0}) (add_pending h key s.pending) _
        (OnOk-any _)
        λ pending' _. (All-append (IsStamped hs) s.files_to_restore _ t.0 (at, tt), tt);
  rest = λ s saved_units restored deps t. t;
  init = λ h s t. (t, tt);
  touch = λ h mtime s at t. t;
  write = λ h s f t. t;
  create = λ h s t. t;
  output = λ h mtime s at t. t;
}
