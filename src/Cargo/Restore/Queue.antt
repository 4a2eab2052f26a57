-- ===== src/Cargo/Restore/Queue.antt =====
-- The main loop of `restore_units` (packages/hurry/src/cargo/cache/restore.rs): for each unit of the
-- plan, skip it, touch it, or write its fingerprint and queue its files.
-- Left out: what was written before an error stays on disk, while the model returns the error alone;
-- a failed `touch` is only logged by the code, so a touch is recorded as asked for. The names of a
-- unit's own files, which are built from the plan, are taken as well formed.
pub mod Files
pub mod Loop
pub mod Keeps
pub mod Mtimes
pub mod Laws
pub mod Gaps
pub mod Pending
use hurry.Prelude.{ℕ, String, Bool, Option, none, some, List, [], ◌∷◌, ◌++◌}
use hurry.Cargo.Result.{Result, ok, err, bad_json}
use hurry.Cargo.Units.{UnitHash, UnitPlanInfo, UnitPlan}
use hurry.Cargo.Fingerprint.{Fingerprint, Hashers}
use hurry.Cargo.Restore.Progress.{RestoreProgress}
use hurry.Clients.Saved.{Key, CargoRestoreResponse}

-- What the write closure of a queued file does with the bytes of its object.
pub data Write : Type 0 where
  -- write to a path, and set the executable bit
  to_path : (path : String) (executable : Bool) → Write
  -- parse, reconstruct for this workspace, and write the unit's dep-info file
  dep_info : Write
  encoded_dep_info : Write
  -- write the program, mark it executable, and hard link it
  program : Write
  -- parse, reconstruct for this workspace, and write the build script's output
  stdout : Write
  stderr : Write

-- `FileRestoreKey`; the closure also sets the modification time, in seconds after the epoch.
pub record FileRestoreKey : Type 0 where
  pub unit_hash : UnitHash
  pub key : Key
  pub write : Write
  pub mtime : ℕ

-- What the loop itself does to the disk.
pub data Effect : Type 0 where
  touched : UnitHash → (mtime : ℕ) → Effect
  wrote_fingerprint : UnitHash → Fingerprint → Effect
  created_out_dir : UnitHash → Effect
  wrote_root_output : UnitHash → (mtime : ℕ) → Effect

-- The response, the parsers and the disk are not part of the loop.
pub record Env : Type 0 where
  pub hashers : Hashers
  -- whether the unit's fingerprint file exists when the restore starts
  pub exists : UnitPlan → Bool
  -- `serde_json::from_str::<Fingerprint>`
  pub from_json : String → Option Fingerprint
  -- the unit's fingerprint file, read and parsed
  pub local_fingerprint : UnitPlan → Result Fingerprint
  -- the two files of the unit's fingerprint, its hash and its JSON text
  pub write_fingerprint : UnitPlan → Fingerprint → Result (Unit {0})
  -- `fs::create_dir_all` on the unit's out dir
  pub create_out_dir : UnitPlanInfo → Result (Unit {0})
  -- the unit's root-output file, written and stamped
  pub write_root_output : UnitPlanInfo → (mtime : ℕ) → Result (Unit {0})
  -- a saved path, parsed, reconstructed for the workspace and narrowed to an absolute path
  pub destination : UnitPlanInfo → String → Option String

pub record RestoreState : Type 0 where
  pub saved_units : CargoRestoreResponse
  pub restored : List UnitHash
  pub dep_fingerprints : List (ℕ × Fingerprint)
  pub pending : RestoreProgress
  pub files_to_restore : List FileRestoreKey
  pub effects : List Effect

abbrev pub or_error {ℓ} : {A : Type ℓ} → Option A → Result A
or_error none = err bad_json
or_error (some a) = ok a

abbrev pub with_effect : RestoreState → Effect → RestoreState
with_effect s e = record s { effects = s.effects ++ e ∷ [] }

abbrev pub queued : UnitHash → ℕ → Key → Write → FileRestoreKey
queued unit_hash mtime key write = record {
  unit_hash = unit_hash;
  key = key;
  write = write;
  mtime = mtime;
}
