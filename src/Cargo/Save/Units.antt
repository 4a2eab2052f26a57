-- ===== src/Cargo/Save/Units.antt =====
-- What `save_units` (packages/hurry/src/cargo/cache/save.rs) reads, counts and sends, and
-- `rewrite_fingerprint`.
use hurry.Prelude.{
  ℕ, ◌+◌, String, ◌==◌, Bool, false, Option, none, some, List, [], ◌∷◌, ◌++◌, map, if◌then◌else◌,
  contains,
}
use hurry.Cargo.Result.{Result, ok, err, unexpected_root, ◌>>=◌}
use hurry.Cargo.Target.{RustcTarget, RustcTargetPlatform, unsupported, as_str, target_str}
use hurry.Cargo.Units.{
  UnitHash, UnitPlan, UnitPlanInfo, LibraryCrateUnitPlan, BuildScriptCompilationUnitPlan,
  BuildScriptExecutionUnitPlan,
}
use hurry.Cargo.Path.{
  QualifiedPath, rootless, relative_target_profile, relative_cargo_home, absolute, Paths, parse_abs,
}
use hurry.Cargo.Fingerprint.{Fingerprint, Hashers, rewrite}
use hurry.Clients.Glibc.{GlibcVersion}
use hurry.Clients.Requests.{CargoSaveUnitRequest}
use hurry.Clients.Saved.{
  Key, SavedPlanInfo, SavedFile, LibraryCratePlan, BuildScriptCompilationPlan,
  BuildScriptExecutionPlan,
}

-- A file that is saved (`SavedFile` of cache.rs); contents are bytes, and texts here.
pub record OutputFile : Type 0 where
  pub path : QualifiedPath
  pub contents : String
  pub executable : Bool

-- What `read` of a library crate's plan finds; `dep_info_file` is the JSON of the parsed file.
pub record LibraryRead : Type 0 where
  pub output_files : List OutputFile
  pub dep_info_file : String
  pub encoded_dep_info_file : String
  pub fingerprint : Fingerprint

-- The same of a build script's compilation.
pub record CompiledRead : Type 0 where
  pub compiled_program : String
  pub dep_info_file : String
  pub encoded_dep_info_file : String
  pub fingerprint : Fingerprint

-- The same of a build script's run; `stdout` is the JSON of the parsed output.
pub record OutputRead : Type 0 where
  pub out_dir_files : List OutputFile
  pub stdout : String
  pub stderr : String
  pub fingerprint : Fingerprint

-- `BulkStoreResult`: the keys that were written, that were there, and that failed.
pub record BulkStoreResult : Type 0 where
  pub written : List Key
  pub skipped : List Key
  pub errors : List Key

-- The workspace, the disk, and other crates.
pub record SaveEnv : Type 0 where
  pub hashers : Hashers
  pub paths : Paths
  pub host_arch : RustcTargetPlatform
  pub host_glibc_version : Result (Option GlibcVersion)
  pub read_library : LibraryCrateUnitPlan → Result LibraryRead
  pub read_compilation : BuildScriptCompilationUnitPlan → Result CompiledRead
  pub read_execution : BuildScriptExecutionUnitPlan → Result OutputRead
  pub read_fingerprint : UnitPlan → Result Fingerprint
  pub key_from_buffer : String → Key
  pub len : String → ℕ
  pub path_json : String → String
  pub qualified_json : QualifiedPath → String
  pub fingerprint_json : Fingerprint → String
  pub store_bulk : List (Key × String) → Result BulkStoreResult
  pub cargo_cache_save : List CargoSaveUnitRequest → Result (Unit {0})

pub record SaveProgress : Type 0 where
  pub uploaded_units : ℕ
  pub total_units : ℕ
  pub uploaded_files : ℕ
  pub uploaded_bytes : ℕ

-- The variables of `save_units`, the progress that it has reported, and what it has handed to the
-- store.
pub record SaveState : Type 0 where
  pub progress : SaveProgress
  pub reports : List SaveProgress
  pub save_requests : List CargoSaveUnitRequest
  pub dep_fingerprints : List (ℕ × Fingerprint)
  pub cas_uploads : List (Key × String)
  pub stored : List (Key × String)

-- `Restored`
pub record Restored : Type 0 where
  pub units : List UnitHash
  pub files : List Key

-- `==` on platforms
unfoldable pub eq_platform : RustcTargetPlatform → RustcTargetPlatform → Bool
unfolding as_str
eq_platform (unsupported s) (unsupported t) = s == t
eq_platform (unsupported s) b = false
eq_platform a (unsupported t) = false
eq_platform a b = as_str a == as_str b

-- `impl From<UnitPlanInfo> for courier::UnitPlanInfo`
unfoldable pub saved_info : UnitPlanInfo → SavedPlanInfo
unfolding target_str
saved_info plan_info = record {
  unit_hash = plan_info.unit_hash;
  package_name = plan_info.package_name;
  crate_name = plan_info.crate_name;
  target_arch = target_str plan_info.target_arch;
}

module _ (env : SaveEnv) where
  -- `impl TryFrom<LibraryCrateUnitPlan>`; a path's JSON is always written.
  unfoldable pub saved_library : LibraryCrateUnitPlan → LibraryCratePlan
  unfolding saved_info
  saved_library plan = record {
    info = saved_info plan.info;
    src_path = env.path_json plan.src_path;
    outputs = map env.path_json plan.outputs;
  }

  unfoldable pub saved_compilation : BuildScriptCompilationUnitPlan → BuildScriptCompilationPlan
  unfolding saved_info
  saved_compilation plan = record {
    info = saved_info plan.info;
    src_path = env.path_json plan.src_path;
  }

  unfoldable pub saved_execution : BuildScriptExecutionUnitPlan → BuildScriptExecutionPlan
  unfolding saved_info
  saved_execution plan = record {
    info = saved_info plan.info;
    build_script_program_name = plan.build_script_program_name;
  }

  abbrev in_cargo_home : QualifiedPath → Result (Option String)
  in_cargo_home (relative_cargo_home p) = ok (some (env.paths.join "/cargo_home" p))
  in_cargo_home (rootless p) = err unexpected_root
  in_cargo_home (relative_target_profile p) = err unexpected_root
  in_cargo_home (absolute p) = err unexpected_root

  -- The path that `rewrite_fingerprint` gives to `rewrite`.
  unfoldable pub shared_path : RustcTarget → Option String → Result (Option String)
  unfolding parse_abs
  shared_path target none = ok none
  shared_path target (some src_path) = in_cargo_home (parse_abs env.paths target src_path)

  -- `rewrite_fingerprint`: the stored text and the map after it.
  unfoldable pub rewrite_fingerprint :
      RustcTarget
      → Option String
      → List (ℕ × Fingerprint)
      → Fingerprint
      → Result (String × List (ℕ × Fingerprint))
  unfolding shared_path rewrite
  rewrite_fingerprint target src_path dep_fingerprints on_disk = do
    path ← shared_path target src_path
    rewritten ← rewrite env.hashers on_disk path dep_fingerprints
    ok (env.fingerprint_json rewritten.0, rewritten.1)

  -- The saved form of a file.
  abbrev pub saved_file : OutputFile → SavedFile
  saved_file file = record {
    executable = file.executable;
    object_key = env.key_from_buffer file.contents;
    path = env.qualified_json file.path;
  }

  module _ (skip : Restored) where
    -- `if !skip.files.contains(&key) { .. cas_uploads.push((key, contents)) }`
    unfoldable pub upload : String → SaveState → SaveState
    unfolding contains
    upload contents s = if contains skip.files (env.key_from_buffer contents) then s else record s {
      progress = record (s.progress) {
        uploaded_files = s.progress.uploaded_files + 1;
        uploaded_bytes = s.progress.uploaded_bytes + env.len contents;
      };
      cas_uploads = s.cas_uploads ++ (env.key_from_buffer contents, contents) ∷ [];
    }

    unfoldable pub upload_files : List OutputFile → SaveState → SaveState
    unfolding upload
    upload_files [] s = s
    upload_files (file ∷ files) s = upload_files files (upload file.contents s)

  abbrev pub if_stored : SaveState → Result BulkStoreResult → Result SaveState
  if_stored s (err e) = err e
  if_stored s (ok result) = ok (record s { stored = s.stored ++ s.cas_uploads })

  -- `if !cas_uploads.is_empty() { cas.store_bulk(..).await?; }`; its result is dropped.
  unfoldable pub store_uploads : SaveState → Result SaveState
  store_uploads s = elim s.cas_uploads [
    | [] ↦ ok s
    | x ∷ xs ↦ if_stored s (env.store_bulk s.cas_uploads)
  ]
