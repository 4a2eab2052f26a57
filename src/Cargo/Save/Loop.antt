-- ===== src/Cargo/Save/Loop.antt =====
-- The loop of `save_units` (packages/hurry/src/cargo/cache/save.rs).
use hurry.Prelude.{
  ℕ, ◌+◌, ◌-◌, String, not, Option, none, some, List, [], ◌∷◌, ◌++◌, map, if◌then◌else◌, contains,
  length,
}
use hurry.Cargo.Result.{Result, ok, ◌>>=◌, ◌>>◌}
use hurry.Cargo.Target.{
  RustcTarget, specified, implicit_host, RustcTargetPlatform, as_str, uses_glibc,
}
use hurry.Cargo.Units.{
  LibraryCrateUnitPlan, BuildScriptCompilationUnitPlan, BuildScriptExecutionUnitPlan, UnitPlan,
  library_crate, build_script_compilation, build_script_execution, info, src_path,
}
use hurry.Cargo.Fingerprint.{Fingerprint}
use hurry.Clients.Glibc.{GlibcVersion}
use hurry.Clients.Saved.{SavedUnit}
use hurry.Clients.Saved
use hurry.Clients.Requests.{CargoSaveUnitRequest}
use hurry.Cargo.Save.Units.{
  LibraryRead, CompiledRead, OutputRead, SaveEnv, SaveState, SaveProgress, Restored, eq_platform,
  saved_library, saved_compilation, saved_execution, rewrite_fingerprint, saved_file, upload,
  upload_files, store_uploads,
}

-- `let mut cas_uploads = Vec::new();`
abbrev pub fresh : SaveState → SaveState
fresh s = record s { cas_uploads = [] }

module _ (env : SaveEnv) where
  -- The platform that a unit is compiled for.
  abbrev pub unit_arch : UnitPlan → RustcTargetPlatform
  unit_arch unit = arch_of (info unit).target_arch
    where
      arch_of : RustcTarget → RustcTargetPlatform
      arch_of (specified target_arch) = target_arch
      arch_of implicit_host = env.host_arch

  abbrev pub report : SaveProgress → SaveState → SaveState
  report progress s = record s { progress = progress; reports = s.reports ++ progress ∷ [] }

  -- `progress.total_units -= 1; on_progress(&progress);`
  abbrev pub one_less : SaveState → SaveState
  one_less s = report (record (s.progress) { total_units = s.progress.total_units - 1 }) s

  -- `progress.uploaded_units += 1; on_progress(&progress);`
  abbrev pub one_more : SaveState → SaveState
  one_more s = report (record (s.progress) { uploaded_units = s.progress.uploaded_units + 1 }) s

  -- A unit that was restored: only its fingerprint is rewritten, for its dependents.
  unfoldable pub skip_unit : UnitPlan → SaveState → Result SaveState
  unfolding rewrite_fingerprint
  skip_unit unit s = do
    fingerprint ← env.read_fingerprint unit
    rewritten ←
        rewrite_fingerprint env (info unit).target_arch (src_path unit) s.dep_fingerprints
          fingerprint
    ok (record (one_less s) { dep_fingerprints = rewritten.1 })

  abbrev pub request : SavedUnit → RustcTargetPlatform → Option GlibcVersion → CargoSaveUnitRequest
  request unit arch glibc_version = record {
    unit = unit;
    resolved_target = as_str arch;
    linux_glibc_version = glibc_version;
  }

  -- `save_requests.push(..)`, with the map that the rewriting left.
  abbrev pub push : CargoSaveUnitRequest → List (ℕ × Fingerprint) → SaveState → SaveState
  push r dep_fingerprints s = record s {
    save_requests = s.save_requests ++ r ∷ [];
    dep_fingerprints = dep_fingerprints;
  }

  -- What each arm ends with: the uploads are stored, the fingerprint is rewritten, and the request
  -- with its text is pushed.
  unfoldable pub finish :
      RustcTarget
      → Option String
      → Fingerprint
      → (String → CargoSaveUnitRequest)
      → SaveState
      → Result SaveState
  unfolding rewrite_fingerprint store_uploads
  finish target path on_disk make s = do
    stored ← store_uploads env s
    rewritten ← rewrite_fingerprint env target path stored.dep_fingerprints on_disk
    ok (push (make rewritten.0) rewritten.1 stored)

  module _ (skip : Restored) (glibc_version : Option GlibcVersion) where
    -- The uploads of each arm of `match unit`.
    abbrev pub library_uploads : LibraryRead → SaveState → SaveState
    library_uploads files s =
        upload env skip files.encoded_dep_info_file
          (upload env skip files.dep_info_file (upload_files env skip files.output_files (fresh s)))

    abbrev pub compiled_uploads : CompiledRead → SaveState → SaveState
    compiled_uploads files s =
        upload env skip files.encoded_dep_info_file
          (upload env skip files.dep_info_file (upload env skip files.compiled_program (fresh s)))

    abbrev pub output_uploads : OutputRead → SaveState → SaveState
    output_uploads files s =
        upload env skip files.stderr
          (upload env skip files.stdout (upload_files env skip files.out_dir_files (fresh s)))

    -- The requests that they push, from the fingerprint's text.
    abbrev pub library_request : LibraryCrateUnitPlan → LibraryRead → String → CargoSaveUnitRequest
    library_request plan files fingerprint_text =
        request
          (Saved.library_crate
            (record {
              output_files = map (saved_file env) files.output_files;
              fingerprint = fingerprint_text;
              dep_info_file = env.key_from_buffer files.dep_info_file;
              encoded_dep_info_file = env.key_from_buffer files.encoded_dep_info_file;
            })
            (saved_library env plan))
          (unit_arch (library_crate plan)) glibc_version

    abbrev pub compiled_request :
        BuildScriptCompilationUnitPlan → CompiledRead → String → CargoSaveUnitRequest
    compiled_request plan files fingerprint_text =
        request
          (Saved.build_script_compilation
            (record {
              compiled_program = env.key_from_buffer files.compiled_program;
              dep_info_file = env.key_from_buffer files.dep_info_file;
              fingerprint = fingerprint_text;
              encoded_dep_info_file = env.key_from_buffer files.encoded_dep_info_file;
            })
            (saved_compilation env plan))
          (unit_arch (build_script_compilation plan)) glibc_version

    abbrev pub output_request :
        BuildScriptExecutionUnitPlan → OutputRead → String → CargoSaveUnitRequest
    output_request plan files fingerprint_text =
        request
          (Saved.build_script_execution
            (record {
              out_dir_files = map (saved_file env) files.out_dir_files;
              stdout = env.key_from_buffer files.stdout;
              stderr = env.key_from_buffer files.stderr;
              fingerprint = fingerprint_text;
            })
            (saved_execution env plan))
          (unit_arch (build_script_execution plan)) glibc_version

    -- The arms of `match unit`.
    unfoldable pub save_unit : UnitPlan → SaveState → Result SaveState
    unfolding finish upload upload_files
    save_unit (library_crate plan) s = do
      files ← env.read_library plan
      finish plan.info.target_arch (some plan.src_path) files.fingerprint
          (library_request plan files) (library_uploads files s)
    save_unit (build_script_compilation plan) s = do
      files ← env.read_compilation plan
      finish plan.info.target_arch (some plan.src_path) files.fingerprint
          (compiled_request plan files) (compiled_uploads files s)
    save_unit (build_script_execution plan) s = do
      files ← env.read_execution plan
      finish plan.info.target_arch none files.fingerprint (output_request plan files)
          (output_uploads files s)

  module _ (skip : Restored) where
    -- A unit for a platform with glibc is saved with the host's version, if the host is that
    -- platform, and else not at all.
    unfoldable pub upload_unit : UnitPlan → SaveState → Result SaveState
    unfolding save_unit eq_platform uses_glibc info
    upload_unit unit s =
        if uses_glibc (unit_arch unit)
        then (if not (eq_platform (unit_arch unit) env.host_arch) then ok (one_less s) else (do
          glibc_version ← env.host_glibc_version
          saved ← save_unit skip glibc_version unit s
          ok (one_more saved)))
        else (do saved ← save_unit skip none unit s; ok (one_more saved))

    -- The body of the loop.
    unfoldable pub step : UnitPlan → SaveState → Result SaveState
    unfolding skip_unit upload_unit contains info
    step unit s =
        if contains skip.units (info unit).unit_hash then skip_unit unit s else upload_unit unit s

    unfoldable pub save_loop : List UnitPlan → SaveState → Result SaveState
    unfolding step
    save_loop [] s = ok s
    save_loop (unit ∷ units) s = do s' ← step unit s; save_loop units s'

  abbrev pub save_start : List UnitPlan → SaveState
  save_start units = record {
    progress = record {
      uploaded_units = 0;
      total_units = length units;
      uploaded_files = 0;
      uploaded_bytes = 0;
    };
    reports = [];
    save_requests = [];
    dep_fingerprints = [];
    cas_uploads = [];
    stored = [];
  }

  -- `save_units`: the loop, and the request to the server.
  unfoldable pub save_units : Restored → List UnitPlan → Result SaveState
  unfolding save_loop
  save_units skip units = do
    s ← save_loop skip units (save_start units)
    env.cargo_cache_save s.save_requests
    ok s
