-- ===== src/Cargo/Restore/Queue/Files.antt =====
-- The files of one unit that `restore_units` (packages/hurry/src/cargo/cache/restore.rs) queues: the
-- match on the saved unit and the plan.
use hurry.Prelude.{ℕ, String, Option, none, some, List, [], ◌∷◌, ◌++◌}
use hurry.Cargo.Result.{Result, ok, err, bad_path, unit_type_mismatch, ◌>>=◌, ◌>>◌}
use hurry.Cargo.Units.{
  UnitHash, UnitPlanInfo, UnitPlan, library_crate, build_script_compilation, build_script_execution,
}
use hurry.Cargo.Restore.Progress.{add_pending}
use hurry.Cargo.Restore.Queue.{
  Write, to_path, dep_info, encoded_dep_info, program, stdout, stderr, created_out_dir,
  wrote_root_output, Env, RestoreState, with_effect, queued,
}
use hurry.Clients.Saved
use hurry.Clients.Saved.{
  Key, SavedFile, LibraryFiles, BuildScriptCompiledFiles, BuildScriptOutputFiles, SavedUnit,
}

-- The key is added to those of the unit, and the file to the queue.
unfoldable pub queue_file : UnitHash → ℕ → Key → Write → RestoreState → Result RestoreState
unfolding add_pending
queue_file h mtime key write s = do
  pending' ← add_pending h key s.pending
  ok (record s {
    pending = pending';
    files_to_restore = s.files_to_restore ++ queued h mtime key write ∷ [];
  })

module _ (env : Env) where
  abbrev pub path_error : Option String → Result String
  path_error none = err bad_path
  path_error (some path) = ok path

  -- The loops over `output_files` and `out_dir_files`.
  unfoldable pub queue_files :
      UnitPlanInfo → ℕ → List SavedFile → RestoreState → Result RestoreState
  unfolding queue_file
  queue_files unit_info mtime [] s = ok s
  queue_files unit_info mtime (file ∷ files) s = do
    path ← path_error (env.destination unit_info file.path)
    s' ← queue_file unit_info.unit_hash mtime file.object_key (to_path path file.executable) s
    queue_files unit_info mtime files s'

  unfoldable pub queue_library_crate :
      ℕ → LibraryFiles → UnitPlanInfo → RestoreState → Result RestoreState
  unfolding queue_files
  queue_library_crate mtime files unit_info s = do
    s₁ ← queue_files unit_info mtime files.output_files s
    s₂ ← queue_file unit_info.unit_hash mtime files.dep_info_file dep_info s₁
    queue_file unit_info.unit_hash mtime files.encoded_dep_info_file encoded_dep_info s₂

  unfoldable pub queue_build_script_compilation :
      ℕ → BuildScriptCompiledFiles → UnitPlanInfo → RestoreState → Result RestoreState
  unfolding queue_file
  queue_build_script_compilation mtime files unit_info s = do
    s₁ ← queue_file unit_info.unit_hash mtime files.compiled_program program s
    s₂ ← queue_file unit_info.unit_hash mtime files.dep_info_file dep_info s₁
    queue_file unit_info.unit_hash mtime files.encoded_dep_info_file encoded_dep_info s₂

  unfoldable pub queue_build_script_execution :
      ℕ → BuildScriptOutputFiles → UnitPlanInfo → RestoreState → Result RestoreState
  unfolding queue_files
  queue_build_script_execution mtime files unit_info s = do
    let h = unit_info.unit_hash
    env.create_out_dir unit_info
    s₁ ← queue_files unit_info mtime files.out_dir_files (with_effect s (created_out_dir h))
    s₂ ← queue_file h mtime files.stdout stdout s₁
    s₃ ← queue_file h mtime files.stderr stderr s₂
    env.write_root_output unit_info mtime
    ok (with_effect s₃ (wrote_root_output h mtime))

  unfoldable pub queue_unit_files : ℕ → SavedUnit → UnitPlan → RestoreState → Result RestoreState
  unfolding queue_library_crate queue_build_script_compilation queue_build_script_execution
  queue_unit_files mtime (Saved.library_crate files _) (library_crate plan) s =
      queue_library_crate mtime files plan.info s
  queue_unit_files mtime (Saved.build_script_compilation files _) (build_script_compilation plan)
        s =
      queue_build_script_compilation mtime files plan.info s
  queue_unit_files mtime (Saved.build_script_execution files _) (build_script_execution plan) s =
      queue_build_script_execution mtime files plan.info s
  queue_unit_files mtime _ _ s = err unit_type_mismatch
