-- ===== src/Cargo/Restore/Cold.antt =====
-- Queueing one unit that the response holds, in `restore_units`
-- (packages/hurry/src/cargo/cache/restore.rs): it succeeds, and what it writes.
pub mod Loop
pub mod Laws
use hurry.Prelude.{
  ℕ, String, true, none, some, List, [], ◌∷◌, ◌++◌, ◌≡◌, refl, sym, ap, ◌∙◌, append-nil,
  append_assoc, All,
}
use hurry.Cargo.Result.{Result, ok, err, ◌>>=◌, ◌>>◌}
use hurry.Cargo.Units.{
  UnitHash, UnitPlanInfo, UnitPlan, library_crate, build_script_compilation, build_script_execution,
  info,
}
use hurry.Cargo.Fingerprint.{Fingerprint}
use hurry.Cargo.Restore.Progress.{
  RestoreProgress, is_initialized, add_pending, add_pending-initialized,
}
use hurry.Cargo.Restore.Queue.{
  Write, Effect, touched, wrote_fingerprint, created_out_dir, wrote_root_output, Env, RestoreState,
  with_effect, queued,
}
use hurry.Cargo.Restore.Queue.Files.{
  path_error, queue_file, queue_files, queue_library_crate, queue_build_script_compilation,
  queue_build_script_execution, queue_unit_files,
}
use hurry.Clients.Saved
use hurry.Clients.Saved.{Key, SavedFile, SavedUnit, CargoRestoreResponse}

-- The fingerprints that the loop wrote, with their units.
abbrev pub prints : List Effect → List (UnitHash × Fingerprint)
prints [] = []
prints (wrote_fingerprint h f ∷ effects) = (h, f) ∷ prints effects
prints (_ ∷ effects) = prints effects

pub prints-append : (xs ys : List Effect) → prints (xs ++ ys) ≡ prints xs ++ prints ys
prints-append [] ys = refl
prints-append (touched h t ∷ xs) ys = prints-append xs ys
prints-append (wrote_fingerprint h f ∷ xs) ys = ap (λ l. (h, f) ∷ l) (prints-append xs ys)
prints-append (created_out_dir h ∷ xs) ys = prints-append xs ys
prints-append (wrote_root_output h t ∷ xs) ys = prints-append xs ys

-- The saved unit is of the plan's kind.
abbrev pub Matches : SavedUnit → UnitPlan → Type 0
Matches (Saved.library_crate _ _) (library_crate _) = Unit
Matches (Saved.build_script_compilation _ _) (build_script_compilation _) = Unit
Matches (Saved.build_script_execution _ _) (build_script_execution _) = Unit
Matches _ _ = ⊥

-- The files of a saved unit that have paths of their own.
abbrev pub placed_files : SavedUnit → List SavedFile
placed_files (Saved.library_crate files _) = files.output_files
placed_files (Saved.build_script_compilation files _) = []
placed_files (Saved.build_script_execution files _) = files.out_dir_files

-- Each of the files has a destination.
abbrev pub HavePlaces : Env → UnitPlanInfo → List SavedFile → Type 0
HavePlaces env unit_info =
    All (λ (file : SavedFile). (path : String) × (env.destination unit_info file.path ≡ some path))

-- What the loop itself does to the disk for the unit succeeds.
pub record CanWrite (env : Env) (unit : UnitPlan) : Type 0 where
  pub fingerprint : (f : Fingerprint) → env.write_fingerprint unit f ≡ ok tt
  pub out_dir : env.create_out_dir (info unit) ≡ ok tt
  pub root_output : (mtime : ℕ) → env.write_root_output (info unit) mtime ≡ ok tt

-- A run that succeeds and queues files only: it leaves the rest as it was.
pub record Queues (h : UnitHash) (r : Result RestoreState) (s : RestoreState) : Type 0 where
  pub end : RestoreState
  pub runs : r ≡ ok end
  pub saved : end.saved_units ≡ s.saved_units
  pub restored : end.restored ≡ s.restored
  pub deps : end.dep_fingerprints ≡ s.dep_fingerprints
  pub ready : is_initialized end.pending h ≡ true
  pub printed : prints end.effects ≡ prints s.effects

Queues-bind :
    (h : UnitHash) (r : Result RestoreState) (next : RestoreState → Result RestoreState)
    (s : RestoreState) (q : Queues h r s)
    → Queues h (next q.end) q.end
    → Queues h (r >>= next) s
Queues-bind h r next s q n = record {
  end = n.end;
  runs = ap (λ x. x >>= next) q.runs ∙ n.runs;
  saved = n.saved ∙ q.saved;
  restored = n.restored ∙ q.restored;
  deps = n.deps ∙ q.deps;
  ready = n.ready;
  printed = n.printed ∙ q.printed;
}

queue_file-Queues :
    (h : UnitHash) (mtime : ℕ) (key : Key) (write : Write) (s : RestoreState)
    → is_initialized s.pending h ≡ true
    → Queues h (queue_file h mtime key write s) s
unfolding queue_file
queue_file-Queues h mtime key write s here =
    let (p, e, same) = add_pending-initialized h key s.pending here in
    record {
      end = record s {
        pending = p;
        files_to_restore = s.files_to_restore ++ queued h mtime key write ∷ [];
      };
      runs =
          ap
            (λ x. x >>= λ p. ok (record s {
              pending = p;
              files_to_restore = s.files_to_restore ++ queued h mtime key write ∷ [];
            }))
            e;
      saved = refl;
      restored = refl;
      deps = refl;
      ready = same h ∙ here;
      printed = refl;
    }

module _ (env : Env) where
  queue_files-Queues :
      (i : UnitPlanInfo) (mtime : ℕ) (files : List SavedFile) (s : RestoreState)
      → HavePlaces env i files
      → is_initialized s.pending i.unit_hash ≡ true
      → Queues i.unit_hash (queue_files env i mtime files s) s
  unfolding queue_files
  queue_files-Queues i mtime [] s places here = record {
    end = s;
    runs = refl;
    saved = refl;
    restored = refl;
    deps = refl;
    ready = here;
    printed = refl;
  }
  queue_files-Queues i mtime (file ∷ files) s (place, places) here =
      let q = queue_file-Queues i.unit_hash mtime file.object_key _ s here in
      rw (place.1) (
        Queues-bind i.unit_hash _ (λ s'. queue_files env i mtime files s') s q
          (queue_files-Queues i mtime files q.end places q.ready))

  -- One more file.
  add_file :
      (h : UnitHash) (mtime : ℕ) (key : Key) (write : Write) (r : Result RestoreState)
      (s : RestoreState)
      → Queues h r s
      → Queues h (r >>= λ s'. queue_file h mtime key write s') s
  add_file h mtime key write r s q =
      Queues-bind h r (λ s'. queue_file h mtime key write s') s q
        (queue_file-Queues h mtime key write q.end q.ready)

  two_files :
      (h : UnitHash) (mtime : ℕ) (k₁ k₂ : Key) (w₁ w₂ : Write) (r : Result RestoreState)
      (s : RestoreState)
      → Queues h r s
      → Queues h (r >>= λ s₁. queue_file h mtime k₁ w₁ s₁ >>= λ s₂. queue_file h mtime k₂ w₂ s₂) s
  two_files h mtime k₁ k₂ w₁ w₂ r s q =
      Queues-bind h r (λ s₁. queue_file h mtime k₁ w₁ s₁ >>= λ s₂. queue_file h mtime k₂ w₂ s₂) s q
        (add_file h mtime k₂ w₂ (queue_file h mtime k₁ w₁ q.end) q.end
          (queue_file-Queues h mtime k₁ w₁ q.end q.ready))

  -- An effect that writes no fingerprint.
  quiet :
      (h : UnitHash) (s : RestoreState) (e : Effect)
      → prints (e ∷ []) ≡ []
      → is_initialized s.pending h ≡ true
      → Queues h (ok (with_effect s e)) s
  quiet h s e none_printed here = record {
    end = with_effect s e;
    runs = refl;
    saved = refl;
    restored = refl;
    deps = refl;
    ready = here;
    printed =
        prints-append s.effects (e ∷ [])
        ∙ ap (λ l. prints s.effects ++ l) none_printed
        ∙ append-nil _;
  }

  -- The files of a unit of the plan's kind can be queued.
  pub queue_unit_files-Queues :
      (mtime : ℕ) (saved : SavedUnit) (unit : UnitPlan) (s : RestoreState)
      → Matches saved unit
      → HavePlaces env (info unit) (placed_files saved)
      → CanWrite env unit
      → is_initialized s.pending (info unit).unit_hash ≡ true
      → Queues (info unit).unit_hash (queue_unit_files env mtime saved unit s) s
  unfolding queue_unit_files info queue_library_crate queue_build_script_compilation
      queue_build_script_execution
  queue_unit_files-Queues mtime (Saved.library_crate files _) (library_crate plan) s kind places can
        here =
      two_files _ mtime _ _ _ _ _ s
        (queue_files-Queues plan.info mtime files.output_files s places here)
  queue_unit_files-Queues mtime (Saved.build_script_compilation files _)
        (build_script_compilation plan) s kind places can here =
      two_files _ mtime _ _ _ _ _ s (queue_file-Queues _ mtime files.compiled_program _ s here)
  queue_unit_files-Queues mtime (Saved.build_script_execution files _) (build_script_execution plan)
        s kind places can here =
      let h = plan.info.unit_hash in
      let last : RestoreState → Result RestoreState = λ s₃.
        env.write_root_output plan.info mtime >> ok (with_effect s₃ (wrote_root_output h mtime)) in
      let from_stderr : RestoreState → Result RestoreState =
        λ s₂. queue_file h mtime files.stderr Write.stderr s₂ >>= last in
      let from_stdout : RestoreState → Result RestoreState =
        λ s₁. queue_file h mtime files.stdout Write.stdout s₁ >>= from_stderr in
      let q₀ = quiet h s (created_out_dir h) refl here in
      let q₁ = queue_files-Queues plan.info mtime files.out_dir_files q₀.end places q₀.ready in
      let q₂ = queue_file-Queues h mtime files.stdout Write.stdout q₁.end q₁.ready in
      let q₃ = queue_file-Queues h mtime files.stderr Write.stderr q₂.end q₂.ready in
      rw can.out_dir (
        Queues-bind h (ok (with_effect s (created_out_dir h)))
          (λ s₀. queue_files env plan.info mtime files.out_dir_files s₀ >>= from_stdout) s q₀
          (Queues-bind h (queue_files env plan.info mtime files.out_dir_files q₀.end) from_stdout
            q₀.end q₁
            (Queues-bind h (queue_file h mtime files.stdout Write.stdout q₁.end) from_stderr q₁.end
              q₂
              (Queues-bind h (queue_file h mtime files.stderr Write.stderr q₂.end) last q₂.end q₃ (
                rw (can.root_output mtime)
                  (quiet h q₃.end (wrote_root_output h mtime) refl q₃.ready))))))
  queue_unit_files-Queues mtime _ _ s kind places can here = absurd kind
