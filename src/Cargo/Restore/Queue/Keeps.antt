-- ===== src/Cargo/Restore/Queue/Keeps.antt =====
-- Invariants of the loop of `restore_units` (packages/hurry/src/cargo/cache/restore.rs): what each
-- step of a round must keep, and that the loop keeps it then.
use hurry.Prelude.{
  ℕ, suc, ◌+◌, Option, none, some, List, [], ◌∷◌, ◌≡◌, refl, inl, inr, ◌⊎◌, arith, get_elem?,
  Bool-cases, contains,
}
use hurry.Cargo.Result.{Result, OnOk, OnOk-bind, OnOk-any, ◌>>=◌}
use hurry.Cargo.Units.{
  UnitHash, UnitPlanInfo, UnitPlan, library_crate, build_script_compilation, build_script_execution,
  info, src_path,
}
use hurry.Cargo.Fingerprint.{Fingerprint, rewrite}
use hurry.Cargo.Restore.Filter.Complete.{hashes}
use hurry.Cargo.Restore.Progress.{init_pending}
use hurry.Cargo.Restore.Queue.{
  Write, touched, wrote_fingerprint, created_out_dir, wrote_root_output, Env, RestoreState,
  or_error, with_effect,
}
use hurry.Cargo.Restore.Queue.Files.{
  path_error, queue_file, queue_files, queue_library_crate, queue_build_script_compilation,
  queue_build_script_execution, queue_unit_files,
}
use hurry.Cargo.Restore.Queue.Loop.{
  starting_mtime, record_skipped, restore_unit, queue_saved, queue_unit, queue_units,
}
use hurry.Clients.Saved
use hurry.Clients.Saved.{Key, SavedFile, SavedUnit, CargoRestoreResponse}

-- The fields that an invariant of the queue and the effects does not read.
abbrev pub with_rest :
    RestoreState → CargoRestoreResponse → List UnitHash → List (ℕ × Fingerprint) → RestoreState
with_rest s saved_units restored dep_fingerprints = record s {
  saved_units = saved_units;
  restored = restored;
  dep_fingerprints = dep_fingerprints;
}

-- What an invariant must satisfy, for a plan with the given hashes. A file is queued only for a unit
-- whose progress was initialized in the same round, `Ready`.
pub record Keeps (hs : List UnitHash) (P : RestoreState → Type 0)
    (Ready : UnitHash → RestoreState → Type 0) : Type 0 where
  pub file :
      (h : UnitHash) (mtime : ℕ) (key : Key) (write : Write) (s : RestoreState)
      → get_elem? hs mtime ≡ some h
      → P s × Ready h s
      → OnOk (λ s'. P s' × Ready h s') (queue_file h mtime key write s)
  pub rest :
      (s : RestoreState) (saved_units : CargoRestoreResponse) (restored : List UnitHash)
      (dep_fingerprints : List (ℕ × Fingerprint))
      → P s
      → P (with_rest s saved_units restored dep_fingerprints)
  pub init :
      (h : UnitHash) (s : RestoreState)
      → P s
      → P (record s { pending = init_pending h s.pending })
        × Ready h (record s { pending = init_pending h s.pending })
  pub touch :
      (h : UnitHash) (mtime : ℕ) (s : RestoreState)
      → (get_elem? hs mtime ≡ some h) ⊎ (mtime ≡ starting_mtime)
      → P s
      → P (with_effect s (touched h mtime))
  pub write :
      (h : UnitHash) (s : RestoreState) (f : Fingerprint)
      → P s × Ready h s
      → P (with_effect s (wrote_fingerprint h f)) × Ready h (with_effect s (wrote_fingerprint h f))
  pub create :
      (h : UnitHash) (s : RestoreState)
      → P s × Ready h s
      → P (with_effect s (created_out_dir h)) × Ready h (with_effect s (created_out_dir h))
  pub output :
      (h : UnitHash) (mtime : ℕ) (s : RestoreState)
      → get_elem? hs mtime ≡ some h
      → P s
      → P (with_effect s (wrote_root_output h mtime))

module _ (env : Env) {hs : List UnitHash} {P : RestoreState → Type 0}
    {Ready : UnitHash → RestoreState → Type 0} (k : Keeps hs P Ready) where
  abbrev Both : UnitHash → RestoreState → Type 0
  Both h s = P s × Ready h s

  queue_files-keeps :
      (unit_info : UnitPlanInfo) (mtime : ℕ) (files : List SavedFile) (s : RestoreState)
      → get_elem? hs mtime ≡ some unit_info.unit_hash
      → Both unit_info.unit_hash s
      → OnOk (Both unit_info.unit_hash) (queue_files env unit_info mtime files s)
  unfolding queue_files
  queue_files-keeps unit_info mtime [] s at t = t
  queue_files-keeps unit_info mtime (file ∷ files) s at t =
      OnOk-bind (λ _. Unit {0}) (Both unit_info.unit_hash)
        (path_error env (env.destination unit_info file.path)) _ (OnOk-any _)
        λ path _.
          OnOk-bind (Both unit_info.unit_hash) (Both unit_info.unit_hash) (queue_file _ mtime _ _ s)
            _ (k.file _ mtime _ _ s at t) λ s' t'. queue_files-keeps unit_info mtime files s' at t'

  -- Two more files after a part of the queueing.
  then_two :
      (h : UnitHash) (mtime : ℕ) (r : Result RestoreState) (k₁ k₂ : Key) (w₁ w₂ : Write)
      → get_elem? hs mtime ≡ some h
      → OnOk (Both h) r
      → OnOk
          (Both h)
          (r >>= λ s₁. queue_file h mtime k₁ w₁ s₁ >>= λ s₂. queue_file h mtime k₂ w₂ s₂)
  then_two h mtime r k₁ k₂ w₁ w₂ at t = OnOk-bind (Both h) (Both h) r _ t λ s₁ t₁.
      OnOk-bind (Both h) (Both h) (queue_file h mtime k₁ w₁ s₁) _ (k.file h mtime k₁ w₁ s₁ at t₁)
        λ s₂ t₂. k.file h mtime k₂ w₂ s₂ at t₂

  only_P : (h : UnitHash) (r : Result RestoreState) → OnOk (Both h) r → OnOk P r
  only_P h (Result.ok s) t = t.0
  only_P h (Result.err e) t = tt

  queue_unit_files-keeps :
      (mtime : ℕ) (saved : SavedUnit) (unit : UnitPlan) (s : RestoreState)
      → get_elem? hs mtime ≡ some (info unit).unit_hash
      → Both (info unit).unit_hash s
      → OnOk P (queue_unit_files env mtime saved unit s)
  unfolding queue_unit_files info queue_library_crate queue_build_script_compilation
      queue_build_script_execution
  queue_unit_files-keeps mtime (Saved.library_crate files _) (library_crate plan) s at t =
      only_P _ _ (
        then_two _ mtime _ _ _ _ _ at (queue_files-keeps plan.info mtime files.output_files s at t))
  queue_unit_files-keeps mtime (Saved.build_script_compilation files _)
        (build_script_compilation plan) s at t =
      only_P _ _ (then_two _ mtime _ _ _ _ _ at (k.file _ mtime _ _ s at t))
  queue_unit_files-keeps mtime (Saved.build_script_execution files _) (build_script_execution plan)
        s at t =
      let h = plan.info.unit_hash in
      OnOk-bind (λ _. Unit {0}) P (env.create_out_dir plan.info) _ (OnOk-any _)
        λ _ _.
          OnOk-bind (Both h) P (queue_files env plan.info mtime files.out_dir_files _) _
            (queue_files-keeps plan.info mtime files.out_dir_files _ at (k.create h s t))
            λ s₁ t₁.
              OnOk-bind (Both h) P (queue_file h mtime files.stdout _ s₁) _
                (k.file h mtime _ _ s₁ at t₁)
                λ s₂ t₂.
                  OnOk-bind (Both h) P (queue_file h mtime files.stderr _ s₂) _
                    (k.file h mtime _ _ s₂ at t₂)
                    λ s₃ t₃.
                      OnOk-bind (λ _. Unit {0}) P (env.write_root_output plan.info mtime) _
                        (OnOk-any _) λ _ _. k.output h mtime s₃ at t₃.0
  queue_unit_files-keeps mtime _ _ s at t = tt

  restore_unit-keeps :
      (mtime : ℕ) (unit : UnitPlan) (saved : SavedUnit) (cached : Fingerprint) (s : RestoreState)
      → get_elem? hs mtime ≡ some (info unit).unit_hash
      → P s
      → OnOk P (restore_unit env mtime unit saved cached s)
  unfolding restore_unit
  restore_unit-keeps mtime unit saved cached s at t =
      let h = (info unit).unit_hash in
      OnOk-bind (λ _. Unit {0}) P (rewrite env.hashers cached (src_path unit) s.dep_fingerprints) _
        (OnOk-any _)
        λ r _.
          OnOk-bind (λ _. Unit {0}) P (env.write_fingerprint unit r.0) _ (OnOk-any _)
            λ _ _.
              OnOk-bind P P (queue_unit_files env mtime saved unit _) _
                (queue_unit_files-keeps mtime saved unit _ at (
                  k.write h _ r.0 (
                    k.init h (with_rest s s.saved_units s.restored r.1)
                      (k.rest s s.saved_units s.restored r.1 t))))
                λ s' t'. k.rest s' s'.saved_units _ s'.dep_fingerprints t'

  record_skipped-keeps :
      (mtime : ℕ) (unit : UnitPlan) (cached : Fingerprint) (s : RestoreState)
      → get_elem? hs mtime ≡ some (info unit).unit_hash
      → P s
      → OnOk P (record_skipped env mtime unit cached s)
  unfolding record_skipped
  record_skipped-keeps mtime unit cached s at t =
      OnOk-bind (λ _. Unit {0}) P (env.local_fingerprint unit) _ (OnOk-any _)
        λ local _.
          k.touch (info unit).unit_hash mtime _ (inl at) (k.rest s s.saved_units s.restored _ t)

  queue_saved-keeps :
      (units_to_skip : List UnitHash) (mtime : ℕ) (unit : UnitPlan) (saved : Option SavedUnit)
      (s : RestoreState)
      → get_elem? hs mtime ≡ some (info unit).unit_hash
      → P s
      → OnOk P (queue_saved env units_to_skip mtime unit saved s)
  unfolding queue_saved
  queue_saved-keeps skip mtime unit none s at t =
      elim (Bool-cases (contains skip (info unit).unit_hash)) [
        | inl on_disk ↦ rw on_disk (k.touch (info unit).unit_hash starting_mtime s (inr refl) t)
        | inr missing ↦ rw missing t
      ]
  queue_saved-keeps skip mtime unit (some saved) s at t =
      OnOk-bind (λ _. Unit {0}) P (or_error (env.from_json (Saved.fingerprint saved))) _
        (OnOk-any _)
        λ cached _. elim (Bool-cases (contains skip (info unit).unit_hash)) [
          | inl on_disk ↦ rw on_disk (record_skipped-keeps mtime unit cached s at t)
          | inr missing ↦ rw missing (restore_unit-keeps mtime unit saved cached s at t)
        ]

  queue_unit-keeps :
      (units_to_skip incomplete : List UnitHash) (mtime : ℕ) (unit : UnitPlan) (s : RestoreState)
      → get_elem? hs mtime ≡ some (info unit).unit_hash
      → P s
      → OnOk P (queue_unit env units_to_skip incomplete mtime unit s)
  unfolding queue_unit
  queue_unit-keeps skip incomplete mtime unit s at t =
      elim (Bool-cases (contains incomplete (info unit).unit_hash)) [
        | inl filtered ↦ rw filtered t
        | inr complete ↦
            rw complete (
              queue_saved-keeps skip mtime unit _ _ at (k.rest s _ s.restored s.dep_fingerprints t))
      ]

  pub queue_units-keeps :
      (units_to_skip incomplete : List UnitHash) (i : ℕ) (units : List UnitPlan) (s : RestoreState)
      → ((j : ℕ) → get_elem? hs (i + j) ≡ get_elem? (hashes units) j)
      → P s
      → OnOk P (queue_units env units_to_skip incomplete i units s)
  unfolding queue_units
  queue_units-keeps skip incomplete i [] s at t = t
  queue_units-keeps skip incomplete i (unit ∷ units) s at t =
      OnOk-bind P P (queue_unit env skip incomplete i unit s) _
        (queue_unit-keeps skip incomplete i unit s (ground (arith, at 0)) t)
        λ s' t'.
          queue_units-keeps skip incomplete (i + 1) units s' (λ j. ground (arith, at (suc j))) t'
