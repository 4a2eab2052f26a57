-- ===== src/Cargo/Save/Stocked.antt =====
-- A run of `save_units` (packages/hurry/src/cargo/cache/save.rs), and the objects of the units that it
-- saves.
use hurry.Prelude.{
  String, Option, none, some, List, [], ◌∷◌, ◌≡◌, refl, subst, All, All-imp, contains, inl, inr,
  Bool-cases,
}
use hurry.Cargo.Result.{ok, OnOk, OnOk-bind, OnOk-any, >>=-eq-ok, ◌>>=◌}
use hurry.Cargo.Target.{uses_glibc}
use hurry.Clients.Glibc.{GlibcVersion}
use hurry.Clients.Saved.{Key}
use hurry.Cargo.Units.{
  UnitPlan, library_crate, build_script_compilation, build_script_execution, info, src_path,
}
use hurry.Cargo.Save.Units.{SaveEnv, SaveState, Restored, rewrite_fingerprint, upload, eq_platform}
use hurry.Cargo.Save.Loop.{
  fresh, library_request, compiled_request, output_request, save_unit, skip_unit, upload_unit, step,
  save_loop, save_start, save_units, one_more, unit_arch,
}
use hurry.Cargo.Save.Objects.{
  Has, Stocked, Filling, fresh-Filling, upload-Filling, upload-Has, upload-grows,
  upload_files-Filling, upload_files-Has,
}
use hurry.Cargo.Save.Finish.{finish-Stocked}

module _ (env : SaveEnv) where
  module _ (skip : Restored) where
    -- The last two uploads of each arm.
    two-Filling :
        (a b : String) (s0 s : SaveState)
        → Filling env skip s0 s
        → Filling env skip s0 (upload env skip a (upload env skip b s))
    two-Filling a b s0 s f = upload-Filling env skip a s0 _ (upload-Filling env skip b s0 s f)

    two-Has :
        (a b : String) (s : SaveState) (keys : List Key)
        → All (Has env skip s) keys
        → All
            (Has env skip (upload env skip a (upload env skip b s)))
            (env.key_from_buffer b ∷ env.key_from_buffer a ∷ keys)
    two-Has a b s keys h = (
      upload-grows env skip a (upload env skip b s) _ (upload-Has env skip b s),
      (
        upload-Has env skip a (upload env skip b s),
        All-imp
            (λ key x.
              upload-grows env skip a (upload env skip b s) key (upload-grows env skip b s key x))
            keys h,
      ),
    )

    save_unit-Stocked :
        (glibc_version : Option GlibcVersion) (unit : UnitPlan) (s : SaveState)
        → Stocked env skip s
        → OnOk (Stocked env skip) (save_unit env skip glibc_version unit s)
    unfolding save_unit
    save_unit-Stocked glibc_version (library_crate plan) s h =
        OnOk-bind (λ _. Unit {0}) (Stocked env skip) (env.read_library plan) _ (OnOk-any _)
          (λ files _.
            finish-Stocked env skip plan.info.target_arch (some plan.src_path) files.fingerprint
              (library_request env skip glibc_version plan files) s _ h
              (two-Filling files.encoded_dep_info_file files.dep_info_file s _
                (upload_files-Filling env skip files.output_files s _ (fresh-Filling env skip s h)))
              (λ text.
                two-Has files.encoded_dep_info_file files.dep_info_file _ _
                  (upload_files-Has env skip files.output_files (fresh s))))
    save_unit-Stocked glibc_version (build_script_compilation plan) s h =
        OnOk-bind (λ _. Unit {0}) (Stocked env skip) (env.read_compilation plan) _ (OnOk-any _)
          (λ files _.
            finish-Stocked env skip plan.info.target_arch (some plan.src_path) files.fingerprint
              (compiled_request env skip glibc_version plan files) s _ h
              (two-Filling files.encoded_dep_info_file files.dep_info_file s _
                (upload-Filling env skip files.compiled_program s _ (fresh-Filling env skip s h)))
              (λ text.
                two-Has files.encoded_dep_info_file files.dep_info_file _
                  (env.key_from_buffer files.compiled_program ∷ [])
                  (upload-Has env skip files.compiled_program (fresh s), tt)))
    save_unit-Stocked glibc_version (build_script_execution plan) s h =
        OnOk-bind (λ _. Unit {0}) (Stocked env skip) (env.read_execution plan) _ (OnOk-any _)
          (λ files _.
            finish-Stocked env skip plan.info.target_arch none files.fingerprint
              (output_request env skip glibc_version plan files) s _ h
              (two-Filling files.stderr files.stdout s _ (
                upload_files-Filling env skip files.out_dir_files s _ (fresh-Filling env skip s h)))
              (λ text.
                two-Has files.stderr files.stdout _ _
                  (upload_files-Has env skip files.out_dir_files (fresh s))))

    saved-Stocked :
        (glibc_version : Option GlibcVersion) (unit : UnitPlan) (s : SaveState)
        → Stocked env skip s
        → OnOk
            (Stocked env skip)
            (save_unit env skip glibc_version unit s >>= λ saved. ok (one_more env saved))
    saved-Stocked glibc_version unit s h =
        OnOk-bind (Stocked env skip) (Stocked env skip) (save_unit env skip glibc_version unit s) _
          (save_unit-Stocked glibc_version unit s h)
          (λ saved k. record { objects = k.objects; sound = k.sound; counted = k.counted })

    upload_unit-Stocked :
        (unit : UnitPlan) (s : SaveState)
        → Stocked env skip s
        → OnOk (Stocked env skip) (upload_unit env skip unit s)
    unfolding upload_unit
    upload_unit-Stocked unit s h = elim (Bool-cases (uses_glibc (unit_arch env unit))) [
      | inr without ↦ rw without (saved-Stocked none unit s h)
      | inl with_glibc ↦
          rw with_glibc (elim (Bool-cases (eq_platform (unit_arch env unit) env.host_arch)) [
            | inr cross ↦
                rw cross (record { objects = h.objects; sound = h.sound; counted = h.counted })
            | inl host ↦ rw host (
                OnOk-bind (λ _. Unit {0}) (Stocked env skip) env.host_glibc_version _
                  (OnOk-any env.host_glibc_version) (λ version _. saved-Stocked version unit s h))
          ])
    ]

    step-Stocked :
        (unit : UnitPlan) (s : SaveState)
        → Stocked env skip s
        → OnOk (Stocked env skip) (step env skip unit s)
    unfolding step skip_unit
    step-Stocked unit s h = elim (Bool-cases (contains skip.units (info unit).unit_hash)) [
      | inr saves ↦ rw saves (upload_unit-Stocked unit s h)
      | inl skips ↦ rw skips (
          OnOk-bind (λ _. Unit {0}) (Stocked env skip) (env.read_fingerprint unit) _ (OnOk-any _)
            (λ f _.
              OnOk-bind (λ _. Unit {0}) (Stocked env skip)
                (rewrite_fingerprint env (info unit).target_arch (src_path unit) s.dep_fingerprints
                  f)
                _ (OnOk-any _)
                (λ r _. record { objects = h.objects; sound = h.sound; counted = h.counted })))
    ]

    save_loop-Stocked :
        (units : List UnitPlan) (s : SaveState)
        → Stocked env skip s
        → OnOk (Stocked env skip) (save_loop env skip units s)
    unfolding save_loop
    save_loop-Stocked [] s h = h
    save_loop-Stocked (unit ∷ units) s h =
        OnOk-bind (Stocked env skip) (Stocked env skip) (step env skip unit s) _
          (step-Stocked unit s h) (λ s' k. save_loop-Stocked units s' k)

    -- If saving succeeds, each object that a saved unit names was restored or has been handed to the
    -- store; what was handed over has the hash of its contents as its key and was not restored; and
    -- as many files are reported as uploaded as were handed over.
    pub save_units-Stocked :
        (units : List UnitPlan) (s : SaveState)
        → save_units env skip units ≡ ok s
        → Stocked env skip s
    unfolding save_units
    save_units-Stocked units s e =
        let (s', runs, sends) = >>=-eq-ok (save_loop env skip units (save_start env units)) _ e in
        let (_, answered, same) = >>=-eq-ok (env.cargo_cache_save s'.save_requests) _ sends in
        let c =
          subst (OnOk (Stocked env skip)) runs
            (save_loop-Stocked units (save_start env units) start) in
        subst (OnOk (Stocked env skip)) same c
      where
        start : Stocked env skip (save_start env units)
        start = record { objects = tt; sound = tt; counted = refl }
