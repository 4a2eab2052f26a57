-- ===== src/Cargo/Save/Progress.antt =====
-- The progress that `save_units` (packages/hurry/src/cargo/cache/save.rs) reports.
use hurry.Prelude.{
  ℕ, ◌+◌, ◌≤◌, String, Option, none, some, List, [], ◌∷◌, ◌≡◌, refl, sym, ap, ◌∙◌, subst, arith,
  All, All-append, contains, length, length-append, suc, Bool-cases, inl, inr,
}
use hurry.Cargo.Result.{ok, OnOk, OnOk-bind, OnOk-any, >>=-eq-ok, ◌>>=◌}
use hurry.Cargo.Target.{RustcTarget, uses_glibc}
use hurry.Cargo.Units.{
  UnitPlan, library_crate, build_script_compilation, build_script_execution, info, src_path,
}
use hurry.Clients.Glibc.{GlibcVersion}
use hurry.Clients.Requests.{CargoSaveUnitRequest}
use hurry.Cargo.Save.Units.{
  SaveEnv, SaveState, SaveProgress, Restored, eq_platform, rewrite_fingerprint, store_uploads,
}
use hurry.Cargo.Fingerprint.{Fingerprint}
use hurry.Cargo.Save.Loop.{
  finish, fresh, library_request, compiled_request, output_request, unit_arch, one_less, one_more,
  skip_unit, save_unit, upload_unit, step, save_loop, save_start, save_units,
}
use hurry.Cargo.Save.Same.{
  Same, Same-trans, fresh-Same, upload-Same, store_uploads-Same, two-Same, fresh_files-Same,
}

module _ (env : SaveEnv) where
  -- One request more, and the counts of units as they were.
  record Pushes (s s' : SaveState) : Type 0 where
    uploaded : s'.progress.uploaded_units ≡ s.progress.uploaded_units
    total : s'.progress.total_units ≡ s.progress.total_units
    reports : s'.reports ≡ s.reports
    requests : length s'.save_requests ≡ length s.save_requests + 1

  finish-Pushes :
      (target : RustcTarget) (path : Option String) (on_disk : Fingerprint)
      (make : String → CargoSaveUnitRequest) (s s0 : SaveState)
      → Same s s0
      → OnOk (Pushes s) (finish env target path on_disk make s0)
  unfolding finish
  finish-Pushes target path on_disk make s s0 same =
      OnOk-bind (Same s0) (Pushes s) (store_uploads env s0) _ (store_uploads-Same env s0)
        (λ stored kept.
          let k = Same-trans s s0 stored same kept in
          OnOk-bind (λ _. Unit {0}) (Pushes s)
            (rewrite_fingerprint env target path stored.dep_fingerprints on_disk) _ (OnOk-any _)
            (λ r _. record {
              uploaded = k.uploaded;
              total = k.total;
              reports = k.reports;
              requests =
                  length-append stored.save_requests (make r.0 ∷ [])
                  ∙ ap (λ l. length l + 1) k.requests;
            }))

  module _ (skip : Restored) (glibc_version : Option GlibcVersion) where
    save_unit-Pushes :
        (unit : UnitPlan) (s : SaveState)
        → OnOk (Pushes s) (save_unit env skip glibc_version unit s)
    unfolding save_unit
    save_unit-Pushes (library_crate plan) s =
        OnOk-bind (λ _. Unit {0}) (Pushes s) (env.read_library plan) _
          (OnOk-any (env.read_library plan))
          (λ files _.
            finish-Pushes plan.info.target_arch (some plan.src_path) files.fingerprint
              (library_request env skip glibc_version plan files) s _
              (two-Same env skip _ _ s _ (fresh_files-Same env skip files.output_files s)))
    save_unit-Pushes (build_script_compilation plan) s =
        OnOk-bind (λ _. Unit {0}) (Pushes s) (env.read_compilation plan) _
          (OnOk-any (env.read_compilation plan))
          (λ files _.
            finish-Pushes plan.info.target_arch (some plan.src_path) files.fingerprint
              (compiled_request env skip glibc_version plan files) s _
              (two-Same env skip _ _ s _ (
                Same-trans s (fresh s) _ (fresh-Same s)
                  (upload-Same env skip files.compiled_program (fresh s)))))
    save_unit-Pushes (build_script_execution plan) s =
        OnOk-bind (λ _. Unit {0}) (Pushes s) (env.read_execution plan) _
          (OnOk-any (env.read_execution plan))
          (λ files _.
            finish-Pushes plan.info.target_arch none files.fingerprint
              (output_request env skip glibc_version plan files) s _
              (two-Same env skip _ _ s _ (fresh_files-Same env skip files.out_dir_files s)))

  -- With `n` units to come: what is not uploaded or left out is still to come, each uploaded unit has
  -- a request, and no report has more uploaded units than units.
  record Counted (n : ℕ) (s : SaveState) : Type 0 where
    total : s.progress.total_units ≡ s.progress.uploaded_units + n
    requests : length s.save_requests ≡ s.progress.uploaded_units
    bounded : All (λ (p : SaveProgress). p.uploaded_units ≤ p.total_units) s.reports

  one_less-Counted : (n : ℕ) (s : SaveState) → Counted (suc n) s → Counted n (one_less env s)
  one_less-Counted n s h = record {
    total = omega (arith, h.total);
    requests = h.requests;
    bounded = All-append _ s.reports _ h.bounded (omega (arith, h.total), tt);
  }

  one_more-Counted :
      (n : ℕ) (s s' : SaveState) → Counted (suc n) s → Pushes s s' → Counted n (one_more env s')
  one_more-Counted n s s' h p = record {
    total = omega (arith, h.total, p.total, p.uploaded);
    requests = omega (arith, h.requests, p.requests, p.uploaded);
    bounded =
        All-append _ s'.reports _
          (subst (All (λ (x : SaveProgress). x.uploaded_units ≤ x.total_units)) (sym p.reports)
            h.bounded)
          (omega (arith, h.total, p.total, p.uploaded), tt);
  }

  module _ (skip : Restored) where
    saved-Counted :
        (n : ℕ) (glibc_version : Option GlibcVersion) (unit : UnitPlan) (s : SaveState)
        → Counted (suc n) s
        → OnOk
            (Counted n)
            (save_unit env skip glibc_version unit s >>= λ saved. ok (one_more env saved))
    saved-Counted n glibc_version unit s h =
        OnOk-bind (Pushes s) (Counted n) (save_unit env skip glibc_version unit s) _
          (save_unit-Pushes skip glibc_version unit s) (λ saved p. one_more-Counted n s saved h p)

    upload_unit-Counted :
        (n : ℕ) (unit : UnitPlan) (s : SaveState)
        → Counted (suc n) s
        → OnOk (Counted n) (upload_unit env skip unit s)
    unfolding upload_unit
    upload_unit-Counted n unit s h = elim (Bool-cases (uses_glibc (unit_arch env unit))) [
      | inr without ↦ rw without (saved-Counted n none unit s h)
      | inl with_glibc ↦
          rw with_glibc (elim (Bool-cases (eq_platform (unit_arch env unit) env.host_arch)) [
            | inr cross ↦ rw cross (one_less-Counted n s h)
            | inl host ↦ rw host (
                OnOk-bind (λ _. Unit {0}) (Counted n) env.host_glibc_version _
                  (OnOk-any env.host_glibc_version) (λ version _. saved-Counted n version unit s h))
          ])
    ]

    step-Counted :
        (n : ℕ) (unit : UnitPlan) (s : SaveState)
        → Counted (suc n) s
        → OnOk (Counted n) (step env skip unit s)
    unfolding step skip_unit
    step-Counted n unit s h = elim (Bool-cases (contains skip.units (info unit).unit_hash)) [
      | inr saves ↦ rw saves (upload_unit-Counted n unit s h)
      | inl skips ↦ rw skips (
          OnOk-bind (λ _. Unit {0}) (Counted n) (env.read_fingerprint unit) _ (OnOk-any _)
            (λ f _.
              OnOk-bind (λ _. Unit {0}) (Counted n)
                (rewrite_fingerprint env (info unit).target_arch (src_path unit) s.dep_fingerprints
                  f)
                _ (OnOk-any _)
                (λ r _.
                  let c = one_less-Counted n s h in
                  record { total = c.total; requests = c.requests; bounded = c.bounded })))
    ]

    save_loop-Counted :
        (units : List UnitPlan) (s : SaveState)
        → Counted (length units) s
        → OnOk (Counted 0) (save_loop env skip units s)
    unfolding save_loop
    save_loop-Counted [] s h = h
    save_loop-Counted (unit ∷ units) s h =
        OnOk-bind (Counted (length units)) (Counted 0) (step env skip unit s) _
          (step-Counted (length units) unit s h) (λ s' k. save_loop-Counted units s' k)

  -- The progress adds up: if saving succeeds, then at the end as many units are uploaded as there
  -- are to upload, as many as requests went to the server, and no report on the way had more
  -- uploaded units than units.
  pub save_units-progress :
      (skip : Restored) (units : List UnitPlan) (s : SaveState)
      → save_units env skip units ≡ ok s
      → (s.progress.uploaded_units ≡ s.progress.total_units)
        × (length s.save_requests ≡ s.progress.uploaded_units)
        × All (λ (p : SaveProgress). p.uploaded_units ≤ p.total_units) s.reports
  unfolding save_units
  save_units-progress skip units s e =
      let (s', runs, sends) = >>=-eq-ok (save_loop env skip units (save_start env units)) _ e in
      let (_, answered, same) = >>=-eq-ok (env.cargo_cache_save s'.save_requests) _ sends in
      let c =
        subst (OnOk (Counted 0)) runs (save_loop-Counted skip units (save_start env units) start) in
      let d = subst (OnOk (Counted 0)) same c in (omega (arith, d.total), d.requests, d.bounded)
    where
      start : Counted (length units) (save_start env units)
      start = record { total = omega arith; requests = refl; bounded = tt }
