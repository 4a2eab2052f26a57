-- ===== src/Cargo/Save/Runs.antt =====
-- A run of one unit of `save_units` (packages/hurry/src/cargo/cache/save.rs) where the disk, the store
-- and the server answer.
use hurry.Prelude.{
  ℕ, String, Option, none, some, List, [], ◌∷◌, ◌++◌, map, ◌≡◌, refl, ap, subst, ◌∙◌,
}
use hurry.Cargo.Result.{Result, ok, OnOk, >>=-eq-ok, ◌>>=◌}
use hurry.Cargo.Target.{RustcTarget}
use hurry.Clients.Glibc.{GlibcVersion}
use hurry.Clients.Saved.{Key}
use hurry.Clients.Saved
use hurry.Cargo.Units.{
  UnitPlan, library_crate, build_script_compilation, build_script_execution, info, src_path,
}
use hurry.Cargo.Fingerprint.{Fingerprint, rewrite}
use hurry.Clients.Requests.{CargoSaveUnitRequest}
use hurry.Cargo.Save.Units.{
  SaveEnv, SaveState, BulkStoreResult, if_stored, Restored, shared_path, rewrite_fingerprint,
  store_uploads,
}
use hurry.Cargo.Save.Loop.{
  fresh, finish, library_request, compiled_request, output_request, library_uploads,
  compiled_uploads, output_uploads, save_unit, one_more, push,
}
use hurry.Cargo.Save.Same.{
  Same, Same-trans, two-Same, fresh_files-Same, fresh-Same, upload-Same, store_uploads-Same,
}

-- The fingerprints of the requests.
unfoldable pub texts : List CargoSaveUnitRequest → List String
unfolding Saved.fingerprint
texts requests = map (λ r. Saved.fingerprint r.unit) requests

pub append-nil : (l : List String) → l ≡ l ++ []
append-nil [] = refl
append-nil (x ∷ l) = ap (λ t. x ∷ t) (append-nil l)

texts-append :
    (l : List CargoSaveUnitRequest) (r : CargoSaveUnitRequest)
    → texts (l ++ r ∷ []) ≡ texts l ++ Saved.fingerprint r.unit ∷ []
unfolding texts
texts-append [] r = refl
texts-append (x ∷ l) r = ap (λ t. Saved.fingerprint x.unit ∷ t) (texts-append l r)

module _ (env : SaveEnv) where
  -- The fingerprint that reading a unit's files finds.
  unfoldable pub read_print : UnitPlan → Result Fingerprint
  read_print (library_crate plan) = do files ← env.read_library plan; ok files.fingerprint
  read_print (build_script_compilation plan) = do
    files ← env.read_compilation plan
    ok files.fingerprint
  read_print (build_script_execution plan) = do
    files ← env.read_execution plan
    ok files.fingerprint

  -- The store and the system's C library answer.
  pub record Answers : Type 0 where
    pub stores : (l : List (Key × String)) → (r : BulkStoreResult) × (env.store_bulk l ≡ ok r)
    pub glibc : (version : Option GlibcVersion) × (env.host_glibc_version ≡ ok version)

  -- What a unit of the loop leaves: the map of fingerprints, and the texts of the requests.
  pub record Leaves (s : SaveState) (r : Result SaveState) (m : List (ℕ × Fingerprint))
      (new : List String) : Type 0 where
    pub state : SaveState
    pub runs : r ≡ ok state
    pub deps : state.dep_fingerprints ≡ m
    pub texts_lem : texts state.save_requests ≡ texts s.save_requests ++ new

  pub bind-Leaves {ℓ} :
      {T : Type ℓ} (r : Result T) (v : T) (next : T → Result SaveState) (s : SaveState)
      (m : List (ℕ × Fingerprint)) (new : List String)
      → r ≡ ok v
      → Leaves s (next v) m new
      → Leaves s (r >>= next) m new
  bind-Leaves r v next s m new e h = rw e h

  -- A unit's fingerprint is rewritten to `f` with the map `deps` afterwards.
  pub record Rewrites (unit : UnitPlan) (print : Fingerprint) (s : SaveState) (f : Fingerprint)
      (deps : List (ℕ × Fingerprint)) : Type 0 where
    pub path : Option String
    pub shared : shared_path env (info unit).target_arch (src_path unit) ≡ ok path
    pub runs : rewrite env.hashers print path s.dep_fingerprints ≡ ok (f, deps)

  pub rewrite_fingerprint-runs :
      (target : RustcTarget) (src path : Option String) (print f : Fingerprint)
      (m deps : List (ℕ × Fingerprint))
      → shared_path env target src ≡ ok path
      → rewrite env.hashers print path m ≡ ok (f, deps)
      → rewrite_fingerprint env target src m print ≡ ok (env.fingerprint_json f, deps)
  unfolding rewrite_fingerprint
  rewrite_fingerprint-runs target src path print f m deps e e' = rw e (rw e' refl)

  module _ (answers : Answers) where
    store_uploads-total : (s : SaveState) → (s' : SaveState) × (store_uploads env s ≡ ok s')
    unfolding store_uploads
    store_uploads-total s = uploads s.cas_uploads
      where
        uploads :
            (l : List (Key × String))
            → (s' : SaveState) × ((elim l [
              | [] ↦ ok s
              | x ∷ xs ↦ if_stored env s (env.store_bulk s.cas_uploads)
            ])
                ≡ ok s')
        uploads [] = (s, refl)
        uploads (x ∷ xs) =
            let (r, e) = answers.stores s.cas_uploads in
            (record s { stored = s.stored ++ s.cas_uploads }, rw e refl)

    finish-Leaves :
        (target : RustcTarget) (src path : Option String) (print f : Fingerprint)
        (make : String → CargoSaveUnitRequest) (s0 s : SaveState) (deps : List (ℕ × Fingerprint))
        → Same s0 s
        → ((text : String) → Saved.fingerprint (make text).unit ≡ text)
        → shared_path env target src ≡ ok path
        → rewrite env.hashers print path s0.dep_fingerprints ≡ ok (f, deps)
        → Leaves s0 (finish env target src print make s) deps (env.fingerprint_json f ∷ [])
    unfolding finish
    finish-Leaves target src path print f make s0 s deps same text shared e =
        let (s', stores) = store_uploads-total s in
        let k = Same-trans s0 s s' same (subst (OnOk (Same s)) stores (store_uploads-Same env s)) in
        let e' =
          rewrite_fingerprint-runs target src path print f s'.dep_fingerprints deps shared
            (rw k.deps e) in
        record {
          state = push env (make (env.fingerprint_json f)) deps s';
          runs = rw stores (rw e' refl);
          deps = refl;
          texts_lem =
              texts-append s'.save_requests (make (env.fingerprint_json f))
              ∙ rw (k.requests, text (env.fingerprint_json f)) refl;
        }

    -- The three arms, from what `read` finds.
    save_unit-Leaves :
        (skip : Restored) (glibc_version : Option GlibcVersion) (unit : UnitPlan)
        (print f : Fingerprint) (s : SaveState) (deps : List (ℕ × Fingerprint))
        → read_print unit ≡ ok print
        → Rewrites unit print s f deps
        → Leaves s (save_unit env skip glibc_version unit s) deps (env.fingerprint_json f ∷ [])
    unfolding read_print save_unit src_path info Saved.fingerprint
    save_unit-Leaves skip glibc_version (library_crate plan) print f s deps read w =
        let (files, e, same) = >>=-eq-ok (env.read_library plan) _ read in
        let same' = subst (OnOk (λ x. files.fingerprint ≡ x)) same refl in
        rw e (
          finish-Leaves plan.info.target_arch (some plan.src_path) w.path files.fingerprint f
            (library_request env skip glibc_version plan files) s
            (library_uploads env skip glibc_version files (fresh s)) deps
            (two-Same env skip _ _ s _ (fresh_files-Same env skip files.output_files s))
            (λ text. refl) w.shared (rw same' w.runs))
    save_unit-Leaves skip glibc_version (build_script_compilation plan) print f s deps read w =
        let (files, e, same) = >>=-eq-ok (env.read_compilation plan) _ read in
        let same' = subst (OnOk (λ x. files.fingerprint ≡ x)) same refl in
        rw e (
          finish-Leaves plan.info.target_arch (some plan.src_path) w.path files.fingerprint f
            (compiled_request env skip glibc_version plan files) s
            (compiled_uploads env skip glibc_version files (fresh s)) deps
            (two-Same env skip _ _ s _ (
              Same-trans s (fresh s) _ (fresh-Same s)
                (upload-Same env skip files.compiled_program (fresh s))))
            (λ text. refl) w.shared (rw same' w.runs))
    save_unit-Leaves skip glibc_version (build_script_execution plan) print f s deps read w =
        let (files, e, same) = >>=-eq-ok (env.read_execution plan) _ read in
        let same' = subst (OnOk (λ x. files.fingerprint ≡ x)) same refl in
        rw e (
          finish-Leaves plan.info.target_arch none w.path files.fingerprint f
            (output_request env skip glibc_version plan files) s
            (output_uploads env skip glibc_version files (fresh s)) deps
            (two-Same env skip _ _ s _ (fresh_files-Same env skip files.out_dir_files s))
            (λ text. refl) w.shared (rw same' w.runs))

    pub saved-Leaves :
        (skip : Restored) (glibc_version : Option GlibcVersion) (unit : UnitPlan)
        (print f : Fingerprint) (s : SaveState) (deps : List (ℕ × Fingerprint))
        → read_print unit ≡ ok print
        → Rewrites unit print s f deps
        → Leaves s
            (save_unit env skip glibc_version unit s >>= λ saved. ok (one_more env saved))
            deps
            (env.fingerprint_json f ∷ [])
    saved-Leaves skip glibc_version unit print f s deps read w =
        let l = save_unit-Leaves skip glibc_version unit print f s deps read w in
        record {
          state = one_more env l.state;
          runs = rw l.runs refl;
          deps = l.deps;
          texts_lem = l.texts_lem;
        }
