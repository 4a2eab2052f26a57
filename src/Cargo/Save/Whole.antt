-- ===== src/Cargo/Save/Whole.antt =====
-- A run of `save_units` (packages/hurry/src/cargo/cache/save.rs) over a whole plan where the disk, the
-- store and the server answer.
use hurry.Prelude.{
  ℕ, String, true, false, none, List, [], ◌∷◌, ◌++◌, map, ◌≡◌, refl, sym, ap, subst, ◌∙◌, contains,
  ◌⊎◌, inl, inr, Bool-cases, All, ◌≢◌, if◌then◌else◌,
}
use mathlib.Core.Option
use hurry.Cargo.Result.{ok}
use hurry.Cargo.Target.{uses_glibc}
use hurry.Cargo.Units.{UnitPlan, info, src_path}
use hurry.Cargo.Fingerprint.{Fingerprint, rewrite, stored}
use hurry.Clients.Requests.{CargoSaveUnitRequest}
use hurry.Cargo.Save.Units.{SaveEnv, SaveState, Restored, shared_path, eq_platform}
use hurry.Cargo.Save.Loop.{skip_unit, upload_unit, step, one_less, unit_arch}
use hurry.Cargo.Fingerprint.Relocate.{Tree, src_of, on_disk, Recorded}
use hurry.Cargo.Fingerprint.SaveRestore.{IsPlan, rewrite-Relocates}
use hurry.Cargo.Save.Loop.{save_loop, save_start, save_units}
use hurry.Cargo.Save.Runs.{
  texts, append-nil, read_print, Answers, Leaves, bind-Leaves, Rewrites, rewrite_fingerprint-runs,
  saved-Leaves,
}

module _ (env : SaveEnv) where
  -- A unit that may be uploaded: not for glibc, or for the host.
  abbrev pub CanUpload : UnitPlan → Type 0
  CanUpload unit =
      (uses_glibc (unit_arch env unit) ≡ false)
      ⊎ (eq_platform (unit_arch env unit) env.host_arch ≡ true)

module _ (env : SaveEnv) where
  module _ (answers : Answers env) where
    upload_unit-Leaves :
        (skip : Restored) (unit : UnitPlan) (print f : Fingerprint) (s : SaveState)
        (deps : List (ℕ × Fingerprint))
        → CanUpload env unit
        → read_print env unit ≡ ok print
        → Rewrites env unit print s f deps
        → Leaves env s (upload_unit env skip unit s) deps (env.fingerprint_json f ∷ [])
    unfolding upload_unit
    upload_unit-Leaves skip unit print f s deps can read w =
        elim (Bool-cases (uses_glibc (unit_arch env unit))) [
          | inr without ↦ rw without (saved-Leaves env answers skip none unit print f s deps read w)
          | inl with_glibc ↦ elim can [
            | inl without ↦
                rw without (saved-Leaves env answers skip none unit print f s deps read w)
            | inr host ↦
                let (version, e) = answers.glibc in
                rw with_glibc (
                  rw host (
                    bind-Leaves env env.host_glibc_version version _ s deps _ e
                      (saved-Leaves env answers skip version unit print f s deps read w)))
          ]
        ]

    skip_unit-Leaves :
        (unit : UnitPlan) (print f : Fingerprint) (s : SaveState) (deps : List (ℕ × Fingerprint))
        → env.read_fingerprint unit ≡ ok print
        → Rewrites env unit print s f deps
        → Leaves env s (skip_unit env unit s) deps []
    unfolding skip_unit
    skip_unit-Leaves unit print f s deps read w =
        let e =
          rewrite_fingerprint-runs env (info unit).target_arch (src_path unit) w.path print f
            s.dep_fingerprints deps w.shared w.runs in
        record {
          state = record (one_less env s) { dep_fingerprints = deps };
          runs = rw read (rw e refl);
          deps = refl;
          texts_lem = append-nil (texts s.save_requests);
        }

  module _ (skip : Restored) (from shared : String → String) where
    -- Reading a unit finds the fingerprint that Cargo writes for it on this machine, and its source is
    -- below $CARGO_HOME.
    pub record IsReadable (unit : UnitPlan) (t : Tree) : Type 0 where
      pub saved : read_print env unit ≡ ok (on_disk env.hashers from t)
      pub skipped : env.read_fingerprint unit ≡ ok (on_disk env.hashers from t)
      pub path :
          shared_path env (info unit).target_arch (src_path unit)
          ≡ ok (Option.map shared (src_of t))
      pub can : CanUpload env unit

    -- The units that are not skipped.
    abbrev pub to_save : List (UnitPlan × Tree) → List Tree
    to_save [] = []
    to_save ((unit, t) ∷ units) =
        let rest = to_save units in
        if contains skip.units (info unit).unit_hash then rest else t ∷ rest

    -- What the run relies on; the JSON text has what a fingerprint stores.
    pub record IsSavable (units : List (UnitPlan × Tree)) : Type 0 where
      pub answers : Answers env
      pub accepts : (l : List CargoSaveUnitRequest) → env.cargo_cache_save l ≡ ok tt
      pub nonzero : (path : String) → env.hashers.path_hash path ≢ 0
      pub json :
          (f : Fingerprint) → env.fingerprint_json f ≡ env.fingerprint_json (stored env.hashers f)
      pub readable : All (λ (u : UnitPlan × Tree). IsReadable u.0 u.1) units

    abbrev pub text_of : Tree → String
    text_of t = env.fingerprint_json (on_disk env.hashers shared t)

    abbrev new_texts : UnitPlan → Tree → List String
    new_texts unit t = if contains skip.units (info unit).unit_hash then [] else text_of t ∷ []

    step-Leaves :
        (answers : Answers env) (unit : UnitPlan) (t : Tree) (f : Fingerprint) (s : SaveState)
        (m : List (ℕ × Fingerprint))
        → IsReadable unit t
        → env.fingerprint_json f ≡ text_of t
        → rewrite env.hashers
            (on_disk env.hashers from t)
            (Option.map shared (src_of t))
            s.dep_fingerprints
          ≡ ok (f, m)
        → Leaves env s (step env skip unit s) m (new_texts unit t)
    unfolding step
    step-Leaves answers unit t f s m r text runs =
        let w : Rewrites env unit (on_disk env.hashers from t) s f m = record {
          path = Option.map shared (src_of t);
          shared = r.path;
          runs = runs;
        } in
        elim (Bool-cases (contains skip.units (info unit).unit_hash)) [
          | inl skips ↦ rw skips (skip_unit-Leaves answers unit _ f s m r.skipped w)
          | inr saves ↦ rw saves (
              subst (λ x. Leaves env s (upload_unit env skip unit s) m (x ∷ [])) text
                (upload_unit-Leaves answers skip unit _ f s m r.can r.saved w))
        ]

    append-cons : (l : List String) (x : String) (k : List String) → (l ++ x ∷ []) ++ k ≡ l ++ x ∷ k
    append-cons [] x k = refl
    append-cons (y ∷ l) x k = ap (λ r. y ∷ r) (append-cons l x k)

    new_texts-to_save :
        (unit : UnitPlan) (t : Tree) (units : List (UnitPlan × Tree)) (l : List String)
        → (l ++ new_texts unit t) ++ map text_of (to_save units)
          ≡ l ++ map text_of (to_save ((unit, t) ∷ units))
    new_texts-to_save unit t units l =
        elim (Bool-cases (contains skip.units (info unit).unit_hash)) [
          | inl skips ↦ rw skips (ap (λ k. k ++ map text_of (to_save units)) (sym (append-nil l)))
          | inr saves ↦ rw saves (append-cons l (text_of t) (map text_of (to_save units)))
        ]

    -- The rest of the loop, after the units `done`.
    save_loop-Leaves :
        (units : List (UnitPlan × Tree)) (done : List Tree) (s : SaveState)
        → IsSavable units
        → IsPlan env.hashers from done (map (λ (u : UnitPlan × Tree). u.1) units)
        → Recorded env.hashers from shared s.dep_fingerprints done
        → (s' : SaveState) × (save_loop env skip (map (λ (u : UnitPlan × Tree). u.0) units) s
            ≡ ok s')
          × (texts s'.save_requests ≡ texts s.save_requests ++ map text_of (to_save units))
    unfolding save_loop
    save_loop-Leaves [] done s h plan r = (s, refl, append-nil (texts s.save_requests))
    save_loop-Leaves ((unit, t) ∷ units) done s h (deps, new, plan) r =
        let first =
          rewrite-Relocates env.hashers h.nonzero from shared t s.dep_fingerprints done deps new
            r in
        let text = h.json first.result ∙ ap env.fingerprint_json first.kept in
        let l =
          step-Leaves h.answers unit t first.result s first.dep_fingerprints h.readable.0 text
            first.runs in
        let later : IsSavable units = record {
          answers = h.answers;
          accepts = h.accepts;
          nonzero = h.nonzero;
          json = h.json;
          readable = h.readable.1;
        } in
        let (s', runs, after) = save_loop-Leaves units (t ∷ done) l.state later plan (
          subst (λ m. Recorded env.hashers from shared m (t ∷ done)) (sym l.deps) first.recorded) in
        (
          s',
          rw l.runs runs,
          after
              ∙ ap (λ k. k ++ map text_of (to_save units)) l.texts_lem
              ∙ new_texts-to_save unit t units (texts s.save_requests),
        )

    -- A save goes through and sends the right fingerprints: let the disk, the store, the C library and
    -- the server answer, the units be in dependency order, without colliding hashes and none of
    -- them for another platform with glibc, each read with the fingerprint that Cargo writes for it
    -- on this machine and with its source below $CARGO_HOME; let the path hash never be zero, and a
    -- fingerprint's text hold what its stored form holds. Then `save_units` succeeds, and the
    -- fingerprints of its requests are those that Cargo would write at the shared root, for the units
    -- that were not restored, in their order.
    pub save_units-texts :
        (units : List (UnitPlan × Tree))
        → IsSavable units
        → IsPlan env.hashers from [] (map (λ (u : UnitPlan × Tree). u.1) units)
        → (s : SaveState) × (save_units env skip (map (λ (u : UnitPlan × Tree). u.0) units) ≡ ok s)
          × (texts s.save_requests ≡ map text_of (to_save units))
    unfolding save_units texts
    save_units-texts units h plan =
        let (s, runs, sent) =
          save_loop-Leaves units [] (save_start env (map (λ (u : UnitPlan × Tree). u.0) units)) h
            plan tt in
        (s, rw runs (rw (h.accepts s.save_requests) refl), sent)
