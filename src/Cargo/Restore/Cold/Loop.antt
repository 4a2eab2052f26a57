-- ===== src/Cargo/Restore/Cold/Loop.antt =====
-- A restore with nothing on disk and every unit in the response: the loop of `restore_units`
-- (packages/hurry/src/cargo/cache/restore.rs) runs to its end.
use hurry.Prelude.{
  ℕ, ◌+◌, String, false, ◌||◌, Option, some, List, [], ◌∷◌, ◌++◌, ◌≡◌, refl, sym, ap, ◌∙◌, arith,
  All, append_assoc, append-nil, insert, contains, contains-insert, eq_refl, eq_iff,
}
use hurry.Cargo.Result.{Result, ok, >>=-eq-ok}
use hurry.Cargo.Units.{UnitHash, UnitPlan, info, src_path}
use hurry.Cargo.Fingerprint.{Fingerprint, rewrite}
use hurry.Cargo.Fingerprint.SaveRestore.{rewrite_units}
use hurry.Cargo.Restore.Filter.Complete.{hashes, AreDistinct}
use hurry.Cargo.Restore.Progress.{init_pending, init_pending-initialized}
use hurry.Cargo.Restore.Queue.{Env, RestoreState, wrote_fingerprint, with_effect}
use hurry.Cargo.Restore.Queue.Loop.{restore_unit, queue_saved, queue_unit, queue_units}
use hurry.Cargo.Restore.Cold.{
  prints, prints-append, Matches, HavePlaces, placed_files, CanWrite, queue_unit_files-Queues,
}
use hurry.Clients.Saved
use hurry.Clients.Saved.{SavedUnit, CargoRestoreResponse}

-- The response holds the unit, saved as one of its kind with the fingerprint, each of its files has a
-- destination, and the unit's own files can be written.
abbrev pub IsOffered : Env → CargoRestoreResponse → UnitPlan × Fingerprint → Type 0
IsOffered env saved_units (unit, f) =
    (saved : SavedUnit) × (Saved.get saved_units (info unit).unit_hash ≡ some saved)
    × (env.from_json (Saved.fingerprint saved) ≡ some f)
    × Matches saved unit
    × HavePlaces env (info unit) (placed_files saved)
    × CanWrite env unit

-- A run that restores one unit.
pub record Restores (unit : UnitPlan) (f' : Fingerprint) (m' : List (ℕ × Fingerprint))
    (r : Result RestoreState) (s : RestoreState) : Type 0 where
  pub end : RestoreState
  pub runs : r ≡ ok end
  pub saved : end.saved_units ≡ s.saved_units
  pub restored : end.restored ≡ insert (info unit).unit_hash s.restored
  pub deps : end.dep_fingerprints ≡ m'
  pub printed : prints end.effects ≡ prints s.effects ++ ((info unit).unit_hash, f') ∷ []

module _ (env : Env) where
  restore_unit-Restores :
      (mtime : ℕ) (unit : UnitPlan) (saved : SavedUnit) (f f' : Fingerprint)
      (m' : List (ℕ × Fingerprint)) (s : RestoreState)
      → Matches saved unit
      → HavePlaces env (info unit) (placed_files saved)
      → CanWrite env unit
      → rewrite env.hashers f (src_path unit) s.dep_fingerprints ≡ ok (f', m')
      → Restores unit f' m' (restore_unit env mtime unit saved f s) s
  unfolding restore_unit
  restore_unit-Restores mtime unit saved f f' m' s kind places can e =
      let h = (info unit).unit_hash in
      let s₁ =
        with_effect (record s { dep_fingerprints = m'; pending = init_pending h s.pending })
          (wrote_fingerprint h f') in
      let q =
        queue_unit_files-Queues env mtime saved unit s₁ kind places can
          (ground (arith, init_pending-initialized h h s.pending, eq_refl h)) in
      record {
        end = record q.end { restored = insert h q.end.restored };
        runs = rw e (rw (can.fingerprint f') (rw q.runs refl));
        saved = q.saved;
        restored = ap (insert h) q.restored;
        deps = q.deps;
        printed = q.printed ∙ prints-append s.effects (wrote_fingerprint h f' ∷ []);
      }

  queue_unit-Restores :
      (mtime : ℕ) (unit : UnitPlan) (f f' : Fingerprint) (m' : List (ℕ × Fingerprint))
      (s : RestoreState)
      → IsOffered env s.saved_units (unit, f)
      → rewrite env.hashers f (src_path unit) s.dep_fingerprints ≡ ok (f', m')
      → Restores unit f' m'
          (queue_unit env [] [] mtime unit s)
          (record s { saved_units = Saved.without s.saved_units (info unit).unit_hash })
  unfolding queue_unit contains queue_saved Saved.take
  queue_unit-Restores mtime unit f f' m' s (saved, held, parses, kind, places, can) e = rw held (
      rw parses (
        restore_unit-Restores mtime unit saved f f' m'
          (record s { saved_units = Saved.without s.saved_units (info unit).unit_hash }) kind places
          can e))

-- The plan, and the calls of `rewrite` that its units make.
abbrev pub plan_of : List (UnitPlan × Fingerprint) → List UnitPlan
plan_of [] = []
plan_of ((unit, f) ∷ us) = unit ∷ plan_of us

abbrev pub calls : List (UnitPlan × Fingerprint) → List (Fingerprint × Option String)
calls [] = []
calls ((unit, f) ∷ us) = (f, src_path unit) ∷ calls us

-- The units' hashes with the fingerprints.
abbrev pub labelled : List UnitPlan → List Fingerprint → List (UnitHash × Fingerprint)
labelled [] fs = []
labelled (unit ∷ units) [] = []
labelled (unit ∷ units) (f ∷ fs) = ((info unit).unit_hash, f) ∷ labelled units fs

-- A run that restores all of the units.
pub record RestoresAll (units : List UnitPlan) (fs : List Fingerprint) (r : Result RestoreState)
    (s : RestoreState) : Type 0 where
  pub end : RestoreState
  pub runs : r ≡ ok end
  pub printed : prints end.effects ≡ prints s.effects ++ labelled units fs
  pub restored :
      (h : UnitHash)
      → contains end.restored h ≡ (contains s.restored h || contains (hashes units) h)

module _ (env : Env) where
  still_held :
      (saved_units : CargoRestoreResponse) (h : UnitHash) (us : List (UnitPlan × Fingerprint))
      → contains (hashes (plan_of us)) h ≡ false
      → All (IsOffered env saved_units) us
      → All (IsOffered env (Saved.without saved_units h)) us
  unfolding contains
  still_held saved_units h [] absent o = tt
  still_held saved_units h ((unit, f) ∷ us) absent ((saved, held, parses, kind, places, can), o) = (
    (
      saved,
      ground (
        arith,
        Saved.get-without saved_units h (info unit).unit_hash,
        eq_iff h (info unit).unit_hash,
        eq_iff (info unit).unit_hash h,
      ),
      parses,
      kind,
      places,
      can,
    ),
    still_held saved_units h us (ground arith) o,
  )

  pub queue_units-RestoresAll :
      (i : ℕ) (us : List (UnitPlan × Fingerprint)) (s : RestoreState) (fs : List Fingerprint)
      → All (IsOffered env s.saved_units) us
      → AreDistinct (plan_of us)
      → rewrite_units env.hashers (calls us) s.dep_fingerprints ≡ ok fs
      → RestoresAll (plan_of us) fs (queue_units env [] [] i (plan_of us) s) s
  unfolding queue_units rewrite_units contains
  queue_units-RestoresAll i [] s fs o d e = record {
    end = s;
    runs = refl;
    printed = sym (append-nil _);
    restored = λ h. ground arith;
  }
  queue_units-RestoresAll i ((unit, f) ∷ us) s fs (held, o) (fresh, d) e =
      let ((f', m'), one, e₁) =
        >>=-eq-ok (rewrite env.hashers f (src_path unit) s.dep_fingerprints) _ e in
      let (rest_fs, more, e₂) = >>=-eq-ok (rewrite_units env.hashers (calls us) m') _ e₁ in
      let r = queue_unit-Restores env i unit f f' m' s held one in
      let all =
        queue_units-RestoresAll (i + 1) us r.end rest_fs
          (rw r.saved (still_held s.saved_units (info unit).unit_hash us fresh o)) d
          (rw r.deps more) in
      let same : f' ∷ rest_fs ≡ fs = cc in
      record {
        end = all.end;
        runs = rw r.runs all.runs;
        printed =
            all.printed
            ∙ ap (λ l. l ++ labelled (plan_of us) rest_fs) r.printed
            ∙ append_assoc (prints s.effects) (((info unit).unit_hash, f') ∷ [])
                (labelled (plan_of us) rest_fs)
            ∙ ap (λ l. prints s.effects ++ labelled (unit ∷ plan_of us) l) same;
        restored = λ h. ground (
          arith,
          all.restored h,
          contains-insert (info unit).unit_hash h s.restored,
          ap (λ l. contains l h) r.restored,
        );
      }
