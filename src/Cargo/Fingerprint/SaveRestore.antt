-- ===== src/Cargo/Fingerprint/SaveRestore.antt =====
-- The loops over the units of a plan that save.rs and restore.rs make with `rewrite`
-- (packages/hurry/src/cargo/fingerprint.rs): saving moves each fingerprint to the shared root, and
-- restoring moves it to the machine's own.
use mathlib.Core.Option
use hurry.Prelude.{
  ℕ, String, Option, none, some, List, [], ◌∷◌, map, ◌≡◌, refl, ap, ◌∙◌, ◌≢◌, arith, All, get_value,
  nat_eq, if◌then◌else◌,
}
use hurry.Cargo.Result.{Result, ok, ◌>>=◌}
use hurry.Cargo.Fingerprint.{Fields, Fingerprint, Hashers, hash_u64, dep_hashes, rewrite, stored}
use hurry.Cargo.Fingerprint.Rewrite.{
  fields_of, deps_of, moved, relink, CanMove, IsRewritten, rewrite-IsRewritten, rewrite_total,
}
use hurry.Cargo.Fingerprint.Relocate.{
  Tree, node, Trees, src_of, IsIn, native_hash, native_deps, on_disk, hash_u64-on_disk,
  dep_hashes-stubs, stored_lem, Recorded, relink-native, Recorded-put,
}

abbrev pub deps_in : Tree → Trees
deps_in (node _ _ deps) = deps

module _ (h : Hashers) where
  -- The calls of `rewrite` that a loop makes, each with the map that the one before left.
  unfoldable pub rewrite_units :
      List (Fingerprint × Option String) → List (ℕ × Fingerprint) → Result (List Fingerprint)
  rewrite_units [] dep_fingerprints = ok []
  rewrite_units ((f, path) ∷ units) dep_fingerprints = do
    r ← rewrite h f path dep_fingerprints
    rest ← rewrite_units units r.1
    ok (r.0 ∷ rest)

  -- Dependencies stand before their dependents, and no two units have the same hash.
  abbrev pub IsPlan : (String → String) → List Tree → List Tree → Type 0
  IsPlan place done [] = Unit
  IsPlan place done (t ∷ ts) =
      IsIn (deps_in t) done
      × All (λ u. native_hash h place u ≢ native_hash h place t) done
      × IsPlan place (t ∷ done) ts

  -- The inputs of the loop: the fingerprints that one machine has on disk, with the other's paths.
  abbrev pub inputs :
      (String → String) → (String → String) → List Tree → List (Fingerprint × Option String)
  inputs from to [] = []
  inputs from to (t ∷ ts) = (on_disk h from t, Option.map to (src_of t)) ∷ inputs from to ts

  module _ (to : String → String) where
    -- What a rewrite of one unit's fingerprint gives.
    record IsMoved (t : Tree) (f : Fingerprint) : Type 0 where
      hash : hash_u64 h f ≡ native_hash h to t
      kept : stored h f ≡ on_disk h to t

    -- A run of the loop that succeeds and gives each unit the fingerprint that Cargo computes on the
    -- other machine.
    pub record IsRelocated (ts : List Tree) (r : Result (List Fingerprint)) : Type 0 where
      pub moved_units : List Fingerprint
      pub succeeds : r ≡ ok moved_units
      pub hashes : map (hash_u64 h) moved_units ≡ map (native_hash h to) ts
      pub kept : map (stored h) moved_units ≡ map (on_disk h to) ts

  module _ (nonzero : (path : String) → h.path_hash path ≢ 0) (from to : String → String) where
    on_disk-CanMove : (t : Tree) → CanMove (Option.map to (src_of t)) (fields_of (on_disk h from t))
    unfolding on_disk
    on_disk-CanMove (node fields none deps) = tt
    on_disk-CanMove (node fields (some src) deps) = nonzero (from src)

    relink-on_disk :
        (t : Tree) (m : List (ℕ × Fingerprint)) (done : List Tree)
        → Recorded h from to m done
        → IsIn (deps_in t) done
        → relink h m (dep_hashes h (deps_of (on_disk h from t))) ≡ ok (native_deps h to (deps_in t))
    unfolding on_disk
    relink-on_disk (node fields src deps) m done r i =
        ap (relink h m) (dep_hashes-stubs h from (native_deps h from deps))
        ∙ relink-native h from to m done deps r i

    moved-moved :
        (src : Option String) (fields : Fields)
        → moved h (Option.map to src) (moved h (Option.map from src) fields)
          ≡ moved h (Option.map to src) fields
    moved-moved none fields = refl
    moved-moved (some src) fields = refl

    IsRewritten-IsMoved :
        (t : Tree) (m m' : List (ℕ × Fingerprint)) (f' : Fingerprint) (done : List Tree)
        → Recorded h from to m done
        → IsIn (deps_in t) done
        → IsRewritten h (on_disk h from t) (Option.map to (src_of t)) m f' m'
        → IsMoved to t f'
    unfolding on_disk native_hash
    IsRewritten-IsMoved (node fields src deps) m m' f' done r i w =
        let new_fields = w.fields ∙ moved-moved src fields in
        let hashes : dep_hashes h (deps_of f') ≡ native_deps h to deps =
          cc (w.deps, relink-on_disk (node fields src deps) m done r i) in
        record {
          hash = w.hash ∙ cc (new_fields, hashes);
          kept = stored_lem h f' ∙ cc (new_fields, hashes);
        }

    -- A rewrite of one unit's fingerprint after those of its dependencies.
    pub record Relocates (t : Tree) (m : List (ℕ × Fingerprint)) (done : List Tree) : Type 0 where
      pub result : Fingerprint
      pub dep_fingerprints : List (ℕ × Fingerprint)
      pub runs :
          rewrite h (on_disk h from t) (Option.map to (src_of t)) m ≡ ok (result, dep_fingerprints)
      pub hash : hash_u64 h result ≡ native_hash h to t
      pub kept : stored h result ≡ on_disk h to t
      pub recorded : Recorded h from to dep_fingerprints (t ∷ done)

    pub rewrite-Relocates :
        (t : Tree) (m : List (ℕ × Fingerprint)) (done : List Tree)
        → IsIn (deps_in t) done
        → All (λ u. native_hash h from u ≢ native_hash h from t) done
        → Recorded h from to m done
        → Relocates t m done
    rewrite-Relocates t m done deps new r =
        let (f', m', e) =
          rewrite_total h (on_disk h from t) (Option.map to (src_of t)) m
            (native_deps h to (deps_in t)) (on_disk-CanMove t) (relink-on_disk t m done r deps) in
        let w = rewrite-IsRewritten h (on_disk h from t) (Option.map to (src_of t)) m f' m' e in
        let is_moved = IsRewritten-IsMoved t m m' f' done r deps w in
        let same = hash_u64-on_disk h from t in
        let put : (j : ℕ)
            → get_value m' j
              ≡ (if nat_eq (native_hash h from t) j then some f' else get_value m j) =
          λ j. rw same at (w.map j) in
        let found_self : get_value m' (native_hash h from t) ≡ some f' =
          ground (arith, put (native_hash h from t)) in
        record {
          result = f';
          dep_fingerprints = m';
          runs = e;
          hash = is_moved.hash;
          kept = is_moved.kept;
          recorded = (
            (f', found_self, is_moved.hash),
            Recorded-put h from to m m' (native_hash h from t) f' done put new r,
          );
        }

    -- With a path hash that is never zero, a plan in dependency order without colliding hashes, and
    -- a map that holds the dependencies of what was done before: the loop of rewrites succeeds, and
    -- each result has the hash, and is stored as the fingerprint, that Cargo computes for the unit on
    -- the other machine.
    pub rewrite_units-IsRelocated :
        (ts done : List Tree) (m : List (ℕ × Fingerprint))
        → IsPlan from done ts
        → Recorded h from to m done
        → IsRelocated to ts (rewrite_units (inputs from to ts) m)
    unfolding rewrite_units
    rewrite_units-IsRelocated [] done m plan r = record {
      moved_units = [];
      succeeds = refl;
      hashes = refl;
      kept = refl;
    }
    rewrite_units-IsRelocated (t ∷ ts) done m (deps, new, plan) r =
        let first = rewrite-Relocates t m done deps new r in
        let rest =
          rewrite_units-IsRelocated ts (t ∷ done) first.dep_fingerprints plan first.recorded in
        record {
          moved_units = first.result ∷ rest.moved_units;
          succeeds = rw first.runs (rw rest.succeeds);
          hashes = cc (first.hash, rest.hashes);
          kept = cc (first.kept, rest.kept);
        }

  -- The units of the response, each with the path that it has on the restoring machine.
  abbrev pub with_paths :
      (String → String) → List Fingerprint → List Tree → List (Fingerprint × Option String)
  with_paths to [] ts = []
  with_paths to (f ∷ fs) [] = []
  with_paths to (f ∷ fs) (t ∷ ts) = (f, Option.map to (src_of t)) ∷ with_paths to fs ts

  with_paths-on_disk :
      (shared to : String → String) (ts : List Tree)
      → with_paths to (map (on_disk h shared) ts) ts ≡ inputs shared to ts
  with_paths-on_disk shared to [] = refl
  with_paths-on_disk shared to (t ∷ ts) =
      ap (λ l. (on_disk h shared t, Option.map to (src_of t)) ∷ l) (with_paths-on_disk shared to ts)

  -- Saving on one machine and restoring on another: for a plan in dependency order without
  -- colliding hashes, and a path hash that is never zero, both loops succeed, and each restored
  -- fingerprint has the hash, and is stored as the fingerprint, that Cargo computes for the unit on
  -- the restoring machine.
  pub save_restore :
      (nonzero : (path : String) → h.path_hash path ≢ 0) (origin shared target : String → String)
      (ts : List Tree)
      → IsPlan origin [] ts
      → IsPlan shared [] ts
      → (saved : List Fingerprint) × (rewrite_units (inputs origin shared ts) [] ≡ ok saved)
        × IsRelocated target ts (rewrite_units (with_paths target (map (stored h) saved) ts) [])
  save_restore nonzero origin shared target ts here there =
      let s = rewrite_units-IsRelocated nonzero origin shared ts [] [] here tt in
      let r = rewrite_units-IsRelocated nonzero shared target ts [] [] there tt in
      (s.moved_units, s.succeeds, rw (s.kept, with_paths-on_disk shared target ts) r)
