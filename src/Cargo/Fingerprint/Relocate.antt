-- ===== src/Cargo/Fingerprint/Relocate.antt =====
-- Moving a whole build between machines by `rewrite` (packages/hurry/src/cargo/fingerprint.rs), as
-- the loops of save.rs and restore.rs do it, unit by unit in dependency order.
-- The reference is what Cargo itself computes: a unit is a tree of fields, source paths and
-- dependencies, and a machine is the place where it keeps the sources.
use mathlib.Core.List.{Memᴰ}
use mathlib.Core.Option
use hurry.Prelude.{
  ℕ, String, Bool, Option, none, some, List, [], ◌∷◌, ◌≡◌, refl, ap, ◌≢◌, arith, nat_eq, All,
  All-Memᴰ, get_value, if◌then◌else◌,
}
use hurry.Cargo.Result.{ok}
use hurry.Cargo.Fingerprint.{
  Fields, new_fields, Fingerprint, fingerprint, Deps, nil, dep, DepHash, Hashers, hash_u64,
  dep_hashes, stored_deps, stored,
}
use hurry.Cargo.Fingerprint.Rewrite.{fields_of, deps_of, moved, relink, fresh_hash}

-- A unit: its fields, its source path below the machine's root (none for a build script's run), and
-- its dependencies with their package, name and visibility.
mutual
  pub data Tree : Type 0 where
    node : Fields → Option String → Trees → Tree

  pub data Trees : Type 0 where
    leaf : Trees
    branch : ℕ → String → Bool → Tree → Trees → Trees

abbrev pub src_of : Tree → Option String
src_of (node _ src _) = src

-- A dependency as the JSON text keeps it.
abbrev pub stubs : List DepHash → Deps
stubs [] = nil
stubs ((pkg_id, name, public, hash) ∷ hashes) =
    dep pkg_id name public (fingerprint new_fields nil (some hash)) (stubs hashes)

abbrev pub IsIn : Trees → List Tree → Type 0
IsIn leaf done = Unit
IsIn (branch _ _ _ t deps) done = Memᴰ t done × IsIn deps done

module _ (h : Hashers) where
  module _ (place : String → String) where
    -- Cargo's hash of a unit on the machine.
    unfoldable mutual
      pub native_hash : Tree → ℕ
      native_hash (node fields src deps) =
          fresh_hash h (moved h (Option.map place src) fields) (native_deps deps)

      pub native_deps : Trees → List DepHash
      native_deps leaf = []
      native_deps (branch pkg_id name public t deps) =
          (pkg_id, name, public, native_hash t) ∷ native_deps deps

    -- The fingerprint that Cargo writes for a unit on the machine, read back.
    unfoldable pub on_disk : Tree → Fingerprint
    unfolding native_hash
    on_disk (node fields src deps) =
        fingerprint (moved h (Option.map place src) fields) (stubs (native_deps deps)) none

    pub dep_hashes-stubs : (hashes : List DepHash) → dep_hashes h (stubs hashes) ≡ hashes
    unfolding hash_u64
    dep_hashes-stubs [] = refl
    dep_hashes-stubs ((p, n, b, k) ∷ hashes) = ap (λ l. (p, n, b, k) ∷ l) (dep_hashes-stubs hashes)

    pub hash_u64-on_disk : (t : Tree) → hash_u64 h (on_disk t) ≡ native_hash t
    unfolding on_disk hash_u64
    hash_u64-on_disk (node fields src deps) =
        ap (λ l. fresh_hash h (moved h (Option.map place src) fields) l)
          (dep_hashes-stubs (native_deps deps))

  stored_deps-stubs : (deps : Deps) → stored_deps h deps ≡ stubs (dep_hashes h deps)
  unfolding stored_deps hash_u64
  stored_deps-stubs nil = refl
  stored_deps-stubs (dep pkg_id name public f deps) =
      ap (dep pkg_id name public (fingerprint new_fields nil (some (hash_u64 h f))))
        (stored_deps-stubs deps)

  pub stored_lem :
      (f : Fingerprint)
      → stored h f ≡ fingerprint (fields_of f) (stubs (dep_hashes h (deps_of f))) none
  unfolding stored
  stored_lem (fingerprint fields deps memo) =
      ap (λ d. fingerprint fields d none) (stored_deps-stubs deps)

  module _ (from to : String → String) where
    -- The map leads from the old hash of each unit to a fingerprint with its new hash.
    abbrev pub Recorded : List (ℕ × Fingerprint) → List Tree → Type 0
    Recorded m = All (λ t.
        (f : Fingerprint) × (get_value m (native_hash from t) ≡ some f)
        × (hash_u64 h f ≡ native_hash to t))

    pub relink-native :
        (m : List (ℕ × Fingerprint)) (done : List Tree) (deps : Trees)
        → Recorded m done
        → IsIn deps done
        → relink h m (native_deps from deps) ≡ ok (native_deps to deps)
    unfolding native_hash
    relink-native m done leaf r i = refl
    relink-native m done (branch pkg_id name public t deps) r i =
        let (f, e, same) =
          All-Memᴰ
            (λ u.
              (g : Fingerprint) × (get_value m (native_hash from u) ≡ some g)
              × (hash_u64 h g ≡ native_hash to u))
            done r i.0 in
        rw e (rw (relink-native m done deps r i.1) (rw same))

    pub Recorded-put :
        (m m' : List (ℕ × Fingerprint)) (k : ℕ) (f' : Fingerprint) (done : List Tree)
        → ((j : ℕ) → get_value m' j ≡ (if nat_eq k j then some f' else get_value m j))
        → All (λ u. native_hash from u ≢ k) done
        → Recorded m done
        → Recorded m' done
    Recorded-put m m' k f' [] put new r = tt
    Recorded-put m m' k f' (u ∷ done) put new ((f, e, same), r) = (
      (f, ground (arith, put (native_hash from u)), same),
      Recorded-put m m' k f' done put new.1 r,
    )
