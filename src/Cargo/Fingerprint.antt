-- ===== src/Cargo/Fingerprint.antt =====
-- Cargo's fingerprints: packages/hurry/src/cargo/fingerprint.rs.
-- `Arc<Mutex<…>>` fields are plain values here: `rewrite` owns its fingerprint, and the clones that
-- share a memo cell with it afterwards (the entry of the map) are equal to it.
pub mod Rewrite
pub mod Relocate
pub mod SaveRestore
use hurry.Prelude.{
  ℕ, ◌+◌, String, Bool, Option, none, some, List, [], ◌∷◌, nat_eq, length, get_value, put_value,
  if◌then◌else◌,
}
use hurry.Cargo.Result.{Error, unset_path, dep_not_found, Result, ok, err, ◌>>=◌, ◌>>◌}

pub data LocalFingerprint : Type 0 where
  precalculated : String → LocalFingerprint
  check_dep_info : (dep_info : String) (checksum : Bool) → LocalFingerprint
  rerun_if_changed : (output : String) (paths : List String) → LocalFingerprint
  rerun_if_env_changed : (var : String) (val : Option String) → LocalFingerprint

-- The fields of `Fingerprint` beside `deps` and `memoized_hash`.
pub record Fields : Type 0 where
  pub rustc : ℕ
  pub features : String
  pub declared_features : String
  pub target : ℕ
  pub profile : ℕ
  pub path : ℕ
  pub local : List LocalFingerprint
  pub rustflags : List String
  pub config : ℕ
  pub compile_kind : ℕ

-- `fingerprint fields deps memoized_hash`; `dep` is a `DepFingerprint` before the later ones.
mutual
  pub data Fingerprint : Type 0 where
    fingerprint : Fields → Deps → Option ℕ → Fingerprint

  pub data Deps : Type 0 where
    nil : Deps
    dep : (pkg_id : ℕ) (name : String) (public : Bool) → Fingerprint → Deps → Deps

-- `Fingerprint::new`
abbrev pub new_fields : Fields
new_fields = record {
  rustc = 0;
  features = "";
  declared_features = "";
  target = 0;
  profile = 0;
  path = 0;
  local = [];
  rustflags = [];
  config = 0;
  compile_kind = 0;
}

-- What the `Hash` impl writes for one dependency: the package, the name, the visibility and the
-- dependency's own hash.
abbrev pub DepHash : Type 0
DepHash = ℕ × String × Bool × ℕ

-- What the `Hash` impl writes: the fields, the number of dependencies, and the dependencies.
pub record HashInput : Type 0 where
  pub fields : Fields
  pub dep_count : ℕ
  pub deps : List DepHash

unfoldable pub clear_memoized : Fingerprint → Fingerprint
clear_memoized (fingerprint fields deps _) = fingerprint fields deps none

-- `dep.fingerprint = …`, with the other fields untouched.
abbrev pub set_path : Fields → ℕ → Fields
set_path fields path = record fields { path = path }

-- The stable hasher and the hash of a path (`util_hash_u64` of a `PathBuf`) come from other crates.
pub record Hashers : Type 0 where
  pub sip : HashInput → ℕ
  pub path_hash : String → ℕ

-- `get(…).ok_or_eyre("dependency fingerprint hash not found")`
abbrev pub found : Option Fingerprint → Result Fingerprint
found none = err dep_not_found
found (some f) = ok f

abbrev or_memoized : Option ℕ → ℕ → ℕ
or_memoized (some s) ret = s
or_memoized none ret = ret

module _ (h : Hashers) where
  -- `hash_u64`, and the hashes that the `Hash` impl writes for the dependencies.
  unfoldable mutual
    pub hash_u64 : Fingerprint → ℕ
    hash_u64 (fingerprint fields deps memoized_hash) =
        let hashes = dep_hashes deps in
        or_memoized memoized_hash
          (h.sip (record { fields = fields; dep_count = length hashes; deps = hashes }))

    pub dep_hashes : Deps → List DepHash
    dep_hashes nil = []
    dep_hashes (dep pkg_id name public f deps) =
        (pkg_id, name, public, hash_u64 f) ∷ dep_hashes deps

  -- The side effect of `hash_u64`: the hash is kept.
  unfoldable pub memoize : Fingerprint → Fingerprint
  unfolding hash_u64
  memoize (fingerprint fields deps memoized_hash) =
      fingerprint fields deps (some (hash_u64 (fingerprint fields deps memoized_hash)))

  -- The `path` part of `rewrite`.
  unfoldable pub rewrite_path : Option String → Fields → Result Fields
  rewrite_path none fields = ok fields
  rewrite_path (some path) fields =
      if nat_eq fields.path 0 then err unset_path else ok (set_path fields (h.path_hash path))

  -- The loop over `deps`.
  unfoldable pub rewrite_deps : List (ℕ × Fingerprint) → Deps → Result Deps
  unfolding hash_u64
  rewrite_deps dep_fingerprints nil = ok nil
  rewrite_deps dep_fingerprints (dep pkg_id name public f deps) = do
    f' ← found (get_value dep_fingerprints (hash_u64 f))
    deps' ← rewrite_deps dep_fingerprints deps
    ok (dep pkg_id name public f' deps')

  -- `rewrite`: the rewritten fingerprint and the map with its entry.
  unfoldable pub rewrite :
      Fingerprint
      → Option String
      → List (ℕ × Fingerprint)
      → Result (Fingerprint × List (ℕ × Fingerprint))
  unfolding hash_u64 memoize rewrite_path rewrite_deps clear_memoized
  rewrite (fingerprint fields deps memoized_hash) path dep_fingerprints = do
    let old = hash_u64 (fingerprint fields deps memoized_hash)
    fields' ← rewrite_path path fields
    deps' ← rewrite_deps dep_fingerprints deps
    let new = memoize (clear_memoized (fingerprint fields' deps' (some old)))
    ok (new, put_value old new dep_fingerprints)

-- Writing the JSON text and reading it back: a dependency is stored as its hash alone, and read as
-- an empty fingerprint with that hash memoized; a fingerprint's own memo is not stored.
module _ (h : Hashers) where
  unfoldable pub stored_deps : Deps → Deps
  stored_deps nil = nil
  stored_deps (dep pkg_id name public f deps) =
      dep pkg_id name public (fingerprint new_fields nil (some (hash_u64 h f))) (stored_deps deps)

  unfoldable pub stored : Fingerprint → Fingerprint
  unfolding hash_u64 stored_deps
  stored (fingerprint fields deps _) = fingerprint fields (stored_deps deps) none
