-- ===== src/Cargo/Fingerprint/Rewrite.antt =====
-- What one `rewrite` does: when it fails, what the new fingerprint hashes to, and what the map of
-- rewritten dependencies holds afterwards.
use hurry.Prelude.{
  ℕ, String, Bool, Option, none, some, List, [], ◌∷◌, ◌≡◌, refl, sym, subst, ◌≢◌, ap, ◌∙◌, ◌⊎◌, inl,
  inr, arith, nat_eq, length, get_value, put_value, get-put_value, Option-cases, Bool-cases,
  if◌then◌else◌,
}
use hurry.Cargo.Result.{Error, unset_path, dep_not_found, Result, ok, err, ◌>>=◌, >>=-eq-ok}
use hurry.Cargo.Fingerprint.{
  Fields, Fingerprint, fingerprint, Deps, nil, dep, DepHash, Hashers, set_path, hash_u64,
  dep_hashes, found, memoize, clear_memoized, rewrite_path, rewrite_deps, rewrite,
}

abbrev pub fields_of : Fingerprint → Fields
fields_of (fingerprint fields _ _) = fields

abbrev pub deps_of : Fingerprint → Deps
deps_of (fingerprint _ deps _) = deps

-- The fields that `rewrite` writes.
abbrev pub moved : Hashers → Option String → Fields → Fields
moved h none fields = fields
moved h (some path) fields = set_path fields (h.path_hash path)

bind-err :
    (r : Result Deps) (g : Deps → Fingerprint × List (ℕ × Fingerprint)) {e : Error}
    → (r >>= λ d. ok (g d)) ≡ err e
    → r ≡ err e
bind-err (ok deps) g q = cc
bind-err (err x) g q = cc

-- The path can be replaced: it was set, or none is given.
abbrev pub CanMove : Option String → Fields → Type 0
CanMove none fields = Unit
CanMove (some path) fields = fields.path ≢ 0

module _ (h : Hashers) where
  -- The dependencies' hashes with each old hash replaced by that of the map's entry for it.
  abbrev pub relink : List (ℕ × Fingerprint) → List DepHash → Result (List DepHash)
  relink m [] = ok []
  relink m ((pkg_id, name, public, old) ∷ deps) = do
    f ← found (get_value m old)
    deps' ← relink m deps
    ok ((pkg_id, name, public, hash_u64 h f) ∷ deps')

  -- What Cargo would compute for the fingerprint from scratch.
  abbrev pub fresh_hash : Fields → List DepHash → ℕ
  fresh_hash fields hashes =
      h.sip (record { fields = fields; dep_count = length hashes; deps = hashes })

  bind-dep :
      (r : Result Deps) (pkg_id : ℕ) (name : String) (public : Bool) (f : Fingerprint)
      → ((r >>= λ deps'. ok (dep pkg_id name public f deps')) >>= λ deps'. ok (dep_hashes h deps'))
        ≡ ((r >>= λ deps'. ok (dep_hashes h deps')) >>= λ hashes.
            ok ((pkg_id, name, public, hash_u64 h f) ∷ hashes))
  unfolding hash_u64
  bind-dep (ok deps) pkg_id name public f = refl
  bind-dep (err e) pkg_id name public f = refl

  rewrite_deps-relink :
      (m : List (ℕ × Fingerprint)) (deps : Deps)
      → (rewrite_deps h m deps >>= λ deps'. ok (dep_hashes h deps')) ≡ relink m (dep_hashes h deps)
  unfolding rewrite_deps
  rewrite_deps-relink m nil = refl
  rewrite_deps-relink m (dep pkg_id name public f deps) =
      elim (Option-cases (get_value m (hash_u64 h f))) [
        | inl e ↦ rw e
        | inr (f', e) ↦ rw e (
            bind-dep (rewrite_deps h m deps) pkg_id name public f'
            ∙ ap (λ r. r >>= λ hashes. ok ((pkg_id, name, public, hash_u64 h f') ∷ hashes))
                (rewrite_deps-relink m deps))
      ]

  -- `rewrite` of `f` gave `f'` and `m'`.
  pub record IsRewritten (f : Fingerprint) (path : Option String) (m : List (ℕ × Fingerprint))
      (f' : Fingerprint) (m' : List (ℕ × Fingerprint)) : Type 0 where
    pub fields : fields_of f' ≡ moved h path (fields_of f)
    pub deps : relink m (dep_hashes h (deps_of f)) ≡ ok (dep_hashes h (deps_of f'))
    pub hash : hash_u64 h f' ≡ fresh_hash (fields_of f') (dep_hashes h (deps_of f'))
    pub map :
        (j : ℕ) → get_value m' j ≡ (if nat_eq (hash_u64 h f) j then some f' else get_value m j)

  rewrite_path-eq-ok :
      (path : Option String) (fields fields' : Fields)
      → rewrite_path h path fields ≡ ok fields'
      → fields' ≡ moved h path fields
  unfolding rewrite_path
  rewrite_path-eq-ok none fields fields' e = cc
  rewrite_path-eq-ok (some path) fields fields' e = ground arith

  -- What `rewrite` builds once its two checks have passed.
  built : Fields → Deps → ℕ → List (ℕ × Fingerprint) → Fingerprint × List (ℕ × Fingerprint)
  built fields deps old m =
      let new = memoize h (clear_memoized (fingerprint fields deps (some old))) in
      (new, put_value old new m)

  built-IsRewritten :
      (f : Fingerprint) (path : Option String) (m : List (ℕ × Fingerprint)) (fields : Fields)
      (deps : Deps)
      → fields ≡ moved h path (fields_of f)
      → relink m (dep_hashes h (deps_of f)) ≡ ok (dep_hashes h deps)
      → IsRewritten f path m
          (built fields deps (hash_u64 h f) m).0
          (built fields deps (hash_u64 h f) m).1
  unfolding built memoize clear_memoized
  built-IsRewritten f path m fields deps e d = record {
    fields = e;
    deps = d;
    hash = refl;
    map = λ j. get-put_value _ _ m j;
  }

  rewrite-built :
      (f : Fingerprint) (path : Option String) (m : List (ℕ × Fingerprint))
      → rewrite h f path m ≡ (
          rewrite_path h path (fields_of f) >>= λ fields.
          rewrite_deps h m (deps_of f) >>= λ deps. ok (built fields deps (hash_u64 h f) m))
  unfolding rewrite built
  rewrite-built (fingerprint fields deps memo) path m = refl

  -- What a successful rewrite returns: the fields with the given path's hash, the dependencies with
  -- each hash replaced by that of the map's entry for it, a hash computed afresh from those and not
  -- the old memoized one, and the map with one new entry, under the old hash.
  pub rewrite-IsRewritten :
      (f : Fingerprint) (path : Option String) (m : List (ℕ × Fingerprint)) (f' : Fingerprint)
      (m' : List (ℕ × Fingerprint))
      → rewrite h f path m ≡ ok (f', m')
      → IsRewritten f path m f' m'
  rewrite-IsRewritten f path m f' m' e =
      let (fields', e_path, e₁) =
        >>=-eq-ok (rewrite_path h path (fields_of f)) _ (sym (rewrite-built f path m) ∙ e) in
      let (deps', e_deps, e₂) = >>=-eq-ok (rewrite_deps h m (deps_of f)) _ e₁ in
      let same : built fields' deps' (hash_u64 h f) m ≡ (f', m') = cc in
      subst (λ r. IsRewritten f path m r.0 r.1) same
        (built-IsRewritten f path m fields' deps'
          (rewrite_path-eq-ok path (fields_of f) fields' e_path)
          (sym (rewrite_deps-relink m (deps_of f))
            ∙ ap (λ r. r >>= λ d. ok (dep_hashes h d)) e_deps))

  rewrite_path_total :
      (path : Option String) (fields : Fields)
      → CanMove path fields
      → rewrite_path h path fields ≡ ok (moved h path fields)
  unfolding rewrite_path
  rewrite_path_total none fields c = refl
  rewrite_path_total (some path) fields c = ground arith

  rewrite_deps_total :
      (m : List (ℕ × Fingerprint)) (r : Result Deps) (hashes : List DepHash)
      → (r >>= λ deps'. ok (dep_hashes h deps')) ≡ ok hashes
      → (deps' : Deps) × (r ≡ ok deps')
  rewrite_deps_total m (ok deps) hashes e = (deps, refl)
  rewrite_deps_total m (err x) hashes e = cc

  -- A rewrite succeeds if the path can be replaced and the map has an entry for every dependency.
  pub rewrite_total :
      (f : Fingerprint) (path : Option String) (m : List (ℕ × Fingerprint)) (hashes : List DepHash)
      → CanMove path (fields_of f)
      → relink m (dep_hashes h (deps_of f)) ≡ ok hashes
      → (f' : Fingerprint) × (m' : List (ℕ × Fingerprint)) × (rewrite h f path m ≡ ok (f', m'))
  unfolding built
  rewrite_total f path m hashes c d =
      let (deps', e) =
        rewrite_deps_total m (rewrite_deps h m (deps_of f)) hashes
          (rewrite_deps-relink m (deps_of f) ∙ d) in
      let r = built (moved h path (fields_of f)) deps' (hash_u64 h f) m in
      (r.0, r.1, rewrite-built f path m ∙ rw (rewrite_path_total path (fields_of f) c) (rw e))

  rewrite_path_cases :
      (path : Option String) (fields : Fields)
      → (rewrite_path h path fields ≡ ok (moved h path fields))
        ⊎ ((rewrite_path h path fields ≡ err unset_path) × (fields.path ≡ 0) × (path ≢ none))
  unfolding rewrite_path
  rewrite_path_cases none fields = inl refl
  rewrite_path_cases (some path) fields = elim (Bool-cases (nat_eq fields.path 0)) [
    | inl unset ↦ inr (rw unset, ground arith, λ e. cc)
    | inr set ↦ inl (rw set)
  ]

  relink-err :
      (m : List (ℕ × Fingerprint)) (deps : List DepHash) (e : Error)
      → relink m deps ≡ err e
      → e ≡ dep_not_found
  relink-err m [] e q = cc
  relink-err m ((pkg_id, name, public, old) ∷ deps) e q =
      ground (arith, relink-err m deps e, Option-cases (get_value m old))

  -- The only errors: a path for a fingerprint whose path was never set, and a dependency that the
  -- map has no entry for.
  pub rewrite_errors :
      (f : Fingerprint) (path : Option String) (m : List (ℕ × Fingerprint)) (e : Error)
      → rewrite h f path m ≡ err e
      → ((e ≡ unset_path) × ((fields_of f).path ≡ 0) × (path ≢ none))
        ⊎ ((e ≡ dep_not_found) × (relink m (dep_hashes h (deps_of f)) ≡ err dep_not_found))
  rewrite_errors f path m e q = elim (rewrite_path_cases path (fields_of f)) [
    | inl moves ↦
        let q' = sym (rewrite-built f path m) ∙ q in
        let deps = bind-err (rewrite_deps h m (deps_of f)) _ (rw moves at q') in
        let linked =
          sym (rewrite_deps-relink m (deps_of f)) ∙ ap (λ r. r >>= λ d. ok (dep_hashes h d)) deps in
        let kind = relink-err m (dep_hashes h (deps_of f)) e linked in
        inr (kind, rw (← kind) linked)
    | inr (fails, unset, given) ↦
        let q' = sym (rewrite-built f path m) ∙ q in
        let q'' = rw fails at q' in inl (cc, unset, given)
  ]
