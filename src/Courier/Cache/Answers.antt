-- ===== src/Courier/Cache/Answers.antt =====
-- What a restore answers (packages/courier/src/db/cargo_cache.rs).
use mathlib.Core.List.{Memᴰ}
use hurry.Prelude.{
  ℕ, String, true, Option, none, some, List, [], ◌∷◌, ◌++◌, ◌≡◌, ◌≢◌, refl, sym, ap, ◌∙◌, arith,
  contains, All, All-Memᴰ, inl, inr, append-nil,
}
use hurry.Clients.Glibc.{GlibcVersion}
use hurry.Clients.Requests.{CargoSaveUnitRequest, CargoRestoreRequest}
use hurry.Clients.Saved.{SavedUnit, SavedUnitHash, CargoRestoreResponse, get, unit_hash}
use hurry.Courier.Cache.{
  SavedUnitRow, CacheEnv, select_rows, is_compatible, row_of, version_text, cargo_cache_save,
  cargo_cache_restore, cargo_cache_reset,
}
use hurry.Courier.Cache.Rows.{IsGiven, Restores, restore_rows-IsGiven, restore_rows-Restores}
use hurry.Courier.Cache.Select.{select-keeps, select-IsSelected, select-append, select-delete}
use hurry.Courier.Cache.Laws.{
  IsLawful, IsItem, CanRun, IsSaved, cargo_cache_save-IsSaved, compatible-CanRun,
  IsSaved-IsReadable, saved_item,
}

some_inj {ℓ} : {A : Type ℓ} {a b : A} → ◌≡◌ {A = Option A} (some a) (some b) → a ≡ b
some_inj e = cc

All-of {ℓ κ} : {A : Type ℓ} {P : A → Type κ} (l : List A) → ((x : A) → Memᴰ x l → P x) → All P l
All-of [] h = tt
All-of (x ∷ l) h = (h x (Memᴰ.head refl), All-of l (λ y m. h y (Memᴰ.tail m)))

module _ (env : CacheEnv) (w : IsLawful env) where
  -- A unit that a response may hold for a hash: the request asks for the hash, and the organization
  -- saved the unit under it, with a version with which it can run on the request's host.
  pub record Provides (org : ℕ) (request : CargoRestoreRequest) (rows : List SavedUnitRow)
      (h : SavedUnitHash) (u : SavedUnit) : Type 0 where
    pub requested : contains request.units h ≡ true
    pub row : SavedUnitRow
    pub among : Memᴰ row rows
    pub owned : row.organization_id ≡ org
    pub decoded : env.from_json row.json ≡ some u
    pub asked : row.unit_hash ≡ h
    pub hash : unit_hash u ≡ h
    pub version : Option GlibcVersion
    pub text : row.linux_glibc_version ≡ version_text env version
    pub runs : CanRun request.host_glibc_version version

  -- Whatever a restore answers for a hash, the request asked for that hash, and the organization
  -- itself saved the unit under it, for a C library with which it can run on the request's host; the
  -- table is one that saves have left.
  pub cargo_cache_restore-Provides :
      (org : ℕ) (request : CargoRestoreRequest) (rows : List SavedUnitRow)
      (response : CargoRestoreResponse) (h : SavedUnitHash) (u : SavedUnit)
      → All (IsSaved env) rows
      → cargo_cache_restore env org request rows ≡ some response
      → get response h ≡ some u
      → Provides org request rows h u
  unfolding cargo_cache_restore get
  cargo_cache_restore-Provides org request rows response h u saved run found =
      elim (restore_rows-IsGiven env request.host_glibc_version _ [] response h u run found) [
        | inl start ↦ absurd (no_unit start)
        | inr g ↦ given g
      ]
    where
      no_unit : ◌≡◌ {A = Option SavedUnit} none (some u) → ⊥
      no_unit e = cc

      given :
          IsGiven env request.host_glibc_version
            (env.fetched (select_rows org request.units rows))
            h
            u
          → Provides org request rows h u
      given g =
          let sel =
            select-IsSelected org request.units rows g.row
              (w.only (select_rows org request.units rows) g.row g.among) in
          let s = All-Memᴰ (IsSaved env) rows saved sel.among in
          record {
            requested = ap (contains request.units) (sym g.hash) ∙ sel.asked;
            row = g.row;
            among = sel.among;
            owned = sel.owned;
            decoded = g.decoded;
            asked = g.hash;
            hash = ap unit_hash (some_inj (sym g.decoded ∙ s.decoded)) ∙ s.hash ∙ g.hash;
            version = s.version;
            text = s.text;
            runs =
                (compatible-CanRun env w request.host_glibc_version s.version s.versions).0
                  (ap (is_compatible env request.host_glibc_version) (sym s.text) ∙ g.compatible);
          }

  restored :
      (org : ℕ) (request : CargoRestoreRequest) (rows : List SavedUnitRow)
      → All (IsSaved env) rows
      → Restores env request.host_glibc_version
          (env.fetched (select_rows org request.units rows))
          []
  restored org request rows saved = restore_rows-Restores env request.host_glibc_version _ [] (
      All-of _ (λ row m. IsSaved-IsReadable env w request.host_glibc_version row (
        All-Memᴰ (IsSaved env) rows saved
          (select-IsSelected org request.units rows row (w.only _ row m)).among)))

  run_of :
      (org : ℕ) (request : CargoRestoreRequest) (rows : List SavedUnitRow)
      → (r : Restores env request.host_glibc_version
          (env.fetched (select_rows org request.units rows))
          [])
      → cargo_cache_restore env org request rows ≡ some r.response
  unfolding cargo_cache_restore
  run_of org request rows r = r.runs

  -- A saved unit is restored: on a table that saves have left, after a save of an item, a restore by
  -- the same organization that asks for its hash, on a host where the saved version can run,
  -- succeeds, and its response has such a unit for the hash.
  pub save-restore :
      (org : ℕ) (request : CargoRestoreRequest) (rows : List SavedUnitRow)
      (items : List CargoSaveUnitRequest) (item : CargoSaveUnitRequest)
      → All (IsSaved env) rows
      → All (IsItem env) items
      → Memᴰ item items
      → contains request.units (unit_hash item.unit) ≡ true
      → CanRun request.host_glibc_version item.linux_glibc_version
      → let after = cargo_cache_save env org items rows in
        (response : CargoRestoreResponse) × (cargo_cache_restore env org request after
          ≡ some response)
        × (u : SavedUnit) × (get response (unit_hash item.unit) ≡ some u)
        × Provides org request after (unit_hash item.unit) u
  save-restore org request rows items item saved versions m asked can =
      let after = cargo_cache_save env org items rows in
      let good = cargo_cache_save-IsSaved env w org items rows versions saved in
      let r = restored org request after good in
      let row = row_of env org item in
      let among = saved_item env org items rows item m in
      let fits =
        (compatible-CanRun env w request.host_glibc_version item.linux_glibc_version
            ((All-Memᴰ (IsItem env) items versions m).version)).1
          can in
      let (u, found) =
        r.offers row (w.all _ row (select-keeps org request.units after row among refl asked))
          fits in
      (
        r.response,
        run_of org request after r,
        u,
        found,
        cargo_cache_restore-Provides org request after r.response (unit_hash item.unit) u good
            (run_of org request after r) found,
      )

  not_unversioned :
      (host : GlibcVersion) (version : Option GlibcVersion)
      → ◌≡◌ {A = Option String} none (version_text env version)
      → CanRun (some host) version
      → ⊥
  not_unversioned host none e runs = runs
  not_unversioned host (some v) e runs = cc

  -- A unit without a version, such as one for a platform without glibc, is never restored where the
  -- host has a version, whatever its platform: if each row of the organization with the hash has
  -- none, no response of a restore from such a host has a unit for the hash.
  pub restore_unversioned :
      (org : ℕ) (host : GlibcVersion) (units : List SavedUnitHash) (rows : List SavedUnitRow)
      (response : CargoRestoreResponse) (h : SavedUnitHash)
      → All (IsSaved env) rows
      → ((row : SavedUnitRow)
          → Memᴰ row rows
          → row.organization_id ≡ org
          → row.unit_hash ≡ h
          → row.linux_glibc_version ≡ none)
      → cargo_cache_restore env org (record { units = units; host_glibc_version = some host }) rows
        ≡ some response
      → (u : SavedUnit) → get response h ≢ some u
  restore_unversioned org host units rows response h saved without run u found =
      let p =
        cargo_cache_restore-Provides org (record { units = units; host_glibc_version = some host })
          rows response h u saved run found in
      not_unversioned host p.version (sym (without p.row p.among p.owned p.asked) ∙ p.text) p.runs

module _ (env : CacheEnv) (org other : ℕ) (ne : org ≢ other) where
  select-save :
      (units : List SavedUnitHash) (items : List CargoSaveUnitRequest) (rows : List SavedUnitRow)
      → select_rows org units (cargo_cache_save env other items rows) ≡ select_rows org units rows
  unfolding cargo_cache_save select_rows
  select-save units [] rows = refl
  select-save units (item ∷ items) rows =
      select-save units items _
      ∙ select-append org units rows (row_of env other item ∷ [])
      ∙ ap (λ l. select_rows org units rows ++ l) none_of_it
      ∙ append-nil (select_rows org units rows)
    where
      none_of_it : select_rows org units (row_of env other item ∷ []) ≡ []
      none_of_it = ground arith

  -- What one organization saves or resets changes no restore of another.
  pub restore-isolated :
      (request : CargoRestoreRequest) (items : List CargoSaveUnitRequest) (rows : List SavedUnitRow)
      → (cargo_cache_restore env org request (cargo_cache_save env other items rows)
          ≡ cargo_cache_restore env org request rows)
        × (cargo_cache_restore env org request (cargo_cache_reset other rows)
            ≡ cargo_cache_restore env org request rows)
  unfolding cargo_cache_restore cargo_cache_reset
  restore-isolated request items rows = (
    rw (select-save request.units items rows) refl,
    rw (select-delete org other request.units rows ne) refl,
  )
