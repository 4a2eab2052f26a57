-- ===== src/Courier/Cache/Laws.antt =====
-- Saving units and restoring them (packages/courier/src/db/cargo_cache.rs).
use mathlib.Core.List.{Memᴰ}
use mathlib.Core.List.Memᴰ
use hurry.Prelude.{
  ℕ, ◌<◌, ◌^◌, Bool, true, false, not, Option, none, some, List, [], ◌∷◌, ◌++◌, ◌≡◌, refl, ap,
  arith, All, All-append, ◌↔◌,
}
use hurry.Clients.Glibc.{GlibcVersion, older, from_str, to_string}
use hurry.Clients.Glibc.Laws.{IsText, from_str-to_string}
use hurry.Clients.Requests.{CargoSaveUnitRequest}
use hurry.Clients.Saved.{SavedUnit, unit_hash}
use hurry.Courier.Cache.{
  SavedUnitRow, CacheEnv, is_compatible, row_of, version_text, cargo_cache_save,
}
use hurry.Courier.Cache.Rows.{IsReadable}

-- What the text of a `u32` and a query satisfy.
pub record IsLawful (env : CacheEnv) : Type 0 where
  pub text : (n : ℕ) → n < 2 ^ 32 → IsText env.read_u32 env.show_u32 n
  pub all : (l : List SavedUnitRow) (row : SavedUnitRow) → Memᴰ row l → Memᴰ row (env.fetched l)
  pub only : (l : List SavedUnitRow) (row : SavedUnitRow) → Memᴰ row (env.fetched l) → Memᴰ row l

-- The numbers of a version are a `u32`.
abbrev pub IsVersion : Option GlibcVersion → Type 0
IsVersion none = Unit
IsVersion (some v) = (v.major < 2 ^ 32) × (v.minor < 2 ^ 32) × (v.patch < 2 ^ 32)

-- Where a unit that was saved with a version can run.
abbrev pub CanRun : Option GlibcVersion → Option GlibcVersion → Type 0
CanRun none none = Unit
CanRun none (some saved) = ⊥
CanRun (some host) none = ⊥
CanRun (some host) (some saved) = older host saved ≡ false

module _ (env : CacheEnv) where
  -- What saving leaves: a row has a unit with the row's hash, and the text of a version.
  pub record IsSaved (row : SavedUnitRow) : Type 0 where
    pub unit : SavedUnit
    pub decoded : env.from_json row.json ≡ some unit
    pub hash : unit_hash unit ≡ row.unit_hash
    pub version : Option GlibcVersion
    pub versions : IsVersion version
    pub text : row.linux_glibc_version ≡ version_text env version

  -- An item of a save: its unit's JSON is read back, and its version has numbers of a `u32`.
  pub record IsItem (item : CargoSaveUnitRequest) : Type 0 where
    pub json : env.from_json (env.to_json item.unit) ≡ some item.unit
    pub version : IsVersion item.linux_glibc_version

  module _ (w : IsLawful env) where
    pub row_of-IsSaved :
        (org : ℕ) (item : CargoSaveUnitRequest) → IsItem item → IsSaved (row_of env org item)
    row_of-IsSaved org item v = record {
      unit = item.unit;
      decoded = v.json;
      hash = refl;
      version = item.linux_glibc_version;
      versions = v.version;
      text = refl;
    }

    -- Every table that saves and resets build up is well formed.
    pub cargo_cache_save-IsSaved :
        (org : ℕ) (items : List CargoSaveUnitRequest) (rows : List SavedUnitRow)
        → All IsItem items
        → All IsSaved rows
        → All IsSaved (cargo_cache_save env org items rows)
    unfolding cargo_cache_save
    cargo_cache_save-IsSaved org [] rows v h = h
    cargo_cache_save-IsSaved org (item ∷ items) rows v h =
        cargo_cache_save-IsSaved org items (rows ++ row_of env org item ∷ []) v.1
          (All-append IsSaved rows _ h (row_of-IsSaved org item v.0, tt))

    version_back :
        (v : GlibcVersion)
        → IsVersion (some v)
        → from_str env.read_u32 env.show_u32 (to_string env.read_u32 env.show_u32 v) ≡ some v
    version_back v (a, b, c) =
        from_str-to_string env.read_u32 env.show_u32 v (w.text v.major a) (w.text v.minor b)
          (w.text v.patch c)

    pub decides :
        (host version : Option GlibcVersion)
        → IsVersion version
        → (b : Bool) × (is_compatible env host (version_text env version) ≡ some b)
    unfolding is_compatible
    decides none none v = (true, refl)
    decides none (some saved) v = (false, refl)
    decides (some host) none v = (false, refl)
    decides (some host) (some saved) v = (not (older host saved), rw (version_back saved v) refl)

    pub compatible-CanRun :
        (host version : Option GlibcVersion)
        → IsVersion version
        → (is_compatible env host (version_text env version) ≡ some true) ↔ CanRun host version
    unfolding is_compatible
    compatible-CanRun none none v = (λ e. tt, λ e. refl)
    compatible-CanRun none (some saved) v = (λ e. cc, λ e. absurd e)
    compatible-CanRun (some host) none v = (λ e. cc, λ e. absurd e)
    compatible-CanRun (some host) (some saved) v = (
      λ e. ground (arith, rw (version_back saved v) at e),
      λ e. rw (version_back saved v) (rw e refl),
    )

    pub IsSaved-IsReadable :
        (host : Option GlibcVersion) (row : SavedUnitRow) → IsSaved row → IsReadable env host row
    IsSaved-IsReadable host row s = record {
      unit = s.unit;
      decoded = s.decoded;
      compatible = rw s.text (decides host s.version s.versions);
    }

  pub saved_before :
      (org : ℕ) (items : List CargoSaveUnitRequest) (rows : List SavedUnitRow) (row : SavedUnitRow)
      → Memᴰ row rows
      → Memᴰ row (cargo_cache_save env org items rows)
  unfolding cargo_cache_save
  saved_before org [] rows row m = m
  saved_before org (item ∷ items) rows row m =
      saved_before org items _ row (Memᴰ.append_left (row_of env org item ∷ []) m)

  pub saved_item :
      (org : ℕ) (items : List CargoSaveUnitRequest) (rows : List SavedUnitRow)
      (item : CargoSaveUnitRequest)
      → Memᴰ item items
      → Memᴰ (row_of env org item) (cargo_cache_save env org items rows)
  unfolding cargo_cache_save
  saved_item org [] rows item m = elim m [ ]
  saved_item org (x ∷ items) rows item (Memᴰ.head e) =
      saved_before org items _ (row_of env org item)
        (Memᴰ.append_right rows (Memᴰ.head (ap (row_of env org) e)))
  saved_item org (x ∷ items) rows item (Memᴰ.tail m) = saved_item org items _ item m
