-- ===== src/Courier/Cache.antt =====
-- The cached units on the server: packages/courier/src/db/cargo_cache.rs and the endpoints
-- api/v1/cache/cargo/save.rs, restore.rs and reset.rs. The table has no unique key in the migrations,
-- so an insert has no conflict. JSON, the text of a `u32` and the order in which a
-- query returns its rows are parameters.
pub mod Select
pub mod Rows
pub mod Laws
pub mod Answers
use hurry.Prelude.{
  ℕ, String, ◌==◌, Bool, true, false, not, ◌&&◌, Option, none, some, List, [], ◌∷◌, ◌++◌, nat_eq,
  contains, if◌then◌else◌,
}
use hurry.Clients.Glibc.{GlibcVersion, older, from_str, to_string}
use hurry.Clients.Requests.{CargoSaveUnitRequest, CargoRestoreRequest}
use hurry.Clients.Saved.{SavedUnit, SavedUnitHash, CargoRestoreResponse, unit_hash, without}

-- A row of `cargo_saved_unit`; `json` is its column `data`.
pub record SavedUnitRow : Type 0 where
  pub organization_id : ℕ
  pub unit_hash : String
  pub unit_resolved_target : String
  pub linux_glibc_version : Option String
  pub json : String

-- What other crates and the database do.
pub record CacheEnv : Type 0 where
  pub to_json : SavedUnit → String
  pub from_json : String → Option SavedUnit
  pub read_u32 : String → Option ℕ
  pub show_u32 : ℕ → String
  pub fetched : List SavedUnitRow → List SavedUnitRow

-- `HashMap::insert`
unfoldable pub put_unit : SavedUnitHash → SavedUnit → CargoRestoreResponse → CargoRestoreResponse
unfolding without
put_unit key unit units = (key, unit) ∷ without units key

unfoldable pub delete_rows : ℕ → List SavedUnitRow → List SavedUnitRow
delete_rows org [] = []
delete_rows org (row ∷ rows) =
    let rest = delete_rows org rows in if nat_eq row.organization_id org then rest else row ∷ rest

-- `WHERE organization_id = $1 AND unit_hash = ANY($2)`
unfoldable pub select_rows : ℕ → List SavedUnitHash → List SavedUnitRow → List SavedUnitRow
unfolding contains
select_rows org units [] = []
select_rows org units (row ∷ rows) =
    let rest = select_rows org units rows in
    if nat_eq row.organization_id org && contains units row.unit_hash then row ∷ rest else rest

module _ (env : CacheEnv) where
  abbrev pub version_text : Option GlibcVersion → Option String
  version_text none = none
  version_text (some version) = some (to_string env.read_u32 env.show_u32 version)

  abbrev pub row_of : ℕ → CargoSaveUnitRequest → SavedUnitRow
  row_of org item = record {
    organization_id = org;
    unit_hash = unit_hash item.unit;
    unit_resolved_target = item.resolved_target;
    linux_glibc_version = version_text item.linux_glibc_version;
    json = env.to_json item.unit;
  }

  -- `Postgres::cargo_cache_save`, with the rows after it.
  unfoldable pub cargo_cache_save :
      ℕ → List CargoSaveUnitRequest → List SavedUnitRow → List SavedUnitRow
  unfolding unit_hash to_string
  cargo_cache_save org [] rows = rows
  cargo_cache_save org (item ∷ items) rows =
      cargo_cache_save org items (rows ++ row_of org item ∷ [])

  abbrev pub not_older : GlibcVersion → Option GlibcVersion → Option Bool
  not_older host none = none
  not_older host (some saved) = some (not (older host saved))

  -- Whether the unit of a row is given out; none is an error.
  unfoldable pub is_compatible : Option GlibcVersion → Option String → Option Bool
  unfolding older from_str
  is_compatible (some host) none = some false
  is_compatible (some host) (some saved) = not_older host (from_str env.read_u32 env.show_u32 saved)
  is_compatible none none = some true
  is_compatible none (some saved) = some false

  -- The body of the loop: the unit and its compatibility are of the row, and none is an error.
  abbrev pub give :
      (CargoRestoreResponse → Option CargoRestoreResponse)
      → SavedUnitHash
      → Option SavedUnit
      → Option Bool
      → CargoRestoreResponse
      → Option CargoRestoreResponse
  give rest key none compatible artifacts = none
  give rest key (some unit) none artifacts = none
  give rest key (some unit) (some false) artifacts = rest artifacts
  give rest key (some unit) (some true) artifacts = rest (put_unit key unit artifacts)

  -- `while let Some(row) = rows.next().await`
  unfoldable pub restore_rows :
      Option GlibcVersion → List SavedUnitRow → CargoRestoreResponse → Option CargoRestoreResponse
  unfolding is_compatible put_unit
  restore_rows host [] artifacts = some artifacts
  restore_rows host (row ∷ rows) artifacts =
      give (restore_rows host rows) row.unit_hash (env.from_json row.json)
        (is_compatible host row.linux_glibc_version) artifacts

  -- `Postgres::cargo_cache_restore`
  unfoldable pub cargo_cache_restore :
      ℕ → CargoRestoreRequest → List SavedUnitRow → Option CargoRestoreResponse
  unfolding restore_rows select_rows
  cargo_cache_restore org request rows =
      restore_rows request.host_glibc_version (env.fetched (select_rows org request.units rows)) []

-- `Postgres::cargo_cache_reset`, on this table.
unfoldable pub cargo_cache_reset : ℕ → List SavedUnitRow → List SavedUnitRow
unfolding delete_rows
cargo_cache_reset org rows = delete_rows org rows

-- The endpoints; a call that fails is an error, and the transaction is rolled back.
pub data CacheSaveResponse : Type 0 where
  created error : CacheSaveResponse

pub data CacheRestoreResponse : Type 0 where
  ok : CargoRestoreResponse → CacheRestoreResponse
  not_found error : CacheRestoreResponse

abbrev restore_response : Option CargoRestoreResponse → CacheRestoreResponse
restore_response none = error
restore_response (some []) = not_found
restore_response (some (unit ∷ units)) = ok (unit ∷ units)

module _ (env : CacheEnv) (org : ℕ) (is_down : Bool) where
  unfoldable pub save :
      List CargoSaveUnitRequest → List SavedUnitRow → CacheSaveResponse × List SavedUnitRow
  unfolding cargo_cache_save
  save items rows =
      if is_down then (error, rows) else (created, cargo_cache_save env org items rows)

  unfoldable pub restore : CargoRestoreRequest → List SavedUnitRow → CacheRestoreResponse
  unfolding cargo_cache_restore
  restore request rows =
      if is_down then error else restore_response (cargo_cache_restore env org request rows)
