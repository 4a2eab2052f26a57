-- ===== src/Cargo/Restore/Filter.antt =====
-- `filter_units_with_incomplete_deps` of packages/hurry/src/cargo/cache/restore.rs.
pub mod Complete
pub mod Invariant
pub mod Laws
use hurry.Prelude.{
  ℕ, ◌+◌, String, Bool, true, false, not, Option, none, some, List, [], ◌∷◌, ◌++◌, contains, insert,
  remove, if◌then◌else◌,
}
use hurry.Cargo.Units.{UnitHash, UnitPlan, info}

-- `deps.iter().find(|dep_hash| !available.contains(dep_hash))`
unfoldable pub missing_dep : List UnitHash → List UnitHash → Option UnitHash
missing_dep available [] = none
missing_dep available (dep ∷ deps) =
    if contains available dep then missing_dep available deps else some dep

-- What the loop carries from unit to unit.
pub record FilterState : Type 0 where
  pub available : List UnitHash
  pub filtered_hashes : List UnitHash
  pub filtered_count : ℕ

unfoldable pub drop_unit : FilterState → UnitHash → Option UnitHash → FilterState
drop_unit s unit_hash none = s
drop_unit s unit_hash (some missing_dep_hash) = record {
  available = remove unit_hash s.available;
  filtered_hashes = insert unit_hash s.filtered_hashes;
  filtered_count = s.filtered_count + 1;
}

-- One round of the loop.
unfoldable pub filter_unit : FilterState → UnitPlan → FilterState
unfolding drop_unit missing_dep
filter_unit s unit =
    let unit_hash = (info unit).unit_hash in
    if not (contains s.available unit_hash)
    then s
    else drop_unit s unit_hash (missing_dep s.available (info unit).deps)

unfoldable pub filter_loop : FilterState → List UnitPlan → FilterState
filter_loop s [] = s
filter_loop s (unit ∷ units) = filter_loop (filter_unit s unit) units

-- The keys of the response and the units on disk are available at first.
unfoldable pub filter_start : List UnitHash → List UnitHash → FilterState
filter_start saved_units units_to_skip = record {
  available = saved_units ++ units_to_skip;
  filtered_hashes = [];
  filtered_count = 0;
}

-- The response is given by its keys, which is all that the function reads of it.
unfoldable pub filter_units_with_incomplete_deps :
    List UnitPlan → List UnitHash → List UnitHash → List UnitHash × ℕ
unfolding filter_loop filter_start
filter_units_with_incomplete_deps units saved_units units_to_skip =
    let s = filter_loop (filter_start saved_units units_to_skip) units in
    (s.filtered_hashes, s.filtered_count)
