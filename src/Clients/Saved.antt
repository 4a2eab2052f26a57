-- ===== src/Clients/Saved.antt =====
-- Saved units: packages/clients/src/courier/v1.rs and the response of v1/cache.rs. Keys, paths and
-- fingerprints are opaque texts there, and texts here.
use hurry.Prelude.{
  String, Bool, Option, none, some, List, [], ◌∷◌, ◌≡◌, arith, ◌==◌, eq_iff, if◌then◌else◌,
}

abbrev pub Key : Type 0
Key = String

abbrev pub SavedUnitHash : Type 0
SavedUnitHash = String

pub record SavedPlanInfo : Type 0 where
  pub unit_hash : SavedUnitHash
  pub package_name : String
  pub crate_name : String
  pub target_arch : Option String

pub record SavedFile : Type 0 where
  pub executable : Bool
  pub object_key : Key
  pub path : String

pub record LibraryFiles : Type 0 where
  pub output_files : List SavedFile
  pub fingerprint : String
  pub dep_info_file : Key
  pub encoded_dep_info_file : Key

pub record LibraryCratePlan : Type 0 where
  pub info : SavedPlanInfo
  pub src_path : String
  pub outputs : List String

pub record BuildScriptCompiledFiles : Type 0 where
  pub compiled_program : Key
  pub dep_info_file : Key
  pub fingerprint : String
  pub encoded_dep_info_file : Key

pub record BuildScriptCompilationPlan : Type 0 where
  pub info : SavedPlanInfo
  pub src_path : String

pub record BuildScriptOutputFiles : Type 0 where
  pub out_dir_files : List SavedFile
  pub stdout : Key
  pub stderr : Key
  pub fingerprint : String

pub record BuildScriptExecutionPlan : Type 0 where
  pub info : SavedPlanInfo
  pub build_script_program_name : String

pub data SavedUnit : Type 0 where
  library_crate : LibraryFiles → LibraryCratePlan → SavedUnit
  build_script_compilation : BuildScriptCompiledFiles → BuildScriptCompilationPlan → SavedUnit
  build_script_execution : BuildScriptOutputFiles → BuildScriptExecutionPlan → SavedUnit

unfoldable pub unit_hash : SavedUnit → SavedUnitHash
unit_hash (library_crate _ plan) = plan.info.unit_hash
unit_hash (build_script_compilation _ plan) = plan.info.unit_hash
unit_hash (build_script_execution _ plan) = plan.info.unit_hash

unfoldable pub fingerprint : SavedUnit → String
fingerprint (library_crate files _) = files.fingerprint
fingerprint (build_script_compilation files _) = files.fingerprint
fingerprint (build_script_execution files _) = files.fingerprint

-- `CargoRestoreResponse`: a map from hashes to units.
abbrev pub CargoRestoreResponse : Type 0
CargoRestoreResponse = List (SavedUnitHash × SavedUnit)

unfoldable pub get : CargoRestoreResponse → SavedUnitHash → Option SavedUnit
get [] key = none
get ((k, unit) ∷ units) key = if k == key then some unit else get units key

unfoldable pub without : CargoRestoreResponse → SavedUnitHash → CargoRestoreResponse
without [] key = []
without ((k, unit) ∷ units) key =
    let rest = without units key in if k == key then rest else (k, unit) ∷ rest

-- `take`: the unit, and the response without it.
unfoldable pub take : CargoRestoreResponse → SavedUnitHash → Option SavedUnit × CargoRestoreResponse
unfolding get without
take units key = (get units key, without units key)

-- The keys that `iter` yields.
unfoldable pub keys : CargoRestoreResponse → List SavedUnitHash
keys [] = []
keys ((k, unit) ∷ units) = k ∷ keys units

pub get-without :
    (units : CargoRestoreResponse) (k j : SavedUnitHash)
    → get (without units k) j ≡ (if k == j then none else get units j)
unfolding get without
get-without [] k j = ground arith
get-without ((i, unit) ∷ units) k j =
    ground (arith, get-without units k j, eq_iff i k, eq_iff i j, eq_iff k j)
