-- ===== src/Cargo/Units.antt =====
-- The units of a build plan: packages/hurry/src/cargo/workspace.rs (`UnitHash`, `UnitPlanInfo`,
-- `UnitPlan`) and the plan structs of packages/hurry/src/cargo/units/. Paths are texts here.
use hurry.Prelude.{String, Option, none, some, List}
use hurry.Cargo.Target.{RustcTarget}

-- `UnitHash` is a newtype around its text.
abbrev pub UnitHash : Type 0
UnitHash = String

pub record UnitPlanInfo : Type 0 where
  pub unit_hash : UnitHash
  pub package_name : String
  pub package_version : String
  pub crate_name : String
  pub target_arch : RustcTarget
  pub deps : List UnitHash

pub record LibraryCrateUnitPlan : Type 0 where
  pub info : UnitPlanInfo
  pub src_path : String
  pub outputs : List String

pub record BuildScriptCompilationUnitPlan : Type 0 where
  pub info : UnitPlanInfo
  pub src_path : String

pub record BuildScriptExecutionUnitPlan : Type 0 where
  pub info : UnitPlanInfo
  pub build_script_program_name : String

pub data UnitPlan : Type 0 where
  library_crate : LibraryCrateUnitPlan → UnitPlan
  build_script_compilation : BuildScriptCompilationUnitPlan → UnitPlan
  build_script_execution : BuildScriptExecutionUnitPlan → UnitPlan

unfoldable pub info : UnitPlan → UnitPlanInfo
info (library_crate plan) = plan.info
info (build_script_compilation plan) = plan.info
info (build_script_execution plan) = plan.info

unfoldable pub src_path : UnitPlan → Option String
src_path (library_crate plan) = some plan.src_path
src_path (build_script_compilation plan) = some plan.src_path
src_path (build_script_execution _) = none
