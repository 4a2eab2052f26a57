-- ===== src/Cargo/BuildArgs.antt =====
-- The arguments of `cargo build`: packages/hurry/src/cargo/build_args.rs.
pub mod Text
pub mod Parse
pub mod FromIter
pub mod Argv
pub mod Writable
pub mod Forms
pub mod RoundTrip
pub mod Spelling
pub mod Access
use hurry.Prelude.{ℕ, String, Option, List}

pub data ColorWhen : Type 0 where
  auto always never : ColorWhen
  other : String → ColorWhen

pub data MessageFormat : Type 0 where
  human short json json_diagnostic_short json_diagnostic_rendered_ansi json_render_diagnostics :
      MessageFormat
  other : String → MessageFormat

-- `CargoBuildArgument`, with the variants in the source's order.
pub data CargoBuildArgument : Type 0 where
  verbose : (count : ℕ) → CargoBuildArgument
  quiet : CargoBuildArgument
  color : ColorWhen → CargoBuildArgument
  config : (key value : String) → CargoBuildArgument
  unstable_flag : String → CargoBuildArgument
  frozen locked offline : CargoBuildArgument
  «package» : String → CargoBuildArgument
  workspace : CargoBuildArgument
  exclude : String → CargoBuildArgument
  all lib bins : CargoBuildArgument
  bin : Option String → CargoBuildArgument
  examples : CargoBuildArgument
  example : Option String → CargoBuildArgument
  tests : CargoBuildArgument
  test : Option String → CargoBuildArgument
  benches : CargoBuildArgument
  bench : Option String → CargoBuildArgument
  all_targets : CargoBuildArgument
  features : List String → CargoBuildArgument
  all_features no_default_features release : CargoBuildArgument
  profile : String → CargoBuildArgument
  jobs : Option ℕ → CargoBuildArgument
  keep_going : CargoBuildArgument
  target : Option String → CargoBuildArgument
  target_dir artifact_dir : String → CargoBuildArgument
  build_plan unit_graph : CargoBuildArgument
  timings : List String → CargoBuildArgument
  manifest_path lockfile_path : String → CargoBuildArgument
  ignore_rust_version future_incompat_report : CargoBuildArgument
  message_format : MessageFormat → CargoBuildArgument
  positional : String → CargoBuildArgument
  generic_flag : String → CargoBuildArgument
  generic_value_flag : (flag value : String) → CargoBuildArgument
