-- ===== src/Cargo/BuildArgs/Argv.antt =====
-- Writing arguments: `to_argv` of packages/hurry/src/cargo/build_args.rs.
use Prim.Native.String
use hurry.Prelude.{zero, suc, String, none, some, List, [], ◌∷◌, ◌++◌}
use hurry.Cargo.BuildArgs.{
  CargoBuildArgument, verbose, quiet, color, config, unstable_flag, frozen, locked, offline,
  «package», workspace, exclude, all, lib, bins, bin, examples, example, tests, test, benches,
  bench, all_targets, features, all_features, no_default_features, release, profile, jobs,
  keep_going, target, target_dir, artifact_dir, build_plan, unit_graph, timings, manifest_path,
  lockfile_path, ignore_rust_version, future_incompat_report, message_format, positional,
  generic_flag, generic_value_flag,
}
use hurry.Cargo.BuildArgs.Text.{repeat, join}
use hurry.Cargo.BuildArgs.Parse.{Std}

module _ (std : Std) where
  -- `CargoBuildArgument::to_argv`
  unfoldable pub argv_of : CargoBuildArgument → List String
  unfolding repeat join
  argv_of (verbose zero) = []
  argv_of (verbose (suc n)) = String.◌∷◌ "-" (repeat "v" (suc n)) ∷ []
  argv_of quiet = "--quiet" ∷ []
  argv_of (color when) = "--color" ∷ std.color_str when ∷ []
  argv_of (config key value) = "--config" ∷ String.◌++◌ key (String.◌∷◌ "=" value) ∷ []
  argv_of (unstable_flag value) = "-Z" ∷ value ∷ []
  argv_of frozen = "--frozen" ∷ []
  argv_of locked = "--locked" ∷ []
  argv_of offline = "--offline" ∷ []
  argv_of («package» value) = "--package" ∷ value ∷ []
  argv_of workspace = "--workspace" ∷ []
  argv_of (exclude value) = "--exclude" ∷ value ∷ []
  argv_of all = "--all" ∷ []
  argv_of lib = "--lib" ∷ []
  argv_of bins = "--bins" ∷ []
  argv_of (bin none) = "--bin" ∷ []
  argv_of (bin (some value)) = "--bin" ∷ value ∷ []
  argv_of examples = "--examples" ∷ []
  argv_of (example none) = "--example" ∷ []
  argv_of (example (some value)) = "--example" ∷ value ∷ []
  argv_of tests = "--tests" ∷ []
  argv_of (test none) = "--test" ∷ []
  argv_of (test (some value)) = "--test" ∷ value ∷ []
  argv_of benches = "--benches" ∷ []
  argv_of (bench none) = "--bench" ∷ []
  argv_of (bench (some value)) = "--bench" ∷ value ∷ []
  argv_of all_targets = "--all-targets" ∷ []
  argv_of (features names) = "--features" ∷ join names ∷ []
  argv_of all_features = "--all-features" ∷ []
  argv_of no_default_features = "--no-default-features" ∷ []
  argv_of release = "--release" ∷ []
  argv_of (profile value) = "--profile" ∷ value ∷ []
  argv_of (jobs none) = "--jobs" ∷ []
  argv_of (jobs (some n)) = "--jobs" ∷ std.u32_str n ∷ []
  argv_of keep_going = "--keep-going" ∷ []
  argv_of (target none) = "--target" ∷ []
  argv_of (target (some value)) = "--target" ∷ value ∷ []
  argv_of (target_dir value) = "--target-dir" ∷ value ∷ []
  argv_of (artifact_dir value) = "--artifact-dir" ∷ value ∷ []
  argv_of build_plan = "--build-plan" ∷ []
  argv_of unit_graph = "--unit-graph" ∷ []
  argv_of (timings []) = "--timings" ∷ []
  argv_of (timings (format ∷ formats)) = "--timings" ∷ join (format ∷ formats) ∷ []
  argv_of (manifest_path value) = "--manifest-path" ∷ value ∷ []
  argv_of (lockfile_path value) = "--lockfile-path" ∷ value ∷ []
  argv_of ignore_rust_version = "--ignore-rust-version" ∷ []
  argv_of future_incompat_report = "--future-incompat-report" ∷ []
  argv_of (message_format format) = "--message-format" ∷ std.message_format_str format ∷ []
  argv_of (positional arg) = arg ∷ []
  argv_of (generic_flag arg) = arg ∷ []
  argv_of (generic_value_flag flag value) = flag ∷ value ∷ []

  -- `CargoBuildArguments::to_argv`
  unfoldable pub to_argv : List CargoBuildArgument → List String
  unfolding argv_of
  to_argv [] = []
  to_argv (argument ∷ arguments) = argv_of argument ++ to_argv arguments
