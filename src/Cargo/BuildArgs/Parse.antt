-- ===== src/Cargo/BuildArgs/Parse.antt =====
-- Reading arguments: `parse` and `parse_inner` of
-- packages/hurry/src/cargo/build_args.rs. A `match` on the flag's text is a table here, searched from
-- the top.
use Prim.Native.Char.{Char}
use mathlib.Core.Option.{map}
use hurry.Prelude.{
  ℕ, String, Bool, not, ◌&&◌, ◌||◌, Option, none, some, List, [], ◌∷◌, ◌==◌, contains,
  if◌then◌else◌,
}
use hurry.Cargo.BuildArgs.{
  ColorWhen, MessageFormat, CargoBuildArgument, verbose, quiet, color, config, unstable_flag,
  frozen, locked, offline, «package», workspace, exclude, all, lib, bins, bin, examples, example,
  tests, test, benches, bench, all_targets, features, all_features, no_default_features, release,
  profile, jobs, keep_going, target, target_dir, artifact_dir, build_plan, unit_graph, timings,
  manifest_path, lockfile_path, ignore_rust_version, future_incompat_report, message_format,
  positional, generic_flag, generic_value_flag,
}
use hurry.Cargo.BuildArgs.Text.{eq_char, starts_with, split_once, split, non_empty}

-- What other crates do: `char::is_whitespace`, the decimal form of a `u32`, and the derived text
-- forms of the two enums.
pub record Std : Type 0 where
  pub is_whitespace : Char → Bool
  pub parse_u32 : String → Option ℕ
  pub u32_str : ℕ → String
  pub parse_color : String → Option ColorWhen
  pub color_str : ColorWhen → String
  pub parse_message_format : String → Option MessageFormat
  pub message_format_str : MessageFormat → String

unfoldable pub is_flag : String → Bool
unfolding starts_with
is_flag s = starts_with "-" s

unfoldable pub alias : String → String
alias s =
    if s == "-v"
    then "--verbose"
    else if s == "-q"
    then "--quiet"
    else if s == "-p"
    then "--package"
    else if s == "-F"
    then "--features"
    else if s == "-r"
    then "--release"
    else if s == "-j"
    then "--jobs"
    else s

-- The flags of `flag_accepts_value`.
abbrev pub without_value : List String
without_value =
    "--verbose" ∷ "--quiet" ∷ "--frozen" ∷ "--locked" ∷ "--offline" ∷ "--workspace" ∷ "--all"
    ∷ "--lib" ∷ "--bins" ∷ "--examples" ∷ "--tests" ∷ "--benches" ∷ "--all-targets"
    ∷ "--all-features" ∷ "--no-default-features" ∷ "--release" ∷ "--keep-going" ∷ "--build-plan"
    ∷ "--unit-graph" ∷ "--ignore-rust-version" ∷ "--future-incompat-report" ∷ []

unfoldable pub flag_accepts_value : String → Bool
unfolding is_flag contains
flag_accepts_value flag = not (contains without_value flag) && is_flag flag

-- The first `match` of `parse`.
abbrev pub bare_flags : List (String × CargoBuildArgument)
bare_flags =
    ("--verbose", verbose 1)
    ∷ ("--quiet", quiet)
    ∷ ("--frozen", frozen)
    ∷ ("--locked", locked)
    ∷ ("--offline", offline)
    ∷ ("--workspace", workspace)
    ∷ ("--all", all)
    ∷ ("--lib", lib)
    ∷ ("--bins", bins)
    ∷ ("--examples", examples)
    ∷ ("--tests", tests)
    ∷ ("--benches", benches)
    ∷ ("--all-targets", all_targets)
    ∷ ("--all-features", all_features)
    ∷ ("--no-default-features", no_default_features)
    ∷ ("--release", release)
    ∷ ("--keep-going", keep_going)
    ∷ ("--build-plan", build_plan)
    ∷ ("--unit-graph", unit_graph)
    ∷ ("--ignore-rust-version", ignore_rust_version)
    ∷ ("--future-incompat-report", future_incompat_report)
    ∷ ("--bin", bin none)
    ∷ ("--example", example none)
    ∷ ("--test", test none)
    ∷ ("--bench", bench none)
    ∷ ("--jobs", jobs none)
    ∷ ("--target", target none)
    ∷ ("--timings", timings [])
    ∷ []

unfoldable pub lookup : String → List (String × CargoBuildArgument) → Option CargoBuildArgument
lookup flag [] = none
lookup flag ((f, argument) ∷ table) = if f == flag then some argument else lookup flag table

abbrev or_other : String → Option CargoBuildArgument → CargoBuildArgument
or_other flag none = if is_flag flag then generic_flag flag else positional flag
or_other flag (some argument) = argument

unfoldable pub parse_bare : String → CargoBuildArgument
unfolding lookup is_flag
parse_bare flag = or_other flag (lookup flag bare_flags)

-- What `parse` makes of a value that `parse_inner` refuses.
abbrev pub or_generic : String → String → Option CargoBuildArgument → CargoBuildArgument
or_generic flag value none = generic_value_flag flag value
or_generic flag value (some argument) = argument

abbrev pub config_of : String → String → Option (String × String) → CargoBuildArgument
config_of flag value none = generic_value_flag flag value
config_of flag value (some (key, val)) = config key val

module _ (std : Std) where
  -- `parse_inner`, and `parse` of its error.
  unfoldable pub parse_value : String → String → CargoBuildArgument
  unfolding split_once split non_empty
  parse_value flag value =
      if flag == "--color"
      then or_generic flag value (map color (std.parse_color value))
      else if flag == "--config"
      then config_of flag value (split_once "=" value)
      else if flag == "-Z"
      then unstable_flag value
      else if flag == "--package"
      then «package» value
      else if flag == "--exclude"
      then exclude value
      else if flag == "--bin"
      then bin (some value)
      else if flag == "--example"
      then example (some value)
      else if flag == "--test"
      then test (some value)
      else if flag == "--bench"
      then bench (some value)
      else if flag == "--features"
      then features (non_empty (split (λ c. std.is_whitespace c || eq_char c ",") value))
      else if flag == "--profile"
      then profile value
      else if flag == "--jobs"
      then or_generic flag value (map (λ n. jobs (some n)) (std.parse_u32 value))
      else if flag == "--target"
      then target (some value)
      else if flag == "--target-dir"
      then target_dir value
      else if flag == "--artifact-dir"
      then artifact_dir value
      else if flag == "--timings"
      then timings (non_empty (split (λ c. eq_char c ",") value))
      else if flag == "--manifest-path"
      then manifest_path value
      else if flag == "--lockfile-path"
      then lockfile_path value
      else if flag == "--message-format"
      then or_generic flag value (map message_format (std.parse_message_format value))
      else generic_value_flag flag value

  unfoldable pub parse : String → Option String → CargoBuildArgument
  unfolding parse_bare parse_value
  parse flag none = parse_bare flag
  parse flag (some value) = parse_value flag value
