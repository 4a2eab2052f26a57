-- ===== src/Cargo/BuildArgs/Writable.antt =====
-- Which arguments `to_argv` (packages/hurry/src/cargo/build_args.rs) writes so that they are read back.
use Prim.Native.String
use hurry.Prelude.{
  ◌^◌, ◌<◌, String, Bool, true, false, ◌||◌, none, some, List, [], ◌∷◌, ◌≡◌, All, contains,
}
use hurry.Cargo.BuildArgs.{
  CargoBuildArgument, verbose, color, config, unstable_flag, «package», exclude, bin, example, test,
  bench, features, profile, jobs, target, target_dir, artifact_dir, timings, manifest_path,
  lockfile_path, message_format, positional, generic_flag, generic_value_flag,
}
use hurry.Cargo.BuildArgs.Text.{eq_char, starts_with_v, split_once, join}
use hurry.Cargo.BuildArgs.Text.Laws.{IsFree, IsWord}
use hurry.Cargo.BuildArgs.Parse.{
  Std, is_flag, alias, without_value, lookup, bare_flags, parse_value,
}

-- A flag that is no short form, holds no `=`, and may have a value.
pub record IsUnknown (flag : String) : Type 0 where
  pub flagged : is_flag flag ≡ true
  pub quiet_one : starts_with_v flag ≡ false
  pub long : alias flag ≡ flag
  pub takes_value : contains without_value flag ≡ false
  pub no_equals : split_once "=" flag ≡ none

-- Whether the argument, as it is written, would take what follows for its value.
abbrev pub is_open : CargoBuildArgument → Bool
is_open (bin none) = true
is_open (example none) = true
is_open (test none) = true
is_open (bench none) = true
is_open (jobs none) = true
is_open (target none) = true
is_open (timings []) = true
is_open (generic_flag flag) = true
is_open _ = false

module _ (std : Std) where
  -- What an argument must satisfy: a value is not written like a flag, lists hold no separators and
  -- no empty words, texts that other crates write are read back, the count fits, and generic flags
  -- are unknown.
  abbrev pub IsWritable : CargoBuildArgument → Type 0
  IsWritable (verbose count) = (0 < count) × (count < 2 ^ 8)
  IsWritable (color when) =
      (std.parse_color (std.color_str when) ≡ some when) × (is_flag (std.color_str when) ≡ false)
  IsWritable (config key value) =
      IsFree (λ c. eq_char c "=") key × (is_flag (String.◌++◌ key (String.◌∷◌ "=" value)) ≡ false)
  IsWritable (unstable_flag value) = is_flag value ≡ false
  IsWritable («package» value) = is_flag value ≡ false
  IsWritable (exclude value) = is_flag value ≡ false
  IsWritable (bin (some value)) = is_flag value ≡ false
  IsWritable (example (some value)) = is_flag value ≡ false
  IsWritable (test (some value)) = is_flag value ≡ false
  IsWritable (bench (some value)) = is_flag value ≡ false
  IsWritable (features names) =
      All (IsWord (λ c. std.is_whitespace c || eq_char c ",")) names
      × (is_flag (join names) ≡ false)
  IsWritable (profile value) = is_flag value ≡ false
  IsWritable (jobs (some n)) =
      (std.parse_u32 (std.u32_str n) ≡ some n) × (is_flag (std.u32_str n) ≡ false)
  IsWritable (target (some value)) = is_flag value ≡ false
  IsWritable (target_dir value) = is_flag value ≡ false
  IsWritable (artifact_dir value) = is_flag value ≡ false
  IsWritable (timings (format ∷ formats)) =
      All (IsWord (λ c. eq_char c ",")) (format ∷ formats)
      × (is_flag (join (format ∷ formats)) ≡ false)
  IsWritable (manifest_path value) = is_flag value ≡ false
  IsWritable (lockfile_path value) = is_flag value ≡ false
  IsWritable (message_format format) =
      (std.parse_message_format (std.message_format_str format) ≡ some format)
      × (is_flag (std.message_format_str format) ≡ false)
  IsWritable (positional value) = is_flag value ≡ false
  IsWritable (generic_flag flag) = IsUnknown flag × (lookup flag bare_flags ≡ none)
  IsWritable (generic_value_flag flag value) =
      IsUnknown flag
      × (parse_value std flag value ≡ generic_value_flag flag value)
      × (is_flag value ≡ false)
  IsWritable _ = Unit

  -- No open argument is followed by one that is written as a value.
  abbrev pub AreWritable : List CargoBuildArgument → Type 0
  AreWritable [] = Unit
  AreWritable (argument ∷ []) = IsWritable argument
  AreWritable (argument ∷ next ∷ arguments) =
      IsWritable argument
      × ((is_open argument ≡ true) → (value : String) → next ≡ positional value → ⊥)
      × AreWritable (next ∷ arguments)
