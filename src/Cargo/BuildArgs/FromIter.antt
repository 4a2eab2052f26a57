-- ===== src/Cargo/BuildArgs/FromIter.antt =====
-- The loop over the arguments: `from_iter` of packages/hurry/src/cargo/build_args.rs.
use hurry.Prelude.{◌%◌, ◌^◌, String, not, Option, none, some, List, [], ◌∷◌, if◌then◌else◌}
use hurry.Cargo.BuildArgs.{CargoBuildArgument, verbose, positional}
use hurry.Cargo.BuildArgs.Text.{starts_with_v, split_once, count_char}
use hurry.Cargo.BuildArgs.Parse.{Std, is_flag, alias, flag_accepts_value, parse}

-- What one argument is, up to the value that may follow it.
pub data Step : Type 0 where
  parsed : CargoBuildArgument → Step
  wants_value : (flag : String) → Step

module _ (std : Std) where
  abbrev split_flag : String → Option (String × String) → Step
  split_flag arg none = wants_value arg
  split_flag arg (some (flag, value)) = parsed (parse std (alias flag) (some value))

  -- The checks after the alias.
  unfoldable pub step_flag : String → Step
  unfolding is_flag flag_accepts_value parse split_once
  step_flag arg =
      if not (is_flag arg)
      then parsed (positional arg)
      else if not (flag_accepts_value arg)
      then parsed (parse std arg none)
      else split_flag arg (split_once "=" arg)

  -- The body of the loop. The count of `-v` is kept in a `u8`.
  unfoldable pub step : String → Step
  unfolding starts_with_v count_char alias step_flag
  step arg =
      if starts_with_v arg
      then parsed (verbose (count_char "v" arg % 2 ^ 8))
      else step_flag (alias arg)

  -- `from_iter`: the argument after a flag is its value unless it is a flag itself.
  unfoldable pub from_iter : List String → List CargoBuildArgument
  unfolding step parse is_flag
  from_iter [] = []
  from_iter (arg ∷ []) = elim (step arg) [
    | parsed argument ↦ argument ∷ []
    | wants_value flag ↦ parse std flag none ∷ []
  ]
  from_iter (arg ∷ upcoming ∷ rest) =
      let after = from_iter (upcoming ∷ rest) in
      let after_value = from_iter rest in
      elim (step arg) [
        | parsed argument ↦ argument ∷ after
        | wants_value flag ↦
            if is_flag upcoming
            then parse std flag none ∷ after
            else parse std flag (some upcoming) ∷ after_value
      ]
