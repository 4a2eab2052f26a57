-- ===== src/Examples/BuildArgs.antt =====
-- Runs of `from_iter` and `to_argv` (packages/hurry/src/cargo/build_args.rs), after the tests there.
use hurry.Prelude.{◌≡◌, refl, arith, ◌==◌, none, some, List, [], ◌∷◌, if◌then◌else◌, nat_eq}
use Prim.Native.Char.{code}
use hurry.Cargo.BuildArgs.{
  CargoBuildArgument, verbose, quiet, «package», bin, release, features, config, positional,
  generic_value_flag, generic_flag, jobs, ColorWhen, auto,
}
use hurry.Cargo.BuildArgs.Text.{starts_with_v}
use hurry.Cargo.BuildArgs.Parse.{Std, alias, is_flag, flag_accepts_value, parse}
use hurry.Cargo.BuildArgs.FromIter.{from_iter, step}
use hurry.Cargo.BuildArgs.Argv.{to_argv}
use hurry.Cargo.BuildArgs.Writable.{AreWritable}
use hurry.Cargo.BuildArgs.RoundTrip.{from_iter-to_argv}

abbrev std : Std
std = record {
  is_whitespace = λ c. nat_eq (code c) 32;
  parse_u32 = λ s. if s == "4" then some 4 else none;
  u32_str = λ n. "4";
  parse_color = λ s. if s == "auto" then some auto else some (ColorWhen.other s);
  color_str = λ c. "auto";
  parse_message_format = λ s. none;
  message_format_str = λ f. "json";
}

run : Unit {0}
unfolding from_iter to_argv step alias is_flag starts_with_v flag_accepts_value parse
run = tt

short_flags :
    from_iter std ("-q" ∷ "-p" ∷ "foo" ∷ "-j=4" ∷ "-vv" ∷ [])
    ≡ quiet ∷ «package» "foo" ∷ jobs (some 4) ∷ verbose 2 ∷ []
unfolding run
short_flags = refl

values :
    from_iter std
      ("--features" ∷ "a,b c" ∷ "--config=net.git=true" ∷ "--config" ∷ "x" ∷ "--foo" ∷ [])
    ≡ features ("a" ∷ "b" ∷ "c" ∷ [])
      ∷ config "net.git" "true"
      ∷ generic_value_flag "--config" "x"
      ∷ generic_flag "--foo"
      ∷ []
unfolding run
values = refl

-- A value after an `=` for a flag that takes none is not read back as it was.
not_read_back :
    (from_iter std ("--release=true" ∷ []) ≡ generic_value_flag "--release" "true" ∷ [])
    × (from_iter std (to_argv std (generic_value_flag "--release" "true" ∷ []))
        ≡ release ∷ positional "true" ∷ [])
unfolding run
not_read_back = (refl, refl)

abbrev written : List CargoBuildArgument
written = verbose 2 ∷ bin none ∷ release ∷ positional "x" ∷ features ("a" ∷ "b" ∷ []) ∷ []

written-AreWritable : AreWritable std written
unfolding run
written-AreWritable = (
  (omega arith, omega arith),
  (λ e v q. cc),
  (
    tt,
    (λ o v q. cc),
    (
      tt,
      (λ e v q. cc),
      (refl, (λ e v q. cc), ((((λ e. cc), (refl, tt)), (((λ e. cc), (refl, tt)), tt)), refl)),
    ),
  ),
)

from_iter-to_argv_example : from_iter std (to_argv std written) ≡ written
from_iter-to_argv_example = from_iter-to_argv std written written-AreWritable
