-- ===== src/Cargo/BuildArgs/Forms.antt =====
-- How each argument is written by `argv_of` and read by `step`
-- (packages/hurry/src/cargo/build_args.rs).
use hurry.Prelude.{
  ℕ, zero, suc, ◌%◌, ◌^◌, ◌<◌, String, true, false, ◌||◌, none, some, [], ◌∷◌, ◌≡◌, ◌⊎◌, inl, inr,
  refl, ap, ◌∙◌, arith, ◌==◌, eq-false_of_ne,
}
use hurry.Cargo.BuildArgs.{
  CargoBuildArgument, verbose, quiet, color, config, unstable_flag, frozen, locked, offline,
  «package», workspace, exclude, all, lib, bins, bin, examples, example, tests, test, benches,
  bench, all_targets, features, all_features, no_default_features, release, profile, jobs,
  keep_going, target, target_dir, artifact_dir, build_plan, unit_graph, timings, manifest_path,
  lockfile_path, ignore_rust_version, future_incompat_report, message_format, positional,
  generic_flag, generic_value_flag,
}
use hurry.Cargo.BuildArgs.Text.{eq_char, starts_with_v, repeat, count_char}
use hurry.Cargo.BuildArgs.Text.Laws.{split_once-append, split-join, count_char-repeat}
use hurry.Cargo.BuildArgs.Parse.{
  Std, is_flag, alias, lookup, bare_flags, parse, flag_accepts_value, parse_bare,
}
use hurry.Cargo.BuildArgs.FromIter.{parsed, wants_value, step, step_flag}
use hurry.Cargo.BuildArgs.Argv.{argv_of}
use hurry.Cargo.BuildArgs.Writable.{IsUnknown, IsWritable, is_open}

module _ (std : Std) where
  -- An argument is written as one text that says it all, as a flag and its value, or as a flag that
  -- is still open.
  abbrev pub Form : CargoBuildArgument → Type 0
  Form argument =
      ((f : String) × (argv_of std argument ≡ f ∷ []) × (step std f ≡ parsed argument))
      ⊎ ((f : String) × (g : String) × (value : String) × (argv_of std argument ≡ f ∷ value ∷ [])
          × (step std f ≡ wants_value g)
          × (is_flag value ≡ false)
          × (parse std g (some value) ≡ argument))
      ⊎ ((f : String) × (g : String) × (argv_of std argument ≡ f ∷ [])
          × (step std f ≡ wants_value g)
          × (is_open argument ≡ true)
          × (parse std g none ≡ argument))

  step_verbose :
      (arg : String)
      → starts_with_v arg ≡ true
      → step std arg ≡ parsed (verbose (count_char "v" arg % 2 ^ 8))
  unfolding step
  step_verbose arg h = rw h refl

  pub step_other :
      (arg : String) → starts_with_v arg ≡ false → step std arg ≡ step_flag std (alias arg)
  unfolding step
  step_other arg h = rw h refl

  verbose_starts : (n : ℕ) → starts_with_v (String.◌∷◌ "-" (repeat "v" (suc n))) ≡ true
  unfolding starts_with_v repeat
  verbose_starts n = refl

  verbose_count : (n : ℕ) → count_char "v" (String.◌∷◌ "-" (repeat "v" n)) ≡ n
  unfolding count_char
  verbose_count n = count_char-repeat "v" n

  verbose_step :
      (n : ℕ)
      → suc n < 2 ^ 8
      → step std (String.◌∷◌ "-" (repeat "v" (suc n))) ≡ parsed (verbose (suc n))
  verbose_step n h =
      step_verbose _ (verbose_starts n)
      ∙ ap (λ k. parsed (verbose (k % 2 ^ 8))) (verbose_count (suc n))
      ∙ ap (λ k. parsed (verbose k)) (omega arith)

  no_v : (value : String) → is_flag value ≡ false → starts_with_v value ≡ false
  unfolding is_flag starts_with_v
  no_v String.[] h = refl
  no_v (String.◌∷◌ c s) h = rw h refl

  not_flag :
      (value flag : String) → is_flag value ≡ false → is_flag flag ≡ true → (value == flag) ≡ false
  not_flag value flag h f =
      eq-false_of_ne value flag λ e. let same : is_flag value ≡ is_flag flag = ap is_flag e in cc

  pub alias_value : (value : String) → is_flag value ≡ false → alias value ≡ value
  unfolding alias is_flag
  alias_value value h =
      rw (not_flag value "-v" h refl, not_flag value "-q" h refl, not_flag value "-p" h refl)
        (rw (not_flag value "-F" h refl, not_flag value "-r" h refl, not_flag value "-j" h refl)
          refl)

  pub positional_step :
      (value : String) → is_flag value ≡ false → step std value ≡ parsed (positional value)
  unfolding step_flag
  positional_step value h =
      step_other value (no_v value h) ∙ ap (step_flag std) (alias_value value h) ∙ rw h refl

  unknown_step : (flag : String) → IsUnknown flag → step std flag ≡ wants_value flag
  unfolding step_flag flag_accepts_value
  unknown_step flag u =
      step_other flag u.quiet_one
      ∙ ap (step_flag std) u.long
      ∙ rw (u.flagged, u.takes_value) (rw u.no_equals refl)

  unknown_bare :
      (flag : String)
      → IsUnknown flag
      → lookup flag bare_flags ≡ none
      → parse std flag none ≡ generic_flag flag
  unfolding parse parse_bare
  unknown_bare flag u h = rw (h, u.flagged) refl

  comma : (std.is_whitespace "," || eq_char "," ",") ≡ true
  comma = ground arith

  pub form : (argument : CargoBuildArgument) → IsWritable std argument → Form argument
  unfolding argv_of step parse
  form (verbose zero) w = absurd (omega (arith, w.0))
  form (verbose (suc n)) w = inl (_, refl, verbose_step n w.1)
  form quiet w = inl (_, refl, refl)
  form (color when) w = inr (inl (_, _, _, refl, refl, w.1, rw w.0 refl))
  form (config key value) w =
      inr (inl (_, _, _, refl, refl, w.1, rw (split_once-append "=" key value w.0) refl))
  form (unstable_flag value) w = inr (inl (_, _, _, refl, refl, w, refl))
  form frozen w = inl (_, refl, refl)
  form locked w = inl (_, refl, refl)
  form offline w = inl (_, refl, refl)
  form («package» value) w = inr (inl (_, _, _, refl, refl, w, refl))
  form workspace w = inl (_, refl, refl)
  form (exclude value) w = inr (inl (_, _, _, refl, refl, w, refl))
  form all w = inl (_, refl, refl)
  form lib w = inl (_, refl, refl)
  form bins w = inl (_, refl, refl)
  form (bin none) w = inr (inr (_, _, refl, refl, refl, refl))
  form (bin (some value)) w = inr (inl (_, _, _, refl, refl, w, refl))
  form examples w = inl (_, refl, refl)
  form (example none) w = inr (inr (_, _, refl, refl, refl, refl))
  form (example (some value)) w = inr (inl (_, _, _, refl, refl, w, refl))
  form tests w = inl (_, refl, refl)
  form (test none) w = inr (inr (_, _, refl, refl, refl, refl))
  form (test (some value)) w = inr (inl (_, _, _, refl, refl, w, refl))
  form benches w = inl (_, refl, refl)
  form (bench none) w = inr (inr (_, _, refl, refl, refl, refl))
  form (bench (some value)) w = inr (inl (_, _, _, refl, refl, w, refl))
  form all_targets w = inl (_, refl, refl)
  form (features names) w =
      inr (inl (_, _, _, refl, refl, w.1, ap features (split-join _ names comma w.0)))
  form all_features w = inl (_, refl, refl)
  form no_default_features w = inl (_, refl, refl)
  form release w = inl (_, refl, refl)
  form (profile value) w = inr (inl (_, _, _, refl, refl, w, refl))
  form (jobs none) w = inr (inr (_, _, refl, refl, refl, refl))
  form (jobs (some n)) w = inr (inl (_, _, _, refl, refl, w.1, rw w.0 refl))
  form keep_going w = inl (_, refl, refl)
  form (target none) w = inr (inr (_, _, refl, refl, refl, refl))
  form (target (some value)) w = inr (inl (_, _, _, refl, refl, w, refl))
  form (target_dir value) w = inr (inl (_, _, _, refl, refl, w, refl))
  form (artifact_dir value) w = inr (inl (_, _, _, refl, refl, w, refl))
  form build_plan w = inl (_, refl, refl)
  form unit_graph w = inl (_, refl, refl)
  form (timings []) w = inr (inr (_, _, refl, refl, refl, refl))
  form (timings (f ∷ fs)) w =
      inr (inl (_, _, _, refl, refl, w.1, ap timings (split-join _ (f ∷ fs) refl w.0)))
  form (manifest_path value) w = inr (inl (_, _, _, refl, refl, w, refl))
  form (lockfile_path value) w = inr (inl (_, _, _, refl, refl, w, refl))
  form ignore_rust_version w = inl (_, refl, refl)
  form future_incompat_report w = inl (_, refl, refl)
  form (message_format format) w = inr (inl (_, _, _, refl, refl, w.1, rw w.0 refl))
  form (positional value) w = inl (_, refl, positional_step value w)
  form (generic_flag flag) w =
      inr (inr (_, _, refl, unknown_step flag w.0, refl, unknown_bare flag w.0 w.1))
  form (generic_value_flag flag value) w =
      inr (inl (_, _, _, refl, unknown_step flag w.0, w.2, w.1))
