-- ===== src/Cargo/BuildArgs/RoundTrip.antt =====
-- Arguments written by `to_argv` and read by `from_iter`
-- (packages/hurry/src/cargo/build_args.rs).
use hurry.Prelude.{
  String, true, false, none, some, List, [], ◌∷◌, ◌++◌, ◌≡◌, ◌⊎◌, inl, inr, refl, ap, ◌∙◌,
  Bool-cases,
}
use hurry.Cargo.BuildArgs.{CargoBuildArgument, positional}
use hurry.Cargo.BuildArgs.Parse.{Std, is_flag, parse}
use hurry.Cargo.BuildArgs.FromIter.{parsed, wants_value, step, from_iter}
use hurry.Cargo.BuildArgs.Argv.{argv_of, to_argv}
use hurry.Cargo.BuildArgs.Writable.{IsWritable, AreWritable, is_open}
use hurry.Cargo.BuildArgs.Forms.{Form, form, positional_step}

-- The texts start with a flag, if there are any.
abbrev StartsFlag : List String → Type 0
StartsFlag [] = Unit
StartsFlag (x ∷ xs) = is_flag x ≡ true

module _ (std : Std) where
  pub from_iter-parsed :
      (f : String) (rest : List String) (argument : CargoBuildArgument)
      → step std f ≡ parsed argument
      → from_iter std (f ∷ rest) ≡ argument ∷ from_iter std rest
  unfolding from_iter
  from_iter-parsed f [] argument h = rw (h, from_iter) refl
  from_iter-parsed f (x ∷ rest) argument h = rw (h, from_iter) refl

  pub from_iter-value :
      (f g value : String) (rest : List String)
      → step std f ≡ wants_value g
      → is_flag value ≡ false
      → from_iter std (f ∷ value ∷ rest) ≡ parse std g (some value) ∷ from_iter std rest
  unfolding from_iter
  from_iter-value f g value rest h v = rw (h, from_iter) (rw v refl)

  pub from_iter-bare :
      (f g : String) (rest : List String)
      → step std f ≡ wants_value g
      → StartsFlag rest
      → from_iter std (f ∷ rest) ≡ parse std g none ∷ from_iter std rest
  unfolding from_iter
  from_iter-bare f g [] h v = rw (h, from_iter) refl
  from_iter-bare f g (x ∷ rest) h v = rw (h, from_iter) (rw v refl)

  read :
      (argument : CargoBuildArgument) (rest : List String)
      → Form std argument
      → ((is_open argument ≡ true) → StartsFlag rest)
      → from_iter std (argv_of std argument ++ rest) ≡ argument ∷ from_iter std rest
  read argument rest (inl (f, writes, steps)) h = rw writes (from_iter-parsed f rest argument steps)
  read argument rest (inr (inl (f, g, value, writes, steps, is_value, parses))) h =
      rw writes
        (from_iter-value f g value rest steps is_value ∙ ap (λ x. x ∷ from_iter std rest) parses)
  read argument rest (inr (inr (f, g, writes, steps, is_open', parses))) h =
      rw writes
        (from_iter-bare f g rest steps (h is_open') ∙ ap (λ x. x ∷ from_iter std rest) parses)

  text_flag :
      (f : String) (argument : CargoBuildArgument)
      → (step std f ≡ parsed argument) ⊎ ((g : String) × (step std f ≡ wants_value g))
      → ((value : String) → argument ≡ positional value → ⊥)
      → is_flag f ≡ true
  text_flag f argument steps other = elim (Bool-cases (is_flag f)) [
    | inl flagged ↦ flagged
    | inr plain ↦ elim steps [
      | inl e ↦
          let same : argument ≡ positional f = cc (positional_step std f plain) in
          absurd (other f same)
      | inr (g, e) ↦ cc (positional_step std f plain)
    ]
  ]

  starts_flag :
      (argument : CargoBuildArgument) (rest : List String)
      → Form std argument
      → ((value : String) → argument ≡ positional value → ⊥)
      → StartsFlag (argv_of std argument ++ rest)
  starts_flag argument rest (inl (f, writes, steps)) other =
      rw writes (text_flag f argument (inl steps) other)
  starts_flag argument rest (inr (inl (f, g, value, writes, steps, is_value, parses))) other =
      rw writes (text_flag f argument (inr (g, steps)) other)
  starts_flag argument rest (inr (inr (f, g, writes, steps, is_open', parses))) other =
      rw writes (text_flag f argument (inr (g, steps)) other)

  -- Arguments that `to_argv` writes are read back by `from_iter`, each as it was, if they are writable:
  -- no value is written like a flag, lists have no separators or empty words in their entries, counts
  -- of `-v` are from 1 to 255, generic flags are unknown, texts of other crates are read back, and no
  -- flag that still could take a value is followed by a positional argument.
  pub from_iter-to_argv :
      (arguments : List CargoBuildArgument)
      → AreWritable std arguments
      → from_iter std (to_argv std arguments) ≡ arguments
  unfolding to_argv from_iter
  from_iter-to_argv [] w = refl
  from_iter-to_argv (argument ∷ []) w = read argument [] (form std argument w) (λ _. tt)
  from_iter-to_argv (argument ∷ next ∷ arguments) (w, closed, ws) =
      read argument (to_argv std (next ∷ arguments)) (form std argument w) (λ o.
        starts_flag next (to_argv std arguments) (form std next (first_writable next arguments ws))
          (closed o))
      ∙ ap (λ l. argument ∷ l) (from_iter-to_argv (next ∷ arguments) ws)
    where
      first_writable :
          (a : CargoBuildArgument) (l : List CargoBuildArgument)
          → AreWritable std (a ∷ l)
          → IsWritable std a
      first_writable a [] h = h
      first_writable a (b ∷ l) h = h.0
