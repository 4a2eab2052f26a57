-- ===== src/Cargo/BuildArgs/Spelling.antt =====
-- Spellings that `from_iter` (packages/hurry/src/cargo/build_args.rs) reads alike: short and long
-- flags, and values after a space or an `=`.
use Prim.Native.String
use text.Mathlib.TextLemmas.{nil-append, cons-append}
use hurry.Prelude.{
  String, true, false, none, some, List, [], ◌∷◌, ◌≡◌, ◌⊎◌, inl, inr, refl, sym, ap, ◌∙◌,
  Bool-cases, map, ◌==◌, eq_iff, eq-false_of_ne, contains, All, arith, if◌then◌else◌,
}
use hurry.Cargo.BuildArgs.{CargoBuildArgument}
use hurry.Cargo.BuildArgs.Text.{eq_char, starts_with_v, split_once}
use hurry.Cargo.BuildArgs.Text.Laws.{IsFree, split_once-append, split_once_free}
use hurry.Cargo.BuildArgs.Parse.{Std, is_flag, alias, parse, without_value, flag_accepts_value}
use hurry.Cargo.BuildArgs.FromIter.{Step, parsed, wants_value, step, step_flag, from_iter}
use hurry.Cargo.BuildArgs.Forms.{alias_value, step_other}
use hurry.Cargo.BuildArgs.RoundTrip.{from_iter-parsed, from_iter-value, from_iter-bare}

-- What holds of the six short flags with their long forms, and of each text with itself, holds of a
-- text and its alias.
alias_ind :
    (P : String → String → Type 0)
    → P "-v" "--verbose"
    → P "-q" "--quiet"
    → P "-p" "--package"
    → P "-F" "--features"
    → P "-r" "--release"
    → P "-j" "--jobs"
    → ((s : String) → P s s)
    → (s : String) → P s (alias s)
unfolding alias
alias_ind P v q p f r j other s =
    go "-v" v (go "-q" q (go "-p" p (go "-F" f (go "-r" r (go "-j" j (other s))))))
  where
    go :
        (short : String) {long rest : String}
        → P short long
        → P s rest
        → P s (if s == short then long else rest)
    go short h k = elim (Bool-cases (s == short)) [
      | inl same ↦ rw (same, (eq_iff s short).0 same) h
      | inr differs ↦ rw differs k
    ]

is_flag-alias : (s : String) → is_flag (alias s) ≡ is_flag s
unfolding is_flag
is_flag-alias = alias_ind (λ s t. is_flag t ≡ is_flag s) refl refl refl refl refl refl (λ s. refl)

step-alias : (std : Std) (s : String) → step std (alias s) ≡ step std s
unfolding step
step-alias std =
    alias_ind (λ s t. step std t ≡ step std s) refl refl refl refl refl refl (λ s. refl)

split_once-alias : (s : String) → split_once "=" s ≡ none → split_once "=" (alias s) ≡ none
unfolding split_once
split_once-alias =
    alias_ind (λ s t. split_once "=" s ≡ none → split_once "=" t ≡ none) (λ h. refl) (λ h. refl)
      (λ h. refl) (λ h. refl) (λ h. refl) (λ h. refl) (λ s h. h)

Step-cases :
    (t : Step) → ((a : CargoBuildArgument) × (t ≡ parsed a)) ⊎ ((g : String) × (t ≡ wants_value g))
Step-cases (parsed a) = inl (a, refl)
Step-cases (wants_value g) = inr (g, refl)

module _ (std : Std) where
  -- Each text may be replaced by its alias: the short flags are read as the long ones, wherever they
  -- stand.
  pub from_iter-alias : (raw : List String) → from_iter std (map alias raw) ≡ from_iter std raw
  from_iter-alias [] = refl
  from_iter-alias (arg ∷ []) = elim (Step-cases (step std arg)) [
    | inl (a, e) ↦
        from_iter-parsed std (alias arg) [] a (step-alias std arg ∙ e)
        ∙ sym (from_iter-parsed std arg [] a e)
    | inr (g, e) ↦
        from_iter-bare std (alias arg) g [] (step-alias std arg ∙ e) tt
        ∙ sym (from_iter-bare std arg g [] e tt)
  ]
  from_iter-alias (arg ∷ upcoming ∷ rest) =
      let after = from_iter-alias (upcoming ∷ rest) in
      let after_value = from_iter-alias rest in
      elim (Step-cases (step std arg)) [
        | inl (a, e) ↦
            from_iter-parsed std (alias arg) (map alias (upcoming ∷ rest)) a
              (step-alias std arg ∙ e)
            ∙ ap (λ l. a ∷ l) after
            ∙ sym (from_iter-parsed std arg (upcoming ∷ rest) a e)
        | inr (g, e) ↦ elim (Bool-cases (is_flag upcoming)) [
          | inl flagged ↦
              from_iter-bare std (alias arg) g (map alias (upcoming ∷ rest))
                (step-alias std arg ∙ e) (is_flag-alias upcoming ∙ flagged)
              ∙ ap (λ l. parse std g none ∷ l) after
              ∙ sym (from_iter-bare std arg g (upcoming ∷ rest) e flagged)
          | inr plain ↦
              from_iter-value std (alias arg) g (alias upcoming) (map alias rest)
                (step-alias std arg ∙ e) (is_flag-alias upcoming ∙ plain)
              ∙ ap (λ l. parse std g (some (alias upcoming)) ∷ l) after_value
              ∙ ap (λ v. parse std g (some v) ∷ from_iter std rest) (alias_value std upcoming plain)
              ∙ sym (from_iter-value std arg g upcoming rest e plain)
        ]
      ]

  -- A text with an `=` is none of those without.
  not_listed :
      (ws : List String) (s : String) {pair : String × String}
      → split_once "=" s ≡ some pair
      → All (λ w. split_once "=" w ≡ none) ws
      → contains ws s ≡ false
  unfolding contains
  not_listed [] s e h = refl
  not_listed (w ∷ ws) s e h = ground (
    arith,
    eq-false_of_ne w s
        λ same. let both : split_once "=" w ≡ split_once "=" s = ap (split_once "=") same in cc,
    not_listed ws s e h.1,
  )

  alias_equals : (s : String) (pair : String × String) → split_once "=" s ≡ some pair → alias s ≡ s
  unfolding split_once
  alias_equals s pair =
      alias_ind (λ s t. split_once "=" s ≡ some pair → t ≡ s) (λ h. cc) (λ h. cc) (λ h. cc)
        (λ h. cc) (λ h. cc) (λ h. cc) (λ s h. refl) s

  joined_flag :
      (f v : String)
      → is_flag f ≡ true
      → starts_with_v f ≡ false
      → (is_flag (String.◌++◌ f (String.◌∷◌ "=" v)) ≡ true)
        × (starts_with_v (String.◌++◌ f (String.◌∷◌ "=" v)) ≡ false)
  unfolding is_flag starts_with_v
  joined_flag String.[] v h n = cc
  joined_flag (String.◌∷◌ c String.[]) v h n =
      rw (cons-append c "" (String.◌∷◌ "=" v), nil-append (String.◌∷◌ "=" v)) (h, rw h refl)
  joined_flag (String.◌∷◌ c (String.◌∷◌ d f)) v h n =
      rw (cons-append c (String.◌∷◌ d f) (String.◌∷◌ "=" v), cons-append d f (String.◌∷◌ "=" v))
        (h, n)

  listed_plain : All (λ w. split_once "=" w ≡ none) without_value
  unfolding split_once
  listed_plain = ground arith

  -- A flag and its value after an `=` are read as the flag and the value in a text of their own: if
  -- the flag's long form may have a value, it holds no `=` and does not start with `-v`, and the value
  -- is not written like a flag.
  pub from_iter_equals :
      (f v : String) (rest : List String)
      → is_flag f ≡ true
      → starts_with_v f ≡ false
      → IsFree (λ c. eq_char c "=") f
      → contains without_value (alias f) ≡ false
      → is_flag v ≡ false
      → from_iter std (String.◌++◌ f (String.◌∷◌ "=" v) ∷ rest) ≡ from_iter std (f ∷ v ∷ rest)
  unfolding step_flag flag_accepts_value
  from_iter_equals f v rest flagged n free valued value =
      from_iter-parsed std _ rest (parse std (alias f) (some v)) joined_step
      ∙ sym (from_iter-value std f (alias f) v rest flag_step value)
    where
      splits : split_once "=" (String.◌++◌ f (String.◌∷◌ "=" v)) ≡ some (f, v)
      splits = split_once-append "=" f v free

      joined_step :
          step std (String.◌++◌ f (String.◌∷◌ "=" v)) ≡ parsed (parse std (alias f) (some v))
      joined_step =
          let (flagged', n') = joined_flag f v flagged n in
          step_other std (String.◌++◌ f (String.◌∷◌ "=" v)) n'
          ∙ ap (step_flag std) (alias_equals (String.◌++◌ f (String.◌∷◌ "=" v)) (f, v) splits)
          ∙ rw
              (
                flagged',
                not_listed without_value (String.◌++◌ f (String.◌∷◌ "=" v)) splits listed_plain,
              )
              (rw splits refl)

      flag_step : step std f ≡ wants_value (alias f)
      flag_step =
          step_other std f n
          ∙ rw (is_flag-alias f ∙ flagged, valued)
              (rw (split_once-alias f (split_once_free "=" f free)) refl)
