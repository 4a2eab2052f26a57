-- ===== src/Cargo/DepInfo/Laws.antt =====
-- Dep-info files, parsed and reconstructed in the same workspace
-- (packages/hurry/src/cargo/dep_info.rs).
use Prim.Native.Char.{Char}
use Prim.Native.String
use text.Mathlib.TextLemmas.{nil-append, cons-append}
use mathlib.Core.List.{Perm}
use mathlib.Core.List.Perm
use hurry.Prelude.{
  String, Bool, Option, none, some, List, [], ◌∷◌, ◌≡◌, refl, sym, ap, ◌∙◌, subst, ◌==◌, eq_iff,
  Bool-cases, Option-cases, inl, inr, ◌⊎◌, map,
}
use hurry.Cargo.Target.{RustcTarget}
use hurry.Cargo.Path.{
  QualifiedPath, Paths, IsLawful, Denotes, parse_string, reconstruct_string,
  reconstruct-parse_string,
}
use hurry.Cargo.BuildArgs.Text.{eq_char, split, non_empty}
use hurry.Cargo.BuildScript.{strip_prefix, and_then}
use hurry.Cargo.BuildScript.Laws.{strip_prefix-append, some_inj, eq_char-path}
use hurry.Cargo.DepInfo.{
  DepInfoLine, strip_suffix, split_output, spaced, escape, parse_inputs, parse_build, parse_output,
  parse, parse_lines, from_file, reconstruct,
}

and_then-some {ℓ κ} :
    {A : Type ℓ} {B : Type κ} (x : Option A) (f : A → Option B) (b : B)
    → and_then x f ≡ some b
    → (a : A) × (x ≡ some a) × (f a ≡ some b)
and_then-some none f b e = cc
and_then-some (some a) f b e = (a, refl, e)

strip_suffix-append :
    (d : Char) (s r : String) → strip_suffix d s ≡ some r → s ≡ String.◌++◌ r (String.◌∷◌ d "")
unfolding strip_suffix
strip_suffix-append d String.[] r e = cc
strip_suffix-append d (String.◌∷◌ c String.[]) r e = elim (Bool-cases (eq_char c d)) [
  | inl same ↦
      let k : ◌≡◌ {A = String} "" r = some_inj (rw same at e) in
      ap (λ x. String.◌∷◌ x "") (eq_char-path c d same)
      ∙ sym (nil-append (String.◌∷◌ d ""))
      ∙ ap (λ x. String.◌++◌ x (String.◌∷◌ d "")) k
  | inr differs ↦ let bad = rw differs at e in cc
]
strip_suffix-append d (String.◌∷◌ c (String.◌∷◌ x s)) r e =
    elim (Option-cases (strip_suffix d (String.◌∷◌ x s))) [
      | inl bad ↦ let e' = rw bad at e in cc
      | inr (r', good) ↦
          let e' = rw good at e in
          let k : String.◌∷◌ c r' ≡ r = some_inj e' in
          ap (λ y. String.◌∷◌ c y) (strip_suffix-append d (String.◌∷◌ x s) r' good)
          ∙ sym (cons-append c r' (String.◌∷◌ d ""))
          ∙ ap (λ y. String.◌++◌ y (String.◌∷◌ d "")) k
    ]

split_output-append :
    (s output inputs : String)
    → split_output s ≡ some (output, inputs)
    → s ≡ String.◌++◌ output (String.◌++◌ ": " inputs)
unfolding split_output
split_output-append String.[] output inputs e = cc
split_output-append (String.◌∷◌ c s) output inputs e =
    elim (Option-cases (strip_prefix ": " (String.◌∷◌ c s))) [
      | inr (r, here) ↦
          let e' = rw here at e in
          let k : ◌≡◌ {A = String} "" output = cc in
          let v : r ≡ inputs = cc in
          strip_prefix-append ": " (String.◌∷◌ c s) r here
          ∙ sym (nil-append (String.◌++◌ ": " r))
          ∙ cc (k, v)
      | inl not_here ↦ elim (Option-cases (split_output s)) [
        | inl bad ↦ let e' = rw bad at (rw not_here at e) in cc
        | inr ((o, i), good) ↦
            let e' = rw good at (rw not_here at e) in
            let k : String.◌∷◌ c o ≡ output = cc in
            let v : i ≡ inputs = cc in
            ap (λ t. String.◌∷◌ c t) (split_output-append s o i good)
            ∙ sym (cons-append c o (String.◌++◌ ": " i))
            ∙ cc (k, v)
      ]
    ]

-- Path by path, what may stand for it.
abbrev pub AllDenote : Paths → RustcTarget → List String → List String → Type 0
AllDenote ws target [] [] = Unit
AllDenote ws target [] (new ∷ news) = ⊥
AllDenote ws target (path ∷ paths) [] = ⊥
AllDenote ws target (path ∷ paths) (new ∷ news) =
    Denotes ws target path new × AllDenote ws target paths news

-- What may become of a line: a build's output gets a space after its colon if it has no inputs, and
-- else its inputs stand there in any order, with one space between two; each path is one that stands
-- for the path in the line.
abbrev pub IsRebuilt : Paths → RustcTarget → (Char → Bool) → String → String → Type 0
IsRebuilt ws target is_whitespace line new =
    (line ≡ new)
    ⊎ ((output : String) × (output' : String) × Denotes ws target output output'
        × (line ≡ String.◌++◌ output ":")
        × (new ≡ String.◌++◌ output' ": "))
    ⊎ ((output : String) × (output' : String) × (inputs : String) × (inputs' : List String)
        × (again : List String) × Denotes ws target output output'
        × (line ≡ String.◌++◌ output (String.◌++◌ ": " inputs))
        × AllDenote ws target (non_empty (split is_whitespace inputs)) inputs'
        × Perm again inputs'
        × (new ≡ String.◌++◌ output' (String.◌++◌ ": " (spaced again))))

-- The lines one by one.
abbrev pub AreRebuilt : Paths → RustcTarget → (Char → Bool) → List String → List String → Type 0
AreRebuilt ws target is_whitespace [] [] = Unit
AreRebuilt ws target is_whitespace [] (new ∷ news) = ⊥
AreRebuilt ws target is_whitespace (line ∷ lines) [] = ⊥
AreRebuilt ws target is_whitespace (line ∷ lines) (new ∷ news) =
    IsRebuilt ws target is_whitespace line new × AreRebuilt ws target is_whitespace lines news

module _ (ws : Paths) (target : RustcTarget) (w : IsLawful ws) (is_whitespace : Char → Bool)
    (completed : List QualifiedPath → List QualifiedPath)
    (all : (l : List QualifiedPath) → Perm (completed l) l) where
  inputs-again :
      (inputs : List String) (paths : List QualifiedPath)
      → parse_inputs ws target is_whitespace completed inputs ≡ some paths
      → AllDenote ws target inputs (map (reconstruct_string ws target) paths)
  unfolding parse_inputs
  inputs-again [] paths e =
      subst (λ l. AllDenote ws target [] (map (reconstruct_string ws target) l)) (some_inj e) tt
  inputs-again (input ∷ inputs) paths e =
      let (q, read, e') = and_then-some (parse_string ws target input) _ paths e in
      let (qs, reads, e'') =
        and_then-some (parse_inputs ws target is_whitespace completed inputs) _ paths e' in
      subst (λ l. AllDenote ws target (input ∷ inputs) (map (reconstruct_string ws target) l))
        (some_inj e'')
        (reconstruct-parse_string ws target w input q read, inputs-again inputs qs reads)

  parse_build-again :
      (line : String) (l : DepInfoLine)
      → parse_build ws target is_whitespace completed (split_output line) ≡ some l
      → IsRebuilt ws target is_whitespace line (reconstruct ws target l)
  unfolding reconstruct
  parse_build-again line l e = elim (Option-cases (split_output line)) [
    | inl bad ↦ let e' = rw bad at e in cc
    | inr ((output, inputs), good) ↦
        let (q, read, e') = and_then-some (parse_string ws target output) _ l (rw good at e) in
        let (qs, reads, e'') =
          and_then-some
            (parse_inputs ws target is_whitespace completed
              (non_empty (split is_whitespace inputs)))
            _ l e' in
        let again = map (reconstruct_string ws target) (completed qs) in
        inr (
          inr (
            output,
            reconstruct_string ws target q,
            inputs,
            map (reconstruct_string ws target) qs,
            again,
            reconstruct-parse_string ws target w output q read,
            split_output-append line output inputs good,
            inputs-again (non_empty (split is_whitespace inputs)) qs reads,
            Perm.map (reconstruct_string ws target) (all qs),
            ap (reconstruct ws target) (sym (some_inj e'')),
          ))
  ]

  parse_output-again :
      (line : String) (l : DepInfoLine)
      → parse_output ws target is_whitespace completed line (strip_suffix ":" line) ≡ some l
      → IsRebuilt ws target is_whitespace line (reconstruct ws target l)
  unfolding reconstruct
  parse_output-again line l e = elim (Option-cases (strip_suffix ":" line)) [
    | inl none_there ↦ parse_build-again line l (rw none_there at e)
    | inr (output, good) ↦
        let (q, read, e') = and_then-some (parse_string ws target output) _ l (rw good at e) in
        inr (
          inl (
            output,
            reconstruct_string ws target q,
            reconstruct-parse_string ws target w output q read,
            strip_suffix-append ":" line output good,
            ap (reconstruct ws target) (sym (some_inj e')),
          ))
  ]

  reconstruct-parse_dep_info :
      (line : String) (l : DepInfoLine)
      → parse ws target is_whitespace completed line ≡ some l
      → IsRebuilt ws target is_whitespace line (reconstruct ws target l)
  unfolding parse reconstruct
  reconstruct-parse_dep_info line l e = elim (Bool-cases (line == "")) [
    | inl empty ↦
        inl ((eq_iff line "").0 empty ∙ ap (reconstruct ws target) (some_inj (rw empty at e)))
    | inr full ↦ elim (Option-cases (strip_prefix "#" line)) [
      | inr (text, good) ↦ inl (
          strip_prefix-append "#" line text good
          ∙ cons-append "#" "" text
          ∙ ap (λ s. String.◌∷◌ "#" s) (nil-append text)
          ∙ ap (reconstruct ws target) (some_inj (rw good at (rw full at e))))
      | inl not_comment ↦ parse_output-again line l (rw not_comment at (rw full at e))
    ]
  ]

  reconstruct-parse_lines :
      (lines : List String) (info : List DepInfoLine)
      → parse_lines ws target is_whitespace completed lines ≡ some info
      → AreRebuilt ws target is_whitespace lines (map (reconstruct ws target) info)
  unfolding parse_lines
  reconstruct-parse_lines [] [] e = tt
  reconstruct-parse_lines [] (l ∷ info) e = cc
  reconstruct-parse_lines (line ∷ lines) info e =
      let (l, read, e') = and_then-some (parse ws target is_whitespace completed line) _ info e in
      let (rest, reads, e'') =
        and_then-some (parse_lines ws target is_whitespace completed lines) _ info e' in
      subst (λ i. AreRebuilt ws target is_whitespace (line ∷ lines) (map (reconstruct ws target) i))
        (some_inj e'')
        (reconstruct-parse_dep_info line l read, reconstruct-parse_lines lines rest reads)

  -- A dep-info file that parses is reconstructed in the same workspace line by line, where a line
  -- goes on after a backslash at its end: empty lines and comments as they were, and a build with its
  -- output and all its inputs, though these may change their order, and each path may be written as
  -- another that stands for it: one with the same components, or the path of the file to which it
  -- leads below the profile directory or Cargo's home. Parsing concurrently yields each input once.
  pub reconstruct-from_file :
      (lines : List String) (info : List DepInfoLine)
      → from_file ws target is_whitespace completed lines ≡ some info
      → AreRebuilt ws target is_whitespace (escape "" lines) (map (reconstruct ws target) info)
  unfolding from_file
  reconstruct-from_file lines info e = reconstruct-parse_lines (escape "" lines) info e
