-- ===== src/Cargo/BuildScript/Laws.antt =====
-- A build script's output, parsed and reconstructed in the same workspace
-- (packages/hurry/src/cargo/build_script.rs).
use Prim.Native.Char.{Char}
use Prim.Native.String
use text.Mathlib.TextEquality.{Char-path}
use text.Mathlib.TextLemmas.{nil-append, cons-append}
use hurry.Prelude.{
  String, true, Option, none, some, List, [], ◌∷◌, ◌≡◌, refl, sym, ap, ◌∙◌, subst, ◌==◌, eq_iff,
  Bool-cases, Option-cases, inl, inr, arith,
}
use hurry.Cargo.Target.{RustcTarget}
use hurry.Cargo.Path.{
  QualifiedPath, Paths, IsLawful, Denotes, parse_string, reconstruct_string,
  reconstruct-parse_string,
}
use hurry.Cargo.BuildArgs.Text.{eq_char, split_once}
use hurry.Cargo.BuildScript.{
  Style, old, current, style_str, BuildScriptOutputLine, rerun_if_changed, rustc_link_search,
  Directive, name_of, directives, directive_in, strip_prefix, parse_line, path_of, read_value,
  parse_inner, parse, written, paired, reconstruct,
}

pub some_inj {ℓ} : {A : Type ℓ} {a b : A} → ◌≡◌ {A = Option A} (some a) (some b) → a ≡ b
some_inj e = cc

pub eq_char-path : (c d : Char) → eq_char c d ≡ true → c ≡ d
eq_char-path c d h = Char-path c d (ground arith)

pub strip_prefix-append : (p s r : String) → strip_prefix p s ≡ some r → s ≡ String.◌++◌ p r
unfolding strip_prefix
strip_prefix-append String.[] s r e = some_inj e ∙ sym (nil-append r)
strip_prefix-append (String.◌∷◌ c p) String.[] r e = cc
strip_prefix-append (String.◌∷◌ c p) (String.◌∷◌ d s) r e = elim (Bool-cases (eq_char c d)) [
  | inl same ↦
      ap (λ x. String.◌∷◌ x s) (sym (eq_char-path c d same))
      ∙ ap (λ t. String.◌∷◌ c t) (strip_prefix-append p s r (rw same at e))
      ∙ sym (cons-append c p r)
  | inr differs ↦ let bad = rw differs at e in cc
]

split_once-paired :
    (s key value : String) → split_once "=" s ≡ some (key, value) → s ≡ paired key value
unfolding split_once paired
split_once-paired String.[] key value e = cc
split_once-paired (String.◌∷◌ c s) key value e = elim (Bool-cases (eq_char c "=")) [
  | inl same ↦
      let e' = rw same at e in
      let k : ◌≡◌ {A = String} "" key = cc in
      let v : s ≡ value = cc in
      ap (λ x. String.◌∷◌ x s) (eq_char-path c "=" same)
      ∙ sym (nil-append (String.◌∷◌ "=" s))
      ∙ cc (k, v)
  | inr differs ↦ elim (Option-cases (split_once "=" s)) [
    | inl bad ↦ let e' = rw bad at (rw differs at e) in cc
    | inr ((k', v'), good) ↦
        let e' = rw good at (rw differs at e) in
        let k : String.◌∷◌ c k' ≡ key = cc in
        let v : v' ≡ value = cc in
        ap (λ t. String.◌∷◌ c t) (split_once-paired s k' v' good)
        ∙ sym (cons-append c k' (String.◌∷◌ "=" v'))
        ∙ cc (k, v)
  ]
]

styled :
    (s s' : Style) (r r' : String)
    → ◌≡◌ {A = Style × String} (s, r) (s', r')
    → String.◌++◌ (style_str s) r ≡ String.◌++◌ (style_str s') r'
styled s s' r r' e = ap (λ p. String.◌++◌ (style_str p.0) p.1) e

parse_line-append :
    (line rest : String) (style : Style)
    → parse_line line ≡ some (style, rest)
    → line ≡ String.◌++◌ (style_str style) rest
unfolding parse_line style_str
parse_line-append line rest style e = elim (Option-cases (strip_prefix "cargo::" line)) [
  | inr (r, is_current) ↦
      strip_prefix-append "cargo::" line r is_current
      ∙ styled current style r rest (some_inj (rw is_current at e))
  | inl not_current ↦ elim (Option-cases (strip_prefix "cargo:" line)) [
    | inl bad ↦ let e' = rw bad at (rw not_current at e) in cc
    | inr (r, is_old) ↦
        strip_prefix-append "cargo:" line r is_old
        ∙ styled old style r rest (some_inj (rw is_old at (rw not_current at e)))
  ]
]

directive_in-name_of :
    (key : String) (ds : List Directive) (d : Directive)
    → directive_in key ds ≡ some d
    → name_of d ≡ key
unfolding directive_in
directive_in-name_of key [] d e = cc
directive_in-name_of key (x ∷ ds) d e = elim (Bool-cases (name_of x == key)) [
  | inl same ↦ ap name_of (sym (some_inj (rw same at e))) ∙ (eq_iff (name_of x) key).0 same
  | inr differs ↦ directive_in-name_of key ds d (rw differs at e)
]

-- The value of a search directive, by its kind.
abbrev pub kinded : Option String → String → String
kinded none path = path
kinded (some kind) path = paired kind path

-- What may become of a line: it stays as it was, or it is a directive with a path, which is written
-- with a path that stands for it.
pub data Respelled (ws : Paths) (target : RustcTarget) (line new : String) : Type 0 where
  unchanged : line ≡ new → Respelled ws target line new
  changed_path :
      (style : Style) (path path' : String)
      → Denotes ws target path path'
      → line ≡ written style Directive.rerun_if_changed path
      → new ≡ written style Directive.rerun_if_changed path'
      → Respelled ws target line new
  search_path :
      (style : Style) (kind : Option String) (path path' : String)
      → Denotes ws target path path'
      → line ≡ written style Directive.rustc_link_search (kinded kind path)
      → new ≡ written style Directive.rustc_link_search (kinded kind path')
      → Respelled ws target line new

module _ (ws : Paths) (target : RustcTarget) (w : IsLawful ws) where
  path_of-reconstruct :
      (s : String) (f : QualifiedPath → BuildScriptOutputLine) (line : BuildScriptOutputLine)
      (write : String → String)
      → ((q : QualifiedPath) → reconstruct ws target (f q) ≡ write (reconstruct_string ws target q))
      → path_of ws target s f ≡ some line
      → (path : String) × Denotes ws target s path × (reconstruct ws target line ≡ write path)
  path_of-reconstruct s f line write law e = elim (Option-cases (parse_string ws target s)) [
    | inl bad ↦ let impossible = rw bad at e in cc
    | inr (q, good) ↦ (
      reconstruct_string ws target q,
      reconstruct-parse_string ws target w s q good,
      ap (reconstruct ws target) (sym (some_inj (rw good at e))) ∙ law q,
    )
  ]

  read_value-reconstruct :
      (d : Directive) (style : Style) (value : String) (pair : Option (String × String))
      (line : BuildScriptOutputLine)
      → ((k v : String) → pair ≡ some (k, v) → value ≡ paired k v)
      → read_value ws target d style value pair ≡ some line
      → Respelled ws target (written style d value) (reconstruct ws target line)
  unfolding read_value reconstruct
  read_value-reconstruct Directive.rerun_if_changed style value pair line law e =
      let (path, denotes, new) =
        path_of-reconstruct value (rerun_if_changed style) line
          (written style Directive.rerun_if_changed) (λ q. refl) e in
      changed_path style value path denotes refl new
  read_value-reconstruct Directive.rerun_if_env_changed style value pair line law e =
      unchanged (ap (reconstruct ws target) (some_inj e))
  read_value-reconstruct Directive.rustc_link_arg style value pair line law e =
      unchanged (ap (reconstruct ws target) (some_inj e))
  read_value-reconstruct Directive.rustc_link_lib style value pair line law e =
      unchanged (ap (reconstruct ws target) (some_inj e))
  read_value-reconstruct Directive.rustc_link_search style value none line law e =
      let (path, denotes, new) =
        path_of-reconstruct value (rustc_link_search style none) line
          (written style Directive.rustc_link_search) (λ q. refl) e in
      search_path style none value path denotes refl new
  read_value-reconstruct Directive.rustc_link_search style value (some (kind, path)) line law e =
      let (path', denotes, new) =
        path_of-reconstruct path (rustc_link_search style (some kind)) line
          (λ p. written style Directive.rustc_link_search (paired kind p)) (λ q. refl) e in
      search_path style (some kind) path path' denotes
        (ap (written style Directive.rustc_link_search) (law kind path refl)) new
  read_value-reconstruct Directive.rustc_flags style value pair line law e =
      unchanged (ap (reconstruct ws target) (some_inj e))
  read_value-reconstruct Directive.rustc_cfg style value none line law e =
      unchanged (ap (reconstruct ws target) (some_inj e))
  read_value-reconstruct Directive.rustc_cfg style value (some (key, val)) line law e = unchanged (
      ap (written style Directive.rustc_cfg) (law key val refl)
      ∙ ap (reconstruct ws target) (some_inj e))
  read_value-reconstruct Directive.rustc_check_cfg style value pair line law e =
      unchanged (ap (reconstruct ws target) (some_inj e))
  read_value-reconstruct Directive.rustc_env style value none line law e = cc
  read_value-reconstruct Directive.rustc_env style value (some (key, val)) line law e = unchanged (
      ap (written style Directive.rustc_env) (law key val refl)
      ∙ ap (reconstruct ws target) (some_inj e))
  read_value-reconstruct Directive.error style value pair line law e =
      unchanged (ap (reconstruct ws target) (some_inj e))
  read_value-reconstruct Directive.warning style value pair line law e =
      unchanged (ap (reconstruct ws target) (some_inj e))
  read_value-reconstruct Directive.metadata style value none line law e = cc
  read_value-reconstruct Directive.metadata style value (some (key, val)) line law e = unchanged (
      ap (written style Directive.metadata) (law key val refl)
      ∙ ap (reconstruct ws target) (some_inj e))

  parse_inner-reconstruct :
      (line : String) (l : BuildScriptOutputLine)
      → parse_inner ws target line ≡ some l
      → Respelled ws target line (reconstruct ws target l)
  unfolding parse_inner written paired
  parse_inner-reconstruct line l e = elim (Option-cases (parse_line line)) [
    | inl bad ↦ let e' = rw bad at e in cc
    | inr ((style, rest), styled') ↦ elim (Option-cases (split_once "=" rest)) [
      | inl bad ↦ let e' = rw bad at (rw styled' at e) in cc
      | inr ((key, value), splits) ↦ elim (Option-cases (directive_in key directives)) [
        | inl bad ↦ let e' = rw bad at (rw splits at (rw styled' at e)) in cc
        | inr (d, known) ↦
            let same =
              parse_line-append line rest style styled'
              ∙ ap (String.◌++◌ (style_str style)) (
                  split_once-paired rest key value splits
                  ∙ ap (λ k. paired k value) (sym (directive_in-name_of key directives d known))) in
            subst (λ x. Respelled ws target x (reconstruct ws target l)) (sym same)
              (read_value-reconstruct d style value (split_once "=" value) l
                (split_once-paired value) (rw known at (rw splits at (rw styled' at e))))
      ]
    ]
  ]

  -- In the workspace where it was parsed, every line of a build script's output is reconstructed as it
  -- was, whether it is a directive, a malformed one or other text; only the path of a
  -- rerun-if-changed or a rustc-link-search directive may be written as another that stands for it:
  -- one with the same components, or the path of the file to which it leads below the profile
  -- directory or Cargo's home.
  pub reconstruct-parse :
      (line : String) → Respelled ws target line (reconstruct ws target (parse ws target line))
  unfolding parse reconstruct
  reconstruct-parse line = elim (Option-cases (parse_inner ws target line)) [
    | inl unknown ↦ rw unknown (unchanged refl)
    | inr (l, parsed) ↦ rw parsed (parse_inner-reconstruct line l parsed)
  ]
