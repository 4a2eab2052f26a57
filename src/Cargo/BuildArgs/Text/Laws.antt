-- ===== src/Cargo/BuildArgs/Text/Laws.antt =====
-- Laws of the text functions that packages/hurry/src/cargo/build_args.rs calls: splitting undoes
-- joining.
use Prim.Native.Char.{Char}
use Prim.Native.String
use text.Mathlib.TextLemmas.{nil-append, cons-append}
use hurry.Prelude.{
  ℕ, zero, suc, String, Bool, true, false, none, some, List, [], ◌∷◌, ◌≡◌, ◌≢◌, refl, ap, ◌∙◌,
  arith, All,
}
use hurry.Cargo.BuildArgs.Text.{eq_char, split_once, count_char, repeat, split, non_empty, join}

-- No character of the text is a separator.
abbrev pub IsFree : (Char → Bool) → String → Type 0
IsFree is_sep String.[] = Unit
IsFree is_sep (String.◌∷◌ c s) = (is_sep c ≡ false) × IsFree is_sep s

abbrev pub IsWord : (Char → Bool) → String → Type 0
IsWord is_sep w = (w ≢ "") × IsFree is_sep w

pub split_once-append :
    (d : Char) (key value : String)
    → IsFree (λ c. eq_char c d) key
    → split_once d (String.◌++◌ key (String.◌∷◌ d value)) ≡ some (key, value)
unfolding split_once
split_once-append d String.[] value h = rw (nil-append (String.◌∷◌ d value)) (ground arith)
split_once-append d (String.◌∷◌ c s) value h =
    rw (cons-append c s (String.◌∷◌ d value)) (rw (h.0, split_once-append d s value h.1) refl)

pub split_once_free : (d : Char) (s : String) → IsFree (λ c. eq_char c d) s → split_once d s ≡ none
unfolding split_once
split_once_free d String.[] h = refl
split_once_free d (String.◌∷◌ c s) h = rw (h.0, split_once_free d s h.1) refl

pub count_char-repeat : (c : Char) (n : ℕ) → count_char c (repeat c n) ≡ n
unfolding count_char repeat
count_char-repeat c zero = refl
count_char-repeat c (suc n) = ground (arith, count_char-repeat c n)

module _ (is_sep : Char → Bool) where
  pub split_free : (w : String) → IsFree is_sep w → split is_sep w ≡ w ∷ []
  unfolding split
  split_free String.[] h = refl
  split_free (String.◌∷◌ c w) h = rw (h.0, split_free w h.1) refl

  pub split_free-append :
      (w s : String) (d : Char)
      → IsFree is_sep w
      → is_sep d ≡ true
      → split is_sep (String.◌++◌ w (String.◌∷◌ d s)) ≡ w ∷ split is_sep s
  unfolding split
  split_free-append String.[] s d h e = rw (nil-append (String.◌∷◌ d s)) (rw e refl)
  split_free-append (String.◌∷◌ c w) s d h e =
      rw (cons-append c w (String.◌∷◌ d s)) (rw (h.0, split_free-append w s d h.1 e) refl)

  non_empty-cons : (w : String) (ws : List String) → w ≢ "" → non_empty (w ∷ ws) ≡ w ∷ non_empty ws
  unfolding non_empty
  non_empty-cons String.[] ws h = absurd (h refl)
  non_empty-cons (String.◌∷◌ c w) ws h = refl

  -- Words joined by commas come back, if a comma is a separator.
  pub split-join :
      (ws : List String)
      → is_sep "," ≡ true
      → All (IsWord is_sep) ws
      → non_empty (split is_sep (join ws)) ≡ ws
  unfolding join split non_empty
  split-join [] e h = refl
  split-join (w ∷ []) e h = ap non_empty (split_free w h.0.1) ∙ non_empty-cons w [] h.0.0
  split-join (w ∷ v ∷ ws) e h =
      ap non_empty (split_free-append w (join (v ∷ ws)) "," h.0.1 e)
      ∙ non_empty-cons w _ h.0.0
      ∙ ap (λ l. w ∷ l) (split-join (v ∷ ws) e h.1)
