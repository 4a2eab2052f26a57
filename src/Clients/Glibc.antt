-- ===== src/Clients/Glibc.antt =====
-- `GlibcVersion` (packages/clients/src/courier/v1.rs). The text of a `u32` is a parameter.
pub mod Laws
use Prim.Native.Nat.{compare, Ordering}
use Prim.Native.String
use hurry.Prelude.{ℕ, String, Bool, true, false, Option, none, some, List, [], ◌∷◌}
use hurry.Cargo.BuildArgs.Text.{eq_char, split}

pub record GlibcVersion : Type 0 where
  pub major : ℕ
  pub minor : ℕ
  pub patch : ℕ

abbrev pub then_with : Ordering → Ordering → Ordering
then_with Ordering.lt later = Ordering.lt
then_with Ordering.eq later = later
then_with Ordering.gt later = Ordering.gt

-- `cmp`
unfoldable pub cmp : GlibcVersion → GlibcVersion → Ordering
cmp a b =
    then_with (compare a.major b.major)
      (then_with (compare a.minor b.minor) (compare a.patch b.patch))

abbrev is_lt : Ordering → Bool
is_lt Ordering.lt = true
is_lt Ordering.eq = false
is_lt Ordering.gt = false

-- `a < b`, by `partial_cmp`.
unfoldable pub older : GlibcVersion → GlibcVersion → Bool
unfolding cmp
older a b = is_lt (cmp a b)

-- The `u32` that a text is, and its text.
module _ (read : String → Option ℕ) (show : ℕ → String) where
  abbrev version : Option ℕ → Option ℕ → Option ℕ → Option GlibcVersion
  version none minor patch = none
  version (some major) none patch = none
  version (some major) (some minor) none = none
  version (some major) (some minor) (some patch) =
      some (record { major = major; minor = minor; patch = patch })

  -- The parts: two or three.
  abbrev pub from_parts : List String → Option GlibcVersion
  from_parts [] = none
  from_parts (major ∷ []) = none
  from_parts (major ∷ minor ∷ []) = version (read major) (read minor) (some 0)
  from_parts (major ∷ minor ∷ patch ∷ []) = version (read major) (read minor) (read patch)
  from_parts (major ∷ minor ∷ patch ∷ rest ∷ parts) = none

  -- `from_str`; none is an error.
  unfoldable pub from_str : String → Option GlibcVersion
  unfolding split
  from_str s = from_parts (split (λ c. eq_char c ".") s)

  -- `fmt`
  unfoldable pub to_string : GlibcVersion → String
  to_string v =
      String.◌++◌ (show v.major)
        (String.◌∷◌ "." (String.◌++◌ (show v.minor) (String.◌∷◌ "." (show v.patch))))
