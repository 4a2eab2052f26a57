-- ===== src/Cargo/BuildArgs/Text.antt =====
-- The text functions of the standard library that packages/hurry/src/cargo/build_args.rs calls.
pub mod Laws
use Prim.Native.Char.{Char, code}
use Prim.Native.String
use hurry.Prelude.{
  ℕ, zero, suc, ◌+◌, String, Bool, true, false, Option, none, some, List, [], ◌∷◌, if◌then◌else◌,
  nat_eq,
}

abbrev pub eq_char : Char → Char → Bool
eq_char c d = nat_eq (code c) (code d)

-- `starts_with` of one character, and of `-v`.
unfoldable pub starts_with : Char → String → Bool
starts_with d String.[] = false
starts_with d (String.◌∷◌ c s) = eq_char c d

unfoldable pub starts_with_v : String → Bool
unfolding starts_with
starts_with_v String.[] = false
starts_with_v (String.◌∷◌ c s) = if eq_char c "-" then starts_with "v" s else false

abbrev pub with_first : Char → Option (String × String) → Option (String × String)
with_first c none = none
with_first c (some (key, value)) = some (String.◌∷◌ c key, value)

-- `split_once(d)`
unfoldable pub split_once : Char → String → Option (String × String)
split_once d String.[] = none
split_once d (String.◌∷◌ c s) =
    let rest = split_once d s in if eq_char c d then some ("", s) else with_first c rest

-- `chars().filter(|c| *c == d).count()`
unfoldable pub count_char : Char → String → ℕ
count_char d String.[] = 0
count_char d (String.◌∷◌ c s) = let rest = count_char d s in if eq_char c d then rest + 1 else rest

-- `"v".repeat(n)`
unfoldable pub repeat : Char → ℕ → String
repeat c zero = ""
repeat c (suc n) = String.◌∷◌ c (repeat c n)

abbrev pub push_char : Char → List String → List String
push_char c [] = String.◌∷◌ c "" ∷ []
push_char c (w ∷ ws) = String.◌∷◌ c w ∷ ws

-- `split(is_sep)`
unfoldable pub split : (Char → Bool) → String → List String
split is_sep String.[] = "" ∷ []
split is_sep (String.◌∷◌ c s) =
    let rest = split is_sep s in if is_sep c then "" ∷ rest else push_char c rest

-- `filter(|s| !s.is_empty())`
unfoldable pub non_empty : List String → List String
non_empty [] = []
non_empty (String.[] ∷ ws) = non_empty ws
non_empty (String.◌∷◌ c w ∷ ws) = String.◌∷◌ c w ∷ non_empty ws

-- `join(",")`
unfoldable pub join : List String → String
join [] = ""
join (w ∷ []) = w
join (w ∷ ws) = String.◌++◌ w (String.◌∷◌ "," (join ws))
