-- ===== src/Prelude/Sets.antt =====
-- A `HashSet<String>` as a list of its members, in any order.
use Prim.Native.String.{String}
use mathlib.Core.Path.{◌≡◌, refl}
use mathlib.Core.Bool.{Bool, true, false, ◌||◌}
use mathlib.Core.List.{List, [], ◌∷◌, ◌++◌}
use native.Mathlib.Omega.{arith}
use text.Mathlib.Text.{◌==◌}
use text.Mathlib.TextEquality.{eq_iff}
use hurry.Prelude.Tests.{if◌then◌else◌}

-- `set.contains(k)`
unfoldable pub contains : List String → String → Bool
contains [] k = false
contains (x ∷ xs) k = x == k || contains xs k

-- `set.insert(k)`
unfoldable pub insert : String → List String → List String
unfolding contains
insert k xs = if contains xs k then xs else k ∷ xs

-- `set.remove(k)`
unfoldable pub remove : String → List String → List String
remove k [] = []
remove k (x ∷ xs) = let rest = remove k xs in if x == k then rest else x ∷ rest

pub contains-insert :
    (k j : String) (xs : List String)
    → contains (insert k xs) j ≡ (if k == j then true else contains xs j)
unfolding insert
contains-insert k j xs = ground (arith, eq_iff k j, contains_eq k j xs)
  where
    contains_eq : (a b : String) (l : List String) → a ≡ b → contains l a ≡ contains l b
    contains_eq a b l e = cc

pub contains-remove :
    (k j : String) (xs : List String)
    → contains (remove k xs) j ≡ (if k == j then false else contains xs j)
unfolding contains remove
contains-remove k j [] = ground arith
contains-remove k j (x ∷ xs) =
    ground (arith, contains-remove k j xs, eq_iff k j, eq_iff x k, eq_iff x j)

pub contains-append :
    (k : String) (xs ys : List String) → contains (xs ++ ys) k ≡ (contains xs k || contains ys k)
unfolding contains
contains-append k [] ys = refl
contains-append k (x ∷ xs) ys = ground (arith, contains-append k xs ys)
