-- ===== src/Prelude/Dict.antt =====
-- A `HashMap` with `u64` keys as an association list; the order of the entries is not read.
use Prim.Native.Nat.{ℕ}
use mathlib.Core.Path.{◌≡◌, refl}
use mathlib.Core.Option.{Option, none, some}
use mathlib.Core.List.{List, [], ◌∷◌}
use native.Mathlib.Omega.{arith}
use hurry.Prelude.Tests.{nat_eq, if◌then◌else◌}

module _ {ℓ} {V : Type ℓ} where
  -- `map.get(&k)`
  unfoldable pub get_value : List (ℕ × V) → ℕ → Option V
  get_value [] k = none
  get_value ((j, v) ∷ m) k = if nat_eq j k then some v else get_value m k

  -- `map.insert(k, v)`
  unfoldable pub put_value : ℕ → V → List (ℕ × V) → List (ℕ × V)
  put_value k v [] = (k, v) ∷ []
  put_value k v ((j, w) ∷ m) = if nat_eq j k then (k, v) ∷ m else (j, w) ∷ put_value k v m

  pub get-put_value :
      (k : ℕ) (v : V) (m : List (ℕ × V)) (j : ℕ)
      → get_value (put_value k v m) j ≡ (if nat_eq k j then some v else get_value m j)
  unfolding get_value put_value
  get-put_value k v [] j = refl
  get-put_value k v ((i, w) ∷ m) j = ground (arith, get-put_value k v m j)
