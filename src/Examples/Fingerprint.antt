-- ===== src/Examples/Fingerprint.antt =====
-- Runs of `rewrite` (packages/hurry/src/cargo/fingerprint.rs), one by one and over a build.
use mathlib.Core.List.{Memᴰ}
use hurry.Prelude.{
  ℕ, ◌≡◌, ◌≢◌, refl, String, ◌==◌, true, none, some, List, [], ◌∷◌, arith, get_value, put_value,
  map, if◌then◌else◌,
}
use hurry.Cargo.Result.{Result, ok, err}
use hurry.Cargo.Fingerprint.{
  Fingerprint, fingerprint, nil, dep, new_fields, rewrite, hash_u64, stored,
}
use hurry.Cargo.Fingerprint.Relocate.{Tree, node, leaf, branch, native_hash, on_disk}
use hurry.Cargo.Fingerprint.SaveRestore.{
  rewrite_units, inputs, IsPlan, IsRelocated, with_paths, rewrite_units-IsRelocated, save_restore,
}
use hurry.Examples.Data.{hashers, fields}

run : Unit {0}
unfolding rewrite hash_u64 get_value put_value native_hash on_disk rewrite_units stored
run = tt

abbrev leaf_print : Fingerprint
leaf_print = fingerprint (fields 7) nil none

abbrev needs_leaf : Fingerprint
needs_leaf = fingerprint (fields 8) (dep 1 "a" true (fingerprint new_fields nil (some 17)) nil) none

abbrev map_of : Result (Fingerprint × List (ℕ × Fingerprint)) → Fingerprint × List (ℕ × Fingerprint)
map_of (ok r) = r
map_of (err e) = (leaf_print, [])

abbrev moved_leaf : Fingerprint × List (ℕ × Fingerprint)
moved_leaf = map_of (rewrite hashers leaf_print (some "/home/a") [])

leaf_moves : rewrite hashers leaf_print (some "/home/a") [] ≡ ok moved_leaf
unfolding run
leaf_moves = refl

leaf_hashes : (hash_u64 hashers leaf_print ≡ 17) × (hash_u64 hashers moved_leaf.0 ≡ 37)
unfolding run
leaf_hashes = (refl, refl)

abbrev at_b : String
at_b = "/home/b"

-- A build of two units, the second with the first as a dependency, and three machines.
abbrev first : Tree
first = node (fields 7) (some "a") leaf

abbrev second : Tree
second = node (fields 8) (some "b") (branch 1 "a" true first leaf)

abbrev home : String → String
home s = if s == "a" then "/home/a" else "/home/b"

abbrev root : String → String
root s = "/root"

abbrev work : String → String
work s = s

never_zero : (path : String) → hashers.path_hash path ≢ 0
never_zero path = λ e. ground arith

home-IsPlan : IsPlan hashers home [] (first ∷ second ∷ [])
unfolding run
home-IsPlan = (tt, tt, ((Memᴰ.head refl, tt), ((λ e. ground arith), tt), tt))

root-IsPlan : IsPlan hashers root [] (first ∷ second ∷ [])
unfolding run
root-IsPlan = (tt, tt, ((Memᴰ.head refl, tt), ((λ e. ground arith), tt), tt))

rewrite_units-IsRelocated_example :
    IsRelocated hashers root
      (first ∷ second ∷ [])
      (rewrite_units hashers (inputs hashers home root (first ∷ second ∷ [])) [])
rewrite_units-IsRelocated_example =
    rewrite_units-IsRelocated hashers never_zero home root (first ∷ second ∷ []) [] [] home-IsPlan
      tt

save_restore_example :
    (saved : List Fingerprint) × (rewrite_units hashers
        (inputs hashers home root (first ∷ second ∷ []))
        []
      ≡ ok saved)
    × IsRelocated hashers work (first ∷ second ∷ []) (
        rewrite_units hashers
          (with_paths hashers work (map (stored hashers) saved) (first ∷ second ∷ []))
          [])
save_restore_example =
    save_restore hashers never_zero home root work (first ∷ second ∷ []) home-IsPlan root-IsPlan
