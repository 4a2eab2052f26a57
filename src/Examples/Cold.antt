-- ===== src/Examples/Cold.antt =====
-- A restore of the three units with nothing on disk (packages/hurry/src/cargo/cache/restore.rs).
use mathlib.Core.List.{Memᴰ}
use hurry.Prelude.{
  String, ◌==◌, ◌≡◌, refl, true, false, none, some, List, [], ◌∷◌, map, arith, contains,
  if◌then◌else◌,
}
use hurry.Cargo.Units.{UnitPlan, info, src_path}
use hurry.Cargo.Fingerprint.{Fingerprint, hash_u64, stored}
use hurry.Cargo.Fingerprint.Relocate.{Tree, node, leaf, branch, native_hash, on_disk}
use hurry.Cargo.Restore.Queue.{Env}
use hurry.Cargo.Restore.Queue.Loop.{restore_start, restore_units}
use hurry.Cargo.Restore.Cold.{CanWrite}
use hurry.Cargo.Restore.Cold.Loop.{RestoresAll}
use hurry.Cargo.Restore.Cold.Laws.{IsCold, restore_units-RestoresAll}
use hurry.Clients.Saved
use hurry.Examples.Data.{a, b, c, plan, response, env, hashers, fields, saved_a, saved_b, saved_c}

abbrev tree_a : Tree
tree_a = node (fields 7) (some "a") leaf

abbrev tree_b : Tree
tree_b = node (fields 8) (some "b") (branch 1 "a" true tree_a leaf)

abbrev tree_c : Tree
tree_c = node (fields 9) none (branch 2 "b" true tree_b leaf)

abbrev trees : List Tree
trees = tree_a ∷ tree_b ∷ tree_c ∷ []

abbrev shared : String → String
shared s = "/cargo_home"

abbrev here : String → String
here s = s

print : Tree → Fingerprint
unfolding on_disk
print t = on_disk hashers shared t

abbrev cold : Env
cold = record (env (λ unit. false)) {
  from_json = λ text.
      if text == "fa"
      then some (print tree_a)
      else if text == "fb"
      then some (print tree_b)
      else if text == "fc"
      then some (print tree_c)
      else none;
}

abbrev units : List (UnitPlan × Fingerprint)
units = (a, print tree_a) ∷ (b, print tree_b) ∷ (c, print tree_c) ∷ []

can : (unit : UnitPlan) → CanWrite cold unit
can unit = record { fingerprint = λ f. refl; out_dir = refl; root_output = λ mtime. refl }

response-IsCold : IsCold cold shared here trees units response
unfolding print contains info src_path native_hash Saved.get Saved.keys Saved.fingerprint
response-IsCold = record {
  nonzero = λ path e. ground arith;
  absent = (refl, (refl, (refl, tt)));
  offered = (
    (saved_a.1, refl, refl, tt, (("liba.rlib", refl), tt), can a),
    ((saved_b.1, refl, refl, tt, tt, can b), ((saved_c.1, refl, refl, tt, tt, can c), tt)),
  );
  distinct = (refl, (refl, (refl, tt)));
  deps = (tt, ((refl, tt), ((refl, tt), tt)));
  builds = refl;
  ordered = (
    tt,
    tt,
    (
      (Memᴰ.head refl, tt),
      ((λ e. ground arith), tt),
      ((Memᴰ.head refl, tt), ((λ e. ground arith), ((λ e. ground arith), tt)), tt),
    ),
  );
}

restore_units-RestoresAll_example :
    (fs : List Fingerprint) × RestoresAll plan fs
      (restore_units cold plan response)
      (restore_start response [])
    × (map (hash_u64 hashers) fs ≡ map (native_hash hashers here) trees)
    × (map (stored hashers) fs ≡ map (on_disk hashers here) trees)
restore_units-RestoresAll_example =
    restore_units-RestoresAll cold shared here trees units response response-IsCold
