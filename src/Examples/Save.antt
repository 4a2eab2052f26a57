-- ===== src/Examples/Save.antt =====
-- A run of `save_units` (packages/hurry/src/cargo/cache/save.rs): a unit that was restored, one that
-- is uploaded, and one for a platform that cannot be saved.
use Prim.Native.String
use hurry.Prelude.{
  nat_eq, arith, contains, map, inr, ◌≡◌, ◌≤◌, refl, String, ◌==◌, true, false, none, some, List,
  [], ◌∷◌, length, All, get_value, put_value, if◌then◌else◌,
}
use hurry.Cargo.Result.{Result, ok, err, unset_path}
use hurry.Cargo.Target.{specified, x86_64_linux_gnu, i686_linux_gnu}
use hurry.Cargo.Units.{UnitPlan, library_crate, info, src_path}
use hurry.Cargo.Path.{Paths, relative_target_profile}
use hurry.Cargo.BuildScript.{strip_prefix}
use hurry.Cargo.Fingerprint.{Fingerprint, fingerprint, stored}
use hurry.Cargo.Fingerprint.Relocate.{Tree, node, leaf, branch, on_disk, native_hash}
use hurry.Cargo.Save.Objects.{Stocked}
use hurry.Cargo.Save.Stocked.{save_units-Stocked}
use hurry.Cargo.Save.Runs.{texts, read_print}
use hurry.Cargo.Save.Whole.{IsSavable, save_units-texts}
use mathlib.Core.List.{Memᴰ}
use hurry.Cargo.Save.Units.{shared_path, eq_platform, SaveEnv, SaveState, SaveProgress, Restored}
use hurry.Cargo.Save.Loop.{save_units, save_start}
use hurry.Cargo.Save.Progress.{save_units-progress}
use hurry.Examples.Data.{hashers, fields, info_of}

abbrev paths : Paths
paths = record {
  arch_profile_dir = λ target. "/target/";
  cargo_home = "/home/";
  as_rel = λ s. none;
  as_abs = λ s. some s;
  components = λ s. s ∷ [];
  relative_to = λ path dir. strip_prefix dir path;
  join = λ dir rel. String.◌++◌ dir (String.◌++◌ "/" rel);
  exists = λ path. false;
}

abbrev tree_a : Tree
tree_a = node (fields 7) (some "a") leaf

abbrev tree_b : Tree
tree_b = node (fields 8) (some "b") (branch 1 "a" true tree_a leaf)

abbrev here : String → String
here s = if s == "a" then "/home/a" else "/home/b"

abbrev shared : String → String
shared s = String.◌++◌ "/cargo_home/" s

-- The fingerprint on disk.
print_of : String → Fingerprint
unfolding on_disk
print_of h = if h == "b" then on_disk hashers here tree_b else on_disk hashers here tree_a

abbrev json : Fingerprint → String
json (fingerprint own deps memo) = if nat_eq own.path 5 then "shared" else "own"

json-stored : (f : Fingerprint) → json f ≡ json (stored hashers f)
unfolding stored
json-stored (fingerprint own deps memo) = refl

abbrev env : SaveEnv
env = record {
  hashers = hashers;
  paths = paths;
  host_arch = x86_64_linux_gnu;
  host_glibc_version = ok (some (record { major = 2; minor = 39; patch = 0 }));
  read_library = λ plan. ok (record {
    output_files =
        record { path = relative_target_profile "lib"; contents = "code"; executable = false } ∷ [];
    dep_info_file = "{}";
    encoded_dep_info_file = "old";
    fingerprint = print_of plan.info.unit_hash;
  });
  read_compilation = λ plan. err unset_path;
  read_execution = λ plan. err unset_path;
  read_fingerprint = λ unit. ok (print_of (info unit).unit_hash);
  key_from_buffer = λ contents. contents;
  len = λ contents. 2;
  path_json = λ path. path;
  qualified_json = λ path. "lib";
  fingerprint_json = json;
  store_bulk = λ files. ok (record { written = []; skipped = []; errors = [] });
  cargo_cache_save = λ requests. ok tt;
}

abbrev skip : Restored
skip = record { units = "a" ∷ []; files = "old" ∷ [] }

-- `a` was restored, `b` needs it, and `x` is for another platform with glibc.
abbrev units : List UnitPlan
units =
    library_crate (record { info = info_of "a" []; src_path = "/home/a"; outputs = [] })
    ∷ library_crate (record { info = info_of "b" ("a" ∷ []); src_path = "/home/b"; outputs = [] })
    ∷ library_crate (record {
      info = record (info_of "x" []) { target_arch = specified i686_linux_gnu };
      src_path = "/home/x";
      outputs = [];
    })
    ∷ []

abbrev state_of : Result SaveState → SaveState
state_of (ok s) = s
state_of (err e) = save_start env []

abbrev saved : SaveState
saved = state_of (save_units env skip units)

saves : save_units env skip units ≡ ok saved
unfolding save_units src_path get_value put_value print_of strip_prefix native_hash
saves = refl

one_uploaded :
    saved.progress
    ≡ record { uploaded_units = 1; total_units = 1; uploaded_files = 2; uploaded_bytes = 4 }
unfolding save_units src_path get_value put_value print_of strip_prefix native_hash
one_uploaded = refl

save_units-progress_example :
    (saved.progress.uploaded_units ≡ saved.progress.total_units)
    × (length saved.save_requests ≡ saved.progress.uploaded_units)
    × All (λ (p : SaveProgress). p.uploaded_units ≤ p.total_units) saved.reports
save_units-progress_example = save_units-progress env skip units saved saves

save_units-Stocked_example : Stocked env skip saved
save_units-Stocked_example = save_units-Stocked env skip units saved saves

-- The first two of the units, with what they are.
abbrev pairs : List (UnitPlan × Tree)
pairs =
    (library_crate (record { info = info_of "a" []; src_path = "/home/a"; outputs = [] }), tree_a)
    ∷ (
      library_crate (record { info = info_of "b" ("a" ∷ []); src_path = "/home/b"; outputs = [] }),
      tree_b,
    )
    ∷ []

pairs-IsSavable : IsSavable env skip here shared pairs
unfolding print_of src_path strip_prefix info read_print native_hash shared_path eq_platform
pairs-IsSavable = record {
  answers = record { stores = λ l. (_, refl); glibc = (_, refl) };
  accepts = λ l. refl;
  nonzero = λ path e. ground arith;
  json = json-stored;
  readable = (
    record { saved = refl; skipped = refl; path = refl; can = inr refl },
    (record { saved = refl; skipped = refl; path = refl; can = inr refl }, tt),
  );
}

save_units-texts_example :
    (s : SaveState) × (save_units env skip (map (λ (u : UnitPlan × Tree). u.0) pairs) ≡ ok s)
    × (texts s.save_requests ≡ "shared" ∷ [])
unfolding on_disk contains info
save_units-texts_example =
    save_units-texts env skip here shared pairs pairs-IsSavable
      (tt, tt, ((Memᴰ.head refl, tt), ((λ e. ground arith), tt), tt))
