-- ===== src/Examples/Data.antt =====
-- A build of three units, in the terms of packages/hurry/src/cargo/workspace.rs: `a`, a library `b`
-- that needs `a`, and the run `c` of a build script that needs `b`.
use hurry.Prelude.{
  ℕ, ◌+◌, ◌*◌, String, Bool, true, false, Option, none, some, List, [], ◌∷◌, ◌==◌, if◌then◌else◌,
}
use hurry.Cargo.Target.{implicit_host}
use hurry.Cargo.Units.{UnitHash, UnitPlanInfo, UnitPlan, library_crate, build_script_execution}
use hurry.Cargo.Fingerprint.{Fingerprint, fingerprint, nil, dep, new_fields, Fields, Hashers}
use hurry.Cargo.Result.{ok, err, io_error}
use hurry.Cargo.Restore.Queue.{Env}
use hurry.Clients.Saved
use hurry.Clients.Saved.{SavedPlanInfo, SavedFile, SavedUnit, CargoRestoreResponse}

abbrev pub info_of : String → List UnitHash → UnitPlanInfo
info_of h deps = record {
  unit_hash = h;
  package_name = h;
  package_version = "1.0.0";
  crate_name = h;
  target_arch = implicit_host;
  deps = deps;
}

abbrev pub library : String → List UnitHash → UnitPlan
library h deps = library_crate (record { info = info_of h deps; src_path = h; outputs = [] })

abbrev pub a : UnitPlan
a = library "a" []

abbrev pub b : UnitPlan
b = library "b" ("a" ∷ [])

abbrev pub c : UnitPlan
c =
    build_script_execution
      (record { info = info_of "c" ("b" ∷ []); build_script_program_name = "build" })

abbrev pub plan : List UnitPlan
plan = a ∷ b ∷ c ∷ []

abbrev pub hashers : Hashers
hashers = record {
  sip = λ input. input.fields.target + 10 * input.fields.path + 100 * input.dep_count;
  path_hash = λ path. if path == "/home/a" then 3 else if path == "/home/b" then 4 else 5;
}

abbrev pub fields : ℕ → Fields
fields target = record new_fields { target = target; path = 1 }

-- The fingerprints as they are read: of `a` (hash 17), of `b` with its dependency's hash, and of `c`.
abbrev pub print_of : String → Option Fingerprint
print_of text =
    if text == "fa"
    then some (fingerprint (fields 7) nil none)
    else if text == "fb"
    then some
        (fingerprint (fields 8) (dep 1 "a" true (fingerprint new_fields nil (some 17)) nil) none)
    else if text == "fc"
    then some
        (fingerprint (fields 9) (dep 2 "b" true (fingerprint new_fields nil (some 118)) nil) none)
    else none

abbrev pub env : (UnitPlan → Bool) → Env
env exists = record {
  hashers = hashers;
  exists = exists;
  from_json = print_of;
  local_fingerprint = λ unit. err io_error;
  write_fingerprint = λ unit f. ok tt;
  create_out_dir = λ unit_info. ok tt;
  write_root_output = λ unit_info mtime. ok tt;
  destination = λ unit_info path. some path;
}

abbrev pub saved_info : String → SavedPlanInfo
saved_info h = record { unit_hash = h; package_name = h; crate_name = h; target_arch = none }

abbrev pub saved_library : String → String → List SavedFile → SavedUnit
saved_library h print files =
    Saved.library_crate
      (record {
        output_files = files;
        fingerprint = print;
        dep_info_file = "k1";
        encoded_dep_info_file = "k2";
      })
      (record { info = saved_info h; src_path = h; outputs = [] })

abbrev pub saved_run : String → String → SavedUnit
saved_run h print =
    Saved.build_script_execution
      (record { out_dir_files = []; stdout = "k3"; stderr = "k4"; fingerprint = print })
      (record { info = saved_info h; build_script_program_name = "build" })

abbrev pub rlib : SavedFile
rlib = record { executable = false; object_key = "k0"; path = "liba.rlib" }

abbrev pub saved_a : String × SavedUnit
saved_a = ("a", saved_library "a" "fa" (rlib ∷ []))

abbrev pub saved_b : String × SavedUnit
saved_b = ("b", saved_library "b" "fb" [])

abbrev pub saved_c : String × SavedUnit
saved_c = ("c", saved_run "c" "fc")

abbrev pub response : CargoRestoreResponse
response = saved_a ∷ saved_b ∷ saved_c ∷ []
