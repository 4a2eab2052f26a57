-- ===== src/Examples/BuildScript.antt =====
-- Lines of a build script's output (packages/hurry/src/cargo/build_script.rs), read and written.
use Prim.Native.String
use hurry.Prelude.{◌≡◌, refl, sym, ap, ◌==◌, none, some, arith, if◌then◌else◌}
use hurry.Cargo.Target.{implicit_host}
use hurry.Cargo.Path.{
  Paths, IsLawful, Denotes, parse_string, reconstruct_string, reconstruct-parse_string, absolute,
  relative_cargo_home, relative_target_profile,
}
use hurry.Cargo.BuildArgs.Text.{starts_with, split_once, eq_char, split, non_empty}
use hurry.Cargo.BuildScript.{
  old, current, other, rerun_if_changed, rustc_cfg, rustc_link_search, parse, reconstruct,
  strip_prefix, parse_line, directive_in,
}
use hurry.Cargo.BuildScript.Laws.{strip_prefix-append, Respelled, reconstruct-parse}

-- Two directories; a text is absolute if it starts with a slash, and one file exists.
abbrev pub ws : Paths
ws = record {
  arch_profile_dir = λ target. "/ws/target/debug/";
  cargo_home = "/home/.cargo/";
  as_rel = λ s. if starts_with "/" s then none else some s;
  as_abs = λ s. if starts_with "/" s then some s else none;
  relative_to = λ path dir. strip_prefix dir path;
  join = λ dir rel. String.◌++◌ dir rel;
  components = λ path. non_empty (split (λ c. eq_char c "/") path);
  exists = λ path. path == "/ws/target/debug/gen.rs";
}

pub ws-IsLawful : IsLawful ws
ws-IsLawful = record {
  rel_path = λ s r e. let same : r ≡ s = ground arith in ap ws.components same;
  abs_path = λ s a e. let same : a ≡ s = ground arith in ap ws.components same;
  rejoin = λ a d r e. ap ws.components (sym (strip_prefix-append d a r e));
}

run : Unit {0}
unfolding parse reconstruct strip_prefix parse_line directive_in split_once parse_string starts_with
run = tt

lines_read :
    (parse ws implicit_host "cargo:rustc-cfg=feature=\"std\""
      ≡ rustc_cfg old "feature" (some "\"std\""))
    × (parse ws implicit_host "cargo::rerun-if-changed=/home/.cargo/x.c"
        ≡ rerun_if_changed current (relative_cargo_home "x.c"))
    × (parse ws implicit_host "cargo:rustc-link-search=native=/usr/lib"
        ≡ rustc_link_search old (some "native") (absolute "/usr/lib"))
    × (parse ws implicit_host "cargo:rustc-env=INVALID" ≡ other "cargo:rustc-env=INVALID")
    × (parse ws implicit_host "cargo:root=/usr" ≡ other "cargo:root=/usr")
unfolding run
lines_read = (refl, refl, refl, refl, refl)

reconstruct-parse_example :
    Respelled ws implicit_host "cargo:rustc-link-search=native=/home/.cargo/x" (
      reconstruct ws implicit_host
        (parse ws implicit_host "cargo:rustc-link-search=native=/home/.cargo/x"))
reconstruct-parse_example =
    reconstruct-parse ws implicit_host ws-IsLawful "cargo:rustc-link-search=native=/home/.cargo/x"

home_path : parse_string ws implicit_host "/home/.cargo/x" ≡ some (relative_cargo_home "x")
unfolding run
home_path = refl

-- A relative path that leads to a file below the profile directory.
generated : parse_string ws implicit_host "gen.rs" ≡ some (relative_target_profile "gen.rs")
unfolding run
generated = refl

reconstruct-parse_string_example :
    Denotes ws implicit_host "gen.rs"
      (reconstruct_string ws implicit_host (relative_target_profile "gen.rs"))
reconstruct-parse_string_example =
    reconstruct-parse_string ws implicit_host ws-IsLawful "gen.rs"
      (relative_target_profile "gen.rs") generated
