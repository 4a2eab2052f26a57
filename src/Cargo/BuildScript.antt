-- ===== src/Cargo/BuildScript.antt =====
-- The output of build scripts: packages/hurry/src/cargo/build_script.rs.
pub mod Laws
use Prim.Native.Char.{Char}
use Prim.Native.String
use hurry.Prelude.{String, Bool, Option, none, some, List, [], ◌∷◌, ◌==◌, map, if◌then◌else◌}
use hurry.Cargo.Target.{RustcTarget}
use hurry.Cargo.Path.{QualifiedPath, Paths, parse_string, reconstruct_string}
use hurry.Cargo.BuildArgs.Text.{eq_char, split_once}

-- `BuildScriptOutputLineStyle`
pub data Style : Type 0 where
  old current : Style

unfoldable pub style_str : Style → String
style_str old = "cargo:"
style_str current = "cargo::"

-- `BuildScriptOutputLine`
pub data BuildScriptOutputLine : Type 0 where
  rerun_if_changed : Style → QualifiedPath → BuildScriptOutputLine
  rerun_if_env_changed rustc_link_arg rustc_link_lib : Style → String → BuildScriptOutputLine
  rustc_link_search : Style → (kind : Option String) → QualifiedPath → BuildScriptOutputLine
  rustc_flags : Style → String → BuildScriptOutputLine
  rustc_cfg : Style → (key : String) → (value : Option String) → BuildScriptOutputLine
  rustc_check_cfg : Style → String → BuildScriptOutputLine
  rustc_env : Style → (var value : String) → BuildScriptOutputLine
  error warning : Style → String → BuildScriptOutputLine
  metadata : Style → (key value : String) → BuildScriptOutputLine
  other : String → BuildScriptOutputLine

-- The directives, and the constants that name them.
pub data Directive : Type 0 where
  rerun_if_changed rerun_if_env_changed rustc_link_arg rustc_link_lib rustc_link_search rustc_flags
        rustc_cfg rustc_check_cfg rustc_env error warning metadata :
      Directive

unfoldable pub name_of : Directive → String
name_of Directive.rerun_if_changed = "rerun-if-changed"
name_of Directive.rerun_if_env_changed = "rerun-if-env-changed"
name_of Directive.rustc_link_arg = "rustc-link-arg"
name_of Directive.rustc_link_lib = "rustc-link-lib"
name_of Directive.rustc_link_search = "rustc-link-search"
name_of Directive.rustc_flags = "rustc-flags"
name_of Directive.rustc_cfg = "rustc-cfg"
name_of Directive.rustc_check_cfg = "rustc-check-cfg"
name_of Directive.rustc_env = "rustc-env"
name_of Directive.error = "error"
name_of Directive.warning = "warning"
name_of Directive.metadata = "metadata"

abbrev pub directives : List Directive
directives =
    Directive.rerun_if_changed ∷ Directive.rerun_if_env_changed ∷ Directive.rustc_link_arg
    ∷ Directive.rustc_link_lib ∷ Directive.rustc_link_search ∷ Directive.rustc_flags
    ∷ Directive.rustc_cfg ∷ Directive.rustc_check_cfg ∷ Directive.rustc_env ∷ Directive.error
    ∷ Directive.warning ∷ Directive.metadata ∷ []

-- `match key`
unfoldable pub directive_in : String → List Directive → Option Directive
unfolding name_of
directive_in key [] = none
directive_in key (d ∷ ds) = if name_of d == key then some d else directive_in key ds

unfoldable pub strip_prefix : String → String → Option String
strip_prefix String.[] s = some s
strip_prefix (String.◌∷◌ c p) String.[] = none
strip_prefix (String.◌∷◌ c p) (String.◌∷◌ d s) = if eq_char c d then strip_prefix p s else none

abbrev with_style : Style → Option String → Option (Style × String)
with_style style none = none
with_style style (some rest) = some (style, rest)

abbrev or_old : String → Option String → Option (Style × String)
or_old line none = with_style old (strip_prefix "cargo:" line)
or_old line (some rest) = some (current, rest)

-- `parse_line`: the current prefix is tried first.
unfoldable pub parse_line : String → Option (Style × String)
unfolding strip_prefix
parse_line line = or_old line (strip_prefix "cargo::" line)

abbrev pub and_then {ℓ κ} : {A : Type ℓ} {B : Type κ} → Option A → (A → Option B) → Option B
and_then none f = none
and_then (some a) f = f a

module _ (ws : Paths) (target : RustcTarget) where
  abbrev pub path_of :
      String → (QualifiedPath → BuildScriptOutputLine) → Option BuildScriptOutputLine
  path_of s f = and_then (parse_string ws target s) λ path. some (f path)

  -- The arms of the match, with the value split at its first `=`.
  unfoldable pub read_value :
      Directive → Style → String → Option (String × String) → Option BuildScriptOutputLine
  unfolding parse_string
  read_value Directive.rerun_if_changed style value pair = path_of value (rerun_if_changed style)
  read_value Directive.rerun_if_env_changed style value pair =
      some (rerun_if_env_changed style value)
  read_value Directive.rustc_link_arg style value pair = some (rustc_link_arg style value)
  read_value Directive.rustc_link_lib style value pair = some (rustc_link_lib style value)
  read_value Directive.rustc_link_search style value none =
      path_of value (rustc_link_search style none)
  read_value Directive.rustc_link_search style value (some (kind, path)) =
      path_of path (rustc_link_search style (some kind))
  read_value Directive.rustc_flags style value pair = some (rustc_flags style value)
  read_value Directive.rustc_cfg style value none = some (rustc_cfg style value none)
  read_value Directive.rustc_cfg style value (some (key, val)) =
      some (rustc_cfg style key (some val))
  read_value Directive.rustc_check_cfg style value pair = some (rustc_check_cfg style value)
  read_value Directive.rustc_env style value none = none
  read_value Directive.rustc_env style value (some (var, val)) = some (rustc_env style var val)
  read_value Directive.error style value pair = some (error style value)
  read_value Directive.warning style value pair = some (warning style value)
  read_value Directive.metadata style value none = none
  read_value Directive.metadata style value (some (key, val)) = some (metadata style key val)

  unfoldable pub parse_inner : String → Option BuildScriptOutputLine
  unfolding parse_line split_once directive_in read_value
  parse_inner line = and_then (parse_line line) λ (style, rest).
      and_then (split_once "=" rest) λ (key, value).
        and_then (directive_in key directives) λ d. read_value d style value (split_once "=" value)

  abbrev or_other : String → Option BuildScriptOutputLine → BuildScriptOutputLine
  or_other line none = other line
  or_other line (some parsed) = parsed

  unfoldable pub parse : String → BuildScriptOutputLine
  unfolding parse_inner
  parse line = or_other line (parse_inner line)

-- `format!("{}{}={}")`, and with a second `=`.
unfoldable pub written : Style → Directive → String → String
unfolding style_str name_of
written style d value =
    String.◌++◌ (style_str style) (String.◌++◌ (name_of d) (String.◌∷◌ "=" value))

unfoldable pub paired : String → String → String
paired key value = String.◌++◌ key (String.◌∷◌ "=" value)

module _ (ws : Paths) (target : RustcTarget) where
  unfoldable pub reconstruct : BuildScriptOutputLine → String
  unfolding written paired reconstruct_string
  reconstruct (rerun_if_changed s path) =
      written s Directive.rerun_if_changed (reconstruct_string ws target path)
  reconstruct (rerun_if_env_changed s var) = written s Directive.rerun_if_env_changed var
  reconstruct (rustc_link_arg s flag) = written s Directive.rustc_link_arg flag
  reconstruct (rustc_link_lib s lib) = written s Directive.rustc_link_lib lib
  reconstruct (rustc_link_search s (some kind) path) =
      written s Directive.rustc_link_search (paired kind (reconstruct_string ws target path))
  reconstruct (rustc_link_search s none path) =
      written s Directive.rustc_link_search (reconstruct_string ws target path)
  reconstruct (rustc_flags s flags) = written s Directive.rustc_flags flags
  reconstruct (rustc_cfg s key none) = written s Directive.rustc_cfg key
  reconstruct (rustc_cfg s key (some value)) = written s Directive.rustc_cfg (paired key value)
  reconstruct (rustc_check_cfg s check_cfg) = written s Directive.rustc_check_cfg check_cfg
  reconstruct (rustc_env s var value) = written s Directive.rustc_env (paired var value)
  reconstruct (error s msg) = written s Directive.error msg
  reconstruct (warning s msg) = written s Directive.warning msg
  reconstruct (metadata s key value) = written s Directive.metadata (paired key value)
  reconstruct (other s) = s
