-- ===== src/Cargo/DepInfo.antt =====
-- The dep-info files of rustc: packages/hurry/src/cargo/dep_info.rs. A line's inputs are parsed
-- concurrently: they come in the order in which that completes, which is a parameter.
pub mod Laws
use Prim.Native.Char.{Char}
use Prim.Native.String
use hurry.Prelude.{String, Bool, Option, none, some, List, [], ◌∷◌, ◌==◌, map, if◌then◌else◌}
use hurry.Cargo.Target.{RustcTarget}
use hurry.Cargo.Path.{QualifiedPath, Paths, parse_string, reconstruct_string}
use hurry.Cargo.BuildArgs.Text.{eq_char, with_first, split, non_empty}
use hurry.Cargo.BuildScript.{strip_prefix, and_then}

-- `DepInfoLine`
pub data DepInfoLine : Type 0 where
  space : DepInfoLine
  comment : String → DepInfoLine
  build : (output : QualifiedPath) → (inputs : List QualifiedPath) → DepInfoLine

abbrev after_first : Char → Char → String → Option String → Option String
after_first d c String.[] rest = if eq_char c d then some "" else none
after_first d c (String.◌∷◌ e s) none = none
after_first d c (String.◌∷◌ e s) (some rest) = some (String.◌∷◌ c rest)

-- `strip_suffix(d)`
unfoldable pub strip_suffix : Char → String → Option String
strip_suffix d String.[] = none
strip_suffix d (String.◌∷◌ c s) = after_first d c s (strip_suffix d s)

abbrev pub split_here : Char → Option String → Option (String × String) → Option (String × String)
split_here c (some rest) later = some ("", rest)
split_here c none later = with_first c later

-- `split_once(": ")`
unfoldable pub split_output : String → Option (String × String)
unfolding strip_prefix
split_output String.[] = none
split_output (String.◌∷◌ c s) = split_here c (strip_prefix ": " (String.◌∷◌ c s)) (split_output s)

-- `join(" ")`
unfoldable pub spaced : List String → String
spaced [] = ""
spaced (w ∷ []) = w
spaced (w ∷ ws) = String.◌++◌ w (String.◌∷◌ " " (spaced ws))

-- The loop of `escaped_lines`, over what `lines` yields.
unfoldable pub escape : String → List String → List String
unfolding strip_suffix
escape current [] = if current == "" then [] else current ∷ []
escape current (line ∷ lines) = elim (strip_suffix "\\" line) [
  | some stripped ↦ escape (String.◌++◌ current stripped) lines
  | none ↦ String.◌++◌ current line ∷ escape "" lines
]

module _ (ws : Paths) (target : RustcTarget) where
  module _ (is_whitespace : Char → Bool) (completed : List QualifiedPath → List QualifiedPath) where
    unfoldable pub parse_inputs : List String → Option (List QualifiedPath)
    unfolding parse_string
    parse_inputs [] = some []
    parse_inputs (input ∷ inputs) =
        and_then (parse_string ws target input)
          λ path. and_then (parse_inputs inputs) λ paths. some (path ∷ paths)

    abbrev pub parse_build : Option (String × String) → Option DepInfoLine
    parse_build none = none
    parse_build (some (output, inputs)) = and_then (parse_string ws target output) λ path.
        and_then (parse_inputs (non_empty (split is_whitespace inputs)))
          λ paths. some (build path (completed paths))

    abbrev pub parse_output : String → Option String → Option DepInfoLine
    parse_output line none = parse_build (split_output line)
    parse_output line (some output) =
        and_then (parse_string ws target output) λ path. some (build path [])

    abbrev pub parse_comment : String → Option String → Option DepInfoLine
    parse_comment line none = parse_output line (strip_suffix ":" line)
    parse_comment line (some text) = some (comment text)

    -- `DepInfoLine::parse`; none is an error.
    unfoldable pub parse : String → Option DepInfoLine
    unfolding parse_inputs split_output strip_suffix strip_prefix
    parse line = if line == "" then some space else parse_comment line (strip_prefix "#" line)

    -- `try_collect` over the lines.
    unfoldable pub parse_lines : List String → Option (List DepInfoLine)
    unfolding parse
    parse_lines [] = some []
    parse_lines (line ∷ lines) =
        and_then (parse line) λ parsed. and_then (parse_lines lines) λ rest. some (parsed ∷ rest)

    -- `from_file`, on what `lines` yields for the file's text.
    unfoldable pub from_file : List String → Option (List DepInfoLine)
    unfolding escape parse_lines
    from_file lines = parse_lines (escape "" lines)

  -- `DepInfoLine::reconstruct`
  unfoldable pub reconstruct : DepInfoLine → String
  unfolding reconstruct_string spaced
  reconstruct space = ""
  reconstruct (comment text) = String.◌∷◌ "#" text
  reconstruct (build output inputs) =
      String.◌++◌ (reconstruct_string ws target output)
        (String.◌++◌ ": " (spaced (map (reconstruct_string ws target) inputs)))
