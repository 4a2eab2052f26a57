-- ===== src/Examples/DepInfo.antt =====
-- A dep-info file (packages/hurry/src/cargo/dep_info.rs), read and written.
use Prim.Native.Char.{Char}
use mathlib.Core.List.Perm
use hurry.Prelude.{String, ◌≡◌, refl, some, List, [], ◌∷◌, map, Bool}
use hurry.Cargo.Target.{implicit_host}
use hurry.Cargo.Path.{QualifiedPath, relative_target_profile, relative_cargo_home}
use hurry.Cargo.BuildArgs.Text.{eq_char, split, non_empty, starts_with}
use hurry.Cargo.DepInfo.{DepInfoLine, build, comment, space, escape, from_file, reconstruct}
use hurry.Cargo.DepInfo.Laws.{AreRebuilt, reconstruct-from_file}
use hurry.Examples.BuildScript.{ws, ws-IsLawful}

abbrev is_whitespace : Char → Bool
is_whitespace c = eq_char c " "

abbrev in_order : List QualifiedPath → List QualifiedPath
in_order paths = paths

-- The file goes on after the backslash.
abbrev lines : List String
lines =
    "# made by rustc" ∷ "" ∷ "/ws/target/debug/a.d: /home/.cargo/x  \\" ∷ "/home/.cargo/y"
    ∷ "/home/.cargo/x:" ∷ []

joins :
    escape "" lines
    ≡ "# made by rustc" ∷ "" ∷ "/ws/target/debug/a.d: /home/.cargo/x  /home/.cargo/y"
      ∷ "/home/.cargo/x:" ∷ []
unfolding escape
joins = refl

abbrev info : List DepInfoLine
info =
    comment " made by rustc"
    ∷ space
    ∷ build (relative_target_profile "a.d") (relative_cargo_home "x" ∷ relative_cargo_home "y" ∷ [])
    ∷ build (relative_cargo_home "x") []
    ∷ []

reads : from_file ws implicit_host is_whitespace in_order lines ≡ some info
unfolding from_file split non_empty starts_with
reads = refl

writes :
    map (reconstruct ws implicit_host) info
    ≡ "# made by rustc" ∷ "" ∷ "/ws/target/debug/a.d: /home/.cargo/x /home/.cargo/y"
      ∷ "/home/.cargo/x: " ∷ []
unfolding reconstruct
writes = refl

reconstruct-from_file_example :
    AreRebuilt ws implicit_host is_whitespace
      (escape "" lines)
      (map (reconstruct ws implicit_host) info)
reconstruct-from_file_example =
    reconstruct-from_file ws implicit_host ws-IsLawful is_whitespace in_order (λ l. Perm.refl l)
      lines info reads
