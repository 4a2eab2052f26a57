-- ===== src/Cargo/Path.antt =====
-- Paths that a build on another machine can use: packages/hurry/src/cargo/path.rs. Paths are texts.
use hurry.Prelude.{
  String, Bool, true, false, Option, List, none, some, ◌≡◌, refl, sym, ap, ◌∙◌, subst, Bool-cases,
  Option-cases, inl, inr, if◌then◌else◌,
}
use hurry.Cargo.Target.{RustcTarget}

pub data QualifiedPath : Type 0 where
  rootless : String → QualifiedPath
  relative_target_profile : String → QualifiedPath
  relative_cargo_home : String → QualifiedPath
  absolute : String → QualifiedPath

-- The workspace's directories, and what the standard library and the disk answer about paths.
pub record Paths : Type 0 where
  pub arch_profile_dir : RustcTarget → String
  pub cargo_home : String
  pub as_rel : String → Option String
  pub as_abs : String → Option String
  pub relative_to : String → String → Option String
  pub join : String → String → String
  -- `Path::components`, which passes over doubled separators and dots
  pub components : String → List String
  pub exists : String → Bool

module _ (ws : Paths) (target : RustcTarget) where
  abbrev or_absolute : String → Option String → QualifiedPath
  or_absolute abs none = absolute abs
  or_absolute abs (some rel) = relative_cargo_home rel

  abbrev or_cargo_home : String → Option String → QualifiedPath
  or_cargo_home abs none = or_absolute abs (ws.relative_to abs ws.cargo_home)
  or_cargo_home abs (some rel) = relative_target_profile rel

  -- `parse_abs`
  unfoldable pub parse_abs : String → QualifiedPath
  parse_abs path = or_cargo_home path (ws.relative_to path (ws.arch_profile_dir target))

  unfoldable pub parse_rel : String → QualifiedPath
  parse_rel rel =
      if ws.exists (ws.join (ws.arch_profile_dir target) rel)
      then relative_target_profile rel
      else if ws.exists (ws.join ws.cargo_home rel)
      then relative_cargo_home rel
      else rootless rel

  abbrev parse_as_abs : Option String → Option QualifiedPath
  parse_as_abs none = none
  parse_as_abs (some abs) = some (parse_abs abs)

  abbrev parse_as_rel : String → Option String → Option QualifiedPath
  parse_as_rel path none = parse_as_abs (ws.as_abs path)
  parse_as_rel path (some rel) = some (parse_rel rel)

  -- `parse`; none is the error of an unknown kind of path.
  unfoldable pub parse_string : String → Option QualifiedPath
  unfolding parse_rel parse_abs
  parse_string path = parse_as_rel path (ws.as_rel path)

  -- `reconstruct_inner`
  unfoldable pub reconstruct_string : QualifiedPath → String
  reconstruct_string (rootless rel) = rel
  reconstruct_string (relative_target_profile rel) = ws.join (ws.arch_profile_dir target) rel
  reconstruct_string (relative_cargo_home rel) = ws.join ws.cargo_home rel
  reconstruct_string (absolute abs) = abs

-- What the standard library's paths satisfy: `strip_prefix` works by components, so a path is only
-- spelled again with the same ones.
pub record IsLawful (ws : Paths) : Type 0 where
  pub rel_path : (s r : String) → ws.as_rel s ≡ some r → ws.components r ≡ ws.components s
  pub abs_path : (s a : String) → ws.as_abs s ≡ some a → ws.components a ≡ ws.components s
  pub rejoin :
      (a d r : String) → ws.relative_to a d ≡ some r → ws.components (ws.join d r) ≡ ws.components a

-- What may stand for a path after it was parsed and reconstructed.
pub data Denotes (ws : Paths) (target : RustcTarget) (path new : String) : Type 0 where
  -- the same components
  same_path : ws.components new ≡ ws.components path → Denotes ws target path new
  -- a relative path that leads to a file below the profile directory
  below_profile :
      (rel : String)
      → ws.as_rel path ≡ some rel
      → ws.exists (ws.join (ws.arch_profile_dir target) rel) ≡ true
      → new ≡ ws.join (ws.arch_profile_dir target) rel
      → Denotes ws target path new
  -- or to none there, and to one below Cargo's home
  below_cargo_home :
      (rel : String)
      → ws.as_rel path ≡ some rel
      → ws.exists (ws.join (ws.arch_profile_dir target) rel) ≡ false
      → ws.exists (ws.join ws.cargo_home rel) ≡ true
      → new ≡ ws.join ws.cargo_home rel
      → Denotes ws target path new

module _ (ws : Paths) (target : RustcTarget) (w : IsLawful ws) where
  reconstruct-parse_abs :
      (path : String)
      → ws.components (reconstruct_string ws target (parse_abs ws target path)) ≡ ws.components path
  unfolding parse_abs reconstruct_string
  reconstruct-parse_abs path =
      elim (Option-cases (ws.relative_to path (ws.arch_profile_dir target))) [
        | inr (r, e) ↦ rw e (w.rejoin path (ws.arch_profile_dir target) r e)
        | inl e ↦ rw e (elim (Option-cases (ws.relative_to path ws.cargo_home)) [
          | inr (r, e') ↦ rw e' (w.rejoin path ws.cargo_home r e')
          | inl e' ↦ rw e' refl
        ])
      ]

  reconstruct-parse_rel :
      (path rel : String)
      → ws.as_rel path ≡ some rel
      → Denotes ws target path (reconstruct_string ws target (parse_rel ws target rel))
  unfolding parse_rel reconstruct_string
  reconstruct-parse_rel path rel is_rel =
      elim (Bool-cases (ws.exists (ws.join (ws.arch_profile_dir target) rel))) [
        | inl found ↦ rw found (below_profile rel is_rel found refl)
        | inr missing ↦ rw missing (elim (Bool-cases (ws.exists (ws.join ws.cargo_home rel))) [
          | inl found ↦ rw found (below_cargo_home rel is_rel missing found refl)
          | inr none_there ↦ rw none_there (same_path (w.rel_path path rel is_rel))
        ])
      ]

  -- A path that was parsed is reconstructed in the same workspace with the same components, unless it
  -- is relative and leads to a file below the profile directory or else below Cargo's home: then it
  -- becomes the path of that file.
  pub reconstruct-parse_string :
      (path : String) (q : QualifiedPath)
      → parse_string ws target path ≡ some q
      → Denotes ws target path (reconstruct_string ws target q)
  unfolding parse_string
  reconstruct-parse_string path q e = elim (Option-cases (ws.as_rel path)) [
    | inr (r, is_rel) ↦
        let parsed = rw is_rel at e in
        let same : parse_rel ws target r ≡ q = cc in
        subst (λ p. Denotes ws target path (reconstruct_string ws target p)) same
          (reconstruct-parse_rel path r is_rel)
    | inl not_rel ↦ elim (Option-cases (ws.as_abs path)) [
      | inl not_abs ↦ let none_some = rw not_abs at (rw not_rel at e) in cc
      | inr (a, is_abs) ↦
          let found = rw is_abs at (rw not_rel at e) in
          let same : parse_abs ws target a ≡ q = cc in
          same_path (
            ap (λ p. ws.components (reconstruct_string ws target p)) (sym same)
            ∙ reconstruct-parse_abs a
            ∙ w.abs_path path a is_abs)
    ]
  ]
