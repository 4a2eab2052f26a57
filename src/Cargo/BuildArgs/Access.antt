-- ===== src/Cargo/BuildArgs/Access.antt =====
-- What the rest of the program asks of the arguments: the accessors of
-- packages/hurry/src/cargo/build_args.rs.
use hurry.Prelude.{
  String, Bool, true, false, ◌||◌, Option, none, some, List, [], ◌∷◌, ◌++◌, ◌≡◌, refl, ap,
}
use hurry.Cargo.BuildArgs.{
  CargoBuildArgument, «package», all_features, features, manifest_path, no_default_features,
  profile, release, target, target_dir,
}
use hurry.Cargo.Target.{
  RustcTarget, implicit_host, specified, from_triple, target_str, as_str-from_triple,
}

-- `iter().find_map(f)` and `iter().any(f)`
abbrev or_else {ℓ} : {A : Type ℓ} → Option A → Option A → Option A
or_else none rest = rest
or_else (some a) rest = some a

unfoldable pub find_map {ℓ} :
    {A : Type ℓ} → (CargoBuildArgument → Option A) → List CargoBuildArgument → Option A
find_map f [] = none
find_map f (argument ∷ arguments) = or_else (f argument) (find_map f arguments)

unfoldable pub any : (CargoBuildArgument → Bool) → List CargoBuildArgument → Bool
any f [] = false
any f (argument ∷ arguments) = f argument || any f arguments

-- `iter().flat_map(f).collect()`
unfoldable pub flat_map : (CargoBuildArgument → List String) → List CargoBuildArgument → List String
flat_map f [] = []
flat_map f (argument ∷ arguments) = f argument ++ flat_map f arguments

abbrev profile_of : CargoBuildArgument → Option String
profile_of (profile p) = some p
profile_of release = some "release"
profile_of _ = none

unfoldable pub profile_arg : List CargoBuildArgument → Option String
unfolding find_map
profile_arg arguments = find_map profile_of arguments

abbrev is_release_arg : CargoBuildArgument → Bool
is_release_arg release = true
is_release_arg _ = false

unfoldable pub is_release : List CargoBuildArgument → Bool
unfolding any
is_release arguments = any is_release_arg arguments

abbrev package_of : CargoBuildArgument → List String
package_of («package» p) = p ∷ []
package_of _ = []

unfoldable pub packages : List CargoBuildArgument → List String
unfolding flat_map
packages arguments = flat_map package_of arguments

-- The text of a `--target`.
abbrev pub triple_of : CargoBuildArgument → Option String
triple_of (target triple) = triple
triple_of _ = none

abbrev target_of : CargoBuildArgument → Option RustcTarget
target_of (target (some triple)) = some (specified (from_triple triple))
target_of _ = none

abbrev or_host : Option RustcTarget → RustcTarget
or_host none = implicit_host
or_host (some t) = t

unfoldable pub target_arg : List CargoBuildArgument → RustcTarget
unfolding find_map
target_arg arguments = or_host (find_map target_of arguments)

abbrev target_dir_of : CargoBuildArgument → Option String
target_dir_of (target_dir dir) = some dir
target_dir_of _ = none

unfoldable pub target_dir_arg : List CargoBuildArgument → Option String
unfolding find_map
target_dir_arg arguments = find_map target_dir_of arguments

abbrev manifest_path_of : CargoBuildArgument → Option String
manifest_path_of (manifest_path path) = some path
manifest_path_of _ = none

unfoldable pub manifest_path_arg : List CargoBuildArgument → Option String
unfolding find_map
manifest_path_arg arguments = find_map manifest_path_of arguments

abbrev features_of : CargoBuildArgument → List String
features_of (features names) = names
features_of _ = []

unfoldable pub features_arg : List CargoBuildArgument → List String
unfolding flat_map
features_arg arguments = flat_map features_of arguments

abbrev is_all_features : CargoBuildArgument → Bool
is_all_features all_features = true
is_all_features _ = false

unfoldable pub all_features_arg : List CargoBuildArgument → Bool
unfolding any
all_features_arg arguments = any is_all_features arguments

abbrev is_no_default_features : CargoBuildArgument → Bool
is_no_default_features no_default_features = true
is_no_default_features _ = false

unfoldable pub no_default_features_arg : List CargoBuildArgument → Bool
unfolding any
no_default_features_arg arguments = any is_no_default_features arguments

-- The target that the arguments ask for is written as the text of the first `--target` that has one,
-- whether hurry knows the triple or not, and is the host if there is none.
pub target_arg-target_str :
    (arguments : List CargoBuildArgument)
    → target_str (target_arg arguments) ≡ find_map triple_of arguments
unfolding target_arg target_str find_map
target_arg-target_str [] = refl
target_arg-target_str (target none ∷ arguments) = target_arg-target_str arguments
target_arg-target_str (target (some triple) ∷ arguments) = ap some (as_str-from_triple triple)
target_arg-target_str (argument ∷ arguments) = target_arg-target_str arguments
