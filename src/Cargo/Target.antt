-- ===== src/Cargo/Target.antt =====
-- The compilation target: `RustcTarget` and `RustcTargetPlatform` of
-- packages/hurry/src/cargo/rustc.rs.
use hurry.Prelude.{
  String, Bool, true, false, Option, none, some, ◌≡◌, arith, ◌==◌, eq_iff, Option-cases, inl, inr,
  if◌then◌else◌,
}

-- The variants in the source's order; `unsupported` keeps the text of any other triple.
pub data RustcTargetPlatform : Type 0 where
  arm64_darwin arm64_windows_msvc arm64_linux_gnu i686_windows_msvc i686_linux_gnu
        x86_64_windows_gnu x86_64_windows_msvc x86_64_linux_gnu :
      RustcTargetPlatform
  unsupported : String → RustcTargetPlatform

unfoldable pub as_str : RustcTargetPlatform → String
as_str arm64_darwin = "aarch64-apple-darwin"
as_str arm64_windows_msvc = "aarch64-pc-windows-msvc"
as_str arm64_linux_gnu = "aarch64-unknown-linux-gnu"
as_str i686_windows_msvc = "i686-pc-windows-msvc"
as_str i686_linux_gnu = "i686-unknown-linux-gnu"
as_str x86_64_windows_gnu = "x86_64-pc-windows-gnu"
as_str x86_64_windows_msvc = "x86_64-pc-windows-msvc"
as_str x86_64_linux_gnu = "x86_64-unknown-linux-gnu"
as_str (unsupported triple) = triple

unfoldable pub try_from_str : String → Option RustcTargetPlatform
try_from_str s =
    if s == "aarch64-apple-darwin"
    then some arm64_darwin
    else if s == "aarch64-pc-windows-msvc"
    then some arm64_windows_msvc
    else if s == "aarch64-unknown-linux-gnu"
    then some arm64_linux_gnu
    else if s == "i686-pc-windows-msvc"
    then some i686_windows_msvc
    else if s == "i686-unknown-linux-gnu"
    then some i686_linux_gnu
    else if s == "x86_64-pc-windows-gnu"
    then some x86_64_windows_gnu
    else if s == "x86_64-pc-windows-msvc"
    then some x86_64_windows_msvc
    else if s == "x86_64-unknown-linux-gnu"
    then some x86_64_linux_gnu
    else none

unfoldable pub supported : RustcTargetPlatform → Bool
supported (unsupported _) = false
supported _ = true

unfoldable pub uses_glibc : RustcTargetPlatform → Bool
uses_glibc arm64_linux_gnu = true
uses_glibc i686_linux_gnu = true
uses_glibc x86_64_linux_gnu = true
uses_glibc _ = false

abbrev or_unsupported : String → Option RustcTargetPlatform → RustcTargetPlatform
or_unsupported s none = unsupported s
or_unsupported s (some platform) = platform

-- `try_from_str(s).unwrap_or(Unsupported(s))`, as `deserialize` and `target()` have it.
unfoldable pub from_triple : String → RustcTargetPlatform
from_triple s = or_unsupported s (try_from_str s)

pub data RustcTarget : Type 0 where
  implicit_host : RustcTarget
  specified : RustcTargetPlatform → RustcTarget

-- `as_str` of `RustcTarget`, which is also what `serialize` writes.
unfoldable pub target_str : RustcTarget → Option String
target_str implicit_host = none
target_str (specified target) = some (as_str target)

-- `deserialize` of `RustcTarget`, on the optional text.
unfoldable pub from_target_str : Option String → RustcTarget
from_target_str none = implicit_host
from_target_str (some target) = specified (from_triple target)

as_str-try_from_str :
    (s : String) (p : RustcTargetPlatform) → try_from_str s ≡ some p → as_str p ≡ s
unfolding try_from_str as_str
as_str-try_from_str s p h = ground (
  arith,
  eq_iff s "aarch64-apple-darwin",
  eq_iff s "aarch64-pc-windows-msvc",
  eq_iff s "aarch64-unknown-linux-gnu",
  eq_iff s "i686-pc-windows-msvc",
  eq_iff s "i686-unknown-linux-gnu",
  eq_iff s "x86_64-pc-windows-gnu",
  eq_iff s "x86_64-pc-windows-msvc",
  eq_iff s "x86_64-unknown-linux-gnu",
)

-- No triple is lost on the way in: whatever the text, the platform read from it is written as that
-- text again.
pub as_str-from_triple : (s : String) → as_str (from_triple s) ≡ s
unfolding from_triple as_str
as_str-from_triple s = elim (Option-cases (try_from_str s)) [
  | inl e ↦ rw e
  | inr (p, e) ↦ rw e (as_str-try_from_str s p e)
]
