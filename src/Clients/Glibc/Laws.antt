-- ===== src/Clients/Glibc/Laws.antt =====
-- The order and the text of versions (packages/clients/src/courier/v1.rs).
use hurry.Prelude.{ℕ, ◌<◌, String, true, false, Option, some, ◌≡◌, refl, arith, ◌⊎◌, ◌↔◌}
use hurry.Cargo.BuildArgs.Text.{eq_char}
use hurry.Cargo.BuildArgs.Text.Laws.{IsFree, split_free, split_free-append}
use hurry.Clients.Glibc.{GlibcVersion, older, from_str, to_string}

-- The versions in the order of their three numbers.
abbrev pub IsOlder : GlibcVersion → GlibcVersion → Type 0
IsOlder a b =
    (a.major < b.major)
    ⊎ ((a.major ≡ b.major) × ((a.minor < b.minor) ⊎ ((a.minor ≡ b.minor) × (a.patch < b.patch))))

pub older-IsOlder : (a b : GlibcVersion) → (older a b ≡ true) ↔ IsOlder a b
unfolding older
older-IsOlder a b = ground arith

-- What a host can use, a newer host can use.
pub older_trans : (a b c : GlibcVersion) → older a b ≡ false → older b c ≡ false → older a c ≡ false
unfolding older
older_trans a b c h k = ground arith

pub record IsText (read : String → Option ℕ) (show : ℕ → String) (n : ℕ) : Type 0 where
  pub free : IsFree (λ c. eq_char c ".") (show n)
  pub reads : read (show n) ≡ some n

module _ (read : String → Option ℕ) (show : ℕ → String) where
  -- A version whose numbers are texts without a dot that are read back is read back itself.
  pub from_str-to_string :
      (v : GlibcVersion)
      → IsText read show v.major
      → IsText read show v.minor
      → IsText read show v.patch
      → from_str read show (to_string read show v) ≡ some v
  unfolding from_str to_string
  from_str-to_string v a b c =
      rw (split_free-append (λ c. eq_char c ".") (show v.major) _ "." a.free refl) (
        rw (split_free-append (λ c. eq_char c ".") (show v.minor) _ "." b.free refl) (
          rw (split_free (λ c. eq_char c ".") (show v.patch) c.free)
            (rw (a.reads) (rw (b.reads) (rw (c.reads) refl)))))
