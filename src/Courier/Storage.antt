-- ===== src/Courier/Storage.antt =====
-- The object store: packages/courier/src/storage.rs. Contents are bytes, and texts here. The hash, the
-- compression and what the operating system answers are parameters.
pub mod Laws
use hurry.Prelude.{
  ℕ, String, ◌==◌, Bool, true, false, Option, none, some, List, [], ◌∷◌, if◌then◌else◌,
}
use hurry.Clients.Saved.{Key}

pub record DiskEnv : Type 0 where
  pub hash : String → Key
  pub compress : String → String
  pub decompress : String → Option String
  pub len : String → ℕ

-- The files of the store: the blobs, which are compressed, the sizes beside them, and temporary files
-- that remain. A later entry for a key replaces an earlier one, which stands behind it.
pub record Disk : Type 0 where
  pub blobs : List (Key × String)
  pub sizes : List (Key × ℕ)
  pub temps : List (Key × String)

pub data Renamed : Type 0 where
  renamed already_exists failed : Renamed

-- What the operating system answers to the calls of one `write`.
pub record Answers : Type 0 where
  pub parent_created : Bool
  pub temp_created : Bool
  pub copied : Bool
  pub flushed : Bool
  pub temp_removed : Bool
  pub rename : Renamed
  pub size_written : Bool

unfoldable pub lookup {ℓ} : {V : Type ℓ} → List (Key × V) → Key → Option V
lookup [] key = none
lookup ((k, v) ∷ files) key = if k == key then some v else lookup files key

abbrev pub is_there {ℓ} : {V : Type ℓ} → Option V → Bool
is_there none = false
is_there (some v) = true

-- `exists`
unfoldable pub exists : Key → Disk → Bool
unfolding lookup
exists key d = is_there (lookup d.blobs key)

abbrev pub left : Key → String → Disk → Disk
left key blob d = record d { temps = (key, blob) ∷ d.temps }

-- `remove_file(&temp)`: a failure is only logged.
abbrev pub remove_temp : Answers → Key → String → Disk → Disk
remove_temp os key blob d = if os.temp_removed then d else left key blob d

abbrev pub rename_temp : Answers → Key → String → ℕ → Renamed → Disk → Bool × Disk
rename_temp os key blob size renamed d =
    let moved = record d { blobs = (key, blob) ∷ d.blobs } in
    if os.size_written
    then (true, record moved { sizes = (key, size) ∷ d.sizes })
    else (false, moved)
rename_temp os key blob size already_exists d = (true, remove_temp os key blob d)
rename_temp os key blob size failed d = (false, remove_temp os key blob d)

-- The end of both writes, with the hash and the size of the content; false is an error.
unfoldable pub finish_write : Answers → Key → String → Key → ℕ → Disk → Bool × Disk
finish_write os key blob hash size d =
    if os.flushed
    then (if key == hash
        then rename_temp os key blob size os.rename d
        else (false, remove_temp os key blob d))
    else (false, left key blob d)

module _ (env : DiskEnv) where
  -- `write`
  unfoldable pub write : Answers → Key → String → Disk → Bool × Disk
  unfolding finish_write
  write os key content d =
      if os.parent_created
      then (if os.temp_created
          then (if os.copied
              then finish_write os key (env.compress content) (env.hash content) (env.len content) d
              else (false, left key (env.compress content) d))
          else (false, d))
      else (false, d)

  abbrev pub write_decompressed : Answers → Key → String → Option String → Disk → Bool × Disk
  write_decompressed os key blob none d = (false, left key blob d)
  write_decompressed os key blob (some content) d =
      finish_write os key blob (env.hash content) (env.len content) d

  -- `write_compressed`: the hash and the size are those of the content.
  unfoldable pub write_compressed : Answers → Key → String → Disk → Bool × Disk
  unfolding finish_write
  write_compressed os key blob d =
      if os.parent_created
      then (if os.temp_created
          then (if os.copied
              then write_decompressed os key blob (env.decompress blob) d
              else (false, left key blob d))
          else (false, d))
      else (false, d)

  abbrev pub decoded : Option String → Option String
  decoded none = none
  decoded (some blob) = env.decompress blob

  -- `read`, and the content that its reader yields; none where there is no file. A blob that does not
  -- decompress, whose reader would fail after the answer has begun, reads as none too.
  unfoldable pub read : Key → Disk → Option String
  unfolding lookup
  read key d = decoded (lookup d.blobs key)

  unfoldable pub read_compressed : Key → Disk → Option String
  unfolding lookup
  read_compressed key d = lookup d.blobs key

  abbrev pub written_size : Bool → Key → Option String → Disk → Option ℕ × Disk
  written_size size_written key none d = (none, d)
  written_size size_written key (some content) d =
      if size_written
      then (some (env.len content), record d { sizes = (key, env.len content) ∷ d.sizes })
      else (none, d)

  abbrev pub known_size : Bool → Key → Option ℕ → Disk → Option ℕ × Disk
  known_size size_written key none d =
      written_size size_written key (decoded (lookup d.blobs key)) d
  known_size size_written key (some n) d = (some n, d)

  -- `size`: where there is no size file, the content is read and one is written; none where there is
  -- no blob, or that fails.
  unfoldable pub size : Bool → Key → Disk → Option ℕ × Disk
  unfolding lookup
  size size_written key d = known_size size_written key (lookup d.sizes key) d
