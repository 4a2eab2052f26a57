-- ===== src/Cargo/Restore/Batch.antt =====
-- The restore workers: `restore_worker` and `restore_batch` of
-- packages/hurry/src/cargo/cache/restore.rs. One worker is modelled, with the files that it receives
-- from the channel. The store and the write closures are arguments, and both may fail; what the
-- closures wrote is recorded.
pub mod Worker
pub mod Files
pub mod Written
pub mod Laws
pub mod Errors
use hurry.Prelude.{
  ℕ, zero, suc, ◌+◌, String, Bool, true, false, Option, none, some, List, [], ◌∷◌, ◌++◌, length,
  ltb, ◌==◌, insert, remove, if◌then◌else◌,
}
use hurry.Cargo.Result.{Result, ok, err, unrecognized_key, not_initialized, ◌>>=◌, ◌>>◌}
use hurry.Cargo.Units.{UnitHash}
use hurry.Cargo.Restore.Progress.{RestoreProgress, drop_pending, none_pending}
use hurry.Cargo.Restore.Queue.{FileRestoreKey}
use hurry.Clients.Saved.{Key}

abbrev pub batch_size : ℕ
batch_size = 50

-- The loop of `restore_worker`, over what `recv_async` yields until the channel closes, and the
-- partial batch after it. `restore_batch` is any action on the shared state.
module _ {S : Type 0} (restore : List FileRestoreKey → S → Result S) where
  unfoldable pub worker_loop : List FileRestoreKey → List FileRestoreKey → S → Result S
  worker_loop batch [] s = elim batch [ [] ↦ ok s | file ∷ rest ↦ restore (file ∷ rest) s ]
  worker_loop batch (file ∷ files) s =
      let batch' = batch ++ file ∷ [] in
      elim (ltb (length batch') batch_size) [
        | true ↦ worker_loop batch' files s
        | false ↦ restore batch' s >>= λ s'. worker_loop [] files s'
      ]

  unfoldable pub restore_worker : List FileRestoreKey → S → Result S
  unfolding worker_loop
  restore_worker files s = worker_loop [] files s

-- The bytes of an object.
abbrev pub Bytes : Type 0
Bytes = List ℕ

-- `Restored::files`, the pending keys of each unit, what was written, and the progress bar.
pub record BatchState : Type 0 where
  pub restored_files : List Key
  pub pending : RestoreProgress
  pub written : List (FileRestoreKey × Bytes)
  pub files_done : ℕ
  pub bytes_done : ℕ
  pub units_done : ℕ

-- `key_to_files`: the files of a batch by their key.
abbrev pub KeyToFiles : Type 0
KeyToFiles = List (Key × List FileRestoreKey)

-- `entry(key).or_insert(vec![]).push(file)`
unfoldable pub push_file : FileRestoreKey → KeyToFiles → KeyToFiles
push_file file [] = (file.key, file ∷ []) ∷ []
push_file file ((k, files) ∷ m) =
    if k == file.key then (k, files ++ file ∷ []) ∷ m else (k, files) ∷ push_file file m

unfoldable pub group_from : KeyToFiles → List FileRestoreKey → KeyToFiles
group_from m [] = m
group_from m (file ∷ batch) = group_from (push_file file m) batch

unfoldable pub files_of : KeyToFiles → Key → Option (List FileRestoreKey)
files_of [] key = none
files_of ((k, files) ∷ m) key = if k == key then some files else files_of m key

unfoldable pub drop_key : KeyToFiles → Key → KeyToFiles
drop_key [] key = []
drop_key ((k, files) ∷ m) key =
    let rest = drop_key m key in if k == key then rest else (k, files) ∷ rest

-- The state after one file is written, with the pending keys left.
unfoldable pub file_written : Bytes → FileRestoreKey → BatchState → RestoreProgress → BatchState
unfolding none_pending
file_written content file s pending' = record {
  restored_files = insert file.key s.restored_files;
  pending = pending';
  written = s.written ++ (file, content) ∷ [];
  files_done = s.files_done + 1;
  bytes_done = s.bytes_done + length content;
  units_done = if none_pending file.unit_hash pending' then s.units_done + 1 else s.units_done;
}

-- The closures of the queued files, by the file: `FileRestoreKey::write`.
abbrev pub Writer : Type 0
Writer = FileRestoreKey → Bytes → Result (Unit {0})

-- One file of the key that came.
unfoldable pub write_file : Writer → Key → Bytes → FileRestoreKey → BatchState → Result BatchState
unfolding file_written drop_pending
write_file write key content file s = do
  write file content
  pending' ← drop_pending file.unit_hash key s.pending
  ok (file_written content file s pending')

unfoldable pub write_files :
    Writer → Key → Bytes → List FileRestoreKey → BatchState → Result BatchState
unfolding write_file
write_files write key content [] s = ok s
write_files write key content (file ∷ files) s = do
  s' ← write_file write key content file s
  write_files write key content files s'

-- What the bulk response streams: an object, or an error for one.
pub data Entry : Type 0 where
  object : Key → Bytes → Entry
  failed : Entry

-- The loop over the stream. An error entry is logged and passed over.
unfoldable pub restore_stream : Writer → KeyToFiles → List Entry → BatchState → Result BatchState
restore_stream write m [] s = ok s
restore_stream write m (failed ∷ entries) s = restore_stream write m entries s
restore_stream write m (object key content ∷ entries) s = elim (files_of m key) [
  | none ↦ err unrecognized_key
  | some files ↦ write_files write key content files s >>= λ s'.
      restore_stream write (drop_key m key) entries s'
]

-- `key_to_files.keys()`
unfoldable pub keys_of : KeyToFiles → List Key
keys_of [] = []
keys_of ((k, files) ∷ m) = k ∷ keys_of m

-- `restore_batch`; the store answers the batch's distinct keys with a stream, or fails.
unfoldable pub restore_batch :
    (List Key → Result (List Entry)) → Writer → List FileRestoreKey → BatchState → Result BatchState
unfolding group_from push_file restore_stream files_of drop_key write_files keys_of
restore_batch get_bulk write batch s = do
  let m = group_from [] batch
  entries ← get_bulk (keys_of m)
  restore_stream write m entries s
