-- ===== src/Cargo/Restore/Batch/Errors.antt =====
-- No failed write is passed over by `restore_batch` (packages/hurry/src/cargo/cache/restore.rs).
use hurry.Prelude.{List, [], ◌∷◌, ◌++◌, ◌≡◌, arith, eq_refl, contains}
use hurry.Cargo.Result.{Result, ok, >>=-eq-ok}
use hurry.Cargo.Restore.Queue.{FileRestoreKey}
use hurry.Cargo.Restore.Batch.{
  Bytes, BatchState, Writer, KeyToFiles, group_from, drop_key, write_file, write_files, Entry,
  object, failed, restore_stream, restore_batch, keys_of,
}
use hurry.Cargo.Restore.Batch.Files.{with_key, with_content, expected}
use hurry.Cargo.Restore.Batch.Written.{AllSucceed}
use hurry.Cargo.Restore.Batch.Laws.{IsAnswer, Holds, Holds-next, Holds-group_from}
use hurry.Clients.Saved.{Key}

AllSucceed-both :
    (write : Writer) (xs ys : List (FileRestoreKey × Bytes))
    → AllSucceed write xs
    → AllSucceed write ys
    → AllSucceed write (xs ++ ys)
AllSucceed-both write [] ys h k = k
AllSucceed-both write ((file, content) ∷ xs) ys (now, h) k = (now, AllSucceed-both write xs ys h k)

write_file-succeeds :
    (write : Writer) (key : Key) (content : Bytes) (file : FileRestoreKey) (s end : BatchState)
    → write_file write key content file s ≡ ok end
    → write file content ≡ ok tt
unfolding write_file
write_file-succeeds write key content file s end e = (>>=-eq-ok (write file content) _ e).1

write_files-AllSucceed :
    (write : Writer) (key : Key) (content : Bytes) (files : List FileRestoreKey)
    (s end : BatchState)
    → write_files write key content files s ≡ ok end
    → AllSucceed write (with_content content files)
unfolding write_files
write_files-AllSucceed write key content [] s end e = tt
write_files-AllSucceed write key content (file ∷ files) s end e =
    let (next, now, later) = >>=-eq-ok (write_file write key content file s) _ e in
    (
      write_file-succeeds write key content file s next now,
      write_files-AllSucceed write key content files next end later,
    )

restore_stream-AllSucceed :
    (write : Writer) (m : KeyToFiles) (batch : List FileRestoreKey) (entries : List Entry)
    (s end : BatchState)
    → IsAnswer batch entries
    → Holds m batch entries
    → restore_stream write m entries s ≡ ok end
    → AllSucceed write (expected batch entries)
unfolding restore_stream contains
restore_stream-AllSucceed write m batch [] s end answer holds e = tt
restore_stream-AllSucceed write m batch (failed ∷ entries) s end answer holds e =
    restore_stream-AllSucceed write m batch entries s end answer holds e
restore_stream-AllSucceed write m batch (object key content ∷ entries) s end (_, fresh, answer)
      holds e =
    let files = with_key key batch in
    let e' = rw (holds key (ground (arith, eq_refl key)), restore_stream) at e in
    let (next, now, later) = >>=-eq-ok (write_files write key content files s) _ e' in
    AllSucceed-both write (with_content content files) (expected batch entries)
      (write_files-AllSucceed write key content files s next now)
      (restore_stream-AllSucceed write (drop_key m key) batch entries next end answer
        (Holds-next m batch key content entries fresh holds) later)

-- No failed write is passed over: if the store answers a batch with objects of the batch's keys, none
-- of them twice, among any failures, and the batch ends without an error, then every write of such an
-- object to a file of the batch with its key has succeeded.
pub restore_batch-AllSucceed :
    (get_bulk : List Key → Result (List Entry)) (write : Writer) (batch : List FileRestoreKey)
    (entries : List Entry) (s end : BatchState)
    → get_bulk (keys_of (group_from [] batch)) ≡ ok entries
    → IsAnswer batch entries
    → restore_batch get_bulk write batch s ≡ ok end
    → AllSucceed write (expected batch entries)
unfolding restore_batch
restore_batch-AllSucceed get_bulk write batch entries s end answered answer e =
    let e' = rw answered at e in
    restore_stream-AllSucceed write (group_from [] batch) batch entries s end answer
      (Holds-group_from batch entries answer) e'
