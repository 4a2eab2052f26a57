-- ===== src/Cargo/Restore/Batch/Laws.antt =====
-- When `restore_batch` (packages/hurry/src/cargo/cache/restore.rs) succeeds, and what it has written
-- then.
use hurry.Prelude.{
  true, false, Option, none, some, List, [], ◌∷◌, ◌≡◌, ◌≢◌, refl, sym, ap, ◌∙◌, arith, append-nil,
  inl, inr, ◌==◌, eq_iff, eq_refl, contains, Bool-cases,
}
use hurry.Cargo.Result.{Result, ok}
use hurry.Cargo.Restore.Queue.{FileRestoreKey}
use hurry.Cargo.Restore.Batch.{
  Bytes, BatchState, Writer, KeyToFiles, group_from, files_of, drop_key, write_files, Entry, object,
  failed, restore_stream, restore_batch, keys_of,
}
use hurry.Cargo.Restore.Batch.Files.{
  with_key, with_content, expected, or_empty, files_of-group_from, files_of-drop_key,
}
use hurry.Clients.Saved.{Key}
use hurry.Cargo.Restore.Batch.Written.{
  AreInitialized, AllSucceed, AllSucceed-append, Wrote, Wrote-bind, AreInitialized-later,
  AreInitialized-with_key, write_files-Wrote,
}

-- The keys of the objects of a stream.
abbrev pub objects : List Entry → List Key
objects [] = []
objects (failed ∷ entries) = objects entries
objects (object key content ∷ entries) = key ∷ objects entries

-- An answer for a batch: objects of keys of the batch, none twice, among any failures.
abbrev pub IsAnswer : List FileRestoreKey → List Entry → Type 0
IsAnswer batch [] = Unit
IsAnswer batch (failed ∷ entries) = IsAnswer batch entries
IsAnswer batch (object key content ∷ entries) =
    (with_key key batch ≢ []) × (contains (objects entries) key ≡ false) × IsAnswer batch entries

-- What the map still holds for the objects to come.
abbrev pub Holds : KeyToFiles → List FileRestoreKey → List Entry → Type 0
Holds m batch entries =
    (key : Key) → contains (objects entries) key ≡ true → files_of m key ≡ some (with_key key batch)

pub Holds-next :
    (m : KeyToFiles) (batch : List FileRestoreKey) (key : Key) (content : Bytes)
    (entries : List Entry)
    → contains (objects entries) key ≡ false
    → Holds m batch (object key content ∷ entries)
    → Holds (drop_key m key) batch entries
unfolding contains
Holds-next m batch key content entries fresh holds other h =
    files_of-drop_key m key other (ground (arith, eq_iff key other)) ∙ holds other (ground arith)

restore_stream-Wrote :
    (write : Writer) (m : KeyToFiles) (batch : List FileRestoreKey) (entries : List Entry)
    (s : BatchState)
    → AreInitialized s.pending batch
    → IsAnswer batch entries
    → Holds m batch entries
    → AllSucceed write (expected batch entries)
    → Wrote (restore_stream write m entries s) s (expected batch entries)
unfolding restore_stream contains
restore_stream-Wrote write m batch [] s init answer holds succeed = record {
  end = s;
  runs = refl;
  written = sym (append-nil _);
  initialized = λ h. refl;
}
restore_stream-Wrote write m batch (failed ∷ entries) s init answer holds succeed =
    restore_stream-Wrote write m batch entries s init answer holds succeed
restore_stream-Wrote write m batch (object key content ∷ entries) s init (member, fresh, answer)
      holds succeed =
    let files = with_key key batch in
    let (now, later) =
      AllSucceed-append write (with_content content files) (expected batch entries) succeed in
    let w =
      write_files-Wrote write key content files s (AreInitialized-with_key s.pending key batch init)
        now in
    rw (holds key (ground (arith, eq_refl key)), restore_stream)
      (Wrote-bind (write_files write key content files s)
        (restore_stream write (drop_key m key) entries) s (with_content content files)
        (expected batch entries) w
        (restore_stream-Wrote write (drop_key m key) batch entries w.end
          (AreInitialized-later s.pending w.end.pending batch w.initialized init) answer
          (Holds-next m batch key content entries fresh holds) later))

some-or_empty :
    (o : Option (List FileRestoreKey)) (files : List FileRestoreKey)
    → files ≢ []
    → or_empty o ≡ files
    → o ≡ some files
some-or_empty none files h e = absurd (h (sym e))
some-or_empty (some l) files h e = ap some e

eq_path : (a b : Key) → (a == b) ≡ true → a ≡ b
eq_path a b h = ground (arith, eq_iff a b)

IsAnswer-member :
    (batch : List FileRestoreKey) (entries : List Entry) (key : Key)
    → IsAnswer batch entries
    → contains (objects entries) key ≡ true
    → with_key key batch ≢ []
unfolding contains
IsAnswer-member batch [] key answer h = ground arith
IsAnswer-member batch (failed ∷ entries) key answer h = IsAnswer-member batch entries key answer h
IsAnswer-member batch (object k content ∷ entries) key (member, _, answer) h =
    elim (Bool-cases (k == key)) [
      | inl same ↦ λ e. member (ap (λ k. with_key k batch) (eq_path k key same) ∙ e)
      | inr other ↦ IsAnswer-member batch entries key answer (sym (rw other) ∙ h)
    ]

-- At first the map holds the batch's files by their keys.
pub Holds-group_from :
    (batch : List FileRestoreKey) (entries : List Entry)
    → IsAnswer batch entries
    → Holds (group_from [] batch) batch entries
unfolding files_of
Holds-group_from batch entries answer key h =
    some-or_empty (files_of (group_from [] batch) key) (with_key key batch)
      (IsAnswer-member batch entries key answer h) (files_of-group_from [] batch key)

-- If the store answers a batch with objects of the batch's keys, none of them twice, among any
-- failures, every write of such an object to a file of the batch with its key succeeds, and the
-- progress of the batch's units is initialized, then the batch succeeds: it has written, for each object in the stream's order, its content to every file of the batch with its
-- key, and nothing for the failures. No progress entry is added or lost.
pub restore_batch-Wrote :
    (get_bulk : List Key → Result (List Entry)) (write : Writer) (batch : List FileRestoreKey)
    (entries : List Entry) (s : BatchState)
    → AreInitialized s.pending batch
    → get_bulk (keys_of (group_from [] batch)) ≡ ok entries
    → IsAnswer batch entries
    → AllSucceed write (expected batch entries)
    → Wrote (restore_batch get_bulk write batch s) s (expected batch entries)
unfolding restore_batch
restore_batch-Wrote get_bulk write batch entries s init answered answer succeed =
    let m = group_from [] batch in
    rw answered (
      restore_stream-Wrote write m batch entries s init answer
        (Holds-group_from batch entries answer) succeed)
