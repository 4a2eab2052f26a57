-- ===== src/Cargo/Restore/Batch/Written.antt =====
-- The files of one object that `restore_batch` (packages/hurry/src/cargo/cache/restore.rs) writes.
use hurry.Prelude.{
  true, List, [], ◌∷◌, ◌++◌, ◌≡◌, refl, sym, ap, ◌∙◌, append_assoc, append-nil, inl, inr, ◌==◌,
  Bool-cases,
}
use hurry.Cargo.Units.{UnitHash}
use hurry.Cargo.Result.{Result, ok, ◌>>=◌}
use hurry.Cargo.Restore.Progress.{RestoreProgress, is_initialized, drop_pending-initialized}
use hurry.Cargo.Restore.Queue.{FileRestoreKey}
use hurry.Cargo.Restore.Batch.{Bytes, BatchState, Writer, file_written, write_file, write_files}
use hurry.Cargo.Restore.Batch.Files.{with_key, with_content}
use hurry.Clients.Saved.{Key}

-- The progress of each file's unit is initialized.
abbrev pub AreInitialized : RestoreProgress → List FileRestoreKey → Type 0
AreInitialized pending [] = Unit
AreInitialized pending (file ∷ files) =
    (is_initialized pending file.unit_hash ≡ true) × AreInitialized pending files

-- A run that succeeds, and adds to what was written.
pub record Wrote (m : Result BatchState) (s : BatchState) (added : List (FileRestoreKey × Bytes))
    : Type 0 where
  pub end : BatchState
  pub runs : m ≡ ok end
  pub written : end.written ≡ s.written ++ added
  pub initialized : (h : UnitHash) → is_initialized end.pending h ≡ is_initialized s.pending h

-- Every one of the writes succeeds.
abbrev pub AllSucceed : Writer → List (FileRestoreKey × Bytes) → Type 0
AllSucceed write [] = Unit
AllSucceed write ((file, content) ∷ rest) = (write file content ≡ ok tt) × AllSucceed write rest

pub AllSucceed-append :
    (write : Writer) (xs ys : List (FileRestoreKey × Bytes))
    → AllSucceed write (xs ++ ys)
    → AllSucceed write xs × AllSucceed write ys
AllSucceed-append write [] ys h = (tt, h)
AllSucceed-append write ((file, content) ∷ xs) ys (now, h) =
    let (first, rest) = AllSucceed-append write xs ys h in ((now, first), rest)

write_file-Wrote :
    (write : Writer) (key : Key) (content : Bytes) (file : FileRestoreKey) (s : BatchState)
    → is_initialized s.pending file.unit_hash ≡ true
    → write file content ≡ ok tt
    → Wrote (write_file write key content file s) s ((file, content) ∷ [])
unfolding write_file file_written
write_file-Wrote write key content file s h succeeds =
    let r = drop_pending-initialized file.unit_hash key s.pending h in
    record {
      end = file_written content file s r.0;
      runs = rw succeeds (ap (λ m. m >>= λ p. ok (file_written content file s p)) r.1);
      written = refl;
      initialized = r.2;
    }

-- Two runs in a row.
pub Wrote-bind :
    (m : Result BatchState) (f : BatchState → Result BatchState) (s : BatchState)
    (added more : List (FileRestoreKey × Bytes)) (w : Wrote m s added)
    → Wrote (f w.end) w.end more
    → Wrote (m >>= f) s (added ++ more)
Wrote-bind m f s added more w v = record {
  end = v.end;
  runs = ap (λ m. m >>= f) w.runs ∙ v.runs;
  written = v.written ∙ ap (λ l. l ++ more) w.written ∙ append_assoc s.written added more;
  initialized = λ h. v.initialized h ∙ w.initialized h;
}

pub AreInitialized-later :
    (p q : RestoreProgress) (files : List FileRestoreKey)
    → ((h : UnitHash) → is_initialized q h ≡ is_initialized p h)
    → AreInitialized p files
    → AreInitialized q files
AreInitialized-later p q [] e h = tt
AreInitialized-later p q (file ∷ files) e h =
    (e file.unit_hash ∙ h.0, AreInitialized-later p q files e h.1)

pub AreInitialized-with_key :
    (p : RestoreProgress) (key : Key) (files : List FileRestoreKey)
    → AreInitialized p files
    → AreInitialized p (with_key key files)
AreInitialized-with_key p key [] h = tt
AreInitialized-with_key p key (file ∷ files) h = elim (Bool-cases (file.key == key)) [
  | inl same ↦ rw same (h.0, AreInitialized-with_key p key files h.1)
  | inr other ↦ rw other (AreInitialized-with_key p key files h.1)
]

pub write_files-Wrote :
    (write : Writer) (key : Key) (content : Bytes) (files : List FileRestoreKey) (s : BatchState)
    → AreInitialized s.pending files
    → AllSucceed write (with_content content files)
    → Wrote (write_files write key content files s) s (with_content content files)
unfolding write_files
write_files-Wrote write key content [] s h succeed = record {
  end = s;
  runs = refl;
  written = sym (append-nil _);
  initialized = λ h. refl;
}
write_files-Wrote write key content (file ∷ files) s h (now, later) =
    let w = write_file-Wrote write key content file s h.0 now in
    Wrote-bind (write_file write key content file s) (write_files write key content files) s
      ((file, content) ∷ []) (with_content content files) w
      (write_files-Wrote write key content files w.end
        (AreInitialized-later s.pending w.end.pending files w.initialized h.1) later)
