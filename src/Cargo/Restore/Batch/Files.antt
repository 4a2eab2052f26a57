-- ===== src/Cargo/Restore/Batch/Files.antt =====
-- What `restore_batch` (packages/hurry/src/cargo/cache/restore.rs) writes.
use hurry.Prelude.{
  false, Option, none, some, List, [], ◌∷◌, ◌++◌, ◌≡◌, refl, sym, ap, ◌∙◌, arith, append_assoc,
  append-nil, inl, inr, ◌==◌, eq_iff, if◌then◌else◌, Bool-cases,
}
use hurry.Cargo.Restore.Queue.{FileRestoreKey}
use hurry.Cargo.Restore.Batch.{
  Bytes, KeyToFiles, push_file, group_from, files_of, drop_key, Entry, object, failed,
}
use hurry.Clients.Saved.{Key}

-- The files of a batch with a key, in the batch's order.
abbrev pub with_key : Key → List FileRestoreKey → List FileRestoreKey
with_key key [] = []
with_key key (file ∷ files) =
    let rest = with_key key files in if file.key == key then file ∷ rest else rest

-- Each of the files with the content.
abbrev pub with_content : Bytes → List FileRestoreKey → List (FileRestoreKey × Bytes)
with_content content [] = []
with_content content (file ∷ files) = (file, content) ∷ with_content content files

-- What a stream should write: for each object, all files of the batch with its key.
abbrev pub expected : List FileRestoreKey → List Entry → List (FileRestoreKey × Bytes)
expected batch [] = []
expected batch (failed ∷ entries) = expected batch entries
expected batch (object key content ∷ entries) =
    with_content content (with_key key batch) ++ expected batch entries

abbrev pub or_empty : Option (List FileRestoreKey) → List FileRestoreKey
or_empty none = []
or_empty (some files) = files

files_of-push_file :
    (file : FileRestoreKey) (m : KeyToFiles) (key : Key)
    → files_of (push_file file m) key
      ≡ (if file.key == key then some (or_empty (files_of m key) ++ file ∷ []) else files_of m key)
unfolding files_of push_file
files_of-push_file file [] key = refl
files_of-push_file file ((k, files) ∷ m) key =
    ground
      (arith, files_of-push_file file m key, eq_iff k file.key, eq_iff k key, eq_iff file.key key)

or_empty-push_file :
    (file : FileRestoreKey) (m : KeyToFiles) (key : Key)
    → or_empty (files_of (push_file file m) key)
      ≡ or_empty (files_of m key) ++ with_key key (file ∷ [])
or_empty-push_file file m key = elim (Bool-cases (file.key == key)) [
  | inl same ↦ ap or_empty (files_of-push_file file m key) ∙ rw same
  | inr other ↦ ap or_empty (files_of-push_file file m key) ∙ rw other (sym (append-nil _))
]

pub files_of-group_from :
    (m : KeyToFiles) (batch : List FileRestoreKey) (key : Key)
    → or_empty (files_of (group_from m batch) key) ≡ or_empty (files_of m key) ++ with_key key batch
unfolding group_from
files_of-group_from m [] key = sym (append-nil _)
files_of-group_from m (file ∷ batch) key =
    files_of-group_from (push_file file m) batch key
    ∙ ap (λ l. l ++ with_key key batch) (or_empty-push_file file m key)
    ∙ append_assoc (or_empty (files_of m key)) (with_key key (file ∷ [])) (with_key key batch)
    ∙ ap (λ l. or_empty (files_of m key) ++ l) (ground arith)

pub files_of-drop_key :
    (m : KeyToFiles) (dropped key : Key)
    → (dropped == key) ≡ false
    → files_of (drop_key m dropped) key ≡ files_of m key
unfolding files_of drop_key
files_of-drop_key [] dropped key h = refl
files_of-drop_key ((k, files) ∷ m) dropped key h =
    ground (arith, files_of-drop_key m dropped key h, eq_iff k dropped, eq_iff k key)
