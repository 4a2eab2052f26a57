-- ===== src/Cargo/Restore/Queue/Pending.antt =====
-- The files that `restore_units` (packages/hurry/src/cargo/cache/restore.rs) queues are ready for the
-- workers: the progress of their units is initialized.
use mathlib.Core.List.{Memᴰ}
use hurry.Prelude.{ℕ, true, List, [], ◌∷◌, ◌++◌, ◌≡◌, ap, ◌∙◌, subst, arith, All, eq_refl}
use hurry.Cargo.Result.{Result, ok, OnOk}
use hurry.Cargo.Units.{UnitHash, UnitPlan}
use hurry.Cargo.Restore.Filter.Complete.{hashes}
use hurry.Cargo.Restore.Progress.{
  RestoreProgress, init_pending, is_initialized, init_pending-initialized, add_pending-initialized,
}
use hurry.Cargo.Restore.Queue.{FileRestoreKey, Write, Env, RestoreState, queued}
use hurry.Cargo.Restore.Queue.Files.{queue_file}
use hurry.Cargo.Restore.Queue.Loop.{restore_units}
use hurry.Cargo.Restore.Queue.Keeps.{Keeps, queue_units-keeps}
use hurry.Cargo.Restore.Batch.{BatchState, Writer, Entry, keys_of, group_from, restore_batch}
use hurry.Cargo.Restore.Batch.Files.{expected}
use hurry.Cargo.Restore.Batch.Written.{Wrote, AllSucceed, AreInitialized, AreInitialized-later}
use hurry.Cargo.Restore.Batch.Laws.{IsAnswer, restore_batch-Wrote}
use hurry.Clients.Saved.{Key, CargoRestoreResponse}

abbrev IsReady : RestoreState → Type 0
IsReady s = AreInitialized s.pending s.files_to_restore

AreInitialized-append :
    (p : RestoreProgress) (xs ys : List FileRestoreKey)
    → AreInitialized p xs
    → AreInitialized p ys
    → AreInitialized p (xs ++ ys)
AreInitialized-append p [] ys h k = k
AreInitialized-append p (x ∷ xs) ys h k = (h.0, AreInitialized-append p xs ys h.1 k)

AreInitialized-more :
    (p q : RestoreProgress) (files : List FileRestoreKey)
    → ((h : UnitHash) → is_initialized p h ≡ true → is_initialized q h ≡ true)
    → AreInitialized p files
    → AreInitialized q files
AreInitialized-more p q [] more h = tt
AreInitialized-more p q (file ∷ files) more h =
    (more file.unit_hash h.0, AreInitialized-more p q files more h.1)

queue_file-IsReady :
    (h : UnitHash) (mtime : ℕ) (key : Key) (write : Write) (s : RestoreState)
    → IsReady s × (is_initialized s.pending h ≡ true)
    → OnOk
        (λ s'. IsReady s' × (is_initialized s'.pending h ≡ true))
        (queue_file h mtime key write s)
unfolding queue_file
queue_file-IsReady h mtime key write s (ready, here) =
    let (p, e, same) = add_pending-initialized h key s.pending here in
    rw e (
      AreInitialized-append p s.files_to_restore (queued h mtime key write ∷ [])
          (AreInitialized-later s.pending p s.files_to_restore same ready) (same h ∙ here, tt),
      same h ∙ here,
    )

IsReady-Keeps : (hs : List UnitHash) → Keeps hs IsReady (λ h s. is_initialized s.pending h ≡ true)
IsReady-Keeps hs = record {
  file = λ h mtime key write s at t. queue_file-IsReady h mtime key write s t;
  rest = λ s saved_units restored deps t. t;
  init = λ h s t. (
    AreInitialized-more s.pending (init_pending h s.pending) s.files_to_restore
        (λ j e. ground (arith, init_pending-initialized h j s.pending)) t,
    ground (arith, init_pending-initialized h h s.pending, eq_refl h),
  );
  touch = λ h mtime s at t. t;
  write = λ h s f t. t;
  create = λ h s t. t;
  output = λ h mtime s at t. t;
}

module _ (env : Env) (units : List UnitPlan) (saved_units : CargoRestoreResponse) (s : RestoreState)
    (runs : restore_units env units saved_units ≡ ok s) where
  restore_units-IsReady : IsReady s
  unfolding restore_units
  restore_units-IsReady =
      subst (OnOk IsReady) runs
        (queue_units-keeps env (IsReady-Keeps (hashes units)) _ _ 0 units _ (λ j. ground arith) tt)

  members :
      (p : RestoreProgress) (files batch : List FileRestoreKey)
      → AreInitialized p files
      → All (λ q. Memᴰ q files) batch
      → AreInitialized p batch
  members p files [] h k = tt
  members p files (q ∷ batch) h k = (member files h k.0, members p files batch h k.1)
    where
      member :
          (l : List FileRestoreKey)
          → AreInitialized p l
          → Memᴰ q l
          → is_initialized p q.unit_hash ≡ true
      member [] g m = elim m [ ]
      member (x ∷ l) g (Memᴰ.head e) = ap (λ f. is_initialized p f.unit_hash) e ∙ g.0
      member (x ∷ l) g (Memᴰ.tail m) = member l g.1 m

  -- The loop and the workers fit together: after a restore's loop has run, any batch of the files
  -- that it queued succeeds on the progress that it left, if the store answers with objects of the
  -- batch's keys, none of them twice, among any failures, and the writes of these objects succeed;
  -- each object is then written to every file of the batch with its key.
  pub queued-batch :
      (get_bulk : List Key → Result (List Entry)) (write : Writer) (batch : List FileRestoreKey)
      (entries : List Entry) (start : BatchState)
      → start.pending ≡ s.pending
      → All (λ q. Memᴰ q s.files_to_restore) batch
      → get_bulk (keys_of (group_from [] batch)) ≡ ok entries
      → IsAnswer batch entries
      → AllSucceed write (expected batch entries)
      → Wrote (restore_batch get_bulk write batch start) start (expected batch entries)
  queued-batch get_bulk write batch entries start same of_queue answered answer succeed =
      restore_batch-Wrote get_bulk write batch entries start
        (rw same (members s.pending s.files_to_restore batch restore_units-IsReady of_queue))
        answered answer succeed
