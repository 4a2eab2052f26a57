-- ===== src/Cargo/Restore/Batch/Worker.antt =====
-- The batches of a restore worker (packages/hurry/src/cargo/cache/restore.rs).
use hurry.Prelude.{
  ◌≤◌, ◌<◌, true, false, List, [], ◌∷◌, ◌++◌, ◌≡◌, refl, ap, ◌∙◌, arith, length, length-append,
  append_assoc, ltb, Bool-cases, inl, inr,
}
use hurry.Cargo.Result.{Result, ok, err, ◌>>=◌}
use hurry.Cargo.Restore.Queue.{FileRestoreKey}
use hurry.Cargo.Restore.Batch.{batch_size, worker_loop, restore_worker}

abbrev pub concat : List (List FileRestoreKey) → List FileRestoreKey
concat [] = []
concat (b ∷ bs) = b ++ concat bs

-- Batches: all but the last are full, and the last is not empty.
abbrev pub AreBatches : List (List FileRestoreKey) → Type 0
AreBatches [] = Unit
AreBatches (b ∷ []) = (0 < length b) × (length b ≤ batch_size)
AreBatches (b ∷ bs) = (length b ≡ batch_size) × AreBatches bs

module _ {S : Type 0} (restore : List FileRestoreKey → S → Result S) where
  -- The batches restored one after the other, up to the first error.
  abbrev pub in_turn : List (List FileRestoreKey) → S → Result S
  in_turn [] s = ok s
  in_turn (b ∷ bs) s = restore b s >>= λ s'. in_turn bs s'

  in_turn_one : (m : Result S) → m ≡ (m >>= λ s. ok s)
  in_turn_one (ok s) = refl
  in_turn_one (err e) = refl

  AreBatches-cons :
      (b : List FileRestoreKey) (bs : List (List FileRestoreKey))
      → length b ≡ batch_size
      → AreBatches bs
      → AreBatches (b ∷ bs)
  AreBatches-cons b [] full h = omega arith
  AreBatches-cons b (c ∷ bs) full h = (full, h)

  -- A list of batches that the worker restores in turn.
  pub record IsWork (files : List FileRestoreKey) (run : S → Result S) : Type 0 where
    pub batches : List (List FileRestoreKey)
    pub sizes : AreBatches batches
    pub contents : concat batches ≡ files
    pub runs : (s : S) → run s ≡ in_turn batches s

  short_step :
      (batch files : List FileRestoreKey) (file : FileRestoreKey) (s : S)
      → ltb (length (batch ++ file ∷ [])) batch_size ≡ true
      → worker_loop restore batch (file ∷ files) s
        ≡ worker_loop restore (batch ++ file ∷ []) files s
  unfolding worker_loop
  short_step batch files file s h = rw (h, worker_loop)

  full_step :
      (batch files : List FileRestoreKey) (file : FileRestoreKey) (s : S)
      → ltb (length (batch ++ file ∷ [])) batch_size ≡ false
      → worker_loop restore batch (file ∷ files) s
        ≡ (restore (batch ++ file ∷ []) s >>= λ s'. worker_loop restore [] files s')
  unfolding worker_loop
  full_step batch files file s h = rw (h, worker_loop)

  worker_loop-IsWork :
      (batch files : List FileRestoreKey)
      → length batch < batch_size
      → IsWork (batch ++ files) (worker_loop restore batch files)
  unfolding worker_loop
  worker_loop-IsWork [] [] h = record {
    batches = [];
    sizes = tt;
    contents = refl;
    runs = λ s. refl;
  }
  worker_loop-IsWork (x ∷ batch) [] h = record {
    batches = (x ∷ batch) ∷ [];
    sizes = omega arith;
    contents = refl;
    runs = λ s. in_turn_one (restore (x ∷ batch) s);
  }
  worker_loop-IsWork batch (file ∷ files) h =
      elim (Bool-cases (ltb (length (batch ++ file ∷ [])) batch_size)) [
        | inl short ↦
            let w = worker_loop-IsWork (batch ++ file ∷ []) files (ground arith) in
            record {
              batches = w.batches;
              sizes = w.sizes;
              contents = w.contents ∙ append_assoc batch (file ∷ []) files;
              runs = λ s. short_step batch files file s short ∙ w.runs s;
            }
        | inr full ↦
            let w = worker_loop-IsWork [] files (omega arith) in
            let b = batch ++ file ∷ [] in
            record {
              batches = b ∷ w.batches;
              sizes =
                  AreBatches-cons b w.batches (ground (arith, length-append batch (file ∷ [])))
                    w.sizes;
              contents = ap (λ l. b ++ l) w.contents ∙ append_assoc batch (file ∷ []) files;
              runs =
                  λ s. full_step batch files file s full ∙ (λ i. restore b s >>= λ s'. w.runs s' i);
            }
      ]

  -- Whatever the files and the action on a batch: the worker restores the files it receives, each
  -- once and in order, in batches of fifty, of which only the last may be smaller, and stops at the
  -- first error.
  pub restore_worker-IsWork :
      (files : List FileRestoreKey) → IsWork files (restore_worker restore files)
  unfolding restore_worker
  restore_worker-IsWork files = worker_loop-IsWork [] files (omega arith)
