-- ===== src/Examples/Restore.antt =====
-- Runs of the filter, the main loop and the workers (packages/hurry/src/cargo/cache/restore.rs).
use mathlib.Core.List.{Memᴰ}
use hurry.Prelude.{
  ◌≡◌, ℕ, ◌+◌, ◌==◌, ne_of_eq-false, refl, Bool, true, false, List, [], ◌∷◌, arith, contains,
  insert, remove, get_value, put_value, length, ◌<◌, if◌then◌else◌,
}
use hurry.Cargo.Result.{Result, ok, err, dep_not_found, io_error}
use hurry.Cargo.Units.{UnitPlan, info, src_path}
use hurry.Cargo.Fingerprint.{rewrite}
use hurry.Cargo.Restore.Filter.{filter_units_with_incomplete_deps, filter_unit}
use hurry.Cargo.Restore.Filter.Complete.{InOrder, IsClosed, AreDistinct}
use hurry.Cargo.Restore.Filter.Invariant.{kept, IsBlamed}
use hurry.Cargo.Restore.Filter.Laws.{filter-IsClosed, filter_minimal}
use hurry.Cargo.Restore.Queue.{to_path, dep_info, FileRestoreKey, RestoreState}
use hurry.Cargo.Restore.Queue.Loop.{restore_start, restore_units, skipped, queue_unit}
use hurry.Cargo.Restore.Queue.Pending.{queued-batch}
use hurry.Cargo.Restore.Progress.{add_pending, init_pending}
use hurry.Cargo.Restore.Queue.Laws.{restore_ordered}
use hurry.Cargo.Restore.Queue.Gaps.{restore_aborts}
use hurry.Cargo.Restore.Batch.{
  Writer, restore_worker, restore_batch, BatchState, Entry, failed, object,
}
use hurry.Cargo.Restore.Batch.Files.{expected}
use hurry.Cargo.Restore.Batch.Written.{Wrote, AllSucceed}
use hurry.Cargo.Restore.Batch.Laws.{restore_batch-Wrote}
use hurry.Cargo.Restore.Batch.Errors.{restore_batch-AllSucceed}
use hurry.Clients.Saved.{Key}
use hurry.Cargo.Restore.Batch.Worker.{IsWork, restore_worker-IsWork}
use hurry.Clients.Saved
use hurry.Examples.Data.{a, b, plan, response, env, saved_b}

run : Unit {0}
unfolding filter_units_with_incomplete_deps filter_unit info contains insert remove restore_units
    queue_unit Saved.keys Saved.take Saved.fingerprint skipped add_pending init_pending rewrite
    src_path get_value put_value
run = tt

-- `a` is neither saved nor on disk, so `b` and `c` fall; with `a` on disk nothing does.
filter_tests :
    (filter_units_with_incomplete_deps plan ("b" ∷ "c" ∷ []) [] ≡ ("c" ∷ "b" ∷ [], 2))
    × (filter_units_with_incomplete_deps plan ("b" ∷ "c" ∷ []) ("a" ∷ []) ≡ ([], 0))
unfolding run
filter_tests = (refl, refl)

plan-InOrder : InOrder plan
unfolding run
plan-InOrder = (tt, ((refl, tt), ((refl, tt), tt)))

filter-IsClosed_example :
    IsClosed
      (kept
        ("b" ∷ "c" ∷ "a" ∷ [])
        (filter_units_with_incomplete_deps plan ("b" ∷ "c" ∷ []) ("a" ∷ [])).0)
      plan
filter-IsClosed_example = filter-IsClosed plan ("b" ∷ "c" ∷ []) ("a" ∷ []) plan-InOrder

c_filtered : contains (filter_units_with_incomplete_deps plan ("b" ∷ "c" ∷ []) []).0 "c" ≡ true
unfolding run
c_filtered = refl

filter_minimal_example :
    (contains ("b" ∷ "c" ∷ []) "c" ≡ true)
    × IsBlamed plan
        (kept ("b" ∷ "c" ∷ []) (filter_units_with_incomplete_deps plan ("b" ∷ "c" ∷ []) []).0)
        "c"
filter_minimal_example = filter_minimal plan ("b" ∷ "c" ∷ []) [] "c" c_filtered

abbrev nowhere : UnitPlan → Bool
nowhere unit = false

-- The whole plan is restored from the response.
abbrev or_start : Result RestoreState → RestoreState
or_start (ok s) = s
or_start (err e) = restore_start [] []

abbrev restored : RestoreState
restored = or_start (restore_units (env nowhere) plan response)

all_restored : restore_units (env nowhere) plan response ≡ ok restored
unfolding run
all_restored = refl

abbrev file_a : FileRestoreKey
file_a = record { unit_hash = "a"; key = "k0"; write = to_path "liba.rlib" false; mtime = 0 }

abbrev file_b : FileRestoreKey
file_b = record { unit_hash = "b"; key = "k1"; write = dep_info; mtime = 1 }

files_restored : length restored.files_to_restore ≡ 7
unfolding run
files_restored = refl

plan-AreDistinct : AreDistinct plan
unfolding run
plan-AreDistinct = (refl, (refl, (refl, tt)))

restore_ordered_example : file_a.mtime < file_b.mtime
unfolding run
restore_ordered_example =
    restore_ordered (env nowhere) plan response restored all_restored file_a file_b b plan-InOrder
      plan-AreDistinct (Memᴰ.tail (Memᴰ.head refl)) (Memᴰ.head refl)
      (Memᴰ.tail (Memᴰ.tail (Memᴰ.tail (Memᴰ.head refl)))) refl refl

abbrev only_a : UnitPlan → Bool
only_a unit = (info unit).unit_hash == "a"

restore_aborts_example : restore_units (env only_a) (a ∷ b ∷ []) (saved_b ∷ []) ≡ err dep_not_found
unfolding run
restore_aborts_example =
    restore_aborts (env only_a) (saved_b ∷ []) a b refl refl refl refl (ne_of_eq-false "a" "b" refl)
      refl saved_b.1 _ refl refl (λ e. ground arith) (λ e. cc)

-- The batches of any action on a batch: here, the number of files so far.
abbrev count : List FileRestoreKey → ℕ → Result ℕ
count files n = ok (n + length files)

restore_worker-IsWork_example :
    IsWork count (file_a ∷ file_b ∷ []) (restore_worker count (file_a ∷ file_b ∷ []))
restore_worker-IsWork_example = restore_worker-IsWork count (file_a ∷ file_b ∷ [])

abbrev batch_start : BatchState
batch_start = record {
  restored_files = [];
  pending = ("a", "k0" ∷ []) ∷ ("b", "k1" ∷ "k2" ∷ []) ∷ [];
  written = [];
  files_done = 0;
  bytes_done = 0;
  units_done = 0;
}

-- The store fails for the first key and has the second.
abbrev entries : List Entry
entries = failed ∷ object "k1" (104 ∷ 105 ∷ []) ∷ []

abbrev answers : List Key → Result (List Entry)
answers keys = ok entries

-- The disk fails for the files of the first unit.
abbrev write : Writer
write file content = if file.unit_hash == "a" then err io_error else ok tt

restore_batch-Wrote_example :
    Wrote
      (restore_batch answers write (file_a ∷ file_b ∷ []) batch_start)
      batch_start
      (expected (file_a ∷ file_b ∷ []) entries)
unfolding run contains
restore_batch-Wrote_example =
    restore_batch-Wrote answers write (file_a ∷ file_b ∷ []) entries batch_start (refl, (refl, tt))
      refl ((λ e. cc), refl, tt) (refl, tt)

abbrev ended : Result BatchState → BatchState
ended (ok s) = s
ended (err e) = batch_start

batch_ends :
    restore_batch answers write (file_a ∷ file_b ∷ []) batch_start
    ≡ ok (ended (restore_batch answers write (file_a ∷ file_b ∷ []) batch_start))
unfolding run restore_batch
batch_ends = refl

restore_batch-AllSucceed_example : AllSucceed write (expected (file_a ∷ file_b ∷ []) entries)
unfolding run
restore_batch-AllSucceed_example =
    restore_batch-AllSucceed answers write (file_a ∷ file_b ∷ []) entries batch_start
      (ended (restore_batch answers write (file_a ∷ file_b ∷ []) batch_start)) refl
      ((λ e. cc), refl, tt) batch_ends

abbrev after_queue : BatchState
after_queue = record batch_start { pending = restored.pending }

queued-batch_example :
    Wrote
      (restore_batch answers write (file_a ∷ file_b ∷ []) after_queue)
      after_queue
      (expected (file_a ∷ file_b ∷ []) entries)
unfolding run
queued-batch_example =
    queued-batch (env nowhere) plan response restored all_restored answers write
      (file_a ∷ file_b ∷ []) entries after_queue refl
      (Memᴰ.head refl, (Memᴰ.tail (Memᴰ.tail (Memᴰ.tail (Memᴰ.head refl))), tt)) refl
      ((λ e. cc), refl, tt) (refl, tt)

-- A unit whose last two files have one key is counted as restored twice.
abbrev twice : List Key → Result (List Entry)
twice keys = ok (object "k0" [] ∷ [])

abbrev units_of : Result BatchState → ℕ
units_of (ok s) = s.units_done
units_of (err e) = 0

counted_twice :
    units_of (restore_batch twice (λ file content. ok tt) (file_a ∷ file_a ∷ []) batch_start) ≡ 2
unfolding run restore_batch
counted_twice = refl

-- A write that fails, and a fetch that fails, end the batch.
batch_fails :
    (restore_batch (λ keys. ok (object "k0" [] ∷ [])) write (file_a ∷ []) batch_start
      ≡ err io_error)
    × (restore_batch (λ keys. err io_error) write (file_a ∷ []) batch_start ≡ err io_error)
unfolding run restore_batch
batch_fails = (refl, refl)
