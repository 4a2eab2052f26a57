-- ===== src/Cargo/Restore/Filter/Laws.antt =====
-- The contract of `filter_units_with_incomplete_deps`
-- (packages/hurry/src/cargo/cache/restore.rs).
use mathlib.Core.Path.{fun_ext}
use hurry.Prelude.{true, List, ◌++◌, ◌≡◌, refl, subst, arith, length, contains}
use hurry.Cargo.Units.{UnitHash, UnitPlan}
use hurry.Cargo.Restore.Filter.{
  filter_loop, filter_start, FilterState, filter_units_with_incomplete_deps,
}
use hurry.Cargo.Restore.Filter.Complete.{InOrder, IsClosed, filter_loop-IsClosed}
use hurry.Cargo.Restore.Filter.Invariant.{
  kept, IsTracked, filter_loop-IsTracked, IsBlamed, filter_loop-IsBlamed,
}

module _ (units : List UnitPlan) (saved_units units_to_skip : List UnitHash) where
  abbrev start : List UnitHash
  start = saved_units ++ units_to_skip

  abbrev final : FilterState
  final = filter_loop (filter_start saved_units units_to_skip) units

  final-IsTracked : IsTracked start final
  unfolding filter_start contains
  final-IsTracked =
      filter_loop-IsTracked start (filter_start saved_units units_to_skip) units
        (record { tracks = λ h. ground arith; within = λ h. ground arith; counts = refl })

  -- Whatever the plan, the returned count is the number of filtered hashes.
  pub filter-count :
      (filter_units_with_incomplete_deps units saved_units units_to_skip).1
      ≡ length (filter_units_with_incomplete_deps units saved_units units_to_skip).0
  unfolding filter_units_with_incomplete_deps
  filter-count = final-IsTracked.counts

  -- The filter keeps no unit with a dependency that it does not keep: in a plan in dependency order,
  -- each unit that was in the response or on disk and is not filtered has only such dependencies.
  pub filter-IsClosed :
      InOrder units
      → IsClosed
          (kept start (filter_units_with_incomplete_deps units saved_units units_to_skip).0)
          units
  unfolding filter_units_with_incomplete_deps
  filter-IsClosed o =
      subst (λ is_kept. IsClosed is_kept units) (fun_ext final-IsTracked.tracks)
        (filter_loop-IsClosed (filter_start saved_units units_to_skip) units o)

  -- The filter drops nothing without a reason: whatever the plan, a filtered hash was in the response
  -- or on disk, and is the hash of a unit with a dependency that is not kept.
  pub filter_minimal :
      (h : UnitHash)
      → contains (filter_units_with_incomplete_deps units saved_units units_to_skip).0 h ≡ true
      → (contains start h ≡ true)
        × IsBlamed units
            (kept start (filter_units_with_incomplete_deps units saved_units units_to_skip).0)
            h
  unfolding filter_units_with_incomplete_deps filter_start contains
  filter_minimal h e = (
    final-IsTracked.within h e,
    subst (λ is_kept. IsBlamed units is_kept h) (fun_ext final-IsTracked.tracks)
        (filter_loop-IsBlamed (filter_start saved_units units_to_skip) units h refl e),
  )
