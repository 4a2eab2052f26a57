-- ===== src/Cargo/Restore/Progress.antt =====
-- Which files of each unit are still to be restored: `RestoreProgress` of
-- packages/hurry/src/cargo/cache/restore.rs.
use hurry.Prelude.{
  Bool, true, false, ◌||◌, List, [], ◌∷◌, ◌≡◌, refl, sym, ap, ◌∙◌, arith, ◌==◌, eq_iff, insert,
  remove, if◌then◌else◌, Bool-cases, inl, inr,
}
use hurry.Cargo.Result.{Result, ok, err, not_initialized, ◌>>=◌}
use hurry.Cargo.Units.{UnitHash}
use hurry.Clients.Saved.{Key}

-- `RestoreProgress::units`
abbrev pub RestoreProgress : Type 0
RestoreProgress = List (UnitHash × List Key)

-- `units.insert(h, DashSet::new())`
unfoldable pub init_pending : UnitHash → RestoreProgress → RestoreProgress
init_pending h [] = (h, []) ∷ []
init_pending h ((u, keys) ∷ m) =
    let rest = init_pending h m in if u == h then (u, []) ∷ m else (u, keys) ∷ rest

-- `units.get_mut(h).ok_or_eyre(…)?.insert(key)`
unfoldable pub add_pending : UnitHash → Key → RestoreProgress → Result RestoreProgress
add_pending h key [] = err not_initialized
add_pending h key ((u, keys) ∷ m) =
    let rest = add_pending h key m in
    if u == h then ok ((u, insert key keys) ∷ m) else rest >>= λ m'. ok ((u, keys) ∷ m')

-- The pending keys of each unit, after `key` is removed from those of `h`: the unit's entry is looked
-- up first, and it is an error if there is none.
unfoldable pub drop_pending : UnitHash → Key → RestoreProgress → Result RestoreProgress
drop_pending h key [] = err not_initialized
drop_pending h key ((u, keys) ∷ m) =
    let rest = drop_pending h key m in
    if u == h then ok ((u, remove key keys) ∷ m) else rest >>= λ m'. ok ((u, keys) ∷ m')

unfoldable pub none_pending : UnitHash → RestoreProgress → Bool
none_pending h [] = false
none_pending h ((u, keys) ∷ m) =
    if u == h then elim keys [ [] ↦ true | _ ∷ _ ↦ false ] else none_pending h m

-- Whether the progress of a unit is initialized.
abbrev pub is_initialized : RestoreProgress → UnitHash → Bool
is_initialized [] h = false
is_initialized ((u, keys) ∷ m) h = if u == h then true else is_initialized m h

pub init_pending-initialized :
    (h j : UnitHash) (m : RestoreProgress)
    → is_initialized (init_pending h m) j ≡ (h == j || is_initialized m j)
unfolding init_pending
init_pending-initialized h j [] = ground arith
init_pending-initialized h j ((u, keys) ∷ m) =
    ground (arith, init_pending-initialized h j m, eq_iff u h, eq_iff h j, eq_iff u j)

pub drop_pending-initialized :
    (h : UnitHash) (key : Key) (m : RestoreProgress)
    → is_initialized m h ≡ true
    → (m' : RestoreProgress) × (drop_pending h key m ≡ ok m')
      × ((j : UnitHash) → is_initialized m' j ≡ is_initialized m j)
unfolding drop_pending
drop_pending-initialized h key [] e = ground arith
drop_pending-initialized h key ((u, keys) ∷ m) e = elim (Bool-cases (u == h)) [
  | inl same ↦ ((u, remove key keys) ∷ m, rw same, λ j. refl)
  | inr other ↦
      let r = drop_pending-initialized h key m (sym (rw other) ∙ e) in
      ((u, keys) ∷ r.0, rw (other, r.1), λ j. ap (λ b. if u == j then true else b) (r.2 j))
]

pub add_pending-initialized :
    (h : UnitHash) (key : Key) (m : RestoreProgress)
    → is_initialized m h ≡ true
    → (m' : RestoreProgress) × (add_pending h key m ≡ ok m')
      × ((j : UnitHash) → is_initialized m' j ≡ is_initialized m j)
unfolding add_pending
add_pending-initialized h key [] e = ground arith
add_pending-initialized h key ((u, keys) ∷ m) e = elim (Bool-cases (u == h)) [
  | inl same ↦ ((u, insert key keys) ∷ m, rw same, λ j. refl)
  | inr other ↦
      let r = add_pending-initialized h key m (sym (rw other) ∙ e) in
      ((u, keys) ∷ r.0, rw (other, r.1), λ j. ap (λ b. if u == j then true else b) (r.2 j))
]
