-- ===== src/Cargo/Restore/Filter/Invariant.antt =====
-- The loop invariant of the filter: what it returns, and why each unit in it was dropped.
use mathlib.Core.List.{Memᴰ}
use hurry.Prelude.{
  ◌+◌, Bool, true, false, not, ◌&&◌, some, List, [], ◌∷◌, ◌≡◌, refl, arith, eq_iff, length,
  Bool-cases, contains, insert, contains-insert, contains-remove, inl, inr,
}
use hurry.Cargo.Units.{UnitHash, UnitPlan, info}
use hurry.Cargo.Restore.Filter.{missing_dep, FilterState, filter_unit, filter_loop}
use hurry.Cargo.Restore.Filter.Complete.{missing_dep-some, filter_loop-available}

-- The units that are available and not filtered.
abbrev pub kept : List UnitHash → List UnitHash → UnitHash → Bool
kept start filtered h = contains start h && not (contains filtered h)

-- What is available is what was available at the start and has not been filtered; the count is the
-- size of the set.
pub record IsTracked (start : List UnitHash) (s : FilterState) : Type 0 where
  pub tracks : (h : UnitHash) → contains s.available h ≡ kept start s.filtered_hashes h
  pub within : (h : UnitHash) → contains s.filtered_hashes h ≡ true → contains start h ≡ true
  pub counts : s.filtered_count ≡ length s.filtered_hashes

length-insert_new :
    (k : UnitHash) (xs : List UnitHash)
    → contains xs k ≡ false
    → length (insert k xs) ≡ length xs + 1
unfolding insert
length-insert_new k xs h = ground arith

pub filter_unit-IsTracked :
    (start : List UnitHash) (s : FilterState) (unit : UnitPlan)
    → IsTracked start s
    → IsTracked start (filter_unit s unit)
unfolding filter_unit
filter_unit-IsTracked start s unit t = record {
  tracks = λ h. ground (
    arith,
    t.tracks h,
    t.tracks (info unit).unit_hash,
    contains-remove (info unit).unit_hash h s.available,
    contains-insert (info unit).unit_hash h s.filtered_hashes,
    eq_iff (info unit).unit_hash h,
  );
  within = λ h. ground (
    arith,
    t.within h,
    t.tracks (info unit).unit_hash,
    contains-insert (info unit).unit_hash h s.filtered_hashes,
    eq_iff (info unit).unit_hash h,
  );
  counts = ground (
    arith,
    t.counts,
    t.tracks (info unit).unit_hash,
    length-insert_new (info unit).unit_hash s.filtered_hashes,
  );
}

pub filter_loop-IsTracked :
    (start : List UnitHash) (s : FilterState) (units : List UnitPlan)
    → IsTracked start s
    → IsTracked start (filter_loop s units)
unfolding filter_loop
filter_loop-IsTracked start s [] t = t
filter_loop-IsTracked start s (unit ∷ units) t =
    filter_loop-IsTracked start (filter_unit s unit) units (filter_unit-IsTracked start s unit t)

-- A unit of the plan with hash `h`, and a dependency of it that is not kept.
pub record IsBlamed (units : List UnitPlan) (is_kept : UnitHash → Bool) (h : UnitHash)
    : Type 0 where
  pub unit : UnitPlan
  pub listed : Memᴰ unit units
  pub hash : (info unit).unit_hash ≡ h
  pub dep : UnitHash
  pub depends : contains (info unit).deps dep ≡ true
  pub unavailable : is_kept dep ≡ false

IsBlamed-cons :
    {units : List UnitPlan} {is_kept : UnitHash → Bool} {h : UnitHash} (unit : UnitPlan)
    → IsBlamed units is_kept h
    → IsBlamed (unit ∷ units) is_kept h
IsBlamed-cons unit b = record {
  unit = b.unit;
  listed = Memᴰ.tail b.listed;
  hash = b.hash;
  dep = b.dep;
  depends = b.depends;
  unavailable = b.unavailable;
}

-- If a round filters a new hash, it is the round's unit, which lacks a dependency.
filter_unit-blames :
    (s : FilterState) (unit : UnitPlan) (h : UnitHash)
    → contains s.filtered_hashes h ≡ false
    → contains (filter_unit s unit).filtered_hashes h ≡ true
    → ((info unit).unit_hash ≡ h)
      × (d : UnitHash) × (missing_dep s.available (info unit).deps ≡ some d)
unfolding filter_unit
filter_unit-blames s unit h old new = ground (
  arith,
  contains-insert (info unit).unit_hash h s.filtered_hashes,
  eq_iff (info unit).unit_hash h,
)

-- What is not available before a round is not available in the end.
unavailable_later :
    (s : FilterState) (units : List UnitPlan) (d : UnitHash)
    → contains s.available d ≡ false
    → contains (filter_loop s units).available d ≡ false
unavailable_later s units d h = ground (arith, filter_loop-available s units d)

pub filter_loop-IsBlamed :
    (s : FilterState) (units : List UnitPlan) (h : UnitHash)
    → contains s.filtered_hashes h ≡ false
    → contains (filter_loop s units).filtered_hashes h ≡ true
    → IsBlamed units (contains (filter_loop s units).available) h
unfolding filter_loop
filter_loop-IsBlamed s [] h old new = cc
filter_loop-IsBlamed s (unit ∷ units) h old new =
    elim (Bool-cases (contains (filter_unit s unit).filtered_hashes h)) [
      | inl now ↦
          let (same, d, missing) = filter_unit-blames s unit h old now in
          let (depends, unavailable) = missing_dep-some s.available (info unit).deps d missing in
          record {
            unit = unit;
            listed = Memᴰ.head refl;
            hash = same;
            dep = d;
            depends = depends;
            unavailable = unavailable_later s (unit ∷ units) d unavailable;
          }
      | inr later ↦ IsBlamed-cons unit (filter_loop-IsBlamed (filter_unit s unit) units h later new)
    ]
