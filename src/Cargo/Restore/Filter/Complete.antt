-- ===== src/Cargo/Restore/Filter/Complete.antt =====
-- What the filter keeps: the units whose dependencies are all kept.
use hurry.Prelude.{
  Bool, true, false, none, some, List, [], ◌∷◌, ◌≡◌, refl, ◌∙◌, arith, ◌==◌, eq_iff, eq_refl, All,
  Option-cases, contains, contains-remove, inl, inr,
}
use hurry.Cargo.Units.{UnitHash, UnitPlan, info}
use hurry.Cargo.Restore.Filter.{missing_dep, FilterState, filter_unit, filter_loop}

abbrev pub hashes : List UnitPlan → List UnitHash
hashes [] = []
hashes (unit ∷ units) = (info unit).unit_hash ∷ hashes units

-- Dependencies stand before their dependents: no unit depends on itself or on a later unit.
abbrev pub InOrder : List UnitPlan → Type 0
InOrder [] = Unit
InOrder (unit ∷ units) =
    All (λ dep. contains (hashes (unit ∷ units)) dep ≡ false) (info unit).deps × InOrder units

-- No two units have the same hash.
abbrev pub AreDistinct : List UnitPlan → Type 0
AreDistinct [] = Unit
AreDistinct (unit ∷ units) =
    (contains (hashes units) (info unit).unit_hash ≡ false) × AreDistinct units

missing_dep-none :
    (available deps : List UnitHash)
    → missing_dep available deps ≡ none
    → All (λ dep. contains available dep ≡ true) deps
unfolding missing_dep
missing_dep-none available [] h = tt
missing_dep-none available (dep ∷ deps) h =
    (ground arith, missing_dep-none available deps (ground arith))

pub missing_dep-some :
    (available deps : List UnitHash) (d : UnitHash)
    → missing_dep available deps ≡ some d
    → (contains deps d ≡ true) × (contains available d ≡ false)
unfolding missing_dep contains
missing_dep-some available [] d h = cc
missing_dep-some available (dep ∷ deps) d h =
    ground (arith, missing_dep-some available deps d, eq_refl dep, eq_iff dep d)

-- One round only takes units away, and no other unit than its own.
pub filter_unit-available :
    (s : FilterState) (unit : UnitPlan) (h : UnitHash)
    → contains (filter_unit s unit).available h ≡ true
    → contains s.available h ≡ true
unfolding filter_unit
filter_unit-available s unit h e =
    ground (arith, contains-remove (info unit).unit_hash h s.available)

filter_unit-other :
    (s : FilterState) (unit : UnitPlan) (h : UnitHash)
    → ((info unit).unit_hash == h) ≡ false
    → contains (filter_unit s unit).available h ≡ contains s.available h
unfolding filter_unit
filter_unit-other s unit h e = ground (arith, contains-remove (info unit).unit_hash h s.available)

pub filter_loop-available :
    (s : FilterState) (units : List UnitPlan) (h : UnitHash)
    → contains (filter_loop s units).available h ≡ true
    → contains s.available h ≡ true
unfolding filter_loop
filter_loop-available s [] h e = e
filter_loop-available s (unit ∷ units) h e =
    filter_unit-available s unit h (filter_loop-available (filter_unit s unit) units h e)

filter_loop-other :
    (s : FilterState) (units : List UnitPlan) (h : UnitHash)
    → contains (hashes units) h ≡ false
    → contains (filter_loop s units).available h ≡ contains s.available h
unfolding filter_loop contains
filter_loop-other s [] h e = refl
filter_loop-other s (unit ∷ units) h e =
    ground (arith, filter_loop-other (filter_unit s unit) units h, filter_unit-other s unit h)

-- Dependencies that stood before a list of units are untouched by it.
All-filter_loop-other :
    (s : FilterState) (units : List UnitPlan) (deps : List UnitHash)
    → All (λ dep. contains (hashes units) dep ≡ false) deps
    → All (λ dep. contains s.available dep ≡ true) deps
    → All (λ dep. contains (filter_loop s units).available dep ≡ true) deps
All-filter_loop-other s units [] o h = tt
All-filter_loop-other s units (dep ∷ deps) o h =
    (filter_loop-other s units dep o.0 ∙ h.0, All-filter_loop-other s units deps o.1 h.1)

-- A unit that stays available after its own round had all its dependencies then.
filter_unit-deps :
    (s : FilterState) (unit : UnitPlan)
    → contains (filter_unit s unit).available (info unit).unit_hash ≡ true
    → All (λ dep. contains s.available dep ≡ true) (info unit).deps
unfolding filter_unit
filter_unit-deps s unit h = elim (Option-cases (missing_dep s.available (info unit).deps)) [
  | inl e ↦ missing_dep-none s.available (info unit).deps e
  | inr (d, e) ↦ absurd (
      ground (
        arith,
        contains-remove (info unit).unit_hash (info unit).unit_hash s.available,
        eq_refl (info unit).unit_hash,
      ))
]

-- Everything that is kept has kept dependencies.
abbrev pub IsClosed : (UnitHash → Bool) → List UnitPlan → Type 0
IsClosed is_kept = All (λ unit.
    is_kept (info unit).unit_hash ≡ true → All (λ dep. is_kept dep ≡ true) (info unit).deps)

pub filter_loop-IsClosed :
    (s : FilterState) (units : List UnitPlan)
    → InOrder units
    → IsClosed (contains (filter_loop s units).available) units
unfolding filter_loop
filter_loop-IsClosed s [] o = tt
filter_loop-IsClosed s (unit ∷ units) o = (
  λ h. All-filter_loop-other s (unit ∷ units) (info unit).deps o.0 (
      filter_unit-deps s unit
        (filter_loop-available (filter_unit s unit) units (info unit).unit_hash h)),
  filter_loop-IsClosed (filter_unit s unit) units o.1,
)
