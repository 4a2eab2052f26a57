-- ===== src/Courier/Cache/Select.antt =====
-- The query of a restore (packages/courier/src/db/cargo_cache.rs).
use mathlib.Core.List.{Memᴰ}
use mathlib.Core.List.Memᴰ
use hurry.Prelude.{
  ℕ, true, ◌&&◌, List, [], ◌∷◌, ◌≡◌, sym, ap, ◌∙◌, subst, arith, refl, ◌++◌, ◌≢◌, nat_eq, contains,
  Bool-cases, inl, inr,
}
use hurry.Clients.Saved.{SavedUnitHash}
use hurry.Courier.Cache.{SavedUnitRow, select_rows, delete_rows}

pub select-keeps :
    (org : ℕ) (units : List SavedUnitHash) (rows : List SavedUnitRow) (row : SavedUnitRow)
    → Memᴰ row rows
    → row.organization_id ≡ org
    → contains units row.unit_hash ≡ true
    → Memᴰ row (select_rows org units rows)
unfolding select_rows
select-keeps org units [] row m o c = elim m [ ]
select-keeps org units (x ∷ rows) row (Memᴰ.head e) o c =
    let o' : nat_eq x.organization_id org ≡ true =
      ground (arith, o, ap (λ (r : SavedUnitRow). r.organization_id) e) in
    let c' : contains units x.unit_hash ≡ true =
      subst (λ (r : SavedUnitRow). contains units r.unit_hash ≡ true) e c in
    rw (o', c') (Memᴰ.head e)
select-keeps org units (x ∷ rows) row (Memᴰ.tail m) o c =
    elim (Bool-cases (nat_eq x.organization_id org && contains units x.unit_hash)) [
      | inl both ↦ rw both (Memᴰ.tail (select-keeps org units rows row m o c))
      | inr not_it ↦ rw not_it (select-keeps org units rows row m o c)
    ]

-- The row stands in the table, of the organization, and was asked for.
pub record IsSelected (org : ℕ) (units : List SavedUnitHash) (rows : List SavedUnitRow)
    (row : SavedUnitRow) : Type 0 where
  pub among : Memᴰ row rows
  pub owned : row.organization_id ≡ org
  pub asked : contains units row.unit_hash ≡ true

later_row :
    (org : ℕ) (units : List SavedUnitHash) (x : SavedUnitRow) (rows : List SavedUnitRow)
    (row : SavedUnitRow)
    → IsSelected org units rows row
    → IsSelected org units (x ∷ rows) row
later_row org units x rows row s = record {
  among = Memᴰ.tail s.among;
  owned = s.owned;
  asked = s.asked;
}

pub select-IsSelected :
    (org : ℕ) (units : List SavedUnitHash) (rows : List SavedUnitRow) (row : SavedUnitRow)
    → Memᴰ row (select_rows org units rows)
    → IsSelected org units rows row
unfolding select_rows
select-IsSelected org units [] row m = elim m [ ]
select-IsSelected org units (x ∷ rows) row m =
    elim (Bool-cases (nat_eq x.organization_id org && contains units x.unit_hash)) [
      | inl both ↦ elim (Memᴰ.cases_cons (rw both at m)) [
        | inl e ↦
            let owned : x.organization_id ≡ org = ground arith in
            let asked : contains units x.unit_hash ≡ true = ground arith in
            record {
              among = Memᴰ.head e;
              owned = ap (λ (r : SavedUnitRow). r.organization_id) e ∙ owned;
              asked = subst (λ (r : SavedUnitRow). contains units r.unit_hash ≡ true) (sym e) asked;
            }
        | inr later ↦ later_row org units x rows row (select-IsSelected org units rows row later)
      ]
      | inr not_it ↦
          later_row org units x rows row (select-IsSelected org units rows row (rw not_it at m))
    ]

-- Another organization's saves and resets do not change what the query finds.
pub select-append :
    (org : ℕ) (units : List SavedUnitHash) (rows later : List SavedUnitRow)
    → select_rows org units (rows ++ later)
      ≡ select_rows org units rows ++ select_rows org units later
unfolding select_rows
select-append org units [] later = refl
select-append org units (x ∷ rows) later =
    elim (Bool-cases (nat_eq x.organization_id org && contains units x.unit_hash)) [
      | inl both ↦ rw both (ap (λ l. x ∷ l) (select-append org units rows later))
      | inr not_it ↦ rw not_it (select-append org units rows later)
    ]

pub select-delete :
    (org other : ℕ) (units : List SavedUnitHash) (rows : List SavedUnitRow)
    → org ≢ other
    → select_rows org units (delete_rows other rows) ≡ select_rows org units rows
unfolding select_rows delete_rows
select-delete org other units [] ne = refl
select-delete org other units (x ∷ rows) ne = ground (arith, select-delete org other units rows ne)
