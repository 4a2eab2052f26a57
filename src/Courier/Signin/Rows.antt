-- ===== src/Courier/Signin/Rows.antt =====
-- Lists of rows that a statement of the sign-in (packages/courier/src/db/oauth.rs and session.rs)
-- thins out or changes.
use hurry.Prelude.{Bool, true, false, List, ◌∷◌, All, if◌then◌else◌}

module _ {A : Type 0} (P : A → Type 0) where
  pub all_or :
      (b : Bool) (row : A) (rest : List A)
      → P row
      → All P rest
      → All P (if b then rest else row ∷ rest)
  all_or true row rest p ps = ps
  all_or false row rest p ps = (p, ps)

  pub all_set :
      (b : Bool) (row changed : A) (rest : List A)
      → P row
      → P changed
      → All P rest
      → All P (if b then changed ∷ rest else row ∷ rest)
  all_set true row changed rest p c ps = (c, ps)
  all_set false row changed rest p c ps = (p, ps)
