-- ===== src/Courier/Signin/Accounts.antt =====
-- The statements of packages/courier/src/db/account.rs that the sign-in calls.
use hurry.Prelude.{ℕ, String, Option, none, some, List, [], ◌∷◌, nat_eq, if◌then◌else◌}
use hurry.Courier.Tables.{Db, AccountRow, IdentityRow}
use hurry.Courier.Organizations.{signup_with_github}
use hurry.Courier.Signin.Calls.{Store}

unfoldable find_account : ℕ → List AccountRow → Option AccountRow
find_account a [] = none
find_account a (row ∷ rows) = if nat_eq row.id a then some row else find_account a rows

abbrev or_else : {A : Type 0} → Option A → Option A → Option A
or_else none o = o
or_else (some a) o = some a

unfoldable find_by_github : ℕ → List AccountRow → List IdentityRow → Option AccountRow
unfolding find_account
find_by_github user accounts [] = none
find_by_github user accounts (row ∷ rows) =
    let rest = find_by_github user accounts rows in
    if nat_eq row.github_user_id user
    then or_else (find_account row.account_id accounts) rest
    else rest

-- `Postgres::get_account_by_github_id`
unfoldable pub get_account_by_github_id : ℕ → ℕ → Store → Option (Option AccountRow × Store)
unfolding find_by_github
get_account_by_github_id user now d = some (find_by_github user d.db.accounts d.db.identities, d)

unfoldable with_email : ℕ → String → List AccountRow → List AccountRow
with_email a email [] = []
with_email a email (row ∷ rows) =
    let rest = with_email a email rows in
    if nat_eq row.id a then record row { email = email } ∷ rest else row ∷ rest

unfoldable with_username : ℕ → String → List IdentityRow → List IdentityRow
with_username a name [] = []
with_username a name (row ∷ rows) =
    let rest = with_username a name rows in
    if nat_eq row.account_id a then record row { github_username = name } ∷ rest else row ∷ rest

-- `Postgres::update_account_email`
unfoldable pub update_account_email : ℕ → String → ℕ → Store → Option (Unit {0} × Store)
unfolding with_email
update_account_email a email now d =
    some (tt, record d { db = record d.db { accounts = with_email a email d.db.accounts } })

-- `Postgres::update_github_username`
unfoldable pub update_github_username : ℕ → String → ℕ → Store → Option (Unit {0} × Store)
unfolding with_username
update_github_username a name now d =
    some (tt, record d { db = record d.db { identities = with_username a name d.db.identities } })

abbrev pub in_store : {A : Type 0} → Store → Option (A × Db) → Option (A × Store)
in_store d none = none
in_store d (some (a, db)) = some (a, record d { db = db })

-- `Postgres::signup_with_github`
unfoldable pub signup :
    String → Option String → ℕ → String → String → ℕ → Store → Option ((ℕ × ℕ) × Store)
unfolding signup_with_github
signup email name user username org_name now d =
    in_store d (signup_with_github email name user username org_name d.db)
