-- ===== src/Courier/Cas/Calls.antt =====
-- The server's state behind the object store, its calls, and the rows of access
-- (packages/courier/src/db/cargo_cache.rs).
use hurry.Prelude.{
  ℕ, ◌+◌, ◌==◌, Bool, true, false, ◌&&◌, ◌||◌, Option, none, some, List, [], ◌∷◌, nat_eq, insert,
  if◌then◌else◌,
}
use hurry.Clients.Saved.{Key}
use hurry.Courier.Storage.{Disk, Answers}

-- `keys` is the table `cas_key`, and `access` is `cas_access`, with the key in place of its id.
pub record CasServer : Type 0 where
  pub keys : List Key
  pub access : List (ℕ × Key)
  pub disk : Disk
  pub calls : ℕ
  pub down : ℕ → Bool
  pub os : ℕ → Answers

abbrev pub tick : CasServer → CasServer
tick s = record s { calls = s.calls + 1 }

abbrev pub value {ℓ} : {A : Type ℓ} → A × CasServer → Option A × CasServer
value (a, s) = (some a, s)

-- A call; none is its error, and then it changes nothing.
unfoldable pub attempt {ℓ} :
    {A : Type ℓ} → (CasServer → A × CasServer) → CasServer → Option A × CasServer
attempt call s = if s.down s.calls then (none, tick s) else value (call (tick s))

-- A write to the disk.
unfoldable pub with_disk {ℓ} : {A : Type ℓ} → CasServer → A × Disk → A × CasServer
with_disk s (a, d) = (a, record (tick s) { disk = d })

unfoldable pub has_access : ℕ → Key → List (ℕ × Key) → Bool
has_access org key [] = false
has_access org key ((o, k) ∷ rows) = (nat_eq o org && k == key) || has_access org key rows

-- `Postgres::check_cas_access`
unfoldable pub check_cas_access : ℕ → Key → CasServer → Bool
unfolding has_access
check_cas_access org key s = has_access org key s.access

-- `Postgres::check_cas_access_bulk`
unfoldable pub accessible : ℕ → List Key → List (ℕ × Key) → List Key
unfolding has_access
accessible org [] rows = []
accessible org (key ∷ keys) rows =
    let rest = accessible org keys rows in if has_access org key rows then key ∷ rest else rest

-- `Postgres::grant_cas_access`: whether the access is new.
unfoldable pub grant_cas_access : ℕ → Key → CasServer → Bool × CasServer
unfolding has_access insert
grant_cas_access org key s =
    if has_access org key s.access
    then (false, record s { keys = insert key s.keys })
    else (true, record s { keys = insert key s.keys; access = (org, key) ∷ s.access })

unfoldable pub revoke_access : ℕ → List (ℕ × Key) → List (ℕ × Key)
revoke_access org [] = []
revoke_access org ((o, k) ∷ rows) =
    let rest = revoke_access org rows in if nat_eq o org then rest else (o, k) ∷ rest

-- `Postgres::cargo_cache_reset`, on the rows of access.
unfoldable pub reset_access : ℕ → CasServer → Unit {0} × CasServer
unfolding revoke_access
reset_access org s = (tt, record s { access = revoke_access org s.access })
