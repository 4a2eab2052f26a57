-- ===== src/Courier/Cas.antt =====
-- The endpoints of the object store: packages/courier/src/api/v1/cas (check.rs, read.rs, write.rs,
-- bulk/read.rs and bulk/write.rs) and the access rows of packages/courier/src/db/cargo_cache.rs.
-- A call of the database or of the disk may fail; `os` has what the operating system answers to
-- a write. An archive is the list of its entries.
pub mod Calls
pub mod Bulk
pub mod Sound
pub mod Handlers
pub mod Serve
pub mod Laws
use hurry.Prelude.{ℕ, String, Bool, true, false, Option, none, some, List, [], ◌∷◌, if◌then◌else◌}
use hurry.Clients.Saved.{Key}
use hurry.Courier.Storage.{
  DiskEnv, Disk, Answers, exists, write, write_compressed, read, read_compressed,
}
use hurry.Courier.Cas.Calls.{CasServer, attempt, with_disk, check_cas_access, grant_cas_access}

pub data CasCheckResponse : Type 0 where
  found not_found error : CasCheckResponse

pub data CasReadResponse : Type 0 where
  found : String → (compressed : Bool) → CasReadResponse
  not_found error : CasReadResponse

pub data CasWriteResponse : Type 0 where
  created error : CasWriteResponse

abbrev checked_blob : Option Bool × CasServer → CasCheckResponse × CasServer
checked_blob (none, s) = (CasCheckResponse.error, s)
checked_blob (some false, s) = (CasCheckResponse.not_found, s)
checked_blob (some true, s) = (CasCheckResponse.found, s)

abbrev checked_access : Key → Option Bool × CasServer → CasCheckResponse × CasServer
checked_access key (none, s) = (CasCheckResponse.error, s)
checked_access key (some false, s) = (CasCheckResponse.not_found, s)
checked_access key (some true, s) = checked_blob (attempt (λ t. (exists key t.disk, t)) s)

-- `check::handle`
unfoldable pub handle_check : ℕ → Key → CasServer → CasCheckResponse × CasServer
unfolding attempt check_cas_access exists
handle_check org key s = checked_access key (attempt (λ t. (check_cas_access org key t, t)) s)

-- The rest of both cases of a write: access is granted.
abbrev pub granted : Option Bool × CasServer → CasWriteResponse × CasServer
granted (none, s) = (CasWriteResponse.error, s)
granted (some new, s) = (CasWriteResponse.created, s)

module _ (env : DiskEnv) where
  -- `handle_compressed` and `handle_plain` of a read; none is a file that is not there.
  unfoldable pub payload : Bool → Key → CasServer → Option String × CasServer
  unfolding read read_compressed
  payload compressed key s =
      (if compressed then read_compressed env key s.disk else read env key s.disk, s)

  abbrev pub read_payload : Bool → Option (Option String) × CasServer → CasReadResponse × CasServer
  read_payload compressed (none, s) = (CasReadResponse.error, s)
  read_payload compressed (some none, s) = (CasReadResponse.not_found, s)
  read_payload compressed (some (some body), s) = (CasReadResponse.found body compressed, s)

  abbrev pub read_access : Key → Bool → Option Bool × CasServer → CasReadResponse × CasServer
  read_access key compressed (none, s) = (CasReadResponse.error, s)
  read_access key compressed (some false, s) = (CasReadResponse.not_found, s)
  read_access key compressed (some true, s) =
      read_payload compressed (attempt (payload compressed key) s)

  -- `read::handle`
  unfoldable pub handle_read : ℕ → Key → Bool → CasServer → CasReadResponse × CasServer
  unfolding attempt check_cas_access payload
  handle_read org key compressed s =
      read_access key compressed (attempt (λ t. (check_cas_access org key t, t)) s)

  -- `handle_compressed` and `handle_plain` of a write.
  unfoldable pub write_body : Bool → Key → String → CasServer → Bool × CasServer
  unfolding with_disk write write_compressed
  write_body compressed key body s = with_disk s (
      if compressed
      then write_compressed env (s.os s.calls) key body s.disk
      else write env (s.os s.calls) key body s.disk)

  abbrev pub after_write : ℕ → Key → Bool × CasServer → CasWriteResponse × CasServer
  after_write org key (false, s) = (CasWriteResponse.error, s)
  after_write org key (true, s) = granted (attempt (grant_cas_access org key) s)

  abbrev pub after_exists :
      ℕ → Key → Bool → String → Option Bool × CasServer → CasWriteResponse × CasServer
  after_exists org key compressed body (none, s) = (CasWriteResponse.error, s)
  after_exists org key compressed body (some true, s) =
      granted (attempt (grant_cas_access org key) s)
  after_exists org key compressed body (some false, s) =
      after_write org key (write_body compressed key body s)

  -- `write::handle`; the body of a key that exists is not looked at.
  unfoldable pub handle_write : ℕ → Key → Bool → String → CasServer → CasWriteResponse × CasServer
  unfolding attempt exists write_body grant_cas_access
  handle_write org key compressed body s =
      after_exists org key compressed body (attempt (λ t. (exists key t.disk, t)) s)
