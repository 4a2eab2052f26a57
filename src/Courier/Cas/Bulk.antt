-- ===== src/Courier/Cas/Bulk.antt =====
-- The bulk endpoints (packages/courier/src/api/v1/cas/bulk).
use hurry.Prelude.{
  ℕ, String, Bool, true, false, Option, none, some, List, [], ◌∷◌, contains, insert, if◌then◌else◌,
}
use hurry.Clients.Saved.{Key}
use hurry.Courier.Storage.{DiskEnv, exists, size, lookup}
use hurry.Courier.Cas.{write_body, payload}
use hurry.Courier.Cas.Calls.{CasServer, attempt, with_disk, accessible, grant_cas_access}

-- An entry of an archive that is written; none is one that cannot be read, or whose path is no key.
abbrev pub Entry : Type 0
Entry = Option (Key × String)

-- `CasBulkWriteResponse`; of an error, its key.
pub record CasBulkWriteResponse : Type 0 where
  pub written : List Key
  pub skipped : List Key
  pub errors : List Key

pub data BulkWriteResponse : Type 0 where
  success partial_success : CasBulkWriteResponse → BulkWriteResponse
  invalid_request : BulkWriteResponse

abbrev pub add_written : Key → CasBulkWriteResponse → CasBulkWriteResponse
add_written key r = record r { written = insert key r.written }

abbrev pub add_skipped : Key → CasBulkWriteResponse → CasBulkWriteResponse
add_skipped key r = record r { skipped = insert key r.skipped }

abbrev pub add_error : Key → CasBulkWriteResponse → CasBulkWriteResponse
add_error key r = record r { errors = insert key r.errors }

abbrev pub grant_existing :
    Key → CasBulkWriteResponse → Option Bool × CasServer → CasBulkWriteResponse × CasServer
grant_existing key r (none, s) = (add_error key r, s)
grant_existing key r (some true, s) = (add_written key r, s)
grant_existing key r (some false, s) = (add_skipped key r, s)

abbrev pub grant_written :
    Key → CasBulkWriteResponse → Option Bool × CasServer → CasBulkWriteResponse × CasServer
grant_written key r (none, s) = (add_error key r, s)
grant_written key r (some new, s) = (add_written key r, s)

abbrev pub done : CasBulkWriteResponse → BulkWriteResponse
done r = elim r.errors [
  | [] ↦ BulkWriteResponse.success r
  | key ∷ keys ↦ BulkWriteResponse.partial_success r
]

module _ (env : DiskEnv) where
  module _ (org : ℕ) (compressed : Bool) where
    abbrev pub after_entry_write :
        Key → CasBulkWriteResponse → Bool × CasServer → CasBulkWriteResponse × CasServer
    after_entry_write key r (false, s) = (add_error key r, s)
    after_entry_write key r (true, s) = grant_written key r (attempt (grant_cas_access org key) s)

    -- `if let Ok(true) = cas.exists(&key).await`
    abbrev pub after_entry_exists :
        Key
        → String
        → CasBulkWriteResponse
        → Option Bool × CasServer
        → CasBulkWriteResponse × CasServer
    after_entry_exists key body r (some true, s) =
        grant_existing key r (attempt (grant_cas_access org key) s)
    after_entry_exists key body r (some false, s) =
        after_entry_write key r (write_body env compressed key body s)
    after_entry_exists key body r (none, s) =
        after_entry_write key r (write_body env compressed key body s)

    unfoldable pub write_entry :
        Key → String → CasBulkWriteResponse → CasServer → CasBulkWriteResponse × CasServer
    unfolding attempt exists write_body grant_cas_access insert
    write_entry key body r s =
        after_entry_exists key body r (attempt (λ t. (exists key t.disk, t)) s)

    -- The loop of `process_archive`.
    unfoldable pub write_entries :
        List Entry → CasBulkWriteResponse → CasServer → BulkWriteResponse × CasServer
    unfolding write_entry
    write_entries [] r s = (done r, s)
    write_entries (none ∷ entries) r s = (BulkWriteResponse.invalid_request, s)
    write_entries (some (key, body) ∷ entries) r s =
        let next = write_entry key body r s in write_entries entries next.0 next.1

    -- `bulk::write::handle`
    unfoldable pub handle_bulk_write : List Entry → CasServer → BulkWriteResponse × CasServer
    unfolding write_entries
    handle_bulk_write entries s =
        write_entries entries (record { written = []; skipped = []; errors = [] }) s

  -- An entry of the archive that is read: its header's size and its body.
  abbrev pub Member : Type 0
  Member = Key × ℕ × String

  module _ (compressed : Bool) where
    -- `size_compressed` and `size`
    unfoldable pub body_size : Key → CasServer → Option ℕ × CasServer
    unfolding size lookup with_disk
    body_size key s =
        if compressed
        then (file_len (lookup s.disk.blobs key), s)
        else with_disk s (size env (s.os s.calls).size_written key s.disk)
      where
        file_len : Option String → Option ℕ
        file_len none = none
        file_len (some blob) = some (env.len blob)

    abbrev pub after_append :
        Key → ℕ → String → Option (Unit {0}) × CasServer → Option Member × CasServer
    after_append key n body (none, s) = (none, s)
    after_append key n body (some u, s) = (some (key, n, body), s)

    abbrev pub after_size : Key → String → Option (Option ℕ) × CasServer → Option Member × CasServer
    after_size key body (none, s) = (none, s)
    after_size key body (some none, s) = (none, s)
    after_size key body (some (some n), s) = after_append key n body (attempt (λ t. (tt, t)) s)

    abbrev pub after_open : Key → Option (Option String) × CasServer → Option Member × CasServer
    after_open key (none, s) = (none, s)
    after_open key (some none, s) = (none, s)
    after_open key (some (some body), s) = after_size key body (attempt (body_size key) s)

    unfoldable pub read_entry : Key → CasServer → Option Member × CasServer
    unfolding attempt payload body_size
    read_entry key s = after_open key (attempt (payload env compressed key) s)

    abbrev pub append_member : Option Member → List Member → List Member
    append_member none members = members
    append_member (some member) members = member ∷ members

    -- The loop over `req.keys`.
    unfoldable pub read_entries : List Key → List Key → CasServer → List Member × CasServer
    unfolding read_entry contains
    read_entries allowed [] s = ([], s)
    read_entries allowed (key ∷ keys) s =
        let next = read_entry key s in
        let rest_skipped = read_entries allowed keys s in
        let rest = read_entries allowed keys next.1 in
        if contains allowed key then (append_member next.0 rest.0, rest.1) else rest_skipped

    abbrev pub archive : List Key → Option (List Key) × CasServer → Option (List Member) × CasServer
    archive keys (none, s) = (none, s)
    archive keys (some allowed, s) = let r = read_entries allowed keys s in (some r.0, r.1)

    -- `bulk::read::handle`; none is an error.
    unfoldable pub handle_bulk_read : ℕ → List Key → CasServer → Option (List Member) × CasServer
    unfolding attempt read_entries accessible
    handle_bulk_read org keys s = archive keys (attempt (λ t. (accessible org keys t.access, t)) s)
