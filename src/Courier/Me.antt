-- ===== src/Courier/Me.antt =====
-- The name of an account: packages/courier/src/db/account.rs and the endpoint api/v1/me/update.rs.
use hurry.Prelude.{
  ℕ, String, ◌==◌, Bool, false, not, Option, none, some, List, [], ◌∷◌, if◌then◌else◌, nat_eq,
}
use hurry.Courier.Auth.{trim}
use hurry.Courier.Tables.{AccountRow, Db}
use hurry.Courier.Calls.{AuditRow, Call, pure, execute, require, log_audit_event, ◌>>◌}

-- `SET name = $2 WHERE id = $1`
unfoldable pub with_account_name : ℕ → Option String → List AccountRow → List AccountRow
with_account_name account name [] = []
with_account_name account name (row ∷ rows) =
    (if nat_eq row.id account then record row { name = name } else row)
    ∷ with_account_name account name rows

-- `Postgres::update_account_name`
unfoldable pub update_account_name : ℕ → Option String → Db → Option (Unit {0} × Db)
unfolding with_account_name
update_account_name account name d =
    some (tt, record d { accounts = with_account_name account name d.accounts })

-- `if let Some(ref name) = request.name && name.trim().is_empty()`
abbrev pub is_blank : Option String → Bool
is_blank none = false
is_blank (some name) = trim name == ""

-- `as_deref().map(str::trim)`
abbrev pub trimmed_name : Option String → Option String
trimmed_name none = none
trimmed_name (some name) = some (trim name)

-- `Response` of me/update.rs
pub data UpdateMeResponse : Type 0 where
  success empty_name error : UpdateMeResponse

abbrev pub name_updated : ℕ → AuditRow
name_updated account = record {
  account_id = some account;
  organization_id = none;
  action = "account.name_updated";
}

-- me/update.rs
unfoldable pub update_me : ℕ → Option String → Call UpdateMeResponse UpdateMeResponse
update_me account name = do
  require (not (is_blank name)) UpdateMeResponse.empty_name
  execute (update_account_name account (trimmed_name name))
  log_audit_event (name_updated account)
  pure UpdateMeResponse.success
