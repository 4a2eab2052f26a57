-- ===== src/Courier/Request.antt =====
-- The requests of sessions to the endpoints of packages/courier/src/api/v1/me, organizations and
-- invitations that change the database.
use hurry.Prelude.{ℕ, String, Bool, Option}
use hurry.Courier.Auth.{OrgRole}
use hurry.Courier.Tables.{ℤ}

-- A request, with what its parameters are and the random tokens that it generates.
pub data Request : Type 0 where
  leave : (now org : ℕ) → Request
  remove_member : (now org target : ℕ) → Request
  update_role : (org target : ℕ) (role : OrgRole) → Request
  create_organization : (name : String) → Request
  update_me : (name : Option String) → Request
  rename : (org : ℕ) (name : String) → Request
  create_bot : (token : String) (org : ℕ) (name responsible_email : String) → Request
  create_key : (token : String) (org : ℕ) (name : String) → Request
  delete_key : (now org key : ℕ) → Request
  create_invitation :
      (now : ℕ) (token : Bool → String) (org : ℕ) (role : OrgRole) (expires_at : Option ℕ)
      (max_uses : Option ℤ)
      → Request
  accept : (now : ℕ) (token : String) → Request
  revoke : (now org invitation : ℕ) → Request
