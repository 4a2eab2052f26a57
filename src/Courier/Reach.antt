-- ===== src/Courier/Reach.antt =====
-- What sessions and signups can make of the server's database by the endpoints of
-- packages/courier/src/api/v1, one request after another.
use hurry.Prelude.{ℕ, String, Option, some, true, ◌≡◌}
use hurry.Courier.Tables.{Db, has_identity}
use hurry.Courier.Calls.{World}
use hurry.Courier.Organizations.{signup_with_github}
use hurry.Courier.Request.{Request}
use hurry.Courier.Serve.{serve}

-- The worlds that follow `first`. A session is one of a GitHub user; `signup` is the transaction of
-- a new user's first login.
pub data Reach (token_hash : String → String) (first : World) : World → Type 0 where
  start : Reach token_hash first first
  request :
      {w : World} (account : ℕ) (r : Request)
      → Reach token_hash first w
      → has_identity account w.db.identities ≡ true
      → Reach token_hash first (serve token_hash account r w)
  signup :
      {w : World} (email : String) (name : Option String) (user : ℕ) (username org_name : String)
      (account org : ℕ) (d : Db)
      → Reach token_hash first w
      → signup_with_github email name user username org_name w.db ≡ some ((account, org), d)
      → Reach token_hash first (record w { db = d })
