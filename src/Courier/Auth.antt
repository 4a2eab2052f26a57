-- ===== src/Courier/Auth.antt =====
-- Roles (packages/courier/src/auth.rs) and the texts of requests.
use Prim.Native.Char.{code}
use hurry.Prelude.{
  ℕ, String, ◌==◌, Bool, true, false, ◌||◌, ◌&&◌, Option, none, some, if◌then◌else◌, leb, nat_eq,
}

pub data OrgRole : Type 0 where
  member : OrgRole
  admin : OrgRole

-- `OrgRole::as_db_name`
unfoldable pub as_db_name : OrgRole → String
as_db_name member = "member"
as_db_name admin = "admin"

-- `OrgRole::from_db_name`
unfoldable pub from_db_name : String → Option OrgRole
from_db_name name =
    if name == "member" then some member else if name == "admin" then some admin else none

-- `OrgRole::is_admin`
abbrev pub is_admin : OrgRole → Bool
is_admin member = false
is_admin admin = true

-- The code points that `char::is_whitespace` names.
unfoldable pub is_whitespace : ℕ → Bool
is_whitespace c =
    (leb 9 c && leb c 13)
    || (nat_eq c 32
        || (nat_eq c 0x85
            || (nat_eq c 0xa0
                || (nat_eq c 0x1680
                    || ((leb 0x2000 c && leb c 0x200a)
                        || (nat_eq c 0x2028
                            || (nat_eq c 0x2029
                                || (nat_eq c 0x202f || (nat_eq c 0x205f || nat_eq c 0x3000)))))))))

-- `str::trim_start`
unfoldable pub trim_start : String → String
trim_start String.[] = ""
trim_start (String.◌∷◌ c s) = if is_whitespace (code c) then trim_start s else String.◌∷◌ c s

-- `str::trim_end`
unfoldable pub trim_end : String → String
trim_end String.[] = ""
trim_end (String.◌∷◌ c s) =
    let rest = trim_end s in if rest == "" && is_whitespace (code c) then "" else String.◌∷◌ c rest

-- `str::trim`
unfoldable pub trim : String → String
unfolding is_whitespace trim_start trim_end
trim s = trim_end (trim_start s)
