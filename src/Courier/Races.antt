-- ===== src/Courier/Races.antt =====
-- Requests to the endpoints of packages/courier/src/api/v1 whose calls interleave.
use hurry.Prelude.{ℕ, ◌+◌, true, false, some, ◌≡◌, ◌≢◌, ap, ◌∙◌, arith}
use hurry.Courier.Auth.{admin}
use hurry.Courier.Tables.{Db, is_member, role_in, has_identity, human_admins}
use hurry.Courier.Calls.{World, Exit, value, respond, tick}
use hurry.Courier.Members.{
  leave_checks, leave_writes, LeaveResponse, is_last_admin, without_row, get_member_role,
  refuse_last_admin, revoke_account_org_api_keys, remove_organization_member,
}
use hurry.Courier.Members.Rows.{
  Unique, role_in-without_row, is_member-role_in, is_member-without_row, human_admins-without_row,
  admin_row_exists-admin, Unique-without_row,
}
use hurry.Courier.Effect.{IsAdmin}

-- No call fails.
abbrev pub IsUp : World → Type 0
IsUp w = (n : ℕ) → w.down n ≡ false

-- A human administrator.
abbrev pub Rules : Db → ℕ → ℕ → Type 0
Rules d org account = IsAdmin d org account × (has_identity account d.identities ≡ true)

-- The checks pass for an administrator who is not the last one, and change nothing but the count of
-- calls.
leave_checks_pass :
    (account org : ℕ) (w : World)
    → IsUp w
    → role_in org account w.db.members ≡ some admin
    → is_last_admin org account w.db ≡ false
    → leave_checks account org w ≡ (value tt, tick (tick w))
unfolding leave_checks respond get_member_role refuse_last_admin
leave_checks_pass account org w up found last = ground (arith, up w.calls, up (w.calls + 1))

-- The writes succeed for a member.
leave_writes_succeed :
    (now account org : ℕ) (w : World)
    → IsUp w
    → is_member org account w.db.members ≡ true
    → ((leave_writes now account org w).0 ≡ value LeaveResponse.success)
      × ((leave_writes now account org w).1.db.members ≡ without_row org account w.db.members)
      × ((leave_writes now account org w).1.db.identities ≡ w.db.identities)
      × ((leave_writes now account org w).1.down ≡ w.down)
unfolding leave_writes respond revoke_account_org_api_keys remove_organization_member
leave_writes_succeed now account org w up found = (
  ground (arith, up w.calls, up (w.calls + 1), up (w.calls + 2)),
  ground (arith, up w.calls, up (w.calls + 1), up (w.calls + 2)),
  ground (arith, up w.calls, up (w.calls + 1), up (w.calls + 2)),
  ground (arith, up w.calls, up (w.calls + 1), up (w.calls + 2)),
)

is_last_admin-of_two :
    (org account : ℕ) (d : Db)
    → human_admins org d.identities d.members ≡ 2
    → is_last_admin org account d ≡ false
unfolding is_last_admin
is_last_admin-of_two org account d two = ground arith

human_admins-without_both :
    (org a b : ℕ) (d : Db)
    → Unique d.members
    → a ≢ b
    → Rules d org a
    → Rules d org b
    → human_admins org d.identities d.members ≡ 2
    → human_admins org d.identities (without_row org b (without_row org a d.members)) ≡ 0
human_admins-without_both org a b d u ne ra rb two =
    let rows = without_row org a d.members in
    let stays : role_in org b rows ≡ some admin =
      ground (arith, role_in-without_row org a org b d.members) in
    ground (
      arith,
      human_admins-without_row d.identities org a org d.members u,
      human_admins-without_row d.identities org b org rows (Unique-without_row org a d.members u),
      admin_row_exists-admin d.identities org a d.members ra.0 ra.1,
      admin_row_exists-admin d.identities org b rows stays rb.1,
    )

-- Two requests to leave, in this order: the checks of the first, those of the second, the writes of
-- the first, those of the second. The answers are those of the two requests.
abbrev pub both_leave :
    ℕ
    → ℕ
    → ℕ
    → ℕ
    → World
    → Exit LeaveResponse LeaveResponse × Exit LeaveResponse LeaveResponse × World
both_leave now org a b w =
    let (first, w1) = leave_checks a org w in
    let (second, w2) = leave_checks b org w1 in
    let (left, w3) = leave_writes now a org w2 in
    let (right, w4) = leave_writes now b org w3 in (left, right, w4)

-- The check for the last administrator does not hold until the writes: if an organization has
-- exactly two human administrators, both ask to leave, no call fails, and each one's check runs
-- before the other's writes, then both leave, and the organization has no human administrator.
pub both_leave-human_admins :
    (now org a b : ℕ) (w : World)
    → IsUp w
    → Unique w.db.members
    → a ≢ b
    → Rules w.db org a
    → Rules w.db org b
    → human_admins org w.db.identities w.db.members ≡ 2
    → let (left, right, w') = both_leave now org a b w in
      (left ≡ value LeaveResponse.success)
      × (right ≡ value LeaveResponse.success)
      × (human_admins org w'.db.identities w'.db.members ≡ 0)
both_leave-human_admins now org a b w up u ne ra rb two =
    let first = leave_checks_pass a org w up ra.0 (is_last_admin-of_two org a w.db two) in
    let second =
      leave_checks_pass b org (tick (tick w)) up rb.0 (is_last_admin-of_two org b w.db two) in
    let w2 = tick (tick (tick (tick w))) in
    let left = leave_writes_succeed now a org w2 up (is_member-role_in org a w.db.members ra.0) in
    let w3 = (leave_writes now a org w2).1 in
    let right =
      leave_writes_succeed now b org w3 (λ n. ap (λ f. f n) left.3 ∙ up n)
        (ap (is_member org b) left.1
          ∙ (is_member-without_row org a org b w.db.members
              ∙ ground (arith, is_member-role_in org b w.db.members rb.0))) in
    rw first (
      rw second (
        left.0,
        right.0,
        ap (λ x. human_admins org x (leave_writes now b org w3).1.db.members) (right.2 ∙ left.2)
            ∙ (ap (human_admins org w.db.identities) (right.1 ∙ ap (without_row org b) left.1)
                ∙ human_admins-without_both org a b w.db u ne ra rb two),
      ))
