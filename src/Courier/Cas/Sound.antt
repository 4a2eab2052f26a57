-- ===== src/Courier/Cas/Sound.antt =====
-- The store stays sound: it is content addressed, and each key that an organization has access to has
-- a blob (packages/courier/src/api/v1/cas).
use hurry.Prelude.{
  ℕ, String, Bool, true, false, Option, none, ◌≡◌, ◌≢◌, refl, arith, eq_refl, All, All-imp,
  Bool-cases, inl, inr,
}
use hurry.Clients.Saved.{Key}
use hurry.Courier.Storage.{DiskEnv, already_exists, exists}
use hurry.Courier.Storage.Laws.{
  IsContentAddressed, IsLossless, write-Writes, write_compressed-Writes,
}
use hurry.Courier.Cas.Calls.{
  CasServer, tick, value, attempt, with_disk, has_access, grant_cas_access,
}
use hurry.Courier.Cas.{write_body}

-- A call comes to its error or to what it does.
pub attempt-elim {ℓ κ} :
    {A : Type ℓ} (P : Option A × CasServer → Type κ) (call : CasServer → A × CasServer)
    (s : CasServer)
    → P (none, tick s)
    → P (value (call (tick s)))
    → P (attempt call s)
unfolding attempt
attempt-elim P call s fails works = elim (Bool-cases (s.down s.calls)) [
  | inl d ↦ rw d fails
  | inr u ↦ rw u works
]

-- What granting access does.
pub record Grants (org : ℕ) (key : Key) (s : CasServer) (r : Bool × CasServer) : Type 0 where
  pub granted : has_access org key r.1.access ≡ true
  pub disk : r.1.disk ≡ s.disk
  pub os : r.1.os ≡ s.os

pub grant-Grants :
    (org : ℕ) (key : Key) (s : CasServer) → Grants org key s (grant_cas_access org key s)
unfolding grant_cas_access has_access
grant-Grants org key s = elim (Bool-cases (has_access org key s.access)) [
  | inl had ↦ rw had (record { granted = had; disk = refl; os = refl })
  | inr new ↦ rw new (record { granted = ground (arith, eq_refl key); disk = refl; os = refl })
]

module _ (env : DiskEnv) where
  pub record IsSound (s : CasServer) : Type 0 where
    pub addressed : IsContentAddressed env s.disk
    pub access : All (λ (row : ℕ × Key). exists row.1 s.disk ≡ true) s.access

  -- Renaming a file replaces one that is there.
  abbrev pub Replaces : CasServer → Type 0
  Replaces s = (n : ℕ) → (s.os n).rename ≢ already_exists

  pub tick-IsSound : (s : CasServer) → IsSound s → IsSound (tick s)
  tick-IsSound s h = record { addressed = h.addressed; access = h.access }

  -- Access to a key with a blob keeps the state sound.
  pub grant-IsSound :
      (org : ℕ) (key : Key) (s : CasServer)
      → IsSound s
      → exists key s.disk ≡ true
      → IsSound (grant_cas_access org key s).1
  unfolding grant_cas_access
  grant-IsSound org key s h there = elim (Bool-cases (has_access org key s.access)) [
    | inl had ↦ rw had (record { addressed = h.addressed; access = h.access })
    | inr new ↦ rw new (record { addressed = h.addressed; access = (there, h.access) })
  ]

  -- A write of a body keeps the state sound, and leaves a blob if it succeeds.
  pub record Stores (key : Key) (s : CasServer) (r : Bool × CasServer) : Type 0 where
    pub sound : IsSound r.1
    pub made : r.0 ≡ true → exists key r.1.disk ≡ true
    pub access : r.1.access ≡ s.access
    pub os : r.1.os ≡ s.os

  pub write_body-Stores :
      IsLossless env
      → (compressed : Bool) (key : Key) (body : String) (s : CasServer) → IsSound s
      → Replaces s
      → Stores key s (write_body env compressed key body s)
  unfolding write_body with_disk
  write_body-Stores lossless false key body s h replaces =
      let w =
        write-Writes env lossless (s.os s.calls) key body s.disk h.addressed
          (λ e. absurd (replaces s.calls e)) in
      record {
        sound = record {
          addressed = w.addressed;
          access = All-imp (λ row there. w.keeps row.1 there) s.access h.access;
        };
        made = w.made;
        access = refl;
        os = refl;
      }
  write_body-Stores lossless true key body s h replaces =
      let w =
        write_compressed-Writes env (s.os s.calls) key body s.disk h.addressed
          (λ e. absurd (replaces s.calls e)) in
      record {
        sound = record {
          addressed = w.addressed;
          access = All-imp (λ row there. w.keeps row.1 there) s.access h.access;
        };
        made = w.made;
        access = refl;
        os = refl;
      }
