-- ===== src/Courier/Cas/Handlers.antt =====
-- The endpoints keep the store sound (packages/courier/src/api/v1/cas/write.rs and bulk/write.rs).
use hurry.Prelude.{
  ℕ, String, Bool, true, false, none, some, List, [], ◌∷◌, ◌≡◌, refl, sym, ap, ◌∙◌, subst,
  Bool-cases, inl, inr,
}
use hurry.Clients.Saved.{Key}
use hurry.Courier.Storage.{DiskEnv, exists}
use hurry.Courier.Storage.Laws.{IsLossless}
use hurry.Courier.Cas.Calls.{CasServer, tick, value, attempt, has_access, grant_cas_access}
use hurry.Courier.Cas.{
  CasWriteResponse, granted, write_body, after_write, after_exists, handle_write,
}
use hurry.Courier.Cas.Bulk.{
  Entry, CasBulkWriteResponse, grant_existing, grant_written, after_entry_write, after_entry_exists,
  write_entry, write_entries,
}
use hurry.Courier.Cas.Sound.{
  IsSound, Replaces, Stores, attempt-elim, grant-Grants, grant-IsSound, tick-IsSound,
  write_body-Stores,
}

module _ (env : DiskEnv) where
  -- A step that keeps the state sound.
  pub record Keeps (s s' : CasServer) : Type 0 where
    pub sound : IsSound env s'
    pub os : s'.os ≡ s.os

  -- And after which, if it says so, the organization has access to a key with a blob.
  pub record Written (org : ℕ) (key : Key) (s : CasServer) (r : CasWriteResponse × CasServer)
      : Type 0 where
    pub keeps : Keeps s r.1
    pub access : r.0 ≡ CasWriteResponse.created → has_access org key r.1.access ≡ true
    pub blob : r.0 ≡ CasWriteResponse.created → exists key r.1.disk ≡ true

  error_created : CasWriteResponse.error ≡ CasWriteResponse.created → ⊥
  error_created e = cc

  failed :
      (org : ℕ) (key : Key) (s s' : CasServer)
      → Keeps s s'
      → Written org key s (CasWriteResponse.error, s')
  failed org key s s' k = record {
    keeps = k;
    access = λ e. absurd (error_created e);
    blob = λ e. absurd (error_created e);
  }

  ticked : (s s' : CasServer) → Keeps s s' → Keeps s (tick s')
  ticked s s' k = record { sound = tick-IsSound env s' k.sound; os = k.os }

  grant-Keeps :
      (org : ℕ) (key : Key) (s s' : CasServer)
      → Keeps s s'
      → exists key s'.disk ≡ true
      → Keeps s (grant_cas_access org key (tick s')).1
  grant-Keeps org key s s' k there = record {
    sound = grant-IsSound env org key (tick s') (tick-IsSound env s' k.sound) there;
    os = (grant-Grants org key (tick s')).os ∙ k.os;
  }

  -- Granting access to a key with a blob.
  granted-Written :
      (org : ℕ) (key : Key) (s s' : CasServer)
      → Keeps s s'
      → exists key s'.disk ≡ true
      → Written org key s (granted (attempt (grant_cas_access org key) s'))
  granted-Written org key s s' k there =
      attempt-elim (λ r. Written org key s (granted r)) (grant_cas_access org key) s'
        (failed org key s (tick s') (ticked s s' k))
        (let g = grant-Grants org key (tick s') in
          record {
            keeps = grant-Keeps org key s s' k there;
            access = λ e. g.granted;
            blob = λ e. subst (λ d. exists key d ≡ true) (sym g.disk) there;
          })

  module _ (lossless : IsLossless env) where
    after_write-Written :
        (org : ℕ) (key : Key) (s s' : CasServer) (r : Bool × CasServer)
        → Keeps s s'
        → Stores env key s' r
        → Written org key s (after_write env org key r)
    after_write-Written org key s s' (false, s'') k w =
        failed org key s s'' (record { sound = w.sound; os = w.os ∙ k.os })
    after_write-Written org key s s' (true, s'') k w =
        granted-Written org key s s'' (record { sound = w.sound; os = w.os ∙ k.os }) (w.made refl)

    pub handle_write-Written :
        (org : ℕ) (key : Key) (compressed : Bool) (body : String) (s : CasServer)
        → IsSound env s
        → Replaces env s
        → Written org key s (handle_write env org key compressed body s)
    unfolding handle_write
    handle_write-Written org key compressed body s h replaces =
        attempt-elim (λ r. Written org key s (after_exists env org key compressed body r))
          (λ t. (exists key t.disk, t)) s (failed org key s (tick s) start)
          (elim (Bool-cases (exists key s.disk)) [
            | inl there ↦ rw there (granted-Written org key s (tick s) start there)
            | inr new ↦ rw new (
                after_write-Written org key s (tick s) _ start (
                  write_body-Stores env lossless compressed key body (tick s) (tick-IsSound env s h)
                    replaces))
          ])
      where
        start : Keeps s (tick s)
        start = record { sound = tick-IsSound env s h; os = refl }

    grant_existing-Keeps :
        (org : ℕ) (key : Key) (r : CasBulkWriteResponse) (s s' : CasServer)
        → Keeps s s'
        → exists key s'.disk ≡ true
        → Keeps s (grant_existing key r (attempt (grant_cas_access org key) s')).1
    grant_existing-Keeps org key r s s' k there =
        attempt-elim (λ o. Keeps s (grant_existing key r o).1) (grant_cas_access org key) s'
          (ticked s s' k)
          (new (grant_cas_access org key (tick s')) (grant-Keeps org key s s' k there))
      where
        new : (g : Bool × CasServer) → Keeps s g.1 → Keeps s (grant_existing key r (value g)).1
        new (true, t) h = h
        new (false, t) h = h

    after_entry_write-Keeps :
        (org : ℕ) (compressed : Bool) (key : Key) (r : CasBulkWriteResponse) (s s' : CasServer)
        (w : Bool × CasServer)
        → Keeps s s'
        → Stores env key s' w
        → Keeps s (after_entry_write env org compressed key r w).1
    after_entry_write-Keeps org compressed key r s s' (false, t) k w = record {
      sound = w.sound;
      os = w.os ∙ k.os;
    }
    after_entry_write-Keeps org compressed key r s s' (true, t) k w =
        attempt-elim (λ o. Keeps s (grant_written key r o).1) (grant_cas_access org key) t
          (ticked s t now) (grant-Keeps org key s t now (w.made refl))
      where
        now : Keeps s t
        now = record { sound = w.sound; os = w.os ∙ k.os }

    write_entry-Keeps :
        (org : ℕ) (compressed : Bool) (key : Key) (body : String) (r : CasBulkWriteResponse)
        (s : CasServer)
        → IsSound env s
        → Replaces env s
        → Keeps s (write_entry env org compressed key body r s).1
    unfolding write_entry
    write_entry-Keeps org compressed key body r s h replaces =
        attempt-elim (λ o. Keeps s (after_entry_exists env org compressed key body r o).1)
          (λ t. (exists key t.disk, t)) s write
          (elim (Bool-cases (exists key s.disk)) [
            | inl there ↦ rw there (grant_existing-Keeps org key r s (tick s) start there)
            | inr new ↦ rw new write
          ])
      where
        start : Keeps s (tick s)
        start = record { sound = tick-IsSound env s h; os = refl }

        write :
            Keeps s
              (after_entry_write env org compressed key r
                (write_body env compressed key body (tick s))).1
        write = after_entry_write-Keeps org compressed key r s (tick s) _ start (
            write_body-Stores env lossless compressed key body (tick s) (tick-IsSound env s h)
              replaces)

    pub write_entries-Keeps :
        (org : ℕ) (compressed : Bool) (entries : List Entry) (r : CasBulkWriteResponse)
        (s : CasServer)
        → IsSound env s
        → Replaces env s
        → Keeps s (write_entries env org compressed entries r s).1
    unfolding write_entries
    write_entries-Keeps org compressed [] r s h replaces = record { sound = h; os = refl }
    write_entries-Keeps org compressed (none ∷ entries) r s h replaces = record {
      sound = h;
      os = refl;
    }
    write_entries-Keeps org compressed (some (key, body) ∷ entries) r s h replaces =
        let k = write_entry-Keeps org compressed key body r s h replaces in
        let next = write_entry env org compressed key body r s in
        let l =
          write_entries-Keeps org compressed entries next.0 next.1 k.sound
            (λ n e. replaces n (ap (λ os. (os n).rename) (sym k.os) ∙ e)) in
        record { sound = l.sound; os = l.os ∙ k.os }
