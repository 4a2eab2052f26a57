-- ===== src/Courier/Cas/Serve.antt =====
-- The endpoints of the object store as one function on requests, and what any requests keep
-- (packages/courier/src/api/v1/cas and db/cargo_cache.rs).
use hurry.Prelude.{
  ℕ, String, Bool, true, false, Option, none, some, List, [], ◌∷◌, ◌≡◌, refl, sym, ap, ◌∙◌, subst,
  contains, All, Bool-cases, inl, inr, nat_eq,
}
use hurry.Clients.Saved.{Key}
use hurry.Courier.Storage.{DiskEnv, is_there, exists, lookup}
use hurry.Courier.Storage.Laws.{IsLossless, size-Sizes}
use hurry.Courier.Cas.Calls.{
  CasServer, tick, attempt, with_disk, check_cas_access, revoke_access, reset_access, accessible,
}
use hurry.Courier.Cas.{
  handle_check, checked_access, checked_blob, handle_read, read_access, read_payload, payload,
  handle_write,
}
use hurry.Courier.Cas.Bulk.{
  Entry, handle_bulk_write, handle_bulk_read, read_entries, read_entry, body_size, after_open,
  after_size, after_append, archive,
}
use hurry.Courier.Cas.Sound.{IsSound, Replaces, attempt-elim, tick-IsSound}
use hurry.Courier.Cas.Handlers.{Keeps, handle_write-Written, write_entries-Keeps}

pub data CasRequest : Type 0 where
  check : Key → CasRequest
  read : Key → (compressed : Bool) → CasRequest
  write : Key → (compressed : Bool) → (body : String) → CasRequest
  bulk_read : List Key → (compressed : Bool) → CasRequest
  bulk_write : List Entry → (compressed : Bool) → CasRequest
  reset : CasRequest

module _ (env : DiskEnv) where
  -- The state after a request of an organization.
  unfoldable pub serve : ℕ → CasRequest → CasServer → CasServer
  unfolding handle_check handle_read handle_write handle_bulk_read handle_bulk_write reset_access
  serve org (check key) s = (handle_check org key s).1
  serve org (read key compressed) s = (handle_read env org key compressed s).1
  serve org (write key compressed body) s = (handle_write env org key compressed body s).1
  serve org (bulk_read keys compressed) s = (handle_bulk_read env compressed org keys s).1
  serve org (bulk_write entries compressed) s = (handle_bulk_write env org compressed entries s).1
  serve org reset s = (attempt (reset_access org) s).1

  unfoldable pub serve_all : List (ℕ × CasRequest) → CasServer → CasServer
  unfolding serve
  serve_all [] s = s
  serve_all ((org, request) ∷ requests) s = serve_all requests (serve org request s)

  ticks : (s s' : CasServer) → Keeps env s s' → Keeps env s (tick s')
  ticks s s' k = record { sound = tick-IsSound env s' k.sound; os = k.os }

  start : (s : CasServer) → IsSound env s → Keeps env s (tick s)
  start s h = record { sound = tick-IsSound env s h; os = refl }

  handle_check-Keeps :
      (org : ℕ) (key : Key) (s : CasServer) → IsSound env s → Keeps env s (handle_check org key s).1
  unfolding handle_check
  handle_check-Keeps org key s h =
      attempt-elim (λ r. Keeps env s (checked_access key r).1)
        (λ t. (check_cas_access org key t, t)) s (start s h)
        (elim (Bool-cases (check_cas_access org key (tick s))) [
          | inr no_access ↦ rw no_access (start s h)
          | inl access ↦ rw access (
              attempt-elim (λ r. Keeps env s (checked_blob r).1) (λ t. (exists key t.disk, t))
                (tick s) (ticks s (tick s) (start s h))
                (elim (Bool-cases (exists key s.disk)) [
                  | inl there ↦ rw there (ticks s (tick s) (start s h))
                  | inr absent ↦ rw absent (ticks s (tick s) (start s h))
                ]))
        ])

  read_payload-Keeps :
      (compressed : Bool) (o : Option String) (s s' : CasServer)
      → Keeps env s s'
      → Keeps env s (read_payload env compressed (some o, s')).1
  read_payload-Keeps compressed none s s' k = k
  read_payload-Keeps compressed (some body) s s' k = k

  handle_read-Keeps :
      (org : ℕ) (key : Key) (compressed : Bool) (s : CasServer)
      → IsSound env s
      → Keeps env s (handle_read env org key compressed s).1
  unfolding handle_read payload
  handle_read-Keeps org key compressed s h =
      attempt-elim (λ r. Keeps env s (read_access env key compressed r).1)
        (λ t. (check_cas_access org key t, t)) s (start s h)
        (elim (Bool-cases (check_cas_access org key (tick s))) [
          | inr no_access ↦ rw no_access (start s h)
          | inl access ↦ rw access (
              attempt-elim (λ r. Keeps env s (read_payload env compressed r).1)
                (payload env compressed key) (tick s) (ticks s (tick s) (start s h))
                (read_payload-Keeps compressed _ s (tick (tick s)) (ticks s (tick s) (start s h))))
        ])

  body_size-Keeps :
      (compressed : Bool) (key : Key) (s s' : CasServer)
      → Keeps env s s'
      → Keeps env s (body_size env compressed key s').1
  unfolding body_size with_disk exists
  body_size-Keeps true key s s' k = k
  body_size-Keeps false key s s' k =
      let z = size-Sizes env (s'.os s'.calls).size_written key s'.disk k.sound.addressed in
      record {
        sound = record {
          addressed = z.addressed;
          access =
              subst
                (λ blobs. All (λ (row : ℕ × Key). is_there (lookup blobs row.1) ≡ true) s'.access)
                (sym z.blobs) k.sound.access;
        };
        os = k.os;
      }

  after_size-Keeps :
      (compressed : Bool) (key : Key) (body : String) (o : Option ℕ) (s s' : CasServer)
      → Keeps env s s'
      → Keeps env s (after_size env compressed key body (some o, s')).1
  after_size-Keeps compressed key body none s s' k = k
  after_size-Keeps compressed key body (some n) s s' k =
      attempt-elim (λ r. Keeps env s (after_append env compressed key n body r).1) (λ t. (tt, t)) s'
        (ticks s s' k) (ticks s s' k)

  after_open-Keeps :
      (compressed : Bool) (key : Key) (o : Option String) (s s' : CasServer)
      → Keeps env s s'
      → Keeps env s (after_open env compressed key (some o, s')).1
  after_open-Keeps compressed key none s s' k = k
  after_open-Keeps compressed key (some body) s s' k =
      attempt-elim (λ r. Keeps env s (after_size env compressed key body r).1)
        (body_size env compressed key) s' (ticks s s' k)
        (after_size-Keeps compressed key body (body_size env compressed key (tick s')).0 s _
          (body_size-Keeps compressed key s (tick s') (ticks s s' k)))

  read_entries-Keeps :
      (compressed : Bool) (allowed keys : List Key) (s s' : CasServer)
      → Keeps env s s'
      → Keeps env s (read_entries env compressed allowed keys s').1
  unfolding read_entries read_entry payload
  read_entries-Keeps compressed allowed [] s s' k = k
  read_entries-Keeps compressed allowed (key ∷ keys) s s' k =
      elim (Bool-cases (contains allowed key)) [
        | inr skipped ↦ rw skipped (read_entries-Keeps compressed allowed keys s s' k)
        | inl taken ↦ rw taken (
            read_entries-Keeps compressed allowed keys s _ (
              attempt-elim (λ r. Keeps env s (after_open env compressed key r).1)
                (payload env compressed key) s' (ticks s s' k)
                (after_open-Keeps compressed key _ s (tick s') (ticks s s' k))))
      ]

  revoked :
      (P : Key → Type 0) (org : ℕ) (rows : List (ℕ × Key))
      → All (λ (row : ℕ × Key). P row.1) rows
      → All (λ (row : ℕ × Key). P row.1) (revoke_access org rows)
  unfolding revoke_access
  revoked P org [] h = tt
  revoked P org ((o, k) ∷ rows) (h, hs) = elim (Bool-cases (nat_eq o org)) [
    | inl mine ↦ rw mine (revoked P org rows hs)
    | inr other ↦ rw other (h, revoked P org rows hs)
  ]

  reset-Keeps :
      (org : ℕ) (s : CasServer) → IsSound env s → Keeps env s (attempt (reset_access org) s).1
  unfolding reset_access
  reset-Keeps org s h =
      attempt-elim (λ r. Keeps env s r.1) (reset_access org) s (start s h)
        (record {
          sound = record {
            addressed = h.addressed;
            access = revoked (λ key. exists key s.disk ≡ true) org s.access h.access;
          };
          os = refl;
        })

  module _ (lossless : IsLossless env) where
    serve-Keeps :
        (org : ℕ) (request : CasRequest) (s : CasServer)
        → IsSound env s
        → Replaces env s
        → Keeps env s (serve org request s)
    unfolding serve handle_bulk_read handle_bulk_write
    serve-Keeps org (check key) s h replaces = handle_check-Keeps org key s h
    serve-Keeps org (read key compressed) s h replaces = handle_read-Keeps org key compressed s h
    serve-Keeps org (write key compressed body) s h replaces =
        (handle_write-Written env lossless org key compressed body s h replaces).keeps
    serve-Keeps org (bulk_read keys compressed) s h replaces =
        attempt-elim (λ r. Keeps env s (archive env compressed keys r).1)
          (λ t. (accessible org keys t.access, t)) s (start s h)
          (read_entries-Keeps compressed (accessible org keys s.access) keys s (tick s) (start s h))
    serve-Keeps org (bulk_write entries compressed) s h replaces =
        write_entries-Keeps env lossless org compressed entries _ s h replaces
    serve-Keeps org reset s h replaces = reset-Keeps org s h

    -- Any requests of any organizations, whichever calls fail, keep the store sound: each blob is the
    -- compressed form of a content with the key as its hash, each size that of such a content, and
    -- each key that an organization has access to has a blob. Decompressing undoes compressing,
    -- and renaming a file replaces one that is there.
    pub serve_all-IsSound :
        (requests : List (ℕ × CasRequest)) (s : CasServer)
        → IsSound env s
        → Replaces env s
        → IsSound env (serve_all requests s)
    unfolding serve_all
    serve_all-IsSound [] s h replaces = h
    serve_all-IsSound ((org, request) ∷ requests) s h replaces =
        let k = serve-Keeps org request s h replaces in
        serve_all-IsSound requests (serve org request s) k.sound
          (λ n e. replaces n (ap (λ os. (os n).rename) (sym k.os) ∙ e))
