-- ===== src/Courier/Cas/Laws.antt =====
-- What a write and a read of the object store answer (packages/courier/src/api/v1/cas/write.rs and
-- read.rs).
use hurry.Prelude.{
  ℕ, String, Bool, true, false, some, List, ◌∷◌, ◌≡◌, refl, arith, Bool-cases, eq_refl, inl, inr,
}
use hurry.Clients.Saved.{Key}
use hurry.Courier.Storage.{DiskEnv, exists, read}
use hurry.Courier.Storage.Laws.{IsLossless, exists-Reads}
use hurry.Courier.Cas.Calls.{CasServer, attempt, has_access, check_cas_access, grant_cas_access}
use hurry.Courier.Cas.{
  CasWriteResponse, CasReadResponse, handle_read, read_access, read_payload, payload, handle_write,
}
use hurry.Courier.Cas
use hurry.Courier.Cas.Sound.{IsSound, Replaces}
use hurry.Courier.Cas.Handlers.{handle_write-Written}

-- The same server, with all calls answered.
abbrev pub reached : CasServer → CasServer
reached s = record s { down = λ n. false }

own_row :
    (org : ℕ) (key : Key) (rows : List (ℕ × Key)) → has_access org key ((org, key) ∷ rows) ≡ true
unfolding has_access
own_row org key rows = ground (arith, eq_refl key)

module _ (env : DiskEnv) where
  -- A read answers with a content that has the key as its hash, and a compressed read with a body
  -- that decompresses to it.
  pub record Answers (org : ℕ) (key : Key) (s : CasServer) : Type 0 where
    pub content : String
    pub body : String
    pub hash : env.hash content ≡ key
    pub plain : (handle_read env org key false s).0 ≡ Cas.found content false
    pub compressed : (handle_read env org key true s).0 ≡ Cas.found body true
    pub decompressed : env.decompress body ≡ some content

  read-Answers :
      (org : ℕ) (key : Key) (s : CasServer)
      → IsSound env s
      → has_access org key s.access ≡ true
      → exists key s.disk ≡ true
      → Answers org key (reached s)
  unfolding handle_read attempt check_cas_access payload
  read-Answers org key s h access there =
      let r = exists-Reads env key s.disk h.addressed there in
      record {
        content = r.content;
        body = r.blob;
        hash = r.hash;
        plain = rw access (rw r.reads refl);
        compressed = rw access (rw r.reads_compressed refl);
        decompressed = r.decompressed;
      }

  -- After a write that answers that it created the key, whichever calls failed before, the organization
  -- reads the key: a content with the key as its hash. The store is sound, decompressing undoes
  -- compressing, and renaming a file replaces one that is there.
  pub write-read :
      IsLossless env
      → (org : ℕ) (key : Key) (compressed : Bool) (body : String) (s : CasServer) → IsSound env s
      → Replaces env s
      → (handle_write env org key compressed body s).0 ≡ CasWriteResponse.created
      → Answers org key (reached (handle_write env org key compressed body s).1)
  write-read lossless org key compressed body s h replaces e =
      let w = handle_write-Written env lossless org key compressed body s h replaces in
      read-Answers org key (handle_write env org key compressed body s).1 w.keeps.sound (w.access e)
        (w.blob e)

  -- A key that is in the store is opened to any organization that names it, whatever body it sends:
  -- where all calls are answered, the write answers that it created the key, and a read then gives
  -- the content that another organization has stored.
  pub write_of_any :
      (org : ℕ) (key : Key) (compressed : Bool) (body content : String) (s : CasServer)
      → read env key s.disk ≡ some content
      → exists key s.disk ≡ true
      → let r = handle_write env org key compressed body (reached s) in
        (r.0 ≡ CasWriteResponse.created)
        × ((handle_read env org key false r.1).0 ≡ Cas.found content false)
  unfolding handle_write handle_read attempt payload check_cas_access grant_cas_access
  write_of_any org key compressed body content s reads there =
      elim (Bool-cases (has_access org key s.access)) [
        | inl had ↦ rw there (rw had (refl, rw had (rw reads refl)))
        | inr new ↦ rw there (rw new (refl, rw (own_row org key s.access) (rw reads refl)))
      ]

  -- Nothing is read without access: a read that finds a body, by any server, is by an organization with
  -- access to the key.
  pub read-has_access :
      (org : ℕ) (key : Key) (compressed : Bool) (body : String) (form : Bool) (s : CasServer)
      → (handle_read env org key compressed s).0 ≡ Cas.found body form
      → has_access org key s.access ≡ true
  unfolding handle_read attempt check_cas_access
  read-has_access org key compressed body form s e = elim (Bool-cases (s.down s.calls)) [
    | inl d ↦ let bad = rw d at e in cc
    | inr u ↦ elim (Bool-cases (has_access org key s.access)) [
      | inl access ↦ access
      | inr no_access ↦ let bad = rw no_access at (rw u at e) in cc
    ]
  ]
