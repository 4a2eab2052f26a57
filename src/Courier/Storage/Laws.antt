-- ===== src/Courier/Storage/Laws.antt =====
-- The store is content addressed (packages/courier/src/storage.rs), whatever the operating system
-- answers.
use hurry.Prelude.{
  ℕ, String, ◌==◌, eq_iff, eq_refl, Bool, true, false, Option, none, some, List, [], ◌∷◌, ◌≡◌, refl,
  sym, ap, ◌∙◌, arith, All, Bool-cases, Option-cases, inl, inr,
}
use hurry.Clients.Saved.{Key}
use hurry.Courier.Storage.{
  DiskEnv, Disk, Renamed, renamed, already_exists, failed, Answers, lookup, exists, left,
  remove_temp, rename_temp, finish_write, write, write_decompressed, write_compressed, decoded,
  read, read_compressed, size, written_size,
}

some_inj {ℓ} : {A : Type ℓ} {a b : A} → ◌≡◌ {A = Option A} (some a) (some b) → a ≡ b
some_inj e = cc

not_there : false ≡ true → ⊥
not_there e = cc

module _ (env : DiskEnv) where
  -- A blob is the compressed form of a content with the key as its hash.
  pub record HasHash (x : Key × String) : Type 0 where
    pub content : String
    pub decompressed : env.decompress x.1 ≡ some content
    pub hash : env.hash content ≡ x.0

  -- A size is that of a content with the key as its hash.
  pub record HasSize (x : Key × ℕ) : Type 0 where
    pub content : String
    pub hash : env.hash content ≡ x.0
    pub len : env.len content ≡ x.1

  pub record IsContentAddressed (d : Disk) : Type 0 where
    pub blobs : All HasHash d.blobs
    pub sizes : All HasSize d.sizes

  -- A write: the store stays content addressed, what was there is still there, and a write that
  -- succeeds leaves a blob under the key.
  pub record Writes (key : Key) (d : Disk) (r : Bool × Disk) : Type 0 where
    pub addressed : IsContentAddressed r.1
    pub keeps : (k : Key) → exists k d ≡ true → exists k r.1 ≡ true
    pub made : r.0 ≡ true → exists key r.1 ≡ true

  -- A rename finds a file only where there is one.
  abbrev pub IsHonest : Answers → Key → Disk → Type 0
  IsHonest os key d = os.rename ≡ already_exists → exists key d ≡ true

  same_blobs :
      (key : Key) (blob : String) (ok : Bool) (os : Answers) (d : Disk)
      → IsContentAddressed d
      → (ok ≡ true → exists key d ≡ true)
      → Writes key d (ok, remove_temp os key blob d)
  unfolding exists
  same_blobs key blob ok os d h made = elim (Bool-cases os.temp_removed) [
    | inl r ↦ rw r (record { addressed = h; keeps = λ k e. e; made = made })
    | inr r ↦ rw r (record {
      addressed = record { blobs = h.blobs; sizes = h.sizes };
      keeps = λ k e. e;
      made = made;
    })
  ]

  left_blobs :
      (key : Key) (blob : String) (d : Disk)
      → IsContentAddressed d
      → Writes key d (false, left key blob d)
  unfolding exists
  left_blobs key blob d h = record {
    addressed = record { blobs = h.blobs; sizes = h.sizes };
    keeps = λ k e. e;
    made = λ e. absurd (not_there e);
  }

  rename-Writes :
      (key : Key) (blob content : String) (os : Answers) (r : Renamed) (d : Disk)
      → IsContentAddressed d
      → (r ≡ already_exists → exists key d ≡ true)
      → env.decompress blob ≡ some content
      → env.hash content ≡ key
      → Writes key d (rename_temp os key blob (env.len content) r d)
  unfolding exists lookup
  rename-Writes key blob content os already_exists d h honest e same =
      same_blobs key blob true os d h (λ ok. honest refl)
  rename-Writes key blob content os failed d h honest e same =
      same_blobs key blob false os d h (λ ok. absurd (not_there ok))
  rename-Writes key blob content os renamed d h honest e same = elim (Bool-cases os.size_written) [
    | inl w ↦ rw w (record {
      addressed = record {
        blobs = (record { content = content; decompressed = e; hash = same }, h.blobs);
        sizes = (record { content = content; hash = same; len = refl }, h.sizes);
      };
      keeps = λ k there. ground (arith, there);
      made = λ ok. ground (arith, eq_refl key);
    })
    | inr w ↦ rw w (record {
      addressed = record {
        blobs = (record { content = content; decompressed = e; hash = same }, h.blobs);
        sizes = h.sizes;
      };
      keeps = λ k there. ground (arith, there);
      made = λ ok. absurd (not_there ok);
    })
  ]

  finish_write-Writes :
      (key : Key) (blob content : String) (os : Answers) (d : Disk)
      → IsContentAddressed d
      → IsHonest os key d
      → env.decompress blob ≡ some content
      → Writes key d (finish_write os key blob (env.hash content) (env.len content) d)
  unfolding finish_write
  finish_write-Writes key blob content os d h honest e = elim (Bool-cases os.flushed) [
    | inr f ↦ rw f (left_blobs key blob d h)
    | inl f ↦ rw f (elim (Bool-cases (key == env.hash content)) [
      | inl same ↦ rw same (
          rename-Writes key blob content os os.rename d h honest e
            (sym ((eq_iff key (env.hash content)).0 same)))
      | inr differs ↦ rw differs (same_blobs key blob false os d h (λ ok. absurd (not_there ok)))
    ])
  ]

  -- Decompressing undoes compressing.
  abbrev pub IsLossless : Type 0
  IsLossless = (content : String) → env.decompress (env.compress content) ≡ some content

  pub write-Writes :
      IsLossless
      → (os : Answers) (key : Key) (content : String) (d : Disk) → IsContentAddressed d
      → IsHonest os key d
      → Writes key d (write env os key content d)
  unfolding write
  write-Writes lossless os key content d h honest = elim (Bool-cases os.parent_created) [
    | inr p ↦ rw p (record { addressed = h; keeps = λ k e. e; made = λ ok. absurd (not_there ok) })
    | inl p ↦ rw p (elim (Bool-cases os.temp_created) [
      | inr t ↦
          rw t (record { addressed = h; keeps = λ k e. e; made = λ ok. absurd (not_there ok) })
      | inl t ↦ rw t (elim (Bool-cases os.copied) [
        | inr c ↦ rw c (left_blobs key (env.compress content) d h)
        | inl c ↦ rw c (
            finish_write-Writes key (env.compress content) content os d h honest (lossless content))
      ])
    ])
  ]

  decompressed-Writes :
      (os : Answers) (key : Key) (blob : String) (d : Disk) (o : Option String)
      → env.decompress blob ≡ o
      → IsContentAddressed d
      → IsHonest os key d
      → Writes key d (write_decompressed env os key blob o d)
  decompressed-Writes os key blob d none e h honest = left_blobs key blob d h
  decompressed-Writes os key blob d (some content) e h honest =
      finish_write-Writes key blob content os d h honest e

  pub write_compressed-Writes :
      (os : Answers) (key : Key) (blob : String) (d : Disk)
      → IsContentAddressed d
      → IsHonest os key d
      → Writes key d (write_compressed env os key blob d)
  unfolding write_compressed
  write_compressed-Writes os key blob d h honest = elim (Bool-cases os.parent_created) [
    | inr p ↦ rw p (record { addressed = h; keeps = λ k e. e; made = λ ok. absurd (not_there ok) })
    | inl p ↦ rw p (elim (Bool-cases os.temp_created) [
      | inr t ↦
          rw t (record { addressed = h; keeps = λ k e. e; made = λ ok. absurd (not_there ok) })
      | inl t ↦ rw t (elim (Bool-cases os.copied) [
        | inr c ↦ rw c (left_blobs key blob d h)
        | inl c ↦ rw c (decompressed-Writes os key blob d (env.decompress blob) refl h honest)
      ])
    ])
  ]

  lookup-HasHash :
      (key : Key) (blobs : List (Key × String)) (blob : String)
      → All HasHash blobs
      → lookup blobs key ≡ some blob
      → HasHash (key, blob)
  unfolding lookup
  lookup-HasHash key [] blob h e = cc
  lookup-HasHash key ((k, b) ∷ blobs) blob h e = elim (Bool-cases (k == key)) [
    | inl same ↦
        let b_blob : b ≡ blob = some_inj (rw same at e) in
        record {
          content = h.0.content;
          decompressed = ap env.decompress (sym b_blob) ∙ h.0.decompressed;
          hash = h.0.hash ∙ (eq_iff k key).0 same;
        }
    | inr differs ↦ lookup-HasHash key blobs blob h.1 (rw differs at e)
  ]

  -- What is there is read as a content with the key as its hash.
  pub record Reads (key : Key) (d : Disk) : Type 0 where
    pub content : String
    pub blob : String
    pub hash : env.hash content ≡ key
    pub reads : read env key d ≡ some content
    pub reads_compressed : read_compressed env key d ≡ some blob
    pub decompressed : env.decompress blob ≡ some content

  pub exists-Reads :
      (key : Key) (d : Disk) → IsContentAddressed d → exists key d ≡ true → Reads key d
  unfolding exists read read_compressed
  exists-Reads key d h there = elim (Option-cases (lookup d.blobs key)) [
    | inl absent ↦ absurd (not_there (rw absent at there))
    | inr (blob, found) ↦
        let g = lookup-HasHash key d.blobs blob h.blobs found in
        record {
          content = g.content;
          blob = blob;
          hash = g.hash;
          reads = rw found g.decompressed;
          reads_compressed = found;
          decompressed = g.decompressed;
        }
  ]

  -- What reading a size does: it may write a size file.
  pub record Sizes (d : Disk) (r : Option ℕ × Disk) : Type 0 where
    pub addressed : IsContentAddressed r.1
    pub blobs : r.1.blobs ≡ d.blobs

  written_size-Sizes :
      (size_written : Bool) (key : Key) (o : Option String) (d : Disk)
      → IsContentAddressed d
      → ((content : String) → o ≡ some content → env.hash content ≡ key)
      → Sizes d (written_size env size_written key o d)
  written_size-Sizes size_written key none d h hash = record { addressed = h; blobs = refl }
  written_size-Sizes true key (some content) d h hash = record {
    addressed = record {
      blobs = h.blobs;
      sizes = (record { content = content; hash = hash content refl; len = refl }, h.sizes);
    };
    blobs = refl;
  }
  written_size-Sizes false key (some content) d h hash = record { addressed = h; blobs = refl }

  decoded-hash :
      (key : Key) (d : Disk) (content : String)
      → IsContentAddressed d
      → decoded env (lookup d.blobs key) ≡ some content
      → env.hash content ≡ key
  decoded-hash key d content h e = elim (Option-cases (lookup d.blobs key)) [
    | inl absent ↦ let bad = rw absent at e in cc
    | inr (blob, found) ↦
        let g = lookup-HasHash key d.blobs blob h.blobs found in
        let same : g.content ≡ content = some_inj (sym g.decompressed ∙ (rw found at e)) in
        ap env.hash (sym same) ∙ g.hash
  ]

  pub size-Sizes :
      (size_written : Bool) (key : Key) (d : Disk)
      → IsContentAddressed d
      → Sizes d (size env size_written key d)
  unfolding size
  size-Sizes size_written key d h = elim (Option-cases (lookup d.sizes key)) [
    | inr (n, found) ↦ rw found (record { addressed = h; blobs = refl })
    | inl unknown ↦ rw unknown (
        written_size-Sizes size_written key (decoded env (lookup d.blobs key)) d h
          (λ content e. decoded-hash key d content h e))
  ]
