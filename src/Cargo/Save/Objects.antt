-- ===== src/Cargo/Save/Objects.antt =====
-- The objects that `save_units` (packages/hurry/src/cargo/cache/save.rs) hands to the store, and
-- those that the saved units name.
use hurry.Prelude.{
  ◌+◌, String, true, false, List, [], ◌∷◌, map, ◌≡◌, refl, arith, All, All-append, contains, length,
  length-append, ◌⊎◌, inl, inr, Bool-cases,
}
use mathlib.Core.List.{Memᴰ}
use mathlib.Core.List.Memᴰ
use hurry.Clients.Saved.{Key, SavedUnit}
use hurry.Clients.Saved
use hurry.Clients.Requests.{CargoSaveUnitRequest}
use hurry.Cargo.Save.Units.{
  SaveEnv, SaveState, OutputFile, Restored, saved_file, upload, upload_files,
}
use hurry.Cargo.Save.Loop.{fresh}

-- The keys of the objects that a saved unit names.
abbrev pub object_keys : SavedUnit → List Key
object_keys (Saved.library_crate files _) =
    files.dep_info_file
    ∷ files.encoded_dep_info_file
    ∷ map (λ file. file.object_key) files.output_files
object_keys (Saved.build_script_compilation files _) =
    files.dep_info_file ∷ files.encoded_dep_info_file ∷ files.compiled_program ∷ []
object_keys (Saved.build_script_execution files _) =
    files.stdout ∷ files.stderr ∷ map (λ file. file.object_key) files.out_dir_files

module _ (env : SaveEnv) (skip : Restored) where
  -- An object with this key is among the uploads, with its contents.
  abbrev pub Uploads : List (Key × String) → Key → Type 0
  Uploads uploads key = (contents : String) × Memᴰ (key, contents) uploads

  -- It was restored, so it is in the store already, or it has been handed to the store.
  abbrev pub Held : SaveState → Key → Type 0
  Held s key = (contains skip.files key ≡ true) ⊎ Uploads s.stored key

  -- An upload has the hash of its contents as its key, and was not restored.
  abbrev pub Sound : Key × String → Type 0
  Sound x = (x.0 ≡ env.key_from_buffer x.1) × (contains skip.files x.0 ≡ false)

  -- Between two units.
  pub record Stocked (s : SaveState) : Type 0 where
    pub objects :
        All (λ (r : CargoSaveUnitRequest). All (Held s) (object_keys r.unit)) s.save_requests
    pub sound : All Sound s.stored
    pub counted : s.progress.uploaded_files ≡ length s.stored

  -- While a unit's uploads are collected.
  pub record Filling (s0 s : SaveState) : Type 0 where
    pub stored : s.stored ≡ s0.stored
    pub requests : s.save_requests ≡ s0.save_requests
    pub sound : All Sound s.cas_uploads
    pub counted : s.progress.uploaded_files ≡ length s.stored + length s.cas_uploads

  abbrev pub Has : SaveState → Key → Type 0
  Has s key = Held s key ⊎ Uploads s.cas_uploads key

  pub fresh-Filling : (s : SaveState) → Stocked s → Filling s (fresh s)
  fresh-Filling s h = record {
    stored = refl;
    requests = refl;
    sound = tt;
    counted = omega (arith, h.counted);
  }

  pub upload-Filling :
      (contents : String) (s0 s : SaveState)
      → Filling s0 s
      → Filling s0 (upload env skip contents s)
  unfolding upload
  upload-Filling contents s0 s h =
      elim (Bool-cases (contains skip.files (env.key_from_buffer contents))) [
        | inl there ↦ rw there h
        | inr new ↦ rw new (record {
          stored = h.stored;
          requests = h.requests;
          sound = All-append Sound s.cas_uploads _ h.sound ((refl, new), tt);
          counted = omega (
            arith,
            h.counted,
            length-append s.cas_uploads ((env.key_from_buffer contents, contents) ∷ []),
          );
        })
      ]

  pub upload-Has :
      (contents : String) (s : SaveState)
      → Has (upload env skip contents s) (env.key_from_buffer contents)
  unfolding upload
  upload-Has contents s = elim (Bool-cases (contains skip.files (env.key_from_buffer contents))) [
    | inl there ↦ rw there (inl (inl refl))
    | inr new ↦ rw new (inr (contents, Memᴰ.append_right s.cas_uploads (Memᴰ.head refl)))
  ]

  -- What there is stays when another file is uploaded.
  pub upload-grows :
      (contents : String) (s : SaveState) (key : Key)
      → Has s key
      → Has (upload env skip contents s) key
  unfolding upload
  upload-grows contents s key h =
      elim (Bool-cases (contains skip.files (env.key_from_buffer contents))) [
        | inl there ↦ rw there h
        | inr new ↦
            rw new (elim h [ inl held ↦ inl held | inr (c, m) ↦ inr (c, Memᴰ.append_left _ m) ])
      ]

  pub upload_files-Filling :
      (files : List OutputFile) (s0 s : SaveState)
      → Filling s0 s
      → Filling s0 (upload_files env skip files s)
  unfolding upload_files
  upload_files-Filling [] s0 s h = h
  upload_files-Filling (file ∷ files) s0 s h =
      upload_files-Filling files s0 _ (upload-Filling file.contents s0 s h)

  upload_files-grows :
      (files : List OutputFile) (s : SaveState) (key : Key)
      → Has s key
      → Has (upload_files env skip files s) key
  unfolding upload_files
  upload_files-grows [] s key h = h
  upload_files-grows (file ∷ files) s key h =
      upload_files-grows files _ key (upload-grows file.contents s key h)

  pub upload_files-Has :
      (files : List OutputFile) (s : SaveState)
      → All
          (Has (upload_files env skip files s))
          (map (λ file. file.object_key) (map (saved_file env) files))
  unfolding upload_files
  upload_files-Has [] s = tt
  upload_files-Has (file ∷ files) s =
      (upload_files-grows files _ _ (upload-Has file.contents s), upload_files-Has files _)
