-- ===== src/Cargo/Save/Same.antt =====
-- What the uploads of one unit leave alone (packages/hurry/src/cargo/cache/save.rs).
use hurry.Prelude.{String, List, [], ◌∷◌, ◌≡◌, refl, ◌∙◌, contains, Bool-cases, inl, inr}
use hurry.Cargo.Result.{Result, ok, err, OnOk}
use hurry.Cargo.Save.Units.{
  SaveEnv, SaveState, OutputFile, BulkStoreResult, if_stored, Restored, upload, upload_files,
  store_uploads,
}
use hurry.Clients.Saved.{Key}
use hurry.Cargo.Save.Loop.{fresh}

-- The counts of units, what has been reported, the requests and the fingerprints are as before.
pub record Same (s s' : SaveState) : Type 0 where
  pub uploaded : s'.progress.uploaded_units ≡ s.progress.uploaded_units
  pub total : s'.progress.total_units ≡ s.progress.total_units
  pub reports : s'.reports ≡ s.reports
  pub requests : s'.save_requests ≡ s.save_requests
  pub deps : s'.dep_fingerprints ≡ s.dep_fingerprints

pub Same-trans : (s s' s'' : SaveState) → Same s s' → Same s' s'' → Same s s''
Same-trans s s' s'' h k = record {
  uploaded = k.uploaded ∙ h.uploaded;
  total = k.total ∙ h.total;
  reports = k.reports ∙ h.reports;
  requests = k.requests ∙ h.requests;
  deps = k.deps ∙ h.deps;
}

pub fresh-Same : (s : SaveState) → Same s (fresh s)
fresh-Same s = record {
  uploaded = refl;
  total = refl;
  reports = refl;
  requests = refl;
  deps = refl;
}

module _ (env : SaveEnv) where
  module _ (skip : Restored) where
    pub upload-Same : (contents : String) (s : SaveState) → Same s (upload env skip contents s)
    unfolding upload
    upload-Same contents s =
        elim (Bool-cases (contains skip.files (env.key_from_buffer contents))) [
          | inl there ↦ rw there (record {
            uploaded = refl;
            total = refl;
            reports = refl;
            requests = refl;
            deps = refl;
          })
          | inr new ↦ rw new (record {
            uploaded = refl;
            total = refl;
            reports = refl;
            requests = refl;
            deps = refl;
          })
        ]

    upload_files-Same :
        (files : List OutputFile) (s : SaveState) → Same s (upload_files env skip files s)
    unfolding upload_files
    upload_files-Same [] s = record {
      uploaded = refl;
      total = refl;
      reports = refl;
      requests = refl;
      deps = refl;
    }
    upload_files-Same (file ∷ files) s =
        Same-trans s (upload env skip file.contents s) _ (upload-Same file.contents s)
          (upload_files-Same files (upload env skip file.contents s))

  pub store_uploads-Same : (s : SaveState) → OnOk (Same s) (store_uploads env s)
  unfolding store_uploads
  store_uploads-Same s = uploads s.cas_uploads
    where
      kept : (r : Result BulkStoreResult) → OnOk (Same s) (if_stored env s r)
      kept (err e) = tt
      kept (ok result) = record {
        uploaded = refl;
        total = refl;
        reports = refl;
        requests = refl;
        deps = refl;
      }

      uploads :
          (l : List (Key × String))
          → OnOk
              (Same s)
              (elim l [ [] ↦ ok s | x ∷ xs ↦ if_stored env s (env.store_bulk s.cas_uploads) ])
      uploads [] = record {
        uploaded = refl;
        total = refl;
        reports = refl;
        requests = refl;
        deps = refl;
      }
      uploads (x ∷ xs) = kept (env.store_bulk s.cas_uploads)

  module _ (skip : Restored) where
    pub two-Same :
        (a b : String) (s s' : SaveState)
        → Same s s'
        → Same s (upload env skip a (upload env skip b s'))
    two-Same a b s s' h =
        Same-trans s (upload env skip b s') _ (Same-trans s s' _ h (upload-Same skip b s'))
          (upload-Same skip a (upload env skip b s'))

    pub fresh_files-Same :
        (files : List OutputFile) (s : SaveState) → Same s (upload_files env skip files (fresh s))
    fresh_files-Same files s =
        Same-trans s (fresh s) _ (fresh-Same s) (upload_files-Same skip files (fresh s))
