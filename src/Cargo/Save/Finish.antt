-- ===== src/Cargo/Save/Finish.antt =====
-- The end of each arm of `save_units` (packages/hurry/src/cargo/cache/save.rs): the uploads are handed to
-- the store, and the request is pushed.
use hurry.Prelude.{
  String, Option, List, [], ◌∷◌, ◌++◌, ◌≡◌, refl, sym, ap, ◌∙◌, subst, All, All-append, All-imp,
  length, length-append, inl, inr,
}
use mathlib.Core.List.{Memᴰ}
use mathlib.Core.List.Memᴰ
use hurry.Cargo.Result.{Result, ok, err, OnOk, OnOk-bind, OnOk-any}
use hurry.Cargo.Target.{RustcTarget}
use hurry.Clients.Saved.{Key}
use hurry.Cargo.Fingerprint.{Fingerprint}
use hurry.Clients.Requests.{CargoSaveUnitRequest}
use hurry.Cargo.Save.Units.{
  SaveEnv, SaveState, BulkStoreResult, if_stored, Restored, rewrite_fingerprint, store_uploads,
}
use hurry.Cargo.Save.Loop.{finish}
use hurry.Cargo.Save.Objects.{object_keys, Held, Has, Sound, Stocked, Filling}

-- The uploads are behind what has been handed over, and the rest is as before.
pub record Stores (s s' : SaveState) : Type 0 where
  stored : s'.stored ≡ s.stored ++ s.cas_uploads
  requests : s'.save_requests ≡ s.save_requests
  files : s'.progress.uploaded_files ≡ s.progress.uploaded_files

append-nil : (l : List (Key × String)) → l ≡ l ++ []
append-nil [] = refl
append-nil (x ∷ l) = ap (λ t. x ∷ t) (append-nil l)

module _ (env : SaveEnv) where
  store_uploads-Stores : (s : SaveState) → OnOk (Stores s) (store_uploads env s)
  unfolding store_uploads
  store_uploads-Stores s = uploads s.cas_uploads refl
    where
      kept : (r : Result BulkStoreResult) → OnOk (Stores s) (if_stored env s r)
      kept (err e) = tt
      kept (ok result) = record { stored = refl; requests = refl; files = refl }

      uploads :
          (l : List (Key × String))
          → s.cas_uploads ≡ l
          → OnOk
              (Stores s)
              (elim l [ [] ↦ ok s | x ∷ xs ↦ if_stored env s (env.store_bulk s.cas_uploads) ])
      uploads [] e = record {
        stored = append-nil s.stored ∙ ap (λ l. s.stored ++ l) (sym e);
        requests = refl;
        files = refl;
      }
      uploads (x ∷ xs) e = kept (env.store_bulk s.cas_uploads)

  module _ (skip : Restored) where
    -- What was collected or held is held once the uploads are stored.
    stored-Held :
        (s s' : SaveState) → Stores s s' → (key : Key) → Has env skip s key → Held env skip s' key
    stored-Held s s' h key (inl (inl there)) = inl there
    stored-Held s s' h key (inl (inr (c, m))) =
        inr (c, subst (Memᴰ (key, c)) (sym h.stored) (Memᴰ.append_left s.cas_uploads m))
    stored-Held s s' h key (inr (c, m)) =
        inr (c, subst (Memᴰ (key, c)) (sym h.stored) (Memᴰ.append_right s.stored m))

    refilled :
        (s0 s : SaveState)
        → Filling env skip s0 s
        → (key : Key) → Held env skip s0 key
        → Has env skip s key
    refilled s0 s f key (inl there) = inl (inl there)
    refilled s0 s f key (inr (c, m)) = inl (inr (c, subst (Memᴰ (key, c)) (sym f.stored) m))

    still :
        (s0 s s' : SaveState)
        → Filling env skip s0 s
        → Stores s s'
        → (requests : List CargoSaveUnitRequest)
        → All (λ (q : CargoSaveUnitRequest). All (Held env skip s0) (object_keys q.unit)) requests
        → All (λ (q : CargoSaveUnitRequest). All (Held env skip s') (object_keys q.unit)) requests
    still s0 s s' f k requests h =
        All-imp (λ q held. All-imp (λ key x. stored-Held s s' k key (refilled s0 s f key x)) _ held)
          requests h

    pub finish-Stocked :
        (target : RustcTarget) (path : Option String) (on_disk : Fingerprint)
        (make : String → CargoSaveUnitRequest) (s0 s : SaveState)
        → Stocked env skip s0
        → Filling env skip s0 s
        → ((text : String) → All (Has env skip s) (object_keys (make text).unit))
        → OnOk (Stocked env skip) (finish env target path on_disk make s)
    unfolding finish
    finish-Stocked target path on_disk make s0 s h f new =
        OnOk-bind (Stores s) (Stocked env skip) (store_uploads env s) _ (store_uploads-Stores s)
          (λ stored k.
            OnOk-bind (λ _. Unit {0}) (Stocked env skip)
              (rewrite_fingerprint env target path stored.dep_fingerprints on_disk) _ (OnOk-any _)
              (λ r _. record {
                objects =
                    All-append _ stored.save_requests _
                      (subst
                        (All (λ (q : CargoSaveUnitRequest).
                          All (Held env skip stored) (object_keys q.unit)))
                        (sym (k.requests ∙ f.requests))
                        (still s0 s stored f k s0.save_requests h.objects))
                      (All-imp (stored-Held s stored k) _ (new r.0), tt);
                sound = subst (All (Sound env skip)) (sym k.stored) (
                    All-append _ s.stored _ (subst (All (Sound env skip)) (sym f.stored) h.sound)
                      f.sound);
                counted =
                    k.files
                    ∙ f.counted
                    ∙ sym (length-append s.stored s.cas_uploads)
                    ∙ ap length (sym k.stored);
              }))
