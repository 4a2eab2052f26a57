-- ===== src/Examples/Cas.antt =====
-- Writes and reads of the object store (packages/courier/src/api/v1/cas), with contents as their own
-- hashes and a letter in front as the compression.
use hurry.Prelude.{ℕ, String, true, false, none, some, List, [], ◌∷◌, ◌≡◌, refl}
use hurry.Cargo.BuildScript.{strip_prefix}
use hurry.Courier.Storage.{DiskEnv, Answers, renamed, exists, read}
use hurry.Courier.Storage.Laws.{IsLossless}
use hurry.Courier.Cas.Calls
use hurry.Courier.Cas.Calls.{CasServer}
use hurry.Courier.Cas.{CasWriteResponse, CasReadResponse, handle_read, handle_write}
use hurry.Courier.Cas.Bulk.{handle_bulk_write, handle_bulk_read, partial_success}
use hurry.Courier.Cas.Sound.{IsSound, Replaces}
use hurry.Courier.Cas.Serve.{CasRequest, serve_all, serve_all-IsSound}
use hurry.Courier.Cas.Serve
use hurry.Courier.Cas.Laws.{reached, write-read, write_of_any, read-has_access}
use hurry.Courier.Cas.Laws

abbrev env : DiskEnv
env = record {
  hash = λ content. content;
  compress = λ content. String.◌∷◌ "z" content;
  decompress = λ blob. strip_prefix "z" blob;
  len = λ content. 4;
}

env-IsLossless : IsLossless env
unfolding strip_prefix
env-IsLossless content = refl

abbrev works : Answers
works = record {
  parent_created = true;
  temp_created = true;
  copied = true;
  flushed = true;
  temp_removed = true;
  rename = renamed;
  size_written = true;
}

abbrev empty : CasServer
empty = record {
  keys = [];
  access = [];
  disk = record { blobs = []; sizes = []; temps = [] };
  calls = 0;
  down = λ n. false;
  os = λ n. works;
}

empty-IsSound : IsSound env empty
empty-IsSound = record { addressed = record { blobs = tt; sizes = tt }; access = tt }

empty-Replaces : Replaces env empty
empty-Replaces n e = cc

run : Unit {0}
unfolding handle_write handle_read handle_bulk_write handle_bulk_read strip_prefix exists read
    serve_all
run = tt

abbrev after : CasServer
after = (handle_write env 1 "code" false "code" empty).1

first_write : (handle_write env 1 "code" false "code" empty).0 ≡ CasWriteResponse.created
unfolding run
first_write = refl

wrong_hash : (handle_write env 1 "code" false "other" empty).0 ≡ CasWriteResponse.error
unfolding run
wrong_hash = refl

no_access : (handle_read env 2 "code" false after).0 ≡ CasReadResponse.not_found
unfolding run
no_access = refl

bulk :
    (handle_bulk_write env 1 false
      (some ("a", "a") ∷ some ("b", "x") ∷ some ("code", "junk") ∷ [])
      after).0
    ≡ partial_success (record { written = "a" ∷ []; skipped = "code" ∷ []; errors = "b" ∷ [] })
unfolding run
bulk = refl

bulk_reads :
    (handle_bulk_read env false 1 ("b" ∷ "code" ∷ []) after).0 ≡ some (("code", 4, "code") ∷ [])
unfolding run
bulk_reads = refl

write-read_example : Laws.Answers env 1 "code" (reached after)
write-read_example =
    write-read env env-IsLossless 1 "code" false "code" empty empty-IsSound empty-Replaces
      first_write

blob_there : (read env "code" after.disk ≡ some "code") × (exists "code" after.disk ≡ true)
unfolding run
blob_there = (refl, refl)

write_of_any_example :
    ((handle_write env 2 "code" false "junk" (reached after)).0 ≡ CasWriteResponse.created)
    × ((handle_read env 2 "code" false (handle_write env 2 "code" false "junk" (reached after)).1).0
        ≡ CasReadResponse.found "code" false)
write_of_any_example = write_of_any env 2 "code" false "junk" "code" after blob_there.0 blob_there.1

own_read : (handle_read env 1 "code" false after).0 ≡ CasReadResponse.found "code" false
unfolding run
own_read = refl

read-has_access_example : Calls.has_access 1 "code" after.access ≡ true
read-has_access_example = read-has_access env 1 "code" false "code" false after own_read

abbrev requests : List (ℕ × CasRequest)
requests =
    (1, Serve.write "code" false "code")
    ∷ (2, Serve.read "code" true)
    ∷ (2, Serve.bulk_write (some ("code", "junk") ∷ none ∷ []) false)
    ∷ (2, Serve.bulk_read ("code" ∷ []) false)
    ∷ (1, Serve.check "code")
    ∷ (1, Serve.reset)
    ∷ []

serve_all-IsSound_example : IsSound env (serve_all env requests empty)
serve_all-IsSound_example =
    serve_all-IsSound env env-IsLossless requests empty empty-IsSound empty-Replaces
