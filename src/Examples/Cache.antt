-- ===== src/Examples/Cache.antt =====
-- A save and restores of the server (packages/courier/src/db/cargo_cache.rs), with numbers in unary.
use mathlib.Core.List.{Memᴰ}
use hurry.Prelude.{
  ℕ, zero, suc, String, ◌==◌, false, Option, none, some, List, [], ◌∷◌, ◌≡◌, ◌≢◌, refl, ap, arith,
  if◌then◌else◌, contains, All, sym, ◌∙◌, eq_iff,
}
use hurry.Cargo.BuildArgs.Text.{eq_char, split, repeat, count_char}
use hurry.Cargo.BuildArgs.Text.Laws.{IsFree, count_char-repeat}
use hurry.Clients.Glibc.{GlibcVersion, older}
use hurry.Clients.Requests.{CargoSaveUnitRequest, CargoRestoreRequest}
use hurry.Clients.Saved.{SavedUnit, CargoRestoreResponse, get, unit_hash}
use hurry.Courier.Cache.{
  SavedUnitRow, CacheEnv, select_rows, cargo_cache_save, cargo_cache_restore, cargo_cache_reset,
  save, restore, ok, not_found,
}
use hurry.Courier.Cache
use hurry.Courier.Cache.Laws.{cargo_cache_save-IsSaved, IsLawful, IsItem, IsSaved}
use hurry.Courier.Cache.Answers.{
  Provides, cargo_cache_restore-Provides, save-restore, restore_unversioned, restore-isolated,
}
use hurry.Examples.Data.{saved_library, saved_run}

abbrev unit_a : SavedUnit
unit_a = saved_library "a" "fa" []

abbrev unit_c : SavedUnit
unit_c = saved_run "c" "fc"

abbrev env : CacheEnv
env = record {
  to_json = λ unit. if unit_hash unit == "a" then "A" else "C";
  from_json =
      λ text. if text == "A" then some unit_a else if text == "C" then some unit_c else none;
  read_u32 = λ text. some (count_char "i" text);
  show_u32 = λ n. repeat "i" n;
  fetched = λ rows. rows;
}

repeat-IsFree : (n : ℕ) → IsFree (λ c. eq_char c ".") (repeat "i" n)
unfolding repeat
repeat-IsFree zero = tt
repeat-IsFree (suc n) = (refl, repeat-IsFree n)

env-IsLawful : IsLawful env
env-IsLawful = record {
  text =
      λ n h. record { free = repeat-IsFree n; reads = ap (λ x. some x) (count_char-repeat "i" n) };
  all = λ l row m. m;
  only = λ l row m. m;
}

abbrev glibc : ℕ → GlibcVersion
glibc minor = record { major = 2; minor = minor; patch = 0 }

-- One unit for glibc and one for a platform without it.
abbrev item_a : CargoSaveUnitRequest
item_a = record {
  unit = unit_a;
  resolved_target = "x86_64-unknown-linux-gnu";
  linux_glibc_version = some (glibc 3);
}

abbrev item_c : CargoSaveUnitRequest
item_c = record {
  unit = unit_c;
  resolved_target = "x86_64-unknown-linux-musl";
  linux_glibc_version = none;
}

abbrev items : List CargoSaveUnitRequest
items = item_a ∷ item_c ∷ []

abbrev table : List SavedUnitRow
table = cargo_cache_save env 1 items []

abbrev ask : Option GlibcVersion → CargoRestoreRequest
ask host = record { units = "a" ∷ "c" ∷ []; host_glibc_version = host }

run : Unit {0}
unfolding save restore split count_char repeat get cargo_cache_reset
run = tt

stored : save env 1 false items [] ≡ (Cache.created, table)
unfolding run
stored = refl

newer_host : restore env 1 false (ask (some (glibc 4))) table ≡ ok (("a", unit_a) ∷ [])
unfolding run
newer_host = refl

older_host : restore env 1 false (ask (some (glibc 2))) table ≡ not_found
unfolding run
older_host = refl

other_organization : restore env 2 false (ask (some (glibc 4))) table ≡ not_found
unfolding run
other_organization = refl

items-IsItem : IsItem env item_a × IsItem env item_c
unfolding unit_hash
items-IsItem = (
  record { json = refl; version = (ground arith, ground arith, ground arith) },
  record { json = refl; version = tt },
)

table-IsSaved : All (IsSaved env) table
table-IsSaved =
    cargo_cache_save-IsSaved env env-IsLawful 1 items [] (items-IsItem.0, (items-IsItem.1, tt)) tt

abbrev answer : CargoRestoreResponse
answer = ("a", unit_a) ∷ []

answers : cargo_cache_restore env 1 (ask (some (glibc 4))) table ≡ some answer
unfolding run
answers = refl

cargo_cache_restore-Provides_example :
    Provides env env-IsLawful 1 (ask (some (glibc 4))) table "a" unit_a
unfolding get
cargo_cache_restore-Provides_example =
    cargo_cache_restore-Provides env env-IsLawful 1 (ask (some (glibc 4))) table answer "a" unit_a
      table-IsSaved answers refl

save-restore_example :
    (response : CargoRestoreResponse) × (cargo_cache_restore env 1 (ask (some (glibc 3))) table
      ≡ some response)
    × (u : SavedUnit) × (get response "a" ≡ some u)
    × Provides env env-IsLawful 1 (ask (some (glibc 3))) table "a" u
unfolding unit_hash contains older
save-restore_example =
    save-restore env env-IsLawful 1 (ask (some (glibc 3))) [] items item_a tt
      (items-IsItem.0, (items-IsItem.1, tt)) (Memᴰ.head refl) refl refl

-- The hash of `c` has no version in any row.
c_without :
    (row : SavedUnitRow)
    → Memᴰ row table
    → row.organization_id ≡ 1
    → row.unit_hash ≡ "c"
    → row.linux_glibc_version ≡ none
unfolding cargo_cache_save
c_without row (Memᴰ.head e) o h =
    absurd (not_c (sym (ap (λ (r : SavedUnitRow). r.unit_hash) e) ∙ h))
  where
    not_c : ◌≡◌ {A = String} "a" "c" → ⊥
    not_c e = ground (arith, eq_iff "a" "c")
c_without row (Memᴰ.tail (Memᴰ.head e)) o h = ap (λ (r : SavedUnitRow). r.linux_glibc_version) e
c_without row (Memᴰ.tail (Memᴰ.tail m)) o h = elim m [ ]

restore_unversioned_example : get answer "c" ≢ some unit_c
restore_unversioned_example =
    restore_unversioned env env-IsLawful 1 (glibc 4) ("a" ∷ "c" ∷ []) table answer "c" table-IsSaved
      c_without answers unit_c

restore-isolated_example :
    (cargo_cache_restore env 1 (ask none) (cargo_cache_save env 2 items table)
      ≡ cargo_cache_restore env 1 (ask none) table)
    × (cargo_cache_restore env 1 (ask none) (cargo_cache_reset 2 table)
        ≡ cargo_cache_restore env 1 (ask none) table)
restore-isolated_example = restore-isolated env 1 2 (λ e. omega arith) (ask none) items table
