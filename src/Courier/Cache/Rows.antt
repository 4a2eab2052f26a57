-- ===== src/Courier/Cache/Rows.antt =====
-- The loop over the rows of a restore (packages/courier/src/db/cargo_cache.rs).
use mathlib.Core.List.{Memᴰ}
use hurry.Prelude.{
  ◌==◌, eq_iff, eq_refl, Bool, true, false, Option, none, some, List, [], ◌∷◌, ◌≡◌, refl, sym, ap,
  ◌∙◌, subst, arith, ◌⊎◌, inl, inr, if◌then◌else◌, All, Bool-cases,
}
use hurry.Clients.Glibc.{GlibcVersion}
use hurry.Clients.Saved.{SavedUnit, SavedUnitHash, CargoRestoreResponse, get, get-without}
use hurry.Courier.Cache.{SavedUnitRow, CacheEnv, put_unit, is_compatible, restore_rows, give}

some_inj {ℓ} : {A : Type ℓ} {a b : A} → ◌≡◌ {A = Option A} (some a) (some b) → a ≡ b
some_inj e = cc

get-put_unit :
    (k : SavedUnitHash) (u : SavedUnit) (units : CargoRestoreResponse) (j : SavedUnitHash)
    → get (put_unit k u units) j ≡ (if k == j then some u else get units j)
unfolding get put_unit
get-put_unit k u units j = ground (arith, get-without units k j)

module _ (env : CacheEnv) (host : Option GlibcVersion) where
  -- A row whose unit the response may hold.
  pub record IsGiven (rows : List SavedUnitRow) (h : SavedUnitHash) (u : SavedUnit) : Type 0 where
    pub row : SavedUnitRow
    pub among : Memᴰ row rows
    pub hash : row.unit_hash ≡ h
    pub decoded : env.from_json row.json ≡ some u
    pub compatible : is_compatible env host row.linux_glibc_version ≡ some true

  later-IsGiven :
      (row : SavedUnitRow) (rows : List SavedUnitRow) (h : SavedUnitHash) (u : SavedUnit)
      → IsGiven rows h u
      → IsGiven (row ∷ rows) h u
  later-IsGiven row rows h u g = record {
    row = g.row;
    among = Memᴰ.tail g.among;
    hash = g.hash;
    decoded = g.decoded;
    compatible = g.compatible;
  }

  -- Each unit of the response is that of a row.
  pub restore_rows-IsGiven :
      (rows : List SavedUnitRow) (artifacts response : CargoRestoreResponse) (h : SavedUnitHash)
      (u : SavedUnit)
      → restore_rows env host rows artifacts ≡ some response
      → get response h ≡ some u
      → (get artifacts h ≡ some u) ⊎ IsGiven rows h u
  unfolding restore_rows
  restore_rows-IsGiven [] artifacts response h u e found =
      inl (ap (λ r. get r h) (some_inj e) ∙ found)
  restore_rows-IsGiven (row ∷ rows) artifacts response h u e found =
      given (λ later run. restore_rows-IsGiven rows later response h u run found)
        (env.from_json row.json) (is_compatible env host row.linux_glibc_version) refl refl e
    where
      before :
          (unit : SavedUnit)
          → env.from_json row.json ≡ some unit
          → is_compatible env host row.linux_glibc_version ≡ some true
          → (get (put_unit row.unit_hash unit artifacts) h ≡ some u)
          → (get artifacts h ≡ some u) ⊎ IsGiven (row ∷ rows) h u
      before unit decoded compatible got = elim (Bool-cases (row.unit_hash == h)) [
        | inl same ↦
            let put = sym (get-put_unit row.unit_hash unit artifacts h) ∙ got in
            let unit_u : unit ≡ u = some_inj (rw same at put) in
            inr (record {
              row = row;
              among = Memᴰ.head refl;
              hash = (eq_iff row.unit_hash h).0 same;
              decoded = decoded ∙ ap (λ x. some x) unit_u;
              compatible = compatible;
            })
        | inr differs ↦
            inl (rw differs at (sym (get-put_unit row.unit_hash unit artifacts h) ∙ got))
      ]

      given :
          ((later : CargoRestoreResponse)
            → restore_rows env host rows later ≡ some response
            → (get later h ≡ some u) ⊎ IsGiven rows h u)
          → (o : Option SavedUnit) (c : Option Bool) → env.from_json row.json ≡ o
          → is_compatible env host row.linux_glibc_version ≡ c
          → give env (restore_rows env host rows) row.unit_hash o c artifacts ≡ some response
          → (get artifacts h ≡ some u) ⊎ IsGiven (row ∷ rows) h u
      given later none c decoded compatible run = cc
      given later (some unit) none decoded compatible run = cc
      given later (some unit) (some false) decoded compatible run = elim (later artifacts run) [
        | inl early ↦ inl early
        | inr g ↦ inr (later-IsGiven row rows h u g)
      ]
      given later (some unit) (some true) decoded compatible run =
          elim (later (put_unit row.unit_hash unit artifacts) run) [
            | inl early ↦ before unit decoded compatible early
            | inr g ↦ inr (later-IsGiven row rows h u g)
          ]

  -- A row that can be decoded.
  pub record IsReadable (row : SavedUnitRow) : Type 0 where
    pub unit : SavedUnit
    pub decoded : env.from_json row.json ≡ some unit
    pub compatible : (b : Bool) × (is_compatible env host row.linux_glibc_version ≡ some b)

  abbrev pub Offers : CargoRestoreResponse → SavedUnitHash → Type 0
  Offers units h = (u : SavedUnit) × (get units h ≡ some u)

  any_row :
      (row : SavedUnitRow) (rows : List SavedUnitRow) (response : CargoRestoreResponse)
      → ((row' : SavedUnitRow)
          → Memᴰ row' rows
          → is_compatible env host row'.linux_glibc_version ≡ some true
          → Offers response row'.unit_hash)
      → (is_compatible env host row.linux_glibc_version ≡ some true → Offers response row.unit_hash)
      → (row' : SavedUnitRow) → Memᴰ row' (row ∷ rows)
      → is_compatible env host row'.linux_glibc_version ≡ some true
      → Offers response row'.unit_hash
  any_row row rows response later this row' (Memᴰ.head e) c =
      subst (λ (x : SavedUnitRow). Offers response x.unit_hash) (sym e)
        (this (
          subst (λ (x : SavedUnitRow). is_compatible env host x.linux_glibc_version ≡ some true) e
            c))
  any_row row rows response later this row' (Memᴰ.tail m) c = later row' m c

  no-yes : {x : Option Bool} → x ≡ some false → x ≡ some true → ⊥
  no-yes off on = cc

  -- The loop succeeds on rows that can be decoded, and its response offers what was there before and
  -- each compatible row.
  pub record Restores (rows : List SavedUnitRow) (artifacts : CargoRestoreResponse) : Type 0 where
    pub response : CargoRestoreResponse
    pub runs : restore_rows env host rows artifacts ≡ some response
    pub keeps : (h : SavedUnitHash) → Offers artifacts h → Offers response h
    pub offers :
        (row : SavedUnitRow)
        → Memᴰ row rows
        → is_compatible env host row.linux_glibc_version ≡ some true
        → Offers response row.unit_hash

  pub restore_rows-Restores :
      (rows : List SavedUnitRow) (artifacts : CargoRestoreResponse)
      → All IsReadable rows
      → Restores rows artifacts
  unfolding restore_rows
  restore_rows-Restores [] artifacts h = record {
    response = artifacts;
    runs = refl;
    keeps = λ h o. o;
    offers = λ row m c. elim m [ ];
  }
  restore_rows-Restores (row ∷ rows) artifacts (r, readable) =
      let (b, compatible) = r.compatible in
      restored (λ later. restore_rows-Restores rows later readable) b compatible
    where
      put :
          (h : SavedUnitHash)
          → Offers artifacts h
          → Offers (put_unit row.unit_hash r.unit artifacts) h
      put h (u, e) = elim (Bool-cases (row.unit_hash == h)) [
        | inl same ↦ (r.unit, get-put_unit row.unit_hash r.unit artifacts h ∙ rw same refl)
        | inr differs ↦ (u, get-put_unit row.unit_hash r.unit artifacts h ∙ rw differs e)
      ]

      this : Offers (put_unit row.unit_hash r.unit artifacts) row.unit_hash
      this = (
        r.unit,
        get-put_unit row.unit_hash r.unit artifacts row.unit_hash ∙ rw (eq_refl row.unit_hash) refl,
      )

      restored :
          ((later : CargoRestoreResponse) → Restores rows later)
          → (b : Bool) → is_compatible env host row.linux_glibc_version ≡ some b
          → Restores (row ∷ rows) artifacts
      restored later false off =
          let rest = later artifacts in
          record {
            response = rest.response;
            runs = rw (r.decoded, off) rest.runs;
            keeps = rest.keeps;
            offers = λ row' m c.
                any_row row rows rest.response rest.offers (λ on. absurd (no-yes off on)) row' m c;
          }
      restored later true on =
          let rest = later (put_unit row.unit_hash r.unit artifacts) in
          record {
            response = rest.response;
            runs = rw (r.decoded, on) rest.runs;
            keeps = λ h o. rest.keeps h (put h o);
            offers = λ row' m c.
                any_row row rows rest.response rest.offers (λ yes. rest.keeps row.unit_hash this)
                  row' m c;
          }
