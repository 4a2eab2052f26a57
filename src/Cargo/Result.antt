-- ===== src/Cargo/Result.antt =====
-- Results of the fallible operations: the errors that the modelled code makes, by their messages.
use hurry.Prelude.{◌≡◌, refl}

pub data Error : Type 0 where
  -- "tried to rewrite unset fingerprint path"
  unset_path : Error
  -- "dependency fingerprint hash not found"
  dep_not_found : Error
  -- "fingerprint hash mismatch"
  hash_mismatch : Error
  -- a JSON text that `serde_json` refuses
  bad_json : Error
  -- "unit type mismatch"
  unit_type_mismatch : Error
  -- "unrecognized key from CAS bulk response"
  unrecognized_key : Error
  -- "unit hash restore progress not initialized"
  not_initialized : Error
  -- a file operation that failed
  io_error : Error
  -- a text that is no path of the wanted kind
  bad_path : Error
  -- "unexpected fingerprint path root", "impossible: fingerprint path is not absolute"
  unexpected_root : Error
  -- "no output/input separator"
  no_separator : Error

-- The value first, as Rust's `Result<T>` has it.
pub data Result {ℓ} (T : Type ℓ) : Type ℓ where
  ok : (value : T) → Result T
  err : (error : Error) → Result T

-- What holds of the value of a result, if it has one.
abbrev pub OnOk {ℓ κ} : {T : Type ℓ} → (T → Type κ) → Result T → Type κ
OnOk P (err error) = Unit
OnOk P (ok value) = P value

pub OnOk-any {ℓ} : {T : Type ℓ} (r : Result T) → OnOk (λ _. Unit {0}) r
OnOk-any (err error) = tt
OnOk-any (ok value) = tt

infixl 5 ◌>>=◌ ◌>>◌
-- `?` on a result, and what follows it.
abbrev pub ◌>>=◌ {ℓ κ} : {T : Type ℓ} {S : Type κ} → Result T → (T → Result S) → Result S
err error >>= next = err error
ok value >>= next = next value

pub OnOk-bind {ℓ κ μ ν} :
    {T : Type ℓ} {S : Type κ} (P : T → Type μ) (Q : S → Type ν) (r : Result T) (next : T → Result S)
    → OnOk P r
    → ((value : T) → P value → OnOk Q (next value))
    → OnOk Q (r >>= next)
OnOk-bind P Q (err error) next h k = tt
OnOk-bind P Q (ok value) next h k = k value h

abbrev pub ◌>>◌ {ℓ} : {S : Type ℓ} → Result (Unit {0}) → Result S → Result S
first >> second = first >>= λ _. second

pub >>=-eq-ok {ℓ κ} :
    {T : Type ℓ} {S : Type κ} (r : Result T) (next : T → Result S) {last : S}
    → (r >>= next) ≡ ok last
    → (value : T) × (r ≡ ok value) × (next value ≡ ok last)
>>=-eq-ok (err error) next q = cc
>>=-eq-ok (ok value) next q = (value, refl, q)
