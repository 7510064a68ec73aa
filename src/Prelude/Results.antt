-- ===== src/Prelude/Results.antt =====
-- Python exceptions as values: the classes that the modelled code raises, and the error monad.
use Prim.Native.String.{String}
use mathlib.Core.Path.{◌≡◌, refl}
use mathlib.Core.Bool.{Bool, true, false}
use mathlib.Core.Logic.{◌⊎◌, inl, inr}

-- The text is the message, without the parts that an f-string fills in.
pub data Error : Type 0 where
  contract_validation : String → Error
  invalid_status_transition : String → Error
  overflow_error : Error
  manifest_transition : String → Error
  run_already_exists : Error
  run_not_found : Error
  concurrency_conflict : Error
  integrity_error : Error
  value_error : Error
  queue_record_error : Error
  duplicate_job_error : Error
  index_error : Error
  key_error : Error
  type_error : Error
  object_already_exists : Error
  object_not_found : Error
  upload_not_found : Error
  storage_integrity : Error
  invalid_storage_object : Error
  manifest_conflict : String → Error
  os_error : Error
  unicode_error : Error

pub data Result {ℓ} (T : Type ℓ) : Type ℓ where
  ok : T → Result T
  err : Error → Result T

infixl 5 ◌>>=◌
abbrev pub ◌>>=◌ {ℓ κ} : {T : Type ℓ} {U : Type κ} → Result T → (T → Result U) → Result U
err raised >>= next = err raised
ok value >>= next = next value

infixl 5 ◌>>◌
abbrev pub ◌>>◌ {κ} : {U : Type κ} → Result (Unit {0}) → Result U → Result U
check >> next = check >>= (λ done. next)

-- `if not b: raise e`
abbrev pub require : Bool → Error → Result (Unit {0})
require true e = ok tt
require false e = err e

-- `if b: raise e`
abbrev pub forbid : Bool → Error → Result (Unit {0})
forbid true e = err e
forbid false e = ok tt

-- What a sequence that did not raise went through.
module _ {κ} {U : Type κ} where
  pub >>-eq-ok :
      (check : Result (Unit {0})) (next : Result U) {u : U}
      → (check >> next) ≡ ok u
      → (check ≡ ok tt) × (next ≡ ok u)
  >>-eq-ok (err raised) next h = cc
  >>-eq-ok (ok tt) next h = (refl, h)

  pub >>=-eq-ok {ℓ} :
      {T : Type ℓ} (step : Result T) (next : T → Result U) {u : U}
      → (step >>= next) ≡ ok u
      → (value : T) × (step ≡ ok value) × (next value ≡ ok u)
  >>=-eq-ok (err raised) next h = cc
  >>=-eq-ok (ok value) next h = (value, refl, h)

pub require-ok : (b : Bool) (e : Error) → require b e ≡ ok tt → b ≡ true
require-ok true e h = refl
require-ok false e h = cc

pub forbid-ok : (b : Bool) (e : Error) → forbid b e ≡ ok tt → b ≡ false
forbid-ok true e h = cc
forbid-ok false e h = refl

pub Result-cases {ℓ} :
    {A : Type ℓ} (m : Result A) → ((a : A) × (m ≡ ok a)) ⊎ ((e : Error) × (m ≡ err e))
Result-cases (ok a) = inl (a, refl)
Result-cases (err e) = inr (e, refl)

pub ok-injective {ℓ} : {A : Type ℓ} {a b : A} → ok a ≡ ok b → a ≡ b
ok-injective h = cc
