-- ===== src/Base/Exceptions.antt =====
-- The exceptions of the services (`@nestjs/common`) as values. Their messages are not modelled.
use mathlib.Core.Path.{◌≡◌, refl}
use mathlib.Core.Logic.{◌⊎◌, inl, inr}
use mathlib.Core.Bool.{Bool, true, false}
use mathlib.Core.Option.{Option, none, some}

pub data HttpException : Type 0 where
  bad_request unauthorized forbidden not_found conflict internal_server_error : HttpException

pub data Result {ℓ} (Value : Type ℓ) : Type ℓ where
  ok : Value → Result Value
  err : HttpException → Result Value

-- `if (!value) throw why`.
abbrev pub or_throw {ℓ} : {Value : Type ℓ} → Option Value → HttpException → Result Value
or_throw (some value) why = ok value
or_throw none why = err why

-- `if (!test) throw why`.
abbrev pub guard : Bool → HttpException → Result (Unit {0})
guard false why = err why
guard true why = ok tt

pub Result-cases {ℓ} :
    {Value : Type ℓ} (r : Result Value)
    → ((why : HttpException) × (r ≡ err why)) ⊎ ((value : Value) × (r ≡ ok value))
Result-cases (err why) = inl (why, refl)
Result-cases (ok value) = inr (value, refl)

pub guard-eq-ok :
    (test : Bool) (why : HttpException) {u : Unit {0}} → guard test why ≡ ok u → test ≡ true
guard-eq-ok false why passed = cc
guard-eq-ok true why passed = refl

pub or_throw-eq-ok {ℓ} :
    {Value : Type ℓ} (found : Option Value) (why : HttpException) {value : Value}
    → or_throw found why ≡ ok value
    → found ≡ some value
or_throw-eq-ok (some value) why passed = cc
or_throw-eq-ok none why passed = cc

pub ok-injective {ℓ} : {Value : Type ℓ} {x y : Value} → ok x ≡ ok y → x ≡ y
ok-injective same = cc

module _ {ℓ κ} {Value : Type ℓ} {Next : Type κ} where
  infixl 5 ◌>>=◌
  abbrev pub ◌>>=◌ : Result Value → (Value → Result Next) → Result Next
  err why >>= next = err why
  ok value >>= next = next value

  pub >>=-eq-ok :
      (first : Result Value) (next : Value → Result Next) {final : Next}
      → (first >>= next) ≡ ok final
      → (value : Value) × (first ≡ ok value) × (next value ≡ ok final)
  >>=-eq-ok (err why) next passed = cc
  >>=-eq-ok (ok value) next passed = (value, refl, passed)

infixl 5 ◌>>◌
abbrev pub ◌>>◌ {ℓ} : {Next : Type ℓ} → Result (Unit {0}) → Result Next → Result Next
check >> rest = check >>= λ _. rest
