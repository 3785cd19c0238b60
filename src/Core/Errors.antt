-- ===== src/Core/Errors.antt =====
-- core/errors.py: the stable codes, the catalogue and the exception that carries a code.
-- A call that may raise returns a `Result`.
pub mod Code
pub mod Catalog
use biaice.Common.{ℕ, Bool, true, false, Option, none, some, Text, ◌≡◌, refl}
use Code.{ErrorCode}
use Catalog.{ErrorDefinition, definition}

-- An exception: a `BiaiceError`, or one of Python's and pydantic's that the modelled code raises.
pub data Failure : Type 0 where
  stable : ErrorCode → Failure
  value_error runtime_error validation_error key_error index_error : Failure

-- What a call returned, or the exception that it raised.
pub data Result {ℓ} (A : Type ℓ) : Type ℓ where
  err : Failure → Result A
  ok : A → Result A

module _ {ℓ κ} {A : Type ℓ} {B : Type κ} where
  infixl 5 ◌>>=◌
  abbrev pub ◌>>=◌ : Result A → (A → Result B) → Result B
  err failure >>= next = err failure
  ok value >>= next = next value

  -- A step that returned, and the rest after it.
  pub >>=-eq-ok :
      (step : Result A) (next : A → Result B) {b : B}
      → (step >>= next) ≡ ok b
      → (value : A) × (step ≡ ok value) × (next value ≡ ok b)
  >>=-eq-ok (err failure) next returned = cc
  >>=-eq-ok (ok value) next returned = (value, refl, returned)

pub ok_inj {ℓ} : {A : Type ℓ} {x y : A} → ok x ≡ ok y → x ≡ y
ok_inj h = cc

module _ {κ} {B : Type κ} where
  infixl 5 ◌>>◌
  abbrev pub ◌>>◌ : Result (Unit {0}) → Result B → Result B
  check >> rest = check >>= λ _. rest

-- `if b: raise BiaiceError(code)`
abbrev pub raise_if : Bool → ErrorCode → Result (Unit {0})
raise_if true c = err (stable c)
raise_if false c = ok tt

abbrev pub or_raise {ℓ} : {A : Type ℓ} → Option A → ErrorCode → Result A
or_raise none c = err (stable c)
or_raise (some a) c = ok a

abbrev pub is_ok {ℓ} : {A : Type ℓ} → Result A → Bool
is_ok (ok _) = true
is_ok (err _) = false

pub raise_if-eq-ok : (b : Bool) (c : ErrorCode) {u : Unit {0}} → raise_if b c ≡ ok u → b ≡ false
raise_if-eq-ok true c h = cc
raise_if-eq-ok false c h = refl

pub or_raise-eq-ok {ℓ} :
    {A : Type ℓ} (o : Option A) (c : ErrorCode) {a : A} → or_raise o c ≡ ok a → o ≡ some a
or_raise-eq-ok none c h = cc
or_raise-eq-ok (some x) c h = cc
