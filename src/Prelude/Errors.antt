-- ===== src/Prelude/Errors.antt =====
-- Python's exceptions: a method that may raise returns a `Result`. The constructors are the
-- exception classes that the code raises or that the runtime raises under it; message texts are
-- not modelled.
use mathlib.Core.Path.{◌≡◌, refl}
use mathlib.Core.Bool.{Bool, true, false}

pub data Error : Type 0 where
  value_error type_error struct_error unicode_error index_error key_error attribute_error : Error
  overflow_error runtime_error assertion_error : Error
  execution_error compile_error sql_error parse_error catalog_error transaction_error : Error
  duplicate_key out_of_fuel : Error

pub data Result {ℓ} (A : Type ℓ) : Type ℓ where
  err : Error → Result A
  ok : A → Result A

-- A condition that the code checks, with the exception that it raises otherwise.
abbrev pub guard : Bool → Error → Result (Unit {0})
guard false raised = err raised
guard true raised = ok tt

infixl 5 ◌>>=◌ ◌>>◌
abbrev pub ◌>>=◌ {ℓ κ} : {A : Type ℓ} {B : Type κ} → Result A → (A → Result B) → Result B
err raised >>= next = err raised
ok a >>= next = next a

-- A bind that returns: what its first part returned, and the rest from there.
pub >>=-eq-ok {ℓ κ} :
    {B : Type ℓ} {C : Type κ} (first : Result B) (rest : B → Result C) {c : C}
    → (first >>= rest) ≡ ok c
    → (b : B) × (first ≡ ok b) × (rest b ≡ ok c)
>>=-eq-ok (err raised) rest returns = cc
>>=-eq-ok (ok b) rest returns = (b, refl, returns)

-- A check that passed.
pub guard-eq-ok : (b : Bool) (e : Error) (u : Unit {0}) → guard b e ≡ ok u → b ≡ true
guard-eq-ok true e u h = refl
guard-eq-ok false e u h = absurd (cc h)

abbrev pub ◌>>◌ {ℓ} : {B : Type ℓ} → Result (Unit {0}) → Result B → Result B
first >> second = first >>= λ _. second
