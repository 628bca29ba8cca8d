-- ===== src/Base/Errors.antt =====
-- What a call that may raise returns: a value, or the class of the exception that it raised.
use mathlib.Core.Path.{◌≡◌, refl}
use mathlib.Core.Logic.{◌⊎◌, inl, inr}
use mathlib.Core.Bool.{Bool, true, false}

-- The exception classes of the program; the text of a message is not modelled.
pub data Fault : Type 0 where
  type_error value_error runtime_error index_error key_error memory_error sql_query_error : Fault

pub data Outcome {ℓ} (A : Type ℓ) : Type ℓ where
  ok : A → Outcome A
  raise : Fault → Outcome A

infixl 5 ◌>>=◌ ◌>>◌
abbrev pub ◌>>=◌ {ℓ κ} : {A : Type ℓ} {B : Type κ} → Outcome A → (A → Outcome B) → Outcome B
raise fault >>= call = raise fault
ok value >>= call = call value

abbrev pub ◌>>◌ {ℓ} : {B : Type ℓ} → Outcome (Unit {0}) → Outcome B → Outcome B
first >> second = first >>= λ _. second

-- `if test: raise fault`
abbrev pub raise_if : Bool → Fault → Outcome (Unit {0})
raise_if true e = raise e
raise_if false e = ok tt

-- The parts of a chain that returned.
pub >>=-eq-ok {ℓ κ} :
    {A : Type ℓ} {B : Type κ} (first : Outcome A) (then_call : A → Outcome B) {result : B}
    → (first >>= then_call) ≡ ok result
    → (value : A) × (first ≡ ok value) × (then_call value ≡ ok result)
>>=-eq-ok (ok value) then_call whole = (value, refl, whole)
>>=-eq-ok (raise fault) then_call whole = cc

-- A guard that was passed.
pub raise_if-eq-ok {ℓ} :
    {B : Type ℓ} (test : Bool) (fault : Fault) (rest : Outcome B) {result : B}
    → (raise_if test fault >> rest) ≡ ok result
    → (test ≡ false) × (rest ≡ ok result)
raise_if-eq-ok true fault rest whole = cc
raise_if-eq-ok false fault rest whole = (refl, whole)

-- A case of a result, with the equation of a value.
pub outcome-elim {ℓ κ} :
    {A : Type ℓ} (P : Outcome A → Type κ) (o : Outcome A)
    → ((a : A) → o ≡ ok a → P (ok a))
    → ((fault : Fault) → P (raise fault))
    → P o
outcome-elim P (ok a) good bad = good a refl
outcome-elim P (raise fault) good bad = bad fault

pub Outcome-cases {ℓ} :
    {A : Type ℓ} (o : Outcome A) → ((a : A) × (o ≡ ok a)) ⊎ ((fault : Fault) × (o ≡ raise fault))
Outcome-cases (ok a) = inl (a, refl)
Outcome-cases (raise fault) = inr (fault, refl)
