-- ===== src/Prelude/Errors.antt =====
-- A call that may raise: its value, or the class of the exception (messages are not modelled).
use mathlib.Core.Path.{◌≡◌, refl}
use mathlib.Core.Bool.{Bool, true, false}
use mathlib.Core.Logic.{◌⊎◌, inl, inr}

-- The exception classes that the modelled code raises itself.
pub data Error : Type 0 where
  value_error overflow_error control_contract policy_invariant lookup_error : Error
  lineage_conflict lineage_integrity : Error
  budget_exceeded api_circuit_open : Error
  harness_contract harness_invariant trace_contract trace_invariant : Error
  model_contract model_invariant : Error

pub data Outcome {ℓ} (A : Type ℓ) : Type ℓ where
  ok : A → Outcome A
  raise : Error → Outcome A

infixl 5 ◌>>=◌ ◌>>◌
abbrev pub ◌>>=◌ {ℓ κ} : {A : Type ℓ} {B : Type κ} → Outcome A → (A → Outcome B) → Outcome B
ok a >>= f = f a
raise e >>= f = raise e

abbrev pub ◌>>◌ {ℓ} : {B : Type ℓ} → Outcome (Unit {0}) → Outcome B → Outcome B
m >> k = m >>= λ _. k

-- `if bad: raise e`
abbrev pub raise_if : Bool → Error → Outcome (Unit {0})
raise_if true e = raise e
raise_if false e = ok tt

-- A chain that succeeds passed its first call.
pub >>=-eq-ok {ℓ κ} :
    {A : Type ℓ} {B : Type κ} (call : Outcome A) (rest : A → Outcome B) {result : B}
    → (call >>= rest) ≡ ok result
    → (v : A) × (call ≡ ok v) × (rest v ≡ ok result)
>>=-eq-ok (raise error) rest passed = cc
>>=-eq-ok (ok v) rest passed = (v, refl, passed)

-- A guard that let the call go on did not hold.
pub raise_if-eq-ok : (bad : Bool) (e : Error) {u : Unit {0}} → raise_if bad e ≡ ok u → bad ≡ false
raise_if-eq-ok true e h = cc
raise_if-eq-ok false e h = refl

pub >>-eq-ok {ℓ} :
    {B : Type ℓ} (bad : Bool) (e : Error) (k : Outcome B) {b : B}
    → (raise_if bad e >> k) ≡ ok b
    → (bad ≡ false) × (k ≡ ok b)
>>-eq-ok true e k h = cc
>>-eq-ok false e k h = (refl, h)

pub Outcome-cases {ℓ} :
    {A : Type ℓ} (m : Outcome A) → ((a : A) × (m ≡ ok a)) ⊎ ((e : Error) × (m ≡ raise e))
Outcome-cases (ok a) = inl (a, refl)
Outcome-cases (raise e) = inr (e, refl)
