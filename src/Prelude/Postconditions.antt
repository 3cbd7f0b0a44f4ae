-- ===== src/Prelude/Postconditions.antt =====
-- What a call ensures of the value that it gives, with one rule for each way to write a call.
use mathlib.Core.Path.{◌≡◌, refl, subst}
use mathlib.Core.Bool.{Bool, true, false}
use post_training_rsi_pipeli.Prelude.Tests.{if◌then◌else◌}
use post_training_rsi_pipeli.Prelude.Errors.{Error, Outcome, ok, raise, ◌>>=◌, ◌>>◌, raise_if}

-- A value that the call gives has the property.
abbrev pub Ensures {ℓ κ} : {A : Type ℓ} → (A → Type κ) → Outcome A → Type (ℓ ⊔ κ)
Ensures {A} Q m = (a : A) → m ≡ ok a → Q a

module _ {ℓ κ} {A : Type ℓ} (Q : A → Type κ) where
  value_of : A → Outcome A → A
  value_of d (ok a) = a
  value_of d (raise e) = d

  pub ok-Ensures : (a : A) → Q a → Ensures Q (ok a)
  unfolding value_of
  ok-Ensures a q b h = subst Q (λ i. value_of a (h i)) q

  pub raise-Ensures : (e : Error) → Ensures Q (raise e)
  raise-Ensures e b h = cc

  -- what the first call gives is known to be its value
  pub >>=-Ensures {μ} :
      {B : Type μ} (m : Outcome B) (f : B → Outcome A)
      → ((b : B) → m ≡ ok b → Ensures Q (f b))
      → Ensures Q (m >>= f)
  >>=-Ensures (ok b) f r = r b refl
  >>=-Ensures (raise e) f r = raise-Ensures e

  pub raise_if-Ensures :
      (bad : Bool) (e : Error) (m : Outcome A)
      → (bad ≡ false → Ensures Q m)
      → Ensures Q (raise_if bad e >> m)
  raise_if-Ensures true e m r = raise-Ensures e
  raise_if-Ensures false e m r = r refl

  pub if-Ensures :
      (b : Bool) (m n : Outcome A)
      → (b ≡ true → Ensures Q m)
      → (b ≡ false → Ensures Q n)
      → Ensures Q (if b then m else n)
  if-Ensures true m n r s = r refl
  if-Ensures false m n r s = s refl
