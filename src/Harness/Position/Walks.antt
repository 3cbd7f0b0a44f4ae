-- ===== src/Harness/Position/Walks.antt =====
-- Walks of a step relation through the positions of the emitted snapshots.
use post_training_rsi_pipeli.Prelude.{ℕ, suc, ◌+◌, ◌≤◌, ◌<◌, List, [], ◌∷◌, ok, ◌≡◌, arith}
use post_training_rsi_pipeli.Platform.{Platform}
use post_training_rsi_pipeli.ControlPlane.Records.StateSnapshot.{StateSnapshot}
use post_training_rsi_pipeli.RsiPolicy.Step.{final}

-- A sequence of steps, with their number.
pub data Reach {ℓ} {A : Type ℓ} (R : A → A → Type 0) (a : A) : ℕ → A → Type ℓ where
  here : Reach R a 0 a
  next : {n : ℕ} {b c : A} → Reach R a n b → R b c → Reach R a (suc n) c

module _ {ℓ} {A : Type ℓ} (R : A → A → Type 0) where
  -- What every step keeps, a sequence keeps.
  pub Reach-keeps {κ} :
      (I : A → Type κ) {a b : A} {n : ℕ}
      → ((x y : A) → R x y → I x → I y)
      → Reach R a n b
      → I a
      → I b
  Reach-keeps I keep here i = i
  Reach-keeps I keep (next {n} {b} {c} r s) i = keep b c s (Reach-keeps I keep r i)

  -- A measure that each step lowers bounds their number.
  pub Reach-bound :
      (measure : A → ℕ) {a b : A} {n : ℕ}
      → ((x y : A) → R x y → measure y < measure x)
      → Reach R a n b
      → n + measure b ≤ measure a
  Reach-bound measure lower here = omega arith
  Reach-bound measure lower (next {n} {b} {c} r s) =
      omega (arith, Reach-bound measure lower r, lower b c s)

module _ (P : Platform) {A : Type 0} (view : StateSnapshot P → A) (R : A → A → Type 0) where
  -- each snapshot is one step from the one before
  abbrev pub Walk : A → List (StateSnapshot P) → Type 0
  Walk a [] = Unit
  Walk a (s ∷ ss) = R a (view s) × Walk (view s) ss

  prepend : {a b c : A} {n : ℕ} → R a b → Reach R b n c → Reach R a (suc n) c
  prepend m here = next here m
  prepend m (next r m') = next (prepend m r) m'

  -- A walk that ends somewhere is a sequence of at least one step.
  pub Walk-Reach :
      (a : A) (ss : List (StateSnapshot P)) (last : StateSnapshot P)
      → Walk a ss
      → final ss ≡ ok last
      → (n : ℕ) × (0 < n) × Reach R a n (view last)
  Walk-Reach a [] last w h = ground arith
  Walk-Reach a (s ∷ []) last w h =
      let same : s ≡ last = ground (arith, h) in (1, omega arith, next here (rw (← same) w.0))
  Walk-Reach a (s ∷ s' ∷ ss) last w h =
      let (n, _, r) = Walk-Reach (view s) (s' ∷ ss) last w.1 h in
      (suc n, omega arith, prepend w.0 r)
