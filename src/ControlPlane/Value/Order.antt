-- ===== src/ControlPlane/Value/Order.antt =====
-- The order of the keys of a sorted dict: of two texts one is at most the other.
use Prim.Native.Nat.compare as compare_ℕ
use Prim.Native.Nat.{zero, suc, Ordering, compare as compare_ℕ}
use Prim.Native.Char.{code}
use Prim.Native.String.compare
use Prim.Native.String.{[], ◌∷◌, compare, then}
use post_training_rsi_pipeli.Prelude.{ℕ, String, true, false, ◌≡◌, refl, sym, ap, ◌∙◌, subst}
use post_training_rsi_pipeli.ControlPlane.Value.{text_leb}

-- the answer for the sides swapped
abbrev turned : Ordering → Ordering
turned Ordering.lt = Ordering.gt
turned Ordering.eq = Ordering.eq
turned Ordering.gt = Ordering.lt

compare_ℕ-turned : (m n : ℕ) → compare_ℕ m n ≡ turned (compare_ℕ n m)
compare_ℕ-turned zero zero = compare_ℕ.zero-zero ∙ sym (ap turned compare_ℕ.zero-zero)
compare_ℕ-turned zero (suc n) = compare_ℕ.zero-suc n ∙ sym (ap turned (compare_ℕ.suc-zero n))
compare_ℕ-turned (suc m) zero = compare_ℕ.suc-zero m ∙ sym (ap turned (compare_ℕ.zero-suc m))
compare_ℕ-turned (suc m) (suc n) =
    compare_ℕ.suc-suc m n ∙ compare_ℕ-turned m n ∙ sym (ap turned (compare_ℕ.suc-suc n m))

then-turned : (o r : Ordering) → then (turned o) (turned r) ≡ turned (then o r)
then-turned Ordering.lt r = refl
then-turned Ordering.eq r = refl
then-turned Ordering.gt r = refl

compare-turned : (s t : String) → compare s t ≡ turned (compare t s)
compare-turned [] [] = compare.nil-nil ∙ sym (ap turned compare.nil-nil)
compare-turned [] (d ∷ t) = compare.nil-cons d t ∙ sym (ap turned (compare.cons-nil d t))
compare-turned (c ∷ s) [] = compare.cons-nil c s ∙ sym (ap turned (compare.nil-cons c s))
compare-turned (c ∷ s) (d ∷ t) =
    compare.cons-cons c d s t
    ∙ ap (λ o. then o (compare s t)) (compare_ℕ-turned (code c) (code d))
    ∙ ap (then (turned (compare_ℕ (code d) (code c)))) (compare-turned s t)
    ∙ then-turned (compare_ℕ (code d) (code c)) (compare t s)
    ∙ sym (ap turned (compare.cons-cons d c t s))

pub text_leb_total : (s t : String) → text_leb s t ≡ false → text_leb t s ≡ true
text_leb_total s t h =
    subst (λ o. (elim o [ Ordering.gt ↦ false | _ ↦ true ]) ≡ true) (sym (compare-turned t s))
      (kept (compare s t) h)
  where
    kept :
        (o : Ordering)
        → (elim o [ Ordering.gt ↦ false | _ ↦ true ]) ≡ false
        → (elim (turned o) [ Ordering.gt ↦ false | _ ↦ true ]) ≡ true
    kept Ordering.lt h = cc
    kept Ordering.eq h = cc
    kept Ordering.gt h = refl
