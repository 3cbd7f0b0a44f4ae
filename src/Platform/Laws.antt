-- ===== src/Platform/Laws.antt =====
-- The documented behaviour of floats that theorems name as a hypothesis.
use post_training_rsi_pipeli.Prelude.{ℕ, String, all, ◌≡◌, true, false}
use post_training_rsi_pipeli.ControlPlane.Text.{codes, is_hex, is_id_char}
use post_training_rsi_pipeli.Platform.{Platform}

-- IEEE 754: finite values are totally ordered by `<`, and rounding is monotone, so adding a value
-- that is not negative never gives less.
pub record IsIeee (P : Platform) : Type 0 where
  pub irreflexive : (a : P.Float) → P.less a a ≡ false
  pub transitive : (a b c : P.Float) → P.less a b ≡ true → P.less b c ≡ true → P.less a c ≡ true
  pub add_nonneg :
      (a b : P.Float)
      → P.is_finite a ≡ true
      → P.is_finite b ≡ true
      → P.less b P.zero_float ≡ false
      → P.less (P.add a b) a ≡ false

-- `hexdigest` writes 64 hexadecimal digits, and an f-string writes an `int` in decimal digits.
pub record IsHost (P : Platform) : Type 0 where
  pub sha256_hex : (s : String) → all is_hex (codes (P.sha256 s)) ≡ true
  pub decimal : (n : ℕ) → all is_id_char (codes (P.format_int n)) ≡ true
