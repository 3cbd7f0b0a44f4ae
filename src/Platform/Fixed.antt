-- ===== src/Platform/Fixed.antt =====
-- A platform that can be run: scores and amounts in thousandths, a constant digest, timestamps as
-- their texts. It shows that the hypotheses on a platform can hold, and serves the tests.
use post_training_rsi_pipeli.Prelude.{
  not, ◌||◌, ℤ, pos, ◌+ℤ◌, ◌-ℤ◌, ltb_ℤ, String, true, some, refl, arith,
}
use post_training_rsi_pipeli.Platform.{Platform}
use post_training_rsi_pipeli.Platform.Laws.{IsIeee, IsHost}
use post_training_rsi_pipeli.ControlPlane.Text.{is_hex, is_id_char}

abbrev pub fixed : Platform
fixed = record {
  Float = ℤ;
  zero_float = pos 0;
  one_float = pos 1000;
  tiny = pos 0;
  less = ltb_ℤ;
  add = ◌+ℤ◌;
  sub = ◌-ℤ◌;
  round_8 = λ a. a;
  is_close = λ a b. not (ltb_ℤ a b || ltb_ℤ b a);
  of_int = λ n. some n;
  is_finite = λ x. true;
  sha256 = λ s. "00112233445566778899aabbccddeeff00112233445566778899aabbccddeeff";
  Datetime = String;
  fromisoformat = λ s. some s;
  has_offset = λ t. true;
  isoformat_utc = λ t. some t;
  format_int = λ n. "1";
}

pub fixed-IsIeee : IsIeee fixed
fixed-IsIeee = record {
  irreflexive = λ a. ground arith;
  transitive = λ a b c h k. ground arith;
  add_nonneg = λ a b f g h. ground arith;
}

pub fixed-IsHost : IsHost fixed
unfolding is_hex is_id_char
fixed-IsHost = record { sha256_hex = λ s. refl; decimal = λ n. refl }
