-- ===== src/ControlPlane/Validation/Laws.antt =====
-- A check returns what it was given, or raises ControlContractError.
use post_training_rsi_pipeli.Prelude.{
  String, List, Option, Outcome, ok, raise, control_contract, ◌≡◌, ◌⊎◌, arith,
}
use post_training_rsi_pipeli.Platform.{Platform}
use post_training_rsi_pipeli.ControlPlane.Validation.{
  validate_text, validate_sha256, validate_id, validate_optional_id, validate_id_tuple,
  validate_finite_number, validate_optional_number, validate_nonnegative_number,
}

-- what a check may give
abbrev pub Checked {ℓ} : {A : Type ℓ} → (A → Outcome A) → A → Type ℓ
Checked check a = (check a ≡ ok a) ⊎ (check a ≡ raise control_contract)

pub Checked-same {ℓ} :
    {A : Type ℓ} (check : A → Outcome A) (b a : A) → check a ≡ ok b → Checked check a → b ≡ a
Checked-same check b a h c = ground arith

pub validate_id-Checked : (s : String) → Checked validate_id s
unfolding validate_id
validate_id-Checked s = ground arith

pub validate_optional_id-Checked : (s : Option String) → Checked validate_optional_id s
unfolding validate_optional_id validate_id
validate_optional_id-Checked s = ground arith

pub validate_id_tuple-Checked : (ss : List String) → Checked validate_id_tuple ss
unfolding validate_id_tuple
validate_id_tuple-Checked ss = ground arith

module _ (P : Platform) where
  pub validate_optional_number-Checked :
      (x : Option P.Float) → Checked (validate_optional_number P) x
  unfolding validate_optional_number validate_finite_number
  validate_optional_number-Checked x = ground arith

  pub validate_nonnegative_number-Checked :
      (x : P.Float) → Checked (validate_nonnegative_number P) x
  unfolding validate_nonnegative_number validate_finite_number
  validate_nonnegative_number-Checked x = ground arith

pub validate_text-Checked : (s : String) → Checked validate_text s
unfolding validate_text
validate_text-Checked s = ground arith

pub validate_sha256-Checked : (s : Option String) → Checked validate_sha256 s
unfolding validate_sha256
validate_sha256-Checked s = ground arith
