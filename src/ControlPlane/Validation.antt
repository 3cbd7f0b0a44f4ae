-- ===== src/ControlPlane/Validation.antt =====
-- The `validate_*` and `normalize_*` functions of control_plane/validation.py. A check of a type
-- that the model's types give is left out.
pub mod Laws
use post_training_rsi_pipeli.Prelude.{
  ℕ, not, String, Option, none, some, List, Outcome, ok, raise, raise_if, control_contract,
  overflow_error, ◌>>=◌, ◌>>◌, ℤ, pos, negsuc, all, has_duplicates,
}
use post_training_rsi_pipeli.Platform.{Platform}
use post_training_rsi_pipeli.ControlPlane.Text.{is_id, is_sha256, is_text, z_to_offset, offset_to_z}

unfoldable pub validate_id : String → Outcome String
validate_id value = do raise_if (not (is_id value)) control_contract; ok value

-- `if value is not None: validate_id(value)`
unfoldable pub validate_optional_id : Option String → Outcome (Option String)
unfolding validate_id
validate_optional_id none = ok none
validate_optional_id (some value) = do id ← validate_id value; ok (some id)

unfoldable pub validate_text : String → Outcome String
validate_text value = do raise_if (not (is_text value)) control_contract; ok value

-- the number of an `int` that is not negative
unfoldable pub validate_nonnegative_int : ℤ → Outcome ℕ
validate_nonnegative_int (pos n) = ok n
validate_nonnegative_int (negsuc n) = raise control_contract

unfoldable pub validate_sha256 : Option String → Outcome (Option String)
validate_sha256 none = ok none
validate_sha256 (some value) = do raise_if (not (is_sha256 value)) control_contract; ok (some value)

unfoldable pub validate_id_tuple : List String → Outcome (List String)
validate_id_tuple values = do
  raise_if (not (all is_id values)) control_contract
  raise_if (has_duplicates values) control_contract
  ok values

module _ (P : Platform) where
  unfoldable pub validate_finite_number : P.Float → Outcome P.Float
  validate_finite_number value = do raise_if (not (P.is_finite value)) control_contract; ok value

  unfoldable pub validate_optional_number : Option P.Float → Outcome (Option P.Float)
  unfolding validate_finite_number
  validate_optional_number none = ok none
  validate_optional_number (some value) = do x ← validate_finite_number value; ok (some x)

  unfoldable pub validate_nonnegative_number : P.Float → Outcome P.Float
  unfolding validate_finite_number
  validate_nonnegative_number value = do
    x ← validate_finite_number value
    raise_if (P.less x P.zero_float) control_contract
    ok x

  -- `datetime.fromisoformat(value.replace("Z", "+00:00"))`
  unfoldable pub parse_timestamp : String → Option P.Datetime
  parse_timestamp value = P.fromisoformat (z_to_offset value)

  unfoldable pub normalize_timestamp : String → Outcome String
  unfolding parse_timestamp validate_text
  normalize_timestamp value = do
    checked ← validate_text value
    elim (parse_timestamp checked) [
      | none ↦ raise control_contract
      | some parsed ↦
          raise_if (not (P.has_offset parsed)) control_contract >> elim (P.isoformat_utc parsed) [
            | none ↦ raise overflow_error
            | some utc ↦ ok (offset_to_z utc)
          ]
    ]
