-- ===== src/Lineage/PeakPointer.antt =====
-- `PeakPointer` of lineage/peak_store.py. The test of its iteration stands in `from_dict`, after all
-- fields have been read.
pub mod RoundTrip
use post_training_rsi_pipeli.Prelude.{
  ℕ, String, List, [], ◌∷◌, Option, none, some, Outcome, ok, pos, raise_if, value_error, opt_eq,
  ◌>>=◌, ◌>>◌,
}
use post_training_rsi_pipeli.Platform.{Platform}
use post_training_rsi_pipeli.ControlPlane.Value.{text, int, float, Fields, end, field}
use post_training_rsi_pipeli.ControlPlane.Validation.{
  validate_id, validate_optional_id, validate_text, validate_nonnegative_int,
  validate_finite_number, validate_sha256, normalize_timestamp,
}
use post_training_rsi_pipeli.ControlPlane.Reading.{
  required_str, optional_str, required_int, required_float, validated_record_mapping,
}
use post_training_rsi_pipeli.ControlPlane.Encoding.{of_optional_text}

-- LINEAGE_SCHEMA_VERSION
abbrev lineage_schema_version : String
lineage_schema_version = "post-training-rsi.lineage/v1"

pub record PeakPointer (P : Platform) : Type 0 where
  pub run_id : String
  pub checkpoint_id : String
  pub previous_checkpoint_id : Option String
  pub model_id : String
  pub iteration : ℕ
  pub score : P.Float
  pub decision_id : String
  pub control_transaction_id : String
  pub checkpoint_bundle_sha256 : String
  pub updated_at : String

abbrev field_names : List String
field_names =
    "schema_version" ∷ "record_type" ∷ "run_id" ∷ "checkpoint_id" ∷ "previous_checkpoint_id"
    ∷ "model_id" ∷ "iteration" ∷ "score" ∷ "decision_id" ∷ "control_transaction_id"
    ∷ "checkpoint_bundle_sha256" ∷ "updated_at" ∷ []

-- what `__post_init__` tests before `iteration`, but for tests that raise what that one raises
abbrev pub check_names : String → String → Option String → Outcome (Unit {0})
check_names run_id checkpoint_id previous_checkpoint_id = do
  checked_run_id ← validate_id run_id
  checked_checkpoint_id ← validate_id checkpoint_id
  checked_previous ← validate_optional_id previous_checkpoint_id
  raise_if (opt_eq checked_previous (some checked_checkpoint_id)) value_error

module _ (P : Platform) where
  -- `__post_init__`: the checked record, with its timestamp in UTC
  unfoldable pub post_init : PeakPointer P → Outcome (PeakPointer P)
  post_init d = do
    run_id ← validate_id d.run_id
    checkpoint_id ← validate_id d.checkpoint_id
    previous ← validate_optional_id d.previous_checkpoint_id
    raise_if (opt_eq previous (some checkpoint_id)) value_error
    model_id ← validate_text d.model_id
    score ← validate_finite_number P d.score
    decision_id ← validate_id d.decision_id
    control_transaction_id ← validate_id d.control_transaction_id
    sha256 ← validate_sha256 (some d.checkpoint_bundle_sha256)
    updated_at ← normalize_timestamp P d.updated_at
    ok (record d {
      run_id = run_id;
      checkpoint_id = checkpoint_id;
      previous_checkpoint_id = previous;
      model_id = model_id;
      decision_id = decision_id;
      control_transaction_id = control_transaction_id;
      updated_at = updated_at;
    })

  unfoldable pub to_dict : PeakPointer P → Fields P
  to_dict d = field "schema_version" (text lineage_schema_version) (
      field "record_type" (text "peak_pointer") (
        field "run_id" (text d.run_id) (
          field "checkpoint_id" (text d.checkpoint_id) (
            field "previous_checkpoint_id" (of_optional_text d.previous_checkpoint_id) (
              field "model_id" (text d.model_id) (
                field "iteration" (int (pos d.iteration)) (
                  field "score" (float d.score) (
                    field "decision_id" (text d.decision_id) (
                      field "control_transaction_id" (text d.control_transaction_id) (
                        field "checkpoint_bundle_sha256" (text d.checkpoint_bundle_sha256)
                          (field "updated_at" (text d.updated_at) end)))))))))))

  unfoldable pub from_dict : Fields P → Outcome (PeakPointer P)
  from_dict value = do
    entries ← validated_record_mapping value "peak_pointer" field_names lineage_schema_version
    run_id ← required_str entries "run_id"
    checkpoint_id ← required_str entries "checkpoint_id"
    previous_checkpoint_id ← optional_str entries "previous_checkpoint_id"
    model_id ← required_str entries "model_id"
    raw_iteration ← required_int entries "iteration"
    score ← required_float entries "score"
    decision_id ← required_str entries "decision_id"
    control_transaction_id ← required_str entries "control_transaction_id"
    checkpoint_bundle_sha256 ← required_str entries "checkpoint_bundle_sha256"
    updated_at ← required_str entries "updated_at"
    check_names run_id checkpoint_id previous_checkpoint_id
    iteration ← validate_nonnegative_int raw_iteration
    post_init (record {
      run_id = run_id;
      checkpoint_id = checkpoint_id;
      previous_checkpoint_id = previous_checkpoint_id;
      model_id = model_id;
      iteration = iteration;
      score = score;
      decision_id = decision_id;
      control_transaction_id = control_transaction_id;
      checkpoint_bundle_sha256 = checkpoint_bundle_sha256;
      updated_at = updated_at;
    })
