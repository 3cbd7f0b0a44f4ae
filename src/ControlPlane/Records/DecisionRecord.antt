-- ===== src/ControlPlane/Records/DecisionRecord.antt =====
-- `DecisionRecord` of control_plane/records.py. Counters are numbers that are not negative, so the test of
-- `validate_nonnegative_int` stands in `from_dict`, before one is made.
pub mod RoundTrip
pub mod Kept
pub mod Accepts
use post_training_rsi_pipeli.Prelude.{
  Bool, List, Option, Outcome, String, [], control_contract, false, is_empty, none, not, ok, pos,
  raise_if, some, true, ℕ, ◌>>=◌, ◌>>◌, ◌∷◌,
}
use post_training_rsi_pipeli.Platform.{Platform}
use post_training_rsi_pipeli.ControlPlane.Enums.DecisionAction
use post_training_rsi_pipeli.ControlPlane.Enums.DecisionAction.{DecisionAction}
use post_training_rsi_pipeli.ControlPlane.Enums.DecisionSubject
use post_training_rsi_pipeli.ControlPlane.Enums.DecisionSubject.{DecisionSubject}
use post_training_rsi_pipeli.ControlPlane.Enums.StopReason
use post_training_rsi_pipeli.ControlPlane.Enums.StopReason.{StopReason}
use post_training_rsi_pipeli.ControlPlane.Value.{
  Fields, array, end, field, int, normalize_json_object, object, text,
}
use post_training_rsi_pipeli.ControlPlane.Validation.{
  normalize_timestamp, validate_id, validate_id_tuple, validate_nonnegative_int, validate_text,
}
use post_training_rsi_pipeli.ControlPlane.Reading.{
  optional_enum, required_enum, required_id_tuple, required_int, required_json_object, required_str,
  validated_record_mapping,
}
use post_training_rsi_pipeli.ControlPlane.Encoding.{
  control_schema_version, of_optional_enum, of_texts,
}

pub record DecisionRecord (P : Platform) : Type 0 where
  pub decision_id : String
  pub run_id : String
  pub iteration : ℕ
  pub subject_type : DecisionSubject
  pub subject_id : String
  pub action : DecisionAction
  pub reason_code : String
  pub reason : String
  pub evidence_ids : List String
  pub created_at : String
  pub stop_reason : Option StopReason
  pub metadata : Fields P

-- _STOP_ACTIONS
abbrev is_stop_action : DecisionAction → Bool
is_stop_action DecisionAction.stop = true
is_stop_action DecisionAction.abort = true
is_stop_action _ = false

-- _STOP_COMPATIBLE_ACTIONS
abbrev is_stop_compatible : DecisionAction → Bool
is_stop_compatible DecisionAction.reject = true
is_stop_compatible DecisionAction.quarantine = true
is_stop_compatible DecisionAction.rollback = true
is_stop_compatible action = is_stop_action action

-- whether `stop_reason` does not fit the action
abbrev pub stop_mismatch : DecisionAction → Option StopReason → Bool
stop_mismatch action none = is_stop_action action
stop_mismatch action (some _) = not (is_stop_compatible action)

-- _DECISION_FIELDS
abbrev field_names : List String
field_names =
    "schema_version" ∷ "record_type" ∷ "decision_id" ∷ "run_id" ∷ "iteration" ∷ "subject_type"
    ∷ "subject_id" ∷ "action" ∷ "reason_code" ∷ "reason" ∷ "evidence_ids" ∷ "created_at"
    ∷ "stop_reason" ∷ "metadata" ∷ []

module _ (P : Platform) where
  -- `__post_init__`: the checked and normalised record
  unfoldable pub post_init : DecisionRecord P → Outcome (DecisionRecord P)
  post_init d = do
    checked_decision_id ← validate_id d.decision_id
    checked_run_id ← validate_id d.run_id
    checked_subject_id ← validate_id d.subject_id
    checked_reason_code ← validate_id d.reason_code
    checked_reason ← validate_text d.reason
    checked_evidence_ids ← validate_id_tuple d.evidence_ids
    raise_if (is_empty d.evidence_ids) control_contract
    checked_created_at ← normalize_timestamp P d.created_at
    checked_metadata ← normalize_json_object P d.metadata
    raise_if (stop_mismatch d.action d.stop_reason) control_contract
    ok (record d {
      decision_id = checked_decision_id;
      run_id = checked_run_id;
      subject_id = checked_subject_id;
      reason_code = checked_reason_code;
      reason = checked_reason;
      evidence_ids = checked_evidence_ids;
      created_at = checked_created_at;
      metadata = checked_metadata;
    })

  unfoldable pub to_dict : DecisionRecord P → Outcome (Fields P)
  to_dict d = do
    metadata ← normalize_json_object P d.metadata
    ok (
        field "schema_version" (text control_schema_version) (
          field "record_type" (text "decision") (
            field "decision_id" (text d.decision_id) (
              field "run_id" (text d.run_id) (
                field "iteration" (int (pos d.iteration)) (
                  field "subject_type" (text (DecisionSubject.value d.subject_type)) (
                    field "subject_id" (text d.subject_id) (
                      field "action" (text (DecisionAction.value d.action)) (
                        field "reason_code" (text d.reason_code) (
                          field "reason" (text d.reason) (
                            field "evidence_ids" (array (of_texts d.evidence_ids)) (
                              field "created_at" (text d.created_at) (
                                field "stop_reason"
                                  (of_optional_enum StopReason.value d.stop_reason)
                                  (field "metadata" (object metadata) end))))))))))))))

  unfoldable pub from_dict : Fields P → Outcome (DecisionRecord P)
  from_dict value = do
    entries ← validated_record_mapping value "decision" field_names control_schema_version
    decision_id ← required_str entries "decision_id"
    run_id ← required_str entries "run_id"
    raw_iteration ← required_int entries "iteration"
    subject_type ← required_enum entries "subject_type" DecisionSubject.of_value
    subject_id ← required_str entries "subject_id"
    action ← required_enum entries "action" DecisionAction.of_value
    reason_code ← required_str entries "reason_code"
    reason ← required_str entries "reason"
    evidence_ids ← required_id_tuple entries "evidence_ids"
    created_at ← required_str entries "created_at"
    stop_reason ← optional_enum entries "stop_reason" StopReason.of_value
    metadata ← required_json_object entries "metadata"
    iteration ← validate_nonnegative_int raw_iteration
    post_init (record {
      decision_id = decision_id;
      run_id = run_id;
      iteration = iteration;
      subject_type = subject_type;
      subject_id = subject_id;
      action = action;
      reason_code = reason_code;
      reason = reason;
      evidence_ids = evidence_ids;
      created_at = created_at;
      stop_reason = stop_reason;
      metadata = metadata;
    })
