-- ===== src/ControlPlane/Records/TransitionRecord.antt =====
-- `TransitionRecord` of control_plane/records.py. Counters are numbers that are not negative, so the test of
-- `validate_nonnegative_int` stands in `from_dict`, before one is made.
pub mod RoundTrip
pub mod Kept
pub mod Accepts
use post_training_rsi_pipeli.Prelude.{
  Bool, List, Option, Outcome, String, [], control_contract, false, is_empty, none, not, ok, pos,
  raise_if, some, true, ℕ, ◌>>=◌, ◌>>◌, ◌∷◌,
}
use post_training_rsi_pipeli.Platform.{Platform}
use post_training_rsi_pipeli.ControlPlane.Enums.ControlEvent
use post_training_rsi_pipeli.ControlPlane.Enums.ControlEvent.{ControlEvent}
use post_training_rsi_pipeli.ControlPlane.Enums.ControlState
use post_training_rsi_pipeli.ControlPlane.Enums.ControlState.{ControlState}
use post_training_rsi_pipeli.ControlPlane.Value.{
  Fields, array, end, field, int, normalize_json_object, object, text,
}
use post_training_rsi_pipeli.ControlPlane.Validation.{
  normalize_timestamp, validate_id, validate_id_tuple, validate_nonnegative_int,
  validate_optional_id,
}
use post_training_rsi_pipeli.ControlPlane.Reading.{
  optional_enum, optional_str, required_enum, required_id_tuple, required_int, required_json_object,
  required_str, validated_record_mapping,
}
use post_training_rsi_pipeli.ControlPlane.Encoding.{
  control_schema_version, of_optional_enum, of_optional_text, of_texts,
}

pub record TransitionRecord (P : Platform) : Type 0 where
  pub transition_id : String
  pub run_id : String
  pub iteration : ℕ
  pub from_state : Option ControlState
  pub event : ControlEvent
  pub to_state : ControlState
  pub occurred_at : String
  pub idempotency_key : String
  pub decision_id : Option String
  pub evidence_ids : List String
  pub metadata : Fields P

abbrev is_start : ControlEvent → Bool
is_start ControlEvent.start = true
is_start _ = false

-- whether `from_state` does not fit the event: it is null for START, and for no other
abbrev pub start_mismatch : Option ControlState → ControlEvent → Bool
start_mismatch none event = not (is_start event)
start_mismatch (some _) event = is_start event

-- _TRANSITION_FIELDS
abbrev field_names : List String
field_names =
    "schema_version" ∷ "record_type" ∷ "transition_id" ∷ "run_id" ∷ "iteration" ∷ "from_state"
    ∷ "event" ∷ "to_state" ∷ "occurred_at" ∷ "idempotency_key" ∷ "decision_id" ∷ "evidence_ids"
    ∷ "metadata" ∷ []

module _ (P : Platform) where
  -- `__post_init__`: the checked and normalised record
  unfoldable pub post_init : TransitionRecord P → Outcome (TransitionRecord P)
  post_init d = do
    checked_transition_id ← validate_id d.transition_id
    checked_run_id ← validate_id d.run_id
    checked_occurred_at ← normalize_timestamp P d.occurred_at
    checked_idempotency_key ← validate_id d.idempotency_key
    checked_decision_id ← validate_optional_id d.decision_id
    checked_evidence_ids ← validate_id_tuple d.evidence_ids
    checked_metadata ← normalize_json_object P d.metadata
    raise_if (is_empty d.evidence_ids) control_contract
    raise_if (start_mismatch d.from_state d.event) control_contract
    ok (record d {
      transition_id = checked_transition_id;
      run_id = checked_run_id;
      occurred_at = checked_occurred_at;
      idempotency_key = checked_idempotency_key;
      decision_id = checked_decision_id;
      evidence_ids = checked_evidence_ids;
      metadata = checked_metadata;
    })

  unfoldable pub to_dict : TransitionRecord P → Outcome (Fields P)
  to_dict d = do
    metadata ← normalize_json_object P d.metadata
    ok (
        field "schema_version" (text control_schema_version) (
          field "record_type" (text "transition") (
            field "transition_id" (text d.transition_id) (
              field "run_id" (text d.run_id) (
                field "iteration" (int (pos d.iteration)) (
                  field "from_state" (of_optional_enum ControlState.value d.from_state) (
                    field "event" (text (ControlEvent.value d.event)) (
                      field "to_state" (text (ControlState.value d.to_state)) (
                        field "occurred_at" (text d.occurred_at) (
                          field "idempotency_key" (text d.idempotency_key) (
                            field "decision_id" (of_optional_text d.decision_id) (
                              field "evidence_ids" (array (of_texts d.evidence_ids))
                                (field "metadata" (object metadata) end)))))))))))))

  unfoldable pub from_dict : Fields P → Outcome (TransitionRecord P)
  from_dict value = do
    entries ← validated_record_mapping value "transition" field_names control_schema_version
    transition_id ← required_str entries "transition_id"
    run_id ← required_str entries "run_id"
    raw_iteration ← required_int entries "iteration"
    from_state ← optional_enum entries "from_state" ControlState.of_value
    event ← required_enum entries "event" ControlEvent.of_value
    to_state ← required_enum entries "to_state" ControlState.of_value
    occurred_at ← required_str entries "occurred_at"
    idempotency_key ← required_str entries "idempotency_key"
    decision_id ← optional_str entries "decision_id"
    evidence_ids ← required_id_tuple entries "evidence_ids"
    metadata ← required_json_object entries "metadata"
    iteration ← validate_nonnegative_int raw_iteration
    post_init (record {
      transition_id = transition_id;
      run_id = run_id;
      iteration = iteration;
      from_state = from_state;
      event = event;
      to_state = to_state;
      occurred_at = occurred_at;
      idempotency_key = idempotency_key;
      decision_id = decision_id;
      evidence_ids = evidence_ids;
      metadata = metadata;
    })
