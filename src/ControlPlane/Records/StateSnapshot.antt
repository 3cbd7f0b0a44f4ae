-- ===== src/ControlPlane/Records/StateSnapshot.antt =====
-- `StateSnapshot` of control_plane/records.py. Counters are numbers that are not negative, so the
-- test of `validate_nonnegative_int` stands in `from_dict`, after all fields have been read.
pub mod RoundTrip
pub mod Kept
pub mod Accepts
use post_training_rsi_pipeli.Prelude.{
  Bool, List, Option, Outcome, String, [], control_contract, false, none, not, ok, pos, raise_if,
  some, true, ℕ, ◌>>=◌, ◌>>◌, ◌∷◌,
}
use post_training_rsi_pipeli.Platform.{Platform}
use post_training_rsi_pipeli.ControlPlane.Enums.ControlState
use post_training_rsi_pipeli.ControlPlane.Enums.ControlState.{ControlState}
use post_training_rsi_pipeli.ControlPlane.Enums.StopReason
use post_training_rsi_pipeli.ControlPlane.Enums.StopReason.{StopReason}
use post_training_rsi_pipeli.ControlPlane.Value.{
  Fields, array, end, field, float, int, normalize_json_object, object, text,
}
use post_training_rsi_pipeli.ControlPlane.Validation.{
  normalize_timestamp, validate_id, validate_id_tuple, validate_nonnegative_int,
  validate_nonnegative_number, validate_optional_id, validate_optional_number,
}
use post_training_rsi_pipeli.ControlPlane.Reading.{
  optional_enum, optional_float, optional_str, required_enum, required_float, required_id_tuple,
  required_int, required_json_object, required_str, validated_record_mapping,
}
use post_training_rsi_pipeli.ControlPlane.Encoding.{
  control_schema_version, of_optional_enum, of_optional_float, of_optional_text, of_texts,
}

pub record StateSnapshot (P : Platform) : Type 0 where
  pub snapshot_id : String
  pub run_id : String
  pub iteration : ℕ
  pub cycle : ℕ
  pub state : ControlState
  pub entered_at : String
  pub active_checkpoint_id : Option String
  pub candidate_checkpoint_id : Option String
  pub peak_checkpoint_id : Option String
  pub active_harness_id : Option String
  pub candidate_harness_id : Option String
  pub candidate_score : Option P.Float
  pub peak_score : Option P.Float
  pub plateau_count : ℕ
  pub total_cost_usd : P.Float
  pub stop_reason : Option StopReason
  pub evidence_ids : List String
  pub metadata : Fields P

-- _TERMINAL_STATES
abbrev pub is_terminal_state : ControlState → Bool
is_terminal_state ControlState.completed = true
is_terminal_state ControlState.stopped = true
is_terminal_state ControlState.aborted = true
is_terminal_state ControlState.rolled_back = true
is_terminal_state _ = false

-- whether `stop_reason` does not fit the state
abbrev pub stop_mismatch : ControlState → Option StopReason → Bool
stop_mismatch state none = is_terminal_state state
stop_mismatch state (some _) = not (is_terminal_state state)

-- _STATE_FIELDS
abbrev field_names : List String
field_names =
    "schema_version" ∷ "record_type" ∷ "snapshot_id" ∷ "run_id" ∷ "iteration" ∷ "cycle" ∷ "state"
    ∷ "entered_at" ∷ "active_checkpoint_id" ∷ "candidate_checkpoint_id" ∷ "peak_checkpoint_id"
    ∷ "active_harness_id" ∷ "candidate_harness_id" ∷ "candidate_score" ∷ "peak_score"
    ∷ "plateau_count" ∷ "total_cost_usd" ∷ "stop_reason" ∷ "evidence_ids" ∷ "metadata" ∷ []

module _ (P : Platform) where
  -- `__post_init__`: the checked and normalised record
  unfoldable pub post_init : StateSnapshot P → Outcome (StateSnapshot P)
  post_init d = do
    checked_snapshot_id ← validate_id d.snapshot_id
    checked_run_id ← validate_id d.run_id
    checked_entered_at ← normalize_timestamp P d.entered_at
    checked_active_checkpoint_id ← validate_optional_id d.active_checkpoint_id
    checked_candidate_checkpoint_id ← validate_optional_id d.candidate_checkpoint_id
    checked_peak_checkpoint_id ← validate_optional_id d.peak_checkpoint_id
    checked_active_harness_id ← validate_optional_id d.active_harness_id
    checked_candidate_harness_id ← validate_optional_id d.candidate_harness_id
    checked_candidate_score ← validate_optional_number P d.candidate_score
    checked_peak_score ← validate_optional_number P d.peak_score
    checked_total_cost_usd ← validate_nonnegative_number P d.total_cost_usd
    checked_evidence_ids ← validate_id_tuple d.evidence_ids
    checked_metadata ← normalize_json_object P d.metadata
    raise_if (stop_mismatch d.state d.stop_reason) control_contract
    ok (record d {
      snapshot_id = checked_snapshot_id;
      run_id = checked_run_id;
      entered_at = checked_entered_at;
      active_checkpoint_id = checked_active_checkpoint_id;
      candidate_checkpoint_id = checked_candidate_checkpoint_id;
      peak_checkpoint_id = checked_peak_checkpoint_id;
      active_harness_id = checked_active_harness_id;
      candidate_harness_id = checked_candidate_harness_id;
      candidate_score = checked_candidate_score;
      peak_score = checked_peak_score;
      total_cost_usd = checked_total_cost_usd;
      evidence_ids = checked_evidence_ids;
      metadata = checked_metadata;
    })

  unfoldable pub to_dict : StateSnapshot P → Outcome (Fields P)
  to_dict d = do
    metadata ← normalize_json_object P d.metadata
    ok (
        field "schema_version" (text control_schema_version) (
          field "record_type" (text "state_snapshot") (
            field "snapshot_id" (text d.snapshot_id) (
              field "run_id" (text d.run_id) (
                field "iteration" (int (pos d.iteration)) (
                  field "cycle" (int (pos d.cycle)) (
                    field "state" (text (ControlState.value d.state)) (
                      field "entered_at" (text d.entered_at) (
                        field "active_checkpoint_id" (of_optional_text d.active_checkpoint_id) (
                          field "candidate_checkpoint_id"
                            (of_optional_text d.candidate_checkpoint_id)
                            (field "peak_checkpoint_id" (of_optional_text d.peak_checkpoint_id) (
                              field "active_harness_id" (of_optional_text d.active_harness_id) (
                                field "candidate_harness_id"
                                  (of_optional_text d.candidate_harness_id)
                                  (field "candidate_score" (of_optional_float d.candidate_score) (
                                    field "peak_score" (of_optional_float d.peak_score) (
                                      field "plateau_count" (int (pos d.plateau_count)) (
                                        field "total_cost_usd" (float d.total_cost_usd) (
                                          field "stop_reason"
                                            (of_optional_enum StopReason.value d.stop_reason)
                                            (field "evidence_ids" (array (of_texts d.evidence_ids))
                                              (field "metadata" (object metadata)
                                                end))))))))))))))))))))

  unfoldable pub from_dict : Fields P → Outcome (StateSnapshot P)
  from_dict value = do
    entries ← validated_record_mapping value "state_snapshot" field_names control_schema_version
    snapshot_id ← required_str entries "snapshot_id"
    run_id ← required_str entries "run_id"
    raw_iteration ← required_int entries "iteration"
    raw_cycle ← required_int entries "cycle"
    state ← required_enum entries "state" ControlState.of_value
    entered_at ← required_str entries "entered_at"
    active_checkpoint_id ← optional_str entries "active_checkpoint_id"
    candidate_checkpoint_id ← optional_str entries "candidate_checkpoint_id"
    peak_checkpoint_id ← optional_str entries "peak_checkpoint_id"
    active_harness_id ← optional_str entries "active_harness_id"
    candidate_harness_id ← optional_str entries "candidate_harness_id"
    candidate_score ← optional_float entries "candidate_score"
    peak_score ← optional_float entries "peak_score"
    raw_plateau_count ← required_int entries "plateau_count"
    total_cost_usd ← required_float entries "total_cost_usd"
    stop_reason ← optional_enum entries "stop_reason" StopReason.of_value
    evidence_ids ← required_id_tuple entries "evidence_ids"
    metadata ← required_json_object entries "metadata"
    iteration ← validate_nonnegative_int raw_iteration
    cycle ← validate_nonnegative_int raw_cycle
    checked ← post_init (record {
      snapshot_id = snapshot_id;
      run_id = run_id;
      iteration = iteration;
      cycle = cycle;
      state = state;
      entered_at = entered_at;
      active_checkpoint_id = active_checkpoint_id;
      candidate_checkpoint_id = candidate_checkpoint_id;
      peak_checkpoint_id = peak_checkpoint_id;
      active_harness_id = active_harness_id;
      candidate_harness_id = candidate_harness_id;
      candidate_score = candidate_score;
      peak_score = peak_score;
      plateau_count = 0;
      total_cost_usd = total_cost_usd;
      stop_reason = stop_reason;
      evidence_ids = evidence_ids;
      metadata = metadata;
    })
    -- `__post_init__` tests it after the timestamp
    plateau_count ← validate_nonnegative_int raw_plateau_count
    ok (record checked { plateau_count = plateau_count })
