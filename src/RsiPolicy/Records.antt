-- ===== src/RsiPolicy/Records.antt =====
-- The records that `_candidate_step` and `_append_run_decision` of orchestration/rsi_policy.py
-- build, before the checks of their classes.
use post_training_rsi_pipeli.Prelude.{
  ℕ, Bool, true, false, String, Option, none, some, if◌then◌else◌, pos,
}
use post_training_rsi_pipeli.Platform.{Platform}
use post_training_rsi_pipeli.ControlPlane.Value.{text, int, Fields, end, field}
use post_training_rsi_pipeli.ControlPlane.Encoding.{of_optional_text, of_optional_float}
use post_training_rsi_pipeli.ControlPlane.Enums.ControlState.{ControlState}
use post_training_rsi_pipeli.ControlPlane.Enums.ControlEvent.{ControlEvent}
use post_training_rsi_pipeli.ControlPlane.Enums.StopReason.{StopReason}
use post_training_rsi_pipeli.ControlPlane.Enums.DecisionAction.{DecisionAction}
use post_training_rsi_pipeli.ControlPlane.Enums.DecisionSubject
use post_training_rsi_pipeli.ControlPlane.Records.DecisionRecord
use post_training_rsi_pipeli.ControlPlane.Records.TransitionRecord
use post_training_rsi_pipeli.ControlPlane.Records.StateSnapshot.{StateSnapshot}
use post_training_rsi_pipeli.RsiPolicy.Inputs.{CandidateObservation}
use post_training_rsi_pipeli.RsiPolicy.Step.{record_id, phase_of}

abbrev pub is_promoted : ControlState → Bool
is_promoted ControlState.promoted = true
is_promoted _ = false

abbrev pub is_stopped : ControlState → Bool
is_stopped ControlState.stopped = true
is_stopped _ = false

-- The keyword arguments of `_candidate_step` that differ by branch.
pub record CandidateEdge (P : Platform) : Type 0 where
  pub target_state : ControlState
  pub event : ControlEvent
  pub action : DecisionAction
  pub reason_code : String
  pub reason : String
  pub next_peak_checkpoint_id : Option String
  pub next_peak_score : P.Float
  pub next_plateau_count : ℕ
  pub stop_reason : Option StopReason
  pub metadata : Fields P

-- Those of `_append_run_decision`.
pub record RunEdge : Type 0 where
  pub target_state : ControlState
  pub event : ControlEvent
  pub action : DecisionAction
  pub reason_code : String
  pub reason : String
  pub stop_reason : Option StopReason
  pub next_iteration : ℕ

module _ (P : Platform) where
  -- The three records of `_candidate_step`, before their own checks.
  module _ (current : StateSnapshot P) (candidate : CandidateObservation P)
      (next_total_cost : P.Float) (edge : CandidateEdge P) where
    abbrev edge_id : String → String
    edge_id prefix =
        record_id P prefix current.run_id current.iteration (phase_of edge.target_state)
          candidate.checkpoint_id

    unfoldable pub candidate_decision : DecisionRecord.DecisionRecord P
    candidate_decision = record {
      decision_id = edge_id "decision";
      run_id = current.run_id;
      iteration = current.iteration;
      subject_type = DecisionSubject.checkpoint;
      subject_id = candidate.checkpoint_id;
      action = edge.action;
      reason_code = edge.reason_code;
      reason = edge.reason;
      evidence_ids = candidate.evidence_ids;
      created_at = candidate.evaluated_at;
      stop_reason = edge.stop_reason;
      metadata = edge.metadata;
    }

    unfoldable pub candidate_transition : TransitionRecord.TransitionRecord P
    candidate_transition = record {
      transition_id = edge_id "transition";
      run_id = current.run_id;
      iteration = current.iteration;
      from_state = some current.state;
      event = edge.event;
      to_state = edge.target_state;
      occurred_at = candidate.evaluated_at;
      idempotency_key = edge_id "idempotency";
      decision_id = some (edge_id "decision");
      evidence_ids = candidate.evidence_ids;
      metadata = field "candidate_checkpoint_id" (text candidate.checkpoint_id) end;
    }

    unfoldable pub candidate_snapshot : StateSnapshot P
    candidate_snapshot = record {
      snapshot_id = edge_id "snapshot";
      run_id = current.run_id;
      iteration = current.iteration;
      cycle = current.cycle;
      state = edge.target_state;
      entered_at = candidate.evaluated_at;
      active_checkpoint_id =
          if is_promoted edge.target_state
          then some candidate.checkpoint_id
          else current.active_checkpoint_id;
      candidate_checkpoint_id = some candidate.checkpoint_id;
      peak_checkpoint_id = edge.next_peak_checkpoint_id;
      active_harness_id = current.active_harness_id;
      candidate_harness_id = current.candidate_harness_id;
      candidate_score = some candidate.score;
      peak_score = some edge.next_peak_score;
      plateau_count = edge.next_plateau_count;
      total_cost_usd = next_total_cost;
      stop_reason = edge.stop_reason;
      evidence_ids = candidate.evidence_ids;
      metadata = field "decision_id" (text (edge_id "decision")) end;
    }

  -- The three records of `_append_run_decision` after the snapshot `current`.
  module _ (current : StateSnapshot P) (candidate : CandidateObservation P) (edge : RunEdge) where
    abbrev run_edge_id : String → String
    run_edge_id prefix =
        record_id P prefix current.run_id current.iteration (phase_of edge.target_state)
          candidate.checkpoint_id

    unfoldable pub run_decision : DecisionRecord.DecisionRecord P
    run_decision = record {
      decision_id = run_edge_id "decision";
      run_id = current.run_id;
      iteration = current.iteration;
      subject_type = DecisionSubject.run;
      subject_id = current.run_id;
      action = edge.action;
      reason_code = edge.reason_code;
      reason = edge.reason;
      evidence_ids = candidate.evidence_ids;
      created_at = candidate.evaluated_at;
      stop_reason = edge.stop_reason;
      metadata = field "peak_checkpoint_id" (of_optional_text current.peak_checkpoint_id) (
          field "peak_score" (of_optional_float current.peak_score)
            (field "plateau_count" (int (pos current.plateau_count)) end));
    }

    unfoldable pub run_transition : String → TransitionRecord.TransitionRecord P
    run_transition previous_decision_id = record {
      transition_id = run_edge_id "transition";
      run_id = current.run_id;
      iteration = current.iteration;
      from_state = some current.state;
      event = edge.event;
      to_state = edge.target_state;
      occurred_at = candidate.evaluated_at;
      idempotency_key = run_edge_id "idempotency";
      decision_id = some (run_edge_id "decision");
      evidence_ids = candidate.evidence_ids;
      metadata = field "previous_decision_id" (text previous_decision_id) end;
    }

    unfoldable pub run_snapshot : StateSnapshot P
    run_snapshot = record {
      snapshot_id = run_edge_id "snapshot";
      run_id = current.run_id;
      iteration = edge.next_iteration;
      cycle = current.cycle;
      state = edge.target_state;
      entered_at = candidate.evaluated_at;
      active_checkpoint_id = current.active_checkpoint_id;
      candidate_checkpoint_id =
          if is_stopped edge.target_state then current.candidate_checkpoint_id else none;
      peak_checkpoint_id = current.peak_checkpoint_id;
      active_harness_id = current.active_harness_id;
      candidate_harness_id = current.candidate_harness_id;
      candidate_score = if is_stopped edge.target_state then current.candidate_score else none;
      peak_score = current.peak_score;
      plateau_count = current.plateau_count;
      total_cost_usd = current.total_cost_usd;
      stop_reason = edge.stop_reason;
      evidence_ids = candidate.evidence_ids;
      metadata = field "decision_id" (text (run_edge_id "decision")) end;
    }
