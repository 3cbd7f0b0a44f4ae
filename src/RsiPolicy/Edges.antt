-- ===== src/RsiPolicy/Edges.antt =====
-- The checks and the steps of `RSIDecisionPolicy` in orchestration/rsi_policy.py.
use post_training_rsi_pipeli.Prelude.{
  ◌+◌, Bool, true, false, not, String, [], ◌∷◌, ◌++◌, Option, none, some, Outcome, raise, raise_if,
  policy_invariant, ◌>>=◌, ◌>>◌, ◌==◌, leb, opt_eq, if◌then◌else◌,
}
use post_training_rsi_pipeli.Platform.{Platform}
use post_training_rsi_pipeli.ControlPlane.Validation.{validate_id, validate_finite_number}
use post_training_rsi_pipeli.ControlPlane.Enums.ControlState.{ControlState}
use post_training_rsi_pipeli.ControlPlane.Enums.ControlEvent.{ControlEvent}
use post_training_rsi_pipeli.ControlPlane.Enums.StopReason.{StopReason}
use post_training_rsi_pipeli.ControlPlane.Enums.DecisionAction.{DecisionAction}
use post_training_rsi_pipeli.ControlPlane.Records.DecisionRecord
use post_training_rsi_pipeli.ControlPlane.Records.TransitionRecord
use post_training_rsi_pipeli.ControlPlane.Records.StateSnapshot
use post_training_rsi_pipeli.ControlPlane.Records.StateSnapshot.{StateSnapshot}
use post_training_rsi_pipeli.RsiPolicy.Inputs.{RsiPolicyLimits, CandidateObservation}
use post_training_rsi_pipeli.RsiPolicy.Step.{RsiPolicyStep, check_step, final, final_snapshot}
use post_training_rsi_pipeli.RsiPolicy.Records.{
  CandidateEdge, RunEdge, candidate_decision, candidate_transition, candidate_snapshot,
  run_decision, run_transition, run_snapshot,
}

abbrev pub is_evaluate : ControlState → Bool
is_evaluate ControlState.evaluate = true
is_evaluate _ = false

-- `a is not None and a != b`
abbrev pub conflicts : Option String → String → Bool
conflicts none b = false
conflicts a b = not (opt_eq a (some b))

module _ (P : Platform) where
  -- `_validate_input`
  unfoldable pub validate_input : StateSnapshot P → CandidateObservation P → Outcome (Unit {0})
  validate_input current candidate = do
    raise_if (not (is_evaluate current.state)) policy_invariant
    run_id ← validate_id current.run_id
    raise_if (not (current.iteration == candidate.iteration)) policy_invariant
    raise_if (not (opt_eq current.active_checkpoint_id current.peak_checkpoint_id)) policy_invariant
    raise_if (not (opt_eq candidate.parent_checkpoint_id current.active_checkpoint_id))
        policy_invariant
    raise_if (conflicts current.candidate_checkpoint_id candidate.checkpoint_id) policy_invariant

  -- `_required_peak_score`
  unfoldable pub required_peak_score : StateSnapshot P → Outcome P.Float
  required_peak_score current = elim current.peak_score [
    | none ↦ raise policy_invariant
    | some peak_score ↦ validate_finite_number P peak_score
  ]

  module _ (current : StateSnapshot P) (candidate : CandidateObservation P)
      (next_total_cost : P.Float) (edge : CandidateEdge P) where
    -- `_candidate_step`
    unfoldable pub candidate_step : Outcome (RsiPolicyStep P)
    candidate_step = do
      decision ←
          DecisionRecord.post_init P (candidate_decision P current candidate next_total_cost edge)
      transition ←
          TransitionRecord.post_init P
            (candidate_transition P current candidate next_total_cost edge)
      snapshot ←
          StateSnapshot.post_init P (candidate_snapshot P current candidate next_total_cost edge)
      check_step P (record {
        decisions = decision ∷ [];
        transitions = transition ∷ [];
        snapshots = snapshot ∷ [];
      })

  -- `_append_run_decision`
  unfoldable pub append_run_decision :
      RsiPolicyStep P → CandidateObservation P → RunEdge → Outcome (RsiPolicyStep P)
  append_run_decision step candidate edge = do
    current ← final_snapshot P step
    decision ← DecisionRecord.post_init P (run_decision P current candidate edge)
    previous ← final step.decisions
    transition ←
        TransitionRecord.post_init P (run_transition P current candidate edge previous.decision_id)
    snapshot ← StateSnapshot.post_init P (run_snapshot P current candidate edge)
    check_step P (record {
      decisions = step.decisions ++ decision ∷ [];
      transitions = step.transitions ++ transition ∷ [];
      snapshots = step.snapshots ++ snapshot ∷ [];
    })

  module _ (limits : RsiPolicyLimits P) where
    -- what `_advance` requests after the snapshot
    unfoldable pub advance_edge : StateSnapshot P → RunEdge
    advance_edge current =
        if leb limits.plateau_patience current.plateau_count
        then record {
          target_state = ControlState.stopped;
          event = ControlEvent.plateau_reached;
          action = DecisionAction.stop;
          reason_code = "plateau_reached";
          reason = "No candidate exceeded the Peak within the configured patience.";
          stop_reason = some StopReason.plateau;
          next_iteration = current.iteration;
        }
        else if leb limits.max_iterations current.iteration
        then record {
          target_state = ControlState.stopped;
          event = ControlEvent.max_iterations_reached;
          action = DecisionAction.stop;
          reason_code = "max_iterations_reached";
          reason = "The run reached the configured maximum number of iterations.";
          stop_reason = some StopReason.max_iterations;
          next_iteration = current.iteration;
        }
        else record {
          target_state = ControlState.diagnose;
          event = ControlEvent.next_iteration_requested;
          action = DecisionAction.continue;
          reason_code = "next_iteration";
          reason = "Budget and patience remain; begin the next diagnostic iteration.";
          stop_reason = none;
          next_iteration = current.iteration + 1;
        }

    -- `_advance`
    unfoldable pub advance : RsiPolicyStep P → CandidateObservation P → Outcome (RsiPolicyStep P)
    unfolding advance_edge
    advance intermediate candidate = do
      current ← final_snapshot P intermediate
      append_run_decision intermediate candidate (advance_edge current)
