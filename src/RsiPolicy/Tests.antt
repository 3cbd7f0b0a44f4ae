-- ===== src/RsiPolicy/Tests.antt =====
-- Runs of the policy, and the theorems at concrete inputs.
use post_training_rsi_pipeli.Prelude.{
  ℕ, pos, List, [], ◌∷◌, map, none, some, Outcome, ok, raise, policy_invariant, ◌≡◌, refl,
}
use post_training_rsi_pipeli.Platform.Fixed.{fixed}
use post_training_rsi_pipeli.ControlPlane.Value.{end}
use post_training_rsi_pipeli.ControlPlane.Enums.ControlState
use post_training_rsi_pipeli.ControlPlane.Enums.ControlState.{ControlState}
use post_training_rsi_pipeli.ControlPlane.Records.StateSnapshot.{StateSnapshot}
use post_training_rsi_pipeli.RsiPolicy.Inputs.{RsiPolicyLimits, CandidateObservation}
use post_training_rsi_pipeli.RsiPolicy.Step.{RsiPolicyStep}
use post_training_rsi_pipeli.RsiPolicy.Evaluate.{evaluate}
use post_training_rsi_pipeli.RsiPolicy.Edges.{
  validate_input, required_peak_score, candidate_step, append_run_decision, advance, advance_edge,
}
use post_training_rsi_pipeli.ControlPlane.Validation.{
  validate_id, validate_finite_number, validate_text, normalize_timestamp, parse_timestamp,
  validate_id_tuple, validate_nonnegative_number, validate_optional_id, validate_optional_number,
}
use post_training_rsi_pipeli.ControlPlane.Text.{
  is_id, is_text, between, id_codes, is_alnum, is_control, is_id_char, is_space, lower, offset_to_z,
  take_text, z_to_offset,
}
use post_training_rsi_pipeli.RsiPolicy.Evaluate.{
  over_iteration_budget, over_total_budget, improves, step_by, promote_edge, abort_for_budget,
  budget_edge, compare_scores, next_total_cost, regresses, regression, reject_edge, rollback_edge,
}
use post_training_rsi_pipeli.RsiPolicy.Records.{
  candidate_decision, candidate_transition, candidate_snapshot, run_decision, run_snapshot,
  run_transition,
}
use post_training_rsi_pipeli.RsiPolicy.Step.{record_id, phase_of, check_step}
use post_training_rsi_pipeli.ControlPlane.Value.{normalize_json_object}
use post_training_rsi_pipeli.ControlPlane.Records.DecisionRecord
use post_training_rsi_pipeli.ControlPlane.Records.TransitionRecord
use post_training_rsi_pipeli.ControlPlane.Records.StateSnapshot

abbrev pub limits : RsiPolicyLimits fixed
limits = record {
  max_iterations = 5;
  plateau_patience = 2;
  min_improvement = pos 5;
  regression_tolerance = pos 50;
  per_iteration_budget_usd = pos 30;
  total_budget_usd = pos 100;
}

abbrev pub current : StateSnapshot fixed
current = record {
  snapshot_id = "snapshot-1";
  run_id = "run-1";
  iteration = 1;
  cycle = 0;
  state = ControlState.evaluate;
  entered_at = "2026-08-01T00:00:00Z";
  active_checkpoint_id = some "ckpt-0";
  candidate_checkpoint_id = none;
  peak_checkpoint_id = some "ckpt-0";
  active_harness_id = none;
  candidate_harness_id = none;
  candidate_score = none;
  peak_score = some (pos 500);
  plateau_count = 0;
  total_cost_usd = pos 10;
  stop_reason = none;
  evidence_ids = "evidence-1" ∷ [];
  metadata = end;
}

-- a candidate with the score, at the cost
abbrev pub candidate : ℕ → ℕ → CandidateObservation fixed
candidate score cost = record {
  checkpoint_id = "ckpt-1";
  parent_checkpoint_id = some "ckpt-0";
  iteration = 1;
  score = pos score;
  iteration_cost_usd = pos cost;
  evaluated_at = "2026-08-01T01:00:00Z";
  evidence_ids = "evidence-2" ∷ [];
}

-- The policy on a candidate, with all that it calls.
unfoldable pub run_policy : CandidateObservation fixed → Outcome (RsiPolicyStep fixed)
unfolding evaluate validate_input required_peak_score candidate_step append_run_decision advance
    advance_edge validate_id validate_finite_number validate_text normalize_timestamp
    parse_timestamp validate_id_tuple validate_nonnegative_number validate_optional_id
    validate_optional_number is_id is_text between id_codes is_alnum is_control is_id_char is_space
    lower offset_to_z take_text z_to_offset over_iteration_budget over_total_budget improves step_by
    promote_edge abort_for_budget budget_edge compare_scores next_total_cost regresses regression
    reject_edge rollback_edge candidate_decision candidate_transition candidate_snapshot
    run_decision run_snapshot run_transition record_id phase_of check_step normalize_json_object
    ControlState.value DecisionRecord.post_init TransitionRecord.post_init StateSnapshot.post_init
run_policy c = evaluate fixed limits current c

abbrev no_step : RsiPolicyStep fixed
no_step = record { decisions = []; transitions = []; snapshots = [] }

-- the step of a successful call
abbrev pub step_of : Outcome (RsiPolicyStep fixed) → RsiPolicyStep fixed
step_of (ok step) = step
step_of (raise e) = no_step

abbrev states : Outcome (RsiPolicyStep fixed) → List ControlState
states o = map (λ s. s.state) (step_of o).snapshots

improved_states :
    states (run_policy (candidate 520 20)) ≡ ControlState.promoted ∷ ControlState.diagnose ∷ []
unfolding run_policy
improved_states = refl

rejected_states :
    states (run_policy (candidate 505 20)) ≡ ControlState.rejected ∷ ControlState.diagnose ∷ []
unfolding run_policy
rejected_states = refl

regressed_states : states (run_policy (candidate 449 20)) ≡ ControlState.rolled_back ∷ []
unfolding run_policy
regressed_states = refl

over_budget_states : states (run_policy (candidate 520 31)) ≡ ControlState.aborted ∷ []
unfolding run_policy
over_budget_states = refl

stale_parent :
    run_policy (record (candidate 520 20) { parent_checkpoint_id = none }) ≡ raise policy_invariant
unfolding run_policy
stale_parent = refl
