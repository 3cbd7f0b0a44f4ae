-- ===== src/Harness/Outer/Tests.antt =====
-- A search of the outer loop that is run, and the theorems on it.
use post_training_rsi_pipeli.Prelude.{
  ℕ, pos, ◌*◌, ◌≤◌, String, List, [], ◌∷◌, map, true, false, none, some, Outcome, ok, raise,
  harness_invariant, ◌≡◌, refl,
}
use post_training_rsi_pipeli.Platform.Fixed.{fixed}
use post_training_rsi_pipeli.ControlPlane.Value.{
  Fields, end, field, text, normalize_json_object, insert_field,
}
use post_training_rsi_pipeli.ControlPlane.Text.{
  is_id, is_text, between, id_codes, is_alnum, is_control, is_id_char, is_space, lower, offset_to_z,
  take_text, z_to_offset,
}
use post_training_rsi_pipeli.ControlPlane.Validation.{
  validate_id, validate_finite_number, validate_text, normalize_timestamp, parse_timestamp,
  validate_id_tuple, validate_nonnegative_number, validate_optional_id, validate_optional_number,
}
use post_training_rsi_pipeli.ControlPlane.Enums.ControlState
use post_training_rsi_pipeli.ControlPlane.Enums.ControlState.{ControlState}
use post_training_rsi_pipeli.ControlPlane.Enums.DecisionSubject
use post_training_rsi_pipeli.ControlPlane.Records.DecisionRecord
use post_training_rsi_pipeli.ControlPlane.Records.TransitionRecord
use post_training_rsi_pipeli.ControlPlane.Records.StateSnapshot
use post_training_rsi_pipeli.ControlPlane.Records.StateSnapshot.{StateSnapshot}
use post_training_rsi_pipeli.RsiPolicy.Step.{phase_of}
use post_training_rsi_pipeli.Harness.Steps.{
  PolicyStep, final_snapshot, check_step, combine, record_id, edge_decision, edge_transition,
  edge_snapshot, emit,
}
use post_training_rsi_pipeli.Harness.Position.{position}
use post_training_rsi_pipeli.Harness.Outer.Contracts.{
  HarnessSpec, content_sha256, retry_to_dict, spec_to_dict,
}
use post_training_rsi_pipeli.Harness.Outer.Edges.{
  HarnessOuterLimits, check_limits, edge_of, edge, from_snapshot, edge_from_snapshot, require_state,
  require_frozen_model, require_candidate, required_active_score,
}
use post_training_rsi_pipeli.Harness.Outer.Moves.{
  candidate_edge, valid_edge, invalid_edge, evaluation_metadata, review_edge, accept_edge,
  reject_edge, abort_edge, plateau_edge, limit_edge, next_edge, handoff_edge,
}
use post_training_rsi_pipeli.Harness.Outer.Policy.{
  StartArguments, freeze_edge, begin_edge, start, candidate_created, advance_edge, advance, settle,
  settle_validation, validation_completed, improves, over_iteration_budget, over_total_budget,
  settle_evaluation, budget_abort, evaluation_completed,
}
use post_training_rsi_pipeli.Harness.Outer.Search.{Frozen}
use post_training_rsi_pipeli.Harness.Outer.Refines.{Follows}
use post_training_rsi_pipeli.Harness.Outer.Runs.{
  Observation, created, validated, evaluated, operation, operation-Follows, Run, begun, called,
  Run-Frozen,
}
use post_training_rsi_pipeli.Harness.Outer.Climb.{Climb, Run-Climb}
use post_training_rsi_pipeli.Harness.Outer.Start.{start-Started, search_bounded, started}

abbrev json : Fields fixed → String
json fs = "{}"

abbrev limits : HarnessOuterLimits fixed
limits = record {
  max_iterations = 2;
  plateau_patience = 3;
  min_improvement = pos 5;
  per_iteration_budget_usd = pos 10;
  total_budget_usd = pos 50;
  approval_required = false;
}

abbrev spec : String → ℕ → HarnessSpec fixed
spec id version = record {
  harness_id = id;
  version = version;
  parent_harness_id = some "harness-0";
  system_prompt = "Answer.";
  tools = [];
  retry_policy = record {
    max_attempts = 1;
    initial_backoff_seconds = pos 0;
    max_backoff_seconds = pos 0;
    jitter_ratio = pos 0;
  };
  timeout_seconds = pos 1000;
  max_steps = 4;
  metadata = end;
}

abbrev arguments : StartArguments fixed
arguments = record {
  run_id = "run-1";
  cycle = 0;
  active_model_checkpoint_id = "model-0";
  active_harness = record (spec "harness-0" 1) { parent_harness_id = none };
  active_score = pos 500;
  started_at = "2026-08-01T00:00:00Z";
  evidence_ids = "evidence-1" ∷ [];
  total_cost_usd = pos 0;
}

abbrev proposal : Observation fixed
proposal = created (spec "harness-1" 2) "2026-08-01T01:00:00Z" ("evidence-2" ∷ [])

abbrev validation : Observation fixed
validation = validated (record {
  candidate_harness_id = "harness-1";
  valid = true;
  reasons = [];
  evidence_ids = "evidence-3" ∷ [];
  validated_at = "2026-08-01T02:00:00Z";
  metrics = end;
})

abbrev benchmark : ℕ → ℕ → Observation fixed
benchmark score cost = evaluated (record {
  harness_id = "harness-1";
  benchmark_id = "bench-1";
  score = pos score;
  task_family_scores = [];
  task_results = [];
  cost_usd = pos cost;
  evaluated_at = "2026-08-01T03:00:00Z";
  evidence_ids = "evidence-4" ∷ [];
  metadata = end;
})

-- The operations, with all that they call.
unfoldable run_start : Outcome (PolicyStep fixed)
unfolding start freeze_edge begin_edge edge edge_of from_snapshot edge_from_snapshot content_sha256
    spec_to_dict retry_to_dict emit edge_decision edge_transition edge_snapshot record_id check_step
    combine phase_of ControlState.value DecisionSubject.value lower take_text between
    DecisionRecord.post_init TransitionRecord.post_init StateSnapshot.post_init validate_id
    validate_text validate_id_tuple validate_optional_id validate_finite_number
    validate_nonnegative_number validate_optional_number normalize_timestamp parse_timestamp is_id
    is_text id_codes is_alnum is_control is_id_char is_space offset_to_z z_to_offset
    normalize_json_object insert_field
run_start = start fixed json arguments

unfoldable run_operation : StateSnapshot fixed → Observation fixed → Outcome (PolicyStep fixed)
unfolding candidate_created candidate_edge validation_completed settle_validation valid_edge
    invalid_edge evaluation_completed settle_evaluation budget_abort evaluation_metadata review_edge
    accept_edge reject_edge abort_edge plateau_edge limit_edge next_edge handoff_edge advance_edge
    advance settle improves over_iteration_budget over_total_budget require_state
    ControlState.is_state require_frozen_model require_candidate required_active_score edge edge_of
    from_snapshot edge_from_snapshot content_sha256 spec_to_dict retry_to_dict emit edge_decision
    edge_transition edge_snapshot record_id check_step combine phase_of ControlState.value
    DecisionSubject.value lower take_text between DecisionRecord.post_init
    TransitionRecord.post_init StateSnapshot.post_init validate_id validate_text validate_id_tuple
    validate_optional_id validate_finite_number validate_nonnegative_number validate_optional_number
    normalize_timestamp parse_timestamp is_id is_text id_codes is_alnum is_control is_id_char
    is_space offset_to_z z_to_offset normalize_json_object insert_field
run_operation current o = operation fixed json limits current o

abbrev no_step : PolicyStep fixed
no_step = record { decisions = []; transitions = []; snapshots = [] }

abbrev step_of : Outcome (PolicyStep fixed) → PolicyStep fixed
step_of (ok step) = step
step_of (raise e) = no_step

abbrev last_of : StateSnapshot fixed → Outcome (StateSnapshot fixed) → StateSnapshot fixed
last_of default (ok s) = s
last_of default (raise e) = default

abbrev states : Outcome (PolicyStep fixed) → List ControlState
states o = map (λ s. s.state) (step_of o).snapshots

start_states : states run_start ≡ ControlState.freeze_model ∷ ControlState.mutate_harness ∷ []
unfolding run_start
start_states = refl

-- the snapshot of a start, and those of a proposal, a validation and an evaluation
abbrev begin : StateSnapshot fixed
begin = record {
  snapshot_id = "harness-snapshot-00112233445566778899aabb";
  run_id = "run-1";
  iteration = 1;
  cycle = 0;
  state = ControlState.mutate_harness;
  entered_at = "2026-08-01T00:00:00Z";
  active_checkpoint_id = some "model-0";
  candidate_checkpoint_id = none;
  peak_checkpoint_id = some "model-0";
  active_harness_id = some "harness-0";
  candidate_harness_id = none;
  candidate_score = none;
  peak_score = some (pos 500);
  plateau_count = 0;
  total_cost_usd = pos 0;
  stop_reason = none;
  evidence_ids = "evidence-1" ∷ [];
  metadata =
      field "decision_id" (text "harness-decision-00112233445566778899aabb")
        (field "frozen_model_checkpoint_id" (text "model-0") end);
}

start_last : final_snapshot fixed (step_of run_start) ≡ ok begin
unfolding run_start
start_last = refl

-- the last snapshot of a call
unfoldable after : StateSnapshot fixed → Observation fixed → StateSnapshot fixed
unfolding run_operation
after s o = last_of s (final_snapshot fixed (step_of (run_operation s o)))

abbrev second : StateSnapshot fixed
second = after begin proposal

abbrev third : StateSnapshot fixed
third = after second validation

abbrev fourth : StateSnapshot fixed
fourth = after third (benchmark 520 5)

accepted_states :
    states (run_operation third (benchmark 520 5))
    ≡ ControlState.accept_harness ∷ ControlState.mutate_harness ∷ []
unfolding run_operation after
accepted_states = refl

rejected_states :
    states (run_operation third (benchmark 505 5))
    ≡ ControlState.reject_harness ∷ ControlState.mutate_harness ∷ []
unfolding run_operation after
rejected_states = refl

over_budget_states : states (run_operation third (benchmark 520 11)) ≡ ControlState.aborted ∷ []
unfolding run_operation after
over_budget_states = refl

out_of_order : run_operation begin (benchmark 520 5) ≡ raise harness_invariant
unfolding run_operation
out_of_order = refl

abbrev search : Run fixed json limits begin 3 fourth
unfolding run_operation after
search =
    called (benchmark 520 5) (step_of (run_operation third (benchmark 520 5))) fourth
      (called validation (step_of (run_operation second validation)) third
        (called proposal (step_of (run_operation begin proposal)) second begun refl refl) refl refl)
      refl refl

limits_checked : check_limits fixed limits ≡ ok limits
unfolding check_limits validate_nonnegative_number validate_finite_number
limits_checked = refl

start_returned : start fixed json arguments ≡ ok (step_of run_start)
unfolding run_start
start_returned = refl

operation-Follows_example :
    Follows fixed limits third (step_of (run_operation third (benchmark 520 5)))
unfolding run_operation after
operation-Follows_example =
    operation-Follows fixed json limits third (benchmark 520 5)
      (step_of (run_operation third (benchmark 520 5))) refl

start-Started_example :
    (s : StateSnapshot fixed) × (final_snapshot fixed (step_of run_start) ≡ ok s)
    × (position fixed s ≡ started fixed json arguments)
start-Started_example = start-Started fixed json arguments (step_of run_start) start_returned

search_bounded_example : 3 ≤ 5 * 2
search_bounded_example =
    search_bounded fixed json arguments limits (step_of run_start) begin fourth 3 limits_checked
      start_returned start_last search

Run-Frozen_example : Frozen fixed (position fixed begin) (position fixed fourth)
Run-Frozen_example = Run-Frozen fixed json limits begin fourth 3 search

Run-Climb_example :
    Climb fixed limits (some "harness-0") (some (pos 500)) (some "harness-1") (some (pos 520))
unfolding run_operation after
Run-Climb_example = Run-Climb fixed limits json begin fourth 3 refl search
