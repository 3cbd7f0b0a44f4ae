-- ===== src/Harness/Inner/Tests.antt =====
-- A run of the inner loop, and the theorems on it.
use post_training_rsi_pipeli.Prelude.{
  ℕ, pos, ◌≤◌, String, List, [], ◌∷◌, map, true, none, some, Outcome, ok, raise, ◌≡◌, refl,
}
use post_training_rsi_pipeli.Platform.Fixed.{fixed}
use post_training_rsi_pipeli.ControlPlane.Value.{
  Fields, end, field, text, float, normalize_json_object, insert_field,
}
use post_training_rsi_pipeli.ControlPlane.Text.{
  is_id, is_text, between, id_codes, is_alnum, is_control, is_id_char, is_space, lower, offset_to_z,
  take_text, z_to_offset,
}
use post_training_rsi_pipeli.ControlPlane.Validation.{
  validate_id, validate_finite_number, validate_text, normalize_timestamp, parse_timestamp,
  validate_id_tuple, validate_nonnegative_number, validate_optional_id, validate_optional_number,
}
use post_training_rsi_pipeli.ControlPlane.Enums.ControlState
use post_training_rsi_pipeli.ControlPlane.Enums.ControlState.{ControlState}
use post_training_rsi_pipeli.ControlPlane.Enums.DecisionSubject
use post_training_rsi_pipeli.ControlPlane.Records.DecisionRecord
use post_training_rsi_pipeli.ControlPlane.Records.TransitionRecord
use post_training_rsi_pipeli.ControlPlane.Records.StateSnapshot
use post_training_rsi_pipeli.ControlPlane.Records.StateSnapshot.{StateSnapshot}
use post_training_rsi_pipeli.RsiPolicy.Step.{phase_of}
use post_training_rsi_pipeli.Harness.Steps.{
  PolicyStep, final_snapshot, check_step, combine, record_id, edge_decision, edge_transition,
  edge_snapshot, emit,
}
use post_training_rsi_pipeli.Harness.Inner.Edges.{
  ModelInnerLimits, edge_of, edge_from_snapshot, require_state, validate_active_lineage,
  active_model_score, validate_candidate_lineage, validate_evaluation_lineage,
}
use post_training_rsi_pipeli.Harness.Inner.Decisions.{
  verdict_edge, promotion_decision, rollback_decision, abort_edge, budget_abort, over_stage_budget,
  over_total_budget, charge_stage, improves,
}
use post_training_rsi_pipeli.Harness.Inner.Policy.{
  trained_edge, train, training_completed, regression, regressed, evaluation_metadata, review_edge,
  promote_verdict, rollback_verdict, settle_evaluation, judge, evaluation_completed,
}
use post_training_rsi_pipeli.Harness.Inner.Commits.{
  review_metadata, approved_verdict, denied_verdict, settle_review, evaluated_score,
  review_completed, score_differs, promoted_edge, promotion_committed, rolled_back_edge,
  rollback_committed,
}
use post_training_rsi_pipeli.Harness.Inner.Refines.{Follows}
use post_training_rsi_pipeli.Harness.Inner.Runs.{
  Observation, made, evaluated, reviewed, promoted, operation, operation-Follows_model, Run, begun,
  called, inner_bounded,
}
use post_training_rsi_pipeli.Harness.Inner.Accepted.{Accepted, Run-Accepted}

abbrev limits : ModelInnerLimits fixed
limits = record {
  min_improvement = pos 5;
  regression_tolerance = pos 50;
  per_stage_budget_usd = pos 30;
  total_budget_usd = pos 100;
  approval_required = true;
}

abbrev digest : String
digest = "00112233445566778899aabbccddeeff00112233445566778899aabbccddeeff"

abbrev begin : StateSnapshot fixed
begin = record {
  snapshot_id = "harness-snapshot-00112233445566778899aabb";
  run_id = "run-1";
  iteration = 1;
  cycle = 0;
  state = ControlState.train_model;
  entered_at = "2026-08-01T00:00:00Z";
  active_checkpoint_id = some "model-0";
  candidate_checkpoint_id = none;
  peak_checkpoint_id = some "model-0";
  active_harness_id = some "harness-0";
  candidate_harness_id = none;
  candidate_score = none;
  peak_score = some (pos 500);
  plateau_count = 0;
  total_cost_usd = pos 0;
  stop_reason = none;
  evidence_ids = "evidence-1" ∷ [];
  metadata = field "decision_id" (text "harness-decision-00112233445566778899aabb") (
      field "active_model_score" (float (pos 500)) (
        field "trace_dataset_id" (text "dataset-1")
          (field "trace_dataset_sha256" (text digest) end)));
}

abbrev candidate : Fields fixed → Observation fixed
candidate metadata = made (record {
  checkpoint_id = "model-1";
  request_id = "request-1";
  run_id = "run-1";
  cycle = 0;
  model_id = "base";
  parent_checkpoint_id = "model-0";
  dataset_id = "dataset-1";
  dataset_sha256 = digest;
  artifact_path = "artifacts";
  artifact_sha256 = digest;
  training_loss = pos 100;
  training_cost_usd = pos 20;
  trained_at = "2026-08-01T06:00:00Z";
  evidence_ids = "evidence-7" ∷ [];
  metadata = metadata;
})

abbrev benchmark : ℕ → Observation fixed
benchmark score = evaluated (record {
  run_id = "run-1";
  cycle = 0;
  checkpoint_id = "model-1";
  parent_checkpoint_id = "model-0";
  endpoint = "local";
  benchmark_id = "bench-1";
  score = pos score;
  task_family_scores = [];
  failure_trace_uris = [];
  evaluation_cost_usd = pos 10;
  evaluated_at = "2026-08-01T07:00:00Z";
  evidence_ids = "evidence-8" ∷ [];
  metadata = end;
})

abbrev review : Observation fixed
review = reviewed (record {
  request_id = "request-2";
  checkpoint_id = "model-1";
  approved = true;
  reviewer_id = "reviewer-1";
  reviewer_role = "owner";
  decided_at = "2026-08-01T08:00:00Z";
  evidence_ids = "evidence-9" ∷ [];
})

abbrev promotion : Observation fixed
promotion = promoted (record {
  checkpoint_id = "model-1";
  previous_checkpoint_id = "model-0";
  score = pos 520;
  checkpoint_bundle_sha256 = digest;
  committed_at = "2026-08-01T09:00:00Z";
  evidence_ids = "evidence-10" ∷ [];
})

-- The operations, with all that they call.
unfoldable run_operation : StateSnapshot fixed → Observation fixed → Outcome (PolicyStep fixed)
unfolding training_completed train trained_edge evaluation_completed judge settle_evaluation
    regression regressed evaluation_metadata review_edge promote_verdict rollback_verdict
    review_completed settle_review evaluated_score review_metadata approved_verdict denied_verdict
    promotion_committed promoted_edge score_differs rollback_committed rolled_back_edge verdict_edge
    promotion_decision rollback_decision abort_edge budget_abort over_stage_budget over_total_budget
    charge_stage improves edge_of edge_from_snapshot require_state validate_active_lineage
    active_model_score validate_candidate_lineage validate_evaluation_lineage emit edge_decision
    edge_transition edge_snapshot record_id check_step combine phase_of ControlState.value
    ControlState.is_state DecisionSubject.value lower take_text between DecisionRecord.post_init
    TransitionRecord.post_init StateSnapshot.post_init validate_id validate_text validate_id_tuple
    validate_optional_id validate_finite_number validate_nonnegative_number validate_optional_number
    normalize_timestamp parse_timestamp is_id is_text id_codes is_alnum is_control is_id_char
    is_space offset_to_z z_to_offset normalize_json_object insert_field
run_operation current o = operation fixed limits current o

abbrev no_step : PolicyStep fixed
no_step = record { decisions = []; transitions = []; snapshots = [] }

abbrev step_of : Outcome (PolicyStep fixed) → PolicyStep fixed
step_of (ok step) = step
step_of (raise e) = no_step

abbrev last_of : StateSnapshot fixed → Outcome (StateSnapshot fixed) → StateSnapshot fixed
last_of default (ok s) = s
last_of default (raise e) = default

abbrev states : Outcome (PolicyStep fixed) → List ControlState
states o = map (λ s. s.state) (step_of o).snapshots

-- the last snapshot of a call
unfoldable after : StateSnapshot fixed → Observation fixed → StateSnapshot fixed
unfolding run_operation
after s o = last_of s (final_snapshot fixed (step_of (run_operation s o)))

abbrev second : StateSnapshot fixed
second = after begin (candidate end)

abbrev third : StateSnapshot fixed
third = after second (benchmark 520)

abbrev fourth : StateSnapshot fixed
fourth = after third review

abbrev fifth : StateSnapshot fixed
fifth = after fourth promotion

review_states :
    states (run_operation second (benchmark 520)) ≡ ControlState.model_review_pending ∷ []
unfolding run_operation after
review_states = refl

rollback_states : states (run_operation second (benchmark 505)) ≡ ControlState.rollback_model ∷ []
unfolding run_operation after
rollback_states = refl

-- the score of the accepted model is the candidate's to set
overwritten :
    active_model_score fixed
      (after begin (candidate (field "active_model_score" (float (pos 100)) end)))
    ≡ ok (pos 100)
unfolding run_operation after active_model_score validate_finite_number
overwritten = refl

abbrev loop : Run fixed limits begin 4 fifth
unfolding run_operation after
loop =
    called promotion (step_of (run_operation fourth promotion)) fifth
      (called review (step_of (run_operation third review)) fourth
        (called (benchmark 520) (step_of (run_operation second (benchmark 520))) third
          (called (candidate end) (step_of (run_operation begin (candidate end))) second begun refl
            refl)
          refl refl)
        refl refl)
      refl refl

operation-Follows_model_example :
    Follows fixed limits second (step_of (run_operation second (benchmark 520)))
unfolding run_operation after
operation-Follows_model_example =
    operation-Follows_model fixed limits second (benchmark 520)
      (step_of (run_operation second (benchmark 520))) refl

inner_bounded_example : 4 ≤ 4
inner_bounded_example = inner_bounded fixed limits begin fifth 4 loop

Run-Accepted_example : Accepted fixed limits begin fifth
Run-Accepted_example = Run-Accepted fixed limits begin fifth 4 refl refl loop
