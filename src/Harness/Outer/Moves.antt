-- ===== src/Harness/Outer/Moves.antt =====
-- The edges that the operations of `HarnessOuterPolicy` (harness/outer_loop/policy.py) take from a
-- snapshot, one definition for each call of `_edge_from_snapshot`.
use Prim.Native.String.{◌++◌ as append}
use post_training_rsi_pipeli.Prelude.{◌+◌, List, [], ◌∷◌, String, none, some, pos, length}
use post_training_rsi_pipeli.Platform.{Platform}
use post_training_rsi_pipeli.ControlPlane.Value.{
  Fields, end, field, text, int, float, object, array,
}
use post_training_rsi_pipeli.ControlPlane.Encoding.{of_optional_text, of_texts}
use post_training_rsi_pipeli.ControlPlane.Dict.{update}
use post_training_rsi_pipeli.ControlPlane.Enums.ControlState.{ControlState}
use post_training_rsi_pipeli.ControlPlane.Enums.ControlEvent.{ControlEvent}
use post_training_rsi_pipeli.ControlPlane.Enums.StopReason.{StopReason}
use post_training_rsi_pipeli.ControlPlane.Enums.DecisionAction.{DecisionAction}
use post_training_rsi_pipeli.ControlPlane.Enums.DecisionSubject.{DecisionSubject}
use post_training_rsi_pipeli.ControlPlane.Records.StateSnapshot.{StateSnapshot}
use post_training_rsi_pipeli.Harness.Steps.{or_text}
use post_training_rsi_pipeli.Harness.Outer.Contracts.{
  HarnessSpec, HarnessValidationResult, HarnessBenchmarkResult, HarnessReviewObservation,
  content_sha256,
}
use post_training_rsi_pipeli.Harness.Outer.Edges.{HarnessOuterLimits, SnapshotEdge}

-- `"per_iteration" if stop_reason is PER_ITERATION_BUDGET_EXCEEDED else "total"`
abbrev budget_name : StopReason → String
budget_name StopReason.per_iteration_budget_exceeded = "per_iteration"
budget_name _ = "total"

-- a `dict[str, float]` as metadata
abbrev pub of_scores : {P : Platform} → List (String × P.Float) → Fields P
of_scores [] = end
of_scores ((key, value) ∷ scores) = field key (float value) (of_scores scores)

module _ (P : Platform) (canonical_json : Fields P → String) (current : StateSnapshot P)
    (candidate : HarnessSpec P) (created_at : String) (evidence_ids : List String)
    (active_score : P.Float) where
  -- candidate_created
  unfoldable pub candidate_edge : SnapshotEdge P
  unfolding content_sha256
  candidate_edge = record {
    to_state = ControlState.validate_harness;
    event = ControlEvent.harness_mutated;
    action = DecisionAction.continue;
    subject_type = DecisionSubject.harness;
    subject_id = candidate.harness_id;
    reason_code = "harness_candidate_created";
    reason = "A deterministic Harness mutation produced a Candidate for validation.";
    timestamp = created_at;
    evidence_ids = evidence_ids;
    active_harness_id = current.active_harness_id;
    candidate_harness_id = some candidate.harness_id;
    candidate_score = none;
    peak_score = active_score;
    plateau_count = current.plateau_count;
    total_cost_usd = none;
    stop_reason = none;
    next_iteration = none;
    metadata = field "candidate_harness_sha256" (text (content_sha256 P canonical_json candidate)) (
        field "candidate_harness_version" (int (pos candidate.version))
          (field "parent_harness_id" (of_optional_text candidate.parent_harness_id) end));
  }

module _ (P : Platform) (current : StateSnapshot P) (result : HarnessValidationResult P)
    (active_score : P.Float) where
  -- validation_completed with a valid candidate
  unfoldable pub valid_edge : SnapshotEdge P
  valid_edge = record {
    to_state = ControlState.evaluate_harness;
    event = ControlEvent.harness_validated;
    action = DecisionAction.continue;
    subject_type = DecisionSubject.harness;
    subject_id = result.candidate_harness_id;
    reason_code = "harness_validation_passed";
    reason = "Harness Candidate passed static and policy validation.";
    timestamp = result.validated_at;
    evidence_ids = result.evidence_ids;
    active_harness_id = current.active_harness_id;
    candidate_harness_id = some result.candidate_harness_id;
    candidate_score = none;
    peak_score = active_score;
    plateau_count = current.plateau_count;
    total_cost_usd = none;
    stop_reason = none;
    next_iteration = none;
    metadata = field "validation_metrics" (object result.metrics) end;
  }

  -- and with one that is not
  unfoldable pub invalid_edge : SnapshotEdge P
  invalid_edge = record {
    to_state = ControlState.reject_harness;
    event = ControlEvent.harness_invalid;
    action = DecisionAction.reject;
    subject_type = DecisionSubject.harness;
    subject_id = result.candidate_harness_id;
    reason_code = "harness_validation_failed";
    reason = "Harness Candidate failed static or policy validation.";
    timestamp = result.validated_at;
    evidence_ids = result.evidence_ids;
    active_harness_id = current.active_harness_id;
    candidate_harness_id = some result.candidate_harness_id;
    candidate_score = none;
    peak_score = active_score;
    plateau_count = current.plateau_count + 1;
    total_cost_usd = none;
    stop_reason = none;
    next_iteration = none;
    metadata =
        field "rejection_reasons" (array (of_texts result.reasons))
          (field "validation_metrics" (object result.metrics) end);
  }

module _ (P : Platform) (limits : HarnessOuterLimits P) (current : StateSnapshot P)
    (result : HarnessBenchmarkResult P) (active_score next_total_cost : P.Float) where
  -- the metadata of evaluation_completed
  unfoldable pub evaluation_metadata : Fields P
  evaluation_metadata =
      update
        (field "benchmark_id" (text result.benchmark_id) (
          field "candidate_score" (float result.score) (
            field "active_harness_score" (float active_score) (
              field "score_delta" (float (P.sub result.score active_score)) (
                field "min_improvement" (float limits.min_improvement) (
                  field "task_family_scores" (object (of_scores result.task_family_scores)) (
                    field "task_count" (int (pos (length result.task_results)))
                      (field "cost_usd" (float result.cost_usd) end))))))))
        result.metadata

  unfoldable pub review_edge : SnapshotEdge P
  unfolding evaluation_metadata
  review_edge = record {
    to_state = ControlState.harness_review_pending;
    event = ControlEvent.harness_review_requested;
    action = DecisionAction.request_approval;
    subject_type = DecisionSubject.harness;
    subject_id = result.harness_id;
    reason_code = "harness_improved_review_required";
    reason =
        "Harness Candidate strictly improved under the frozen model and requires human approval before acceptance.";
    timestamp = result.evaluated_at;
    evidence_ids = result.evidence_ids;
    active_harness_id = current.active_harness_id;
    candidate_harness_id = some result.harness_id;
    candidate_score = some result.score;
    peak_score = active_score;
    plateau_count = current.plateau_count;
    total_cost_usd = some next_total_cost;
    stop_reason = none;
    next_iteration = none;
    metadata = evaluation_metadata;
  }

  unfoldable pub accept_edge : SnapshotEdge P
  unfolding evaluation_metadata
  accept_edge = record {
    to_state = ControlState.accept_harness;
    event = ControlEvent.harness_improved;
    action = DecisionAction.accept;
    subject_type = DecisionSubject.harness;
    subject_id = result.harness_id;
    reason_code = "harness_strictly_improved";
    reason =
        "Harness Candidate exceeded the active Harness by more than the configured minimum improvement.";
    timestamp = result.evaluated_at;
    evidence_ids = result.evidence_ids;
    active_harness_id = some result.harness_id;
    candidate_harness_id = some result.harness_id;
    candidate_score = some result.score;
    peak_score = result.score;
    plateau_count = 0;
    total_cost_usd = some next_total_cost;
    stop_reason = none;
    next_iteration = none;
    metadata = evaluation_metadata;
  }

  unfoldable pub reject_edge : SnapshotEdge P
  unfolding evaluation_metadata
  reject_edge = record {
    to_state = ControlState.reject_harness;
    event = ControlEvent.harness_not_improved;
    action = DecisionAction.reject;
    subject_type = DecisionSubject.harness;
    subject_id = result.harness_id;
    reason_code = "harness_not_above_active";
    reason =
        "Harness Candidate did not exceed the active Harness by more than the configured minimum improvement.";
    timestamp = result.evaluated_at;
    evidence_ids = result.evidence_ids;
    active_harness_id = current.active_harness_id;
    candidate_harness_id = some result.harness_id;
    candidate_score = some result.score;
    peak_score = active_score;
    plateau_count = current.plateau_count + 1;
    total_cost_usd = some next_total_cost;
    stop_reason = none;
    next_iteration = none;
    metadata = evaluation_metadata;
  }

  -- `_budget_abort`
  unfoldable pub abort_edge : StopReason → SnapshotEdge P
  abort_edge stop_reason = record {
    to_state = ControlState.aborted;
    event = ControlEvent.budget_exceeded;
    action = DecisionAction.abort;
    subject_type = DecisionSubject.harness;
    subject_id = result.harness_id;
    reason_code = append "harness_" (append (budget_name stop_reason) "_budget_exceeded");
    reason =
        append "Harness evaluation crossed the "
          (append (budget_name stop_reason) " budget boundary.");
    timestamp = result.evaluated_at;
    evidence_ids = result.evidence_ids;
    active_harness_id = current.active_harness_id;
    candidate_harness_id = some result.harness_id;
    candidate_score = some result.score;
    peak_score = active_score;
    plateau_count = current.plateau_count;
    total_cost_usd = some next_total_cost;
    stop_reason = some stop_reason;
    next_iteration = none;
    metadata = field "iteration_cost_usd" (float result.cost_usd) (
        field "run_total_usd" (float next_total_cost) (
          field "per_iteration_limit_usd" (float limits.per_iteration_budget_usd)
            (field "total_limit_usd" (float limits.total_budget_usd) end)));
  }

module _ (P : Platform) (current : StateSnapshot P) (review : HarnessReviewObservation)
    (candidate_score active_score : P.Float) where
  -- the metadata of review_completed
  unfoldable pub review_metadata : Fields P
  review_metadata = field "approval_request_id" (text review.request_id) (
      field "reviewer_id" (text review.reviewer_id) (
        field "reviewer_role" (text review.reviewer_role) (
          field "candidate_score" (float candidate_score)
            (field "active_harness_score" (float active_score) end))))

  unfoldable pub approved_edge : SnapshotEdge P
  unfolding review_metadata
  approved_edge = record {
    to_state = ControlState.accept_harness;
    event = ControlEvent.harness_approved;
    action = DecisionAction.accept;
    subject_type = DecisionSubject.harness;
    subject_id = review.candidate_harness_id;
    reason_code = "harness_approval_granted";
    reason = "Authorized human review granted Harness acceptance authority.";
    timestamp = review.decided_at;
    evidence_ids = review.evidence_ids;
    active_harness_id = some review.candidate_harness_id;
    candidate_harness_id = some review.candidate_harness_id;
    candidate_score = some candidate_score;
    peak_score = candidate_score;
    plateau_count = 0;
    total_cost_usd = none;
    stop_reason = none;
    next_iteration = none;
    metadata = review_metadata;
  }

  unfoldable pub denied_edge : SnapshotEdge P
  unfolding review_metadata
  denied_edge = record {
    to_state = ControlState.reject_harness;
    event = ControlEvent.harness_denied;
    action = DecisionAction.reject;
    subject_type = DecisionSubject.harness;
    subject_id = review.candidate_harness_id;
    reason_code = "harness_approval_not_granted";
    reason = "Human review did not grant Harness acceptance authority.";
    timestamp = review.decided_at;
    evidence_ids = review.evidence_ids;
    active_harness_id = current.active_harness_id;
    candidate_harness_id = some review.candidate_harness_id;
    candidate_score = some candidate_score;
    peak_score = active_score;
    plateau_count = current.plateau_count + 1;
    total_cost_usd = none;
    stop_reason = none;
    next_iteration = none;
    metadata = review_metadata;
  }

module _ (P : Platform) (current : StateSnapshot P) (timestamp : String)
    (active_score : P.Float) where
  unfoldable pub handoff_edge : ControlEvent → String → String → SnapshotEdge P
  handoff_edge event reason_code reason = record {
    to_state = ControlState.harvest_traces;
    event = event;
    action = DecisionAction.continue;
    subject_type = DecisionSubject.run;
    subject_id = current.run_id;
    reason_code = reason_code;
    reason = reason;
    timestamp = timestamp;
    evidence_ids = current.evidence_ids;
    active_harness_id = current.active_harness_id;
    candidate_harness_id = none;
    candidate_score = none;
    peak_score = active_score;
    plateau_count = current.plateau_count;
    total_cost_usd = none;
    stop_reason = none;
    next_iteration = none;
    metadata = field "handoff" (text "trace_harvesting") end;
  }

  -- the three edges of `_advance`
  unfoldable pub plateau_edge : SnapshotEdge P
  unfolding handoff_edge
  plateau_edge =
      handoff_edge ControlEvent.harness_plateau_reached "harness_plateau_trace_handoff"
        "Harness search reached the configured plateau and hands control to successful-trace harvesting."

  unfoldable pub limit_edge : SnapshotEdge P
  unfolding handoff_edge
  limit_edge =
      handoff_edge ControlEvent.max_iterations_reached "harness_iteration_limit_trace_handoff"
        "Harness search reached its iteration limit and hands control to successful-trace harvesting."

  unfoldable pub next_edge : SnapshotEdge P
  next_edge = record {
    to_state = ControlState.mutate_harness;
    event = ControlEvent.next_iteration_requested;
    action = DecisionAction.continue;
    subject_type = DecisionSubject.harness;
    subject_id = or_text current.active_harness_id current.run_id;
    reason_code = "continue_harness_search";
    reason = "Continue Harness mutation search under the same frozen model.";
    timestamp = timestamp;
    evidence_ids = current.evidence_ids;
    active_harness_id = current.active_harness_id;
    candidate_harness_id = none;
    candidate_score = none;
    peak_score = active_score;
    plateau_count = current.plateau_count;
    total_cost_usd = none;
    stop_reason = none;
    next_iteration = some (current.iteration + 1);
    metadata =
        field "frozen_model_checkpoint_id" (of_optional_text current.active_checkpoint_id) end;
  }
