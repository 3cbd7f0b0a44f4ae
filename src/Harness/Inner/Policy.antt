-- ===== src/Harness/Inner/Policy.antt =====
-- The operations of `ModelInnerPolicy` in harness/model_inner_loop/policy.py. `a <= b` on finite
-- scores is written as the negation of `b < a`.
use post_training_rsi_pipeli.Prelude.{Bool, none, some, Outcome, ◌>>=◌, ◌>>◌, if◌then◌else◌}
use post_training_rsi_pipeli.Platform.{Platform}
use post_training_rsi_pipeli.ControlPlane.Value.{Fields, end, field, text, float, array, object}
use post_training_rsi_pipeli.ControlPlane.Encoding.{of_texts}
use post_training_rsi_pipeli.ControlPlane.Dict.{update}
use post_training_rsi_pipeli.ControlPlane.Enums.ControlState.{ControlState}
use post_training_rsi_pipeli.ControlPlane.Enums.ControlEvent.{ControlEvent}
use post_training_rsi_pipeli.ControlPlane.Enums.StopReason.{StopReason}
use post_training_rsi_pipeli.ControlPlane.Enums.DecisionAction.{DecisionAction}
use post_training_rsi_pipeli.ControlPlane.Records.StateSnapshot.{StateSnapshot}
use post_training_rsi_pipeli.Harness.Steps.{PolicyStep}
use post_training_rsi_pipeli.Harness.Outer.Moves.{of_scores}
use post_training_rsi_pipeli.Harness.Inner.Contracts.{
  ModelCandidateArtifact, ModelBenchmarkObservation,
}
use post_training_rsi_pipeli.Harness.Inner.Edges.{
  ModelInnerLimits, ModelEdge, edge_from_snapshot, require_state, validate_active_lineage,
  active_model_score, validate_candidate_lineage, validate_evaluation_lineage,
}
use post_training_rsi_pipeli.Harness.Inner.Decisions.{
  Verdict, promotion_decision, rollback_decision, charge_stage, improves,
}

module _ (P : Platform) (limits : ModelInnerLimits P) (current : StateSnapshot P) where
  module _ (candidate : ModelCandidateArtifact P) where
    unfoldable pub trained_edge : P.Float → P.Float → ModelEdge P
    trained_edge next_total_cost active_score = record {
      to_state = ControlState.evaluate_model;
      event = ControlEvent.model_trained;
      action = DecisionAction.continue;
      subject_id = candidate.checkpoint_id;
      reason_code = "trace_dataset_model_candidate_trained";
      reason =
          "A Candidate model was trained from the verified Trace Dataset and passed artifact-lineage validation.";
      timestamp = candidate.trained_at;
      evidence_ids = candidate.evidence_ids;
      candidate_checkpoint_id = some candidate.checkpoint_id;
      candidate_score = none;
      active_checkpoint_id = current.active_checkpoint_id;
      peak_checkpoint_id = current.peak_checkpoint_id;
      total_cost_usd = next_total_cost;
      decision_stop_reason = none;
      snapshot_stop_reason = none;
      metadata =
          update
            (field "training_request_id" (text candidate.request_id) (
              field "candidate_checkpoint_id" (text candidate.checkpoint_id) (
                field "candidate_model_id" (text candidate.model_id) (
                  field "parent_checkpoint_id" (text candidate.parent_checkpoint_id) (
                    field "trace_dataset_id" (text candidate.dataset_id) (
                      field "trace_dataset_sha256" (text candidate.dataset_sha256) (
                        field "artifact_path" (text candidate.artifact_path) (
                          field "artifact_sha256" (text candidate.artifact_sha256) (
                            field "training_loss" (float candidate.training_loss) (
                              field "training_cost_usd" (float candidate.training_cost_usd) (
                                field "candidate_trained_at" (text candidate.trained_at) (
                                  field "candidate_evidence_ids"
                                    (array (of_texts candidate.evidence_ids))
                                    (field "candidate_metadata" (object candidate.metadata) (
                                      field "active_model_score" (float active_score)
                                        end))))))))))))))
            candidate.metadata;
      next_cycle = none;
      next_iteration = none;
    }

    -- the edge into EVALUATE_MODEL
    unfoldable pub train : P.Float → Outcome (PolicyStep P)
    train next_total_cost = do
      active_score ← active_model_score P current
      edge_from_snapshot P current (trained_edge next_total_cost active_score)

    unfoldable pub training_completed : Outcome (PolicyStep P)
    unfolding train
    training_completed = do
      require_state P current ControlState.train_model
      validate_active_lineage P current
      validate_candidate_lineage P current candidate
      charge_stage P limits current candidate.checkpoint_id "training" candidate.training_cost_usd
          candidate.trained_at candidate.evidence_ids train

  module _ (observation : ModelBenchmarkObservation P) where
    -- `max(0.0, active_score - score)`
    unfoldable pub regression : P.Float → P.Float
    regression active_score =
        let drop = P.sub active_score observation.score in
        if P.less P.zero_float drop then drop else P.zero_float

    unfoldable pub regressed : P.Float → Bool
    unfolding regression
    regressed active_score =
        P.less (P.add limits.regression_tolerance P.tiny) (regression active_score)

    unfoldable pub evaluation_metadata : P.Float → Fields P
    unfolding regression
    evaluation_metadata active_score =
        update
          (update current.metadata (
            field "candidate_checkpoint_id" (text observation.checkpoint_id) (
              field "parent_checkpoint_id" (text observation.parent_checkpoint_id) (
                field "benchmark_id" (text observation.benchmark_id) (
                  field "candidate_model_score" (float observation.score) (
                    field "active_model_score" (float active_score) (
                      field "score_delta" (float (P.sub observation.score active_score)) (
                        field "min_improvement" (float limits.min_improvement) (
                          field "regression" (float (regression active_score)) (
                            field "regression_tolerance" (float limits.regression_tolerance) (
                              field "task_family_scores"
                                (object (of_scores observation.task_family_scores))
                                (field "failure_trace_uris"
                                  (array (of_texts observation.failure_trace_uris))
                                  (field "evaluation_cost_usd"
                                    (float observation.evaluation_cost_usd)
                                    (field "endpoint" (text observation.endpoint) end))))))))))))))
          observation.metadata

    module _ (next_total_cost active_score : P.Float) where
      unfoldable pub review_edge : ModelEdge P
      unfolding evaluation_metadata
      review_edge = record {
        to_state = ControlState.model_review_pending;
        event = ControlEvent.model_review_requested;
        action = DecisionAction.request_approval;
        subject_id = observation.checkpoint_id;
        reason_code = "model_improved_review_required";
        reason =
            "Candidate model strictly improved and requires immutable human promotion authority.";
        timestamp = observation.evaluated_at;
        evidence_ids = observation.evidence_ids;
        candidate_checkpoint_id = some observation.checkpoint_id;
        candidate_score = some observation.score;
        active_checkpoint_id = current.active_checkpoint_id;
        peak_checkpoint_id = current.peak_checkpoint_id;
        total_cost_usd = next_total_cost;
        decision_stop_reason = none;
        snapshot_stop_reason = none;
        metadata = evaluation_metadata active_score;
        next_cycle = none;
        next_iteration = none;
      }

      unfoldable pub promote_verdict : Verdict P limits current
      unfolding evaluation_metadata
      promote_verdict = record {
        checkpoint_id = observation.checkpoint_id;
        score = observation.score;
        timestamp = observation.evaluated_at;
        evidence_ids = observation.evidence_ids;
        total_cost_usd = next_total_cost;
        reason_code = "model_strictly_improved";
        reason =
            "Candidate model exceeded the accepted model by more than the configured minimum improvement.";
        event = ControlEvent.model_improved;
        decision_stop_reason = none;
        metadata = evaluation_metadata active_score;
      }

      unfoldable pub rollback_verdict : Verdict P limits current
      unfolding evaluation_metadata regressed
      rollback_verdict =
          let bad = regressed active_score in
          record {
            checkpoint_id = observation.checkpoint_id;
            score = observation.score;
            timestamp = observation.evaluated_at;
            evidence_ids = observation.evidence_ids;
            total_cost_usd = next_total_cost;
            reason_code =
                if bad then "model_regressed_beyond_tolerance" else "model_not_above_active";
            reason =
                if bad
                then "Candidate model regressed beyond tolerance; keep the accepted model."
                else "Candidate model did not strictly improve; keep the accepted model.";
            event =
                if bad then ControlEvent.regression_detected else ControlEvent.model_not_improved;
            decision_stop_reason = if bad then some StopReason.regression_rollback else none;
            metadata = evaluation_metadata active_score;
          }

      -- the edges after an evaluation that the budgets allow
      unfoldable pub settle_evaluation : Outcome (PolicyStep P)
      unfolding review_edge promote_verdict rollback_verdict
      settle_evaluation =
          if improves P limits active_score observation.score
          then if limits.approval_required
            then edge_from_snapshot P current review_edge
            else promotion_decision P limits current promote_verdict
          else rollback_decision P limits current rollback_verdict

    -- the score of the accepted model, and those edges
    unfoldable pub judge : P.Float → Outcome (PolicyStep P)
    unfolding settle_evaluation
    judge next_total_cost = do
      active_score ← active_model_score P current
      settle_evaluation next_total_cost active_score

    unfoldable pub evaluation_completed : Outcome (PolicyStep P)
    unfolding judge
    evaluation_completed = do
      require_state P current ControlState.evaluate_model
      validate_active_lineage P current
      validate_evaluation_lineage P current observation
      charge_stage P limits current observation.checkpoint_id "evaluation"
          observation.evaluation_cost_usd observation.evaluated_at observation.evidence_ids judge
