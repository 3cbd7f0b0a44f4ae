-- ===== src/Harness/Inner/Commits.antt =====
-- The review and the two commits of `ModelInnerPolicy` in harness/model_inner_loop/policy.py. `a <= b` on finite
-- scores is written as the negation of `b < a`.
use post_training_rsi_pipeli.Prelude.{
  ◌+◌, Bool, true, not, none, some, Outcome, ok, raise, raise_if, model_invariant, ◌>>=◌, ◌>>◌,
  opt_eq, if◌then◌else◌,
}
use post_training_rsi_pipeli.Platform.{Platform}
use post_training_rsi_pipeli.ControlPlane.Value.{Fields, end, field, text, float}
use post_training_rsi_pipeli.ControlPlane.Dict.{update}
use post_training_rsi_pipeli.ControlPlane.Enums.ControlState.{ControlState}
use post_training_rsi_pipeli.ControlPlane.Enums.ControlEvent.{ControlEvent}
use post_training_rsi_pipeli.ControlPlane.Enums.StopReason.{StopReason}
use post_training_rsi_pipeli.ControlPlane.Enums.DecisionAction.{DecisionAction}
use post_training_rsi_pipeli.ControlPlane.Records.StateSnapshot.{StateSnapshot}
use post_training_rsi_pipeli.Harness.Steps.{PolicyStep}
use post_training_rsi_pipeli.Harness.Inner.Contracts.{
  ModelReviewObservation, ModelPromotionCommitObservation, ModelRollbackCommitObservation,
}
use post_training_rsi_pipeli.Harness.Inner.Edges.{
  ModelInnerLimits, ModelEdge, edge_from_snapshot, require_state, validate_active_lineage,
  active_model_score,
}
use post_training_rsi_pipeli.Harness.Inner.Decisions.{
  Verdict, promotion_decision, rollback_decision, improves,
}

module _ (P : Platform) (limits : ModelInnerLimits P) (current : StateSnapshot P) where
  module _ (review : ModelReviewObservation) where
    -- the verdicts of a review
    unfoldable pub review_metadata : Fields P
    review_metadata = update current.metadata (
        field "approval_request_id" (text review.request_id) (
          field "reviewer_id" (text review.reviewer_id)
            (field "reviewer_role" (text review.reviewer_role) end)))

    unfoldable pub approved_verdict : P.Float → Verdict P limits current
    unfolding review_metadata
    approved_verdict score = record {
      checkpoint_id = review.checkpoint_id;
      score = score;
      timestamp = review.decided_at;
      evidence_ids = review.evidence_ids;
      total_cost_usd = current.total_cost_usd;
      reason_code = "model_promotion_approval_granted";
      reason = "Authorized human review granted Candidate model promotion.";
      event = ControlEvent.model_approved;
      decision_stop_reason = none;
      metadata = review_metadata;
    }

    unfoldable pub denied_verdict : P.Float → Verdict P limits current
    unfolding review_metadata
    denied_verdict score = record {
      checkpoint_id = review.checkpoint_id;
      score = score;
      timestamp = review.decided_at;
      evidence_ids = review.evidence_ids;
      total_cost_usd = current.total_cost_usd;
      reason_code = "model_promotion_approval_not_granted";
      reason = "Human review did not grant model promotion authority.";
      event = ControlEvent.model_denied;
      decision_stop_reason = some StopReason.approval_not_granted;
      metadata = review_metadata;
    }

    unfoldable pub settle_review : P.Float → Outcome (PolicyStep P)
    unfolding approved_verdict denied_verdict
    settle_review score =
        if review.approved
        then promotion_decision P limits current (approved_verdict score)
        else rollback_decision P limits current (denied_verdict score)

    -- the score that a review requires
    unfoldable pub evaluated_score : Outcome P.Float
    evaluated_score = elim current.candidate_score [
      | none ↦ raise model_invariant
      | some score ↦ ok score
    ]

    unfoldable pub review_completed : Outcome (PolicyStep P)
    unfolding settle_review evaluated_score
    review_completed = do
      require_state P current ControlState.model_review_pending
      validate_active_lineage P current
      raise_if (not (opt_eq current.candidate_checkpoint_id (some review.checkpoint_id)))
          model_invariant
      score ← evaluated_score
      active_score ← active_model_score P current
      raise_if (not (improves P limits active_score score)) model_invariant
      settle_review score

  -- `candidate_score is None or not math.isclose(candidate_score, score)`
  unfoldable pub score_differs : P.Float → Bool
  score_differs score = elim current.candidate_score [
    | none ↦ true
    | some found ↦ not (P.is_close found score)
  ]

  module _ (observation : ModelPromotionCommitObservation P) where
    -- the edge into SLIM_HARNESS
    unfoldable pub promoted_edge : ModelEdge P
    promoted_edge = record {
      to_state = ControlState.slim_harness;
      event = ControlEvent.model_hot_swapped;
      action = DecisionAction.continue;
      subject_id = observation.checkpoint_id;
      reason_code = "model_promotion_committed";
      reason =
          "The Candidate Checkpoint bundle and Peak update were committed and the model was hot-swapped; hand off to Harness slimming.";
      timestamp = observation.committed_at;
      evidence_ids = observation.evidence_ids;
      candidate_checkpoint_id = none;
      candidate_score = none;
      active_checkpoint_id = some observation.checkpoint_id;
      peak_checkpoint_id = some observation.checkpoint_id;
      total_cost_usd = current.total_cost_usd;
      decision_stop_reason = none;
      snapshot_stop_reason = none;
      metadata = update current.metadata (
          field "previous_checkpoint_id" (text observation.previous_checkpoint_id) (
            field "active_model_score" (float observation.score) (
              field "checkpoint_bundle_sha256" (text observation.checkpoint_bundle_sha256)
                (field "handoff" (text "slim_harness") end))));
      next_cycle = none;
      next_iteration = none;
    }

    unfoldable pub promotion_committed : Outcome (PolicyStep P)
    unfolding promoted_edge
    promotion_committed = do
      require_state P current ControlState.promote_model
      validate_active_lineage P current
      raise_if (not (opt_eq current.candidate_checkpoint_id (some observation.checkpoint_id)))
          model_invariant
      raise_if (not (opt_eq current.active_checkpoint_id (some observation.previous_checkpoint_id)))
          model_invariant
      raise_if (score_differs observation.score) model_invariant
      edge_from_snapshot P current promoted_edge

  module _ (observation : ModelRollbackCommitObservation) where
    -- the edge into FREEZE_MODEL
    unfoldable pub rolled_back_edge : ModelEdge P
    rolled_back_edge = record {
      to_state = ControlState.freeze_model;
      event = ControlEvent.rollback_completed;
      action = DecisionAction.continue;
      subject_id = observation.active_checkpoint_id;
      reason_code = "model_rollback_committed";
      reason =
          "The rejected Candidate was quarantined and the accepted model remains active for the next Co-Evolution cycle.";
      timestamp = observation.completed_at;
      evidence_ids = observation.evidence_ids;
      candidate_checkpoint_id = none;
      candidate_score = none;
      active_checkpoint_id = current.active_checkpoint_id;
      peak_checkpoint_id = current.peak_checkpoint_id;
      total_cost_usd = current.total_cost_usd;
      decision_stop_reason = none;
      snapshot_stop_reason = none;
      metadata = update current.metadata (
          field "rejected_checkpoint_id" (text observation.rejected_checkpoint_id)
            (field "handoff" (text "freeze_model") end));
      next_cycle = some (current.cycle + 1);
      next_iteration = some 0;
    }

    unfoldable pub rollback_committed : Outcome (PolicyStep P)
    unfolding rolled_back_edge
    rollback_committed = do
      require_state P current ControlState.rollback_model
      validate_active_lineage P current
      raise_if
          (not (opt_eq current.candidate_checkpoint_id (some observation.rejected_checkpoint_id)))
          model_invariant
      raise_if (not (opt_eq current.active_checkpoint_id (some observation.active_checkpoint_id)))
          model_invariant
      edge_from_snapshot P current rolled_back_edge
