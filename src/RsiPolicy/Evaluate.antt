-- ===== src/RsiPolicy/Evaluate.antt =====
-- `RSIDecisionPolicy.evaluate` of orchestration/rsi_policy.py.
use post_training_rsi_pipeli.Prelude.{
  ◌+◌, Bool, true, false, none, some, Outcome, ◌>>=◌, ◌>>◌, if◌then◌else◌,
}
use post_training_rsi_pipeli.Platform.{Platform}
use post_training_rsi_pipeli.ControlPlane.Value.{float, Fields, end, field}
use post_training_rsi_pipeli.ControlPlane.Enums.ControlState
use post_training_rsi_pipeli.ControlPlane.Enums.ControlEvent
use post_training_rsi_pipeli.ControlPlane.Enums.StopReason.{StopReason}
use post_training_rsi_pipeli.ControlPlane.Enums.DecisionAction
use post_training_rsi_pipeli.ControlPlane.Records.StateSnapshot.{StateSnapshot}
use post_training_rsi_pipeli.RsiPolicy.Inputs.{RsiPolicyLimits, CandidateObservation}
use post_training_rsi_pipeli.RsiPolicy.Step.{RsiPolicyStep}
use post_training_rsi_pipeli.RsiPolicy.Records.{CandidateEdge}
use post_training_rsi_pipeli.RsiPolicy.Edges.{
  candidate_step, advance, validate_input, required_peak_score,
}

abbrev is_per_iteration : StopReason → Bool
is_per_iteration StopReason.per_iteration_budget_exceeded = true
is_per_iteration _ = false

module _ (P : Platform) (limits : RsiPolicyLimits P) (current : StateSnapshot P)
    (candidate : CandidateObservation P) where
  -- current.total_cost_usd + candidate.iteration_cost_usd
  unfoldable pub next_total_cost : P.Float
  next_total_cost = P.add current.total_cost_usd candidate.iteration_cost_usd

  -- the metadata of a decision that compares the scores
  abbrev pub comparison : P.Float → Fields P
  comparison peak_score = field "candidate_score" (float candidate.score) (
      field "peak_score_before" (float peak_score) (
        field "score_delta" (float (P.sub candidate.score peak_score))
          (field "min_improvement" (float limits.min_improvement) end)))

  unfoldable pub budget_edge : StopReason → P.Float → CandidateEdge P
  unfolding next_total_cost
  budget_edge stop_reason peak_score = record {
    target_state = ControlState.aborted;
    event = ControlEvent.budget_exceeded;
    action = DecisionAction.abort;
    reason_code =
        if is_per_iteration stop_reason
        then "per-iteration_budget_exceeded"
        else "total_budget_exceeded";
    reason =
        if is_per_iteration stop_reason
        then "The evaluated candidate exceeded the per-iteration budget boundary."
        else "The evaluated candidate exceeded the total budget boundary.";
    next_peak_checkpoint_id = current.peak_checkpoint_id;
    next_peak_score = peak_score;
    next_plateau_count = current.plateau_count;
    stop_reason = some stop_reason;
    metadata = field "iteration_cost_usd" (float candidate.iteration_cost_usd) (
        field "run_total_usd" (float next_total_cost) (
          field "per_iteration_limit_usd" (float limits.per_iteration_budget_usd)
            (field "total_limit_usd" (float limits.total_budget_usd) end)));
  }

  unfoldable pub promote_edge : P.Float → CandidateEdge P
  promote_edge peak_score = record {
    target_state = ControlState.promoted;
    event = ControlEvent.candidate_improved;
    action = DecisionAction.promote;
    reason_code = "candidate_above_peak";
    reason =
        "Candidate exceeded the historical Peak by more than the configured minimum improvement.";
    next_peak_checkpoint_id = some candidate.checkpoint_id;
    next_peak_score = candidate.score;
    next_plateau_count = 0;
    stop_reason = none;
    metadata = comparison peak_score;
  }

  -- max(0.0, peak_score - candidate.score)
  unfoldable pub regression : P.Float → P.Float
  regression peak_score =
      let drop = P.sub peak_score candidate.score in
      if P.less P.zero_float drop then drop else P.zero_float

  unfoldable pub rollback_edge : P.Float → CandidateEdge P
  unfolding regression
  rollback_edge peak_score = record {
    target_state = ControlState.rolled_back;
    event = ControlEvent.regression_detected;
    action = DecisionAction.rollback;
    reason_code = "candidate_regressed";
    reason =
        "Candidate regressed beyond the configured tolerance; the accepted Peak remains active.";
    next_peak_checkpoint_id = current.peak_checkpoint_id;
    next_peak_score = peak_score;
    next_plateau_count = current.plateau_count + 1;
    stop_reason = some StopReason.regression_rollback;
    metadata = field "candidate_score" (float candidate.score) (
        field "peak_score_before" (float peak_score) (
          field "regression" (float (regression peak_score))
            (field "regression_tolerance" (float limits.regression_tolerance) end)));
  }

  unfoldable pub reject_edge : P.Float → CandidateEdge P
  reject_edge peak_score = record {
    target_state = ControlState.rejected;
    event = ControlEvent.candidate_not_improved;
    action = DecisionAction.reject;
    reason_code = "candidate_not_above_peak";
    reason =
        "Candidate did not exceed the historical Peak by more than the configured minimum improvement.";
    next_peak_checkpoint_id = current.peak_checkpoint_id;
    next_peak_score = peak_score;
    next_plateau_count = current.plateau_count + 1;
    stop_reason = none;
    metadata = comparison peak_score;
  }

  -- the tests of `evaluate`
  unfoldable pub over_iteration_budget : Bool
  over_iteration_budget =
      P.less (P.add limits.per_iteration_budget_usd P.tiny) candidate.iteration_cost_usd

  unfoldable pub over_total_budget : Bool
  unfolding next_total_cost
  over_total_budget = P.less (P.add limits.total_budget_usd P.tiny) next_total_cost

  unfoldable pub improves : P.Float → Bool
  improves peak_score = P.less (P.add peak_score limits.min_improvement) candidate.score

  unfoldable pub regresses : P.Float → Bool
  unfolding regression
  regresses peak_score = P.less (P.add limits.regression_tolerance P.tiny) (regression peak_score)

  unfoldable pub step_by : CandidateEdge P → Outcome (RsiPolicyStep P)
  unfolding next_total_cost
  step_by = candidate_step P current candidate next_total_cost

  -- `_abort_for_budget`
  unfoldable pub abort_for_budget : StopReason → Outcome (RsiPolicyStep P)
  abort_for_budget stop_reason = do
    peak_score ← required_peak_score P current
    step_by (budget_edge stop_reason peak_score)

  -- `evaluate` after the budgets
  unfoldable pub compare_scores : P.Float → Outcome (RsiPolicyStep P)
  compare_scores peak_score =
      if improves peak_score
      then (do
        intermediate ← step_by (promote_edge peak_score)
        advance P limits intermediate candidate)
      else if regresses peak_score
      then step_by (rollback_edge peak_score)
      else (do
        intermediate ← step_by (reject_edge peak_score)
        advance P limits intermediate candidate)

  unfoldable pub evaluate : Outcome (RsiPolicyStep P)
  unfolding abort_for_budget compare_scores
  evaluate = do
    validate_input P current candidate
    (if over_iteration_budget
        then abort_for_budget StopReason.per_iteration_budget_exceeded
        else if over_total_budget
        then abort_for_budget StopReason.total_budget_exceeded
        else (required_peak_score P current >>= compare_scores))
