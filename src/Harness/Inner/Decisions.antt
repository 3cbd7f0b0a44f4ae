-- ===== src/Harness/Inner/Decisions.antt =====
-- The decisions and the budgets of `ModelInnerPolicy` in harness/model_inner_loop/policy.py. `a <= b` on finite
-- scores is written as the negation of `b < a`.
use Prim.Native.String.{◌++◌ as append}
use post_training_rsi_pipeli.Prelude.{
  Bool, not, String, List, Option, none, some, Outcome, opt_eq, if◌then◌else◌,
}
use post_training_rsi_pipeli.Platform.{Platform}
use post_training_rsi_pipeli.ControlPlane.Value.{Fields, end, field, text, float}
use post_training_rsi_pipeli.ControlPlane.Dict.{update}
use post_training_rsi_pipeli.ControlPlane.Enums.ControlState.{ControlState}
use post_training_rsi_pipeli.ControlPlane.Enums.ControlEvent.{ControlEvent}
use post_training_rsi_pipeli.ControlPlane.Enums.StopReason.{StopReason}
use post_training_rsi_pipeli.ControlPlane.Enums.DecisionAction.{DecisionAction}
use post_training_rsi_pipeli.ControlPlane.Records.StateSnapshot.{StateSnapshot}
use post_training_rsi_pipeli.Harness.Steps.{PolicyStep}
use post_training_rsi_pipeli.Harness.Inner.Edges.{ModelInnerLimits, ModelEdge, edge_from_snapshot}

-- `"per_stage" if stop_reason is PER_ITERATION_BUDGET_EXCEEDED else "total"`
abbrev budget_name : StopReason → String
budget_name StopReason.per_iteration_budget_exceeded = "per_stage"
budget_name _ = "total"

module _ (P : Platform) (limits : ModelInnerLimits P) where
  unfoldable pub over_stage_budget : P.Float → Bool
  over_stage_budget cost = P.less (P.add limits.per_stage_budget_usd P.tiny) cost

  unfoldable pub over_total_budget : P.Float → Bool
  over_total_budget cost = P.less (P.add limits.total_budget_usd P.tiny) cost

  -- `score > active_score + min_improvement`
  unfoldable pub improves : P.Float → P.Float → Bool
  improves active_score score = P.less (P.add active_score limits.min_improvement) score

module _ (P : Platform) (limits : ModelInnerLimits P) (current : StateSnapshot P) where
  -- The arguments of `_promotion_decision` and `_rollback_decision`.
  pub record Verdict : Type 0 where
    pub checkpoint_id : String
    pub score : P.Float
    pub timestamp : String
    pub evidence_ids : List String
    pub total_cost_usd : P.Float
    pub reason_code : String
    pub reason : String
    pub event : ControlEvent
    pub decision_stop_reason : Option StopReason
    pub metadata : Fields P

  -- what both write
  unfoldable pub verdict_edge : ControlState → DecisionAction → Verdict → ModelEdge P
  verdict_edge to_state action v = record {
    to_state = to_state;
    event = v.event;
    action = action;
    subject_id = v.checkpoint_id;
    reason_code = v.reason_code;
    reason = v.reason;
    timestamp = v.timestamp;
    evidence_ids = v.evidence_ids;
    candidate_checkpoint_id = some v.checkpoint_id;
    candidate_score = some v.score;
    active_checkpoint_id = current.active_checkpoint_id;
    peak_checkpoint_id = current.peak_checkpoint_id;
    total_cost_usd = v.total_cost_usd;
    decision_stop_reason = v.decision_stop_reason;
    snapshot_stop_reason = none;
    metadata = v.metadata;
    next_cycle = none;
    next_iteration = none;
  }

  -- `_promotion_decision` and `_rollback_decision`
  unfoldable pub promotion_decision : Verdict → Outcome (PolicyStep P)
  promotion_decision v =
      edge_from_snapshot P current
        (verdict_edge ControlState.promote_model DecisionAction.promote v)

  unfoldable pub rollback_decision : Verdict → Outcome (PolicyStep P)
  rollback_decision v =
      edge_from_snapshot P current
        (verdict_edge ControlState.rollback_model DecisionAction.rollback v)

  -- `_budget_abort`
  module _ (subject_id stage : String) (stage_cost_usd next_total_cost : P.Float)
      (timestamp : String) (evidence_ids : List String) (stop_reason : StopReason) where
    unfoldable pub abort_edge : ModelEdge P
    abort_edge = record {
      to_state = ControlState.aborted;
      event = ControlEvent.budget_exceeded;
      action = DecisionAction.abort;
      subject_id = subject_id;
      reason_code =
          append "model_"
            (append stage (append "_" (append (budget_name stop_reason) "_budget_exceeded")));
      reason = append "Model " (
          append stage
            (append " crossed the " (append (budget_name stop_reason) " budget boundary.")));
      timestamp = timestamp;
      evidence_ids = evidence_ids;
      candidate_checkpoint_id =
          if not (opt_eq (some subject_id) current.active_checkpoint_id)
          then some subject_id
          else current.candidate_checkpoint_id;
      candidate_score = current.candidate_score;
      active_checkpoint_id = current.active_checkpoint_id;
      peak_checkpoint_id = current.peak_checkpoint_id;
      total_cost_usd = next_total_cost;
      decision_stop_reason = some stop_reason;
      snapshot_stop_reason = some stop_reason;
      metadata = update current.metadata (
          field "budget_stage" (text stage) (
            field "stage_cost_usd" (float stage_cost_usd) (
              field "run_total_usd" (float next_total_cost) (
                field "per_stage_limit_usd" (float limits.per_stage_budget_usd)
                  (field "total_limit_usd" (float limits.total_budget_usd) end)))));
      next_cycle = none;
      next_iteration = none;
    }

    unfoldable pub budget_abort : Outcome (PolicyStep P)
    unfolding abort_edge
    budget_abort = edge_from_snapshot P current abort_edge

  -- the budget tests of a stage: `_budget_abort`, or what follows with the new total
  unfoldable pub charge_stage :
      String
      → String
      → P.Float
      → String
      → List String
      → (P.Float → Outcome (PolicyStep P))
      → Outcome (PolicyStep P)
  unfolding budget_abort
  charge_stage subject_id stage cost timestamp evidence_ids rest =
      let total = P.add current.total_cost_usd cost in
      if over_stage_budget P limits cost
      then budget_abort subject_id stage cost total timestamp evidence_ids
          StopReason.per_iteration_budget_exceeded
      else if over_total_budget P limits total
      then budget_abort subject_id stage cost total timestamp evidence_ids
          StopReason.total_budget_exceeded
      else rest total
