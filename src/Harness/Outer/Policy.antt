-- ===== src/Harness/Outer/Policy.antt =====
-- The operations of `HarnessOuterPolicy` in harness/outer_loop/policy.py.
use post_training_rsi_pipeli.Prelude.{
  ℕ, Bool, not, ◌||◌, String, List, none, some, Outcome, ok, raise, raise_if, harness_contract,
  harness_invariant, ◌>>=◌, ◌>>◌, leb, opt_eq, is_empty, if◌then◌else◌,
}
use post_training_rsi_pipeli.Platform.{Platform}
use post_training_rsi_pipeli.ControlPlane.Value.{Fields, end, field, text, int}
use post_training_rsi_pipeli.Prelude.{pos}
use post_training_rsi_pipeli.ControlPlane.Validation.{
  validate_id, validate_id_tuple, validate_finite_number, validate_nonnegative_number,
}
use post_training_rsi_pipeli.ControlPlane.Enums.ControlState.{ControlState, is_state}
use post_training_rsi_pipeli.ControlPlane.Enums.ControlEvent.{ControlEvent}
use post_training_rsi_pipeli.ControlPlane.Enums.StopReason.{StopReason}
use post_training_rsi_pipeli.ControlPlane.Enums.DecisionAction.{DecisionAction}
use post_training_rsi_pipeli.ControlPlane.Enums.DecisionSubject.{DecisionSubject}
use post_training_rsi_pipeli.ControlPlane.Records.StateSnapshot.{StateSnapshot}
use post_training_rsi_pipeli.Harness.Steps.{PolicyStep, final_snapshot, combine}
use post_training_rsi_pipeli.Harness.Outer.Contracts.{
  HarnessSpec, HarnessValidationResult, HarnessBenchmarkResult, HarnessReviewObservation,
  content_sha256,
}
use post_training_rsi_pipeli.Harness.Outer.Edges.{
  HarnessOuterLimits, EdgeArguments, SnapshotEdge, edge, edge_from_snapshot, require_state,
  require_frozen_model, require_candidate, required_active_score,
}
use post_training_rsi_pipeli.Harness.Outer.Moves.{
  candidate_edge, valid_edge, invalid_edge, review_edge, accept_edge, reject_edge, abort_edge,
  approved_edge, denied_edge, plateau_edge, limit_edge, next_edge,
}

-- The arguments of `start`.
pub record StartArguments (P : Platform) : Type 0 where
  pub run_id : String
  pub cycle : ℕ
  pub active_model_checkpoint_id : String
  pub active_harness : HarnessSpec P
  pub active_score : P.Float
  pub started_at : String
  pub evidence_ids : List String
  pub total_cost_usd : P.Float

module _ (P : Platform) (canonical_json : Fields P → String) where
  -- the edges of `start`
  unfoldable pub freeze_edge : StartArguments P → EdgeArguments P
  unfolding content_sha256
  freeze_edge a = record {
    run_id = a.run_id;
    cycle = a.cycle;
    iteration = 0;
    from_state = none;
    to_state = ControlState.freeze_model;
    event = ControlEvent.start;
    action = DecisionAction.continue;
    subject_type = DecisionSubject.checkpoint;
    subject_id = a.active_model_checkpoint_id;
    reason_code = "freeze_active_model";
    reason = "Freeze the accepted model while the Harness outer loop searches.";
    timestamp = a.started_at;
    evidence_ids = a.evidence_ids;
    active_checkpoint_id = some a.active_model_checkpoint_id;
    peak_checkpoint_id = some a.active_model_checkpoint_id;
    active_harness_id = some a.active_harness.harness_id;
    candidate_harness_id = none;
    candidate_score = none;
    peak_score = a.active_score;
    plateau_count = 0;
    total_cost_usd = a.total_cost_usd;
    stop_reason = none;
    metadata =
        field "active_harness_sha256" (text (content_sha256 P canonical_json a.active_harness))
          (field "active_harness_version" (int (pos a.active_harness.version)) end);
  }

  unfoldable pub begin_edge : StartArguments P → SnapshotEdge P
  begin_edge a = record {
    to_state = ControlState.mutate_harness;
    event = ControlEvent.next_iteration_requested;
    action = DecisionAction.continue;
    subject_type = DecisionSubject.harness;
    subject_id = a.active_harness.harness_id;
    reason_code = "begin_harness_search";
    reason = "Begin the first Harness mutation attempt under the frozen model.";
    timestamp = a.started_at;
    evidence_ids = a.evidence_ids;
    active_harness_id = some a.active_harness.harness_id;
    candidate_harness_id = none;
    candidate_score = none;
    peak_score = a.active_score;
    plateau_count = 0;
    total_cost_usd = none;
    stop_reason = none;
    next_iteration = some 1;
    metadata = field "frozen_model_checkpoint_id" (text a.active_model_checkpoint_id) end;
  }

  unfoldable pub start : StartArguments P → Outcome (PolicyStep P)
  start a = do
    run_id ← validate_id a.run_id
    model ← validate_id a.active_model_checkpoint_id
    active_score ← validate_finite_number P a.active_score
    total_cost ← validate_nonnegative_number P a.total_cost_usd
    evidence_ids ← validate_id_tuple a.evidence_ids
    raise_if (is_empty evidence_ids) harness_contract
    frozen ← edge P (freeze_edge a)
    snapshot ← final_snapshot P frozen
    mutate ← edge_from_snapshot P snapshot (begin_edge a)
    combine P harness_contract frozen mutate

  unfoldable pub candidate_created :
      StateSnapshot P → HarnessSpec P → String → List String → Outcome (PolicyStep P)
  candidate_created current candidate created_at evidence_ids = do
    require_state P current ControlState.mutate_harness
    require_frozen_model P current
    raise_if (opt_eq current.active_harness_id none) harness_invariant
    raise_if (not (opt_eq candidate.parent_harness_id current.active_harness_id)) harness_invariant
    raise_if (opt_eq (some candidate.harness_id) current.active_harness_id) harness_invariant
    ids ← validate_id_tuple evidence_ids
    raise_if (is_empty ids) harness_contract
    active_score ← required_active_score P current
    edge_from_snapshot P current
        (candidate_edge P canonical_json current candidate created_at ids active_score)

module _ (P : Platform) (limits : HarnessOuterLimits P) where
  -- `current.state not in {ACCEPT_HARNESS, REJECT_HARNESS}`
  abbrev not_settled : ControlState → Outcome (Unit {0})
  not_settled state =
      raise_if
        (not (
          is_state ControlState.accept_harness state || is_state ControlState.reject_harness state))
        harness_invariant

  -- the edge that `_advance` takes
  unfoldable pub advance_edge : StateSnapshot P → String → P.Float → SnapshotEdge P
  advance_edge current timestamp active_score =
      if leb limits.plateau_patience current.plateau_count
      then plateau_edge P current timestamp active_score
      else if leb limits.max_iterations current.iteration
      then limit_edge P current timestamp active_score
      else next_edge P current timestamp active_score

  -- `_advance`
  unfoldable pub advance : PolicyStep P → String → Outcome (PolicyStep P)
  unfolding advance_edge
  advance intermediate timestamp = do
    current ← final_snapshot P intermediate
    not_settled current.state
    active_score ← required_active_score P current
    last ← edge_from_snapshot P current (advance_edge current timestamp active_score)
    combine P harness_contract intermediate last

  -- an edge into ACCEPT_HARNESS or REJECT_HARNESS, and `_advance`
  unfoldable pub settle : StateSnapshot P → SnapshotEdge P → String → Outcome (PolicyStep P)
  settle current edge timestamp = do
    intermediate ← edge_from_snapshot P current edge
    advance intermediate timestamp

  -- the edges after a validation
  unfoldable pub settle_validation :
      StateSnapshot P → HarnessValidationResult P → P.Float → Outcome (PolicyStep P)
  settle_validation current result active_score =
      if result.valid
      then edge_from_snapshot P current (valid_edge P current result active_score)
      else settle current (invalid_edge P current result active_score) result.validated_at

  unfoldable pub validation_completed :
      StateSnapshot P → HarnessValidationResult P → Outcome (PolicyStep P)
  unfolding settle_validation
  validation_completed current result = do
    require_state P current ControlState.validate_harness
    require_frozen_model P current
    require_candidate P current result.candidate_harness_id
    active_score ← required_active_score P current
    settle_validation current result active_score

  -- `score > active_score + min_improvement`
  unfoldable pub improves : P.Float → P.Float → Bool
  improves active_score score = P.less (P.add active_score limits.min_improvement) score

  unfoldable pub over_iteration_budget : P.Float → Bool
  over_iteration_budget cost = P.less (P.add limits.per_iteration_budget_usd P.tiny) cost

  unfoldable pub over_total_budget : P.Float → Bool
  over_total_budget cost = P.less (P.add limits.total_budget_usd P.tiny) cost

  module _ (current : StateSnapshot P) (result : HarnessBenchmarkResult P)
      (active_score next_total_cost : P.Float) where
    -- the edges after an evaluation that the budgets allow
    unfoldable pub settle_evaluation : Outcome (PolicyStep P)
    settle_evaluation =
        if improves active_score result.score
        then if limits.approval_required
          then edge_from_snapshot P current
              (review_edge P limits current result active_score next_total_cost)
          else settle current (accept_edge P limits current result active_score next_total_cost)
              result.evaluated_at
        else settle current (reject_edge P limits current result active_score next_total_cost)
            result.evaluated_at

    -- `_budget_abort`
    unfoldable pub budget_abort : StopReason → Outcome (PolicyStep P)
    budget_abort stop_reason =
        edge_from_snapshot P current
          (abort_edge P limits current result active_score next_total_cost stop_reason)

  unfoldable pub evaluation_completed :
      StateSnapshot P → HarnessBenchmarkResult P → Outcome (PolicyStep P)
  evaluation_completed current result = do
    require_state P current ControlState.evaluate_harness
    require_frozen_model P current
    require_candidate P current result.harness_id
    active_score ← required_active_score P current
    let next_total_cost = P.add current.total_cost_usd result.cost_usd in
        if over_iteration_budget result.cost_usd
        then budget_abort current result active_score next_total_cost
            StopReason.per_iteration_budget_exceeded
        else if over_total_budget next_total_cost
        then budget_abort current result active_score next_total_cost
            StopReason.total_budget_exceeded
        else settle_evaluation current result active_score next_total_cost

  -- the edges after a review
  unfoldable pub settle_review :
      StateSnapshot P → HarnessReviewObservation → P.Float → P.Float → Outcome (PolicyStep P)
  settle_review current review candidate_score active_score =
      if review.approved
      then settle current (approved_edge P current review candidate_score active_score)
          review.decided_at
      else settle current (denied_edge P current review candidate_score active_score)
          review.decided_at

  -- the score that a review requires
  unfoldable pub evaluated_score : StateSnapshot P → Outcome P.Float
  evaluated_score current = elim current.candidate_score [
    | none ↦ raise harness_invariant
    | some score ↦ ok score
  ]

  unfoldable pub review_completed :
      StateSnapshot P → HarnessReviewObservation → Outcome (PolicyStep P)
  unfolding settle_review
  review_completed current review = do
    require_state P current ControlState.harness_review_pending
    require_frozen_model P current
    require_candidate P current review.candidate_harness_id
    candidate_score ← evaluated_score current
    active_score ← required_active_score P current
    settle_review current review candidate_score active_score
