-- ===== src/Harness/Inner/Edges.antt =====
-- `ModelInnerLimits`, the checks and `_edge_from_snapshot` of `ModelInnerPolicy` in
-- harness/model_inner_loop/policy.py.
use post_training_rsi_pipeli.Prelude.{
  ℕ, pos, Bool, not, ◌||◌, String, List, Option, none, some, Outcome, ok, raise, raise_if,
  overflow_error, model_contract, model_invariant, ◌>>=◌, ◌>>◌, ◌==◌, str_eq, opt_eq, is_empty,
}
use post_training_rsi_pipeli.Platform.{Platform}
use post_training_rsi_pipeli.ControlPlane.Value.{Value, Fields, int, float, end, field, get}
use post_training_rsi_pipeli.ControlPlane.Encoding.{of_optional_text}
use post_training_rsi_pipeli.ControlPlane.Dict.{update}
use post_training_rsi_pipeli.ControlPlane.Validation.{
  validate_id, validate_id_tuple, validate_finite_number, validate_nonnegative_number,
}
use post_training_rsi_pipeli.ControlPlane.Enums.ControlState.{ControlState, is_state}
use post_training_rsi_pipeli.ControlPlane.Enums.ControlEvent.{ControlEvent}
use post_training_rsi_pipeli.ControlPlane.Enums.StopReason.{StopReason}
use post_training_rsi_pipeli.ControlPlane.Enums.DecisionAction.{DecisionAction}
use post_training_rsi_pipeli.ControlPlane.Enums.DecisionSubject
use post_training_rsi_pipeli.ControlPlane.Records.StateSnapshot.{StateSnapshot}
use post_training_rsi_pipeli.RsiPolicy.Step.{is_id_value}
use post_training_rsi_pipeli.Harness.Steps.{PolicyStep, Edge, or_default, or_text, emit}
use post_training_rsi_pipeli.Harness.Outer.Contracts.{outside_unit}
use post_training_rsi_pipeli.Harness.Inner.Contracts.{
  ModelCandidateArtifact, ModelBenchmarkObservation,
}

pub record ModelInnerLimits (P : Platform) : Type 0 where
  pub min_improvement : P.Float
  pub regression_tolerance : P.Float
  pub per_stage_budget_usd : P.Float
  pub total_budget_usd : P.Float
  pub approval_required : Bool

-- The arguments of `_edge_from_snapshot`, less the snapshot and the subject type, which every call
-- gives as CHECKPOINT. Each call writes out the defaults.
pub record ModelEdge (P : Platform) : Type 0 where
  pub to_state : ControlState
  pub event : ControlEvent
  pub action : DecisionAction
  pub subject_id : String
  pub reason_code : String
  pub reason : String
  pub timestamp : String
  pub evidence_ids : List String
  pub candidate_checkpoint_id : Option String
  pub candidate_score : Option P.Float
  pub active_checkpoint_id : Option String
  pub peak_checkpoint_id : Option String
  pub total_cost_usd : P.Float
  pub decision_stop_reason : Option StopReason
  pub snapshot_stop_reason : Option StopReason
  pub metadata : Fields P
  pub next_cycle : Option ℕ
  pub next_iteration : Option ℕ

module _ (P : Platform) where
  -- `ModelInnerLimits.__post_init__`
  unfoldable pub check_inner_limits : ModelInnerLimits P → Outcome (ModelInnerLimits P)
  check_inner_limits l = do
    improvement ← validate_nonnegative_number P l.min_improvement
    tolerance ← validate_nonnegative_number P l.regression_tolerance
    per_stage ← validate_nonnegative_number P l.per_stage_budget_usd
    total ← validate_nonnegative_number P l.total_budget_usd
    raise_if
        (not (P.less P.zero_float l.per_stage_budget_usd)
          || not (P.less P.zero_float l.total_budget_usd))
        model_contract
    raise_if (P.less l.total_budget_usd l.per_stage_budget_usd) model_contract
    ok l

  -- what `_edge_from_snapshot` writes, once its checks have passed
  unfoldable pub edge_of : StateSnapshot P → ModelEdge P → Edge P
  edge_of current a =
      let cycle = or_default a.next_cycle current.cycle in
      record {
        run_id = current.run_id;
        cycle = cycle;
        iteration = or_default a.next_iteration current.iteration;
        from_state = some current.state;
        to_state = a.to_state;
        event = a.event;
        action = a.action;
        subject_type = DecisionSubject.checkpoint;
        subject_id = a.subject_id;
        reason_code = a.reason_code;
        reason = a.reason;
        timestamp = a.timestamp;
        evidence_ids = a.evidence_ids;
        active_checkpoint_id = a.active_checkpoint_id;
        candidate_checkpoint_id = a.candidate_checkpoint_id;
        peak_checkpoint_id = a.peak_checkpoint_id;
        active_harness_id = current.active_harness_id;
        candidate_harness_id = none;
        candidate_score = a.candidate_score;
        peak_score = current.peak_score;
        plateau_count = current.plateau_count;
        total_cost_usd = a.total_cost_usd;
        decision_stop_reason = a.decision_stop_reason;
        snapshot_stop_reason = a.snapshot_stop_reason;
        decision_metadata = update a.metadata (
            field "cycle" (int (pos cycle)) (
              field "active_checkpoint_id" (of_optional_text a.active_checkpoint_id) (
                field "candidate_checkpoint_id" (of_optional_text a.candidate_checkpoint_id) end)));
        snapshot_metadata = a.metadata;
        family = "model";
        record_seed =
            or_text a.candidate_checkpoint_id (or_text a.active_checkpoint_id a.subject_id);
      }

  -- `_edge_from_snapshot`
  unfoldable pub edge_from_snapshot : StateSnapshot P → ModelEdge P → Outcome (PolicyStep P)
  edge_from_snapshot current a = do
    total_cost ← validate_nonnegative_number P a.total_cost_usd
    subject_id ← validate_id a.subject_id
    evidence_ids ← validate_id_tuple a.evidence_ids
    raise_if (is_empty evidence_ids) model_contract
    emit P (edge_of current (record a { subject_id = subject_id; evidence_ids = evidence_ids }))
        model_contract

  -- `_require_state`
  unfoldable pub require_state : StateSnapshot P → ControlState → Outcome (Unit {0})
  require_state current expected = raise_if (not (is_state expected current.state)) model_invariant

  -- `_validate_active_lineage`
  unfoldable pub validate_active_lineage : StateSnapshot P → Outcome (Unit {0})
  validate_active_lineage current = do
    raise_if (opt_eq current.active_checkpoint_id none) model_invariant
    raise_if (not (opt_eq current.active_checkpoint_id current.peak_checkpoint_id)) model_invariant
    raise_if (opt_eq current.active_harness_id none) model_invariant

  -- `float(value)`, for a number that is no `bool`
  abbrev pub number_of : Option (Value P) → Outcome P.Float
  number_of (some (float x)) = ok x
  number_of (some (int n)) = elim (P.of_int n) [ none ↦ raise overflow_error | some x ↦ ok x ]
  number_of _ = raise model_invariant

  -- `_active_model_score`
  unfoldable pub active_model_score : StateSnapshot P → Outcome P.Float
  active_model_score current = do
    score ← number_of (get "active_model_score" current.metadata)
    finite ← validate_finite_number P score
    raise_if (outside_unit P score) model_invariant
    ok score

  -- `_validate_candidate_lineage`
  unfoldable pub validate_candidate_lineage :
      StateSnapshot P → ModelCandidateArtifact P → Outcome (Unit {0})
  validate_candidate_lineage current c = do
    raise_if (not (str_eq c.run_id current.run_id) || not (c.cycle == current.cycle))
        model_invariant
    raise_if (not (opt_eq (some c.parent_checkpoint_id) current.active_checkpoint_id))
        model_invariant
    raise_if (not (is_id_value (get "trace_dataset_id" current.metadata) c.dataset_id))
        model_invariant
    raise_if (not (is_id_value (get "trace_dataset_sha256" current.metadata) c.dataset_sha256))
        model_invariant

  -- `_validate_evaluation_lineage`
  unfoldable pub validate_evaluation_lineage :
      StateSnapshot P → ModelBenchmarkObservation P → Outcome (Unit {0})
  validate_evaluation_lineage current o = do
    raise_if (not (str_eq o.run_id current.run_id) || not (o.cycle == current.cycle))
        model_invariant
    raise_if (not (opt_eq (some o.checkpoint_id) current.candidate_checkpoint_id)) model_invariant
    raise_if (not (opt_eq (some o.parent_checkpoint_id) current.active_checkpoint_id))
        model_invariant
