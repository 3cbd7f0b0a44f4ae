-- ===== src/Harness/Outer/Edges.antt =====
-- `HarnessOuterLimits`, the checks and the edges of `HarnessOuterPolicy` in
-- harness/outer_loop/policy.py.
use post_training_rsi_pipeli.Prelude.{
  ℕ, Bool, not, ◌||◌, String, List, Option, none, some, Outcome, ok, raise, raise_if,
  harness_contract, harness_invariant, ◌>>=◌, ◌>>◌, ◌==◌, opt_eq, is_empty,
}
use post_training_rsi_pipeli.Platform.{Platform}
use post_training_rsi_pipeli.ControlPlane.Value.{Fields, end, field}
use post_training_rsi_pipeli.ControlPlane.Encoding.{of_optional_text}
use post_training_rsi_pipeli.ControlPlane.Dict.{update}
use post_training_rsi_pipeli.ControlPlane.Validation.{
  validate_id, validate_id_tuple, validate_finite_number, validate_nonnegative_number,
}
use post_training_rsi_pipeli.ControlPlane.Enums.ControlState.{ControlState, is_state}
use post_training_rsi_pipeli.ControlPlane.Enums.ControlEvent.{ControlEvent}
use post_training_rsi_pipeli.ControlPlane.Enums.StopReason.{StopReason}
use post_training_rsi_pipeli.ControlPlane.Enums.DecisionAction.{DecisionAction}
use post_training_rsi_pipeli.ControlPlane.Enums.DecisionSubject.{DecisionSubject}
use post_training_rsi_pipeli.ControlPlane.Records.StateSnapshot.{StateSnapshot}
use post_training_rsi_pipeli.Harness.Steps.{PolicyStep, Edge, or_default, or_text, emit}

pub record HarnessOuterLimits (P : Platform) : Type 0 where
  pub max_iterations : ℕ
  pub plateau_patience : ℕ
  pub min_improvement : P.Float
  pub per_iteration_budget_usd : P.Float
  pub total_budget_usd : P.Float
  pub approval_required : Bool

-- The arguments of `_edge`.
pub record EdgeArguments (P : Platform) : Type 0 where
  pub run_id : String
  pub cycle : ℕ
  pub iteration : ℕ
  pub from_state : Option ControlState
  pub to_state : ControlState
  pub event : ControlEvent
  pub action : DecisionAction
  pub subject_type : DecisionSubject
  pub subject_id : String
  pub reason_code : String
  pub reason : String
  pub timestamp : String
  pub evidence_ids : List String
  pub active_checkpoint_id : Option String
  pub peak_checkpoint_id : Option String
  pub active_harness_id : Option String
  pub candidate_harness_id : Option String
  pub candidate_score : Option P.Float
  pub peak_score : P.Float
  pub plateau_count : ℕ
  pub total_cost_usd : P.Float
  pub stop_reason : Option StopReason
  pub metadata : Fields P

-- The arguments of `_edge_from_snapshot`, less the snapshot. Each call writes out the defaults.
pub record SnapshotEdge (P : Platform) : Type 0 where
  pub to_state : ControlState
  pub event : ControlEvent
  pub action : DecisionAction
  pub subject_type : DecisionSubject
  pub subject_id : String
  pub reason_code : String
  pub reason : String
  pub timestamp : String
  pub evidence_ids : List String
  pub active_harness_id : Option String
  pub candidate_harness_id : Option String
  pub candidate_score : Option P.Float
  pub peak_score : P.Float
  pub plateau_count : ℕ
  pub total_cost_usd : Option P.Float
  pub stop_reason : Option StopReason
  pub next_iteration : Option ℕ
  pub metadata : Fields P

module _ (P : Platform) where
  -- `HarnessOuterLimits.__post_init__`
  unfoldable pub check_limits : HarnessOuterLimits P → Outcome (HarnessOuterLimits P)
  check_limits l = do
    raise_if (l.max_iterations == 0) harness_contract
    raise_if (l.plateau_patience == 0) harness_contract
    improvement ← validate_nonnegative_number P l.min_improvement
    per_iteration ← validate_nonnegative_number P l.per_iteration_budget_usd
    total ← validate_nonnegative_number P l.total_budget_usd
    raise_if
        (not (P.less P.zero_float l.per_iteration_budget_usd)
          || not (P.less P.zero_float l.total_budget_usd))
        harness_contract
    raise_if (P.less l.total_budget_usd l.per_iteration_budget_usd) harness_contract
    ok l

  -- what `_edge` writes, once its checks have passed
  unfoldable pub edge_of : EdgeArguments P → Edge P
  edge_of a = record {
    run_id = a.run_id;
    cycle = a.cycle;
    iteration = a.iteration;
    from_state = a.from_state;
    to_state = a.to_state;
    event = a.event;
    action = a.action;
    subject_type = a.subject_type;
    subject_id = a.subject_id;
    reason_code = a.reason_code;
    reason = a.reason;
    timestamp = a.timestamp;
    evidence_ids = a.evidence_ids;
    active_checkpoint_id = a.active_checkpoint_id;
    candidate_checkpoint_id = none;
    peak_checkpoint_id = a.peak_checkpoint_id;
    active_harness_id = a.active_harness_id;
    candidate_harness_id = a.candidate_harness_id;
    candidate_score = a.candidate_score;
    peak_score = some a.peak_score;
    plateau_count = a.plateau_count;
    total_cost_usd = a.total_cost_usd;
    decision_stop_reason = a.stop_reason;
    snapshot_stop_reason = a.stop_reason;
    decision_metadata = update a.metadata (
        field "frozen_model_checkpoint_id" (of_optional_text a.active_checkpoint_id) (
          field "active_harness_id" (of_optional_text a.active_harness_id)
            (field "candidate_harness_id" (of_optional_text a.candidate_harness_id) end)));
    snapshot_metadata = a.metadata;
    family = "harness";
    record_seed = or_text a.candidate_harness_id (or_text a.active_harness_id a.subject_id);
  }

  -- `_edge`
  unfoldable pub edge : EdgeArguments P → Outcome (PolicyStep P)
  edge a = do
    subject_id ← validate_id a.subject_id
    evidence_ids ← validate_id_tuple a.evidence_ids
    raise_if (is_empty evidence_ids) harness_contract
    peak_score ← validate_finite_number P a.peak_score
    total_cost ← validate_nonnegative_number P a.total_cost_usd
    emit P (edge_of (record a { subject_id = subject_id; evidence_ids = evidence_ids }))
        harness_contract

  unfoldable pub from_snapshot : StateSnapshot P → SnapshotEdge P → EdgeArguments P
  from_snapshot current a = record {
    run_id = current.run_id;
    cycle = current.cycle;
    iteration = or_default a.next_iteration current.iteration;
    from_state = some current.state;
    to_state = a.to_state;
    event = a.event;
    action = a.action;
    subject_type = a.subject_type;
    subject_id = a.subject_id;
    reason_code = a.reason_code;
    reason = a.reason;
    timestamp = a.timestamp;
    evidence_ids = a.evidence_ids;
    active_checkpoint_id = current.active_checkpoint_id;
    peak_checkpoint_id = current.peak_checkpoint_id;
    active_harness_id = a.active_harness_id;
    candidate_harness_id = a.candidate_harness_id;
    candidate_score = a.candidate_score;
    peak_score = a.peak_score;
    plateau_count = a.plateau_count;
    total_cost_usd = or_default a.total_cost_usd current.total_cost_usd;
    stop_reason = a.stop_reason;
    metadata = a.metadata;
  }

  -- `_edge_from_snapshot`
  unfoldable pub edge_from_snapshot : StateSnapshot P → SnapshotEdge P → Outcome (PolicyStep P)
  unfolding from_snapshot
  edge_from_snapshot current a = edge (from_snapshot current a)

  -- `_require_state`
  unfoldable pub require_state : StateSnapshot P → ControlState → Outcome (Unit {0})
  require_state current expected =
      raise_if (not (is_state expected current.state)) harness_invariant

  -- `_require_frozen_model`
  unfoldable pub require_frozen_model : StateSnapshot P → Outcome (Unit {0})
  require_frozen_model current = elim current.active_checkpoint_id [
    | none ↦ raise harness_invariant
    | some active ↦
        raise_if (not (opt_eq (some active) current.peak_checkpoint_id)) harness_invariant
  ]

  -- `_require_candidate`
  unfoldable pub require_candidate : StateSnapshot P → String → Outcome (Unit {0})
  require_candidate current candidate =
      raise_if (not (opt_eq current.candidate_harness_id (some candidate))) harness_invariant

  -- `_required_active_score`
  unfoldable pub required_active_score : StateSnapshot P → Outcome P.Float
  required_active_score current = elim current.peak_score [
    | none ↦ raise harness_invariant
    | some peak_score ↦ validate_finite_number P peak_score
  ]
