-- ===== src/Harness/Traces/Edges.antt =====
-- `TraceHarvestLimits`, the checks and `_edge_from_snapshot` of `TraceHarvestPolicy` in
-- harness/trace_harvesting/policy.py.
use post_training_rsi_pipeli.Prelude.{
  ℕ, pos, negsuc, Bool, true, false, not, ◌||◌, String, List, Option, none, some, Outcome, ok,
  raise, raise_if, trace_contract, trace_invariant, ◌>>=◌, ◌>>◌, ◌==◌, str_eq, opt_eq, is_empty,
  if◌then◌else◌,
}
use post_training_rsi_pipeli.Platform.{Platform}
use post_training_rsi_pipeli.ControlPlane.Value.{
  Value, Fields, null, bool, int, float, text, array, object, other, nil, cons, end, field, get,
}
use post_training_rsi_pipeli.ControlPlane.Encoding.{of_optional_text}
use post_training_rsi_pipeli.ControlPlane.Dict.{set_field, update}
use post_training_rsi_pipeli.ControlPlane.Validation.{
  validate_id, validate_id_tuple, validate_finite_number, validate_nonnegative_number,
  validate_nonnegative_int,
}
use post_training_rsi_pipeli.ControlPlane.Enums.ControlState.{ControlState, is_state}
use post_training_rsi_pipeli.ControlPlane.Enums.ControlEvent.{ControlEvent}
use post_training_rsi_pipeli.ControlPlane.Enums.StopReason.{StopReason}
use post_training_rsi_pipeli.ControlPlane.Enums.DecisionAction.{DecisionAction}
use post_training_rsi_pipeli.ControlPlane.Enums.DecisionSubject.{DecisionSubject}
use post_training_rsi_pipeli.ControlPlane.Records.StateSnapshot.{StateSnapshot}
use post_training_rsi_pipeli.Harness.Steps.{PolicyStep, Edge, or_default, emit}
use post_training_rsi_pipeli.Harness.Outer.Contracts.{outside_unit}
use post_training_rsi_pipeli.Harness.Traces.Contracts.{HarvestedTraceBatch, TraceDatasetResult}

pub record TraceHarvestLimits (P : Platform) : Type 0 where
  pub target_traces : ℕ
  pub max_batches : ℕ
  pub min_acceptance_rate : P.Float
  pub per_batch_budget_usd : P.Float
  pub total_budget_usd : P.Float

-- The arguments of `_edge_from_snapshot`, less the snapshot. Each call writes out the defaults.
pub record TraceEdge (P : Platform) : Type 0 where
  pub to_state : ControlState
  pub event : ControlEvent
  pub action : DecisionAction
  pub subject_type : DecisionSubject
  pub subject_id : String
  pub reason_code : String
  pub reason : String
  pub timestamp : String
  pub evidence_ids : List String
  pub decision_stop_reason : Option StopReason
  pub snapshot_stop_reason : Option StopReason
  pub metadata : Fields P
  pub next_iteration : Option ℕ
  pub total_cost_usd : Option P.Float

module _ (P : Platform) where
  -- `TraceHarvestLimits.__post_init__`
  unfoldable pub check_harvest_limits : TraceHarvestLimits P → Outcome (TraceHarvestLimits P)
  check_harvest_limits l = do
    raise_if (l.target_traces == 0) trace_contract
    raise_if (l.max_batches == 0) trace_contract
    rate ← validate_finite_number P l.min_acceptance_rate
    raise_if (outside_unit P l.min_acceptance_rate) trace_contract
    per_batch ← validate_nonnegative_number P l.per_batch_budget_usd
    total ← validate_nonnegative_number P l.total_budget_usd
    raise_if
        (not (P.less P.zero_float l.per_batch_budget_usd)
          || not (P.less P.zero_float l.total_budget_usd))
        trace_contract
    raise_if (P.less l.total_budget_usd l.per_batch_budget_usd) trace_contract
    ok l

  -- `bool(value)` of a JSON value
  abbrev truthy : Value P → Bool
  truthy null = false
  truthy (bool b) = b
  truthy (int (pos n)) = not (n == 0)
  truthy (int (negsuc n)) = true
  truthy (float x) = not (P.is_finite x) || P.less x P.zero_float || P.less P.zero_float x
  truthy (text s) = not (str_eq s "")
  truthy (array nil) = false
  truthy (array (cons x xs)) = true
  truthy (object end) = false
  truthy (object (field k v fs)) = true
  truthy other = true

  -- `metadata.get(key) or default`
  abbrev get_or : String → Fields P → Value P → Value P
  get_or key metadata default = elim (get key metadata) [
    | none ↦ default
    | some v ↦ if truthy v then v else default
  ]

  -- a text, or the default for any other value
  abbrev text_or : Value P → String → String
  text_or (text s) default = s
  text_or _ default = default

  -- `record_subject`
  unfoldable pub record_subject : Fields P → String → String
  record_subject metadata subject_id =
      text_or
        (get_or "trace_batch_id" metadata (get_or "trace_dataset_id" metadata (text subject_id)))
        subject_id

  -- `if key not in metadata and key in before: metadata[key] = before[key]`, by what is found in each
  abbrev pub keep_found : String → Option (Value P) → Option (Value P) → Fields P → Fields P
  keep_found key none (some v) metadata = set_field key v metadata
  keep_found key _ _ metadata = metadata

  unfoldable pub keep_key : String → Fields P → Fields P → Fields P
  keep_key key before metadata = keep_found key (get key metadata) (get key before) metadata

  -- what `_edge_from_snapshot` writes, once its checks have passed
  unfoldable pub edge_of : StateSnapshot P → TraceEdge P → Edge P
  unfolding record_subject keep_key
  edge_of current a = record {
    run_id = current.run_id;
    cycle = current.cycle;
    iteration = or_default a.next_iteration current.iteration;
    from_state = some current.state;
    to_state = a.to_state;
    event = a.event;
    action = a.action;
    subject_type = a.subject_type;
    subject_id = a.subject_id;
    reason_code = a.reason_code;
    reason = a.reason;
    timestamp = a.timestamp;
    evidence_ids = a.evidence_ids;
    active_checkpoint_id = current.active_checkpoint_id;
    candidate_checkpoint_id = none;
    peak_checkpoint_id = current.peak_checkpoint_id;
    active_harness_id = current.active_harness_id;
    candidate_harness_id = none;
    candidate_score = none;
    peak_score = current.peak_score;
    plateau_count = current.plateau_count;
    total_cost_usd = or_default a.total_cost_usd current.total_cost_usd;
    decision_stop_reason = a.decision_stop_reason;
    snapshot_stop_reason = a.snapshot_stop_reason;
    decision_metadata = update a.metadata (
        field "frozen_model_checkpoint_id" (of_optional_text current.active_checkpoint_id)
          (field "active_harness_id" (of_optional_text current.active_harness_id) end));
    snapshot_metadata =
        keep_key "active_harness_score" current.metadata
          (keep_key "active_model_score" current.metadata a.metadata);
    family = "trace";
    record_seed = record_subject a.metadata a.subject_id;
  }

  -- `_edge_from_snapshot`
  unfoldable pub edge_from_snapshot : StateSnapshot P → TraceEdge P → Outcome (PolicyStep P)
  edge_from_snapshot current a = do
    evidence_ids ← validate_id_tuple a.evidence_ids
    raise_if (is_empty evidence_ids) trace_contract
    subject_id ← validate_id a.subject_id
    emit P (edge_of current (record a { evidence_ids = evidence_ids; subject_id = subject_id }))
        trace_contract

  -- `_require_state`
  unfoldable pub require_state : StateSnapshot P → ControlState → Outcome (Unit {0})
  require_state current expected = raise_if (not (is_state expected current.state)) trace_invariant

  -- `_validate_frozen_lineage`
  unfoldable pub validate_frozen_lineage : StateSnapshot P → Outcome (Unit {0})
  validate_frozen_lineage current = do
    raise_if (opt_eq current.active_checkpoint_id none) trace_invariant
    raise_if (not (opt_eq current.active_checkpoint_id current.peak_checkpoint_id)) trace_invariant
    raise_if (opt_eq current.active_harness_id none) trace_invariant

  -- the comparisons of `_validate_batch_lineage` and `_validate_dataset_lineage`
  abbrev same_lineage : StateSnapshot P → String → ℕ → String → String → Outcome (Unit {0})
  same_lineage current run_id cycle model harness = do
    raise_if (not (str_eq run_id current.run_id) || not (cycle == current.cycle)) trace_invariant
    raise_if (not (opt_eq (some model) current.active_checkpoint_id)) trace_invariant
    raise_if (not (opt_eq (some harness) current.active_harness_id)) trace_invariant

  unfoldable pub validate_batch_lineage :
      StateSnapshot P → HarvestedTraceBatch P → Outcome (Unit {0})
  validate_batch_lineage current b =
      same_lineage current b.run_id b.cycle b.model_checkpoint_id b.harness_id

  unfoldable pub validate_dataset_lineage :
      StateSnapshot P → TraceDatasetResult P → Outcome (Unit {0})
  validate_dataset_lineage current r =
      same_lineage current r.run_id r.cycle r.model_checkpoint_id r.harness_id

  -- the integer that `_metadata_int` reads from a value
  abbrev pub int_of : Value P → Outcome ℕ
  int_of (int n) = validate_nonnegative_int n
  int_of _ = raise trace_invariant

  -- `_metadata_int`; every caller gives the default 0
  unfoldable pub metadata_int : StateSnapshot P → String → Outcome ℕ
  unfolding validate_nonnegative_int
  metadata_int snapshot key = elim (get key snapshot.metadata) [ none ↦ ok 0 | some v ↦ int_of v ]
