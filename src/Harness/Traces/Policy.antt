-- ===== src/Harness/Traces/Policy.antt =====
-- The operations of `TraceHarvestPolicy` in harness/trace_harvesting/policy.py.
use Prim.Native.String.{◌++◌ as append}
use post_training_rsi_pipeli.Prelude.{
  ◌+◌, ℕ, pos, Bool, not, String, List, [], ◌∷◌, none, some, Outcome, raise_if, trace_contract,
  trace_invariant, ◌>>=◌, ◌>>◌, leb, ◌==◌, length, if◌then◌else◌,
}
use post_training_rsi_pipeli.Platform.{Platform}
use post_training_rsi_pipeli.ControlPlane.Value.{Fields, end, field, get, text, int, float, object}
use post_training_rsi_pipeli.ControlPlane.Enums.ControlState.{ControlState}
use post_training_rsi_pipeli.ControlPlane.Enums.ControlEvent.{ControlEvent}
use post_training_rsi_pipeli.ControlPlane.Enums.StopReason.{StopReason}
use post_training_rsi_pipeli.ControlPlane.Enums.DecisionAction.{DecisionAction}
use post_training_rsi_pipeli.ControlPlane.Enums.DecisionSubject.{DecisionSubject}
use post_training_rsi_pipeli.ControlPlane.Records.StateSnapshot.{StateSnapshot}
use post_training_rsi_pipeli.RsiPolicy.Step.{is_id_value}
use post_training_rsi_pipeli.Harness.Steps.{PolicyStep, final_snapshot, combine}
use post_training_rsi_pipeli.Harness.Traces.Contracts.{HarvestedTraceBatch, TraceDatasetResult}
use post_training_rsi_pipeli.Harness.Traces.Edges.{
  TraceHarvestLimits, TraceEdge, edge_from_snapshot, require_state, validate_frozen_lineage,
  validate_batch_lineage, validate_dataset_lineage, metadata_int,
}

-- `"per_batch" if stop_reason is PER_ITERATION_BUDGET_EXCEEDED else "total"`
abbrev budget_name : StopReason → String
budget_name StopReason.per_iteration_budget_exceeded = "per_batch"
budget_name _ = "total"

-- a `dict[str, int]` as metadata
abbrev of_counts : {P : Platform} → List (String × ℕ) → Fields P
of_counts [] = end
of_counts ((reason, count) ∷ rest) = field reason (int (pos count)) (of_counts rest)

module _ (P : Platform) (limits : TraceHarvestLimits P) (current : StateSnapshot P) where
  module _ (batch : HarvestedTraceBatch P) (next_total_cost : P.Float) where
    -- the edge into VERIFY_TRACES
    unfoldable pub harvest_edge : ℕ → ℕ → TraceEdge P
    harvest_edge verified_before batch_count_before = record {
      to_state = ControlState.verify_traces;
      event = ControlEvent.trace_batch_harvested;
      action = DecisionAction.continue;
      subject_type = DecisionSubject.trace_batch;
      subject_id = batch.batch_id;
      reason_code = "observable_trace_batch_harvested";
      reason =
          "Successful observable trajectories were selected for the common verification pipeline.";
      timestamp = batch.created_at;
      evidence_ids = batch.evidence_ids;
      decision_stop_reason = none;
      snapshot_stop_reason = none;
      metadata = field "trace_batch_id" (text batch.batch_id) (
          field "selected_trace_count" (int (pos (length batch.selected))) (
            field "harvest_rejected_count" (int (pos (length batch.rejected))) (
              field "verified_trace_count" (int (pos verified_before)) (
                field "harvest_batch_count" (int (pos (batch_count_before + 1))) (
                  field "selection_seed" (text batch.selection_seed) (
                    field "model_checkpoint_id" (text batch.model_checkpoint_id)
                      (field "harness_id" (text batch.harness_id) end)))))));
      next_iteration = none;
      total_cost_usd = some next_total_cost;
    }

    -- `_budget_abort`
    unfoldable pub abort_edge : StopReason → TraceEdge P
    abort_edge stop_reason = record {
      to_state = ControlState.aborted;
      event = ControlEvent.budget_exceeded;
      action = DecisionAction.abort;
      subject_type = DecisionSubject.trace_batch;
      subject_id = batch.batch_id;
      reason_code = append "trace_" (append (budget_name stop_reason) "_budget_exceeded");
      reason =
          append "Trace harvesting crossed the "
            (append (budget_name stop_reason) " budget boundary.");
      timestamp = batch.created_at;
      evidence_ids = batch.evidence_ids;
      decision_stop_reason = some stop_reason;
      snapshot_stop_reason = some stop_reason;
      metadata = field "trace_batch_id" (text batch.batch_id) (
          field "batch_cost_usd" (float batch.cost_usd) (
            field "run_total_usd" (float next_total_cost) (
              field "per_batch_limit_usd" (float limits.per_batch_budget_usd)
                (field "total_limit_usd" (float limits.total_budget_usd) end))));
      next_iteration = none;
      total_cost_usd = some next_total_cost;
    }

  unfoldable pub over_batch_budget : P.Float → Bool
  over_batch_budget cost = P.less (P.add limits.per_batch_budget_usd P.tiny) cost

  unfoldable pub over_total_budget : P.Float → Bool
  over_total_budget cost = P.less (P.add limits.total_budget_usd P.tiny) cost

  -- the edge into VERIFY_TRACES, with the counters of the current snapshot
  unfoldable pub count_batch : HarvestedTraceBatch P → P.Float → Outcome (PolicyStep P)
  count_batch batch next_total_cost = do
    verified_before ← metadata_int P current "verified_trace_count"
    batch_count_before ← metadata_int P current "harvest_batch_count"
    edge_from_snapshot P current
        (harvest_edge batch next_total_cost verified_before batch_count_before)

  unfoldable pub batch_harvested : HarvestedTraceBatch P → Outcome (PolicyStep P)
  unfolding count_batch
  batch_harvested batch = do
    require_state P current ControlState.harvest_traces
    validate_frozen_lineage P current
    validate_batch_lineage P current batch
    let next_total_cost = P.add current.total_cost_usd batch.cost_usd in
        if over_batch_budget batch.cost_usd
        then edge_from_snapshot P current
            (abort_edge batch next_total_cost StopReason.per_iteration_budget_exceeded)
        else if over_total_budget next_total_cost
        then edge_from_snapshot P current
            (abort_edge batch next_total_cost StopReason.total_budget_exceeded)
        else count_batch batch next_total_cost

  -- the two edges of `_after_quarantine`, from the snapshot `current` of the quarantine
  unfoldable pub stop_edge : String → TraceEdge P
  stop_edge timestamp = record {
    to_state = ControlState.stopped;
    event = ControlEvent.max_iterations_reached;
    action = DecisionAction.stop;
    subject_type = DecisionSubject.run;
    subject_id = current.run_id;
    reason_code = "trace_harvest_batch_limit_after_quarantine";
    reason = "Trace harvesting exhausted its batch limit without a valid training Dataset.";
    timestamp = timestamp;
    evidence_ids = current.evidence_ids;
    decision_stop_reason = some StopReason.max_iterations;
    snapshot_stop_reason = some StopReason.max_iterations;
    metadata = current.metadata;
    next_iteration = none;
    total_cost_usd = none;
  }

  unfoldable pub retry_edge : String → TraceEdge P
  retry_edge timestamp = record {
    to_state = ControlState.harvest_traces;
    event = ControlEvent.next_iteration_requested;
    action = DecisionAction.continue;
    subject_type = DecisionSubject.run;
    subject_id = current.run_id;
    reason_code = "retry_trace_harvesting_after_quarantine";
    reason =
        "The rejected Trace batch is quarantined; collect another observable batch under the same frozen model and active Harness.";
    timestamp = timestamp;
    evidence_ids = current.evidence_ids;
    decision_stop_reason = none;
    snapshot_stop_reason = none;
    metadata = current.metadata;
    next_iteration = some (current.iteration + 1);
    total_cost_usd = none;
  }

  -- the edge that `_after_quarantine` takes
  unfoldable pub after_edge : ℕ → String → TraceEdge P
  after_edge batch_count timestamp =
      if leb limits.max_batches batch_count then stop_edge timestamp else retry_edge timestamp

  module _ (result : TraceDatasetResult P) (verified_after batch_count : ℕ) where
    unfoldable pub common_metadata : Fields P
    common_metadata = field "trace_batch_id" (text result.batch_id) (
        field "trace_dataset_id" (text result.dataset_id) (
          field "trace_dataset_path" (text result.dataset_path) (
            field "trace_dataset_sha256" (text result.dataset_sha256) (
              field "trace_audit_path" (text result.audit_path) (
                field "raw_trace_example_count" (int (pos result.raw_count)) (
                  field "accepted_trace_count" (int (pos result.accepted_count)) (
                    field "rejected_trace_count" (int (pos result.rejected_count)) (
                      field "acceptance_rate" (float result.acceptance_rate) (
                        field "rejection_counts" (object (of_counts result.rejection_counts)) (
                          field "verified_trace_count" (int (pos verified_after)) (
                            field "harvest_batch_count" (int (pos batch_count)) (
                              field "model_checkpoint_id" (text result.model_checkpoint_id)
                                (field "harness_id" (text result.harness_id) end)))))))))))))

    -- what the edges of verification_completed share
    unfoldable pub result_edge :
        ControlState
        → ControlEvent
        → DecisionAction
        → DecisionSubject
        → String
        → String
        → String
        → TraceEdge P
    unfolding common_metadata
    result_edge to_state event action subject_type subject_id reason_code reason = record {
      to_state = to_state;
      event = event;
      action = action;
      subject_type = subject_type;
      subject_id = subject_id;
      reason_code = reason_code;
      reason = reason;
      timestamp = result.created_at;
      evidence_ids = result.evidence_ids;
      decision_stop_reason = none;
      snapshot_stop_reason = none;
      metadata = common_metadata;
      next_iteration = none;
      total_cost_usd = none;
    }

    unfoldable pub no_data_edge : TraceEdge P
    unfolding result_edge
    no_data_edge =
        record (result_edge ControlState.quarantined ControlEvent.dataset_quarantined
          DecisionAction.quarantine DecisionSubject.trace_batch result.batch_id
          "trace_batch_no_accepted_data"
          "No harvested Trace example passed the common data gates.") {
            decision_stop_reason = some StopReason.no_accepted_data;
          }

    unfoldable pub low_rate_edge : TraceEdge P
    unfolding result_edge
    low_rate_edge =
        record (result_edge ControlState.quarantined ControlEvent.dataset_quarantined
          DecisionAction.quarantine DecisionSubject.dataset result.dataset_id
          "trace_dataset_low_acceptance"
          "Verified Trace Dataset acceptance rate fell below the configured minimum.") {
            decision_stop_reason = some StopReason.low_acceptance;
          }

    unfoldable pub target_edge : TraceEdge P
    unfolding result_edge
    target_edge =
        result_edge ControlState.train_model ControlEvent.trace_target_reached
          DecisionAction.continue DecisionSubject.dataset result.dataset_id
          "verified_trace_target_reached"
          "The cumulative verified observable Trace count reached the model inner-loop training target."

    unfoldable pub limit_edge : TraceEdge P
    unfolding result_edge
    limit_edge =
        record (result_edge ControlState.stopped ControlEvent.max_iterations_reached
          DecisionAction.stop DecisionSubject.run current.run_id "trace_harvest_batch_limit_reached"
          "Trace harvesting reached its batch limit before the verified training target.") {
            decision_stop_reason = some StopReason.max_iterations;
            snapshot_stop_reason = some StopReason.max_iterations;
          }

    unfoldable pub continue_edge : TraceEdge P
    unfolding result_edge
    continue_edge =
        record (result_edge ControlState.harvest_traces ControlEvent.trace_batch_verified
          DecisionAction.continue DecisionSubject.dataset result.dataset_id
          "continue_trace_harvesting"
          "The Trace Dataset passed verification, but more accepted examples are required before model training.") {
            next_iteration = some (current.iteration + 1);
          }

    -- the edge for a Dataset that is not quarantined
    unfoldable pub accepted_edge : TraceEdge P
    unfolding target_edge limit_edge continue_edge
    accepted_edge =
        if leb limits.target_traces verified_after
        then target_edge
        else if leb limits.max_batches batch_count
        then limit_edge
        else continue_edge

module _ (P : Platform) (limits : TraceHarvestLimits P) where
  -- `_after_quarantine`
  unfoldable pub after_quarantine : PolicyStep P → String → Outcome (PolicyStep P)
  unfolding after_edge
  after_quarantine quarantine_step timestamp = do
    current ← final_snapshot P quarantine_step
    batch_count ← metadata_int P current "harvest_batch_count"
    last ← edge_from_snapshot P current (after_edge P limits current batch_count timestamp)
    combine P trace_contract quarantine_step last

  -- a quarantine, and `_after_quarantine`
  unfoldable pub quarantine : StateSnapshot P → TraceEdge P → String → Outcome (PolicyStep P)
  unfolding after_quarantine
  quarantine current edge timestamp = do
    quarantined ← edge_from_snapshot P current edge
    after_quarantine quarantined timestamp

  -- `acceptance_rate + 1e-12 < min_acceptance_rate`
  unfoldable pub rate_too_low : TraceDatasetResult P → Bool
  rate_too_low result = P.less (P.add result.acceptance_rate P.tiny) limits.min_acceptance_rate

  -- the branches of verification_completed
  unfoldable pub settle_dataset :
      StateSnapshot P → TraceDatasetResult P → ℕ → ℕ → Outcome (PolicyStep P)
  unfolding quarantine accepted_edge
  settle_dataset current result verified_after batch_count =
      if result.accepted_count == 0
      then quarantine current (no_data_edge P limits current result verified_after batch_count)
          result.created_at
      else if rate_too_low result
      then quarantine current (low_rate_edge P limits current result verified_after batch_count)
          result.created_at
      else edge_from_snapshot P current
          (accepted_edge P limits current result verified_after batch_count)

  unfoldable pub verification_completed :
      StateSnapshot P → TraceDatasetResult P → Outcome (PolicyStep P)
  unfolding settle_dataset
  verification_completed current result = do
    require_state P current ControlState.verify_traces
    validate_frozen_lineage P current
    validate_dataset_lineage P current result
    raise_if (not (is_id_value (get "trace_batch_id" current.metadata) result.batch_id))
        trace_invariant
    verified_before ← metadata_int P current "verified_trace_count"
    batch_count ← metadata_int P current "harvest_batch_count"
    settle_dataset current result (verified_before + result.accepted_count) batch_count
