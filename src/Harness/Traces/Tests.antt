-- ===== src/Harness/Traces/Tests.antt =====
-- A harvest that is run, and the theorems on it.
use post_training_rsi_pipeli.Prelude.{
  ℕ, pos, ◌*◌, ◌+◌, ◌-◌, ◌≤◌, String, List, [], ◌∷◌, map, none, some, Outcome, ok, raise,
  trace_invariant, ◌≡◌, refl, arith,
}
use post_training_rsi_pipeli.Platform.Fixed.{fixed}
use post_training_rsi_pipeli.ControlPlane.Value.{
  end, field, text, normalize_json_object, insert_field,
}
use post_training_rsi_pipeli.ControlPlane.Text.{
  is_id, is_text, between, id_codes, is_alnum, is_control, is_id_char, is_space, lower, offset_to_z,
  take_text, z_to_offset,
}
use post_training_rsi_pipeli.ControlPlane.Validation.{
  validate_id, validate_finite_number, validate_text, normalize_timestamp, parse_timestamp,
  validate_id_tuple, validate_nonnegative_number, validate_optional_id, validate_optional_number,
}
use post_training_rsi_pipeli.ControlPlane.Enums.ControlState
use post_training_rsi_pipeli.ControlPlane.Enums.ControlState.{ControlState}
use post_training_rsi_pipeli.ControlPlane.Enums.DecisionSubject
use post_training_rsi_pipeli.ControlPlane.Records.DecisionRecord
use post_training_rsi_pipeli.ControlPlane.Records.TransitionRecord
use post_training_rsi_pipeli.ControlPlane.Records.StateSnapshot
use post_training_rsi_pipeli.ControlPlane.Records.StateSnapshot.{StateSnapshot}
use post_training_rsi_pipeli.RsiPolicy.Step.{phase_of}
use post_training_rsi_pipeli.Harness.Steps.{
  PolicyStep, final_snapshot, check_step, combine, record_id, edge_decision, edge_transition,
  edge_snapshot, emit,
}
use post_training_rsi_pipeli.ControlPlane.Validation.{validate_nonnegative_int}
use post_training_rsi_pipeli.Harness.Traces.Edges.{
  TraceHarvestLimits, record_subject, keep_key, edge_of, edge_from_snapshot, require_state,
  validate_frozen_lineage, validate_batch_lineage, validate_dataset_lineage, metadata_int,
}
use post_training_rsi_pipeli.Harness.Traces.Policy.{
  harvest_edge, abort_edge, over_batch_budget, over_total_budget, count_batch, batch_harvested,
  stop_edge, retry_edge, after_edge, common_metadata, result_edge, no_data_edge, low_rate_edge,
  target_edge, limit_edge, continue_edge, accepted_edge, after_quarantine, quarantine, rate_too_low,
  settle_dataset, verification_completed,
}
use post_training_rsi_pipeli.Harness.Traces.Harvest.{IsBounded, SameLineage}
use post_training_rsi_pipeli.Harness.Traces.Refines.{Follows}
use post_training_rsi_pipeli.Harness.Traces.Runs.{
  Observation, harvested, verified, operation, operation-Follows_traces, Run, begun, called,
  harvest_bounded, Run-IsBounded, Run-SameLineage,
}

abbrev limits : TraceHarvestLimits fixed
limits = record {
  target_traces = 3;
  max_batches = 2;
  min_acceptance_rate = pos 500;
  per_batch_budget_usd = pos 5;
  total_budget_usd = pos 100;
}

abbrev begin : StateSnapshot fixed
begin = record {
  snapshot_id = "harness-snapshot-00112233445566778899aabb";
  run_id = "run-1";
  iteration = 1;
  cycle = 0;
  state = ControlState.harvest_traces;
  entered_at = "2026-08-01T00:00:00Z";
  active_checkpoint_id = some "model-0";
  candidate_checkpoint_id = none;
  peak_checkpoint_id = some "model-0";
  active_harness_id = some "harness-0";
  candidate_harness_id = none;
  candidate_score = none;
  peak_score = some (pos 500);
  plateau_count = 0;
  total_cost_usd = pos 0;
  stop_reason = none;
  evidence_ids = "evidence-1" ∷ [];
  metadata =
      field "decision_id" (text "harness-decision-00112233445566778899aabb")
        (field "frozen_model_checkpoint_id" (text "model-0") end);
}

abbrev batch : String → ℕ → Observation fixed
batch id cost = harvested (record {
  batch_id = id;
  run_id = "run-1";
  cycle = 0;
  model_checkpoint_id = "model-0";
  harness_id = "harness-0";
  target_count = 4;
  selected = [];
  rejected = [];
  selection_seed = "seed-1";
  cost_usd = pos cost;
  created_at = "2026-08-01T04:00:00Z";
  evidence_ids = "evidence-5" ∷ [];
  metadata = end;
})

abbrev dataset : String → ℕ → ℕ → Observation fixed
dataset id accepted rate = verified (record {
  batch_id = id;
  dataset_id = "dataset-1";
  run_id = "run-1";
  cycle = 0;
  model_checkpoint_id = "model-0";
  harness_id = "harness-0";
  dataset_path = "datasets";
  dataset_sha256 = "00112233445566778899aabbccddeeff00112233445566778899aabbccddeeff";
  audit_path = "audits";
  raw_count = 4;
  accepted_count = accepted;
  rejected_count = 4 - accepted;
  acceptance_rate = pos rate;
  rejection_counts = [];
  accepted_example_ids = [];
  created_at = "2026-08-01T05:00:00Z";
  evidence_ids = "evidence-6" ∷ [];
})

-- The operations, with all that they call.
unfoldable run_operation : StateSnapshot fixed → Observation fixed → Outcome (PolicyStep fixed)
unfolding batch_harvested count_batch harvest_edge abort_edge over_batch_budget over_total_budget
    verification_completed settle_dataset quarantine after_quarantine after_edge stop_edge
    retry_edge common_metadata result_edge no_data_edge low_rate_edge target_edge limit_edge
    continue_edge accepted_edge rate_too_low record_subject keep_key edge_of edge_from_snapshot
    require_state validate_frozen_lineage validate_batch_lineage validate_dataset_lineage
    metadata_int validate_nonnegative_int emit edge_decision edge_transition edge_snapshot record_id
    check_step combine phase_of ControlState.value ControlState.is_state DecisionSubject.value lower
    take_text between DecisionRecord.post_init TransitionRecord.post_init StateSnapshot.post_init
    validate_id validate_text validate_id_tuple validate_optional_id validate_finite_number
    validate_nonnegative_number validate_optional_number normalize_timestamp parse_timestamp is_id
    is_text id_codes is_alnum is_control is_id_char is_space offset_to_z z_to_offset
    normalize_json_object insert_field
run_operation current o = operation fixed limits current o

abbrev no_step : PolicyStep fixed
no_step = record { decisions = []; transitions = []; snapshots = [] }

abbrev step_of : Outcome (PolicyStep fixed) → PolicyStep fixed
step_of (ok step) = step
step_of (raise e) = no_step

abbrev last_of : StateSnapshot fixed → Outcome (StateSnapshot fixed) → StateSnapshot fixed
last_of default (ok s) = s
last_of default (raise e) = default

abbrev states : Outcome (PolicyStep fixed) → List ControlState
states o = map (λ s. s.state) (step_of o).snapshots

-- the last snapshot of a call
unfoldable after : StateSnapshot fixed → Observation fixed → StateSnapshot fixed
unfolding run_operation
after s o = last_of s (final_snapshot fixed (step_of (run_operation s o)))

abbrev second : StateSnapshot fixed
second = after begin (batch "batch-1" 5)

abbrev third : StateSnapshot fixed
third = after second (dataset "batch-1" 2 500)

abbrev fourth : StateSnapshot fixed
fourth = after third (batch "batch-2" 5)

more_states :
    states (run_operation second (dataset "batch-1" 2 500)) ≡ ControlState.harvest_traces ∷ []
unfolding run_operation after
more_states = refl

target_states :
    states (run_operation fourth (dataset "batch-2" 1 500)) ≡ ControlState.train_model ∷ []
unfolding run_operation after
target_states = refl

retry_states :
    states (run_operation second (dataset "batch-1" 0 0))
    ≡ ControlState.quarantined ∷ ControlState.harvest_traces ∷ []
unfolding run_operation after
retry_states = refl

stop_states :
    states (run_operation fourth (dataset "batch-2" 0 0))
    ≡ ControlState.quarantined ∷ ControlState.stopped ∷ []
unfolding run_operation after
stop_states = refl

over_budget_states : states (run_operation begin (batch "batch-1" 6)) ≡ ControlState.aborted ∷ []
unfolding run_operation
over_budget_states = refl

wrong_batch : run_operation second (dataset "batch-2" 2 500) ≡ raise trace_invariant
unfolding run_operation after
wrong_batch = refl

abbrev harvest : Run fixed limits begin 3 fourth
unfolding run_operation after
harvest =
    called (batch "batch-2" 5) (step_of (run_operation third (batch "batch-2" 5))) fourth
      (called (dataset "batch-1" 2 500) (step_of (run_operation second (dataset "batch-1" 2 500)))
        third
        (called (batch "batch-1" 5) (step_of (run_operation begin (batch "batch-1" 5))) second begun
          refl refl)
        refl refl)
      refl refl

-- the same with a quarantine
abbrev quarantined : PolicyStep fixed
quarantined = step_of (run_operation second (dataset "batch-1" 1 250))

operation-Follows_traces_example : Follows fixed limits second quarantined
unfolding run_operation after
operation-Follows_traces_example =
    operation-Follows_traces fixed limits second (dataset "batch-1" 1 250) quarantined refl

harvest_bounded_example : 3 ≤ 3 * (2 - 0) + 3
unfolding metadata_int
harvest_bounded_example = harvest_bounded fixed limits begin fourth 3 refl harvest

Run-IsBounded_example : IsBounded fixed limits fourth
unfolding metadata_int
Run-IsBounded_example = Run-IsBounded fixed limits begin fourth 3 (omega arith) harvest

Run-SameLineage_example : SameLineage fixed limits begin fourth
Run-SameLineage_example = Run-SameLineage fixed limits begin fourth 3 harvest
