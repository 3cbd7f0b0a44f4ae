-- ===== src/Harness/Traces/Contracts.antt =====
-- harness/trace_harvesting/contracts.py: the values that the trace policy observes. A check of a
-- type that the model's types give is left out, as in Outer/Contracts.
use post_training_rsi_pipeli.Prelude.{
  ◌+◌, ℕ, Bool, not, String, List, [], ◌∷◌, Option, some, Outcome, ok, raise_if, trace_contract,
  ◌>>=◌, ◌>>◌, is_empty, length, ◌==◌, if◌then◌else◌,
}
use post_training_rsi_pipeli.Platform.{Platform}
use post_training_rsi_pipeli.ControlPlane.Value.{Fields}
use post_training_rsi_pipeli.ControlPlane.Validation.{
  validate_id, validate_text, validate_sha256, validate_id_tuple, validate_finite_number,
  normalize_timestamp,
}
use post_training_rsi_pipeli.Harness.Outer.Contracts.{outside_unit}

pub data TraceEventType : Type 0 where
  task_input tool_call tool_result state_observation final_output error : TraceEventType

pub record ObservableTraceStep (P : Platform) : Type 0 where
  pub step_index : ℕ
  pub event_type : TraceEventType
  pub content : String
  pub tool_name : Option String
  pub tool_call_id : Option String
  pub status : Option String
  pub metadata : Fields P

pub record ObservableTrajectory (P : Platform) : Type 0 where
  pub trace_id : String
  pub run_id : String
  pub cycle : ℕ
  pub task_id : String
  pub task_family : String
  pub model_checkpoint_id : String
  pub harness_id : String
  pub success : Bool
  pub score : P.Float
  pub started_at : String
  pub completed_at : String
  pub steps : List (ObservableTraceStep P)
  pub evidence_ids : List String
  pub metadata : Fields P

pub record TraceRejection : Type 0 where
  pub trace_id : String
  pub reasons : List String

pub record HarvestedTraceBatch (P : Platform) : Type 0 where
  pub batch_id : String
  pub run_id : String
  pub cycle : ℕ
  pub model_checkpoint_id : String
  pub harness_id : String
  pub target_count : ℕ
  pub selected : List (ObservableTrajectory P)
  pub rejected : List TraceRejection
  pub selection_seed : String
  pub cost_usd : P.Float
  pub created_at : String
  pub evidence_ids : List String
  pub metadata : Fields P

pub record TraceDatasetResult (P : Platform) : Type 0 where
  pub batch_id : String
  pub dataset_id : String
  pub run_id : String
  pub cycle : ℕ
  pub model_checkpoint_id : String
  pub harness_id : String
  pub dataset_path : String
  pub dataset_sha256 : String
  pub audit_path : String
  pub raw_count : ℕ
  pub accepted_count : ℕ
  pub rejected_count : ℕ
  pub acceptance_rate : P.Float
  pub rejection_counts : List (String × ℕ)
  pub accepted_example_ids : List String
  pub created_at : String
  pub evidence_ids : List String

-- the loop over `rejection_counts`
unfoldable pub check_rejections : List (String × ℕ) → Outcome (Unit {0})
unfolding validate_id
check_rejections [] = ok tt
check_rejections ((reason, count) ∷ rest) = do reason_id ← validate_id reason; check_rejections rest

-- `TraceDatasetResult.__post_init__`, with the division of two `int`
unfoldable pub check_dataset :
    (P : Platform) (divide : ℕ → ℕ → P.Float)
    → TraceDatasetResult P
    → Outcome (TraceDatasetResult P)
unfolding check_rejections
check_dataset P divide r = do
  batch_id ← validate_id r.batch_id
  dataset_id ← validate_id r.dataset_id
  run_id ← validate_id r.run_id
  model ← validate_id r.model_checkpoint_id
  harness ← validate_id r.harness_id
  dataset_path ← validate_text r.dataset_path
  digest ← validate_sha256 (some r.dataset_sha256)
  audit_path ← validate_text r.audit_path
  raise_if (not (r.accepted_count + r.rejected_count == r.raw_count)) trace_contract
  rate ← validate_finite_number P r.acceptance_rate
  raise_if (outside_unit P r.acceptance_rate) trace_contract
  raise_if
      (not (
        P.is_close r.acceptance_rate
          (if r.raw_count == 0 then P.zero_float else divide r.accepted_count r.raw_count)))
      trace_contract
  check_rejections r.rejection_counts
  accepted ← validate_id_tuple r.accepted_example_ids
  raise_if (not (length accepted == r.accepted_count)) trace_contract
  created_at ← normalize_timestamp P r.created_at
  evidence_ids ← validate_id_tuple r.evidence_ids
  raise_if (is_empty evidence_ids) trace_contract
  ok (record r { created_at = created_at })
