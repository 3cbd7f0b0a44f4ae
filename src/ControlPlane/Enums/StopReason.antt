-- ===== src/ControlPlane/Enums/StopReason.antt =====
-- `StopReason` of control_plane/enums.py: the terminal reasons.
use post_training_rsi_pipeli.Prelude.{String, List, [], ◌∷◌, ◌≡◌, refl, Option, some}
use post_training_rsi_pipeli.ControlPlane.Enums.Lookup.{find_member}

pub data StopReason : Type 0 where
  completed max_iterations plateau per_iteration_budget_exceeded : StopReason
  total_budget_exceeded provider_circuit_open no_accepted_data : StopReason
  low_acceptance low_diversity benchmark_contamination safety_violation : StopReason
  approval_not_granted training_failed serving_failed evaluation_failed : StopReason
  regression_rollback cycle_limit invalid_evidence cancelled : StopReason
  internal_error : StopReason

-- the member's text, `member.value`
unfoldable pub value : StopReason → String
value completed = "COMPLETED"
value max_iterations = "MAX_ITERATIONS"
value plateau = "PLATEAU"
value per_iteration_budget_exceeded = "PER_ITERATION_BUDGET_EXCEEDED"
value total_budget_exceeded = "TOTAL_BUDGET_EXCEEDED"
value provider_circuit_open = "PROVIDER_CIRCUIT_OPEN"
value no_accepted_data = "NO_ACCEPTED_DATA"
value low_acceptance = "LOW_ACCEPTANCE"
value low_diversity = "LOW_DIVERSITY"
value benchmark_contamination = "BENCHMARK_CONTAMINATION"
value safety_violation = "SAFETY_VIOLATION"
value approval_not_granted = "APPROVAL_NOT_GRANTED"
value training_failed = "TRAINING_FAILED"
value serving_failed = "SERVING_FAILED"
value evaluation_failed = "EVALUATION_FAILED"
value regression_rollback = "REGRESSION_ROLLBACK"
value cycle_limit = "CYCLE_LIMIT"
value invalid_evidence = "INVALID_EVIDENCE"
value cancelled = "CANCELLED"
value internal_error = "INTERNAL_ERROR"

-- the members in declaration order
abbrev pub members : List StopReason
members =
    completed ∷ max_iterations ∷ plateau ∷ per_iteration_budget_exceeded ∷ total_budget_exceeded
    ∷ provider_circuit_open ∷ no_accepted_data ∷ low_acceptance ∷ low_diversity
    ∷ benchmark_contamination ∷ safety_violation ∷ approval_not_granted ∷ training_failed
    ∷ serving_failed ∷ evaluation_failed ∷ regression_rollback ∷ cycle_limit ∷ invalid_evidence
    ∷ cancelled ∷ internal_error ∷ []

-- `StopReason(text)`; `none` is its ValueError
unfoldable pub of_value : String → Option StopReason
unfolding find_member value
of_value text = find_member value text members

-- The text of a member is read back as that member.
pub of_value-value : (m : StopReason) → of_value (value m) ≡ some m
unfolding of_value
of_value-value completed = refl
of_value-value _ = refl
