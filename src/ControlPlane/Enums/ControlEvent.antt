-- ===== src/ControlPlane/Enums/ControlEvent.antt =====
-- `ControlEvent` of control_plane/enums.py: the facts that may cause a transition.
use post_training_rsi_pipeli.Prelude.{String, List, [], ◌∷◌, ◌≡◌, refl, Option, some}
use post_training_rsi_pipeli.ControlPlane.Enums.Lookup.{find_member}

pub data ControlEvent : Type 0 where
  start config_accepted config_rejected diagnosis_completed : ControlEvent
  hypothesis_selected synthesis_completed budget_charge_accepted : ControlEvent
  budget_exceeded provider_circuit_open verification_completed : ControlEvent
  dataset_rejected dataset_quarantined data_review_requested data_approved : ControlEvent
  data_denied training_completed training_failed serving_ready : ControlEvent
  serving_failed serving_torn_down evaluation_completed evaluation_failed : ControlEvent
  candidate_improved candidate_not_improved regression_detected : ControlEvent
  model_review_requested model_approved model_denied peak_promoted : ControlEvent
  candidate_rejected rollback_completed plateau_reached : ControlEvent
  max_iterations_reached run_completed stop_requested : ControlEvent
  next_iteration_requested harness_mutated harness_validated : ControlEvent
  harness_invalid harness_evaluated harness_improved harness_not_improved : ControlEvent
  harness_plateau_reached harness_review_requested harness_approved : ControlEvent
  harness_denied trace_batch_harvested trace_batch_verified : ControlEvent
  trace_target_reached model_trained model_evaluated model_improved : ControlEvent
  model_not_improved model_hot_swapped harness_slimmed cycle_limit_reached : ControlEvent

-- the member's text, `member.value`
unfoldable pub value : ControlEvent → String
value start = "START"
value config_accepted = "CONFIG_ACCEPTED"
value config_rejected = "CONFIG_REJECTED"
value diagnosis_completed = "DIAGNOSIS_COMPLETED"
value hypothesis_selected = "HYPOTHESIS_SELECTED"
value synthesis_completed = "SYNTHESIS_COMPLETED"
value budget_charge_accepted = "BUDGET_CHARGE_ACCEPTED"
value budget_exceeded = "BUDGET_EXCEEDED"
value provider_circuit_open = "PROVIDER_CIRCUIT_OPEN"
value verification_completed = "VERIFICATION_COMPLETED"
value dataset_rejected = "DATASET_REJECTED"
value dataset_quarantined = "DATASET_QUARANTINED"
value data_review_requested = "DATA_REVIEW_REQUESTED"
value data_approved = "DATA_APPROVED"
value data_denied = "DATA_DENIED"
value training_completed = "TRAINING_COMPLETED"
value training_failed = "TRAINING_FAILED"
value serving_ready = "SERVING_READY"
value serving_failed = "SERVING_FAILED"
value serving_torn_down = "SERVING_TORN_DOWN"
value evaluation_completed = "EVALUATION_COMPLETED"
value evaluation_failed = "EVALUATION_FAILED"
value candidate_improved = "CANDIDATE_IMPROVED"
value candidate_not_improved = "CANDIDATE_NOT_IMPROVED"
value regression_detected = "REGRESSION_DETECTED"
value model_review_requested = "MODEL_REVIEW_REQUESTED"
value model_approved = "MODEL_APPROVED"
value model_denied = "MODEL_DENIED"
value peak_promoted = "PEAK_PROMOTED"
value candidate_rejected = "CANDIDATE_REJECTED"
value rollback_completed = "ROLLBACK_COMPLETED"
value plateau_reached = "PLATEAU_REACHED"
value max_iterations_reached = "MAX_ITERATIONS_REACHED"
value run_completed = "RUN_COMPLETED"
value stop_requested = "STOP_REQUESTED"
value next_iteration_requested = "NEXT_ITERATION_REQUESTED"
value harness_mutated = "HARNESS_MUTATED"
value harness_validated = "HARNESS_VALIDATED"
value harness_invalid = "HARNESS_INVALID"
value harness_evaluated = "HARNESS_EVALUATED"
value harness_improved = "HARNESS_IMPROVED"
value harness_not_improved = "HARNESS_NOT_IMPROVED"
value harness_plateau_reached = "HARNESS_PLATEAU_REACHED"
value harness_review_requested = "HARNESS_REVIEW_REQUESTED"
value harness_approved = "HARNESS_APPROVED"
value harness_denied = "HARNESS_DENIED"
value trace_batch_harvested = "TRACE_BATCH_HARVESTED"
value trace_batch_verified = "TRACE_BATCH_VERIFIED"
value trace_target_reached = "TRACE_TARGET_REACHED"
value model_trained = "MODEL_TRAINED"
value model_evaluated = "MODEL_EVALUATED"
value model_improved = "MODEL_IMPROVED"
value model_not_improved = "MODEL_NOT_IMPROVED"
value model_hot_swapped = "MODEL_HOT_SWAPPED"
value harness_slimmed = "HARNESS_SLIMMED"
value cycle_limit_reached = "CYCLE_LIMIT_REACHED"

-- the members in declaration order
abbrev pub members : List ControlEvent
members =
    start ∷ config_accepted ∷ config_rejected ∷ diagnosis_completed ∷ hypothesis_selected
    ∷ synthesis_completed ∷ budget_charge_accepted ∷ budget_exceeded ∷ provider_circuit_open
    ∷ verification_completed ∷ dataset_rejected ∷ dataset_quarantined ∷ data_review_requested
    ∷ data_approved ∷ data_denied ∷ training_completed ∷ training_failed ∷ serving_ready
    ∷ serving_failed ∷ serving_torn_down ∷ evaluation_completed ∷ evaluation_failed
    ∷ candidate_improved ∷ candidate_not_improved ∷ regression_detected ∷ model_review_requested
    ∷ model_approved ∷ model_denied ∷ peak_promoted ∷ candidate_rejected ∷ rollback_completed
    ∷ plateau_reached ∷ max_iterations_reached ∷ run_completed ∷ stop_requested
    ∷ next_iteration_requested ∷ harness_mutated ∷ harness_validated ∷ harness_invalid
    ∷ harness_evaluated ∷ harness_improved ∷ harness_not_improved ∷ harness_plateau_reached
    ∷ harness_review_requested ∷ harness_approved ∷ harness_denied ∷ trace_batch_harvested
    ∷ trace_batch_verified ∷ trace_target_reached ∷ model_trained ∷ model_evaluated ∷ model_improved
    ∷ model_not_improved ∷ model_hot_swapped ∷ harness_slimmed ∷ cycle_limit_reached ∷ []

-- `ControlEvent(text)`; `none` is its ValueError
unfoldable pub of_value : String → Option ControlEvent
unfolding find_member value
of_value text = find_member value text members

-- The text of a member is read back as that member.
pub of_value-value : (m : ControlEvent) → of_value (value m) ≡ some m
unfolding of_value
of_value-value start = refl
of_value-value _ = refl
