-- ===== src/Harness/Outer/Contracts.antt =====
-- harness/outer_loop/contracts.py: the values that the outer loop observes, with the checks of their
-- `__post_init__`. A check of a type that the model's types give is left out; `a <= 0` on a finite
-- float is written `not (0 < a)`, and `a < 1` on a number that is not negative `a == 0`.
use post_training_rsi_pipeli.Prelude.{
  ℕ, Bool, not, ◌||◌, ◌&&◌, String, List, [], ◌∷◌, Option, none, some, Outcome, ok, raise_if, pos,
  harness_contract, ◌>>=◌, ◌>>◌, is_empty, opt_eq, has_duplicates, contains, any, map, ◌==◌, str_eq,
  true, false,
}
use post_training_rsi_pipeli.Platform.{Platform}
use post_training_rsi_pipeli.ControlPlane.Value.{
  Fields, end, field, text, int, float, array, object, normalize_json_object,
}
use post_training_rsi_pipeli.ControlPlane.Encoding.{of_optional_text, of_texts}
use post_training_rsi_pipeli.ControlPlane.Validation.{
  validate_id, validate_optional_id, validate_text, validate_id_tuple, validate_finite_number,
  validate_nonnegative_number, normalize_timestamp,
}

abbrev is_some {ℓ} : {A : Type ℓ} → Option A → Bool
is_some none = false
is_some (some a) = true

-- `_validated_id_tuple`: each value in turn, and then that they are unique
unfoldable pub validate_each_id : List String → Outcome (List String)
validate_each_id [] = ok []
validate_each_id (value ∷ values) = do
  id ← validate_id value
  rest ← validate_each_id values
  ok (id ∷ rest)

unfoldable pub validated_id_tuple : List String → Outcome (List String)
unfolding validate_each_id
validated_id_tuple values = do
  result ← validate_each_id values
  raise_if (has_duplicates result) harness_contract
  ok result

-- `if value is not None: ...` with a positive number
abbrev positive_optional_int : Option ℕ → Outcome (Unit {0})
positive_optional_int none = ok tt
positive_optional_int (some value) = raise_if (value == 0) harness_contract

pub record RetryPolicy (P : Platform) : Type 0 where
  pub max_attempts : ℕ
  pub initial_backoff_seconds : P.Float
  pub max_backoff_seconds : P.Float
  pub jitter_ratio : P.Float

pub record HarnessSpec (P : Platform) : Type 0 where
  pub harness_id : String
  pub version : ℕ
  pub parent_harness_id : Option String
  pub system_prompt : String
  pub tools : List String
  pub retry_policy : RetryPolicy P
  pub timeout_seconds : P.Float
  pub max_steps : ℕ
  pub metadata : Fields P

pub record HarnessMutationProposal (P : Platform) : Type 0 where
  pub mutation_id : String
  pub parent_harness_id : String
  pub prompt_appendix : String
  pub add_tools : List String
  pub remove_tools : List String
  pub max_attempts : Option ℕ
  pub timeout_seconds : Option P.Float
  pub max_steps : Option ℕ
  pub metadata : Fields P

pub record HarnessValidationResult (P : Platform) : Type 0 where
  pub candidate_harness_id : String
  pub valid : Bool
  pub reasons : List String
  pub evidence_ids : List String
  pub validated_at : String
  pub metrics : Fields P

pub record HarnessTask (P : Platform) : Type 0 where
  pub task_id : String
  pub task_family : String
  pub weight : P.Float
  pub metadata : Fields P

pub record HarnessTaskResult (P : Platform) : Type 0 where
  pub task_id : String
  pub task_family : String
  pub score : P.Float
  pub success : Bool
  pub failure_code : Option String
  pub observable_trace_uri : Option String
  pub metadata : Fields P

pub record HarnessBenchmarkResult (P : Platform) : Type 0 where
  pub harness_id : String
  pub benchmark_id : String
  pub score : P.Float
  pub task_family_scores : List (String × P.Float)
  pub task_results : List (HarnessTaskResult P)
  pub cost_usd : P.Float
  pub evaluated_at : String
  pub evidence_ids : List String
  pub metadata : Fields P

pub record HarnessReviewObservation : Type 0 where
  pub request_id : String
  pub candidate_harness_id : String
  pub approved : Bool
  pub reviewer_id : String
  pub reviewer_role : String
  pub evidence_ids : List String
  pub decided_at : String

module _ (P : Platform) where
  -- `not 0.0 <= value <= 1.0` of a finite number
  abbrev pub outside_unit : P.Float → Bool
  outside_unit value = P.less value P.zero_float || P.less P.one_float value

  unfoldable pub check_retry : RetryPolicy P → Outcome (RetryPolicy P)
  check_retry r = do
    raise_if (r.max_attempts == 0) harness_contract
    initial ← validate_nonnegative_number P r.initial_backoff_seconds
    maximum ← validate_nonnegative_number P r.max_backoff_seconds
    raise_if (P.less r.max_backoff_seconds r.initial_backoff_seconds) harness_contract
    jitter ← validate_nonnegative_number P r.jitter_ratio
    raise_if (P.less P.one_float r.jitter_ratio) harness_contract
    ok r

  unfoldable pub retry_to_dict : RetryPolicy P → Fields P
  retry_to_dict r = field "max_attempts" (int (pos r.max_attempts)) (
      field "initial_backoff_seconds" (float r.initial_backoff_seconds) (
        field "max_backoff_seconds" (float r.max_backoff_seconds)
          (field "jitter_ratio" (float r.jitter_ratio) end)))

  unfoldable pub check_spec : HarnessSpec P → Outcome (HarnessSpec P)
  unfolding validate_each_id
  check_spec s = do
    harness_id ← validate_id s.harness_id
    raise_if (s.version == 0) harness_contract
    parent ← validate_optional_id s.parent_harness_id
    raise_if (opt_eq parent (some harness_id)) harness_contract
    prompt ← validate_text s.system_prompt
    tools ← validate_each_id s.tools
    raise_if (has_duplicates tools) harness_contract
    timeout ← validate_finite_number P s.timeout_seconds
    raise_if (not (P.less P.zero_float s.timeout_seconds)) harness_contract
    raise_if (s.max_steps == 0) harness_contract
    metadata ← normalize_json_object P s.metadata
    ok (record s { metadata = metadata })

  unfoldable pub spec_to_dict : HarnessSpec P → Fields P
  unfolding retry_to_dict
  spec_to_dict s = field "harness_id" (text s.harness_id) (
      field "version" (int (pos s.version)) (
        field "parent_harness_id" (of_optional_text s.parent_harness_id) (
          field "system_prompt" (text s.system_prompt) (
            field "tools" (array (of_texts s.tools)) (
              field "retry_policy" (object (retry_to_dict s.retry_policy)) (
                field "timeout_seconds" (float s.timeout_seconds) (
                  field "max_steps" (int (pos s.max_steps))
                    (field "metadata" (object s.metadata) end))))))))

  -- `content_sha256`, with `canonical_json`
  unfoldable pub content_sha256 : (Fields P → String) → HarnessSpec P → String
  unfolding spec_to_dict
  content_sha256 canonical_json s = P.sha256 (canonical_json (spec_to_dict s))

  abbrev positive_optional_number : Option P.Float → Outcome (Unit {0})
  positive_optional_number none = ok tt
  positive_optional_number (some value) = do
    number ← validate_finite_number P value
    raise_if (not (P.less P.zero_float value)) harness_contract

  -- `if value: validate_text(value)`
  abbrev optional_appendix : String → Outcome String
  optional_appendix value = elim (str_eq value "") [ true ↦ ok value | false ↦ validate_text value ]

  unfoldable pub check_proposal : HarnessMutationProposal P → Outcome (HarnessMutationProposal P)
  unfolding validated_id_tuple
  check_proposal m = do
    mutation_id ← validate_id m.mutation_id
    parent ← validate_id m.parent_harness_id
    appendix ← optional_appendix m.prompt_appendix
    add_tools ← validated_id_tuple m.add_tools
    remove_tools ← validated_id_tuple m.remove_tools
    raise_if (any (λ tool. contains tool remove_tools) add_tools) harness_contract
    positive_optional_int m.max_attempts
    positive_optional_number m.timeout_seconds
    positive_optional_int m.max_steps
    metadata ← normalize_json_object P m.metadata
    raise_if
        (str_eq appendix ""
          && is_empty add_tools
          && is_empty remove_tools
          && not (is_some m.max_attempts)
          && not (is_some m.timeout_seconds)
          && not (is_some m.max_steps))
        harness_contract
    ok (record m { metadata = metadata })

  unfoldable pub check_validation : HarnessValidationResult P → Outcome (HarnessValidationResult P)
  unfolding validated_id_tuple
  check_validation v = do
    candidate ← validate_id v.candidate_harness_id
    reasons ← validated_id_tuple v.reasons
    raise_if (v.valid && not (is_empty reasons)) harness_contract
    raise_if (not v.valid && is_empty reasons) harness_contract
    evidence_ids ← validate_id_tuple v.evidence_ids
    raise_if (is_empty evidence_ids) harness_contract
    validated_at ← normalize_timestamp P v.validated_at
    metrics ← normalize_json_object P v.metrics
    ok (record v { validated_at = validated_at; metrics = metrics })

  unfoldable pub check_task : HarnessTask P → Outcome (HarnessTask P)
  check_task t = do
    task_id ← validate_id t.task_id
    family ← validate_id t.task_family
    weight ← validate_finite_number P t.weight
    raise_if (not (P.less P.zero_float t.weight)) harness_contract
    metadata ← normalize_json_object P t.metadata
    ok (record t { metadata = metadata })

  -- `if value is not None: validate_text(value)`
  abbrev optional_uri : Option String → Outcome (Unit {0})
  optional_uri none = ok tt
  optional_uri (some value) = do uri ← validate_text value; ok tt

  unfoldable pub check_task_result : HarnessTaskResult P → Outcome (HarnessTaskResult P)
  check_task_result t = do
    task_id ← validate_id t.task_id
    family ← validate_id t.task_family
    score ← validate_finite_number P t.score
    raise_if (outside_unit t.score) harness_contract
    failure_code ← validate_optional_id t.failure_code
    raise_if (t.success && is_some failure_code) harness_contract
    optional_uri t.observable_trace_uri
    metadata ← normalize_json_object P t.metadata
    ok (record t { metadata = metadata })

  -- the loop over `task_family_scores`
  abbrev check_family_scores : List (String × P.Float) → Outcome (Unit {0})
  check_family_scores [] = ok tt
  check_family_scores ((family, score) ∷ scores) = do
    family_id ← validate_id family
    number ← validate_finite_number P score
    raise_if (outside_unit score) harness_contract
    check_family_scores scores

  unfoldable pub check_benchmark : HarnessBenchmarkResult P → Outcome (HarnessBenchmarkResult P)
  check_benchmark b = do
    harness_id ← validate_id b.harness_id
    benchmark_id ← validate_id b.benchmark_id
    score ← validate_finite_number P b.score
    raise_if (outside_unit b.score) harness_contract
    check_family_scores b.task_family_scores
    raise_if (is_empty b.task_results) harness_contract
    raise_if (has_duplicates (map (λ t. t.task_id) b.task_results)) harness_contract
    cost ← validate_nonnegative_number P b.cost_usd
    evaluated_at ← normalize_timestamp P b.evaluated_at
    evidence_ids ← validate_id_tuple b.evidence_ids
    raise_if (is_empty evidence_ids) harness_contract
    metadata ← normalize_json_object P b.metadata
    ok (record b { evaluated_at = evaluated_at; metadata = metadata })

  unfoldable pub check_review : HarnessReviewObservation → Outcome HarnessReviewObservation
  check_review r = do
    request_id ← validate_id r.request_id
    candidate ← validate_id r.candidate_harness_id
    reviewer_id ← validate_id r.reviewer_id
    role ← validate_id r.reviewer_role
    evidence_ids ← validate_id_tuple r.evidence_ids
    raise_if (is_empty evidence_ids) harness_contract
    decided_at ← normalize_timestamp P r.decided_at
    ok (record r { decided_at = decided_at })
