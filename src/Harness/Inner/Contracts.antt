-- ===== src/Harness/Inner/Contracts.antt =====
-- harness/model_inner_loop/contracts.py: the values that the inner loop observes, with the checks of
-- their `__post_init__`. A check of a type that the model's types give is left out.
use Prim.Native.String.{◌++◌ as append}
use post_training_rsi_pipeli.Prelude.{
  ℕ, Bool, not, String, List, [], ◌∷◌, some, Outcome, ok, raise_if, pos, model_contract, ◌>>=◌,
  ◌>>◌, is_empty, str_eq,
}
use post_training_rsi_pipeli.Platform.{Platform}
use post_training_rsi_pipeli.ControlPlane.Text.{take_text}
use post_training_rsi_pipeli.ControlPlane.Value.{
  Fields, end, field, text, int, float, array, object,
}
use post_training_rsi_pipeli.ControlPlane.Encoding.{of_texts}
use post_training_rsi_pipeli.ControlPlane.Validation.{
  validate_id, validate_text, validate_sha256, validate_id_tuple, validate_finite_number,
  validate_nonnegative_number, normalize_timestamp,
}
use post_training_rsi_pipeli.Harness.Outer.Contracts.{outside_unit}
use post_training_rsi_pipeli.Harness.Metadata.{safe_metadata}

-- `_FORBIDDEN_METADATA_KEYS`
abbrev pub forbidden_metadata_keys : List String
forbidden_metadata_keys =
    "api_key" ∷ "authorization" ∷ "credential" ∷ "credentials" ∷ "password" ∷ "private_key"
    ∷ "secret" ∷ "token" ∷ []

pub record ModelCandidateArtifact (P : Platform) : Type 0 where
  pub checkpoint_id : String
  pub request_id : String
  pub run_id : String
  pub cycle : ℕ
  pub model_id : String
  pub parent_checkpoint_id : String
  pub dataset_id : String
  pub dataset_sha256 : String
  pub artifact_path : String
  pub artifact_sha256 : String
  pub training_loss : P.Float
  pub training_cost_usd : P.Float
  pub trained_at : String
  pub evidence_ids : List String
  pub metadata : Fields P

pub record ModelBenchmarkObservation (P : Platform) : Type 0 where
  pub run_id : String
  pub cycle : ℕ
  pub checkpoint_id : String
  pub parent_checkpoint_id : String
  pub endpoint : String
  pub benchmark_id : String
  pub score : P.Float
  pub task_family_scores : List (String × P.Float)
  pub failure_trace_uris : List String
  pub evaluation_cost_usd : P.Float
  pub evaluated_at : String
  pub evidence_ids : List String
  pub metadata : Fields P

pub record ModelReviewObservation : Type 0 where
  pub request_id : String
  pub checkpoint_id : String
  pub approved : Bool
  pub reviewer_id : String
  pub reviewer_role : String
  pub decided_at : String
  pub evidence_ids : List String

pub record ModelPromotionCommitObservation (P : Platform) : Type 0 where
  pub checkpoint_id : String
  pub previous_checkpoint_id : String
  pub score : P.Float
  pub checkpoint_bundle_sha256 : String
  pub committed_at : String
  pub evidence_ids : List String

pub record ModelRollbackCommitObservation : Type 0 where
  pub rejected_checkpoint_id : String
  pub active_checkpoint_id : String
  pub completed_at : String
  pub evidence_ids : List String

-- `tuple(validate_text(uri) for uri in uris)`
unfoldable pub check_texts : List String → Outcome (List String)
check_texts [] = ok []
check_texts (uri ∷ uris) = do
  checked ← validate_text uri
  rest ← check_texts uris
  ok (checked ∷ rest)

module _ (P : Platform) (casefold : String → String) (canonical_json : Fields P → String) where
  abbrev safe : Fields P → Outcome (Fields P)
  safe = safe_metadata P casefold forbidden_metadata_keys model_contract

  -- `_content_payload` of a candidate
  unfoldable pub candidate_payload : ModelCandidateArtifact P → Fields P
  candidate_payload c = field "request_id" (text c.request_id) (
      field "run_id" (text c.run_id) (
        field "cycle" (int (pos c.cycle)) (
          field "model_id" (text c.model_id) (
            field "parent_checkpoint_id" (text c.parent_checkpoint_id) (
              field "dataset_id" (text c.dataset_id) (
                field "dataset_sha256" (text c.dataset_sha256) (
                  field "artifact_path" (text c.artifact_path) (
                    field "artifact_sha256" (text c.artifact_sha256) (
                      field "training_loss" (float c.training_loss) (
                        field "training_cost_usd" (float c.training_cost_usd) (
                          field "trained_at" (text c.trained_at) (
                            field "evidence_ids" (array (of_texts c.evidence_ids))
                              (field "metadata" (object c.metadata) end)))))))))))))

  -- `_content_id`
  unfoldable pub content_id : String → Fields P → String
  unfolding take_text
  content_id prefix payload =
      append prefix (append "-" (take_text 24 (P.sha256 (canonical_json payload))))

  unfoldable pub check_candidate : ModelCandidateArtifact P → Outcome (ModelCandidateArtifact P)
  unfolding candidate_payload content_id
  check_candidate c = do
    checkpoint_id ← validate_id c.checkpoint_id
    request_id ← validate_id c.request_id
    run_id ← validate_id c.run_id
    model_id ← validate_id c.model_id
    parent ← validate_id c.parent_checkpoint_id
    dataset_id ← validate_id c.dataset_id
    raise_if (str_eq c.checkpoint_id c.parent_checkpoint_id) model_contract
    dataset_sha256 ← validate_sha256 (some c.dataset_sha256)
    artifact_path ← validate_text c.artifact_path
    artifact_sha256 ← validate_sha256 (some c.artifact_sha256)
    loss ← validate_finite_number P c.training_loss
    raise_if (P.less c.training_loss P.zero_float) model_contract
    cost ← validate_nonnegative_number P c.training_cost_usd
    trained_at ← normalize_timestamp P c.trained_at
    evidence_ids ← validate_id_tuple c.evidence_ids
    raise_if (is_empty evidence_ids) model_contract
    metadata ← safe c.metadata
    let checked : ModelCandidateArtifact P = record c {
      trained_at = trained_at;
      metadata = metadata;
    } in
        raise_if
          (not (
            str_eq checked.checkpoint_id
              (content_id "model-candidate" (candidate_payload checked))))
          model_contract
        >> ok checked

  -- the loop over `task_family_scores`
  abbrev check_family_scores : List (String × P.Float) → Outcome (Unit {0})
  check_family_scores [] = ok tt
  check_family_scores ((family, score) ∷ scores) = do
    family_id ← validate_id family
    number ← validate_finite_number P score
    raise_if (outside_unit P score) model_contract
    check_family_scores scores

  unfoldable pub check_observation :
      ModelBenchmarkObservation P → Outcome (ModelBenchmarkObservation P)
  unfolding check_texts
  check_observation b = do
    run_id ← validate_id b.run_id
    checkpoint_id ← validate_id b.checkpoint_id
    parent ← validate_id b.parent_checkpoint_id
    endpoint ← validate_text b.endpoint
    benchmark_id ← validate_id b.benchmark_id
    score ← validate_finite_number P b.score
    raise_if (outside_unit P b.score) model_contract
    check_family_scores b.task_family_scores
    uris ← check_texts b.failure_trace_uris
    cost ← validate_nonnegative_number P b.evaluation_cost_usd
    evaluated_at ← normalize_timestamp P b.evaluated_at
    evidence_ids ← validate_id_tuple b.evidence_ids
    raise_if (is_empty evidence_ids) model_contract
    metadata ← safe b.metadata
    ok (record b { evaluated_at = evaluated_at; metadata = metadata })

module _ (P : Platform) where
  unfoldable pub check_model_review : ModelReviewObservation → Outcome ModelReviewObservation
  check_model_review r = do
    request_id ← validate_id r.request_id
    checkpoint_id ← validate_id r.checkpoint_id
    reviewer_id ← validate_id r.reviewer_id
    role ← validate_id r.reviewer_role
    decided_at ← normalize_timestamp P r.decided_at
    evidence_ids ← validate_id_tuple r.evidence_ids
    raise_if (is_empty evidence_ids) model_contract
    ok (record r { decided_at = decided_at })

  unfoldable pub check_promotion :
      ModelPromotionCommitObservation P → Outcome (ModelPromotionCommitObservation P)
  check_promotion p = do
    checkpoint_id ← validate_id p.checkpoint_id
    previous ← validate_id p.previous_checkpoint_id
    raise_if (str_eq p.checkpoint_id p.previous_checkpoint_id) model_contract
    score ← validate_finite_number P p.score
    digest ← validate_sha256 (some p.checkpoint_bundle_sha256)
    committed_at ← normalize_timestamp P p.committed_at
    evidence_ids ← validate_id_tuple p.evidence_ids
    raise_if (is_empty evidence_ids) model_contract
    ok (record p { committed_at = committed_at })

  unfoldable pub check_rollback :
      ModelRollbackCommitObservation → Outcome ModelRollbackCommitObservation
  check_rollback r = do
    rejected ← validate_id r.rejected_checkpoint_id
    active ← validate_id r.active_checkpoint_id
    raise_if (str_eq r.rejected_checkpoint_id r.active_checkpoint_id) model_contract
    completed_at ← normalize_timestamp P r.completed_at
    evidence_ids ← validate_id_tuple r.evidence_ids
    raise_if (is_empty evidence_ids) model_contract
    ok (record r { completed_at = completed_at })
