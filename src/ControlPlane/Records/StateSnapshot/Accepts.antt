-- ===== src/ControlPlane/Records/StateSnapshot/Accepts.antt =====
-- The checks of `__post_init__` of `StateSnapshot`, and the records that pass them.
use post_training_rsi_pipeli.Prelude.{ok, false, ◌≡◌, ◌↔◌, arith}
use post_training_rsi_pipeli.Platform.{Platform}
use post_training_rsi_pipeli.ControlPlane.Validation.{
  validate_id, validate_id_tuple, validate_nonnegative_number, validate_optional_id,
  validate_optional_number,
}
use post_training_rsi_pipeli.ControlPlane.Validation.Laws.{
  validate_id-Checked, validate_id_tuple-Checked, validate_nonnegative_number-Checked,
  validate_optional_id-Checked, validate_optional_number-Checked,
}
use post_training_rsi_pipeli.ControlPlane.Records.StateSnapshot.{
  StateSnapshot, post_init, stop_mismatch,
}
use post_training_rsi_pipeli.ControlPlane.Records.StateSnapshot.Kept.{
  Normalised, post_init-Normalised,
}

module _ (P : Platform) where
  pub record Acceptable (d : StateSnapshot P) : Type 0 where
    pub snapshot_id_ok : validate_id d.snapshot_id ≡ ok d.snapshot_id
    pub run_id_ok : validate_id d.run_id ≡ ok d.run_id
    pub active_checkpoint_id_ok :
        validate_optional_id d.active_checkpoint_id ≡ ok d.active_checkpoint_id
    pub candidate_checkpoint_id_ok :
        validate_optional_id d.candidate_checkpoint_id ≡ ok d.candidate_checkpoint_id
    pub peak_checkpoint_id_ok : validate_optional_id d.peak_checkpoint_id ≡ ok d.peak_checkpoint_id
    pub active_harness_id_ok : validate_optional_id d.active_harness_id ≡ ok d.active_harness_id
    pub candidate_harness_id_ok :
        validate_optional_id d.candidate_harness_id ≡ ok d.candidate_harness_id
    pub candidate_score_ok : validate_optional_number P d.candidate_score ≡ ok d.candidate_score
    pub peak_score_ok : validate_optional_number P d.peak_score ≡ ok d.peak_score
    pub total_cost_usd_ok : validate_nonnegative_number P d.total_cost_usd ≡ ok d.total_cost_usd
    pub evidence_ids_ok : validate_id_tuple d.evidence_ids ≡ ok d.evidence_ids
    pub stop_fits : stop_mismatch d.state d.stop_reason ≡ false

  post_init-Acceptable : (d d' : StateSnapshot P) → post_init P d ≡ ok d' → Acceptable d
  unfolding post_init
  post_init-Acceptable d d' h = ground (
    arith,
    validate_id-Checked d.snapshot_id,
    validate_id-Checked d.run_id,
    validate_optional_id-Checked d.active_checkpoint_id,
    validate_optional_id-Checked d.candidate_checkpoint_id,
    validate_optional_id-Checked d.peak_checkpoint_id,
    validate_optional_id-Checked d.active_harness_id,
    validate_optional_id-Checked d.candidate_harness_id,
    validate_optional_number-Checked P d.candidate_score,
    validate_optional_number-Checked P d.peak_score,
    validate_nonnegative_number-Checked P d.total_cost_usd,
    validate_id_tuple-Checked d.evidence_ids,
  )

  pub Acceptable-post_init :
      (d d' : StateSnapshot P) → Acceptable d → Normalised P d d' → post_init P d ≡ ok d'
  unfolding post_init
  Acceptable-post_init d d' a n = ground (arith, a, n)

  -- Acceptance is every check, with the timestamp and the metadata normalised.
  pub post_init_exact_snapshot :
      (d d' : StateSnapshot P) → (post_init P d ≡ ok d') ↔ (Acceptable d × Normalised P d d')
  post_init_exact_snapshot d d' = (
    (λ h. (post_init-Acceptable d d' h, post_init-Normalised P d d' h)),
    (λ r. Acceptable-post_init d d' r.0 r.1),
  )
