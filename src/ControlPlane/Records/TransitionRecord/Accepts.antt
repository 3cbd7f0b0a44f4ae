-- ===== src/ControlPlane/Records/TransitionRecord/Accepts.antt =====
-- The checks of `__post_init__` of `TransitionRecord`, and that a record which passes them is accepted.
use post_training_rsi_pipeli.Prelude.{ok, false, is_empty, ◌≡◌, arith}
use post_training_rsi_pipeli.Platform.{Platform}
use post_training_rsi_pipeli.ControlPlane.Validation.{
  validate_id, validate_id_tuple, validate_optional_id,
}
use post_training_rsi_pipeli.ControlPlane.Records.TransitionRecord.{
  TransitionRecord, post_init, start_mismatch,
}
use post_training_rsi_pipeli.ControlPlane.Records.TransitionRecord.Kept.{Normalised}

module _ (P : Platform) where
  pub record Acceptable (d : TransitionRecord P) : Type 0 where
    pub transition_id_ok : validate_id d.transition_id ≡ ok d.transition_id
    pub run_id_ok : validate_id d.run_id ≡ ok d.run_id
    pub idempotency_key_ok : validate_id d.idempotency_key ≡ ok d.idempotency_key
    pub decision_id_ok : validate_optional_id d.decision_id ≡ ok d.decision_id
    pub evidence_ids_ok : validate_id_tuple d.evidence_ids ≡ ok d.evidence_ids
    pub has_evidence : is_empty d.evidence_ids ≡ false
    pub start_fits : start_mismatch d.from_state d.event ≡ false

  pub Acceptable-post_init :
      (d d' : TransitionRecord P) → Acceptable d → Normalised P d d' → post_init P d ≡ ok d'
  unfolding post_init
  Acceptable-post_init d d' a n = ground (arith, a, n)
