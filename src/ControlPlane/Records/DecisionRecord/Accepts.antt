-- ===== src/ControlPlane/Records/DecisionRecord/Accepts.antt =====
-- The checks of `__post_init__` of `DecisionRecord`, and that a record which passes them is accepted.
use post_training_rsi_pipeli.Prelude.{ok, false, is_empty, ◌≡◌, arith}
use post_training_rsi_pipeli.Platform.{Platform}
use post_training_rsi_pipeli.ControlPlane.Validation.{validate_id, validate_id_tuple, validate_text}
use post_training_rsi_pipeli.ControlPlane.Records.DecisionRecord.{
  DecisionRecord, post_init, stop_mismatch,
}
use post_training_rsi_pipeli.ControlPlane.Records.DecisionRecord.Kept.{Normalised}

module _ (P : Platform) where
  pub record Acceptable (d : DecisionRecord P) : Type 0 where
    pub decision_id_ok : validate_id d.decision_id ≡ ok d.decision_id
    pub run_id_ok : validate_id d.run_id ≡ ok d.run_id
    pub subject_id_ok : validate_id d.subject_id ≡ ok d.subject_id
    pub reason_code_ok : validate_id d.reason_code ≡ ok d.reason_code
    pub reason_ok : validate_text d.reason ≡ ok d.reason
    pub evidence_ids_ok : validate_id_tuple d.evidence_ids ≡ ok d.evidence_ids
    pub has_evidence : is_empty d.evidence_ids ≡ false
    pub stop_fits : stop_mismatch d.action d.stop_reason ≡ false

  pub Acceptable-post_init :
      (d d' : DecisionRecord P) → Acceptable d → Normalised P d d' → post_init P d ≡ ok d'
  unfolding post_init
  Acceptable-post_init d d' a n = ground (arith, a, n)
