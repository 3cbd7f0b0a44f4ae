-- ===== src/ControlPlane/Records/StateSnapshot/Kept.antt =====
-- What `__post_init__` of `StateSnapshot` changes: the timestamp and the metadata, nothing else.
use post_training_rsi_pipeli.Prelude.{String, ok, ◌≡◌, inl, inr, arith, Outcome-cases}
use post_training_rsi_pipeli.Platform.{Platform}
use post_training_rsi_pipeli.ControlPlane.Value.{Fields, normalize_json_object}
use post_training_rsi_pipeli.ControlPlane.Validation.{normalize_timestamp}
use post_training_rsi_pipeli.ControlPlane.Validation.Laws.{
  validate_id-Checked, validate_optional_id-Checked, validate_id_tuple-Checked,
  validate_optional_number-Checked, validate_nonnegative_number-Checked,
}
use post_training_rsi_pipeli.ControlPlane.Records.StateSnapshot.{StateSnapshot, post_init}

module _ (P : Platform) where
  pub record Normalised (d d' : StateSnapshot P) : Type 0 where
    pub timestamp : String
    pub fields : Fields P
    pub of_timestamp : normalize_timestamp P d.entered_at ≡ ok timestamp
    pub of_fields : normalize_json_object P d.metadata ≡ ok fields
    pub same : d' ≡ record d { entered_at = timestamp; metadata = fields }

  pub post_init-Normalised : (d d' : StateSnapshot P) → post_init P d ≡ ok d' → Normalised d d'
  unfolding post_init
  post_init-Normalised d d' h = elim (Outcome-cases (normalize_timestamp P d.entered_at)) [
    | inl (t, et) ↦ elim (Outcome-cases (normalize_json_object P d.metadata)) [
      | inl (m, em) ↦ record {
        timestamp = t;
        fields = m;
        of_timestamp = et;
        of_fields = em;
        same = ground (
          arith,
          validate_id-Checked d.snapshot_id,
          validate_id-Checked d.run_id,
          validate_optional_id-Checked d.active_checkpoint_id,
          validate_optional_id-Checked d.candidate_checkpoint_id,
          validate_optional_id-Checked d.peak_checkpoint_id,
          validate_optional_id-Checked d.active_harness_id,
          validate_optional_id-Checked d.candidate_harness_id,
          validate_optional_number-Checked P d.candidate_score,
          validate_optional_number-Checked P d.peak_score,
          validate_nonnegative_number-Checked P d.total_cost_usd,
          validate_id_tuple-Checked d.evidence_ids,
        );
      }
      | inr (e, em) ↦ absurd (ground arith)
    ]
    | inr (e, et) ↦ absurd (ground arith)
  ]
