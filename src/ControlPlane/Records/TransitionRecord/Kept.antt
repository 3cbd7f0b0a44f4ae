-- ===== src/ControlPlane/Records/TransitionRecord/Kept.antt =====
-- What `__post_init__` of `TransitionRecord` changes: the timestamp and the metadata, nothing else.
use post_training_rsi_pipeli.Prelude.{String, ok, ◌≡◌, inl, inr, arith, Outcome-cases}
use post_training_rsi_pipeli.Platform.{Platform}
use post_training_rsi_pipeli.ControlPlane.Value.{Fields, normalize_json_object}
use post_training_rsi_pipeli.ControlPlane.Validation.{
  normalize_timestamp, validate_id, validate_optional_id, validate_id_tuple, validate_text,
  validate_sha256, validate_optional_number, validate_nonnegative_number, validate_finite_number,
}
use post_training_rsi_pipeli.ControlPlane.Records.TransitionRecord.{TransitionRecord, post_init}

module _ (P : Platform) where
  pub record Normalised (d d' : TransitionRecord P) : Type 0 where
    pub timestamp : String
    pub fields : Fields P
    pub of_timestamp : normalize_timestamp P d.occurred_at ≡ ok timestamp
    pub of_fields : normalize_json_object P d.metadata ≡ ok fields
    pub same : d' ≡ record d { occurred_at = timestamp; metadata = fields }

  pub post_init-Normalised : (d d' : TransitionRecord P) → post_init P d ≡ ok d' → Normalised d d'
  unfolding post_init validate_id validate_optional_id validate_id_tuple validate_text
      validate_sha256 validate_optional_number validate_nonnegative_number validate_finite_number
  post_init-Normalised d d' h = elim (Outcome-cases (normalize_timestamp P d.occurred_at)) [
    | inl (t, et) ↦ elim (Outcome-cases (normalize_json_object P d.metadata)) [
      | inl (m, em) ↦ record {
        timestamp = t;
        fields = m;
        of_timestamp = et;
        of_fields = em;
        same = ground arith;
      }
      | inr (e, em) ↦ absurd (ground arith)
    ]
    | inr (e, et) ↦ absurd (ground arith)
  ]
