-- ===== src/ControlPlane/Records/EvidenceRecord.antt =====
-- `EvidenceRecord` of control_plane/records.py. Counters are numbers that are not negative, so the test of
-- `validate_nonnegative_int` stands in `from_dict`, before one is made.
pub mod RoundTrip
use post_training_rsi_pipeli.Prelude.{List, Option, Outcome, String, [], ok, pos, ℕ, ◌>>=◌, ◌∷◌}
use post_training_rsi_pipeli.Platform.{Platform}
use post_training_rsi_pipeli.ControlPlane.Enums.EvidenceKind
use post_training_rsi_pipeli.ControlPlane.Enums.EvidenceKind.{EvidenceKind}
use post_training_rsi_pipeli.ControlPlane.Value.{
  Fields, end, field, int, normalize_json_object, object, text,
}
use post_training_rsi_pipeli.ControlPlane.Validation.{
  normalize_timestamp, validate_id, validate_nonnegative_int, validate_sha256, validate_text,
}
use post_training_rsi_pipeli.ControlPlane.Reading.{
  optional_str, required_enum, required_int, required_json_object, required_str,
  validated_record_mapping,
}
use post_training_rsi_pipeli.ControlPlane.Encoding.{control_schema_version, of_optional_text}

pub record EvidenceRecord (P : Platform) : Type 0 where
  pub evidence_id : String
  pub run_id : String
  pub iteration : ℕ
  pub kind : EvidenceKind
  pub producer : String
  pub uri : String
  pub created_at : String
  pub sha256 : Option String
  pub metadata : Fields P

-- _EVIDENCE_FIELDS
abbrev field_names : List String
field_names =
    "schema_version" ∷ "record_type" ∷ "evidence_id" ∷ "run_id" ∷ "iteration" ∷ "kind" ∷ "producer"
    ∷ "uri" ∷ "created_at" ∷ "sha256" ∷ "metadata" ∷ []

module _ (P : Platform) where
  -- `__post_init__`: the checked and normalised record
  unfoldable pub post_init : EvidenceRecord P → Outcome (EvidenceRecord P)
  post_init d = do
    checked_evidence_id ← validate_id d.evidence_id
    checked_run_id ← validate_id d.run_id
    checked_producer ← validate_id d.producer
    checked_uri ← validate_text d.uri
    checked_created_at ← normalize_timestamp P d.created_at
    checked_sha256 ← validate_sha256 d.sha256
    checked_metadata ← normalize_json_object P d.metadata
    ok (record d {
      evidence_id = checked_evidence_id;
      run_id = checked_run_id;
      producer = checked_producer;
      uri = checked_uri;
      created_at = checked_created_at;
      sha256 = checked_sha256;
      metadata = checked_metadata;
    })

  unfoldable pub to_dict : EvidenceRecord P → Outcome (Fields P)
  to_dict d = do
    metadata ← normalize_json_object P d.metadata
    ok (
        field "schema_version" (text control_schema_version) (
          field "record_type" (text "evidence") (
            field "evidence_id" (text d.evidence_id) (
              field "run_id" (text d.run_id) (
                field "iteration" (int (pos d.iteration)) (
                  field "kind" (text (EvidenceKind.value d.kind)) (
                    field "producer" (text d.producer) (
                      field "uri" (text d.uri) (
                        field "created_at" (text d.created_at) (
                          field "sha256" (of_optional_text d.sha256)
                            (field "metadata" (object metadata) end)))))))))))

  unfoldable pub from_dict : Fields P → Outcome (EvidenceRecord P)
  from_dict value = do
    entries ← validated_record_mapping value "evidence" field_names control_schema_version
    evidence_id ← required_str entries "evidence_id"
    run_id ← required_str entries "run_id"
    raw_iteration ← required_int entries "iteration"
    kind ← required_enum entries "kind" EvidenceKind.of_value
    producer ← required_str entries "producer"
    uri ← required_str entries "uri"
    created_at ← required_str entries "created_at"
    sha256 ← optional_str entries "sha256"
    metadata ← required_json_object entries "metadata"
    iteration ← validate_nonnegative_int raw_iteration
    post_init (record {
      evidence_id = evidence_id;
      run_id = run_id;
      iteration = iteration;
      kind = kind;
      producer = producer;
      uri = uri;
      created_at = created_at;
      sha256 = sha256;
      metadata = metadata;
    })
