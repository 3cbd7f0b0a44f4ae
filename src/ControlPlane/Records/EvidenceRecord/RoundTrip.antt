-- ===== src/ControlPlane/Records/EvidenceRecord/RoundTrip.antt =====
-- `to_dict` and `from_dict` of `EvidenceRecord` undo each other on checked records.
use post_training_rsi_pipeli.Prelude.{ok, ◌>>=◌, ◌≡◌, arith}
use post_training_rsi_pipeli.Platform.{Platform}
use post_training_rsi_pipeli.ControlPlane.Enums.EvidenceKind
use post_training_rsi_pipeli.ControlPlane.Value.{normalize_json_object}
use post_training_rsi_pipeli.ControlPlane.Validation.{validate_nonnegative_int}
use post_training_rsi_pipeli.ControlPlane.Reading.{
  as_text, as_int, as_float, as_json_object, as_texts, optional_enum, optional_float, optional_str,
  required_enum, required_float, required_id_tuple, required_int, required_json_object,
  required_str, validated_record_mapping,
}
use post_training_rsi_pipeli.ControlPlane.Reading.Laws.{reading_laws, as_member-value}
use post_training_rsi_pipeli.ControlPlane.Records.EvidenceRecord.{
  EvidenceRecord, post_init, to_dict, from_dict,
}

module _ (P : Platform) where
  -- A checked record has normal metadata.
  metadata_normal :
      (d : EvidenceRecord P)
      → post_init P d ≡ ok d
      → normalize_json_object P d.metadata ≡ ok d.metadata
  unfolding post_init
  metadata_normal d h = ground arith

  -- A `EvidenceRecord` that `__post_init__` accepts and leaves as it is comes back from its dict.
  pub from_dict-to_dict_evidence :
      (d : EvidenceRecord P) → post_init P d ≡ ok d → (to_dict P d >>= from_dict P) ≡ ok d
  unfolding to_dict validated_record_mapping required_str required_int validate_nonnegative_int
      optional_str required_float optional_float required_enum optional_enum required_id_tuple
      required_json_object as_text as_int as_float as_json_object as_texts
  from_dict-to_dict_evidence d h = rw (metadata_normal d h) (
      unfold from_dict in
      simp
        (
          metadata_normal d h,
          reading_laws,
          as_member-value EvidenceKind.value EvidenceKind.of_value EvidenceKind.of_value-value,
        )
        h)
