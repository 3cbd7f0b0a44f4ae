-- ===== src/ControlPlane/Records/DecisionRecord/RoundTrip.antt =====
-- `to_dict` and `from_dict` of `DecisionRecord` undo each other on checked records.
use post_training_rsi_pipeli.Prelude.{ok, ◌>>=◌, ◌≡◌, arith}
use post_training_rsi_pipeli.Platform.{Platform}
use post_training_rsi_pipeli.ControlPlane.Enums.DecisionSubject
use post_training_rsi_pipeli.ControlPlane.Enums.DecisionAction
use post_training_rsi_pipeli.ControlPlane.Enums.StopReason
use post_training_rsi_pipeli.ControlPlane.Value.{normalize_json_object}
use post_training_rsi_pipeli.ControlPlane.Validation.{validate_nonnegative_int}
use post_training_rsi_pipeli.ControlPlane.Reading.{
  as_text, as_int, as_float, as_json_object, as_texts, optional_enum, optional_float, optional_str,
  required_enum, required_float, required_id_tuple, required_int, required_json_object,
  required_str, validated_record_mapping,
}
use post_training_rsi_pipeli.ControlPlane.Reading.Laws.{
  reading_laws, as_member-value, optional_member-of,
}
use post_training_rsi_pipeli.ControlPlane.Records.DecisionRecord.{
  DecisionRecord, post_init, to_dict, from_dict,
}

module _ (P : Platform) where
  -- A checked record has normal metadata.
  metadata_normal :
      (d : DecisionRecord P)
      → post_init P d ≡ ok d
      → normalize_json_object P d.metadata ≡ ok d.metadata
  unfolding post_init
  metadata_normal d h = ground arith

  -- A `DecisionRecord` that `__post_init__` accepts and leaves as it is comes back from its dict.
  pub from_dict-to_dict_decision :
      (d : DecisionRecord P) → post_init P d ≡ ok d → (to_dict P d >>= from_dict P) ≡ ok d
  unfolding to_dict validated_record_mapping required_str required_int validate_nonnegative_int
      optional_str required_float optional_float required_enum optional_enum required_id_tuple
      required_json_object as_text as_int as_float as_json_object as_texts
  from_dict-to_dict_decision d h = rw (metadata_normal d h) (
      unfold from_dict in
      simp
        (
          metadata_normal d h,
          reading_laws,
          as_member-value DecisionSubject.value DecisionSubject.of_value
              DecisionSubject.of_value-value,
          as_member-value DecisionAction.value DecisionAction.of_value
              DecisionAction.of_value-value,
          optional_member-of StopReason.value StopReason.of_value StopReason.of_value-value P,
        )
        h)
