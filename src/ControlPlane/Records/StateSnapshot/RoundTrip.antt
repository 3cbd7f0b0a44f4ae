-- ===== src/ControlPlane/Records/StateSnapshot/RoundTrip.antt =====
-- `to_dict` and `from_dict` of `StateSnapshot` undo each other on checked records.
use post_training_rsi_pipeli.Prelude.{ok, ◌>>=◌, ◌≡◌, arith, ap}
use post_training_rsi_pipeli.Platform.{Platform}
use post_training_rsi_pipeli.ControlPlane.Enums.ControlState
use post_training_rsi_pipeli.ControlPlane.Enums.StopReason
use post_training_rsi_pipeli.ControlPlane.Value.{normalize_json_object}
use post_training_rsi_pipeli.ControlPlane.Validation.{validate_nonnegative_int}
use post_training_rsi_pipeli.ControlPlane.Reading.{
  as_text, as_int, as_float, as_json_object, as_texts, optional_enum, optional_float, optional_str,
  required_enum, required_float, required_id_tuple, required_int, required_json_object,
  required_str, validated_record_mapping,
}
use post_training_rsi_pipeli.ControlPlane.Reading.Laws.{
  reading_laws, as_member-value, optional_member-of,
}
use post_training_rsi_pipeli.ControlPlane.Records.StateSnapshot.{
  StateSnapshot, post_init, to_dict, from_dict,
}
use post_training_rsi_pipeli.ControlPlane.Records.StateSnapshot.Accepts.{
  post_init_exact_snapshot, Acceptable-post_init,
}

module _ (P : Platform) where
  -- A checked record has normal metadata.
  metadata_normal :
      (d : StateSnapshot P)
      → post_init P d ≡ ok d
      → normalize_json_object P d.metadata ≡ ok d.metadata
  unfolding post_init
  metadata_normal d h = ground arith

  -- `__post_init__` does not look at `plateau_count`.
  post_init-plateau_count :
      (d : StateSnapshot P)
      → post_init P d ≡ ok d
      → post_init P (record d { plateau_count = 0 }) ≡ ok (record d { plateau_count = 0 })
  post_init-plateau_count d h =
      let (a, n) = (post_init_exact_snapshot P d d).0 h in
      Acceptable-post_init P (record d { plateau_count = 0 }) (record d { plateau_count = 0 })
        (record {
          snapshot_id_ok = a.snapshot_id_ok;
          run_id_ok = a.run_id_ok;
          active_checkpoint_id_ok = a.active_checkpoint_id_ok;
          candidate_checkpoint_id_ok = a.candidate_checkpoint_id_ok;
          peak_checkpoint_id_ok = a.peak_checkpoint_id_ok;
          active_harness_id_ok = a.active_harness_id_ok;
          candidate_harness_id_ok = a.candidate_harness_id_ok;
          candidate_score_ok = a.candidate_score_ok;
          peak_score_ok = a.peak_score_ok;
          total_cost_usd_ok = a.total_cost_usd_ok;
          evidence_ids_ok = a.evidence_ids_ok;
          stop_fits = a.stop_fits;
        })
        (record {
          timestamp = n.timestamp;
          fields = n.fields;
          of_timestamp = n.of_timestamp;
          of_fields = n.of_fields;
          same = ap {A = StateSnapshot P} (λ x. record x { plateau_count = 0 }) n.same;
        })

  -- A `StateSnapshot` that `__post_init__` accepts and leaves as it is comes back from its dict.
  pub from_dict-to_dict_snapshot :
      (d : StateSnapshot P) → post_init P d ≡ ok d → (to_dict P d >>= from_dict P) ≡ ok d
  unfolding to_dict validated_record_mapping required_str required_int validate_nonnegative_int
      optional_str required_float optional_float required_enum optional_enum required_id_tuple
      required_json_object as_text as_int as_float as_json_object as_texts
  from_dict-to_dict_snapshot d h = rw (metadata_normal d h) (
      unfold from_dict in
      simp (
        metadata_normal d h,
        reading_laws,
        as_member-value ControlState.value ControlState.of_value ControlState.of_value-value,
        optional_member-of StopReason.value StopReason.of_value StopReason.of_value-value P,
        post_init-plateau_count d h,
      ))
