-- ===== src/Lineage/PeakPointer/RoundTrip.antt =====
-- `to_dict`, sorted keys and `from_dict` of `PeakPointer` undo each other on checked pointers.
use post_training_rsi_pipeli.Prelude.{String, Option, none, some, refl, ok, ◌>>=◌, ◌≡◌, true, arith}
use post_training_rsi_pipeli.Platform.{Platform}
use post_training_rsi_pipeli.ControlPlane.Value.{
  Fields, normalize_json_object, normalize_json_value,
}
use post_training_rsi_pipeli.ControlPlane.Encoding.{of_optional_text}
use post_training_rsi_pipeli.ControlPlane.Validation.{
  validate_nonnegative_int, validate_finite_number,
}
use post_training_rsi_pipeli.ControlPlane.Validation.Laws.{
  validate_id-Checked, validate_optional_id-Checked,
}
use post_training_rsi_pipeli.ControlPlane.Reading.{
  as_text, as_int, as_float, optional_str, required_float, required_int, required_str,
  validated_record_mapping,
}
use post_training_rsi_pipeli.ControlPlane.Reading.Laws.{reading_laws}
use post_training_rsi_pipeli.ControlPlane.Value.Canonical.{
  is_canonical, is_dict, is_dict_value, normalize_json_object-canonical,
}
use post_training_rsi_pipeli.Lineage.PeakPointer.{
  PeakPointer, check_names, post_init, to_dict, from_dict,
}

module _ (P : Platform) where
  pub post_init-score : (d : PeakPointer P) → post_init P d ≡ ok d → P.is_finite d.score ≡ true
  unfolding post_init validate_finite_number
  post_init-score d h = ground arith

  normalize-of_optional_text :
      (o : Option String) → normalize_json_value P (of_optional_text o) ≡ ok (of_optional_text o)
  unfolding normalize_json_value
  normalize-of_optional_text none = refl
  normalize-of_optional_text (some s) = refl

  -- the names of a checked pointer pass their tests
  names_checked :
      (d : PeakPointer P)
      → post_init P d ≡ ok d
      → check_names d.run_id d.checkpoint_id d.previous_checkpoint_id ≡ ok tt
  unfolding post_init
  names_checked d h = ground (
    arith,
    validate_id-Checked d.run_id,
    validate_id-Checked d.checkpoint_id,
    validate_optional_id-Checked d.previous_checkpoint_id,
  )

  of_optional_text-is_dict : (o : Option String) → is_dict_value P (of_optional_text o) ≡ true
  unfolding is_dict_value
  of_optional_text-is_dict none = refl
  of_optional_text-is_dict (some s) = refl

  to_dict-is_dict : (d : PeakPointer P) → is_dict P (to_dict P d) ≡ true
  unfolding to_dict is_dict is_dict_value
  to_dict-is_dict d = rw (of_optional_text-is_dict d.previous_checkpoint_id)

  -- What is written for a pointer is an object that JSON has as it is.
  pub to_dict-canonical :
      (d : PeakPointer P) (value : Fields P)
      → normalize_json_object P (to_dict P d) ≡ ok value
      → is_canonical P value ≡ true
  to_dict-canonical d value h =
      (normalize_json_object-canonical P (to_dict P d) value (to_dict-is_dict d) h).0

  -- A pointer that `__post_init__` accepts and leaves as it is comes back from its dict, and from
  -- its dict with the keys sorted.
  pub from_dict-to_dict_pointer :
      (d : PeakPointer P)
      → post_init P d ≡ ok d
      → (from_dict P (to_dict P d) ≡ ok d)
        × ((normalize_json_object P (to_dict P d) >>= from_dict P) ≡ ok d)
  unfolding to_dict normalize_json_object validated_record_mapping required_str required_int
      validate_nonnegative_int optional_str required_float as_text as_int as_float
  from_dict-to_dict_pointer d h = (
    unfold from_dict in simp (reading_laws, names_checked d h) h,
    rw (post_init-score d h, normalize-of_optional_text d.previous_checkpoint_id)
        (unfold from_dict in simp (reading_laws, names_checked d h) h),
  )
