-- ===== src/Harness/Metadata/Tests.antt =====
-- Metadata that is accepted, and metadata that is not.
use post_training_rsi_pipeli.Prelude.{String, ok, raise, model_contract, ◌≡◌, ◌↔◌, refl}
use post_training_rsi_pipeli.Platform.Fixed.{fixed}
use post_training_rsi_pipeli.ControlPlane.Text.{lower, between}
use post_training_rsi_pipeli.ControlPlane.Value.{
  Fields, object, array, text, nil, cons, end, field, normalize_json_object, insert_field,
}
use post_training_rsi_pipeli.Harness.Inner.Contracts.{forbidden_metadata_keys}
use post_training_rsi_pipeli.Harness.Metadata.{
  underscored, is_forbidden, reject_forbidden, safe_metadata,
}
use post_training_rsi_pipeli.Harness.Metadata.Clean.{AreClean, safe_metadata_exact}

abbrev nested : String → Fields fixed
nested key = field "sources" (array (cons (object (field key (text "x") end)) nil)) end

hidden_key :
    safe_metadata fixed lower forbidden_metadata_keys model_contract (nested "API-Key")
    ≡ raise model_contract
unfolding safe_metadata reject_forbidden is_forbidden underscored lower between
    normalize_json_object insert_field
hidden_key = refl

safe_metadata_exact_example :
    (safe_metadata fixed lower forbidden_metadata_keys model_contract (nested "Name")
      ≡ ok (nested "Name"))
    ↔ ((normalize_json_object fixed (nested "Name") ≡ ok (nested "Name"))
        × AreClean fixed lower forbidden_metadata_keys (nested "Name"))
safe_metadata_exact_example =
    safe_metadata_exact fixed lower forbidden_metadata_keys model_contract (nested "Name")
      (nested "Name")
