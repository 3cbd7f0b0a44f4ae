-- ===== src/ControlPlane/Dict.antt =====
-- The operations on a `dict` that the policies of harness/ use on their metadata.
pub mod Laws
use post_training_rsi_pipeli.Prelude.{String, str_eq, if◌then◌else◌}
use post_training_rsi_pipeli.Platform.{Platform}
use post_training_rsi_pipeli.ControlPlane.Value.{Value, Fields, end, field}

module _ {P : Platform} where
  -- `fields[key] = value`: in place if the key is there, and at the end if it is not
  abbrev pub set_field : String → Value P → Fields P → Fields P
  set_field key value end = field key value end
  set_field key value (field k v fs) =
      if str_eq k key then field k value fs else field k v (set_field key value fs)

  -- `base.update(other)`, and `{**base, **other}`
  abbrev pub update : Fields P → Fields P → Fields P
  update base end = base
  update base (field k v other) = update (set_field k v base) other
