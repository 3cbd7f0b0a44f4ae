-- ===== src/ControlPlane/Encoding.antt =====
-- What the `to_dict` methods of control_plane/records.py write for a field.
use post_training_rsi_pipeli.Prelude.{String, List, [], ◌∷◌, Option, none, some}
use post_training_rsi_pipeli.Platform.{Platform}
use post_training_rsi_pipeli.ControlPlane.Value.{Value, null, float, text, Items, nil, cons}

-- CONTROL_SCHEMA_VERSION
abbrev pub control_schema_version : String
control_schema_version = "post-training-rsi.control/v1"

module _ {P : Platform} where
  -- `list(values)`
  abbrev pub of_texts : List String → Items P
  of_texts [] = nil
  of_texts (s ∷ ss) = cons (text s) (of_texts ss)

  abbrev pub of_optional_text : Option String → Value P
  of_optional_text none = null
  of_optional_text (some s) = text s

  abbrev pub of_optional_float : Option P.Float → Value P
  of_optional_float none = null
  of_optional_float (some x) = float x

  -- `member.value if member else None`
  abbrev pub of_optional_enum : {A : Type 0} → (A → String) → Option A → Value P
  of_optional_enum value none = null
  of_optional_enum value (some m) = text (value m)
