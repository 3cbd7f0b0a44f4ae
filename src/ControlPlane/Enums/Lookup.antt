-- ===== src/ControlPlane/Enums/Lookup.antt =====
-- Looking a member of a `StrEnum` up by its text.
use post_training_rsi_pipeli.Prelude.{
  String, List, [], ◌∷◌, Option, none, some, str_eq, if◌then◌else◌,
}

unfoldable pub find_member : {A : Type 0} → (A → String) → String → List A → Option A
find_member value text [] = none
find_member value text (m ∷ ms) =
    if str_eq (value m) text then some m else find_member value text ms
