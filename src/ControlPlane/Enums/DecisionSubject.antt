-- ===== src/ControlPlane/Enums/DecisionSubject.antt =====
-- `DecisionSubject` of control_plane/enums.py: what a decision is about.
use post_training_rsi_pipeli.Prelude.{String, List, [], ◌∷◌, ◌≡◌, refl, Option, some}
use post_training_rsi_pipeli.ControlPlane.Enums.Lookup.{find_member}

pub data DecisionSubject : Type 0 where
  run dataset checkpoint harness trace_batch serving_endpoint : DecisionSubject

-- the member's text, `member.value`
unfoldable pub value : DecisionSubject → String
value run = "RUN"
value dataset = "DATASET"
value checkpoint = "CHECKPOINT"
value harness = "HARNESS"
value trace_batch = "TRACE_BATCH"
value serving_endpoint = "SERVING_ENDPOINT"

-- the members in declaration order
abbrev pub members : List DecisionSubject
members = run ∷ dataset ∷ checkpoint ∷ harness ∷ trace_batch ∷ serving_endpoint ∷ []

-- `DecisionSubject(text)`; `none` is its ValueError
unfoldable pub of_value : String → Option DecisionSubject
unfolding find_member value
of_value text = find_member value text members

-- The text of a member is read back as that member.
pub of_value-value : (m : DecisionSubject) → of_value (value m) ≡ some m
unfolding of_value
of_value-value run = refl
of_value-value _ = refl
