-- ===== src/ControlPlane/Enums/DecisionAction.antt =====
-- `DecisionAction` of control_plane/enums.py: the actions of a policy.
use post_training_rsi_pipeli.Prelude.{String, List, [], ◌∷◌, ◌≡◌, refl, Option, some}
use post_training_rsi_pipeli.ControlPlane.Enums.Lookup.{find_member}

pub data DecisionAction : Type 0 where
  continue request_approval accept promote reject quarantine rollback stop : DecisionAction
  abort : DecisionAction

-- the member's text, `member.value`
unfoldable pub value : DecisionAction → String
value continue = "CONTINUE"
value request_approval = "REQUEST_APPROVAL"
value accept = "ACCEPT"
value promote = "PROMOTE"
value reject = "REJECT"
value quarantine = "QUARANTINE"
value rollback = "ROLLBACK"
value stop = "STOP"
value abort = "ABORT"

-- the members in declaration order
abbrev pub members : List DecisionAction
members =
    continue ∷ request_approval ∷ accept ∷ promote ∷ reject ∷ quarantine ∷ rollback ∷ stop ∷ abort
    ∷ []

-- `DecisionAction(text)`; `none` is its ValueError
unfoldable pub of_value : String → Option DecisionAction
unfolding find_member value
of_value text = find_member value text members

-- The text of a member is read back as that member.
pub of_value-value : (m : DecisionAction) → of_value (value m) ≡ some m
unfolding of_value
of_value-value continue = refl
of_value-value _ = refl
