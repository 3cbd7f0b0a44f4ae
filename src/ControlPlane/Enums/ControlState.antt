-- ===== src/ControlPlane/Enums/ControlState.antt =====
-- `ControlState` of control_plane/enums.py: the states of the controllers.
use post_training_rsi_pipeli.Prelude.{
  String, List, [], ◌∷◌, ◌≡◌, refl, ap, sym, ◌∙◌, Option, some, Bool, true, str_eq, eq_iff, arith,
}
use post_training_rsi_pipeli.ControlPlane.Enums.Lookup.{find_member}

pub data ControlState : Type 0 where
  boot config_loaded synthesized budget_charged verified data_rejected : ControlState
  trained deployed evaluated completed diagnose hypothesis synthesize : ControlState
  verify quarantined data_review_pending train serve evaluate decide : ControlState
  model_review_pending promoted rejected rolled_back stopped aborted : ControlState
  freeze_model mutate_harness validate_harness evaluate_harness : ControlState
  harness_review_pending accept_harness reject_harness harvest_traces : ControlState
  verify_traces train_model evaluate_model promote_model rollback_model : ControlState
  slim_harness : ControlState

-- the member's text, `member.value`
unfoldable pub value : ControlState → String
value boot = "BOOT"
value config_loaded = "CONFIG_LOADED"
value synthesized = "SYNTHESIZED"
value budget_charged = "BUDGET_CHARGED"
value verified = "VERIFIED"
value data_rejected = "DATA_REJECTED"
value trained = "TRAINED"
value deployed = "DEPLOYED"
value evaluated = "EVALUATED"
value completed = "COMPLETED"
value diagnose = "DIAGNOSE"
value hypothesis = "HYPOTHESIS"
value synthesize = "SYNTHESIZE"
value verify = "VERIFY"
value quarantined = "QUARANTINED"
value data_review_pending = "DATA_REVIEW_PENDING"
value train = "TRAIN"
value serve = "SERVE"
value evaluate = "EVALUATE"
value decide = "DECIDE"
value model_review_pending = "MODEL_REVIEW_PENDING"
value promoted = "PROMOTED"
value rejected = "REJECTED"
value rolled_back = "ROLLED_BACK"
value stopped = "STOPPED"
value aborted = "ABORTED"
value freeze_model = "FREEZE_MODEL"
value mutate_harness = "MUTATE_HARNESS"
value validate_harness = "VALIDATE_HARNESS"
value evaluate_harness = "EVALUATE_HARNESS"
value harness_review_pending = "HARNESS_REVIEW_PENDING"
value accept_harness = "ACCEPT_HARNESS"
value reject_harness = "REJECT_HARNESS"
value harvest_traces = "HARVEST_TRACES"
value verify_traces = "VERIFY_TRACES"
value train_model = "TRAIN_MODEL"
value evaluate_model = "EVALUATE_MODEL"
value promote_model = "PROMOTE_MODEL"
value rollback_model = "ROLLBACK_MODEL"
value slim_harness = "SLIM_HARNESS"

-- the members in declaration order
abbrev pub members : List ControlState
members =
    boot ∷ config_loaded ∷ synthesized ∷ budget_charged ∷ verified ∷ data_rejected ∷ trained
    ∷ deployed ∷ evaluated ∷ completed ∷ diagnose ∷ hypothesis ∷ synthesize ∷ verify ∷ quarantined
    ∷ data_review_pending ∷ train ∷ serve ∷ evaluate ∷ decide ∷ model_review_pending ∷ promoted
    ∷ rejected ∷ rolled_back ∷ stopped ∷ aborted ∷ freeze_model ∷ mutate_harness ∷ validate_harness
    ∷ evaluate_harness ∷ harness_review_pending ∷ accept_harness ∷ reject_harness ∷ harvest_traces
    ∷ verify_traces ∷ train_model ∷ evaluate_model ∷ promote_model ∷ rollback_model ∷ slim_harness
    ∷ []

-- `ControlState(text)`; `none` is its ValueError
unfoldable pub of_value : String → Option ControlState
unfolding find_member value
of_value text = find_member value text members

-- The text of a member is read back as that member.
pub of_value-value : (m : ControlState) → of_value (value m) ≡ some m
unfolding of_value
of_value-value boot = refl
of_value-value _ = refl

-- `state is expected`; two members have two texts
unfoldable pub is_state : ControlState → ControlState → Bool
is_state expected state = str_eq (value state) (value expected)

pub is_state_same :
    (expected state : ControlState) → is_state expected state ≡ true → state ≡ expected
unfolding is_state
is_state_same expected state h =
    let same : some state ≡ some expected =
      sym (of_value-value state)
      ∙ ap of_value ((eq_iff (value state) (value expected)).0 h)
      ∙ of_value-value expected in
    ground (arith, same)
