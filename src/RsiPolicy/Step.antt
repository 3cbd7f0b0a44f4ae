-- ===== src/RsiPolicy/Step.antt =====
-- `RSIPolicyStep` and `_record_id` of orchestration/rsi_policy.py.
use Prim.Native.String.{◌++◌ as append}
use post_training_rsi_pipeli.Prelude.{
  ℕ, Bool, true, false, not, ◌||◌, ◌&&◌, String, List, [], ◌∷◌, Option, none, some, Outcome, ok,
  raise, raise_if, value_error, lookup_error, ◌>>◌, length, is_empty, str_eq, opt_eq, ◌==◌,
}
use post_training_rsi_pipeli.Platform.{Platform}
use post_training_rsi_pipeli.ControlPlane.Text.{lower, take_text}
use post_training_rsi_pipeli.ControlPlane.Value.{Value, text, get}
use post_training_rsi_pipeli.ControlPlane.Enums.ControlState
use post_training_rsi_pipeli.ControlPlane.Enums.ControlState.{ControlState}
use post_training_rsi_pipeli.ControlPlane.Records.DecisionRecord.{DecisionRecord}
use post_training_rsi_pipeli.ControlPlane.Records.TransitionRecord.{TransitionRecord}
use post_training_rsi_pipeli.ControlPlane.Records.StateSnapshot.{StateSnapshot}

pub record RsiPolicyStep (P : Platform) : Type 0 where
  pub decisions : List (DecisionRecord P)
  pub transitions : List (TransitionRecord P)
  pub snapshots : List (StateSnapshot P)

-- `value == text` for what `metadata.get` found
abbrev pub is_id_value : {P : Platform} → Option (Value P) → String → Bool
is_id_value (some (text s)) t = str_eq s t
is_id_value _ t = false

-- the tests on one decision, its transition and its snapshot
abbrev pub is_paired :
    {P : Platform} → DecisionRecord P → TransitionRecord P → StateSnapshot P → Bool
is_paired d t s =
    opt_eq t.decision_id (some d.decision_id)
    && is_id_value (get "decision_id" s.metadata) d.decision_id
    && str_eq d.run_id t.run_id
    && str_eq t.run_id s.run_id

-- the loop over `zip(decisions, transitions, snapshots)`
abbrev pub all_paired :
    {P : Platform}
    → List (DecisionRecord P)
    → List (TransitionRecord P)
    → List (StateSnapshot P)
    → Bool
all_paired (d ∷ ds) (t ∷ ts) (s ∷ ss) = is_paired d t s && all_paired ds ts ss
all_paired _ _ _ = true

abbrev last_of {ℓ} : {A : Type ℓ} → List A → Option A
last_of [] = none
last_of (x ∷ []) = some x
last_of (x ∷ y ∷ ys) = last_of (y ∷ ys)

-- `xs[-1]`, with its IndexError
abbrev pub final {ℓ} : {A : Type ℓ} → List A → Outcome A
final xs = elim (last_of xs) [ none ↦ raise lookup_error | some x ↦ ok x ]

-- the states of the property `terminal`
abbrev pub is_terminal : ControlState → Bool
is_terminal ControlState.stopped = true
is_terminal ControlState.aborted = true
is_terminal ControlState.rolled_back = true
is_terminal _ = false

module _ (P : Platform) where
  -- `RSIPolicyStep.__post_init__`
  unfoldable pub check_step : RsiPolicyStep P → Outcome (RsiPolicyStep P)
  check_step s = do
    raise_if (is_empty s.decisions || is_empty s.transitions || is_empty s.snapshots) value_error
    raise_if
        (not (
          length s.decisions == length s.transitions && length s.transitions == length s.snapshots))
        value_error
    raise_if (not (all_paired s.decisions s.transitions s.snapshots)) value_error
    ok s

  abbrev pub final_snapshot : RsiPolicyStep P → Outcome (StateSnapshot P)
  final_snapshot s = final s.snapshots

  unfoldable pub record_id : String → String → ℕ → String → String → String
  unfolding take_text
  record_id prefix run_id iteration phase identity =
      let number = P.format_int iteration in
      let material : String = append run_id (
        append ":" (
          append number
            (append ":" (append phase (append ":" (append prefix (append ":" identity))))))) in
      let digest = take_text 16 (P.sha256 material) in
      append prefix (append "-rsi-" (append number (append "-" (append phase (append "-" digest)))))

-- `target_state.value.lower()`
unfoldable pub phase_of : ControlState → String
unfolding lower ControlState.value
phase_of state = lower (ControlState.value state)
