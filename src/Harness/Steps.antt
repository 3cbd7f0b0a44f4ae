-- ===== src/Harness/Steps.antt =====
-- What the policies of harness/ share: the records of one edge and the step that they stand in. The
-- sources have three copies of it, which differ in the identifiers, the checks and the metadata.
pub mod Emitted
use Prim.Native.String.{◌++◌ as append}
use post_training_rsi_pipeli.Prelude.{
  ℕ, Bool, not, ◌||◌, ◌&&◌, String, List, [], ◌∷◌, ◌++◌, Option, none, some, Outcome, ok, raise_if,
  Error, ◌>>=◌, ◌>>◌, length, is_empty, str_eq, ◌==◌, if◌then◌else◌, pos,
}
use post_training_rsi_pipeli.Platform.{Platform}
use post_training_rsi_pipeli.ControlPlane.Text.{take_text}
use post_training_rsi_pipeli.ControlPlane.Value.{text, int, Fields, end, field}
use post_training_rsi_pipeli.ControlPlane.Dict.{set_field}
use post_training_rsi_pipeli.ControlPlane.Enums.ControlState.{ControlState}
use post_training_rsi_pipeli.ControlPlane.Enums.ControlEvent.{ControlEvent}
use post_training_rsi_pipeli.ControlPlane.Enums.StopReason.{StopReason}
use post_training_rsi_pipeli.ControlPlane.Enums.DecisionAction.{DecisionAction}
use post_training_rsi_pipeli.ControlPlane.Enums.DecisionSubject
use post_training_rsi_pipeli.ControlPlane.Enums.DecisionSubject.{DecisionSubject}
use post_training_rsi_pipeli.ControlPlane.Records.DecisionRecord
use post_training_rsi_pipeli.ControlPlane.Records.DecisionRecord.{DecisionRecord}
use post_training_rsi_pipeli.ControlPlane.Records.TransitionRecord
use post_training_rsi_pipeli.ControlPlane.Records.TransitionRecord.{TransitionRecord}
use post_training_rsi_pipeli.ControlPlane.Records.StateSnapshot
use post_training_rsi_pipeli.ControlPlane.Records.StateSnapshot.{StateSnapshot}
use post_training_rsi_pipeli.RsiPolicy.Step.{all_paired, final, phase_of}

-- `HarnessPolicyStep`, `TraceHarvestPolicyStep` and `ModelInnerPolicyStep`
pub record PolicyStep (P : Platform) : Type 0 where
  pub decisions : List (DecisionRecord P)
  pub transitions : List (TransitionRecord P)
  pub snapshots : List (StateSnapshot P)

-- The arguments of an edge that stand in its records.
pub record Edge (P : Platform) : Type 0 where
  pub run_id : String
  pub cycle : ℕ
  pub iteration : ℕ
  pub from_state : Option ControlState
  pub to_state : ControlState
  pub event : ControlEvent
  pub action : DecisionAction
  pub subject_type : DecisionSubject
  pub subject_id : String
  pub reason_code : String
  pub reason : String
  pub timestamp : String
  pub evidence_ids : List String
  pub active_checkpoint_id : Option String
  pub candidate_checkpoint_id : Option String
  pub peak_checkpoint_id : Option String
  pub active_harness_id : Option String
  pub candidate_harness_id : Option String
  pub candidate_score : Option P.Float
  pub peak_score : Option P.Float
  pub plateau_count : ℕ
  pub total_cost_usd : P.Float
  pub decision_stop_reason : Option StopReason
  pub snapshot_stop_reason : Option StopReason
  pub decision_metadata : Fields P
  pub snapshot_metadata : Fields P
  -- the first word of the identifiers, and the identity that they are made of
  pub family : String
  pub record_seed : String

-- `a or b` for an optional text
abbrev pub or_text : Option String → String → String
or_text none b = b
or_text (some a) b = if str_eq a "" then b else a

-- `default if value is None else value`
abbrev pub or_default {ℓ} : {A : Type ℓ} → Option A → A → A
or_default none default = default
or_default (some value) default = value

module _ (P : Platform) where
  -- `__post_init__`, with the error class of the policy
  unfoldable pub check_step : Error → PolicyStep P → Outcome (PolicyStep P)
  check_step e s = do
    raise_if (is_empty s.decisions || is_empty s.transitions || is_empty s.snapshots) e
    raise_if
        (not (
          length s.decisions == length s.transitions && length s.transitions == length s.snapshots))
        e
    raise_if (not (all_paired s.decisions s.transitions s.snapshots)) e
    ok s

  abbrev pub final_snapshot : PolicyStep P → Outcome (StateSnapshot P)
  final_snapshot s = final s.snapshots

  -- `_combine` of two steps
  unfoldable pub combine : Error → PolicyStep P → PolicyStep P → Outcome (PolicyStep P)
  combine e s s' = check_step e (record {
    decisions = s.decisions ++ s'.decisions;
    transitions = s.transitions ++ s'.transitions;
    snapshots = s.snapshots ++ s'.snapshots;
  })

  -- `_record_id`
  unfoldable pub record_id : String → String → ℕ → ℕ → String → String → String
  unfolding take_text
  record_id prefix run_id cycle iteration phase subject_id =
      let payload : String = append prefix (
        append "|" (
          append run_id (
            append "|" (
              append (P.format_int cycle) (
                append "|" (
                  append (P.format_int iteration)
                    (append "|" (append phase (append "|" subject_id))))))))) in
      append prefix (append "-" (take_text 24 (P.sha256 payload)))

  module _ (e : Edge P) where
    abbrev edge_id : String → String
    edge_id kind =
        record_id (append e.family (append "-" kind)) e.run_id e.cycle e.iteration
          (phase_of e.to_state) e.record_seed

    unfoldable pub edge_decision : DecisionRecord P
    edge_decision = record {
      decision_id = edge_id "decision";
      run_id = e.run_id;
      iteration = e.iteration;
      subject_type = e.subject_type;
      subject_id = e.subject_id;
      action = e.action;
      reason_code = e.reason_code;
      reason = e.reason;
      evidence_ids = e.evidence_ids;
      created_at = e.timestamp;
      stop_reason = e.decision_stop_reason;
      metadata = e.decision_metadata;
    }

    unfoldable pub edge_transition : TransitionRecord P
    edge_transition = record {
      transition_id = edge_id "transition";
      run_id = e.run_id;
      iteration = e.iteration;
      from_state = e.from_state;
      event = e.event;
      to_state = e.to_state;
      occurred_at = e.timestamp;
      idempotency_key = edge_id "idempotency";
      decision_id = some (edge_id "decision");
      evidence_ids = e.evidence_ids;
      metadata = field "cycle" (int (pos e.cycle)) (
          field "subject_type" (text (DecisionSubject.value e.subject_type))
            (field "subject_id" (text e.subject_id) end));
    }

    unfoldable pub edge_snapshot : StateSnapshot P
    edge_snapshot = record {
      snapshot_id = edge_id "snapshot";
      run_id = e.run_id;
      iteration = e.iteration;
      cycle = e.cycle;
      state = e.to_state;
      entered_at = e.timestamp;
      active_checkpoint_id = e.active_checkpoint_id;
      candidate_checkpoint_id = e.candidate_checkpoint_id;
      peak_checkpoint_id = e.peak_checkpoint_id;
      active_harness_id = e.active_harness_id;
      candidate_harness_id = e.candidate_harness_id;
      candidate_score = e.candidate_score;
      peak_score = e.peak_score;
      plateau_count = e.plateau_count;
      total_cost_usd = e.total_cost_usd;
      stop_reason = e.snapshot_stop_reason;
      evidence_ids = e.evidence_ids;
      metadata = set_field "decision_id" (text (edge_id "decision")) e.snapshot_metadata;
    }

    -- the three records, each checked by its class, and the step
    unfoldable pub emit : Error → Outcome (PolicyStep P)
    emit error = do
      decision ← DecisionRecord.post_init P edge_decision
      transition ← TransitionRecord.post_init P edge_transition
      snapshot ← StateSnapshot.post_init P edge_snapshot
      check_step error (record {
        decisions = decision ∷ [];
        transitions = transition ∷ [];
        snapshots = snapshot ∷ [];
      })
