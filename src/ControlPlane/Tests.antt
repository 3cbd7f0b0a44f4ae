-- ===== src/ControlPlane/Tests.antt =====
-- The control-plane records at concrete values.
use post_training_rsi_pipeli.Prelude.{
  [], ◌∷◌, none, some, ok, pos, raise, control_contract, ◌>>=◌, ◌≡◌, true, refl,
}
use post_training_rsi_pipeli.Platform.Fixed.{fixed}
use post_training_rsi_pipeli.ControlPlane.Text.{
  is_id, is_text, between, id_codes, is_alnum, is_control, is_id_char, is_space, offset_to_z,
  z_to_offset,
}
use post_training_rsi_pipeli.ControlPlane.Value.{
  Fields, end, field, text, int, float, object, get, normalize_json_object,
}
use post_training_rsi_pipeli.ControlPlane.Value.Canonical.{
  is_dict, is_dict_value, is_canonical, normalize_json_object-canonical,
}
use post_training_rsi_pipeli.ControlPlane.Dict.Laws.{Looked, normalize_json_object-Looked}
use post_training_rsi_pipeli.ControlPlane.Validation.{
  validate_id, validate_optional_id, validate_text, validate_sha256, validate_id_tuple,
  normalize_timestamp, parse_timestamp, validate_finite_number, validate_optional_number,
  validate_nonnegative_number,
}
use post_training_rsi_pipeli.ControlPlane.Enums.ControlState
use post_training_rsi_pipeli.ControlPlane.Enums.ControlEvent
use post_training_rsi_pipeli.ControlPlane.Enums.DecisionAction
use post_training_rsi_pipeli.ControlPlane.Enums.DecisionSubject
use post_training_rsi_pipeli.ControlPlane.Enums.EvidenceKind
use post_training_rsi_pipeli.ControlPlane.Enums.StopReason.{StopReason}
use post_training_rsi_pipeli.ControlPlane.Records.EvidenceRecord
use post_training_rsi_pipeli.ControlPlane.Records.DecisionRecord
use post_training_rsi_pipeli.ControlPlane.Records.TransitionRecord
use post_training_rsi_pipeli.ControlPlane.Records.StateSnapshot
use post_training_rsi_pipeli.ControlPlane.Records.EvidenceRecord.RoundTrip.{
  from_dict-to_dict_evidence,
}
use post_training_rsi_pipeli.ControlPlane.Records.DecisionRecord.RoundTrip.{
  from_dict-to_dict_decision,
}
use post_training_rsi_pipeli.ControlPlane.Records.TransitionRecord.RoundTrip.{
  from_dict-to_dict_transition,
}
use post_training_rsi_pipeli.ControlPlane.Records.StateSnapshot.RoundTrip.{
  from_dict-to_dict_snapshot,
}

abbrev evidence : EvidenceRecord.EvidenceRecord fixed
evidence = record {
  evidence_id = "evidence-1";
  run_id = "run-1";
  iteration = 1;
  kind = EvidenceKind.evaluation_result;
  producer = "evaluator";
  uri = "file:report.json";
  created_at = "2026-08-01T00:00:00Z";
  sha256 = none;
  metadata = field "alpha" (int (pos 1)) (field "beta" (text "x") end);
}

abbrev decision : DecisionRecord.DecisionRecord fixed
decision = record {
  decision_id = "decision-1";
  run_id = "run-1";
  iteration = 3;
  subject_type = DecisionSubject.run;
  subject_id = "run-1";
  action = DecisionAction.stop;
  reason_code = "plateau_reached";
  reason = "No candidate exceeded the Peak.";
  evidence_ids = "evidence-1" ∷ "evidence-2" ∷ [];
  created_at = "2026-08-01T00:00:00Z";
  stop_reason = some StopReason.plateau;
  metadata = field "peak_score" (int (pos 500)) end;
}

abbrev transition : TransitionRecord.TransitionRecord fixed
transition = record {
  transition_id = "transition-1";
  run_id = "run-1";
  iteration = 0;
  from_state = none;
  event = ControlEvent.start;
  to_state = ControlState.boot;
  occurred_at = "2026-08-01T00:00:00Z";
  idempotency_key = "run-1:start";
  decision_id = none;
  evidence_ids = "evidence-1" ∷ [];
  metadata = end;
}

abbrev snapshot : StateSnapshot.StateSnapshot fixed
snapshot = record {
  snapshot_id = "snapshot-9";
  run_id = "run-1";
  iteration = 3;
  cycle = 1;
  state = ControlState.stopped;
  entered_at = "2026-08-01T00:00:00Z";
  active_checkpoint_id = some "ckpt-2";
  candidate_checkpoint_id = none;
  peak_checkpoint_id = some "ckpt-2";
  active_harness_id = none;
  candidate_harness_id = none;
  candidate_score = none;
  peak_score = some (pos 520);
  plateau_count = 2;
  total_cost_usd = pos 40;
  stop_reason = some StopReason.plateau;
  evidence_ids = "evidence-1" ∷ [];
  metadata = field "decision_id" (text "decision-1") end;
}

evidence_accepted : EvidenceRecord.post_init fixed evidence ≡ ok evidence
unfolding EvidenceRecord.post_init validate_id validate_text validate_sha256 normalize_timestamp
    parse_timestamp is_id is_text between id_codes is_alnum is_control is_id_char is_space
    offset_to_z z_to_offset normalize_json_object
evidence_accepted = refl

decision_accepted : DecisionRecord.post_init fixed decision ≡ ok decision
unfolding DecisionRecord.post_init validate_id validate_text validate_id_tuple normalize_timestamp
    parse_timestamp is_id is_text between id_codes is_alnum is_control is_id_char is_space
    offset_to_z z_to_offset normalize_json_object
decision_accepted = refl

transition_accepted : TransitionRecord.post_init fixed transition ≡ ok transition
unfolding TransitionRecord.post_init validate_id validate_optional_id validate_text
    validate_id_tuple normalize_timestamp parse_timestamp is_id is_text between id_codes is_alnum
    is_control is_id_char is_space offset_to_z z_to_offset normalize_json_object
transition_accepted = refl

snapshot_accepted : StateSnapshot.post_init fixed snapshot ≡ ok snapshot
unfolding StateSnapshot.post_init validate_id validate_optional_id validate_text validate_id_tuple
    normalize_timestamp parse_timestamp is_id is_text between id_codes is_alnum is_control
    is_id_char is_space offset_to_z z_to_offset normalize_json_object validate_finite_number
    validate_optional_number validate_nonnegative_number
snapshot_accepted = refl

-- A terminal snapshot needs its stop reason.
unstopped :
    StateSnapshot.post_init fixed (record snapshot { stop_reason = none }) ≡ raise control_contract
unfolding StateSnapshot.post_init validate_id validate_optional_id validate_text validate_id_tuple
    normalize_timestamp parse_timestamp is_id is_text between id_codes is_alnum is_control
    is_id_char is_space offset_to_z z_to_offset normalize_json_object validate_finite_number
    validate_optional_number validate_nonnegative_number
unstopped = refl

from_dict-to_dict_evidence_example :
    (EvidenceRecord.to_dict fixed evidence >>= EvidenceRecord.from_dict fixed) ≡ ok evidence
from_dict-to_dict_evidence_example = from_dict-to_dict_evidence fixed evidence evidence_accepted

from_dict-to_dict_decision_example :
    (DecisionRecord.to_dict fixed decision >>= DecisionRecord.from_dict fixed) ≡ ok decision
from_dict-to_dict_decision_example = from_dict-to_dict_decision fixed decision decision_accepted

from_dict-to_dict_transition_example :
    (TransitionRecord.to_dict fixed transition >>= TransitionRecord.from_dict fixed) ≡ ok transition
from_dict-to_dict_transition_example =
    from_dict-to_dict_transition fixed transition transition_accepted

from_dict-to_dict_snapshot_example :
    (StateSnapshot.to_dict fixed snapshot >>= StateSnapshot.from_dict fixed) ≡ ok snapshot
from_dict-to_dict_snapshot_example = from_dict-to_dict_snapshot fixed snapshot snapshot_accepted

-- a dict with its keys out of order, at both depths
abbrev unsorted : Fields fixed
unsorted =
    field "beta" (text "x")
      (field "alpha" (object (field "z" (float (pos 5)) (field "a" (int (pos 1)) end))) end)

abbrev sorted : Fields fixed
sorted =
    field "alpha" (object (field "a" (int (pos 1)) (field "z" (float (pos 5)) end)))
      (field "beta" (text "x") end)

unsorted-is_dict : is_dict fixed unsorted ≡ true
unfolding is_dict is_dict_value
unsorted-is_dict = refl

normalised : normalize_json_object fixed unsorted ≡ ok sorted
unfolding normalize_json_object
normalised = refl

normalize_json_object-canonical_example :
    (is_canonical fixed sorted ≡ true) × (normalize_json_object fixed sorted ≡ ok sorted)
normalize_json_object-canonical_example =
    normalize_json_object-canonical fixed unsorted sorted unsorted-is_dict normalised

normalize_json_object-Looked_example : Looked fixed (get "alpha" unsorted) (get "alpha" sorted)
normalize_json_object-Looked_example =
    normalize_json_object-Looked fixed unsorted sorted "alpha" normalised

-- a snapshot as it is made, and what `__post_init__` makes of it
abbrev made : StateSnapshot.StateSnapshot fixed
made = record snapshot { entered_at = "2026-08-01T00:00:00+00:00"; metadata = unsorted }

abbrev kept : StateSnapshot.StateSnapshot fixed
kept = record snapshot { metadata = sorted }
