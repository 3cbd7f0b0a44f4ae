-- ===== src/RsiPolicy/Built.antt =====
-- The records of `_candidate_step` and `_append_run_decision` pass their own checks.
use post_training_rsi_pipeli.Prelude.{
  ℕ, ◌≤◌, String, true, false, some, ok, length, ◌≡◌, refl, arith, eq_refl,
}
use post_training_rsi_pipeli.Platform.{Platform}
use post_training_rsi_pipeli.Platform.Laws.{IsHost}
use post_training_rsi_pipeli.ControlPlane.Text.{codes, is_id, is_text}
use post_training_rsi_pipeli.ControlPlane.Value.{
  Fields, normalize_json_object, text, field, end, get,
}
use post_training_rsi_pipeli.ControlPlane.Validation.{
  validate_id, validate_optional_id, validate_text, validate_finite_number,
  validate_optional_number, validate_nonnegative_number,
}
use post_training_rsi_pipeli.ControlPlane.Enums.ControlState.{ControlState}
use post_training_rsi_pipeli.ControlPlane.Records.DecisionRecord
use post_training_rsi_pipeli.ControlPlane.Records.TransitionRecord
use post_training_rsi_pipeli.ControlPlane.Records.StateSnapshot
use post_training_rsi_pipeli.ControlPlane.Records.StateSnapshot.{StateSnapshot}
use post_training_rsi_pipeli.ControlPlane.Records.DecisionRecord.Accepts as AcceptsDecision
use post_training_rsi_pipeli.ControlPlane.Records.TransitionRecord.Accepts as AcceptsTransition
use post_training_rsi_pipeli.ControlPlane.Records.StateSnapshot.Accepts as AcceptsSnapshot
use post_training_rsi_pipeli.RsiPolicy.Inputs.{CandidateObservation}
use post_training_rsi_pipeli.RsiPolicy.Step.{check_step, record_id, phase_of}
use post_training_rsi_pipeli.RsiPolicy.Records.{
  CandidateEdge, candidate_decision, candidate_transition, candidate_snapshot,
}
use post_training_rsi_pipeli.RsiPolicy.Edges.{candidate_step}
use post_training_rsi_pipeli.RsiPolicy.Emitted.{single, double}
use post_training_rsi_pipeli.RsiPolicy.Ids.{record_id-is_id}
use post_training_rsi_pipeli.RsiPolicy.Ready.{CandidateFacts}

pub id_ok : (s : String) → is_id s ≡ true → validate_id s ≡ ok s
unfolding validate_id
id_ok s h = rw h

module _ (P : Platform) (host : IsHost P) (run : String) (iteration : ℕ) (state : ControlState)
    (identity : String) (digits : length (codes (P.format_int iteration)) ≤ 180) where
  pub decision_id_ok : is_id (record_id P "decision" run iteration (phase_of state) identity) ≡ true
  unfolding is_id
  decision_id_ok =
      record_id-is_id P "decision" run iteration state identity host refl (omega arith) digits

  pub transition_id_ok :
      is_id (record_id P "transition" run iteration (phase_of state) identity) ≡ true
  unfolding is_id
  transition_id_ok =
      record_id-is_id P "transition" run iteration state identity host refl (omega arith) digits

  pub snapshot_id_ok : is_id (record_id P "snapshot" run iteration (phase_of state) identity) ≡ true
  unfolding is_id
  snapshot_id_ok =
      record_id-is_id P "snapshot" run iteration state identity host refl (omega arith) digits

  pub idempotency_id_ok :
      is_id (record_id P "idempotency" run iteration (phase_of state) identity) ≡ true
  unfolding is_id
  idempotency_id_ok =
      record_id-is_id P "idempotency" run iteration state identity host refl (omega arith) digits

-- metadata of one text is in normal form
pub text_metadata :
    (P : Platform) (key value : String)
    → normalize_json_object P (field key (text value) end) ≡ ok (field key (text value) end)
unfolding normalize_json_object
text_metadata P key value = refl

check_single :
    (P : Platform) (d : DecisionRecord.DecisionRecord P) (t : TransitionRecord.TransitionRecord P)
    (s : StateSnapshot P)
    → t.decision_id ≡ some d.decision_id
    → get "decision_id" s.metadata ≡ some (text d.decision_id)
    → t.run_id ≡ d.run_id
    → s.run_id ≡ d.run_id
    → check_step P (single d t s) ≡ ok (single d t s)
unfolding check_step
check_single P d t s a b e f = ground (arith, eq_refl d.decision_id, eq_refl d.run_id)

pub check_double :
    (P : Platform) (d d' : DecisionRecord.DecisionRecord P)
    (t t' : TransitionRecord.TransitionRecord P) (s s' : StateSnapshot P)
    → check_step P (single d t s) ≡ ok (single d t s)
    → t'.decision_id ≡ some d'.decision_id
    → get "decision_id" s'.metadata ≡ some (text d'.decision_id)
    → t'.run_id ≡ d'.run_id
    → s'.run_id ≡ d'.run_id
    → check_step P (double d d' t t' s s') ≡ ok (double d d' t t' s s')
unfolding check_step
check_double P d d' t t' s s' h a b e f = ground (arith, eq_refl d'.decision_id, eq_refl d'.run_id)

-- What is common to the records of one call.
pub record Common (P : Platform) (current : StateSnapshot P) (candidate : CandidateObservation P)
    : Type 0 where
  pub host : IsHost P
  pub facts : CandidateFacts P candidate
  pub accepted : AcceptsSnapshot.Acceptable P current
  pub digits : length (codes (P.format_int current.iteration)) ≤ 180

module _ (P : Platform) (current : StateSnapshot P) (candidate : CandidateObservation P)
    (cost : P.Float) (edge : CandidateEdge P) where
  pub record EdgeReady : Type 0 where
    pub fields : Fields P
    pub metadata_ok : normalize_json_object P edge.metadata ≡ ok fields
    pub code_ok : is_id edge.reason_code ≡ true
    pub reason_ok : is_text edge.reason ≡ true
    pub decision_fits : DecisionRecord.stop_mismatch edge.action edge.stop_reason ≡ false
    pub event_fits : TransitionRecord.start_mismatch (some current.state) edge.event ≡ false
    pub snapshot_fits : StateSnapshot.stop_mismatch edge.target_state edge.stop_reason ≡ false
    pub peak_id_ok :
        validate_optional_id edge.next_peak_checkpoint_id ≡ ok edge.next_peak_checkpoint_id
    pub peak_finite : P.is_finite edge.next_peak_score ≡ true
    pub cost_ok : validate_nonnegative_number P cost ≡ ok cost

  candidate_decision-Acceptable :
      Common P current candidate
      → EdgeReady
      → AcceptsDecision.Acceptable P (candidate_decision P current candidate cost edge)
  unfolding candidate_decision validate_text
  candidate_decision-Acceptable c e = record {
    decision_id_ok = id_ok _ (decision_id_ok P c.host _ _ _ _ c.digits);
    run_id_ok = c.accepted.run_id_ok;
    subject_id_ok = c.facts.checkpoint_ok;
    reason_code_ok = id_ok _ e.code_ok;
    reason_ok = rw e.reason_ok;
    evidence_ids_ok = c.facts.evidence_ok;
    has_evidence = c.facts.has_evidence;
    stop_fits = e.decision_fits;
  }

  candidate_transition-Acceptable :
      Common P current candidate
      → EdgeReady
      → AcceptsTransition.Acceptable P (candidate_transition P current candidate cost edge)
  unfolding candidate_transition validate_optional_id
  candidate_transition-Acceptable c e = record {
    transition_id_ok = id_ok _ (transition_id_ok P c.host _ _ _ _ c.digits);
    run_id_ok = c.accepted.run_id_ok;
    idempotency_key_ok = id_ok _ (idempotency_id_ok P c.host _ _ _ _ c.digits);
    decision_id_ok = rw (
        id_ok _ (
          decision_id_ok P c.host current.run_id current.iteration edge.target_state
            candidate.checkpoint_id c.digits));
    evidence_ids_ok = c.facts.evidence_ok;
    has_evidence = c.facts.has_evidence;
    start_fits = e.event_fits;
  }

  candidate_snapshot-Acceptable :
      Common P current candidate
      → EdgeReady
      → AcceptsSnapshot.Acceptable P (candidate_snapshot P current candidate cost edge)
  unfolding candidate_snapshot validate_optional_id validate_optional_number validate_finite_number
  candidate_snapshot-Acceptable c e = record {
    snapshot_id_ok = id_ok _ (snapshot_id_ok P c.host _ _ _ _ c.digits);
    run_id_ok = c.accepted.run_id_ok;
    active_checkpoint_id_ok =
        ground (arith, c.accepted.active_checkpoint_id_ok, c.facts.checkpoint_ok);
    candidate_checkpoint_id_ok = rw c.facts.checkpoint_ok;
    peak_checkpoint_id_ok = e.peak_id_ok;
    active_harness_id_ok = c.accepted.active_harness_id_ok;
    candidate_harness_id_ok = c.accepted.candidate_harness_id_ok;
    candidate_score_ok = rw c.facts.score_finite;
    peak_score_ok = rw e.peak_finite;
    total_cost_usd_ok = e.cost_ok;
    evidence_ids_ok = c.facts.evidence_ok;
    stop_fits = e.snapshot_fits;
  }

  -- the step that `_candidate_step` returns
  pub record Built : Type 0 where
    pub decision : DecisionRecord.DecisionRecord P
    pub transition : TransitionRecord.TransitionRecord P
    pub paired :
        check_step P (single decision transition (candidate_snapshot P current candidate cost edge))
        ≡ ok (single decision transition (candidate_snapshot P current candidate cost edge))
    pub made :
        candidate_step P current candidate cost edge
        ≡ ok (single decision transition (candidate_snapshot P current candidate cost edge))
    pub accepted : AcceptsSnapshot.Acceptable P (candidate_snapshot P current candidate cost edge)

  pub candidate_step_built : Common P current candidate → EdgeReady → Built
  unfolding candidate_step candidate_decision candidate_transition candidate_snapshot
  candidate_step_built c e =
      let d : DecisionRecord.DecisionRecord P =
        record (candidate_decision P current candidate cost edge) { metadata = e.fields } in
      let t : TransitionRecord.TransitionRecord P =
        candidate_transition P current candidate cost edge in
      let s : StateSnapshot P = candidate_snapshot P current candidate cost edge in
      let hd : DecisionRecord.post_init P (candidate_decision P current candidate cost edge)
          ≡ ok d =
        AcceptsDecision.Acceptable-post_init P _ d (candidate_decision-Acceptable c e) (record {
          timestamp = candidate.evaluated_at;
          fields = e.fields;
          of_timestamp = c.facts.time_normal;
          of_fields = e.metadata_ok;
          same = refl;
        }) in
      let ht : TransitionRecord.post_init P (candidate_transition P current candidate cost edge)
          ≡ ok t =
        AcceptsTransition.Acceptable-post_init P _ t (candidate_transition-Acceptable c e) (record {
          timestamp = candidate.evaluated_at;
          fields = t.metadata;
          of_timestamp = c.facts.time_normal;
          of_fields = text_metadata P _ _;
          same = refl;
        }) in
      let hs : StateSnapshot.post_init P (candidate_snapshot P current candidate cost edge) ≡ ok s =
        AcceptsSnapshot.Acceptable-post_init P _ s (candidate_snapshot-Acceptable c e) (record {
          timestamp = candidate.evaluated_at;
          fields = s.metadata;
          of_timestamp = c.facts.time_normal;
          of_fields = text_metadata P _ _;
          same = refl;
        }) in
      record {
        decision = d;
        transition = t;
        paired = check_single P d t s refl refl refl refl;
        made = rw (hd, ht, hs) (check_single P d t s refl refl refl refl);
        accepted = candidate_snapshot-Acceptable c e;
      }
