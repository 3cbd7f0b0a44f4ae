-- ===== src/RsiPolicy/BuiltRun.antt =====
-- `_append_run_decision` succeeds on the step that `_candidate_step` returned.
use post_training_rsi_pipeli.Prelude.{String, true, false, some, ok, ◌≡◌, refl, arith}
use post_training_rsi_pipeli.Platform.{Platform}
use post_training_rsi_pipeli.ControlPlane.Text.{is_id, is_text}
use post_training_rsi_pipeli.ControlPlane.Value.{normalize_json_object}
use post_training_rsi_pipeli.ControlPlane.Validation.{
  validate_optional_id, validate_text, validate_finite_number, validate_optional_number,
}
use post_training_rsi_pipeli.ControlPlane.Records.DecisionRecord
use post_training_rsi_pipeli.ControlPlane.Records.TransitionRecord
use post_training_rsi_pipeli.ControlPlane.Records.StateSnapshot
use post_training_rsi_pipeli.ControlPlane.Records.StateSnapshot.{StateSnapshot}
use post_training_rsi_pipeli.ControlPlane.Records.DecisionRecord.Accepts as AcceptsDecision
use post_training_rsi_pipeli.ControlPlane.Records.TransitionRecord.Accepts as AcceptsTransition
use post_training_rsi_pipeli.ControlPlane.Records.StateSnapshot.Accepts as AcceptsSnapshot
use post_training_rsi_pipeli.RsiPolicy.Inputs.{CandidateObservation}
use post_training_rsi_pipeli.RsiPolicy.Step.{RsiPolicyStep, check_step}
use post_training_rsi_pipeli.RsiPolicy.Records.{RunEdge, run_decision, run_transition, run_snapshot}
use post_training_rsi_pipeli.RsiPolicy.Edges.{append_run_decision}
use post_training_rsi_pipeli.RsiPolicy.Emitted.{single, double}
use post_training_rsi_pipeli.RsiPolicy.Built.{
  Common, check_double, text_metadata, id_ok, decision_id_ok, transition_id_ok, snapshot_id_ok,
  idempotency_id_ok,
}

module _ (P : Platform) (current : StateSnapshot P) (candidate : CandidateObservation P)
    (edge : RunEdge) where
  pub record RunEdgeReady : Type 0 where
    pub code_ok : is_id edge.reason_code ≡ true
    pub reason_ok : is_text edge.reason ≡ true
    pub decision_fits : DecisionRecord.stop_mismatch edge.action edge.stop_reason ≡ false
    pub event_fits : TransitionRecord.start_mismatch (some current.state) edge.event ≡ false
    pub snapshot_fits : StateSnapshot.stop_mismatch edge.target_state edge.stop_reason ≡ false

  run_metadata_normal :
      AcceptsSnapshot.Acceptable P current
      → normalize_json_object P (run_decision P current candidate edge).metadata
        ≡ ok (run_decision P current candidate edge).metadata
  unfolding run_decision normalize_json_object validate_optional_number validate_finite_number
  run_metadata_normal a = ground (arith, a.peak_score_ok)

  run_decision-Acceptable :
      Common P current candidate
      → RunEdgeReady
      → AcceptsDecision.Acceptable P (run_decision P current candidate edge)
  unfolding run_decision validate_text
  run_decision-Acceptable c e = record {
    decision_id_ok = id_ok _ (decision_id_ok P c.host _ _ _ _ c.digits);
    run_id_ok = c.accepted.run_id_ok;
    subject_id_ok = c.accepted.run_id_ok;
    reason_code_ok = id_ok _ e.code_ok;
    reason_ok = rw e.reason_ok;
    evidence_ids_ok = c.facts.evidence_ok;
    has_evidence = c.facts.has_evidence;
    stop_fits = e.decision_fits;
  }

  run_transition-Acceptable :
      (previous : String)
      → Common P current candidate
      → RunEdgeReady
      → AcceptsTransition.Acceptable P (run_transition P current candidate edge previous)
  unfolding run_transition validate_optional_id
  run_transition-Acceptable previous c e = record {
    transition_id_ok = id_ok _ (transition_id_ok P c.host _ _ _ _ c.digits);
    run_id_ok = c.accepted.run_id_ok;
    idempotency_key_ok = id_ok _ (idempotency_id_ok P c.host _ _ _ _ c.digits);
    decision_id_ok = rw (
        id_ok _ (
          decision_id_ok P c.host current.run_id current.iteration edge.target_state
            candidate.checkpoint_id c.digits));
    evidence_ids_ok = c.facts.evidence_ok;
    has_evidence = c.facts.has_evidence;
    start_fits = e.event_fits;
  }

  run_snapshot-Acceptable :
      Common P current candidate
      → RunEdgeReady
      → AcceptsSnapshot.Acceptable P (run_snapshot P current candidate edge)
  unfolding run_snapshot validate_optional_id validate_optional_number
  run_snapshot-Acceptable c e = record {
    snapshot_id_ok = id_ok _ (snapshot_id_ok P c.host _ _ _ _ c.digits);
    run_id_ok = c.accepted.run_id_ok;
    active_checkpoint_id_ok = c.accepted.active_checkpoint_id_ok;
    candidate_checkpoint_id_ok = ground (arith, c.accepted.candidate_checkpoint_id_ok);
    peak_checkpoint_id_ok = c.accepted.peak_checkpoint_id_ok;
    active_harness_id_ok = c.accepted.active_harness_id_ok;
    candidate_harness_id_ok = c.accepted.candidate_harness_id_ok;
    candidate_score_ok = ground (arith, c.accepted.candidate_score_ok);
    peak_score_ok = c.accepted.peak_score_ok;
    total_cost_usd_ok = c.accepted.total_cost_usd_ok;
    evidence_ids_ok = c.facts.evidence_ok;
    stop_fits = e.snapshot_fits;
  }

  pub append_run_decision_built :
      (d : DecisionRecord.DecisionRecord P) (t : TransitionRecord.TransitionRecord P)
      → check_step P (single d t current) ≡ ok (single d t current)
      → Common P current candidate
      → RunEdgeReady
      → (step : RsiPolicyStep P) × (append_run_decision P (single d t current) candidate edge
          ≡ ok step)
  unfolding append_run_decision run_decision run_transition run_snapshot
  append_run_decision_built d t paired c e =
      let d' : DecisionRecord.DecisionRecord P = run_decision P current candidate edge in
      let t' : TransitionRecord.TransitionRecord P =
        run_transition P current candidate edge d.decision_id in
      let s' : StateSnapshot P = run_snapshot P current candidate edge in
      let hd : DecisionRecord.post_init P d' ≡ ok d' =
        AcceptsDecision.Acceptable-post_init P d' d' (run_decision-Acceptable c e) (record {
          timestamp = candidate.evaluated_at;
          fields = d'.metadata;
          of_timestamp = c.facts.time_normal;
          of_fields = run_metadata_normal c.accepted;
          same = refl;
        }) in
      let ht : TransitionRecord.post_init P t' ≡ ok t' =
        AcceptsTransition.Acceptable-post_init P t' t' (run_transition-Acceptable d.decision_id c e)
          (record {
            timestamp = candidate.evaluated_at;
            fields = t'.metadata;
            of_timestamp = c.facts.time_normal;
            of_fields = text_metadata P _ _;
            same = refl;
          }) in
      let hs : StateSnapshot.post_init P s' ≡ ok s' =
        AcceptsSnapshot.Acceptable-post_init P s' s' (run_snapshot-Acceptable c e) (record {
          timestamp = candidate.evaluated_at;
          fields = s'.metadata;
          of_timestamp = c.facts.time_normal;
          of_fields = text_metadata P _ _;
          same = refl;
        }) in
      (
        double d d' t t' current s',
        rw (hd, ht, hs) (check_double P d d' t t' current s' paired refl refl refl refl),
      )
