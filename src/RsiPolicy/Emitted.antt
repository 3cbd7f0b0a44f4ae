-- ===== src/RsiPolicy/Emitted.antt =====
-- What a successful step of orchestration/rsi_policy.py has emitted: its records are the ones that
-- were built, up to the timestamp and the metadata that their classes normalise.
use post_training_rsi_pipeli.Prelude.{[], ◌∷◌, ok, ◌≡◌, arith, >>=-eq-ok}
use post_training_rsi_pipeli.Platform.{Platform}
use post_training_rsi_pipeli.ControlPlane.Records.DecisionRecord
use post_training_rsi_pipeli.ControlPlane.Records.DecisionRecord.Kept as KeptDecision
use post_training_rsi_pipeli.ControlPlane.Records.TransitionRecord
use post_training_rsi_pipeli.ControlPlane.Records.TransitionRecord.Kept as KeptTransition
use post_training_rsi_pipeli.ControlPlane.Records.StateSnapshot
use post_training_rsi_pipeli.ControlPlane.Records.StateSnapshot.{StateSnapshot}
use post_training_rsi_pipeli.ControlPlane.Records.StateSnapshot.Kept as KeptSnapshot
use post_training_rsi_pipeli.RsiPolicy.Inputs.{CandidateObservation}
use post_training_rsi_pipeli.RsiPolicy.Step.{RsiPolicyStep, check_step}
use post_training_rsi_pipeli.RsiPolicy.Records.{
  CandidateEdge, RunEdge, candidate_decision, candidate_transition, candidate_snapshot,
  run_decision, run_transition, run_snapshot,
}
use post_training_rsi_pipeli.RsiPolicy.Edges.{candidate_step, append_run_decision}

-- one decision, one transition and one snapshot
abbrev pub single :
    {P : Platform}
    → DecisionRecord.DecisionRecord P
    → TransitionRecord.TransitionRecord P
    → StateSnapshot P
    → RsiPolicyStep P
single d t s = record { decisions = d ∷ []; transitions = t ∷ []; snapshots = s ∷ [] }

abbrev pub double :
    {P : Platform}
    → (d d' : DecisionRecord.DecisionRecord P) (t t' : TransitionRecord.TransitionRecord P)
      (s s' : StateSnapshot P)
    → RsiPolicyStep P
double d d' t t' s s' = record {
  decisions = d ∷ d' ∷ [];
  transitions = t ∷ t' ∷ [];
  snapshots = s ∷ s' ∷ [];
}

module _ (P : Platform) where
  pub check_step_same : (s s' : RsiPolicyStep P) → check_step P s ≡ ok s' → s' ≡ s
  unfolding check_step
  check_step_same s s' h = ground arith

  module _ (current : StateSnapshot P) (candidate : CandidateObservation P) (cost : P.Float)
      (edge : CandidateEdge P) where
    pub record FromCandidate (step : RsiPolicyStep P) : Type 0 where
      pub decision : DecisionRecord.DecisionRecord P
      pub transition : TransitionRecord.TransitionRecord P
      pub snapshot : StateSnapshot P
      pub of_decision :
          KeptDecision.Normalised P (candidate_decision P current candidate cost edge) decision
      pub of_transition :
          KeptTransition.Normalised P
            (candidate_transition P current candidate cost edge)
            transition
      pub of_snapshot :
          KeptSnapshot.Normalised P (candidate_snapshot P current candidate cost edge) snapshot
      pub all_of : step ≡ single decision transition snapshot

    pub candidate_step-FromCandidate :
        (step : RsiPolicyStep P)
        → candidate_step P current candidate cost edge ≡ ok step
        → FromCandidate step
    unfolding candidate_step
    candidate_step-FromCandidate step h =
        let (d, hd, h1) =
          >>=-eq-ok (DecisionRecord.post_init P (candidate_decision P current candidate cost edge))
            _ h in
        let (t, ht, h2) =
          >>=-eq-ok
            (TransitionRecord.post_init P (candidate_transition P current candidate cost edge)) _
            h1 in
        let (s, hs, h3) =
          >>=-eq-ok (StateSnapshot.post_init P (candidate_snapshot P current candidate cost edge)) _
            h2 in
        record {
          decision = d;
          transition = t;
          snapshot = s;
          of_decision = KeptDecision.post_init-Normalised P _ d hd;
          of_transition = KeptTransition.post_init-Normalised P _ t ht;
          of_snapshot = KeptSnapshot.post_init-Normalised P _ s hs;
          all_of = check_step_same _ step h3;
        }

  module _ (d : DecisionRecord.DecisionRecord P) (t : TransitionRecord.TransitionRecord P)
      (current : StateSnapshot P) (candidate : CandidateObservation P) (edge : RunEdge) where
    pub record FromRun (step : RsiPolicyStep P) : Type 0 where
      pub decision : DecisionRecord.DecisionRecord P
      pub transition : TransitionRecord.TransitionRecord P
      pub snapshot : StateSnapshot P
      pub of_decision : KeptDecision.Normalised P (run_decision P current candidate edge) decision
      pub of_transition :
          KeptTransition.Normalised P
            (run_transition P current candidate edge d.decision_id)
            transition
      pub of_snapshot : KeptSnapshot.Normalised P (run_snapshot P current candidate edge) snapshot
      pub all_of : step ≡ double d decision t transition current snapshot

    pub append_run_decision-FromRun :
        (step : RsiPolicyStep P)
        → append_run_decision P (single d t current) candidate edge ≡ ok step
        → FromRun step
    unfolding append_run_decision
    append_run_decision-FromRun step h =
        let (d', hd, h1) =
          >>=-eq-ok (DecisionRecord.post_init P (run_decision P current candidate edge)) _ h in
        let (t', ht, h2) =
          >>=-eq-ok
            (TransitionRecord.post_init P (run_transition P current candidate edge d.decision_id)) _
            h1 in
        let (s', hs, h3) =
          >>=-eq-ok (StateSnapshot.post_init P (run_snapshot P current candidate edge)) _ h2 in
        record {
          decision = d';
          transition = t';
          snapshot = s';
          of_decision = KeptDecision.post_init-Normalised P _ d' hd;
          of_transition = KeptTransition.post_init-Normalised P _ t' ht;
          of_snapshot = KeptSnapshot.post_init-Normalised P _ s' hs;
          all_of = check_step_same _ step h3;
        }
