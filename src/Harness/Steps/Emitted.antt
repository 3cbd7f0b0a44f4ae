-- ===== src/Harness/Steps/Emitted.antt =====
-- What an edge of harness/ has emitted, and what `_combine` joins.
use post_training_rsi_pipeli.Prelude.{[], ◌∷◌, ok, Error, ◌≡◌, arith, >>=-eq-ok}
use post_training_rsi_pipeli.Platform.{Platform}
use post_training_rsi_pipeli.ControlPlane.Records.DecisionRecord
use post_training_rsi_pipeli.ControlPlane.Records.DecisionRecord.{DecisionRecord}
use post_training_rsi_pipeli.ControlPlane.Records.DecisionRecord.Kept as KeptDecision
use post_training_rsi_pipeli.ControlPlane.Records.TransitionRecord
use post_training_rsi_pipeli.ControlPlane.Records.TransitionRecord.{TransitionRecord}
use post_training_rsi_pipeli.ControlPlane.Records.TransitionRecord.Kept as KeptTransition
use post_training_rsi_pipeli.ControlPlane.Records.StateSnapshot
use post_training_rsi_pipeli.ControlPlane.Records.StateSnapshot.{StateSnapshot}
use post_training_rsi_pipeli.ControlPlane.Records.StateSnapshot.Kept as KeptSnapshot
use post_training_rsi_pipeli.Harness.Steps.{
  PolicyStep, Edge, check_step, combine, edge_decision, edge_transition, edge_snapshot, emit,
}

module _ (P : Platform) where
  pub check_step_same : (e : Error) (s s' : PolicyStep P) → check_step P e s ≡ ok s' → s' ≡ s
  unfolding check_step
  check_step_same e s s' h = ground arith

  -- The step of one edge: its records are the edge's, up to what their classes normalise.
  pub record Emitted (e : Edge P) (step : PolicyStep P) : Type 0 where
    pub decision : DecisionRecord P
    pub transition : TransitionRecord P
    pub snapshot : StateSnapshot P
    pub of_decision : KeptDecision.Normalised P (edge_decision P e) decision
    pub of_transition : KeptTransition.Normalised P (edge_transition P e) transition
    pub of_snapshot : KeptSnapshot.Normalised P (edge_snapshot P e) snapshot
    pub all_of : step ≡ record {
      decisions = decision ∷ [];
      transitions = transition ∷ [];
      snapshots = snapshot ∷ [];
    }

  pub emit-Emitted :
      (error : Error) (e : Edge P) (step : PolicyStep P) → emit P e error ≡ ok step → Emitted e step
  unfolding emit
  emit-Emitted error e step h =
      let (d, hd, h1) = >>=-eq-ok (DecisionRecord.post_init P (edge_decision P e)) _ h in
      let (t, ht, h2) = >>=-eq-ok (TransitionRecord.post_init P (edge_transition P e)) _ h1 in
      let (s, hs, h3) = >>=-eq-ok (StateSnapshot.post_init P (edge_snapshot P e)) _ h2 in
      record {
        decision = d;
        transition = t;
        snapshot = s;
        of_decision = KeptDecision.post_init-Normalised P _ d hd;
        of_transition = KeptTransition.post_init-Normalised P _ t ht;
        of_snapshot = KeptSnapshot.post_init-Normalised P _ s hs;
        all_of = check_step_same error _ step h3;
      }

  -- the records of two edges, in order
  abbrev pub two_edges :
      {e e' : Edge P} {s s' : PolicyStep P} → Emitted e s → Emitted e' s' → PolicyStep P
  two_edges x y = record {
    decisions = x.decision ∷ y.decision ∷ [];
    transitions = x.transition ∷ y.transition ∷ [];
    snapshots = x.snapshot ∷ y.snapshot ∷ [];
  }

  pub combine_two :
      (error : Error) (e e' : Edge P) (s s' step : PolicyStep P) (x : Emitted e s)
      (y : Emitted e' s')
      → combine P error s s' ≡ ok step
      → step ≡ two_edges x y
  unfolding combine
  combine_two error e e' s s' step x y h =
      let joined = rw (x.all_of, y.all_of) at h in check_step_same error _ step joined
