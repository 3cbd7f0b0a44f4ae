-- ===== src/RsiPolicy/Chain.antt =====
-- The records of one step of orchestration/rsi_policy.py form a chain.
use post_training_rsi_pipeli.Prelude.{List, [], ◌∷◌, some, ok, ◌≡◌, arith, String}
use post_training_rsi_pipeli.Platform.{Platform}
use post_training_rsi_pipeli.ControlPlane.Enums.ControlState.{ControlState}
use post_training_rsi_pipeli.ControlPlane.Records.StateSnapshot.{StateSnapshot}
use post_training_rsi_pipeli.RsiPolicy.Inputs.{RsiPolicyLimits, CandidateObservation}
use post_training_rsi_pipeli.RsiPolicy.Step.{RsiPolicyStep}
use post_training_rsi_pipeli.RsiPolicy.Records.{
  candidate_snapshot, run_snapshot, candidate_transition, run_transition, candidate_decision,
  run_decision,
}
use post_training_rsi_pipeli.RsiPolicy.Edges.{advance_edge}
use post_training_rsi_pipeli.RsiPolicy.Evaluate.{
  budget_edge, promote_edge, rollback_edge, reject_edge, evaluate,
}
use post_training_rsi_pipeli.RsiPolicy.Branches.{
  Branch, abort_iteration, abort_total, promote, roll_back, reject, evaluate-Branch,
}
use post_training_rsi_pipeli.ControlPlane.Records.DecisionRecord.{DecisionRecord}
use post_training_rsi_pipeli.ControlPlane.Records.TransitionRecord.{TransitionRecord}

-- Each transition leaves the state that the one before reached, for the state of its snapshot, and
-- names the decision that stands beside it, all in one run.
abbrev pub Linked :
    {P : Platform}
    → String
    → ControlState
    → List (DecisionRecord P)
    → List (TransitionRecord P)
    → List (StateSnapshot P)
    → Type 0
Linked run state [] [] [] = Unit
Linked run state (d ∷ ds) (t ∷ ts) (s ∷ ss) =
    (t.from_state ≡ some state)
    × (t.to_state ≡ s.state)
    × (t.decision_id ≡ some d.decision_id)
    × ((d.run_id ≡ run) × (t.run_id ≡ run) × (s.run_id ≡ run))
    × Linked run s.state ds ts ss
Linked run state _ _ _ = ⊥

module _ (P : Platform) (limits : RsiPolicyLimits P) (current : StateSnapshot P)
    (candidate : CandidateObservation P) where
  Branch-Linked :
      (step : RsiPolicyStep P)
      → Branch P limits current candidate step
      → Linked current.run_id current.state step.decisions step.transitions step.snapshots
  unfolding candidate_snapshot run_snapshot candidate_transition run_transition candidate_decision
      run_decision advance_edge budget_edge promote_edge rollback_edge reject_edge
  Branch-Linked step (abort_iteration p e over f) =
      rw f.all_of (ground (arith, f.of_snapshot.same, f.of_transition.same, f.of_decision.same))
  Branch-Linked step (abort_total p e w over f) =
      rw f.all_of (ground (arith, f.of_snapshot.same, f.of_transition.same, f.of_decision.same))
  Branch-Linked step (promote p e w b better a) = rw a.of_rest.all_of (
      ground (
        arith, a.of_first.of_snapshot.same, a.of_first.of_transition.same,
        a.of_first.of_decision.same, a.of_rest.of_snapshot.same, a.of_rest.of_transition.same,
        a.of_rest.of_decision.same,
      ))
  Branch-Linked step (roll_back p e w b same worse f) =
      rw f.all_of (ground (arith, f.of_snapshot.same, f.of_transition.same, f.of_decision.same))
  Branch-Linked step (reject p e w b same kept a) = rw a.of_rest.all_of (
      ground (
        arith, a.of_first.of_snapshot.same, a.of_first.of_transition.same,
        a.of_first.of_decision.same, a.of_rest.of_snapshot.same, a.of_rest.of_transition.same,
        a.of_rest.of_decision.same,
      ))

  -- The transitions of a successful call lead from the state of the current snapshot through the
  -- state of each emitted snapshot, each backed by the decision beside it, in the current run.
  pub evaluate-Linked :
      (step : RsiPolicyStep P)
      → evaluate P limits current candidate ≡ ok step
      → Linked current.run_id current.state step.decisions step.transitions step.snapshots
  evaluate-Linked step e = Branch-Linked step (evaluate-Branch P limits current candidate step e)
