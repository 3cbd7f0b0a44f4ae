-- ===== src/RsiPolicy/Outcomes.antt =====
-- What `RSIDecisionPolicy.evaluate` decides, read off the snapshots that it emits.
use post_training_rsi_pipeli.Prelude.{
  ◌+◌, ◌≤◌, ◌||◌, List, [], ◌∷◌, map, some, ok, ◌≡◌, arith, leb, if◌then◌else◌,
}
use post_training_rsi_pipeli.Platform.{Platform}
use post_training_rsi_pipeli.ControlPlane.Enums.ControlState.{ControlState}
use post_training_rsi_pipeli.ControlPlane.Records.StateSnapshot.{StateSnapshot}
use post_training_rsi_pipeli.RsiPolicy.Inputs.{RsiPolicyLimits, CandidateObservation}
use post_training_rsi_pipeli.RsiPolicy.Step.{RsiPolicyStep}
use post_training_rsi_pipeli.RsiPolicy.Records.{candidate_snapshot, run_snapshot}
use post_training_rsi_pipeli.RsiPolicy.Edges.{advance_edge}
use post_training_rsi_pipeli.RsiPolicy.Evaluate.{
  budget_edge, promote_edge, rollback_edge, reject_edge, over_iteration_budget, over_total_budget,
  improves, regresses, evaluate,
}
use post_training_rsi_pipeli.RsiPolicy.Branches.{
  Branch, abort_iteration, abort_total, promote, roll_back, reject, evaluate-Branch,
}

module _ (P : Platform) (limits : RsiPolicyLimits P) (current : StateSnapshot P)
    (candidate : CandidateObservation P) where
  -- The states that a call should visit, from its tests alone.
  abbrev pub visited : P.Float → List ControlState
  visited peak =
      if over_iteration_budget P limits current candidate
        || over_total_budget P limits current candidate
      then ControlState.aborted ∷ []
      else if improves P limits current candidate peak
      then ControlState.promoted
        ∷ (if leb limits.max_iterations current.iteration
            then ControlState.stopped
            else ControlState.diagnose)
        ∷ []
      else if regresses P limits current candidate peak
      then ControlState.rolled_back ∷ []
      else ControlState.rejected
        ∷ (if leb limits.plateau_patience (current.plateau_count + 1)
              || leb limits.max_iterations current.iteration
            then ControlState.stopped
            else ControlState.diagnose)
        ∷ []

  Branch-visited :
      (step : RsiPolicyStep P) (peak : P.Float)
      → 1 ≤ limits.plateau_patience
      → current.peak_score ≡ some peak
      → Branch P limits current candidate step
      → map (λ s. s.state) step.snapshots ≡ visited peak
  unfolding candidate_snapshot run_snapshot advance_edge budget_edge promote_edge rollback_edge
      reject_edge
  Branch-visited step peak h hp (abort_iteration p e over f) =
      rw f.all_of (ground (arith, f.of_snapshot.same))
  Branch-visited step peak h hp (abort_total p e w over f) =
      rw f.all_of (ground (arith, f.of_snapshot.same))
  Branch-visited step peak h hp (promote p e w b better a) =
      rw a.of_rest.all_of (ground (arith, a.of_first.of_snapshot.same, a.of_rest.of_snapshot.same))
  Branch-visited step peak h hp (roll_back p e w b same worse f) =
      rw f.all_of (ground (arith, f.of_snapshot.same))
  Branch-visited step peak h hp (reject p e w b same kept a) =
      rw a.of_rest.all_of (ground (arith, a.of_first.of_snapshot.same, a.of_rest.of_snapshot.same))

  -- With a patience of at least one and a known Peak score, the states of the snapshots of a
  -- successful call are exactly those that its tests on the budgets, the score, the patience and
  -- the iterations ask for, in order.
  pub evaluate-visited :
      (step : RsiPolicyStep P) (peak : P.Float)
      → 1 ≤ limits.plateau_patience
      → current.peak_score ≡ some peak
      → evaluate P limits current candidate ≡ ok step
      → map (λ s. s.state) step.snapshots ≡ visited peak
  evaluate-visited step peak h hp e =
      Branch-visited step peak h hp (evaluate-Branch P limits current candidate step e)
