-- ===== src/RsiPolicy/Progress.antt =====
-- The run under `RSIDecisionPolicy.evaluate`: bounded iterations, patience and budget.
use post_training_rsi_pipeli.Prelude.{none, false, ◌≤◌, ok, ◌≡◌, arith, suc, ◌<◌, ◌≢◌}
use post_training_rsi_pipeli.Platform.{Platform}
use post_training_rsi_pipeli.ControlPlane.Enums.ControlState.{ControlState}
use post_training_rsi_pipeli.ControlPlane.Records.StateSnapshot.{StateSnapshot}
use post_training_rsi_pipeli.RsiPolicy.Inputs.{RsiPolicyLimits, CandidateObservation}
use post_training_rsi_pipeli.RsiPolicy.Step.{RsiPolicyStep, final_snapshot, is_terminal}
use post_training_rsi_pipeli.RsiPolicy.Records.{candidate_snapshot, run_snapshot}
use post_training_rsi_pipeli.RsiPolicy.Edges.{advance_edge}
use post_training_rsi_pipeli.RsiPolicy.Evaluate.{
  budget_edge, promote_edge, rollback_edge, reject_edge, over_iteration_budget, over_total_budget,
  evaluate, next_total_cost,
}
use post_training_rsi_pipeli.RsiPolicy.Branches.{
  Branch, abort_iteration, abort_total, promote, roll_back, reject, evaluate-Branch,
}

module _ (P : Platform) (limits : RsiPolicyLimits P) (current : StateSnapshot P)
    (candidate : CandidateObservation P) where
  -- the first iteration of the next round, within all limits
  pub record NextRound (s : StateSnapshot P) : Type 0 where
    pub in_diagnose : s.state ≡ ControlState.diagnose
    pub next_iteration : s.iteration ≡ suc current.iteration
    pub iterations_left : s.iteration ≤ limits.max_iterations
    pub patience_left : s.plateau_count < limits.plateau_patience
    pub no_stop_reason : s.stop_reason ≡ none

  -- the total cost is counted and within its limit
  pub record Charged (s : StateSnapshot P) : Type 0 where
    pub counted : s.total_cost_usd ≡ next_total_cost P limits current candidate
    pub in_budget :
        s.state ≢ ControlState.aborted
        → (over_iteration_budget P limits current candidate ≡ false)
          × (P.less (P.add limits.total_budget_usd P.tiny) s.total_cost_usd ≡ false)

  Branch-NextRound :
      (step : RsiPolicyStep P) (s : StateSnapshot P)
      → final_snapshot P step ≡ ok s
      → is_terminal s.state ≡ false
      → Branch P limits current candidate step
      → NextRound s
  unfolding candidate_snapshot run_snapshot advance_edge budget_edge promote_edge rollback_edge
      reject_edge
  Branch-NextRound step s hs ht (abort_iteration p e over f) =
      let hf = rw f.all_of at hs in absurd (ground (arith, f.of_snapshot.same))
  Branch-NextRound step s hs ht (abort_total p e w over f) =
      let hf = rw f.all_of at hs in absurd (ground (arith, f.of_snapshot.same))
  Branch-NextRound step s hs ht (promote p e w b better a) =
      let hf = rw a.of_rest.all_of at hs in
      ground (arith, a.of_first.of_snapshot.same, a.of_rest.of_snapshot.same)
  Branch-NextRound step s hs ht (roll_back p e w b same worse f) =
      let hf = rw f.all_of at hs in absurd (ground (arith, f.of_snapshot.same))
  Branch-NextRound step s hs ht (reject p e w b same kept a) =
      let hf = rw a.of_rest.all_of at hs in
      ground (arith, a.of_first.of_snapshot.same, a.of_rest.of_snapshot.same)

  Branch-Charged :
      (step : RsiPolicyStep P) (s : StateSnapshot P)
      → final_snapshot P step ≡ ok s
      → Branch P limits current candidate step
      → Charged s
  unfolding candidate_snapshot run_snapshot advance_edge budget_edge promote_edge rollback_edge
      reject_edge over_total_budget
  Branch-Charged step s hs (abort_iteration p e over f) =
      let hf = rw f.all_of at hs in
      record {
        counted = ground (arith, f.of_snapshot.same);
        in_budget = λ n. ground (arith, f.of_snapshot.same);
      }
  Branch-Charged step s hs (abort_total p e w over f) =
      let hf = rw f.all_of at hs in
      record {
        counted = ground (arith, f.of_snapshot.same);
        in_budget = λ n. ground (arith, f.of_snapshot.same);
      }
  Branch-Charged step s hs (promote p e w b better a) =
      let hf = rw a.of_rest.all_of at hs in
      record {
        counted = ground (arith, a.of_first.of_snapshot.same, a.of_rest.of_snapshot.same);
        in_budget = λ n. ground (arith, a.of_first.of_snapshot.same, a.of_rest.of_snapshot.same);
      }
  Branch-Charged step s hs (roll_back p e w b same worse f) =
      let hf = rw f.all_of at hs in
      record {
        counted = ground (arith, f.of_snapshot.same);
        in_budget = λ n. ground (arith, f.of_snapshot.same);
      }
  Branch-Charged step s hs (reject p e w b same kept a) =
      let hf = rw a.of_rest.all_of at hs in
      record {
        counted = ground (arith, a.of_first.of_snapshot.same, a.of_rest.of_snapshot.same);
        in_budget = λ n. ground (arith, a.of_first.of_snapshot.same, a.of_rest.of_snapshot.same);
      }

  -- If the last snapshot of a successful call is not terminal, it is a DIAGNOSE snapshot of the next
  -- iteration, which is within the limit on iterations, with patience left and no stop reason.
  pub evaluate-NextRound :
      (step : RsiPolicyStep P) (s : StateSnapshot P)
      → evaluate P limits current candidate ≡ ok step
      → final_snapshot P step ≡ ok s
      → is_terminal s.state ≡ false
      → NextRound s
  evaluate-NextRound step s e hs ht =
      Branch-NextRound step s hs ht (evaluate-Branch P limits current candidate step e)

  -- The last snapshot of a successful call counts the candidate's cost in its total, and unless it
  -- is aborted, the cost and the total are within the budgets, up to the tolerance of 1e-12.
  pub evaluate-Charged :
      (step : RsiPolicyStep P) (s : StateSnapshot P)
      → evaluate P limits current candidate ≡ ok step
      → final_snapshot P step ≡ ok s
      → Charged s
  evaluate-Charged step s e hs =
      Branch-Charged step s hs (evaluate-Branch P limits current candidate step e)
