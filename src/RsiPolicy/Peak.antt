-- ===== src/RsiPolicy/Peak.antt =====
-- The accepted Peak under `RSIDecisionPolicy.evaluate`: replaced only by a better candidate.
use post_training_rsi_pipeli.Prelude.{◌≤◌, true, false, some, ok, ◌≡◌, ◌⊎◌, inl, inr, arith}
use post_training_rsi_pipeli.Platform.{Platform}
use post_training_rsi_pipeli.ControlPlane.Records.StateSnapshot.{StateSnapshot}
use post_training_rsi_pipeli.RsiPolicy.Inputs.{RsiPolicyLimits, CandidateObservation}
use post_training_rsi_pipeli.RsiPolicy.Step.{RsiPolicyStep, final_snapshot}
use post_training_rsi_pipeli.RsiPolicy.Records.{candidate_snapshot, run_snapshot}
use post_training_rsi_pipeli.RsiPolicy.Admission.{evaluate-Admissible}
use post_training_rsi_pipeli.Platform.Laws.{IsIeee}
use post_training_rsi_pipeli.RsiPolicy.Edges.{advance_edge}
use post_training_rsi_pipeli.RsiPolicy.Evaluate.{
  budget_edge, promote_edge, rollback_edge, reject_edge, improves, evaluate,
}
use post_training_rsi_pipeli.RsiPolicy.Branches.{
  Branch, abort_iteration, abort_total, promote, roll_back, reject, evaluate-Branch,
}

module _ (P : Platform) (limits : RsiPolicyLimits P) (current : StateSnapshot P)
    (candidate : CandidateObservation P) where
  -- What the last snapshot of a call keeps of the accepted model.
  pub record KeepsPeak (peak : P.Float) (s : StateSnapshot P) : Type 0 where
    pub active_is_peak : s.active_checkpoint_id ≡ s.peak_checkpoint_id
    pub replaced_or_kept :
        ((improves P limits current candidate peak ≡ true)
          × (s.peak_checkpoint_id ≡ some candidate.checkpoint_id)
          × (s.peak_score ≡ some candidate.score)
          × (s.plateau_count ≡ 0))
        ⊎ ((s.peak_checkpoint_id ≡ current.peak_checkpoint_id)
            × (s.peak_score ≡ some peak)
            × (current.plateau_count ≤ s.plateau_count))

  Branch-KeepsPeak :
      (step : RsiPolicyStep P) (s : StateSnapshot P) (peak : P.Float)
      → current.peak_score ≡ some peak
      → current.active_checkpoint_id ≡ current.peak_checkpoint_id
      → final_snapshot P step ≡ ok s
      → Branch P limits current candidate step
      → KeepsPeak peak s
  unfolding candidate_snapshot run_snapshot advance_edge budget_edge promote_edge rollback_edge
      reject_edge
  Branch-KeepsPeak step s peak hp h hs (abort_iteration p e over f) =
      let hf = rw f.all_of at hs in ground (arith, f.of_snapshot.same)
  Branch-KeepsPeak step s peak hp h hs (abort_total p e w over f) =
      let hf = rw f.all_of at hs in ground (arith, f.of_snapshot.same)
  Branch-KeepsPeak step s peak hp h hs (promote p e w b better a) =
      let hf = rw a.of_rest.all_of at hs in
      ground (arith, a.of_first.of_snapshot.same, a.of_rest.of_snapshot.same)
  Branch-KeepsPeak step s peak hp h hs (roll_back p e w b same worse f) =
      let hf = rw f.all_of at hs in ground (arith, f.of_snapshot.same)
  Branch-KeepsPeak step s peak hp h hs (reject p e w b same kept a) =
      let hf = rw a.of_rest.all_of at hs in
      ground (arith, a.of_first.of_snapshot.same, a.of_rest.of_snapshot.same)

  -- After a successful call from a known Peak score, the active checkpoint of the last snapshot is
  -- its Peak. The Peak is the candidate, with its score and no plateau, only if it passed the
  -- improvement test; it is otherwise kept with its score, and the plateau count does not fall.
  pub evaluate-KeepsPeak :
      (step : RsiPolicyStep P) (s : StateSnapshot P) (peak : P.Float)
      → current.peak_score ≡ some peak
      → evaluate P limits current candidate ≡ ok step
      → final_snapshot P step ≡ ok s
      → KeepsPeak peak s
  evaluate-KeepsPeak step s peak hp e hs =
      Branch-KeepsPeak step s peak hp
        (evaluate-Admissible P current candidate limits step e).active_is_peak hs
        (evaluate-Branch P limits current candidate step e)

  -- With floats as IEEE 754 has them, a finite Peak score and a finite minimum improvement that is
  -- not negative, the last snapshot of a successful call never has a lower Peak score.
  pub evaluate_peak_monotone :
      (step : RsiPolicyStep P) (s : StateSnapshot P) (peak new_peak : P.Float)
      → IsIeee P
      → P.is_finite peak ≡ true
      → P.is_finite limits.min_improvement ≡ true
      → P.less limits.min_improvement P.zero_float ≡ false
      → current.peak_score ≡ some peak
      → evaluate P limits current candidate ≡ ok step
      → final_snapshot P step ≡ ok s
      → s.peak_score ≡ some new_peak
      → P.less new_peak peak ≡ false
  unfolding improves
  evaluate_peak_monotone step s peak new_peak ieee fp fm nn hp e hs hn =
      elim (evaluate-KeepsPeak step s peak hp e hs).replaced_or_kept [
        | inl (better, _, score, _) ↦ ground (
          arith,
          ieee.add_nonneg peak limits.min_improvement fp fm nn,
          ieee.transitive (P.add peak limits.min_improvement) candidate.score peak,
        )
        | inr (_, score, _) ↦ ground (arith, ieee.irreflexive peak)
      ]
