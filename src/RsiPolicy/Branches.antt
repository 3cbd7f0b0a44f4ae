-- ===== src/RsiPolicy/Branches.antt =====
-- The four branches of `RSIDecisionPolicy.evaluate`, with what each has tested and emitted.
use post_training_rsi_pipeli.Prelude.{
  true, false, some, ok, ◌>>=◌, ◌≡◌, inl, inr, arith, >>=-eq-ok, Bool-cases,
}
use post_training_rsi_pipeli.Platform.{Platform}
use post_training_rsi_pipeli.ControlPlane.Enums.StopReason.{StopReason}
use post_training_rsi_pipeli.ControlPlane.Validation.{validate_finite_number}
use post_training_rsi_pipeli.ControlPlane.Records.StateSnapshot.{StateSnapshot}
use post_training_rsi_pipeli.RsiPolicy.Inputs.{RsiPolicyLimits, CandidateObservation}
use post_training_rsi_pipeli.RsiPolicy.Step.{RsiPolicyStep}
use post_training_rsi_pipeli.RsiPolicy.Records.{CandidateEdge}
use post_training_rsi_pipeli.RsiPolicy.Edges.{
  advance, advance_edge, validate_input, required_peak_score,
}
use post_training_rsi_pipeli.RsiPolicy.Evaluate.{
  next_total_cost, budget_edge, promote_edge, rollback_edge, reject_edge, over_iteration_budget,
  over_total_budget, improves, regresses, step_by, abort_for_budget, compare_scores, evaluate,
}
use post_training_rsi_pipeli.RsiPolicy.Emitted.{
  FromCandidate, FromRun, candidate_step-FromCandidate, append_run_decision-FromRun,
}

module _ (P : Platform) (limits : RsiPolicyLimits P) (current : StateSnapshot P)
    (candidate : CandidateObservation P) where
  abbrev cost : P.Float
  cost = next_total_cost P limits current candidate

  -- Emitted by `_candidate_step` for the edge, and then by `_advance`.
  pub record Advanced (edge : CandidateEdge P) (step : RsiPolicyStep P) : Type 0 where
    pub first : RsiPolicyStep P
    pub of_first : FromCandidate P current candidate cost edge first
    pub of_rest :
        FromRun P of_first.decision of_first.transition of_first.snapshot candidate
          (advance_edge P limits of_first.snapshot)
          step

  pub data Branch (step : RsiPolicyStep P) : Type 0 where
    abort_iteration :
        (peak : P.Float)
        → current.peak_score ≡ some peak
        → over_iteration_budget P limits current candidate ≡ true
        → FromCandidate P current candidate cost
            (budget_edge P limits current candidate StopReason.per_iteration_budget_exceeded peak)
            step
        → Branch step
    abort_total :
        (peak : P.Float)
        → current.peak_score ≡ some peak
        → over_iteration_budget P limits current candidate ≡ false
        → over_total_budget P limits current candidate ≡ true
        → FromCandidate P current candidate cost
            (budget_edge P limits current candidate StopReason.total_budget_exceeded peak)
            step
        → Branch step
    promote :
        (peak : P.Float)
        → current.peak_score ≡ some peak
        → over_iteration_budget P limits current candidate ≡ false
        → over_total_budget P limits current candidate ≡ false
        → improves P limits current candidate peak ≡ true
        → Advanced (promote_edge P limits current candidate peak) step
        → Branch step
    roll_back :
        (peak : P.Float)
        → current.peak_score ≡ some peak
        → over_iteration_budget P limits current candidate ≡ false
        → over_total_budget P limits current candidate ≡ false
        → improves P limits current candidate peak ≡ false
        → regresses P limits current candidate peak ≡ true
        → FromCandidate P current candidate cost
            (rollback_edge P limits current candidate peak)
            step
        → Branch step
    reject :
        (peak : P.Float)
        → current.peak_score ≡ some peak
        → over_iteration_budget P limits current candidate ≡ false
        → over_total_budget P limits current candidate ≡ false
        → improves P limits current candidate peak ≡ false
        → regresses P limits current candidate peak ≡ false
        → Advanced (reject_edge P limits current candidate peak) step
        → Branch step

  peak_of :
      (peak : P.Float) → required_peak_score P current ≡ ok peak → current.peak_score ≡ some peak
  unfolding required_peak_score validate_finite_number
  peak_of peak h = ground arith

  step_by-FromCandidate :
      (edge : CandidateEdge P) (step : RsiPolicyStep P)
      → step_by P limits current candidate edge ≡ ok step
      → FromCandidate P current candidate cost edge step
  unfolding step_by
  step_by-FromCandidate edge step h =
      candidate_step-FromCandidate P current candidate cost edge step h

  advance-FromRun :
      (edge : CandidateEdge P) (first step : RsiPolicyStep P)
      (f : FromCandidate P current candidate cost edge first)
      → advance P limits first candidate ≡ ok step
      → FromRun P f.decision f.transition f.snapshot candidate
          (advance_edge P limits f.snapshot)
          step
  unfolding advance
  advance-FromRun edge first step f h =
      append_run_decision-FromRun P f.decision f.transition f.snapshot candidate
        (advance_edge P limits f.snapshot) step (rw f.all_of at h)

  step_then_advance :
      (edge : CandidateEdge P) (step : RsiPolicyStep P)
      → (step_by P limits current candidate edge >>= λ intermediate.
          advance P limits intermediate candidate)
        ≡ ok step
      → Advanced edge step
  step_then_advance edge step h =
      let (first, hf, hr) = >>=-eq-ok (step_by P limits current candidate edge) _ h in
      let f : FromCandidate P current candidate cost edge first =
        step_by-FromCandidate edge first hf in
      record { first = first; of_first = f; of_rest = advance-FromRun edge first step f hr }

  scores-Branch :
      (peak : P.Float) (step : RsiPolicyStep P)
      → current.peak_score ≡ some peak
      → over_iteration_budget P limits current candidate ≡ false
      → over_total_budget P limits current candidate ≡ false
      → compare_scores P limits current candidate peak ≡ ok step
      → Branch step
  unfolding compare_scores
  scores-Branch peak step hp hi ht h =
      elim (Bool-cases (improves P limits current candidate peak)) [
        | inl better ↦ promote peak hp hi ht better (step_then_advance _ step (rw better at h))
        | inr same ↦ elim (Bool-cases (regresses P limits current candidate peak)) [
          | inl worse ↦
              roll_back peak hp hi ht same worse
                (step_by-FromCandidate _ step (rw (same, worse) at h))
          | inr kept ↦
              reject peak hp hi ht same kept (step_then_advance _ step (rw (same, kept) at h))
        ]
      ]

  -- A successful call has taken one of the branches.
  pub evaluate-Branch :
      (step : RsiPolicyStep P) → evaluate P limits current candidate ≡ ok step → Branch step
  unfolding evaluate abort_for_budget
  evaluate-Branch step h =
      let (checked, _, h1) = >>=-eq-ok (validate_input P current candidate) _ h in
      elim (Bool-cases (over_iteration_budget P limits current candidate)) [
        | inl over ↦
            let (peak, hp, hs) = >>=-eq-ok (required_peak_score P current) _ (rw over at h1) in
            abort_iteration peak (peak_of peak hp) over (step_by-FromCandidate _ step hs)
        | inr within ↦ elim (Bool-cases (over_total_budget P limits current candidate)) [
          | inl over ↦
              let (peak, hp, hs) =
                >>=-eq-ok (required_peak_score P current) _ (rw (within, over) at h1) in
              abort_total peak (peak_of peak hp) within over (step_by-FromCandidate _ step hs)
          | inr below ↦
              let (peak, hp, hs) =
                >>=-eq-ok (required_peak_score P current) _ (rw (within, below) at h1) in
              scores-Branch peak step (peak_of peak hp) within below hs
        ]
      ]
