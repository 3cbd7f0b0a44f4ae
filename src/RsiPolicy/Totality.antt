-- ===== src/RsiPolicy/Totality.antt =====
-- On ready inputs `RSIDecisionPolicy.evaluate` returns a step.
use post_training_rsi_pipeli.Prelude.{ok, ◌>>=◌, ◌≡◌, arith, inl, inr, Bool-cases}
use post_training_rsi_pipeli.Platform.{Platform}
use post_training_rsi_pipeli.ControlPlane.Validation.{validate_finite_number}
use post_training_rsi_pipeli.ControlPlane.Records.StateSnapshot.{StateSnapshot}
use post_training_rsi_pipeli.RsiPolicy.Inputs.{RsiPolicyLimits, CandidateObservation}
use post_training_rsi_pipeli.RsiPolicy.Step.{RsiPolicyStep}
use post_training_rsi_pipeli.RsiPolicy.Records.{CandidateEdge, candidate_snapshot}
use post_training_rsi_pipeli.RsiPolicy.Edges.{advance, advance_edge, required_peak_score}
use post_training_rsi_pipeli.RsiPolicy.Evaluate.{
  next_total_cost, over_iteration_budget, over_total_budget, improves, regresses, step_by,
  abort_for_budget, compare_scores, evaluate,
}
use post_training_rsi_pipeli.RsiPolicy.Admission.{validate_input-Admissible}
use post_training_rsi_pipeli.RsiPolicy.Ready.{Ready, candidate_facts}
use post_training_rsi_pipeli.RsiPolicy.Built.{EdgeReady, Built, candidate_step_built}
use post_training_rsi_pipeli.RsiPolicy.BuiltRun.{append_run_decision_built}
use post_training_rsi_pipeli.RsiPolicy.ReadyEdges.{
  common, finite_peak, budget_ready, promote_ready, rollback_ready, reject_ready, advance_ready,
}

module _ (P : Platform) (limits : RsiPolicyLimits P) (current : StateSnapshot P)
    (candidate : CandidateObservation P) (peak : P.Float)
    (r : Ready P limits current candidate peak) where
  -- a ready edge, then `_advance`
  both_built :
      (edge : CandidateEdge P)
      → EdgeReady P current candidate (next_total_cost P limits current candidate) edge
      → (step : RsiPolicyStep P) × ((step_by P limits current candidate edge >>= λ intermediate.
            advance P limits intermediate candidate)
          ≡ ok step)
  unfolding step_by advance candidate_snapshot
  both_built edge e =
      let b : Built P current candidate (next_total_cost P limits current candidate) edge =
        candidate_step_built P current candidate (next_total_cost P limits current candidate) edge
          (common P limits current candidate peak r) e in
      let s : StateSnapshot P =
        candidate_snapshot P current candidate (next_total_cost P limits current candidate) edge in
      let (step, made) =
        append_run_decision_built P s candidate (advance_edge P limits s) b.decision b.transition
          b.paired
          (record {
            host = r.host;
            facts = candidate_facts P candidate r.candidate_checked;
            accepted = b.accepted;
            digits = r.digits;
          })
          (advance_ready P limits current candidate peak r s) in
      (step, rw b.made made)

  one_built :
      (edge : CandidateEdge P)
      → EdgeReady P current candidate (next_total_cost P limits current candidate) edge
      → (step : RsiPolicyStep P) × (step_by P limits current candidate edge ≡ ok step)
  unfolding step_by
  one_built edge e =
      let b =
        candidate_step_built P current candidate (next_total_cost P limits current candidate) edge
          (common P limits current candidate peak r) e in
      (_, b.made)

  peak_ok : required_peak_score P current ≡ ok peak
  unfolding required_peak_score validate_finite_number
  peak_ok = ground (arith, r.peak_known, (finite_peak P limits current candidate peak r))

  scores_built :
      (step : RsiPolicyStep P) × (compare_scores P limits current candidate peak ≡ ok step)
  unfolding compare_scores
  scores_built = elim (Bool-cases (improves P limits current candidate peak)) [
    | inl a ↦ rw a (both_built _ (promote_ready P limits current candidate peak r))
    | inr a ↦ elim (Bool-cases (regresses P limits current candidate peak)) [
      | inl b ↦ rw (a, b) (one_built _ (rollback_ready P limits current candidate peak r))
      | inr b ↦ rw (a, b) (both_built _ (reject_ready P limits current candidate peak r))
    ]
  ]

-- A call returns a step on checked inputs that fit together, with a known Peak score, if 0.0 and
-- the sums and differences of the call are finite, the total cost is not below 0.0, the iteration
-- has at most 180 digits, and SHA-256 and decimal texts are as documented: no check of the records
-- that it builds can fail.
pub evaluate_total :
    (P : Platform) (limits : RsiPolicyLimits P) (current : StateSnapshot P)
    (candidate : CandidateObservation P) (peak : P.Float)
    → Ready P limits current candidate peak
    → (step : RsiPolicyStep P) × (evaluate P limits current candidate ≡ ok step)
unfolding evaluate abort_for_budget
evaluate_total P limits current candidate peak r =
    rw ((validate_input-Admissible P current candidate).1 r.admissible)
      (elim (Bool-cases (over_iteration_budget P limits current candidate)) [
        | inl a ↦
            rw (a, peak_ok P limits current candidate peak r)
              (one_built P limits current candidate peak r _
                (budget_ready P limits current candidate peak r _))
        | inr a ↦ elim (Bool-cases (over_total_budget P limits current candidate)) [
          | inl b ↦
              rw (a, b, peak_ok P limits current candidate peak r)
                (one_built P limits current candidate peak r _
                  (budget_ready P limits current candidate peak r _))
          | inr b ↦
              rw (a, b, peak_ok P limits current candidate peak r)
                (scores_built P limits current candidate peak r)
        ]
      ])
