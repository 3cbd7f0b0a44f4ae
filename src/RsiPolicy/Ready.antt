-- ===== src/RsiPolicy/Ready.antt =====
-- Inputs on which `RSIDecisionPolicy.evaluate` cannot raise, and what its records need of them.
use post_training_rsi_pipeli.Prelude.{◌≤◌, ◌<◌, true, false, some, ok, is_empty, length, ◌≡◌, arith}
use post_training_rsi_pipeli.Platform.{Platform}
use post_training_rsi_pipeli.Platform.Laws.{IsHost}
use post_training_rsi_pipeli.ControlPlane.Text.{codes}
use post_training_rsi_pipeli.ControlPlane.Validation.{
  validate_id, validate_id_tuple, normalize_timestamp, validate_finite_number,
  validate_nonnegative_number, validate_optional_number,
}
use post_training_rsi_pipeli.ControlPlane.Validation.Laws.{
  validate_id-Checked, validate_optional_id-Checked, validate_id_tuple-Checked,
}
use post_training_rsi_pipeli.ControlPlane.Records.StateSnapshot
use post_training_rsi_pipeli.ControlPlane.Records.StateSnapshot.{StateSnapshot}
use post_training_rsi_pipeli.ControlPlane.Records.StateSnapshot.Accepts as AcceptsSnapshot
use post_training_rsi_pipeli.RsiPolicy.Inputs.{
  RsiPolicyLimits, CandidateObservation, check_limits, check_observation,
}
use post_training_rsi_pipeli.RsiPolicy.Evaluate.{next_total_cost}
use post_training_rsi_pipeli.RsiPolicy.Admission.{Admissible}

module _ (P : Platform) (candidate : CandidateObservation P) where
  pub record CandidateFacts : Type 0 where
    pub checkpoint_ok : validate_id candidate.checkpoint_id ≡ ok candidate.checkpoint_id
    pub score_finite : P.is_finite candidate.score ≡ true
    pub cost_finite : P.is_finite candidate.iteration_cost_usd ≡ true
    pub time_normal : normalize_timestamp P candidate.evaluated_at ≡ ok candidate.evaluated_at
    pub evidence_ok : validate_id_tuple candidate.evidence_ids ≡ ok candidate.evidence_ids
    pub has_evidence : is_empty candidate.evidence_ids ≡ false

  pub candidate_facts : check_observation P candidate ≡ ok candidate → CandidateFacts
  unfolding check_observation validate_finite_number validate_nonnegative_number
  candidate_facts h = ground (
    arith,
    validate_id-Checked candidate.checkpoint_id,
    validate_optional_id-Checked candidate.parent_checkpoint_id,
    validate_id_tuple-Checked candidate.evidence_ids,
  )

module _ (P : Platform) (limits : RsiPolicyLimits P) where
  pub record LimitFacts : Type 0 where
    pub positive_patience : 0 < limits.plateau_patience
    pub min_improvement_finite : P.is_finite limits.min_improvement ≡ true
    pub min_improvement_nonnegative : P.less limits.min_improvement P.zero_float ≡ false
    pub tolerance_finite : P.is_finite limits.regression_tolerance ≡ true
    pub per_iteration_finite : P.is_finite limits.per_iteration_budget_usd ≡ true
    pub total_finite : P.is_finite limits.total_budget_usd ≡ true

  pub limit_facts : check_limits P limits ≡ ok limits → LimitFacts
  unfolding check_limits validate_finite_number validate_nonnegative_number
  limit_facts h = ground arith

module _ (P : Platform) (limits : RsiPolicyLimits P) (current : StateSnapshot P)
    (candidate : CandidateObservation P) where
  -- Checked inputs that fit together, on which no sum or difference of the call overflows.
  pub record Ready (peak : P.Float) : Type 0 where
    pub host : IsHost P
    pub admissible : Admissible P current candidate
    pub snapshot_checked : StateSnapshot.post_init P current ≡ ok current
    pub candidate_checked : check_observation P candidate ≡ ok candidate
    pub limits_checked : check_limits P limits ≡ ok limits
    pub peak_known : current.peak_score ≡ some peak
    pub zero_finite : P.is_finite P.zero_float ≡ true
    pub total_finite : P.is_finite (next_total_cost P limits current candidate) ≡ true
    pub total_nonnegative : P.less (next_total_cost P limits current candidate) P.zero_float ≡ false
    pub rise_finite : P.is_finite (P.sub candidate.score peak) ≡ true
    pub drop_finite : P.is_finite (P.sub peak candidate.score) ≡ true
    pub digits : length (codes (P.format_int current.iteration)) ≤ 180

  pub peak_finite : (peak : P.Float) → Ready peak → P.is_finite peak ≡ true
  unfolding validate_optional_number validate_finite_number
  peak_finite peak r =
      let a =
        ((AcceptsSnapshot.post_init_exact_snapshot P current current).0 r.snapshot_checked).0 in
      ground (arith, a.peak_score_ok, r.peak_known)
