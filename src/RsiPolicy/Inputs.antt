-- ===== src/RsiPolicy/Inputs.antt =====
-- `RSIPolicyLimits` and `CandidateObservation` of orchestration/rsi_policy.py.
use post_training_rsi_pipeli.Prelude.{
  ℕ, not, ◌||◌, String, List, Option, Outcome, ok, raise_if, value_error, ◌>>=◌, ◌>>◌, ltb, opt_eq,
  some, is_empty,
}
use post_training_rsi_pipeli.Platform.{Platform}
use post_training_rsi_pipeli.Config.{RsiConfig, BudgetConfig}
use post_training_rsi_pipeli.ControlPlane.Validation.{
  validate_nonnegative_number, validate_finite_number, validate_id, validate_optional_id,
  validate_id_tuple, normalize_timestamp,
}

pub record RsiPolicyLimits (P : Platform) : Type 0 where
  pub max_iterations : ℕ
  pub plateau_patience : ℕ
  pub min_improvement : P.Float
  pub regression_tolerance : P.Float
  pub per_iteration_budget_usd : P.Float
  pub total_budget_usd : P.Float

pub record CandidateObservation (P : Platform) : Type 0 where
  pub checkpoint_id : String
  pub parent_checkpoint_id : Option String
  pub iteration : ℕ
  pub score : P.Float
  pub iteration_cost_usd : P.Float
  pub evaluated_at : String
  pub evidence_ids : List String

module _ (P : Platform) where
  -- `RSIPolicyLimits.__post_init__`; `a <= 0` is written `not (0 < a)`
  unfoldable pub check_limits : RsiPolicyLimits P → Outcome (RsiPolicyLimits P)
  check_limits l = do
    raise_if (ltb l.max_iterations 1) value_error
    raise_if (ltb l.plateau_patience 1) value_error
    min_improvement ← validate_nonnegative_number P l.min_improvement
    tolerance ← validate_nonnegative_number P l.regression_tolerance
    per_iteration ← validate_nonnegative_number P l.per_iteration_budget_usd
    total ← validate_nonnegative_number P l.total_budget_usd
    raise_if
        (not (P.less P.zero_float l.per_iteration_budget_usd)
          || not (P.less P.zero_float l.total_budget_usd))
        value_error
    raise_if (P.less l.total_budget_usd l.per_iteration_budget_usd) value_error
    ok l

  -- `RSIPolicyLimits.from_config`; the tolerance is the keyword argument
  unfoldable pub from_config : RsiConfig P → BudgetConfig P → P.Float → Outcome (RsiPolicyLimits P)
  unfolding check_limits
  from_config rsi budget regression_tolerance = check_limits (record {
    max_iterations = rsi.max_iterations;
    plateau_patience = rsi.plateau_patience;
    min_improvement = rsi.min_improvement;
    regression_tolerance = regression_tolerance;
    per_iteration_budget_usd = budget.per_iteration_limit_usd;
    total_budget_usd = budget.total_limit_usd;
  })

  -- `CandidateObservation.__post_init__`
  unfoldable pub check_observation : CandidateObservation P → Outcome (CandidateObservation P)
  check_observation c = do
    checkpoint_id ← validate_id c.checkpoint_id
    parent ← validate_optional_id c.parent_checkpoint_id
    raise_if (opt_eq parent (some checkpoint_id)) value_error
    raise_if (ltb c.iteration 1) value_error
    score ← validate_finite_number P c.score
    cost ← validate_nonnegative_number P c.iteration_cost_usd
    evaluated_at ← normalize_timestamp P c.evaluated_at
    evidence_ids ← validate_id_tuple c.evidence_ids
    raise_if (is_empty evidence_ids) value_error
    ok (record c { evaluated_at = evaluated_at })
