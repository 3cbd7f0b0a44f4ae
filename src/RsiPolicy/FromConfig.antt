-- ===== src/RsiPolicy/FromConfig.antt =====
-- `RSIPolicyLimits.from_config` on a configuration that config.py accepts.
use post_training_rsi_pipeli.Prelude.{ok, ◌≡◌, refl, arith}
use post_training_rsi_pipeli.Platform.{Platform}
use post_training_rsi_pipeli.Platform.Laws.{IsIeee}
use post_training_rsi_pipeli.ControlPlane.Validation.{
  validate_nonnegative_number, validate_finite_number,
}
use post_training_rsi_pipeli.Config.{
  BudgetConfig, RsiConfig, validate_budget, validate_rsi, positive_number, nonnegative_number,
  positive_integer, finite_number,
}
use post_training_rsi_pipeli.RsiPolicy.Inputs.{from_config, RsiPolicyLimits, check_limits}

module _ (P : Platform) (ieee : IsIeee P) (rsi : RsiConfig P) (budget : BudgetConfig P) where
  -- With floats as IEEE 754 has them, the checks of the budget and of the loop in a configuration
  -- are enough for the policy: its limits are made from it with the values unchanged.
  pub from_config_total :
      validate_budget P budget ≡ ok tt
      → validate_rsi P rsi ≡ ok tt
      → (limits : RsiPolicyLimits P) × (from_config P rsi budget rsi.regression_tolerance
          ≡ ok limits)
        × (limits.max_iterations ≡ rsi.max_iterations)
        × (limits.plateau_patience ≡ rsi.plateau_patience)
        × (limits.min_improvement ≡ rsi.min_improvement)
        × (limits.regression_tolerance ≡ rsi.regression_tolerance)
        × (limits.per_iteration_budget_usd ≡ budget.per_iteration_limit_usd)
        × (limits.total_budget_usd ≡ budget.total_limit_usd)
  unfolding from_config check_limits validate_budget validate_rsi positive_number nonnegative_number
      positive_integer finite_number validate_nonnegative_number validate_finite_number
  from_config_total hb hr = (
    _,
    ground (
      arith,
      ieee.irreflexive P.zero_float,
      ieee.transitive P.zero_float budget.total_limit_usd P.zero_float,
      ieee.transitive P.zero_float budget.per_iteration_limit_usd P.zero_float,
    ),
    refl,
    refl,
    refl,
    refl,
    refl,
    refl,
  )
