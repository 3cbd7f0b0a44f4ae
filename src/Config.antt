-- ===== src/Config.antt =====
-- The parts of config.py that the modelled components read, with their checks.
use post_training_rsi_pipeli.Prelude.{
  ℕ, String, Outcome, raise_if, value_error, not, ◌>>◌, ltb, leb, all, any,
}
use post_training_rsi_pipeli.Platform.{Platform}
use post_training_rsi_pipeli.ControlPlane.Text.{codes, is_space}

pub record BudgetConfig (P : Platform) : Type 0 where
  pub total_limit_usd : P.Float
  pub per_iteration_limit_usd : P.Float
  pub max_consecutive_api_failures : ℕ

pub record RsiConfig (P : Platform) : Type 0 where
  pub max_iterations : ℕ
  pub plateau_patience : ℕ
  pub min_improvement : P.Float
  pub regression_tolerance : P.Float
  pub examples_per_iteration : ℕ
  pub initial_score : P.Float
  pub benchmark_id : String

unfoldable pub positive_integer : ℕ → Outcome (Unit {0})
positive_integer value = raise_if (ltb value 1) value_error

unfoldable pub nonempty_string : String → Outcome (Unit {0})
nonempty_string value = do
  raise_if (all is_space (codes value)) value_error
  raise_if (any (λ c. leb c 31) (codes value)) value_error

module _ (P : Platform) where
  unfoldable pub finite_number : P.Float → Outcome (Unit {0})
  finite_number value = raise_if (not (P.is_finite value)) value_error

  -- `a <= 0` is written `not (0 < a)`, for finite values
  unfoldable pub positive_number : P.Float → Outcome (Unit {0})
  positive_number value = do
    finite_number value
    raise_if (not (P.less P.zero_float value)) value_error

  unfoldable pub nonnegative_number : P.Float → Outcome (Unit {0})
  nonnegative_number value = do
    finite_number value
    raise_if (P.less value P.zero_float) value_error

  -- `_validate_budget`
  unfoldable pub validate_budget : BudgetConfig P → Outcome (Unit {0})
  validate_budget budget = do
    positive_number budget.total_limit_usd
    positive_number budget.per_iteration_limit_usd
    positive_integer budget.max_consecutive_api_failures
    raise_if (P.less budget.total_limit_usd budget.per_iteration_limit_usd) value_error

  -- `_validate_rsi`
  unfoldable pub validate_rsi : RsiConfig P → Outcome (Unit {0})
  validate_rsi rsi = do
    positive_integer rsi.max_iterations
    positive_integer rsi.plateau_patience
    nonnegative_number rsi.min_improvement
    nonnegative_number rsi.regression_tolerance
    positive_integer rsi.examples_per_iteration
    finite_number rsi.initial_score
    nonempty_string rsi.benchmark_id
