-- ===== src/Cost.antt =====
-- cost.py: the ledger of a run. A method gives the ledger that it leaves, also when it raises.
pub mod History
pub mod Circuit
mod Tests
use post_training_rsi_pipeli.Prelude.{
  ℕ, Bool, suc, ◌+◌, ◌==◌, leb, String, List, [], ◌∷◌, ◌++◌, Outcome, ok, raise, value_error,
  budget_exceeded, api_circuit_open, if◌then◌else◌,
}
use post_training_rsi_pipeli.Platform.{Platform}
use post_training_rsi_pipeli.Config.{BudgetConfig}

pub data LedgerEvent (P : Platform) : Type 0 where
  -- iteration, category, amount_usd, iteration_total_usd and run_total_usd
  charged : ℕ → String → P.Float → P.Float → P.Float → LedgerEvent P
  -- provider, error and consecutive_failures
  api_failure : String → String → ℕ → LedgerEvent P

pub record CostLedger (P : Platform) : Type 0 where
  pub config : BudgetConfig P
  pub total_charged_usd : P.Float
  pub charges_by_iteration : List (ℕ × P.Float)
  pub consecutive_api_failures : ℕ
  pub events : List (LedgerEvent P)

module _ (P : Platform) where
  -- `charges.get(iteration, 0.0)`
  abbrev pub charge_of : ℕ → List (ℕ × P.Float) → P.Float
  charge_of iteration [] = P.zero_float
  charge_of iteration ((i, amount) ∷ charges) =
      if iteration == i then amount else charge_of iteration charges

  -- `charges[iteration] = amount`
  abbrev pub set_charge : ℕ → P.Float → List (ℕ × P.Float) → List (ℕ × P.Float)
  set_charge iteration amount [] = (iteration, amount) ∷ []
  set_charge iteration amount ((i, old) ∷ charges) =
      if iteration == i
      then (i, amount) ∷ charges
      else (i, old) ∷ set_charge iteration amount charges

  -- `CostLedger(config)`
  abbrev pub new_ledger : BudgetConfig P → CostLedger P
  new_ledger config = record {
    config = config;
    total_charged_usd = P.zero_float;
    charges_by_iteration = [];
    consecutive_api_failures = 0;
    events = [];
  }

  abbrev pub iteration_total : CostLedger P → ℕ → P.Float
  iteration_total ledger iteration = charge_of iteration ledger.charges_by_iteration

  abbrev pub over_iteration_limit : CostLedger P → P.Float → Bool
  over_iteration_limit ledger spent =
      P.less (P.add ledger.config.per_iteration_limit_usd P.tiny) spent

  abbrev pub over_total_limit : CostLedger P → P.Float → Bool
  over_total_limit ledger spent = P.less (P.add ledger.config.total_limit_usd P.tiny) spent

  unfoldable pub charge : CostLedger P → P.Float → ℕ → String → CostLedger P × Outcome (Unit {0})
  charge ledger amount_usd iteration category =
      let next_iteration = P.add (iteration_total ledger iteration) amount_usd in
      let next_total = P.add ledger.total_charged_usd amount_usd in
      if P.less amount_usd P.zero_float
      then (ledger, raise value_error)
      else if over_iteration_limit ledger next_iteration
      then (ledger, raise budget_exceeded)
      else if over_total_limit ledger next_total
      then (ledger, raise budget_exceeded)
      else (
        record ledger {
          charges_by_iteration = set_charge iteration next_iteration ledger.charges_by_iteration;
          total_charged_usd = next_total;
          events =
              ledger.events
              ++ charged iteration category (P.round_8 amount_usd) (P.round_8 next_iteration)
                  (P.round_8 next_total)
                ∷ [];
        },
        ok tt,
      )

  unfoldable pub record_api_failure :
      CostLedger P → String → String → CostLedger P × Outcome (Unit {0})
  record_api_failure ledger provider error =
      let failures = ledger.consecutive_api_failures + 1 in
      (
        record ledger {
          consecutive_api_failures = failures;
          events = ledger.events ++ api_failure provider error failures ∷ [];
        },
        (if leb ledger.config.max_consecutive_api_failures failures
            then raise api_circuit_open
            else ok tt),
      )

  unfoldable pub record_api_success : CostLedger P → CostLedger P
  record_api_success ledger = record ledger { consecutive_api_failures = 0 }
