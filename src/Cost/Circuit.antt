-- ===== src/Cost/Circuit.antt =====
-- The circuit breaker of cost.py: failures in a row open it, a success closes it.
use post_training_rsi_pipeli.Prelude.{
  ℕ, zero, suc, ◌+◌, leb, String, ok, raise, api_circuit_open, ◌≡◌, refl, arith, if◌then◌else◌,
}
use post_training_rsi_pipeli.Platform.{Platform}
use post_training_rsi_pipeli.Cost.{CostLedger, record_api_failure, record_api_success}

module _ (P : Platform) (provider error : String) where
  -- the ledger after a number of failures
  abbrev pub fail_times : ℕ → CostLedger P → CostLedger P
  fail_times zero ledger = ledger
  fail_times (suc n) ledger = (record_api_failure P (fail_times n ledger) provider error).0

  fail_times-count :
      (n : ℕ) (ledger : CostLedger P)
      → ((fail_times n ledger).consecutive_api_failures ≡ ledger.consecutive_api_failures + n)
        × ((fail_times n ledger).config ≡ ledger.config)
  unfolding record_api_failure
  fail_times-count zero ledger = (omega arith, refl)
  fail_times-count (suc n) ledger = ground (arith, fail_times-count n ledger)

  -- After a success and then n failures, the next failure raises exactly when n + 1 is at least the
  -- configured number of failures in a row.
  pub record_api_failure_exact :
      (n : ℕ) (ledger : CostLedger P)
      → (record_api_failure P (fail_times n (record_api_success P ledger)) provider error).1 ≡ (
          if leb ledger.config.max_consecutive_api_failures (suc n)
          then raise api_circuit_open
          else ok tt)
  unfolding record_api_failure record_api_success
  record_api_failure_exact n ledger =
      ground (arith, fail_times-count n (record_api_success P ledger))
