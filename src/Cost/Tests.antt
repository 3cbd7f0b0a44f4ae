-- ===== src/Cost/Tests.antt =====
-- Runs of the ledger of cost.py, and its theorems at concrete inputs.
use post_training_rsi_pipeli.Prelude.{
  ℤ, Bool, false, String, Option, none, some, ltb_ℤ, ◌+ℤ◌, leb, pos, negsuc, [], ◌∷◌, ok, raise,
  value_error, budget_exceeded, api_circuit_open, true, ◌||◌, Error, ◌≡◌, ◌⊎◌, refl, if◌then◌else◌,
}
use post_training_rsi_pipeli.Platform.{Platform}
use post_training_rsi_pipeli.Platform.Fixed.{fixed}
use post_training_rsi_pipeli.Config.{BudgetConfig}
use post_training_rsi_pipeli.Cost.{
  CostLedger, new_ledger, charge, iteration_total, over_iteration_limit, over_total_limit,
  record_api_failure, record_api_success,
}
use post_training_rsi_pipeli.Cost.History.{
  created, accepted, failed, Accounts, Reaches-Accounts, ChargedBy, charge-cases,
}
use post_training_rsi_pipeli.Cost.Circuit.{fail_times, record_api_failure_exact}

abbrev budget : BudgetConfig fixed
budget = record {
  total_limit_usd = pos 100;
  per_iteration_limit_usd = pos 30;
  max_consecutive_api_failures = 3;
}

abbrev first : CostLedger fixed
first = (charge fixed (new_ledger fixed budget) (pos 20) 1 "generation").0

first_accepted : (charge fixed (new_ledger fixed budget) (pos 20) 1 "generation").1 ≡ ok tt
unfolding charge
first_accepted = refl

second_refused : charge fixed first (pos 11) 1 "generation" ≡ (first, raise budget_exceeded)
unfolding charge
second_refused = refl

negative_refused : charge fixed first (negsuc 0) 1 "generation" ≡ (first, raise value_error)
unfolding charge
negative_refused = refl

third_failure_opens :
    (record_api_failure fixed (fail_times fixed "teacher" "timeout" 2 first) "teacher" "timeout").1
    ≡ raise api_circuit_open
unfolding record_api_failure charge
third_failure_opens = refl

Reaches-Accounts_example :
    Accounts fixed budget
      ((1, pos 20) ∷ [])
      ((record_api_failure fixed first "teacher" "timeout").0)
Reaches-Accounts_example =
    Reaches-Accounts fixed budget ((1, pos 20) ∷ [])
      ((record_api_failure fixed first "teacher" "timeout").0) refl refl
      (failed "teacher" "timeout" (accepted (pos 20) 1 "generation" created first_accepted))

charge-cases_example :
    (((charge fixed first (pos 11) 1 "generation").1 ≡ ok tt)
      × ChargedBy fixed first (pos 11) 1 (charge fixed first (pos 11) 1 "generation").0)
    ⊎ ((e : Error) × (charge fixed first (pos 11) 1 "generation" ≡ (first, raise e))
        × ((fixed.less (pos 11) fixed.zero_float
              || over_iteration_limit fixed first
                  (fixed.add (iteration_total fixed first 1) (pos 11))
              || over_total_limit fixed first (fixed.add first.total_charged_usd (pos 11)))
            ≡ true))
charge-cases_example = charge-cases fixed first (pos 11) 1 "generation"

record_api_failure_exact_example :
    (record_api_failure fixed
      (fail_times fixed "teacher" "timeout" 2 (record_api_success fixed first))
      "teacher"
      "timeout").1
    ≡ (if leb 3 3 then raise api_circuit_open else ok tt)
unfolding charge
record_api_failure_exact_example = record_api_failure_exact fixed "teacher" "timeout" 2 first

-- amounts with a NaN, which is `none`
abbrev less_nan : Option ℤ → Option ℤ → Bool
less_nan (some a) (some b) = ltb_ℤ a b
less_nan _ _ = false

abbrev add_nan : Option ℤ → Option ℤ → Option ℤ
add_nan (some a) (some b) = some (a +ℤ b)
add_nan _ _ = none

abbrev with_nan : Platform
with_nan = record {
  Float = Option ℤ;
  zero_float = some (pos 0);
  one_float = some (pos 1000);
  tiny = some (pos 0);
  less = less_nan;
  add = add_nan;
  sub = λ a b. a;
  round_8 = λ a. a;
  is_close = λ a b. false;
  of_int = λ n. some (some n);
  is_finite = λ x. elim x [ none ↦ false | some n ↦ true ];
  sha256 = λ s. s;
  Datetime = String;
  fromisoformat = λ s. some s;
  has_offset = λ t. true;
  isoformat_utc = λ t. some t;
  format_int = λ n. "1";
}

abbrev nan_budget : BudgetConfig with_nan
nan_budget = record {
  total_limit_usd = some (pos 100);
  per_iteration_limit_usd = some (pos 30);
  max_consecutive_api_failures = 3;
}

-- A charge of NaN is accepted, and then one of any amount.
abbrev after_nan : CostLedger with_nan
after_nan = (charge with_nan (new_ledger with_nan nan_budget) none 1 "generation").0

nan_accepted : (charge with_nan (new_ledger with_nan nan_budget) none 1 "generation").1 ≡ ok tt
unfolding charge
nan_accepted = refl

nan_lifts_limits : (charge with_nan after_nan (some (pos 1000000)) 1 "generation").1 ≡ ok tt
unfolding charge
nan_lifts_limits = refl
