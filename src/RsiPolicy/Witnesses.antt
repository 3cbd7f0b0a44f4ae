-- ===== src/RsiPolicy/Witnesses.antt =====
-- The theorems on the policy at concrete inputs.
use post_training_rsi_pipeli.Prelude.{
  pos, [], ◌∷◌, map, some, ok, true, false, ◌≡◌, ◌↔◌, refl, arith, inl,
}
use post_training_rsi_pipeli.Platform.Fixed.{fixed, fixed-IsIeee, fixed-IsHost}
use post_training_rsi_pipeli.ControlPlane.Text.{is_id, between, id_codes, is_alnum, is_id_char}
use post_training_rsi_pipeli.ControlPlane.Validation.{
  validate_id, validate_finite_number, validate_text, normalize_timestamp, parse_timestamp,
  validate_id_tuple, validate_nonnegative_number, validate_optional_id, validate_optional_number,
}
use post_training_rsi_pipeli.ControlPlane.Text.{
  is_text, is_control, is_space, offset_to_z, z_to_offset,
}
use post_training_rsi_pipeli.ControlPlane.Value
use post_training_rsi_pipeli.ControlPlane.Value.{normalize_json_object}
use post_training_rsi_pipeli.ControlPlane.Enums.ControlState
use post_training_rsi_pipeli.ControlPlane.Records.StateSnapshot
use post_training_rsi_pipeli.ControlPlane.Records.StateSnapshot.{StateSnapshot}
use post_training_rsi_pipeli.RsiPolicy.Inputs.{check_limits, check_observation}
use post_training_rsi_pipeli.RsiPolicy.Step.{RsiPolicyStep, final_snapshot, record_id, phase_of}
use post_training_rsi_pipeli.RsiPolicy.Edges.{validate_input}
use post_training_rsi_pipeli.Config.{
  BudgetConfig, RsiConfig, validate_budget, validate_rsi, positive_number, nonnegative_number,
  positive_integer, finite_number, nonempty_string,
}
use post_training_rsi_pipeli.RsiPolicy.FromConfig.{from_config_total}
use post_training_rsi_pipeli.RsiPolicy.Inputs.{RsiPolicyLimits, from_config}
use post_training_rsi_pipeli.RsiPolicy.Evaluate.{evaluate, next_total_cost}
use post_training_rsi_pipeli.RsiPolicy.Admission.{
  Admissible, validate_input-Admissible, evaluate-Admissible,
}
use post_training_rsi_pipeli.RsiPolicy.Outcomes.{visited, evaluate-visited}
use post_training_rsi_pipeli.RsiPolicy.Peak.{KeepsPeak, evaluate-KeepsPeak, evaluate_peak_monotone}
use post_training_rsi_pipeli.RsiPolicy.Progress.{
  NextRound, Charged, evaluate-NextRound, evaluate-Charged,
}
use post_training_rsi_pipeli.RsiPolicy.Chain.{Linked, evaluate-Linked}
use post_training_rsi_pipeli.RsiPolicy.Ids.{record_id-is_id}
use post_training_rsi_pipeli.RsiPolicy.Ready.{Ready}
use post_training_rsi_pipeli.RsiPolicy.Totality.{evaluate_total}
use post_training_rsi_pipeli.RsiPolicy.Tests.{limits, current, candidate, run_policy, step_of}

-- a candidate that becomes the Peak, and one that does not
abbrev better : RsiPolicyStep fixed
unfolding run_policy
better = step_of (run_policy (candidate 520 20))

abbrev worse : RsiPolicyStep fixed
unfolding run_policy
worse = step_of (run_policy (candidate 505 20))

better_returned : evaluate fixed limits current (candidate 520 20) ≡ ok better
unfolding run_policy
better_returned = refl

worse_returned : evaluate fixed limits current (candidate 505 20) ≡ ok worse
unfolding run_policy
worse_returned = refl

-- the last snapshot of each
abbrev last_better : StateSnapshot fixed
last_better = record current {
  snapshot_id = "snapshot-rsi-1-diagnose-0011223344556677";
  iteration = 2;
  state = ControlState.diagnose;
  entered_at = "2026-08-01T01:00:00Z";
  active_checkpoint_id = some "ckpt-1";
  peak_checkpoint_id = some "ckpt-1";
  peak_score = some (pos 520);
  total_cost_usd = pos 30;
  evidence_ids = "evidence-2" ∷ [];
  metadata =
      Value.field "decision_id" (Value.text "decision-rsi-1-diagnose-0011223344556677") Value.end;
}

better_last : final_snapshot fixed better ≡ ok last_better
unfolding run_policy
better_last = refl

limits_checked : check_limits fixed limits ≡ ok limits
unfolding check_limits validate_nonnegative_number validate_finite_number
limits_checked = refl

candidate_checked : check_observation fixed (candidate 520 20) ≡ ok (candidate 520 20)
unfolding check_observation validate_id validate_optional_id validate_finite_number
    validate_nonnegative_number normalize_timestamp parse_timestamp validate_text validate_id_tuple
    is_id is_text between id_codes is_alnum is_control is_id_char is_space offset_to_z z_to_offset
candidate_checked = refl

current_checked : StateSnapshot.post_init fixed current ≡ ok current
unfolding StateSnapshot.post_init validate_id validate_optional_id validate_text validate_id_tuple
    normalize_timestamp parse_timestamp is_id is_text between id_codes is_alnum is_control
    is_id_char is_space offset_to_z z_to_offset normalize_json_object validate_finite_number
    validate_optional_number validate_nonnegative_number
current_checked = refl

run_is_id : is_id "run-1" ≡ true
unfolding is_id between id_codes is_alnum is_id_char
run_is_id = refl

decision_is_id : is_id "decision" ≡ true
unfolding is_id between id_codes is_alnum is_id_char
decision_is_id = refl

inputs-Admissible : Admissible fixed current (candidate 520 20)
inputs-Admissible = record {
  run_is_id = run_is_id;
  in_evaluate = refl;
  same_iteration = refl;
  active_is_peak = refl;
  parent_is_active = refl;
  same_candidate = inl refl;
}

inputs-Ready : Ready fixed limits current (candidate 520 20) (pos 500)
unfolding next_total_cost
inputs-Ready = record {
  host = fixed-IsHost;
  admissible = inputs-Admissible;
  snapshot_checked = current_checked;
  candidate_checked = candidate_checked;
  limits_checked = limits_checked;
  peak_known = refl;
  zero_finite = refl;
  total_finite = refl;
  total_nonnegative = refl;
  rise_finite = refl;
  drop_finite = refl;
  digits = omega arith;
}

evaluate_total_example :
    (step : RsiPolicyStep fixed) × (evaluate fixed limits current (candidate 520 20) ≡ ok step)
evaluate_total_example =
    evaluate_total fixed limits current (candidate 520 20) (pos 500) inputs-Ready

evaluate-visited_example :
    map (λ s. s.state) better.snapshots ≡ visited fixed limits current (candidate 520 20) (pos 500)
evaluate-visited_example =
    evaluate-visited fixed limits current (candidate 520 20) better (pos 500) (omega arith) refl
      better_returned

evaluate-KeepsPeak_example : KeepsPeak fixed limits current (candidate 520 20) (pos 500) last_better
evaluate-KeepsPeak_example =
    evaluate-KeepsPeak fixed limits current (candidate 520 20) better last_better (pos 500) refl
      better_returned better_last

evaluate_peak_monotone_example : fixed.less (pos 520) (pos 500) ≡ false
evaluate_peak_monotone_example =
    evaluate_peak_monotone fixed limits current (candidate 520 20) better last_better (pos 500)
      (pos 520) fixed-IsIeee refl refl refl refl better_returned better_last refl

evaluate-NextRound_example : NextRound fixed limits current (candidate 520 20) last_better
evaluate-NextRound_example =
    evaluate-NextRound fixed limits current (candidate 520 20) better last_better better_returned
      better_last refl

evaluate-Charged_example : Charged fixed limits current (candidate 520 20) last_better
evaluate-Charged_example =
    evaluate-Charged fixed limits current (candidate 520 20) better last_better better_returned
      better_last

evaluate-Linked_example :
    Linked "run-1" ControlState.evaluate better.decisions better.transitions better.snapshots
evaluate-Linked_example =
    evaluate-Linked fixed limits current (candidate 520 20) better better_returned

validate_input-Admissible_example :
    (validate_input fixed current (candidate 520 20) ≡ ok tt)
    ↔ Admissible fixed current (candidate 520 20)
validate_input-Admissible_example = validate_input-Admissible fixed current (candidate 520 20)

evaluate-Admissible_example : Admissible fixed current (candidate 505 20)
evaluate-Admissible_example =
    evaluate-Admissible fixed current (candidate 505 20) limits worse worse_returned

record_id-is_id_example :
    is_id (record_id fixed "decision" "run-1" 7 (phase_of ControlState.rejected) "ckpt-1") ≡ true
record_id-is_id_example =
    record_id-is_id fixed "decision" "run-1" 7 ControlState.rejected "ckpt-1" fixed-IsHost
      decision_is_id (omega arith) (omega arith)

abbrev budget : BudgetConfig fixed
budget = record {
  total_limit_usd = pos 100;
  per_iteration_limit_usd = pos 30;
  max_consecutive_api_failures = 3;
}

abbrev rsi : RsiConfig fixed
rsi = record {
  max_iterations = 5;
  plateau_patience = 2;
  min_improvement = pos 5;
  regression_tolerance = pos 50;
  examples_per_iteration = 10;
  initial_score = pos 500;
  benchmark_id = "bench-1";
}

budget_accepted : validate_budget fixed budget ≡ ok tt
unfolding validate_budget positive_number positive_integer finite_number
budget_accepted = refl

rsi_accepted : validate_rsi fixed rsi ≡ ok tt
unfolding validate_rsi positive_integer nonnegative_number finite_number nonempty_string is_space
    between
rsi_accepted = refl

from_config_total_example :
    (made : RsiPolicyLimits fixed) × (from_config fixed rsi budget (pos 50) ≡ ok made)
    × (made.max_iterations ≡ 5)
    × (made.plateau_patience ≡ 2)
    × (made.min_improvement ≡ pos 5)
    × (made.regression_tolerance ≡ pos 50)
    × (made.per_iteration_budget_usd ≡ pos 30)
    × (made.total_budget_usd ≡ pos 100)
from_config_total_example =
    from_config_total fixed fixed-IsIeee rsi budget budget_accepted rsi_accepted
