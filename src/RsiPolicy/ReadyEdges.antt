-- ===== src/RsiPolicy/ReadyEdges.antt =====
-- Every edge that `evaluate` and `_advance` of orchestration/rsi_policy.py ask for is acceptable
-- on ready inputs.
use post_training_rsi_pipeli.Prelude.{true, ok, ◌≡◌, refl, arith, leb, inl, inr, Bool-cases}
use post_training_rsi_pipeli.Platform.{Platform}
use post_training_rsi_pipeli.ControlPlane.Text.{is_id, is_text}
use post_training_rsi_pipeli.ControlPlane.Value.{field, float, end, normalize_json_object}
use post_training_rsi_pipeli.ControlPlane.Validation.{
  validate_finite_number, validate_nonnegative_number, validate_optional_id,
}
use post_training_rsi_pipeli.ControlPlane.Enums.StopReason.{StopReason}
use post_training_rsi_pipeli.ControlPlane.Records.StateSnapshot.{StateSnapshot}
use post_training_rsi_pipeli.ControlPlane.Records.StateSnapshot.Accepts as AcceptsSnapshot
use post_training_rsi_pipeli.RsiPolicy.Inputs.{RsiPolicyLimits, CandidateObservation}
use post_training_rsi_pipeli.RsiPolicy.Edges.{advance_edge}
use post_training_rsi_pipeli.RsiPolicy.Evaluate.{
  next_total_cost, budget_edge, promote_edge, rollback_edge, reject_edge, regression,
}
use post_training_rsi_pipeli.RsiPolicy.Ready.{
  Ready, CandidateFacts, candidate_facts, LimitFacts, limit_facts, peak_finite,
}
use post_training_rsi_pipeli.RsiPolicy.Built.{Common, EdgeReady}
use post_training_rsi_pipeli.RsiPolicy.BuiltRun.{RunEdgeReady}

module _ (P : Platform) where
  four_floats :
      (a b c d : P.Float)
      → P.is_finite a ≡ true
      → P.is_finite b ≡ true
      → P.is_finite c ≡ true
      → P.is_finite d ≡ true
      → normalize_json_object P (
          field "candidate_score" (float a) (
            field "peak_score_before"
              (float b)
              (field "score_delta" (float c) (field "min_improvement" (float d) end))))
        ≡ ok (
            field "candidate_score" (float a) (
              field "min_improvement"
                (float d)
                (field "peak_score_before" (float b) (field "score_delta" (float c) end))))
  unfolding normalize_json_object
  four_floats a b c d ha hb hc hd = rw (ha, hb, hc, hd)

  four_costs :
      (a b c d : P.Float)
      → P.is_finite a ≡ true
      → P.is_finite b ≡ true
      → P.is_finite c ≡ true
      → P.is_finite d ≡ true
      → normalize_json_object P (
          field "iteration_cost_usd" (float a) (
            field "run_total_usd"
              (float b)
              (field "per_iteration_limit_usd" (float c) (field "total_limit_usd" (float d) end))))
        ≡ ok (
            field "iteration_cost_usd" (float a) (
              field "per_iteration_limit_usd"
                (float c)
                (field "run_total_usd" (float b) (field "total_limit_usd" (float d) end))))
  unfolding normalize_json_object
  four_costs a b c d ha hb hc hd = rw (ha, hb, hc, hd)

  four_drops :
      (a b c d : P.Float)
      → P.is_finite a ≡ true
      → P.is_finite b ≡ true
      → P.is_finite c ≡ true
      → P.is_finite d ≡ true
      → normalize_json_object P (
          field "candidate_score" (float a) (
            field "peak_score_before"
              (float b)
              (field "regression" (float c) (field "regression_tolerance" (float d) end))))
        ≡ ok (
            field "candidate_score" (float a) (
              field "peak_score_before"
                (float b)
                (field "regression" (float c) (field "regression_tolerance" (float d) end))))
  unfolding normalize_json_object
  four_drops a b c d ha hb hc hd = rw (ha, hb, hc, hd)

module _ (P : Platform) (limits : RsiPolicyLimits P) (current : StateSnapshot P)
    (candidate : CandidateObservation P) (peak : P.Float) where
  budget_code_ok :
      (reason : StopReason)
      → is_id (budget_edge P limits current candidate reason peak).reason_code ≡ true
  unfolding budget_edge is_id
  budget_code_ok StopReason.completed = refl
  budget_code_ok _ = refl

  budget_reason_ok :
      (reason : StopReason)
      → is_text (budget_edge P limits current candidate reason peak).reason ≡ true
  unfolding budget_edge is_text
  budget_reason_ok StopReason.completed = refl
  budget_reason_ok _ = refl

module _ (P : Platform) (limits : RsiPolicyLimits P) (current : StateSnapshot P)
    (candidate : CandidateObservation P) (peak : P.Float)
    (r : Ready P limits current candidate peak) where
  abbrev pub facts : CandidateFacts P candidate
  facts = candidate_facts P candidate r.candidate_checked

  abbrev pub bounds : LimitFacts P limits
  bounds = limit_facts P limits r.limits_checked

  accepted : AcceptsSnapshot.Acceptable P current
  accepted = ((AcceptsSnapshot.post_init_exact_snapshot P current current).0 r.snapshot_checked).0

  pub common : Common P current candidate
  common = record { host = r.host; facts = facts; accepted = accepted; digits = r.digits }

  pub finite_peak : P.is_finite peak ≡ true
  finite_peak = peak_finite P limits current candidate peak r

  total_ok :
      validate_nonnegative_number P (next_total_cost P limits current candidate)
      ≡ ok (next_total_cost P limits current candidate)
  unfolding validate_nonnegative_number validate_finite_number
  total_ok = rw (r.total_finite, r.total_nonnegative)

  pub budget_ready :
      (reason : StopReason)
      → EdgeReady P current candidate
          (next_total_cost P limits current candidate)
          (budget_edge P limits current candidate reason peak)
  unfolding budget_edge is_id is_text
  budget_ready reason = record {
    fields = _;
    metadata_ok =
        four_costs P _ _ _ _ facts.cost_finite r.total_finite bounds.per_iteration_finite
          bounds.total_finite;
    code_ok = budget_code_ok P limits current candidate peak reason;
    reason_ok = budget_reason_ok P limits current candidate peak reason;
    decision_fits = refl;
    event_fits = refl;
    snapshot_fits = refl;
    peak_id_ok = accepted.peak_checkpoint_id_ok;
    peak_finite = finite_peak;
    cost_ok = total_ok;
  }

  pub promote_ready :
      EdgeReady P current candidate
        (next_total_cost P limits current candidate)
        (promote_edge P limits current candidate peak)
  unfolding promote_edge is_id is_text validate_optional_id
  promote_ready = record {
    fields = _;
    metadata_ok =
        four_floats P _ _ _ _ facts.score_finite finite_peak r.rise_finite
          bounds.min_improvement_finite;
    code_ok = refl;
    reason_ok = refl;
    decision_fits = refl;
    event_fits = refl;
    snapshot_fits = refl;
    peak_id_ok = rw facts.checkpoint_ok;
    peak_finite = facts.score_finite;
    cost_ok = total_ok;
  }

  regression_finite : P.is_finite (regression P limits current candidate peak) ≡ true
  unfolding regression
  regression_finite = ground (arith, r.drop_finite, r.zero_finite)

  pub rollback_ready :
      EdgeReady P current candidate
        (next_total_cost P limits current candidate)
        (rollback_edge P limits current candidate peak)
  unfolding rollback_edge is_id is_text
  rollback_ready = record {
    fields = _;
    metadata_ok =
        four_drops P _ _ _ _ facts.score_finite finite_peak regression_finite
          bounds.tolerance_finite;
    code_ok = refl;
    reason_ok = refl;
    decision_fits = refl;
    event_fits = refl;
    snapshot_fits = refl;
    peak_id_ok = accepted.peak_checkpoint_id_ok;
    peak_finite = finite_peak;
    cost_ok = total_ok;
  }

  pub reject_ready :
      EdgeReady P current candidate
        (next_total_cost P limits current candidate)
        (reject_edge P limits current candidate peak)
  unfolding reject_edge is_id is_text
  reject_ready = record {
    fields = _;
    metadata_ok =
        four_floats P _ _ _ _ facts.score_finite finite_peak r.rise_finite
          bounds.min_improvement_finite;
    code_ok = refl;
    reason_ok = refl;
    decision_fits = refl;
    event_fits = refl;
    snapshot_fits = refl;
    peak_id_ok = accepted.peak_checkpoint_id_ok;
    peak_finite = finite_peak;
    cost_ok = total_ok;
  }

  pub advance_ready : (s : StateSnapshot P) → RunEdgeReady P s candidate (advance_edge P limits s)
  unfolding advance_edge is_id is_text
  advance_ready s = elim (Bool-cases (leb limits.plateau_patience s.plateau_count)) [
    | inl a ↦ rw a (record {
      code_ok = refl;
      reason_ok = refl;
      decision_fits = refl;
      event_fits = refl;
      snapshot_fits = refl;
    })
    | inr a ↦ elim (Bool-cases (leb limits.max_iterations s.iteration)) [
      | inl b ↦
          rw (a, b)
            (record {
              code_ok = refl;
              reason_ok = refl;
              decision_fits = refl;
              event_fits = refl;
              snapshot_fits = refl;
            })
      | inr b ↦
          rw (a, b)
            (record {
              code_ok = refl;
              reason_ok = refl;
              decision_fits = refl;
              event_fits = refl;
              snapshot_fits = refl;
            })
    ]
  ]
