-- ===== src/Harness/Outer/Start.antt =====
-- The first snapshot of a search, and how long the search can be.
use post_training_rsi_pipeli.Prelude.{
  ℕ, ◌*◌, ◌≤◌, none, some, ok, ◌≡◌, ◌∙◌, ap, sym, String, arith, Ensures, >>=-Ensures,
  raise_if-Ensures, harness_contract, is_empty,
}
use post_training_rsi_pipeli.Platform.{Platform}
use post_training_rsi_pipeli.ControlPlane.Value.{Fields}
use post_training_rsi_pipeli.ControlPlane.Validation.{
  validate_id, validate_id_tuple, validate_finite_number, validate_nonnegative_number,
}
use post_training_rsi_pipeli.ControlPlane.Enums.ControlState.{ControlState}
use post_training_rsi_pipeli.ControlPlane.Records.StateSnapshot.{StateSnapshot}
use post_training_rsi_pipeli.Harness.Steps.{PolicyStep, final_snapshot, edge_snapshot}
use post_training_rsi_pipeli.Harness.Steps.Emitted.{combine_two}
use post_training_rsi_pipeli.Harness.Position.{Position, position, Normalised-position}
use post_training_rsi_pipeli.Harness.Outer.Edges.{
  HarnessOuterLimits, edge, edge_of, edge_from_snapshot, check_limits,
}
use post_training_rsi_pipeli.Harness.Outer.Policy.{StartArguments, freeze_edge, begin_edge, start}
use post_training_rsi_pipeli.Harness.Outer.Emitted.{edge-Emitted, edge_from_snapshot-Emitted}
use post_training_rsi_pipeli.Harness.Outer.Reached.{EmittedFrom-reached}
use post_training_rsi_pipeli.Harness.Outer.Runs.{Run, Run-bound}

module _ (P : Platform) (canonical_json : Fields P → String) (a : StartArguments P) where
  -- where a search starts
  abbrev pub started : Position P
  started = record {
    run_id = a.run_id;
    cycle = a.cycle;
    iteration = 1;
    state = ControlState.mutate_harness;
    active_checkpoint_id = some a.active_model_checkpoint_id;
    candidate_checkpoint_id = none;
    peak_checkpoint_id = some a.active_model_checkpoint_id;
    active_harness_id = some a.active_harness.harness_id;
    candidate_harness_id = none;
    candidate_score = none;
    peak_score = some a.active_score;
    plateau_count = 0;
    total_cost_usd = a.total_cost_usd;
    stop_reason = none;
  }

  abbrev Started : PolicyStep P → Type 0
  Started step = (s : StateSnapshot P) × (final_snapshot P step ≡ ok s) × (position P s ≡ started)

  -- A call of start that returns ends in iteration 1 of the search, before its first mutation, with
  -- the given model as active and Peak checkpoint and the given harness, score and cost.
  pub start-Started : Ensures Started (start P canonical_json a)
  unfolding start freeze_edge begin_edge edge_of edge_snapshot
  start-Started = >>=-Ensures Started (validate_id a.run_id) _ λ _ _.
      >>=-Ensures Started (validate_id a.active_model_checkpoint_id) _ λ _ _.
        >>=-Ensures Started (validate_finite_number P a.active_score) _ λ _ _.
          >>=-Ensures Started (validate_nonnegative_number P a.total_cost_usd) _ λ _ _.
            >>=-Ensures Started (validate_id_tuple a.evidence_ids) _ λ ids _.
              raise_if-Ensures Started (is_empty ids) harness_contract _ λ _.
                >>=-Ensures Started (edge P (freeze_edge P canonical_json a)) _ λ frozen hf.
                  >>=-Ensures Started (final_snapshot P frozen) _ λ s hs.
                    >>=-Ensures Started (edge_from_snapshot P s (begin_edge P canonical_json a)) _
                      λ mutate hm step h.
                        let x = edge-Emitted P (freeze_edge P canonical_json a) frozen hf in
                        let y =
                          edge_from_snapshot-Emitted P s (begin_edge P canonical_json a) mutate
                            hm in
                        let all = combine_two P harness_contract _ _ frozen mutate step x y h in
                        let first : s ≡ x.snapshot = ground (arith, hs, x.all_of) in
                        let before : position P s
                            ≡ position P
                                (edge_snapshot P (edge_of P (freeze_edge P canonical_json a))) =
                          ap (position P) first
                          ∙ Normalised-position P _ x.snapshot x.of_snapshot in
                        (
                          y.snapshot,
                          ap (final_snapshot P) all,
                          EmittedFrom-reached P s (begin_edge P canonical_json a) mutate y
                              ∙ ground (arith, before),
                        )

  -- With limits that their class accepts, a search makes at most 5 * max_iterations calls after
  -- start, whatever the calls observe, when start and the calls return.
  pub search_bounded :
      (limits : HarnessOuterLimits P) (step : PolicyStep P) (s t : StateSnapshot P) (n : ℕ)
      → check_limits P limits ≡ ok limits
      → start P canonical_json a ≡ ok step
      → final_snapshot P step ≡ ok s
      → Run P canonical_json limits s n t
      → n ≤ 5 * limits.max_iterations
  unfolding check_limits
  search_bounded limits step s t n hl h hs r =
      let (s', hs', there) = start-Started step h in
      let same : s' ≡ s = ground (arith, hs, hs') in
      let here : position P s ≡ started = ap (position P) (sym same) ∙ there in
      let round : s.iteration ≡ 1 = ap (λ p. p.iteration) here in
      let state : s.state ≡ ControlState.mutate_harness = ap (λ p. p.state) here in
      let bound = rw (round, state) at (Run-bound P canonical_json limits s t n r) in
      ground (arith, hl, bound)
