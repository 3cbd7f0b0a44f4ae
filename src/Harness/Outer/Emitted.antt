-- ===== src/Harness/Outer/Emitted.antt =====
-- What the edges of harness/outer_loop/policy.py have emitted when they return.
use post_training_rsi_pipeli.Prelude.{
  String, ok, ◌≡◌, >>=-eq-ok, >>-eq-ok, Ensures, >>=-Ensures, raise_if-Ensures, is_empty,
  harness_contract, harness_invariant, ap,
}
use post_training_rsi_pipeli.Platform.{Platform}
use post_training_rsi_pipeli.ControlPlane.Validation.{
  validate_id, validate_id_tuple, validate_finite_number, validate_nonnegative_number,
}
use post_training_rsi_pipeli.ControlPlane.Validation.Laws.{
  validate_id-Checked, validate_id_tuple-Checked, Checked-same,
}
use post_training_rsi_pipeli.ControlPlane.Records.StateSnapshot.{StateSnapshot}
use post_training_rsi_pipeli.Harness.Steps.{PolicyStep, Edge, final_snapshot, combine}
use post_training_rsi_pipeli.Harness.Steps.Emitted.{Emitted, emit-Emitted, two_edges, combine_two}
use post_training_rsi_pipeli.Harness.Outer.Edges.{
  HarnessOuterLimits, EdgeArguments, SnapshotEdge, edge, edge_of, from_snapshot, edge_from_snapshot,
  required_active_score,
}
use post_training_rsi_pipeli.Harness.Outer.Policy.{advance_edge, advance, settle}

module _ (P : Platform) where
  pub edge-Emitted : (a : EdgeArguments P) → Ensures (Emitted P (edge_of P a)) (edge P a)
  unfolding edge edge_of
  edge-Emitted a =
      let Q = Emitted P (edge_of P a) in
      >>=-Ensures Q (validate_id a.subject_id) _ λ id hi.
        >>=-Ensures Q (validate_id_tuple a.evidence_ids) _ λ ids hs.
          raise_if-Ensures Q (is_empty ids) harness_contract _ λ _.
            >>=-Ensures Q (validate_finite_number P a.peak_score) _ λ _ _.
              >>=-Ensures Q (validate_nonnegative_number P a.total_cost_usd) _ λ _ _ step h.
                let same = Checked-same validate_id id a.subject_id hi (validate_id-Checked _) in
                let all_same =
                  Checked-same validate_id_tuple ids a.evidence_ids hs
                    (validate_id_tuple-Checked _) in
                emit-Emitted P harness_contract (edge_of P a) step (rw (same, all_same) at h)

  module _ (current : StateSnapshot P) (a : SnapshotEdge P) where
    abbrev pub EmittedFrom : PolicyStep P → Type 0
    EmittedFrom = Emitted P (edge_of P (from_snapshot P current a))

    pub edge_from_snapshot-Emitted : Ensures EmittedFrom (edge_from_snapshot P current a)
    unfolding edge_from_snapshot
    edge_from_snapshot-Emitted = edge-Emitted (from_snapshot P current a)

  -- Two edges: the second leaves the snapshot of the first.
  pub record EmittedTwo (e : Edge P) (more : StateSnapshot P → P.Float → SnapshotEdge P)
      (step : PolicyStep P) : Type 0 where
    pub first_step : PolicyStep P
    pub last_step : PolicyStep P
    pub first : Emitted P e first_step
    pub active_score : P.Float
    pub score_known : required_active_score P first.snapshot ≡ ok active_score
    pub last : EmittedFrom first.snapshot (more first.snapshot active_score) last_step
    pub all_of : step ≡ two_edges P first last

  module _ (limits : HarnessOuterLimits P) (timestamp : String) where
    abbrev after : StateSnapshot P → P.Float → SnapshotEdge P
    after s active_score = advance_edge P limits s timestamp active_score

    -- the second edge of a call, and the step that both make
    record Advanced (before : PolicyStep P) (s : StateSnapshot P) (step : PolicyStep P)
        : Type 0 where
      active_score : P.Float
      score_known : required_active_score P s ≡ ok active_score
      last : PolicyStep P
      last_passed : edge_from_snapshot P s (after s active_score) ≡ ok last
      combined : combine P harness_contract before last ≡ ok step

    advance-Advanced :
        (before : PolicyStep P) (s : StateSnapshot P)
        → final_snapshot P before ≡ ok s
        → Ensures (Advanced before s) (advance P limits before timestamp)
    unfolding advance
    advance-Advanced before s hs step h =
        let (_, h3) = >>-eq-ok _ harness_invariant _ (rw hs at h) in
        let (score, hp, h4) = >>=-eq-ok (required_active_score P s) _ h3 in
        let (l, hl, h5) = >>=-eq-ok (edge_from_snapshot P s (after s score)) _ h4 in
        record { active_score = score; score_known = hp; last = l; last_passed = hl; combined = h5 }

    module _ (current : StateSnapshot P) (a : SnapshotEdge P) where
      abbrev pub Settled : PolicyStep P → Type 0
      Settled = EmittedTwo (edge_of P (from_snapshot P current a)) after

      pub settle-Settled : Ensures Settled (settle P limits current a timestamp)
      unfolding settle
      settle-Settled step h =
          let (s, hs, h1) = >>=-eq-ok (edge_from_snapshot P current a) _ h in
          let x = edge_from_snapshot-Emitted current a s hs in
          let c = advance-Advanced s x.snapshot (ap (final_snapshot P) x.all_of) step h1 in
          let y = edge_from_snapshot-Emitted x.snapshot _ c.last c.last_passed in
          record {
            first_step = s;
            last_step = c.last;
            first = x;
            active_score = c.active_score;
            score_known = c.score_known;
            last = y;
            all_of = combine_two P harness_contract _ _ s c.last step x y c.combined;
          }
