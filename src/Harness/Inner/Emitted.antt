-- ===== src/Harness/Inner/Emitted.antt =====
-- What the edges of harness/model_inner_loop/policy.py have emitted, and the positions they reach.
use post_training_rsi_pipeli.Prelude.{
  none, ◌≡◌, Ensures, >>=-Ensures, raise_if-Ensures, is_empty, model_contract,
}
use post_training_rsi_pipeli.Platform.{Platform}
use post_training_rsi_pipeli.ControlPlane.Validation.{
  validate_id, validate_id_tuple, validate_nonnegative_number,
}
use post_training_rsi_pipeli.ControlPlane.Validation.Laws.{
  validate_id-Checked, validate_id_tuple-Checked, Checked-same,
}
use post_training_rsi_pipeli.ControlPlane.Records.StateSnapshot.{StateSnapshot}
use post_training_rsi_pipeli.Harness.Steps.{PolicyStep, or_default, edge_snapshot}
use post_training_rsi_pipeli.Harness.Steps.Emitted.{Emitted, emit-Emitted}
use post_training_rsi_pipeli.Harness.Position.{Position, position, Normalised-position}
use post_training_rsi_pipeli.Harness.Inner.Edges.{ModelEdge, edge_of, edge_from_snapshot}

module _ (P : Platform) (current : StateSnapshot P) (a : ModelEdge P) where
  abbrev pub EmittedFrom : PolicyStep P → Type 0
  EmittedFrom = Emitted P (edge_of P current a)

  pub edge_from_snapshot-Emitted : Ensures EmittedFrom (edge_from_snapshot P current a)
  unfolding edge_from_snapshot edge_of
  edge_from_snapshot-Emitted =
      >>=-Ensures EmittedFrom (validate_nonnegative_number P a.total_cost_usd) _ λ _ _.
        >>=-Ensures EmittedFrom (validate_id a.subject_id) _ λ id hi.
          >>=-Ensures EmittedFrom (validate_id_tuple a.evidence_ids) _ λ ids hs.
            raise_if-Ensures EmittedFrom (is_empty ids) model_contract _ λ _ step h.
              let same = Checked-same validate_id id a.subject_id hi (validate_id-Checked _) in
              let all_same =
                Checked-same validate_id_tuple ids a.evidence_ids hs
                  (validate_id_tuple-Checked _) in
              emit-Emitted P model_contract (edge_of P current a) step (rw (same, all_same) at h)

  -- where the edge leads
  abbrev pub reached : Position P
  reached = record (position P current) {
    cycle = or_default a.next_cycle current.cycle;
    iteration = or_default a.next_iteration current.iteration;
    state = a.to_state;
    active_checkpoint_id = a.active_checkpoint_id;
    candidate_checkpoint_id = a.candidate_checkpoint_id;
    peak_checkpoint_id = a.peak_checkpoint_id;
    candidate_harness_id = none;
    candidate_score = a.candidate_score;
    total_cost_usd = a.total_cost_usd;
    stop_reason = a.snapshot_stop_reason;
  }

  pub EmittedFrom-reached :
      (step : PolicyStep P) (x : EmittedFrom step) → position P x.snapshot ≡ reached
  unfolding edge_of edge_snapshot
  EmittedFrom-reached step x = Normalised-position P _ x.snapshot x.of_snapshot
