-- ===== src/Harness/Outer/Reached.antt =====
-- The positions that the edges of harness/outer_loop/policy.py reach.
use post_training_rsi_pipeli.Prelude.{
  ok, some, none, ◌≡◌, ap, ◌⊎◌, inl, inr, arith, leb, Bool-cases, String, opt_eq_iff,
}
use post_training_rsi_pipeli.Platform.{Platform}
use post_training_rsi_pipeli.ControlPlane.Validation.{validate_finite_number}
use post_training_rsi_pipeli.ControlPlane.Enums.ControlState.{ControlState, is_state_same}
use post_training_rsi_pipeli.ControlPlane.Records.StateSnapshot.{StateSnapshot}
use post_training_rsi_pipeli.Harness.Steps.{PolicyStep, edge_snapshot, or_default}
use post_training_rsi_pipeli.Harness.Position.{Position, position, Normalised-position}
use post_training_rsi_pipeli.Harness.Position.Walks.{Walk}
use post_training_rsi_pipeli.Harness.Outer.Edges.{
  HarnessOuterLimits, SnapshotEdge, edge_of, from_snapshot, required_active_score, require_state,
  require_candidate,
}
use post_training_rsi_pipeli.Harness.Outer.Moves.{plateau_edge, limit_edge, next_edge}
use post_training_rsi_pipeli.Harness.Outer.Policy.{advance_edge}
use post_training_rsi_pipeli.Harness.Outer.Emitted.{EmittedFrom, Settled}
use post_training_rsi_pipeli.Harness.Outer.Search.{Move, hand_off, again}

module _ (P : Platform) where
  -- where an edge leads
  abbrev pub reached : Position P → SnapshotEdge P → Position P
  reached s a = record s {
    iteration = or_default a.next_iteration s.iteration;
    state = a.to_state;
    candidate_checkpoint_id = none;
    active_harness_id = a.active_harness_id;
    candidate_harness_id = a.candidate_harness_id;
    candidate_score = a.candidate_score;
    peak_score = some a.peak_score;
    plateau_count = a.plateau_count;
    total_cost_usd = or_default a.total_cost_usd s.total_cost_usd;
    stop_reason = a.stop_reason;
  }

  pub EmittedFrom-reached :
      (current : StateSnapshot P) (a : SnapshotEdge P) (step : PolicyStep P)
      (x : EmittedFrom P current a step)
      → position P x.snapshot ≡ reached (position P current) a
  unfolding edge_of from_snapshot edge_snapshot
  EmittedFrom-reached current a step x = Normalised-position P _ x.snapshot x.of_snapshot

  pub required_active_score_known :
      (s : StateSnapshot P) (a : P.Float) → required_active_score P s ≡ ok a → s.peak_score ≡ some a
  unfolding required_active_score validate_finite_number
  required_active_score_known s a h = ground arith

  pub require_state_known :
      (s : StateSnapshot P) (expected : ControlState) {u : Unit {0}}
      → require_state P s expected ≡ ok u
      → s.state ≡ expected
  unfolding require_state
  require_state_known s expected h = ground (arith, is_state_same expected s.state)

  pub require_candidate_known :
      (s : StateSnapshot P) (c : String) {u : Unit {0}}
      → require_candidate P s c ≡ ok u
      → s.candidate_harness_id ≡ some c
  unfolding require_candidate
  require_candidate_known s c h = ground (arith, opt_eq_iff s.candidate_harness_id (some c))

  module _ (limits : HarnessOuterLimits P) where
    -- `_advance` moves on from a position that is settled
    pub advance-Move :
        (s : StateSnapshot P) (timestamp : String) (a : P.Float) (t : Position P)
        → (s.state ≡ ControlState.accept_harness) ⊎ (s.state ≡ ControlState.reject_harness)
        → s.peak_score ≡ some a
        → t ≡ reached (position P s) (advance_edge P limits s timestamp a)
        → Move P limits (position P s) t
    unfolding advance_edge plateau_edge limit_edge next_edge
    advance-Move s timestamp a t settled h e =
        elim (Bool-cases (leb limits.plateau_patience s.plateau_count)) [
          | inl over ↦ hand_off settled (inl (ground arith)) (ground arith)
          | inr below ↦ elim (Bool-cases (leb limits.max_iterations s.iteration)) [
            | inl last ↦ hand_off settled (inr (ground arith)) (ground arith)
            | inr more ↦ again settled (ground arith) (ground arith) (ground arith)
          ]
        ]

    -- one edge that is a move, and `_advance`
    pub Settled-Walk :
        (current : StateSnapshot P) (a : SnapshotEdge P) (timestamp : String) (step : PolicyStep P)
        → Settled P limits timestamp current a step
        → (a.to_state ≡ ControlState.accept_harness) ⊎ (a.to_state ≡ ControlState.reject_harness)
        → Move P limits (position P current) (reached (position P current) a)
        → Walk P (position P) (Move P limits) (position P current) step.snapshots
    Settled-Walk current a timestamp step x settled m =
        let there = EmittedFrom-reached current a x.first_step x.first in
        let over = EmittedFrom-reached x.first.snapshot _ x.last_step x.last in
        rw x.all_of (
          rw (← there) at m,
          (
            advance-Move x.first.snapshot timestamp x.active_score _
                (rw (← ap (λ p. p.state) there) at settled)
                (required_active_score_known x.first.snapshot x.active_score x.score_known) over,
            tt,
          ),
        )

    pub Emitted-Walk :
        (current : StateSnapshot P) (a : SnapshotEdge P) (step : PolicyStep P)
        → EmittedFrom P current a step
        → Move P limits (position P current) (reached (position P current) a)
        → Walk P (position P) (Move P limits) (position P current) step.snapshots
    Emitted-Walk current a step x m =
        rw x.all_of (rw (← EmittedFrom-reached current a step x) at m, tt)
