-- ===== src/Harness/Inner/Promotion.antt =====
-- The inner loop as an abstract machine: what the design of harness/model_inner_loop/ allows from a
-- snapshot to the position of the next.
use post_training_rsi_pipeli.Prelude.{
  ℕ, ◌+◌, ◌<◌, String, Option, some, none, ok, ◌≡◌, ◌⊎◌, inl, inr, true, false, arith,
}
use post_training_rsi_pipeli.Platform.{Platform}
use post_training_rsi_pipeli.ControlPlane.Enums.ControlState.{ControlState}
use post_training_rsi_pipeli.ControlPlane.Enums.StopReason.{StopReason}
use post_training_rsi_pipeli.ControlPlane.Records.StateSnapshot.{StateSnapshot}
use post_training_rsi_pipeli.Harness.Position.{Position, position}
use post_training_rsi_pipeli.Harness.Inner.Edges.{ModelInnerLimits, active_model_score}
use post_training_rsi_pipeli.Harness.Inner.Decisions.{improves, over_total_budget}

module _ (P : Platform) (limits : ModelInnerLimits P) where
  -- the position of `s`, with no candidate harness and no stop
  abbrev pub clear : StateSnapshot P → Position P
  clear s = record (position P s) { candidate_harness_id = none; stop_reason = none }

  abbrev InBudget : P.Float → Type 0
  InBudget cost = over_total_budget P limits cost ≡ false

  -- the candidate's score against that of the accepted model, as the snapshot has it
  abbrev pub Better : StateSnapshot P → P.Float → Type 0
  Better s b = (a : P.Float) × (active_model_score P s ≡ ok a) × (improves P limits a b ≡ true)

  pub data Move (s : StateSnapshot P) (t : Position P) : Type 0 where
    trained :
        (c : String) (cost : P.Float)
        → s.state ≡ ControlState.train_model
        → InBudget cost
        → t ≡ record (clear s) {
          state = ControlState.evaluate_model;
          candidate_checkpoint_id = some c;
          candidate_score = none;
          total_cost_usd = cost;
        }
        → Move s t
    abort :
        (c : Option String) (cost : P.Float) (why : StopReason)
        → (s.state ≡ ControlState.train_model) ⊎ (s.state ≡ ControlState.evaluate_model)
        → t ≡ record (clear s) {
          state = ControlState.aborted;
          candidate_checkpoint_id = c;
          total_cost_usd = cost;
          stop_reason = some why;
        }
        → Move s t
    -- better, and a review is required
    ask :
        (b cost : P.Float)
        → s.state ≡ ControlState.evaluate_model
        → Better s b
        → limits.approval_required ≡ true
        → InBudget cost
        → t ≡ record (clear s) {
          state = ControlState.model_review_pending;
          candidate_score = some b;
          total_cost_usd = cost;
        }
        → Move s t
    -- better, and none is
    promote :
        (b cost : P.Float)
        → s.state ≡ ControlState.evaluate_model
        → Better s b
        → limits.approval_required ≡ false
        → InBudget cost
        → t ≡ record (clear s) {
          state = ControlState.promote_model;
          candidate_score = some b;
          total_cost_usd = cost;
        }
        → Move s t
    reject :
        (a b cost : P.Float)
        → s.state ≡ ControlState.evaluate_model
        → active_model_score P s ≡ ok a
        → improves P limits a b ≡ false
        → InBudget cost
        → t ≡ record (clear s) {
          state = ControlState.rollback_model;
          candidate_score = some b;
          total_cost_usd = cost;
        }
        → Move s t
    approve :
        (b : P.Float)
        → s.state ≡ ControlState.model_review_pending
        → s.candidate_score ≡ some b
        → Better s b
        → t ≡ record (clear s) { state = ControlState.promote_model }
        → Move s t
    deny :
        s.state ≡ ControlState.model_review_pending
        → t ≡ record (clear s) { state = ControlState.rollback_model }
        → Move s t
    -- the only move that changes the accepted model
    commit :
        (c : String)
        → s.state ≡ ControlState.promote_model
        → s.candidate_checkpoint_id ≡ some c
        → t ≡ record (clear s) {
          state = ControlState.slim_harness;
          active_checkpoint_id = some c;
          peak_checkpoint_id = some c;
          candidate_checkpoint_id = none;
          candidate_score = none;
        }
        → Move s t
    restore :
        s.state ≡ ControlState.rollback_model
        → t ≡ record (clear s) {
          state = ControlState.freeze_model;
          cycle = s.cycle + 1;
          iteration = 0;
          candidate_checkpoint_id = none;
          candidate_score = none;
        }
        → Move s t

  -- a move to the position of a snapshot
  abbrev pub Step : StateSnapshot P → StateSnapshot P → Type 0
  Step s t = Move s (position P t)

  -- how many moves are left
  abbrev pub stage : ControlState → ℕ
  stage ControlState.train_model = 4
  stage ControlState.evaluate_model = 3
  stage ControlState.model_review_pending = 2
  stage ControlState.promote_model = 1
  stage ControlState.rollback_model = 1
  stage _ = 0

  pub Move-stage : (s : StateSnapshot P) (t : Position P) → Move s t → stage t.state < stage s.state
  Move-stage s t (trained c cost h b e) = rw (e, h) (omega arith)
  Move-stage s t (abort c cost why (inl h) e) = rw (e, h) (omega arith)
  Move-stage s t (abort c cost why (inr h) e) = rw (e, h) (omega arith)
  Move-stage s t (ask b cost h i r l e) = rw (e, h) (omega arith)
  Move-stage s t (promote b cost h i r l e) = rw (e, h) (omega arith)
  Move-stage s t (reject a b cost h p i l e) = rw (e, h) (omega arith)
  Move-stage s t (approve b h c i e) = rw (e, h) (omega arith)
  Move-stage s t (deny h e) = rw (e, h) (omega arith)
  Move-stage s t (commit c h d e) = rw (e, h) (omega arith)
  Move-stage s t (restore h e) = rw (e, h) (omega arith)
