-- ===== src/Harness/Outer/Search.antt =====
-- The search of harness/outer_loop/ as an abstract machine: the moves between positions that the
-- design of the loop allows, without records, identifiers and metadata.
use post_training_rsi_pipeli.Prelude.{
  ℕ, ◌+◌, ◌-◌, ◌*◌, ◌≤◌, ◌<◌, String, some, none, ◌≡◌, ◌≢◌, refl, ◌∙◌, ◌⊎◌, inl, inr, true, false,
  arith,
}
use post_training_rsi_pipeli.Platform.{Platform}
use post_training_rsi_pipeli.ControlPlane.Enums.ControlState.{ControlState}
use post_training_rsi_pipeli.ControlPlane.Enums.StopReason.{StopReason}
use post_training_rsi_pipeli.Harness.Position.{Position}
use post_training_rsi_pipeli.Harness.Outer.Edges.{HarnessOuterLimits}
use post_training_rsi_pipeli.Harness.Outer.Policy.{improves, over_total_budget}

module _ (P : Platform) (limits : HarnessOuterLimits P) where
  abbrev clear : Position P → Position P
  clear s = record s { candidate_checkpoint_id = none; stop_reason = none }

  -- the cost of a move into `t`, within the budget of the run
  abbrev InBudget : P.Float → Type 0
  InBudget cost = over_total_budget P limits cost ≡ false

  pub data Move (s t : Position P) : Type 0 where
    propose :
        (c : String)
        → s.state ≡ ControlState.mutate_harness
        → s.active_harness_id ≢ some c
        → t ≡ record (clear s) {
          state = ControlState.validate_harness;
          candidate_harness_id = some c;
          candidate_score = none;
        }
        → Move s t
    pass :
        s.state ≡ ControlState.validate_harness
        → t ≡ record (clear s) { state = ControlState.evaluate_harness; candidate_score = none }
        → Move s t
    fail :
        s.state ≡ ControlState.validate_harness
        → t ≡ record (clear s) {
          state = ControlState.reject_harness;
          plateau_count = s.plateau_count + 1;
          candidate_score = none;
        }
        → Move s t
    -- an evaluated candidate waits for a review only if it is better
    ask :
        (a b cost : P.Float)
        → s.state ≡ ControlState.evaluate_harness
        → s.peak_score ≡ some a
        → improves P limits a b ≡ true
        → limits.approval_required ≡ true
        → InBudget cost
        → t ≡ record (clear s) {
          state = ControlState.harness_review_pending;
          candidate_score = some b;
          total_cost_usd = cost;
        }
        → Move s t
    -- without a review, the candidate replaces the harness only if it is better
    accept :
        (a b cost : P.Float)
        → s.state ≡ ControlState.evaluate_harness
        → s.peak_score ≡ some a
        → improves P limits a b ≡ true
        → limits.approval_required ≡ false
        → InBudget cost
        → t ≡ record (clear s) {
          state = ControlState.accept_harness;
          active_harness_id = s.candidate_harness_id;
          candidate_score = some b;
          peak_score = some b;
          plateau_count = 0;
          total_cost_usd = cost;
        }
        → Move s t
    reject :
        (a b cost : P.Float)
        → s.state ≡ ControlState.evaluate_harness
        → s.peak_score ≡ some a
        → improves P limits a b ≡ false
        → InBudget cost
        → t ≡ record (clear s) {
          state = ControlState.reject_harness;
          candidate_score = some b;
          plateau_count = s.plateau_count + 1;
          total_cost_usd = cost;
        }
        → Move s t
    abort :
        (b cost : P.Float) (stop : StopReason)
        → s.state ≡ ControlState.evaluate_harness
        → t ≡ record (clear s) {
          state = ControlState.aborted;
          candidate_score = some b;
          total_cost_usd = cost;
          stop_reason = some stop;
        }
        → Move s t
    approve :
        (b : P.Float)
        → s.state ≡ ControlState.harness_review_pending
        → s.candidate_score ≡ some b
        → t ≡ record (clear s) {
          state = ControlState.accept_harness;
          active_harness_id = s.candidate_harness_id;
          peak_score = some b;
          plateau_count = 0;
        }
        → Move s t
    deny :
        s.state ≡ ControlState.harness_review_pending
        → t ≡ record (clear s) {
          state = ControlState.reject_harness;
          plateau_count = s.plateau_count + 1;
        }
        → Move s t
    -- the search is over: plateau, or the last iteration
    hand_off :
        (s.state ≡ ControlState.accept_harness) ⊎ (s.state ≡ ControlState.reject_harness)
        → (limits.plateau_patience ≤ s.plateau_count) ⊎ (limits.max_iterations ≤ s.iteration)
        → t ≡ record (clear s) {
          state = ControlState.harvest_traces;
          candidate_harness_id = none;
          candidate_score = none;
        }
        → Move s t
    again :
        (s.state ≡ ControlState.accept_harness) ⊎ (s.state ≡ ControlState.reject_harness)
        → s.plateau_count < limits.plateau_patience
        → s.iteration < limits.max_iterations
        → t ≡ record (clear s) {
          state = ControlState.mutate_harness;
          iteration = s.iteration + 1;
          candidate_harness_id = none;
          candidate_score = none;
        }
        → Move s t

  -- how many moves an iteration may still make
  abbrev stage : ControlState → ℕ
  stage ControlState.mutate_harness = 5
  stage ControlState.validate_harness = 4
  stage ControlState.evaluate_harness = 3
  stage ControlState.harness_review_pending = 2
  stage ControlState.accept_harness = 1
  stage ControlState.reject_harness = 1
  stage _ = 0

  abbrev pub moves_left : Position P → ℕ
  moves_left s = 5 * (limits.max_iterations - s.iteration) + stage s.state

  pub Move-moves_left : (s t : Position P) → Move s t → moves_left t < moves_left s
  Move-moves_left s t (propose c h d e) = rw (e, h) (omega arith)
  Move-moves_left s t (pass h e) = rw (e, h) (omega arith)
  Move-moves_left s t (fail h e) = rw (e, h) (omega arith)
  Move-moves_left s t (ask a b cost h p i r l e) = rw (e, h) (omega arith)
  Move-moves_left s t (accept a b cost h p i r l e) = rw (e, h) (omega arith)
  Move-moves_left s t (reject a b cost h p i l e) = rw (e, h) (omega arith)
  Move-moves_left s t (abort b cost stop h e) = rw (e, h) (omega arith)
  Move-moves_left s t (approve b h c e) = rw (e, h) (omega arith)
  Move-moves_left s t (deny h e) = rw (e, h) (omega arith)
  Move-moves_left s t (hand_off (inl h) d e) = rw (e, h) (omega arith)
  Move-moves_left s t (hand_off (inr h) d e) = rw (e, h) (omega arith)
  Move-moves_left s t (again (inl h) p i e) = rw (e, h) (omega arith)
  Move-moves_left s t (again (inr h) p i e) = rw (e, h) (omega arith)

-- What a search must not touch.
abbrev pub Frozen : (P : Platform) → Position P → Position P → Type 0
Frozen P s t =
    (t.run_id ≡ s.run_id)
    × (t.cycle ≡ s.cycle)
    × (t.active_checkpoint_id ≡ s.active_checkpoint_id)
    × (t.peak_checkpoint_id ≡ s.peak_checkpoint_id)

module _ (P : Platform) where
  pub Frozen-refl : (s : Position P) → Frozen P s s
  Frozen-refl s = (refl, refl, refl, refl)

  pub Frozen-trans : (s t u : Position P) → Frozen P s t → Frozen P t u → Frozen P s u
  Frozen-trans s t u f g = (g.0 ∙ f.0, g.1 ∙ f.1, g.2 ∙ f.2, g.3 ∙ f.3)

  pub Move-Frozen :
      (limits : HarnessOuterLimits P) (s t : Position P) → Move P limits s t → Frozen P s t
  Move-Frozen limits s t (propose c h d e) = rw e (Frozen-refl s)
  Move-Frozen limits s t (pass h e) = rw e (Frozen-refl s)
  Move-Frozen limits s t (fail h e) = rw e (Frozen-refl s)
  Move-Frozen limits s t (ask a b cost h p i r l e) = rw e (Frozen-refl s)
  Move-Frozen limits s t (accept a b cost h p i r l e) = rw e (Frozen-refl s)
  Move-Frozen limits s t (reject a b cost h p i l e) = rw e (Frozen-refl s)
  Move-Frozen limits s t (abort b cost stop h e) = rw e (Frozen-refl s)
  Move-Frozen limits s t (approve b h c e) = rw e (Frozen-refl s)
  Move-Frozen limits s t (deny h e) = rw e (Frozen-refl s)
  Move-Frozen limits s t (hand_off h d e) = rw e (Frozen-refl s)
  Move-Frozen limits s t (again h p i e) = rw e (Frozen-refl s)
