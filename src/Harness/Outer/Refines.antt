-- ===== src/Harness/Outer/Refines.antt =====
-- The operations of `HarnessOuterPolicy` (harness/outer_loop/policy.py) implement the abstract
-- search: every snapshot that they emit is one move from the one before.
use post_training_rsi_pipeli.Prelude.{
  ok, Outcome, ◌>>=◌, ◌>>◌, none, some, String, List, refl, ◌⊎◌, ◌≡◌, inl, inr, arith, Ensures,
  >>=-Ensures, raise_if-Ensures, if-Ensures, not, opt_eq, opt_eq_iff, is_empty, harness_invariant,
  harness_contract, false,
}
use post_training_rsi_pipeli.Platform.{Platform}
use post_training_rsi_pipeli.ControlPlane.Value.{Fields}
use post_training_rsi_pipeli.ControlPlane.Validation.{validate_id_tuple}
use post_training_rsi_pipeli.ControlPlane.Enums.ControlState.{ControlState}
use post_training_rsi_pipeli.ControlPlane.Enums.StopReason.{StopReason}
use post_training_rsi_pipeli.ControlPlane.Records.StateSnapshot.{StateSnapshot}
use post_training_rsi_pipeli.Harness.Steps.{PolicyStep}
use post_training_rsi_pipeli.Harness.Position.{position}
use post_training_rsi_pipeli.Harness.Position.Walks.{Walk}
use post_training_rsi_pipeli.Harness.Outer.Contracts.{
  HarnessSpec, HarnessValidationResult, HarnessBenchmarkResult, HarnessReviewObservation,
}
use post_training_rsi_pipeli.Harness.Outer.Edges.{
  HarnessOuterLimits, SnapshotEdge, edge_from_snapshot, require_state, require_frozen_model,
  require_candidate, required_active_score,
}
use post_training_rsi_pipeli.Harness.Outer.Moves.{
  candidate_edge, valid_edge, invalid_edge, review_edge, accept_edge, reject_edge, abort_edge,
  approved_edge, denied_edge,
}
use post_training_rsi_pipeli.Harness.Outer.Policy.{
  candidate_created, validation_completed, settle_validation, settle, improves,
  over_iteration_budget, over_total_budget, settle_evaluation, budget_abort, evaluation_completed,
  settle_review, evaluated_score, review_completed,
}
use post_training_rsi_pipeli.Harness.Outer.Emitted.{edge_from_snapshot-Emitted, settle-Settled}
use post_training_rsi_pipeli.Harness.Outer.Search.{
  Move, propose, pass, fail, ask, accept, reject, abort, approve, deny,
}
use post_training_rsi_pipeli.Harness.Outer.Reached.{
  reached, required_active_score_known, require_state_known, require_candidate_known, Settled-Walk,
  Emitted-Walk,
}

module _ (P : Platform) (limits : HarnessOuterLimits P) (current : StateSnapshot P) where
  -- the emitted snapshots follow the moves of the search, from the current one
  abbrev pub Follows : PolicyStep P → Type 0
  Follows step = Walk P (position P) (Move P limits) (position P current) step.snapshots

  edge-Follows :
      (a : SnapshotEdge P)
      → Move P limits (position P current) (reached P (position P current) a)
      → Ensures Follows (edge_from_snapshot P current a)
  edge-Follows a m step h =
      Emitted-Walk P limits current a step (edge_from_snapshot-Emitted P current a step h) m

  settle-Follows :
      (a : SnapshotEdge P) (timestamp : String)
      → (a.to_state ≡ ControlState.accept_harness) ⊎ (a.to_state ≡ ControlState.reject_harness)
      → Move P limits (position P current) (reached P (position P current) a)
      → Ensures Follows (settle P limits current a timestamp)
  settle-Follows a timestamp settled m step h =
      Settled-Walk P limits current a timestamp step
        (settle-Settled P limits timestamp current a step h) settled m

  -- What the checks on the state, the frozen model, the candidate and the score ensure.
  checked-Follows :
      (state : ControlState) (c : String) (rest : P.Float → Outcome (PolicyStep P))
      → ((a : P.Float)
          → current.state ≡ state
          → current.candidate_harness_id ≡ some c
          → current.peak_score ≡ some a
          → Ensures Follows (rest a))
      → Ensures Follows (
          require_state P current state
          >> (require_frozen_model P current
              >> (require_candidate P current c >> (required_active_score P current >>= rest))))
  checked-Follows state c rest r = >>=-Ensures Follows (require_state P current state) _ λ _ hs.
      >>=-Ensures Follows (require_frozen_model P current) _ λ _ _.
        >>=-Ensures Follows (require_candidate P current c) _ λ _ hc.
          >>=-Ensures Follows (required_active_score P current) rest λ a ha.
            r a (require_state_known P current state hs) (require_candidate_known P current c hc)
              (required_active_score_known P current a ha)

  -- A proposal is a move of the search.
  pub candidate_created-Follows :
      (canonical_json : Fields P → String) (candidate : HarnessSpec P) (created_at : String)
      (evidence_ids : List String)
      → Ensures Follows
          (candidate_created P canonical_json current candidate created_at evidence_ids)
  unfolding candidate_created candidate_edge
  candidate_created-Follows canonical_json candidate created_at evidence_ids =
      >>=-Ensures Follows (require_state P current ControlState.mutate_harness) _ λ _ hs.
        >>=-Ensures Follows (require_frozen_model P current) _ λ _ _.
          raise_if-Ensures Follows (opt_eq current.active_harness_id none) harness_invariant _ λ _.
            raise_if-Ensures Follows
              (not (opt_eq candidate.parent_harness_id current.active_harness_id)) harness_invariant
              _
              λ _.
                raise_if-Ensures Follows
                  (opt_eq (some candidate.harness_id) current.active_harness_id) harness_invariant _
                  λ other. >>=-Ensures Follows (validate_id_tuple evidence_ids) _ λ ids _.
                    raise_if-Ensures Follows (is_empty ids) harness_contract _ λ _.
                      >>=-Ensures Follows (required_active_score P current) _ λ a ha.
                        let known = required_active_score_known P current a ha in
                        edge-Follows _ (
                          propose candidate.harness_id
                            (require_state_known P current ControlState.mutate_harness hs)
                            (λ same. ground (
                              arith,
                              other,
                              opt_eq_iff (some candidate.harness_id) current.active_harness_id,
                            ))
                            (ground (arith, known)))

  pub validation_completed-Follows :
      (result : HarnessValidationResult P)
      → Ensures Follows (validation_completed P limits current result)
  unfolding validation_completed settle_validation valid_edge invalid_edge
  validation_completed-Follows result =
      checked-Follows ControlState.validate_harness result.candidate_harness_id
        (settle_validation P limits current result)
        λ a hs hc ha.
          if-Ensures Follows result.valid _ _
            (λ _. edge-Follows (valid_edge P current result a) (pass hs (ground arith)))
            (λ _.
              settle-Follows (invalid_edge P current result a) result.validated_at (inr refl)
                (fail hs (ground arith)))

  settle_evaluation-Follows :
      (result : HarnessBenchmarkResult P) (a cost : P.Float)
      → current.state ≡ ControlState.evaluate_harness
      → current.candidate_harness_id ≡ some result.harness_id
      → current.peak_score ≡ some a
      → over_total_budget P limits cost ≡ false
      → Ensures Follows (settle_evaluation P limits current result a cost)
  unfolding settle_evaluation review_edge accept_edge reject_edge
  settle_evaluation-Follows result a cost hs hc ha hb =
      if-Ensures Follows (improves P limits a result.score) _ _
        (λ better.
          if-Ensures Follows limits.approval_required _ _
            (λ required.
              edge-Follows (review_edge P limits current result a cost)
                (ask a result.score cost hs ha better required hb (ground arith)))
            (λ free.
              settle-Follows (accept_edge P limits current result a cost) result.evaluated_at
                (inl refl) (accept a result.score cost hs ha better free hb (ground arith))))
        (λ worse.
          settle-Follows (reject_edge P limits current result a cost) result.evaluated_at (inr refl)
            (reject a result.score cost hs ha worse hb (ground arith)))

  abort-Follows :
      (result : HarnessBenchmarkResult P) (a cost : P.Float) (stop : StopReason)
      → current.state ≡ ControlState.evaluate_harness
      → current.candidate_harness_id ≡ some result.harness_id
      → current.peak_score ≡ some a
      → Ensures Follows (budget_abort P limits current result a cost stop)
  unfolding budget_abort abort_edge
  abort-Follows result a cost stop hs hc ha =
      edge-Follows (abort_edge P limits current result a cost stop)
        (abort result.score cost stop hs (ground arith))

  -- An evaluation stops at a budget, waits for a review, or settles the candidate and moves on.
  pub evaluation_completed-Follows :
      (result : HarnessBenchmarkResult P)
      → Ensures Follows (evaluation_completed P limits current result)
  unfolding evaluation_completed
  evaluation_completed-Follows result =
      checked-Follows ControlState.evaluate_harness result.harness_id _ λ a hs hc ha.
        let cost = P.add current.total_cost_usd result.cost_usd in
        if-Ensures Follows (over_iteration_budget P limits result.cost_usd) _ _
          (λ _. abort-Follows result a cost StopReason.per_iteration_budget_exceeded hs hc ha)
          (λ _.
            if-Ensures Follows (over_total_budget P limits cost) _ _
              (λ _. abort-Follows result a cost StopReason.total_budget_exceeded hs hc ha)
              (λ fits. settle_evaluation-Follows result a cost hs hc ha fits))

  evaluated_score_known :
      (b : P.Float) → evaluated_score P limits current ≡ ok b → current.candidate_score ≡ some b
  unfolding evaluated_score
  evaluated_score_known b h = ground arith

  pub review_completed-Follows :
      (review : HarnessReviewObservation)
      → Ensures Follows (review_completed P limits current review)
  unfolding review_completed settle_review approved_edge denied_edge
  review_completed-Follows review =
      >>=-Ensures Follows (require_state P current ControlState.harness_review_pending) _ λ _ hs.
        >>=-Ensures Follows (require_frozen_model P current) _ λ _ _.
          >>=-Ensures Follows (require_candidate P current review.candidate_harness_id) _ λ _ hc.
            >>=-Ensures Follows (evaluated_score P limits current) _ λ b hb.
              >>=-Ensures Follows (required_active_score P current) _ λ a ha.
                let state = require_state_known P current _ hs in
                let score = evaluated_score_known b hb in
                let known = required_active_score_known P current a ha in
                let waits = require_candidate_known P current _ hc in
                if-Ensures Follows review.approved _ _
                  (λ _.
                    settle-Follows (approved_edge P current review b a) review.decided_at (inl refl)
                      (approve b state score (ground (arith, waits, score))))
                  (λ _.
                    settle-Follows (denied_edge P current review b a) review.decided_at (inr refl)
                      (deny state (ground (arith, waits, score, known))))
