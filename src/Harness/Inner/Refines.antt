-- ===== src/Harness/Inner/Refines.antt =====
-- The operations of `ModelInnerPolicy` (harness/model_inner_loop/policy.py) implement the abstract
-- inner loop: the snapshot that they emit is one move from the current one.
use post_training_rsi_pipeli.Prelude.{
  ok, Outcome, String, List, some, refl, ◌⊎◌, ◌≡◌, inl, inr, arith, Ensures, >>=-Ensures,
  raise_if-Ensures, if-Ensures, true, false, not, opt_eq, opt_eq_iff, model_invariant,
}
use post_training_rsi_pipeli.Platform.{Platform}
use post_training_rsi_pipeli.ControlPlane.Enums.ControlState.{ControlState, is_state_same}
use post_training_rsi_pipeli.ControlPlane.Enums.StopReason.{StopReason}
use post_training_rsi_pipeli.ControlPlane.Records.StateSnapshot.{StateSnapshot}
use post_training_rsi_pipeli.Harness.Steps.{PolicyStep}
use post_training_rsi_pipeli.Harness.Position.Walks.{Walk}
use post_training_rsi_pipeli.Harness.Inner.Contracts.{
  ModelCandidateArtifact, ModelBenchmarkObservation, ModelReviewObservation,
  ModelPromotionCommitObservation, ModelRollbackCommitObservation,
}
use post_training_rsi_pipeli.Harness.Inner.Edges.{
  ModelInnerLimits, ModelEdge, edge_from_snapshot, require_state, validate_active_lineage,
  active_model_score, validate_candidate_lineage, validate_evaluation_lineage,
}
use post_training_rsi_pipeli.Harness.Inner.Decisions.{
  verdict_edge, promotion_decision, rollback_decision, abort_edge, budget_abort, over_stage_budget,
  over_total_budget, charge_stage, improves,
}
use post_training_rsi_pipeli.Harness.Inner.Policy.{
  trained_edge, train, training_completed, review_edge, promote_verdict, rollback_verdict,
  settle_evaluation, judge, evaluation_completed,
}
use post_training_rsi_pipeli.Harness.Inner.Commits.{
  approved_verdict, denied_verdict, settle_review, evaluated_score, review_completed, score_differs,
  promoted_edge, promotion_committed, rolled_back_edge, rollback_committed,
}
use post_training_rsi_pipeli.Harness.Inner.Emitted.{
  edge_from_snapshot-Emitted, reached, EmittedFrom-reached,
}
use post_training_rsi_pipeli.Harness.Inner.Promotion.{
  Move, Step, trained, abort, ask, promote, reject, approve, deny, commit, restore,
}

module _ (P : Platform) (limits : ModelInnerLimits P) (current : StateSnapshot P) where
  -- the emitted snapshots follow the moves of the inner loop, from the current one
  abbrev pub Follows : PolicyStep P → Type 0
  Follows step = Walk P (λ s. s) (Step P limits) current step.snapshots

  edge-Follows :
      (a : ModelEdge P)
      → Move P limits current (reached P current a)
      → Ensures Follows (edge_from_snapshot P current a)
  edge-Follows a m step h =
      let x = edge_from_snapshot-Emitted P current a step h in
      rw x.all_of (rw (← EmittedFrom-reached P current a step x) at m, tt)

  require_state_known :
      (expected : ControlState) {u : Unit {0}}
      → require_state P current expected ≡ ok u
      → current.state ≡ expected
  unfolding require_state
  require_state_known expected h = ground (arith, is_state_same expected current.state)

  charge_stage-Follows :
      (subject_id stage : String) (cost : P.Float) (timestamp : String) (evidence_ids : List String)
      (rest : P.Float → Outcome (PolicyStep P))
      → (current.state ≡ ControlState.train_model) ⊎ (current.state ≡ ControlState.evaluate_model)
      → ((total : P.Float)
          → over_total_budget P limits total ≡ false
          → Ensures Follows (rest total))
      → Ensures Follows
          (charge_stage P limits current subject_id stage cost timestamp evidence_ids rest)
  unfolding charge_stage budget_abort abort_edge
  charge_stage-Follows subject_id stage cost timestamp evidence_ids rest hs r =
      let total = P.add current.total_cost_usd cost in
      let over = abort_edge P limits current subject_id stage cost total timestamp evidence_ids in
      if-Ensures Follows (over_stage_budget P limits cost) _ _
        (λ _.
          edge-Follows (over StopReason.per_iteration_budget_exceeded)
            (abort _ total StopReason.per_iteration_budget_exceeded hs refl))
        (λ _.
          if-Ensures Follows (over_total_budget P limits total) _ _
            (λ _.
              edge-Follows (over StopReason.total_budget_exceeded)
                (abort _ total StopReason.total_budget_exceeded hs refl))
            (λ fits. r total fits))

  pub training_completed-Follows :
      (candidate : ModelCandidateArtifact P)
      → Ensures Follows (training_completed P limits current candidate)
  unfolding training_completed train trained_edge
  training_completed-Follows candidate =
      >>=-Ensures Follows (require_state P current ControlState.train_model) _ λ _ hs.
        >>=-Ensures Follows (validate_active_lineage P current) _ λ _ _.
          >>=-Ensures Follows (validate_candidate_lineage P current candidate) _ λ _ _.
            let state = require_state_known ControlState.train_model hs in
            charge_stage-Follows candidate.checkpoint_id "training" candidate.training_cost_usd
              candidate.trained_at candidate.evidence_ids (train P limits current candidate)
              (inl state)
              λ total fits. >>=-Ensures Follows (active_model_score P current) _ λ a _.
                edge-Follows (trained_edge P limits current candidate total a)
                  (trained candidate.checkpoint_id total state fits refl)

  -- What the check on the candidate of an evaluation ensures.
  evaluation_known :
      (o : ModelBenchmarkObservation P) {u : Unit {0}}
      → validate_evaluation_lineage P current o ≡ ok u
      → current.candidate_checkpoint_id ≡ some o.checkpoint_id
  unfolding validate_evaluation_lineage
  evaluation_known o h =
      ground (arith, opt_eq_iff (some o.checkpoint_id) current.candidate_checkpoint_id)

  settle_evaluation-Follows :
      (o : ModelBenchmarkObservation P) (total a : P.Float)
      → current.state ≡ ControlState.evaluate_model
      → current.candidate_checkpoint_id ≡ some o.checkpoint_id
      → active_model_score P current ≡ ok a
      → over_total_budget P limits total ≡ false
      → Ensures Follows (settle_evaluation P limits current o total a)
  unfolding settle_evaluation review_edge promotion_decision rollback_decision verdict_edge
      promote_verdict rollback_verdict
  settle_evaluation-Follows o total a hs hc ha fits =
      if-Ensures Follows (improves P limits a o.score) _ _
        (λ better.
          if-Ensures Follows limits.approval_required _ _
            (λ required.
              edge-Follows (review_edge P limits current o total a)
                (ask o.score total hs (a, ha, better) required fits (ground (arith, hc))))
            (λ free.
              edge-Follows _
                (promote o.score total hs (a, ha, better) free fits (ground (arith, hc)))))
        (λ worse. edge-Follows _ (reject a o.score total hs ha worse fits (ground (arith, hc))))

  pub evaluation_completed-Follows :
      (o : ModelBenchmarkObservation P) → Ensures Follows (evaluation_completed P limits current o)
  unfolding evaluation_completed judge
  evaluation_completed-Follows o =
      >>=-Ensures Follows (require_state P current ControlState.evaluate_model) _ λ _ hs.
        >>=-Ensures Follows (validate_active_lineage P current) _ λ _ _.
          >>=-Ensures Follows (validate_evaluation_lineage P current o) _ λ _ hc.
            let state = require_state_known ControlState.evaluate_model hs in
            charge_stage-Follows o.checkpoint_id "evaluation" o.evaluation_cost_usd o.evaluated_at
              o.evidence_ids (judge P limits current o) (inr state)
              λ total fits.
                >>=-Ensures Follows (active_model_score P current) _
                  λ a ha. settle_evaluation-Follows o total a state (evaluation_known o hc) ha fits

  evaluated_score_known :
      (r : ModelReviewObservation) (b : P.Float)
      → evaluated_score P limits current r ≡ ok b
      → current.candidate_score ≡ some b
  unfolding evaluated_score
  evaluated_score_known r b h = ground arith

  settle_review-Follows :
      (r : ModelReviewObservation) (a b : P.Float)
      → current.state ≡ ControlState.model_review_pending
      → current.candidate_checkpoint_id ≡ some r.checkpoint_id
      → current.candidate_score ≡ some b
      → active_model_score P current ≡ ok a
      → improves P limits a b ≡ true
      → Ensures Follows (settle_review P limits current r b)
  unfolding settle_review promotion_decision rollback_decision verdict_edge approved_verdict
      denied_verdict
  settle_review-Follows r a b hs hc hb ha better =
      if-Ensures Follows r.approved _ _
        (λ _. edge-Follows _ (approve b hs hb (a, ha, better) (ground (arith, hc, hb))))
        (λ _. edge-Follows _ (deny hs (ground (arith, hc, hb))))

  pub review_completed-Follows :
      (r : ModelReviewObservation) → Ensures Follows (review_completed P limits current r)
  unfolding review_completed
  review_completed-Follows r =
      >>=-Ensures Follows (require_state P current ControlState.model_review_pending) _ λ _ hs.
        >>=-Ensures Follows (validate_active_lineage P current) _ λ _ _.
          raise_if-Ensures Follows
            (not (opt_eq current.candidate_checkpoint_id (some r.checkpoint_id))) model_invariant _
            λ hc. >>=-Ensures Follows (evaluated_score P limits current r) _ λ b hb.
              >>=-Ensures Follows (active_model_score P current) _ λ a ha.
                raise_if-Ensures Follows (not (improves P limits a b)) model_invariant _ λ better.
                  settle_review-Follows r a b
                    (require_state_known ControlState.model_review_pending hs)
                    (ground (
                      arith,
                      hc,
                      opt_eq_iff current.candidate_checkpoint_id (some r.checkpoint_id),
                    ))
                    (evaluated_score_known r b hb) ha (ground (arith, better))

  pub promotion_committed-Follows :
      (o : ModelPromotionCommitObservation P)
      → Ensures Follows (promotion_committed P limits current o)
  unfolding promotion_committed promoted_edge
  promotion_committed-Follows o =
      >>=-Ensures Follows (require_state P current ControlState.promote_model) _ λ _ hs.
        >>=-Ensures Follows (validate_active_lineage P current) _ λ _ _.
          raise_if-Ensures Follows
            (not (opt_eq current.candidate_checkpoint_id (some o.checkpoint_id))) model_invariant _
            λ hc.
              raise_if-Ensures Follows
                (not (opt_eq current.active_checkpoint_id (some o.previous_checkpoint_id)))
                model_invariant _
                λ _.
                  raise_if-Ensures Follows (score_differs P limits current o.score) model_invariant
                    _
                    λ _. edge-Follows (promoted_edge P limits current o) (
                      commit o.checkpoint_id (require_state_known ControlState.promote_model hs)
                        (ground (
                          arith,
                          hc,
                          opt_eq_iff current.candidate_checkpoint_id (some o.checkpoint_id),
                        ))
                        refl)

  pub rollback_committed-Follows :
      (o : ModelRollbackCommitObservation) → Ensures Follows (rollback_committed P limits current o)
  unfolding rollback_committed rolled_back_edge
  rollback_committed-Follows o =
      >>=-Ensures Follows (require_state P current ControlState.rollback_model) _ λ _ hs.
        >>=-Ensures Follows (validate_active_lineage P current) _ λ _ _.
          raise_if-Ensures Follows
            (not (opt_eq current.candidate_checkpoint_id (some o.rejected_checkpoint_id)))
            model_invariant _
            λ _.
              raise_if-Ensures Follows
                (not (opt_eq current.active_checkpoint_id (some o.active_checkpoint_id)))
                model_invariant _
                λ _.
                  edge-Follows (rolled_back_edge P limits current o)
                    (restore (require_state_known ControlState.rollback_model hs) refl)
