-- ===== src/Harness/Inner/Runs.antt =====
-- Runs of the operations of `ModelInnerPolicy` (harness/model_inner_loop/policy.py), as an
-- orchestrator makes them: each call takes the last snapshot of the call before.
use post_training_rsi_pipeli.Prelude.{ℕ, suc, ◌+◌, ◌≤◌, ◌<◌, Outcome, ok, ◌≡◌, arith}
use post_training_rsi_pipeli.Platform.{Platform}
use post_training_rsi_pipeli.ControlPlane.Enums.ControlState.{ControlState}
use post_training_rsi_pipeli.ControlPlane.Records.StateSnapshot.{StateSnapshot}
use post_training_rsi_pipeli.Harness.Steps.{PolicyStep, final_snapshot}
use post_training_rsi_pipeli.Harness.Position.{position}
use post_training_rsi_pipeli.Harness.Position.Walks.{Walk-Reach, Reach, Reach-keeps, Reach-bound}
use post_training_rsi_pipeli.Harness.Inner.Contracts.{
  ModelCandidateArtifact, ModelBenchmarkObservation, ModelReviewObservation,
  ModelPromotionCommitObservation, ModelRollbackCommitObservation,
}
use post_training_rsi_pipeli.Harness.Inner.Edges.{ModelInnerLimits}
use post_training_rsi_pipeli.Harness.Inner.Policy.{training_completed, evaluation_completed}
use post_training_rsi_pipeli.Harness.Inner.Commits.{
  review_completed, promotion_committed, rollback_committed,
}
use post_training_rsi_pipeli.Harness.Inner.Promotion.{Move, Step, stage, Move-stage}
use post_training_rsi_pipeli.Harness.Inner.Refines.{
  Follows, training_completed-Follows, evaluation_completed-Follows, review_completed-Follows,
  promotion_committed-Follows, rollback_committed-Follows,
}

-- What the policy observes.
pub data Observation (P : Platform) : Type 0 where
  made : ModelCandidateArtifact P → Observation P
  evaluated : ModelBenchmarkObservation P → Observation P
  reviewed : ModelReviewObservation → Observation P
  promoted : ModelPromotionCommitObservation P → Observation P
  rolled_back : ModelRollbackCommitObservation → Observation P

module _ (P : Platform) (limits : ModelInnerLimits P) where
  -- the operation for an observation
  abbrev pub operation : StateSnapshot P → Observation P → Outcome (PolicyStep P)
  operation current (made candidate) = training_completed P limits current candidate
  operation current (evaluated o) = evaluation_completed P limits current o
  operation current (reviewed review) = review_completed P limits current review
  operation current (promoted o) = promotion_committed P limits current o
  operation current (rolled_back o) = rollback_committed P limits current o

  -- The snapshot that a call of an operation emits is one move of the abstract inner loop from the
  -- current one, whatever was observed, when the call returns.
  pub operation-Follows_model :
      (current : StateSnapshot P) (o : Observation P) (step : PolicyStep P)
      → operation current o ≡ ok step
      → Follows P limits current step
  operation-Follows_model current (made c) = training_completed-Follows P limits current c
  operation-Follows_model current (evaluated o) = evaluation_completed-Follows P limits current o
  operation-Follows_model current (reviewed r) = review_completed-Follows P limits current r
  operation-Follows_model current (promoted o) = promotion_committed-Follows P limits current o
  operation-Follows_model current (rolled_back o) = rollback_committed-Follows P limits current o

  -- A run of calls that return, with their number.
  pub data Run (s : StateSnapshot P) : ℕ → StateSnapshot P → Type 0 where
    begun : Run s 0 s
    called :
        {n : ℕ} {t : StateSnapshot P} (o : Observation P) (step : PolicyStep P)
        (u : StateSnapshot P)
        → Run s n t
        → operation t o ≡ ok step
        → final_snapshot P step ≡ ok u
        → Run s (suc n) u

  moves :
      (t : StateSnapshot P) (o : Observation P) (step : PolicyStep P) (u : StateSnapshot P)
      → operation t o ≡ ok step
      → final_snapshot P step ≡ ok u
      → (n : ℕ) × (0 < n) × Reach (Step P limits) t n u
  moves t o step u h hu =
      Walk-Reach P (λ s. s) (Step P limits) t step.snapshots u (operation-Follows_model t o step h)
        hu

  pub Run-keeps {κ} :
      (I : StateSnapshot P → Type κ) {s t : StateSnapshot P} {n : ℕ}
      → ((x y : StateSnapshot P) → Move P limits x (position P y) → I x → I y)
      → Run s n t
      → I s
      → I t
  Run-keeps I keep begun i = i
  Run-keeps I keep (called {n} {t} o step u r h hu) i =
      let (_, _, reach) = moves t o step u h hu in
      Reach-keeps (Step P limits) I keep reach (Run-keeps I keep r i)

  -- With each call of a run there is less to do.
  pub Run-stage :
      (s t : StateSnapshot P) (n : ℕ)
      → Run s n t
      → n + stage P limits t.state ≤ stage P limits s.state
  Run-stage s _ _ begun = omega arith
  Run-stage s _ _ (called {n} {t} o step u r h hu) =
      let (k, positive, reach) = moves t o step u h hu in
      omega (
        arith,
        Run-stage s t n r,
        Reach-bound (Step P limits) (λ x. stage P limits x.state)
            (λ x y m. Move-stage P limits x (position P y) m) reach,
        positive,
      )

  -- A run of calls that return has at most four, from any snapshot: the training, the evaluation,
  -- the review and the commit.
  pub inner_bounded : (s t : StateSnapshot P) (n : ℕ) → Run s n t → n ≤ 4
  inner_bounded s t n r = omega (arith, Run-stage s t n r, stage-le s.state)
    where
      stage-le : (state : ControlState) → stage P limits state ≤ 4
      stage-le state = ground arith
