-- ===== src/Harness/Outer/Runs.antt =====
-- Runs of the operations of `HarnessOuterPolicy` (harness/outer_loop/policy.py), as an orchestrator
-- makes them: each call takes the last snapshot of the call before.
use post_training_rsi_pipeli.Prelude.{ℕ, suc, ◌+◌, ◌≤◌, ◌<◌, String, List, Outcome, ok, ◌≡◌, arith}
use post_training_rsi_pipeli.Platform.{Platform}
use post_training_rsi_pipeli.ControlPlane.Value.{Fields}
use post_training_rsi_pipeli.ControlPlane.Records.StateSnapshot.{StateSnapshot}
use post_training_rsi_pipeli.Harness.Steps.{PolicyStep, final_snapshot}
use post_training_rsi_pipeli.Harness.Position.{Position, position}
use post_training_rsi_pipeli.Harness.Position.Walks.{Walk-Reach, Reach, Reach-keeps, Reach-bound}
use post_training_rsi_pipeli.Harness.Outer.Contracts.{
  HarnessSpec, HarnessValidationResult, HarnessBenchmarkResult, HarnessReviewObservation,
}
use post_training_rsi_pipeli.Harness.Outer.Edges.{HarnessOuterLimits}
use post_training_rsi_pipeli.Harness.Outer.Policy.{
  candidate_created, validation_completed, evaluation_completed, review_completed,
}
use post_training_rsi_pipeli.Harness.Outer.Search.{
  Move, moves_left, Move-moves_left, Frozen, Frozen-refl, Frozen-trans, Move-Frozen,
}
use post_training_rsi_pipeli.Harness.Outer.Refines.{
  Follows, candidate_created-Follows, validation_completed-Follows, evaluation_completed-Follows,
  review_completed-Follows,
}

-- What the loop observes.
pub data Observation (P : Platform) : Type 0 where
  created : HarnessSpec P → String → List String → Observation P
  validated : HarnessValidationResult P → Observation P
  evaluated : HarnessBenchmarkResult P → Observation P
  reviewed : HarnessReviewObservation → Observation P

module _ (P : Platform) (canonical_json : Fields P → String) (limits : HarnessOuterLimits P) where
  -- the operation for an observation
  abbrev pub operation : StateSnapshot P → Observation P → Outcome (PolicyStep P)
  operation current (created candidate created_at evidence_ids) =
      candidate_created P canonical_json current candidate created_at evidence_ids
  operation current (validated result) = validation_completed P limits current result
  operation current (evaluated result) = evaluation_completed P limits current result
  operation current (reviewed review) = review_completed P limits current review

  -- Every snapshot that a call of an operation emits is one move of the abstract search from the
  -- one before, the first from the current one, whatever was observed, when the call returns.
  pub operation-Follows :
      (current : StateSnapshot P) (o : Observation P) (step : PolicyStep P)
      → operation current o ≡ ok step
      → Follows P limits current step
  operation-Follows current (created c t es) = candidate_created-Follows P limits current _ c t es
  operation-Follows current (validated r) = validation_completed-Follows P limits current r
  operation-Follows current (evaluated r) = evaluation_completed-Follows P limits current r
  operation-Follows current (reviewed r) = review_completed-Follows P limits current r

  -- A run of calls that return, with their number.
  pub data Run (s : StateSnapshot P) : ℕ → StateSnapshot P → Type 0 where
    begun : Run s 0 s
    called :
        {n : ℕ} {t : StateSnapshot P} (o : Observation P) (step : PolicyStep P)
        (u : StateSnapshot P)
        → Run s n t
        → operation t o ≡ ok step
        → final_snapshot P step ≡ ok u
        → Run s (suc n) u

  -- A call as moves of the search.
  moves :
      (t : StateSnapshot P) (o : Observation P) (step : PolicyStep P) (u : StateSnapshot P)
      → operation t o ≡ ok step
      → final_snapshot P step ≡ ok u
      → (n : ℕ) × (0 < n) × Reach (Move P limits) (position P t) n (position P u)
  moves t o step u h hu =
      Walk-Reach P (position P) (Move P limits) (position P t) step.snapshots u
        (operation-Follows t o step h) hu

  -- What each move keeps, a run keeps.
  pub Run-keeps {κ} :
      (I : Position P → Type κ) {s t : StateSnapshot P} {n : ℕ}
      → ((x y : Position P) → Move P limits x y → I x → I y)
      → Run s n t
      → I (position P s)
      → I (position P t)
  Run-keeps I keep begun i = i
  Run-keeps I keep (called {n} {t} o step u r h hu) i =
      let (_, _, reach) = moves t o step u h hu in
      Reach-keeps (Move P limits) I keep reach (Run-keeps I keep r i)

  -- A run of calls is bounded: with each of its calls there is less left to do, up to 5 moves for
  -- each iteration below the limit and those of the current one. So no search goes on forever.
  pub Run-bound :
      (s t : StateSnapshot P) (n : ℕ)
      → Run s n t
      → n + moves_left P limits (position P t) ≤ moves_left P limits (position P s)
  Run-bound s _ _ begun = omega arith
  Run-bound s _ _ (called {n} {t} o step u r h hu) =
      let (k, positive, reach) = moves t o step u h hu in
      omega (
        arith,
        Run-bound s t n r,
        Reach-bound (Move P limits) (moves_left P limits) (Move-moves_left P limits) reach,
        positive,
      )

  -- In any run of calls that return, the run, the cycle, the active checkpoint and the Peak
  -- checkpoint stay what they were: the model is frozen while the loop searches for a harness.
  pub Run-Frozen :
      (s t : StateSnapshot P) (n : ℕ) → Run s n t → Frozen P (position P s) (position P t)
  Run-Frozen s t n r =
      Run-keeps (Frozen P (position P s))
        (λ x y m f. Frozen-trans P (position P s) x y f (Move-Frozen P limits x y m)) r
        (Frozen-refl P (position P s))
