-- ===== src/Harness/Traces/Runs.antt =====
-- Runs of the operations of `TraceHarvestPolicy` (harness/trace_harvesting/policy.py), as an
-- orchestrator makes them: each call takes the last snapshot of the call before.
use post_training_rsi_pipeli.Prelude.{
  ℕ, suc, ◌+◌, ◌-◌, ◌*◌, ◌≤◌, ◌<◌, Outcome, ok, ◌≡◌, refl, ◌∙◌, subst, arith,
}
use post_training_rsi_pipeli.Platform.{Platform}
use post_training_rsi_pipeli.ControlPlane.Enums.ControlState.{ControlState}
use post_training_rsi_pipeli.ControlPlane.Records.StateSnapshot.{StateSnapshot}
use post_training_rsi_pipeli.Harness.Steps.{PolicyStep, final_snapshot}
use post_training_rsi_pipeli.Harness.Position.Walks.{Walk-Reach, Reach, Reach-keeps, Reach-bound}
use post_training_rsi_pipeli.Harness.Traces.Contracts.{HarvestedTraceBatch, TraceDatasetResult}
use post_training_rsi_pipeli.Harness.Traces.Edges.{TraceHarvestLimits}
use post_training_rsi_pipeli.Harness.Traces.Policy.{batch_harvested, verification_completed}
use post_training_rsi_pipeli.Harness.Traces.Harvest.{
  Move, moves_left, left_in, Move-moves_left, SameLineage, Move-SameLineage, batches, IsBounded,
  Move-IsBounded,
}
use post_training_rsi_pipeli.Harness.Traces.Refines.{Follows, batch_harvested-Follows}
use post_training_rsi_pipeli.Harness.Traces.Refines.Datasets.{verification_completed-Follows}

-- What the policy observes.
pub data Observation (P : Platform) : Type 0 where
  harvested : HarvestedTraceBatch P → Observation P
  verified : TraceDatasetResult P → Observation P

module _ (P : Platform) (limits : TraceHarvestLimits P) where
  -- the operation for an observation
  abbrev pub operation : StateSnapshot P → Observation P → Outcome (PolicyStep P)
  operation current (harvested batch) = batch_harvested P limits current batch
  operation current (verified result) = verification_completed P limits current result

  -- Every snapshot that a call of an operation emits is one move of abstract harvesting from the
  -- one before, the first from the current one, whatever was observed, when the call returns.
  pub operation-Follows_traces :
      (current : StateSnapshot P) (o : Observation P) (step : PolicyStep P)
      → operation current o ≡ ok step
      → Follows P limits current step
  operation-Follows_traces current (harvested b) = batch_harvested-Follows P limits current b
  operation-Follows_traces current (verified r) = verification_completed-Follows P limits current r

  -- A run of calls that return, with their number.
  pub data Run (s : StateSnapshot P) : ℕ → StateSnapshot P → Type 0 where
    begun : Run s 0 s
    called :
        {n : ℕ} {t : StateSnapshot P} (o : Observation P) (step : PolicyStep P)
        (u : StateSnapshot P)
        → Run s n t
        → operation t o ≡ ok step
        → final_snapshot P step ≡ ok u
        → Run s (suc n) u

  moves :
      (t : StateSnapshot P) (o : Observation P) (step : PolicyStep P) (u : StateSnapshot P)
      → operation t o ≡ ok step
      → final_snapshot P step ≡ ok u
      → (n : ℕ) × (0 < n) × Reach (Move P limits) t n u
  moves t o step u h hu =
      Walk-Reach P (λ s. s) (Move P limits) t step.snapshots u (operation-Follows_traces t o step h)
        hu

  Run-keeps {κ} :
      (I : StateSnapshot P → Type κ) {s t : StateSnapshot P} {n : ℕ}
      → ((x y : StateSnapshot P) → Move P limits x y → I x → I y)
      → Run s n t
      → I s
      → I t
  Run-keeps I keep begun i = i
  Run-keeps I keep (called {n} {t} o step u r h hu) i =
      let (_, _, reach) = moves t o step u h hu in
      Reach-keeps (Move P limits) I keep reach (Run-keeps I keep r i)

  bound :
      (s t : StateSnapshot P) (n : ℕ)
      → Run s n t
      → n + moves_left P limits t ≤ moves_left P limits s
  bound s _ _ begun = omega arith
  bound s _ _ (called {n} {t} o step u r h hu) =
      let (k, positive, reach) = moves t o step u h hu in
      omega (
        arith,
        bound s t n r,
        Reach-bound (Move P limits) (moves_left P limits) (Move-moves_left P limits) reach,
        positive,
      )

  -- A run of calls that return, from a snapshot in HARVEST_TRACES, has at most
  -- 3 * (max_batches - batches) + 3 calls, for the batches that the snapshot has counted.
  pub harvest_bounded :
      (s t : StateSnapshot P) (n : ℕ)
      → s.state ≡ ControlState.harvest_traces
      → Run s n t
      → n ≤ 3 * (limits.max_batches - batches P limits s) + 3
  harvest_bounded s t n h r =
      let most : n ≤ moves_left P limits s = omega (arith, bound s t n r) in
      subst (λ state. n ≤ left_in P limits state (batches P limits s)) h most

  -- In any run of calls that return, from a snapshot in HARVEST_TRACES with room for a batch, no
  -- more than max_batches batches are counted, and there is room whenever the run is back there.
  pub Run-IsBounded :
      (s t : StateSnapshot P) (n : ℕ)
      → batches P limits s < limits.max_batches
      → Run s n t
      → IsBounded P limits t
  Run-IsBounded s t n room r =
      Run-keeps (IsBounded P limits) (Move-IsBounded P limits) r
        (record { most = omega (arith, room); room = λ _. room })

  -- In any run of calls that return, the run, the cycle, the model, the Peak, the harness, their
  -- score and the plateau count stay what they were.
  pub Run-SameLineage : (s t : StateSnapshot P) (n : ℕ) → Run s n t → SameLineage P limits s t
  Run-SameLineage s t n r =
      Run-keeps (SameLineage P limits s) (λ x y m i. Move-SameLineage P limits x y m ∙ i) r refl
