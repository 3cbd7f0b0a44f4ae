-- ===== src/Harness/Traces/Refines.antt =====
-- The operations of `TraceHarvestPolicy` (harness/trace_harvesting/policy.py) implement abstract
-- harvesting: every snapshot that they emit is one move from the one before.
pub mod Datasets
use post_training_rsi_pipeli.Prelude.{
  ℕ, ◌+◌, ◌<◌, ◌≤◌, pos, ok, Outcome, ◌>>=◌, ◌>>◌, none, some, String, refl, ◌⊎◌, ◌≡◌, ◌∙◌, sym,
  inl, inr, arith, ap, Ensures, >>=-Ensures, >>=-eq-ok, raise_if-Ensures, if-Ensures, Bool-cases,
  leb, true, false, not, ◌==◌, trace_invariant, trace_contract, if◌then◌else◌,
}
use post_training_rsi_pipeli.Platform.{Platform}
use post_training_rsi_pipeli.ControlPlane.Value.{get}
use post_training_rsi_pipeli.ControlPlane.Validation.{validate_nonnegative_int}
use post_training_rsi_pipeli.ControlPlane.Enums.ControlState.{ControlState, is_state_same}
use post_training_rsi_pipeli.ControlPlane.Enums.StopReason.{StopReason}
use post_training_rsi_pipeli.ControlPlane.Records.StateSnapshot.{StateSnapshot}
use post_training_rsi_pipeli.RsiPolicy.Step.{is_id_value}
use post_training_rsi_pipeli.Harness.Steps.{PolicyStep, final_snapshot, combine}
use post_training_rsi_pipeli.Harness.Steps.Emitted.{combine_two}
use post_training_rsi_pipeli.Harness.Position.{Position, position}
use post_training_rsi_pipeli.Harness.Position.Walks.{Walk}
use post_training_rsi_pipeli.Harness.Traces.Contracts.{HarvestedTraceBatch, TraceDatasetResult}
use post_training_rsi_pipeli.Harness.Traces.Edges.{
  TraceHarvestLimits, TraceEdge, edge_from_snapshot, require_state, validate_frozen_lineage,
  validate_batch_lineage, validate_dataset_lineage, metadata_int,
}
use post_training_rsi_pipeli.Harness.Traces.Policy.{
  harvest_edge, abort_edge, over_batch_budget, over_total_budget, count_batch, batch_harvested,
  stop_edge, retry_edge, after_edge, common_metadata, result_edge, no_data_edge, low_rate_edge,
  target_edge, limit_edge, continue_edge, accepted_edge, after_quarantine, quarantine, rate_too_low,
  settle_dataset, verification_completed,
}
use post_training_rsi_pipeli.Harness.Traces.Emitted.{
  EmittedFrom, edge_from_snapshot-Emitted, reached, EmittedFrom-reached, counter_kept, count_of,
}
use post_training_rsi_pipeli.Harness.Traces.Harvest.{
  Move, gather, abort, train, stop, again, Counts, clear, IsSettled,
}
use post_training_rsi_pipeli.Harness.Traces.Harvest

module _ (P : Platform) (limits : TraceHarvestLimits P) (current : StateSnapshot P) where
  pub require_state_known :
      (expected : ControlState) {u : Unit {0}}
      → require_state P current expected ≡ ok u
      → current.state ≡ expected
  unfolding require_state
  require_state_known expected h = ground (arith, is_state_same expected current.state)

  -- the counters in the metadata of an edge
  abbrev pub Written : TraceEdge P → ℕ → ℕ → Type 0
  Written a verified batches =
      (count_of P (get "verified_trace_count" a.metadata) ≡ ok verified)
      × (count_of P (get "harvest_batch_count" a.metadata) ≡ ok batches)

  pub Written-Counts :
      (a : TraceEdge P) (step : PolicyStep P) (x : EmittedFrom P current a step) (v c : ℕ)
      → Written a v c
      → Counts P limits x.snapshot v c
  Written-Counts a step x v c w = (
    counter_kept P current a step "verified_trace_count" v x (refl, refl, refl) w.0,
    counter_kept P current a step "harvest_batch_count" c x (refl, refl, refl) w.1,
  )

  -- the emitted snapshots follow the moves of harvesting, from the current one
  abbrev pub Follows : PolicyStep P → Type 0
  Follows step = Walk P (λ s. s) (Move P limits) current step.snapshots

  -- One edge is a move, if every snapshot with its position and its counters is.
  pub edge-Follows :
      (a : TraceEdge P) (v c : ℕ)
      → Written a v c
      → ((t : StateSnapshot P)
          → position P t ≡ reached P current a
          → Counts P limits t v c
          → Move P limits current t)
      → Ensures Follows (edge_from_snapshot P current a)
  edge-Follows a v c w m step h =
      let x = edge_from_snapshot-Emitted P current a step h in
      rw x.all_of
        (m x.snapshot (EmittedFrom-reached P current a step x) (Written-Counts a step x v c w), tt)

  gather-Follows :
      (batch : HarvestedTraceBatch P) (cost : P.Float)
      → current.state ≡ ControlState.harvest_traces
      → over_total_budget P limits current cost ≡ false
      → Ensures Follows (count_batch P limits current batch cost)
  unfolding count_batch harvest_edge validate_nonnegative_int
  gather-Follows batch cost hs fits =
      >>=-Ensures Follows (metadata_int P current "verified_trace_count") _ λ v hv.
        >>=-Ensures Follows (metadata_int P current "harvest_batch_count") _ λ c hc.
          edge-Follows (harvest_edge P limits current batch cost v c) v (c + 1) (refl, refl)
            (λ t e k. gather v c cost hs (hv, hc) k fits e)

  abort-Follows :
      (batch : HarvestedTraceBatch P) (cost : P.Float) (why : StopReason)
      → current.state ≡ ControlState.harvest_traces
      → Ensures Follows (edge_from_snapshot P current (abort_edge P limits current batch cost why))
  unfolding abort_edge
  abort-Follows batch cost why hs =
      edge-Follows (abort_edge P limits current batch cost why) 0 0 (refl, refl)
        (λ t e k. abort cost why hs k e)

  pub batch_harvested-Follows :
      (batch : HarvestedTraceBatch P) → Ensures Follows (batch_harvested P limits current batch)
  unfolding batch_harvested
  batch_harvested-Follows batch =
      >>=-Ensures Follows (require_state P current ControlState.harvest_traces) _ λ _ hs.
        >>=-Ensures Follows (validate_frozen_lineage P current) _ λ _ _.
          >>=-Ensures Follows (validate_batch_lineage P current batch) _ λ _ _.
            let cost = P.add current.total_cost_usd batch.cost_usd in
            let state = require_state_known ControlState.harvest_traces hs in
            if-Ensures Follows (over_batch_budget P limits current batch.cost_usd) _ _
              (λ _. abort-Follows batch cost StopReason.per_iteration_budget_exceeded state)
              (λ _.
                if-Ensures Follows (over_total_budget P limits current cost) _ _
                  (λ _. abort-Follows batch cost StopReason.total_budget_exceeded state)
                  (λ fits. gather-Follows batch cost state fits))
