-- ===== src/Harness/Traces/Refines/Datasets.antt =====
-- The same for `verification_completed` of harness/trace_harvesting/policy.py, with its quarantine.
use post_training_rsi_pipeli.Prelude.{
  ℕ, ◌+◌, ok, String, refl, ◌≡◌, ◌∙◌, inl, inr, arith, ap, Ensures, >>=-Ensures, >>=-eq-ok,
  raise_if-Ensures, if-Ensures, Bool-cases, leb, false, not, ◌==◌, trace_invariant, trace_contract,
}
use post_training_rsi_pipeli.Platform.{Platform}
use post_training_rsi_pipeli.ControlPlane.Value.{get}
use post_training_rsi_pipeli.ControlPlane.Validation.{validate_nonnegative_int}
use post_training_rsi_pipeli.ControlPlane.Enums.ControlState.{ControlState}
use post_training_rsi_pipeli.ControlPlane.Records.StateSnapshot.{StateSnapshot}
use post_training_rsi_pipeli.RsiPolicy.Step.{is_id_value}
use post_training_rsi_pipeli.Harness.Steps.{final_snapshot}
use post_training_rsi_pipeli.Harness.Steps.Emitted.{combine_two}
use post_training_rsi_pipeli.Harness.Position.{position}
use post_training_rsi_pipeli.Harness.Traces.Contracts.{TraceDatasetResult}
use post_training_rsi_pipeli.Harness.Traces.Edges.{
  TraceHarvestLimits, TraceEdge, edge_from_snapshot, require_state, validate_frozen_lineage,
  validate_dataset_lineage, metadata_int,
}
use post_training_rsi_pipeli.Harness.Traces.Policy.{
  stop_edge, retry_edge, after_edge, common_metadata, result_edge, no_data_edge, low_rate_edge,
  target_edge, limit_edge, continue_edge, accepted_edge, after_quarantine, quarantine, rate_too_low,
  settle_dataset, verification_completed,
}
use post_training_rsi_pipeli.Harness.Traces.Emitted.{
  edge_from_snapshot-Emitted, reached, EmittedFrom-reached,
}
use post_training_rsi_pipeli.Harness.Traces.Harvest.{Move, train, stop, again, Counts, IsSettled}
use post_training_rsi_pipeli.Harness.Traces.Harvest
use post_training_rsi_pipeli.Harness.Traces.Refines.{
  Follows, Written, Written-Counts, edge-Follows, require_state_known,
}

module _ (P : Platform) (limits : TraceHarvestLimits P) (current : StateSnapshot P) where
  -- `_after_quarantine` moves on from a quarantine
  after-Move :
      (v c : ℕ) (timestamp : String) (t : StateSnapshot P)
      → current.state ≡ ControlState.quarantined
      → Counts P limits current v c
      → Counts P limits t v c
      → position P t ≡ reached P current (after_edge P limits current c timestamp)
      → Move P limits current t
  unfolding after_edge stop_edge retry_edge
  after-Move v c timestamp t hs k l e =
      let l' : Counts P limits t (v + 0) c = (l.0 ∙ ap ok (omega arith), l.1) in
      elim (Bool-cases (leb limits.max_batches c)) [
        | inl over ↦ stop v c 0 (inr hs) k l' (ground arith) (ground arith)
        | inr more ↦ again v c 0 (inr hs) k l' (ground arith) (ground arith)
      ]

  after-Written :
      (v c : ℕ) (timestamp : String)
      → Counts P limits current v c
      → Written P limits current (after_edge P limits current c timestamp) v c
  unfolding after_edge stop_edge retry_edge metadata_int
  after-Written v c timestamp k = elim (Bool-cases (leb limits.max_batches c)) [
    | inl over ↦ rw over k
    | inr more ↦ rw more k
  ]

module _ (P : Platform) (limits : TraceHarvestLimits P) (current : StateSnapshot P) where
  -- a quarantine that is a move, and `_after_quarantine`
  quarantine-Follows :
      (a : TraceEdge P) (timestamp : String) (v c : ℕ)
      → a.to_state ≡ ControlState.quarantined
      → Written P limits current a v c
      → ((t : StateSnapshot P)
          → position P t ≡ reached P current a
          → Counts P limits t v c
          → Move P limits current t)
      → Ensures (Follows P limits current) (quarantine P limits current a timestamp)
  unfolding quarantine after_quarantine
  quarantine-Follows a timestamp v c q w m step h =
      let (s, hs, h1) = >>=-eq-ok (edge_from_snapshot P current a) _ h in
      let x = edge_from_snapshot-Emitted P current a s hs in
      let there = EmittedFrom-reached P current a s x in
      let k = Written-Counts P limits current a s x v c w in
      let h2 = rw (ap (final_snapshot P) x.all_of, k.1) at h1 in
      let (l, hl, h3) =
        >>=-eq-ok (edge_from_snapshot P x.snapshot (after_edge P limits x.snapshot c timestamp)) _
          h2 in
      let y = edge_from_snapshot-Emitted P x.snapshot _ l hl in
      let l' =
        Written-Counts P limits x.snapshot _ l y v c
          (after-Written P limits x.snapshot v c timestamp k) in
      rw (combine_two P trace_contract _ _ s l step x y h3) (
        m x.snapshot there k,
        (
          after-Move P limits x.snapshot v c timestamp y.snapshot (ap (λ p. p.state) there ∙ q) k l'
              (EmittedFrom-reached P x.snapshot _ l y),
          tt,
        ),
      )

  module _ (result : TraceDatasetResult P) (v c : ℕ)
      (hs : current.state ≡ ControlState.verify_traces) (k : Counts P limits current v c) where
    accepted-Follows :
        (result.accepted_count == 0) ≡ false
        → Ensures (Follows P limits current) (
            edge_from_snapshot P current
              (accepted_edge P limits current result (v + result.accepted_count) c))
    unfolding accepted_edge target_edge limit_edge continue_edge result_edge common_metadata
        validate_nonnegative_int
    accepted-Follows some_accepted =
        elim (Bool-cases (leb limits.target_traces (v + result.accepted_count))) [
          | inl enough ↦ rw enough (
              edge-Follows P limits current
                (target_edge P limits current result (v + result.accepted_count) c)
                (v + result.accepted_count) c (refl, refl)
                (λ t e l. train v c result.accepted_count hs k l (ground arith) (ground arith) e))
          | inr few ↦ elim (Bool-cases (leb limits.max_batches c)) [
            | inl over ↦
                rw (few, over)
                  (edge-Follows P limits current
                    (limit_edge P limits current result (v + result.accepted_count) c)
                    (v + result.accepted_count) c (refl, refl)
                    (λ t e l. stop v c result.accepted_count (inl hs) k l (ground arith) e))
            | inr more ↦
                rw (few, more)
                  (edge-Follows P limits current
                    (continue_edge P limits current result (v + result.accepted_count) c)
                    (v + result.accepted_count) c (refl, refl)
                    (λ t e l. again v c result.accepted_count (inl hs) k l (ground arith) e))
          ]
        ]

    settle_dataset-Follows :
        Ensures
          (Follows P limits current)
          (settle_dataset P limits current result (v + result.accepted_count) c)
    unfolding settle_dataset no_data_edge low_rate_edge result_edge common_metadata
        validate_nonnegative_int
    settle_dataset-Follows =
        let after = v + result.accepted_count in
        let Q = Follows P limits current in
        if-Ensures Q (result.accepted_count == 0) _ _
          (λ _.
            quarantine-Follows (no_data_edge P limits current result after c) result.created_at
              after c refl (refl, refl)
              (λ t e l. Harvest.quarantine v c result.accepted_count hs k l e))
          (λ some_accepted.
            if-Ensures Q (rate_too_low P limits result) _ _
              (λ _.
                quarantine-Follows (low_rate_edge P limits current result after c) result.created_at
                  after c refl (refl, refl)
                  (λ t e l. Harvest.quarantine v c result.accepted_count hs k l e))
              (λ _. accepted-Follows some_accepted))

  pub verification_completed-Follows :
      (result : TraceDatasetResult P)
      → Ensures (Follows P limits current) (verification_completed P limits current result)
  unfolding verification_completed
  verification_completed-Follows result =
      let Q = Follows P limits current in
      >>=-Ensures Q (require_state P current ControlState.verify_traces) _ λ _ hs.
        >>=-Ensures Q (validate_frozen_lineage P current) _ λ _ _.
          >>=-Ensures Q (validate_dataset_lineage P current result) _ λ _ _.
            raise_if-Ensures Q
              (not (is_id_value (get "trace_batch_id" current.metadata) result.batch_id))
              trace_invariant _
              λ _. >>=-Ensures Q (metadata_int P current "verified_trace_count") _ λ v hv.
                >>=-Ensures Q (metadata_int P current "harvest_batch_count") _ λ c hc.
                  settle_dataset-Follows result v c
                    (require_state_known P limits current ControlState.verify_traces hs) (hv, hc)
