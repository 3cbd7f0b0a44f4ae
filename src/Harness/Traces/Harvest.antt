-- ===== src/Harness/Traces/Harvest.antt =====
-- Trace harvesting as an abstract machine: what the design of harness/trace_harvesting/ allows from
-- one snapshot to the next, by state, position and the two counters of the metadata.
use post_training_rsi_pipeli.Prelude.{
  ℕ, ◌+◌, ◌-◌, ◌*◌, ◌≤◌, ◌<◌, some, none, ok, raise, Outcome, ◌≡◌, ap, ◌⊎◌, inl, inr, false, arith,
}
use post_training_rsi_pipeli.Platform.{Platform}
use post_training_rsi_pipeli.ControlPlane.Enums.ControlState.{ControlState}
use post_training_rsi_pipeli.ControlPlane.Enums.StopReason.{StopReason}
use post_training_rsi_pipeli.ControlPlane.Records.StateSnapshot.{StateSnapshot}
use post_training_rsi_pipeli.Harness.Position.{Position, position}
use post_training_rsi_pipeli.Harness.Traces.Edges.{TraceHarvestLimits, metadata_int}
use post_training_rsi_pipeli.Harness.Traces.Policy.{over_total_budget}

-- `none` the number, or 0 for an error
abbrev or_zero : Outcome ℕ → ℕ
or_zero (ok n) = n
or_zero (raise e) = 0

module _ (P : Platform) (limits : TraceHarvestLimits P) where
  -- the counters of a snapshot: verified traces and harvested batches
  abbrev pub Counts : StateSnapshot P → ℕ → ℕ → Type 0
  Counts s verified batches =
      (metadata_int P s "verified_trace_count" ≡ ok verified)
      × (metadata_int P s "harvest_batch_count" ≡ ok batches)

  -- the position of `s`, with nothing of a candidate
  abbrev pub clear : StateSnapshot P → Position P
  clear s = record (position P s) {
    candidate_checkpoint_id = none;
    candidate_harness_id = none;
    candidate_score = none;
    stop_reason = none;
  }

  abbrev pub IsSettled : ControlState → Type 0
  IsSettled state = (state ≡ ControlState.verify_traces) ⊎ (state ≡ ControlState.quarantined)

  pub data Move (s t : StateSnapshot P) : Type 0 where
    -- a batch counts once, and its cost is within the budget
    gather :
        (v c : ℕ) (cost : P.Float)
        → s.state ≡ ControlState.harvest_traces
        → Counts s v c
        → Counts t v (c + 1)
        → over_total_budget P limits s cost ≡ false
        → position P t
          ≡ record (clear s) { state = ControlState.verify_traces; total_cost_usd = cost }
        → Move s t
    abort :
        (cost : P.Float) (why : StopReason)
        → s.state ≡ ControlState.harvest_traces
        → Counts t 0 0
        → position P t ≡ record (clear s) {
          state = ControlState.aborted;
          total_cost_usd = cost;
          stop_reason = some why;
        }
        → Move s t
    -- the accepted traces of a quarantined Dataset count too
    quarantine :
        (v c n : ℕ)
        → s.state ≡ ControlState.verify_traces
        → Counts s v c
        → Counts t (v + n) c
        → position P t ≡ record (clear s) { state = ControlState.quarantined }
        → Move s t
    -- training starts only with enough verified traces
    train :
        (v c n : ℕ)
        → s.state ≡ ControlState.verify_traces
        → Counts s v c
        → Counts t (v + n) c
        → 0 < n
        → limits.target_traces ≤ v + n
        → position P t ≡ record (clear s) { state = ControlState.train_model }
        → Move s t
    stop :
        (v c n : ℕ)
        → IsSettled s.state
        → Counts s v c
        → Counts t (v + n) c
        → limits.max_batches ≤ c
        → position P t ≡ record (clear s) {
          state = ControlState.stopped;
          stop_reason = some StopReason.max_iterations;
        }
        → Move s t
    again :
        (v c n : ℕ)
        → IsSettled s.state
        → Counts s v c
        → Counts t (v + n) c
        → c < limits.max_batches
        → position P t
          ≡ record (clear s) { state = ControlState.harvest_traces; iteration = s.iteration + 1 }
        → Move s t

  abbrev pub batches : StateSnapshot P → ℕ
  batches s = or_zero (metadata_int P s "harvest_batch_count")

  -- how many moves are left
  abbrev pub left_in : ControlState → ℕ → ℕ
  left_in ControlState.harvest_traces c = 3 * (limits.max_batches - c) + 3
  left_in ControlState.verify_traces c = 3 * (limits.max_batches + 1 - c) + 2
  left_in ControlState.quarantined c = 3 * (limits.max_batches + 1 - c) + 1
  left_in _ c = 0

  abbrev pub moves_left : StateSnapshot P → ℕ
  moves_left s = left_in s.state (batches s)

  pub Move-moves_left : (s t : StateSnapshot P) → Move s t → moves_left t < moves_left s
  Move-moves_left s t (gather v c cost h k l b e) =
      rw (k.1, l.1, ap (λ p. p.state) e, h) (omega arith)
  Move-moves_left s t (abort cost why h l e) = rw (ap (λ p. p.state) e, h) (omega arith)
  Move-moves_left s t (quarantine v c n h k l e) =
      rw (k.1, l.1, ap (λ p. p.state) e, h) (omega arith)
  Move-moves_left s t (train v c n h k l p q e) = rw (ap (λ p. p.state) e, h) (omega arith)
  Move-moves_left s t (stop v c n (inl h) k l m e) = rw (ap (λ p. p.state) e, h) (omega arith)
  Move-moves_left s t (stop v c n (inr h) k l m e) = rw (ap (λ p. p.state) e, h) (omega arith)
  Move-moves_left s t (again v c n (inl h) k l m e) =
      rw (k.1, l.1, ap (λ p. p.state) e, h) (omega arith)
  Move-moves_left s t (again v c n (inr h) k l m e) =
      rw (k.1, l.1, ap (λ p. p.state) e, h) (omega arith)

  -- what harvesting must not touch: the run, the model, the harness and the score
  abbrev settled_lineage : Position P → Position P
  settled_lineage p = record p {
    iteration = 0;
    state = ControlState.harvest_traces;
    candidate_checkpoint_id = none;
    candidate_harness_id = none;
    candidate_score = none;
    total_cost_usd = P.zero_float;
    stop_reason = none;
  }

  abbrev pub SameLineage : StateSnapshot P → StateSnapshot P → Type 0
  SameLineage s t = settled_lineage (position P t) ≡ settled_lineage (position P s)

  pub Move-SameLineage : (s t : StateSnapshot P) → Move s t → SameLineage s t
  Move-SameLineage s t (gather v c cost h k l b e) = ap settled_lineage e
  Move-SameLineage s t (abort cost why h l e) = ap settled_lineage e
  Move-SameLineage s t (quarantine v c n h k l e) = ap settled_lineage e
  Move-SameLineage s t (train v c n h k l p q e) = ap settled_lineage e
  Move-SameLineage s t (stop v c n h k l m e) = ap settled_lineage e
  Move-SameLineage s t (again v c n h k l m e) = ap settled_lineage e

  -- The batch counter of a harvest that may go on, and of one that is over.
  pub record IsBounded (t : StateSnapshot P) : Type 0 where
    pub most : batches t ≤ limits.max_batches
    pub room : t.state ≡ ControlState.harvest_traces → batches t < limits.max_batches

  pub Move-IsBounded : (s t : StateSnapshot P) → Move s t → IsBounded s → IsBounded t
  Move-IsBounded s t (gather v c cost h k l b e) i =
      let state : t.state ≡ ControlState.verify_traces = ap (λ p. p.state) e in
      let now : batches t ≡ c + 1 = ap or_zero l.1 in
      let before : batches s ≡ c = ap or_zero k.1 in
      record { most = omega (arith, now, before, i.room h); room = λ r. absurd (ground arith) }
  Move-IsBounded s t (quarantine v c n h k l e) i =
      let state : t.state ≡ ControlState.quarantined = ap (λ p. p.state) e in
      let now : batches t ≡ c = ap or_zero l.1 in
      let before : batches s ≡ c = ap or_zero k.1 in
      record { most = omega (arith, now, before, i.most); room = λ r. absurd (ground arith) }
  Move-IsBounded s t (abort cost why h l e) i =
      let state : t.state ≡ ControlState.aborted = ap (λ p. p.state) e in
      let now : batches t ≡ 0 = ap or_zero l.1 in
      record { most = omega (arith, now); room = λ r. absurd (ground arith) }
  Move-IsBounded s t (train v c n h k l p q e) i =
      let state : t.state ≡ ControlState.train_model = ap (λ p. p.state) e in
      let now : batches t ≡ c = ap or_zero l.1 in
      let before : batches s ≡ c = ap or_zero k.1 in
      record { most = omega (arith, now, before, i.most); room = λ r. absurd (ground arith) }
  Move-IsBounded s t (stop v c n h k l m e) i =
      let state : t.state ≡ ControlState.stopped = ap (λ p. p.state) e in
      let now : batches t ≡ c = ap or_zero l.1 in
      let before : batches s ≡ c = ap or_zero k.1 in
      record { most = omega (arith, now, before, i.most); room = λ r. absurd (ground arith) }
  Move-IsBounded s t (again v c n h k l m e) i =
      let now : batches t ≡ c = ap or_zero l.1 in
      record { most = omega (arith, now, m); room = λ r. omega (arith, now, m) }
