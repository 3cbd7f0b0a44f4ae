-- ===== src/Harness/Traces/Emitted.antt =====
-- What the edges of harness/trace_harvesting/policy.py have emitted: the position that they reach,
-- and the counters that the next call reads back from the metadata.
use post_training_rsi_pipeli.Prelude.{
  ℕ, String, false, Option, none, some, Outcome, ok, ◌≡◌, refl, ◌∙◌, ap, arith, Ensures,
  >>=-Ensures, raise_if-Ensures, is_empty, trace_contract, str_eq,
}
use post_training_rsi_pipeli.Platform.{Platform}
use post_training_rsi_pipeli.ControlPlane.Value.{Value, Fields, get, normalize_json_value}
use post_training_rsi_pipeli.ControlPlane.Dict.{set_field}
use post_training_rsi_pipeli.ControlPlane.Dict.Laws.{
  get-set_field, Looked, normalize_json_object-Looked,
}
use post_training_rsi_pipeli.ControlPlane.Validation.{
  validate_id, validate_id_tuple, validate_nonnegative_int,
}
use post_training_rsi_pipeli.ControlPlane.Validation.Laws.{
  validate_id-Checked, validate_id_tuple-Checked, Checked-same,
}
use post_training_rsi_pipeli.ControlPlane.Records.StateSnapshot.{StateSnapshot}
use post_training_rsi_pipeli.Harness.Steps.{PolicyStep, or_default, edge_snapshot}
use post_training_rsi_pipeli.Harness.Steps.Emitted.{Emitted, emit-Emitted}
use post_training_rsi_pipeli.Harness.Position.{Position, position, Normalised-position}
use post_training_rsi_pipeli.Harness.Traces.Edges.{
  TraceEdge, edge_of, edge_from_snapshot, keep_key, keep_found, metadata_int, int_of,
}

module _ (P : Platform) (current : StateSnapshot P) (a : TraceEdge P) where
  abbrev pub EmittedFrom : PolicyStep P → Type 0
  EmittedFrom = Emitted P (edge_of P current a)

  pub edge_from_snapshot-Emitted : Ensures EmittedFrom (edge_from_snapshot P current a)
  unfolding edge_from_snapshot edge_of
  edge_from_snapshot-Emitted =
      >>=-Ensures EmittedFrom (validate_id_tuple a.evidence_ids) _ λ ids hs.
        raise_if-Ensures EmittedFrom (is_empty ids) trace_contract _ λ _.
          >>=-Ensures EmittedFrom (validate_id a.subject_id) _ λ id hi step h.
            let same = Checked-same validate_id id a.subject_id hi (validate_id-Checked _) in
            let all_same =
              Checked-same validate_id_tuple ids a.evidence_ids hs (validate_id_tuple-Checked _) in
            emit-Emitted P trace_contract (edge_of P current a) step (rw (same, all_same) at h)

  -- where the edge leads
  abbrev pub reached : Position P
  reached = record (position P current) {
    iteration = or_default a.next_iteration current.iteration;
    state = a.to_state;
    candidate_checkpoint_id = none;
    candidate_harness_id = none;
    candidate_score = none;
    total_cost_usd = or_default a.total_cost_usd current.total_cost_usd;
    stop_reason = a.snapshot_stop_reason;
  }

  pub EmittedFrom-reached :
      (step : PolicyStep P) (x : EmittedFrom step) → position P x.snapshot ≡ reached
  unfolding edge_of edge_snapshot
  EmittedFrom-reached step x = Normalised-position P _ x.snapshot x.of_snapshot

module _ (P : Platform) where
  -- a key that the edge does not write itself
  abbrev pub IsCounter : String → Type 0
  IsCounter key =
      (str_eq "decision_id" key ≡ false)
      × (str_eq "active_model_score" key ≡ false)
      × (str_eq "active_harness_score" key ≡ false)

  get-set_other :
      (key j : String) (v : Value P) (fs : Fields P)
      → str_eq j key ≡ false
      → get key (set_field j v fs) ≡ get key fs
  get-set_other key j v fs other = get-set_field key j v fs ∙ rw other refl

  get-keep_found :
      (key j : String) (mine old : Option (Value P)) (fs : Fields P)
      → str_eq j key ≡ false
      → get key (keep_found P j mine old fs) ≡ get key fs
  get-keep_found key j (some v) old fs other = refl
  get-keep_found key j none none fs other = refl
  get-keep_found key j none (some v) fs other = get-set_other key j v fs other

  get-keep_key :
      (key j : String) (before fs : Fields P)
      → str_eq j key ≡ false
      → get key (keep_key P j before fs) ≡ get key fs
  unfolding keep_key
  get-keep_key key j before fs = get-keep_found key j (get j fs) (get j before) fs

  -- `_metadata_int` on the metadata
  abbrev pub count_of : Option (Value P) → Outcome ℕ
  count_of none = ok 0
  count_of (some v) = int_of P v

  int_of-normalised :
      (v w : Value P) (n : ℕ)
      → normalize_json_value P v ≡ ok w
      → int_of P v ≡ ok n
      → int_of P w ≡ ok n
  unfolding normalize_json_value validate_nonnegative_int
  int_of-normalised v w n h c = ground arith

  count_of-Looked :
      (before found : Option (Value P)) (n : ℕ)
      → Looked P before found
      → count_of before ≡ ok n
      → count_of found ≡ ok n
  count_of-Looked none found n l h = rw l h
  count_of-Looked (some v) found n (w, hw, e) h = rw e (int_of-normalised v w n hw h)

  -- A counter in the metadata of an edge is read back from its snapshot.
  pub counter_kept :
      (current : StateSnapshot P) (a : TraceEdge P) (step : PolicyStep P) (key : String) (n : ℕ)
      (x : EmittedFrom P current a step)
      → IsCounter key
      → count_of (get key a.metadata) ≡ ok n
      → metadata_int P x.snapshot key ≡ ok n
  unfolding edge_of edge_snapshot metadata_int
  counter_kept current a step key n x (d, m, h) c =
      let written = edge_snapshot P (edge_of P current a) in
      let kept : get key written.metadata ≡ get key a.metadata =
        get-set_other key "decision_id" _ (edge_of P current a).snapshot_metadata d
        ∙ get-keep_key key "active_harness_score" current.metadata
            (keep_key P "active_model_score" current.metadata a.metadata) h
        ∙ get-keep_key key "active_model_score" current.metadata a.metadata m in
      let found : metadata_int P x.snapshot key ≡ count_of (get key x.of_snapshot.fields) =
        ap (λ s. metadata_int P s key) x.of_snapshot.same in
      found
      ∙ count_of-Looked (get key written.metadata) (get key x.of_snapshot.fields) n
          (normalize_json_object-Looked P written.metadata x.of_snapshot.fields key
            x.of_snapshot.of_fields)
          (rw kept c)
