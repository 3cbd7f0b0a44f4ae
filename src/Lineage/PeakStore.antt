-- ===== src/Lineage/PeakStore.antt =====
-- `PeakPointerStore` of lineage/peak_store.py. The state is the pointer file and the directory of
-- the history; a call runs with the store's lock held.
pub mod Swap
pub mod Results
pub mod Runs
use Prim.Native.String.{◌++◌ as append}
use post_training_rsi_pipeli.Prelude.{
  ℕ, Bool, true, false, not, ◌&&◌, ◌==◌, ltb, String, List, [], Option, none, some, Outcome, ok,
  raise, raise_if, any, lineage_conflict, lineage_integrity, ◌>>=◌, ◌>>◌, opt_eq, str_eq,
  if◌then◌else◌,
}
use post_training_rsi_pipeli.Platform.{Platform}
use post_training_rsi_pipeli.ControlPlane.Validation.{validate_optional_id}
use post_training_rsi_pipeli.ControlPlane.Enums.DecisionAction.{DecisionAction}
use post_training_rsi_pipeli.ControlPlane.Enums.DecisionSubject.{DecisionSubject}
use post_training_rsi_pipeli.ControlPlane.Records.DecisionRecord.{DecisionRecord}
use post_training_rsi_pipeli.Lineage.PeakPointer.{PeakPointer, to_dict, from_dict}
use post_training_rsi_pipeli.Lineage.JsonFile.{
  Json, canonical_json_bytes, read_json_object, Directory, write_immutable,
}

-- What the store reads of a `ControlTransactionManifest`: records are (record_type, record_id).
pub record Transaction : Type 0 where
  pub run_id : String
  pub iteration : ℕ
  pub records : List (String × String)

-- What it reads of a `CheckpointBundle`.
pub record Bundle (P : Platform) : Type 0 where
  pub run_id : String
  pub iteration : ℕ
  pub control_transaction_id : String
  pub manifest_sha256 : String
  pub model_id : String
  pub benchmark_score : P.Float

-- The interface of the stores that the pointer links to, and the `:06d` format.
pub record LinkedStores (P : Platform) : Type 0 where
  pub load_transaction : String → Outcome Transaction
  pub load_decision : String → Outcome (DecisionRecord P)
  pub load_bundle : String → Outcome (Bundle P)
  pub format_06d : ℕ → String

pub record PeakFiles (P : Platform) (json : Json P) : Type 0 where
  pub pointer : Option json.Bytes
  pub history : Directory P json

abbrev is_promote : DecisionAction → Bool
is_promote DecisionAction.promote = true
is_promote _ = false

abbrev is_checkpoint : DecisionSubject → Bool
is_checkpoint DecisionSubject.checkpoint = true
is_checkpoint _ = false

-- `ref.record_type == "decision" and ref.record_id == decision_id`
abbrev is_decision_ref : String → String × String → Bool
is_decision_ref decision_id (record_type, record_id) =
    str_eq record_type "decision" && str_eq record_id decision_id

module _ (P : Platform) (json : Json P) (stores : LinkedStores P) where
  -- `_verify_links`
  unfoldable pub verify_links : PeakPointer P → Outcome (Unit {0})
  verify_links pointer = do
    transaction ← stores.load_transaction pointer.control_transaction_id
    raise_if (not (str_eq transaction.run_id pointer.run_id)) lineage_integrity
    raise_if (not (transaction.iteration == pointer.iteration)) lineage_integrity
    raise_if (not (any (is_decision_ref pointer.decision_id) transaction.records)) lineage_integrity
    decision ← stores.load_decision pointer.decision_id
    raise_if (not (is_promote decision.action)) lineage_integrity
    raise_if (not (is_checkpoint decision.subject_type)) lineage_integrity
    raise_if (not (str_eq decision.subject_id pointer.checkpoint_id)) lineage_integrity
    raise_if
        (not (str_eq decision.run_id pointer.run_id && decision.iteration == pointer.iteration))
        lineage_integrity
    bundle ← stores.load_bundle pointer.checkpoint_id
    raise_if (not (str_eq bundle.run_id pointer.run_id)) lineage_integrity
    raise_if (not (bundle.iteration == pointer.iteration)) lineage_integrity
    raise_if (not (str_eq bundle.control_transaction_id pointer.control_transaction_id))
        lineage_integrity
    raise_if (not (str_eq bundle.manifest_sha256 pointer.checkpoint_bundle_sha256))
        lineage_integrity
    raise_if (not (str_eq bundle.model_id pointer.model_id)) lineage_integrity
    raise_if (not (P.is_close bundle.benchmark_score pointer.score)) lineage_integrity

  -- `_load_unlocked(verify_links=True)`
  unfoldable pub load : PeakFiles P json → Outcome (Option (PeakPointer P))
  load files = elim files.pointer [
    | none ↦ ok none
    | some content ↦ do
      value ← read_json_object P json content
      pointer ← from_dict P value
      verify_links pointer
      ok (some pointer)
  ]

  -- `current is not None and canonical_json_bytes(current.to_dict()) == pointer_bytes`
  abbrev pub is_retry : Option (PeakPointer P) → json.Bytes → Outcome Bool
  is_retry none bytes = ok false
  is_retry (some current) bytes = do
    current_bytes ← canonical_json_bytes P json (to_dict P current)
    ok (json.same current_bytes bytes)

  abbrev checkpoint_of : Option (PeakPointer P) → Option String
  checkpoint_of none = none
  checkpoint_of (some current) = some current.checkpoint_id

  -- the tests of a pointer against the current one; `a <= b` is written `not (b < a)`
  abbrev advances : Option (PeakPointer P) → PeakPointer P → Outcome (Unit {0})
  advances none pointer = ok tt
  advances (some current) pointer = do
    raise_if (ltb pointer.iteration current.iteration) lineage_conflict
    raise_if (not (P.less current.score pointer.score)) lineage_conflict

  -- the checks that stand before the files are written
  unfoldable pub admit_swap :
      Option (PeakPointer P) → PeakPointer P → Option String → Outcome (Unit {0})
  admit_swap current pointer expected = do
    raise_if (not (opt_eq (checkpoint_of current) expected)) lineage_conflict
    raise_if (not (opt_eq pointer.previous_checkpoint_id expected)) lineage_conflict
    advances current pointer
    verify_links pointer

  -- f"iter-{pointer.iteration:06d}-{pointer.checkpoint_id}.json"
  abbrev pub history_name : PeakPointer P → String
  history_name pointer = append "iter-" (
      append (stores.format_06d pointer.iteration)
        (append "-" (append pointer.checkpoint_id ".json")))

  -- `load() or pointer`
  abbrev or_pointer : PeakPointer P → Option (PeakPointer P) → PeakPointer P
  or_pointer pointer none = pointer
  or_pointer pointer (some found) = found

  -- what is written: the history file, then the pointer file
  unfoldable pub write_pointer :
      PeakFiles P json → PeakPointer P → json.Bytes → Outcome (PeakFiles P json)
  write_pointer files pointer bytes = do
    history ← write_immutable P json (history_name pointer) bytes files.history
    ok (record { pointer = some bytes; history = history })

  -- the checks and the writes
  unfoldable pub admit_and_write :
      PeakFiles P json
      → PeakPointer P
      → Option String
      → json.Bytes
      → Option (PeakPointer P)
      → Outcome (Option (PeakPointer P) × PeakFiles P json)
  admit_and_write files pointer expected bytes current = do
    admit_swap current pointer expected
    written ← write_pointer files pointer bytes
    ok (none, written)

  -- the current pointer if the call is a retry of it, and what is written if it is not
  unfoldable pub settle_swap :
      PeakFiles P json
      → PeakPointer P
      → Option String
      → json.Bytes
      → Option (PeakPointer P)
      → Outcome (Option (PeakPointer P) × PeakFiles P json)
  settle_swap files pointer expected bytes current = do
    retry ← is_retry current bytes
    if retry then ok (current, files) else admit_and_write files pointer expected bytes current

  unfoldable pub decide_swap :
      PeakFiles P json
      → PeakPointer P
      → Option String
      → Outcome (Option (PeakPointer P) × PeakFiles P json)
  decide_swap files pointer expected = do
    checked ← validate_optional_id expected
    bytes ← canonical_json_bytes P json (to_dict P pointer)
    current ← load files
    settle_swap files pointer checked bytes current

  -- the files that a call leaves, with its result
  unfoldable pub finish_swap :
      PeakFiles P json
      → PeakPointer P
      → Outcome (Option (PeakPointer P) × PeakFiles P json)
      → PeakFiles P json × Outcome (PeakPointer P)
  finish_swap files pointer (raise e) = (files, raise e)
  finish_swap files pointer (ok (some current, _)) = (files, ok current)
  finish_swap files pointer (ok (none, written)) =
      (written, (load written >>= λ found. ok (or_pointer pointer found)))

  unfoldable pub compare_and_swap :
      PeakFiles P json → PeakPointer P → Option String → PeakFiles P json × Outcome (PeakPointer P)
  unfolding finish_swap
  compare_and_swap files pointer expected =
      finish_swap files pointer (decide_swap files pointer expected)
