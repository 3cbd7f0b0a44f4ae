-- ===== src/Lineage/Tests.antt =====
-- Runs of the Peak store, and its theorems at concrete inputs.
use post_training_rsi_pipeli.Prelude.{
  Option, String, str_eq, if◌then◌else◌, arith, [], ◌∷◌, none, some, Outcome, ok, raise, pos,
  lineage_conflict, lineage_integrity, ◌>>=◌, ◌≡◌, refl,
}
use post_training_rsi_pipeli.Platform.Fixed.{fixed, fixed-IsIeee}
use post_training_rsi_pipeli.ControlPlane.Text.{
  is_id, is_text, is_sha256, is_hex, between, id_codes, is_alnum, is_control, is_id_char, is_space,
  offset_to_z, z_to_offset,
}
use post_training_rsi_pipeli.ControlPlane.Value.{Fields, end, insert_field, normalize_json_object}
use post_training_rsi_pipeli.ControlPlane.Validation.{
  validate_id, validate_optional_id, validate_text, validate_sha256, normalize_timestamp,
  parse_timestamp, validate_finite_number, validate_nonnegative_int,
}
use post_training_rsi_pipeli.ControlPlane.Reading.{
  as_text, as_int, as_float, as_optional_text, optional_str, required_float, required_int,
  required_str, validated_record_mapping,
}
use post_training_rsi_pipeli.ControlPlane.Enums.DecisionAction
use post_training_rsi_pipeli.ControlPlane.Enums.DecisionSubject
use post_training_rsi_pipeli.ControlPlane.Records.DecisionRecord.{DecisionRecord}
use post_training_rsi_pipeli.Lineage.PeakPointer.{PeakPointer, post_init, to_dict, from_dict}
use post_training_rsi_pipeli.Lineage.PeakPointer.RoundTrip.{from_dict-to_dict_pointer}
use post_training_rsi_pipeli.Lineage.JsonFile.{
  read_file, canonical_json_bytes, read_json_object, write_immutable,
}
use post_training_rsi_pipeli.Lineage.JsonFile.Trees.{
  trees, trees-IsJson, same_fields, sorted_value, sorted_items, sorted,
}
use post_training_rsi_pipeli.Lineage.PeakStore.{
  Transaction, Bundle, LinkedStores, PeakFiles, verify_links, load, admit_swap, write_pointer,
  admit_and_write, settle_swap, decide_swap, finish_swap, compare_and_swap,
}
use post_training_rsi_pipeli.Lineage.PeakStore.Results.{Result, compare_and_swap-Result}
use post_training_rsi_pipeli.Lineage.PeakStore.Runs.{
  done, call, load-Holds, HoldsAtLeast, Calls-HoldsAtLeast, Calls-keeps,
}

-- the first Peak, and a better checkpoint of the next iteration
abbrev peak : PeakPointer fixed
peak = record {
  run_id = "run-1";
  checkpoint_id = "ckpt-1";
  previous_checkpoint_id = none;
  model_id = "model-1";
  iteration = 1;
  score = pos 500;
  decision_id = "decision-1";
  control_transaction_id = "tx-1";
  checkpoint_bundle_sha256 = "00112233445566778899aabbccddeeff00112233445566778899aabbccddeeff";
  updated_at = "2026-08-01T00:00:00Z";
}

abbrev better : PeakPointer fixed
better = record peak {
  checkpoint_id = "ckpt-2";
  previous_checkpoint_id = some "ckpt-1";
  iteration = 2;
  score = pos 520;
  decision_id = "decision-2";
  control_transaction_id = "tx-2";
}

-- what the linked stores hold for a pointer
abbrev transaction_of : PeakPointer fixed → Transaction
transaction_of p = record {
  run_id = p.run_id;
  iteration = p.iteration;
  records = ("decision", p.decision_id) ∷ [];
}

abbrev decision_of : PeakPointer fixed → DecisionRecord fixed
decision_of p = record {
  decision_id = p.decision_id;
  run_id = p.run_id;
  iteration = p.iteration;
  subject_type = DecisionSubject.checkpoint;
  subject_id = p.checkpoint_id;
  action = DecisionAction.promote;
  reason_code = "candidate_above_peak";
  reason = "better";
  evidence_ids = "evidence-1" ∷ [];
  created_at = p.updated_at;
  stop_reason = none;
  metadata = end;
}

abbrev bundle_of : PeakPointer fixed → Bundle fixed
bundle_of p = record {
  run_id = p.run_id;
  iteration = p.iteration;
  control_transaction_id = p.control_transaction_id;
  manifest_sha256 = p.checkpoint_bundle_sha256;
  model_id = p.model_id;
  benchmark_score = p.score;
}

abbrev stores : LinkedStores fixed
stores = record {
  load_transaction =
      λ id. if str_eq id "tx-1" then ok (transaction_of peak) else ok (transaction_of better);
  load_decision =
      λ id. if str_eq id "decision-1" then ok (decision_of peak) else ok (decision_of better);
  load_bundle = λ id. if str_eq id "ckpt-1" then ok (bundle_of peak) else ok (bundle_of better);
  format_06d = λ n. "000001";
}

-- linked stores that hold nothing
abbrev no_stores : LinkedStores fixed
no_stores = record {
  load_transaction = λ id. raise lineage_integrity;
  load_decision = λ id. raise lineage_integrity;
  load_bundle = λ id. raise lineage_integrity;
  format_06d = λ n. "000001";
}

abbrev no_files : PeakFiles fixed trees
no_files = record { pointer = none; history = [] }

abbrev files : PeakFiles fixed trees
files = (compare_and_swap fixed trees stores no_files peak none).0

peak_accepted : post_init fixed peak ≡ ok peak
unfolding post_init validate_id validate_optional_id validate_text validate_sha256
    normalize_timestamp parse_timestamp validate_finite_number is_id is_text is_sha256 is_hex
    between id_codes is_alnum is_control is_id_char is_space offset_to_z z_to_offset
peak_accepted = refl

better_accepted : post_init fixed better ≡ ok better
unfolding post_init validate_id validate_optional_id validate_text validate_sha256
    normalize_timestamp parse_timestamp validate_finite_number is_id is_text is_sha256 is_hex
    between id_codes is_alnum is_control is_id_char is_space offset_to_z z_to_offset
better_accepted = refl

-- A call with all that it runs.
swap :
    PeakFiles fixed trees
    → PeakPointer fixed
    → Option String
    → PeakFiles fixed trees × Outcome (PeakPointer fixed)
unfolding compare_and_swap post_init to_dict from_dict normalize_json_object validate_id
    validate_optional_id validate_text validate_sha256 normalize_timestamp parse_timestamp
    validate_finite_number validate_nonnegative_int is_id is_text is_sha256 is_hex between id_codes
    is_alnum is_control is_id_char is_space offset_to_z z_to_offset as_text as_int as_float
    as_optional_text optional_str required_float required_int required_str validated_record_mapping
    canonical_json_bytes read_json_object write_immutable verify_links load admit_swap write_pointer
    admit_and_write settle_swap decide_swap finish_swap same_fields sorted_value sorted_items sorted
    insert_field
swap f p expected = compare_and_swap fixed trees stores f p expected

first_swapped : (swap no_files peak none).1 ≡ ok peak
unfolding swap
first_swapped = refl

second_swapped : (swap files better (some "ckpt-1")).1 ≡ ok better
unfolding swap
second_swapped = refl

retry_given : swap files peak none ≡ (files, ok peak)
unfolding swap
retry_given = refl

stale_refused : swap files better none ≡ (files, raise lineage_conflict)
unfolding swap
stale_refused = refl

-- A pointer with the Peak's own score is refused.
equal_score_refused :
    swap files (record better { score = pos 500 }) (some "ckpt-1") ≡ (files, raise lineage_conflict)
unfolding swap
equal_score_refused = refl

peak_loaded : load fixed trees stores files ≡ ok (some peak)
unfolding swap
peak_loaded = refl

peak_held : HoldsAtLeast fixed trees files peak
peak_held = (
  peak,
  load-Holds fixed trees stores files peak peak_loaded,
  record { iterations = omega arith; scores = refl },
)

from_dict-to_dict_pointer_example :
    (from_dict fixed (to_dict fixed better) ≡ ok better)
    × ((normalize_json_object fixed (to_dict fixed better) >>= from_dict fixed) ≡ ok better)
from_dict-to_dict_pointer_example = from_dict-to_dict_pointer fixed better better_accepted

compare_and_swap-Result_example :
    Result fixed trees stores trees-IsJson files better
      (some "ckpt-1")
      better_accepted
      ((compare_and_swap fixed trees stores files better (some "ckpt-1")).0)
      ((compare_and_swap fixed trees stores files better (some "ckpt-1")).1)
compare_and_swap-Result_example =
    compare_and_swap-Result fixed trees stores trees-IsJson files better (some "ckpt-1")
      better_accepted

-- a call that finds none of the linked records
abbrev after_outage : PeakFiles fixed trees
after_outage = (compare_and_swap fixed trees no_stores files better (some "ckpt-1")).0

Calls-HoldsAtLeast_example :
    HoldsAtLeast fixed trees
      ((compare_and_swap fixed trees stores after_outage better (some "ckpt-1")).0)
      peak
Calls-HoldsAtLeast_example =
    Calls-HoldsAtLeast fixed trees fixed-IsIeee trees-IsJson files
      ((compare_and_swap fixed trees stores after_outage better (some "ckpt-1")).0) peak
      (call no_stores better (some "ckpt-1") better_accepted
        (call stores better (some "ckpt-1") better_accepted done))
      peak_held

-- the content that the first call wrote
abbrev bytes_of : Option (Fields fixed) → Fields fixed
bytes_of none = end
bytes_of (some bytes) = bytes

first_kept :
    read_file fixed trees "iter-000001-ckpt-1.json" files.history ≡ some (bytes_of files.pointer)
unfolding swap
first_kept = refl

Calls-keeps_example :
    read_file fixed trees "iter-000001-ckpt-1.json"
      (compare_and_swap fixed trees stores after_outage better (some "ckpt-1")).0.history
    ≡ some (bytes_of files.pointer)
Calls-keeps_example =
    Calls-keeps fixed trees trees-IsJson files
      ((compare_and_swap fixed trees stores after_outage better (some "ckpt-1")).0)
      "iter-000001-ckpt-1.json" (bytes_of files.pointer)
      (call no_stores better (some "ckpt-1") better_accepted
        (call stores better (some "ckpt-1") better_accepted done))
      first_kept
