-- ===== src/Lineage/PeakStore/Results.antt =====
-- The results of `PeakPointerStore.compare_and_swap` on a checked pointer.
use post_training_rsi_pipeli.Prelude.{
  String, Option, none, some, Outcome, ok, raise, >>=-eq-ok, Error, ◌≡◌, inl, inr, refl, arith,
  eq_iff, str_eq, Bool-cases,
}
use post_training_rsi_pipeli.Platform.{Platform}
use post_training_rsi_pipeli.ControlPlane.Value.{normalize_json_object}
use post_training_rsi_pipeli.Lineage.PeakPointer.{PeakPointer, to_dict, post_init}
use post_training_rsi_pipeli.Lineage.PeakPointer.RoundTrip.{
  from_dict-to_dict_pointer, to_dict-canonical,
}
use post_training_rsi_pipeli.Lineage.JsonFile.{
  Json, IsJson, canonical_json_bytes, read_json_object, Directory, read_file, write_immutable,
}
use post_training_rsi_pipeli.Lineage.PeakStore.{
  LinkedStores, PeakFiles, load, finish_swap, decide_swap, compare_and_swap,
}
use post_training_rsi_pipeli.Lineage.PeakStore.Swap.{Written, Retried, decide_swap-cases}

-- A write-once directory keeps what it holds.
pub write_immutable-keeps :
    (P : Platform) (json : Json P) (name other : String) (bytes content : json.Bytes)
    (files left : Directory P json)
    → write_immutable P json name bytes files ≡ ok left
    → read_file P json other files ≡ some content
    → read_file P json other left ≡ some content
unfolding write_immutable
write_immutable-keeps P json name other bytes content files left h hr =
    elim (Bool-cases (str_eq other name)) [
      | inl same ↦ ground (arith, eq_iff other name)
      | inr differ ↦ ground arith
    ]

module _ (P : Platform) (json : Json P) (stores : LinkedStores P) (is_json : IsJson P json)
    (files : PeakFiles P json) (pointer : PeakPointer P) (expected : Option String)
    (checked : post_init P pointer ≡ ok pointer) where
  Written-load :
      (left : PeakFiles P json)
      → Written P json stores files left pointer expected
      → load P json stores left ≡ ok (some pointer)
  unfolding load canonical_json_bytes read_json_object
  Written-load left w =
      let (value, hv, hb) = >>=-eq-ok (normalize_json_object P (to_dict P pointer)) _ w.of_bytes in
      let whole = (from_dict-to_dict_pointer P pointer checked).1 in
      let back = rw hv at whole in
      let read = is_json.load-dumps value (to_dict-canonical P pointer value hv) in
      ground (arith, w.file, w.links, read, back, hb)

  -- what a call leaves and gives
  pub data Result (left : PeakFiles P json) : Outcome (PeakPointer P) → Type 0 where
    swapped :
        Written P json stores files left pointer expected
        → load P json stores left ≡ ok (some pointer)
        → Result left (ok pointer)
    retried :
        (current : PeakPointer P)
        → Retried P json stores files left pointer current
        → Result left (ok current)
    refused : (e : Error) → left ≡ files → Result left (raise e)

  finish_swap-Result :
      (o : Outcome (Option (PeakPointer P) × PeakFiles P json))
      → decide_swap P json stores files pointer expected ≡ o
      → Result
          ((finish_swap P json stores files pointer o).0)
          ((finish_swap P json stores files pointer o).1)
  unfolding finish_swap
  finish_swap-Result (raise e) h = refused e refl
  finish_swap-Result (ok (some current, left)) h =
      elim (decide_swap-cases P json stores is_json files left pointer expected (some current) h) [
        | inl (hc, w) ↦ absurd (ground arith)
        | inr (now, hc, r) ↦ retried current (record {
          unchanged = refl;
          loaded = ground (arith, r.loaded, hc);
          same_bytes = ground (arith, r.same_bytes, hc);
        })
      ]
  finish_swap-Result (ok (none, left)) h =
      elim (decide_swap-cases P json stores is_json files left pointer expected none h) [
        | inl (hc, w) ↦ rw (Written-load left w) (swapped w (Written-load left w))
        | inr (now, hc, r) ↦ absurd (ground arith)
      ]

  -- A call with a checked pointer, where a JSON object of finite numbers and sorted keys is read back
  -- from its text, either writes a pointer that follows the current Peak, and it is then what `load`
  -- gives, or gives the current pointer for the same bytes, or raises; the last two change no file.
  pub compare_and_swap-Result :
      Result
        ((compare_and_swap P json stores files pointer expected).0)
        ((compare_and_swap P json stores files pointer expected).1)
  unfolding compare_and_swap
  compare_and_swap-Result =
      finish_swap-Result (decide_swap P json stores files pointer expected) refl
