-- ===== src/Lineage/PeakStore/Swap.antt =====
-- What `PeakPointerStore.compare_and_swap` does to the pointer file and to the history.
use post_training_rsi_pipeli.Prelude.{
  ◌≤◌, true, String, Option, none, some, ok, >>=-eq-ok, Bool-cases, opt_eq_iff, ◌≡◌, ◌⊎◌, inl, inr,
  arith, subst,
}
use post_training_rsi_pipeli.Platform.{Platform}
use post_training_rsi_pipeli.ControlPlane.Validation.{validate_optional_id}
use post_training_rsi_pipeli.ControlPlane.Validation.Laws.{validate_optional_id-Checked}
use post_training_rsi_pipeli.Lineage.PeakPointer.{PeakPointer, to_dict}
use post_training_rsi_pipeli.Lineage.JsonFile.{Json, IsJson, canonical_json_bytes, write_immutable}
use post_training_rsi_pipeli.Lineage.PeakStore.{
  LinkedStores, PeakFiles, verify_links, load, admit_swap, history_name, write_pointer, settle_swap,
  is_retry, admit_and_write, decide_swap,
}

module _ (P : Platform) (json : Json P) (stores : LinkedStores P) where
  -- how a new pointer follows the current one
  pub data Follows (pointer : PeakPointer P) : Option (PeakPointer P) → Option String → Type 0 where
    first : Follows pointer none none
    next :
        (current : PeakPointer P)
        → current.iteration ≤ pointer.iteration
        → P.less current.score pointer.score ≡ true
        → Follows pointer (some current) (some current.checkpoint_id)

  -- a swap that wrote the pointer
  pub record Written (files left : PeakFiles P json) (pointer : PeakPointer P)
      (expected : Option String) : Type 0 where
    pub before : Option (PeakPointer P)
    pub loaded : load P json stores files ≡ ok before
    pub follows : Follows pointer before expected
    pub same_previous : pointer.previous_checkpoint_id ≡ expected
    pub links : verify_links P json stores pointer ≡ ok tt
    pub bytes : json.Bytes
    pub of_bytes : canonical_json_bytes P json (to_dict P pointer) ≡ ok bytes
    pub file : left.pointer ≡ some bytes
    pub history :
        write_immutable P json (history_name P json stores pointer) bytes files.history
        ≡ ok left.history

  admit_swap-Follows :
      (current : Option (PeakPointer P)) (pointer : PeakPointer P) (expected : Option String)
      {u : Unit {0}}
      → admit_swap P json stores current pointer expected ≡ ok u
      → Follows pointer current expected
        × (pointer.previous_checkpoint_id ≡ expected)
        × (verify_links P json stores pointer ≡ ok tt)
  unfolding admit_swap
  admit_swap-Follows none pointer none h = (first, (opt_eq_iff _ _).0 (ground arith), ground arith)
  admit_swap-Follows none pointer (some e) h = absurd (ground arith)
  admit_swap-Follows (some current) pointer none h = absurd (ground arith)
  admit_swap-Follows (some current) pointer (some e) h = (
    subst (λ x. Follows pointer (some current) x)
        ((opt_eq_iff (some current.checkpoint_id) (some e)).0 (ground arith))
        (next current (ground arith) (ground arith)),
    (opt_eq_iff _ _).0 (ground arith),
    ground arith,
  )

  -- a call for the pointer that is current already
  pub record Retried (files left : PeakFiles P json) (pointer current : PeakPointer P)
      : Type 0 where
    pub unchanged : left ≡ files
    pub loaded : load P json stores files ≡ ok (some current)
    pub same_bytes :
        canonical_json_bytes P json (to_dict P current)
        ≡ canonical_json_bytes P json (to_dict P pointer)

  module _ (files left : PeakFiles P json) (pointer : PeakPointer P) (expected : Option String)
      (bytes : json.Bytes)
      (of_bytes : canonical_json_bytes P json (to_dict P pointer) ≡ ok bytes) where
    -- the call after a pointer that is no retry
    admitted-Written :
        (before c : Option (PeakPointer P))
        → load P json stores files ≡ ok before
        → admit_and_write P json stores files pointer expected bytes before ≡ ok (c, left)
        → (c ≡ none) × Written files left pointer expected
    unfolding admit_and_write write_pointer
    admitted-Written before c hl h =
        let (u, ha, h1) = >>=-eq-ok (admit_swap P json stores before pointer expected) _ h in
        let (w, hw, h2) = >>=-eq-ok (write_pointer P json stores files pointer bytes) _ h1 in
        let (history, hh, h3) =
          >>=-eq-ok
            (write_immutable P json (history_name P json stores pointer) bytes files.history) _
            hw in
        let (follows, same_previous, links) = admit_swap-Follows before pointer expected ha in
        (
          ground arith,
          record {
            before = before;
            loaded = hl;
            follows = follows;
            same_previous = same_previous;
            links = links;
            bytes = bytes;
            of_bytes = of_bytes;
            file = ground arith;
            history = ground arith;
          },
        )

    settle_swap-cases :
        (is_json : IsJson P json) (before c : Option (PeakPointer P))
        → load P json stores files ≡ ok before
        → settle_swap P json stores files pointer expected bytes before ≡ ok (c, left)
        → ((c ≡ none) × Written files left pointer expected)
          ⊎ ((current : PeakPointer P) × (c ≡ some current) × Retried files left pointer current)
    unfolding settle_swap
    settle_swap-cases is_json none c hl h = inl (admitted-Written none c hl h)
    settle_swap-cases is_json (some now) c hl h =
        let (retry, hr, h1) = >>=-eq-ok (is_retry P json stores (some now) bytes) _ h in
        let (found, hf, h2) = >>=-eq-ok (canonical_json_bytes P json (to_dict P now)) _ hr in
        elim (Bool-cases retry) [
          | inl same ↦ inr (
            now,
            ground arith,
            record {
              unchanged = ground arith;
              loaded = hl;
              same_bytes = ground (arith, is_json.same_iff found bytes);
            },
          )
          | inr other ↦ inl (admitted-Written (some now) c hl (rw other at h1))
        ]

  pub decide_swap-cases :
      (is_json : IsJson P json) (files left : PeakFiles P json) (pointer : PeakPointer P)
      (expected : Option String) (c : Option (PeakPointer P))
      → decide_swap P json stores files pointer expected ≡ ok (c, left)
      → ((c ≡ none) × Written files left pointer expected)
        ⊎ ((current : PeakPointer P) × (c ≡ some current) × Retried files left pointer current)
  unfolding decide_swap
  decide_swap-cases is_json files left pointer expected c h =
      let (checked, hc, h1) = >>=-eq-ok (validate_optional_id expected) _ h in
      let (bytes, hb, h2) = >>=-eq-ok (canonical_json_bytes P json (to_dict P pointer)) _ h1 in
      let (before, hl, h3) = >>=-eq-ok (load P json stores files) _ h2 in
      let same : checked ≡ expected = ground (arith, hc, validate_optional_id-Checked expected) in
      subst
        (λ e.
          ((c ≡ none) × Written files left pointer e)
          ⊎ ((current : PeakPointer P) × (c ≡ some current) × Retried files left pointer current))
        same (settle_swap-cases files left pointer checked bytes hb is_json before c hl h3)
