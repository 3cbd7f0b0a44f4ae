-- ===== src/Lineage/PeakStore/Runs.antt =====
-- Any sequence of calls of `PeakPointerStore.compare_and_swap`.
use post_training_rsi_pipeli.Prelude.{
  ◌≤◌, String, Option, some, Outcome, ok, true, false, ◌≡◌, arith, subst, sym, inl, inr,
  Option-cases,
}
use post_training_rsi_pipeli.Platform.{Platform}
use post_training_rsi_pipeli.Platform.Laws.{IsIeee}
use post_training_rsi_pipeli.ControlPlane.Value.{Fields}
use post_training_rsi_pipeli.Lineage.PeakPointer.{PeakPointer, from_dict, post_init}
use post_training_rsi_pipeli.Lineage.JsonFile.{Json, IsJson, read_file, read_json_object}
use post_training_rsi_pipeli.Lineage.PeakStore.{
  LinkedStores, PeakFiles, load, history_name, compare_and_swap,
}
use post_training_rsi_pipeli.Lineage.PeakStore.Swap.{Follows, first, next}
use post_training_rsi_pipeli.Lineage.PeakStore.Results.{
  Result, swapped, retried, refused, compare_and_swap-Result, write_immutable-keeps,
}

module _ (P : Platform) (json : Json P) where
  -- calls with checked pointers, whatever each of them returns and the linked stores hold then
  pub data Calls : PeakFiles P json → PeakFiles P json → Type 1 where
    done : {files : PeakFiles P json} → Calls files files
    call :
        {files left : PeakFiles P json} (stores : LinkedStores P) (pointer : PeakPointer P)
        (expected : Option String)
        → post_init P pointer ≡ ok pointer
        → Calls ((compare_and_swap P json stores files pointer expected).0) left
        → Calls files left

  -- the pointer of the files, its links not verified
  pub record Holds (files : PeakFiles P json) (pointer : PeakPointer P) : Type 0 where
    pub content : json.Bytes
    pub value : Fields P
    pub file : files.pointer ≡ some content
    pub read : json.load content ≡ some value
    pub decoded : from_dict P value ≡ ok pointer

  -- a Peak that is as good as another, and not of an earlier iteration
  pub record IsAtLeast (new old : PeakPointer P) : Type 0 where
    pub iterations : old.iteration ≤ new.iteration
    pub scores : P.less new.score old.score ≡ false

  -- the files hold a Peak that is at least this one
  abbrev pub HoldsAtLeast : PeakFiles P json → PeakPointer P → Type 0
  HoldsAtLeast files old = (new : PeakPointer P) × Holds files new × IsAtLeast new old

  module _ (stores : LinkedStores P) where
    -- What `load` gives is what the files hold.
    pub load-Holds :
        (files : PeakFiles P json) (pointer : PeakPointer P)
        → load P json stores files ≡ ok (some pointer)
        → Holds files pointer
    unfolding load read_json_object
    load-Holds files pointer h = elim (Option-cases files.pointer) [
      | inl missing ↦ absurd (ground (arith, missing, h))
      | inr (content, file) ↦ elim (Option-cases (json.load content)) [
        | inl broken ↦ absurd (ground (arith, file, broken, h))
        | inr (value, read) ↦ record {
          content = content;
          value = value;
          file = file;
          read = read;
          decoded = ground (arith, file, read, h);
        }
      ]
    ]

    Holds-load :
        (files : PeakFiles P json) (pointer : PeakPointer P) (before : Option (PeakPointer P))
        → Holds files pointer
        → load P json stores files ≡ ok before
        → before ≡ some pointer
    unfolding load read_json_object
    Holds-load files pointer before held h = ground (arith, held.file, held.read, held.decoded, h)

    Follows-better :
        (pointer new : PeakPointer P) (before : Option (PeakPointer P)) (expected : Option String)
        → Follows P json stores pointer before expected
        → before ≡ some new
        → (new.iteration ≤ pointer.iteration) × (P.less new.score pointer.score ≡ true)
    Follows-better pointer new _ _ first same = absurd (ground arith)
    Follows-better pointer new _ _ (next current later better) same =
        (ground (arith, same, later), ground (arith, same, better))

  module _ (ieee : IsIeee P) where
    IsAtLeast-trans :
        (a b c : PeakPointer P)
        → IsAtLeast b a
        → P.less b.score c.score ≡ true
        → b.iteration ≤ c.iteration
        → IsAtLeast c a
    IsAtLeast-trans a b c h less later = record {
      iterations = omega (arith, h.iterations, later);
      scores = ground (arith, h.scores, less, ieee.transitive b.score c.score a.score);
    }

    Result-HoldsAtLeast :
        (stores : LinkedStores P) (is_json : IsJson P json) (files left : PeakFiles P json)
        (pointer old : PeakPointer P) (expected : Option String)
        (checked : post_init P pointer ≡ ok pointer) (result : Outcome (PeakPointer P))
        → HoldsAtLeast files old
        → Result P json stores is_json files pointer expected checked left result
        → HoldsAtLeast left old
    Result-HoldsAtLeast stores is_json files left pointer old expected checked _ (new, held, above)
          (swapped w found) =
        let (later, better) =
          Follows-better stores pointer new w.before expected w.follows
            (Holds-load stores files new w.before held w.loaded) in
        (
          pointer,
          load-Holds stores left pointer found,
          IsAtLeast-trans old new pointer above better later,
        )
    Result-HoldsAtLeast stores is_json files left pointer old expected checked _ h
          (retried current r) =
        subst (λ x. HoldsAtLeast x old) (sym r.unchanged) h
    Result-HoldsAtLeast stores is_json files left pointer old expected checked _ h
          (refused e same) =
        subst (λ x. HoldsAtLeast x old) (sym same) h

    -- Once the files hold a Peak, after any calls with checked pointers they hold one of no earlier
    -- iteration and no lower score, whatever the linked stores hold at each call, if floats are as
    -- IEEE 754 has them and a JSON object of finite numbers and sorted keys is read back from its
    -- text.
    pub Calls-HoldsAtLeast :
        (is_json : IsJson P json) (files left : PeakFiles P json) (old : PeakPointer P)
        → Calls files left
        → HoldsAtLeast files old
        → HoldsAtLeast left old
    Calls-HoldsAtLeast is_json files _ old done h = h
    Calls-HoldsAtLeast is_json files left old (call stores pointer expected checked rest) h =
        Calls-HoldsAtLeast is_json _ left old rest (
          Result-HoldsAtLeast stores is_json files _ pointer old expected checked _ h
            (compare_and_swap-Result P json stores is_json files pointer expected checked))

  Result-keeps :
      (stores : LinkedStores P) (is_json : IsJson P json) (files left : PeakFiles P json)
      (pointer : PeakPointer P) (expected : Option String)
      (checked : post_init P pointer ≡ ok pointer) (name : String) (content : json.Bytes)
      (result : Outcome (PeakPointer P))
      → read_file P json name files.history ≡ some content
      → Result P json stores is_json files pointer expected checked left result
      → read_file P json name left.history ≡ some content
  Result-keeps stores is_json files left pointer expected checked name content _ h
        (swapped w found) =
      write_immutable-keeps P json (history_name P json stores pointer) name w.bytes content
        files.history left.history w.history h
  Result-keeps stores is_json files left pointer expected checked name content _ h
        (retried current r) =
      subst (λ x. read_file P json name x.history ≡ some content) (sym r.unchanged) h
  Result-keeps stores is_json files left pointer expected checked name content _ h
        (refused e same) =
      subst (λ x. read_file P json name x.history ≡ some content) (sym same) h

  -- Where a JSON object of finite numbers and sorted keys is read back from its text, no sequence of
  -- calls with checked pointers changes or removes a file of the history, whatever the linked stores
  -- hold at each call.
  pub Calls-keeps :
      (is_json : IsJson P json) (files left : PeakFiles P json) (name : String)
      (content : json.Bytes)
      → Calls files left
      → read_file P json name files.history ≡ some content
      → read_file P json name left.history ≡ some content
  Calls-keeps is_json files _ name content done h = h
  Calls-keeps is_json files left name content (call stores pointer expected checked rest) h =
      Calls-keeps is_json _ left name content rest (
        Result-keeps stores is_json files _ pointer expected checked name content _ h
          (compare_and_swap-Result P json stores is_json files pointer expected checked))
