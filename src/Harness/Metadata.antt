-- ===== src/Harness/Metadata.antt =====
-- `_safe_metadata` of harness/trace_harvesting/contracts.py and harness/model_inner_loop/contracts.py:
-- metadata without a forbidden key, at any depth. `str.casefold` is a parameter.
use Prim.Native.String.{char_at}
pub mod Clean
pub mod Tests
use Prim.Native.Char.{code}
use post_training_rsi_pipeli.Prelude.{
  Bool, ◌||◌, String, List, Outcome, ok, raise_if, Error, ◌>>=◌, ◌>>◌, ◌==◌, contains,
  if◌then◌else◌,
}
use post_training_rsi_pipeli.Platform.{Platform}
use post_training_rsi_pipeli.ControlPlane.Value.{
  Value, Items, Fields, array, object, nil, cons, end, field, normalize_json_object,
}

-- `.replace("-", "_").replace(" ", "_")`
unfoldable pub underscored : String → String
underscored String.[] = ""
underscored (String.◌∷◌ c s) =
    String.◌∷◌ (if code c == b'-' || code c == b' ' then char_at "_" 0 else c) (underscored s)

module _ (P : Platform) (casefold : String → String) (forbidden : List String) where
  unfoldable pub is_forbidden : String → Bool
  unfolding underscored
  is_forbidden key = contains (underscored (casefold key)) forbidden

  module _ (e : Error) where
    -- `_reject_forbidden_metadata`
    unfoldable mutual
      pub reject_forbidden : Value P → Outcome (Unit {0})
      reject_forbidden (object fs) = reject_fields fs
      reject_forbidden (array xs) = reject_items xs
      reject_forbidden _ = ok tt

      pub reject_items : Items P → Outcome (Unit {0})
      reject_items nil = ok tt
      reject_items (cons x xs) = do reject_forbidden x; reject_items xs

      pub reject_fields : Fields P → Outcome (Unit {0})
      reject_fields end = ok tt
      reject_fields (field key item fs) = do
        raise_if (is_forbidden key) e
        reject_forbidden item
        reject_fields fs

    -- `_safe_metadata`
    unfoldable pub safe_metadata : Fields P → Outcome (Fields P)
    safe_metadata value = do
      normalized ← normalize_json_object P value
      reject_fields normalized
      ok normalized
