-- ===== src/ControlPlane/Value.antt =====
-- The Python values that records carry: JSON values, and `other` for any object that is none.
pub mod Order
pub mod Canonical
use Prim.Native.String.{compare}
use Prim.Native.Nat.{Ordering}
use post_training_rsi_pipeli.Prelude.{
  ℤ, Bool, true, false, String, Option, none, some, Outcome, ok, raise, control_contract, ◌>>=◌,
  str_eq, if◌then◌else◌,
}
use post_training_rsi_pipeli.Platform.{Platform}

-- A `dict` with string keys is its entries in insertion order.
mutual
  pub data Value (P : Platform) : Type 0 where
    null : Value P
    bool : Bool → Value P
    int : ℤ → Value P
    float : P.Float → Value P
    text : String → Value P
    array : Items P → Value P
    object : Fields P → Value P
    other : Value P

  pub data Items (P : Platform) : Type 0 where
    nil : Items P
    cons : Value P → Items P → Items P

  pub data Fields (P : Platform) : Type 0 where
    end : Fields P
    field : String → Value P → Fields P → Fields P

-- `<=` on `str`, by code points
abbrev pub text_leb : String → String → Bool
text_leb s t = elim (compare s t) [ Ordering.gt ↦ false | _ ↦ true ]

module _ {P : Platform} where
  -- `value.get(key)`
  abbrev pub get : String → Fields P → Option (Value P)
  get key end = none
  get key (field k v fs) = if str_eq k key then some v else get key fs

  -- a key put in its place among sorted keys
  unfoldable pub insert_field : String → Value P → Fields P → Fields P
  insert_field k v end = field k v end
  insert_field k v (field j w fs) =
      if text_leb k j then field k v (field j w fs) else field j w (insert_field k v fs)

unfoldable mutual
  unfolding insert_field

  -- `normalize_json_value`
  pub normalize_json_value : (P : Platform) → Value P → Outcome (Value P)
  normalize_json_value P null = ok null
  normalize_json_value P (bool b) = ok (bool b)
  normalize_json_value P (int n) = ok (int n)
  normalize_json_value P (float x) = if P.is_finite x then ok (float x) else raise control_contract
  normalize_json_value P (text s) = ok (text s)
  normalize_json_value P (array xs) = do ys ← normalize_items P xs; ok (array ys)
  normalize_json_value P (object fs) = do gs ← normalize_json_object P fs; ok (object gs)
  normalize_json_value P other = raise control_contract

  pub normalize_items : (P : Platform) → Items P → Outcome (Items P)
  normalize_items P nil = ok nil
  normalize_items P (cons x xs) = do
    y ← normalize_json_value P x
    ys ← normalize_items P xs
    ok (cons y ys)

  -- `normalize_json_object`: the same entries under sorted keys
  pub normalize_json_object : (P : Platform) → Fields P → Outcome (Fields P)
  normalize_json_object P end = ok end
  normalize_json_object P (field k v fs) = do
    w ← normalize_json_value P v
    gs ← normalize_json_object P fs
    ok (insert_field k w gs)
