-- ===== src/ControlPlane/Reading.antt =====
-- The `required_*` and `optional_*` functions of control_plane/validation.py, which read a decoded
-- record. A missing key is a KeyError there; `validated_record_mapping` has excluded it.
pub mod Laws
use post_training_rsi_pipeli.Prelude.{
  Bool, true, false, not, ◌&&◌, ◌||◌, String, Option, none, some, List, [], ◌∷◌, Outcome, ok, raise,
  raise_if, control_contract, overflow_error, ◌>>=◌, ◌>>◌, ℤ, str_eq, contains,
}
use post_training_rsi_pipeli.Platform.{Platform}
use post_training_rsi_pipeli.ControlPlane.Value.{
  Value, null, int, float, text, array, object, Items, nil, cons, Fields, end, field, get,
  normalize_json_object,
}

-- `list(value)` of a dict
abbrev pub keys : {P : Platform} → Fields P → List String
keys end = []
keys (field k v fs) = k ∷ keys fs

-- every text of the first list is in the second
abbrev pub subset : List String → List String → Bool
subset [] ys = true
subset (x ∷ xs) ys = contains x ys && subset xs ys

abbrev is_text_value : {P : Platform} → Option (Value P) → String → Bool
is_text_value (some (text s)) t = str_eq s t
is_text_value _ t = false

-- The checks of one value that has been looked up.
unfoldable pub as_text : {P : Platform} → Value P → Outcome String
as_text (text s) = ok s
as_text _ = raise control_contract

unfoldable pub as_optional_text : {P : Platform} → Value P → Outcome (Option String)
as_optional_text null = ok none
as_optional_text (text s) = ok (some s)
as_optional_text _ = raise control_contract

unfoldable pub as_int : {P : Platform} → Value P → Outcome ℤ
as_int (int n) = ok n
as_int _ = raise control_contract

-- `float(value)` of an int or a float
unfoldable pub as_float : {P : Platform} → Value P → Outcome P.Float
as_float (float x) = ok x
as_float {P} (int n) = elim (P.of_int n) [ none ↦ raise overflow_error | some x ↦ ok x ]
as_float _ = raise control_contract

unfoldable pub as_optional_float : {P : Platform} → Value P → Outcome (Option P.Float)
unfolding as_float
as_optional_float null = ok none
as_optional_float found = do x ← as_float found; ok (some x)

-- `enum_type(value)`, with the reader of the enum's members
unfoldable pub as_member : {A : Type 0} → (String → Option A) → String → Outcome A
as_member of_value s = elim (of_value s) [ none ↦ raise control_contract | some m ↦ ok m ]

unfoldable pub as_optional_member :
    {A : Type 0} → (String → Option A) → Option String → Outcome (Option A)
unfolding as_member
as_optional_member of_value none = ok none
as_optional_member of_value (some s) = do m ← as_member of_value s; ok (some m)

unfoldable pub texts_of : {P : Platform} → Items P → Outcome (List String)
texts_of nil = ok []
texts_of (cons (text s) xs) = do rest ← texts_of xs; ok (s ∷ rest)
texts_of (cons _ xs) = raise control_contract

unfoldable pub as_texts : {P : Platform} → Value P → Outcome (List String)
unfolding texts_of
as_texts (array xs) = texts_of xs
as_texts _ = raise control_contract

unfoldable pub as_json_object : {P : Platform} → Value P → Outcome (Fields P)
as_json_object {P} (object fs) = normalize_json_object P fs
as_json_object _ = raise control_contract

-- `data[key]`, then the check
module _ {P : Platform} (entries : Fields P) (key : String) where
  abbrev item : {A : Type 0} → (Value P → Outcome A) → Outcome A
  item check = elim (get key entries) [ none ↦ raise control_contract | some v ↦ check v ]

  unfoldable pub required_str : Outcome String
  required_str = item as_text

  unfoldable pub optional_str : Outcome (Option String)
  optional_str = item as_optional_text

  unfoldable pub required_int : Outcome ℤ
  required_int = item as_int

  unfoldable pub required_float : Outcome P.Float
  required_float = item as_float

  unfoldable pub optional_float : Outcome (Option P.Float)
  optional_float = item as_optional_float

  unfoldable pub required_enum : {A : Type 0} → (String → Option A) → Outcome A
  unfolding required_str
  required_enum of_value = do value ← required_str; as_member of_value value

  unfoldable pub optional_enum : {A : Type 0} → (String → Option A) → Outcome (Option A)
  unfolding optional_str
  optional_enum of_value = do value ← optional_str; as_optional_member of_value value

  unfoldable pub required_id_tuple : Outcome (List String)
  required_id_tuple = item as_texts

  unfoldable pub required_json_object : Outcome (Fields P)
  required_json_object = item as_json_object

-- `validated_record_mapping`: exactly the expected keys, the schema version and the record type
unfoldable pub validated_record_mapping :
    {P : Platform} → Fields P → String → List String → String → Outcome (Fields P)
validated_record_mapping value record_type expected_fields schema_version = do
  raise_if (not (subset expected_fields (keys value)) || not (subset (keys value) expected_fields))
      control_contract
  raise_if (not (is_text_value (get "schema_version" value) schema_version)) control_contract
  raise_if (not (is_text_value (get "record_type" value) record_type)) control_contract
  ok value
