-- ===== src/ControlPlane/Dict/Laws.antt =====
-- Lookup in a `dict` after an assignment, and after the keys have been sorted.
use post_training_rsi_pipeli.Prelude.{
  String, Bool, true, false, Option, none, some, ok, >>=-eq-ok, str_eq, eq_iff, if◌then◌else◌,
  Bool-cases, ◌≡◌, refl, sym, subst, ◌∙◌, inl, inr, arith,
}
use text.Mathlib.TextPositions.{compare_refl}
use post_training_rsi_pipeli.Platform.{Platform}
use post_training_rsi_pipeli.ControlPlane.Value.{
  Value, Fields, end, field, get, insert_field, text_leb, normalize_json_value,
  normalize_json_object,
}
use post_training_rsi_pipeli.ControlPlane.Dict.{set_field}

other_key : (k j key : String) → str_eq k key ≡ true → str_eq k j ≡ false → str_eq j key ≡ false
other_key k j key h n = elim (Bool-cases (str_eq j key)) [
  | inl e ↦
      absurd (ground (arith, n, (eq_iff k j).1 ((eq_iff k key).0 h ∙ sym ((eq_iff j key).0 e))))
  | inr e ↦ e
]

not_before-differ : (j k : String) → text_leb j k ≡ false → str_eq k j ≡ false
not_before-differ j k h = elim (Bool-cases (str_eq k j)) [
  | inl e ↦ absurd (ground (arith, (eq_iff k j).0 e, compare_refl j))
  | inr e ↦ e
]

module _ {P : Platform} (key j : String) (value : Value P) where
  -- the step of both lemmas, past an entry with another key
  past :
      (k : String) (v : Value P) (fs changed : Fields P)
      → str_eq k j ≡ false
      → get key changed ≡ (if str_eq j key then some value else get key fs)
      → get key (field k v changed) ≡ (if str_eq j key then some value else get key (field k v fs))
  past k v fs changed other ih = elim (Bool-cases (str_eq k key)) [
    | inl here ↦ rw (here, other_key k j key here other)
    | inr away ↦ rw away ih
  ]

  pub get-set_field :
      (fs : Fields P)
      → get key (set_field j value fs) ≡ (if str_eq j key then some value else get key fs)
  get-set_field end = refl
  get-set_field (field k v fs) = elim (Bool-cases (str_eq k j)) [
    | inl same ↦ rw (same, sym ((eq_iff k j).0 same)) (ground arith)
    | inr other ↦ rw other (past k v fs (set_field j value fs) other (get-set_field fs))
  ]

  pub get-insert_field :
      (fs : Fields P)
      → get key (insert_field j value fs) ≡ (if str_eq j key then some value else get key fs)
  unfolding insert_field
  get-insert_field end = refl
  get-insert_field (field k v fs) = elim (Bool-cases (text_leb j k)) [
    | inl before ↦ rw before
    | inr after ↦
        rw after (
          past k v fs (insert_field j value fs) (not_before-differ j k after) (get-insert_field fs))
  ]

module _ (P : Platform) where
  -- What `get` finds in a normalised dict: the normalised value of the key.
  abbrev pub Looked : Option (Value P) → Option (Value P) → Type 0
  Looked none found = found ≡ none
  Looked (some v) found = (w : Value P) × (normalize_json_value P v ≡ ok w) × (found ≡ some w)

  cons-Looked :
      (b : Bool) (v w : Value P) (before found rest : Option (Value P))
      → normalize_json_value P v ≡ ok w
      → found ≡ (if b then some w else rest)
      → Looked before rest
      → Looked (if b then some v else before) found
  cons-Looked true v w before found rest hw e l = (w, hw, e)
  cons-Looked false v w before found rest hw e l = subst (λ x. Looked before x) (sym e) l

  -- When `normalize_json_object` returns, a key that the dict does not have is not found in what it
  -- gives, and under a key that it has stands the normalised first value of the key.
  pub normalize_json_object-Looked :
      (fs gs : Fields P) (key : String)
      → normalize_json_object P fs ≡ ok gs
      → Looked (get key fs) (get key gs)
  unfolding normalize_json_object
  normalize_json_object-Looked end gs key h = ground arith
  normalize_json_object-Looked (field k v fs) gs key h =
      let (w, hw, h1) = >>=-eq-ok (normalize_json_value P v) _ h in
      let (rest, hr, h2) = >>=-eq-ok (normalize_json_object P fs) _ h1 in
      let found : get key gs ≡ get key (insert_field k w rest) = ground (arith, h2) in
      cons-Looked (str_eq k key) v w (get key fs) (get key gs) (get key rest) hw
        (found ∙ get-insert_field key k w rest) (normalize_json_object-Looked fs rest key hr)
