-- ===== src/ControlPlane/Value/Canonical.antt =====
-- What `normalize_json_object` (control_plane/validation.py) gives: the same dict with its keys in
-- order, which it leaves as it is from then on.
use post_training_rsi_pipeli.Prelude.{
  both, both_true, String, Bool, true, false, not, ◌&&◌, ◌||◌, ok, >>=-eq-ok, str_eq, eq_iff,
  Bool-cases, ◌≡◌, refl, sym, ◌∙◌, ap, subst, inl, inr, arith,
}
use post_training_rsi_pipeli.Platform.{Platform}
use post_training_rsi_pipeli.ControlPlane.Value.{
  Value, null, bool, int, float, text, array, object, other, Items, nil, cons, Fields, end, field,
  text_leb, insert_field, normalize_json_value, normalize_items, normalize_json_object,
}
use post_training_rsi_pipeli.ControlPlane.Value.Order.{text_leb_total}

module _ (P : Platform) where
  -- whether a key stands before those of an object with sorted keys
  abbrev pub stands_before : String → Fields P → Bool
  stands_before k end = true
  stands_before k (field j v fs) = text_leb k j && not (str_eq k j)

  -- an object that JSON has as it is: no key twice, keys in order at every depth, finite floats,
  -- and nothing but JSON values
  unfoldable mutual
    pub is_canonical_value : Value P → Bool
    is_canonical_value (float x) = P.is_finite x
    is_canonical_value (array xs) = is_canonical_items xs
    is_canonical_value (object fs) = is_canonical fs
    is_canonical_value other = false
    is_canonical_value _ = true

    pub is_canonical_items : Items P → Bool
    is_canonical_items nil = true
    is_canonical_items (cons x xs) = is_canonical_value x && is_canonical_items xs

    pub is_canonical : Fields P → Bool
    is_canonical end = true
    is_canonical (field k v fs) = stands_before k fs && is_canonical_value v && is_canonical fs

  abbrev pub has_key : String → Fields P → Bool
  has_key k end = false
  has_key k (field j v fs) = str_eq k j || has_key k fs

  -- what a Python `dict` is: no key stands twice in it, nor in a dict inside it
  unfoldable mutual
    pub is_dict_value : Value P → Bool
    is_dict_value (array xs) = are_dicts xs
    is_dict_value (object fs) = is_dict fs
    is_dict_value _ = true

    pub are_dicts : Items P → Bool
    are_dicts nil = true
    are_dicts (cons x xs) = is_dict_value x && are_dicts xs

    pub is_dict : Fields P → Bool
    is_dict end = true
    is_dict (field k v fs) = not (has_key k fs) && is_dict_value v && is_dict fs

  has_key-insert_field :
      (k j : String) (v : Value P) (fs : Fields P)
      → has_key k (insert_field j v fs) ≡ str_eq k j || has_key k fs
  unfolding insert_field
  has_key-insert_field k j v end = refl
  has_key-insert_field k j v (field i w fs) = ground (arith, has_key-insert_field k j v fs)

  -- a key that stands before the others stands before an inserted one that is after it
  stands_before-insert_field :
      (j k : String) (v : Value P) (fs : Fields P)
      → stands_before j fs ≡ true
      → text_leb j k ≡ true
      → str_eq j k ≡ false
      → stands_before j (insert_field k v fs) ≡ true
  unfolding insert_field
  stands_before-insert_field j k v end h le ne = ground (arith, le, ne)
  stands_before-insert_field j k v (field i w fs) h le ne = ground (arith, h, le, ne)

  neither : (a b : Bool) → a || b ≡ false → (a ≡ false) × (b ≡ false)
  neither true b h = cc
  neither false b h = (refl, h)

  swapped : (k j : String) → str_eq k j ≡ false → str_eq j k ≡ false
  swapped k j h = elim (Bool-cases (str_eq j k)) [
    | inl same ↦ absurd (ground (arith, h, (eq_iff k j).1 (sym ((eq_iff j k).0 same))))
    | inr differ ↦ differ
  ]

  insert_field-canonical :
      (k : String) (v : Value P) (fs : Fields P)
      → has_key k fs ≡ false
      → is_canonical_value v ≡ true
      → is_canonical fs ≡ true
      → is_canonical (insert_field k v fs) ≡ true
  unfolding insert_field is_canonical
  insert_field-canonical k v end n hv h = ground (arith, hv)
  insert_field-canonical k v (field j w fs) n hv h = elim (Bool-cases (text_leb k j)) [
    | inl before ↦ ground (arith, before, n, hv, h)
    | inr after ↦
        let (p, q) = both _ _ h in
        let (first, hw) = both _ _ p in
        let (differ, absent) = neither (str_eq k j) (has_key k fs) n in
        rw after (
          both_true _ _
            (both_true _ _
              (stands_before-insert_field j k v fs first (text_leb_total k j after)
                (swapped k j differ))
              hw)
            (insert_field-canonical k v fs absent hv q))
  ]

  has_key-normalize :
      (k : String) (fs gs : Fields P)
      → normalize_json_object P fs ≡ ok gs
      → has_key k gs ≡ has_key k fs
  unfolding normalize_json_object
  has_key-normalize k end gs h = ground arith
  has_key-normalize k (field j v fs) gs h =
      let (w, hw, h1) = >>=-eq-ok (normalize_json_value P v) _ h in
      let (rest, hr, h2) = >>=-eq-ok (normalize_json_object P fs) _ h1 in
      ground (arith, h2, has_key-insert_field k j w rest, has_key-normalize k fs rest hr)

  mutual
    unfolding normalize_json_object normalize_json_value normalize_items is_canonical
        is_canonical_value is_canonical_items is_dict is_dict_value are_dicts

    normalize_value-canonical :
        (v w : Value P)
        → is_dict_value v ≡ true
        → normalize_json_value P v ≡ ok w
        → is_canonical_value w ≡ true
    normalize_value-canonical null w d h = ground arith
    normalize_value-canonical (bool b) w d h = ground arith
    normalize_value-canonical (int n) w d h = ground arith
    normalize_value-canonical (text s) w d h = ground arith
    normalize_value-canonical other w d h = absurd (ground arith)
    normalize_value-canonical (float x) w d h = ground arith
    normalize_value-canonical (array xs) w d h =
        let (ys, hy, h1) = >>=-eq-ok (normalize_items P xs) _ h in
        ground (arith, h1, normalize_items-canonical xs ys d hy)
    normalize_value-canonical (object fs) w d h =
        let (gs, hg, h1) = >>=-eq-ok (normalize_json_object P fs) _ h in
        ground (arith, h1, normalize_fields-canonical fs gs d hg)

    normalize_items-canonical :
        (xs ys : Items P)
        → are_dicts xs ≡ true
        → normalize_items P xs ≡ ok ys
        → is_canonical_items ys ≡ true
    normalize_items-canonical nil ys d h = ground arith
    normalize_items-canonical (cons x xs) ys d h =
        let (dx, dxs) = both (is_dict_value x) (are_dicts xs) d in
        let (y, hy, h1) = >>=-eq-ok (normalize_json_value P x) _ h in
        let (rest, hr, h2) = >>=-eq-ok (normalize_items P xs) _ h1 in
        ground
          (arith, h2, normalize_value-canonical x y dx hy, normalize_items-canonical xs rest dxs hr)

    normalize_fields-canonical :
        (fs gs : Fields P)
        → is_dict fs ≡ true
        → normalize_json_object P fs ≡ ok gs
        → is_canonical gs ≡ true
    normalize_fields-canonical end gs d h = ground arith
    normalize_fields-canonical (field k v fs) gs d h =
        let (d1, dfs) = both (not (has_key k fs) && is_dict_value v) (is_dict fs) d in
        let (new, dv) = both (not (has_key k fs)) (is_dict_value v) d1 in
        let (w, hw, h1) = >>=-eq-ok (normalize_json_value P v) _ h in
        let (rest, hr, h2) = >>=-eq-ok (normalize_json_object P fs) _ h1 in
        let absent : has_key k rest ≡ false =
          has_key-normalize k fs rest hr ∙ ground (arith, new) in
        let same : insert_field k w rest ≡ gs = ground (arith, h2) in
        subst (λ x. is_canonical x ≡ true) same
          (insert_field-canonical k w rest absent (normalize_value-canonical v w dv hw)
            (normalize_fields-canonical fs rest dfs hr))

  pub insert_field-before :
      (k : String) (v : Value P) (fs : Fields P)
      → stands_before k fs ≡ true
      → insert_field k v fs ≡ field k v fs
  unfolding insert_field
  insert_field-before k v end h = refl
  insert_field-before k v (field j w fs) h = ground (arith, h)

  mutual
    unfolding normalize_json_object normalize_json_value normalize_items is_canonical
        is_canonical_value is_canonical_items

    normalize_value-same :
        (v : Value P) → is_canonical_value v ≡ true → normalize_json_value P v ≡ ok v
    normalize_value-same null h = refl
    normalize_value-same (bool b) h = refl
    normalize_value-same (int n) h = refl
    normalize_value-same (text s) h = refl
    normalize_value-same other h = cc
    normalize_value-same (float x) h = rw h
    normalize_value-same (array xs) h = rw (normalize_items-same xs h)
    normalize_value-same (object fs) h = rw (normalize_fields-same fs h)

    normalize_items-same :
        (xs : Items P) → is_canonical_items xs ≡ true → normalize_items P xs ≡ ok xs
    normalize_items-same nil h = refl
    normalize_items-same (cons x xs) h =
        let (p, q) = both _ _ h in rw (normalize_value-same x p, normalize_items-same xs q)

    normalize_fields-same :
        (fs : Fields P) → is_canonical fs ≡ true → normalize_json_object P fs ≡ ok fs
    normalize_fields-same end h = refl
    normalize_fields-same (field k v fs) h =
        let (p, q) = both _ _ h in
        let (first, hv) = both _ _ p in
        rw (normalize_value-same v hv, normalize_fields-same fs q)
          (ap ok (insert_field-before k v fs first))

  -- Of a dict, in which no key stands twice at any depth, `normalize_json_object` gives, when it
  -- returns, an object with its keys in order at every depth, finite floats and JSON values only,
  -- and leaves that object as it is when it is given it again.
  pub normalize_json_object-canonical :
      (fs gs : Fields P)
      → is_dict fs ≡ true
      → normalize_json_object P fs ≡ ok gs
      → (is_canonical gs ≡ true) × (normalize_json_object P gs ≡ ok gs)
  normalize_json_object-canonical fs gs d h =
      let sorted = normalize_fields-canonical fs gs d h in (sorted, normalize_fields-same gs sorted)
