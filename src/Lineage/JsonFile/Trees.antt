-- ===== src/Lineage/JsonFile/Trees.antt =====
-- A `json` module that keeps the object with its keys sorted as the content: it shows that the
-- hypotheses on JSON can hold, and serves the tests.
use post_training_rsi_pipeli.Prelude.{
  both, Bool, true, false, ◌&&◌, ℤ, pos, negsuc, ◌==◌, ==_iff, some, ◌≡◌, refl, arith, str_eq,
  eq_iff, ap,
}
use post_training_rsi_pipeli.Platform.Fixed.{fixed}
use post_training_rsi_pipeli.ControlPlane.Value.{
  Value, null, bool, int, float, text, array, object, other, Items, nil, cons, Fields, end, field,
  insert_field,
}
use post_training_rsi_pipeli.Lineage.JsonFile.{Json, IsJson}
use post_training_rsi_pipeli.ControlPlane.Value.Canonical.{
  is_canonical_value, is_canonical_items, is_canonical, insert_field-before,
}

abbrev same_int : ℤ → ℤ → Bool
same_int (pos a) (pos b) = a == b
same_int (negsuc a) (negsuc b) = a == b
same_int _ _ = false

abbrev same_bool : Bool → Bool → Bool
same_bool true b = b
same_bool false true = false
same_bool false false = true

unfoldable mutual
  same_value : Value fixed → Value fixed → Bool
  same_value null null = true
  same_value (bool a) (bool b) = same_bool a b
  same_value (int a) (int b) = same_int a b
  same_value (float a) (float b) = same_int a b
  same_value (text a) (text b) = str_eq a b
  same_value (array a) (array b) = same_items a b
  same_value (object a) (object b) = same_fields a b
  same_value other other = true
  same_value _ _ = false

  same_items : Items fixed → Items fixed → Bool
  same_items nil nil = true
  same_items (cons a xs) (cons b ys) = same_value a b && same_items xs ys
  same_items _ _ = false

  pub same_fields : Fields fixed → Fields fixed → Bool
  same_fields end end = true
  same_fields (field j a xs) (field k b ys) = str_eq j k && same_value a b && same_fields xs ys
  same_fields _ _ = false

same_int-eq : (a b : ℤ) → same_int a b ≡ true → a ≡ b
same_int-eq (pos a) (pos b) h = ground (arith, ==_iff a b)
same_int-eq (negsuc a) (negsuc b) h = ground (arith, ==_iff a b)
same_int-eq (pos a) (negsuc b) h = cc
same_int-eq (negsuc a) (pos b) h = cc

same_int_refl : (a : ℤ) → same_int a a ≡ true
same_int_refl (pos a) = ground (arith, ==_iff a a)
same_int_refl (negsuc a) = ground (arith, ==_iff a a)

same_bool-eq : (a b : Bool) → same_bool a b ≡ true → a ≡ b
same_bool-eq true b h = ground arith
same_bool-eq false true h = cc
same_bool-eq false false h = refl

mutual
  unfolding same_value same_items same_fields

  same_value_refl : (a : Value fixed) → same_value a a ≡ true
  same_value_refl null = refl
  same_value_refl (bool true) = refl
  same_value_refl (bool false) = refl
  same_value_refl (int a) = same_int_refl a
  same_value_refl (float a) = same_int_refl a
  same_value_refl (text a) = (eq_iff a a).1 refl
  same_value_refl (array a) = same_items_refl a
  same_value_refl (object a) = same_fields_refl a
  same_value_refl other = refl

  same_items_refl : (a : Items fixed) → same_items a a ≡ true
  same_items_refl nil = refl
  same_items_refl (cons a xs) = ground (arith, same_value_refl a, same_items_refl xs)

  same_fields_refl : (a : Fields fixed) → same_fields a a ≡ true
  same_fields_refl end = refl
  same_fields_refl (field k a xs) =
      ground (arith, (eq_iff k k).1 refl, same_value_refl a, same_fields_refl xs)

mutual
  unfolding same_value same_items same_fields

  same_value-eq : (a b : Value fixed) → same_value a b ≡ true → a ≡ b
  same_value-eq null null h = refl
  same_value-eq (bool a) (bool b) h = ground (arith, same_bool-eq a b)
  same_value-eq (int a) (int b) h = ground (arith, same_int-eq a b)
  same_value-eq (float a) (float b) h = ap float (same_int-eq a b h)
  same_value-eq (text a) (text b) h = ground (arith, eq_iff a b)
  same_value-eq (array a) (array b) h = ap array (same_items-eq a b h)
  same_value-eq (object a) (object b) h = ap object (same_fields-eq a b h)
  same_value-eq other other h = refl
  same_value-eq _ _ h = cc

  same_items-eq : (a b : Items fixed) → same_items a b ≡ true → a ≡ b
  same_items-eq nil nil h = refl
  same_items-eq (cons a xs) (cons b ys) h =
      let (p, q) = both _ _ h in rw (same_value-eq a b p, same_items-eq xs ys q)
  same_items-eq nil (cons b ys) h = cc
  same_items-eq (cons a xs) nil h = cc

  same_fields-eq : (a b : Fields fixed) → same_fields a b ≡ true → a ≡ b
  same_fields-eq end end h = refl
  same_fields-eq (field j a xs) (field k b ys) h =
      let (p, q) = both _ _ h in
      let (r, t) = both _ _ p in rw ((eq_iff j k).0 r, same_value-eq a b t, same_fields-eq xs ys q)
  same_fields-eq end (field k b ys) h = cc
  same_fields-eq (field k a xs) end h = cc

-- the keys in order at every depth, as `sort_keys=True` has them
unfoldable mutual
  unfolding insert_field

  pub sorted_value : Value fixed → Value fixed
  sorted_value (array xs) = array (sorted_items xs)
  sorted_value (object fs) = object (sorted fs)
  sorted_value v = v

  pub sorted_items : Items fixed → Items fixed
  sorted_items nil = nil
  sorted_items (cons x xs) = cons (sorted_value x) (sorted_items xs)

  pub sorted : Fields fixed → Fields fixed
  sorted end = end
  sorted (field k v fs) = insert_field k (sorted_value v) (sorted fs)

mutual
  unfolding sorted_value sorted_items sorted is_canonical_value is_canonical_items is_canonical

  sorted_value-canonical :
      (v : Value fixed) → is_canonical_value fixed v ≡ true → sorted_value v ≡ v
  sorted_value-canonical null h = refl
  sorted_value-canonical (bool b) h = refl
  sorted_value-canonical (int n) h = refl
  sorted_value-canonical (float x) h = refl
  sorted_value-canonical (text s) h = refl
  sorted_value-canonical (array xs) h = ap array (sorted_items-canonical xs h)
  sorted_value-canonical (object fs) h = ap object (sorted-canonical fs h)
  sorted_value-canonical other h = refl

  sorted_items-canonical :
      (xs : Items fixed) → is_canonical_items fixed xs ≡ true → sorted_items xs ≡ xs
  sorted_items-canonical nil h = refl
  sorted_items-canonical (cons x xs) h =
      let (p, q) = both _ _ h in rw (sorted_value-canonical x p, sorted_items-canonical xs q)

  sorted-canonical : (fs : Fields fixed) → is_canonical fixed fs ≡ true → sorted fs ≡ fs
  sorted-canonical end h = refl
  sorted-canonical (field k v fs) h =
      let (p, q) = both _ _ h in
      let (r, t) = both _ _ p in
      rw (sorted_value-canonical v t, sorted-canonical fs q) (insert_field-before fixed k v fs r)

abbrev pub trees : Json fixed
trees = record {
  Bytes = Fields fixed;
  same = same_fields;
  dumps = sorted;
  load = λ value. some value;
}

pub trees-IsJson : IsJson fixed trees
trees-IsJson = record {
  same_iff = λ a b. (same_fields-eq a b, λ h. rw h (same_fields_refl b));
  load-dumps = λ value h. ap some (sorted-canonical value h);
}
