-- ===== src/Harness/Metadata/Clean.antt =====
-- What `_safe_metadata` accepts.
use post_training_rsi_pipeli.Prelude.{
  String, List, ok, Error, false, ◌≡◌, ◌↔◌, refl, arith, >>=-eq-ok, >>-eq-ok,
}
use post_training_rsi_pipeli.Platform.{Platform}
use post_training_rsi_pipeli.ControlPlane.Value.{
  Value, Items, Fields, null, bool, int, float, text, array, object, other, nil, cons, end, field,
  normalize_json_object,
}
use post_training_rsi_pipeli.Harness.Metadata.{
  is_forbidden, reject_forbidden, reject_items, reject_fields, safe_metadata,
}

module _ (P : Platform) (casefold : String → String) (forbidden : List String) where
  -- No key is forbidden, at any depth.
  unfoldable mutual
    pub IsClean : Value P → Type 0
    IsClean (object fs) = AreClean fs
    IsClean (array xs) = AllClean xs
    IsClean _ = Unit

    pub AllClean : Items P → Type 0
    AllClean nil = Unit
    AllClean (cons x xs) = IsClean x × AllClean xs

    pub AreClean : Fields P → Type 0
    AreClean end = Unit
    AreClean (field key item fs) =
        (is_forbidden P casefold forbidden key ≡ false) × IsClean item × AreClean fs

  module _ (e : Error) where
    mutual
      unfolding reject_forbidden IsClean

      value-Clean :
          (v : Value P) (u : Unit {0})
          → reject_forbidden P casefold forbidden e v ≡ ok u
          → IsClean v
      value-Clean (object fs) u h = fields-Clean fs u h
      value-Clean (array xs) u h = items-Clean xs u h
      value-Clean null u h = tt
      value-Clean (bool b) u h = tt
      value-Clean (int n) u h = tt
      value-Clean (float x) u h = tt
      value-Clean (text s) u h = tt
      value-Clean other u h = tt

      items-Clean :
          (xs : Items P) (u : Unit {0})
          → reject_items P casefold forbidden e xs ≡ ok u
          → AllClean xs
      items-Clean nil u h = tt
      items-Clean (cons x xs) u h =
          let (w, hx, h1) = >>=-eq-ok (reject_forbidden P casefold forbidden e x) _ h in
          (value-Clean x w hx, items-Clean xs u h1)

      fields-Clean :
          (fs : Fields P) (u : Unit {0})
          → reject_fields P casefold forbidden e fs ≡ ok u
          → AreClean fs
      fields-Clean end u h = tt
      fields-Clean (field key item fs) u h =
          let (fine, h1) = >>-eq-ok (is_forbidden P casefold forbidden key) e _ h in
          let (w, hx, h2) = >>=-eq-ok (reject_forbidden P casefold forbidden e item) _ h1 in
          (fine, value-Clean item w hx, fields-Clean fs u h2)

    mutual
      unfolding reject_forbidden IsClean

      Clean-value : (v : Value P) → IsClean v → reject_forbidden P casefold forbidden e v ≡ ok tt
      Clean-value (object fs) c = Clean-fields fs c
      Clean-value (array xs) c = Clean-items xs c
      Clean-value null c = refl
      Clean-value (bool b) c = refl
      Clean-value (int n) c = refl
      Clean-value (float x) c = refl
      Clean-value (text s) c = refl
      Clean-value other c = refl

      Clean-items : (xs : Items P) → AllClean xs → reject_items P casefold forbidden e xs ≡ ok tt
      Clean-items nil c = refl
      Clean-items (cons x xs) c = rw (Clean-value x c.0) (Clean-items xs c.1)

      Clean-fields : (fs : Fields P) → AreClean fs → reject_fields P casefold forbidden e fs ≡ ok tt
      Clean-fields end c = refl
      Clean-fields (field key item fs) c = rw (c.0, Clean-value item c.1) (Clean-fields fs c.2)

    -- `_safe_metadata` accepts exactly the metadata that has a normal form in which no key, at any
    -- depth of dicts and lists, is forbidden once it is case-folded with `-` and ` ` read as `_`; it
    -- gives that normal form.
    pub safe_metadata_exact :
        (fs gs : Fields P)
        → (safe_metadata P casefold forbidden e fs ≡ ok gs)
          ↔ ((normalize_json_object P fs ≡ ok gs) × AreClean gs)
    unfolding safe_metadata
    safe_metadata_exact fs gs = (
      (λ h.
          let (ns, hn, h1) = >>=-eq-ok (normalize_json_object P fs) _ h in
          let (u, hu, h2) = >>=-eq-ok (reject_fields P casefold forbidden e ns) _ h1 in
          let same : ns ≡ gs = ground (arith, h2) in
          (rw same at hn, rw same at (fields-Clean ns u hu))),
      (λ c. rw (c.0, Clean-fields gs c.1) refl),
    )
