-- ===== src/ControlPlane/Reading/Laws.antt =====
-- What the readers give back of what `to_dict` wrote.
use post_training_rsi_pipeli.Prelude.{
  String, List, [], ◌∷◌, Option, none, some, ok, ◌>>=◌, ◌≡◌, refl,
}
use post_training_rsi_pipeli.Platform.{Platform}
use post_training_rsi_pipeli.ControlPlane.Encoding.{
  of_texts, of_optional_text, of_optional_float, of_optional_enum,
}
use post_training_rsi_pipeli.ControlPlane.Reading.{
  as_optional_text, as_optional_float, as_member, as_optional_member, texts_of,
}

module _ (P : Platform) where
  pub as_optional_text-of :
      (o : Option String) → as_optional_text {P = P} (of_optional_text o) ≡ ok o
  unfolding as_optional_text
  as_optional_text-of none = refl
  as_optional_text-of (some s) = refl

  pub as_optional_float-of :
      (o : Option P.Float) → as_optional_float {P = P} (of_optional_float o) ≡ ok o
  unfolding as_optional_float
  as_optional_float-of none = refl
  as_optional_float-of (some x) = refl

  pub texts_of-of_texts : (ss : List String) → texts_of {P = P} (of_texts ss) ≡ ok ss
  unfolding texts_of
  texts_of-of_texts [] = refl
  texts_of-of_texts (s ∷ ss) = rw (texts_of-of_texts ss)

module _ {A : Type 0} (value : A → String) (of_value : String → Option A)
    (back : (m : A) → of_value (value m) ≡ some m) where
  pub as_member-value : (m : A) → as_member of_value (value m) ≡ ok m
  unfolding as_member
  as_member-value m = rw (back m, as_member)

  pub optional_member-of :
      (P : Platform) (o : Option A)
      → (as_optional_text {P = P} (of_optional_enum value o) >>= as_optional_member of_value) ≡ ok o
  unfolding as_optional_text as_optional_member
  optional_member-of P none = refl
  optional_member-of P (some m) = rw (as_member-value m)

pub ruleset reading_laws = (as_optional_text-of, as_optional_float-of, texts_of-of_texts)
