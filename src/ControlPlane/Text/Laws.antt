-- ===== src/ControlPlane/Text/Laws.antt =====
-- Identifiers that are put together from parts.
use Prim.Native.String.{◌++◌ as append}
use text.Mathlib.TextLemmas.{nil-append, cons-append}
use post_training_rsi_pipeli.Prelude.{
  ℕ, zero, suc, ◌+◌, ◌≤◌, Bool, true, ◌&&◌, String, List, [], ◌∷◌, ◌++◌, length, all, ◌≡◌, refl,
  arith, length-append,
}
use post_training_rsi_pipeli.ControlPlane.Text.{
  codes, is_id, is_id_char, is_hex, id_codes, take_text,
}

pub codes-append : (s t : String) → codes (append s t) ≡ codes s ++ codes t
codes-append String.[] t = rw nil-append
codes-append (String.◌∷◌ c s) t = rw cons-append (rw (codes-append s t))

pub all-append :
    {A : Type 0} (p : A → Bool) (xs ys : List A) → all p (xs ++ ys) ≡ (all p xs && all p ys)
all-append p [] ys = refl
all-append p (x ∷ xs) ys = ground (arith, all-append p xs ys)

pub all_implies :
    {A : Type 0} (p q : A → Bool)
    → ((x : A) → p x ≡ true → q x ≡ true)
    → (xs : List A) → all p xs ≡ true
    → all q xs ≡ true
all_implies p q pq [] h = refl
all_implies p q pq (x ∷ xs) h = ground (arith, pq x, all_implies p q pq xs)

is_id_char_of_hex : (c : ℕ) → is_hex c ≡ true → is_id_char c ≡ true
unfolding is_hex is_id_char
is_id_char_of_hex c h = ground arith

all-take_text :
    (p : ℕ → Bool) (n : ℕ) (s : String)
    → all p (codes s) ≡ true
    → all p (codes (take_text n s)) ≡ true
unfolding take_text
all-take_text p zero s h = refl
all-take_text p (suc n) String.[] h = refl
all-take_text p (suc n) (String.◌∷◌ c s) h = ground (arith, all-take_text p n s)

length-take_text-le : (n : ℕ) (s : String) → length (codes (take_text n s)) ≤ n
unfolding take_text
length-take_text-le zero s = omega arith
length-take_text-le (suc n) String.[] = omega arith
length-take_text-le (suc n) (String.◌∷◌ c s) = omega (arith, length-take_text-le n s)

-- A text whose characters may all stand in an identifier, with a bound on its length.
pub record IsPart (bound : ℕ) (s : String) : Type 0 where
  pub plain : all is_id_char (codes s) ≡ true
  pub short : length (codes s) ≤ bound

pub append-IsPart : {a b : ℕ} {s t : String} → IsPart a s → IsPart b t → IsPart (a + b) (append s t)
append-IsPart {a} {b} {s} {t} x y = record {
  plain =
      rw (codes-append s t)
        (rw (all-append is_id_char (codes s) (codes t)) (rw (x.plain, y.plain)));
  short =
      rw (codes-append s t) (omega (arith, length-append (codes s) (codes t), x.short, y.short));
}

pub digest-IsPart : (n : ℕ) (s : String) → all is_hex (codes s) ≡ true → IsPart n (take_text n s)
digest-IsPart n s h = record {
  plain =
      all-take_text is_id_char n s (all_implies is_hex is_id_char is_id_char_of_hex (codes s) h);
  short = length-take_text-le n s;
}

-- A part that follows an identifier makes an identifier, if it is not too long.
pub append-is_id :
    {b : ℕ} (s t : String)
    → is_id s ≡ true
    → IsPart b t
    → length (codes s) + b ≤ 256
    → is_id (append s t) ≡ true
unfolding is_id
append-is_id {b} s t h y le = rw (codes-append s t) (go (codes s) h le)
  where
    go : (cs : List ℕ) → id_codes cs ≡ true → length cs + b ≤ 256 → id_codes (cs ++ codes t) ≡ true
    go [] h le = cc
    go (c ∷ cs) h le =
        ground
          (arith, all-append is_id_char cs (codes t), y.plain, y.short, length-append cs (codes t))
