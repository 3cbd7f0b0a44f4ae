-- ===== src/DataGate/Decontamination/Subsequence.antt =====
-- Common subsequences of two token lists, and their greatest length.
use post_training_rsi_pipeli.Prelude.{
  ℕ, ◌+◌, ◌≤◌, max, String, List, [], ◌∷◌, ◌++◌, length, ◌≡◌, refl, arith, subst, ◌∙◌, leb, inl,
  inr, Bool-cases,
}

-- the first list is the second with tokens left out
pub data Subsequence : List String → List String → Type 0 where
  stop : Subsequence [] []
  skip : {zs xs : List String} (x : String) → Subsequence zs xs → Subsequence zs (x ∷ xs)
  keep : {zs xs : List String} (x : String) → Subsequence zs xs → Subsequence (x ∷ zs) (x ∷ xs)

-- `n` is the greatest length of a common subsequence
pub record IsLcs (n : ℕ) (xs ys : List String) : Type 0 where
  pub common : List String
  pub of_left : Subsequence common xs
  pub of_right : Subsequence common ys
  pub size : length common ≡ n
  pub greatest : (zs : List String) → Subsequence zs xs → Subsequence zs ys → length zs ≤ n

pub nothing : (xs : List String) → Subsequence [] xs
nothing [] = stop
nothing (x ∷ xs) = skip x (nothing xs)

pub Subsequence-length : {zs xs : List String} → Subsequence zs xs → length zs ≤ length xs
Subsequence-length stop = omega arith
Subsequence-length (skip x s) = omega (arith, Subsequence-length s)
Subsequence-length (keep x s) = omega (arith, Subsequence-length s)

drop_first : {zs xs : List String} {z : String} → Subsequence (z ∷ zs) xs → Subsequence zs xs
drop_first (skip x s) = skip x (drop_first s)
drop_first (keep x s) = skip x s

drop_both : {zs xs : List String} {z x : String} → Subsequence (z ∷ zs) (x ∷ xs) → Subsequence zs xs
drop_both (skip x s) = drop_first s
drop_both (keep x s) = s

pub left_empty-IsLcs : (ys : List String) → IsLcs 0 [] ys
left_empty-IsLcs ys = record {
  common = [];
  of_left = stop;
  of_right = nothing ys;
  size = refl;
  greatest = λ zs s t. omega (arith, Subsequence-length s);
}

pub right_empty-IsLcs : (xs : List String) → IsLcs 0 xs []
right_empty-IsLcs xs = record {
  common = [];
  of_left = nothing xs;
  of_right = stop;
  size = refl;
  greatest = λ zs s t. omega (arith, Subsequence-length t);
}

pub same-IsLcs :
    (n : ℕ) (a : String) (xs ys : List String) → IsLcs n xs ys → IsLcs (n + 1) (a ∷ xs) (a ∷ ys)
same-IsLcs n a xs ys l = record {
  common = a ∷ l.common;
  of_left = keep a l.of_left;
  of_right = keep a l.of_right;
  size = omega (arith, l.size);
  greatest = go;
}
  where
    go : (zs : List String) → Subsequence zs (a ∷ xs) → Subsequence zs (a ∷ ys) → length zs ≤ n + 1
    go [] s t = omega arith
    go (z ∷ zs) s t = omega (arith, l.greatest zs (drop_both s) (drop_both t))

greatest_differ :
    (p q : ℕ) (a b : String) (xs ys : List String)
    → (a ≡ b → ⊥)
    → IsLcs p xs (b ∷ ys)
    → IsLcs q (a ∷ xs) ys
    → (zs : List String) → Subsequence zs (a ∷ xs)
    → Subsequence zs (b ∷ ys)
    → length zs ≤ max p q
greatest_differ p q a b xs ys n l m zs (skip _ s) t = omega (arith, l.greatest zs s t)
greatest_differ p q a b xs ys n l m zs (keep _ s) (skip _ t) =
    omega (arith, m.greatest zs (keep a s) t)
greatest_differ p q a b xs ys n l m zs (keep _ s) (keep _ t) = absurd (n refl)

pub differ-IsLcs :
    (p q : ℕ) (a b : String) (xs ys : List String)
    → (a ≡ b → ⊥)
    → IsLcs p xs (b ∷ ys)
    → IsLcs q (a ∷ xs) ys
    → IsLcs (max p q) (a ∷ xs) (b ∷ ys)
differ-IsLcs p q a b xs ys n l m = elim (Bool-cases (leb p q)) [
  | inl more ↦ record {
    common = m.common;
    of_left = m.of_left;
    of_right = skip b m.of_right;
    size = ground (arith, m.size, more);
    greatest = greatest_differ p q a b xs ys n l m;
  }
  | inr less ↦ record {
    common = l.common;
    of_left = skip a l.of_left;
    of_right = l.of_right;
    size = ground (arith, l.size, less);
    greatest = greatest_differ p q a b xs ys n l m;
  }
]

-- `reversed(xs)` in front of the second list
abbrev pub onto : List String → List String → List String
onto [] acc = acc
onto (x ∷ xs) acc = onto xs (x ∷ acc)

onto-onto : (xs acc tail : List String) → onto (onto xs acc) tail ≡ onto acc (xs ++ tail)
onto-onto [] acc tail = refl
onto-onto (x ∷ xs) acc tail = onto-onto xs (x ∷ acc) tail

append_empty : (xs : List String) → xs ++ [] ≡ xs
append_empty [] = refl
append_empty (x ∷ xs) = rw (append_empty xs)

onto_twice : (xs : List String) → onto (onto xs []) [] ≡ xs
onto_twice xs = onto-onto xs [] [] ∙ append_empty xs

length-onto : (xs acc : List String) → length (onto xs acc) ≡ length xs + length acc
length-onto [] acc = omega arith
length-onto (x ∷ xs) acc = omega (arith, length-onto xs (x ∷ acc))

onto-Subsequence :
    {zs xs us vs : List String}
    → Subsequence zs xs
    → Subsequence us vs
    → Subsequence (onto zs us) (onto xs vs)
onto-Subsequence stop t = t
onto-Subsequence (skip x s) t = onto-Subsequence s (skip x t)
onto-Subsequence (keep x s) t = onto-Subsequence s (keep x t)

reversed-Subsequence :
    (zs xs : List String) → Subsequence zs (onto xs []) → Subsequence (onto zs []) xs
reversed-Subsequence zs xs s =
    subst (λ l. Subsequence (onto zs []) l) (onto_twice xs) (onto-Subsequence s stop)

-- Reversing both lists keeps the greatest length.
pub reversed-IsLcs :
    (n : ℕ) (xs ys : List String) → IsLcs n (onto xs []) (onto ys []) → IsLcs n xs ys
reversed-IsLcs n xs ys l = record {
  common = onto l.common [];
  of_left = reversed-Subsequence l.common xs l.of_left;
  of_right = reversed-Subsequence l.common ys l.of_right;
  size = omega (arith, length-onto l.common [], l.size);
  greatest = λ zs s t. omega (
    arith,
    length-onto zs [],
    l.greatest (onto zs []) (onto-Subsequence s stop) (onto-Subsequence t stop),
  );
}
