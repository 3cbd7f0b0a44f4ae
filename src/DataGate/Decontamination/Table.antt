-- ===== src/DataGate/Decontamination/Table.antt =====
-- The rows of `lcs_ratio` hold the greatest lengths for the prefixes, and so does the result.
use post_training_rsi_pipeli.Prelude.{
  ℕ, suc, ◌+◌, ◌≤◌, max, min, String, List, [], ◌∷◌, length, last, str_eq, eq_iff, arith, inl, inr,
  Bool-cases, if◌then◌else◌, sym,
}
use post_training_rsi_pipeli.DataGate.Decontamination.{zeros, cells, rows, lcs_length}
use post_training_rsi_pipeli.DataGate.Decontamination.Subsequence.{
  IsLcs, Subsequence-length, left_empty-IsLcs, right_empty-IsLcs, same-IsLcs, differ-IsLcs, onto,
  reversed-IsLcs,
}

-- The cells of a row for the left prefix that reads `xs` backwards: the first is for the right
-- prefix that reads `ys` backwards, and each next one takes a token of the rest.
abbrev IsRow : List String → List String → List ℕ → List String → Type 0
IsRow xs ys (n ∷ []) [] = IsLcs n xs ys
IsRow xs ys (n ∷ ns) (b ∷ bs) = IsLcs n xs ys × IsRow xs (b ∷ ys) ns bs
IsRow xs ys _ _ = ⊥

zeros-IsRow : (ys bs : List String) → IsRow [] ys (zeros (suc (length bs))) bs
zeros-IsRow ys [] = left_empty-IsLcs ys
zeros-IsRow ys (b ∷ bs) = (left_empty-IsLcs ys, zeros-IsRow (b ∷ ys) bs)

cell-IsLcs :
    (a b : String) (xs ys : List String) (corner above before : ℕ)
    → IsLcs corner xs ys
    → IsLcs above xs (b ∷ ys)
    → IsLcs before (a ∷ xs) ys
    → IsLcs (if str_eq a b then corner + 1 else max above before) (a ∷ xs) (b ∷ ys)
cell-IsLcs a b xs ys corner above before lc la lb = elim (Bool-cases (str_eq a b)) [
  | inl same ↦ rw (same, sym ((eq_iff a b).0 same)) (same-IsLcs corner a xs ys lc)
  | inr other ↦
      rw other (differ-IsLcs above before a b xs ys (λ e. ground (arith, eq_iff a b, other)) la lb)
]

head-IsLcs :
    (xs ys : List String) (n : ℕ) (ns : List ℕ) (bs : List String)
    → IsRow xs ys (n ∷ ns) bs
    → IsLcs n xs ys
head-IsLcs xs ys n [] [] r = r
head-IsLcs xs ys n (_ ∷ _) [] r = absurd r
head-IsLcs xs ys n [] (b ∷ bs) r = r.0
head-IsLcs xs ys n (_ ∷ _) (b ∷ bs) r = r.0

cells-IsRow :
    (a : String) (xs ys : List String) (previous : List ℕ) (before : ℕ) (bs : List String)
    → IsRow xs ys previous bs
    → IsLcs before (a ∷ xs) ys
    → IsRow (a ∷ xs) ys (before ∷ cells a bs previous before) bs
unfolding cells
cells-IsRow a xs ys [] before bs r l = absurd r
cells-IsRow a xs ys (corner ∷ []) before [] r l = l
cells-IsRow a xs ys (corner ∷ above ∷ ns) before [] r l = absurd r
cells-IsRow a xs ys (corner ∷ []) before (b ∷ bs) (lc, r) l = absurd r
cells-IsRow a xs ys (corner ∷ above ∷ ns) before (b ∷ bs) (lc, r) l = (
  l,
  cells-IsRow a xs (b ∷ ys) (above ∷ ns) _ bs r
      (cell-IsLcs a b xs ys corner above before lc (head-IsLcs xs (b ∷ ys) above ns bs r) l),
)

rows-IsRow :
    (left xs : List String) (previous : List ℕ) (right : List String)
    → IsRow xs [] previous right
    → IsRow (onto left xs) [] (rows left right previous) right
unfolding rows
rows-IsRow [] xs previous right r = r
rows-IsRow (a ∷ left) xs previous right r =
    rows-IsRow left (a ∷ xs) _ right
      (cells-IsRow a xs [] previous 0 right r (right_empty-IsLcs (a ∷ xs)))

last-IsLcs :
    (xs ys : List String) (default n : ℕ) (ns : List ℕ) (bs : List String)
    → IsRow xs ys (n ∷ ns) bs
    → IsLcs (last default (n ∷ ns)) xs (onto bs ys)
last-IsLcs xs ys default n [] [] r = r
last-IsLcs xs ys default n (_ ∷ _) [] r = absurd r
last-IsLcs xs ys default n [] (b ∷ bs) (l, r) = absurd r
last-IsLcs xs ys default n (m ∷ ms) (b ∷ bs) (l, r) = last-IsLcs xs (b ∷ ys) n m ms bs r

row_end :
    (xs ys : List String) (row : List ℕ) (bs : List String)
    → IsRow xs ys row bs
    → IsLcs (last 0 row) xs (onto bs ys)
row_end xs ys [] bs r = absurd r
row_end xs ys (n ∷ ns) bs r = last-IsLcs xs ys 0 n ns bs r

-- The table gives the greatest length of a common subsequence of the two token lists.
pub lcs_length-IsLcs : (left right : List String) → IsLcs (lcs_length left right) left right
unfolding lcs_length
lcs_length-IsLcs left right = reversed-IsLcs (lcs_length left right) left right (
    row_end (onto left []) [] (rows left right (zeros (suc (length right)))) right
      (rows-IsRow left [] (zeros (suc (length right))) right (zeros-IsRow [] right)))

-- The length that the table gives never exceeds the length of the shorter list.
pub lcs_length-le :
    (left right : List String) → lcs_length left right ≤ min (length left) (length right)
lcs_length-le left right =
    let l = lcs_length-IsLcs left right in
    omega (arith, l.size, Subsequence-length l.of_left, Subsequence-length l.of_right)
