-- ===== src/DataGate/Decontamination.antt =====
-- The longest common subsequence of verification/decontamination.py, on lists of tokens.
pub mod Subsequence
pub mod Table
mod Tests
use post_training_rsi_pipeli.Prelude.{
  ℕ, zero, suc, ◌+◌, max, min, String, List, [], ◌∷◌, ◌||◌, length, is_empty, last, str_eq,
  if◌then◌else◌,
}
use post_training_rsi_pipeli.Platform.{Platform}

-- `[0] * n`
abbrev pub zeros : ℕ → List ℕ
zeros zero = []
zeros (suc n) = 0 ∷ zeros n

-- the inner loop: the rest of `current`, where `previous` starts at `previous[index - 1]` and
-- `before` is `current[index - 1]`
unfoldable pub cells : String → List String → List ℕ → ℕ → List ℕ
cells left_token (right_token ∷ rest) (corner ∷ above ∷ previous) before =
    let cell = if str_eq left_token right_token then corner + 1 else max above before in
    cell ∷ cells left_token rest (above ∷ previous) cell
cells left_token _ _ before = []

-- the outer loop: the last row
unfoldable pub rows : List String → List String → List ℕ → List ℕ
unfolding cells
rows [] right_tokens previous = previous
rows (left_token ∷ left_tokens) right_tokens previous =
    rows left_tokens right_tokens (0 ∷ cells left_token right_tokens previous 0)

-- `previous[-1]` after the loops
unfoldable pub lcs_length : List String → List String → ℕ
unfolding rows
lcs_length left_tokens right_tokens =
    last 0 (rows left_tokens right_tokens (zeros (suc (length right_tokens))))

-- `lcs_ratio` after tokenisation, with the division of two `int`
unfoldable pub lcs_ratio :
    (P : Platform) (divide : ℕ → ℕ → P.Float) → List String → List String → P.Float
unfolding lcs_length
lcs_ratio P divide left_tokens right_tokens =
    if is_empty left_tokens || is_empty right_tokens
    then P.zero_float
    else divide (lcs_length left_tokens right_tokens)
        (min (length left_tokens) (length right_tokens))
