-- ===== src/DataGate/Decontamination/Tests.antt =====
-- The longest common subsequence at concrete token lists.
use post_training_rsi_pipeli.Prelude.{String, List, [], ◌∷◌, ◌≡◌, ◌≤◌, refl, min, length}
use post_training_rsi_pipeli.DataGate.Decontamination.{lcs_length}
use post_training_rsi_pipeli.DataGate.Decontamination.Subsequence.{IsLcs}
use post_training_rsi_pipeli.DataGate.Decontamination.Table.{lcs_length-IsLcs, lcs_length-le}

abbrev candidate : List String
candidate = "solve" ∷ "the" ∷ "equation" ∷ "for" ∷ "x" ∷ []

abbrev benchmark : List String
benchmark = "please" ∷ "solve" ∷ "this" ∷ "equation" ∷ "x" ∷ []

three_shared : lcs_length candidate benchmark ≡ 3
unfolding lcs_length
three_shared = refl

lcs_length-IsLcs_example : IsLcs (lcs_length candidate benchmark) candidate benchmark
lcs_length-IsLcs_example = lcs_length-IsLcs candidate benchmark

lcs_length-le_example : lcs_length candidate benchmark ≤ min (length candidate) (length benchmark)
lcs_length-le_example = lcs_length-le candidate benchmark
