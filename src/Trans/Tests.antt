-- ===== src/Trans/Tests.antt =====
-- Runs of cache/trans.c by evaluation, and the theorems at concrete matrices.
use systems_labs.Base.{
  ℕ, zero, suc, ◌≡◌, refl, Bool, false, [], ◌∷◌, ok, fail, aborted, arith, ◌==◌, not, load, store,
}
use systems_labs.Base.Loop.{for_range}
use systems_labs.Trans.{
  Matrix, fetch, put, copy, checked_transpose, is_transpose, row_matches, rows_match, trans_basic,
  trans_tmp, small_transpose, large_transpose, small_row, large_block, transpose_submit,
}
use systems_labs.Trans.Matrix.{HasShape}
use systems_labs.Trans.Correct.{IsTranspose}
use systems_labs.Trans.Blocks.{transpose_submit-IsTranspose}
use systems_labs.Trans.Temporary.{trans_tmp-IsTranspose}

-- Doubles without NaN.
abbrev ne : ℕ → ℕ → Bool
ne x y = not (x == y)

ne-quiet : (v : ℕ) → ne v v ≡ false
ne-quiet v = ground arith

abbrev wide : Matrix ℕ
wide = (1 ∷ 2 ∷ 3 ∷ []) ∷ (4 ∷ 5 ∷ 6 ∷ []) ∷ []

abbrev blank : Matrix ℕ
blank = (0 ∷ 0 ∷ []) ∷ (0 ∷ 0 ∷ []) ∷ (0 ∷ 0 ∷ []) ∷ []

wide-HasShape : HasShape 2 3 wide
wide-HasShape = record {
  height = refl;
  width = elim [
    | zero ↦ λ h. refl
    | suc zero ↦ λ h. refl
    | suc (suc r) ↦ λ h. absurd (omega arith)
  ];
}

blank-HasShape : HasShape 3 2 blank
blank-HasShape = record {
  height = refl;
  width = elim [
    | zero ↦ λ h. refl
    | suc zero ↦ λ h. refl
    | suc (suc zero) ↦ λ h. refl
    | suc (suc (suc r)) ↦ λ h. absurd (omega arith)
  ];
}

trans_basic-wide :
    trans_basic ne 3 2 wide blank ≡ ok ((1 ∷ 4 ∷ []) ∷ (2 ∷ 5 ∷ []) ∷ (3 ∷ 6 ∷ []) ∷ [])
unfolding trans_basic checked_transpose is_transpose rows_match row_matches copy fetch put for_range
    load store
trans_basic-wide = refl

-- A matrix that is no multiple of eight is left as it is, and the assertion fails.
large_transpose-wide : large_transpose ne 3 2 wide blank ≡ fail aborted
unfolding large_transpose large_block checked_transpose is_transpose rows_match row_matches copy
    fetch put for_range load store
large_transpose-wide = refl

small_transpose-wide : small_transpose ne 3 2 wide blank ≡ fail aborted
unfolding small_transpose small_row checked_transpose is_transpose rows_match row_matches copy fetch
    put for_range load store
small_transpose-wide = refl

transpose_submit-IsTranspose_example :
    (c : Matrix ℕ) × (transpose_submit ne 3 2 wide blank ≡ ok c) × IsTranspose 3 2 wide c
transpose_submit-IsTranspose_example =
    transpose_submit-IsTranspose ne 3 2 wide blank wide-HasShape blank-HasShape
      (λ i j v e. ne-quiet v)

trans_tmp-IsTranspose_example :
    (c : Matrix ℕ) × (trans_tmp ne 3 2 wide blank (0 ∷ 0 ∷ 0 ∷ 0 ∷ []) ≡ ok c)
    × IsTranspose 3 2 wide c
trans_tmp-IsTranspose_example =
    trans_tmp-IsTranspose ne 3 2 wide blank (0 ∷ 0 ∷ 0 ∷ 0 ∷ []) wide-HasShape blank-HasShape
      (λ i j v e. ne-quiet v) (omega arith) (omega arith) (omega arith)
