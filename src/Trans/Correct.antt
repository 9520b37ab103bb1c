-- ===== src/Trans/Correct.antt =====
-- The transposes of cache/trans.c transpose, and pass the check that they make of themselves.
use systems_labs.Base.{
  ℕ, zero, suc, ◌+◌, ◌<◌, ◌≡◌, refl, ◌∙◌, Bool, true, false, some, ok, arith, lt→ltb,
}
use systems_labs.Base.Loop.{for_range}
use systems_labs.Trans.{
  Matrix, copy, row_matches, rows_match, is_transpose, checked_transpose, garbo_transpose,
  trans_basic,
}
use systems_labs.Trans.Matrix.{entry, HasShape, entry-some, fetch-ok}
use systems_labs.Trans.Progress.{Agrees, Progress, Rounds, copy-Progress, weaken, loop-Progress}

-- `b` has `m` rows of `n` entries, and `B[j][i]` is `A[i][j]`.
abbrev pub IsTranspose : {D : Type 0} → (m n : ℕ) → (a b : Matrix D) → Type 0
IsTranspose m n a b = HasShape m n b × ((i j : ℕ) → i < n → j < m → Agrees a b i j)

-- No entry differs from itself, as a NaN does.
abbrev pub NoNan : {D : Type 0} → (D → D → Bool) → Matrix D → Type 0
NoNan {D} ne a = (i j : ℕ) (v : D) → entry a i j ≡ some v → ne v v ≡ false

module _ {D : Type 0} (ne : D → D → Bool) (m n : ℕ) (a b : Matrix D) (shape : HasShape n m a)
    (quiet : NoNan ne a) (right : IsTranspose m n a b) where
  row_matches-true : (i left j : ℕ) → i < n → j + left ≡ m → row_matches ne left j i a b ≡ ok true
  unfolding row_matches
  row_matches-true i zero j hi e = refl
  row_matches-true i (suc left) j hi e =
      let (v, there) = entry-some a shape i j hi (omega arith) in
      let mirrored = right.1 i j hi (omega arith) ∙ there in
      rw
        (
          fetch-ok a shape i j hi there,
          fetch-ok b right.0 j i (omega arith) mirrored,
          quiet i j v there,
        )
        (row_matches-true i left (j + 1) hi (omega arith))

  rows_match-true : (left i : ℕ) → i + left ≡ n → rows_match ne m left i a b ≡ ok true
  unfolding rows_match
  rows_match-true zero i e = refl
  rows_match-true (suc left) i e =
      rw (row_matches-true i m 0 (omega arith) (omega arith))
        (rows_match-true left (i + 1) (omega arith))

  pub is_transpose-true : is_transpose ne m n a b ≡ ok true
  unfolding is_transpose
  is_transpose-true = rows_match-true n 0 (omega arith)

  pub checked-ok : checked_transpose ne m n a b ≡ ok b
  unfolding checked_transpose
  checked-ok = rw is_transpose-true

module _ {D : Type 0} (m n : ℕ) (a b : Matrix D) (shape : HasShape n m a)
    (is : HasShape m n b) where
  abbrev AllEntries : ℕ → ℕ → Type 0
  AllEntries i j = (i < n) × (j < m)

  pub simple-Progress :
      Progress m n a b AllEntries (for_range n 0 (λ i. for_range m 0 (λ j. copy a i j j i)) b)
  simple-Progress =
      weaken AllEntries (λ i j (hi, hj). (i, hi, (j, hj, (refl, refl))))
        (loop-Progress m n a b (λ i. Rounds m (λ j p q. (p ≡ i) × (q ≡ j)))
          (λ i. for_range m 0 (λ j. copy a i j j i)) n
          (λ i s hi so.
            loop-Progress m n a s (λ j p q. (p ≡ i) × (q ≡ j)) (λ j. copy a i j j i) m
              (λ j t hj to. copy-Progress a shape i j t hi hj to) so)
          is)

  -- `garboTranspose` transposes, for matrices of the right shapes.
  pub garbo_transpose-IsTranspose :
      (c : Matrix D) × (garbo_transpose m n a b ≡ ok c) × IsTranspose m n a c
  unfolding garbo_transpose
  garbo_transpose-IsTranspose =
      let p = simple-Progress in (p.result, p.returns, (p.shape, λ i j hi hj. p.done i j (hi, hj)))

  module _ (ne : D → D → Bool) (quiet : NoNan ne a) (wide : 0 < m) (high : 0 < n) where
    -- `trans_basic` transposes and its assertion holds, for positive sizes, matrices of the right
    -- shapes and no NaN in `A`.
    pub trans_basic-IsTranspose :
        (c : Matrix D) × (trans_basic ne m n a b ≡ ok c) × IsTranspose m n a c
    unfolding trans_basic
    trans_basic-IsTranspose =
        let p = simple-Progress in
        let right : IsTranspose m n a p.result = (p.shape, λ i j hi hj. p.done i j (hi, hj)) in
        (
          p.result,
          rw
              (
                lt→ltb 0 m wide,
                lt→ltb 0 n high,
                p.returns,
                checked-ok ne m n a p.result shape quiet right,
              )
              refl,
          right,
        )
