-- ===== src/Trans/Blocks.antt =====
-- The blocked transposes of cache/trans.c, `largeTranspose`, `smallTranspose` and
-- `transpose_submit`, at sizes that are multiples of eight.
use systems_labs.Base.{
  ℕ, ◌+◌, ◌*◌, ◌/◌, ◌%◌, ◌<◌, ◌≡◌, ◌⊎◌, inl, inr, refl, Bool, true, ◌&&◌, not, ◌||◌, Run, ok, ◌>>=◌,
  arith, lt→ltb, ◌==◌, if◌then◌else◌, Bool-cases,
}
use systems_labs.Base.Loop.{for_range}
use systems_labs.Trans.{
  Matrix, copy, checked_transpose, large_block, large_transpose, small_row, small_transpose,
  transpose_submit,
}
use systems_labs.Trans.Matrix.{HasShape}
use systems_labs.Trans.Progress.{Progress, Rounds, copy-Progress, weaken, loop-Progress}
use systems_labs.Trans.Correct.{IsTranspose, NoNan, checked-ok, garbo_transpose-IsTranspose}

abbrev pub InBlock : (i j p q : ℕ) → Type 0
InBlock i j p q = (p / 8 ≡ i) × (q / 8 ≡ j)

abbrev InRow : (i j k p q : ℕ) → Type 0
InRow i j k p q = (p ≡ 8 * i + k) × (q / 8 ≡ j)

module _ {D : Type 0} {m n : ℕ} {a b : Matrix D} {first second : ℕ → ℕ → Type 0} where
  pub then-Progress :
      {r : Run (Matrix D)} (next : Matrix D → Run (Matrix D))
      → Progress m n a b first r
      → ((s : Matrix D) → HasShape m n s → Progress m n a s second (next s))
      → Progress m n a b (λ p q. first p q ⊎ second p q) (r >>= next)
  then-Progress next p step =
      let q = step p.result p.shape in
      record {
        result = q.result;
        returns = rw p.returns q.returns;
        shape = q.shape;
        kept = λ i j h. q.kept i j (p.kept i j h);
        done = λ i j c. elim c [ inl f ↦ q.kept i j (p.done i j f) | inr s ↦ q.done i j s ];
      }

pub skip-Progress :
    {D : Type 0} {m n : ℕ} (a b : Matrix D) (covers : ℕ → ℕ → Type 0)
    → ((p q : ℕ) → ¬ covers p q)
    → HasShape m n b
    → Progress m n a b covers (ok b)
skip-Progress a b covers none is = record {
  result = b;
  returns = refl;
  shape = is;
  kept = λ i j h. h;
  done = λ i j c. absurd (none i j c);
}

module _ {D : Type 0} (m n : ℕ) (a : Matrix D) (shape : HasShape n m a) (i j : ℕ) (hi : i < n / 8)
    (hj : j < m / 8) where
  at_offset :
      (k c : ℕ) (b : Matrix D)
      → k < 8
      → c < 8
      → HasShape m n b
      → Progress m n a b
          (λ p q. (p ≡ 8 * i + k) × (q ≡ 8 * j + c))
          (copy a (8 * i + k) (8 * j + c) (j * 8 + c) (i * 8 + k) b)
  at_offset k c b hk hc is =
      let col : j * 8 + c ≡ 8 * j + c = omega arith in
      let line : i * 8 + k ≡ 8 * i + k = omega arith in
      rw (col, line)
        (copy-Progress a shape (8 * i + k) (8 * j + c) b (omega arith) (omega arith) is)

  large_row :
      (k : ℕ) (b : Matrix D)
      → k < 8
      → HasShape m n b
      → Progress m n a b
          (InRow i j k)
          (for_range 8 0 (λ c. copy a (8 * i + k) (8 * j + c) (j * 8 + c) (i * 8 + k)) b)
  large_row k b hk is =
      weaken (InRow i j k) (λ p q (ep, eq). (q % 8, omega arith, (ep, omega arith)))
        (loop-Progress m n a b (λ c p q. (p ≡ 8 * i + k) × (q ≡ 8 * j + c))
          (λ c. copy a (8 * i + k) (8 * j + c) (j * 8 + c) (i * 8 + k)) 8
          (λ c s hc so. at_offset k c s hk hc so) is)

  large_block-Progress :
      (b : Matrix D) → HasShape m n b → Progress m n a b (InBlock i j) (large_block a i j b)
  unfolding large_block
  large_block-Progress b is =
      weaken (InBlock i j) (λ p q (ep, eq). (p % 8, omega arith, (omega arith, eq)))
        (loop-Progress m n a b (InRow i j)
          (λ k. for_range 8 0 (λ c. copy a (8 * i + k) (8 * j + c) (j * 8 + c) (i * 8 + k))) 8
          (λ k s hk so. large_row k s hk so) is)

  off_diagonal : (k c : ℕ) → Bool
  off_diagonal k c = not (k == c) || not (i == j)

  small_step :
      (k c : ℕ) (b : Matrix D)
      → k < 8
      → c < 8
      → HasShape m n b
      → Progress m n a b
          (λ p q. (off_diagonal k c ≡ true) × (p ≡ 8 * i + k) × (q ≡ 8 * j + c))
          (if off_diagonal k c
            then copy a (8 * i + k) (8 * j + c) (j * 8 + c) (i * 8 + k) b
            else ok b)
  small_step k c b hk hc is = elim (Bool-cases (off_diagonal k c)) [
    | inl t ↦ rw t (weaken _ (λ p q (x, ep, eq). (ep, eq)) (at_offset k c b hk hc is))
    | inr f ↦ rw f (skip-Progress a b _ (λ p q (x, ep, eq). cc) is)
  ]

  diagonal_step :
      (k : ℕ) (b : Matrix D)
      → k < 8
      → HasShape m n b
      → Progress m n a b
          (λ p q. ((i == j) ≡ true) × (p ≡ 8 * i + k) × (q ≡ 8 * j + k))
          (if i == j then copy a (j * 8 + k) (i * 8 + k) (j * 8 + k) (i * 8 + k) b else ok b)
  diagonal_step k b hk is = elim (Bool-cases (i == j)) [
    | inl t ↦
        let same : i ≡ j = ground arith in
        let line : j * 8 + k ≡ i * 8 + k = omega arith in
        rw (t, line)
          (weaken _ (λ p q (x, ep, eq). (omega arith, omega arith))
            (copy-Progress a shape (i * 8 + k) (i * 8 + k) b (omega arith) (omega arith) is))
    | inr f ↦ rw f (skip-Progress a b _ (λ p q (x, ep, eq). cc) is)
  ]

  split :
      (k p q : ℕ)
      → p ≡ 8 * i + k
      → q / 8 ≡ j
      → Rounds 8 (λ c p q. (off_diagonal k c ≡ true) × (p ≡ 8 * i + k) × (q ≡ 8 * j + c)) p q
        ⊎ (((i == j) ≡ true) × (p ≡ 8 * i + k) × (q ≡ 8 * j + k))
  unfolding off_diagonal
  split k p q ep eq = elim (Bool-cases (i == j)) [
    | inr f ↦ inl (q % 8, omega arith, (rw f (ground arith), ep, omega arith))
    | inl t ↦ elim (Bool-cases (k == q % 8)) [
      | inl s ↦ inr (t, ep, ground arith)
      | inr f ↦ inl (q % 8, omega arith, (rw f refl, ep, omega arith))
    ]
  ]

  small_row-Progress :
      (k : ℕ) (b : Matrix D)
      → k < 8
      → HasShape m n b
      → Progress m n a b (InRow i j k) (small_row a i j k b)
  unfolding small_row off_diagonal
  small_row-Progress k b hk is =
      weaken (InRow i j k) (λ p q (ep, eq). split k p q ep eq)
        (then-Progress _
          (loop-Progress m n a b
            (λ c p q. (off_diagonal k c ≡ true) × (p ≡ 8 * i + k) × (q ≡ 8 * j + c))
            (λ c b.
              if off_diagonal k c
              then copy a (8 * i + k) (8 * j + c) (j * 8 + c) (i * 8 + k) b
              else ok b)
            8 (λ c s hc so. small_step k c s hk hc so) is)
          (λ s so. diagonal_step k s hk so))

  small_block-Progress :
      (b : Matrix D)
      → HasShape m n b
      → Progress m n a b (InBlock i j) (for_range 8 0 (λ k. small_row a i j k) b)
  small_block-Progress b is =
      weaken (InBlock i j) (λ p q (ep, eq). (p % 8, omega arith, (omega arith, eq)))
        (loop-Progress m n a b (InRow i j) (λ k. small_row a i j k) 8
          (λ k s hk so. small_row-Progress k s hk so) is)

-- Blocks of eight by eight, each done by `block`, make up the matrix.
module _ {D : Type 0} (ne : D → D → Bool) (m n : ℕ) (a : Matrix D) (shape : HasShape n m a)
    (whole_m : m % 8 ≡ 0) (whole_n : n % 8 ≡ 0) where
  abbrev AllEntries : ℕ → ℕ → Type 0
  AllEntries i j = (i < n) × (j < m)

  blocks-Progress :
      (block : ℕ → ℕ → Matrix D → Run (Matrix D))
      → ((i j : ℕ)
          → i < n / 8
          → j < m / 8
          → (s : Matrix D) → HasShape m n s
          → Progress m n a s (InBlock i j) (block i j s))
      → (b : Matrix D) → HasShape m n b
      → Progress m n a b AllEntries
          (for_range (n / 8) 0 (λ i. for_range (m / 8) 0 (λ j. block i j)) b)
  blocks-Progress block step b is =
      weaken AllEntries (λ p q (hp, hq). (p / 8, omega arith, (q / 8, omega arith, (refl, refl))))
        (loop-Progress m n a b (λ i. Rounds (m / 8) (λ j. InBlock i j))
          (λ i. for_range (m / 8) 0 (λ j. block i j)) (n / 8)
          (λ i s hi so.
            loop-Progress m n a s (λ j. InBlock i j) (λ j. block i j) (m / 8)
              (λ j t hj to. step i j hi hj t to) so)
          is)

  module _ (b : Matrix D) (is : HasShape m n b) (quiet : NoNan ne a) (wide : 0 < m)
      (high : 0 < n) where
    checked-IsTranspose :
        (r : Run (Matrix D))
        → Progress m n a b AllEntries r
        → (c : Matrix D) × ((r >>= checked_transpose ne m n a) ≡ ok c) × IsTranspose m n a c
    checked-IsTranspose r p =
        let right : IsTranspose m n a p.result = (p.shape, λ i j hi hj. p.done i j (hi, hj)) in
        (p.result, rw (p.returns, checked-ok ne m n a p.result shape quiet right) refl, right)

    -- `largeTranspose`, block by block, transposes, for sizes that are positive multiples of
    -- eight.
    large_transpose-IsTranspose :
        (c : Matrix D) × (large_transpose ne m n a b ≡ ok c) × IsTranspose m n a c
    unfolding large_transpose
    large_transpose-IsTranspose =
        rw (lt→ltb 0 m wide, lt→ltb 0 n high)
          (checked-IsTranspose _ (
            blocks-Progress (λ i j. large_block a i j)
              (λ i j hi hj s so. large_block-Progress m n a shape i j hi hj s so) b is))

    -- `smallTranspose`, which leaves the diagonal of a diagonal block to the end of each row,
    -- transposes, for sizes that are positive multiples of eight.
    small_transpose-IsTranspose :
        (c : Matrix D) × (small_transpose ne m n a b ≡ ok c) × IsTranspose m n a c
    unfolding small_transpose
    small_transpose-IsTranspose =
        rw (lt→ltb 0 m wide, lt→ltb 0 n high)
          (checked-IsTranspose _ (
            blocks-Progress (λ i j. for_range 8 0 (λ k. small_row a i j k))
              (λ i j hi hj s so. small_block-Progress m n a shape i j hi hj s so) b is))

-- For matrices of the right shapes, of any size, and no NaN in A, transpose_submit returns: B has
-- kept its shape and holds the transpose of A, whichever algorithm the size selects, and no
-- assertion fails.
pub transpose_submit-IsTranspose :
    {D : Type 0} (ne : D → D → Bool) (m n : ℕ) (a b : Matrix D)
    → HasShape n m a
    → HasShape m n b
    → NoNan ne a
    → (c : Matrix D) × (transpose_submit ne m n a b ≡ ok c) × IsTranspose m n a c
unfolding transpose_submit
transpose_submit-IsTranspose ne m n a b shape is quiet =
    elim (Bool-cases (m == 1024 && n == 1024)) [
      | inl l ↦ rw l (
          large_transpose-IsTranspose ne m n a shape (ground arith) (ground arith) b is quiet
            (ground arith) (ground arith))
      | inr l ↦ elim (Bool-cases (m == 32 && n == 32)) [
        | inl s ↦
            rw (l, s)
              (small_transpose-IsTranspose ne m n a shape (ground arith) (ground arith) b is quiet
                (ground arith) (ground arith))
        | inr s ↦ rw (l, s) (garbo_transpose-IsTranspose m n a b shape is)
      ]
    ]
