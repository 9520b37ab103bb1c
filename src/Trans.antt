-- ===== src/Trans.antt =====
-- The matrix transposes of cache/trans.c. `D` stands for `double`, and `ne` for its `!=`, which is
-- true of NaN and itself. `A` has `n` rows of `m` entries, `B` has `m` rows of `n`.
pub mod Matrix
pub mod Progress
pub mod Correct
pub mod Blocks
pub mod Temporary
pub mod Tests
use systems_labs.Base.{
  ℕ, zero, suc, ◌+◌, ◌*◌, ◌/◌, ◌%◌, Bool, true, false, ◌&&◌, ◌||◌, not, List, Run, ok, ◌>>=◌, ◌>>◌,
  ◌==◌, ltb, if◌then◌else◌, load, store, assert,
}
use systems_labs.Base.Loop.{for_range}

abbrev pub Matrix : Type 0 → Type 0
Matrix D = List (List D)

module _ {D : Type 0} where
  -- `A[i][j]`
  unfoldable pub fetch : Matrix D → (i j : ℕ) → Run D
  fetch a i j = load a i >>= λ row. load row j

  -- `B[j][i] = x`
  unfoldable pub put : Matrix D → (j i : ℕ) → D → Run (Matrix D)
  put b j i x = do row ← load b j; row ← store row i x; store b j row

  -- `B[q][p] = A[i][j]`
  unfoldable pub copy : Matrix D → (i j q p : ℕ) → Matrix D → Run (Matrix D)
  copy a i j q p b = fetch a i j >>= put b q p

  unfoldable pub garbo_transpose : (m n : ℕ) → (a b : Matrix D) → Run (Matrix D)
  garbo_transpose m n a b = for_range n 0 (λ i. for_range m 0 (λ j. copy a i j j i)) b

  -- A round of `trans_tmp`, over `B` and the temporary array.
  unfoldable pub copy_by_tmp :
      (a : Matrix D) → (i j : ℕ) → Matrix D × List D → Run (Matrix D × List D)
  copy_by_tmp a i j (b, tmp) = do
    x ← fetch a i j
    tmp ← store tmp (2 * (i % 2) + j % 2) x
    y ← load tmp (2 * (i % 2) + j % 2)
    b ← put b j i y
    ok (b, tmp)

  -- One block of eight by eight of `largeTranspose`.
  unfoldable pub large_block : (a : Matrix D) → (i j : ℕ) → Matrix D → Run (Matrix D)
  large_block a i j =
      for_range 8 0
        (λ k. for_range 8 0 (λ c. copy a (8 * i + k) (8 * j + c) (j * 8 + c) (i * 8 + k)))

  -- A row of a block of `smallTranspose`: in a block on the diagonal its own entry comes last.
  unfoldable pub small_row : (a : Matrix D) → (i j k : ℕ) → Matrix D → Run (Matrix D)
  small_row a i j k b = do
    b ←
        for_range 8 0
          (λ c b.
            if not (k == c) || not (i == j)
            then copy a (8 * i + k) (8 * j + c) (j * 8 + c) (i * 8 + k) b
            else ok b)
          b
    if i == j then copy a (j * 8 + k) (i * 8 + k) (j * 8 + k) (i * 8 + k) b else ok b

module _ {D : Type 0} (ne : D → D → Bool) where
  -- The inner and the outer loop of `is_transpose`, with their early return.
  unfoldable pub row_matches : (left j i : ℕ) → (a b : Matrix D) → Run Bool
  row_matches zero j i a b = ok true
  row_matches (suc left) j i a b =
      let rest = row_matches left (j + 1) i a b in
      do x ← fetch a i j; y ← fetch b j i; if ne x y then ok false else rest

  unfoldable pub rows_match : (m left i : ℕ) → (a b : Matrix D) → Run Bool
  rows_match m zero i a b = ok true
  rows_match m (suc left) i a b =
      let rest = rows_match m left (i + 1) a b in
      row_matches m 0 i a b >>= λ same. if same then rest else ok false

  unfoldable pub is_transpose : (m n : ℕ) → (a b : Matrix D) → Run Bool
  is_transpose m n a b = rows_match m n 0 a b

  -- The assertion at the end of a transpose.
  unfoldable pub checked_transpose : (m n : ℕ) → (a b : Matrix D) → Run (Matrix D)
  checked_transpose m n a b = do correct ← is_transpose m n a b; assert correct; ok b

  unfoldable pub trans_basic : (m n : ℕ) → (a b : Matrix D) → Run (Matrix D)
  trans_basic m n a b = do
    assert (ltb 0 m)
    assert (ltb 0 n)
    b ← for_range n 0 (λ i. for_range m 0 (λ j. copy a i j j i)) b
    checked_transpose m n a b

  unfoldable pub trans_tmp : (m n : ℕ) → (a b : Matrix D) → List D → Run (Matrix D)
  trans_tmp m n a b tmp = do
    assert (ltb 0 m)
    assert (ltb 0 n)
    (b, _) ← for_range n 0 (λ i. for_range m 0 (λ j. copy_by_tmp a i j)) (b, tmp)
    checked_transpose m n a b

  unfoldable pub large_transpose : (m n : ℕ) → (a b : Matrix D) → Run (Matrix D)
  large_transpose m n a b = do
    assert (ltb 0 m)
    assert (ltb 0 n)
    b ← for_range (n / 8) 0 (λ i. for_range (m / 8) 0 (λ j. large_block a i j)) b
    checked_transpose m n a b

  unfoldable pub small_transpose : (m n : ℕ) → (a b : Matrix D) → Run (Matrix D)
  small_transpose m n a b = do
    assert (ltb 0 m)
    assert (ltb 0 n)
    b ←
        for_range (n / 8) 0 (λ i. for_range (m / 8) 0 (λ j. for_range 8 0 (λ k. small_row a i j k)))
          b
    checked_transpose m n a b

  unfoldable pub transpose_submit : (m n : ℕ) → (a b : Matrix D) → Run (Matrix D)
  transpose_submit m n a b =
      if m == 1024 && n == 1024
      then large_transpose m n a b
      else if m == 32 && n == 32
      then small_transpose m n a b
      else garbo_transpose m n a b
