-- ===== src/Trans/Temporary.antt =====
-- The transpose of cache/trans.c that carries each entry through the temporary array, `trans_tmp`.
use systems_labs.Base.{
  ℕ, Bool, ◌+◌, ◌*◌, ◌%◌, ◌≤◌, ◌<◌, ◌≡◌, refl, List, ok, arith, lt→ltb, bind-ok, length, set,
  length-set, load-some, store-ok, get_elem?-set_self,
}
use systems_labs.Base.Loop.{for_range, for_range-simulation}
use systems_labs.Trans.{Matrix, fetch, copy, copy_by_tmp, trans_tmp}
use systems_labs.Trans.Matrix.{HasShape}
use systems_labs.Trans.Correct.{IsTranspose, NoNan, checked-ok, simple-Progress}

module _ {D : Type 0} (a : Matrix D) where
  -- The same matrix, and a temporary array of at least four entries.
  abbrev Same : Matrix D → Matrix D × List D → Type 0
  Same b (c, tmp) = (c ≡ b) × (4 ≤ length tmp)

  tmp_step :
      (i j : ℕ) (b b' : Matrix D) (t : Matrix D × List D)
      → Same b t
      → copy a i j j i b ≡ ok b'
      → (t' : Matrix D × List D) × (copy_by_tmp a i j t ≡ ok t') × Same b' t'
  unfolding copy copy_by_tmp
  tmp_step i j b b' (c, tmp) (same, room) e =
      let (x, got, written) = bind-ok (fetch a i j) e in
      let inside : 2 * (i % 2) + j % 2 < length tmp = omega arith in
      (
        (b', set tmp (2 * (i % 2) + j % 2) x),
        rw
            (
              got,
              store-ok tmp (2 * (i % 2) + j % 2) x inside,
              load-some (set tmp (2 * (i % 2) + j % 2) x) (2 * (i % 2) + j % 2)
                  (get_elem?-set_self tmp (2 * (i % 2) + j % 2) x inside),
              same,
              written,
            )
            refl,
        (refl, omega (arith, length-set tmp (2 * (i % 2) + j % 2) x)),
      )

  tmp_row :
      (m i : ℕ) (b b' : Matrix D) (t : Matrix D × List D)
      → Same b t
      → for_range m 0 (λ j. copy a i j j i) b ≡ ok b'
      → (t' : Matrix D × List D) × (for_range m 0 (λ j. copy_by_tmp a i j) t ≡ ok t') × Same b' t'
  tmp_row m i b b' t same e =
      for_range-simulation Same (λ j. copy a i j j i) (λ j. copy_by_tmp a i j)
        (λ j s s' t r e. tmp_step i j s s' t r e) m 0 b b' t same e

-- For matrices of the right shapes and positive sizes, a temporary array of at least four
-- entries, whatever they hold, and no NaN in A, trans_tmp returns the transpose of A and its
-- assertion holds.
pub trans_tmp-IsTranspose :
    {D : Type 0} (ne : D → D → Bool) (m n : ℕ) (a b : Matrix D) (tmp : List D)
    → HasShape n m a
    → HasShape m n b
    → NoNan ne a
    → 4 ≤ length tmp
    → 0 < m
    → 0 < n
    → (c : Matrix D) × (trans_tmp ne m n a b tmp ≡ ok c) × IsTranspose m n a c
unfolding trans_tmp
trans_tmp-IsTranspose ne m n a b tmp shape is quiet room wide high =
    let p = simple-Progress m n a b shape is in
    let right : IsTranspose m n a p.result = (p.shape, λ i j hi hj. p.done i j (hi, hj)) in
    let ((c, tmp'), returns, (same, _)) =
      for_range-simulation (Same a) (λ i. for_range m 0 (λ j. copy a i j j i))
        (λ i. for_range m 0 (λ j. copy_by_tmp a i j)) (λ i s s' t r e. tmp_row a m i s s' t r e) n 0
        b p.result (b, tmp) (refl, room) p.returns in
    (
      p.result,
      rw
          (
            lt→ltb 0 m wide,
            lt→ltb 0 n high,
            returns,
            same,
            checked-ok ne m n a p.result shape quiet right,
          )
          refl,
      right,
    )
