-- ===== src/Trans/Progress.antt =====
-- Copies of entries of `A` to their places in `B`: each makes one entry of `B` right and spoils
-- none, so loops of copies make right what their rounds do, in any order.
use systems_labs.Base.{ℕ, ◌+◌, ◌<◌, ◌≡◌, ◌⊎◌, inl, inr, refl, ◌∙◌, sym, Run, ok, arith}
use systems_labs.Base.Loop.{for_range, for_range-inv}
use mathlib.Core.Path.{subst}
use native.Mathlib.Decide.{ℕ_discrete}
use systems_labs.Trans.{Matrix, copy}
use systems_labs.Trans.Matrix.{
  entry, HasShape, entry-some, fetch-ok, after, put-ok, entry-put_self, entry-put_ne, HasShape-put,
}

-- `B[j][i] = A[i][j]`
abbrev pub Agrees : {D : Type 0} → (a b : Matrix D) → (i j : ℕ) → Type 0
Agrees a b i j = entry b j i ≡ entry a i j

-- From `b`, `r` ends in a matrix of the same shape that is right wherever `b` is, and where `covers`
-- says.
pub record Progress {D : Type 0} (m n : ℕ) (a b : Matrix D) (covers : ℕ → ℕ → Type 0)
    (r : Run (Matrix D)) : Type 0 where
  pub result : Matrix D
  pub returns : r ≡ ok result
  pub shape : HasShape m n result
  pub kept : (i j : ℕ) → Agrees a b i j → Agrees a result i j
  pub done : (i j : ℕ) → covers i j → Agrees a result i j

module _ {D : Type 0} {m n : ℕ} (a : Matrix D) (shape : HasShape n m a) where
  pub copy-Progress :
      (i j : ℕ) (b : Matrix D)
      → i < n
      → j < m
      → HasShape m n b
      → Progress m n a b (λ p q. (p ≡ i) × (q ≡ j)) (copy a i j j i b)
  unfolding copy
  copy-Progress i j b hi hj is =
      let (v, e) = entry-some a shape i j hi hj in
      let here : Agrees a (after b is j i v hj hi) i j = entry-put_self b is j i v hj hi ∙ sym e in
      record {
        result = after b is j i v hj hi;
        returns = rw (fetch-ok a shape i j hi e, put-ok b is j i v hj hi) refl;
        shape = HasShape-put b is j i v hj hi;
        kept = λ p q h. elim (ℕ_discrete j q) [
          | no ne ↦ rw (entry-put_ne b is j i v hj hi q p (inl ne)) h
          | yes ej ↦ elim (ℕ_discrete i p) [
            | no ne ↦ rw (entry-put_ne b is j i v hj hi q p (inr ne)) h
            | yes ei ↦ rw (← ei, ← ej) here
          ]
        ];
        done = λ p q (ep, eq). rw (ep, eq) here;
      }

pub weaken :
    {D : Type 0} {m n : ℕ} {a b : Matrix D} {covers : ℕ → ℕ → Type 0} {r : Run (Matrix D)}
    (fewer : ℕ → ℕ → Type 0)
    → ((p q : ℕ) → fewer p q → covers p q)
    → Progress m n a b covers r
    → Progress m n a b fewer r
weaken fewer sub p = record {
  result = p.result;
  returns = p.returns;
  shape = p.shape;
  kept = p.kept;
  done = λ i j h. p.done i j (sub i j h);
}

-- What the rounds before `hi` cover.
abbrev pub Rounds : (hi : ℕ) → (ℕ → ℕ → ℕ → Type 0) → ℕ → ℕ → Type 0
Rounds hi covers p q = (k : ℕ) × (k < hi) × covers k p q

before_or_last : (k l : ℕ) → k < l + 1 → (k < l) ⊎ (k ≡ l)
before_or_last k l h = grind arith

module _ {D : Type 0} (m n : ℕ) (a b : Matrix D) (covers : ℕ → ℕ → ℕ → Type 0) where
  abbrev SoFar : ℕ → Matrix D → Type 0
  SoFar k s =
      HasShape m n s
      × ((i j : ℕ) → Agrees a b i j → Agrees a s i j)
      × ((i j : ℕ) → Rounds k covers i j → Agrees a s i j)

  loop_step :
      (k : ℕ) (s : Matrix D) (r : Run (Matrix D))
      → SoFar k s
      → Progress m n a s (covers k) r
      → (t : Matrix D) × (r ≡ ok t) × SoFar (k + 1) t
  loop_step k s r (is, kept, done) p = (
    p.result,
    p.returns,
    (
      p.shape,
      λ i j h. p.kept i j (kept i j h),
      λ i j (l, hl, c). elim (before_or_last l k hl) [
        | inl lt ↦ p.kept i j (done i j (l, lt, c))
        | inr e ↦ p.done i j (subst (λ t. covers t i j) e c)
      ],
    ),
  )

  pub loop-Progress :
      (body : ℕ → Matrix D → Run (Matrix D)) (hi : ℕ)
      → ((k : ℕ) (s : Matrix D) → k < hi → HasShape m n s → Progress m n a s (covers k) (body k s))
      → HasShape m n b
      → Progress m n a b (Rounds hi covers) (for_range hi 0 body b)
  loop-Progress body hi step is =
      let (t, returns, (shape, kept, done)) =
        for_range-inv SoFar body hi (λ k s h so. loop_step k s (body k s) so (step k s h so.0)) hi 0
          b (omega arith) (is, (λ i j h. h), λ i j (l, hl, c). absurd (omega arith)) in
      record { result = t; returns = returns; shape = shape; kept = kept; done = done }
