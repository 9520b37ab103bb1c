-- ===== src/Trans/Matrix.antt =====
-- Reads, writes and copies of single entries in cache/trans.c, and what a sequence of copies leaves
-- behind, in whatever order it makes them.
use systems_labs.Base.{
  ℕ, ◌<◌, ◌≡◌, ◌≢◌, ◌⊎◌, inl, inr, refl, ◌∙◌, Option, some, List, [], ok, arith, length, get_elem?,
  get_or, set, length-set, get_elem?-set_self, get_elem?-set_ne, get_or-set_self, get_or-set_ne,
  load-ok, load-some, store-ok, get_elem?-below,
}
use mathlib.Core.Path.{subst}
use native.Mathlib.Decide.{ℕ_discrete}
use systems_labs.Trans.{Matrix, fetch, put}

module _ {D : Type 0} where
  abbrev pub row : Matrix D → ℕ → List D
  row x r = get_or x r []

  abbrev pub entry : Matrix D → (r c : ℕ) → Option D
  entry x r c = get_elem? (row x r) c

  pub record HasShape (rows cols : ℕ) (x : Matrix D) : Type 0 where
    pub height : length x ≡ rows
    pub width : (r : ℕ) → r < rows → length (row x r) ≡ cols

  module _ {rows cols : ℕ} (x : Matrix D) (shape : HasShape rows cols x) where
    pub entry-some : (r c : ℕ) → r < rows → c < cols → (v : D) × (entry x r c ≡ some v)
    entry-some r c hr hc = get_elem?-below (row x r) c (omega (arith, shape.width r hr))

    pub fetch-ok : (r c : ℕ) {v : D} → r < rows → entry x r c ≡ some v → fetch x r c ≡ ok v
    unfolding fetch
    fetch-ok r c hr e = rw (load-ok x r [] (omega (arith, shape.height)), load-some (row x r) c e)

    module _ (r c : ℕ) (v : D) (hr : r < rows) (hc : c < cols) where
      abbrev pub after : Matrix D
      after = set x r (set (row x r) c v)

      below : r < length x
      below = omega (arith, shape.height)

      pub put-ok : put x r c v ≡ ok after
      unfolding put
      put-ok =
          rw
            (
              load-ok x r [] below,
              store-ok (row x r) c v (omega (arith, shape.width r hr)),
              store-ok x r (set (row x r) c v) below,
            )
            refl

      row_self : row after r ≡ set (row x r) c v
      row_self = get_or-set_self x r [] (set (row x r) c v) below

      pub entry-put_self : entry after r c ≡ some v
      entry-put_self =
          rw row_self (get_elem?-set_self (row x r) c v (omega (arith, shape.width r hr)))

      pub entry-put_ne : (p q : ℕ) → (r ≢ p) ⊎ (c ≢ q) → entry after p q ≡ entry x p q
      entry-put_ne p q (inl ne) = rw (get_or-set_ne x r p [] (set (row x r) c v) ne)
      entry-put_ne p q (inr ne) = elim (ℕ_discrete r p) [
        | yes e ↦
            let same : entry after r q ≡ entry x r q =
              rw row_self (get_elem?-set_ne (row x r) v ne) in
            subst (λ k. entry after k q ≡ entry x k q) e same
        | no ne' ↦ rw (get_or-set_ne x r p [] (set (row x r) c v) ne')
      ]

      pub HasShape-put : HasShape rows cols after
      HasShape-put = record {
        height = length-set x r (set (row x r) c v) ∙ shape.height;
        width = λ p hp. elim (ℕ_discrete r p) [
          | yes e ↦
              subst (λ k. length (row after k) ≡ cols) e
                (rw row_self (length-set (row x r) c v ∙ shape.width r hr))
          | no ne ↦ rw (get_or-set_ne x r p [] (set (row x r) c v) ne) (shape.width p hp)
        ];
      }
