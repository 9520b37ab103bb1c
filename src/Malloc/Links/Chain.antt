-- ===== src/Malloc/Links/Chain.antt =====
-- Doubly linked stretches of the free lists of malloc/mm.c, and what a change of the links of one
-- block leaves of them. `sizes` gives the sizes of the blocks, which no such change touches.
use systems_labs.Base.{
  ℕ, ◌+◌, ◌≤◌, ◌<◌, ◌≡◌, ◌⊎◌, inl, inr, refl, ◌∙◌, sym, ap, List, [], ◌∷◌, ◌++◌, Run, arith,
  bit_and, not64,
}
use systems_labs.Malloc.Memory.{Heap}
use systems_labs.Malloc.Memory.Words.{IsHeap, word}
use systems_labs.Malloc.Header.{extract_mini, extract_alloc}
use systems_labs.Malloc.Block.Laws.{
  size_of_word, size_at, IsFree, header_inside, next_inside, prev_inside,
}
use systems_labs.Malloc.Links.Laws.{next_at, prev_at, Outside, Relinked}
use systems_labs.Malloc.Links.Set.{prev_link-same, IsLink}

-- The first block of a list, and the last, with what stands for none.
abbrev pub first : List ℕ → ℕ → ℕ
first [] n = n
first (b ∷ bs) n = b

abbrev pub last_or : ℕ → List ℕ → ℕ
last_or p [] = p
last_or p (b ∷ bs) = last_or b bs

pub first-append : (xs ys : List ℕ) (n : ℕ) → first (xs ++ ys) n ≡ first xs (first ys n)
first-append [] ys n = refl
first-append (x ∷ xs) ys n = refl

pub IsLink-block : {h : Heap} {b : ℕ} → IsHeap h → IsFree h b → IsLink b
IsLink-block is free = (free.aligned, omega (arith, free.ends, is.mapped, is.addressable))

pub above_null : {h : Heap} {b : ℕ} → IsHeap h → IsFree h b → 0 < b
above_null is free = omega (arith, free.start, is.above_null)

module _ (sizes : ℕ → ℕ) where
  abbrev pub Apart : (b c : ℕ) → Type 0
  Apart b c = (b + sizes b ≤ c) ⊎ (c + sizes c ≤ b)

  abbrev pub AllApart : ℕ → List ℕ → Type 0
  AllApart b [] = Unit {0}
  AllApart b (c ∷ cs) = Apart b c × AllApart b cs

  abbrev pub Distinct : List ℕ → Type 0
  Distinct [] = Unit {0}
  Distinct (b ∷ bs) = AllApart b bs × Distinct bs

  abbrev pub Separate : (bs cs : List ℕ) → Type 0
  Separate [] cs = Unit {0}
  Separate (b ∷ bs) cs = AllApart b cs × Separate bs cs

  -- A free block of its size.
  abbrev pub IsSized : Heap → ℕ → Type 0
  IsSized h b = IsFree h b × (size_at h b ≡ sizes b)

  -- The blocks `bs`, linked in both directions, after `p` and before `n`.
  abbrev pub Segment : Heap → (p : ℕ) → List ℕ → (n : ℕ) → Type 0
  Segment h p [] n = Unit {0}
  Segment h p (b ∷ bs) n =
      IsSized h b × (prev_at h b ≡ p) × (next_at h b ≡ first bs n) × Segment h b bs n

  -- `c` is in `g` as it is in `h`.
  pub record Same (h g : Heap) (c : ℕ) : Type 0 where
    pub sized : IsSized g c
    pub header : word g c ≡ word h c
    pub next : next_at g c ≡ next_at h c
    pub prev : prev_at g c ≡ prev_at h c

  module _ {h : Heap} {b n' p' : ℕ} {r : Run Heap} (q : Relinked h b n' p' r) where
    abbrev g : Heap
    g = q.after

    word-Outside :
        (c k : ℕ)
        → IsSized h b
        → IsSized h c
        → Apart b c
        → k + 8 ≤ size_at h c
        → Outside h b (c + k)
    word-Outside c k (fb, sb) (fc, sc) (inl after_b) inside = inr (omega arith)
    word-Outside c k (fb, sb) (fc, sc) (inr before_b) inside = inl (omega arith)

    kept-IsFree :
        (c : ℕ) → IsFree h c → word g c ≡ word h c → size_at g c ≡ size_at h c → IsFree g c
    kept-IsFree c free e es = record {
      start = omega (arith, free.start, q.same_lo);
      aligned = free.aligned;
      ends = omega (arith, es, free.ends, q.same_brk);
      two_words = omega (arith, es, free.two_words);
      three_words = λ f. omega (arith, es, free.three_words (ap extract_mini (sym e) ∙ f));
      narrow = omega (arith, e, free.narrow);
      unallocated = ap extract_alloc e ∙ free.unallocated;
    }

    pub relinked-Same : (c : ℕ) → IsSized h b → IsSized h c → Apart b c → Same h g c
    relinked-Same c ib (fc, sc) apart =
        let zero : c + 0 ≡ c = omega arith in
        let room = fc.two_words in
        let off : Outside h b c =
          rw (← zero) (word-Outside c 0 ib (fc, sc) apart (omega (arith, room))) in
        let header : word g c ≡ word h c = q.outside c (header_inside fc) off in
        record {
          sized = (kept-IsFree c fc header (ap size_of_word header), ap size_of_word header ∙ sc);
          header = header;
          next =
              ap (λ w. bit_and w (not64 0x7))
                (q.outside (c + 8) (next_inside fc)
                  (word-Outside c 8 ib (fc, sc) apart (omega (arith, room))));
          prev =
              prev_link-same (word h c) (word g c) (word h (c + 16)) (word g (c + 16)) header (λ f.
                q.outside (c + 16) (prev_inside fc f)
                  (word-Outside c 16 ib (fc, sc) apart (omega (arith, fc.three_words f))));
        }

    pub relinked-IsSized : IsSized h b → IsSized g b
    relinked-IsSized (free, sized) = (
      record {
        start = omega (arith, free.start, q.same_lo);
        aligned = free.aligned;
        ends = omega (arith, q.size, free.ends, q.same_brk);
        two_words = omega (arith, q.size, free.two_words);
        three_words = λ f. omega (arith, q.size, free.three_words (sym q.mini ∙ f));
        narrow = q.narrow;
        unallocated = q.alloc ∙ free.unallocated;
      },
      q.size ∙ sized,
    )

    -- A stretch apart from `b` is left as it is.
    pub Segment-apart :
        (cs : List ℕ) (p n : ℕ) → IsSized h b → AllApart b cs → Segment h p cs n → Segment g p cs n
    Segment-apart [] p n ib apart s = tt
    Segment-apart (c ∷ cs) p n ib (here, there) (sized, ep, en, rest) =
        let same = relinked-Same c ib sized here in
        (same.sized, same.prev ∙ ep, same.next ∙ en, Segment-apart cs c n ib there rest)

  Apart-last : (b c : ℕ) (cs : List ℕ) → AllApart b (c ∷ cs) → Apart b (last_or c cs)
  Apart-last b c [] (here, rest) = here
  Apart-last b c (d ∷ ds) (here, rest) = Apart-last b d ds rest

  pub Apart-sym : (b c : ℕ) → Apart b c → Apart c b
  Apart-sym b c (inl a) = inr a
  Apart-sym b c (inr a) = inl a

  pub last-IsSized :
      {h : Heap} (p c : ℕ) (cs : List ℕ) (n : ℕ) → Segment h p (c ∷ cs) n → IsSized h (last_or c cs)
  last-IsSized p c [] n (sized, ep, en, rest) = sized
  last-IsSized p c (d ∷ ds) n (sized, ep, en, rest) = last-IsSized c d ds n rest

  -- Another block after the last one of a stretch.
  pub Segment-new_next :
      {h : Heap} {r : Run Heap} (p c : ℕ) (cs : List ℕ) (n n' : ℕ)
      → Distinct (c ∷ cs)
      → Segment h p (c ∷ cs) n
      → (q : Relinked h (last_or c cs) n' (prev_at h (last_or c cs)) r)
      → Segment q.after p (c ∷ cs) n'
  Segment-new_next p c [] n n' d (sized, ep, en, rest) q =
      (relinked-IsSized q sized, q.prev_is ∙ ep, q.next_is, tt)
  Segment-new_next p c (d ∷ ds) n n' (apart, dist) (sized, ep, en, rest) q =
      let same =
        relinked-Same q c (last-IsSized c d ds n rest) sized
          (Apart-sym c (last_or d ds) (Apart-last c d ds apart)) in
      (same.sized, same.prev ∙ ep, same.next ∙ en, Segment-new_next c d ds n n' dist rest q)

  -- Another block before the first one of a stretch.
  pub Segment-new_prev :
      {h : Heap} {r : Run Heap} (p p' c : ℕ) (cs : List ℕ) (n : ℕ)
      → Distinct (c ∷ cs)
      → Segment h p (c ∷ cs) n
      → (q : Relinked h c (next_at h c) p' r) → Segment q.after p' (c ∷ cs) n
  Segment-new_prev p p' c cs n (apart, dist) (sized, ep, en, rest) q =
      (relinked-IsSized q sized, q.prev_is, q.next_is ∙ en, Segment-apart q cs c n sized apart rest)

  pub Segment-split :
      (h : Heap) (xs ys : List ℕ) (p n : ℕ)
      → Segment h p (xs ++ ys) n
      → Segment h p xs (first ys n) × Segment h (last_or p xs) ys n
  Segment-split h [] ys p n s = (tt, s)
  Segment-split h (x ∷ xs) ys p n (sized, ep, en, rest) =
      let parts = Segment-split h xs ys x n rest in
      ((sized, ep, en ∙ first-append xs ys n, parts.0), parts.1)

  pub Segment-join :
      (h : Heap) (xs ys : List ℕ) (p n : ℕ)
      → Segment h p xs (first ys n)
      → Segment h (last_or p xs) ys n
      → Segment h p (xs ++ ys) n
  Segment-join h [] ys p n a b = b
  Segment-join h (x ∷ xs) ys p n (sized, ep, en, rest) b =
      (sized, ep, en ∙ sym (first-append xs ys n), Segment-join h xs ys x n rest b)
