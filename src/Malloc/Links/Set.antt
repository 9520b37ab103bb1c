-- ===== src/Malloc/Links/Set.antt =====
-- `set_next_free` and `set_prev_free` of malloc/mm.c set their link and nothing else.
use systems_labs.Base.{
  ℕ, ◌+◌, ◌%◌, ◌^◌, ◌<◌, ◌≡◌, inl, inr, refl, ◌∙◌, ap, true, false, Run, ok, arith, bit_and, bit_or,
  not64, Bool-cases, set-set,
}
use systems_labs.Base.Bits.Masks.{bit_and-seven, bit_and-above_seven, bit_or-four, bit_or-low}
use systems_labs.Malloc.Memory.{Heap}
use systems_labs.Malloc.Memory.Words.{
  IsHeap, index, word, put, read-ok, write-ok, word-put_self, word-put_ne, IsHeap-put,
}
use systems_labs.Malloc.Header.{extract_mini, mini_mask}
use systems_labs.Malloc.Block.Laws.{
  mini_at, IsFree, header_inside, next_inside, prev_inside, get_mini-ok,
}
use systems_labs.Malloc.Links.{set_prev_free, set_next_free}
use systems_labs.Malloc.Links.Laws.{next_at, prev_link, prev_at, Relinked, put_link, put_header}

-- What links hold: a multiple of eight that fits in a word.
abbrev pub IsLink : ℕ → Type 0
IsLink a = (a % 8 ≡ 0) × (a < 2 ^ 64)

pub prev_link-same :
    (w w' v v' : ℕ) → w' ≡ w → (extract_mini w ≡ false → v' ≡ v) → prev_link w' v' ≡ prev_link w v
unfolding prev_link
prev_link-same w w' v v' e f =
    rw e (elim (Bool-cases (extract_mini w)) [ inl t ↦ rw t refl | inr u ↦ rw (u, f u) refl ])

ran :
    {h : Heap} {b next prev : ℕ} {r : Run Heap} {g : Heap}
    → r ≡ ok g
    → Relinked h b next prev (ok g)
    → Relinked h b next prev r
ran e q = record {
  after = q.after;
  returns = e ∙ q.returns;
  heap = q.heap;
  same_lo = q.same_lo;
  same_brk = q.same_brk;
  same_roots = q.same_roots;
  size = q.size;
  alloc = q.alloc;
  prev_alloc = q.prev_alloc;
  mini = q.mini;
  narrow = q.narrow;
  next_is = q.next_is;
  prev_is = q.prev_is;
  outside = q.outside;
}

module _ (h : Heap) (is : IsHeap h) (b : ℕ) (free : IsFree h b) where
  put_next :
      (v next : ℕ)
      → bit_and v (not64 0x7) ≡ next
      → Relinked h b next (prev_at h b) (ok (put h (b + 8) v))
  put_next v next e =
      put_link free is 8 v next (prev_at h b) (next_inside free) (omega arith)
        (omega (arith, free.two_words)) (rw (word-put_self h is (b + 8) v (next_inside free)) e)
        (prev_link-same (word h b) (word (put h (b + 8) v) b) (word h (b + 16))
          (word (put h (b + 8) v) (b + 16))
          (word-put_ne h is (b + 8) b v (next_inside free) (header_inside free) (λ e. omega arith))
          (λ f.
            word-put_ne h is (b + 8) (b + 16) v (next_inside free) (prev_inside free f)
              (λ e. omega arith)))

  set_next_free-plain :
      (next : ℕ) → mini_at h b ≡ false → set_next_free h b next ≡ ok (put h (b + 8) next)
  unfolding set_next_free
  set_next_free-plain next f =
      let kept : word (put h (b + 8) next) b ≡ word h b =
        word-put_ne h is (b + 8) b next (next_inside free) (header_inside free)
          (λ e. omega arith) in
      rw
        (
          write-ok h is (b + 8) next (next_inside free),
          get_mini-ok (put h (b + 8) next) (IsHeap-put h is (b + 8) next) b (header_inside free),
          kept,
          f,
        )
        refl

  set_next_free-mini :
      (next : ℕ)
      → mini_at h b ≡ true
      → set_next_free h b next ≡ ok (put h (b + 8) (bit_or next mini_mask))
  unfolding set_next_free
  set_next_free-mini next t =
      let h1 = put h (b + 8) next in
      let is1 = IsHeap-put h is (b + 8) next in
      let kept : word h1 b ≡ word h b =
        word-put_ne h is (b + 8) b next (next_inside free) (header_inside free)
          (λ e. omega arith) in
      rw
        (
          write-ok h is (b + 8) next (next_inside free),
          get_mini-ok h1 is1 b (header_inside free),
          kept,
          t,
          read-ok h1 is1 (b + 8) (next_inside free),
          word-put_self h is (b + 8) next (next_inside free),
          write-ok h1 is1 (b + 8) (bit_or next mini_mask) (next_inside free),
        )
        (ap (λ words. ok (record h { words = words }))
          (set-set h.words (index h (b + 8)) next (bit_or next mini_mask)))

  -- For a free block and a link, `get_next_free` then reads the link set, and the other link, the
  -- size, the flags, the mark and every word off the block are as they were, also where the link
  -- shares its word with the mark of a block of sixteen bytes.
  pub set_next_free-Relinked :
      (next : ℕ) → IsLink next → Relinked h b next (prev_at h b) (set_next_free h b next)
  set_next_free-Relinked next (whole, small) = elim (Bool-cases (mini_at h b)) [
    | inr f ↦
        ran (set_next_free-plain next f)
          (put_next next next (bit_and-above_seven next small ∙ omega arith))
    | inl t ↦
        let marked : bit_or next mini_mask ≡ next + 4 = omega (arith, bit_or-four next) in
        ran (set_next_free-mini next t) (
          put_next (bit_or next mini_mask) next
            (rw marked (bit_and-above_seven (next + 4) (omega arith) ∙ omega arith)))
  ]

  set_prev_free-plain :
      (prev : ℕ) → mini_at h b ≡ false → set_prev_free h b prev ≡ ok (put h (b + 16) prev)
  unfolding set_prev_free
  set_prev_free-plain prev f =
      rw
        (
          get_mini-ok h is b (header_inside free),
          f,
          write-ok h is (b + 16) prev (prev_inside free f),
        )
        refl

  set_prev_free-mini :
      (prev : ℕ)
      → prev % 8 ≡ 0
      → mini_at h b ≡ true
      → set_prev_free h b prev ≡ ok (put h b (prev + word h b % 8))
  unfolding set_prev_free
  set_prev_free-mini prev whole t =
      rw
        (
          get_mini-ok h is b (header_inside free),
          t,
          read-ok h is b (header_inside free),
          bit_and-seven (word h b),
          bit_or-low (word h b % 8) prev (omega arith) whole,
          write-ok h is b (prev + word h b % 8) (header_inside free),
        )
        refl

  put_prev :
      (prev : ℕ) → mini_at h b ≡ false → Relinked h b (next_at h b) prev (ok (put h (b + 16) prev))
  unfolding prev_link
  put_prev prev f =
      let inside = prev_inside free f in
      let header : word (put h (b + 16) prev) b ≡ word h b =
        word-put_ne h is (b + 16) b prev inside (header_inside free) (λ e. omega arith) in
      put_link free is 16 prev (next_at h b) prev inside (omega arith)
        (omega (arith, free.three_words f))
        (ap (λ w. bit_and w (not64 0x7))
          (word-put_ne h is (b + 16) (b + 8) prev inside (next_inside free) (λ e. omega arith)))
        (rw (header, f) (word-put_self h is (b + 16) prev inside))

  -- For a free block and a link, `get_prev_free` then reads the link set, and the other link, the
  -- size, the flags, the mark and every word off the block are as they were, also where the link
  -- replaces the size in the header of a block of sixteen bytes.
  pub set_prev_free-Relinked :
      (prev : ℕ) → IsLink prev → Relinked h b (next_at h b) prev (set_prev_free h b prev)
  set_prev_free-Relinked prev (whole, small) = elim (Bool-cases (mini_at h b)) [
    | inr f ↦ ran (set_prev_free-plain prev f) (put_prev prev f)
    | inl t ↦ ran (set_prev_free-mini prev whole t) (
        put_header free is (prev + word h b % 8) prev t (omega arith) (omega arith)
          (bit_and-above_seven (prev + word h b % 8) (omega arith) ∙ omega arith))
  ]
