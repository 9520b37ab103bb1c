-- ===== src/Malloc/Links/Laws.antt =====
-- The setters of links of malloc/mm.c: the getters return what was set, through the packing of both
-- links in blocks of sixteen bytes, and nothing else changes.
use systems_labs.Base.{
  ℕ, ◌+◌, ◌%◌, ◌^◌, ◌≤◌, ◌<◌, ◌≡◌, ◌≢◌, ◌⊎◌, inl, inr, refl, ◌∙◌, sym, ap, true, Run, ok, arith,
  if◌then◌else◌, bit_and, not64, Bool-cases,
}
use systems_labs.Malloc.Memory.{Heap}
use systems_labs.Malloc.Memory.Words.{
  IsHeap, InHeap, word, put, read-ok, word-put_self, word-put_ne, IsHeap-put,
}
use systems_labs.Malloc.Header.{extract_mini, extract_alloc, extract_prev_alloc}
use systems_labs.Malloc.Block.Laws.{
  size_of_word, size_at, mini_at, IsFree, header_inside, next_inside, prev_inside, get_mini-ok,
  low_bits, size_of_mini,
}
use systems_labs.Malloc.Links.{get_next_free, get_prev_free}

abbrev pub next_at : Heap → ℕ → ℕ
next_at h b = bit_and (word h (b + 8)) (not64 0x7)

unfoldable pub prev_link : (header predecessor : ℕ) → ℕ
prev_link header predecessor =
    if extract_mini header then bit_and header (not64 0x7) else predecessor

abbrev pub prev_at : Heap → ℕ → ℕ
prev_at h b = prev_link (word h b) (word h (b + 16))

-- Off the block `b`, in `h`.
abbrev pub Outside : (h : Heap) → (b a : ℕ) → Type 0
Outside h b a = (a + 8 ≤ b) ⊎ (b + size_at h b ≤ a)

-- `r` ends in a heap in which the links of `b` are `next` and `prev`, its size and flags are as they
-- were, and so is every word off `b`.
pub record Relinked (h : Heap) (b next prev : ℕ) (r : Run Heap) : Type 0 where
  pub after : Heap
  pub returns : r ≡ ok after
  pub heap : IsHeap after
  pub same_lo : after.lo ≡ h.lo
  pub same_brk : after.brk ≡ h.brk
  pub same_roots : after.free_root ≡ h.free_root
  pub size : size_at after b ≡ size_at h b
  pub alloc : extract_alloc (word after b) ≡ extract_alloc (word h b)
  pub prev_alloc : extract_prev_alloc (word after b) ≡ extract_prev_alloc (word h b)
  pub mini : mini_at after b ≡ mini_at h b
  pub narrow : word after b < 2 ^ 64
  pub next_is : next_at after b ≡ next
  pub prev_is : prev_at after b ≡ prev
  pub outside : (a : ℕ) → InHeap h a → Outside h b a → word after a ≡ word h a

module _ {h : Heap} {b : ℕ} (free : IsFree h b) where
  pub get_next_free-ok : IsHeap h → get_next_free h b ≡ ok (next_at h b)
  unfolding get_next_free
  get_next_free-ok is = rw (read-ok h is (b + 8) (next_inside free)) refl

  pub get_prev_free-ok : IsHeap h → get_prev_free h b ≡ ok (prev_at h b)
  unfolding get_prev_free prev_link
  get_prev_free-ok is = elim (Bool-cases (mini_at h b)) [
    | inl t ↦
        rw (get_mini-ok h is b (header_inside free), t, read-ok h is b (header_inside free)) refl
    | inr f ↦
        rw (get_mini-ok h is b (header_inside free), f, read-ok h is (b + 16) (prev_inside free f))
          refl
  ]

  off_block : (a k : ℕ) → k + 8 ≤ size_at h b → Outside h b a → b + k ≢ a
  off_block a k inside (inl before) e = omega arith
  off_block a k inside (inr behind) e = omega arith

  -- Another value in the word of a link that is not the header.
  pub put_link :
      (is : IsHeap h) (k v next prev : ℕ)
      → InHeap h (b + k)
      → 0 < k
      → k + 8 ≤ size_at h b
      → next_at (put h (b + k) v) b ≡ next
      → prev_at (put h (b + k) v) b ≡ prev
      → Relinked h b next prev (ok (put h (b + k) v))
  put_link is k v next prev here pos inside en ep =
      let header : word (put h (b + k) v) b ≡ word h b =
        word-put_ne h is (b + k) b v here (header_inside free) (λ e. omega arith) in
      record {
        after = put h (b + k) v;
        returns = refl;
        heap = IsHeap-put h is (b + k) v;
        same_lo = refl;
        same_brk = refl;
        same_roots = refl;
        size = ap size_of_word header;
        alloc = ap extract_alloc header;
        prev_alloc = ap extract_prev_alloc header;
        mini = ap extract_mini header;
        narrow = omega (arith, header, free.narrow);
        next_is = en;
        prev_is = ep;
        outside = λ a there off. word-put_ne h is (b + k) a v here there (off_block a k inside off);
      }

  -- Another header of a block of sixteen bytes, with the same low bits.
  pub put_header :
      (is : IsHeap h) (v prev : ℕ)
      → mini_at h b ≡ true
      → v < 2 ^ 64
      → v % 8 ≡ word h b % 8
      → bit_and v (not64 0x7) ≡ prev
      → Relinked h b (next_at h b) prev (ok (put h b v))
  unfolding prev_link
  put_header is v prev t small low e =
      let header : word (put h b v) b ≡ v = word-put_self h is b v (header_inside free) in
      let flags = low_bits v (word h b) low in
      let still : extract_mini v ≡ true = flags.2 ∙ t in
      record {
        after = put h b v;
        returns = refl;
        heap = IsHeap-put h is b v;
        same_lo = refl;
        same_brk = refl;
        same_roots = refl;
        size = ap size_of_word header ∙ size_of_mini v still ∙ sym (size_of_mini (word h b) t);
        alloc = ap extract_alloc header ∙ flags.0;
        prev_alloc = ap extract_prev_alloc header ∙ flags.1;
        mini = ap extract_mini header ∙ flags.2;
        narrow = omega (arith, header);
        next_is =
            ap (λ w. bit_and w (not64 0x7))
              (word-put_ne h is b (b + 8) v (header_inside free) (next_inside free)
                (λ e. omega arith));
        prev_is = rw (header, still) e;
        outside = λ a there off.
            word-put_ne h is b a v (header_inside free) there
              (λ e. off_block a 0 (omega (arith, free.two_words)) off (omega arith));
      }
