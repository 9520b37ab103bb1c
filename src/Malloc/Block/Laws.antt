-- ===== src/Malloc/Block/Laws.antt =====
-- What the words of a block in the heap of malloc/mm.c say, and reads of them.
use systems_labs.Base.{
  ℕ, ◌+◌, ◌/◌, ◌%◌, ◌^◌, ◌≤◌, ◌<◌, ◌≡◌, refl, Bool, true, false, ok, arith, if◌then◌else◌,
}
use systems_labs.Malloc.Memory.{Heap}
use systems_labs.Malloc.Memory.Words.{IsHeap, InHeap, word, read-ok}
use systems_labs.Malloc.Header.{
  min_block_size, extract_size, extract_mini, extract_alloc, extract_prev_alloc,
}
use systems_labs.Malloc.Header.Fields.{
  extract_alloc-value, extract_prev_alloc-value, extract_mini-value,
}
use systems_labs.Malloc.Block.{get_mini, get_size, get_alloc, get_prev_alloc, find_next}

unfoldable pub size_of_word : ℕ → ℕ
size_of_word w = if extract_mini w then min_block_size else extract_size w

abbrev pub size_at : Heap → ℕ → ℕ
size_at h b = size_of_word (word h b)

abbrev pub mini_at : Heap → ℕ → Bool
mini_at h b = extract_mini (word h b)

-- A free block: its words are in the heap, and two more than the header if it is not of sixteen
-- bytes.
pub record IsFree (h : Heap) (b : ℕ) : Type 0 where
  pub start : h.lo ≤ b
  pub aligned : b % 8 ≡ 0
  pub ends : b + size_at h b ≤ h.brk
  pub two_words : 16 ≤ size_at h b
  pub three_words : mini_at h b ≡ false → 24 ≤ size_at h b
  pub narrow : word h b < 2 ^ 64
  pub unallocated : extract_alloc (word h b) ≡ false

module _ {h : Heap} {b : ℕ} (free : IsFree h b) where
  pub header_inside : InHeap h b
  header_inside = (free.start, omega (arith, free.ends, free.two_words), free.aligned)

  pub next_inside : InHeap h (b + 8)
  next_inside = (
    omega (arith, free.start),
    omega (arith, free.ends, free.two_words),
    omega (arith, free.aligned),
  )

  pub prev_inside : mini_at h b ≡ false → InHeap h (b + 16)
  prev_inside f = (
    omega (arith, free.start),
    omega (arith, free.ends, free.three_words f),
    omega (arith, free.aligned),
  )

module _ (h : Heap) (is : IsHeap h) (b : ℕ) (here : InHeap h b) where
  pub get_mini-ok : get_mini h b ≡ ok (mini_at h b)
  unfolding get_mini
  get_mini-ok = rw (read-ok h is b here) refl

  pub get_size-ok : get_size h b ≡ ok (size_at h b)
  unfolding get_size size_of_word
  get_size-ok = rw (read-ok h is b here) refl

  pub get_alloc-ok : get_alloc h b ≡ ok (extract_alloc (word h b))
  unfolding get_alloc
  get_alloc-ok = rw (read-ok h is b here) refl

  pub get_prev_alloc-ok : get_prev_alloc h b ≡ ok (extract_prev_alloc (word h b))
  unfolding get_prev_alloc
  get_prev_alloc-ok = rw (read-ok h is b here) refl

  pub find_next-ok : find_next h b ≡ ok (b + size_at h b)
  unfolding find_next
  find_next-ok = rw get_size-ok refl

-- The flags are in the low three bits.
pub low_bits :
    (v w : ℕ)
    → v % 8 ≡ w % 8
    → (extract_alloc v ≡ extract_alloc w)
      × (extract_prev_alloc v ≡ extract_prev_alloc w)
      × (extract_mini v ≡ extract_mini w)
low_bits v w e =
    let one : v % 2 ≡ w % 2 = omega arith in
    let two : v / 2 % 2 ≡ w / 2 % 2 = omega arith in
    let four : v / 4 % 2 ≡ w / 4 % 2 = omega arith in
    (
      rw (extract_alloc-value v, one, ← extract_alloc-value w) refl,
      rw (extract_prev_alloc-value v, two, ← extract_prev_alloc-value w) refl,
      rw (extract_mini-value v, four, ← extract_mini-value w) refl,
    )

pub size_of_mini : (w : ℕ) → extract_mini w ≡ true → size_of_word w ≡ 16
unfolding size_of_word
size_of_mini w t = rw t refl
