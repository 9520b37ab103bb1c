-- ===== src/Malloc/Memory/Words.antt =====
-- What reads and writes of single words do to the heap of malloc/memlib.c.
use systems_labs.Base.{
  inl, inr, Bool-cases, ℕ, ◌+◌, ◌-◌, ◌*◌, ◌/◌, ◌%◌, ◌^◌, ◌≤◌, ◌<◌, ◌≡◌, ◌≢◌, refl, Bool, true, ◌||◌,
  none, some, ok, arith, leb, ltb, length, get_or, set, length-set, get_or-set_self, get_or-set_ne,
  load-ok, store-ok,
}
use systems_labs.Malloc.Memory.{Heap, slot, read, write, mem_sbrk, mem_max_addr}

-- The break is inside what was mapped, on a multiple of eight from the start.
pub record IsHeap (h : Heap) : Type 0 where
  pub mapped : h.brk ≤ h.lo + 8 * length h.words
  pub above_null : 0 < h.lo
  pub aligned : h.lo % 8 ≡ 0
  pub addressable : h.lo + 8 * length h.words < 2 ^ 64

-- An address of a word below the break.
abbrev pub InHeap : Heap → ℕ → Type 0
InHeap h a = (h.lo ≤ a) × (a + 8 ≤ h.brk) × (a % 8 ≡ 0)

abbrev pub index : Heap → ℕ → ℕ
index h a = (a - h.lo) / 8

-- The word at an address, 0 off the heap.
unfoldable pub word : Heap → ℕ → ℕ
word h a = get_or h.words (index h a) 0

abbrev pub put : Heap → ℕ → ℕ → Heap
put h a v = record h { words = set h.words (index h a) v }

module _ (h : Heap) (is : IsHeap h) where
  slot-ok : (a : ℕ) → InHeap h a → slot h a ≡ ok (index h a)
  unfolding slot
  slot-ok a (lo, hi, al) = ground (arith, is.aligned)

  inside : (a : ℕ) → InHeap h a → index h a < length h.words
  inside a (lo, hi, al) = omega (arith, is.mapped, is.aligned)

  pub read-ok : (a : ℕ) → InHeap h a → read h a ≡ ok (word h a)
  unfolding read word
  read-ok a here = rw (slot-ok a here) (load-ok h.words (index h a) 0 (inside a here))

  pub write-ok : (a v : ℕ) → InHeap h a → write h a v ≡ ok (put h a v)
  unfolding write
  write-ok a v here = rw (slot-ok a here, store-ok h.words (index h a) v (inside a here)) refl

  pub word-put_self : (a v : ℕ) → InHeap h a → word (put h a v) a ≡ v
  unfolding word
  word-put_self a v here = get_or-set_self h.words (index h a) 0 v (inside a here)

  apart : (a b : ℕ) → InHeap h a → InHeap h b → a ≢ b → index h a ≢ index h b
  apart a b (la, ha, aa) (lb, hb, ab) ne e = ne (omega (arith, is.aligned))

  pub word-put_ne : (a b v : ℕ) → InHeap h a → InHeap h b → a ≢ b → word (put h a v) b ≡ word h b
  unfolding word
  word-put_ne a b v ha hb ne =
      get_or-set_ne h.words (index h a) (index h b) 0 v (apart a b ha hb ne)

  pub IsHeap-put : (a v : ℕ) → IsHeap (put h a v)
  IsHeap-put a v = record {
    mapped = omega (arith, is.mapped, length-set h.words (index h a) v);
    above_null = is.above_null;
    aligned = is.aligned;
    addressable = omega (arith, is.addressable, length-set h.words (index h a) v);
  }

  abbrev pub Granted : (Heap → ℕ → Bool) → ℕ → Type 0
  Granted granted incr = (granted h incr ≡ true) × (incr < 2 ^ 63) × (h.brk + incr ≤ mem_max_addr h)

  -- On a heap with IsHeap, `mem_sbrk` moves the break by the increment if that is granted, and
  -- fails with nothing changed otherwise.
  pub mem_sbrk-break :
      (granted : Heap → ℕ → Bool) (incr : ℕ)
      → (Granted granted incr
          → (g : Heap) × (mem_sbrk granted incr h ≡ (g, some h.brk))
            × IsHeap g
            × (g.brk ≡ h.brk + incr)
            × ((a : ℕ) → word g a ≡ word h a))
        × (¬ Granted granted incr → mem_sbrk granted incr h ≡ (h, none))
  unfolding mem_sbrk mem_max_addr word
  mem_sbrk-break granted incr = (
    λ (allowed, small, room). (
      record h { brk = h.brk + incr },
      ground arith,
      record {
        mapped = room;
        above_null = is.above_null;
        aligned = is.aligned;
        addressable = is.addressable;
      },
      refl,
      λ a. refl,
    ),
    λ refused. elim (Bool-cases (granted h incr)) [
      | inr f ↦ ground arith
      | inl t ↦ elim (Bool-cases (leb (2 ^ 63) incr || ltb (mem_max_addr h) (h.brk + incr))) [
        | inl b ↦ ground arith
        | inr b ↦ absurd (refused (t, ground arith, ground arith))
      ]
    ],
  )
