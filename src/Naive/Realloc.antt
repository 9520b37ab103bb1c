-- ===== src/Naive/Realloc.antt =====
-- malloc/mm-naive.c: `realloc` copies the payload into a new block.
use systems_labs.Base.{
  ℕ, ◌+◌, ◌-◌, ◌^◌, ◌≤◌, ◌<◌, ◌≡◌, inl, inr, Bool-cases, refl, ap, ◌∙◌, Bool, false, ok, ◌==◌, ltb,
  if◌then◌else◌, arith,
}
use systems_labs.Malloc.Memory.{Heap, read}
use systems_labs.Malloc.Memory.Words.{InHeap, Granted, read-ok}
use systems_labs.Malloc.Memory.Copy.{memcpy}
use systems_labs.Malloc.Memory.Copy.Move.{memcpy-Kept}
use systems_labs.Naive.{payload_to_header, free, malloc, realloc}
use systems_labs.Naive.Blocks.{IsNaive, Fresh, block_size, malloc-Fresh}
use systems_labs.Naive.Data.{
  IsBlock, IsBlockFor, KeepsData, KeepsWords, size_of, byte_kept, Fresh-IsBlockFor, Kept-IsNaive,
  KeepsWords-old,
}

-- What `realloc` copies: the lesser of the size asked for and the size in the header.
least :
    (a b : ℕ)
    → (n : ℕ) × ((if ltb a b then a else b) ≡ n)
      × (n ≤ a)
      × (n ≤ b)
      × ((i : ℕ) → i < a → i < b → i < n)
least a b = elim (Bool-cases (ltb a b)) [
  | inl t ↦ (a, rw t refl, omega arith, ground (arith, t), λ i p q. p)
  | inr f ↦ (b, rw f refl, ground (arith, f), omega arith, λ i p q. q)
]

realloc-runs :
    (granted : Heap → ℕ → Bool) (h h1 g : Heap) (p q size s n : ℕ)
    → (size == 0) ≡ false
    → (p == 0) ≡ false
    → malloc granted h size ≡ ok (h1, q)
    → (q == 0) ≡ false
    → read h1 (payload_to_header p) ≡ ok s
    → (if ltb size s then size else s) ≡ n
    → memcpy h1 q p n ≡ ok g
    → realloc granted h p size ≡ ok (g, q)
unfolding realloc free
realloc-runs granted h h1 g p q size s n given there done known header lesser copied =
    rw (given, there, done, known, header, lesser, copied) refl

module _ (granted : Heap → ℕ → Bool) (h : Heap) (is : IsNaive h) where
  is_size :
      (h1 : Heap) (p size : ℕ)
      → Fresh h h1 size
      → IsBlock h p
      → read h1 (payload_to_header p) ≡ ok (size_of h p)
  is_size h1 p size fresh block =
      let here : InHeap h (p - 16) = (
        omega (arith, block.lo),
        omega (arith, block.lo, block.hi, block.header),
        omega (arith, block.aligned),
      ) in
      let in_h1 : InHeap h1 (p - 16) =
        (omega (arith, fresh.lo, here), omega (arith, fresh.brk, here), here.2) in
      let below : payload_to_header p ≡ p - 16 =
        omega (arith, block.lo, block.hi, block.header, is.heap.mapped, is.heap.addressable) in
      rw (below, read-ok h1 fresh.is.heap (p - 16) in_h1) (ap ok (fresh.kept (p - 16) here))

  -- On a heap with IsNaive, for the payload of a block and a positive size below 2^64 - 31: if
  -- the memory is granted, realloc returns a new block at the old break, with room for the size
  -- asked for, in which every byte of the old payload that fits is the byte that was there, and
  -- every word below the old break is as it was; otherwise it returns NULL and changes nothing.
  pub realloc-KeepsData :
      (p size : ℕ)
      → IsBlock h p
      → 0 < size
      → size + 31 < 2 ^ 64
      → (Granted h is.heap granted (block_size size)
          → (g : Heap) × (realloc granted h p size ≡ ok (g, h.brk + 16))
            × IsNaive g
            × IsBlockFor g (h.brk + 16) size
            × KeepsData h g p (h.brk + 16) size
            × KeepsWords h g)
        × (¬ Granted h is.heap granted (block_size size) → realloc granted h p size ≡ ok (h, 0))
  unfolding realloc free
  realloc-KeepsData p size block positive small =
      let called = malloc-Fresh granted h is size small in
      let given : (size == 0) ≡ false = ground (arith, positive) in
      let there : (p == 0) ≡ false = ground (arith, block.lo) in
      (
        λ allowed.
            let (h1, done, fresh) = called.0 allowed in
            let header = is_size h1 p size fresh block in
            let (n, lesser, in_new, in_old, all) = least size (size_of h p) in
            let (g, copied, kept, moved) =
              memcpy-Kept h1 (h.brk + 16) p n fresh.is.heap
                (
                  omega (arith, fresh.lo, is.above),
                  omega (arith, fresh.brk, in_new),
                  omega (arith, is.even),
                )
                (
                  omega (arith, fresh.lo, block.lo),
                  omega (arith, fresh.brk, block.hi, block.sized, in_old, positive),
                  omega (arith, block.aligned),
                )
                (inr (omega (arith, block.hi, block.sized, in_old))) in
            let known : (h.brk + 16 == 0) ≡ false = ground arith in
            (
              g,
              realloc-runs granted h h1 g p (h.brk + 16) size (size_of h p) n given there done known
                  header lesser copied,
              Kept-IsNaive h1 g (h.brk + 16) n fresh.is kept,
              Fresh-IsBlockFor h h1 g size n is fresh kept,
              λ i new old.
                  moved i (all i new (omega arith))
                  ∙ byte_kept h h1 p i is.heap (fresh.lo, fresh.kept) block old,
              KeepsWords-old h h1 g size n fresh kept,
            ),
        λ refused. rw (given, there, called.1 refused) refl,
      )
