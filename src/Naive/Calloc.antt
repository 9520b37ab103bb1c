-- ===== src/Naive/Calloc.antt =====
-- malloc/mm-naive.c: `calloc` clears a new block, or writes through NULL.
use systems_labs.Base.{
  zero, suc, ℕ, ◌+◌, ◌*◌, ◌/◌, ◌%◌, ◌^◌, ◌<◌, ◌≡◌, refl, ap, ◌∙◌, Bool, false, ok, fail, Fault,
  ◌>>=◌, ◌==◌, arith, mul64,
}
use Fault.{out_of_bounds}
use systems_labs.Malloc.Memory.{Heap, read, write, slot}
use systems_labs.Malloc.Memory.Words.{IsHeap, Granted}
use systems_labs.Malloc.Memory.Copy.{clear_bytes, clear_words}
use systems_labs.Malloc.Memory.Copy.Bytes.{byte}
use systems_labs.Malloc.Memory.Copy.Clear.{clear_bytes-Kept}
use systems_labs.Naive.{malloc, calloc}
use systems_labs.Naive.Blocks.{IsNaive, block_size, malloc-Fresh}
use systems_labs.Naive.Data.{IsBlockFor, KeepsWords, Fresh-IsBlockFor, Kept-IsNaive, KeepsWords-old}

slot-null : (h : Heap) → IsHeap h → slot h 0 ≡ fail out_of_bounds
unfolding slot
slot-null h is = ground (arith, is.above_null)

clear_bytes-null : (h : Heap) (n : ℕ) → IsHeap h → 0 < n → clear_bytes h 0 n ≡ fail out_of_bounds
unfolding clear_bytes clear_words write read
clear_bytes-null h n is positive = by_words (n / 8) refl
  where
    by_words : (left : ℕ) → n / 8 ≡ left → clear_bytes h 0 n ≡ fail out_of_bounds
    by_words zero e =
        let partial : (n % 8 == 0) ≡ false = ground (arith, e, positive) in
        let nothing : 0 + 8 * 0 ≡ 0 = refl in rw (e, partial, slot-null h is) refl
    by_words (suc left) e = rw (e, slot-null h is) refl

calloc-runs :
    (granted : Heap → ℕ → Bool) (h h1 : Heap) (nmemb size bytes q : ℕ)
    → mul64 nmemb size ≡ bytes
    → malloc granted h bytes ≡ ok (h1, q)
    → calloc granted h nmemb size ≡ (clear_bytes h1 q bytes >>= λ h. ok (h, q))
unfolding calloc
calloc-runs granted h h1 nmemb size bytes q e done = rw (e, done) refl

module _ (granted : Heap → ℕ → Bool) (h : Heap) (is : IsNaive h) where
  -- On a heap with IsNaive, for a product of elements and size below 2^64 - 31: if the memory is
  -- granted, calloc returns a new block at the old break, with room for the bytes asked for, all
  -- bytes asked for are zero, and every word below the old break is as it was; if it is refused
  -- and the product is positive, calloc writes through NULL.
  pub calloc-IsClear :
      (nmemb size : ℕ)
      → nmemb * size + 31 < 2 ^ 64
      → (Granted h is.heap granted (block_size (nmemb * size))
          → (g : Heap) × (calloc granted h nmemb size ≡ ok (g, h.brk + 16))
            × IsNaive g
            × IsBlockFor g (h.brk + 16) (nmemb * size)
            × ((i : ℕ) → i < nmemb * size → byte g (h.brk + 16 + i) ≡ 0)
            × KeepsWords h g)
        × (¬ Granted h is.heap granted (block_size (nmemb * size))
            → 0 < nmemb * size
            → calloc granted h nmemb size ≡ fail out_of_bounds)
  calloc-IsClear nmemb size small =
      let bytes = nmemb * size in
      let called = malloc-Fresh granted h is bytes small in
      let exact : mul64 nmemb size ≡ bytes = omega (arith, small) in
      (
        λ allowed.
            let (h1, done, fresh) = called.0 allowed in
            let (g, cleared, kept, clear) = clear_bytes-Kept h1 (h.brk + 16) bytes fresh.is.heap (
              omega (arith, fresh.lo, is.above),
              omega (arith, fresh.brk),
              omega (arith, is.even),
            ) in
            (
              g,
              calloc-runs granted h h1 nmemb size bytes (h.brk + 16) exact done
                  ∙ ap (λ r. r >>= λ x. ok (x, h.brk + 16)) cleared,
              Kept-IsNaive h1 g (h.brk + 16) bytes fresh.is kept,
              Fresh-IsBlockFor h h1 g bytes bytes is fresh kept,
              clear,
              KeepsWords-old h h1 g bytes bytes fresh kept,
            ),
        λ refused positive.
            calloc-runs granted h h nmemb size bytes 0 exact (called.1 refused)
            ∙ ap (λ r. r >>= λ x. ok (x, 0)) (clear_bytes-null h bytes is.heap positive),
      )

  -- With no byte to clear, a refused request gives NULL.
  pub calloc-empty :
      (nmemb size : ℕ)
      → nmemb * size + 31 < 2 ^ 64
      → nmemb * size ≡ 0
      → ¬ Granted h is.heap granted (block_size (nmemb * size))
      → calloc granted h nmemb size ≡ ok (h, 0)
  unfolding clear_bytes clear_words
  calloc-empty nmemb size small empty refused =
      let called = malloc-Fresh granted h is (nmemb * size) small in
      let exact : mul64 nmemb size ≡ nmemb * size = omega (arith, small) in
      calloc-runs granted h h nmemb size (nmemb * size) 0 exact (called.1 refused) ∙ rw empty refl
