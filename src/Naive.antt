-- ===== src/Naive.antt =====
-- The allocator of malloc/mm-naive.c, in a build without DEBUG, over the heap of malloc/memlib.c.
-- A block is its header, the size of the block, at an address.
pub mod Blocks
pub mod Data
pub mod Realloc
pub mod Calloc
pub mod Client
mod Tests
use systems_labs.Base.{
  ℕ, ◌+◌, ◌-◌, ◌*◌, ◌/◌, ◌%◌, Bool, true, Option, none, some, Run, ok, ◌>>=◌, ◌==◌, ltb,
  if◌then◌else◌, add64, sub64, mul64,
}
use systems_labs.Malloc.Memory.{Heap, read, write, mem_sbrk}
use systems_labs.Malloc.Memory.Copy.{memcpy, clear_bytes}

abbrev pub alignment : ℕ
alignment = 16

abbrev pub header_size : ℕ
header_size = 16

abbrev pub payload_to_header : ℕ → ℕ
payload_to_header bp = sub64 bp header_size

abbrev pub header_to_payload : ℕ → ℕ
header_to_payload block = add64 block header_size

unfoldable pub roundup : (size multiple : ℕ) → ℕ
roundup size multiple = mul64 multiple (sub64 (add64 size multiple) 1 / multiple)

unfoldable pub mm_init : Heap → Heap × Bool
mm_init h = (h, true)

unfoldable pub free : Heap → ℕ → Run Heap
free h ptr = ok h

unfoldable pub mm_checkheap : Heap → (lineno : ℕ) → Bool
mm_checkheap h lineno = true

module _ (granted : Heap → ℕ → Bool) where
  unfoldable pub malloc : Heap → (size : ℕ) → Run (Heap × ℕ)
  malloc h size =
      let newsize = roundup (add64 size header_size) alignment in
      let (h, block) = mem_sbrk granted newsize h in
      elim block [
        | none ↦ ok (h, 0)
        | some block ↦ do h ← write h block newsize; ok (h, header_to_payload block)
      ]

  unfoldable pub realloc : Heap → (oldptr size : ℕ) → Run (Heap × ℕ)
  realloc h oldptr size =
      if size == 0
      then (free h oldptr >>= λ h. ok (h, 0))
      else if oldptr == 0
      then malloc h size
      else (do
        (h, newptr) ← malloc h size
        if newptr == 0 then ok (h, 0) else (do
          copysize ← read h (payload_to_header oldptr)
          h ← memcpy h newptr oldptr (if ltb size copysize then size else copysize)
          h ← free h oldptr
          ok (h, newptr)))

  unfoldable pub calloc : Heap → (nmemb size : ℕ) → Run (Heap × ℕ)
  calloc h nmemb size =
      let bytes = mul64 nmemb size in
      (do (h, newptr) ← malloc h bytes; h ← clear_bytes h newptr bytes; ok (h, newptr))
