-- ===== src/Malloc/Memory.antt =====
-- The heap of malloc/memlib.c, `mem_sbrk` and the bounds, with the variables of malloc/mm.c, and the
-- accesses to its 64-bit words. An access off the words below the break is out of bounds.
pub mod Words
pub mod Copy
use systems_labs.Base.{
  ℕ, ◌+◌, ◌-◌, ◌*◌, ◌/◌, ◌%◌, ◌^◌, Bool, true, false, ◌&&◌, ◌||◌, not, Option, none, some, List,
  Run, ok, fail, Fault, ◌>>=◌, ◌==◌, ltb, leb, if◌then◌else◌, length, load, store,
}
use Fault.{out_of_bounds}

-- `words` is what `mmap` gave, whatever it holds; `lo` is `heap`, `brk` is `mem_brk`. An address is
-- a number, and NULL is 0.
pub record Heap : Type 0 where
  pub words : List ℕ
  pub lo : ℕ
  pub brk : ℕ
  pub heap_start : ℕ
  pub free_root : List ℕ

unfoldable pub mem_max_addr : Heap → ℕ
mem_max_addr h = h.lo + 8 * length h.words

-- The index of the word at an address.
unfoldable pub slot : Heap → ℕ → Run ℕ
slot h a =
    if leb h.lo a && leb (a + 8) h.brk && ((a - h.lo) % 8 == 0)
    then ok ((a - h.lo) / 8)
    else fail out_of_bounds

unfoldable pub read : Heap → ℕ → Run ℕ
read h a = slot h a >>= load h.words

unfoldable pub write : Heap → ℕ → ℕ → Run Heap
write h a v = do i ← slot h a; words ← store h.words i v; ok (record h { words = words })

-- `granted` says whether `sbrk` gives the memory; `none` is `(void *)-1`.
unfoldable pub mem_sbrk : (granted : Heap → ℕ → Bool) → (incr : ℕ) → Heap → Heap × Option ℕ
mem_sbrk granted incr h =
    if leb (2 ^ 63) incr || ltb (mem_max_addr h) (h.brk + incr) || not (granted h incr)
    then (h, none)
    else (record h { brk = h.brk + incr }, some h.brk)

unfoldable pub mem_heap_lo : Heap → ℕ
mem_heap_lo h = h.lo

unfoldable pub mem_heap_hi : Heap → ℕ
mem_heap_hi h = h.brk - 1

unfoldable pub mem_heapsize : Heap → ℕ
mem_heapsize h = h.brk - h.lo
