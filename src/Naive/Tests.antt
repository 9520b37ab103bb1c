-- ===== src/Naive/Tests.antt =====
-- Runs of malloc/mm-naive.c, and its theorems at a small heap.
use systems_labs.Base.{
  ℕ, ◌^◌, ◌+◌, ◌-◌, ◌<◌, ◌≡◌, refl, Bool, true, [], ◌∷◌, Run, ok, fail, Fault, ◌>>=◌, arith,
  replicate, set, load, store,
}
use Fault.{out_of_bounds}
use systems_labs.Malloc.Memory.{Heap, slot, read, write, mem_sbrk, mem_max_addr}
use systems_labs.Malloc.Memory.Words.{word, Granted}
use systems_labs.Malloc.Memory.Copy.{copy_words, memcpy, clear_words, clear_bytes}
use systems_labs.Malloc.Memory.Copy.Bytes.{byte}
use systems_labs.Naive.{roundup, malloc, free, realloc, calloc}
use systems_labs.Naive.Blocks.{IsNaive, block_size}
use systems_labs.Naive.Data.{IsBlock, IsBlockFor, KeepsData, KeepsWords}
use systems_labs.Naive.Realloc.{realloc-KeepsData}
use systems_labs.Naive.Calloc.{calloc-IsClear}
use systems_labs.Naive.Client.{begun, mallocs, frees, AreApart}
use systems_labs.Naive.Client.Apart.{Reached-AreApart}

abbrev always : Heap → ℕ → Bool
always h incr = true

-- Thirty-two words, none of them zero.
abbrev small : Heap
small = record { words = replicate 32 7; lo = 64; brk = 64; heap_start = 0; free_root = [] }

small-IsNaive : IsNaive small
small-IsNaive = record {
  heap = record {
    mapped = omega arith;
    above_null = omega arith;
    aligned = refl;
    addressable = omega arith;
  };
  above = omega arith;
  even = refl;
}

-- A block of 20 bytes is made larger, and its old place stays as it was.
abbrev session : Run (ℕ × ℕ × ℕ)
session = do
  (h, p) ← malloc always small 20
  h ← write h p 5
  (h, q) ← realloc always h p 40
  copied ← read h q
  ok (p, q, copied)

session-runs : session ≡ ok (80, 128, 5)
unfolding malloc realloc free roundup mem_sbrk mem_max_addr write read slot memcpy copy_words load
    store
session-runs = refl

abbrev place : Run (Heap × ℕ) → Run (ℕ × ℕ)
place r = r >>= λ r. ok (r.0.brk, r.1)

-- The sum of a huge size and the header wraps, and a block without a payload is handed out.
huge_size : place (malloc always small (2 ^ 64 - 1)) ≡ ok (80, 80)
unfolding malloc roundup mem_sbrk mem_max_addr write slot store
huge_size = refl

-- A little less, and the size of the block wraps to zero: the header is written past the break.
nothing_granted : malloc always small (2 ^ 64 - 20) ≡ fail out_of_bounds
unfolding malloc roundup mem_sbrk mem_max_addr write slot store
nothing_granted = refl

-- The product in `calloc` wraps too.
huge_product : place (calloc always small (2 ^ 32) (2 ^ 32)) ≡ ok (80, 80)
unfolding calloc malloc roundup mem_sbrk mem_max_addr write slot store clear_bytes clear_words
huge_product = refl

-- The heap with one block.
abbrev one : Heap
one = record small { words = set (replicate 32 7) 0 48; brk = 112 }

one-IsNaive : IsNaive one
one-IsNaive = record {
  heap = record {
    mapped = omega arith;
    above_null = omega arith;
    aligned = refl;
    addressable = omega arith;
  };
  above = omega arith;
  even = refl;
}

one-IsBlock : IsBlock one 80
unfolding word
one-IsBlock = record {
  lo = omega arith;
  aligned = refl;
  sized = refl;
  header = omega arith;
  hi = omega arith;
}

realloc-KeepsData_example :
    (Granted one one-IsNaive.heap always (block_size 40)
      → (g : Heap) × (realloc always one 80 40 ≡ ok (g, 128))
        × IsNaive g
        × IsBlockFor g 128 40
        × KeepsData one g 80 128 40
        × KeepsWords one g)
    × (¬ Granted one one-IsNaive.heap always (block_size 40)
        → realloc always one 80 40 ≡ ok (one, 0))
realloc-KeepsData_example =
    realloc-KeepsData always one one-IsNaive 80 40 one-IsBlock (omega arith) (omega arith)

calloc-IsClear_example :
    (Granted one one-IsNaive.heap always (block_size 21)
      → (g : Heap) × (calloc always one 3 7 ≡ ok (g, 128))
        × IsNaive g
        × IsBlockFor g 128 21
        × ((i : ℕ) → i < 21 → byte g (128 + i) ≡ 0)
        × KeepsWords one g)
    × (¬ Granted one one-IsNaive.heap always (block_size 21)
        → 0 < 21
        → calloc always one 3 7 ≡ fail out_of_bounds)
calloc-IsClear_example = calloc-IsClear always one one-IsNaive 3 7 (omega arith)

first_call : malloc always small 20 ≡ ok (one, 80)
unfolding malloc roundup mem_sbrk mem_max_addr write slot store
first_call = refl

-- The heap with the second block.
abbrev two : Heap
two = record small { words = set (set (replicate 32 7) 0 48) 6 32; brk = 144 }

second_call : malloc always one 9 ≡ ok (two, 128)
unfolding malloc roundup mem_sbrk mem_max_addr write slot store
second_call = refl

freed : free one 80 ≡ ok one
unfolding free
freed = refl

Reached-AreApart_example : IsNaive two × AreApart two ((128, 9) ∷ (80, 20) ∷ [])
Reached-AreApart_example =
    Reached-AreApart always small two ((128, 9) ∷ (80, 20) ∷ []) small-IsNaive (
      mallocs 9 128 (frees 80 (mallocs 20 80 begun (omega arith) first_call) freed) (omega arith)
        second_call)
