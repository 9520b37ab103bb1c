-- ===== src/Naive/Client.antt =====
-- malloc/mm-naive.c: any sequence of calls. `live` holds the payloads that were handed out, the last
-- one first; `free` keeps them, as the code does.
pub mod Apart
use systems_labs.Base.{
  ℕ, ◌+◌, ◌-◌, ◌*◌, ◌%◌, ◌^◌, ◌≤◌, ◌<◌, ◌≡◌, ◌⊎◌, inl, inr, Bool-cases, refl, ap, ◌∙◌, sym, Bool,
  true, false, not, ◌||◌, List, [], ◌∷◌, Run, ok, fail, Fault, ◌==◌, leb, ltb, if◌then◌else◌, arith,
}
use systems_labs.Malloc.Memory.{Heap, mem_max_addr}
use systems_labs.Malloc.Memory.Words.{IsHeap, InHeap, word, Granted}
use systems_labs.Malloc.Memory.Copy.Bytes.{Kept}
use systems_labs.Naive.{malloc, free, realloc, calloc}
use systems_labs.Naive.Blocks.{IsNaive, Fresh, block_size, malloc-Fresh}
use systems_labs.Naive.Data.{IsBlockFor, KeepsWords, size_of, Fresh-IsBlockFor}
use systems_labs.Naive.Realloc.{realloc-KeepsData}
use systems_labs.Naive.Calloc.{calloc-IsClear, calloc-empty}

abbrev pub with_new : (p size : ℕ) → List (ℕ × ℕ) → List (ℕ × ℕ)
with_new p size live = if p == 0 then live else (p, size) ∷ live

abbrev pub IsIn : ℕ → List (ℕ × ℕ) → Type 0
IsIn p [] = ⊥
IsIn p ((q, size) ∷ live) = (p ≡ q) ⊎ IsIn p live

-- The heaps that calls reach from `start`, and the payloads handed out, each with the size asked for.
pub data Reached (granted : Heap → ℕ → Bool) (start : Heap) : Heap → List (ℕ × ℕ) → Type 0 where
  begun : Reached granted start start []
  mallocs :
      {h g : Heap} {live : List (ℕ × ℕ)} (size p : ℕ)
      → Reached granted start h live
      → size + 31 < 2 ^ 64
      → malloc granted h size ≡ ok (g, p)
      → Reached granted start g (with_new p size live)
  frees :
      {h g : Heap} {live : List (ℕ × ℕ)} (p : ℕ)
      → Reached granted start h live
      → free h p ≡ ok g
      → Reached granted start g live
  reallocs :
      {h g : Heap} {live : List (ℕ × ℕ)} (p size q : ℕ)
      → Reached granted start h live
      → IsIn p live
      → 0 < size
      → size + 31 < 2 ^ 64
      → realloc granted h p size ≡ ok (g, q)
      → Reached granted start g (with_new q size live)
  callocs :
      {h g : Heap} {live : List (ℕ × ℕ)} (nmemb size p : ℕ)
      → Reached granted start h live
      → nmemb * size + 31 < 2 ^ 64
      → calloc granted h nmemb size ≡ ok (g, p)
      → Reached granted start g (with_new p (nmemb * size) live)

abbrev pub Behind : Heap → ℕ → List (ℕ × ℕ) → Type 0
Behind h q [] = Unit
Behind h q ((p, size) ∷ live) = (p + size_of h p ≤ q) × Behind h q live

-- Each block has room for what was asked for, and ends before the header of every block handed out later.
abbrev pub AreApart : Heap → List (ℕ × ℕ) → Type 0
AreApart h [] = Unit
AreApart h ((q, size) ∷ live) = IsBlockFor h q size × Behind h q live × AreApart h live
