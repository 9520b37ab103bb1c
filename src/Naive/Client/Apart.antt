-- ===== src/Naive/Client/Apart.antt =====
-- malloc/mm-naive.c: through any sequence of calls the blocks stay apart.
use systems_labs.Base.{
  ℕ, ◌+◌, ◌-◌, ◌*◌, ◌^◌, ◌≤◌, ◌<◌, ◌≡◌, ◌⊎◌, inl, inr, Bool-cases, refl, sym, Bool, false, List, [],
  ◌∷◌, Run, ok, fail, Fault, ◌==◌, leb, ltb, arith,
}
use systems_labs.Malloc.Memory.{Heap, mem_max_addr}
use systems_labs.Malloc.Memory.Words.{IsHeap, Granted}
use systems_labs.Malloc.Memory.Copy.Bytes.{Kept}
use systems_labs.Naive.{malloc, free, realloc, calloc}
use systems_labs.Naive.Blocks.{IsNaive, block_size, malloc-Fresh}
use systems_labs.Naive.Data.{IsBlock, IsBlockFor, KeepsWords, size_of, Fresh-IsBlockFor}
use systems_labs.Naive.Realloc.{realloc-KeepsData}
use systems_labs.Naive.Calloc.{calloc-IsClear, calloc-empty}
use systems_labs.Naive.Client.{
  with_new, IsIn, Reached, begun, mallocs, frees, reallocs, callocs, Behind, AreApart,
}

size-kept :
    (h g : Heap) (p : ℕ) → IsNaive h → KeepsWords h g → IsBlock h p → size_of g p ≡ size_of h p
size-kept h g p is kept block = kept.1 (p - 16) (
  omega (arith, block.lo),
  omega (arith, block.lo, block.hi, block.header),
  omega (arith, block.aligned),
)

IsBlock-kept :
    (h g : Heap) (p : ℕ) → IsNaive h → KeepsWords h g → h.brk ≤ g.brk → IsBlock h p → IsBlock g p
IsBlock-kept h g p is kept grows block =
    let same = size-kept h g p is kept block in
    record {
      lo = omega (arith, kept.0, block.lo);
      aligned = block.aligned;
      sized = omega (arith, same, block.sized);
      header = omega (arith, same, block.header);
      hi = omega (arith, same, block.hi, grows);
    }

IsBlockFor-kept :
    (h g : Heap) (p size : ℕ)
    → IsNaive h
    → KeepsWords h g
    → h.brk ≤ g.brk
    → IsBlockFor h p size
    → IsBlockFor g p size
IsBlockFor-kept h g p size is kept grows here = record {
  block = IsBlock-kept h g p is kept grows here.block;
  room = omega (arith, size-kept h g p is kept here.block, here.room);
}

Behind-kept :
    (h g : Heap) (q : ℕ) (live : List (ℕ × ℕ))
    → IsNaive h
    → KeepsWords h g
    → AreApart h live
    → Behind h q live
    → Behind g q live
Behind-kept h g q [] is kept apart behind = tt
Behind-kept h g q ((p, size) ∷ live) is kept apart behind = (
  omega (arith, size-kept h g p is kept apart.0.block, behind.0),
  Behind-kept h g q live is kept apart.2 behind.1,
)

AreApart-kept :
    (h g : Heap) (live : List (ℕ × ℕ))
    → IsNaive h
    → KeepsWords h g
    → h.brk ≤ g.brk
    → AreApart h live
    → AreApart g live
AreApart-kept h g [] is kept grows apart = tt
AreApart-kept h g ((p, size) ∷ live) is kept grows apart = (
  IsBlockFor-kept h g p size is kept grows apart.0,
  Behind-kept h g p live is kept apart.2 apart.1,
  AreApart-kept h g live is kept grows apart.2,
)

below_break :
    (h g : Heap) (live : List (ℕ × ℕ))
    → IsNaive h
    → KeepsWords h g
    → AreApart h live
    → Behind g (h.brk + 16) live
below_break h g [] is kept apart = tt
below_break h g ((p, size) ∷ live) is kept apart = (
  omega (arith, size-kept h g p is kept apart.0.block, apart.0.block.hi),
  below_break h g live is kept apart.2,
)

IsBlock-of : (h : Heap) (p : ℕ) (live : List (ℕ × ℕ)) → AreApart h live → IsIn p live → IsBlock h p
IsBlock-of h p [] apart here = absurd here
IsBlock-of h p ((q, size) ∷ live) apart (inl e) = rw e apart.0.block
IsBlock-of h p ((q, size) ∷ live) apart (inr later) = IsBlock-of h p live apart.2 later

IsSound : Heap → List (ℕ × ℕ) → Type 0
IsSound h live = IsNaive h × AreApart h live

-- A call that either handed out a block behind the others, or nothing.
one_more :
    (h g : Heap) (size : ℕ) (live : List (ℕ × ℕ))
    → IsNaive h
    → AreApart h live
    → IsNaive g
    → IsBlockFor g (h.brk + 16) size
    → KeepsWords h g
    → IsSound g (with_new (h.brk + 16) size live)
unfolding IsSound
one_more h g size live is apart is_g block kept =
    let known : (h.brk + 16 == 0) ≡ false = ground arith in
    let grows : h.brk ≤ g.brk = omega (arith, block.block.hi, block.block.header) in
    rw known (
      is_g,
      (block, below_break h g live is kept apart, AreApart-kept h g live is kept grows apart),
    )

Granted-cases :
    (granted : Heap → ℕ → Bool) (h : Heap) (is : IsHeap h) (incr : ℕ)
    → Granted h is granted incr ⊎ ¬ Granted h is granted incr
Granted-cases granted h is incr = elim (Bool-cases (granted h incr)) [
  | inr f ↦ inr (λ (t, small, room). cc)
  | inl t ↦ elim (Bool-cases (ltb incr (2 ^ 63))) [
    | inr f ↦ inr (λ (t, small, room). ground (arith, f, small))
    | inl small ↦ elim (Bool-cases (leb (h.brk + incr) (mem_max_addr h))) [
      | inr f ↦ inr (λ (t, small, room). ground (arith, f, room))
      | inl room ↦ inl (t, ground (arith, small), ground (arith, room))
    ]
  ]
]

-- How a call ends: with a new block behind the others, with nothing, or with a fault.
data Ended (h : Heap) (size : ℕ) (r : Run (Heap × ℕ)) : Type 0 where
  fresh :
      (g : Heap)
      → r ≡ ok (g, h.brk + 16)
      → IsNaive g
      → IsBlockFor g (h.brk + 16) size
      → KeepsWords h g
      → Ended h size r
  nothing : r ≡ ok (h, 0) → Ended h size r
  stopped : {why : Fault} → r ≡ fail why → Ended h size r

settled :
    (h g : Heap) (p size : ℕ) (live : List (ℕ × ℕ)) (r : Run (Heap × ℕ))
    → IsSound h live
    → r ≡ ok (g, p)
    → Ended h size r
    → IsSound g (with_new p size live)
unfolding IsSound
settled h g p size live r (is, apart) done (fresh g2 e is_g block kept) =
    let same : g2 ≡ g = cc in
    let place : h.brk + 16 ≡ p = cc in
    rw (same, place) at (one_more h g2 size live is apart is_g block kept)
settled h g p size live r (is, apart) done (nothing e) =
    let same : h ≡ g = cc in let place : p ≡ 0 = cc in rw (place, sym same) (is, apart)
settled h g p size live r sound done (stopped e) = absurd cc

malloc-Ended :
    (granted : Heap → ℕ → Bool) (h : Heap) (is : IsNaive h) (size : ℕ)
    → size + 31 < 2 ^ 64
    → Ended h size (malloc granted h size)
malloc-Ended granted h is size small =
    let called = malloc-Fresh granted h is size small in
    elim (Granted-cases granted h is.heap (block_size size)) [
      | inr refused ↦ nothing (called.1 refused)
      | inl allowed ↦
          let (g, done, new) = called.0 allowed in
          let whole : Kept g g (h.brk + 16) 0 = record {
            is = new.is.heap;
            same = refl;
            off = λ b hb away. refl;
          } in
          fresh g done new.is (Fresh-IsBlockFor h g g size 0 is new whole) (new.lo, new.kept)
    ]

realloc-Ended :
    (granted : Heap → ℕ → Bool) (h : Heap) (is : IsNaive h) (p size : ℕ)
    → IsBlock h p
    → 0 < size
    → size + 31 < 2 ^ 64
    → Ended h size (realloc granted h p size)
realloc-Ended granted h is p size block positive small =
    let called = realloc-KeepsData granted h is p size block positive small in
    elim (Granted-cases granted h is.heap (block_size size)) [
      | inr refused ↦ nothing (called.1 refused)
      | inl allowed ↦
          let (g, done, is_g, new, data_kept, kept) = called.0 allowed in fresh g done is_g new kept
    ]

calloc-Ended :
    (granted : Heap → ℕ → Bool) (h : Heap) (is : IsNaive h) (nmemb size : ℕ)
    → nmemb * size + 31 < 2 ^ 64
    → Ended h (nmemb * size) (calloc granted h nmemb size)
calloc-Ended granted h is nmemb size small =
    let called = calloc-IsClear granted h is nmemb size small in
    elim (Granted-cases granted h is.heap (block_size (nmemb * size))) [
      | inl allowed ↦
          let (g, done, is_g, new, clear, kept) = called.0 allowed in fresh g done is_g new kept
      | inr refused ↦ elim (Bool-cases (nmemb * size == 0)) [
        | inr some_bytes ↦ stopped (called.1 refused (ground (arith, some_bytes)))
        | inl empty ↦
            nothing (calloc-empty granted h is nmemb size small (ground (arith, empty)) refused)
      ]
    ]

-- From a heap with IsNaive (IsHeap, and the break on a multiple of sixteen), whatever sbrk
-- grants, for every heap and list of payloads that a sequence of calls of malloc, free, realloc
-- of a payload handed out and calloc reaches, each request size (for calloc the product) being
-- below 2^64 - 31 and that of realloc positive: IsNaive still holds; every payload that was
-- handed out is on a multiple of sixteen inside the heap, behind a header with the size of its
-- block, which is at least the size asked for and sixteen; and each block ends before the header
-- of every block that was handed out later.
pub Reached-AreApart :
    (granted : Heap → ℕ → Bool) (start h : Heap) (live : List (ℕ × ℕ))
    → IsNaive start
    → Reached granted start h live
    → IsNaive h × AreApart h live
unfolding free IsSound
Reached-AreApart granted start h live is begun = (is, tt)
Reached-AreApart granted start _ _ is (mallocs {h} {g} {live} size p reach small done) =
    let sound = Reached-AreApart granted start h live is reach in
    settled h g p size live (malloc granted h size) sound done
      (malloc-Ended granted h sound.0 size small)
Reached-AreApart granted start g live is (frees {h} p reach done) =
    let same : h ≡ g = cc in rw same at (Reached-AreApart granted start h live is reach)
Reached-AreApart granted start _ _ is
      (reallocs {h} {g} {live} p size q reach here positive small done) =
    let sound = Reached-AreApart granted start h live is reach in
    settled h g q size live (realloc granted h p size) sound done
      (realloc-Ended granted h sound.0 p size (IsBlock-of h p live sound.1 here) positive small)
Reached-AreApart granted start _ _ is (callocs {h} {g} {live} nmemb size p reach small done) =
    let sound = Reached-AreApart granted start h live is reach in
    settled h g p (nmemb * size) live (calloc granted h nmemb size) sound done
      (calloc-Ended granted h sound.0 nmemb size small)
