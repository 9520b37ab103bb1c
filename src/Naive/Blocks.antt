-- ===== src/Naive/Blocks.antt =====
-- malloc/mm-naive.c: `malloc` gives a new block behind all others.
use systems_labs.Base.{
  ℕ, ◌+◌, ◌*◌, ◌/◌, ◌%◌, ◌^◌, ◌≤◌, ◌<◌, ◌≡◌, ◌||◌, inl, inr, Bool-cases, not, ltb, leb, sym, refl,
  ap, ◌∙◌, Bool, Option, none, some, Run, ok, ◌>>=◌, arith, add64,
}
use systems_labs.Malloc.Memory.{Heap, write, mem_sbrk, mem_max_addr}
use systems_labs.Malloc.Memory.Words.{
  IsHeap, InHeap, word, put, Granted, mem_sbrk-break, write-ok, word-put_self, word-put_ne,
  IsHeap-put,
}
use systems_labs.Naive.{roundup, malloc}

-- The break is on a multiple of the alignment.
pub record IsNaive (h : Heap) : Type 0 where
  pub heap : IsHeap h
  pub above : h.lo ≤ h.brk
  pub even : h.brk % 16 ≡ 0

-- The size of the block for a payload of `size` bytes.
abbrev pub block_size : ℕ → ℕ
block_size size = 16 * ((size + 31) / 16)

roundup-block_size : (size : ℕ) → size + 31 < 2 ^ 64 → roundup (add64 size 16) 16 ≡ block_size size
unfolding roundup
roundup-block_size size small = omega arith

-- `g` is `h` with a new block behind the others, its payload at `h.brk + 16`.
pub record Fresh (h g : Heap) (size : ℕ) : Type 0 where
  pub is : IsNaive g
  pub lo : g.lo ≡ h.lo
  pub brk : g.brk ≡ h.brk + block_size size
  pub header : word g h.brk ≡ block_size size
  pub kept : (b : ℕ) → InHeap h b → word g b ≡ word h b

mem_sbrk-lo :
    (granted : Heap → ℕ → Bool) (incr : ℕ) (h : Heap) → (mem_sbrk granted incr h).0.lo ≡ h.lo
unfolding mem_sbrk
mem_sbrk-lo granted incr h =
    elim (Bool-cases
      (leb (2 ^ 63) incr || ltb (mem_max_addr h) (h.brk + incr) || not (granted h incr))) [
        | inl t ↦ rw t refl
        | inr f ↦ rw f refl
      ]

-- What `malloc` does with the answer of `mem_sbrk`.
abbrev answered : (newsize : ℕ) → Heap × Option ℕ → Run (Heap × ℕ)
answered newsize r = elim r.1 [
  | none ↦ ok (r.0, 0)
  | some block ↦ do h ← write r.0 block newsize; ok (h, add64 block 16)
]

malloc-answered :
    (granted : Heap → ℕ → Bool) (h : Heap) (size : ℕ) (r : Heap × Option ℕ)
    → size + 31 < 2 ^ 64
    → mem_sbrk granted (block_size size) h ≡ r
    → malloc granted h size ≡ answered (block_size size) r
unfolding malloc
malloc-answered granted h size r small e =
    ap (λ newsize. answered newsize (mem_sbrk granted newsize h)) (roundup-block_size size small)
    ∙ ap (answered (block_size size)) e

module _ (granted : Heap → ℕ → Bool) (h : Heap) (is : IsNaive h) where
  -- `malloc` returns a new block at the break if the memory is granted, and NULL with nothing
  -- changed otherwise.
  pub malloc-Fresh :
      (size : ℕ)
      → size + 31 < 2 ^ 64
      → (Granted h is.heap granted (block_size size)
          → (g : Heap) × (malloc granted h size ≡ ok (g, h.brk + 16)) × Fresh h g size)
        × (¬ Granted h is.heap granted (block_size size) → malloc granted h size ≡ ok (h, 0))
  malloc-Fresh size small =
      let broken = mem_sbrk-break h is.heap granted (block_size size) in
      (
        λ allowed.
            let (g, done, heap, brk, same) = broken.0 allowed in
            let lo : g.lo ≡ h.lo =
              ap (λ r. r.0.lo) (sym done) ∙ mem_sbrk-lo granted (block_size size) h in
            let at : InHeap g h.brk =
              (omega (arith, lo, is.above), omega (arith, brk), omega (arith, is.even)) in
            let there : add64 h.brk 16 ≡ h.brk + 16 =
              omega
                (arith, is.heap.mapped, is.heap.addressable, heap.mapped, heap.addressable, brk) in
            let v = block_size size in
            (
              put g h.brk v,
              malloc-answered granted h size (g, some h.brk) small done
                  ∙ rw (write-ok g heap h.brk v at, there) refl,
              record {
                is = record {
                  heap = IsHeap-put g heap h.brk v;
                  above = omega (arith, lo, brk, is.above);
                  even = omega (arith, brk, is.even);
                };
                lo = lo;
                brk = brk;
                header = word-put_self g heap h.brk v at;
                kept = λ b hb.
                    let in_b : InHeap g b = (omega (arith, lo, hb), omega (arith, brk, hb), hb.2) in
                    word-put_ne g heap h.brk b v at in_b (λ e. omega (arith, hb)) ∙ same b;
              },
            ),
        λ refused. malloc-answered granted h size (h, none) small (broken.1 refused),
      )
