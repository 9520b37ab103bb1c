-- ===== src/Naive/Data.antt =====
-- malloc/mm-naive.c: the blocks and the bytes that a call keeps.
use systems_labs.Base.{ℕ, ◌+◌, ◌-◌, ◌%◌, ◌≤◌, ◌<◌, ◌≡◌, inl, refl, ap, ◌∙◌, arith}
use systems_labs.Malloc.Memory.{Heap}
use systems_labs.Malloc.Memory.Words.{IsHeap, InHeap, word}
use systems_labs.Malloc.Memory.Copy.Bytes.{byte, Kept}
use systems_labs.Naive.Blocks.{IsNaive, Fresh, block_size}

-- The size in the header of the block of a payload.
abbrev pub size_of : Heap → ℕ → ℕ
size_of h p = word h (p - 16)

-- `p` is the payload of a block.
pub record IsBlock (h : Heap) (p : ℕ) : Type 0 where
  pub lo : h.lo + 16 ≤ p
  pub aligned : p % 16 ≡ 0
  pub sized : size_of h p % 16 ≡ 0
  pub header : 16 ≤ size_of h p
  pub hi : p + size_of h p ≤ h.brk + 16

-- The block of `p` has room for a header and a payload of `size` bytes.
pub record IsBlockFor (h : Heap) (p size : ℕ) : Type 0 where
  pub block : IsBlock h p
  pub room : size + 16 ≤ size_of h p

-- Every byte of the old payload that the new one has room for.
abbrev pub KeepsData : (h g : Heap) (p q size : ℕ) → Type 0
KeepsData h g p q size = (i : ℕ) → i < size → i < size_of h p - 16 → byte g (q + i) ≡ byte h (p + i)

-- The words below the old break.
abbrev pub KeepsWords : (h g : Heap) → Type 0
KeepsWords h g = (g.lo ≡ h.lo) × ((b : ℕ) → InHeap h b → word g b ≡ word h b)

pub byte_kept :
    (h g : Heap) (p i : ℕ)
    → IsHeap h
    → KeepsWords h g
    → IsBlock h p
    → i < size_of h p - 16
    → byte g (p + i) ≡ byte h (p + i)
unfolding byte
byte_kept h g p i is kept block small =
    let here : InHeap h (p + i - (p + i) % 8) = (
      omega (arith, block.lo, block.aligned, is.aligned),
      omega (arith, block.hi, block.sized, block.header, block.aligned, small),
      omega arith,
    ) in
    rw (kept.1 (p + i - (p + i) % 8) here) refl

pub Fresh-IsBlockFor :
    (h h1 g : Heap) (size n : ℕ)
    → IsNaive h
    → Fresh h h1 size
    → Kept h1 g (h.brk + 16) n
    → IsBlockFor g (h.brk + 16) size
Fresh-IsBlockFor h h1 g size n is fresh kept =
    let lo : g.lo ≡ h1.lo = ap (λ (x : Heap). x.lo) kept.same in
    let brk : g.brk ≡ h1.brk = ap (λ (x : Heap). x.brk) kept.same in
    let at : InHeap h1 h.brk =
      (omega (arith, fresh.lo, is.above), omega (arith, fresh.brk), omega (arith, is.even)) in
    let back : h.brk + 16 - 16 ≡ h.brk = omega arith in
    let header : size_of g (h.brk + 16) ≡ block_size size =
      ap (word g) back ∙ kept.off h.brk at (inl (omega arith)) ∙ fresh.header in
    record {
      block = record {
        lo = omega (arith, lo, fresh.lo, is.above);
        aligned = omega (arith, is.even);
        sized = omega (arith, header);
        header = omega (arith, header);
        hi = omega (arith, header, brk, fresh.brk);
      };
      room = omega (arith, header);
    }

pub Kept-IsNaive : (h1 g : Heap) (dst n : ℕ) → IsNaive h1 → Kept h1 g dst n → IsNaive g
Kept-IsNaive h1 g dst n is kept =
    let lo : g.lo ≡ h1.lo = ap (λ (x : Heap). x.lo) kept.same in
    let brk : g.brk ≡ h1.brk = ap (λ (x : Heap). x.brk) kept.same in
    record {
      heap = kept.is;
      above = omega (arith, lo, brk, is.above);
      even = omega (arith, brk, is.even);
    }

-- What was below the break is off the new payload.
pub KeepsWords-old :
    (h h1 g : Heap) (size n : ℕ) → Fresh h h1 size → Kept h1 g (h.brk + 16) n → KeepsWords h g
KeepsWords-old h h1 g size n fresh kept = (
  ap (λ (x : Heap). x.lo) kept.same ∙ fresh.lo,
  λ b hb.
      let in_b : InHeap h1 b = (omega (arith, fresh.lo, hb), omega (arith, fresh.brk, hb), hb.2) in
      kept.off b in_b (inl (omega (arith, hb))) ∙ fresh.kept b hb,
)
