-- ===== src/Malloc/Header/Fields.antt =====
-- A header holds what `pack` puts into it, and the words that links share with flags.
use systems_labs.Base.{
  inl, inr, Bool-cases, ℕ, ◌+◌, ◌*◌, ◌/◌, ◌%◌, ◌^◌, ◌<◌, ◌≡◌, refl, ◌∙◌, Bool, true, false, not,
  arith, ◌==◌, if◌then◌else◌, bit_or,
}
use systems_labs.Base.Bits.Masks.{
  bit_and-one, bit_and-two, bit_and-four, bit_and-above_fifteen, bit_or-one, bit_or-two,
  bit_or-four,
}
use systems_labs.Malloc.Header.{
  min_block_size, pack, extract_size, extract_mini, extract_alloc, extract_prev_alloc,
}

abbrev pub bit : Bool → ℕ
bit true = 1
bit false = 0

pub extract_size-value : (w : ℕ) → w < 2 ^ 64 → extract_size w ≡ w / 16 * 16
unfolding extract_size
extract_size-value w h = bit_and-above_fifteen w h

pub extract_alloc-value : (w : ℕ) → extract_alloc w ≡ not (w % 2 == 0)
unfolding extract_alloc
extract_alloc-value w = rw (bit_and-one w) refl

pub extract_prev_alloc-value : (w : ℕ) → extract_prev_alloc w ≡ not (w / 2 % 2 == 0)
unfolding extract_prev_alloc
extract_prev_alloc-value w =
    let shifted : w / 2 % 2 * 2 / 2 ^ 1 ≡ w / 2 % 2 = omega arith in
    rw (bit_and-two w, shifted) refl

pub extract_mini-value : (w : ℕ) → extract_mini w ≡ not (w / 4 % 2 == 0)
unfolding extract_mini
extract_mini-value w =
    let shifted : w / 4 % 2 * 4 / 2 ^ 2 ≡ w / 4 % 2 = omega arith in
    rw (bit_and-four w, shifted) refl

marked :
    (size w : ℕ)
    → w / 4 % 2 ≡ 0
    → (if size == min_block_size then bit_or w 4 else w) ≡ w + 4 * bit (size == min_block_size)
marked size w h = elim (Bool-cases (size == min_block_size)) [
  | inl t ↦ rw t (omega (arith, bit_or-four w))
  | inr f ↦ rw f (omega arith)
]

pub pack-value :
    (size : ℕ) (alloc prev_alloc : Bool)
    → size % 16 ≡ 0
    → pack size alloc prev_alloc
      ≡ size + bit alloc + 2 * bit prev_alloc + 4 * bit (size == min_block_size)
unfolding pack
pack-value size true true h =
    let one : bit_or size 1 ≡ size + 1 = omega (arith, bit_or-one size) in
    let two : bit_or (size + 1) 2 ≡ size + 1 + 2 = omega (arith, bit_or-two (size + 1)) in
    rw (one, two) (marked size (size + 1 + 2) (omega arith))
pack-value size true false h =
    let one : bit_or size 1 ≡ size + 1 = omega (arith, bit_or-one size) in
    rw one (marked size (size + 1) (omega arith) ∙ omega arith)
pack-value size false true h =
    let two : bit_or size 2 ≡ size + 2 = omega (arith, bit_or-two size) in
    rw two (marked size (size + 2) (omega arith) ∙ omega arith)
pack-value size false false h = marked size size (omega arith) ∙ omega arith

bit_below : (b : Bool) → bit b < 2
bit_below true = omega arith
bit_below false = omega arith

nonzero-bit : (b : Bool) → not (bit b == 0) ≡ b
nonzero-bit true = refl
nonzero-bit false = refl

-- A word from its fields.
pub fields :
    (w size : ℕ) (alloc prev_alloc mini : Bool)
    → size % 16 ≡ 0
    → w ≡ size + bit alloc + 2 * bit prev_alloc + 4 * bit mini
    → (w / 16 * 16 ≡ size)
      × (extract_alloc w ≡ alloc)
      × (extract_prev_alloc w ≡ prev_alloc)
      × (extract_mini w ≡ mini)
fields w size alloc prev_alloc mini whole value =
    let a = bit_below alloc in
    let p = bit_below prev_alloc in
    let m = bit_below mini in
    let low : w % 2 ≡ bit alloc = omega arith in
    let middle : w / 2 % 2 ≡ bit prev_alloc = omega arith in
    let high : w / 4 % 2 ≡ bit mini = omega arith in
    (
      omega arith,
      rw (extract_alloc-value w, low) (nonzero-bit alloc),
      rw (extract_prev_alloc-value w, middle) (nonzero-bit prev_alloc),
      rw (extract_mini-value w, high) (nonzero-bit mini),
    )

-- For a size that is a multiple of 16 and fits in 64 bits, the extractors give back from the
-- packed word the size, the allocation of the block and of the one before it, and the mark
-- exactly if the size is 16.
pub extract-pack :
    (size : ℕ) (alloc prev_alloc : Bool)
    → size % 16 ≡ 0
    → size < 2 ^ 64
    → (extract_size (pack size alloc prev_alloc) ≡ size)
      × (extract_alloc (pack size alloc prev_alloc) ≡ alloc)
      × (extract_prev_alloc (pack size alloc prev_alloc) ≡ prev_alloc)
      × (extract_mini (pack size alloc prev_alloc) ≡ (size == min_block_size))
extract-pack size alloc prev_alloc whole small =
    let w = pack size alloc prev_alloc in
    let mini = size == min_block_size in
    let value = pack-value size alloc prev_alloc whole in
    let a = bit_below alloc in
    let p = bit_below prev_alloc in
    let m = bit_below mini in
    let read = fields w size alloc prev_alloc mini whole value in
    (extract_size-value w (omega arith) ∙ read.0, read.1, read.2, read.3)
