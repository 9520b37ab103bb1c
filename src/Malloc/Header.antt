-- ===== src/Malloc/Header.antt =====
-- The words of malloc/mm.c that describe a block: its size, with the allocation of the block, that
-- of the block before it, and the mark of a block of sixteen bytes in the low bits.
pub mod Fields
use systems_labs.Base.{ℕ, Bool, true, false, not, ◌==◌, if◌then◌else◌, bit_and, bit_or, shr, not64}

abbrev pub wsize : ℕ
wsize = 8

abbrev pub dsize : ℕ
dsize = 16

abbrev pub min_block_size : ℕ
min_block_size = 16

abbrev pub chunksize : ℕ
chunksize = 4096

abbrev pub alloc_mask : ℕ
alloc_mask = 0x1

abbrev pub alloc_prev_mask : ℕ
alloc_prev_mask = 0x2

abbrev pub mini_mask : ℕ
mini_mask = 0x4

abbrev pub size_mask : ℕ
size_mask = not64 0xF

unfoldable pub pack : (size : ℕ) → (alloc prev_alloc : Bool) → ℕ
pack size alloc prev_alloc =
    let word = if alloc then bit_or size alloc_mask else size in
    let word = if prev_alloc then bit_or word alloc_prev_mask else word in
    if size == min_block_size then bit_or word mini_mask else word

unfoldable pub extract_size : ℕ → ℕ
extract_size word = bit_and word size_mask

unfoldable pub extract_mini : ℕ → Bool
extract_mini word = not (shr (bit_and word mini_mask) 2 == 0)

unfoldable pub extract_alloc : ℕ → Bool
extract_alloc word = not (bit_and word alloc_mask == 0)

unfoldable pub extract_prev_alloc : ℕ → Bool
extract_prev_alloc word = not (shr (bit_and word alloc_prev_mask) 1 == 0)
