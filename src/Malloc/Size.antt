-- ===== src/Malloc/Size.antt =====
-- Block sizes of malloc/mm.c: the rounding of requests, and the list that a size belongs to.
use systems_labs.Base.{
  ℕ, zero, suc, ◌/◌, Bool, true, false, ◌==◌, ltb, leb, if◌then◌else◌, add64, sub64, mul64, shr,
}
use systems_labs.Malloc.Header.{wsize, dsize, min_block_size}
pub mod Laws

abbrev pub seglist_length : ℕ
seglist_length = 15

unfoldable pub max : ℕ → ℕ → ℕ
max x y = if ltb y x then x else y

unfoldable pub min : ℕ → ℕ → ℕ
min x y = if ltb x y then x else y

unfoldable pub round_up : (size n : ℕ) → ℕ
round_up size n = mul64 n (add64 size (sub64 n 1) / n)

-- `asize` in `malloc`.
unfoldable pub adjusted_size : ℕ → ℕ
adjusted_size size = max (round_up (add64 size wsize) dsize) min_block_size

-- The rounds of `for (i; i != 0; i = i >> 1)`.
unfoldable pub shift_count : (fuel i : ℕ) → ℕ
shift_count zero i = 0
shift_count (suc fuel) i = let rest = shift_count fuel (shr i 1) in if i == 0 then 0 else suc rest

unfoldable pub get_seglist_ind : ℕ → ℕ
get_seglist_ind size =
    let count = if leb size 16 then 1 else shift_count 64 (shr size 4) in
    min (sub64 count 1) (sub64 seglist_length 1)
