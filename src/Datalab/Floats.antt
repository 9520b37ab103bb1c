-- ===== src/Datalab/Floats.antt =====
-- datalab/bits.c, the puzzles on single precision floats: an `unsigned` is its pattern of 32 bits,
-- and so is the `int` that is stored back into one.
pub mod Value
pub mod Negate
pub mod Order
pub mod Scale
pub mod Rounding
pub mod Nearest
use systems_labs.Base.{
  ℕ, zero, suc, ◌+◌, ◌-◌, ◌%◌, ◌^◌, Bool, true, false, ◌&&◌, ◌||◌, not, Option, none, some, ltb,
  ◌==◌, if◌then◌else◌, u32_mod, add32, not32, shl32, shl64, shr, bit_and, bit_or, bit_xor,
}

abbrev pub exp_mask : ℕ
exp_mask = 0x7f800000

-- `(uf & exp_mask) == exp_mask && (uf & 0x007fffff)`
unfoldable pub is_nan : ℕ → Bool
is_nan uf = bit_and uf exp_mask == exp_mask && not (bit_and uf 0x007fffff == 0)

-- The `long` is cut down to an `unsigned`.
unfoldable pub float_negate : ℕ → ℕ
float_negate uf = if is_nan uf then uf else bit_xor uf (shl64 1 31) % u32_mod

unfoldable pub float_is_equal : (uf ug : ℕ) → ℕ
float_is_equal uf ug =
    let remove_sign = not32 (shl32 1 31) in
    if is_nan uf || is_nan ug
    then 0
    else if bit_and uf remove_sign == 0 && bit_and ug remove_sign == 0
    then 1
    else if uf == ug
    then 1
    else 0

unfoldable pub float_is_less : (uf ug : ℕ) → ℕ
float_is_less uf ug =
    let uf_sign = bit_and (shr uf 31) 1 in
    let ug_sign = bit_and (shr ug 31) 1 in
    let comparison = if ltb (bit_and uf 0x7fffffff) (bit_and ug 0x7fffffff) then 1 else 0 in
    if is_nan uf || is_nan ug
    then 0
    else if bit_and uf 0x7fffffff == 0 && bit_and ug 0x7fffffff == 0
    then 0
    else if uf == ug
    then 0
    else if bit_or uf_sign ug_sign == 0
    then comparison
    else if not (bit_and uf_sign ug_sign == 0)
    then (if comparison == 0 then 1 else 0)
    else if ltb ug_sign uf_sign
    then 1
    else 0

unfoldable pub float_scale2 : ℕ → ℕ
float_scale2 uf =
    let carry = bit_and 0x00400000 uf in
    let shifted = bit_or (bit_and (shl32 uf 1) 0x007fffff) (bit_and uf 0xff800000) in
    let next = add32 uf 0x00800000 in
    if bit_and uf exp_mask == exp_mask
    then uf
    else if bit_and uf 0x7fffffff == 0
    then uf
    else if bit_and uf exp_mask == 0
    then add32 shifted (shl32 carry 1)
    else if bit_and next exp_mask == exp_mask
    then bit_and next 0xff800000
    else next

-- `while (!(u >> i)) i--;` from `i`; a shift by a negative amount has no result.
unfoldable pub skip_zeros : (i u : ℕ) → Option ℕ
skip_zeros zero u = if shr u 0 == 0 then none else some 0
skip_zeros (suc i) u =
    let rest = skip_zeros i u in if shr u (suc i) == 0 then rest else some (suc i)

-- The code after the loop.
unfoldable pub pack_float : (u i : ℕ) → ℕ
pack_float u i =
    let exp = shl32 (127 + i) 23 in
    let u_shifted = shl32 u (31 - i) in
    let guard = bit_and (shl32 u_shifted 23) 0x80000000 in
    let round = bit_and (shl32 u_shifted 24) 0x80000000 in
    let sticky = shl32 u_shifted 25 in
    let fraction = bit_and 0x007fffff (shr u (i - 23)) in
    let is_up = (not (guard == 0) && not (round == 0)) || (not (round == 0) && not (sticky == 0)) in
    let raised = add32 fraction 1 in
    let exp_up = if bit_and raised 0x00800000 == 0 then exp else add32 exp 0x00800000 in
    if ltb i 23
    then bit_or exp (bit_and 0x007fffff (shl32 u (23 - i)))
    else if is_up
    then bit_or exp_up (bit_and raised 0x007fffff)
    else bit_or exp (bit_and fraction 0x007fffff)

unfoldable pub float_unsigned2float : ℕ → Option ℕ
float_unsigned2float u =
    if u == 0
    then some u
    else elim (skip_zeros 31 u) [ none ↦ none | some i ↦ some (pack_float u i) ]
