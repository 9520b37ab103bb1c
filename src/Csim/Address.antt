-- ===== src/Csim/Address.antt =====
-- The address arithmetic of cache/csim.c: set index, tag and line size.
use native.Mathlib.Nat.{one-le-pow, pow-le-pow_right, mod-lt}
use systems_labs.Base.{
  ℕ, ◌-◌, ◌%◌, ◌^◌, ◌≤◌, ◌<◌, ◌≡◌, arith, u32_mod, u64_mod, not32, shl32, sar64, sign_extend,
}
use systems_labs.Base.Bits.{bit_and_mask}
use systems_labs.Csim.{get_set_num, line_bytes}

pow_bounds : (k : ℕ) → k < 32 → (1 ≤ 2 ^ k) × (2 ^ k ≤ 2 ^ 31)
pow_bounds k h =
    (one-le-pow k 2 (omega arith), pow-le-pow_right (omega arith) {j = 31} (omega arith))

-- `~(-1 << setBits)`, converted to `unsigned long`, has the `setBits` low bits set.
low_mask : (k : ℕ) → k < 32 → sign_extend (not32 (shl32 (u32_mod - 1) k)) ≡ 2 ^ k - 1
low_mask k h = ground (arith, pow_bounds k h)

-- With fewer than 32 set bits, the mask expression of getSetNum takes the address, shifted right
-- by the block bits, modulo the number of sets.
pub get_set_num-mod :
    (address set_bits block_bits : ℕ)
    → set_bits < 32
    → get_set_num address set_bits block_bits ≡ sar64 address block_bits % 2 ^ set_bits
unfolding get_set_num
get_set_num-mod address set_bits block_bits h =
    rw (low_mask set_bits h) (bit_and_mask set_bits (sar64 address block_bits))

pub get_set_num-lt :
    (address set_bits block_bits : ℕ)
    → set_bits < 32
    → get_set_num address set_bits block_bits < 2 ^ set_bits
get_set_num-lt address set_bits block_bits h =
    rw (get_set_num-mod address set_bits block_bits h)
      (mod-lt (sar64 address block_bits) (one-le-pow set_bits 2 (omega arith)))

pub line_bytes-le : (k : ℕ) → line_bytes k ≤ u64_mod
unfolding line_bytes
line_bytes-le k = ground arith

-- With fewer than 31 block bits, `1 << blockBits` is the size of a line.
pub line_bytes-pow : (k : ℕ) → k < 31 → line_bytes k ≡ 2 ^ k
unfolding line_bytes
line_bytes-pow k h =
    ground
      (arith, let b : 2 ^ k ≤ 2 ^ 30 = pow-le-pow_right (omega arith) {j = 30} (omega arith) in b)

pub num_sets : (k : ℕ) → k < 32 → shl32 1 k ≡ 2 ^ k
num_sets k h = ground (arith, pow_bounds k h)
