-- ===== src/Base/Bits/Masks.antt =====
-- The masks of single low bits, of the bits above them, and words put together from both.
use Prim.Native.Nat.{bit_or-bitwise}
use Prim.Native.Nat.{ℕ, ◌+◌, ◌-◌, ◌*◌, ◌/◌, ◌%◌, ◌^◌, ◌<◌, bit_and, bit_or}
use mathlib.Core.Path.{◌≡◌, refl}
use native.Mathlib.Omega.{arith}
use systems_labs.Base.Bits.{and_digit, or_digit, bit_and_mask, bit_or-zero}

pub bit_and-one : (x : ℕ) → bit_and x 1 ≡ x % 2
bit_and-one x = bit_and_mask 1 x

pub bit_and-two : (x : ℕ) → bit_and x 2 ≡ x / 2 % 2 * 2
bit_and-two x = omega (arith, and_digit x 2, bit_and-one (x / 2))

pub bit_and-four : (x : ℕ) → bit_and x 4 ≡ x / 4 % 2 * 4
bit_and-four x = omega (arith, and_digit x 4, bit_and-two (x / 2))

pub bit_and-seven : (x : ℕ) → bit_and x 7 ≡ x % 8
bit_and-seven x = bit_and_mask 3 x

-- `x & ~7`, `x & ~0xF` and `x & ~2`
pub bit_and-above_seven : (x : ℕ) → x < 2 ^ 64 → bit_and x (2 ^ 64 - 8) ≡ x / 8 * 8
bit_and-above_seven x h = omega (
  arith,
  and_digit x (2 ^ 64 - 8),
  and_digit (x / 2) (2 ^ 63 - 4),
  and_digit (x / 2 / 2) (2 ^ 62 - 2),
  bit_and_mask 61 (x / 2 / 2 / 2),
)

pub bit_and-above_fifteen : (x : ℕ) → x < 2 ^ 64 → bit_and x (2 ^ 64 - 16) ≡ x / 16 * 16
bit_and-above_fifteen x h = omega (
  arith,
  and_digit x (2 ^ 64 - 16),
  and_digit (x / 2) (2 ^ 63 - 8),
  and_digit (x / 2 / 2) (2 ^ 62 - 4),
  and_digit (x / 2 / 2 / 2) (2 ^ 61 - 2),
  bit_and_mask 60 (x / 2 / 2 / 2 / 2),
)

pub bit_and-clear_two : (x : ℕ) → x < 2 ^ 64 → bit_and x (2 ^ 64 - 3) ≡ x - x / 2 % 2 * 2
bit_and-clear_two x h =
    omega
      (arith, and_digit x (2 ^ 64 - 3), and_digit (x / 2) (2 ^ 63 - 2), bit_and_mask 62 (x / 2 / 2))

pub bit_or-one : (x : ℕ) → bit_or x 1 ≡ x + (1 - x % 2)
bit_or-one x = omega (arith, or_digit x 1, bit_or-zero (x / 2))

pub bit_or-two : (x : ℕ) → bit_or x 2 ≡ x + 2 * (1 - x / 2 % 2)
bit_or-two x = omega (arith, or_digit x 2, bit_or-one (x / 2))

pub bit_or-four : (x : ℕ) → bit_or x 4 ≡ x + 4 * (1 - x / 4 % 2)
bit_or-four x = omega (arith, or_digit x 4, bit_or-two (x / 2))

pub bit_or-zero_left : (x : ℕ) → bit_or 0 x ≡ x
bit_or-zero_left x = simp bit_or-bitwise refl

-- `r | p` of three low bits and a multiple of eight.
pub bit_or-low : (r p : ℕ) → r < 8 → p % 8 ≡ 0 → bit_or r p ≡ p + r
bit_or-low r p hr hp =
    let none_left : r / 2 / 2 / 2 ≡ 0 = omega arith in
    rw
      (
        or_digit r p,
        or_digit (r / 2) (p / 2),
        or_digit (r / 2 / 2) (p / 2 / 2),
        none_left,
        bit_or-zero_left (p / 2 / 2 / 2),
      )
      (omega arith)
