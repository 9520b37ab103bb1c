-- ===== src/Base/Bits.antt =====
-- Laws of the native bit operations at variables: a mask of low bits is a remainder, and `|` of
-- disjoint fields is a sum.
mod Step
pub mod Masks
pub mod Digits
pub mod Xor
pub use Step.{and_digit, or_digit, xor_digit}
use Prim.Native.Nat.{ℕ, zero, suc, ◌+◌, ◌-◌, ◌*◌, ◌/◌, ◌%◌, ◌^◌, ◌<◌, bit_and, bit_or}
use mathlib.Core.Path.{◌≡◌, refl, ap, ◌∙◌}
use native.Mathlib.Omega.{arith}
use native.Mathlib.Nat.{
  pow-suc, one-le-pow, mod-lt, div-add-mod, mul-add-mod_self_left, mod-eq_of_lt,
}

-- `n` bounds the argument: each step halves it.
and-zero_below : (n x : ℕ) → x < n → bit_and x 0 ≡ 0
and-zero_below zero x h = absurd (omega arith)
and-zero_below (suc n) zero h = refl
and-zero_below (suc n) (suc x) h =
    omega (arith, and_digit (suc x) 0, and-zero_below n (suc x / 2) (omega arith))

pub bit_and-zero : (x : ℕ) → bit_and x 0 ≡ 0
bit_and-zero x = and-zero_below (suc x) x (omega arith)

or-zero_below : (n x : ℕ) → x < n → bit_or x 0 ≡ x
or-zero_below zero x h = absurd (omega arith)
or-zero_below (suc n) zero h = refl
or-zero_below (suc n) (suc x) h =
    omega (arith, or_digit (suc x) 0, or-zero_below n (suc x / 2) (omega arith))

pub bit_or-zero : (x : ℕ) → bit_or x 0 ≡ x
bit_or-zero x = or-zero_below (suc x) x (omega arith)

-- A remainder by `2 * m`, digit by digit.
pub mod-double : (x m : ℕ) → 0 < m → x % (m * 2) ≡ x / 2 % m * 2 + x % 2
mod-double x m pos =
    let half = x / 2 in
    let split : x ≡ m * 2 * (half / m) + (half % m * 2 + x % 2) =
      omega (arith, ap (λ (t : ℕ). t * 2) (div-add-mod half m)) in
    let small : half % m * 2 + x % 2 < m * 2 = omega (arith, mod-lt half pos) in
    ap (λ (t : ℕ). t % (m * 2)) split
    ∙ mul-add-mod_self_left (m * 2) (half / m) (half % m * 2 + x % 2)
    ∙ mod-eq_of_lt small

mask_digits : (m : ℕ) → 0 < m → ((m * 2 - 1) / 2 ≡ m - 1) × ((m * 2 - 1) % 2 ≡ 1)
mask_digits m pos = omega arith

-- A mask of `k` low bits is the remainder by `2 ^ k`.
pub bit_and_mask : (k x : ℕ) → bit_and x (2 ^ k - 1) ≡ x % 2 ^ k
bit_and_mask zero x = omega (arith, bit_and-zero x)
bit_and_mask (suc k) x =
    let pos = one-le-pow k 2 (omega arith) in
    let digits = mask_digits (2 ^ k) pos in
    rw
      (
        pow-suc 2 k,
        and_digit x (2 ^ k * 2 - 1),
        digits.0,
        digits.1,
        bit_and_mask k (x / 2),
        mod-double x (2 ^ k) pos,
      )
      (omega arith)

-- `(q << k) | r` is a sum when `r` fits in the `k` low bits.
pub bit_or_fields : (k q r : ℕ) → r < 2 ^ k → bit_or (q * 2 ^ k) r ≡ q * 2 ^ k + r
bit_or_fields zero q r h =
    let none_left : r ≡ 0 = omega arith in
    let whole : q * 2 ^ 0 ≡ q = omega arith in rw (none_left, whole, bit_or-zero q) (omega arith)
bit_or_fields (suc k) q r h =
    let fits : r / 2 < 2 ^ k = omega (arith, pow-suc 2 k) in
    let regroup : q * (2 ^ k * 2) ≡ q * 2 ^ k * 2 = grind arith in
    let halved : q * 2 ^ k * 2 / 2 ≡ q * 2 ^ k = omega arith in
    let even : q * 2 ^ k * 2 % 2 ≡ 0 = omega arith in
    rw
      (
        pow-suc 2 k,
        regroup,
        or_digit (q * 2 ^ k * 2) r,
        halved,
        even,
        bit_or_fields k q (r / 2) fits,
      )
      (omega arith)
