-- ===== src/Base/Bits/Xor.antt =====
-- `^`: when it is zero, and what it does to a single bit.
use Prim.Native.Nat.{differ, bit_xor-bitwise}
use Prim.Native.Nat.{ℕ, zero, suc, ◌+◌, ◌-◌, ◌*◌, ◌/◌, ◌%◌, ◌^◌, ◌≤◌, ◌<◌, bit_xor}
use mathlib.Core.Path.{◌≡◌, refl, sym, ap, ◌∙◌}
use systems_labs.Base.Tests.{Bool-cases, ltb, ltb→lt, ◌==◌, if◌then◌else◌}
use native.Mathlib.Omega.{arith}
use native.Mathlib.Nat.{div-eq_of_lt, pow-suc, div-div-eq-div-mul}
use systems_labs.Base.Bits.{xor_digit}
use mathlib.Core.Logic.{◌≢◌, inl, inr}

-- `x ^ y` is zero exactly when they are equal.
differ_zero : (a b : ℕ) → a < 2 → b < 2 → differ a b ≡ 0 → a ≡ b
differ_zero zero b ha hb e = omega arith
differ_zero (suc zero) zero ha hb e = absurd (omega arith)
differ_zero (suc zero) (suc zero) ha hb e = refl
differ_zero (suc zero) (suc (suc b)) ha hb e = absurd (omega arith)
differ_zero (suc (suc a)) b ha hb e = absurd (omega arith)

xor-zero_left : (y : ℕ) → bit_xor 0 y ≡ y
xor-zero_left y = simp bit_xor-bitwise refl

pub xor-zero_below : (n x y : ℕ) → x < n → bit_xor x y ≡ 0 → x ≡ y
xor-zero_below zero x y h e = absurd (omega arith)
xor-zero_below (suc n) zero y h e = sym e ∙ xor-zero_left y
xor-zero_below (suc n) (suc x) y h e =
    let digits = rw e at (xor_digit (suc x) y) in
    let halves = xor-zero_below n (suc x / 2) (y / 2) (omega arith) (omega arith) in
    omega (arith, halves, differ_zero (suc x % 2) (y % 2) (omega arith) (omega arith) (omega arith))

pub eq-of_xor : (x y : ℕ) → bit_xor x y ≡ 0 → x ≡ y
eq-of_xor x y e = xor-zero_below (suc x) x y (omega arith) e

differ_self : (a : ℕ) → differ a a ≡ 0
differ_self zero = refl
differ_self (suc a) = differ_self a

xor_self_below : (n x : ℕ) → x < n → bit_xor x x ≡ 0
xor_self_below zero x h = absurd (omega arith)
xor_self_below (suc n) zero h = refl
xor_self_below (suc n) (suc x) h = omega (
  arith,
  xor_digit (suc x) (suc x),
  xor_self_below n (suc x / 2) (omega arith),
  differ_self (suc x % 2),
)

pub xor_self : (x : ℕ) → bit_xor x x ≡ 0
xor_self x = xor_self_below (suc x) x (omega arith)

differ_right : (a : ℕ) → differ a 0 ≡ a
differ_right zero = refl
differ_right (suc a) = refl

xor-zero_below_right : (n x : ℕ) → x < n → bit_xor x 0 ≡ x
xor-zero_below_right zero x h = absurd (omega arith)
xor-zero_below_right (suc n) zero h = xor-zero_left 0
xor-zero_below_right (suc n) (suc x) h =
    let rest = xor-zero_below_right n (suc x / 2) (omega arith) in
    omega (arith, xor_digit (suc x) 0, rest, differ_right (suc x % 2))

xor-zero_right : (x : ℕ) → bit_xor x 0 ≡ x
xor-zero_right x = xor-zero_below_right (suc x) x (omega arith)

differ_one : (a : ℕ) → a < 2 → differ a 1 ≡ 1 - a
differ_one zero h = refl
differ_one (suc zero) h = refl
differ_one (suc (suc a)) h = absurd (omega arith)

-- A number with its bit at place `k` set is at least `2 ^ k`.
set_bit : (k x : ℕ) → x / 2 ^ k % 2 ≢ 0 → 2 ^ k ≤ x
set_bit k x h = elim (Bool-cases (ltb x (2 ^ k))) [
  | inl small ↦
      let none_set = div-eq_of_lt (ltb→lt x (2 ^ k) small) in absurd (h (omega (arith, none_set)))
  | inr large ↦ ground (arith, large)
]

-- `x ^ (1 << k)` flips the bit at place `k`.
pub xor_flip : (k x : ℕ) → bit_xor x (2 ^ k) ≡ (if x / 2 ^ k % 2 == 0 then x + 2 ^ k else x - 2 ^ k)
xor_flip zero x =
    ground (arith, xor_digit x 1, xor-zero_right (x / 2), differ_one (x % 2) (omega arith))
xor_flip (suc k) x =
    let halved : x / 2 ^ suc k ≡ x / 2 / 2 ^ k =
      ap (λ (t : ℕ). x / t) (pow-suc 2 k ∙ omega arith) ∙ sym (div-div-eq-div-mul x 2 (2 ^ k)) in
    let half : 2 ^ k * 2 / 2 ≡ 2 ^ k = omega arith in
    let even : 2 ^ k * 2 % 2 ≡ 0 = omega arith in
    let digits = rw (half, even) at (xor_digit x (2 ^ k * 2)) in
    rw (halved, pow-suc 2 k)
      (ground (arith, digits, xor_flip k (x / 2), differ_right (x % 2), set_bit k (x / 2)))
