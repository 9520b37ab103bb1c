-- ===== src/Base/Bits/Step.antt =====
-- One binary digit of `&`, `|` and `^`, at variables. The native operations stand for `bitwise`,
-- which recurs on its first argument with that argument as fuel.
use Prim.Native.Nat.{
  digits, bitwise, min, max, differ, bit_and-bitwise, bit_or-bitwise, bit_xor-bitwise,
}
use Prim.Native.Nat.{ℕ, zero, suc, ◌+◌, ◌*◌, ◌/◌, ◌%◌, ◌≤◌, bit_and, bit_or, bit_xor}
use mathlib.Core.Path.{◌≡◌, refl}
use native.Mathlib.Omega.{arith}

-- More fuel than the first argument makes no difference.
more_fuel :
    (rest : ℕ → ℕ) (f : ℕ → ℕ → ℕ) (j k x : ℕ)
    → x ≤ j
    → x ≤ k
    → (y : ℕ) → digits rest f j x y ≡ digits rest f k x y
more_fuel rest f zero zero x hj hk y = refl
more_fuel rest f zero (suc k) zero hj hk y = refl
more_fuel rest f (suc j) zero zero hj hk y = refl
more_fuel rest f (suc j) (suc k) zero hj hk y = refl
more_fuel rest f zero (suc k) (suc x) hj hk y = absurd (omega arith)
more_fuel rest f (suc j) zero (suc x) hj hk y = absurd (omega arith)
more_fuel rest f (suc j) (suc k) (suc x) hj hk y =
    omega (arith, more_fuel rest f j k (suc x / 2) (omega arith) (omega arith) (y / 2))

halve :
    (rest : ℕ → ℕ) (f : ℕ → ℕ → ℕ) (x y : ℕ)
    → bitwise rest f (suc x) y ≡ bitwise rest f (suc x / 2) (y / 2) * 2 + f (suc x % 2) (y % 2)
halve rest f x y =
    omega (arith, more_fuel rest f x (suc x / 2) (suc x / 2) (omega arith) (omega arith) (y / 2))

pub and_digit : (x y : ℕ) → bit_and x y ≡ bit_and (x / 2) (y / 2) * 2 + min (x % 2) (y % 2)
and_digit zero y = simp bit_and-bitwise (omega arith)
and_digit (suc x) y = simp bit_and-bitwise (halve (λ b. 0) min x y)

pub or_digit : (x y : ℕ) → bit_or x y ≡ bit_or (x / 2) (y / 2) * 2 + max (x % 2) (y % 2)
or_digit zero y = simp bit_or-bitwise (omega arith)
or_digit (suc x) y = simp bit_or-bitwise (halve (λ b. b) max x y)

pub xor_digit : (x y : ℕ) → bit_xor x y ≡ bit_xor (x / 2) (y / 2) * 2 + differ (x % 2) (y % 2)
xor_digit zero y = simp bit_xor-bitwise (omega arith)
xor_digit (suc x) y = simp bit_xor-bitwise (halve (λ b. b) differ x y)
