-- ===== src/Base/First.antt =====
-- The first index of a range that passes a test: what a scan with an early return looks for.
use Prim.Native.Nat.{ℕ, ◌+◌, ◌≤◌, ◌<◌}
use mathlib.Core.Path.{◌≡◌}
use mathlib.Core.Logic.{◌⊎◌, inl, inr}
use mathlib.Core.Bool.{Bool, true, false}
use mathlib.Core.Option.{Option, none, some}
use native.Mathlib.Omega.{arith}

-- `j` is the first index of `[lo, hi)` at which `p` is true; `none` says that there is none.
abbrev pub IsFirst : (ℕ → Bool) → (lo hi : ℕ) → Option ℕ → Type 0
IsFirst p lo hi none = (k : ℕ) → lo ≤ k → k < hi → p k ≡ false
IsFirst p lo hi (some j) =
    (lo ≤ j) × (j < hi) × (p j ≡ true) × ((k : ℕ) → lo ≤ k → k < j → p k ≡ false)

pub IsFirst-here : (p : ℕ → Bool) (lo hi : ℕ) → lo < hi → p lo ≡ true → IsFirst p lo hi (some lo)
IsFirst-here p lo hi h t = (omega arith, h, t, λ k a b. absurd (omega arith))

pub IsFirst-empty : (p : ℕ → Bool) (lo hi : ℕ) → hi ≤ lo → IsFirst p lo hi none
IsFirst-empty p lo hi h k a b = absurd (omega arith)

at_or_after : (lo k : ℕ) → lo ≤ k → (lo ≡ k) ⊎ (lo + 1 ≤ k)
at_or_after lo k h = grind arith

pub IsFirst-later :
    (p : ℕ → Bool) (lo hi : ℕ) (r : Option ℕ)
    → p lo ≡ false
    → IsFirst p (lo + 1) hi r
    → IsFirst p lo hi r
IsFirst-later p lo hi none f h =
    λ k a b. elim (at_or_after lo k a) [ inl e ↦ rw (← e) f | inr l ↦ h k l b ]
IsFirst-later p lo hi (some j) f h = (
  omega arith,
  h.1,
  h.2,
  λ k a b. elim (at_or_after lo k a) [ inl e ↦ rw (← e) f | inr l ↦ h.3 k l b ],
)
