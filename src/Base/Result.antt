-- ===== src/Base/Result.antt =====
-- The result of a C call: a value, or the way in which the call does not return.
use Prim.Native.Nat.{ℕ, zero, suc, ◌<◌}
use mathlib.Core.Path.{◌≡◌, refl}
use mathlib.Core.Bool.{Bool, true, false}
use mathlib.Core.Option.{Option, none, some}
use mathlib.Core.List.{List, [], ◌∷◌}
use native.Mathlib.Omega.{arith}
use systems_labs.Base.Tests.{ltb, lt→ltb, if◌then◌else◌}
use systems_labs.Base.Lists.{length, get_elem?, get_or, set}

-- `out_of_bounds` and `null_pointer` are accesses that C leaves undefined, `dangling` one through
-- a pointer to freed or never allocated memory; `aborted` is a call of `abort` or a failed
-- assertion, `exited` a call of `exit`.
pub data Fault : Type 0 where
  out_of_bounds null_pointer dangling aborted exited out_of_fuel : Fault

pub data Run {ℓ} (A : Type ℓ) : Type ℓ where
  ok : A → Run A
  fail : Fault → Run A

infixl 5 ◌>>=◌ ◌>>◌
-- A statement after another: a fault ends the function.
abbrev pub ◌>>=◌ {ℓ κ} : {A : Type ℓ} {B : Type κ} → Run A → (A → Run B) → Run B
fail why >>= next = fail why
ok value >>= next = next value

abbrev pub ◌>>◌ {κ} : {B : Type κ} → Run (Unit {0}) → Run B → Run B
◌>>◌ first next = first >>= λ done. next

-- `assert (e)`, and a test before `abort ()`.
abbrev pub assert : Bool → Run (Unit {0})
assert true = ok tt
assert false = fail aborted

-- The value that a pointer, an index or a search may fail to give.
abbrev pub checked {ℓ} : {A : Type ℓ} → Fault → Option A → Run A
checked why (some value) = ok value
checked why none = fail why

module _ {ℓ} {A : Type ℓ} where
  -- `a[i]` and `a[i] = v` of an array; an index out of range is undefined.
  unfoldable pub load : List A → ℕ → Run A
  load xs i = checked out_of_bounds (get_elem? xs i)

  unfoldable pub store : List A → ℕ → A → Run (List A)
  store xs i v = if ltb i (length xs) then ok (set xs i v) else fail out_of_bounds

module _ {ℓ} {A : Type ℓ} where
  pub load-ok : (xs : List A) (i : ℕ) (d : A) → i < length xs → load xs i ≡ ok (get_or xs i d)
  unfolding load
  load-ok [] i d h = absurd (omega arith)
  load-ok (x ∷ xs) zero d h = refl
  load-ok (x ∷ xs) (suc i) d h = load-ok xs i d (omega arith)

  pub store-ok : (xs : List A) (i : ℕ) (v : A) → i < length xs → store xs i v ≡ ok (set xs i v)
  unfolding store
  store-ok xs i v h = rw (lt→ltb _ _ h)

  pub load-some : (xs : List A) (i : ℕ) {x : A} → get_elem? xs i ≡ some x → load xs i ≡ ok x
  unfolding load
  load-some xs i e = rw e

-- A sequence that returns is a first statement that returns and a second that does.
pub bind-ok {ℓ κ} :
    {A : Type ℓ} {B : Type κ} (r : Run A) {next : A → Run B} {v : B}
    → (r >>= next) ≡ ok v
    → (x : A) × (r ≡ ok x) × (next x ≡ ok v)
bind-ok (ok x) e = (x, refl, e)
bind-ok (fail why) e = absurd (cc)
