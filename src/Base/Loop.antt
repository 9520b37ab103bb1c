-- ===== src/Base/Loop.antt =====
-- A counted loop, `for (i = lo; i < hi; i++)`, over a state, with its rule.
use Prim.Native.Nat.{ℕ, zero, suc, ◌+◌, ◌<◌}
use mathlib.Core.Path.{◌≡◌, refl, subst}
use native.Mathlib.Omega.{arith}
use systems_labs.Base.Result.{Run, ok, ◌>>=◌, bind-ok}

-- `left` rounds from index `i` on.
unfoldable pub for_range {ℓ} : {S : Type ℓ} → (left i : ℕ) → (ℕ → S → Run S) → S → Run S
for_range zero i body s = ok s
for_range (suc left) i body s = body i s >>= for_range left (i + 1) body

-- An invariant that each round carries to the next index holds at the end, and no round faults.
pub for_range-inv {ℓ κ} :
    {S : Type ℓ} (P : ℕ → S → Type κ) (body : ℕ → S → Run S) (hi : ℕ)
    → ((i : ℕ) (s : S) → i < hi → P i s → (t : S) × (body i s ≡ ok t) × P (i + 1) t)
    → (left i : ℕ) (s : S) → i + left ≡ hi
    → P i s
    → (t : S) × (for_range left i body s ≡ ok t) × P hi t
unfolding for_range
for_range-inv P body hi keep zero i s e p = let same : hi ≡ i = omega arith in (s, refl, rw same p)
for_range-inv P body hi keep (suc left) i s e p =
    let (t, done, q) = keep i s (omega arith) p in
    rw done (for_range-inv P body hi keep left (i + 1) t (omega arith) q)

-- A loop that does round by round what another does, which does not fault, ends as it does.
pub for_range-simulation {ℓ κ μ} :
    {S : Type ℓ} {T : Type κ} (R : S → T → Type μ) (plain : ℕ → S → Run S) (body : ℕ → T → Run T)
    → ((i : ℕ) (s s' : S) (t : T)
        → R s t
        → plain i s ≡ ok s'
        → (t' : T) × (body i t ≡ ok t') × R s' t')
    → (left i : ℕ) (s s' : S) (t : T) → R s t
    → for_range left i plain s ≡ ok s'
    → (t' : T) × (for_range left i body t ≡ ok t') × R s' t'
unfolding for_range
for_range-simulation R plain body step zero i s s' t r e = (t, refl, subst (λ x. R x t) (cc) r)
for_range-simulation R plain body step (suc left) i s s' t r e =
    let (s1, first, rest) = bind-ok (plain i s) e in
    let (t1, done, r1) = step i s s1 t r first in
    rw done (for_range-simulation R plain body step left (i + 1) s1 s' t1 r1 rest)
