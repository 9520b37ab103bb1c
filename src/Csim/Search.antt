-- ===== src/Csim/Search.antt =====
-- The three scans of cache/csim.c: for a free line, for the least recently used line and for a tag.
-- Each ends within the arrays, and its result is the first index with what it looks for.
use systems_labs.Base.{
  ℕ, zero, suc, ◌+◌, ◌≤◌, ◌<◌, ◌≡◌, refl, inl, inr, Bool, true, Option, none, some, List, ok, arith,
  ◌&&◌, ◌==◌, if◌then◌else◌, length, get_or, load-ok, slt32, rank32, Bool-cases, not,
}
use systems_labs.Base.First.{IsFirst, IsFirst-here, IsFirst-empty, IsFirst-later}
use systems_labs.Csim.{
  CacheSet, free_space_from, get_free_space, least_recent_from, get_least_recently_used,
  find_line_from,
}

abbrev pub is_free : List Bool → ℕ → Bool
is_free valid i = not (get_or valid i true)

free_space_from-IsFirst :
    (valid : List Bool) (left i hi : ℕ)
    → i + left ≡ hi
    → hi ≤ length valid
    → (r : Option ℕ) × (free_space_from valid left i ≡ ok r) × IsFirst (is_free valid) i hi r
unfolding free_space_from
free_space_from-IsFirst valid zero i hi e h = (none, refl, IsFirst-empty _ i hi (omega arith))
free_space_from-IsFirst valid (suc left) i hi e h =
    let rest = free_space_from-IsFirst valid left (i + 1) hi (omega arith) h in
    rw (load-ok valid i true (omega arith)) (elim (Bool-cases (is_free valid i)) [
      | inl t ↦ (some i, rw t, IsFirst-here (is_free valid) i hi (omega arith) t)
      | inr f ↦ (rest.0, rw f rest.1, IsFirst-later (is_free valid) i hi rest.0 f rest.2)
    ])

-- `getFreeSpace` returns the first line that is not valid, and -1 exactly if all are.
pub get_free_space-IsFirst :
    (s : CacheSet) (associativity : ℕ)
    → associativity ≤ length s.valid
    → (r : Option ℕ) × (get_free_space s associativity ≡ ok r)
      × IsFirst (is_free s.valid) 0 associativity r
unfolding get_free_space
get_free_space-IsFirst s n h = free_space_from-IsFirst s.valid n 0 n (omega arith) h

abbrev pub is_line : CacheSet → ℕ → ℕ → Bool
is_line s tag i = get_or s.valid i true && (get_or s.tags i 0 == tag)

-- The scan of `executeInstruction` finds the first valid line with the tag, if there is one.
pub find_line_from-IsFirst :
    (s : CacheSet) (tag left i hi : ℕ)
    → i + left ≡ hi
    → hi ≤ length s.valid
    → hi ≤ length s.tags
    → (r : Option ℕ) × (find_line_from s tag left i ≡ ok r) × IsFirst (is_line s tag) i hi r
unfolding find_line_from
find_line_from-IsFirst s tag zero i hi e hv ht = (none, refl, IsFirst-empty _ i hi (omega arith))
find_line_from-IsFirst s tag (suc left) i hi e hv ht =
    let rest = find_line_from-IsFirst s tag left (i + 1) hi (omega arith) hv ht in
    rw (load-ok s.valid i true (omega arith), load-ok s.tags i 0 (omega arith))
      (elim (Bool-cases (is_line s tag i)) [
        | inl t ↦ (some i, ground arith, IsFirst-here (is_line s tag) i hi (omega arith) t)
        | inr f ↦
            (rest.0, ground (arith, rest.1), IsFirst-later (is_line s tag) i hi rest.0 f rest.2)
      ])

-- Among the first `n` lines, `r` was used last the longest ago, and no line before it as long ago.
abbrev pub IsLeast : List ℕ → (n r : ℕ) → Type 0
IsLeast xs n r =
    ((k : ℕ) → k < n → rank32 (get_or xs r 0) ≤ rank32 (get_or xs k 0))
    × ((k : ℕ) → k < r → rank32 (get_or xs r 0) < rank32 (get_or xs k 0))

IsLeast-next :
    (xs : List ℕ) (i min : ℕ)
    → min ≤ i
    → IsLeast xs i min
    → IsLeast xs (i + 1) (if slt32 (get_or xs i 0) (get_or xs min 0) then i else min)
IsLeast-next xs i min b h = elim (Bool-cases (slt32 (get_or xs i 0) (get_or xs min 0))) [
  | inl t ↦ rw t (λ k a. ground (arith, h.0 k), λ k a. ground (arith, h.0 k))
  | inr f ↦ rw f (λ k a. ground (arith, h.0 k), λ k a. ground (arith, h.1 k))
]

least_recent_from-IsLeast :
    (xs : List ℕ) (left i min hi : ℕ)
    → i + left ≡ hi
    → hi ≤ length xs
    → min < hi
    → min ≤ i
    → IsLeast xs i min
    → (r : ℕ) × (least_recent_from xs left i min ≡ ok r) × (r < hi) × IsLeast xs hi r
unfolding least_recent_from
least_recent_from-IsLeast xs zero i min hi e h m b least =
    let same : hi ≡ i = omega arith in (min, refl, m, rw same least)
least_recent_from-IsLeast xs (suc left) i min hi e h m b least =
    rw (load-ok xs i 0 (omega arith), load-ok xs min 0 (omega arith))
      (least_recent_from-IsLeast xs left (i + 1)
        (if slt32 (get_or xs i 0) (get_or xs min 0) then i else min) hi (omega arith) h
        (ground arith) (ground arith) (IsLeast-next xs i min b least))

-- For a positive number of lines within the array of times, getLeastRecentlyUsed stays in the
-- array and returns a line below that number whose time, as a signed int, is at most that of each
-- line and less than that of each line before it.
pub get_least_recently_used-IsLeast :
    (xs : List ℕ) (associativity : ℕ)
    → 0 < associativity
    → associativity ≤ length xs
    → (r : ℕ) × (get_least_recently_used xs associativity ≡ ok r)
      × (r < associativity)
      × IsLeast xs associativity r
unfolding get_least_recently_used
get_least_recently_used-IsLeast xs n pos h =
    least_recent_from-IsLeast xs n 0 0 n (omega arith) h pos (omega arith)
      (λ k a. absurd (omega arith), λ k a. absurd (omega arith))
