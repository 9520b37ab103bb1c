-- ===== src/Csim/Sets.antt =====
-- What every access keeps of a set of cache/csim.c: sizes, one line at most for each tag, no dirty
-- bytes in a line that is not valid; and the dirty bytes that it accounts for.
use systems_labs.Base.{
  ℕ, zero, suc, ◌+◌, ◌<◌, ◌≡◌, ◌≢◌, ◌⊎◌, inl, inr, Bool, true, false, List, [], ◌∷◌, arith, length,
  get_or, set, length-set, get_or-set_self, get_or-set_ne,
}
use mathlib.Core.Path.{subst}
use native.Mathlib.Decide.{ℕ_discrete}
use systems_labs.Csim.{CacheSet}
use systems_labs.Csim.Search.{is_line}
use systems_labs.Csim.Access.{HasLines, written, is_dirty}

abbrev pub of_bool : Bool → ℕ
of_bool true = 1
of_bool false = 0

abbrev pub count_true : List Bool → ℕ
count_true [] = 0
count_true (b ∷ bs) = of_bool b + count_true bs

pub count_true-set :
    (bs : List Bool) (i : ℕ) (b : Bool)
    → i < length bs
    → count_true (set bs i b) + of_bool (get_or bs i false) ≡ count_true bs + of_bool b
count_true-set [] i b h = absurd (omega arith)
count_true-set (c ∷ bs) zero b h = omega arith
count_true-set (c ∷ bs) (suc i) b h = omega (arith, count_true-set bs i b (omega arith))

abbrev pub dirty_lines : CacheSet → ℕ
dirty_lines s = count_true s.dirty

pub record IsCacheSet (n : ℕ) (s : CacheSet) : Type 0 where
  pub lines : HasLines n s
  pub clean : (i : ℕ) → i < n → get_or s.valid i true ≡ false → is_dirty s i ≡ false
  pub distinct :
      (tag i j : ℕ) → i < n → j < n → is_line s tag i ≡ true → is_line s tag j ≡ true → i ≡ j

module _ {n : ℕ} (s : CacheSet) (i time tag : ℕ) (d : Bool) (lines : HasLines n s)
    (below : i < n) where
  pub written-HasLines : HasLines n (written s i time tag d)
  written-HasLines = record {
    tags = omega (arith, length-set s.tags i tag, lines.tags);
    dirty = omega (arith, length-set s.dirty i d, lines.dirty);
    valid = omega (arith, length-set s.valid i true, lines.valid);
    last_modified = omega (arith, length-set s.last_modified i time, lines.last_modified);
  }

  pub is_line-written_self : is_line (written s i time tag d) tag i ≡ true
  is_line-written_self = ground (
    arith,
    get_or-set_self s.tags i 0 tag (omega (arith, lines.tags)),
    get_or-set_self s.valid i true true (omega (arith, lines.valid)),
  )

  pub is_line-written_other : (t : ℕ) → t ≢ tag → is_line (written s i time tag d) t i ≡ false
  is_line-written_other t ne = ground (
    arith,
    get_or-set_self s.tags i 0 tag (omega (arith, lines.tags)),
    get_or-set_self s.valid i true true (omega (arith, lines.valid)),
  )

  pub is_line-written_ne : (t j : ℕ) → i ≢ j → is_line (written s i time tag d) t j ≡ is_line s t j
  is_line-written_ne t j ne =
      rw (get_or-set_ne s.tags i j 0 tag ne, get_or-set_ne s.valid i j true true ne)

  pub line_of_written :
      (t j : ℕ)
      → is_line (written s i time tag d) t j ≡ true
      → ((i ≡ j) × (t ≡ tag)) ⊎ ((i ≢ j) × (is_line s t j ≡ true))
  line_of_written t j h = elim (ℕ_discrete i j) [
    | yes e ↦ elim (ℕ_discrete t tag) [
      | yes same ↦ inl (e, same)
      | no other ↦
          let gone : is_line (written s i time tag d) t j ≡ false =
            subst (λ k. is_line (written s i time tag d) t k ≡ false) e
              (is_line-written_other t other) in
          cc
    ]
    | no ne ↦ inr (ne, rw (← is_line-written_ne t j ne) h)
  ]

  clean_after :
      IsCacheSet n s
      → (j : ℕ) → j < n
      → get_or (set s.valid i true) j true ≡ false
      → get_or (set s.dirty i d) j false ≡ false
  clean_after keeps j b f = elim (ℕ_discrete i j) [
    | yes e ↦
        let valid = get_or-set_self s.valid i true true (omega (arith, lines.valid)) in
        let valid_j = subst (λ (k : ℕ). get_or (set s.valid i true) k true ≡ true) e valid in cc
    | no ne ↦
        let kept : get_or s.valid j true ≡ false =
          rw (← get_or-set_ne s.valid i j true true ne) f in
        rw (get_or-set_ne s.dirty i j false d ne) (keeps.clean j b kept)
  ]

  -- Line `i` is the only one that may have had the tag before.
  pub written-IsCacheSet :
      IsCacheSet n s
      → ((j : ℕ) → j < n → is_line s tag j ≡ true → i ≡ j)
      → IsCacheSet n (written s i time tag d)
  written-IsCacheSet keeps only = record {
    lines = written-HasLines;
    clean = clean_after keeps;
    distinct = λ t j k bj bk lj lk. elim (line_of_written t j lj) [
      | inl (ej, tj) ↦ elim (line_of_written t k lk) [
        | inl (ek, tk) ↦ cc
        | inr (ne, old) ↦ cc (only k bk (rw (← tj) old))
      ]
      | inr (ne, old) ↦ elim (line_of_written t k lk) [
        | inl (ek, tk) ↦ cc (only j bj (rw (← tk) old))
        | inr (ne', old') ↦ keeps.distinct t j k bj bk old old'
      ]
    ];
  }
