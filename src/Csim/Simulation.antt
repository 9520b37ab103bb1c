-- ===== src/Csim/Simulation.antt =====
-- A run of cache/csim.c over a trace: the invariant of the whole cache, and what it says of the
-- statistics that the simulator prints.
use systems_labs.Base.{
  ℕ, zero, suc, ◌+◌, ◌*◌, ◌%◌, ◌^◌, ◌<◌, ◌≡◌, ◌≢◌, refl, sym, ap, Bool, true, false, ◌||◌, ◌==◌,
  if◌then◌else◌, Bool-cases, inl, inr, List, [], ◌∷◌, Run, ok, arith, length, get_or, set,
  length-set, get_or-set_self, get_or-set_ne, load-ok, store-ok, sar64, add32, add64, u64_mod,
}
use mathlib.Core.Path.{subst}
use native.Mathlib.Decide.{ℕ_discrete}
use systems_labs.Csim.{
  Instruction, CacheSet, Cache, empty_set, line_bytes, get_set_num, access_set, execute_instruction,
  run_from,
}
use systems_labs.Csim.Search.{is_line}
use systems_labs.Csim.Access.{access_set-Access}
use systems_labs.Csim.Sets.{dirty_lines, IsCacheSet}
use systems_labs.Csim.Effects.{Effect, Access-Effect, hit_if_present}
use systems_labs.Csim.Address.{get_set_num-lt, line_bytes-le}

abbrev pub set_at : List CacheSet → ℕ → CacheSet
set_at sets k = get_or sets k (empty_set 0)

abbrev pub dirty_total : List CacheSet → ℕ
dirty_total [] = 0
dirty_total (s ∷ sets) = dirty_lines s + dirty_total sets

dirty_total-set :
    (sets : List CacheSet) (k : ℕ) (s : CacheSet)
    → k < length sets
    → dirty_total (set sets k s) + dirty_lines (set_at sets k) ≡ dirty_total sets + dirty_lines s
dirty_total-set [] k s h = absurd (omega arith)
dirty_total-set (t ∷ sets) zero s h = omega arith
dirty_total-set (t ∷ sets) (suc k) s h = omega (arith, dirty_total-set sets k s (omega arith))

-- The sets are as many as the set bits say, and `dirty_bytes` counts the dirty lines.
pub record IsCache (c : Cache) : Type 0 where
  pub room : 0 < c.associativity
  pub bits : c.set_bits < 31
  pub size : length c.sets ≡ 2 ^ c.set_bits
  pub each : (k : ℕ) → k < length c.sets → IsCacheSet c.associativity (set_at c.sets k)
  pub balance :
      c.stats.dirty_bytes % u64_mod ≡ line_bytes c.block_bits * dirty_total c.sets % u64_mod

abbrev pub is_access : Instruction → Bool
is_access i = i.operation == b'S' || i.operation == b'L'

abbrev pub set_of : Cache → ℕ → ℕ
set_of c address = get_set_num address c.set_bits c.block_bits

abbrev pub tag_of : Cache → ℕ → ℕ
tag_of c address = sar64 address (c.set_bits + c.block_bits)

-- The line with the address is in its set.
abbrev pub Holds : Cache → ℕ → Type 0
Holds c address =
    (line : ℕ) × (line < c.associativity)
    × (is_line (set_at c.sets (set_of c address)) (tag_of c address) line ≡ true)

abbrev pub SameShape : Cache → Cache → Type 0
SameShape c d =
    (d.set_bits ≡ c.set_bits) × (d.associativity ≡ c.associativity) × (d.block_bits ≡ c.block_bits)

-- An L or S instruction at an address.
pub record Accessed (c : Cache) (address : ℕ) (r : Run Cache) : Type 0 where
  pub after : Cache
  pub returns : r ≡ ok after
  pub keeps : IsCache after
  pub shape : SameShape c after
  pub holds : Holds after address
  pub counted :
      (after.stats.hits + after.stats.misses) % u64_mod
      ≡ (c.stats.hits + c.stats.misses + 1) % u64_mod
  pub others : (k : ℕ) → k ≢ set_of c address → set_at after.sets k ≡ set_at c.sets k

module _ (i : Instruction) (c : Cache) (time : ℕ) (is : IsCache c) where
  abbrev num : ℕ
  num = set_of c i.address

  num_below : num < length c.sets
  num_below =
      omega
        (arith, get_set_num-lt i.address c.set_bits c.block_bits (omega (arith, is.bits)), is.size)

  effect :
      Effect c.associativity
        (set_at c.sets num)
        c.stats
        (line_bytes c.block_bits)
        (tag_of c i.address)
        (access_set (set_at c.sets num) c time (i.operation == b'S') (tag_of c i.address))
  effect =
      let keeps = is.each num num_below in
      Access-Effect (set_at c.sets num) c.stats (line_bytes c.block_bits) time (tag_of c i.address)
        keeps (i.operation == b'S') _ (line_bytes-le c.block_bits)
        (access_set-Access (set_at c.sets num) c time (i.operation == b'S') (tag_of c i.address)
          keeps.lines is.room)

  abbrev next : Cache
  next = record c { sets = set c.sets num effect.after; stats = effect.counts }

  next-returns : is_access i ≡ true → execute_instruction i c time ≡ ok next
  unfolding execute_instruction
  next-returns h =
      rw
        (
          h,
          load-ok c.sets num (empty_set 0) num_below,
          effect.returns,
          store-ok c.sets num effect.after num_below,
        )
        refl

  next_set : (k : ℕ) → k < length c.sets → IsCacheSet c.associativity (set_at next.sets k)
  next_set k b = elim (ℕ_discrete num k) [
    | yes e ↦
        subst (λ j. IsCacheSet c.associativity (set_at next.sets j)) e
          (rw (get_or-set_self c.sets num (empty_set 0) effect.after num_below) effect.keeps)
    | no ne ↦ rw (get_or-set_ne c.sets num k (empty_set 0) effect.after ne) (is.each k b)
  ]

  next-IsCache : IsCache next
  next-IsCache = record {
    room = is.room;
    bits = is.bits;
    size = omega (arith, length-set c.sets num effect.after, is.size);
    each = λ k b. next_set k (omega (arith, length-set c.sets num effect.after, b));
    balance = omega (
      arith,
      effect.dirty_bytes,
      is.balance,
      ap (λ (t : ℕ). line_bytes c.block_bits * t)
          (dirty_total-set c.sets num effect.after num_below),
    );
  }

  pub execute-Accessed : is_access i ≡ true → Accessed c i.address (execute_instruction i c time)
  execute-Accessed h = record {
    after = next;
    returns = next-returns h;
    keeps = next-IsCache;
    shape = (refl, refl, refl);
    holds = (
      effect.line,
      effect.line_below,
      rw (get_or-set_self c.sets num (empty_set 0) effect.after num_below) effect.present,
    );
    counted = effect.counted;
    others = λ k ne. get_or-set_ne c.sets num k (empty_set 0) effect.after (λ e. ne (sym e));
  }

  -- If the line with the address is in its set, the access hits and counts nothing else.
  pub held_hit :
      is_access i ≡ true
      → Holds c i.address
      → (d : Cache) × (execute_instruction i c time ≡ ok d)
        × (d.stats.hits ≡ add64 c.stats.hits 1)
        × (d.stats.misses ≡ c.stats.misses)
        × (d.stats.evictions ≡ c.stats.evictions)
  held_hit h (line, below, there) =
      let keeps = is.each num num_below in
      let found =
        hit_if_present (set_at c.sets num) c.stats (line_bytes c.block_bits) time
          (tag_of c i.address) (i.operation == b'S') _ effect.after effect.counts line below there
          effect.returns
          (access_set-Access (set_at c.sets num) c time (i.operation == b'S') (tag_of c i.address)
            keeps.lines is.room) in
      (next, next-returns h, found.0, found.1, found.2)

pub execute_instruction-other :
    (i : Instruction) (c : Cache) (time : ℕ)
    → is_access i ≡ false
    → execute_instruction i c time ≡ ok c
unfolding execute_instruction
execute_instruction-other i c time h = rw h

abbrev pub count_accesses : List Instruction → ℕ
count_accesses [] = 0
count_accesses (i ∷ trace) =
    if is_access i then suc (count_accesses trace) else count_accesses trace

-- A run of the trace from a cache.
pub record Simulated (c : Cache) (trace : List Instruction) (r : Run Cache) : Type 0 where
  pub after : Cache
  pub returns : r ≡ ok after
  pub keeps : IsCache after
  pub shape : SameShape c after
  pub counted :
      (after.stats.hits + after.stats.misses) % u64_mod
      ≡ (c.stats.hits + c.stats.misses + count_accesses trace) % u64_mod

pub run_from-Simulated :
    (trace : List Instruction) (c : Cache) (time : ℕ)
    → IsCache c
    → Simulated c trace (run_from trace c time)
unfolding run_from
run_from-Simulated [] c time is = record {
  after = c;
  returns = refl;
  keeps = is;
  shape = (refl, refl, refl);
  counted = omega arith;
}
run_from-Simulated (i ∷ trace) c time is = elim (Bool-cases (is_access i)) [
  | inl access ↦
      let first = execute-Accessed i c time is access in
      let rest = run_from-Simulated trace first.after (add32 time 1) first.keeps in
      record {
        after = rest.after;
        returns = rw first.returns rest.returns;
        keeps = rest.keeps;
        shape = ground (arith, first.shape, rest.shape);
        counted = rw access (omega (arith, first.counted, rest.counted));
      }
  | inr other ↦
      let rest = run_from-Simulated trace c (add32 time 1) is in
      record {
        after = rest.after;
        returns = rw (execute_instruction-other i c time other) rest.returns;
        keeps = rest.keeps;
        shape = rest.shape;
        counted = rw other rest.counted;
      }
]
