-- ===== src/Csim/Main.antt =====
-- `main` of cache/csim.c from an empty cache on, and a second access to an address.
use systems_labs.Base.{
  ℕ, zero, suc, ◌+◌, ◌-◌, ◌*◌, ◌%◌, ◌^◌, ◌<◌, ◌≡◌, ◌∙◌, refl, true, false, ok, List, arith,
  replicate, length-replicate, get_or-replicate, shl32, add64, u32_mod, u64_mod,
}
use systems_labs.Csim.{
  Args, Instruction, Cache, empty_set, line_bytes, make_sets, make_cache, parse_file, main,
  execute_instruction,
}
use systems_labs.Csim.Sets.{count_true, IsCacheSet}
use systems_labs.Csim.Address.{num_sets, line_bytes-pow}
use systems_labs.Csim.Simulation.{
  IsCache, Holds, dirty_total, is_access, count_accesses, execute-Accessed, run_from-Simulated,
  held_hit,
}

abbrev pub start : Args → Cache
start args = make_cache (make_sets args.set_bits args.associativity) args

count_true-replicate : (n : ℕ) → count_true (replicate n false) ≡ 0
count_true-replicate zero = refl
count_true-replicate (suc n) = omega (arith, count_true-replicate n)

dirty_total-replicate : (k n : ℕ) → dirty_total (replicate k (empty_set n)) ≡ 0
dirty_total-replicate zero n = refl
dirty_total-replicate (suc k) n = omega (arith, dirty_total-replicate k n, count_true-replicate n)

empty_set-IsCacheSet : (n : ℕ) → IsCacheSet n (empty_set n)
empty_set-IsCacheSet n = record {
  lines = record {
    tags = length-replicate n 0;
    dirty = length-replicate n false;
    valid = length-replicate n false;
    last_modified = length-replicate n (u32_mod - 1);
  };
  clean = λ i b f. get_or-replicate n i false false b;
  distinct = λ tag i j bi bj li lj. cc (get_or-replicate n i false true bi);
}

pub start-IsCache :
    (args : Args) → 0 < args.associativity → args.set_bits < 31 → IsCache (start args)
unfolding make_cache make_sets
start-IsCache args room bits =
    let n = args.associativity in
    let count = shl32 1 args.set_bits in
    record {
      room = room;
      bits = bits;
      size = length-replicate count (empty_set n) ∙ num_sets args.set_bits (omega arith);
      each = λ k b.
          rw
            (get_or-replicate count k (empty_set n) (empty_set 0)
              (omega (arith, length-replicate count (empty_set n))))
            (empty_set-IsCacheSet n);
      balance = rw (dirty_total-replicate count n) (omega arith);
    }

in_bytes :
    (bits k lines bytes : ℕ)
    → bits ≡ k
    → k < 31
    → bytes % u64_mod ≡ line_bytes bits * lines % u64_mod
    → bytes % u64_mod ≡ 2 ^ k * lines % u64_mod
in_bytes bits k lines bytes same block h = rw (← line_bytes-pow k block, ← same) h

-- For a trace, at least one line for each set, fewer than 31 set bits and fewer than 31 block
-- bits, the simulator started from its empty cache ends without a fault; in the final cache the
-- invariant of all sets holds, hits plus misses is the number of L and S instructions of the
-- trace, and dirty_bytes is the size of a line times the number of dirty lines, both modulo 2^64.
pub main-statistics :
    (args : Args) (trace : List Instruction)
    → 0 < args.associativity
    → args.set_bits < 31
    → args.block_bits < 31
    → (c : Cache) × (parse_file trace (start args) ≡ ok c)
      × (main args trace ≡ ok c.stats)
      × IsCache c
      × ((c.stats.hits + c.stats.misses) % u64_mod ≡ count_accesses trace % u64_mod)
      × (c.stats.dirty_bytes % u64_mod ≡ 2 ^ args.block_bits * dirty_total c.sets % u64_mod)
unfolding parse_file main make_cache
main-statistics args trace room bits block =
    let run = run_from-Simulated trace (start args) 1 (start-IsCache args room bits) in
    let c = run.after in
    let same : c.block_bits ≡ args.block_bits = run.shape.2 in
    (
      c,
      run.returns,
      rw run.returns,
      run.keeps,
      omega (arith, run.counted),
      in_bytes c.block_bits args.block_bits (dirty_total c.sets) c.stats.dirty_bytes same block
          run.keeps.balance,
    )

-- In a cache with the invariant, an access to an address followed by an access to the same
-- address succeeds, and the second counts one hit and no miss and no eviction.
pub again-hit :
    (c : Cache) (i j : Instruction) (time later : ℕ)
    → IsCache c
    → is_access i ≡ true
    → is_access j ≡ true
    → i.address ≡ j.address
    → (d e : Cache) × (execute_instruction i c time ≡ ok d)
      × (execute_instruction j d later ≡ ok e)
      × (e.stats.hits ≡ add64 d.stats.hits 1)
      × (e.stats.misses ≡ d.stats.misses)
      × (e.stats.evictions ≡ d.stats.evictions)
again-hit c i j time later is access again same =
    let first = execute-Accessed i c time is access in
    let held : Holds first.after j.address = rw (← same) first.holds in
    let second = held_hit j first.after later first.keeps again held in
    (first.after, second.0, first.returns, second.1, second.2, second.3, second.4)
