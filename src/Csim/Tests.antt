-- ===== src/Csim/Tests.antt =====
-- A trace of cache/csim.c by evaluation, and the theorems at concrete caches.
use systems_labs.Base.{
  ℕ, ◌+◌, ◌*◌, ◌%◌, ◌^◌, ◌<◌, ◌≡◌, refl, true, false, List, [], ◌∷◌, ok, arith, load, store, sar64,
  add64, u64_mod,
}
use systems_labs.Csim.{
  Args, Instruction, CacheSet, Cache, get_set_num, get_least_recently_used, line_bytes, access_set,
  execute_instruction, parse_file, main,
}
use systems_labs.Csim.Search.{IsLeast, get_least_recently_used-IsLeast}
use systems_labs.Csim.Access.{HasLines, Access, access_set-Access}
use systems_labs.Csim.Address.{get_set_num-mod}
use systems_labs.Csim.Simulation.{IsCache, dirty_total}
use systems_labs.Csim.Main.{start, start-IsCache, main-statistics, again-hit}

-- Two sets of one line of 16 bytes.
abbrev direct : Args
direct = record { set_bits = 1; associativity = 1; block_bits = 4 }

abbrev access : ℕ → ℕ → Instruction
access operation address = record { operation = operation; address = address }

-- The second store hits, the third misses in the same set and evicts 16 dirty bytes.
abbrev trace : List Instruction
trace =
    access b'S' 0x10 ∷ access b'S' 0x18 ∷ access b'L' 0x30 ∷ access b'M' 0x30 ∷ access b'S' 0x0 ∷ []

main-trace :
    main direct trace
    ≡ ok (record { hits = 1; misses = 3; evictions = 1; dirty_bytes = 16; dirty_evictions = 16 })
unfolding main load store execute_instruction
main-trace = refl

main-statistics_example :
    (c : Cache) × (parse_file trace (start direct) ≡ ok c)
    × (main direct trace ≡ ok c.stats)
    × IsCache c
    × ((c.stats.hits + c.stats.misses) % u64_mod ≡ 4 % u64_mod)
    × (c.stats.dirty_bytes % u64_mod ≡ 2 ^ 4 * dirty_total c.sets % u64_mod)
main-statistics_example = main-statistics direct trace (omega arith) (omega arith) (omega arith)

again-hit_example :
    (d e : Cache) × (execute_instruction (access b'L' 0x30) (start direct) 1 ≡ ok d)
    × (execute_instruction (access b'S' 0x30) d 2 ≡ ok e)
    × (e.stats.hits ≡ add64 d.stats.hits 1)
    × (e.stats.misses ≡ d.stats.misses)
    × (e.stats.evictions ≡ d.stats.evictions)
again-hit_example =
    again-hit (start direct) (access b'L' 0x30) (access b'S' 0x30) 1 2
      (start-IsCache direct (omega arith) (omega arith)) refl refl refl

get_set_num-mod_example : get_set_num 0x12345 5 6 ≡ sar64 0x12345 6 % 2 ^ 5
get_set_num-mod_example = get_set_num-mod 0x12345 5 6 (omega arith)

-- A full set of two lines, the second used the longest ago.
abbrev full : CacheSet
full = record {
  tags = 7 ∷ 9 ∷ [];
  dirty = false ∷ true ∷ [];
  valid = true ∷ true ∷ [];
  last_modified = 5 ∷ 3 ∷ [];
}

full-HasLines : HasLines 2 full
full-HasLines = omega arith

abbrev pair : Cache
pair = record {
  sets = full ∷ [];
  set_bits = 0;
  associativity = 2;
  block_bits = 4;
  stats = record { hits = 0; misses = 2; evictions = 0; dirty_bytes = 16; dirty_evictions = 0 };
}

access_set-Access_example :
    Access 2 full pair.stats (line_bytes 4) 6 false 11 (access_set full pair 6 false 11)
access_set-Access_example = access_set-Access full pair 6 false 11 full-HasLines (omega arith)

get_least_recently_used-IsLeast_example :
    (r : ℕ) × (get_least_recently_used full.last_modified 2 ≡ ok r)
    × (r < 2)
    × IsLeast full.last_modified 2 r
get_least_recently_used-IsLeast_example =
    get_least_recently_used-IsLeast full.last_modified 2 (omega arith) (omega arith)
