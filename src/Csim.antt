-- ===== src/Csim.antt =====
-- The cache simulator, cache/csim.c. A `set_t` holds four pointers, so the copy that the code makes
-- of it shares the arrays: here the changed set is written back to the cache.
pub mod Search
pub mod Access
pub mod Sets
pub mod Effects
pub mod Address
pub mod Simulation
pub mod Main
mod Tests
use systems_labs.Base.{
  ℕ, zero, suc, ◌+◌, ◌-◌, Bool, true, false, ◌&&◌, ◌||◌, not, Option, none, some, List, [], ◌∷◌,
  Run, ok, ◌>>=◌, ◌==◌, if◌then◌else◌, replicate, load, store, add32, add64, sub64, not32, shl32,
  sar64, sign_extend, slt32, u32_mod, bit_and,
}

pub record Args : Type 0 where
  pub set_bits : ℕ
  pub associativity : ℕ
  pub block_bits : ℕ

pub record Instruction : Type 0 where
  pub address : ℕ
  pub operation : ℕ

-- All four arrays have `associativity` elements.
pub record CacheSet : Type 0 where
  pub tags : List ℕ
  pub dirty : List Bool
  pub valid : List Bool
  pub last_modified : List ℕ

pub record Stats : Type 0 where
  pub hits : ℕ
  pub misses : ℕ
  pub evictions : ℕ
  pub dirty_bytes : ℕ
  pub dirty_evictions : ℕ

pub record Cache : Type 0 where
  pub sets : List CacheSet
  pub set_bits : ℕ
  pub associativity : ℕ
  pub block_bits : ℕ
  pub stats : Stats

-- `~(-1 << setBits)` is an `int` that is converted to `unsigned long`.
unfoldable pub get_set_num : ℕ → ℕ → ℕ → ℕ
get_set_num address set_bits block_bits =
    bit_and (sar64 address block_bits) (sign_extend (not32 (shl32 (u32_mod - 1) set_bits)))

-- The first index from `i` on, of `left` many, that holds no valid line; `none` is the code's -1.
free_space_from : List Bool → (left i : ℕ) → Run (Option ℕ)
free_space_from valid zero i = ok none
free_space_from valid (suc left) i =
    let rest = free_space_from valid left (i + 1) in
    load valid i >>= λ v. if not v then ok (some i) else rest

unfoldable pub get_free_space : CacheSet → ℕ → Run (Option ℕ)
unfolding free_space_from
get_free_space s associativity = free_space_from s.valid associativity 0

least_recent_from : List ℕ → (left i min : ℕ) → Run ℕ
least_recent_from last_modified zero i min = ok min
least_recent_from last_modified (suc left) i min = do
  a ← load last_modified i
  b ← load last_modified min
  least_recent_from last_modified left (i + 1) (if slt32 a b then i else min)

unfoldable pub get_least_recently_used : List ℕ → ℕ → Run ℕ
unfolding least_recent_from
get_least_recently_used last_modified associativity =
    least_recent_from last_modified associativity 0 0

-- `1 << blockBits`, as it is added to a `long`.
unfoldable pub line_bytes : ℕ → ℕ
line_bytes block_bits = sign_extend (shl32 1 block_bits)

abbrev pub mark_dirty : Stats → ℕ → Stats
mark_dirty stats bytes = record stats { dirty_bytes = add64 stats.dirty_bytes bytes }

abbrev pub flush_dirty : Stats → ℕ → Stats
flush_dirty stats bytes = record stats {
  dirty_evictions = add64 stats.dirty_evictions bytes;
  dirty_bytes = sub64 stats.dirty_bytes bytes;
}

-- A miss in a set with room, and one that evicts. Both return the set and the statistics.
unfoldable pub fill_free :
    CacheSet → Stats → (bytes free time : ℕ) → Bool → ℕ → Run (CacheSet × Stats)
fill_free s stats bytes free time is_store tag = do
  valid ← store s.valid free true
  tags ← store s.tags free tag
  last_modified ← store s.last_modified free time
  dirty ← store s.dirty free false
  let filled : CacheSet = record {
    valid = valid;
    tags = tags;
    last_modified = last_modified;
    dirty = dirty;
  }
  if is_store
      then (do
        dirty ← store dirty free true
        ok (record filled { dirty = dirty }, mark_dirty stats bytes))
      else ok (filled, stats)

unfoldable pub evict : CacheSet → Stats → (bytes lru time : ℕ) → Bool → ℕ → Run (CacheSet × Stats)
evict s stats bytes lru time is_store tag = do
  last_modified ← store s.last_modified lru time
  tags ← store s.tags lru tag
  was_dirty ← load s.dirty lru
  (stats, dirty) ←
      if was_dirty
      then (do dirty ← store s.dirty lru false; ok (flush_dirty stats bytes, dirty))
      else ok (stats, s.dirty)
  let moved = record s { last_modified = last_modified; tags = tags; dirty = dirty }
  if is_store
      then (do
        dirty ← store dirty lru true
        ok (record moved { dirty = dirty }, mark_dirty stats bytes))
      else ok (moved, stats)

-- The two branches of `handleMiss`; `none` is the code's -1.
unfoldable pub miss_in :
    CacheSet → Cache → (time : ℕ) → Bool → ℕ → Option ℕ → Run (CacheSet × Stats)
unfolding get_least_recently_used line_bytes fill_free evict
miss_in s cache time is_store tag (some free) =
    let stats = record cache.stats { misses = add64 cache.stats.misses 1 } in
    fill_free s stats (line_bytes cache.block_bits) free time is_store tag
miss_in s cache time is_store tag none =
    let stats = record cache.stats { misses = add64 cache.stats.misses 1 } in
    do
      lru ← get_least_recently_used s.last_modified cache.associativity
      evict s (record stats { evictions = add64 stats.evictions 1 }) (line_bytes cache.block_bits)
          lru time is_store tag

unfoldable pub handle_miss : CacheSet → Cache → (time : ℕ) → Bool → ℕ → Run (CacheSet × Stats)
unfolding get_free_space miss_in
handle_miss s cache time is_store tag =
    get_free_space s cache.associativity >>= miss_in s cache time is_store tag

-- The first valid line with the tag, from `i` on.
unfoldable pub find_line_from : CacheSet → (tag left i : ℕ) → Run (Option ℕ)
find_line_from s tag zero i = ok none
find_line_from s tag (suc left) i =
    let rest = find_line_from s tag left (i + 1) in
    load s.valid i >>= λ v.
    if not v then rest else (load s.tags i >>= λ t. if t == tag then ok (some i) else rest)

unfoldable pub hit_line : CacheSet → Stats → (bytes i time : ℕ) → Bool → Run (CacheSet × Stats)
hit_line s stats bytes i time is_store = do
  last_modified ← store s.last_modified i time
  was_dirty ← load s.dirty i
  let stats = record stats { hits = add64 stats.hits 1 }
  let touched = record s { last_modified = last_modified }
  if is_store && not was_dirty
      then (do
        dirty ← store s.dirty i true
        ok (record touched { dirty = dirty }, mark_dirty stats bytes))
      else ok (touched, stats)

-- A hit in line `i`, or the miss behind the loop of `executeInstruction`.
unfoldable pub access_line :
    CacheSet → Cache → (time : ℕ) → Bool → ℕ → Option ℕ → Run (CacheSet × Stats)
unfolding line_bytes hit_line handle_miss
access_line s cache time is_store tag (some i) =
    hit_line s cache.stats (line_bytes cache.block_bits) i time is_store
access_line s cache time is_store tag none = handle_miss s cache time is_store tag

-- The access to one set: the loop of `executeInstruction`, and the miss behind it.
unfoldable pub access_set : CacheSet → Cache → (time : ℕ) → Bool → ℕ → Run (CacheSet × Stats)
unfolding find_line_from access_line
access_set s cache time is_store tag =
    find_line_from s tag cache.associativity 0 >>= access_line s cache time is_store tag

-- An operation other than `L` and `S` changes nothing; the message on it is left out.
unfoldable pub execute_instruction : Instruction → Cache → ℕ → Run Cache
unfolding get_set_num access_set
execute_instruction i cache time =
    if i.operation == b'S' || i.operation == b'L'
    then (do
      let set_num = get_set_num i.address cache.set_bits cache.block_bits
      let tag = sar64 i.address (cache.set_bits + cache.block_bits)
      s ← load cache.sets set_num
      (s, stats) ← access_set s cache time (i.operation == b'S') tag
      sets ← store cache.sets set_num s
      ok (record cache { sets = sets; stats = stats }))
    else ok cache

-- The loop of `parseFile`, over the lines of the trace that `processLine` has read.
unfoldable pub run_from : List Instruction → Cache → ℕ → Run Cache
run_from [] cache time = ok cache
run_from (i ∷ trace) cache time = do
  cache ← execute_instruction i cache time
  run_from trace cache (add32 time 1)

unfoldable pub parse_file : List Instruction → Cache → Run Cache
unfolding run_from
parse_file trace cache = run_from trace cache 1

-- A line of `makeSets`: -1 is the time of a line that was never used.
abbrev pub empty_set : ℕ → CacheSet
empty_set associativity = record {
  tags = replicate associativity 0;
  dirty = replicate associativity false;
  valid = replicate associativity false;
  last_modified = replicate associativity (u32_mod - 1);
}

-- `1 << setBits` sets; the allocations succeed.
unfoldable pub make_sets : ℕ → ℕ → List CacheSet
make_sets set_bits associativity = replicate (shl32 1 set_bits) (empty_set associativity)

unfoldable pub make_cache : List CacheSet → Args → Cache
make_cache sets args = record {
  sets = sets;
  set_bits = args.set_bits;
  associativity = args.associativity;
  block_bits = args.block_bits;
  stats = record { hits = 0; misses = 0; evictions = 0; dirty_bytes = 0; dirty_evictions = 0 };
}

-- `main` from the arguments on, up to the statistics that it prints.
unfoldable pub main : Args → List Instruction → Run Stats
unfolding make_sets make_cache parse_file
main args trace = do
  let cache = make_cache (make_sets args.set_bits args.associativity) args
  cache ← parse_file trace cache
  ok cache.stats
