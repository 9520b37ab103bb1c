-- ===== src/Csim/Access.antt =====
-- One access to one set of cache/csim.c, `executeInstruction` from the scan on with `handleMiss`:
-- what it does to the arrays and to the statistics in each of its three cases.
use systems_labs.Base.{
  ℕ, ◌<◌, ◌≡◌, Bool, true, false, ◌&&◌, ◌||◌, not, Option, none, some, Run, ok, arith,
  if◌then◌else◌, length, get_or, set, load-ok, store-ok, set-set, set-get_or, length-set, add64,
}
use systems_labs.Base.First.{IsFirst}
use systems_labs.Csim.{
  CacheSet, Stats, Cache, mark_dirty, flush_dirty, line_bytes, fill_free, evict, miss_in,
  handle_miss, hit_line, access_line, access_set,
}
use systems_labs.Csim.Search.{
  is_free, is_line, IsLeast, get_free_space-IsFirst, find_line_from-IsFirst,
  get_least_recently_used-IsLeast,
}

-- The arrays of a set with `n` lines.
pub record HasLines (n : ℕ) (s : CacheSet) : Type 0 where
  pub tags : length s.tags ≡ n
  pub dirty : length s.dirty ≡ n
  pub valid : length s.valid ≡ n
  pub last_modified : length s.last_modified ≡ n

-- Line `i` holds the tag `tag`, was used at `time` and is dirty or not.
abbrev pub written : CacheSet → (i time tag : ℕ) → Bool → CacheSet
written s i time tag dirty = record {
  tags = set s.tags i tag;
  dirty = set s.dirty i dirty;
  valid = set s.valid i true;
  last_modified = set s.last_modified i time;
}

abbrev pub is_dirty : CacheSet → ℕ → Bool
is_dirty s i = get_or s.dirty i false

abbrev pub count_store : Bool → Stats → ℕ → Stats
count_store is_store stats bytes = if is_store then mark_dirty stats bytes else stats

abbrev pub missed : Stats → Stats
missed stats = record stats { misses = add64 stats.misses 1 }

abbrev pub evicted : Stats → Stats
evicted stats = record stats { evictions = add64 stats.evictions 1 }

-- The statistics after a hit, and those after an eviction, of a line that was dirty or not.
abbrev pub hit_stats : (is_store was_dirty : Bool) → Stats → ℕ → Stats
hit_stats is_store was_dirty stats bytes =
    count_store (is_store && not was_dirty) (record stats { hits = add64 stats.hits 1 }) bytes

abbrev pub evict_stats : (is_store was_dirty : Bool) → Stats → ℕ → Stats
evict_stats is_store was_dirty stats bytes =
    count_store is_store (if was_dirty then flush_dirty stats bytes else stats) bytes

module _ {n : ℕ} (s : CacheSet) (stats : Stats) (bytes i time : ℕ) (is_store : Bool) (tag : ℕ)
    (lines : HasLines n s) (below : i < n) where
  fill_free-written :
      fill_free s stats bytes i time is_store tag
      ≡ ok (written s i time tag is_store, count_store is_store stats bytes)
  unfolding fill_free
  fill_free-written =
      let kept = length-set s.dirty i false in
      rw
        (
          store-ok s.valid i true (omega (arith, lines.valid)),
          store-ok s.tags i tag (omega (arith, lines.tags)),
          store-ok s.last_modified i time (omega (arith, lines.last_modified)),
          store-ok s.dirty i false (omega (arith, lines.dirty)),
          store-ok (set s.dirty i false) i true (omega (arith, kept, lines.dirty)),
          set-set s.dirty i false true,
        )
        (ground arith)

  hit_line-written :
      is_line s tag i ≡ true
      → hit_line s stats bytes i time is_store
        ≡ ok (
          written s i time tag (is_store || is_dirty s i),
          hit_stats is_store (is_dirty s i) stats bytes,
        )
  unfolding hit_line
  hit_line-written line =
      let below_dirty : i < length s.dirty = omega (arith, lines.dirty) in
      let tag_there : get_or s.tags i 0 ≡ tag = ground arith in
      let valid_there : get_or s.valid i true ≡ true = ground arith in
      rw
        (
          store-ok s.last_modified i time (omega (arith, lines.last_modified)),
          load-ok s.dirty i false (omega (arith, lines.dirty)),
          store-ok s.dirty i true (omega (arith, lines.dirty)),
          set-get_or s.tags i 0 tag (omega (arith, lines.tags)) tag_there,
          set-get_or s.valid i true true (omega (arith, lines.valid)) valid_there,
        )
        (ground (
          arith,
          set-get_or s.dirty i false true below_dirty,
          set-get_or s.dirty i false false below_dirty,
        ))

  evict-written :
      get_or s.valid i true ≡ true
      → evict s stats bytes i time is_store tag
        ≡ ok (written s i time tag is_store, evict_stats is_store (is_dirty s i) stats bytes)
  unfolding evict
  evict-written valid_there =
      let kept = length-set s.dirty i false in
      let below_dirty : i < length s.dirty = omega (arith, lines.dirty) in
      rw
        (
          store-ok s.last_modified i time (omega (arith, lines.last_modified)),
          store-ok s.tags i tag (omega (arith, lines.tags)),
          load-ok s.dirty i false (omega (arith, lines.dirty)),
          store-ok s.dirty i false (omega (arith, lines.dirty)),
          set-get_or s.valid i true true (omega (arith, lines.valid)) valid_there,
        )
        (ground (
          arith,
          store-ok s.dirty i true below_dirty,
          store-ok (set s.dirty i false) i true (omega (arith, kept, below_dirty)),
          set-set s.dirty i false true,
          set-get_or s.dirty i false false below_dirty,
        ))

-- What one access to a set of `n` lines does, said without the scans.
pub data Access (n : ℕ) (s : CacheSet) (stats : Stats) (bytes time : ℕ) (is_store : Bool) (tag : ℕ)
    (r : Run (CacheSet × Stats)) : Type 0 where
  -- The tag is in line `i`, the first that has it.
  hit :
      (i : ℕ)
      → IsFirst (is_line s tag) 0 n (some i)
      → r
        ≡ ok (
          written s i time tag (is_store || is_dirty s i),
          hit_stats is_store (is_dirty s i) stats bytes,
        )
      → Access n s stats bytes time is_store tag r
  -- No line has the tag, and line `i` is the first that is free.
  fill :
      (i : ℕ)
      → IsFirst (is_line s tag) 0 n none
      → IsFirst (is_free s.valid) 0 n (some i)
      → r ≡ ok (written s i time tag is_store, count_store is_store (missed stats) bytes)
      → Access n s stats bytes time is_store tag r
  -- No line has the tag, none is free, and line `i` was used the longest ago.
  replace :
      (i : ℕ)
      → IsFirst (is_line s tag) 0 n none
      → IsFirst (is_free s.valid) 0 n none
      → i < n
      → IsLeast s.last_modified n i
      → r
        ≡ ok (
          written s i time tag is_store,
          evict_stats is_store (is_dirty s i) (evicted (missed stats)) bytes,
        )
      → Access n s stats bytes time is_store tag r

module _ (s : CacheSet) (cache : Cache) (time : ℕ) (is_store : Bool) (tag : ℕ)
    (lines : HasLines cache.associativity s) (pos : 0 < cache.associativity) where
  abbrev Described : Run (CacheSet × Stats) → Type 0
  Described =
      Access cache.associativity s cache.stats (line_bytes cache.block_bits) time is_store tag

  miss_in-Access :
      (r : Option ℕ)
      → IsFirst (is_line s tag) 0 cache.associativity none
      → IsFirst (is_free s.valid) 0 cache.associativity r
      → Described (miss_in s cache time is_store tag r)
  unfolding miss_in
  miss_in-Access (some i) absent room = fill i absent room (
      fill_free-written s (missed cache.stats) (line_bytes cache.block_bits) i time is_store tag
        lines room.1)
  miss_in-Access none absent full =
      let lru =
        get_least_recently_used-IsLeast s.last_modified cache.associativity pos
          (omega (arith, lines.last_modified)) in
      let valid : get_or s.valid lru.0 true ≡ true = ground (arith, full lru.0, lru.2) in
      rw (lru.1) (
        replace lru.0 absent full lru.2 lru.3 (
          evict-written s (evicted (missed cache.stats)) (line_bytes cache.block_bits) lru.0 time
            is_store tag lines lru.2 valid))

  access_line-Access :
      (r : Option ℕ)
      → IsFirst (is_line s tag) 0 cache.associativity r
      → Described (access_line s cache time is_store tag r)
  unfolding access_line handle_miss
  access_line-Access (some i) there = hit i there (
      hit_line-written s cache.stats (line_bytes cache.block_bits) i time is_store tag lines there.1
        there.2)
  access_line-Access none absent =
      let free = get_free_space-IsFirst s cache.associativity (omega (arith, lines.valid)) in
      rw (free.1) (miss_in-Access free.0 absent free.2)

  -- In a cache whose sets have at least one line, an access to a set with arrays of the right
  -- size ends without a fault and is one of three: a hit in the first valid line with the tag; if
  -- there is none, a fill of the first line that is not valid; if all are valid, a replacement of
  -- the line whose last use is the longest ago. Each case gives the exact new arrays and the
  -- exact statistics.
  pub access_set-Access : Described (access_set s cache time is_store tag)
  unfolding access_set
  access_set-Access =
      let line =
        find_line_from-IsFirst s tag cache.associativity 0 cache.associativity (omega arith)
          (omega (arith, lines.valid)) (omega (arith, lines.tags)) in
      rw (line.1) (access_line-Access line.0 line.2)
