-- ===== src/Csim/Effects.antt =====
-- What one access leaves behind in a set of cache/csim.c and in the statistics, whichever of its
-- three cases it is.
use systems_labs.Base.{
  ℕ, ◌+◌, ◌*◌, ◌%◌, ◌≤◌, ◌<◌, ◌≡◌, ◌≢◌, ap, inl, inr, Bool, true, false, ◌||◌, none, Run, ok, arith,
  add64, u64_mod,
}
use systems_labs.Base.First.{IsFirst}
use systems_labs.Csim.{CacheSet, Stats}
use systems_labs.Csim.Search.{is_line}
use systems_labs.Csim.Access.{
  written, is_dirty, Access, hit, fill, replace, hit_stats, evict_stats, count_store, missed,
  evicted,
}
use systems_labs.Csim.Sets.{
  of_bool, count_true-set, dirty_lines, IsCacheSet, written-IsCacheSet, is_line-written_self,
  line_of_written,
}

-- The access at `tag` succeeds. The tag is in the set then, no other tag has come in, `hits + misses`
-- has grown by one, and `dirty_bytes` has changed as the number of dirty lines has.
pub record Effect (n : ℕ) (s : CacheSet) (stats : Stats) (bytes tag : ℕ)
    (r : Run (CacheSet × Stats)) : Type 0 where
  pub after : CacheSet
  pub counts : Stats
  pub returns : r ≡ ok (after, counts)
  pub keeps : IsCacheSet n after
  pub line : ℕ
  pub line_below : line < n
  pub present : is_line after tag line ≡ true
  pub old : (t j : ℕ) → j < n → t ≢ tag → is_line after t j ≡ true → is_line s t j ≡ true
  pub counted : (counts.hits + counts.misses) % u64_mod ≡ (stats.hits + stats.misses + 1) % u64_mod
  pub dirty_bytes :
      (counts.dirty_bytes + bytes * dirty_lines s) % u64_mod
      ≡ (stats.dirty_bytes + bytes * dirty_lines after) % u64_mod

module _ {n : ℕ} (s : CacheSet) (stats : Stats) (bytes time : ℕ) (tag : ℕ)
    (keeps : IsCacheSet n s) where
  abbrev Balanced : CacheSet → Stats → Type 0
  Balanced after counts =
      (counts.dirty_bytes + bytes * dirty_lines s) % u64_mod
      ≡ (stats.dirty_bytes + bytes * dirty_lines after) % u64_mod

  change :
      (i : ℕ) (d : Bool)
      → i < n
      → bytes * (dirty_lines (written s i time tag d) + of_bool (is_dirty s i))
        ≡ bytes * (dirty_lines s + of_bool d)
  change i d below =
      ap (λ (t : ℕ). bytes * t) (count_true-set s.dirty i d (omega (arith, keeps.lines.dirty)))

  hit_balance :
      (i : ℕ) (is_store : Bool)
      → i < n
      → Balanced
          (written s i time tag (is_store || is_dirty s i))
          (hit_stats is_store (is_dirty s i) stats bytes)
  hit_balance i is_store below = ground (arith, change i (is_store || is_dirty s i) below)

  fill_balance :
      (i : ℕ) (is_store : Bool)
      → i < n
      → is_dirty s i ≡ false
      → Balanced (written s i time tag is_store) (count_store is_store (missed stats) bytes)
  fill_balance i is_store below clean = ground (arith, change i is_store below)

  evict_balance :
      (i : ℕ) (is_store : Bool)
      → i < n
      → bytes ≤ u64_mod
      → Balanced
          (written s i time tag is_store)
          (evict_stats is_store (is_dirty s i) (evicted (missed stats)) bytes)
  evict_balance i is_store below small = ground (arith, change i is_store below)

  absent_only :
      (i : ℕ) → IsFirst (is_line s tag) 0 n none → (j : ℕ) → j < n → is_line s tag j ≡ true → i ≡ j
  absent_only i absent j below line = cc (absent j (omega arith) below)

  came_in :
      (i : ℕ) (d : Bool)
      → i < n
      → (t j : ℕ) → j < n
      → t ≢ tag
      → is_line (written s i time tag d) t j ≡ true
      → is_line s t j ≡ true
  came_in i d below t j b ne h = elim (line_of_written s i time tag d keeps.lines below t j h) [
    | inl (e, same) ↦ absurd (ne same)
    | inr (e, there) ↦ there
  ]

  -- Each of the three cases has the effect.
  pub Access-Effect :
      (is_store : Bool) (r : Run (CacheSet × Stats))
      → bytes ≤ u64_mod
      → Access n s stats bytes time is_store tag r
      → Effect n s stats bytes tag r
  Access-Effect is_store r small (hit i (lo, below, there, first) e) =
      let d = is_store || is_dirty s i in
      record {
        after = written s i time tag d;
        counts = hit_stats is_store (is_dirty s i) stats bytes;
        returns = e;
        keeps =
            written-IsCacheSet s i time tag d keeps.lines below keeps
              (λ j b line. keeps.distinct tag i j below b there line);
        line = i;
        line_below = below;
        present = is_line-written_self s i time tag d keeps.lines below;
        old = came_in i d below;
        counted = ground arith;
        dirty_bytes = hit_balance i is_store below;
      }
  Access-Effect is_store r small (fill i absent (lo, below, free, first) e) = record {
    after = written s i time tag is_store;
    counts = count_store is_store (missed stats) bytes;
    returns = e;
    keeps = written-IsCacheSet s i time tag is_store keeps.lines below keeps (absent_only i absent);
    line = i;
    line_below = below;
    present = is_line-written_self s i time tag is_store keeps.lines below;
    old = came_in i is_store below;
    counted = ground arith;
    dirty_bytes = fill_balance i is_store below (keeps.clean i below (ground arith));
  }
  Access-Effect is_store r small (replace i absent full below least e) = record {
    after = written s i time tag is_store;
    counts = evict_stats is_store (is_dirty s i) (evicted (missed stats)) bytes;
    returns = e;
    keeps = written-IsCacheSet s i time tag is_store keeps.lines below keeps (absent_only i absent);
    line = i;
    line_below = below;
    present = is_line-written_self s i time tag is_store keeps.lines below;
    old = came_in i is_store below;
    counted = ground arith;
    dirty_bytes = evict_balance i is_store below small;
  }

-- If the tag is in the set, the access is a hit and nothing else is counted.
pub hit_if_present :
    {n : ℕ} (s : CacheSet) (stats : Stats) (bytes time tag : ℕ) (is_store : Bool)
    (r : Run (CacheSet × Stats)) (after : CacheSet) (counts : Stats) (line : ℕ)
    → line < n
    → is_line s tag line ≡ true
    → r ≡ ok (after, counts)
    → Access n s stats bytes time is_store tag r
    → (counts.hits ≡ add64 stats.hits 1)
      × (counts.misses ≡ stats.misses)
      × (counts.evictions ≡ stats.evictions)
hit_if_present s stats bytes time tag is_store r after counts line below there p (hit i at e) =
    ground arith
hit_if_present s stats bytes time tag is_store r after counts line below there p
      (fill i absent free e) =
    cc (absent line (omega arith) below)
hit_if_present s stats bytes time tag is_store r after counts line below there p
      (replace i absent full b least e) =
    cc (absent line (omega arith) below)
