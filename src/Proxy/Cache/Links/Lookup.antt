-- ===== src/Proxy/Cache/Links/Lookup.antt =====
-- `in_cache` of proxy/cache.c finds the first block that matches and makes it the first.
use systems_labs.Base.{
  ℕ, zero, suc, ◌+◌, ◌-◌, ◌≤◌, ◌≡◌, refl, ◌∙◌, sym, ap, true, false, Option, none, some, List, [],
  ◌∷◌, ◌++◌, ok, arith, length, add32,
}
use mathlib.Core.List.{append-nil}
use mathlib.Core.Path.{subst}
use systems_labs.Proxy.Cache.{Block, Cache, put, matches, visit, increment_ref, find_from, in_cache}
use systems_labs.Proxy.Cache.Links.{
  first, Holds, Segment, Listed, get-ok, Holds-self, Segment-new_prev,
}
use systems_labs.Proxy.Cache.Links.Order.{unfreed}
use systems_labs.Proxy.Cache.Links.Visit.{visit-Listed}

module _ (c : Cache) (host port path : List ℕ) where
  -- Blocks that are not freed and do not match.
  abbrev pub Misses : List ℕ → Type 0
  Misses [] = Unit {0}
  Misses (q ∷ qs) =
      ((b : Block) × Holds c.store q (record b { freed = false })
        × (matches host port path b ≡ false))
      × Misses qs

  find_from-skip :
      (fuel k : ℕ) (pre rest : List ℕ) (prev : Option ℕ)
      → fuel ≡ length pre + k
      → Segment c.store prev (pre ++ rest) none
      → Misses pre
      → find_from fuel c host port path (first (pre ++ rest) none)
        ≡ find_from k c host port path (first rest none)
  unfolding find_from
  find_from-skip fuel k [] rest prev e s m =
      let same : fuel ≡ k = omega arith in
      ap (λ n. find_from n c host port path (first rest none)) same
  find_from-skip zero k (q ∷ qs) rest prev e s m = absurd (omega arith)
  find_from-skip (suc fuel) k (q ∷ qs) rest prev e ((bq, hq, ep, en), s) ((b, h, miss), ms) =
      let same : bq ≡ record b { freed = false } = cc in
      let next_is : b.next ≡ first (qs ++ rest) none = ap (λ t. t.next) (sym same) ∙ en in
      rw (get-ok c q h, miss)
        (ap (find_from fuel c host port path) next_is
          ∙ find_from-skip fuel k qs rest (some q) (omega arith) s ms)

  find_from-none : (k : ℕ) → find_from k c host port path none ≡ ok (c, none)
  unfolding find_from
  find_from-none zero = refl
  find_from-none (suc k) = refl

  -- A search for what the list does not hold finds nothing and changes nothing.
  pub in_cache-miss :
      (fuel : ℕ) (ps : List ℕ)
      → Listed c ps
      → Misses ps
      → length ps ≤ fuel
      → in_cache fuel c host port path ≡ ok (c, none)
  unfolding in_cache
  in_cache-miss fuel ps is m enough =
      let whole = subst (λ qs. Segment c.store none qs none) (sym (append-nil ps)) is.linked in
      ap (find_from fuel c host port path)
        (is.head_is ∙ ap (λ qs. first qs none) (sym (append-nil ps)))
      ∙ find_from-skip fuel (fuel - length ps) ps [] none (omega arith) whole m
      ∙ find_from-none (fuel - length ps)

  increment_ref-Listed :
      (d : Cache) (p : ℕ) (b : Block) (ps : List ℕ)
      → Listed d (p ∷ ps)
      → Holds d.store p b
      → (e : Cache) × (increment_ref d p ≡ ok e)
        × Listed e (p ∷ ps)
        × (e.cache_size ≡ d.cache_size)
        × ((b' : Block) × Holds e.store p b'
            × (b'.refcnt ≡ add32 b.refcnt 1)
            × (b'.payload ≡ b.payload))
  unfolding increment_ref
  increment_ref-Listed d p b ps is h =
      let b' : Block = record b { refcnt = add32 b.refcnt 1 } in
      let ((bp, hp, ep, en), rest) = is.linked in
      let same : bp ≡ b = cc in
      let prev_is : b.prev ≡ none = ap (λ t. t.prev) (sym same) ∙ ep in
      let next_is : b.next ≡ first ps none = ap (λ t. t.next) (sym same) ∙ en in
      (
        put d p b',
        rw (get-ok d p h) refl,
        record {
          head_is = is.head_is;
          tail_is = is.tail_is;
          linked =
              Segment-new_prev d.store p ps none none none b' is.distinct is.linked prev_is next_is;
          distinct = is.distinct;
        },
        refl,
        (b', Holds-self d.store p b' h, refl, refl),
      )

  found :
      (k p : ℕ) (b : Block) (v e : Cache)
      → Holds c.store p (unfreed b)
      → matches host port path b ≡ true
      → visit c p ≡ ok v
      → increment_ref v p ≡ ok e
      → find_from (suc k) c host port path (some p) ≡ ok (e, some p)
  unfolding find_from
  found k p b v e h match moved done = rw (get-ok c p h, match, moved, done) refl

  -- If the cache is a doubly linked list of distinct blocks, p is a block of it whose names are
  -- not freed and match, no block before it matches, and the fuel is more than the number of
  -- those, in_cache returns p: p is now the first block, the others follow in their order, its
  -- count is one more (as an int), its payload is as it was, and cache_size is unchanged.
  pub in_cache-hit :
      (fuel : ℕ) (pre : List ℕ) (p : ℕ) (post : List ℕ) (b : Block)
      → Listed c (pre ++ p ∷ post)
      → Holds c.store p (unfreed b)
      → matches host port path b ≡ true
      → Misses pre
      → length pre ≤ fuel
      → (d : Cache) × (in_cache (suc fuel) c host port path ≡ ok (d, some p))
        × Listed d (p ∷ pre ++ post)
        × (d.cache_size ≡ c.cache_size)
        × ((b' : Block) × Holds d.store p b'
            × (b'.refcnt ≡ add32 b.refcnt 1)
            × (b'.payload ≡ b.payload))
  unfolding in_cache
  in_cache-hit fuel pre p post b is h match m enough =
      let (v, moved, listed, same, (bv, hv, rv, pv, fv)) =
        visit-Listed c pre p post (unfreed b) is h in
      let (e, done, listed', same', (be, he, re, pe)) =
        increment_ref-Listed v p bv (pre ++ post) listed hv in
      (
        e,
        ap (find_from (suc fuel) c host port path) is.head_is
            ∙ find_from-skip (suc fuel) (suc (fuel - length pre)) pre (p ∷ post) none (omega arith)
                is.linked m
            ∙ found (fuel - length pre) p b v e h match moved done,
        listed',
        same' ∙ same,
        (be, he, re ∙ ap (λ n. add32 n 1) rv, pe ∙ pv),
      )
