-- ===== src/Proxy/Cache/Tests.antt =====
-- Runs of proxy/cache.c by evaluation, and the theorems at concrete caches.
use systems_labs.Base.{
  ℕ, ◌≡◌, refl, true, false, Option, none, some, List, [], ◌∷◌, Run, ok, fail, Fault, ◌>>=◌, arith,
  sub64,
}
use Fault.{dangling}
use systems_labs.Proxy.Cache.{
  matches, Block, Cache, get, update, insert_before, insert_head, visit, increment_ref,
  decrement_ref, same_text, find_from, in_cache, remove_lru, make_space, insert, init_cache,
}
use systems_labs.Proxy.Cache.Links.{Holds, Listed}
use systems_labs.Proxy.Cache.Links.Order.{Reordered, remove_lru-last}
use systems_labs.Proxy.Cache.Links.Visit.{visit-Listed}
use systems_labs.Proxy.Cache.Links.Lookup.{Misses, in_cache-hit}

abbrev nothing : Cache
nothing = record { store = []; head = none; tail = none; cache_size = 0 }

abbrev host : List ℕ
host = b'h' ∷ []

abbrev path : List ℕ
path = b'/' ∷ []

abbrev port : List ℕ
port = b'8' ∷ b'0' ∷ []

-- The first hit on a block that `insert` put in counts on from what the memory held.
abbrev first_hit : Run (Option ℕ × Option ℕ)
first_hit = do
  c ← insert 9 77 (init_cache nothing) path port host (1 ∷ 2 ∷ []) 2
  (c, p) ← in_cache 9 c host port path
  block ← get c 0
  ok (p, some block.refcnt)

first_hit-garbage : first_hit ≡ ok (some 0, some 78)
unfolding insert in_cache find_from visit increment_ref get insert_head insert_before update
    same_text make_space init_cache
first_hit-garbage = refl

abbrev block : (prev next : Option ℕ) → Block
block prev next = record {
  size = 5;
  payload = [];
  host = host;
  path = path;
  port = port;
  prev = prev;
  next = next;
  refcnt = 0;
  dead = false;
  freed = false;
}

abbrev three : Cache
three = record {
  store =
      some (block none (some 1))
      ∷ some (block (some 0) (some 2))
      ∷ some (block (some 1) none)
      ∷ some (block none none)
      ∷ [];
  head = some 0;
  tail = some 2;
  cache_size = 15;
}

three-Listed : Listed three (0 ∷ 1 ∷ 2 ∷ [])
three-Listed = record {
  head_is = refl;
  tail_is = refl;
  linked = (
    (block none (some 1), refl, refl, refl),
    ((block (some 0) (some 2), refl, refl, refl), ((block (some 1) none, refl, refl, refl), tt)),
  );
  distinct = (((λ e. omega arith), ((λ e. omega arith), tt)), (((λ e. omega arith), tt), (tt, tt)));
}

visit-Listed_example : Reordered three 1 (block (some 0) (some 2)) (0 ∷ 2 ∷ []) (visit three 1)
visit-Listed_example =
    visit-Listed three (0 ∷ []) 1 (2 ∷ []) (block (some 0) (some 2)) three-Listed refl

remove_lru-last_example :
    (d : Cache) × (remove_lru three ≡ ok d) × Listed d (0 ∷ 1 ∷ []) × (d.cache_size ≡ sub64 15 5)
remove_lru-last_example = remove_lru-last three 0 (1 ∷ []) 2 (block (some 1) none) three-Listed refl

abbrev single : Cache
single = record {
  store = some (block none none) ∷ [];
  head = some 0;
  tail = some 0;
  cache_size = 5;
}

single-Listed : Listed single (0 ∷ [])
single-Listed = record {
  head_is = refl;
  tail_is = refl;
  linked = ((block none none, refl, refl, refl), tt);
  distinct = (tt, tt);
}

-- A dead block whose payload is in use twice is freed by the first of the two users, and its lock is
-- released after that.
abbrev shared : Cache
shared = record {
  store = some (record (block none none) { refcnt = 2; dead = true; freed = true }) ∷ [];
  head = none;
  tail = none;
  cache_size = 0;
}

shared-dangling : decrement_ref shared 0 ≡ fail dangling
unfolding decrement_ref get
shared-dangling = refl

-- A dead block that nobody uses any more is never freed.
abbrev last_user : Run Cache
last_user =
    decrement_ref
      (record shared {
        store = some (record (block none none) { refcnt = 1; dead = true; freed = true }) ∷ [];
      })
      0

last_user-leaks :
    last_user
    ≡ ok (record shared {
      store = some (record (block none none) { refcnt = 0; dead = true; freed = true }) ∷ [];
    })
unfolding decrement_ref get
last_user-leaks = refl

three-matches : matches host port path (block none (some 1)) ≡ true
unfolding same_text
three-matches = refl

in_cache-hit_example :
    (d : Cache) × (in_cache 3 three host port path ≡ ok (d, some 0))
    × Listed d (0 ∷ 1 ∷ 2 ∷ [])
    × (d.cache_size ≡ 15)
    × ((b : Block) × Holds d.store 0 b × (b.refcnt ≡ 1) × (b.payload ≡ []))
in_cache-hit_example =
    in_cache-hit three host port path 2 [] 0 (1 ∷ 2 ∷ []) (block none (some 1)) three-Listed refl
      three-matches tt (omega arith)

abbrev elsewhere : List ℕ
elsewhere = b'x' ∷ []

three-Misses : Misses three elsewhere port path (0 ∷ 1 ∷ 2 ∷ [])
unfolding same_text
three-Misses = (
  (block none (some 1), refl, refl),
  ((block (some 0) (some 2), refl, refl), ((block (some 1) none, refl, refl), tt)),
)
