-- ===== src/Proxy/Cache.antt =====
-- The cache of proxy/cache.c, a doubly linked list of blocks, the most recently used first. A pointer
-- is the index of a block in the store, `none` is NULL. `malloc` and the locks succeed; one thread
-- at a time holds `cache_lock`, as the callers see to.
pub mod Links
pub mod Tests
use systems_labs.Base.{
  ℕ, zero, suc, ◌+◌, ◌-◌, Bool, true, false, ◌&&◌, not, Option, none, some, List, [], ◌∷◌, ◌++◌,
  Run, ok, fail, Fault, ◌>>=◌, ◌>>◌, ◌==◌, ltb, leb, if◌then◌else◌, length, take, get_elem?, set,
  sub64, add64, add32, u32_mod, checked,
}
use Fault.{null_pointer, dangling, out_of_fuel, out_of_bounds}

-- `refcnt` is an `int` by its bit pattern. `freed` says that the three names of the block were freed.
pub record Block : Type 0 where
  pub size : ℕ
  pub payload : List ℕ
  pub host : List ℕ
  pub path : List ℕ
  pub port : List ℕ
  pub prev : Option ℕ
  pub next : Option ℕ
  pub refcnt : ℕ
  pub dead : Bool
  pub freed : Bool

-- A block that was freed is `none`.
pub record Cache : Type 0 where
  pub store : List (Option Block)
  pub head : Option ℕ
  pub tail : Option ℕ
  pub cache_size : ℕ

abbrev pub max_object_size : ℕ
max_object_size = 102400

abbrev pub max_cache_size : ℕ
max_cache_size = 1048576

abbrev pub maxline : ℕ
maxline = 8192

abbrev pub is_null : Option ℕ → Bool
is_null none = true
is_null (some p) = false

abbrev pub same_pointer : Option ℕ → Option ℕ → Bool
same_pointer none none = true
same_pointer none (some q) = false
same_pointer (some p) none = false
same_pointer (some p) (some q) = p == q

abbrev pub live : Option (Option Block) → Run Block
live none = fail dangling
live (some none) = fail dangling
live (some (some block)) = ok block

-- `*p`, and an assignment to fields of `*p`.
unfoldable pub get : Cache → ℕ → Run Block
get c p = live (get_elem? c.store p)

abbrev pub put : Cache → ℕ → Block → Cache
put c p block = record c { store = set c.store p (some block) }

unfoldable pub update : Cache → ℕ → (Block → Block) → Run Cache
update c p change = get c p >>= λ block. ok (put c p (change block))

abbrev pub pointer : Option ℕ → Run ℕ
pointer p = checked null_pointer p

abbrev pub release : Cache → ℕ → Cache
release c p = record c { store = set c.store p none }

abbrev pub empty_cache : Cache → Cache
empty_cache c = record c { head = none; tail = none; cache_size = 0 }

unfoldable pub init_cache : Cache → Cache
init_cache c = empty_cache c

unfoldable pub free_block : Cache → ℕ → Run Cache
free_block c p = do
  block ← get c p
  if block.freed then fail dangling else ok tt
  if block.refcnt == 0
      then ok (release c p)
      else ok (put c p (record block { dead = true; freed = true }))

-- The walk of `free_cache`; the fuel bounds the length of the list.
unfoldable pub free_from : (fuel : ℕ) → Cache → Option ℕ → Run Cache
free_from fuel c none = ok c
free_from zero c (some p) = fail out_of_fuel
free_from (suc fuel) c (some p) = do
  block ← get c p
  c ← free_block c p
  free_from fuel c block.next

unfoldable pub free_cache : (fuel : ℕ) → Cache → Run Cache
free_cache fuel c = free_from fuel c c.head

-- `insert_head` before the block that `head` points to.
unfoldable pub insert_before : Cache → ℕ → (head : Option ℕ) → Run Cache
insert_before c p none =
    update (record c { head = some p; tail = some p }) p
      (λ b. record b { prev = none; next = none })
insert_before c p (some h) = do
  c ← update c h (λ b. record b { prev = some p })
  c ← update c p (λ b. record b { next = some h; prev = none })
  ok (record c { head = some p })

unfoldable pub insert_head : Cache → ℕ → Run Cache
insert_head c p = insert_before c p c.head

-- `visit` takes a block that is not the first out of its place.
unfoldable pub unlink_last : Cache → (prev : Option ℕ) → Run Cache
unlink_last c p = do
  prev ← pointer p
  c ← update c prev (λ b. record b { next = none })
  ok (record c { tail = some prev })

unfoldable pub unlink_inner : Cache → (prev next : Option ℕ) → Run Cache
unlink_inner c p n = do
  prev ← pointer p
  c ← update c prev (λ b. record b { next = n })
  next ← pointer n
  update c next (λ b. record b { prev = p })

unfoldable pub visit : Cache → ℕ → Run Cache
visit c p = do
  block ← get c p
  if same_pointer (some p) c.head then ok c else (do
    c ←
        (if same_pointer (some p) c.tail
          then unlink_last c block.prev
          else unlink_inner c block.prev block.next)
    insert_head c p)

unfoldable pub increment_ref : Cache → ℕ → Run Cache
increment_ref c p = do
  block ← get c p
  ok (put c p (record block { refcnt = add32 block.refcnt 1 }))

-- The lock is released after the block was freed.
unfoldable pub decrement_ref : Cache → ℕ → Run Cache
decrement_ref c p = do
  block ← get c p
  let left = add32 block.refcnt (u32_mod - 1)
  if block.dead && not (left == 0)
      then (get (release c p) p >>= λ lock. ok (release c p))
      else ok (put c p (record block { refcnt = left }))

unfoldable pub same_text : List ℕ → List ℕ → Bool
same_text [] [] = true
same_text [] (d ∷ ds) = false
same_text (c ∷ cs) [] = false
same_text (c ∷ cs) (d ∷ ds) = let rest = same_text cs ds in if c == d then rest else false

-- `!strncmp (a, b, MAXLINE)`
abbrev pub same_line : List ℕ → List ℕ → Bool
same_line a b = same_text (take maxline a) (take maxline b)

abbrev pub matches : (host port path : List ℕ) → Block → Bool
matches host port path b = same_line host b.host && same_line port b.port && same_line path b.path

-- The walk of `in_cache`: the block that matches, which is moved to the front and counted.
unfoldable pub find_from :
    (fuel : ℕ) → Cache → (host port path : List ℕ) → Option ℕ → Run (Cache × Option ℕ)
find_from fuel c host port path none = ok (c, none)
find_from zero c host port path (some p) = fail out_of_fuel
find_from (suc fuel) c host port path (some p) = do
  block ← get c p
  if block.freed then fail dangling else ok tt
  if matches host port path block
      then (do c ← visit c p; c ← increment_ref c p; ok (c, some p))
      else find_from fuel c host port path block.next

unfoldable pub in_cache : (fuel : ℕ) → Cache → (host port path : List ℕ) → Run (Cache × Option ℕ)
in_cache fuel c host port path = find_from fuel c host port path c.head

-- `removeLRU` of the block that `tail` points to.
unfoldable pub remove_block : Cache → (tail : Option ℕ) → Run Cache
remove_block c none = ok c
remove_block c (some removed) = do
  block ← get c removed
  prev ← pointer block.prev
  c ← update c prev (λ b. record b { next = none })
  free_block (record c { tail = some prev; cache_size = sub64 c.cache_size block.size }) removed

unfoldable pub remove_lru : Cache → Run Cache
remove_lru c = remove_block c c.tail

unfoldable pub make_space : (fuel : ℕ) → Cache → ℕ → Run Cache
make_space zero c space =
    if leb (sub64 max_cache_size c.cache_size) space then fail out_of_fuel else ok c
make_space (suc fuel) c space =
    if leb (sub64 max_cache_size c.cache_size) space
    then (remove_lru c >>= λ c. make_space fuel c space)
    else ok c

-- `insert` does not set `refcnt`: `left` is what the memory from `malloc` holds there.
unfoldable pub insert :
    (fuel left : ℕ) → Cache → (path port host payload : List ℕ) → (payload_size : ℕ) → Run Cache
insert fuel left c path port host payload payload_size = do
  (c, found) ← in_cache fuel c host port path
  elim found [
    | some p ↦ decrement_ref c p
    | none ↦ do
      c ← make_space fuel c payload_size
      let block : Block = record {
        size = payload_size;
        payload = take payload_size payload;
        host = host;
        path = path;
        port = port;
        prev = none;
        next = none;
        refcnt = left;
        dead = false;
        freed = false;
      }
      let p = length c.store
      let c : Cache = record c {
        store = c.store ++ (some block ∷ []);
        cache_size = add64 c.cache_size payload_size;
      }
      insert_head c p
  ]
