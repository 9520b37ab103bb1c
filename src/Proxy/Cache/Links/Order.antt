-- ===== src/Proxy/Cache/Links/Order.antt =====
-- The order of proxy/cache.c: `visit` moves a block to the front, `removeLRU` takes the last one.
use systems_labs.Base.{
  ℕ, ◌≡◌, ◌≢◌, inl, inr, refl, ◌∙◌, sym, ap, true, false, Option, none, some, List, [], ◌∷◌, ◌++◌,
  Run, ok, fail, Fault, ◌>>=◌, ◌==◌, arith, set, sub64, Bool-cases,
}
use Fault.{null_pointer}
use systems_labs.Proxy.Cache.{
  Block, Cache, put, update, pointer, same_pointer, insert_before, insert_head, remove_block,
  remove_lru, free_block,
}
use systems_labs.Proxy.Cache.Links.{
  last_or, Holds, NotIn, Distinct, Listed, get-ok, update-ok, Holds-self, Holds-other,
  Segment-apart, Segment-new_prev, last_of, last_or-last_of, last_of-Holds, Segment-new_next,
  Segment-split,
}

-- `r` ends in a cache of `p`, which was `b` and has kept its count and payload, and then the blocks
-- `ps`, as large as `c`.
abbrev pub Reordered : Cache → ℕ → Block → List ℕ → Run Cache → Type 0
Reordered c p b ps r =
    (d : Cache) × (r ≡ ok d)
    × Listed d (p ∷ ps)
    × (d.cache_size ≡ c.cache_size)
    × ((b' : Block) × Holds d.store p b'
        × (b'.refcnt ≡ b.refcnt)
        × (b'.payload ≡ b.payload)
        × (b'.freed ≡ b.freed))

-- A block that is not in the list becomes its first.
pub insert_head-Listed :
    (c : Cache) (p : ℕ) (b : Block) (qs : List ℕ)
    → Holds c.store p b
    → NotIn p qs
    → Listed c qs
    → Reordered c p b qs (insert_head c p)
unfolding insert_head insert_before
insert_head-Listed c p b [] h apart is =
    let b' : Block = record b { prev = none; next = none } in
    (
      put (record c { head = some p; tail = some p }) p b',
      ap (insert_before c p) is.head_is
          ∙ update-ok (record c { head = some p; tail = some p }) p
              (λ b. record b { prev = none; next = none }) h,
      record {
        head_is = refl;
        tail_is = refl;
        linked = ((b', Holds-self c.store p b' h, refl, refl), tt);
        distinct = (tt, tt);
      },
      refl,
      (b', Holds-self c.store p b' h, refl, refl, refl),
    )
insert_head-Listed c p b (q ∷ qs) h (ne, apart) is =
    let ((bq, hq, epq, enq), rest) = is.linked in
    let bq' : Block = record bq { prev = some p } in
    let b' : Block = record b { next = some q; prev = none } in
    let h1 = Holds-other c.store (some bq') (λ e. ne (sym e)) h in
    let linked1 =
      Segment-new_prev c.store q qs none (some p) none bq' is.distinct is.linked refl enq in
    (
      record (put (put c q bq') p b') { head = some p },
      ap (insert_before c p) is.head_is
          ∙ rw
              (
                update-ok c q (λ b. record b { prev = some p }) hq,
                update-ok (put c q bq') p (λ b. record b { next = some q; prev = none }) h1,
              )
              refl,
      record {
        head_is = refl;
        tail_is = is.tail_is;
        linked = (
          (b', Holds-self (set c.store q (some bq')) p b' h1, refl, refl),
          Segment-apart (set c.store q (some bq')) p (some b') (q ∷ qs) (some p) none (ne, apart)
              linked1,
        );
        distinct = ((ne, apart), is.distinct);
      },
      refl,
      (b', Holds-self (set c.store q (some bq')) p b' h1, refl, refl, refl),
    )

pub NotIn-split : (p : ℕ) (xs ys : List ℕ) → NotIn p (xs ++ ys) → NotIn p xs × NotIn p ys
NotIn-split p [] ys a = (tt, a)
NotIn-split p (x ∷ xs) ys (ne, a) = let parts = NotIn-split p xs ys a in ((ne, parts.0), parts.1)

pub NotIn-join : (p : ℕ) (xs ys : List ℕ) → NotIn p xs → NotIn p ys → NotIn p (xs ++ ys)
NotIn-join p [] ys a b = b
NotIn-join p (x ∷ xs) ys (ne, a) b = (ne, NotIn-join p xs ys a b)

pub Distinct-left : (xs ys : List ℕ) → Distinct (xs ++ ys) → Distinct xs
Distinct-left [] ys d = tt
Distinct-left (x ∷ xs) ys (a, d) = ((NotIn-split x xs ys a).0, Distinct-left xs ys d)

pub Distinct-right : (xs ys : List ℕ) → Distinct (xs ++ ys) → Distinct ys
Distinct-right [] ys d = d
Distinct-right (x ∷ xs) ys (a, d) = Distinct-right xs ys d

-- A block taken out of the middle is nowhere else.
pub taken_out :
    (p : ℕ) (xs ys : List ℕ) → Distinct (xs ++ p ∷ ys) → NotIn p (xs ++ ys) × Distinct (xs ++ ys)
taken_out p [] ys d = d
taken_out p (x ∷ xs) ys (a, d) =
    let parts = NotIn-split x xs (p ∷ ys) a in
    let rest = taken_out p xs ys d in
    (((λ e. parts.1.0 (sym e)), rest.0), (NotIn-join x xs ys parts.0 parts.1.1, rest.1))

pub last-NotIn : (x : ℕ) (xs ys : List ℕ) → Distinct ((x ∷ xs) ++ ys) → NotIn (last_of x xs) ys
last-NotIn x [] ys (a, d) = a
last-NotIn x (y ∷ xs) ys (a, d) = last-NotIn y xs ys d

pub first-NotIn : (c : ℕ) (xs cs : List ℕ) → Distinct (xs ++ c ∷ cs) → NotIn c xs
first-NotIn c [] cs d = tt
first-NotIn c (x ∷ xs) cs (a, d) =
    ((λ e. (NotIn-split x xs (c ∷ cs) a).1.0 (sym e)), first-NotIn c xs cs d)

pub last_or-append :
    (o : Option ℕ) (xs : List ℕ) (p : ℕ) (ys : List ℕ)
    → last_or o (xs ++ p ∷ ys) ≡ last_or (some p) ys
last_or-append o [] p ys = refl
last_or-append o (x ∷ xs) p ys = last_or-append (some x) xs p ys

pub other_pointer : (p q : ℕ) → p ≢ q → same_pointer (some p) (some q) ≡ false
other_pointer p q ne = ground (arith, ne)

pub same_self : (p : ℕ) → same_pointer (some p) (some p) ≡ true
same_self p = ground arith

-- If the cache is a list of a single block, removeLRU follows a null pointer.
pub remove_lru-single : (c : Cache) (z : ℕ) → Listed c (z ∷ []) → remove_lru c ≡ fail null_pointer
unfolding remove_lru remove_block
remove_lru-single c z is =
    let ((b, h, ep, en), rest) = is.linked in
    ap (remove_block c) is.tail_is ∙ rw (get-ok c z h, ep) refl

-- A block whose names are not freed.
abbrev pub unfreed : Block → Block
unfreed b = record b { freed = false }

free_block-ok :
    (c : Cache) (z : ℕ) (b : Block)
    → Holds c.store z (unfreed b)
    → (o : Option Block) × (free_block c z ≡ ok (record c { store = set c.store z o }))
unfolding free_block
free_block-ok c z b h = elim (Bool-cases (b.refcnt == 0)) [
  | inl t ↦ (none, rw (get-ok c z h, t) refl)
  | inr f ↦ (some (record (unfreed b) { dead = true; freed = true }), rw (get-ok c z h, f) refl)
]

-- If the cache is a doubly linked list of at least two distinct blocks, the names of the last not
-- freed, removeLRU returns: the list is the others in their order, linked in both directions with
-- head and tail at its ends, and cache_size is less by the size of the last block.
pub remove_lru-last :
    (c : Cache) (x : ℕ) (xs : List ℕ) (z : ℕ) (b : Block)
    → Listed c ((x ∷ xs) ++ z ∷ [])
    → Holds c.store z (unfreed b)
    → (d : Cache) × (remove_lru c ≡ ok d)
      × Listed d (x ∷ xs)
      × (d.cache_size ≡ sub64 c.cache_size b.size)
unfolding remove_lru remove_block
remove_lru-last c x xs z b is h =
    let parts = Segment-split c.store (x ∷ xs) (z ∷ []) none none is.linked in
    let ((bz, hz, ez, _), _) = parts.1 in
    let same : bz ≡ unfreed b = cc in
    let l = last_of x xs in
    let (bl, hl) = last_of-Holds c.store x xs none (some z) parts.0 in
    let bl' : Block = record bl { next = none } in
    let ne : l ≢ z = (last-NotIn x xs (z ∷ []) is.distinct).0 in
    let prev_is : b.prev ≡ some l = ap (λ t. t.prev) (sym same) ∙ ez ∙ last_or-last_of x xs none in
    let rest : ℕ → Run Cache = λ prev. update c prev (λ b. record b { next = none }) >>= λ d.
    free_block (record d { tail = some prev; cache_size = sub64 d.cache_size b.size }) z in
    let c1 : Cache = record (put c l bl') {
      tail = some l;
      cache_size = sub64 c.cache_size b.size;
    } in
    let (o, freed) = free_block-ok c1 z b (Holds-other c.store (some bl') ne h) in
    let opened : remove_block c (some z) ≡ (pointer b.prev >>= rest) = rw (get-ok c z h) refl in
    let linked1 =
      Segment-new_next c.store x xs none (some z) none bl
        (Distinct-left (x ∷ xs) (z ∷ []) is.distinct) parts.0 hl in
    (
      record c1 { store = set c1.store z o },
      ap (remove_block c) (is.tail_is ∙ last_or-append none (x ∷ xs) z [])
          ∙ opened
          ∙ ap (λ p. pointer p >>= rest) prev_is
          ∙ rw (update-ok c l (λ b. record b { next = none }) hl) freed,
      record {
        head_is = is.head_is;
        tail_is = sym (last_or-last_of x xs none);
        linked =
            Segment-apart (set c.store l (some bl')) z o (x ∷ xs) none none
              (first-NotIn z (x ∷ xs) [] is.distinct) linked1;
        distinct = Distinct-left (x ∷ xs) (z ∷ []) is.distinct;
      },
      refl,
    )
