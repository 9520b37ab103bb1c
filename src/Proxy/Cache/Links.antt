-- ===== src/Proxy/Cache/Links.antt =====
-- The list of proxy/cache.c: `visit`, `insert_head` and `removeLRU` on a list that is linked in both
-- directions.
pub mod Order
pub mod Visit
pub mod Lookup
use systems_labs.Base.{
  ℕ, zero, suc, ◌≡◌, ◌≢◌, ◌⊎◌, inl, inr, refl, ◌∙◌, sym, ap, Option, none, some, List, [], ◌∷◌,
  ◌++◌, Run, ok, ◌>>=◌, arith, get_elem?, get_elem?-some, get_elem?-set_self, get_elem?-set_ne, set,
  length,
}
use mathlib.Core.Path.{subst}
use systems_labs.Proxy.Cache.{Block, Cache, get, put, update}

abbrev pub first : List ℕ → Option ℕ → Option ℕ
first [] n = n
first (p ∷ ps) n = some p

abbrev pub last_or : Option ℕ → List ℕ → Option ℕ
last_or o [] = o
last_or o (p ∷ ps) = last_or (some p) ps

-- `p` points to the block.
abbrev pub Holds : List (Option Block) → ℕ → Block → Type 0
Holds store p b = get_elem? store p ≡ some (some b)

-- The blocks `ps`, linked in both directions, after `prev` and before `next`.
abbrev pub Segment : List (Option Block) → Option ℕ → List ℕ → Option ℕ → Type 0
Segment store prev [] next = Unit {0}
Segment store prev (p ∷ ps) next =
    ((b : Block) × Holds store p b × (b.prev ≡ prev) × (b.next ≡ first ps next))
    × Segment store (some p) ps next

abbrev pub NotIn : ℕ → List ℕ → Type 0
NotIn p [] = Unit {0}
NotIn p (q ∷ qs) = (p ≢ q) × NotIn p qs

abbrev pub Distinct : List ℕ → Type 0
Distinct [] = Unit {0}
Distinct (p ∷ ps) = NotIn p ps × Distinct ps

-- The cache holds the blocks `ps`, from the most to the least recently used.
pub record Listed (c : Cache) (ps : List ℕ) : Type 0 where
  pub head_is : c.head ≡ first ps none
  pub tail_is : c.tail ≡ last_or none ps
  pub linked : Segment c.store none ps none
  pub distinct : Distinct ps

pub get-ok : (c : Cache) (p : ℕ) {b : Block} → Holds c.store p b → get c p ≡ ok b
unfolding get
get-ok c p e = rw e refl

pub update-ok :
    (c : Cache) (p : ℕ) {b : Block} (change : Block → Block)
    → Holds c.store p b
    → update c p change ≡ ok (put c p (change b))
unfolding update
update-ok c p change e = rw (get-ok c p e) refl

pub Holds-self :
    (store : List (Option Block)) (p : ℕ) {b : Block} (b' : Block)
    → Holds store p b
    → Holds (set store p (some b')) p b'
Holds-self store p b' e = get_elem?-set_self store p (some b') (get_elem?-some store p e)

pub Holds-other :
    (store : List (Option Block)) {p q : ℕ} {b : Block} (b' : Option Block)
    → p ≢ q
    → Holds store q b
    → Holds (set store p b') q b
Holds-other store b' ne e = get_elem?-set_ne store b' ne ∙ e

pub Segment-apart :
    (store : List (Option Block)) (p : ℕ) (b' : Option Block) (ps : List ℕ) (prev next : Option ℕ)
    → NotIn p ps
    → Segment store prev ps next
    → Segment (set store p b') prev ps next
Segment-apart store p b' [] prev next apart s = tt
Segment-apart store p b' (q ∷ qs) prev next (ne, apart) ((b, h, ep, en), rest) =
    ((b, Holds-other store b' ne h, ep, en), Segment-apart store p b' qs (some q) next apart rest)

pub Segment-new_prev :
    (store : List (Option Block)) (p : ℕ) (ps : List ℕ) (prev prev' next : Option ℕ) (b' : Block)
    → Distinct (p ∷ ps)
    → Segment store prev (p ∷ ps) next
    → b'.prev ≡ prev'
    → b'.next ≡ first ps next
    → Segment (set store p (some b')) prev' (p ∷ ps) next
Segment-new_prev store p ps prev prev' next b' (apart, dist) ((b, h, ep, en), rest) ep' en' = (
  (b', Holds-self store p b' h, ep', en'),
  Segment-apart store p (some b') ps (some p) next apart rest,
)

-- The last block of a stretch, by its pointer.
abbrev pub last_of : ℕ → List ℕ → ℕ
last_of p [] = p
last_of p (q ∷ qs) = last_of q qs

pub last_or-last_of :
    (p : ℕ) (ps : List ℕ) (o : Option ℕ) → last_or o (p ∷ ps) ≡ some (last_of p ps)
last_or-last_of p [] o = refl
last_or-last_of p (q ∷ qs) o = last_or-last_of q qs (some p)

NotIn-last : (p q : ℕ) (qs : List ℕ) → NotIn p (q ∷ qs) → last_of q qs ≢ p
NotIn-last p q [] (ne, rest) e = ne (sym e)
NotIn-last p q (r ∷ rs) (ne, rest) e = NotIn-last p r rs rest e

pub last_of-Holds :
    (store : List (Option Block)) (p : ℕ) (ps : List ℕ) (prev next : Option ℕ)
    → Segment store prev (p ∷ ps) next
    → (b : Block) × Holds store (last_of p ps) b
last_of-Holds store p [] prev next ((b, h, ep, en), rest) = (b, h)
last_of-Holds store p (q ∷ qs) prev next (first_block, rest) =
    last_of-Holds store q qs (some p) next rest

-- Another block after the last one.
pub Segment-new_next :
    (store : List (Option Block)) (p : ℕ) (ps : List ℕ) (prev next next' : Option ℕ) (b : Block)
    → Distinct (p ∷ ps)
    → Segment store prev (p ∷ ps) next
    → Holds store (last_of p ps) b
    → Segment (set store (last_of p ps) (some (record b { next = next' }))) prev (p ∷ ps) next'
Segment-new_next store p [] prev next next' b dist ((d, h, ep, en), rest) e =
    let same : d ≡ b = cc in
    (
      (
        record b { next = next' },
        Holds-self store p (record b { next = next' }) h,
        ap (λ x. x.prev) (sym same) ∙ ep,
        refl,
      ),
      tt,
    )
Segment-new_next store p (q ∷ qs) prev next next' b (apart, dist) ((d, h, ep, en), rest) e = (
  (d, Holds-other store (some (record b { next = next' })) (NotIn-last p q qs apart) h, ep, en),
  Segment-new_next store q qs (some p) next next' b dist rest e,
)

pub first-append : (xs ys : List ℕ) (n : Option ℕ) → first (xs ++ ys) n ≡ first xs (first ys n)
first-append [] ys n = refl
first-append (x ∷ xs) ys n = refl

pub Segment-split :
    (store : List (Option Block)) (xs ys : List ℕ) (prev next : Option ℕ)
    → Segment store prev (xs ++ ys) next
    → Segment store prev xs (first ys next) × Segment store (last_or prev xs) ys next
Segment-split store [] ys prev next s = (tt, s)
Segment-split store (x ∷ xs) ys prev next ((b, h, ep, en), rest) =
    let parts = Segment-split store xs ys (some x) next rest in
    (((b, h, ep, en ∙ first-append xs ys next), parts.0), parts.1)

pub Segment-join :
    (store : List (Option Block)) (xs ys : List ℕ) (prev next : Option ℕ)
    → Segment store prev xs (first ys next)
    → Segment store (last_or prev xs) ys next
    → Segment store prev (xs ++ ys) next
Segment-join store [] ys prev next a s = s
Segment-join store (x ∷ xs) ys prev next ((b, h, ep, en), rest) s =
    ((b, h, ep, en ∙ sym (first-append xs ys next)), Segment-join store xs ys (some x) next rest s)
