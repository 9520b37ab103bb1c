-- ===== src/Proxy/Cache/Links/Visit.antt =====
-- `visit` of proxy/cache.c moves a block to the front.
use systems_labs.Base.{
  ℕ, ◌≡◌, ◌≢◌, refl, ◌∙◌, sym, ap, true, false, none, some, List, [], ◌∷◌, ◌++◌, Run, ok, ◌>>=◌,
  set,
}
use mathlib.Core.List.{append-nil}
use mathlib.Core.Path.{subst}
use systems_labs.Proxy.Cache.{
  Block, Cache, put, same_pointer, insert_head, unlink_last, unlink_inner, visit,
}
use systems_labs.Proxy.Cache.Links.{
  last_or, Holds, Segment, NotIn, Listed, get-ok, update-ok, Holds-other, Segment-apart,
  Segment-new_prev, last_of, last_or-last_of, last_of-Holds, Segment-new_next, Segment-split,
  Segment-join,
}
use systems_labs.Proxy.Cache.Links.Order.{
  Reordered, insert_head-Listed, NotIn-split, Distinct-left, Distinct-right, taken_out, last-NotIn,
  first-NotIn, last_or-append, other_pointer, same_self,
}

-- The list without `p`, which is kept as it was.
abbrev Unlinked : Cache → (p : ℕ) → Block → List ℕ → Run Cache → Type 0
Unlinked c p b ps r =
    (d : Cache) × (r ≡ ok d) × Listed d ps × Holds d.store p b × (d.cache_size ≡ c.cache_size)

module _ (c : Cache) (x : ℕ) (xs : List ℕ) (p : ℕ) (b : Block) (h : Holds c.store p b) where
  unlink_last-Unlinked :
      Listed c ((x ∷ xs) ++ p ∷ []) → Unlinked c p b (x ∷ xs) (unlink_last c b.prev)
  unfolding unlink_last
  unlink_last-Unlinked is =
      let parts = Segment-split c.store (x ∷ xs) (p ∷ []) none none is.linked in
      let ((bp, hp, ep, _), _) = parts.1 in
      let same : bp ≡ b = cc in
      let l = last_of x xs in
      let (bl, hl) = last_of-Holds c.store x xs none (some p) parts.0 in
      let bl' : Block = record bl { next = none } in
      let prev_is : b.prev ≡ some l =
        ap (λ t. t.prev) (sym same) ∙ ep ∙ last_or-last_of x xs none in
      let ne : l ≢ p = (last-NotIn x xs (p ∷ []) is.distinct).0 in
      (
        record (put c l bl') { tail = some l },
        ap (unlink_last c) prev_is ∙ rw (update-ok c l (λ b. record b { next = none }) hl) refl,
        record {
          head_is = is.head_is;
          tail_is = sym (last_or-last_of x xs none);
          linked =
              Segment-new_next c.store x xs none (some p) none bl
                (Distinct-left (x ∷ xs) (p ∷ []) is.distinct) parts.0 hl;
          distinct = Distinct-left (x ∷ xs) (p ∷ []) is.distinct;
        },
        Holds-other c.store (some bl') ne h,
        refl,
      )

  unlink_inner-Unlinked :
      (n : ℕ) (ns : List ℕ)
      → Listed c ((x ∷ xs) ++ p ∷ n ∷ ns)
      → Unlinked c p b ((x ∷ xs) ++ n ∷ ns) (unlink_inner c b.prev b.next)
  unfolding unlink_inner
  unlink_inner-Unlinked n ns is =
      let parts = Segment-split c.store (x ∷ xs) (p ∷ n ∷ ns) none none is.linked in
      let ((bp, hp, ep, en), after) = parts.1 in
      let same : bp ≡ b = cc in
      let l = last_of x xs in
      let (bl, hl) = last_of-Holds c.store x xs none (some p) parts.0 in
      let bl' : Block = record bl { next = some n } in
      let prev_is : b.prev ≡ some l =
        ap (λ t. t.prev) (sym same) ∙ ep ∙ last_or-last_of x xs none in
      let next_is : b.next ≡ some n = ap (λ t. t.next) (sym same) ∙ en in
      let apart = last-NotIn x xs (p ∷ n ∷ ns) is.distinct in
      let right = Distinct-right (x ∷ xs) (p ∷ n ∷ ns) is.distinct in
      let left1 =
        Segment-new_next c.store x xs none (some p) (some n) bl
          (Distinct-left (x ∷ xs) (p ∷ n ∷ ns) is.distinct) parts.0 hl in
      let store1 = set c.store l (some bl') in
      let right1 = Segment-apart c.store l (some bl') (n ∷ ns) (some p) none apart.1 after in
      let ((bn, hn, epn, enn), _) = right1 in
      let bn' : Block = record bn { prev = some l } in
      let out = taken_out p (x ∷ xs) (n ∷ ns) is.distinct in
      let right2 =
        Segment-new_prev store1 n ns (some p) (some l) none bn' right.1 right1 refl enn in
      let left2 =
        Segment-apart store1 n (some bn') (x ∷ xs) none (some n) (first-NotIn n (x ∷ xs) ns out.1)
          left1 in
      (
        put (put c l bl') n bn',
        ap (λ q. unlink_inner c q b.next) prev_is
            ∙ ap (unlink_inner c (some l)) next_is
            ∙ rw (update-ok c l (λ b. record b { next = some n }) hl)
                (update-ok (put c l bl') n (λ b. record b { prev = some l }) hn),
        record {
          head_is = is.head_is;
          tail_is =
              is.tail_is
              ∙ last_or-append none (x ∷ xs) p (n ∷ ns)
              ∙ sym (last_or-append none (x ∷ xs) n ns);
          linked = Segment-join (set store1 n (some bn')) (x ∷ xs) (n ∷ ns) none none left2 (
              subst (λ o. Segment (set store1 n (some bn')) o (n ∷ ns) none)
                (sym (last_or-last_of x xs none)) right2);
          distinct = out.1;
        },
        Holds-other store1 (some bn') (λ e. right.0.0 (sym e))
            (Holds-other c.store (some bl') apart.0 h),
        refl,
      )

then_front :
    (c : Cache) (p : ℕ) (b : Block) (ps : List ℕ) (r : Run Cache)
    → NotIn p ps
    → Unlinked c p b ps r
    → Reordered c p b ps (r >>= λ d. insert_head d p)
then_front c p b ps r apart (d, returns, is, h, size) =
    let (e, done, listed, same, kept) = insert_head-Listed d p b ps h apart is in
    (e, rw (returns, done) refl, listed, same ∙ size, kept)

not_first :
    (c : Cache) (x : ℕ) (xs : List ℕ) (p : ℕ) (ys : List ℕ)
    → Listed c ((x ∷ xs) ++ p ∷ ys)
    → same_pointer (some p) c.head ≡ false
not_first c x xs p ys is =
    ap (same_pointer (some p)) is.head_is
    ∙ other_pointer p x (λ e. (NotIn-split x xs (p ∷ ys) is.distinct.0).1.0 (sym e))

tail_value :
    (c : Cache) (xs : List ℕ) (p : ℕ) (ys : List ℕ)
    → Listed c (xs ++ p ∷ ys)
    → c.tail ≡ last_or (some p) ys
tail_value c xs p ys is = is.tail_is ∙ last_or-append none xs p ys

not_last : (c : Cache) (p n : ℕ) (ns : List ℕ) → NotIn p (n ∷ ns) → p ≢ last_of n ns
not_last c p n [] (ne, rest) e = ne e
not_last c p n (m ∷ ms) (ne, rest) e = not_last c p m ms rest e

-- If the cache is a doubly linked list of distinct blocks with head and tail at its ends and p is
-- one of them, visit of p returns: the list is p, then the others in their order, linked in both
-- directions with head and tail at its ends, cache_size is unchanged and p has kept its count and
-- its payload, whether it was first, last or in between.
pub visit-Listed :
    (c : Cache) (pre : List ℕ) (p : ℕ) (post : List ℕ) (b : Block)
    → Listed c (pre ++ p ∷ post)
    → Holds c.store p b
    → Reordered c p b (pre ++ post) (visit c p)
unfolding visit
visit-Listed c [] p post b is h =
    let front : same_pointer (some p) c.head ≡ true =
      ap (same_pointer (some p)) is.head_is ∙ same_self p in
    (c, rw (get-ok c p h, front) refl, is, refl, (b, h, refl, refl, refl))
visit-Listed c (x ∷ xs) p [] b is h =
    let inner : same_pointer (some p) c.head ≡ false = not_first c x xs p [] is in
    let last : same_pointer (some p) c.tail ≡ true =
      ap (same_pointer (some p)) (tail_value c (x ∷ xs) p [] is) ∙ same_self p in
    let out = taken_out p (x ∷ xs) [] is.distinct in
    let nil = append-nil xs in
    rw (get-ok c p h, inner, last, nil)
      (then_front c p b (x ∷ xs) (unlink_last c b.prev)
        (subst (NotIn p) (append-nil (x ∷ xs)) out.0) (unlink_last-Unlinked c x xs p b h is))
visit-Listed c (x ∷ xs) p (n ∷ ns) b is h =
    let inner : same_pointer (some p) c.head ≡ false = not_first c x xs p (n ∷ ns) is in
    let right = Distinct-right (x ∷ xs) (p ∷ n ∷ ns) is.distinct in
    let last : same_pointer (some p) c.tail ≡ false =
      ap (same_pointer (some p))
        (tail_value c (x ∷ xs) p (n ∷ ns) is ∙ last_or-last_of n ns (some p))
      ∙ other_pointer p (last_of n ns) (not_last c p n ns right.0) in
    let out = taken_out p (x ∷ xs) (n ∷ ns) is.distinct in
    rw (get-ok c p h, inner, last)
      (then_front c p b ((x ∷ xs) ++ n ∷ ns) (unlink_inner c b.prev b.next) out.0
        (unlink_inner-Unlinked c x xs p b h n ns is))
