-- ===== src/Malloc/Allocate/Lists.antt =====
-- The search of malloc/mm.c for a free block, `find_fit`, over lists that are linked as they should be.
use systems_labs.Base.{
  List-cases, ℕ, zero, suc, ◌+◌, ◌-◌, ◌^◌, ◌≤◌, ◌<◌, ◌≡◌, ◌⊎◌, inl, inr, refl, ◌∙◌, ap, false, List,
  [], ◌∷◌, ok, arith, some, get_elem?, length, ◌==◌, ltb, Bool-cases,
}
use mathlib.Core.Path.{subst}
use systems_labs.Malloc.Memory.{Heap}
use systems_labs.Malloc.Memory.Words.{IsHeap}
use systems_labs.Malloc.Size.{get_seglist_ind}
use systems_labs.Malloc.Size.Laws.{get_seglist_ind-IsBucket, get_seglist_ind-later}
use systems_labs.Malloc.Links.{get_root}
use systems_labs.Malloc.Links.Chain.{first, above_null, IsSized, Segment}
use systems_labs.Malloc.Links.Add.{get_root-ok}
use systems_labs.Malloc.Allocate.{first_root, find_fit}
use systems_labs.Malloc.Allocate.Fit.{All, Good-pos, find_in_list-Found}

All-map : {P Q : ℕ → Type 0} → ((c : ℕ) → P c → Q c) → (cs : List ℕ) → All P cs → All Q cs
All-map f [] a = tt
All-map f (c ∷ cs) (here, rest) = (f c here, All-map f cs rest)

-- The blocks that `lists` gives are linked from the roots, each in the list of its size.
pub record IsSorted (sizes : ℕ → ℕ) (h : Heap) (lists : ℕ → List ℕ) : Type 0 where
  pub root : (j : ℕ) → j < 15 → get_elem? h.free_root j ≡ some (first (lists j) 0)
  pub linked : (j : ℕ) → j < 15 → Segment sizes h 0 (lists j) 0
  pub bucket :
      (j : ℕ)
      → j < 15
      → All (λ c. (get_seglist_ind (sizes c) ≡ j) × (16 ≤ sizes c) × (sizes c < 2 ^ 64)) (lists j)

module _ (sizes : ℕ → ℕ) (h : Heap) (is : IsHeap h) (lists : ℕ → List ℕ)
    (sorted : IsSorted sizes h lists) where
  abbrev FirstRoot : (left i r : ℕ) → Type 0
  FirstRoot left i r =
      ((r ≡ 0) × ((j : ℕ) → i ≤ j → j < i + left → lists j ≡ []))
      ⊎ ((j : ℕ) × (i ≤ j) × (j < i + left) × (cs : List ℕ) × (lists j ≡ r ∷ cs))

  list_head : (j : ℕ) (r : ℕ) (cs : List ℕ) → j < 15 → lists j ≡ r ∷ cs → IsSized sizes h r
  list_head j r cs below e =
      let list : Segment sizes h 0 (r ∷ cs) 0 =
        subst (λ bs. Segment sizes h 0 bs 0) e (sorted.linked j below) in
      list.0

  first_root-FirstRoot :
      (left i : ℕ) → i + left ≤ 15 → (r : ℕ) × (first_root left h i ≡ ok r) × FirstRoot left i r
  unfolding first_root
  first_root-FirstRoot zero i hi = (0, refl, inl (refl, λ j lo below. absurd (omega arith)))
  first_root-FirstRoot (suc left) i hi = elim (List-cases (lists i)) [
    | inl e ↦
        let (r, returns, found) = first_root-FirstRoot left (i + 1) (omega arith) in
        let root : get_root h i ≡ ok 0 =
          get_root-ok h i (sorted.root i (omega arith) ∙ ap (λ bs. some (first bs 0)) e) in
        (r, rw root returns, here_or_later e found)
    | inr (c, cs, e) ↦
        let root : get_root h i ≡ ok c =
          get_root-ok h i (sorted.root i (omega arith) ∙ ap (λ bs. some (first bs 0)) e) in
        let some_root : (c == 0) ≡ false =
          ground (arith, above_null is (list_head i c cs (omega arith) e).0) in
        (c, rw (root, some_root) refl, inr (i, omega arith, omega arith, cs, e))
  ]
    where
      here_or_later : {r : ℕ} → lists i ≡ [] → FirstRoot left (i + 1) r → FirstRoot (suc left) i r
      here_or_later e (inl (er, empty)) = inl (
        er,
        λ j lo below. elim (Bool-cases (i == j)) [
          | inl t ↦ let same : i ≡ j = ground arith in rw (← same) e
          | inr f ↦ empty j (ground arith) (omega arith)
        ],
      )
      here_or_later e (inr (j, lo, below, cs, there)) = inr (j, omega arith, omega arith, cs, there)

  module _ (asize : ℕ) (P : ℕ → Type 0) (all : (j : ℕ) → j < 15 → All P (lists j))
      (least : 16 ≤ asize) (narrow : asize < 2 ^ 64) where
    -- A free block of the lists that is large enough, or none if none is.
    abbrev pub Fit : ℕ → Type 0
    Fit r =
        ((r ≡ 0) × ((j : ℕ) → j < 15 → All (λ c. sizes c < asize) (lists j)))
        ⊎ (IsSized sizes h r × (asize ≤ sizes r) × P r)

    index : ℕ
    index = get_seglist_ind asize

    later_list : (j r : ℕ) (cs : List ℕ) → index < j → j < 15 → lists j ≡ r ∷ cs → Fit r
    unfolding index
    later_list j r cs above below e =
        let bucket =
          subst (All (λ c. (get_seglist_ind (sizes c) ≡ j) × (16 ≤ sizes c) × (sizes c < 2 ^ 64))) e
            (sorted.bucket j below) in
        let (same, wide, small) = bucket.0 in
        let less =
          get_seglist_ind-later asize (sizes r) least narrow wide small (omega (arith, same)) in
        inr (list_head j r cs below e, omega (arith, less), (subst (All P) e (all j below)).0)

    all_small :
        All (λ c. sizes c < asize) (lists index)
        → ((j : ℕ) → index < j → j < 15 → lists j ≡ [])
        → (j : ℕ) → j < 15
        → All (λ c. sizes c < asize) (lists j)
    unfolding index
    all_small here later j below = elim (Bool-cases (ltb j index)) [
      | inl t ↦
          All-map
            (λ c (same, wide, small).
              get_seglist_ind-later (sizes c) asize wide small least narrow (ground (arith, same)))
            (lists j) (sorted.bucket j below)
      | inr f ↦ elim (Bool-cases (index == j)) [
        | inl e ↦ let same : index ≡ j = ground arith in rw (← same) here
        | inr ne ↦ rw (later j (ground arith) below) tt
      ]
    ]

    -- On a heap with IsHeap: if the fifteen lists are linked and each holds the blocks of its
    -- sizes, and the fuel is at least the length of each list, find_fit of a block size from 16
    -- up returns: either NULL, and then no block of any list is large enough, or a free block of
    -- the lists that is at least as large as asked (it has every property that all blocks of the
    -- lists have).
    pub find_fit-Fit :
        (fuel : ℕ)
        → ((j : ℕ) → j < 15 → length (lists j) ≤ fuel)
        → (r : ℕ) × (find_fit fuel h asize ≡ ok r) × Fit r
    unfolding find_fit index
    find_fit-Fit fuel enough =
        let below : index < 15 = omega (arith, (get_seglist_ind-IsBucket asize least narrow).0) in
        let (r, returns, found) =
          find_in_list-Found sizes h is asize P fuel (lists index) 0 0 0 (sorted.linked index below)
            (all index below) (enough index below) (inl refl) in
        let root = get_root-ok h index (sorted.root index below) in
        elim found [
          | inl (er, _, small) ↦
              let (s, returns_s, first) =
                first_root-FirstRoot (15 - (index + 1)) (index + 1) (omega arith) in
              (
                s,
                rw (root, returns, er) returns_s,
                elim first [
                  | inl (es, empty) ↦
                      inl (es, all_small small (λ j a b. empty j (omega arith) (omega arith)))
                  | inr (j, lo, hi, cs, e) ↦ later_list j s cs (omega arith) (omega arith) e
                ],
              )
          | inr good ↦ (r, rw (root, returns, Good-pos sizes h is asize P r good) refl, inr good)
        ]
