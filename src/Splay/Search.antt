-- ===== src/Splay/Search.antt =====
-- malloc/stree.c: the searches down the tree, against its entries.
use systems_labs.Base.{
  ℕ, ◌+◌, ◌≤◌, ◌<◌, ◌≡◌, ◌⊎◌, inl, inr, refl, sym, ap, ◌∙◌, Bool-cases, true, false, List, [], ◌∷◌,
  ◌++◌, ltb, ltb→lt, ◌==◌, add64, arith,
}
use systems_labs.Splay.{
  Node, Frame, Place, Best, better, nothing, best, record_of, null, node, left_of, right_of, plug,
  descend, attach, find_from, nearest_from, locate,
}
use systems_labs.Splay.Entries.{
  entries, before, after, AllBelow, AllAbove, IsOrdered, lookup, last_upto,
}
use systems_labs.Splay.Order.{
  left-AllBelow, right-AllAbove, AllBelow-append, AllAbove-append, AllBelow-le, AllAbove-le,
  AllBelow-drop, IsOrdered-le, lookup_skip, lookup_stop, last_upto_above, last_upto_skip,
  last_upto_stop,
}

-- The three ways from a node.
data Way (key k : ℕ) : Type 0 where
  here : (key == k) ≡ true → key ≡ k → Way key k
  higher : (key == k) ≡ false → ltb k key ≡ true → k < key → Way key k
  lower : (key == k) ≡ false → ltb k key ≡ false → key < k → Way key k

way : (key k : ℕ) → Way key k
way key k = elim (Bool-cases (key == k)) [
  | inl same ↦ here same (ground (arith, same))
  | inr other ↦ elim (Bool-cases (ltb k key)) [
    | inl up ↦ higher other up (ltb→lt k key up)
    | inr down ↦ lower other down (ground (arith, other, down))
  ]
]

-- A search finds what the entries have at the key.
pub find_from-lookup :
    (key lo hi : ℕ) (t : Node) (count : ℕ)
    → IsOrdered lo hi t
    → (find_from key t count).1 ≡ lookup key (entries t)
unfolding find_from entries lookup IsOrdered
find_from-lookup key lo hi null count h = refl
find_from-lookup key lo hi (node l k r right) count (low, high) =
    let smaller = left-AllBelow lo k l low in
    let larger = right-AllAbove k hi right high in
    let above = AllAbove-le k key (entries right) in
    elim (way key k) [
      | here same e ↦
          let skipped =
            lookup_skip key (entries l) ((k, r) ∷ entries right)
              (AllBelow-le k key (entries l) (omega arith) smaller) in
          rw same (sym (skipped ∙ rw same refl))
      | higher other up lt ↦
          let skipped =
            lookup_skip key (entries l) ((k, r) ∷ entries right)
              (AllBelow-le k key (entries l) (omega arith) smaller) in
          rw (other, up)
            (find_from-lookup key (k + 1) hi right (add64 (add64 count 1) 1) high
              ∙ sym (skipped ∙ rw other refl))
      | lower other down lt ↦
          let stopped =
            lookup_stop key (entries l) ((k, r) ∷ entries right) (lt, above (omega arith) larger) in
          rw (other, down) (find_from-lookup key lo k l (add64 (add64 count 1) 1) low ∙ sym stopped)
    ]

-- The best node so far is below the keys that are left.
abbrev IsUnder : Best → ℕ → Type 0
IsUnder nothing lo = Unit
IsUnder (best k r) lo = k < lo

IsUnder-better :
    (n : Best) (lo k r : ℕ)
    → IsUnder n lo
    → lo ≤ k
    → (record_of (better n k r) ≡ r) × IsUnder (better n k r) (k + 1)
IsUnder-better nothing lo k r h le = (refl, omega arith)
IsUnder-better (best k' r') lo k r h le =
    let lower : ltb k' k ≡ true = ground arith in rw lower (refl, omega arith)

-- A search for the nearest finds the last entry up to the key.
pub nearest_from-last :
    (key lo hi : ℕ) (t : Node) (n : Best) (count : ℕ)
    → IsOrdered lo hi t
    → IsUnder n lo
    → (nearest_from key t n count).1 ≡ last_upto key (record_of n) (entries t)
unfolding nearest_from entries last_upto IsOrdered
nearest_from-last key lo hi null n count h u = refl
nearest_from-last key lo hi (node l k r right) n count (low, high) u =
    let smaller = left-AllBelow lo k l low in
    let larger = right-AllAbove k hi right high in
    elim (way key k) [
      | here same e ↦
          let skipped =
            last_upto_skip key (record_of n) k r (entries l) (entries right) smaller
              (omega arith) in
          let above = AllAbove-le k key (entries right) (omega arith) larger in
          rw same (sym (skipped ∙ last_upto_above key r (entries right) above))
      | higher other up lt ↦
          let skipped =
            last_upto_skip key (record_of n) k r (entries l) (entries right) smaller
              (omega arith) in
          let (same, next) = IsUnder-better n lo k r u (IsOrdered-le lo k l low) in
          let rest =
            nearest_from-last key (k + 1) hi right (better n k r) (add64 (add64 count 1) 1) high
              next in
          rw (other, up) (rest ∙ ap (λ (x : ℕ). last_upto key x (entries right)) same ∙ sym skipped)
      | lower other down lt ↦
          let stopped = last_upto_stop key (record_of n) k r (entries l) (entries right) lt in
          rw (other, down)
            (nearest_from-last key lo k l n (add64 (add64 count 1) 1) low u ∙ sym stopped)
    ]

-- What a search for a key has found: no node, or the node with the key.
abbrev pub IsHit : (key : ℕ) → Node → Type 0
IsHit key x =
    (x ≡ null)
    ⊎ ((l : Node) × (r : ℕ) × (right : Node) × (x ≡ node l key r right)
        × AllBelow key (entries l)
        × AllAbove key (entries right))

-- `p` is a place in the tree `whole` that parts its other entries at the key.
pub record Searched (key : ℕ) (whole : Node) (p : Place) : Type 0 where
  pub inside : plug p.path p.at ≡ whole
  pub below : AllBelow key (before p.path)
  pub above : AllAbove key (after p.path)
  pub hit : IsHit key p.at

right_below :
    (key k r : ℕ) (l : Node) (path : List Frame)
    → k < key
    → AllBelow key (entries l)
    → AllBelow key (before path)
    → AllBelow key (before (right_of l k r ∷ path))
unfolding before
right_below key k r l path lt smaller hb =
    AllBelow-append key (before path) (entries l ++ ((k, r) ∷ [])) hb
      (AllBelow-append key (entries l) ((k, r) ∷ []) smaller (lt, tt))

pub descend-Searched :
    (key lo hi : ℕ) (t : Node) (path : List Frame) (count : ℕ)
    → IsOrdered lo hi t
    → AllBelow key (before path)
    → AllAbove key (after path)
    → Searched key (plug path t) (descend key t path count)
unfolding descend IsOrdered before after plug
descend-Searched key lo hi null path count h hb ha = record {
  inside = refl;
  below = hb;
  above = ha;
  hit = inl refl;
}
descend-Searched key lo hi (node l k r right) path count (low, high) hb ha =
    let smaller = left-AllBelow lo k l low in
    let larger = right-AllAbove k hi right high in
    elim (way key k) [
      | here same e ↦
          let hit : IsHit key (node l k r right) = inr (
            l,
            r,
            right,
            ap (λ (q : ℕ). node l q r right) (sym e),
            AllBelow-le k key (entries l) (omega arith) smaller,
            AllAbove-le k key (entries right) (omega arith) larger,
          ) in
          rw same (record { inside = refl; below = hb; above = ha; hit = hit })
      | higher other up lt ↦
          rw (other, up)
            (descend-Searched key (k + 1) hi right (right_of l k r ∷ path) (add64 (add64 count 1) 1)
              high
              (right_below key k r l path lt (AllBelow-le k key (entries l) (omega arith) smaller)
                hb)
              ha)
      | lower other down lt ↦
          rw (other, down)
            (descend-Searched key lo k l (left_of k r right ∷ path) (add64 (add64 count 1) 1) low hb
              (
                lt,
                AllAbove-append key (entries right) (after path)
                    (AllAbove-le k key (entries right) (omega arith) larger) ha,
              ))
    ]

-- The loop of `tree_remove` ends at the same place.
pub locate-descend :
    (key : ℕ) (t : Node) (path : List Frame) (count count' : ℕ)
    → ((locate key t path count).at ≡ (descend key t path count').at)
      × ((locate key t path count).path ≡ (descend key t path count').path)
unfolding locate descend
locate-descend key null path count count' = (refl, refl)
locate-descend key (node l k r right) path count count' = elim (way key k) [
  | here same e ↦ rw same (refl, refl)
  | higher other up lt ↦
      rw (other, up)
        (locate-descend key right (right_of l k r ∷ path) (add64 count 1)
          (add64 (add64 count' 1) 1))
  | lower other down lt ↦
      rw (other, down)
        (locate-descend key l (left_of k r right ∷ path) (add64 count 1) (add64 (add64 count' 1) 1))
]

-- The keys put a new node where the search ended.
pub attach_same :
    (key : ℕ) (path : List Frame)
    → AllBelow key (before path)
    → AllAbove key (after path)
    → attach key path ≡ path
unfolding attach before after
attach_same key [] hb ha = refl
attach_same key (left_of k r right ∷ path) hb (lt, ha) =
    let down : ltb k key ≡ false = ground arith in rw down refl
attach_same key (right_of l k r ∷ path) hb ha =
    let last =
      AllBelow-drop key (entries l) ((k, r) ∷ [])
        (AllBelow-drop key (before path) (entries l ++ ((k, r) ∷ [])) hb) in
    let up : ltb k key ≡ true = ground (arith, last.0) in rw up refl
