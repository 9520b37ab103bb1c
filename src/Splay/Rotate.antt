-- ===== src/Splay/Rotate.antt =====
-- malloc/stree.c: rotations and `splay` keep the entries of the tree in their order, and `splay`
-- brings the node to the root.
use mathlib.Core.List.{append_assoc}
use systems_labs.Base.{ℕ, ◌≡◌, refl, sym, ap, ◌∙◌, List, [], ◌∷◌, ◌++◌}
use systems_labs.Splay.{
  Node, Frame, node, left_of, right_of, plug, left_rotate, right_rotate, splay,
}
use systems_labs.Splay.Entries.{Entries, entries, before, after, entries-plug}

up_left :
    (a : Node) (k r : ℕ) (b : Node) (pk pr : ℕ) (c : Node)
    → entries (right_rotate (node (node a k r b) pk pr c)) ≡ entries (node (node a k r b) pk pr c)
unfolding entries right_rotate
up_left a k r b pk pr c = simp append_assoc refl

up_right :
    (a : Node) (pk pr : ℕ) (b : Node) (k r : ℕ) (c : Node)
    → entries (left_rotate (node a pk pr (node b k r c))) ≡ entries (node a pk pr (node b k r c))
unfolding entries left_rotate
up_right a pk pr b k r c = simp append_assoc refl

-- Two trees with the same entries have the same entries under the same parents.
entries-plug_same :
    (path : List Frame) (x y : Node)
    → entries x ≡ entries y
    → entries (plug path x) ≡ entries (plug path y)
entries-plug_same path x y e =
    entries-plug path x
    ∙ ap (λ (l : Entries). before path ++ (l ++ after path)) e
    ∙ sym (entries-plug path y)

-- For every path from the root to a node, splay ends with that node at the root, and the tree has
-- the same entries in the same order.
pub splay-top :
    (path : List Frame) (a : Node) (k r : ℕ) (b : Node)
    → (a' : Node) × (b' : Node) × (splay path (node a k r b) ≡ node a' k r b')
      × (entries (node a' k r b') ≡ entries (plug path (node a k r b)))
unfolding splay plug left_rotate right_rotate entries
splay-top [] a k r b = (a, b, refl, refl)
splay-top (left_of pk pr c ∷ []) a k r b = (a, node b pk pr c, refl, up_left a k r b pk pr c)
splay-top (right_of c pk pr ∷ []) a k r b = (node c pk pr a, b, refl, up_right c pk pr a k r b)
splay-top (left_of pk pr c ∷ left_of gk gr d ∷ path) a k r b =
    let (a', b', top, same) = splay-top path a k r (node b pk pr (node c gk gr d)) in
    (a', b', top, same ∙ entries-plug_same path _ _ (simp append_assoc refl))
splay-top (right_of c pk pr ∷ right_of d gk gr ∷ path) a k r b =
    let (a', b', top, same) = splay-top path (node (node d gk gr c) pk pr a) k r b in
    (a', b', top, same ∙ entries-plug_same path _ _ (simp append_assoc refl))
splay-top (left_of pk pr c ∷ right_of d gk gr ∷ path) a k r b =
    let (a', b', top, same) = splay-top path (node d gk gr a) k r (node b pk pr c) in
    (a', b', top, same ∙ entries-plug_same path _ _ (simp append_assoc refl))
splay-top (right_of c pk pr ∷ left_of gk gr d ∷ path) a k r b =
    let (a', b', top, same) = splay-top path (node c pk pr a) k r (node b gk gr d) in
    (a', b', top, same ∙ entries-plug_same path _ _ (simp append_assoc refl))
