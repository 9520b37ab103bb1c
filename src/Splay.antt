-- ===== src/Splay.antt =====
-- malloc/stree.c, the splay tree of the malloc driver. A key is the `long` with 2 ^ 63 added, so that
-- the order of `long`s is that of numbers; a record is a pointer, 0 for NULL. The parents of a node
-- are the path from it to the root: what the nodes point to is a tree.
pub mod Entries
pub mod Rotate
pub mod Order
pub mod Search
pub mod Insert
pub mod Remove
pub mod Client
pub mod Free
mod Tests
use systems_labs.Base.{
  ℕ, ◌+◌, ◌-◌, ◌%◌, Bool, true, false, List, [], ◌∷◌, ◌++◌, Run, ok, fail, Fault, ◌>>=◌, ltb, ◌==◌,
  if◌then◌else◌, add64, sub64,
}
use Fault.{exited}

-- `node_t`, or NULL.
pub data Node : Type 0 where
  null : Node
  node : (left : Node) (key rec : ℕ) (right : Node) → Node

-- A parent with its child taken out: the left or the right one.
pub data Frame : Type 0 where
  left_of : (key rec : ℕ) (right : Node) → Frame
  right_of : (left : Node) (key rec : ℕ) → Frame

-- `tree_t`
pub record Tree : Type 0 where
  pub root : Node
  pub node_count : ℕ
  pub comparison_count : ℕ

unfoldable pub tree_new : Tree
tree_new = record { root = null; node_count = 0; comparison_count = 0 }

-- A parent with a child put back.
abbrev pub join : Frame → Node → Node
join (left_of key rec right) x = node x key rec right
join (right_of left key rec) x = node left key rec x

-- The whole tree around a node.
unfoldable pub plug : List Frame → Node → Node
plug [] x = x
plug (f ∷ path) x = plug path (join f x)

-- What stands at the place of `x` after the rotation; without a right child, NULL.
unfoldable pub left_rotate : Node → Node
left_rotate (node a key rec (node b ykey yrecord c)) = node (node a key rec b) ykey yrecord c
left_rotate (node a key rec null) = null
left_rotate null = null

unfoldable pub right_rotate : Node → Node
right_rotate (node (node a ykey yrecord b) key rec c) = node a ykey yrecord (node b key rec c)
right_rotate (node null key rec c) = null
right_rotate null = null

-- The loop of `splay` takes one parent, or two, off the path of `x`.
unfoldable pub splay : List Frame → Node → Node
splay [] x = x
splay (left_of k r c ∷ []) x = right_rotate (join (left_of k r c) x)
splay (right_of a k r ∷ []) x = left_rotate (join (right_of a k r) x)
splay (left_of k r c ∷ left_of k' r' c' ∷ path) x =
    splay path (right_rotate (right_rotate (join (left_of k' r' c') (join (left_of k r c) x))))
splay (right_of a k r ∷ right_of a' k' r' ∷ path) x =
    splay path (left_rotate (left_rotate (join (right_of a' k' r') (join (right_of a k r) x))))
splay (left_of k r c ∷ right_of a' k' r' ∷ path) x =
    splay path (left_rotate (join (right_of a' k' r') (right_rotate (join (left_of k r c) x))))
splay (right_of a k r ∷ left_of k' r' c' ∷ path) x =
    splay path (right_rotate (join (left_of k' r' c') (left_rotate (join (right_of a k r) x))))

-- The place where a search ends: a node, or NULL, the path to it, and the comparisons made.
pub record Place : Type 0 where
  pub at : Node
  pub path : List Frame
  pub compared : ℕ

-- `while (z)` of `tree_insert`, which stops at a node with the key.
unfoldable pub descend : (key : ℕ) → Node → List Frame → (count : ℕ) → Place
descend key null path count = record { at = null; path = path; compared = count }
descend key (node l k r right) path count =
    let count = add64 count 1 in
    let here : Place = record { at = node l k r right; path = path; compared = count } in
    let higher = descend key right (right_of l k r ∷ path) (add64 count 1) in
    let lower = descend key l (left_of k r right ∷ path) (add64 count 1) in
    if key == k then here else if ltb k key then higher else lower

-- `p->right = z` or `p->left = z`, by the keys.
unfoldable pub attach : (key : ℕ) → List Frame → List Frame
attach key [] = []
attach key (left_of k r right ∷ path) =
    if ltb k key then right_of null k r ∷ path else left_of k r right ∷ path
attach key (right_of left k r ∷ path) =
    if ltb k key then right_of left k r ∷ path else left_of k r null ∷ path

-- `granted` says whether `malloc` gives the node.
unfoldable pub tree_insert : (granted : Bool) → Tree → (key rec : ℕ) → Run (Tree × Bool)
tree_insert granted t key rec =
    let place = descend key t.root [] t.comparison_count in
    elim place.at [
      | null ↦
          if granted
          then ok (
            record {
              root = splay (attach key place.path) (node null key rec null);
              node_count = add64 t.node_count 1;
              comparison_count = place.compared;
            },
            true,
          )
          else fail exited
      | node l k r right ↦ ok (record t { comparison_count = place.compared }, false)
    ]

unfoldable pub find_from : (key : ℕ) → Node → (count : ℕ) → ℕ × ℕ
find_from key null count = (count, 0)
find_from key (node l k r right) count =
    let count = add64 count 1 in
    let higher = find_from key right (add64 count 1) in
    let lower = find_from key l (add64 count 1) in
    if key == k then (count, r) else if ltb k key then higher else lower

unfoldable pub tree_find : Tree → (key : ℕ) → Tree × ℕ
tree_find t key =
    let (count, found) = find_from key t.root t.comparison_count in
    (record t { comparison_count = count }, found)

-- `n` of `tree_find_nearest`: NULL, or a node with this key and record.
pub data Best : Type 0 where
  nothing : Best
  best : (key rec : ℕ) → Best

abbrev pub record_of : Best → ℕ
record_of nothing = 0
record_of (best key rec) = rec

-- `if (!n || n->key < z->key) n = z;`
abbrev pub better : Best → (key rec : ℕ) → Best
better nothing key rec = best key rec
better (best k r) key rec = if ltb k key then best key rec else best k r

unfoldable pub nearest_from : (key : ℕ) → Node → Best → (count : ℕ) → ℕ × ℕ
nearest_from key null n count = (count, record_of n)
nearest_from key (node l k r right) n count =
    let count = add64 count 1 in
    let higher = nearest_from key right (better n k r) (add64 count 1) in
    let lower = nearest_from key l n (add64 count 1) in
    if key == k then (count, r) else if ltb k key then higher else lower

unfoldable pub tree_find_nearest : Tree → (key : ℕ) → Tree × ℕ
tree_find_nearest t key =
    let (count, found) = nearest_from key t.root nothing t.comparison_count in
    (record t { comparison_count = count }, found)

-- `while (z && z->key != key)` of `tree_remove`.
unfoldable pub locate : (key : ℕ) → Node → List Frame → (count : ℕ) → Place
locate key null path count = record { at = null; path = path; compared = count }
locate key (node l k r right) path count =
    let here : Place = record { at = node l k r right; path = path; compared = count } in
    let higher = locate key right (right_of l k r ∷ path) (add64 count 1) in
    let lower = locate key l (left_of k r right ∷ path) (add64 count 1) in
    if key == k then here else if ltb k key then higher else lower

-- `subtree_minimum` with the path down to it.
unfoldable pub subtree_minimum : Node → List Frame → Place
subtree_minimum null path = record { at = null; path = path; compared = 0 }
subtree_minimum (node null k r right) path = record {
  at = node null k r right;
  path = path;
  compared = 0;
}
subtree_minimum (node (node a k' r' b) k r right) path =
    subtree_minimum (node a k' r' b) (left_of k r right ∷ path)

-- What stands at the place of the root `z` once it is taken out, after the splay.
unfoldable pub detach : Node → Node
detach null = null
detach (node null k r right) = right
detach (node (node a lk lr b) k r null) = node a lk lr b
detach (node (node a lk lr b) k r (node c rk rr d)) =
    let left = node a lk lr b in
    let place = subtree_minimum (node c rk rr d) [] in
    elim place.at [
      | null ↦ null
      | node low yk yr high ↦ elim place.path [
        | [] ↦ node left yk yr high
        | f ∷ path ↦ node left yk yr (plug path (join f high))
      ]
    ]

unfoldable pub tree_remove : Tree → (key : ℕ) → Tree × ℕ
tree_remove t key =
    let place = locate key t.root [] t.comparison_count in
    elim place.at [
      | null ↦ (record t { comparison_count = place.compared }, 0)
      | node l k r right ↦ (
        record {
          root = detach (splay place.path (node l k r right));
          node_count = sub64 t.node_count 1;
          comparison_count = place.compared;
        },
        r,
      )
    ]

-- The records that `free_fun` is given, in order.
unfoldable pub free_subtree : Node → List ℕ
free_subtree null = []
free_subtree (node l k r right) = free_subtree l ++ (free_subtree right ++ (r ∷ []))

unfoldable pub tree_free : Tree → List ℕ
tree_free t = free_subtree t.root
