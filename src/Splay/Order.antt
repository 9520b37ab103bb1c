-- ===== src/Splay/Order.antt =====
-- The order of the keys of a splay tree, and what the operations on entries do at a key that parts
-- them in those below and those above.
use systems_labs.Base.{
  suc, length, ℕ, ◌+◌, ◌≤◌, ◌<◌, ◌≡◌, refl, ap, ◌∙◌, true, false, [], ◌∷◌, ◌++◌, arith,
}
use systems_labs.Splay.{Node, null, node}
use systems_labs.Splay.Entries.{
  Entries, entries, AllBelow, AllAbove, IsOrdered, IsSorted, has, lookup, put, delete, last_upto,
}

IsSorted-join :
    (lo k hi r : ℕ) (xs ys : Entries)
    → IsSorted lo k xs
    → IsSorted (k + 1) hi ys
    → IsSorted lo hi (xs ++ ((k, r) ∷ ys))
IsSorted-join lo k hi r [] ys left right = (left, right)
IsSorted-join lo k hi r (x ∷ xs) ys (low, left) right =
    (low, IsSorted-join (x.0 + 1) k hi r xs ys left right)

IsSorted-split :
    (lo k hi r : ℕ) (xs ys : Entries)
    → IsSorted lo hi (xs ++ ((k, r) ∷ ys))
    → IsSorted lo k xs × IsSorted (k + 1) hi ys
IsSorted-split lo k hi r [] ys sorted = sorted
IsSorted-split lo k hi r (x ∷ xs) ys (low, sorted) =
    let (left, right) = IsSorted-split (x.0 + 1) k hi r xs ys sorted in ((low, left), right)

-- A tree is in order exactly if its entries are.
pub entries-IsSorted : (lo hi : ℕ) (t : Node) → IsOrdered lo hi t → IsSorted lo hi (entries t)
unfolding IsOrdered entries
entries-IsSorted lo hi null h = h
entries-IsSorted lo hi (node l k r right) (low, high) =
    IsSorted-join lo k hi r (entries l) (entries right) (entries-IsSorted lo k l low)
      (entries-IsSorted (k + 1) hi right high)

pub entries-IsOrdered : (lo hi : ℕ) (t : Node) → IsSorted lo hi (entries t) → IsOrdered lo hi t
unfolding IsOrdered entries
entries-IsOrdered lo hi null h = h
entries-IsOrdered lo hi (node l k r right) sorted =
    let (low, high) = IsSorted-split lo k hi r (entries l) (entries right) sorted in
    (entries-IsOrdered lo k l low, entries-IsOrdered (k + 1) hi right high)

IsSorted-le : (lo hi : ℕ) (xs : Entries) → IsSorted lo hi xs → lo ≤ hi
IsSorted-le lo hi [] h = h
IsSorted-le lo hi (x ∷ xs) (low, rest) = omega (arith, IsSorted-le (x.0 + 1) hi xs rest)

sorted-AllBelow : (lo hi : ℕ) (xs : Entries) → IsSorted lo hi xs → AllBelow hi xs
sorted-AllBelow lo hi [] h = tt
sorted-AllBelow lo hi (x ∷ xs) (low, rest) =
    (omega (arith, IsSorted-le (x.0 + 1) hi xs rest), sorted-AllBelow (x.0 + 1) hi xs rest)

sorted-AllAbove : (key lo hi : ℕ) (xs : Entries) → key < lo → IsSorted lo hi xs → AllAbove key xs
sorted-AllAbove key lo hi [] below h = tt
sorted-AllAbove key lo hi (x ∷ xs) below (low, rest) =
    (omega arith, sorted-AllAbove key (x.0 + 1) hi xs (omega arith) rest)

-- The two subtrees of a node.
pub left-AllBelow : (lo k : ℕ) (t : Node) → IsOrdered lo k t → AllBelow k (entries t)
left-AllBelow lo k t h = sorted-AllBelow lo k (entries t) (entries-IsSorted lo k t h)

pub right-AllAbove : (k hi : ℕ) (t : Node) → IsOrdered (k + 1) hi t → AllAbove k (entries t)
right-AllAbove k hi t h =
    sorted-AllAbove k (k + 1) hi (entries t) (omega arith) (entries-IsSorted (k + 1) hi t h)

pub AllBelow-append :
    (key : ℕ) (xs ys : Entries) → AllBelow key xs → AllBelow key ys → AllBelow key (xs ++ ys)
AllBelow-append key [] ys hx hy = hy
AllBelow-append key (x ∷ xs) ys (h, hx) hy = (h, AllBelow-append key xs ys hx hy)

pub AllAbove-append :
    (key : ℕ) (xs ys : Entries) → AllAbove key xs → AllAbove key ys → AllAbove key (xs ++ ys)
AllAbove-append key [] ys hx hy = hy
AllAbove-append key (x ∷ xs) ys (h, hx) hy = (h, AllAbove-append key xs ys hx hy)

pub AllBelow-le : (k key : ℕ) (xs : Entries) → k ≤ key → AllBelow k xs → AllBelow key xs
AllBelow-le k key [] h hx = tt
AllBelow-le k key (x ∷ xs) h (low, hx) = (omega arith, AllBelow-le k key xs h hx)

pub AllAbove-le : (k key : ℕ) (xs : Entries) → key ≤ k → AllAbove k xs → AllAbove key xs
AllAbove-le k key [] h hx = tt
AllAbove-le k key (x ∷ xs) h (low, hx) = (omega arith, AllAbove-le k key xs h hx)

pub AllBelow-drop : (key : ℕ) (xs ys : Entries) → AllBelow key (xs ++ ys) → AllBelow key ys
AllBelow-drop key [] ys h = h
AllBelow-drop key (x ∷ xs) ys (low, h) = AllBelow-drop key xs ys h

pub IsOrdered-le : (lo hi : ℕ) (t : Node) → IsOrdered lo hi t → lo ≤ hi
IsOrdered-le lo hi t h = IsSorted-le lo hi (entries t) (entries-IsSorted lo hi t h)

IsSorted-raise :
    (lo key hi : ℕ) (ys : Entries)
    → key < hi
    → AllAbove key ys
    → IsSorted lo hi ys
    → IsSorted (key + 1) hi ys
IsSorted-raise lo key hi [] lt above sorted = omega arith
IsSorted-raise lo key hi (y ∷ ys) lt (high, above) (low, sorted) = (omega arith, sorted)

-- A new entry between those below and those above its key.
pub IsSorted-insert :
    (lo key hi rec : ℕ) (xs ys : Entries)
    → lo ≤ key
    → key < hi
    → AllBelow key xs
    → AllAbove key ys
    → IsSorted lo hi (xs ++ ys)
    → IsSorted lo hi (xs ++ ((key, rec) ∷ ys))
IsSorted-insert lo key hi rec [] ys le lt below above sorted =
    (le, IsSorted-raise lo key hi ys lt above sorted)
IsSorted-insert lo key hi rec (x ∷ xs) ys le lt (here, below) above (low, sorted) =
    (low, IsSorted-insert (x.0 + 1) key hi rec xs ys (omega arith) lt below above sorted)

IsSorted-lower : (lo lo' hi : ℕ) (ys : Entries) → lo' ≤ lo → IsSorted lo hi ys → IsSorted lo' hi ys
IsSorted-lower lo lo' hi [] le sorted = omega arith
IsSorted-lower lo lo' hi (y ∷ ys) le (low, sorted) = (omega arith, sorted)

-- An entry taken out.
pub IsSorted-remove :
    (lo key hi rec : ℕ) (xs ys : Entries)
    → IsSorted lo hi (xs ++ ((key, rec) ∷ ys))
    → IsSorted lo hi (xs ++ ys)
IsSorted-remove lo key hi rec [] ys (low, sorted) =
    IsSorted-lower (key + 1) lo hi ys (omega arith) sorted
IsSorted-remove lo key hi rec (x ∷ xs) ys (low, sorted) =
    (low, IsSorted-remove (x.0 + 1) key hi rec xs ys sorted)

pub length-between :
    (xs ys : Entries) (e : ℕ × ℕ) → length (xs ++ (e ∷ ys)) ≡ suc (length (xs ++ ys))
length-between [] ys e = refl
length-between (x ∷ xs) ys e = ap suc (length-between xs ys e)

-- The operations at a key between the entries `xs` and `ys`.
module _ (key : ℕ) where
  pub lookup_skip : (xs ys : Entries) → AllBelow key xs → lookup key (xs ++ ys) ≡ lookup key ys
  unfolding lookup
  lookup_skip [] ys h = refl
  lookup_skip (x ∷ xs) ys (low, h) = ground (arith, lookup_skip xs ys h)

  pub lookup_above : (ys : Entries) → AllAbove key ys → lookup key ys ≡ 0
  unfolding lookup
  lookup_above [] h = refl
  lookup_above (y ∷ ys) (high, h) = ground (arith, lookup_above ys h)

  pub lookup_stop : (xs ys : Entries) → AllAbove key ys → lookup key (xs ++ ys) ≡ lookup key xs
  unfolding lookup
  lookup_stop [] ys h = lookup_above ys h
  lookup_stop (x ∷ xs) ys h = ground (arith, lookup_stop xs ys h)

  has_above : (ys : Entries) → AllAbove key ys → has key ys ≡ false
  unfolding has
  has_above [] h = refl
  has_above (y ∷ ys) (high, h) = ground (arith, has_above ys h)

  pub has_skip : (xs ys : Entries) → AllBelow key xs → has key (xs ++ ys) ≡ has key ys
  unfolding has
  has_skip [] ys h = refl
  has_skip (x ∷ xs) ys (low, h) = ground (arith, has_skip xs ys h)

  pub has-miss : (xs ys : Entries) → AllBelow key xs → AllAbove key ys → has key (xs ++ ys) ≡ false
  has-miss xs ys hx hy = has_skip xs ys hx ∙ has_above ys hy

  put_above : (rec : ℕ) (ys : Entries) → AllAbove key ys → put key rec ys ≡ (key, rec) ∷ ys
  unfolding put
  put_above rec [] h = refl
  put_above rec (y ∷ ys) (high, h) = ground arith

  pub put-miss :
      (rec : ℕ) (xs ys : Entries)
      → AllBelow key xs
      → AllAbove key ys
      → put key rec (xs ++ ys) ≡ xs ++ ((key, rec) ∷ ys)
  unfolding put
  put-miss rec [] ys hx hy = put_above rec ys hy
  put-miss rec (x ∷ xs) ys (low, hx) hy = ground (arith, put-miss rec xs ys hx hy)

  pub delete_skip :
      (xs ys : Entries) → AllBelow key xs → delete key (xs ++ ys) ≡ xs ++ delete key ys
  unfolding delete
  delete_skip [] ys h = refl
  delete_skip (x ∷ xs) ys (low, h) = ground (arith, delete_skip xs ys h)

  pub delete_above : (ys : Entries) → AllAbove key ys → delete key ys ≡ ys
  unfolding delete
  delete_above [] h = refl
  delete_above (y ∷ ys) (high, h) = ground (arith, delete_above ys h)

  pub last_upto_above : (rec : ℕ) (ys : Entries) → AllAbove key ys → last_upto key rec ys ≡ rec
  unfolding last_upto
  last_upto_above rec [] h = refl
  last_upto_above rec (y ∷ ys) (high, h) = ground arith

  pub last_upto_skip :
      (rec k r : ℕ) (xs ys : Entries)
      → AllBelow k xs
      → k ≤ key
      → last_upto key rec (xs ++ ((k, r) ∷ ys)) ≡ last_upto key r ys
  unfolding last_upto
  last_upto_skip rec k r [] ys h le = ground arith
  last_upto_skip rec k r (x ∷ xs) ys (low, h) le = ground (arith, last_upto_skip x.1 k r xs ys h le)

  pub last_upto_stop :
      (rec k r : ℕ) (xs ys : Entries)
      → key < k
      → last_upto key rec (xs ++ ((k, r) ∷ ys)) ≡ last_upto key rec xs
  unfolding last_upto
  last_upto_stop rec k r [] ys lt = ground arith
  last_upto_stop rec k r (x ∷ xs) ys lt = ground (arith, last_upto_stop x.1 k r xs ys lt)

  -- The key itself, after the entries below it.
  pub has-hit :
      (rec : ℕ) (xs ys : Entries) → AllBelow key xs → has key (xs ++ ((key, rec) ∷ ys)) ≡ true
  unfolding has
  has-hit rec xs ys h = has_skip xs ((key, rec) ∷ ys) h ∙ ground arith

  pub lookup-hit :
      (rec : ℕ) (xs ys : Entries) → AllBelow key xs → lookup key (xs ++ ((key, rec) ∷ ys)) ≡ rec
  unfolding lookup
  lookup-hit rec xs ys h = lookup_skip xs ((key, rec) ∷ ys) h ∙ ground arith

  pub delete-hit :
      (rec : ℕ) (xs ys : Entries)
      → AllBelow key xs
      → delete key (xs ++ ((key, rec) ∷ ys)) ≡ xs ++ ys
  unfolding delete
  delete-hit rec xs ys h =
      let removed : delete key ((key, rec) ∷ ys) ≡ ys = ground arith in
      delete_skip xs ((key, rec) ∷ ys) h ∙ ap (λ (es : Entries). xs ++ es) removed
