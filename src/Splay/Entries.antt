-- ===== src/Splay/Entries.antt =====
-- What a splay tree holds: its keys and records from left to right, and the operations on a list of
-- entries in the order of the keys that it stands for.
use mathlib.Core.List.{append-nil, append_assoc}
use systems_labs.Base.{
  ℕ, ◌+◌, ◌≤◌, ◌<◌, ◌≡◌, refl, sym, ap, ◌∙◌, Bool, true, false, List, [], ◌∷◌, ◌++◌, ltb, ◌==◌,
  if◌then◌else◌,
}
use systems_labs.Splay.{Node, Frame, null, node, left_of, right_of, plug}

abbrev pub Entries : Type 0
Entries = List (ℕ × ℕ)

unfoldable pub entries : Node → Entries
entries null = []
entries (node l k r right) = entries l ++ ((k, r) ∷ entries right)

-- The entries before and after a place.
unfoldable pub before : List Frame → Entries
before [] = []
before (left_of k r right ∷ path) = before path
before (right_of l k r ∷ path) = before path ++ (entries l ++ ((k, r) ∷ []))

unfoldable pub after : List Frame → Entries
after [] = []
after (left_of k r right ∷ path) = (k, r) ∷ (entries right ++ after path)
after (right_of l k r ∷ path) = after path

pub entries-plug :
    (path : List Frame) (x : Node)
    → entries (plug path x) ≡ before path ++ (entries x ++ after path)
unfolding plug entries before after
entries-plug [] x = sym (append-nil (entries x))
entries-plug (left_of k r right ∷ path) x =
    entries-plug path (node x k r right)
    ∙ ap (λ l. before path ++ l) (append_assoc (entries x) ((k, r) ∷ entries right) (after path))
entries-plug (right_of l k r ∷ path) x = entries-plug path (node l k r x) ∙ simp append_assoc refl

-- The keys are below a bound, or above one.
abbrev pub AllBelow : ℕ → Entries → Type 0
AllBelow key [] = Unit
AllBelow key (e ∷ es) = (e.0 < key) × AllBelow key es

abbrev pub AllAbove : ℕ → Entries → Type 0
AllAbove key [] = Unit
AllAbove key (e ∷ es) = (key < e.0) × AllAbove key es

-- The keys of a tree are in order, from `lo` on and below `hi`.
unfoldable pub IsOrdered : (lo hi : ℕ) → Node → Type 0
IsOrdered lo hi null = lo ≤ hi
IsOrdered lo hi (node l k r right) = IsOrdered lo k l × IsOrdered (k + 1) hi right

abbrev pub IsSorted : (lo hi : ℕ) → Entries → Type 0
IsSorted lo hi [] = lo ≤ hi
IsSorted lo hi (e ∷ es) = (lo ≤ e.0) × IsSorted (e.0 + 1) hi es

-- The operations on entries.
unfoldable pub has : (key : ℕ) → Entries → Bool
has key [] = false
has key ((k, r) ∷ es) = let rest = has key es in if key == k then true else rest

-- 0 for NULL
unfoldable pub lookup : (key : ℕ) → Entries → ℕ
lookup key [] = 0
lookup key ((k, r) ∷ es) = let rest = lookup key es in if key == k then r else rest

unfoldable pub put : (key rec : ℕ) → Entries → Entries
put key rec [] = (key, rec) ∷ []
put key rec ((k, r) ∷ es) =
    let rest = put key rec es in if ltb key k then (key, rec) ∷ (k, r) ∷ es else (k, r) ∷ rest

unfoldable pub delete : (key : ℕ) → Entries → Entries
delete key [] = []
delete key ((k, r) ∷ es) = let rest = delete key es in if key == k then es else (k, r) ∷ rest

-- The record of the last entry whose key is at most `key`.
unfoldable pub last_upto : (key rec : ℕ) → Entries → ℕ
last_upto key rec [] = rec
last_upto key rec ((k, r) ∷ es) = let rest = last_upto key r es in if ltb key k then rec else rest
