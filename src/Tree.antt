-- ===== src/Tree.antt =====
-- ulib/src/base/tree.c: binary trees. A tree is what the links to the left and to the right lead to,
-- NULL the empty one, and an entry stands for the address of its node. The links to the parents are
-- the frames from a node up to the root. What the source writes twice, for the left and for the right,
-- is written once for a side. Of tree_util.c, tree_count and tree_height are here.
pub mod Avl
pub mod Inorder
pub mod Insert
pub mod Order
pub mod Search
pub mod Splay
mod Tests
use colossal.Prelude.{
  ltb, if◌then◌else◌, ℕ, suc, ◌+◌, ◌⊎◌, inl, inr, Bool, true, false, Option, none, some, List, [],
  ◌∷◌, ◌++◌, ◌>>=◌,
}
use colossal.Prelude.Int.{ℤ, pos, ltb_ℤ, eqb_ℤ}

pub data Side : Type 0 where
  left right : Side

abbrev pub other : Side → Side
other left = right
other right = left

-- tree_root_np and tree_root
pub data Tree {ℓ} (A : Type ℓ) : Type ℓ where
  leaf : Tree A
  node : Tree A → A → Tree A → Tree A

-- A node that is the child of `entry` on a side, `sibling` being the child on the other side.
pub record Frame {ℓ} (A : Type ℓ) : Type ℓ where
  pub side : Side
  pub entry : A
  pub sibling : Tree A

module _ {ℓ} {A : Type ℓ} where
  -- The node of an entry with its child on a side and its other child.
  abbrev pub link : Side → Tree A → A → Tree A → Tree A
  link left near x far = node near x far
  link right near x far = node far x near

  abbrev pub plug : Tree A → Frame A → Tree A
  plug t f = link f.side t f.entry f.sibling

  -- The whole tree around a node, whose ancestors are the frames from its parent on.
  pub zip : Tree A → List (Frame A) → Tree A
  zip t [] = t
  zip t (f ∷ path) = zip (plug t f) path

  -- tree_count of tree_util.c
  abbrev pub tree_count : Tree A → ℕ
  tree_count leaf = 0
  tree_count (node l x r) = suc (tree_count l + tree_count r)

  -- tree_height of tree_util.c
  abbrev pub tree_height : Tree A → ℕ
  tree_height leaf = 0
  tree_height (node l x r) =
      let hl = tree_height l in let hr = tree_height r in if ltb hr hl then suc hl else suc hr

  -- tree_min and tree_max, by the side to which they go
  pub end_of : Side → Tree A → Option A
  end_of d leaf = none
  end_of left (node leaf x r) = some x
  end_of left (node (node l y m) x r) = end_of left (node l y m)
  end_of right (node l x leaf) = some x
  end_of right (node l x (node m y r)) = end_of right (node m y r)

  unfoldable pub tree_min : Tree A → Option A
  unfolding end_of
  tree_min t = end_of left t

  unfoldable pub tree_max : Tree A → Option A
  unfolding end_of
  tree_max t = end_of right t

  -- The loop over the ancestors in tree_successor and tree_predecessor: the first one of which the node
  -- is not the child on this side.
  pub climb : Side → List (Frame A) → Option A
  climb d [] = none
  climb left (f ∷ path) = elim f.side [ left ↦ climb left path | right ↦ some f.entry ]
  climb right (f ∷ path) = elim f.side [ right ↦ climb right path | left ↦ some f.entry ]

  -- tree_successor and tree_predecessor of the entry of a node, from its children and its ancestors
  unfoldable pub tree_successor : Tree A → Tree A → List (Frame A) → Option A
  unfolding end_of climb
  tree_successor l leaf path = climb right path
  tree_successor l (node m y r) path = end_of left (node m y r)

  unfoldable pub tree_predecessor : Tree A → Tree A → List (Frame A) → Option A
  unfolding end_of climb
  tree_predecessor leaf r path = climb left path
  tree_predecessor (node l y m) r path = end_of right (node l y m)

  -- A node from its child on a side on; none for NULL.
  abbrev pub parts : Side → Tree A → Option (Tree A × A × Tree A)
  parts d leaf = none
  parts left (node l x r) = some (l, x, r)
  parts right (node l x r) = some (r, x, l)

  -- __rotate_right, by the side of the child that comes up, and __rotate_left; none for no such child
  unfoldable pub rotate : Side → Tree A → Option (Tree A)
  rotate d t = do
    (near, x, far) ← parts d t
    (a, c, b) ← parts d near
    some (link d a c (link d b x far))

  -- The leftmost node below a node: its entry, its right child and its ancestors.
  pub least : Tree A → A → Tree A → List (Frame A) → A × Tree A × List (Frame A)
  least leaf x r path = (x, r, path)
  least (node l y m) x r path = least l y m (record { side = left; entry = x; sibling = r } ∷ path)

  -- tree_del of the entry of a node, from its children and its ancestors
  unfoldable pub tree_del : Tree A → Tree A → List (Frame A) → Tree A
  unfolding zip least
  tree_del leaf r path = zip r path
  tree_del (node l y m) leaf path = zip (node l y m) path
  tree_del (node l y m) (node a z b) path =
      let (succ, child, inner) = least a z b [] in
      zip (node (node l y m) succ (zip child inner)) path

module _ {ℓ} {A : Type ℓ} (cmp : A → A → ℤ) where
  -- `compare(a, b) < 0`, `compare(a, b) == 0` and `compare(a, b) > 0`
  abbrev pub is_less : A → A → Bool
  is_less a b = ltb_ℤ (cmp a b) (pos 0)

  abbrev pub is_equal : A → A → Bool
  is_equal a b = eqb_ℤ (cmp a b) (pos 0)

  abbrev pub is_greater : A → A → Bool
  is_greater a b = ltb_ℤ (pos 0) (cmp a b)

  -- tree_search
  pub tree_search : A → Tree A → Option A
  tree_search entry leaf = none
  tree_search entry (node l x r) = elim (is_equal entry x) [
    | true ↦ some x
    | false ↦ elim (is_less entry x) [ true ↦ tree_search entry l | false ↦ tree_search entry r ]
  ]

  -- The loop of tree_add: the place of NULL where it ends.
  pub add_path : A → Tree A → List (Frame A) → List (Frame A)
  add_path new leaf path = path
  add_path new (node l x r) path = elim (is_less new x) [
    | true ↦ add_path new l (record { side = left; entry = x; sibling = r } ∷ path)
    | false ↦ add_path new r (record { side = right; entry = x; sibling = l } ∷ path)
  ]

  -- tree_add
  unfoldable pub tree_add : A → Tree A → Tree A
  unfolding zip add_path
  tree_add new root = zip (node leaf new leaf) (add_path new root [])

  -- The loop of tree_map: an equal entry, or the place of NULL where it ends.
  pub map_path : A → Tree A → List (Frame A) → A ⊎ List (Frame A)
  map_path new leaf path = inr path
  map_path new (node l x r) path = elim (is_equal new x) [
    | true ↦ inl x
    | false ↦ elim (is_less new x) [
      | true ↦ map_path new l (record { side = left; entry = x; sibling = r } ∷ path)
      | false ↦ map_path new r (record { side = right; entry = x; sibling = l } ∷ path)
    ]
  ]

  -- tree_map: the entry that it returns, and the tree
  unfoldable pub tree_map : A → Tree A → A × Tree A
  unfolding zip map_path
  tree_map new root = elim (map_path new root []) [
    | inl x ↦ (x, root)
    | inr path ↦ (new, zip (node leaf new leaf) path)
  ]
