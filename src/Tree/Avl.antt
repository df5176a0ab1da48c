-- ===== src/Tree/Avl.antt =====
-- The AVL trees of ulib/src/base/tree.c: each node keeps how much higher its right child is than its
-- left one. NULL is read only where this would make the program fail; such a result is none.
pub mod Balance
pub mod Delete
pub mod Height
pub mod Insert
pub mod Keys
pub mod Path
pub mod Shape
pub mod Shrink
pub mod Rotate
use colossal.Prelude.{
  ◌⊎◌, inl, inr, Bool, true, false, Option, none, some, List, [], ◌∷◌, ◌++◌, if◌then◌else◌, ◌>>=◌,
}
use colossal.Prelude.Int.{ℤ, pos, negsuc, ◌+ℤ◌, eqb_ℤ}
use colossal.Tree.{
  Side, left, right, other, Tree, leaf, node, Frame, plug, zip, link, parts, rotate, least,
  add_path, map_path,
}
use colossal.Tree.Splay.{frame}

-- avl_root, with the entry that holds it
pub record Avl {ℓ} (A : Type ℓ) : Type ℓ where
  pub entry : A
  pub balance : ℤ

-- The balance of a node that is higher by one on a side, and by two.
abbrev pub lean : Side → ℤ
lean left = negsuc 0
lean right = pos 1

abbrev pub twice : Side → ℤ
twice left = negsuc 1
twice right = pos 2

-- The balances of the child and of the node behind a double rotation, by that of the grandson.
abbrev pub after_double : Side → ℤ → ℤ × ℤ
after_double left b =
    if eqb_ℤ b (negsuc 0)
    then (pos 0, pos 1)
    else if eqb_ℤ b (pos 0)
    then (pos 0, pos 0)
    else (negsuc 0, pos 0)
after_double right b =
    if eqb_ℤ b (negsuc 0)
    then (pos 1, pos 0)
    else if eqb_ℤ b (pos 0)
    then (pos 0, pos 0)
    else (pos 0, negsuc 0)

module _ {ℓ} {A : Type ℓ} where
  abbrev pub mark : ℤ → Avl A → Avl A
  mark b x = record x { balance = b }

  -- A node becomes higher on a side.
  abbrev pub tilt : Side → Avl A → Avl A
  tilt d x = record x { balance = x.balance +ℤ lean d }

  -- One rotation at a node, the child on a side coming up, and the new balances of the two.
  abbrev pub single : Side → ℤ → ℤ → Tree (Avl A) → Option (Tree (Avl A))
  single d child_balance balance t = do
    (near, x, far) ← parts d t
    (a, c, b) ← parts d near
    rotate d (link d (link d a (mark child_balance c) b) (mark balance x) far)

  -- The rotation of the child and that of the node, with the balances of the three.
  abbrev pub double : Side → Tree (Avl A) → Option (Tree (Avl A))
  double d t = do
    (near, x, far) ← parts d t
    (grandson, c, a) ← parts (other d) near
    (p, g, q) ← parts d grandson
    let (child_balance, balance) = after_double d g.balance
    up ← rotate (other d) (link d a (mark child_balance c) (link d p (mark (pos 0) g) q))
    rotate d (link d up (mark balance x) far)

  -- __avl_balance at a node that is higher by two on a side
  unfoldable pub raise : Side → Tree (Avl A) → Option (Tree (Avl A))
  unfolding rotate
  raise d t = do
    (near, x, far) ← parts d t
    (a, c, b) ← parts d near
    if eqb_ℤ c.balance (lean d) then single d (pos 0) (pos 0) t else double d t

  -- What __avl_balance does at the last node that its loop comes to.
  unfoldable pub level : Tree (Avl A) → Option (Tree (Avl A))
  unfolding raise
  level leaf = none
  level (node l x r) =
      if eqb_ℤ x.balance (twice left)
      then raise left (node l x r)
      else if eqb_ℤ x.balance (twice right)
      then raise right (node l x r)
      else some (node l x r)

  -- The loop of __avl_balance from a node on, with its ancestors.
  pub climb_balance : Tree (Avl A) → List (Frame (Avl A)) → Tree (Avl A) × List (Frame (Avl A))
  unfolding ◌+ℤ◌
  climb_balance new [] = (new, [])
  climb_balance new (f ∷ path) = elim (eqb_ℤ (f.entry).balance (pos 0)) [
    | true ↦ climb_balance (plug new (frame f.side (tilt f.side f.entry) f.sibling)) path
    | false ↦ (plug new (frame f.side (tilt f.side f.entry) f.sibling), path)
  ]

  -- __avl_balance
  unfoldable pub avl_balance : Tree (Avl A) → List (Frame (Avl A)) → Option (Tree (Avl A))
  unfolding climb_balance level zip
  avl_balance new path = do
    let (top, rest) = climb_balance new path
    t ← level top
    some (zip t rest)

  -- One round of the loop of avl_del at the parent of a place whose tree has become lower by one: what
  -- stands at the parent's place, and whether the loop goes on.
  unfoldable pub lose : Tree (Avl A) → Frame (Avl A) → Option (Tree (Avl A) × Bool)
  unfolding rotate ◌+ℤ◌
  lose t f =
      let s = f.side in
      let d = other s in
      let x = tilt d f.entry in
      let u = plug t (frame s x f.sibling) in
      if eqb_ℤ x.balance (lean d)
      then some (u, false)
      else if eqb_ℤ x.balance (twice d)
      then (do
        (a, c, b) ← parts d f.sibling
        if eqb_ℤ c.balance (lean s)
            then (do v ← double d u; some (v, true))
            else if eqb_ℤ c.balance (pos 0)
            then (do v ← single d (lean s) (lean d) u; some (v, false))
            else (do v ← single d (pos 0) (pos 0) u; some (v, true)))
      else some (u, true)

  -- The loop of avl_del, from the place of a tree that has become lower.
  pub shrink : Tree (Avl A) → List (Frame (Avl A)) → Option (Tree (Avl A))
  unfolding lose zip
  shrink t [] = some t
  shrink t (f ∷ path) = elim (lose t f) [
    | none ↦ none
    | some (u, on) ↦ elim on [ true ↦ shrink u path | false ↦ some (zip u path) ]
  ]

  -- avl_del of a node, from its children and its ancestors
  unfoldable pub avl_del :
      Tree (Avl A) → Avl A → Tree (Avl A) → List (Frame (Avl A)) → Option (Tree (Avl A))
  unfolding shrink least
  avl_del l x leaf path = shrink l path
  avl_del l x (node leaf y b) path = shrink b (frame right (mark x.balance y) l ∷ path)
  avl_del leaf x (node (node a w b) y c) path = none
  avl_del (node k v m) x (node (node a w b) y c) path =
      let (succ, child, inner) = least (node a w b) y c [] in
      shrink child (inner ++ frame right (mark x.balance succ) (node k v m) ∷ path)

module _ {ℓ} {A : Type ℓ} (cmp : A → A → ℤ) where
  -- The comparison reads what holds the nodes.
  abbrev pub by_entry : Avl A → Avl A → ℤ
  by_entry a b = cmp a.entry b.entry

  -- avl_add
  unfoldable pub avl_add : Avl A → Tree (Avl A) → Option (Tree (Avl A))
  unfolding avl_balance add_path
  avl_add new root =
      let new = mark (pos 0) new in avl_balance (node leaf new leaf) (add_path by_entry new root [])

  -- avl_map: the node that it returns, and the tree
  unfoldable pub avl_map : Avl A → Tree (Avl A) → Option (Avl A × Tree (Avl A))
  unfolding avl_balance map_path
  avl_map new root =
      let new = mark (pos 0) new in
      elim (map_path by_entry new root []) [
        | inl x ↦ some (x, root)
        | inr path ↦ (do t ← avl_balance (node leaf new leaf) path; some (new, t))
      ]
