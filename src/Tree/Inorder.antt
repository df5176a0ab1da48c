-- ===== src/Tree/Inorder.antt =====
-- The trees of ulib/src/base/tree.c read from the left to the right, around a node as a whole, and what
-- tree_del, tree_successor, tree_predecessor, tree_min, tree_max and the rotations do to them.
use mathlib.Core.List.{append_assoc, append-nil}
use colossal.Prelude.{◌≡◌, refl, sym, ap, ◌∙◌, Option, none, some, List, [], ◌∷◌, ◌++◌}
use colossal.Tree.{
  left, right, Tree, leaf, node, Frame, link, plug, zip, end_of, tree_min, tree_max, climb,
  tree_successor, tree_predecessor, least, tree_del,
}

module _ {ℓ} {A : Type ℓ} where
  abbrev pub inorder : Tree A → List A
  inorder leaf = []
  inorder (node l x r) = inorder l ++ x ∷ inorder r

  -- The entries to the left of a node and of what is below it, and those to the right.
  abbrev pub before : List (Frame A) → List A
  before [] = []
  before (f ∷ path) = elim f.side [
    | left ↦ before path
    | right ↦ before path ++ inorder f.sibling ++ f.entry ∷ []
  ]

  abbrev pub after : List (Frame A) → List A
  after [] = []
  after (f ∷ path) = elim f.side [
    | left ↦ f.entry ∷ inorder f.sibling ++ after path
    | right ↦ after path
  ]

  inorder-plug :
      (f : Frame A) (path : List (Frame A)) (t : Tree A)
      → before path ++ inorder (plug t f) ++ after path
        ≡ before (f ∷ path) ++ inorder t ++ after (f ∷ path)
  inorder-plug f path t =
      elim f.side
        as (λ s.
          before path ++ inorder (link s t f.entry f.sibling) ++ after path
          ≡ before (record f { side = s } ∷ path)
            ++ inorder t
            ++ after (record f { side = s } ∷ path)) [
              | left ↦ simp (append_assoc) refl
              | right ↦ simp (append_assoc) refl
            ]

  pub inorder-zip :
      (path : List (Frame A)) (t : Tree A)
      → inorder (zip t path) ≡ before path ++ inorder t ++ after path
  unfolding zip
  inorder-zip [] t = sym (append-nil (inorder t))
  inorder-zip (f ∷ path) t = inorder-zip path (plug t f) ∙ inorder-plug f path t

  -- The first entry of a list, and the last one.
  abbrev pub head? : List A → Option A
  head? [] = none
  head? (x ∷ xs) = some x

  abbrev pub last? : List A → Option A
  last? [] = none
  last? (x ∷ []) = some x
  last? (x ∷ y ∷ xs) = last? (y ∷ xs)

  last?-append : (xs : List A) (y : A) (ys : List A) → last? (xs ++ y ∷ ys) ≡ last? (y ∷ ys)
  last?-append [] y ys = refl
  last?-append (x ∷ []) y ys = refl
  last?-append (x ∷ w ∷ xs) y ys = last?-append (w ∷ xs) y ys

  end_of-left :
      (l : Tree A) (x : A) (r : Tree A) (rest : List A)
      → end_of left (node l x r) ≡ head? (inorder (node l x r) ++ rest)
  unfolding end_of
  end_of-left leaf x r rest = refl
  end_of-left (node l y m) x r rest =
      rw (append_assoc (inorder (node l y m)) (x ∷ inorder r) rest)
        (end_of-left l y m (x ∷ inorder r ++ rest))

  append_around :
      (xs ys : List A) (x : A) (zs : List A) → (xs ++ ys ++ x ∷ []) ++ zs ≡ xs ++ (ys ++ x ∷ zs)
  append_around xs ys x zs = simp (append_assoc) refl

  end_of-right :
      (l : Tree A) (x : A) (r : Tree A) (front : List A)
      → end_of right (node l x r) ≡ last? (front ++ inorder (node l x r))
  unfolding end_of
  end_of-right l x leaf front = sym (
      ap last? (sym (append_assoc front (inorder l) (x ∷ [])))
      ∙ last?-append (front ++ inorder l) x [])
  end_of-right l x (node m y r) front =
      rw (← append_around front (inorder l) x (inorder (node m y r)))
        (end_of-right m y r (front ++ inorder l ++ x ∷ []))

  climb-right : (path : List (Frame A)) → climb right path ≡ head? (after path)
  unfolding climb
  climb-right [] = refl
  climb-right (f ∷ path) =
      elim f.side
        as (λ s.
          climb right (record f { side = s } ∷ path)
          ≡ head? (after (record f { side = s } ∷ path))) [ left ↦ refl | right ↦ climb-right path ]

  climb-left : (path : List (Frame A)) → climb left path ≡ last? (before path)
  unfolding climb
  climb-left [] = refl
  climb-left (f ∷ path) =
      elim f.side
        as (λ s.
          climb left (record f { side = s } ∷ path)
          ≡ last? (before (record f { side = s } ∷ path))) [
            | left ↦ climb-left path
            | right ↦ sym (last?-append (before path ++ inorder f.sibling) f.entry [])
          ]

  successor :
      (l : Tree A) (r : Tree A) (path : List (Frame A))
      → tree_successor l r path ≡ head? (inorder r ++ after path)
  unfolding tree_successor
  successor l leaf path = climb-right path
  successor l (node m y r) path = end_of-left m y r (after path)

  predecessor :
      (l : Tree A) (r : Tree A) (path : List (Frame A))
      → tree_predecessor l r path ≡ last? (before path ++ inorder l)
  unfolding tree_predecessor
  predecessor leaf r path = rw (append-nil (before path)) (climb-left path)
  predecessor (node l y m) r path = end_of-right l y m (before path)

  minimum : (t : Tree A) → tree_min t ≡ head? (inorder t)
  unfolding tree_min end_of
  minimum leaf = refl
  minimum (node l x r) = end_of-left l x r [] ∙ ap head? (append-nil (inorder (node l x r)))

  maximum : (t : Tree A) → tree_max t ≡ last? (inorder t)
  unfolding tree_max end_of
  maximum leaf = refl
  maximum (node l x r) = end_of-right l x r []

  -- tree_successor of a node leads to the entry that comes next in the whole tree, tree_predecessor
  -- to the one that comes before, tree_min and tree_max to the first and the last entry of a tree,
  -- and each to NULL where there is none.
  pub neighbours_correct :
      (l : Tree A) (r : Tree A) (path : List (Frame A))
      → (tree_successor l r path ≡ head? (inorder r ++ after path))
        × (tree_predecessor l r path ≡ last? (before path ++ inorder l))
        × (tree_min r ≡ head? (inorder r))
        × (tree_max l ≡ last? (inorder l))
  neighbours_correct l r path = (successor l r path, predecessor l r path, minimum r, maximum l)

  least-head :
      (l : Tree A) (x : A) (r : Tree A) (path : List (Frame A))
      → let s = least l x r path in
        (before s.2 ≡ before path)
        × (inorder (node l x r) ++ after path ≡ s.0 ∷ inorder s.1 ++ after s.2)
  unfolding least
  least-head leaf x r path = (refl, refl)
  least-head (node l y m) x r path =
      let (b, a) = least-head l y m (record { side = left; entry = x; sibling = r } ∷ path) in
      (b, append_assoc (inorder (node l y m)) (x ∷ inorder r) (after path) ∙ a)

  least-zip :
      (a : Tree A) (z : A) (b : Tree A)
      → let s = least a z b [] in s.0 ∷ inorder (zip s.1 s.2) ≡ inorder (node a z b)
  least-zip a z b =
      let (none_before, e) = least-head a z b [] in
      ap (λ t. (least a z b []).0 ∷ t) (inorder-zip (least a z b []).2 (least a z b []).1)
      ∙ rw none_before (sym e ∙ append-nil (inorder (node a z b)))

  removed :
      (l : Tree A) (r : Tree A) (path : List (Frame A))
      → inorder (tree_del l r path) ≡ (before path ++ inorder l) ++ inorder r ++ after path
  unfolding tree_del
  removed leaf r path = inorder-zip path r ∙ simp append-nil refl
  removed (node l y m) leaf path = inorder-zip path (node l y m) ∙ simp append-nil refl
  removed (node l y m) (node a z b) path =
      inorder-zip path
        (node (node l y m) (least a z b []).0 (zip (least a z b []).1 (least a z b []).2))
      ∙ rw (least-zip a z b) (simp append_assoc refl)

  -- Read from the left to the right, a tree with a node holds what lies before the node and in its
  -- left child, the entry, and what is in its right child and behind it; tree_del of the node
  -- leaves all of this but the entry.
  pub inorder-tree_del :
      (l : Tree A) (x : A) (r : Tree A) (path : List (Frame A))
      → (inorder (zip (node l x r) path)
          ≡ (before path ++ inorder l) ++ x ∷ inorder r ++ after path)
        × (inorder (tree_del l r path) ≡ (before path ++ inorder l) ++ inorder r ++ after path)
  inorder-tree_del l x r path =
      (inorder-zip path (node l x r) ∙ simp append_assoc refl, removed l r path)
