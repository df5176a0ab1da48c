-- ===== src/Tree/Search.antt =====
-- tree_search and tree_map on trees that are sorted from the left to the right.
use mathlib.Core.List.{append_assoc}
use colossal.Prelude.{
  ◌≡◌, refl, subst, ◌⊎◌, inl, inr, true, false, Option, none, some, List, [], ◌∷◌, ◌++◌, All-append,
  All-weaken, Bool-cases, Option-cases,
}
use colossal.Prelude.Int.{ℤ}
use colossal.Tree.{
  left, right, Tree, leaf, node, Frame, is_less, is_equal, tree_search, add_path, tree_add,
  map_path, tree_map,
}
use colossal.Tree.Inorder.{inorder}
use colossal.Tree.Order.{
  IsOrder, IsSorted, AtMost, AtLeast, NoneEqual, IsSorted-parts, less_of_not, not_equal_of_less,
  not_equal_of_after, Finds, Finds-append, Finds-behind, found_at,
}
use colossal.Tree.Insert.{Above-from, Below-to}

module _ {ℓ} {A : Type ℓ} (cmp : A → A → ℤ) (o : IsOrder cmp) (e : A) where
  above_none :
      (x : A) (ys : List A) → is_less cmp e x ≡ true → AtLeast cmp x ys → NoneEqual cmp e (x ∷ ys)
  above_none x ys h k =
      All-weaken (x ∷ ys) (λ b. not_equal_of_less cmp o e b) (Above-from cmp o e x ys h k)

  below_none : (xs : List A) (x : A) → is_less cmp x e ≡ true → AtMost cmp x xs → NoneEqual cmp e xs
  below_none xs x h k =
      All-weaken xs (λ b. not_equal_of_after cmp o e b) (Below-to cmp o e xs x h k)

  -- The entry of a node is equal, after or before, and what this says of the entries around it.
  data Split (l : List A) (x : A) (r : List A) : Type ℓ where
    same : is_equal cmp e x ≡ true → Split l x r
    less : is_equal cmp e x ≡ false → is_less cmp e x ≡ true → NoneEqual cmp e (x ∷ r) → Split l x r
    more :
        is_equal cmp e x ≡ false
        → is_less cmp e x ≡ false
        → NoneEqual cmp e (l ++ x ∷ [])
        → Split l x r

  split_at : (l : List A) (x : A) (r : List A) → IsSorted cmp (l ++ x ∷ r) → Split l x r
  split_at l x r s =
      let (sl, sr, al, ar) = IsSorted-parts cmp l x r s in
      elim (Bool-cases (is_equal cmp e x)) [
        | inl q ↦ Split.same q
        | inr q ↦ elim (Bool-cases (is_less cmp e x)) [
          | inl h ↦ Split.less q h (above_none x r h ar)
          | inr h ↦
              Split.more q h
                (All-append _ l (x ∷ []) (below_none l x (less_of_not cmp o e x q h) al) (q, tt))
        ]
      ]

  -- tree_search finds an equal entry where there is one.
  pub tree_search-Finds :
      (t : Tree A) → IsSorted cmp (inorder t) → Finds cmp e (inorder t) (tree_search cmp e t)
  unfolding tree_search
  tree_search-Finds leaf s = Finds.missing tt
  tree_search-Finds (node l x r) s =
      let (sl, sr, al, ar) = IsSorted-parts cmp (inorder l) x (inorder r) s in
      elim (split_at (inorder l) x (inorder r) s) [
        | Split.same q ↦ rw (tree_search, q) (found_at cmp e (inorder l) x (inorder r) q)
        | Split.less q h k ↦
            rw (tree_search, q, h)
              (Finds-append cmp e (inorder l) (x ∷ inorder r) _ k (tree_search-Finds l sl))
        | Split.more q h k ↦
            rw (tree_search, q, h)
              (subst (λ ys. Finds cmp e ys (tree_search cmp e r))
                (append_assoc (inorder l) (x ∷ []) (inorder r))
                (Finds-behind cmp e (inorder l ++ x ∷ []) (inorder r) _ k (tree_search-Finds r sr)))
      ]

module _ {ℓ} {A : Type ℓ} (cmp : A → A → ℤ) (e : A) where
  -- The end of the loop of tree_map after a search.
  abbrev pub ends : Option A → List (Frame A) → A ⊎ List (Frame A)
  ends none place = inr place
  ends (some x) place = inl x

  pub map_path-search :
      (t : Tree A) (path : List (Frame A))
      → map_path cmp e t path ≡ ends (tree_search cmp e t) (add_path cmp e t path)
  unfolding map_path tree_search add_path
  map_path-search leaf path = refl
  map_path-search (node l x r) path = elim (Bool-cases (is_equal cmp e x)) [
    | inl q ↦ rw (map_path, tree_search, q) refl
    | inr q ↦ elim (Bool-cases (is_less cmp e x)) [
      | inl h ↦
          rw (map_path, tree_search, add_path, q, h)
            (map_path-search l (record { side = left; entry = x; sibling = r } ∷ path))
      | inr h ↦
          rw (map_path, tree_search, add_path, q, h)
            (map_path-search r (record { side = right; entry = x; sibling = l } ∷ path))
    ]
  ]

  -- The rest of tree_map behind a search.
  abbrev pub or_add : Option A → Tree A → A × Tree A
  or_add none t = (e, tree_add cmp e t)
  or_add (some x) t = (x, t)

  -- tree_map returns the entry that tree_search finds, the tree being left alone, and else does what
  -- tree_add does and returns the new entry.
  tree_map-tree_search : (t : Tree A) → tree_map cmp e t ≡ or_add (tree_search cmp e t) t
  unfolding tree_map tree_add
  tree_map-tree_search t =
      rw (tree_map, map_path-search t [])
        (elim (Option-cases (tree_search cmp e t)) [ inl h ↦ rw h refl | inr (x, h) ↦ rw h refl ])

module _ {ℓ} {A : Type ℓ} (cmp : A → A → ℤ) (o : IsOrder cmp) (e : A) where
  -- If the comparison orders the entries and those of the tree are sorted, tree_search returns an
  -- equal entry where there is one and NULL elsewhere; tree_map returns what tree_search finds and
  -- leaves the tree alone, or, for NULL, returns the new entry and does what tree_add does.
  pub search_and_map_correct :
      (t : Tree A)
      → IsSorted cmp (inorder t)
      → Finds cmp e (inorder t) (tree_search cmp e t)
        × (tree_map cmp e t ≡ or_add cmp e (tree_search cmp e t) t)
  search_and_map_correct t s = (tree_search-Finds cmp o e t s, tree_map-tree_search cmp e t)
