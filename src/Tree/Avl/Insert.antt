-- ===== src/Tree/Avl/Insert.antt =====
-- avl_add and avl_map keep a balanced tree balanced and put the new entry in order.
use mathlib.Core.List.{Memᴰ}
use colossal.Prelude.{
  ◌≡◌, refl, sym, ap, subst, ◌∙◌, ℕ, inl, inr, true, Option, none, some, List, [], ◌∷◌, Bool-cases,
  ◌>>=◌,
}
use colossal.Prelude.Int.{ℤ, pos}
use colossal.Tree.{
  left, right, Tree, leaf, node, Frame, zip, is_less, is_equal, add_path, tree_add, tree_search,
}
use colossal.Tree.Avl.{Avl, mark, by_entry, avl_balance, avl_add, avl_map}
use colossal.Tree.Avl.Shape.{Shape-flip, keys, IsAvl, Avls}
use colossal.Tree.Avl.Path.{IsPath}
use colossal.Tree.Avl.Balance.{avl_balance-Avls}
use colossal.Tree.Avl.Keys.{
  keys-inorder, entries, by_entry-IsOrder, IsSorted-inorder, NoneEqual-keys, entries-insert,
}
use colossal.Tree.Inorder.{inorder}
use colossal.Tree.Insert.{tree_add-insert}
use colossal.Tree.Search.{ends, map_path-search, tree_search-Finds}
use colossal.Tree.Order.{IsOrder, IsSorted, insert, NoneEqual, Finds}

module _ {ℓ} {A : Type ℓ} (cmp : A → A → ℤ) (new : Avl A) where
  add_path-IsPath :
      (t : Tree (Avl A)) (path : List (Frame (Avl A))) (h : ℕ)
      → IsAvl t h
      → IsPath path h
      → IsPath (add_path (by_entry cmp) new t path) 0
  unfolding add_path
  add_path-IsPath leaf path h v p = subst (IsPath path) v p
  add_path-IsPath (node l x r) path h (j, k, vl, vr, s) p =
      elim (Bool-cases (is_less cmp new.entry x.entry)) [
        | inl b ↦
            rw (add_path, b)
              (add_path-IsPath l (record { side = left; entry = x; sibling = r } ∷ path) j vl
                (k, h, vr, s, p))
        | inr b ↦
            rw (add_path, b)
              (add_path-IsPath r (record { side = right; entry = x; sibling = l } ∷ path) k vr
                (j, h, vl, Shape-flip left x.balance j k h s, p))
      ]

module _ {ℓ} {A : Type ℓ} (cmp : A → A → ℤ) (o : IsOrder cmp) (new : Avl A) where
  inserted :
      (t : Tree (Avl A))
      → IsSorted cmp (keys t)
      → let x = mark (pos 0) new in
        keys (zip (node leaf x leaf) (add_path (by_entry cmp) x t []))
        ≡ insert cmp new.entry (keys t)
  unfolding tree_add
  inserted t s =
      let x = mark (pos 0) new in
      keys-inorder (tree_add (by_entry cmp) x t)
      ∙ ap entries
          (tree_add-insert (by_entry cmp) (by_entry-IsOrder cmp o) x t (IsSorted-inorder cmp t s))
      ∙ entries-insert cmp x (inorder t)
      ∙ ap (insert cmp new.entry) (sym (keys-inorder t))

  planted :
      (t : Tree (Avl A)) (h : ℕ)
      → IsAvl t h
      → IsSorted cmp (keys t)
      → let x = mark (pos 0) new in
        (n : ℕ) × Avls
          (insert cmp new.entry (keys t))
          n
          (avl_balance (node leaf x leaf) (add_path (by_entry cmp) x t []))
  planted t h v s =
      let x = mark (pos 0) new in
      let path = add_path (by_entry cmp) x t [] in
      subst (λ ks. (n : ℕ) × Avls ks n (avl_balance (node leaf x leaf) path)) (inserted t s)
        (avl_balance-Avls path x refl (add_path-IsPath cmp x t [] h v tt))

  -- If the comparison orders the entries, the entries of the tree are sorted, and every balance is
  -- the difference of the heights of the children, at most one, avl_add returns a tree whose
  -- balances are so again, with the new entry behind those that are not after it and the others in
  -- their order.
  pub avl_add-Avls :
      (t : Tree (Avl A)) (h : ℕ)
      → IsAvl t h
      → IsSorted cmp (keys t)
      → (n : ℕ) × Avls (insert cmp new.entry (keys t)) n (avl_add cmp new t)
  unfolding avl_add
  avl_add-Avls t h v s = planted t h v s

-- What avl_map may return: an equal entry of the tree, the tree being left alone, or the new entry and
-- a balanced tree in which it is put in order.
pub data AvlMaps {ℓ} {A : Type ℓ} (cmp : A → A → ℤ) (new : Avl A) (t : Tree (Avl A))
    : Option (Avl A × Tree (Avl A)) → Type ℓ where
  there :
      {x : Avl A}
      → Memᴰ x (inorder t)
      → is_equal cmp new.entry x.entry ≡ true
      → AvlMaps cmp new t (some (x, t))
  added :
      {u : Tree (Avl A)} (n : ℕ)
      → IsAvl u n
      → keys u ≡ insert cmp new.entry (keys t)
      → NoneEqual cmp new.entry (keys t)
      → AvlMaps cmp new t (some (mark (pos 0) new, u))

module _ {ℓ} {A : Type ℓ} (cmp : A → A → ℤ) (o : IsOrder cmp) (new : Avl A) where
  maps :
      (t : Tree (Avl A)) (w : Option (Avl A))
      → Finds (by_entry cmp) (mark (pos 0) new) (inorder t) w
      → (path : List (Frame (Avl A)))
      → ((n : ℕ) × Avls
            (insert cmp new.entry (keys t))
            n
            (avl_balance (node leaf (mark (pos 0) new) leaf) path))
      → AvlMaps cmp new t (elim (ends (by_entry cmp) (mark (pos 0) new) w path) [
        | inl x ↦ some (x, t)
        | inr path ↦ (do
          u ← avl_balance (node leaf (mark (pos 0) new) leaf) path
          some (mark (pos 0) new, u))
      ])
  maps t none (Finds.missing h) path (n, v) =
      rw v.returned
        (AvlMaps.added n v.balanced v.same_keys (NoneEqual-keys cmp (mark (pos 0) new) t h))
  maps t (some x) (Finds.found m q) path v = AvlMaps.there m q

  -- If the comparison orders the entries, the entries of the tree are sorted, and every balance is
  -- the difference of the heights of the children, at most one, avl_map returns an equal entry and
  -- leaves the tree alone, or, where no entry is equal, returns the new one and a tree with such
  -- balances in which it is put in order.
  pub avl_map-AvlMaps :
      (t : Tree (Avl A)) (h : ℕ)
      → IsAvl t h
      → IsSorted cmp (keys t)
      → AvlMaps cmp new t (avl_map cmp new t)
  unfolding avl_map
  avl_map-AvlMaps t h v s =
      let x = mark (pos 0) new in
      rw (avl_map, map_path-search (by_entry cmp) x t [])
        (maps t (tree_search (by_entry cmp) x t)
          (tree_search-Finds (by_entry cmp) (by_entry-IsOrder cmp o) x t (IsSorted-inorder cmp t s))
          (add_path (by_entry cmp) x t []) (planted cmp o new t h v s))
