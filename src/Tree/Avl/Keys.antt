-- ===== src/Tree/Avl/Keys.antt =====
-- The keys of an AVL tree, which are what the entries of its nodes hold, and their order.
use colossal.Prelude.{
  ◌≡◌, refl, sym, ap, subst, inl, inr, false, Bool-cases, List, [], ◌∷◌, ◌++◌, map, All,
}
use colossal.Prelude.Int.{ℤ}
use colossal.Tree.{Tree, leaf, node, is_less, is_equal}
use colossal.Tree.Avl.{Avl, by_entry}
use colossal.Tree.Avl.Shape.{keys}
use colossal.Tree.Inorder.{inorder}
use colossal.Tree.Order.{IsOrder, IsSorted, insert, NoneEqual}

module _ {ℓ} {A : Type ℓ} where
  pub entries : List (Avl A) → List A
  entries xs = map (λ (x : Avl A). x.entry) xs

  pub entries-append : (xs ys : List (Avl A)) → entries (xs ++ ys) ≡ entries xs ++ entries ys
  unfolding entries
  entries-append [] ys = refl
  entries-append (x ∷ xs) ys = ap (λ t. x.entry ∷ t) (entries-append xs ys)

  pub keys-inorder : (t : Tree (Avl A)) → keys t ≡ entries (inorder t)
  unfolding entries
  keys-inorder leaf = refl
  keys-inorder (node l x r) =
      rw (entries-append (inorder l) (x ∷ inorder r), keys-inorder l, keys-inorder r) refl

module _ {ℓ} {A : Type ℓ} (cmp : A → A → ℤ) where
  pub by_entry-IsOrder : IsOrder cmp → IsOrder (by_entry cmp)
  by_entry-IsOrder o = record {
    no_less_trans = λ x y z. o.no_less_trans x.entry y.entry z.entry;
    flip = λ x y. o.flip x.entry y.entry;
  }

  All-entries : (P : A → Type 0) (xs : List (Avl A)) → All P (entries xs) → All (λ x. P x.entry) xs
  unfolding entries
  All-entries P [] h = tt
  All-entries P (x ∷ xs) (p, h) = (p, All-entries P xs h)

  entries-All : (P : A → Type 0) (xs : List (Avl A)) → All (λ x. P x.entry) xs → All P (entries xs)
  unfolding entries
  entries-All P [] h = tt
  entries-All P (x ∷ xs) (p, h) = (p, entries-All P xs h)

  IsSorted-entries : (xs : List (Avl A)) → IsSorted cmp (entries xs) → IsSorted (by_entry cmp) xs
  unfolding entries
  IsSorted-entries [] s = tt
  IsSorted-entries (x ∷ xs) (h, s) =
      (All-entries (λ y. is_less cmp y x.entry ≡ false) xs h, IsSorted-entries xs s)

  pub IsSorted-inorder :
      (t : Tree (Avl A)) → IsSorted cmp (keys t) → IsSorted (by_entry cmp) (inorder t)
  IsSorted-inorder t s = IsSorted-entries (inorder t) (subst (IsSorted cmp) (keys-inorder t) s)

  pub NoneEqual-keys :
      (e : Avl A) (t : Tree (Avl A))
      → NoneEqual (by_entry cmp) e (inorder t)
      → NoneEqual cmp e.entry (keys t)
  NoneEqual-keys e t h =
      subst (NoneEqual cmp e.entry) (sym (keys-inorder t))
        (entries-All (λ y. is_equal cmp e.entry y ≡ false) (inorder t) h)

  pub entries-insert :
      (e : Avl A) (xs : List (Avl A))
      → entries (insert (by_entry cmp) e xs) ≡ insert cmp e.entry (entries xs)
  unfolding entries
  entries-insert e [] = refl
  entries-insert e (x ∷ xs) = elim (Bool-cases (is_less cmp e.entry x.entry)) [
    | inl h ↦ rw (insert, h) refl
    | inr h ↦ rw (insert, h, entries-insert e xs) refl
  ]
