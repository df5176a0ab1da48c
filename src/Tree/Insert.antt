-- ===== src/Tree/Insert.antt =====
-- tree_add on trees that are sorted from the left to the right.
use mathlib.Core.List.{append_assoc, append-nil}
use colossal.Prelude.{
  ◌≡◌, refl, sym, ap, subst, ◌∙◌, inl, inr, true, false, List, [], ◌∷◌, ◌++◌, All-append,
  All-weaken, Bool-cases,
}
use colossal.Prelude.Int.{ℤ}
use colossal.Tree.{left, right, Tree, leaf, node, Frame, zip, is_less, add_path, tree_add}
use colossal.Tree.Inorder.{inorder, before, after, inorder-zip}
use colossal.Tree.Order.{
  IsOrder, insert, IsSorted, AtMost, AtLeast, Below, Above, IsSorted-parts, insert-between,
  less_of_no_less, no_less-less,
}

-- A place below a tree that hangs at `path` is where the entry belongs, and around it is the whole tree.
record Lands {ℓ} {A : Type ℓ} (cmp : A → A → ℤ) (e : A) (t : Tree A) (path place : List (Frame A))
    : Type ℓ where
  none_after : AtMost cmp e (before place)
  all_after : Above cmp e (after place)
  around : before place ++ after place ≡ before path ++ inorder t ++ after path

module _ {ℓ} {A : Type ℓ} (cmp : A → A → ℤ) (o : IsOrder cmp) (e : A) where
  -- The entries around a place: none before it is after `e`, and all behind it are.
  abbrev Fits : List (Frame A) → Type 0
  Fits path = AtMost cmp e (before path) × Above cmp e (after path)

  pub Above-from :
      (x : A) (ys : List A) → is_less cmp e x ≡ true → AtLeast cmp x ys → Above cmp e (x ∷ ys)
  Above-from x ys h k = (h, All-weaken ys (λ y. less_of_no_less cmp o e x y h) k)

  pub Below-to : (xs : List A) (x : A) → is_less cmp x e ≡ true → AtMost cmp x xs → Below cmp e xs
  Below-to xs x h k = All-weaken xs (λ b g. no_less-less cmp o b x e g h) k

  AtMost-to :
      (xs : List A) (x : A)
      → is_less cmp e x ≡ false
      → AtMost cmp x xs
      → AtMost cmp e (xs ++ x ∷ [])
  AtMost-to xs x h k =
      All-append _ xs (x ∷ []) (All-weaken xs (λ b. o.no_less_trans e x b h) k) (h, tt)

  go_left :
      (x : A) (r : Tree A) (path : List (Frame A))
      → is_less cmp e x ≡ true
      → AtLeast cmp x (inorder r)
      → Fits path
      → Fits (record { side = left; entry = x; sibling = r } ∷ path)
  go_left x r path h k (a, b) =
      let (g, gs) = Above-from x (inorder r) h k in
      (a, (g, All-append _ (inorder r) (after path) gs b))

  go_right :
      (l : Tree A) (x : A) (path : List (Frame A))
      → is_less cmp e x ≡ false
      → AtMost cmp x (inorder l)
      → Fits path
      → Fits (record { side = right; entry = x; sibling = l } ∷ path)
  go_right l x path h k (a, b) = (
    subst (AtMost cmp e) (sym (append_assoc (before path) (inorder l) (x ∷ [])))
        (All-append _ (before path) (inorder l ++ x ∷ []) a (AtMost-to (inorder l) x h k)),
    b,
  )

  Lands-left :
      (l : Tree A) (x : A) (r : Tree A) (path place : List (Frame A))
      → Lands cmp e l (record { side = left; entry = x; sibling = r } ∷ path) place
      → Lands cmp e (node l x r) path place
  Lands-left l x r path place h = record {
    none_after = h.none_after;
    all_after = h.all_after;
    around = h.around ∙ simp append_assoc refl;
  }

  Lands-right :
      (l : Tree A) (x : A) (r : Tree A) (path place : List (Frame A))
      → Lands cmp e r (record { side = right; entry = x; sibling = l } ∷ path) place
      → Lands cmp e (node l x r) path place
  Lands-right l x r path place h = record {
    none_after = h.none_after;
    all_after = h.all_after;
    around = h.around ∙ simp append_assoc refl;
  }

  add_path-left :
      (l : Tree A) (x : A) (r : Tree A) (path : List (Frame A))
      → is_less cmp e x ≡ true
      → add_path cmp e (node l x r) path
        ≡ add_path cmp e l (record { side = left; entry = x; sibling = r } ∷ path)
  unfolding add_path
  add_path-left l x r path h = rw (add_path, h) refl

  add_path-right :
      (l : Tree A) (x : A) (r : Tree A) (path : List (Frame A))
      → is_less cmp e x ≡ false
      → add_path cmp e (node l x r) path
        ≡ add_path cmp e r (record { side = right; entry = x; sibling = l } ∷ path)
  unfolding add_path
  add_path-right l x r path h = rw (add_path, h) refl

  -- The loop of tree_add ends at the place where the entry belongs.
  add_path-Lands :
      (t : Tree A) (path : List (Frame A))
      → IsSorted cmp (inorder t)
      → Fits path
      → Lands cmp e t path (add_path cmp e t path)
  unfolding add_path
  add_path-Lands leaf path s c = record {
    none_after = c.0;
    all_after = c.1;
    around = ap (λ b. b ++ after path) (sym (append-nil (before path)));
  }
  add_path-Lands (node l x r) path s c =
      let (sl, sr, al, ar) = IsSorted-parts cmp (inorder l) x (inorder r) s in
      elim (Bool-cases (is_less cmp e x)) [
        | inl h ↦ subst (Lands cmp e (node l x r) path) (sym (add_path-left l x r path h)) (
            Lands-left l x r path _ (
              add_path-Lands l (record { side = left; entry = x; sibling = r } ∷ path) sl
                (go_left x r path h ar c)))
        | inr h ↦ subst (Lands cmp e (node l x r) path) (sym (add_path-right l x r path h)) (
            Lands-right l x r path _ (
              add_path-Lands r (record { side = right; entry = x; sibling = l } ∷ path) sr
                (go_right l x path h al c)))
      ]

  plant :
      (t : Tree A) (place : List (Frame A))
      → Lands cmp e t [] place
      → inorder (zip (node leaf e leaf) place) ≡ insert cmp e (inorder t)
  plant t place h =
      inorder-zip place (node leaf e leaf)
      ∙ append_assoc (before place) (e ∷ []) (after place)
      ∙ sym (insert-between cmp e (before place) (after place) h.none_after h.all_after)
      ∙ ap (insert cmp e) (h.around ∙ append-nil (inorder t))

  -- If the comparison orders the entries and those of the tree are sorted, tree_add puts the new
  -- entry behind those that are not after it, and keeps the others in their order.
  pub tree_add-insert :
      (t : Tree A)
      → IsSorted cmp (inorder t)
      → inorder (tree_add cmp e t) ≡ insert cmp e (inorder t)
  unfolding tree_add
  tree_add-insert t s = plant t (add_path cmp e t []) (add_path-Lands t [] s (tt, tt))
