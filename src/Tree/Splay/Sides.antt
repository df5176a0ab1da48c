-- ===== src/Tree/Splay/Sides.antt =====
-- What lies around the chains of splay_search and splay_map, and the orders that it keeps.
use mathlib.Core.List.{append_assoc, append-nil}
use colossal.Prelude.{
  ◌≡◌, refl, suc, ◌+◌, ◌⊎◌, inl, inr, true, false, none, some, List, [], ◌∷◌, ◌++◌, All-append,
  All-weaken, arith,
}
use colossal.Prelude.Int.{ℤ}
use colossal.Tree.{
  tree_count, Side, left, right, other, Tree, leaf, node, link, zip, parts, is_less, is_equal,
}
use colossal.Tree.Splay.{Chains, pass, assemble, assemble_link, beyond}
use colossal.Tree.Inorder.{inorder, before, after, inorder-zip}
use colossal.Tree.Order.{
  IsOrder, IsSorted, AtMost, AtLeast, Below, Above, NoneEqual, IsSorted-parts, less_of_no_less,
  no_less-less, less_of_greater, not_equal_of_less, not_equal_of_after, NoneEqual-around,
}

module _ {ℓ} {A : Type ℓ} where
  -- The whole tree in order, when the head holds these entries.
  abbrev pub around : Chains A → List A → List A
  around c ys = before c.small ++ (ys ++ after c.large)

  pub around-pass :
      (d : Side) (near : Tree A) (x : A) (far : Tree A) (c : Chains A)
      → around c (inorder (link d near x far)) ≡ around (pass d x far c) (inorder near)
  around-pass left near x far c = simp append_assoc refl
  around-pass right near x far c = simp append_assoc refl

  -- SPLAY_ROTATE_RIGHT and SPLAY_ROTATE_LEFT keep the order.
  pub inorder-rotated :
      (d : Side) (a : Tree A) (y : A) (b : Tree A) (x : A) (far : Tree A)
      → inorder (link d (link d a y b) x far) ≡ inorder (link d a y (link d b x far))
  inorder-rotated left a y b x far = simp append_assoc refl
  inorder-rotated right a y b x far = simp append_assoc refl

  pub parts-cases :
      (d : Side) (t : Tree A)
      → ((t ≡ leaf) × (parts d t ≡ none))
        ⊎ ((a : Tree A) × (y : A) × (b : Tree A) × (t ≡ link d a y b)
            × (parts d t ≡ some (a, y, b)))
  parts-cases left leaf = inl (refl, refl)
  parts-cases right leaf = inl (refl, refl)
  parts-cases left (node l x r) = inr (l, x, r, refl, refl)
  parts-cases right (node l x r) = inr (r, x, l, refl, refl)

  pub tree_count-link :
      (d : Side) (a : Tree A) (y : A) (b : Tree A)
      → tree_count (link d a y b) ≡ suc (tree_count a + tree_count b)
  tree_count-link left a y b = refl
  tree_count-link right a y b = omega arith

  pub link-other :
      (d : Side) (a : Tree A) (y : A) (b : Tree A) → link (other d) b y a ≡ link d a y b
  link-other left a y b = refl
  link-other right a y b = refl

-- The chains hold what lies before an entry and what lies after it, linked to the right and to the left.
pub record Divides {ℓ} {A : Type ℓ} (cmp : A → A → ℤ) (e : A) (c : Chains A) : Type ℓ where
  pub small_right : after c.small ≡ []
  pub large_left : before c.large ≡ []
  pub below : Below cmp e (before c.small)
  pub above : Above cmp e (after c.large)

module _ {ℓ} {A : Type ℓ} (cmp : A → A → ℤ) (o : IsOrder cmp) (e : A) where
  -- The entry lies beyond `x` on a side.
  abbrev pub Past : Side → A → Type 0
  Past left x = is_less cmp e x ≡ true
  Past right x = is_less cmp x e ≡ true

  abbrev pub Keeps : Side → A → Tree A → Type 0
  Keeps left x far = AtLeast cmp x (inorder far)
  Keeps right x far = AtMost cmp x (inorder far)

  pub IsSorted-link :
      (d : Side) (near : Tree A) (x : A) (far : Tree A)
      → IsSorted cmp (inorder (link d near x far))
      → IsSorted cmp (inorder near) × Keeps d x far × IsSorted cmp (inorder far)
  IsSorted-link left near x far s =
      let (a, b, c, k) = IsSorted-parts cmp (inorder near) x (inorder far) s in (a, k, b)
  IsSorted-link right near x far s =
      let (a, b, c, k) = IsSorted-parts cmp (inorder far) x (inorder near) s in (b, c, a)

  pub pass-Divides :
      (d : Side) (x : A) (far : Tree A) (c : Chains A)
      → Past d x
      → Keeps d x far
      → Divides cmp e c
      → Divides cmp e (pass d x far c)
  pass-Divides left x far c h k v = record {
    small_right = v.small_right;
    large_left = v.large_left;
    below = v.below;
    above = (
      h,
      All-append _ (inorder far) (after c.large)
          (All-weaken (inorder far) (λ y. less_of_no_less cmp o e x y h) k) v.above,
    );
  }
  pass-Divides right x far c h k v = record {
    small_right = v.small_right;
    large_left = v.large_left;
    above = v.above;
    below =
        All-append _ (before c.small ++ inorder far) (x ∷ [])
          (All-append _ (before c.small) (inorder far) v.below
            (All-weaken (inorder far) (λ b g. no_less-less cmp o b x e g h) k))
          (h, tt);
  }

  pub Past-not_equal : (d : Side) (x : A) → Past d x → is_equal cmp e x ≡ false
  Past-not_equal left x h = not_equal_of_less cmp o e x h
  Past-not_equal right x h = not_equal_of_after cmp o e x h

  pub beyond-Past : (d : Side) (x : A) → beyond cmp d e x ≡ true → Past d x
  beyond-Past left x h = h
  beyond-Past right x h = less_of_greater cmp o e x h

  pub Divides-NoneEqual : (c : Chains A) → Divides cmp e c → NoneEqual cmp e (around c [])
  Divides-NoneEqual c v = NoneEqual-around cmp o e (before c.small) (after c.large) v.below v.above

  pub inorder-assemble :
      (l : Tree A) (x : A) (r : Tree A) (c : Chains A)
      → Divides cmp e c
      → inorder (assemble l x r c) ≡ around c (inorder (node l x r))
  inorder-assemble l x r c v =
      rw (inorder-zip c.small l, inorder-zip c.large r, v.small_right, v.large_left)
        (simp (append_assoc, append-nil) refl)

  pub assemble_link-node :
      (d : Side) (near : Tree A) (x : A) (far : Tree A) (c : Chains A)
      → Divides cmp e c
      → (l : Tree A) × (r : Tree A) × (assemble_link d near x far c ≡ node l x r)
        × (inorder (node l x r) ≡ around c (inorder (link d near x far)))
  assemble_link-node left near x far c v =
      (zip near c.small, zip far c.large, refl, inorder-assemble near x far c v)
  assemble_link-node right near x far c v =
      (zip far c.small, zip near c.large, refl, inorder-assemble far x near c v)
