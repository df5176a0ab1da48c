-- ===== src/Tree/Avl/Delete.antt =====
-- avl_del keeps a balanced tree balanced and takes out the entry of the node alone.
use mathlib.Core.List.{append_assoc}
use colossal.Prelude.{◌≡◌, refl, ap, subst, ◌∙◌, ℕ, suc, ◌≤◌, List, [], ◌∷◌, ◌++◌, arith}
use colossal.Prelude.Int.{ℤ}
use colossal.Tree.{Side, left, right, Tree, leaf, node, Frame, plug, zip, least, tree_del}
use colossal.Tree.Splay.{frame}
use colossal.Tree.Avl.{Avl, mark, avl_del}
use colossal.Tree.Avl.Shape.{Shape, Shape-flip, keys, IsAvl, Avls}
use colossal.Tree.Avl.Path.{IsPath, keys-zip}
use colossal.Tree.Avl.Shrink.{shrink-Avls}
use colossal.Tree.Avl.Keys.{keys-inorder, entries, entries-append}
use colossal.Tree.Inorder.{inorder, before, after, inorder-tree_del}

without_right : (b : ℤ) (h n : ℕ) → Shape left b h 0 n → n ≡ suc h
without_right b h n (Shape.even p q r) = r
without_right b h n (Shape.near_higher p q r) = r
without_right b h n (Shape.far_higher p q r) = absurd (omega (arith, q))

without_left : (b : ℤ) (k n : ℕ) → Shape left b 0 k n → n ≡ suc k
without_left b k n (Shape.even p q r) = r ∙ ap suc q
without_left b k n (Shape.near_higher p q r) = absurd (omega (arith, q))
without_left b k n (Shape.far_higher p q r) = r

Shape-higher :
    (d : Side) (b : ℤ) (h k n : ℕ) → Shape d b h k n → (suc h ≤ n) × (suc k ≤ n) × (k ≤ suc h)
Shape-higher d b h k n (Shape.even p q r) =
    (omega (arith, q, r), omega (arith, q, r), omega (arith, q, r))
Shape-higher d b h k n (Shape.near_higher p q r) =
    (omega (arith, q, r), omega (arith, q, r), omega (arith, q, r))
Shape-higher d b h k n (Shape.far_higher p q r) =
    (omega (arith, q, r), omega (arith, q, r), omega (arith, q, r))

module _ {ℓ} {B : Type ℓ} where
  least-append :
      (l : Tree B) (x : B) (r : Tree B) (q p : List (Frame B))
      → let s = least l x r q in least l x r (q ++ p) ≡ (s.0, s.1, s.2 ++ p)
  unfolding least
  least-append leaf x r q p = refl
  least-append (node l y m) x r q p =
      least-append l y m (record { side = left; entry = x; sibling = r } ∷ q) p

  zip-append : (p q : List (Frame B)) (t : Tree B) → zip t (p ++ q) ≡ zip (zip t p) q
  unfolding zip
  zip-append [] q t = refl
  zip-append (f ∷ p) q t = zip-append p q (plug t f)

module _ {ℓ} {A : Type ℓ} where
  least-IsPath :
      (l : Tree (Avl A)) (x : Avl A) (r : Tree (Avl A)) (q : List (Frame (Avl A))) (h : ℕ)
      → IsAvl (node l x r) h
      → IsPath q h
      → let s = least l x r q in (k : ℕ) × IsAvl s.1 k × IsPath s.2 (suc k)
  unfolding least
  least-IsPath leaf x r q h (j, k, vl, vr, s) p = (
    k,
    vr,
    subst (IsPath q) (without_left x.balance k h (subst (λ j. Shape left x.balance j k h) vl s)) p,
  )
  least-IsPath (node l y m) x r q h (j, k, vl, vr, s) p =
      least-IsPath l y m (record { side = left; entry = x; sibling = r } ∷ q) j vl (k, h, vr, s, p)

  lower-IsPath :
      (x : Avl A) (j k h : ℕ)
      → k ≡ 0
      → Shape left x.balance j k h
      → (path : List (Frame (Avl A))) → IsPath path h
      → IsPath path (suc j)
  lower-IsPath x j k h vr s path p =
      subst (IsPath path)
        (without_right x.balance j h (subst (λ k. Shape left x.balance j k h) vr s)) p

  next_keys :
      (l : Tree (Avl A)) (x y : Avl A) (b : Tree (Avl A)) (path : List (Frame (Avl A)))
      → keys (zip (node l (mark x.balance y) b) path) ≡ keys (tree_del l (node leaf y b) path)
  unfolding tree_del least zip
  next_keys leaf x y b path = keys-zip path (node leaf (mark x.balance y) b) (node leaf y b) refl
  next_keys (node l z m) x y b path =
      keys-zip path (node (node l z m) (mark x.balance y) b) (node (node l z m) y b) refl

  -- The right child, which has no left child, takes the place of the node.
  next_up :
      (l : Tree (Avl A)) (x y : Avl A) (b : Tree (Avl A)) (path : List (Frame (Avl A))) (h j k : ℕ)
      → IsAvl l j
      → IsAvl (node leaf y b) k
      → Shape left x.balance j k h
      → IsPath path h
      → (n : ℕ) × Avls (keys (tree_del l (node leaf y b) path)) n (avl_del l x (node leaf y b) path)
  unfolding avl_del tree_del least zip
  next_up l x y b path h j k vl (i, g, vy, vb, u) s p =
      let f = frame right (mark x.balance y) l in
      let (n, v) = shrink-Avls (f ∷ path) b g vb (
        j,
        h,
        vl,
        Shape-flip left x.balance j (suc g) h (
            subst (λ k. Shape left x.balance j k h)
              (without_left y.balance g k (subst (λ i. Shape left y.balance i g k) vy u)) s),
        p,
      ) in
      (n, subst (λ ks. Avls ks n (avl_del l x (node leaf y b) path)) (next_keys l x y b path) v)

  -- The keys are those that tree_del leaves.
  as_tree_del :
      (l : Tree (Avl A)) (x : Avl A) (r : Tree (Avl A)) (path : List (Frame (Avl A))) (h : ℕ)
      → IsAvl (node l x r) h
      → IsPath path h
      → (n : ℕ) × Avls (keys (tree_del l r path)) n (avl_del l x r path)
  unfolding avl_del tree_del least zip
  as_tree_del leaf x leaf path h (j, k, vl, vr, s) p =
      shrink-Avls path leaf j vl (lower-IsPath x j k h vr s path p)
  as_tree_del (node l y m) x leaf path h (j, k, vl, vr, s) p =
      shrink-Avls path (node l y m) j vl (lower-IsPath x j k h vr s path p)
  as_tree_del leaf x (node leaf y b) path h (j, k, vl, vr, s) p =
      next_up leaf x y b path h j k vl vr s p
  as_tree_del (node l z m) x (node leaf y b) path h (j, k, vl, vr, s) p =
      next_up (node l z m) x y b path h j k vl vr s p
  as_tree_del leaf x (node (node a w b) y c) path h (j, k, vl, (i, g, (e, f, va, vb, t), vc, u), s)
        p =
      let (_, _, low) = Shape-higher left x.balance j k h s in
      let (high, _, _) = Shape-higher left y.balance i g k u in
      let (higher, _, _) = Shape-higher left w.balance e f i t in
      absurd (omega (arith, vl, low, high, higher))
  as_tree_del (node l z m) x (node (node a w b) y c) path h (j, k, vl, vr, s) p =
      let (succ, child, inner) = least (node a w b) y c [] in
      let f = frame right (mark x.balance succ) (node l z m) in
      let (g, vc, q) =
        least-IsPath (node a w b) y c (f ∷ path) k vr
          (j, h, vl, Shape-flip left x.balance j k h s, p) in
      let moved = least-append (node a w b) y c [] (f ∷ path) in
      let (n, v) =
        shrink-Avls (inner ++ f ∷ path) child g
          (subst (λ (t : Avl A × Tree (Avl A) × List (Frame (Avl A))). IsAvl t.1 g) moved vc)
          (subst (λ (t : Avl A × Tree (Avl A) × List (Frame (Avl A))). IsPath t.2 (suc g)) moved
            q) in
      (
        n,
        subst (λ ks. Avls ks n (avl_del (node l z m) x (node (node a w b) y c) path))
            (ap keys (zip-append inner (f ∷ path) child)
              ∙ keys-zip path (node (node l z m) (mark x.balance succ) (zip child inner))
                  (node (node l z m) succ (zip child inner)) refl)
            v,
      )

  -- If every balance of the tree below a node is the difference of the heights of its children, at
  -- most one, and so are those of its ancestors, avl_del of the node returns a whole tree in which
  -- this holds again, whose entries are those before and behind the node, in their order.
  pub avl_del-Avls :
      (l : Tree (Avl A)) (x : Avl A) (r : Tree (Avl A)) (path : List (Frame (Avl A))) (h : ℕ)
      → IsAvl (node l x r) h
      → IsPath path h
      → (n : ℕ) × Avls
          (entries (before path ++ inorder l) ++ entries (inorder r ++ after path))
          n
          (avl_del l x r path)
  avl_del-Avls l x r path h v p =
      subst (λ ks. (n : ℕ) × Avls ks n (avl_del l x r path))
        (keys-inorder (tree_del l r path)
          ∙ ap entries (
              (inorder-tree_del l x r path).1
              ∙ append_assoc (before path ++ inorder l) (inorder r) (after path))
          ∙ entries-append (before path ++ inorder l) (inorder r ++ after path))
        (as_tree_del l x r path h v p)
