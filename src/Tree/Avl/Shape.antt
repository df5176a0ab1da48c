-- ===== src/Tree/Avl/Shape.antt =====
-- Balanced trees with their heights, and the rotations that restore the balance of a node.
use mathlib.Core.List.{append_assoc}
use colossal.Prelude.{◌≡◌, refl, sym, ap, ◌∙◌, ℕ, suc, Option, some, List, [], ◌∷◌, ◌++◌, arith}
use colossal.Prelude.Int.{ℤ, pos}
use colossal.Tree.{Side, left, right, other, Tree, leaf, node, link, parts, rotate}
use colossal.Tree.Avl.{Avl, lean, after_double, mark, single, double}

-- The balance of a node for the heights of its child on a side and of the other one, and its height.
pub data Shape (d : Side) (b : ℤ) (near far n : ℕ) : Type 0 where
  even : b ≡ pos 0 → near ≡ far → n ≡ suc near → Shape d b near far n
  near_higher : b ≡ lean d → near ≡ suc far → n ≡ suc near → Shape d b near far n
  far_higher : b ≡ lean (other d) → far ≡ suc near → n ≡ suc far → Shape d b near far n

pub Shape-flip :
    (d : Side) (b : ℤ) (near far n : ℕ) → Shape d b near far n → Shape (other d) b far near n
Shape-flip d b near far n (Shape.even p q r) = Shape.even p (sym q) (r ∙ ap suc q)
Shape-flip left b near far n (Shape.near_higher p q r) = Shape.far_higher p q r
Shape-flip right b near far n (Shape.near_higher p q r) = Shape.far_higher p q r
Shape-flip left b near far n (Shape.far_higher p q r) = Shape.near_higher p q r
Shape-flip right b near far n (Shape.far_higher p q r) = Shape.near_higher p q r

module _ {ℓ} {A : Type ℓ} where
  abbrev pub keys : Tree (Avl A) → List A
  keys leaf = []
  keys (node l x r) = keys l ++ x.entry ∷ keys r

  -- Every balance is the difference of the heights of the children, which is at most one.
  abbrev pub IsAvl : Tree (Avl A) → ℕ → Type 0
  IsAvl leaf n = n ≡ 0
  IsAvl (node l x r) n = (h : ℕ) × (k : ℕ) × IsAvl l h × IsAvl r k × Shape left x.balance h k n

  pub IsAvl-link :
      (d : Side) (near : Tree (Avl A)) (x : Avl A) (far : Tree (Avl A)) (h k n : ℕ)
      → IsAvl near h
      → IsAvl far k
      → Shape d x.balance h k n
      → IsAvl (link d near x far) n
  IsAvl-link left near x far h k n a b s = (h, k, a, b, s)
  IsAvl-link right near x far h k n a b s = (k, h, b, a, Shape-flip right x.balance h k n s)

  pub link-IsAvl :
      (d : Side) (near : Tree (Avl A)) (x : Avl A) (far : Tree (Avl A)) (n : ℕ)
      → IsAvl (link d near x far) n
      → (h : ℕ) × (k : ℕ) × IsAvl near h × IsAvl far k × Shape d x.balance h k n
  link-IsAvl left near x far n v = v
  link-IsAvl right near x far n (h, k, a, b, s) = (k, h, b, a, Shape-flip left x.balance h k n s)

  -- A balanced tree of some height that holds these entries.
  pub record Avls (ks : List A) (n : ℕ) (w : Option (Tree (Avl A))) : Type ℓ where
    pub tree : Tree (Avl A)
    pub returned : w ≡ some tree
    pub balanced : IsAvl tree n
    pub same_keys : keys tree ≡ ks

  pub parts-link :
      (d : Side) (near : Tree (Avl A)) (x : Avl A) (far : Tree (Avl A))
      → parts d (link d near x far) ≡ some (near, x, far)
  parts-link left near x far = refl
  parts-link right near x far = refl

  pub rotate-link :
      (d : Side) (a : Tree (Avl A)) (c : Avl A) (b : Tree (Avl A)) (x : Avl A) (far : Tree (Avl A))
      → rotate d (link d (link d a c b) x far) ≡ some (link d a c (link d b x far))
  unfolding rotate
  rotate-link left a c b x far = refl
  rotate-link right a c b x far = refl

  pub single-link :
      (d : Side) (u v : ℤ) (a : Tree (Avl A)) (c : Avl A) (b : Tree (Avl A)) (x : Avl A)
      (far : Tree (Avl A))
      → single d u v (link d (link d a c b) x far)
        ≡ some (link d a (mark u c) (link d b (mark v x) far))
  single-link left u v a c b x far = rotate-link left a (mark u c) b (mark v x) far
  single-link right u v a c b x far = rotate-link right a (mark u c) b (mark v x) far

  pub double-link :
      (d : Side) (a : Tree (Avl A)) (c : Avl A) (p : Tree (Avl A)) (g : Avl A) (q : Tree (Avl A))
      (x : Avl A) (far : Tree (Avl A))
      → let (u, v) = after_double d g.balance in
        double d (link d (link d a c (link d p g q)) x far)
        ≡ some (link d (link d a (mark u c) p) (mark (pos 0) g) (link d q (mark v x) far))
  unfolding rotate
  double-link left a c p g q x far = refl
  double-link right a c p g q x far = refl

  pub keys-single :
      (d : Side) (u v : ℤ) (a : Tree (Avl A)) (c : Avl A) (b : Tree (Avl A)) (x : Avl A)
      (far : Tree (Avl A))
      → keys (link d a (mark u c) (link d b (mark v x) far)) ≡ keys (link d (link d a c b) x far)
  keys-single left u v a c b x far = simp append_assoc refl
  keys-single right u v a c b x far = simp append_assoc refl

  pub keys-double :
      (d : Side) (u v w : ℤ) (a : Tree (Avl A)) (c : Avl A) (p : Tree (Avl A)) (g : Avl A)
      (q : Tree (Avl A)) (x : Avl A) (far : Tree (Avl A))
      → keys (link d (link d a (mark u c) p) (mark w g) (link d q (mark v x) far))
        ≡ keys (link d (link d a c (link d p g q)) x far)
  keys-double left u v w a c p g q x far = simp append_assoc refl
  keys-double right u v w a c p g q x far = simp append_assoc refl

  -- What a node is that is higher than 1, or than 0, seen from a side.
  pub is_link :
      (d : Side) (t : Tree (Avl A)) (n : ℕ)
      → IsAvl t (suc n)
      → (a : Tree (Avl A)) × (x : Avl A) × (b : Tree (Avl A)) × (t ≡ link d a x b)
  is_link left leaf n v = absurd (omega (arith, v))
  is_link right leaf n v = absurd (omega (arith, v))
  is_link left (node l x r) n v = (l, x, r, refl)
  is_link right (node l x r) n v = (r, x, l, refl)
