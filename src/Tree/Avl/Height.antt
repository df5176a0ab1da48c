-- ===== src/Tree/Avl/Height.antt =====
-- How high a balanced tree is, and so how many rounds the loops of avl_add and avl_map make.
use colossal.Prelude.{
  ltb, if◌then◌else◌, sym, ◌≡◌, ℕ, zero, suc, ◌+◌, ◌*◌, ◌/◌, ◌^◌, ◌≤◌, inl, inr, Bool-cases, List,
  [], ◌∷◌, length, arith,
}
use colossal.Prelude.Int.{ℤ}
use colossal.Tree.{tree_height, tree_count, left, right, Tree, leaf, node, Frame, is_less, add_path}
use colossal.Tree.Avl.{Avl, by_entry}
use colossal.Tree.Avl.Shape.{Shape, IsAvl}

double_half : (m : ℕ) → 2 ^ (suc (suc m) / 2) ≡ 2 * 2 ^ (m / 2)
double_half m = let e : suc (suc m) / 2 ≡ suc (m / 2) = omega arith in rw e (omega arith)

higher : (b : ℤ) (j k h : ℕ) → Shape left b j k h → (if ltb k j then suc j else suc k) ≡ h
higher b j k h (Shape.even p q r) = ground arith
higher b j k h (Shape.near_higher p q r) = ground arith
higher b j k h (Shape.far_higher p q r) = ground arith

children : (b : ℤ) (j k h m : ℕ) → Shape left b j k h → suc (suc m) ≤ h → (m ≤ j) × (m ≤ k)
children b j k h m (Shape.even p q r) le = (omega (arith, q, r, le), omega (arith, q, r, le))
children b j k h m (Shape.near_higher p q r) le = (omega (arith, q, r, le), omega (arith, q, r, le))
children b j k h m (Shape.far_higher p q r) le = (omega (arith, q, r, le), omega (arith, q, r, le))

below : (b : ℤ) (j k h : ℕ) → Shape left b j k h → (suc j ≤ h) × (suc k ≤ h)
below b j k h (Shape.even p q r) = (omega (arith, q, r), omega (arith, q, r))
below b j k h (Shape.near_higher p q r) = (omega (arith, q, r), omega (arith, q, r))
below b j k h (Shape.far_higher p q r) = (omega (arith, q, r), omega (arith, q, r))

module _ {ℓ} {A : Type ℓ} where
  -- The heights of a balanced tree are those that tree_height finds.
  IsAvl-tree_height : (t : Tree (Avl A)) (h : ℕ) → IsAvl t h → tree_height t ≡ h
  IsAvl-tree_height leaf h v = sym v
  IsAvl-tree_height (node l x r) h (j, k, vl, vr, s) =
      let hl = IsAvl-tree_height l j vl in
      let hr = IsAvl-tree_height r k vr in rw (hl, hr) (higher x.balance j k h s)

  -- A balanced tree at least as high as `m`
  tree_count-high :
      (t : Tree (Avl A)) (h m : ℕ) → IsAvl t h → m ≤ h → 2 ^ (m / 2) ≤ suc (tree_count t)
  tree_count-high leaf h zero v le = omega arith
  tree_count-high leaf h (suc m) v le = absurd (omega (arith, v))
  tree_count-high (node l x r) h zero v le = omega arith
  tree_count-high (node l x r) h (suc zero) v le = omega arith
  tree_count-high (node l x r) h (suc (suc m)) (j, k, vl, vr, s) le =
      let (lj, lk) = children x.balance j k h m s le in
      omega (arith, double_half m, tree_count-high l j m vl lj, tree_count-high r k m vr lk)

module _ {ℓ} {A : Type ℓ} (cmp : A → A → ℤ) (new : Avl A) where
  length-add_path :
      (t : Tree (Avl A)) (path : List (Frame (Avl A))) (h : ℕ)
      → IsAvl t h
      → length (add_path (by_entry cmp) new t path) ≤ length path + h
  unfolding add_path
  length-add_path leaf path h v = omega arith
  length-add_path (node l x r) path h (j, k, vl, vr, s) =
      let (lj, lk) = below x.balance j k h s in
      elim (Bool-cases (is_less cmp new.entry x.entry)) [
        | inl b ↦
            rw (add_path, b)
              (omega (
                arith,
                lj,
                length-add_path l (record { side = left; entry = x; sibling = r } ∷ path) j vl,
              ))
        | inr b ↦
            rw (add_path, b)
              (omega (
                arith,
                lk,
                length-add_path r (record { side = right; entry = x; sibling = l } ∷ path) k vr,
              ))
      ]

  -- If every balance is the difference of the heights of the children, at most one, the loop of the
  -- insertion makes at most so many rounds that 2 to the half of their number is at most the number
  -- of nodes and one.
  pub add_path-bound :
      (t : Tree (Avl A)) (h : ℕ)
      → IsAvl t h
      → 2 ^ (length (add_path (by_entry cmp) new t []) / 2) ≤ suc (tree_count t)
  add_path-bound t h v =
      tree_count-high t h (length (add_path (by_entry cmp) new t [])) v
        (omega (arith, length-add_path t [] h v))
