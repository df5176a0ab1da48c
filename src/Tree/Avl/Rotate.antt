-- ===== src/Tree/Avl/Rotate.antt =====
-- What the rotations of __avl_balance and avl_del come to at a node one of whose children is higher by
-- two than the other.
use colossal.Prelude.{◌≡◌, refl, sym, subst, ◌∙◌, ℕ, suc, true, false, not_both, arith}
use colossal.Prelude.Int.{ℤ, pos, eqb_ℤ}
use colossal.Tree.{Side, left, right, other, Tree, link}
use colossal.Tree.Avl.{Avl, lean, twice, after_double, mark, single, double}
use colossal.Tree.Avl.Shape.{
  Shape, keys, IsAvl, IsAvl-link, link-IsAvl, Avls, single-link, double-link, keys-single,
  keys-double, is_link,
}

pub lean-even : (d : Side) → eqb_ℤ (lean d) (pos 0) ≡ false
lean-even left = refl
lean-even right = refl

pub lean-other : (d : Side) → eqb_ℤ (lean d) (lean (other d)) ≡ false
lean-other left = refl
lean-other right = refl

pub other-lean : (d : Side) → eqb_ℤ (lean (other d)) (lean d) ≡ false
other-lean left = refl
other-lean right = refl

pub lean-same : (d : Side) → eqb_ℤ (lean d) (lean d) ≡ true
lean-same left = refl
lean-same right = refl

pub even-twice : (d : Side) → eqb_ℤ (pos 0) (twice d) ≡ false
even-twice left = refl
even-twice right = refl

pub twice-lean : (d : Side) → eqb_ℤ (twice d) (lean d) ≡ false
twice-lean left = refl
twice-lean right = refl

pub twice-same : (d : Side) → eqb_ℤ (twice d) (twice d) ≡ true
twice-same left = refl
twice-same right = refl

pub even-lean : (d : Side) → eqb_ℤ (pos 0) (lean d) ≡ false
even-lean left = refl
even-lean right = refl

eqb_refl : (a : ℤ) → eqb_ℤ a a ≡ true
eqb_refl a = ground arith

-- Two balances that the program tells apart are not the same.
differ : (a b c : ℤ) → a ≡ b → a ≡ c → eqb_ℤ b c ≡ false → (P : Type 0) → P
differ a b c p q h P = absurd (not_both (eqb_ℤ b c) (rw (sym p ∙ q) (eqb_refl c)) h)

pub Shape-near :
    (d : Side) (b : ℤ) (h k n : ℕ) → Shape d b h k n → b ≡ lean d → (h ≡ suc k) × (n ≡ suc h)
Shape-near d b h k n (Shape.even p q r) e = differ b (lean d) (pos 0) e p (lean-even d) _
Shape-near d b h k n (Shape.near_higher p q r) e = (q, r)
Shape-near d b h k n (Shape.far_higher p q r) e =
    differ b (lean d) (lean (other d)) e p (lean-other d) _

pub Shape-far :
    (d : Side) (b : ℤ) (h k n : ℕ)
    → Shape d b h k n
    → b ≡ lean (other d)
    → (k ≡ suc h) × (n ≡ suc k)
Shape-far d b h k n (Shape.even p q r) e =
    differ b (lean (other d)) (pos 0) e p (lean-even (other d)) _
Shape-far d b h k n (Shape.near_higher p q r) e =
    differ b (lean d) (lean (other d)) p e (lean-other d) _
Shape-far d b h k n (Shape.far_higher p q r) e = (q, r)

pub Shape-even :
    (d : Side) (b : ℤ) (h k n : ℕ) → Shape d b h k n → b ≡ pos 0 → (h ≡ k) × (n ≡ suc h)
Shape-even d b h k n (Shape.even p q r) e = (q, r)
Shape-even d b h k n (Shape.near_higher p q r) e = differ b (lean d) (pos 0) p e (lean-even d) _
Shape-even d b h k n (Shape.far_higher p q r) e =
    differ b (lean (other d)) (pos 0) p e (lean-even (other d)) _

after_double-Shape :
    (d : Side) (b : ℤ) (h j k : ℕ)
    → Shape d b h j (suc k)
    → Shape d (after_double d b).0 k h (suc k) × Shape d (after_double d b).1 j k (suc k)
after_double-Shape left b h j k (Shape.even p q r) = rw p (
  Shape.even refl (omega (arith, q, r)) refl,
  Shape.even refl (omega (arith, q, r)) (omega (arith, q, r)),
)
after_double-Shape right b h j k (Shape.even p q r) = rw p (
  Shape.even refl (omega (arith, q, r)) refl,
  Shape.even refl (omega (arith, q, r)) (omega (arith, q, r)),
)
after_double-Shape left b h j k (Shape.near_higher p q r) =
    rw p
      (Shape.even refl (omega (arith, q, r)) refl, Shape.far_higher refl (omega (arith, q, r)) refl)
after_double-Shape right b h j k (Shape.near_higher p q r) =
    rw p
      (Shape.even refl (omega (arith, q, r)) refl, Shape.far_higher refl (omega (arith, q, r)) refl)
after_double-Shape left b h j k (Shape.far_higher p q r) = rw p (
  Shape.near_higher refl (omega (arith, q, r)) refl,
  Shape.even refl (omega (arith, q, r)) (omega (arith, q, r)),
)
after_double-Shape right b h j k (Shape.far_higher p q r) = rw p (
  Shape.near_higher refl (omega (arith, q, r)) refl,
  Shape.even refl (omega (arith, q, r)) (omega (arith, q, r)),
)

module _ {ℓ} {A : Type ℓ} where
  -- A single rotation, when the higher child leans to its outer side: the tree becomes lower.
  pub single-lower :
      (d : Side) (a : Tree (Avl A)) (c : Avl A) (b : Tree (Avl A)) (x : Avl A) (far : Tree (Avl A))
      (k : ℕ)
      → IsAvl (link d a c b) (suc (suc k))
      → IsAvl far k
      → c.balance ≡ lean d
      → Avls
          (keys (link d (link d a c b) x far))
          (suc (suc k))
          (single d (pos 0) (pos 0) (link d (link d a c b) x far))
  single-lower d a c b x far k v w e =
      let (h, j, va, vb, s) = link-IsAvl d a c b (suc (suc k)) v in
      let (q, r) = Shape-near d c.balance h j (suc (suc k)) s e in
      record {
        tree = link d a (mark (pos 0) c) (link d b (mark (pos 0) x) far);
        returned = single-link d (pos 0) (pos 0) a c b x far;
        balanced =
            IsAvl-link d a (mark (pos 0) c) (link d b (mark (pos 0) x) far) h (suc k) (suc (suc k))
              va
              (IsAvl-link d b (mark (pos 0) x) far j k (suc k) vb w
                (Shape.even refl (omega (arith, q, r)) (omega (arith, q, r))))
              (Shape.even refl (omega (arith, q, r)) (omega (arith, q, r)));
        same_keys = keys-single d (pos 0) (pos 0) a c b x far;
      }

  -- A single rotation, when the higher child is even: the tree stays as high.
  pub single-even :
      (d : Side) (a : Tree (Avl A)) (c : Avl A) (b : Tree (Avl A)) (x : Avl A) (far : Tree (Avl A))
      (k : ℕ)
      → IsAvl (link d a c b) (suc (suc k))
      → IsAvl far k
      → c.balance ≡ pos 0
      → Avls
          (keys (link d (link d a c b) x far))
          (suc (suc (suc k)))
          (single d (lean (other d)) (lean d) (link d (link d a c b) x far))
  single-even d a c b x far k v w e =
      let (h, j, va, vb, s) = link-IsAvl d a c b (suc (suc k)) v in
      let (q, r) = Shape-even d c.balance h j (suc (suc k)) s e in
      record {
        tree = link d a (mark (lean (other d)) c) (link d b (mark (lean d) x) far);
        returned = single-link d (lean (other d)) (lean d) a c b x far;
        balanced =
            IsAvl-link d a (mark (lean (other d)) c) (link d b (mark (lean d) x) far) h
              (suc (suc k)) (suc (suc (suc k))) va
              (IsAvl-link d b (mark (lean d) x) far j k (suc (suc k)) vb w
                (Shape.near_higher refl (omega (arith, q, r)) (omega (arith, q, r))))
              (Shape.far_higher refl (omega (arith, q, r)) refl);
        same_keys = keys-single d (lean (other d)) (lean d) a c b x far;
      }

  double-at :
      (d : Side) (a : Tree (Avl A)) (c : Avl A) (p : Tree (Avl A)) (g : Avl A) (q : Tree (Avl A))
      (x : Avl A) (far : Tree (Avl A)) (k : ℕ)
      → IsAvl a k
      → IsAvl (link d p g q) (suc k)
      → IsAvl far k
      → Avls
          (keys (link d (link d a c (link d p g q)) x far))
          (suc (suc k))
          (double d (link d (link d a c (link d p g q)) x far))
  double-at d a c p g q x far k va vg w =
      let (u, v) = after_double d g.balance in
      let (h, j, vp, vq, s) = link-IsAvl d p g q (suc k) vg in
      let (su, sv) = after_double-Shape d g.balance h j k s in
      record {
        tree = link d (link d a (mark u c) p) (mark (pos 0) g) (link d q (mark v x) far);
        returned = double-link d a c p g q x far;
        balanced =
            IsAvl-link d (link d a (mark u c) p) (mark (pos 0) g) (link d q (mark v x) far) (suc k)
              (suc k) (suc (suc k)) (IsAvl-link d a (mark u c) p k h (suc k) va vp su)
              (IsAvl-link d q (mark v x) far j k (suc k) vq w sv) (Shape.even refl refl refl);
        same_keys = keys-double d u v (pos 0) a c p g q x far;
      }

  -- A double rotation, when the higher child leans to its inner side: the tree becomes lower.
  pub double-lower :
      (d : Side) (a : Tree (Avl A)) (c : Avl A) (b : Tree (Avl A)) (x : Avl A) (far : Tree (Avl A))
      (k : ℕ)
      → IsAvl (link d a c b) (suc (suc k))
      → IsAvl far k
      → c.balance ≡ lean (other d)
      → Avls
          (keys (link d (link d a c b) x far))
          (suc (suc k))
          (double d (link d (link d a c b) x far))
  double-lower d a c b x far k v w e =
      let (h, j, va, vb, s) = link-IsAvl d a c b (suc (suc k)) v in
      let (q, r) = Shape-far d c.balance h j (suc (suc k)) s e in
      let hk : h ≡ k = omega (arith, q, r) in
      let jk : j ≡ suc k = omega (arith, q, r) in
      let (p, g, t, f) = is_link d b k (subst (IsAvl b) jk vb) in
      subst
        (λ b.
          IsAvl b (suc k)
          → Avls (keys (link d (link d a c b) x far)) (suc (suc k))
              (double d (link d (link d a c b) x far)))
        (sym f) (λ vg. double-at d a c p g t x far k (subst (IsAvl a) hk va) vg w)
        (subst (IsAvl b) jk vb)
