-- ===== src/Fsched/Compare.antt =====
-- fs_context::operator(): the order in which fair scheduling serves the users.
use colossal.Prelude.{ℕ, ◌≡◌, refl, Bool, true, false, arith, if◌then◌else◌}
use colossal.Prelude.Int.{ℤ, pos, negsuc, ◌-ℤ◌, ltb_ℤ, eqb_ℤ}
use colossal.Double.{Double, IsOrdered}
use colossal.Fsched.{
  FsContext, is_needy, share_ratio, weight_ratio, compare, compare_double, compare_uid,
}
use colossal.Heap.Order.{IsWeakOrder}

module _ {ℓ} {D : Type ℓ} ⦃d : Double D⦄ where
  -- Exchanging the users turns the sign of the result, whatever the values are.
  compare-flip : (a b : FsContext D) → compare a b ≡ pos 0 -ℤ compare b a
  unfolding compare ◌-ℤ◌
  compare-flip a b = ground arith

  -- The result is one of the three signs, and is 0 only for users of one id.
  pub compare-eq_zero : (a b : FsContext D) → compare a b ≡ pos 0 → a.uid ≡ b.uid
  unfolding compare
  compare-eq_zero a b h = ground arith

  -- A user below its min share is served before one that is not.
  compare-needy :
      (a b : FsContext D)
      → is_needy a ≡ true
      → is_needy b ≡ false
      → (compare a b ≡ negsuc 0) × (compare b a ≡ pos 1)
  unfolding compare
  compare-needy a b h k = ground arith

  -- fs_context::operator>
  unfoldable pub gt : FsContext D → FsContext D → Bool
  gt a b = ltb_ℤ (pos 0) (compare a b)

  module _ (laws : IsOrdered D) where
    -- Neither of the ratios that the comparator takes is NaN.
    pub record HasRatios (a : FsContext D) : Type 0 where
      pub share : laws.IsNumber (share_ratio a)
      pub weight : laws.IsNumber (weight_ratio a)

    gt-asym : (a b : FsContext D) → gt a b ≡ true → gt b a ≡ false
    unfolding gt ◌-ℤ◌
    gt-asym a b h = ground (arith, compare-flip a b)

    -- `lex x u y v` is the comparison of two users by one ratio, and then by id.
    abbrev lex : D → ℕ → D → ℕ → ℤ
    lex x u y v = let ret = compare_double x y in if eqb_ℤ ret (pos 0) then compare_uid u v else ret

    lex-not_trans :
        (x y z : D) (u v w : ℕ)
        → laws.IsNumber x
        → laws.IsNumber y
        → laws.IsNumber z
        → ltb_ℤ (pos 0) (lex x u y v) ≡ false
        → ltb_ℤ (pos 0) (lex y v z w) ≡ false
        → ltb_ℤ (pos 0) (lex x u z w) ≡ false
    lex-not_trans x y z u v w nx ny nz h k = ground (
      arith,
      laws.asym x y,
      laws.asym y z,
      laws.asym x z,
      laws.not_trans z y x ny,
      laws.not_trans x z y nz,
      laws.not_trans y x z nx,
    )

    -- The comparison by the two classes, needy users first.
    abbrev by_class : Bool → Bool → ℤ → ℤ → ℤ
    by_class true true s w = s
    by_class true false s w = negsuc 0
    by_class false true s w = pos 1
    by_class false false s w = w

    abbrev by_share : FsContext D → FsContext D → ℤ
    by_share a b = lex (share_ratio a) a.uid (share_ratio b) b.uid

    abbrev by_weight : FsContext D → FsContext D → ℤ
    by_weight a b = lex (weight_ratio a) a.uid (weight_ratio b) b.uid

    compare-by_class :
        (a b : FsContext D)
        → compare a b ≡ by_class (is_needy a) (is_needy b) (by_share a b) (by_weight a b)
    unfolding compare
    compare-by_class a b = ground arith

    by_class-not_trans :
        (p q r : Bool) (s t u w x y : ℤ)
        → (ltb_ℤ (pos 0) s ≡ false → ltb_ℤ (pos 0) t ≡ false → ltb_ℤ (pos 0) u ≡ false)
        → (ltb_ℤ (pos 0) w ≡ false → ltb_ℤ (pos 0) x ≡ false → ltb_ℤ (pos 0) y ≡ false)
        → ltb_ℤ (pos 0) (by_class p q s w) ≡ false
        → ltb_ℤ (pos 0) (by_class q r t x) ≡ false
        → ltb_ℤ (pos 0) (by_class p r u y) ≡ false
    by_class-not_trans true true true s t u w x y f g h k = f h k
    by_class-not_trans false false false s t u w x y f g h k = g h k
    by_class-not_trans p false true s t u w x y f g h k = absurd (ground arith)
    by_class-not_trans false true r s t u w x y f g h k = absurd (ground arith)
    by_class-not_trans true q false s t u w x y f g h k = refl

    gt-not_trans :
        (a b c : FsContext D)
        → HasRatios a
        → HasRatios b
        → HasRatios c
        → gt a b ≡ false
        → gt b c ≡ false
        → gt a c ≡ false
    unfolding gt
    gt-not_trans a b c m n o =
        rw (compare-by_class a b, compare-by_class b c, compare-by_class a c)
          (by_class-not_trans (is_needy a) (is_needy b) (is_needy c) _ _ _ _ _ _
            (lex-not_trans _ _ _ a.uid b.uid c.uid m.share n.share o.share)
            (lex-not_trans _ _ _ a.uid b.uid c.uid m.weight n.weight o.weight))

    -- Where no ratio is NaN, the heap of fs_select is ordered by a weak order of the users.
    pub gt-IsWeakOrder :
        {U : Type 0} (ctx : U → FsContext D)
        → ((u : U) → HasRatios (ctx u))
        → IsWeakOrder (λ u v. gt (ctx u) (ctx v))
    gt-IsWeakOrder ctx n = record {
      asym = λ u v. gt-asym (ctx u) (ctx v);
      not_trans = λ u v w. gt-not_trans (ctx u) (ctx v) (ctx w) (n u) (n v) (n w);
    }
