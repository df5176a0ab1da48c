-- ===== src/Heap/Push.antt =====
-- heap_push moves the hole towards the root until the value fits there.
use colossal.Prelude.{
  ℕ, zero, suc, ◌≤◌, ◌<◌, ◌≡◌, inl, inr, Bool, true, false, ◌&&◌, arith, ltb, write, Bool-cases,
}
use colossal.Heap.{parent, push_loop, push}
use colossal.Heap.Order.{IsWeakOrder, IsHeapFrom, HoleInv, Below-parent, le-Below}

module _ {ℓ} {A : Type ℓ} (lt : A → A → Bool) (top n : ℕ) (val : A) where
  -- The value may stand above the children of the hole.
  abbrev pub FitsAbove : (ℕ → A) → ℕ → Type 0
  FitsAbove base hole = (c : ℕ) → 0 < c → c < n → parent c ≡ hole → lt val (base c) ≡ false

  -- The value may stand in the hole: at the top, or below a parent that is not less.
  fill-IsHeapFrom :
      (base : ℕ → A) (hole : ℕ)
      → HoleInv lt top n base hole
      → FitsAbove base hole
      → (top < hole → lt (base (parent hole)) val ≡ false)
      → IsHeapFrom lt top n (write base hole val)
  fill-IsHeapFrom base hole v fits stop c p q r =
      ground (arith, v.edges c p q r, fits c p q, le-Below top hole v.below)

  module _ (laws : IsWeakOrder lt) where
    -- A round moves the hole to its parent.
    rise-HoleInv :
        (base : ℕ → A) (hole : ℕ)
        → HoleInv lt top n base hole
        → top < hole
        → HoleInv lt top n (write base hole (base (parent hole))) (parent hole)
    rise-HoleInv base hole v h = record {
      below = Below-parent top hole v.below h;
      edges = λ c p q r s t. ground (arith, v.edges c p q r, v.bridged c p q);
      bridged = λ c p q r s.
          let up : top ≤ parent (parent hole) =
            omega
              (arith, le-Below top _ (Below-parent top _ (Below-parent top hole v.below h) s)) in
          ground (
            arith,
            v.edges (parent hole),
            v.edges c p q,
            laws.not_trans (base (parent (parent hole))) (base (parent hole)) (base c),
          );
    }

    rise-FitsAbove :
        (base : ℕ → A) (hole : ℕ)
        → HoleInv lt top n base hole
        → top < hole
        → lt (base (parent hole)) val ≡ true
        → FitsAbove (write base hole (base (parent hole))) (parent hole)
    rise-FitsAbove base hole v h e c p q r = ground (
      arith,
      le-Below top (parent hole) (Below-parent top hole v.below h),
      laws.asym (base (parent hole)) val e,
      v.edges c p q,
      laws.not_trans val (base (parent hole)) (base c),
    )

    push_loop_restores :
        (k : ℕ) (base : ℕ → A) (hole : ℕ)
        → hole ≤ k
        → HoleInv lt top n base hole
        → FitsAbove base hole
        → IsHeapFrom lt top n (push_loop lt k base hole top val)
    unfolding push_loop
    push_loop_restores zero base hole f v fits =
        fill-IsHeapFrom base hole v fits (λ h. absurd (omega arith))
    push_loop_restores (suc k) base hole f v fits =
        elim (Bool-cases (ltb top hole && lt (base (parent hole)) val)) [
          | inl e ↦ rw e (
              let h : top < hole = ground arith in
              push_loop_restores k _ (parent hole) (omega arith) (rise-HoleInv base hole v h)
                (rise-FitsAbove base hole v h (ground arith)))
          | inr e ↦ rw e (fill-IsHeapFrom base hole v fits (λ h. ground arith))
        ]

    -- heap_push puts the value into the hole or above it, and the order is complete from `top` on.
    pub push_restores :
        (base : ℕ → A) (hole : ℕ)
        → HoleInv lt top n base hole
        → FitsAbove base hole
        → IsHeapFrom lt top n (push lt base hole top val)
    unfolding push
    push_restores base hole v fits = push_loop_restores hole base hole (omega arith) v fits
