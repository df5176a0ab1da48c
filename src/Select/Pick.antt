-- ===== src/Select/Pick.antt =====
-- An fs_select over a range that is asked once, as the selector does: the choice in terms of the
-- range alone.
use colossal.Prelude.{
  ℕ, ◌≤◌, ◌≡◌, ◌∙◌, sym, ◌⊎◌, inl, inr, Bool, true, false, not, ◌&&◌, none, some, List, [], ◌∷◌,
  ◌==◌, count-none, arith, All, All-weaken,
}
use colossal.Heap.Order.{IsWeakOrder}
use colossal.Fsched.{FsContext}
use colossal.Select.{greater, is_met, allot, make, select}
use colossal.Select.Choose.{select_correct}
use colossal.Select.Make.{occurs, make-IsReady}

none_occurs : (p : ℕ → Bool) (us : List ℕ) → occurs p us ≡ 0 → All (λ u. p u ≡ false) us
none_occurs p [] h = tt
none_occurs p (u ∷ us) h = (ground arith, none_occurs p us (omega arith))

module _ {ℓ} {D : Type ℓ} (cmp : ℕ → ℕ → FsContext D → FsContext D → Bool) (ctx : ℕ → FsContext D)
    (us : List ℕ) where
  -- No user of the range with an unmet demand comes before `u`, which is one of them.
  pub record IsNeediest (u : ℕ) : Type 0 where
    pub member : occurs (λ v. v == u) us ≡ 1
    pub unmet : is_met cmp ctx u ≡ false
    pub first : All (λ v. (greater cmp ctx u v && not (is_met cmp ctx v)) ≡ false) us

  -- For a range without repetition, under an order that is weak before and after the allotment, a
  -- new fs_select that is asked once returns _end exactly if no user has an unmet demand, and leaves
  -- the memory alone then; otherwise it gives a task to the neediest user.
  pub pick_correct :
      IsWeakOrder (greater cmp ctx)
      → ((u : ℕ) → IsWeakOrder (greater cmp (allot cmp ctx u)))
      → ((v : ℕ) → occurs (λ u. u == v) us ≤ 1)
      → let (choice, after, s) = select cmp ctx (make cmp ctx us) in
        ((choice ≡ none) × (after ≡ ctx) × All (λ v. is_met cmp ctx v ≡ true) us)
        ⊎ ((u : ℕ) × (choice ≡ some u) × (after ≡ allot cmp ctx u) × IsNeediest u)
  pick_correct laws laws' once =
      let (ready, same) = make-IsReady cmp ctx laws us once in
      let s = make cmp ctx us in
      elim (select_correct cmp ctx laws laws' s ready) [
        | inl (e, a, z, met) ↦
            let p : ℕ → Bool = λ v. not (is_met cmp ctx v) in
            inl (
              e,
              a,
              All-weaken us (λ v h. ground arith)
                  (none_occurs p us
                    (sym (same p) ∙ count-none p s.heap s.size (λ i h. ground (arith, met i h)))),
            )
        | inr (u, e, a, c) ↦
            let p : ℕ → Bool = λ v. greater cmp ctx u v && not (is_met cmp ctx v) in
            inr (
              u,
              e,
              a,
              record {
                member = sym (same (λ v. v == u)) ∙ c.held;
                unmet = c.unmet;
                first = none_occurs p us (
                    sym (same p) ∙ count-none p s.heap s.size (λ i h. ground (arith, c.first i h)));
              },
            )
      ]
