-- ===== src/Select/Choose.antt =====
-- operator() of fs_select: which user is selected, and that the selector stays in order.
use colossal.Prelude.{
  ℕ, ◌<◌, ◌≡◌, ◌≢◌, ◌∙◌, sym, ap, ◌⊎◌, refl, inl, inr, Bool, true, false, not, ◌&&◌, none, some,
  ◌==◌, count, arith, Bool-cases, none_of_count, count-none, count-two, count-pos,
}
use colossal.Heap.{parent, adjust}
use colossal.Heap.Order.{IsWeakOrder, root_first}
use colossal.Heap.Adjust.{adjust_restores}
use colossal.Heap.Entries.{adjust-Fills}
use colossal.Fsched.{FsContext}
use colossal.Select.{FsSelect, greater, is_met, allot, settle, select}
use colossal.Select.Settle.{Distinct, IsReady, IsSettled, settle-IsSettled}

-- Under `Distinct` no other entry is the one at the top.
ne_top : (n : ℕ) (heap : ℕ → ℕ) (i : ℕ) → Distinct n heap → 0 < i → i < n → heap i ≢ heap 0
ne_top n heap i h p q e = absurd (
    omega (
      arith,
      h (heap 0),
      count-two (λ w. w == heap 0) heap 0 i n p q (ground arith) (ground arith),
    ))

module _ {ℓ} {D : Type ℓ} (cmp : ℕ → ℕ → FsContext D → FsContext D → Bool) where
  -- `u` is the first user of `s` whose demand is not met; it has a task more, and the selector is
  -- again in order, with the users whose demand was not met.
  pub record IsChosen (ctx : ℕ → FsContext D) (s : FsSelect) (u : ℕ) (s' : FsSelect) : Type 0 where
    pub unmet : is_met cmp ctx u ≡ false
    pub held : count (λ v. v == u) s.heap s.size ≡ 1
    pub first :
        (i : ℕ)
        → i < s.size
        → is_met cmp ctx (s.heap i) ≡ false
        → greater cmp ctx u (s.heap i) ≡ false
    pub ready : IsReady cmp (allot cmp ctx u) s'
    pub kept :
        (p : ℕ → Bool)
        → ((v : ℕ) → is_met cmp ctx v ≡ true → p v ≡ false)
        → count p s'.heap s'.size ≡ count p s.heap s.size

  module _ (ctx : ℕ → FsContext D) (laws : IsWeakOrder (greater cmp ctx))
      (laws' : (u : ℕ) → IsWeakOrder (greater cmp (allot cmp ctx u))) (s : FsSelect)
      (r : IsReady cmp ctx s) where
    all_met :
        (t : FsSelect)
        → IsSettled cmp ctx s t
        → t.size ≡ 0
        → (i : ℕ) → i < s.size
        → is_met cmp ctx (s.heap i) ≡ true
    all_met t v e i h =
        let p : ℕ → Bool = λ w. not (is_met cmp ctx w) in
        let none_left : count p s.heap s.size ≡ 0 =
          sym (v.kept p (λ w m. ground arith)) ∙ ap (count p t.heap) e in
        ground (arith, none_of_count p s.heap s.size none_left i h)

    chosen :
        (t : FsSelect)
        → IsSettled cmp ctx s t
        → 0 < t.size
        → let u = t.heap 0 in
          IsChosen ctx s u
            (record t { heap = adjust (greater cmp (allot cmp ctx u)) t.heap t.size 0 u })
    chosen t v h =
        let u = t.heap 0 in
        let f = adjust-Fills t.size (greater cmp (allot cmp ctx u)) t.heap 0 u h in
        let once = v.kept (λ w. w == u) (λ w m. ground (arith, v.stops h)) in
        record {
          unmet = v.stops h;
          held = omega (
            arith,
            once,
            v.ready.distinct u,
            count-pos (λ w. w == u) t.heap 0 t.size h (ground arith),
          );
          first = λ i q m.
              let p : ℕ → Bool = λ w. greater cmp ctx u w && not (is_met cmp ctx w) in
              let none_before : count p s.heap s.size ≡ 0 =
                sym (v.kept p (λ w k. ground arith))
                ∙ count-none p t.heap t.size
                    (λ j l. ground (arith, root_first _ laws t.size t.heap j v.ready.heap l)) in
              ground (arith, none_of_count p s.heap s.size none_before i q);
          ready = record {
            heap = adjust_restores _ 0 t.size (laws' u) t.heap u (λ c p q l. ground (
              arith,
              v.ready.heap c p q,
              ne_top t.size t.heap c v.ready.distinct p q,
              ne_top t.size t.heap (parent c) v.ready.distinct l (omega arith),
            ));
            distinct = λ w. omega (arith, f.entries (λ x. x == w), v.ready.distinct w);
          };
          kept = λ p k. omega (arith, f.entries p, v.kept p k);
        }

    -- If the users are a heap without duplicates under an order that is weak before and after the
    -- allotment, operator() returns `_end` exactly when no user has an unmet demand, and leaves the
    -- memory alone then. Otherwise it gives one task to a user with an unmet demand before which no
    -- other one with an unmet demand comes, and the users stay such a heap.
    pub select_correct :
        let (choice, after, s') = select cmp ctx s in
        ((choice ≡ none)
          × (after ≡ ctx)
          × (s'.size ≡ 0)
          × ((i : ℕ) → i < s.size → is_met cmp ctx (s.heap i) ≡ true))
        ⊎ ((u : ℕ) × (choice ≡ some u) × (after ≡ allot cmp ctx u) × IsChosen ctx s u s')
    unfolding select
    select_correct =
        let t = settle cmp s.size ctx s in
        let v = settle-IsSettled cmp ctx laws s.size s refl r in
        elim (Bool-cases (t.size == 0)) [
          | inl e ↦ rw e (inl (refl, refl, ground arith, all_met t v (ground arith)))
          | inr e ↦ rw e (inr (t.heap 0, refl, refl, chosen t v (ground arith)))
        ]
