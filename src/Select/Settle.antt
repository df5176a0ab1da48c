-- ===== src/Select/Settle.antt =====
-- The loop of operator(): users whose demand is met leave, and the others stay in order.
use colossal.Prelude.{
  ℕ, zero, suc, ◌+◌, ◌-◌, ◌≤◌, ◌<◌, ◌≡◌, refl, inl, inr, Bool, true, false, ◌==◌, bit, count, arith,
  Bool-cases,
}
use colossal.Heap.{pop_to_rear}
use colossal.Heap.Order.{IsWeakOrder, IsHeap}
use colossal.Heap.Sort.{pop_to_rear-PopsToRear}
use colossal.Fsched.{FsContext}
use colossal.Select.{FsSelect, greater, is_met, drop_top, settle}

-- No user stands twice among the first `n` entries.
abbrev pub Distinct : ℕ → (ℕ → ℕ) → Type 0
Distinct n heap = (v : ℕ) → count (λ w. w == v) heap n ≤ 1

module _ {ℓ} {D : Type ℓ} (cmp : ℕ → ℕ → FsContext D → FsContext D → Bool) where
  pub record IsReady (ctx : ℕ → FsContext D) (s : FsSelect) : Type 0 where
    pub heap : IsHeap (greater cmp ctx) s.size s.heap
    pub distinct : Distinct s.size s.heap

  -- `t` holds the users of `s` but for some whose demand is met, and the one at its top, if it has
  -- one, is not met.
  pub record IsSettled (ctx : ℕ → FsContext D) (s t : FsSelect) : Type 0 where
    pub ready : IsReady ctx t
    pub fewer : (p : ℕ → Bool) → count p t.heap t.size ≤ count p s.heap s.size
    pub kept :
        (p : ℕ → Bool)
        → ((v : ℕ) → is_met cmp ctx v ≡ true → p v ≡ false)
        → count p t.heap t.size ≡ count p s.heap s.size
    pub stops : 0 < t.size → is_met cmp ctx (t.heap 0) ≡ false

  module _ (ctx : ℕ → FsContext D) (laws : IsWeakOrder (greater cmp ctx)) where
    popped :
        (k n : ℕ) (heap : ℕ → ℕ)
        → n ≡ suc k
        → IsHeap (greater cmp ctx) n heap
        → let r = pop_to_rear (greater cmp ctx) heap n in
          IsHeap (greater cmp ctx) (n - 1) r
          × ((p : ℕ → Bool) → bit (p (heap 0)) + count p r (n - 1) ≡ count p heap n)
    popped k n heap e h =
        let less : suc k - 1 ≡ k = omega arith in
        let q = pop_to_rear-PopsToRear _ laws k heap (rw e at h) in
        rw (e, less) (q.heap, λ p. ground (arith, q.rear, q.same p))

    drop_top-IsReady :
        (k : ℕ) (s : FsSelect)
        → s.size ≡ suc k
        → IsReady ctx s
        → IsReady ctx (drop_top cmp ctx s)
          × ((p : ℕ → Bool)
              → bit (p (s.heap 0)) + count p (drop_top cmp ctx s).heap (drop_top cmp ctx s).size
                ≡ count p s.heap s.size)
          × ((drop_top cmp ctx s).size ≡ k)
    unfolding drop_top
    drop_top-IsReady k s e r =
        let (h, c) = popped k s.size s.heap e r.heap in
        (
          record { heap = h; distinct = λ v. omega (arith, c (λ w. w == v), r.distinct v) },
          c,
          omega arith,
        )

    pub settle-IsSettled :
        (k : ℕ) (s : FsSelect) → s.size ≡ k → IsReady ctx s → IsSettled ctx s (settle cmp k ctx s)
    unfolding settle
    settle-IsSettled zero s e r = record {
      ready = r;
      fewer = λ p. omega arith;
      kept = λ p h. refl;
      stops = λ h. absurd (omega arith);
    }
    settle-IsSettled (suc k) s e r = elim (Bool-cases (is_met cmp ctx (s.heap 0))) [
      | inl met ↦
          let (r', c, size) = drop_top-IsReady k s e r in
          let t = settle-IsSettled k (drop_top cmp ctx s) size r' in
          rw met (record {
            ready = t.ready;
            fewer = λ p. omega (arith, t.fewer p, c p);
            kept = λ p h. ground (arith, t.kept p h, c p, h (s.heap 0) met);
            stops = t.stops;
          })
      | inr unmet ↦
          rw unmet
            (record { ready = r; fewer = λ p. omega arith; kept = λ p h. refl; stops = λ h. unmet })
    ]
