-- ===== src/Heap/Sort.antt =====
-- heap_pop_to_rear, heap_sort and heapsort.
use colossal.Prelude.{
  ℕ, zero, suc, ◌+◌, ◌-◌, ◌≤◌, ◌<◌, ◌≡◌, inl, inr, refl, ◌∙◌, Bool, false, arith, ltb, ◌==◌, write,
  bit, count, SameEntries, none_of_same, none_of_count, count-none, count-write_outside, Bool-cases,
}
use colossal.Heap.{push, adjust, pop_to_rear, sort, init, heapsort}
use colossal.Heap.Order.{IsWeakOrder, IsHeap, Below-root, root_first}
use colossal.Heap.Adjust.{adjust_restores, init-IsHeap}
use colossal.Heap.Entries.{adjust-Fills, push-Fills, init-same, init-outside}
use colossal.Heap.Push.{push_restores}

module _ {ℓ} {A : Type ℓ} (lt : A → A → Bool) where
  -- The first `n` entries ascend.
  abbrev pub IsSorted : ℕ → (ℕ → A) → Type 0
  IsSorted n base = (i j : ℕ) → i < j → j < n → lt (base j) (base i) ≡ false

  -- heap_pop_to_rear on a heap of `n + 1` entries: the root goes to the rear, and the others, none
  -- of which the root is less than, are a heap.
  pub record PopsToRear (n : ℕ) (base r : ℕ → A) : Type ℓ where
    pub rear : r n ≡ base 0
    pub heap : IsHeap lt n r
    pub same : SameEntries (suc n) r base
    pub first : (i : ℕ) → i < n → lt (base 0) (r i) ≡ false
    pub outside : (i : ℕ) → n < i → r i ≡ base i

  -- What heap_sort does to a heap: the entries ascend, and are the same ones.
  pub record Sorts (n : ℕ) (base r : ℕ → A) : Type ℓ where
    pub sorted : IsSorted n r
    pub same : SameEntries n r base
    pub outside : (i : ℕ) → n ≤ i → r i ≡ base i

  module _ (laws : IsWeakOrder lt) where
    pop_to_rear_single : (base : ℕ → A) (i : ℕ) → pop_to_rear lt base 1 i ≡ base i
    unfolding pop_to_rear
    pop_to_rear_single base i = ground arith

    pop_to_rear_many :
        (n : ℕ) (base : ℕ → A)
        → 0 < n
        → IsHeap lt (suc n) base
        → PopsToRear n base (adjust lt (write base n (base 0)) n 0 (base n))
    pop_to_rear_many n base pos h =
        let b = write base n (base 0) in
        let f = adjust-Fills n lt b 0 (base n) pos in
        record {
          rear = ground (arith, f.outside n);
          heap = adjust_restores lt 0 n laws b (base n) (λ c p q r. ground (arith, h c));
          same = λ p.
              ground (arith, f.outside n, f.entries p, count-write_outside p base n n (base 0));
          first =
              let none : count (lt (base 0)) base (suc n) ≡ 0 =
                count-none (lt (base 0)) base (suc n)
                  (λ i q. root_first lt laws (suc n) base i h q) in
              none_of_count (lt (base 0)) _ n (
                ground (
                  arith,
                  f.entries (lt (base 0)),
                  count-write_outside (lt (base 0)) base n n (base 0),
                ));
          outside = λ i q. ground (arith, f.outside i);
        }

    -- For a heap of `n + 1` entries under a weak order, heap_pop_to_rear puts the root at index `n`
    -- and leaves a heap of the others, none of which the root is less than. It keeps the entries as
    -- they are up to order, and writes nothing behind index `n`.
    pub pop_to_rear-PopsToRear :
        (n : ℕ) (base : ℕ → A)
        → IsHeap lt (suc n) base
        → PopsToRear n base (pop_to_rear lt base (suc n))
    unfolding pop_to_rear
    pop_to_rear-PopsToRear zero base h =
        let e = pop_to_rear_single base in
        record {
          rear = e 0;
          heap = λ c p q r. absurd (omega arith);
          same = λ p. ground (arith, e 0);
          first = λ i q. absurd (omega arith);
          outside = λ i q. e i;
        }
    pop_to_rear-PopsToRear (suc n) base h =
        let e : suc (suc n) - 1 ≡ suc n = omega arith in
        rw e (pop_to_rear_many (suc n) base (omega arith) h)

    sort-step :
        (n : ℕ) (base b r : ℕ → A) → PopsToRear n base b → Sorts n b r → Sorts (suc n) base r
    sort-step n base b r p s = record {
      sorted = λ i j q t. elim (Bool-cases (j == n)) [
        | inl e ↦
            let low : lt (base 0) (r i) ≡ false =
              none_of_same (lt (base 0)) r b n (s.same (lt (base 0))) p.first i (ground arith) in
            ground (arith, s.outside n, p.rear)
        | inr e ↦ s.sorted i j q (ground arith)
      ];
      same = λ f. ground (arith, s.same f, p.same f, s.outside n);
      outside = λ i q. s.outside i (omega arith) ∙ p.outside i (omega arith);
    }

    -- heap_sort sorts a heap in place.
    pub sort-Sorts : (n : ℕ) (base : ℕ → A) → IsHeap lt n base → Sorts n base (sort lt n base)
    unfolding sort
    sort-Sorts zero base h = record {
      sorted = λ i j q t. absurd (omega arith);
      same = λ f. refl;
      outside = λ i q. refl;
    }
    sort-Sorts (suc n) base h = elim (Bool-cases (ltb 1 (suc n))) [
      | inl e ↦
          let p = pop_to_rear-PopsToRear n base h in
          rw e (sort-step n base _ _ p (sort-Sorts n _ p.heap))
      | inr e ↦ rw e (record {
        sorted = λ i j q t. absurd (ground arith);
        same = λ f. refl;
        outside = λ i q. refl;
      })
    ]

    -- Under a weak order, heapsort of any array of `n` entries leaves them in ascending order, the same
    -- entries as often, and writes nothing from index `n` on.
    pub heapsort-Sorts : (n : ℕ) (base : ℕ → A) → Sorts n base (heapsort lt base n)
    unfolding heapsort
    heapsort-Sorts n base =
        let s = sort-Sorts n (init lt base n) (init-IsHeap lt laws n base) in
        record {
          sorted = s.sorted;
          same = λ f. s.same f ∙ init-same n lt base f;
          outside = λ i q. s.outside i q ∙ init-outside n lt base i q;
        }

    -- Under a weak order, heap_push of an entry appended to a heap leaves a heap of the old entries
    -- and the new one.
    pub push_back-IsHeap :
        (n : ℕ) (base : ℕ → A) (val : A)
        → IsHeap lt n base
        → let r = push lt (write base n val) n 0 val in
          IsHeap lt (suc n) r × ((p : A → Bool) → count p r (suc n) ≡ bit (p val) + count p base n)
    push_back-IsHeap n base val h = (
      push_restores lt 0 (suc n) val laws _ n
          (record {
            below = Below-root n n (omega arith);
            edges = λ c p q r s t. ground (arith, h c);
            bridged = λ c p q r s. absurd (omega arith);
          })
          (λ c p q r. absurd (omega arith)),
      λ p. ground (
        arith,
        (push-Fills (suc n) lt (write base n val) n 0 val (omega arith)).entries p,
        count-write_outside p base n n val,
      ),
    )
