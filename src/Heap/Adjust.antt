-- ===== src/Heap/Adjust.antt =====
-- heap_adjust moves the hole down to a leaf, always to the child that is not less, and pushes the
-- value up from there; heap_init does so at every parent, the last one first.
use colossal.Prelude.{
  ℕ, zero, suc, ◌+◌, ◌-◌, ◌/◌, ◌≤◌, ◌<◌, ◌≡◌, ◌⊎◌, inl, inr, refl, Bool, false, arith, ltb, ◌==◌,
  write, Bool-cases, ltb→lt,
}
use colossal.Heap.{parent, right, large_child, sink_loop, sink_last, adjust, init_loop, init}
use colossal.Heap.Order.{IsWeakOrder, IsHeapFrom, IsHeap, HoleInv, Below}
use colossal.Heap.Push.{FitsAbove, push_restores}

module _ {ℓ} {A : Type ℓ} (lt : A → A → Bool) (top n : ℕ) where
  -- `m` is a child of the hole, and not less than the other one.
  record IsLargeChild (base : ℕ → A) (hole m : ℕ) : Type 0 where
    inside : m < n
    child : (m ≡ right hole) ⊎ (m + 1 ≡ right hole)
    large : (c : ℕ) → 0 < c → c < n → parent c ≡ hole → lt (base m) (base c) ≡ false

  sink-HoleInv :
      (base : ℕ → A) (hole m : ℕ)
      → HoleInv lt top n base hole
      → IsLargeChild base hole m
      → HoleInv lt top n (write base hole (base m)) m
  sink-HoleInv base hole m v l =
      let up : parent m ≡ hole = omega (arith, l.child) in
      record {
        below = Below.under (omega (arith, l.child)) (rw up v.below);
        edges = λ c p q r s t. ground (
          arith,
          v.edges c p q r,
          v.bridged m (omega (arith, l.child)) l.inside up,
          l.large c p q,
        );
        bridged = λ c p q r s. ground (arith, l.child, v.edges c p q);
      }

  child_of : (c hole : ℕ) → 0 < c → parent c ≡ hole → (c ≡ right hole) ⊎ (c ≡ right hole - 1)
  child_of c hole p r = grind arith

  module _ (laws : IsWeakOrder lt) where
    large_child-IsLargeChild :
        (base : ℕ → A) (hole : ℕ)
        → right hole < n
        → IsLargeChild base hole (large_child lt base hole)
    large_child-IsLargeChild base hole h = record {
      inside = ground arith;
      child = ground arith;
      large = λ c p q r. ground (
        arith,
        child_of c hole p r,
        laws.asym (base c) (base c),
        laws.asym (base (right hole)) (base (right hole - 1)),
      );
    }

    sink_loop_restores :
        (k : ℕ) (base : ℕ → A) (hole : ℕ)
        → n ≤ hole + k
        → HoleInv lt top n base hole
        → let (b, h) = sink_loop lt k base n hole in HoleInv lt top n b h × (n ≤ right h)
    unfolding sink_loop
    sink_loop_restores zero base hole f v = (v, omega arith)
    sink_loop_restores (suc k) base hole f v = elim (Bool-cases (ltb (right hole) n)) [
      | inl e ↦
          let l = large_child-IsLargeChild base hole (ltb→lt _ _ e) in
          rw e (
            sink_loop_restores k _ (large_child lt base hole) (omega (arith, l.child))
              (sink-HoleInv base hole _ v l))
      | inr e ↦ rw e (v, ground arith)
    ]

    -- After the `if` the hole is a leaf.
    sink_last_restores :
        (base : ℕ → A) (hole : ℕ)
        → HoleInv lt top n base hole
        → n ≤ right hole
        → let (b, h) = sink_last lt n (base, hole) in HoleInv lt top n b h × (n < right h)
    unfolding sink_last
    sink_last_restores base hole v e = elim (Bool-cases (right hole == n)) [
      | inl q ↦
          let l : IsLargeChild base hole (right hole - 1) = record {
            inside = ground arith;
            child = ground arith;
            large = λ c p q r. ground (
              arith,
              child_of c hole p r,
              laws.asym (base (right hole - 1)) (base (right hole - 1)),
            );
          } in
          rw q (sink-HoleInv base hole _ v l, ground arith)
      | inr q ↦ rw q (v, ground arith)
    ]

    leaf-FitsAbove :
        (base : ℕ → A) (hole : ℕ) (val : A) → n < right hole → FitsAbove lt top n val base hole
    leaf-FitsAbove base hole val h c p q r = absurd (omega arith)

    -- heap_adjust completes the order from `top` on, if only edges at `top` may be missing.
    pub adjust_restores :
        (base : ℕ → A) (val : A)
        → ((c : ℕ) → 0 < c → c < n → top < parent c → lt (base (parent c)) (base c) ≡ false)
        → IsHeapFrom lt top n (adjust lt base n top val)
    unfolding adjust
    adjust_restores base val h =
        let (v, e) = sink_loop_restores n base top (omega arith) start in
        let (v', e') = sink_last_restores _ _ v e in
        push_restores lt top n val laws _ _ v' (leaf-FitsAbove _ _ val e')
      where
        start : HoleInv lt top n base top
        start = record {
          below = Below.at refl;
          edges = λ c p q r s t. h c p q (omega arith);
          bridged = λ c p q r s. absurd (omega arith);
        }

module _ {ℓ} {A : Type ℓ} (lt : A → A → Bool) (laws : IsWeakOrder lt) (n : ℕ) where
  init_loop_restores :
      (k : ℕ) (base : ℕ → A) → IsHeapFrom lt k n base → IsHeap lt n (init_loop lt k base n)
  unfolding init_loop
  init_loop_restores zero base h = h
  init_loop_restores (suc k) base h =
      init_loop_restores k _ (adjust_restores lt k n laws base (base k) (λ c p q r. h c p q r))

  -- heap_init orders any array.
  pub init-IsHeap : (base : ℕ → A) → IsHeap lt n (init lt base n)
  unfolding init
  init-IsHeap base = elim (Bool-cases (ltb n 2)) [
    | inl e ↦ rw e (λ c p q r. absurd (ground arith))
    | inr e ↦ rw e (init_loop_restores (n / 2) base (λ c p q r. absurd (omega arith)))
  ]
