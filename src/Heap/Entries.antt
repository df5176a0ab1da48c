-- ===== src/Heap/Entries.antt =====
-- What heap_push and heap_adjust do to the entries: nothing is lost, copied or made up, and nothing
-- outside of the heap is written.
use colossal.Prelude.{
  ℕ, zero, suc, ◌+◌, ◌-◌, ◌/◌, ◌≤◌, ◌<◌, ◌≡◌, inl, inr, refl, ◌∙◌, Bool, ◌&&◌, arith, ltb, ◌==◌,
  write, bit, count, count-write, Bool-cases,
}
use colossal.Heap.{
  parent, right, large_child, push_loop, push, sink_loop, sink_last, adjust, init_loop, init,
}

module _ {ℓ} {A : Type ℓ} (n : ℕ) where
  -- The hole went from `hole` of `base` to `h` of `b`: but for the entry in the hole, both hold the
  -- same first `n` entries, and all that stands after them is the same.
  record Shifts (base : ℕ → A) (hole : ℕ) (b : ℕ → A) (h : ℕ) : Type ℓ where
    inside : h < n
    entries : (p : A → Bool) → count p b n + bit (p (base hole)) ≡ count p base n + bit (p (b h))
    outside : (i : ℕ) → n ≤ i → b i ≡ base i

  -- `r` is `base` with `val` in place of the entry in the hole, in some order.
  pub record Fills (base : ℕ → A) (hole : ℕ) (val : A) (r : ℕ → A) : Type ℓ where
    pub entries : (p : A → Bool) → count p r n + bit (p (base hole)) ≡ count p base n + bit (p val)
    pub outside : (i : ℕ) → n ≤ i → r i ≡ base i

  Shifts-stay : (base : ℕ → A) (hole : ℕ) → hole < n → Shifts base hole base hole
  Shifts-stay base hole h = record { inside = h; entries = λ p. refl; outside = λ i q. refl }

  Shifts-move :
      (base : ℕ → A) (hole m : ℕ) {b : ℕ → A} {h : ℕ}
      → hole < n
      → Shifts (write base hole (base m)) m b h
      → Shifts base hole b h
  Shifts-move base hole m f s = record {
    inside = s.inside;
    entries = λ p. ground (arith, s.entries p, count-write p base hole n (base m) f);
    outside = λ i q. ground (arith, s.outside i q);
  }

  Fills-write :
      (base : ℕ → A) (hole : ℕ) (val : A) → hole < n → Fills base hole val (write base hole val)
  Fills-write base hole val f = record {
    entries = λ p. count-write p base hole n val f;
    outside = λ i q. ground arith;
  }

  Fills-move :
      (base : ℕ → A) (hole m : ℕ) (val : A) {r : ℕ → A}
      → hole < n
      → Fills (write base hole (base m)) m val r
      → Fills base hole val r
  Fills-move base hole m val f s = record {
    entries = λ p. ground (arith, s.entries p, count-write p base hole n (base m) f);
    outside = λ i q. ground (arith, s.outside i q);
  }

  Fills-Shifts :
      (base : ℕ → A) (hole : ℕ) (val : A) {b r : ℕ → A} {h : ℕ}
      → Shifts base hole b h
      → Fills b h val r
      → Fills base hole val r
  Fills-Shifts base hole val s f = record {
    entries = λ p. omega (arith, s.entries p, f.entries p);
    outside = λ i q. f.outside i q ∙ s.outside i q;
  }

  module _ (lt : A → A → Bool) where
    push_loop-Fills :
        (k : ℕ) (base : ℕ → A) (hole top : ℕ) (val : A)
        → hole < n
        → Fills base hole val (push_loop lt k base hole top val)
    unfolding push_loop
    push_loop-Fills zero base hole top val f = Fills-write base hole val f
    push_loop-Fills (suc k) base hole top val f =
        elim (Bool-cases (ltb top hole && lt (base (parent hole)) val)) [
          | inl e ↦ rw e (
              Fills-move base hole (parent hole) val f
                (push_loop-Fills k _ (parent hole) top val (omega arith)))
          | inr e ↦ rw e (Fills-write base hole val f)
        ]

    -- heap_push trades the entry in the hole for the value, up to order.
    pub push-Fills :
        (base : ℕ → A) (hole top : ℕ) (val : A)
        → hole < n
        → Fills base hole val (push lt base hole top val)
    unfolding push
    push-Fills base hole top val = push_loop-Fills hole base hole top val

    sink_loop-Shifts :
        (k : ℕ) (base : ℕ → A) (hole : ℕ)
        → hole < n
        → let (b, h) = sink_loop lt k base n hole in Shifts base hole b h
    unfolding sink_loop
    sink_loop-Shifts zero base hole f = Shifts-stay base hole f
    sink_loop-Shifts (suc k) base hole f = elim (Bool-cases (ltb (right hole) n)) [
      | inl e ↦ rw e (
          Shifts-move base hole (large_child lt base hole) f
            (sink_loop-Shifts k _ (large_child lt base hole) (ground arith)))
      | inr e ↦ rw e (Shifts-stay base hole f)
    ]

    sink_last-Shifts :
        (base : ℕ → A) (hole : ℕ)
        → hole < n
        → let (b, h) = sink_last lt n (base, hole) in Shifts base hole b h
    unfolding sink_last
    sink_last-Shifts base hole f = elim (Bool-cases (right hole == n)) [
      | inl e ↦ rw e (Shifts-move base hole (right hole - 1) f (Shifts-stay _ _ (ground arith)))
      | inr e ↦ rw e (Shifts-stay base hole f)
    ]

    -- So does heap_adjust.
    pub adjust-Fills :
        (base : ℕ → A) (hole : ℕ) (val : A)
        → hole < n
        → Fills base hole val (adjust lt base n hole val)
    unfolding adjust
    adjust-Fills base hole val f =
        let s = sink_loop-Shifts n base hole f in
        let t = sink_last-Shifts _ _ s.inside in
        Fills-Shifts base hole val s (Fills-Shifts _ _ val t (push-Fills _ _ hole val t.inside))

    init_loop-Fills :
        (k : ℕ) (base : ℕ → A)
        → k ≤ n
        → ((p : A → Bool) → count p (init_loop lt k base n) n ≡ count p base n)
          × ((i : ℕ) → n ≤ i → init_loop lt k base n i ≡ base i)
    unfolding init_loop
    init_loop-Fills zero base h = (λ p. refl, λ i q. refl)
    init_loop-Fills (suc k) base h =
        let f = adjust-Fills base k (base k) h in
        let (same, outside) = init_loop-Fills k (adjust lt base n k (base k)) (omega arith) in
        (λ p. omega (arith, same p, f.entries p), λ i q. outside i q ∙ f.outside i q)

    -- heap_init keeps the entries, and what stands behind them.
    pub init-same : (base : ℕ → A) (p : A → Bool) → count p (init lt base n) n ≡ count p base n
    unfolding init
    init-same base p = ground (arith, (init_loop-Fills (n / 2) base (omega arith)).0 p)

    pub init-outside : (base : ℕ → A) (i : ℕ) → n ≤ i → init lt base n i ≡ base i
    unfolding init
    init-outside base i q = ground (arith, (init_loop-Fills (n / 2) base (omega arith)).1 i q)
