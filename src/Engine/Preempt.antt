-- ===== src/Engine/Preempt.antt =====
-- The loop of preempt_maps and preempt_reduces: how many tasks it takes, and where they go.
use colossal.Prelude.{
  ℕ, zero, suc, ◌+◌, ◌≤◌, ◌≡◌, ◌∙◌, refl, sym, subst, inl, inr, Bool, false, List, [], ◌∷◌, arith,
  count, Bool-cases, length, ◌==◌, ◌||◌, if◌then◌else◌, ap,
}
use native.Mathlib.Numerals.{add-one}
use colossal.Prelude.Int.{pos, ◌-ℤ◌, eqb_ℤ, int_laws}
use colossal.Double.{Double, IsOrdered}
use colossal.Heap.Order.{IsHeap}
use colossal.Heap.Sort.{push_back-IsHeap}
use colossal.Select.Make.{occurs}
use colossal.Select.{contains}
use colossal.State.{TaskType, Engine, pool_ctx}
use colossal.Selector.{ctime, ctime_later, side, pool_of}
use colossal.Selector.Make.{ctime_later-IsWeakOrder}
use colossal.Engine.{preempt_one, preempt_loop}
use colossal.Engine.Taking.{
  preempt_one-ctime, preempt_one-side, preempt_one-flags, preempt_one-pools, preempt_one-shares,
  preempt_one-alloc,
}

module _ {ℓ} {D : Type ℓ} ⦃d : Double D⦄ (laws : IsOrdered D) (k : TaskType) where
  -- The tasks to come are a heap by creation times, none of which is NaN.
  pub record IsToCome (e : Engine D) : Type 0 where
    pub numbers : (t : ℕ) → laws.IsNumber (ctime e t)
    pub heap : IsHeap (ctime_later e) (side k e).left (side k e).refs

  -- The pool of the task has more slots than its share, once those of `taken` are released.
  abbrev pub is_above : Engine D → List ℕ → ℕ → Bool
  is_above e taken t =
      let p = pool_of e t in
      let c = pool_ctx k (e.pools p) in
      d.lt c.fairshare (d.of_int (c.alloc -ℤ pos (occurs (λ u. pool_of e u == p) taken)))

  -- The first tasks of a list, up to a number, whose pools are above their share when they are reached,
  -- `taken` being taken before.
  unfoldable pub chosen : Engine D → List ℕ → ℕ → List ℕ → List ℕ
  chosen e taken m [] = []
  chosen e taken zero (t ∷ ts) = []
  chosen e taken (suc m) (t ∷ ts) =
      let rest = chosen e (t ∷ taken) m ts in
      let others = chosen e taken (suc m) ts in if is_above e taken t then t ∷ rest else others

  -- From `e` to `e'`, the tasks `ts` are taken and have come back to those to come.
  pub record ComesBack (e e' : Engine D) (ts : List ℕ) : Type ℓ where
    pub to_come : IsToCome e'
    pub times : (t : ℕ) → ctime e' t ≡ ctime e t
    pub left : (side k e').left ≡ (side k e).left + length ts
    pub entries :
        (p : ℕ → Bool)
        → count p (side k e').refs (side k e').left
          ≡ count p (side k e).refs (side k e).left + occurs p ts
    pub flags : (t : ℕ) → (e'.descs t).preempted ≡ contains ts t || (e.descs t).preempted
    pub pools : (t : ℕ) → pool_of e' t ≡ pool_of e t
    pub shares : (p : ℕ) → (pool_ctx k (e'.pools p)).fairshare ≡ (pool_ctx k (e.pools p)).fairshare
    pub released :
        (p : ℕ)
        → (pool_ctx k (e'.pools p)).alloc
          ≡ (pool_ctx k (e.pools p)).alloc -ℤ pos (occurs (λ u. pool_of e u == p) ts)

  preempt_one-ComesBack :
      (t : ℕ) (e : Engine D) → IsToCome e → ComesBack e (preempt_one k t e) (t ∷ [])
  unfolding contains
  preempt_one-ComesBack t e h =
      let e' = preempt_one k t e in
      let s = side k e in
      let same : ctime e ≡ ctime e' = λ x u. sym (preempt_one-ctime k t e u) x in
      let numbers' : (u : ℕ) → laws.IsNumber (ctime e' u) =
        subst (λ (f : ℕ → D). (u : ℕ) → laws.IsNumber (f u)) same h.numbers in
      let heap' : IsHeap (ctime_later e') s.left s.refs =
        subst (λ (f : ℕ → D). IsHeap (λ a b. d.lt (f b) (f a)) s.left s.refs) same h.heap in
      let (heap'', counts) =
        push_back-IsHeap (ctime_later e') (ctime_later-IsWeakOrder laws e' numbers') s.left s.refs t
          heap' in
      let (refs, left) = preempt_one-side k k t e in
      record {
        to_come = record { numbers = numbers'; heap = rw (refs, left, add-one) heap'' };
        left = left;
        times = preempt_one-ctime k t e;
        entries = λ p. rw (refs, left, add-one) (omega (arith, counts p));
        flags = λ u. ground (arith, preempt_one-flags k t e u);
        pools = preempt_one-pools k t e;
        shares = preempt_one-shares k k t e;
        released = preempt_one-alloc k t e;
      }

  stays : (e : Engine D) → IsToCome e → ComesBack e e []
  unfolding contains
  stays e h = record {
    to_come = h;
    times = λ t. refl;
    left = omega arith;
    entries = λ p. omega arith;
    flags = λ t. refl;
    pools = λ t. refl;
    shares = λ p. refl;
    released = λ p. grind int_laws;
  }

  comes_back :
      {e e' e'' : Engine D} (xs ys ts : List ℕ)
      → length ts ≡ length xs + length ys
      → ((p : ℕ → Bool) → occurs p ts ≡ occurs p xs + occurs p ys)
      → ((t : ℕ) → contains ts t ≡ contains ys t || contains xs t)
      → ComesBack e e' xs
      → ComesBack e' e'' ys
      → ComesBack e e'' ts
  comes_back {e} {e'} {e''} xs ys ts l o c a b = record {
    to_come = b.to_come;
    times = λ t. b.times t ∙ a.times t;
    left = omega (arith, a.left, b.left, l);
    entries = λ p. omega (arith, a.entries p, b.entries p, o p);
    flags = λ t. ground (arith, a.flags t, b.flags t, c t);
    pools = λ t. b.pools t ∙ a.pools t;
    shares = λ p. b.shares p ∙ a.shares p;
    released = λ p.
        let of_pool : (ℕ → ℕ) → ℕ = λ f. occurs (λ u. f u == p) ys in
        let same : of_pool (pool_of e') ≡ of_pool (pool_of e) = ap of_pool (λ x u. a.pools u x) in
        grind (int_laws, a.released p, b.released p, o (λ u. pool_of e u == p), same);
  }

  -- In the engine that has released `taken` the test of the loop is that of the pool.
  is_above_then :
      {e0 e : Engine D} (taken : List ℕ) (t : ℕ)
      → ComesBack e0 e taken
      → let c = pool_ctx k (e.pools (pool_of e t)) in
        d.lt c.fairshare (d.of_int c.alloc) ≡ is_above e0 taken t
  is_above_then {e0} {e} taken t a =
      rw (a.pools t, a.shares (pool_of e0 t), a.released (pool_of e0 t)) refl

  loop_lem :
      (ts : List ℕ) (m n : ℕ) (e0 e : Engine D) (taken : List ℕ)
      → ComesBack e0 e taken
      → let (n', e') = preempt_loop k ts (pos m) n e in
        let more = chosen e0 taken m ts in
        (length more ≤ m) × (n' ≡ n + length more) × ComesBack e e' more
  unfolding preempt_loop chosen contains
  loop_lem [] m n e0 e taken a = (omega arith, omega arith, stays e a.to_come)
  loop_lem (t ∷ ts) zero n e0 e taken a = (omega arith, omega arith, stays e a.to_come)
  loop_lem (t ∷ ts) (suc m) n e0 e taken a =
      let more : eqb_ℤ (pos (suc m)) (pos 0) ≡ false = ground arith in
      let test = is_above_then taken t a in
      elim (Bool-cases (is_above e0 taken t)) [
        | inl y ↦
            let one = preempt_one-ComesBack t e a.to_come in
            let less : pos (suc m) -ℤ pos 1 ≡ pos m = grind int_laws in
            let since : ComesBack e0 (preempt_one k t e) (t ∷ taken) =
              comes_back taken (t ∷ []) (t ∷ taken) (omega arith) (λ p. omega arith)
                (λ u. ground arith) a one in
            let (few, count, back) =
              loop_lem ts m (n + 1) e0 (preempt_one k t e) (t ∷ taken) since in
            let rest = chosen e0 (t ∷ taken) m ts in
            rw (test ∙ y, y, less, more)
              (
                omega (arith, few),
                omega (arith, count),
                comes_back (t ∷ []) rest (t ∷ rest) (omega arith) (λ p. omega arith)
                    (λ u. ground arith) one back,
              )
        | inr y ↦ rw (test ∙ y, y, more) (loop_lem ts (suc m) n e0 e taken a)
      ]

  -- If the tasks to come are a heap by creation times, none of which is NaN, then the loop that is
  -- to find m tasks takes at most so many, adds their number to the one that it starts with, and
  -- takes the first ones whose pools have more slots than their share when they are reached. They
  -- are flagged and come back to those to come, which keep all other entries and stay such a heap,
  -- and their pools have so many slots less, with the same shares.
  pub preempt_loop-ComesBack :
      (ts : List ℕ) (m n : ℕ) (e : Engine D)
      → IsToCome e
      → let (n', e') = preempt_loop k ts (pos m) n e in
        let taken = chosen e [] m ts in
        (length taken ≤ m) × (n' ≡ n + length taken) × ComesBack e e' taken
  preempt_loop-ComesBack ts m n e h = loop_lem ts m n e e [] (stays e h)
