-- ===== src/Engine/Taking.antt =====
-- A task that preempt_maps and preempt_reduces take: its flag, its pool, and where it goes.
use colossal.Prelude.{
  ℕ, ◌+◌, ◌≡◌, ◌∙◌, refl, inl, inr, false, arith, Bool-cases, write, ◌==◌, ◌||◌, bit, true, ap,
}
use colossal.Prelude.Int.{pos, ◌-ℤ◌, int_laws}
use colossal.Double.{Double}
use colossal.Heap.{push}
use colossal.State.{TaskType, reduce, get, Engine, Pool, pool_ctx, set_pool_ctx, upd_desc}
use colossal.State
use colossal.Selector.{ctime, ctime_later, side, pool_of, add_preempted}
use colossal.Engine.{release, preempt_one}

module _ {ℓ} {D : Type ℓ} ⦃d : Double D⦄ (k : TaskType) where
  pub preempt_one-ctime : (t : ℕ) (e : Engine D) (u : ℕ) → ctime (preempt_one k t e) u ≡ ctime e u
  unfolding preempt_one add_preempted
  preempt_one-ctime t e u = ground arith

  pub preempt_one-side :
      (k' : TaskType) (t : ℕ) (e : Engine D)
      → let e' = preempt_one k' t e in
        let s = side k' e in
        ((side k' e').refs ≡ push (ctime_later e') (write s.refs s.left t) s.left 0 t)
        × ((side k' e').left ≡ s.left + 1)
  unfolding preempt_one add_preempted
  preempt_one-side State.map t e = (refl, refl)
  preempt_one-side reduce t e = (refl, refl)

  pub preempt_one-flags :
      (t : ℕ) (e : Engine D) (u : ℕ)
      → ((preempt_one k t e).descs u).preempted ≡ (t == u) || (e.descs u).preempted
  unfolding preempt_one add_preempted
  preempt_one-flags t e u = ground arith

  pub preempt_one-pools :
      (t : ℕ) (e : Engine D) (u : ℕ) → pool_of (preempt_one k t e) u ≡ pool_of e u
  unfolding preempt_one add_preempted
  preempt_one-pools t e u = ground arith

  pub preempt_one-shares :
      (k' : TaskType) (t : ℕ) (e : Engine D) (p : ℕ)
      → (pool_ctx k' ((preempt_one k' t e).pools p)).fairshare ≡ (pool_ctx k' (e.pools p)).fairshare
  unfolding preempt_one add_preempted
  preempt_one-shares State.map t e p = ground arith
  preempt_one-shares reduce t e p = ground arith

  preempt_one-pool :
      (t : ℕ) (e : Engine D)
      → let p = pool_of e t in
        let released : Pool D = set_pool_ctx k (release (pool_ctx k (e.pools p))) (e.pools p) in
        (preempt_one k t e).pools ≡ write e.pools p released
  unfolding preempt_one add_preempted
  preempt_one-pool t e =
      let e1 = upd_desc t (λ r. record r { preempted = true }) e in
      let same : pool_of e1 t ≡ pool_of e t = ground arith in
      ap (λ p. write e.pools p (set_pool_ctx k (release (pool_ctx k (e.pools p))) (e.pools p))) same

  alloc-release :
      (k' : TaskType) (p : Pool D)
      → (pool_ctx k' (set_pool_ctx k' (release (pool_ctx k' p)) p)).alloc
        ≡ (pool_ctx k' p).alloc -ℤ pos 1
  alloc-release State.map p = refl
  alloc-release reduce p = refl

  pub preempt_one-alloc :
      (t : ℕ) (e : Engine D) (p : ℕ)
      → (pool_ctx k ((preempt_one k t e).pools p)).alloc
        ≡ (pool_ctx k (e.pools p)).alloc -ℤ pos (bit (pool_of e t == p) + 0)
  preempt_one-alloc t e p =
      ap (λ (f : ℕ → Pool D). (pool_ctx k (f p)).alloc) (preempt_one-pool t e)
      ∙ elim (Bool-cases (pool_of e t == p)) [
        | inl q ↦
            let here : (p == pool_of e t) ≡ true = ground (arith, q) in
            let same : pool_of e t ≡ p = ground (arith, q) in
            rw (here, q)
              (alloc-release k (e.pools (pool_of e t))
                ∙ ap (λ i. (pool_ctx k (e.pools i)).alloc -ℤ pos 1) same)
        | inr q ↦
            let elsewhere : (p == pool_of e t) ≡ false = ground (arith, q) in
            rw (elsewhere, q) grind int_laws
      ]
