-- ===== src/Engine/Shares.antt =====
-- update_map_fairshares and update_reduce_fairshares: the shares of all pools.
use colossal.Prelude.{
  ℕ, zero, suc, ◌+◌, ◌≤◌, ◌<◌, ◌≡◌, ◌∙◌, refl, sym, ap, inl, inr, true, some, List, [], ◌∷◌, map,
  ◌==◌, arith, Bool-cases,
}
use mathlib.Core.Option.{none-ne-some}
use colossal.Prelude.Int.{pos}
use colossal.Double.{Double, IsOrdered}
use colossal.Fsched.{FsContext, is_enough, compute_fairshare}
use colossal.Fsched.Shares.{IsFair, compute_fairshare-IsFair, with_shares}
use colossal.Fsched.Ratio.{doubled, compute_ratio_total, compute_fairshares-compute_ratio}
use colossal.State.{TaskType, reduce, get, Pool, Engine, pool_ctx, set_pool_ctx, upd_pool}
use colossal.State
use colossal.Engine.{contexts, replace_contexts, update_fairshares}

module _ {ℓ} {D : Type ℓ} ⦃d : Double D⦄ (k : TaskType) where
  pool_ctx-set_pool_ctx :
      (k' : TaskType) (c : FsContext D) (p : Pool D) → pool_ctx k' (set_pool_ctx k' c p) ≡ c
  pool_ctx-set_pool_ctx State.map c p = refl
  pool_ctx-set_pool_ctx reduce c p = refl

  replaced_before :
      (p : ℕ) (cs : List (FsContext D)) (e : Engine D) (i : ℕ)
      → i < p
      → (replace_contexts k p cs e).pools i ≡ e.pools i
  unfolding replace_contexts
  replaced_before p [] e i h = refl
  replaced_before p (c ∷ cs) e i h =
      replaced_before (p + 1) cs (upd_pool p (set_pool_ctx k c) e) i (omega arith) ∙ ground arith

  replaced :
      (f : FsContext D → FsContext D) (n p : ℕ) (e0 e : Engine D) (i : ℕ)
      → p ≤ i
      → i < p + n
      → pool_ctx k ((replace_contexts k p (map f (contexts k n p e0)) e).pools i)
        ≡ f (pool_ctx k (e0.pools i))
  unfolding replace_contexts contexts
  replaced f zero p e0 e i h l = absurd (omega arith)
  replaced f (suc n) p e0 e i h l =
      let c = f (pool_ctx k (e0.pools p)) in
      let e1 = upd_pool p (set_pool_ctx k c) e in
      elim (Bool-cases (i == p)) [
        | inl q ↦
            let same : i ≡ p = ground arith in
            ap (pool_ctx k)
              (replaced_before (p + 1) (map f (contexts k n (p + 1) e0)) e1 i (omega arith))
            ∙ rw q (
                pool_ctx-set_pool_ctx k c (e.pools p)
                ∙ ap (λ j. f (pool_ctx k (e0.pools j))) (sym same))
        | inr q ↦ replaced f n (p + 1) e0 e1 i (ground arith) (omega arith)
      ]

  replaced_behind :
      (f : FsContext D → FsContext D) (n p : ℕ) (e0 e : Engine D) (i : ℕ)
      → p + n ≤ i
      → (replace_contexts k p (map f (contexts k n p e0)) e).pools i ≡ e.pools i
  unfolding replace_contexts contexts
  replaced_behind f zero p e0 e i h = refl
  replaced_behind f (suc n) p e0 e i h =
      replaced_behind f n (p + 1) e0 (upd_pool p (set_pool_ctx k (f (pool_ctx k (e0.pools p)))) e) i
        (omega arith)
      ∙ ground arith

  -- The pool has a fair share, and is otherwise as it was.
  pub record IsShared (before after : FsContext D) : Type ℓ where
    pub fair : IsFair before after.fairshare
    pub as_it_was : after ≡ record before { fairshare = after.fairshare }

  -- If some doubling of 1 gives every pool its demand or uses up the slots, the fuel is above the
  -- number of doublings, and no min share is NaN, then update_map_fairshares and
  -- update_reduce_fairshares end, each pool of the engine has a share that is at most its demand and
  -- at least the smaller of its demand and its min share, and its context is otherwise as before.
  pub update_fairshares_total :
      (laws : IsOrdered D) (fuel n : ℕ) (e : Engine D)
      → n < fuel
      → is_enough (contexts k e.npools 0 e) (get k e.slots) (doubled n (d.of_int (pos 1))) ≡ true
      → ((p : ℕ) → laws.IsNumber (pool_ctx k (e.pools p)).minshare)
      → (e' : Engine D) × (update_fairshares fuel k e ≡ some e')
        × ((p : ℕ) → p < e.npools → IsShared (pool_ctx k (e.pools p)) (pool_ctx k (e'.pools p)))
        × ((p : ℕ) → e.npools ≤ p → e'.pools p ≡ e.pools p)
  unfolding update_fairshares
  update_fairshares_total laws fuel n e h enough numbers =
      let us = contexts k e.npools 0 e in
      let (ru, total, good) = compute_ratio_total fuel n us (get k e.slots) h enough in
      elim (compute_fairshares-compute_ratio fuel us (get k e.slots)) [
        | inl (f, g) ↦ absurd (none-ne-some _ (sym g ∙ total))
        | inr (m, r, f, g) ↦ (
          replace_contexts k 0 (with_shares m us) e,
          rw f refl,
          λ p q.
              rw
                (replaced (λ u. record u { fairshare = compute_fairshare u m }) e.npools 0 e e p
                  (omega arith) (omega arith))
                (record {
                  fair = compute_fairshare-IsFair laws (pool_ctx k (e.pools p)) m (numbers p);
                  as_it_was = refl;
                }),
          λ p q. replaced_behind _ e.npools 0 e e p (omega arith),
        )
      ]
