-- ===== src/Fsched/Ratio.antt =====
-- compute_ratio and compute_fairshares: the fair share ratio by doubling and bisection.
use colossal.Prelude.{
  ℕ, zero, suc, ◌<◌, ◌≡◌, ◌⊎◌, refl, ap, All, All-map, All-weaken, inl, inr, true, false, none,
  some, List, arith, Bool-cases, Option-cases,
}
use colossal.Prelude.Int.{ℤ, pos}
use mathlib.Core.Option.{some-injective}
use colossal.Double.{Double, IsOrdered}
use colossal.Fsched.{
  FsContext, is_enough, upper_loop, middle, bisect_loop, compute_ratio, compute_fairshares,
}
use colossal.Fsched.Shares.{
  IsFair, compute_fairshare-IsFair, with_shares, last_middle, last_middle-bisect_loop,
  share_loop_lem,
}

module _ {ℓ} {D : Type ℓ} ⦃d : Double D⦄ where
  open d use {of_int, mul}

  upper_loop-is_enough :
      (k : ℕ) (us : List (FsContext D)) (total : ℤ) (r : D) {ru : D}
      → upper_loop k us total r ≡ some ru
      → is_enough us total ru ≡ true
  unfolding upper_loop
  upper_loop-is_enough zero us total r e = cc
  upper_loop-is_enough (suc k) us total r {ru} e = elim (Bool-cases (is_enough us total r)) [
    | inl t ↦ let same : r ≡ ru = some-injective _ _ (rw t at e) in rw (← same) t
    | inr t ↦ upper_loop-is_enough k us total (mul r (of_int (pos 2))) (rw t at e)
  ]

  bisect_loop-is_enough :
      (k : ℕ) (us : List (FsContext D)) (total : ℤ) (rl ru : D)
      → is_enough us total ru ≡ true
      → is_enough us total (bisect_loop k us total rl ru) ≡ true
  unfolding bisect_loop
  bisect_loop-is_enough zero us total rl ru h = h
  bisect_loop-is_enough (suc k) us total rl ru h =
      elim (Bool-cases (is_enough us total (middle rl ru))) [
        | inl e ↦ rw e (bisect_loop-is_enough k us total _ _ e)
        | inr e ↦ rw e (bisect_loop-is_enough k us total _ _ h)
      ]

  -- `ru` after `n` rounds of the first loop.
  abbrev pub doubled : ℕ → D → D
  doubled zero r = r
  doubled (suc n) r = doubled n (mul r (of_int (pos 2)))

  upper_loop_total :
      (k n : ℕ) (us : List (FsContext D)) (total : ℤ) (r : D)
      → n < k
      → is_enough us total (doubled n r) ≡ true
      → (ru : D) × (upper_loop k us total r ≡ some ru)
  unfolding upper_loop
  upper_loop_total zero n us total r f h = absurd (omega arith)
  upper_loop_total (suc k) zero us total r f h = (r, rw h)
  upper_loop_total (suc k) (suc n) us total r f h = elim (Bool-cases (is_enough us total r)) [
    | inl t ↦ (r, rw t)
    | inr t ↦ rw t (upper_loop_total k n us total (mul r (of_int (pos 2))) (omega arith) h)
  ]

  -- If some doubling of 1 meets every demand or uses up the slots, compute_ratio ends, and so does
  -- the ratio that it returns.
  pub compute_ratio_total :
      (fuel n : ℕ) (us : List (FsContext D)) (total : ℤ)
      → n < fuel
      → is_enough us total (doubled n (of_int (pos 1))) ≡ true
      → (ru : D) × (compute_ratio fuel us total ≡ some ru) × (is_enough us total ru ≡ true)
  unfolding compute_ratio
  compute_ratio_total fuel n us total f h =
      let (r, e) = upper_loop_total fuel n us total (of_int (pos 1)) f h in
      (
        bisect_loop 25 us total (of_int (pos 0)) r,
        rw e refl,
        bisect_loop-is_enough 25 us total _ r (upper_loop-is_enough fuel us total _ e),
      )

  -- compute_fairshares returns the ratio of compute_ratio for the same users, and stores the shares
  -- of one ratio `m` in all of them; it ends exactly when compute_ratio does.
  pub compute_fairshares-compute_ratio :
      (fuel : ℕ) (us : List (FsContext D)) (total : ℤ)
      → ((compute_fairshares fuel us total ≡ none) × (compute_ratio fuel us total ≡ none))
        ⊎ ((m : D) × (r : D) × (compute_fairshares fuel us total ≡ some (with_shares m us, r))
            × (compute_ratio fuel us total ≡ some r))
  unfolding compute_fairshares compute_ratio
  compute_fairshares-compute_ratio fuel us total =
      let one = of_int (pos 1) in
      elim (Option-cases (upper_loop fuel us total one)) [
        | inl e ↦ inl (rw e refl, rw e refl)
        | inr (ru, e) ↦ inr (
          last_middle 24 us total (of_int (pos 0)) ru,
          bisect_loop 25 us total (of_int (pos 0)) ru,
          rw e (ap some (share_loop_lem 24 us total (of_int (pos 0)) ru)),
          rw e refl,
        )
      ]

  -- If some doubling of 1 meets every demand or uses up the slots, the fuel is above the number of
  -- doublings, and no min share is NaN, then compute_fairshares ends and returns the ratio of
  -- compute_ratio, which meets every demand or uses up the slots. The shares that it stores in the
  -- contexts, otherwise as they were, are those of this ratio or of one that neither meets every
  -- demand nor uses up the slots; each is at most the demand of its user, and at least the smaller
  -- of its demand and its min share.
  pub compute_fairshares_correct :
      (laws : IsOrdered D) (fuel n : ℕ) (us : List (FsContext D)) (total : ℤ)
      → n < fuel
      → is_enough us total (doubled n (of_int (pos 1))) ≡ true
      → All (λ u. laws.IsNumber u.minshare) us
      → (m : D) × (r : D) × (compute_fairshares fuel us total ≡ some (with_shares m us, r))
        × (compute_ratio fuel us total ≡ some r)
        × (is_enough us total r ≡ true)
        × ((m ≡ r) ⊎ (is_enough us total m ≡ false))
        × All (λ v. IsFair v v.fairshare) (with_shares m us)
  unfolding compute_fairshares compute_ratio
  compute_fairshares_correct laws fuel n us total f h numbers =
      let (ru, e) = upper_loop_total fuel n us total (of_int (pos 1)) f h in
      let m = last_middle 24 us total (of_int (pos 0)) ru in
      (
        m,
        bisect_loop 25 us total (of_int (pos 0)) ru,
        rw e (ap some (share_loop_lem 24 us total (of_int (pos 0)) ru)),
        rw e refl,
        bisect_loop-is_enough 25 us total _ ru (upper_loop-is_enough fuel us total _ e),
        last_middle-bisect_loop 24 us total (of_int (pos 0)) ru,
        All-map _ _ us (
            All-weaken us
              (λ u h.
                let f = compute_fairshare-IsFair laws u m h in
                record { at_most = f.at_most; at_least = f.at_least })
              numbers),
      )
