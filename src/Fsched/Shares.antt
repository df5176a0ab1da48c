-- ===== src/Fsched/Shares.antt =====
-- compute_fairshare and the loops that store its results.
use colossal.Prelude.{
  ℕ, zero, suc, ◌≡◌, refl, ap, ap₂, ◌∙◌, ◌⊎◌, inl, inr, Bool-cases, Bool, true, false, List, [],
  ◌∷◌, map, arith, if◌then◌else◌,
}
use colossal.Prelude.Int.{ℤ, pos}
use colossal.Double.{Double, IsOrdered, fmin, fmax}
use colossal.Fsched.{
  FsContext, compute_fairshare, sum_shares, is_enough, middle, bisect_loop, set_shares, share_loop,
}

module _ {ℓ} {D : Type ℓ} ⦃d : Double D⦄ where
  open d use {of_int, lt, le, add, mul}

  -- A user never gets a share above its demand, and gets at least the smaller of its demand and its
  -- min share.
  pub record IsFair (u : FsContext D) (fs : D) : Type 0 where
    pub at_most : lt (of_int u.demand) fs ≡ false
    pub at_least : lt fs (fmin (of_int u.demand) u.minshare) ≡ false

  pub compute_fairshare-IsFair :
      (laws : IsOrdered D) (u : FsContext D) (r : D)
      → laws.IsNumber u.minshare
      → IsFair u (compute_fairshare u r)
  unfolding compute_fairshare
  compute_fairshare-IsFair laws u r n =
      let x = mul u.weight r in
      let m = u.minshare in
      let dem = of_int u.demand in
      record {
        at_most = ground (arith, laws.asym (fmax x m) dem, laws.asym dem dem);
        at_least =
            ground
              (arith, laws.asym dem dem, laws.asym m m, laws.asym m dem, laws.not_trans x m dem n);
      }

  -- Each user with the share that it gets at the ratio `r`.
  abbrev pub with_shares : D → List (FsContext D) → List (FsContext D)
  with_shares r = map (λ (u : FsContext D). record u { fairshare = compute_fairshare u r })

  -- One round of the loops over the users.
  abbrev round : FsContext D → D → D × Bool → D × Bool
  round u r (sum, good) =
      let fs = compute_fairshare u r in
      (add sum fs, (if lt fs (of_int u.demand) then false else good))

  -- The storing loop computes what the other loop computes.
  pub set_shares_lem :
      (us : List (FsContext D)) (r : D) (s : D × Bool)
      → set_shares us r s ≡ (with_shares r us, (sum_shares us r s).0, (sum_shares us r s).1)
  unfolding set_shares sum_shares
  set_shares_lem [] r s = refl
  set_shares_lem (u ∷ us) r s =
      let v = record u { fairshare = compute_fairshare u r } in
      ap {B = List (FsContext D) × D × Bool}
        (λ (x : List (FsContext D) × D × Bool). (v ∷ x.0, x.1, x.2))
        (set_shares_lem us r (round u r s))

  -- Stored shares are not read again.
  pub sum_shares-with_shares :
      (us : List (FsContext D)) (m r : D) (s : D × Bool)
      → sum_shares (with_shares m us) r s ≡ sum_shares us r s
  unfolding sum_shares compute_fairshare
  sum_shares-with_shares [] m r s = refl
  sum_shares-with_shares (u ∷ us) m r s = sum_shares-with_shares us m r (round u r s)

  pub with_shares-with_shares :
      (us : List (FsContext D)) (m r : D) → with_shares r (with_shares m us) ≡ with_shares r us
  unfolding compute_fairshare
  with_shares-with_shares [] m r = refl
  with_shares-with_shares (u ∷ us) m r =
      ap (◌∷◌ (record u { fairshare = compute_fairshare u r })) (with_shares-with_shares us m r)

  pub is_enough-with_shares :
      (us : List (FsContext D)) (total : ℤ) (m r : D)
      → is_enough (with_shares m us) total r ≡ is_enough us total r
  unfolding is_enough
  is_enough-with_shares us total m r = rw (sum_shares-with_shares us m r _)

  bisect_loop-with_shares :
      (k : ℕ) (us : List (FsContext D)) (total : ℤ) (m rl ru : D)
      → bisect_loop k (with_shares m us) total rl ru ≡ bisect_loop k us total rl ru
  unfolding bisect_loop
  bisect_loop-with_shares zero us total m rl ru = refl
  bisect_loop-with_shares (suc k) us total m rl ru =
      rw (is_enough-with_shares us total m (middle rl ru))
        (bisect_loop-with_shares k us total m _ _)

  -- The last ratio that the bisection tries.
  pub last_middle : ℕ → List (FsContext D) → ℤ → D → D → D
  last_middle zero us total rl ru = middle rl ru
  last_middle (suc k) us total rl ru =
      let m = middle rl ru in
      let enough = is_enough us total m in
      last_middle k us total (if enough then rl else m) (if enough then m else ru)

  last_middle-with_shares :
      (k : ℕ) (us : List (FsContext D)) (total : ℤ) (m rl ru : D)
      → last_middle k (with_shares m us) total rl ru ≡ last_middle k us total rl ru
  unfolding last_middle
  last_middle-with_shares zero us total m rl ru = refl
  last_middle-with_shares (suc k) us total m rl ru =
      rw (is_enough-with_shares us total m (middle rl ru))
        (last_middle-with_shares k us total m _ _)

  share_loop-suc :
      (k : ℕ) (us : List (FsContext D)) (total : ℤ) (rl ru : D)
      → let m = middle rl ru in
        let enough = is_enough us total m in
        share_loop (suc k) us total rl ru
        ≡ share_loop k
            (with_shares m us)
            total
            (if enough then rl else m)
            (if enough then m else ru)
  unfolding share_loop is_enough
  share_loop-suc k us total rl ru = rw (set_shares_lem us (middle rl ru) (of_int (pos 0), true))

  -- The storing bisection returns the ratio of the other one, with the shares at the last ratio
  -- that was tried.
  pub share_loop_lem :
      (k : ℕ) (us : List (FsContext D)) (total : ℤ) (rl ru : D)
      → share_loop (suc k) us total rl ru
        ≡ (with_shares (last_middle k us total rl ru) us, bisect_loop (suc k) us total rl ru)
  unfolding share_loop bisect_loop last_middle
  share_loop_lem zero us total rl ru = share_loop-suc zero us total rl ru
  share_loop_lem (suc k) us total rl ru =
      let m = middle rl ru in
      rw (share_loop-suc (suc k) us total rl ru) (
        share_loop_lem k (with_shares m us) total _ _
        ∙ ap₂ (λ (x : List (FsContext D)) (y : D). (x, y))
            (with_shares-with_shares us m _
              ∙ ap (λ (r : D). with_shares r us) (last_middle-with_shares k us total m _ _))
            (bisect_loop-with_shares (suc k) us total m _ _))

  -- The last ratio that the bisection tries is the one that it returns, or is not enough.
  pub last_middle-bisect_loop :
      (k : ℕ) (us : List (FsContext D)) (total : ℤ) (rl ru : D)
      → (last_middle k us total rl ru ≡ bisect_loop (suc k) us total rl ru)
        ⊎ (is_enough us total (last_middle k us total rl ru) ≡ false)
  unfolding last_middle bisect_loop
  last_middle-bisect_loop zero us total rl ru =
      elim (Bool-cases (is_enough us total (middle rl ru))) [
        | inl e ↦ inl (rw e refl)
        | inr e ↦ inr e
      ]
  last_middle-bisect_loop (suc k) us total rl ru = last_middle-bisect_loop k us total _ _
