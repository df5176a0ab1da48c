-- ===== src/Fsched.antt =====
-- colossal/src/fsched.hpp and fsched.cpp: fair scheduling. The users (pools or jobs) are contexts;
-- the iterators of a range are the list of its contexts.
pub mod Compare
pub mod Shares
pub mod Ratio
mod Tests
use colossal.Prelude.{
  ℕ, zero, suc, ◌+◌, ◌-◌, Bool, true, false, ◌&&◌, ◌||◌, not, Option, none, some, List, [], ◌∷◌,
  map, ltb, if◌then◌else◌, bit, ◌>>=◌,
}
use colossal.Prelude.Int.{ℤ, pos, negsuc, sub_ℕ, ltb_ℤ, min_ℤ, eqb_ℤ}
use colossal.Double.{Double, fmin, fmax}

-- fs_context, with the fields of its base fs_conf first
pub record FsContext {ℓ} (D : Type ℓ) : Type ℓ where
  pub weight : D
  pub minshare : D
  pub demand : ℤ
  pub fairshare : D
  pub alloc : ℤ
  pub uid : ℕ

-- The macro generic_compare of ulib/src/base/util_algo.h, by the two tests `x > y` and `x < y`.
abbrev pub generic_compare : Bool → Bool → ℤ
generic_compare gt lt = sub_ℕ (bit gt) (bit lt)

abbrev pub compare_uid : ℕ → ℕ → ℤ
compare_uid x y = generic_compare (ltb y x) (ltb x y)

module _ {ℓ} {D : Type ℓ} ⦃d : Double D⦄ where
  open d use {of_int, to_int, lt, le, add, mul, div}

  -- `needy1` and `needy2` of the comparator: below the min share, or below a smaller demand
  unfoldable pub is_needy : FsContext D → Bool
  is_needy a = ltb_ℤ a.alloc (min_ℤ (to_int a.minshare) a.demand)

  -- `sr1` and `sr2`
  unfoldable pub share_ratio : FsContext D → D
  share_ratio a = div (of_int a.alloc) (fmax a.minshare (of_int (pos 1)))

  -- `wr1` and `wr2`
  unfoldable pub weight_ratio : FsContext D → D
  weight_ratio a = div (of_int a.alloc) a.weight

  abbrev pub compare_double : D → D → ℤ
  compare_double x y = generic_compare (lt y x) (lt x y)

  -- fs_context::operator()
  unfoldable pub compare : FsContext D → FsContext D → ℤ
  compare a b =
      let needy1 = is_needy a in
      let needy2 = is_needy b in
      let ret =
        if needy1 && not needy2
        then negsuc 0
        else if not needy1 && needy2
        then pos 1
        else if needy1 && needy2
        then compare_double (share_ratio a) (share_ratio b)
        else compare_double (weight_ratio a) (weight_ratio b) in
      if eqb_ℤ ret (pos 0) then compare_uid a.uid b.uid else ret

  -- compute_fairshare
  unfoldable pub compute_fairshare : FsContext D → D → D
  compute_fairshare conf r = fmin (of_int conf.demand) (fmax (mul conf.weight r) conf.minshare)

  -- The body of the loops over the users: the sum, and whether every demand is met.
  pub sum_shares : List (FsContext D) → D → D × Bool → D × Bool
  sum_shares [] r s = s
  sum_shares (u ∷ us) r (sum, good) =
      let fs = compute_fairshare u r in
      sum_shares us r (add sum fs, (if lt fs (of_int u.demand) then false else good))

  -- `good || sum >= total` after such a loop
  unfoldable pub is_enough : List (FsContext D) → ℤ → D → Bool
  unfolding sum_shares
  is_enough us total r =
      let (sum, good) = sum_shares us r (of_int (pos 0), true) in good || le (of_int total) sum

  -- `for (;; ru *= 2)`, on fuel: `none` if the fuel runs out.
  pub upper_loop : ℕ → List (FsContext D) → ℤ → D → Option D
  upper_loop zero us total ru = none
  upper_loop (suc k) us total ru =
      let next = upper_loop k us total (mul ru (of_int (pos 2))) in
      if is_enough us total ru then some ru else next

  -- `(rl + ru) / 2.0`
  abbrev pub middle : D → D → D
  middle rl ru = div (add rl ru) (of_int (pos 2))

  -- The loop on `nloop` of compute_ratio, with the rounds left.
  pub bisect_loop : ℕ → List (FsContext D) → ℤ → D → D → D
  bisect_loop zero us total rl ru = ru
  bisect_loop (suc k) us total rl ru =
      let m = middle rl ru in
      let enough = is_enough us total m in
      bisect_loop k us total (if enough then rl else m) (if enough then m else ru)

  unfoldable pub compute_ratio : ℕ → List (FsContext D) → ℤ → Option D
  unfolding upper_loop bisect_loop is_enough
  compute_ratio fuel us total = do
    ru ← upper_loop fuel us total (of_int (pos 1))
    some (bisect_loop 25 us total (of_int (pos 0)) ru)

  -- The body of the loops over the users in compute_fairshares, which stores the shares.
  pub set_shares : List (FsContext D) → D → D × Bool → List (FsContext D) × D × Bool
  set_shares [] r (sum, good) = ([], sum, good)
  set_shares (u ∷ us) r (sum, good) =
      let v = record u { fairshare = compute_fairshare u r } in
      let (vs, sum', good') =
        set_shares us r
          (add sum v.fairshare, (if lt v.fairshare (of_int v.demand) then false else good)) in
      (v ∷ vs, sum', good')

  pub share_loop : ℕ → List (FsContext D) → ℤ → D → D → List (FsContext D) × D
  share_loop zero us total rl ru = (us, ru)
  share_loop (suc k) us total rl ru =
      let m = middle rl ru in
      let (vs, sum, good) = set_shares us m (of_int (pos 0), true) in
      let enough = good || le (of_int total) sum in
      share_loop k vs total (if enough then rl else m) (if enough then m else ru)

  unfoldable pub compute_fairshares : ℕ → List (FsContext D) → ℤ → Option (List (FsContext D) × D)
  unfolding upper_loop share_loop set_shares is_enough
  compute_fairshares fuel us total = do
    ru ← upper_loop fuel us total (of_int (pos 1))
    some (share_loop 25 us total (of_int (pos 0)) ru)

  -- The first loop of scale_minshares: the sum of the min shares.
  pub sum_minshares : List (FsContext D) → D → D
  sum_minshares [] sum = sum
  sum_minshares (u ∷ us) sum = sum_minshares us (add sum u.minshare)

  unfoldable pub scale_minshares : List (FsContext D) → ℤ → List (FsContext D)
  unfolding sum_minshares
  scale_minshares us total =
      let sum = sum_minshares us (of_int (pos 0)) in
      let r = div (of_int total) sum in
      if lt (of_int total) sum
      then map (λ (u : FsContext D). record u { minshare = mul u.minshare r }) us
      else us
