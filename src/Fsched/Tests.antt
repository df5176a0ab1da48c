-- ===== src/Fsched/Tests.antt =====
-- Runs of the fair scheduling functions over millionths, and the theorems at concrete users.
use colossal.Prelude.{ℕ, ◌≡◌, refl, arith, ◌⊎◌, true, false, some, List, [], ◌∷◌, All, map}
use colossal.Prelude.Int.{ℤ, pos, negsuc}
use colossal.Double.{fixed_double, ℤ-IsOrdered}
use colossal.Heap.Order.{IsWeakOrder}
use colossal.Fsched.{
  FsContext, compare, is_needy, compute_fairshare, compute_ratio, compute_fairshares,
  scale_minshares, is_enough,
}
use colossal.Fsched.Compare.{gt, HasRatios, gt-IsWeakOrder}
use colossal.Fsched.Shares.{IsFair, with_shares}
use colossal.Fsched.Ratio.{compute_fairshares_correct}

-- weight, min share, demand, allocation, id, in whole units
abbrev user : ℕ → ℕ → ℕ → ℕ → ℕ → FsContext ℤ
user w m d a u = record {
  weight = fixed_double.of_int (pos w);
  minshare = fixed_double.of_int (pos m);
  demand = pos d;
  fairshare = pos 0;
  alloc = pos a;
  uid = u;
}

abbrev small : FsContext ℤ
small = user 1 2 5 1 7

abbrev large : FsContext ℤ
large = user 3 0 20 4 8

abbrev users : List (FsContext ℤ)
users = small ∷ large ∷ []

needy_first : compare small large ≡ negsuc 0
unfolding compare is_needy
needy_first = refl

ratio_of_users : compute_ratio 5 users (pos 8) ≡ some (pos 2_000_000)
unfolding compute_ratio compute_fairshare
ratio_of_users = refl

scaled :
    map (λ (u : FsContext ℤ). u.minshare) (scale_minshares users (pos 1))
    ≡ pos 1_000_000 ∷ pos 0 ∷ []
unfolding scale_minshares
scaled = refl

all_numbers : (u : FsContext ℤ) → HasRatios ℤ-IsOrdered u
all_numbers u = record { share = tt; weight = tt }

gt-IsWeakOrder_example : IsWeakOrder (λ (u v : FsContext ℤ). gt u v)
gt-IsWeakOrder_example = gt-IsWeakOrder ℤ-IsOrdered (λ u. u) all_numbers

compute_fairshares_correct_example :
    (m : ℤ) × (r : ℤ) × (compute_fairshares 5 users (pos 8) ≡ some (with_shares m users, r))
    × (compute_ratio 5 users (pos 8) ≡ some r)
    × (is_enough users (pos 8) r ≡ true)
    × ((m ≡ r) ⊎ (is_enough users (pos 8) m ≡ false))
    × All (λ v. IsFair v v.fairshare) (with_shares m users)
unfolding is_enough compute_fairshare
compute_fairshares_correct_example =
    compute_fairshares_correct ℤ-IsOrdered 5 1 users (pos 8) (omega arith) refl (tt, (tt, tt))
