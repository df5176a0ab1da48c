-- ===== src/Select/Tests.antt =====
-- Runs of fs_select with the fair order, and the theorems at concrete users.
use colossal.Select.Pick.{IsNeediest, pick_correct}
use colossal.Prelude.{All, List}
use colossal.Prelude.{
  ℕ, zero, suc, ◌≤◌, ◌<◌, ◌≡◌, ◌⊎◌, refl, Bool, true, false, none, some, [], ◌∷◌, arith, ◌==◌,
}
use colossal.Prelude.Int.{ℤ, pos}
use colossal.Double.{fixed_double, ℤ-IsOrdered}
use colossal.Heap.Order.{IsWeakOrder}
use colossal.Fsched.{FsContext, compare, is_needy, weight_ratio}
use colossal.Fsched.Compare.{gt, gt-IsWeakOrder}
use colossal.Select.{FsSelect, greater, is_met, allot, make, add, select}
use colossal.Select.Settle.{IsReady}
use colossal.Select.Make.{occurs, make-IsReady}
use colossal.Select.Choose.{IsChosen, select_correct}

abbrev user : ℕ → ℕ → ℕ → FsContext ℤ
user d a u = record {
  weight = pos 1_000_000;
  minshare = pos 0;
  demand = pos d;
  fairshare = pos 0;
  alloc = pos a;
  uid = u;
}

-- Three users: the second has all it wants, and the third has least.
abbrev memory : ℕ → FsContext ℤ
memory zero = user 5 2 10
memory (suc zero) = user 0 0 11
memory (suc (suc zero)) = user 4 1 12
memory u = user 9 0 13

abbrev fair : ℕ → ℕ → FsContext ℤ → FsContext ℤ → Bool
fair u v a b = gt a b

fair-IsWeakOrder : (ctx : ℕ → FsContext ℤ) → IsWeakOrder (greater fair ctx)
fair-IsWeakOrder ctx = gt-IsWeakOrder ℤ-IsOrdered ctx (λ u. record { share = tt; weight = tt })

abbrev three : FsSelect
three = make fair memory (0 ∷ 1 ∷ 2 ∷ [])

selects_least : (select fair memory three).0 ≡ some 2
unfolding select make gt compare is_needy weight_ratio
selects_least = refl

refuses_met : (add fair memory 1 three).0 ≡ false
unfolding add
refuses_met = refl

once : (v : ℕ) → occurs (λ u. u == v) (0 ∷ 1 ∷ 2 ∷ []) ≤ 1
once v = ground arith

three-IsReady : IsReady fair memory three
three-IsReady = (make-IsReady fair memory (fair-IsWeakOrder memory) (0 ∷ 1 ∷ 2 ∷ []) once).0

select_correct_example :
    let (choice, after, s') = select fair memory three in
    ((choice ≡ none)
      × (after ≡ memory)
      × (s'.size ≡ 0)
      × ((i : ℕ) → i < three.size → is_met fair memory (three.heap i) ≡ true))
    ⊎ ((u : ℕ) × (choice ≡ some u)
        × (after ≡ allot fair memory u)
        × IsChosen fair memory three u s')
select_correct_example =
    select_correct fair memory (fair-IsWeakOrder memory)
      (λ u. fair-IsWeakOrder (allot fair memory u)) three three-IsReady

pick_correct_example :
    let us : List ℕ = 0 ∷ 1 ∷ 2 ∷ [] in
    let (choice, after, s) = select fair memory (make fair memory us) in
    ((choice ≡ none) × (after ≡ memory) × All (λ v. is_met fair memory v ≡ true) us)
    ⊎ ((u : ℕ) × (choice ≡ some u) × (after ≡ allot fair memory u) × IsNeediest fair memory us u)
pick_correct_example =
    pick_correct fair memory (0 ∷ 1 ∷ 2 ∷ []) (fair-IsWeakOrder memory)
      (λ u. fair-IsWeakOrder (allot fair memory u)) once
