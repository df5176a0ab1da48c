-- ===== src/SortList/Tests.antt =====
-- The sort of pairs by their first part alone.
use colossal.Prelude.{ℕ, ◌≡◌, refl, List, [], ◌∷◌, arith, length, ◌≤◌}
use colossal.Prelude.Int.{ℤ, sub_ℕ}
use colossal.SortList.{list_sort, fill}
use colossal.SortList.Slots.{fill_slots}
use colossal.SortList.Merge.{IsOrder}
use colossal.SortList.Stable.{SortsStably, list_sort-SortsStably}

abbrev Node : Type 0
Node = ℕ × ℕ

abbrev by_first : Node → Node → ℤ
by_first a b = sub_ℕ a.0 b.0

abbrev nodes : List Node
nodes = (3, 1) ∷ (1, 2) ∷ (3, 3) ∷ (2, 4) ∷ (1, 5) ∷ []

nodes-list_sort : list_sort by_first nodes ≡ (1, 2) ∷ (1, 5) ∷ (2, 4) ∷ (3, 1) ∷ (3, 3) ∷ []
unfolding list_sort
nodes-list_sort = refl

by_first-IsOrder : IsOrder by_first
by_first-IsOrder = record { total = λ a b h. ground arith; trans = λ a b c h l. ground arith }

list_sort-SortsStably_example : SortsStably by_first nodes (list_sort by_first nodes)
list_sort-SortsStably_example = list_sort-SortsStably by_first by_first-IsOrder nodes

fill_slots_example : length (fill by_first nodes []) ≤ 64
fill_slots_example = fill_slots by_first nodes (omega arith)
