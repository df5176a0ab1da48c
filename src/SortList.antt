-- ===== src/SortList.antt =====
-- ulib/src/base/sort_list.c: the merge sort of linked lists. A null-terminated chain of nodes is
-- the list of them, NULL the empty one. `part` holds the slots part[0 .. max_lev]; those behind are
-- NULL. The back links that are restored in the end follow from the order of the nodes.
pub mod Merge
pub mod Sorted
pub mod Nodes
pub mod Slots
pub mod Stable
mod Tests
use colossal.Prelude.{ℕ, zero, suc, Bool, true, false, not, List, [], ◌∷◌, ◌++◌, if◌then◌else◌}
use colossal.Prelude.Int.{ℤ, pos, ltb_ℤ}

module _ {ℓ} {A : Type ℓ} (cmp : A → A → ℤ) where
  -- `(*cmp)(priv, a, b) <= 0`
  abbrev pub at_most : A → A → Bool
  at_most a b = not (ltb_ℤ (pos 0) (cmp a b))

  -- merge
  pub merge : List A → List A → List A
  merge [] v = v
  merge (a ∷ u) [] = a ∷ u
  merge (a ∷ u) (b ∷ v) = elim (at_most a b) [
    | true ↦ a ∷ merge u (b ∷ v)
    | false ↦ b ∷ merge (a ∷ u) v
  ]

  -- The `for` over the levels for one node, from a slot on.
  pub carry : List A → List (List A) → List (List A)
  unfolding merge
  carry cur [] = cur ∷ []
  carry cur ([] ∷ part) = cur ∷ part
  carry cur ((a ∷ u) ∷ part) = [] ∷ carry (merge (a ∷ u) cur) part

  -- The `while` over the nodes.
  pub fill : List A → List (List A) → List (List A)
  unfolding carry
  fill [] part = part
  fill (cur ∷ list) part = fill list (carry (cur ∷ []) part)

  -- The merges of the slots below max_lev, and then of the slot max_lev.
  pub drain : List (List A) → List A → List A
  unfolding merge
  drain [] list = list
  drain (p ∷ []) list = merge p list
  drain ([] ∷ q ∷ part) list = drain (q ∷ part) list
  drain ((a ∷ u) ∷ q ∷ part) list = drain (q ∷ part) (merge (a ∷ u) list)

  -- The same loop of list_sort_forward, up to max_lev.
  pub drain_forward : List (List A) → List A → List A
  unfolding merge
  drain_forward [] list = list
  drain_forward ([] ∷ part) list = drain_forward part list
  drain_forward ((a ∷ u) ∷ part) list = drain_forward part (merge (a ∷ u) list)

  unfoldable pub list_sort : List A → List A
  unfolding fill drain
  list_sort [] = []
  list_sort (a ∷ u) = drain (fill (a ∷ u) []) []

  unfoldable pub list_sort_forward : List A → List A
  unfolding fill drain_forward
  list_sort_forward [] = []
  list_sort_forward (a ∷ u) = drain_forward (fill (a ∷ u) []) []
