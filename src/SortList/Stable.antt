-- ===== src/SortList/Stable.antt =====
-- What list_sort and list_sort_forward promise.
use colossal.Prelude.{◌≡◌, ◌∙◌, refl, Bool, List, [], ◌∷◌, arith}
use colossal.Prelude.Int.{ℤ}
use mathlib.Core.List.{append-nil}
use colossal.SortList.{merge, fill, drain, drain_forward, list_sort, list_sort_forward}
use colossal.SortList.Merge.{filter, IsOrder, IsSorted, IsTie}
use colossal.SortList.Sorted.{fill-IsSorted, drain-IsSorted, fill-filter, drain-filter}
use colossal.SortList.Nodes.{number, number-fill, number-drain}

module _ {ℓ} {A : Type ℓ} (cmp : A → A → ℤ) where
  -- `r` holds the nodes of `list` in ascending order, equal ones in their order in `list`.
  pub record SortsStably (list r : List A) : Type ℓ where
    pub sorted : IsSorted cmp r
    pub same : (q : A → Bool) → number q r ≡ number q list
    pub stable : (p : A → Bool) → IsTie cmp p → filter p r ≡ filter p list

  -- If of two nodes one is at most the other and this is transitive, list_sort puts the nodes of any
  -- list in ascending order, keeps all of them, and leaves equal ones in their order.
  pub list_sort-SortsStably : IsOrder cmp → (list : List A) → SortsStably list (list_sort cmp list)
  unfolding list_sort
  list_sort-SortsStably laws [] = record { sorted = tt; same = λ q. refl; stable = λ p t. refl }
  list_sort-SortsStably laws (a ∷ u) =
      let part = fill cmp (a ∷ u) [] in
      let ordered = fill-IsSorted cmp laws (a ∷ u) [] tt in
      record {
        sorted = drain-IsSorted cmp laws part [] ordered tt;
        same = λ q. omega (arith, number-drain q cmp part [], number-fill q cmp (a ∷ u) []);
        stable = λ p t.
            drain-filter cmp laws p part [] t ordered
            ∙ append-nil _
            ∙ fill-filter cmp laws p (a ∷ u) [] t tt;
      }

  merge-nil : (u : List A) → merge cmp u [] ≡ u
  unfolding merge
  merge-nil [] = refl
  merge-nil (a ∷ u) = refl

  drain_forward-drain :
      (part : List (List A)) (list : List A) → drain_forward cmp part list ≡ drain cmp part list
  unfolding drain_forward drain merge
  drain_forward-drain [] list = refl
  drain_forward-drain ([] ∷ []) list = refl
  drain_forward-drain ((a ∷ u) ∷ []) list = refl
  drain_forward-drain ([] ∷ q ∷ part) list = drain_forward-drain (q ∷ part) list
  drain_forward-drain ((a ∷ u) ∷ q ∷ part) list =
      drain_forward-drain (q ∷ part) (merge cmp (a ∷ u) list)

  -- Both routines put any list in the same order, whatever the comparison does.
  list_sort_forward-list_sort : (list : List A) → list_sort_forward cmp list ≡ list_sort cmp list
  unfolding list_sort list_sort_forward
  list_sort_forward-list_sort [] = refl
  list_sort_forward-list_sort (a ∷ u) = drain_forward-drain (fill cmp (a ∷ u) []) []
