-- ===== src/SortList/Sorted.antt =====
-- list_sort and list_sort_forward: the slots hold sorted chains, the later the earlier the nodes.
use colossal.Prelude.{◌≡◌, ◌∙◌, refl, sym, ap, Bool, List, [], ◌∷◌, ◌++◌, All}
use colossal.Prelude.Int.{ℤ}
use mathlib.Core.List.{append-nil, append_assoc}
use colossal.SortList.{merge, carry, fill, drain}
use colossal.SortList.Merge.{
  filter, filter-append, IsOrder, IsSorted, IsTie, merge-IsSorted, merge-filter,
}

-- The nodes of the slots, those of the highest slot first.
abbrev pub flat {ℓ} : {A : Type ℓ} → List (List A) → List A
flat [] = []
flat (p ∷ part) = flat part ++ p

module _ {ℓ} {A : Type ℓ} (cmp : A → A → ℤ) where
  module _ (laws : IsOrder cmp) where
    carry-IsSorted :
        (cur : List A) (part : List (List A))
        → IsSorted cmp cur
        → All (IsSorted cmp) part
        → All (IsSorted cmp) (carry cmp cur part)
    unfolding carry
    carry-IsSorted cur [] h l = (h, tt)
    carry-IsSorted cur ([] ∷ part) h (x, l) = (h, l)
    carry-IsSorted cur ((a ∷ u) ∷ part) h (x, l) = (
      tt,
      carry-IsSorted (merge cmp (a ∷ u) cur) part (merge-IsSorted cmp laws (a ∷ u) cur x h) l,
    )

    pub fill-IsSorted :
        (list : List A) (part : List (List A))
        → All (IsSorted cmp) part
        → All (IsSorted cmp) (fill cmp list part)
    unfolding fill
    fill-IsSorted [] part l = l
    fill-IsSorted (a ∷ list) part l =
        fill-IsSorted list (carry cmp (a ∷ []) part) (carry-IsSorted (a ∷ []) part (tt, tt) l)

    pub drain-IsSorted :
        (part : List (List A)) (list : List A)
        → All (IsSorted cmp) part
        → IsSorted cmp list
        → IsSorted cmp (drain cmp part list)
    unfolding drain
    drain-IsSorted [] list l h = h
    drain-IsSorted (p ∷ []) list (x, l) h = merge-IsSorted cmp laws p list x h
    drain-IsSorted ([] ∷ q ∷ part) list (x, l) h = drain-IsSorted (q ∷ part) list l h
    drain-IsSorted ((a ∷ u) ∷ q ∷ part) list (x, l) h =
        drain-IsSorted (q ∷ part) (merge cmp (a ∷ u) list) l
          (merge-IsSorted cmp laws (a ∷ u) list x h)

    carry-filter :
        (p : A → Bool) (cur : List A) (part : List (List A))
        → IsTie cmp p
        → All (IsSorted cmp) part
        → filter p (flat (carry cmp cur part)) ≡ filter p (flat part) ++ filter p cur
    unfolding carry
    carry-filter p cur [] t l = refl
    carry-filter p cur ([] ∷ part) t l =
        filter-append p (flat part) cur
        ∙ ap (λ x. filter p x ++ filter p cur) (sym (append-nil (flat part)))
    carry-filter p cur ((a ∷ u) ∷ part) t (x, l) =
        ap (filter p) (append-nil (flat (carry cmp (merge cmp (a ∷ u) cur) part)))
        ∙ carry-filter p (merge cmp (a ∷ u) cur) part t l
        ∙ ap (λ z. filter p (flat part) ++ z) (merge-filter cmp laws p (a ∷ u) cur t x)
        ∙ sym (append_assoc (filter p (flat part)) (filter p (a ∷ u)) (filter p cur))
        ∙ ap (λ z. z ++ filter p cur) (sym (filter-append p (flat part) (a ∷ u)))

    pub fill-filter :
        (p : A → Bool) (list : List A) (part : List (List A))
        → IsTie cmp p
        → All (IsSorted cmp) part
        → filter p (flat (fill cmp list part)) ≡ filter p (flat part) ++ filter p list
    unfolding fill
    fill-filter p [] part t l = sym (append-nil (filter p (flat part)))
    fill-filter p (a ∷ list) part t l =
        fill-filter p list (carry cmp (a ∷ []) part) t (carry-IsSorted (a ∷ []) part (tt, tt) l)
        ∙ ap (λ z. z ++ filter p list) (carry-filter p (a ∷ []) part t l)
        ∙ append_assoc (filter p (flat part)) (filter p (a ∷ [])) (filter p list)
        ∙ ap (λ z. filter p (flat part) ++ z) (sym (filter-append p (a ∷ []) list))

    pub drain-filter :
        (p : A → Bool) (part : List (List A)) (list : List A)
        → IsTie cmp p
        → All (IsSorted cmp) part
        → filter p (drain cmp part list) ≡ filter p (flat part) ++ filter p list
    unfolding drain
    drain-filter p [] list t l = refl
    drain-filter p (q ∷ []) list t (x, l) = merge-filter cmp laws p q list t x
    drain-filter p ([] ∷ q ∷ part) list t (x, l) =
        drain-filter p (q ∷ part) list t l
        ∙ ap (λ z. filter p z ++ filter p list) (sym (append-nil (flat (q ∷ part))))
    drain-filter p ((a ∷ u) ∷ q ∷ part) list t (x, l) =
        drain-filter p (q ∷ part) (merge cmp (a ∷ u) list) t l
        ∙ ap (λ z. filter p (flat (q ∷ part)) ++ z) (merge-filter cmp laws p (a ∷ u) list t x)
        ∙ sym (append_assoc (filter p (flat (q ∷ part))) (filter p (a ∷ u)) (filter p list))
        ∙ ap (λ z. z ++ filter p list) (sym (filter-append p (flat (q ∷ part)) (a ∷ u)))
