-- ===== src/SortList/Nodes.antt =====
-- The steps of the sort keep all nodes.
use colossal.Prelude.{ℕ, ◌+◌, ◌≡◌, inl, inr, Bool, List, [], ◌∷◌, ◌++◌, arith, Bool-cases, bit}
use colossal.Prelude.Int.{ℤ}
use colossal.SortList.{at_most, merge, carry, fill, drain}
use colossal.SortList.Sorted.{flat}

module _ {ℓ} {A : Type ℓ} (q : A → Bool) where
  -- How many nodes pass the test.
  abbrev pub number : List A → ℕ
  number [] = 0
  number (x ∷ xs) = bit (q x) + number xs

  number-append : (u v : List A) → number (u ++ v) ≡ number u + number v
  number-append [] v = omega arith
  number-append (x ∷ u) v = omega (arith, number-append u v)

  module _ (cmp : A → A → ℤ) where
    pub number-merge : (u v : List A) → number (merge cmp u v) ≡ number u + number v
    unfolding merge
    number-merge [] v = omega arith
    number-merge (a ∷ u) [] = omega arith
    number-merge (a ∷ u) (b ∷ v) = elim (Bool-cases (at_most cmp a b)) [
      | inl e ↦ rw (e, number) (omega (arith, number-merge u (b ∷ v)))
      | inr e ↦ rw (e, number) (omega (arith, number-merge (a ∷ u) v))
    ]

    number-carry :
        (cur : List A) (part : List (List A))
        → number (flat (carry cmp cur part)) ≡ number (flat part) + number cur
    unfolding carry
    number-carry cur [] = omega arith
    number-carry cur ([] ∷ part) =
        omega (arith, number-append (flat part) cur, number-append (flat part) [])
    number-carry cur ((a ∷ u) ∷ part) =
        let rest = carry cmp (merge cmp (a ∷ u) cur) part in
        omega (
          arith,
          number-carry (merge cmp (a ∷ u) cur) part,
          number-merge (a ∷ u) cur,
          number-append (flat rest) [],
          number-append (flat part) (a ∷ u),
        )

    pub number-fill :
        (list : List A) (part : List (List A))
        → number (flat (fill cmp list part)) ≡ number (flat part) + number list
    unfolding fill
    number-fill [] part = omega arith
    number-fill (a ∷ list) part =
        omega (arith, number-fill list (carry cmp (a ∷ []) part), number-carry (a ∷ []) part)

    pub number-drain :
        (part : List (List A)) (list : List A)
        → number (drain cmp part list) ≡ number (flat part) + number list
    unfolding drain
    number-drain [] list = omega arith
    number-drain (p ∷ []) list = omega (arith, number-merge p list)
    number-drain ([] ∷ p ∷ part) list =
        omega (arith, number-drain (p ∷ part) list, number-append (flat (p ∷ part)) [])
    number-drain ((a ∷ u) ∷ p ∷ part) list = omega (
      arith,
      number-drain (p ∷ part) (merge cmp (a ∷ u) list),
      number-merge (a ∷ u) list,
      number-append (flat (p ∷ part)) (a ∷ u),
    )
