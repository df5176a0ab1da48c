-- ===== src/SortList/Merge.antt =====
-- merge: two sorted chains give a sorted one, in which equal nodes keep their order.
use colossal.Prelude.{
  ◌≡◌, refl, sym, inl, inr, Bool, true, false, List, [], ◌∷◌, ◌++◌, All, arith, Bool-cases,
  if◌then◌else◌,
}
use colossal.Prelude.Int.{ℤ}
use mathlib.Core.List.{append-nil}
use colossal.SortList.{at_most, merge}

module _ {ℓ} {A : Type ℓ} where
  -- The nodes that pass a test, in order.
  abbrev pub filter : (A → Bool) → List A → List A
  filter p [] = []
  filter p (x ∷ xs) = if p x then x ∷ filter p xs else filter p xs

  pub filter-append :
      (p : A → Bool) (xs ys : List A) → filter p (xs ++ ys) ≡ filter p xs ++ filter p ys
  filter-append p [] ys = refl
  filter-append p (x ∷ xs) ys = ground (arith, filter-append p xs ys)

-- What a comparison has to do: of two nodes one is at most the other, and this is transitive.
pub record IsOrder {ℓ} {A : Type ℓ} (cmp : A → A → ℤ) : Type ℓ where
  pub total : (a b : A) → at_most cmp a b ≡ false → at_most cmp b a ≡ true
  pub trans : (a b c : A) → at_most cmp a b ≡ true → at_most cmp b c ≡ true → at_most cmp a c ≡ true

module _ {ℓ} {A : Type ℓ} (cmp : A → A → ℤ) where
  abbrev pub Above : A → List A → Type 0
  Above a = All (λ b. at_most cmp a b ≡ true)

  abbrev pub IsSorted : List A → Type 0
  IsSorted [] = Unit
  IsSorted (a ∷ u) = Above a u × IsSorted u

  -- The nodes that pass the test are all equal to the comparison.
  abbrev pub IsTie : (A → Bool) → Type ℓ
  IsTie p = (a b : A) → p a ≡ true → p b ≡ true → at_most cmp a b ≡ true

  merge-All : (P : A → Type 0) (u v : List A) → All P u → All P v → All P (merge cmp u v)
  unfolding merge
  merge-All P [] v h l = l
  merge-All P (a ∷ u) [] h l = h
  merge-All P (a ∷ u) (b ∷ v) (x, h) (y, l) = elim (Bool-cases (at_most cmp a b)) [
    | inl e ↦ rw (e, All) (x, merge-All P u (b ∷ v) h (y, l))
    | inr e ↦ rw (e, All) (y, merge-All P (a ∷ u) v (x, h) l)
  ]

  module _ (laws : IsOrder cmp) where
    Above-trans : (a b : A) (w : List A) → at_most cmp a b ≡ true → Above b w → Above a w
    Above-trans a b [] h l = tt
    Above-trans a b (c ∷ w) h (x, l) = (laws.trans a b c h x, Above-trans a b w h l)

    pub merge-IsSorted : (u v : List A) → IsSorted u → IsSorted v → IsSorted (merge cmp u v)
    unfolding merge
    merge-IsSorted [] v h l = l
    merge-IsSorted (a ∷ u) [] h l = h
    merge-IsSorted (a ∷ u) (b ∷ v) (x, h) (y, l) = elim (Bool-cases (at_most cmp a b)) [
      | inl e ↦
          rw (e, IsSorted)
            (
              merge-All (λ c. at_most cmp a c ≡ true) u (b ∷ v) x (e, Above-trans a b v e y),
              merge-IsSorted u (b ∷ v) h (y, l),
            )
      | inr e ↦
          rw (e, IsSorted)
            (
              merge-All (λ c. at_most cmp b c ≡ true) (a ∷ u) v
                  (laws.total a b e, Above-trans b a u (laws.total a b e) x) y,
              merge-IsSorted (a ∷ u) v (x, h) l,
            )
    ]

    -- No node equal to `b` stands in a chain that is above a node which is not at most `b`.
    no_tie :
        (p : A → Bool) (a b : A) (u : List A)
        → IsTie p
        → p b ≡ true
        → at_most cmp a b ≡ false
        → Above a u
        → filter p u ≡ []
    no_tie p a b [] t h e l = refl
    no_tie p a b (c ∷ u) t h e (x, l) =
        ground (arith, t c b, laws.trans a c b x, no_tie p a b u t h e l)

    pub merge-filter :
        (p : A → Bool) (u v : List A)
        → IsTie p
        → IsSorted u
        → filter p (merge cmp u v) ≡ filter p u ++ filter p v
    unfolding merge
    merge-filter p [] v t h = refl
    merge-filter p (a ∷ u) [] t h = sym (append-nil (filter p (a ∷ u)))
    merge-filter p (a ∷ u) (b ∷ v) t (x, h) = elim (Bool-cases (at_most cmp a b)) [
      | inl e ↦ rw (e, filter) (ground (arith, merge-filter p u (b ∷ v) t h))
      | inr e ↦
          rw (e, filter)
            (ground (arith, merge-filter p (a ∷ u) v t (x, h), no_tie p a b u t, t a b))
    ]
