-- ===== src/SortList/Slots.antt =====
-- How many slots of part[] are used: a chain in slot `lev` has 2 ^ lev nodes.
use colossal.Prelude.{
  ℕ, ◌+◌, ◌*◌, ◌^◌, ◌≤◌, ◌<◌, ◌≡◌, refl, ap, ◌⊎◌, inl, inr, true, List, [], ◌∷◌, ◌++◌, arith,
  length, length-append,
}
use colossal.Prelude.Int.{ℤ}
use native.Mathlib.Decide.{dec_lt}
use native.Mathlib.Nat.{pow-suc, pow-le-pow_right}
use colossal.SortList.{merge, carry, fill}
use colossal.SortList.Sorted.{flat}
use colossal.SortList.Nodes.{number, number-merge, number-fill}

module _ {ℓ} {A : Type ℓ} where
  -- From a slot for chains of `s` nodes on, every chain is of full length, and the last one is not
  -- NULL.
  abbrev IsFull : ℕ → List (List A) → Type 0
  IsFull s [] = Unit
  IsFull s (p ∷ []) = length p ≡ s
  IsFull s (p ∷ q ∷ part) = ((length p ≡ 0) ⊎ (length p ≡ s)) × IsFull (s + s) (q ∷ part)

  length-flat :
      (part : List (List A)) (p : List A) → length (flat part ++ p) ≡ length (flat part) + length p
  length-flat part p = length-append (flat part) p

  IsFull-length :
      (s : ℕ) (p : List A) (part : List (List A))
      → IsFull s (p ∷ part)
      → s * 2 ^ length part ≤ length (flat (p ∷ part))
  IsFull-length s p [] h = omega (arith, h)
  IsFull-length s p (q ∷ part) (x, h) = omega (
    arith,
    IsFull-length (s + s) q part h,
    length-flat (q ∷ part) p,
    ap (λ t. s * t) (pow-suc 2 (length part)),
    shift s (2 ^ length part),
  )
    where
      shift : (s t : ℕ) → (s + s) * t ≡ s * (t * 2)
      shift s t = grind arith

  number-true : (u : List A) → number (λ x. true) u ≡ length u
  number-true [] = refl
  number-true (a ∷ u) = omega (arith, number-true u)

  -- A free slot in front of used ones.
  under :
      (s : ℕ) (part : List (List A)) → 0 < length part → IsFull (s + s) part → IsFull s ([] ∷ part)
  under s [] h l = absurd (omega arith)
  under s (p ∷ part) h l = (inl refl, l)

  behind :
      (s : ℕ) (p : List A) (part : List (List A))
      → 0 < length p
      → IsFull s (p ∷ part)
      → (length p ≡ s) × IsFull (s + s) part
  behind s p [] h l = (l, tt)
  behind s p (q ∷ part) h (inl e, l) = absurd (omega arith)
  behind s p (q ∷ part) h (inr e, l) = (e, l)

  used :
      (n : ℕ) (part : List (List A))
      → IsFull 1 part
      → length (flat part) ≤ n
      → n < 2 ^ 64
      → length part ≤ 64
  used n [] l h m = omega arith
  used n (p ∷ part) l h m = elim (dec_lt (length part) 64) [
    | yes few ↦ omega arith
    | no many ↦ absurd (
        omega (
          arith,
          IsFull-length 1 p part l,
          pow-le-pow_right {n = 2} (omega arith) {i = 64} {j = length part} (omega arith),
        ))
  ]

  module _ (cmp : A → A → ℤ) where
    length-merge : (u v : List A) → length (merge cmp u v) ≡ length u + length v
    length-merge u v = omega (
      arith,
      number-true (merge cmp u v),
      number-true u,
      number-true v,
      number-merge (λ x. true) cmp u v,
    )

    carry_used : (cur : List A) (part : List (List A)) → 0 < length (carry cmp cur part)
    unfolding carry
    carry_used cur [] = omega arith
    carry_used cur ([] ∷ part) = omega arith
    carry_used cur ((a ∷ u) ∷ part) = omega arith

    carry-IsFull :
        (s : ℕ) (cur : List A) (part : List (List A))
        → length cur ≡ s
        → 0 < s
        → IsFull s part
        → IsFull s (carry cmp cur part)
    unfolding carry
    carry-IsFull s cur [] h z l = h
    carry-IsFull s cur ([] ∷ []) h z l = h
    carry-IsFull s cur ([] ∷ q ∷ part) h z (x, l) = (inr h, l)
    carry-IsFull s cur ((a ∷ u) ∷ part) h z l =
        let (e, rest) = behind s (a ∷ u) part (omega arith) l in
        let next = merge cmp (a ∷ u) cur in
        under s (carry cmp next part) (carry_used next part) (
          carry-IsFull (s + s) next part (omega (arith, length-merge (a ∷ u) cur, e)) (omega arith)
            rest)

    fill-IsFull :
        (list : List A) (part : List (List A)) → IsFull 1 part → IsFull 1 (fill cmp list part)
    unfolding fill
    fill-IsFull [] part l = l
    fill-IsFull (a ∷ list) part l =
        fill-IsFull list (carry cmp (a ∷ []) part)
          (carry-IsFull 1 (a ∷ []) part (omega arith) (omega arith) l)

    -- For fewer than 2 ^ 64 nodes, list_sort uses at most the slots part[0 .. 63], one less than
    -- the array has.
    pub fill_slots : (list : List A) → length list < 2 ^ 64 → length (fill cmp list []) ≤ 64
    fill_slots list h =
        used (length list) (fill cmp list []) (fill-IsFull list [] tt)
          (omega (
            arith,
            number-true (flat (fill cmp list [])),
            number-true list,
            number-fill (λ x. true) cmp list [],
          ))
          h
