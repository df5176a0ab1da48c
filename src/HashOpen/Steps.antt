-- ===== src/HashOpen/Steps.antt =====
-- The steps of a search, and where a test on them fails first.
use colossal.Prelude.{
  ℕ, zero, suc, ◌+◌, ◌-◌, ◌%◌, ◌^◌, ◌<◌, ◌≡◌, ◌∙◌, sym, ap, subst, ◌⊎◌, inl, inr, Bool, true, false,
  arith, Bool-cases, ==_iff, ◌==◌, count,
}
use Prim.Native.Nat.{bit_and}
use colossal.Prelude.Bits.{bit_and-mask}
use colossal.HashOpen.{next}
use colossal.HashOpen.Probe.{slot, next-slot, slot-reaches, slot-returns}

-- The first place where a test fails.
abbrev pub Least : (ℕ → Bool) → ℕ → Type 0
Least p t = (u : ℕ) × (u < t) × (p u ≡ false) × ((v : ℕ) → v < u → p v ≡ true)

first_below : (p : ℕ → Bool) (t : ℕ) → ((v : ℕ) → v < t → p v ≡ true) ⊎ Least p t
first_below p zero = inl (λ v l. absurd (omega arith))
first_below p (suc t) = elim (first_below p t) [
  | inr (u, l, e, before) ↦ inr (u, omega arith, e, before)
  | inl all ↦ elim (Bool-cases (p t)) [
    | inr bad ↦ inr (t, omega arith, bad, all)
    | inl good ↦ inl (λ v l. elim (Bool-cases (v == t)) [
      | inl e ↦ subst (λ w. p w ≡ true) (sym ((==_iff v t).0 e)) good
      | inr n ↦ all v (ground arith)
    ])
  ]
]

pub first : (p : ℕ → Bool) (t : ℕ) → p t ≡ false → Least p (suc t)
first p t h = elim (first_below p t) [
  | inl all ↦ (t, omega arith, h, all)
  | inr (u, l, e, before) ↦ (u, omega arith, e, before)
]

-- Where fewer than all entries pass, one does not.
pub fails {ℓ} :
    {A : Type ℓ} (p : A → Bool) (base : ℕ → A) (n : ℕ)
    → count p base n < n
    → (i : ℕ) × (i < n) × (p (base i) ≡ false)
fails p base zero h = absurd (omega arith)
fails p base (suc n) h = elim (Bool-cases (p (base n))) [
  | inr bad ↦ (n, omega arith, bad)
  | inl good ↦ let (i, l, e) = fails p base n (ground arith) in (i, omega arith, e)
]

-- The steps of a search, where the buckets are a power of two.
pub reaches : (n k hash i : ℕ) → n ≡ 2 ^ k → i < n → (s : ℕ) × (s < n) × (slot n hash s ≡ i)
reaches n k hash i e =
    subst (λ m. i < m → (s : ℕ) × (s < m) × (slot m hash s ≡ i)) (sym e) (slot-reaches k hash i)

pub advance :
    (n k hash s : ℕ) → n ≡ 2 ^ k → next (n - 1) (slot n hash s) (s + 1) ≡ slot n hash (s + 1)
advance n k hash s e =
    subst (λ m. next (m - 1) (slot m hash s) (s + 1) ≡ slot m hash (s + 1)) (sym e)
      (next-slot k hash s)

pub returns :
    (n k hash s : ℕ) → n ≡ 2 ^ k → 0 < s → s < n → (slot n hash s == slot n hash 0) ≡ false
returns n k hash s e p =
    subst (λ m. s < m → (slot m hash s == slot m hash 0) ≡ false) (sym e)
      (λ l. ground (arith, slot-returns k hash s p l))

pub start : (n k hash : ℕ) → n ≡ 2 ^ k → bit_and hash (n - 1) ≡ slot n hash 0
start n k hash e =
    subst (λ m. bit_and hash (m - 1) ≡ slot m hash 0) (sym e)
      (bit_and-mask k hash ∙ ap (λ x. x % 2 ^ k) (omega arith))
