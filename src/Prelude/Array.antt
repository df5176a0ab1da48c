-- ===== src/Prelude/Array.antt =====
-- C arrays behind a base pointer: a function from indices, with a write as a pointwise update.
-- What a routine leaves alone, and which entries a range holds, are then statements about it.
use Prim.Native.Nat.{ℕ, zero, suc, ◌+◌, ◌≤◌, ◌<◌}
use mathlib.Core.Path.{◌≡◌, refl, ◌∙◌}
use mathlib.Core.Bool.{Bool, true, false}
use mathlib.Core.List.{List, [], ◌∷◌}
use mathlib.Core.Logic.{inl, inr}
use native.Mathlib.Numerals.{add-one}
use native.Mathlib.Omega.{arith}
use colossal.Prelude.Tests.{◌==◌, if◌then◌else◌, Bool-cases}

abbrev pub bit : Bool → ℕ
bit true = 1
bit false = 0

module _ {ℓ} {A : Type ℓ} where
  -- `base[i] = v`
  abbrev pub write : (ℕ → A) → ℕ → A → ℕ → A
  write base i v j = if j == i then v else base j

  -- The number of entries of base[0..n) that pass the test.
  abbrev pub count : (A → Bool) → (ℕ → A) → ℕ → ℕ
  count p base zero = 0
  count p base (suc n) = bit (p (base n)) + count p base n

  -- Both ranges hold the same entries, each as often.
  abbrev pub SameEntries : ℕ → (ℕ → A) → (ℕ → A) → Type ℓ
  SameEntries n a b = (p : A → Bool) → count p a n ≡ count p b n

  -- base[i..i + n) as a list.
  abbrev pub slice_from : ℕ → ℕ → (ℕ → A) → List A
  slice_from i zero base = []
  slice_from i (suc n) base = base i ∷ slice_from (i + 1) n base

  abbrev pub slice : ℕ → (ℕ → A) → List A
  slice n base = slice_from 0 n base

module _ {ℓ} {A : Type ℓ} where
  pub write-at : (base : ℕ → A) (i j : ℕ) (v : A) → (j == i) ≡ true → write base i v j ≡ v
  write-at base i j v e = rw e refl

  pub write-off : (base : ℕ → A) (i j : ℕ) (v : A) → (j == i) ≡ false → write base i v j ≡ base j
  write-off base i j v e = rw e refl

  pub count-congr :
      (p : A → Bool) (a b : ℕ → A) (n : ℕ)
      → ((i : ℕ) → i < n → a i ≡ b i)
      → count p a n ≡ count p b n
  count-congr p a b zero h = refl
  count-congr p a b (suc n) h = ground (arith, h n, count-congr p a b n (λ i q. h i (omega arith)))

  -- A write outside of the range is not seen in it.
  pub count-write_outside :
      (p : A → Bool) (base : ℕ → A) (i n : ℕ) (v : A)
      → n ≤ i
      → count p (write base i v) n ≡ count p base n
  count-write_outside p base i zero v h = refl
  count-write_outside p base i (suc n) v h = ground (arith, count-write_outside p base i n v)

  -- A write trades the old entry for the new one.
  pub count-write :
      (p : A → Bool) (base : ℕ → A) (i n : ℕ) (v : A)
      → i < n
      → count p (write base i v) n + bit (p (base i)) ≡ count p base n + bit (p v)
  count-write p base i zero v h = absurd (omega arith)
  count-write p base i (suc n) v h =
      ground (arith, count-write_outside p base i n v, count-write p base i n v)

  pub count-none :
      (p : A → Bool) (base : ℕ → A) (n : ℕ)
      → ((i : ℕ) → i < n → p (base i) ≡ false)
      → count p base n ≡ 0
  count-none p base zero h = refl
  count-none p base (suc n) h = ground (arith, h n, count-none p base n (λ i q. h i (omega arith)))

  pub none_of_count :
      (p : A → Bool) (base : ℕ → A) (n : ℕ)
      → count p base n ≡ 0
      → (i : ℕ) → i < n
      → p (base i) ≡ false
  none_of_count p base zero h i q = absurd (omega arith)
  none_of_count p base (suc n) h i q = elim (Bool-cases (i == n)) [
    | inl e ↦ ground arith
    | inr e ↦ none_of_count p base n (omega arith) i (ground arith)
  ]

  -- What no entry of a range passes, no entry of a range with the same entries passes.
  pub none_of_same :
      (p : A → Bool) (a b : ℕ → A) (n : ℕ)
      → count p a n ≡ count p b n
      → ((i : ℕ) → i < n → p (b i) ≡ false)
      → (i : ℕ) → i < n
      → p (a i) ≡ false
  none_of_same p a b n e h = none_of_count p a n (e ∙ count-none p b n h)

  pub count-pos :
      (p : A → Bool) (base : ℕ → A) (i n : ℕ) → i < n → p (base i) ≡ true → 1 ≤ count p base n
  count-pos p base i zero h e = absurd (omega arith)
  count-pos p base i (suc n) h e = elim (Bool-cases (i == n)) [
    | inl q ↦ ground arith
    | inr q ↦ omega (arith, count-pos p base i n (ground arith) e)
  ]

  -- A test that two entries pass counts at least two.
  pub count-two :
      (p : A → Bool) (base : ℕ → A) (i j n : ℕ)
      → i < j
      → j < n
      → p (base i) ≡ true
      → p (base j) ≡ true
      → 2 ≤ count p base n
  count-two p base i j zero h k e f = absurd (omega arith)
  count-two p base i j (suc n) h k e f = elim (Bool-cases (j == n)) [
    | inl q ↦ ground (arith, count-pos p base i n (ground arith) e)
    | inr q ↦ omega (arith, count-two p base i j n h (ground arith) e f)
  ]

  -- A push_back.
  pub count-push_back :
      (p : A → Bool) (base : ℕ → A) (n : ℕ) (v : A)
      → count p (write base n v) (n + 1) ≡ bit (p v) + count p base n
  count-push_back p base n v = rw add-one (ground (arith, count-write_outside p base n n v))
