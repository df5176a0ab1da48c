-- ===== src/Double.antt =====
-- C `double`, which the program computes with and does not implement: a type with the operations
-- that the source uses, given as an instance, and laws of IEEE 754 as named hypotheses.
use colossal.Prelude.{ℕ, ◌+◌, ◌*◌, ◌/◌, ◌≡◌, refl, not, Bool, true, false, arith, if◌then◌else◌}
use colossal.Prelude.Int.{ℤ, pos, negsuc, pos_part, neg_part, sub_ℕ, ltb_ℤ}

pub record Double {ℓ} (D : Type ℓ) : Type ℓ where
  -- (double)n, and (int)x, which cuts towards zero
  pub of_int : ℤ → D
  pub to_int : D → ℤ
  -- `<` and `<=`, and the four operations
  pub lt : D → D → Bool
  pub le : D → D → Bool
  pub add : D → D → D
  pub sub : D → D → D
  pub mul : D → D → D
  pub div : D → D → D
  -- the literal 0.000001
  pub micro : D

module _ {ℓ} {D : Type ℓ} ⦃d : Double D⦄ where
  -- std::min and std::max
  abbrev pub fmin : D → D → D
  fmin a b = if d.lt b a then b else a

  abbrev pub fmax : D → D → D
  fmax a b = if d.lt a b then b else a

-- IEEE 754 comparison. Every value but NaN is a number; a comparison with NaN is false.
pub record IsOrdered {ℓ} (D : Type ℓ) ⦃d : Double D⦄ : Type (ℓ ⊔ 1) where
  pub IsNumber : D → Type 0
  pub asym : (x y : D) → d.lt x y ≡ true → d.lt y x ≡ false
  pub not_trans : (x y z : D) → IsNumber y → d.lt x y ≡ false → d.lt y z ≡ false → d.lt x z ≡ false
  pub le-eq-not-lt : (x y : D) → IsNumber x → IsNumber y → d.le x y ≡ not (d.lt y x)
  pub of_int_number : (n : ℤ) → IsNumber (d.of_int n)

-- A concrete instance: millionths, as integers.
abbrev pub scale : ℤ → (ℕ → ℕ) → ℤ
scale (pos n) f = pos (f n)
scale (negsuc n) f = sub_ℕ 0 (f (n + 1))

abbrev pub fixed_mul : ℤ → ℤ → ℤ
fixed_mul a b =
    sub_ℕ ((pos_part a * pos_part b + neg_part a * neg_part b) / 1_000_000)
      ((pos_part a * neg_part b + neg_part a * pos_part b) / 1_000_000)

abbrev pub fixed_div : ℤ → ℤ → ℤ
fixed_div a b =
    let size = 1_000_000 * (pos_part a + neg_part a) / (pos_part b + neg_part b) in
    if ltb_ℤ a (pos 0)
    then (if ltb_ℤ b (pos 0) then pos size else sub_ℕ 0 size)
    else (if ltb_ℤ b (pos 0) then sub_ℕ 0 size else pos size)

instance abbrev pub fixed_double : Double ℤ
fixed_double = record {
  of_int = λ n. scale n (λ k. k * 1_000_000);
  to_int = λ n. scale n (λ k. k / 1_000_000);
  lt = ltb_ℤ;
  le = λ a b. not (ltb_ℤ b a);
  add = λ a b. sub_ℕ (pos_part a + pos_part b) (neg_part a + neg_part b);
  sub = λ a b. sub_ℕ (pos_part a + neg_part b) (neg_part a + pos_part b);
  mul = fixed_mul;
  div = fixed_div;
  micro = pos 1;
}

pub ltb_ℤ-asym : (x y : ℤ) → ltb_ℤ x y ≡ true → ltb_ℤ y x ≡ false
ltb_ℤ-asym x y h = ground arith

pub ltb_ℤ-not_trans :
    (x y z : ℤ) → Unit {0} → ltb_ℤ x y ≡ false → ltb_ℤ y z ≡ false → ltb_ℤ x z ≡ false
ltb_ℤ-not_trans x y z n h k = ground arith

abbrev pub ℤ-IsOrdered : IsOrdered ℤ
ℤ-IsOrdered = record {
  IsNumber = λ x. Unit;
  asym = ltb_ℤ-asym;
  not_trans = ltb_ℤ-not_trans;
  le-eq-not-lt = λ x y p q. refl;
  of_int_number = λ n. tt;
}
