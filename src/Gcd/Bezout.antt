-- ===== src/Gcd/Bezout.antt =====
-- The coefficients of egcd, in the arithmetic of unsigned long.
use colossal.Prelude.{ℕ, zero, suc, ◌+◌, ◌*◌, ◌/◌, ◌%◌, ◌<◌, ◌≡◌, ◌∙◌, sym, ap, arith}
use mathlib.Core.WellFounded.{Acc}
use native.Mathlib.Nat
use colossal.Gcd.{word, gcd_loop, gcd, less, rem_lt, minus_times, egcd_loop, egcd}

-- Equal as unsigned longs.
infix 4 ◌≈◌
abbrev pub ◌≈◌ : ℕ → ℕ → Type 0
x ≈ y = x % word ≡ y % word

minus_times-add : (x q y : ℕ) → minus_times x q y + q * y ≈ x
minus_times-add x q y = omega arith

mod_times : (w x c : ℕ) → x * c % w ≡ x % w * c % w
mod_times w x c =
    let q = x / w in
    let r = x % w in
    ap (λ t. t * c % w) (sym (Nat.div-add-mod x w))
    ∙ ap (λ t. t % w) (expand w q r c)
    ∙ Nat.add-mul-mod_self_left (r * c) w (q * c)
  where
    expand : (w q r c : ℕ) → (w * q + r) * c ≡ r * c + w * (q * c)
    expand w q r c = grind arith

times : (x y c : ℕ) → x ≈ y → x * c ≈ y * c
times x y c h = mod_times word x c ∙ ap (λ t. t * c % word) h ∙ sym (mod_times word y c)

-- `x * a0 + y * b0`
abbrev pub combine : ℕ → ℕ → ℕ → ℕ → ℕ
combine x y a0 b0 = x * a0 + y * b0

regroup :
    (u v q x y a0 b0 : ℕ)
    → combine (u + q * x) (v + q * y) a0 b0 ≡ combine u v a0 b0 + combine x y a0 b0 * q
regroup u v q x y a0 b0 = grind arith

round :
    (q b r x1 x2 y1 y2 a0 b0 : ℕ)
    → combine x1 y1 a0 b0 ≈ b * q + r
    → combine x2 y2 a0 b0 ≈ b
    → combine (minus_times x1 q x2) (minus_times y1 q y2) a0 b0 ≈ r
round q b r x1 x2 y1 y2 a0 b0 h l =
    let u = minus_times x1 q x2 in
    let v = minus_times y1 q y2 in
    omega (
      arith,
      regroup u v q x2 y2 a0 b0,
      times (u + q * x2) x1 a0 (minus_times-add x1 q x2),
      times (v + q * y2) y1 b0 (minus_times-add y1 q y2),
      times (combine x2 y2 a0 b0) b q l,
      h,
    )

egcd_loop_lem :
    (a b : ℕ) (w : Acc ◌<◌ b) (x1 x2 y1 y2 a0 b0 : ℕ)
    → combine x1 y1 a0 b0 ≈ a
    → combine x2 y2 a0 b0 ≈ b
    → let (x, y) = egcd_loop a b w x1 x2 y1 y2 in combine x y a0 b0 ≈ gcd_loop a b w
unfolding egcd_loop gcd_loop
egcd_loop_lem a zero w x1 x2 y1 y2 a0 b0 h l = h
egcd_loop_lem a (suc b) (Acc.intro _ w) x1 x2 y1 y2 a0 b0 h l =
    egcd_loop_lem (suc b) (a % suc b) (w (a % suc b) (rem_lt a b)) x2 _ y2 _ a0 b0 l (
      round (a / suc b) (suc b) (a % suc b) x1 x2 y1 y2 a0 b0
        (h ∙ ap (λ t. t % word) (sym (Nat.div-add-mod a (suc b)))) l)

-- The coefficients of egcd combine the arguments to their gcd, in wrapping arithmetic.
pub egcd-gcd : (a b : ℕ) → let (x, y) = egcd a b in combine x y a b ≈ gcd a b
unfolding egcd gcd
egcd-gcd a b = egcd_loop_lem a b (less b) 1 0 0 1 a b (omega arith) (omega arith)
