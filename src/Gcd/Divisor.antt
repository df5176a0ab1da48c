-- ===== src/Gcd/Divisor.antt =====
-- gcd is the greatest common divisor, and lcm the least common multiple.
use colossal.Prelude.{ℕ, zero, suc, ◌+◌, ◌*◌, ◌/◌, ◌%◌, ◌<◌, ◌≡◌, ◌∙◌, sym, ap, subst, arith}
use Prim.Native.Nat.{◌∣◌}
use mathlib.Core.WellFounded.{Acc}
use native.Mathlib.Nat
use colossal.Gcd.{word, gcd_loop, gcd, less, rem_lt, lcm}

-- A divisor of `b` divides `a` exactly if it divides the remainder, also in multiples.
gcd_loop-dvd : (a b : ℕ) (w : Acc ◌<◌ b) → (gcd_loop a b w ∣ a) × (gcd_loop a b w ∣ b)
unfolding gcd_loop
gcd_loop-dvd a zero w = (Nat.dvd_refl a, Nat.dvd-zero a)
gcd_loop-dvd a (suc b) (Acc.intro _ w) =
    let (of_b, of_rem) = gcd_loop-dvd (suc b) (a % suc b) (w (a % suc b) (rem_lt a b)) in
    ((Nat.dvd-mod_iff _ of_b).0 of_rem, of_b)

rem_times : (a b c : ℕ) → a * c ≡ b * c * (a / b) + a % b * c
rem_times a b c =
    ap (λ x. x * c) (sym (Nat.div-add-mod a b))
    ∙ Nat.add-mul (b * (a / b)) (a % b) c
    ∙ ap (λ x. x + a % b * c) (Nat.mul_right_comm b (a / b) c)

dvd-gcd_loop : (k c a b : ℕ) (w : Acc ◌<◌ b) → k ∣ a * c → k ∣ b * c → k ∣ gcd_loop a b w * c
unfolding gcd_loop
dvd-gcd_loop k c a zero w p q = p
dvd-gcd_loop k c a (suc b) (Acc.intro _ w) p q =
    dvd-gcd_loop k c (suc b) (a % suc b) (w (a % suc b) (rem_lt a b)) q (
      (Nat.dvd-add_iff_right k (Nat.dvd-mul_right_of_dvd k q (a / suc b))).1
        (subst (◌∣◌ k) (rem_times a (suc b) c) p))

-- What divides the same multiple of both divides that multiple of their gcd.
dvd-gcd : (k c a b : ℕ) → k ∣ a * c → k ∣ b * c → k ∣ gcd a b * c
unfolding gcd
dvd-gcd k c a b = dvd-gcd_loop k c a b (less b)

-- gcd divides both arguments, and every common divisor divides it.
pub gcd_greatest :
    (a b : ℕ) → (gcd a b ∣ a) × (gcd a b ∣ b) × ((k : ℕ) → k ∣ a → k ∣ b → k ∣ gcd a b)
unfolding gcd
gcd_greatest a b =
    let (p, q) = gcd_loop-dvd a b (less b) in
    (
      p,
      q,
      λ k h l.
          rw Nat.mul-one at
            (dvd-gcd k 1 a b (Nat.dvd-mul_right_of_dvd k h 1) (Nat.dvd-mul_right_of_dvd k l 1)),
    )

lcm_pos : (a b : ℕ) → 0 < a → 0 < b → a * b < word → lcm a b ≡ a * b / gcd a b
unfolding lcm
lcm_pos a b p q small = ground (arith, Nat.mod-eq_of_lt small)

-- If the product of two positive numbers fits into an unsigned long, lcm is a multiple of both, and
-- divides every common multiple.
pub lcm_least :
    (a b : ℕ)
    → 0 < a
    → 0 < b
    → a * b < word
    → (a ∣ lcm a b) × (b ∣ lcm a b) × ((m : ℕ) → a ∣ m → b ∣ m → lcm a b ∣ m)
lcm_least a b p q small =
    let g = gcd a b in
    let (of_a, of_b, greatest) = gcd_greatest a b in
    let g_pos : 0 < g = Nat.pos_of_dvd_of_pos of_a p in
    rw (lcm_pos a b p q small) (
      subst (◌∣◌ a) (sym (Nat.mul-div_assoc g a of_b)) (Nat.dvd-mul_right a (b / g)),
      subst (◌∣◌ b) (sym (ap (λ x. x / g) (Nat.mul_comm a b) ∙ Nat.mul-div_assoc g b of_a))
          (Nat.dvd-mul_right b (a / g)),
      λ m h l. Nat.dvd_of_mul-dvd-mul_right (a * b / g) g_pos (
          subst (λ t. t ∣ m * g) (sym (Nat.div-mul_cancel g (Nat.dvd-mul_right_of_dvd g of_a b)))
            (subst (◌∣◌ (a * b)) (Nat.mul_comm g m) (
              dvd-gcd (a * b) m a b (Nat.mul-dvd-mul_left b a l)
                (subst (λ t. t ∣ b * m) (Nat.mul_comm b a) (Nat.mul-dvd-mul_left a b h))))),
    )
