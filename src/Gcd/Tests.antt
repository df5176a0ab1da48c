-- ===== src/Gcd/Tests.antt =====
-- Runs of the number routines, and the theorems at concrete numbers.
use colossal.Prelude.{ℕ, ◌≡◌, refl, arith}
use Prim.Native.Nat.{◌∣◌}
use colossal.Gcd.{gcd, egcd, invert, lcm}
use colossal.Gcd.Divisor.{gcd_greatest, lcm_least}
use colossal.Gcd.Bezout.{◌≈◌, combine, egcd-gcd}

gcd_48 : gcd 180 48 ≡ 12
unfolding gcd
gcd_48 = refl

-- 3 * 7 is 1 modulo 10; the second coefficient is negative in the other case.
invert_7 : invert 10 7 ≡ 3
unfolding invert
invert_7 = refl

invert_3 : invert 10 3 ≡ 7
unfolding invert
invert_3 = refl

-- The product wraps, though the least common multiple of equal numbers fits.
lcm_wraps : lcm 0x10000000000 0x10000000000 ≡ 0
unfolding lcm
lcm_wraps = refl

gcd_greatest_example :
    (gcd 180 48 ∣ 180) × (gcd 180 48 ∣ 48) × ((k : ℕ) → k ∣ 180 → k ∣ 48 → k ∣ gcd 180 48)
gcd_greatest_example = gcd_greatest 180 48

lcm_least_example :
    (12 ∣ lcm 12 18) × (18 ∣ lcm 12 18) × ((m : ℕ) → 12 ∣ m → 18 ∣ m → lcm 12 18 ∣ m)
lcm_least_example = lcm_least 12 18 (omega arith) (omega arith) (omega arith)

egcd-gcd_example : let (x, y) = egcd 240 46 in combine x y 240 46 ≈ gcd 240 46
egcd-gcd_example = egcd-gcd 240 46
