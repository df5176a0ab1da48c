-- ===== src/Gcd.antt =====
-- ulib/src/base/math_gcd.c and math_lcm.c. An unsigned long is a number below `word`, and a long
-- stands as its bit pattern, so the products and differences of egcd wrap as they do in C.
pub mod Divisor
pub mod Bezout
mod Tests
use colossal.Prelude.{ℕ, zero, suc, ◌+◌, ◌-◌, ◌*◌, ◌/◌, ◌%◌, ◌<◌, ltb, ◌==◌, if◌then◌else◌, arith}
use mathlib.Core.WellFounded.{Acc}

abbrev pub word : ℕ
word = 0x10000000000000000

below : (k n : ℕ) → n < k → Acc ◌<◌ n
below zero n h = absurd (omega arith)
below (suc k) n h = Acc.intro n (λ m l. below k m (omega arith))

pub less : (n : ℕ) → Acc ◌<◌ n
unfolding below
less n = below (suc n) n (omega arith)

pub rem_lt : (a b : ℕ) → a % suc b < suc b
rem_lt a b = omega arith

-- The loop of gcd, by the fall of `b`.
pub gcd_loop : (a b : ℕ) → Acc ◌<◌ b → ℕ
gcd_loop a zero w = a
gcd_loop a (suc b) (Acc.intro _ w) = gcd_loop (suc b) (a % suc b) (w (a % suc b) (rem_lt a b))

unfoldable pub gcd : ℕ → ℕ → ℕ
unfolding gcd_loop less below
gcd a b = gcd_loop a b (less b)

-- `x1 - q * x2` in the arithmetic of unsigned long
abbrev pub minus_times : ℕ → ℕ → ℕ → ℕ
minus_times x1 q x2 = (x1 + (word - q * x2 % word)) % word

-- The loop of egcd over x1, x2, y1 and y2; the result is x1 and y1.
pub egcd_loop : (a b : ℕ) → Acc ◌<◌ b → ℕ → ℕ → ℕ → ℕ → ℕ × ℕ
egcd_loop a zero w x1 x2 y1 y2 = (x1, y1)
egcd_loop a (suc b) (Acc.intro _ w) x1 x2 y1 y2 =
    let q = a / suc b in
    egcd_loop (suc b) (a % suc b) (w (a % suc b) (rem_lt a b)) x2 (minus_times x1 q x2) y2
      (minus_times y1 q y2)

unfoldable pub egcd : ℕ → ℕ → ℕ × ℕ
unfolding egcd_loop less below
egcd a b = egcd_loop a b (less b) 1 0 0 1

-- `s < 0` for a long is its highest bit.
unfoldable pub invert : ℕ → ℕ → ℕ
unfolding egcd
invert m b = let (t, s) = egcd m b in if ltb s 0x8000000000000000 then s else (m + s) % word

unfoldable pub lcm : ℕ → ℕ → ℕ
unfolding gcd
lcm a b = if a == 0 then b else if b == 0 then a else a * b % word / gcd a b
