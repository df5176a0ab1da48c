-- ===== src/Prelude/Bits.antt =====
-- Laws of the bitwise and of native numbers, by their binary digits.
use Prim.Native.Nat.{
  ℕ, zero, suc, ◌+◌, ◌*◌, ◌/◌, ◌%◌, ◌≤◌, ◌<◌, ◌^◌, ◌-◌, min, bit_and, bit_and-bitwise, digits,
}
use mathlib.Core.Path.{◌≡◌, ◌∙◌, refl, sym, ap}
use native.Mathlib.Nat
use native.Mathlib.Omega.{arith}

-- Digits beyond those of the first number do not matter.
digits_enough :
    (z : ℕ → ℕ) (f : ℕ → ℕ → ℕ) (n m a b : ℕ) → a ≤ n → a ≤ m → digits z f n a b ≡ digits z f m a b
digits_enough z f zero zero a b p q = refl
digits_enough z f zero (suc m) zero b p q = refl
digits_enough z f (suc n) zero zero b p q = refl
digits_enough z f (suc n) (suc m) zero b p q = refl
digits_enough z f (suc n) zero (suc a) b p q = absurd (omega arith)
digits_enough z f zero (suc m) (suc a) b p q = absurd (omega arith)
digits_enough z f (suc n) (suc m) (suc a) b p q =
    omega (arith, digits_enough z f n m (suc a / 2) (b / 2) (omega arith) (omega arith))

zero-bit_and : (b : ℕ) → bit_and 0 b ≡ 0
zero-bit_and b = bit_and-bitwise 0 b

and_step : (a b : ℕ) → bit_and a b ≡ bit_and (a / 2) (b / 2) * 2 + min (a % 2) (b % 2)
and_step zero b = omega (arith, zero-bit_and b, zero-bit_and (b / 2))
and_step (suc a) b = omega (
  arith,
  bit_and-bitwise (suc a) b,
  bit_and-bitwise (suc a / 2) (b / 2),
  digits_enough (λ b. 0) min a (suc a / 2) (suc a / 2) (b / 2) (omega arith) (omega arith),
)

and-zero_within : (n a : ℕ) → a ≤ n → bit_and a 0 ≡ 0
and-zero_within n zero h = zero-bit_and 0
and-zero_within zero (suc a) h = absurd (omega arith)
and-zero_within (suc n) (suc a) h =
    omega (arith, and_step (suc a) 0, and-zero_within n (suc a / 2) (omega arith))

pub pow_pos : (k : ℕ) → 0 < 2 ^ k
pow_pos zero = omega arith
pow_pos (suc k) = omega (arith, pow_pos k)

mod_double : (a m : ℕ) → 0 < m → (a / 2 % m) * 2 + a % 2 ≡ a % (2 * m)
mod_double a m h =
    let q = a / 2 / m in
    let r = a / 2 % m in
    let split : a ≡ 2 * m * q + (r * 2 + a % 2) = omega (arith, Nat.div-add-mod (a / 2) m) in
    let small : r * 2 + a % 2 < 2 * m = omega (arith, Nat.mod-lt (a / 2) h) in
    sym (
      ap (λ n. n % (2 * m)) split
      ∙ Nat.mul-add-mod_self_left (2 * m) q (r * 2 + a % 2)
      ∙ Nat.mod-eq_of_lt small)

-- A mask of k ones takes the remainder by 2 ^ k.
pub bit_and-mask : (k a : ℕ) → bit_and a (2 ^ k - 1) ≡ a % 2 ^ k
bit_and-mask zero a = and-zero_within a a (omega arith) ∙ omega arith
bit_and-mask (suc k) a =
    let half : (2 ^ suc k - 1) / 2 ≡ 2 ^ k - 1 = omega (arith, pow_pos k) in
    let low : (2 ^ suc k - 1) % 2 ≡ 1 = omega (arith, pow_pos k) in
    and_step a (2 ^ suc k - 1)
    ∙ rw (half, low, bit_and-mask k (a / 2), Nat.pow-succ')
        (omega (arith, mod_double a (2 ^ k) (pow_pos k)))
