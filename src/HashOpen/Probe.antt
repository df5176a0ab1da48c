-- ===== src/HashOpen/Probe.antt =====
-- Triangular probing: the steps of a search reach every bucket, and come back to the first one only
-- after all of them.
use native.Mathlib.Nat
use native.Mathlib.Numerals.{add-one}
use Prim.Native.Nat.{bit_and}
use colossal.Prelude.{
  ℕ, zero, suc, ◌+◌, ◌-◌, ◌*◌, ◌/◌, ◌%◌, ◌^◌, ◌≤◌, ◌<◌, ◌≡◌, ◌≢◌, ◌∙◌, refl, sym, ap, subst, inl,
  inr, arith, Bool-cases, ◌==◌, ltb,
}
use colossal.Prelude.Bits.{pow_pos, bit_and-mask}
use colossal.HashOpen.{next}

abbrev pub tri : ℕ → ℕ
tri zero = 0
tri (suc s) = tri s + suc s

-- The bucket of a step, from the hash of the key on.
abbrev pub slot : ℕ → ℕ → ℕ → ℕ
slot n hash s = (hash + tri s) % n

tri-twice : (s : ℕ) → 2 * tri s ≡ s * suc s
tri-twice zero = refl
tri-twice (suc s) = omega (arith, tri-twice s)

tri-add : (s r : ℕ) → tri (s + r) ≡ tri s + r * s + tri r
tri-add s r = omega (arith, tri-twice (s + r), tri-twice s, tri-twice r)

tri-suc : (s : ℕ) → tri (s + 1) ≡ tri s + (s + 1)
tri-suc s = omega (arith, tri-add s 1)

tri_odd : (t : ℕ) → tri (2 * t + 1) ≡ (2 * t + 1) * (t + 1)
tri_odd t = omega (arith, tri-twice (2 * t + 1))

-- One step of the search.
pub next-slot :
    (k hash s : ℕ) → next (2 ^ k - 1) (slot (2 ^ k) hash s) (s + 1) ≡ slot (2 ^ k) hash (s + 1)
next-slot k hash s =
    let n = 2 ^ k in
    let sum : hash + tri s + (s + 1) ≡ hash + tri (s + 1) = omega (arith, tri-suc s) in
    bit_and-mask k (slot n hash s + (s + 1))
    ∙ Nat.mod-add-mod (hash + tri s) n (s + 1)
    ∙ ap (λ x. x % n) sum

rem_of : (n u x y : ℕ) → x ≡ n * u + y → y < n → x % n ≡ y
rem_of n u x y e h = ap (λ z. z % n) e ∙ Nat.mul-add-mod_self_left n u y ∙ Nat.mod-eq_of_lt h

mod_high : (d m : ℕ) → m ≤ d → d < 2 * m → d % m + m ≡ d
mod_high d m h l =
    let r : d % m ≡ d - m = rem_of m 1 d (d - m) (omega arith) (omega arith) in omega arith

-- The step that lies as far from the end as `s` from the beginning.
mirror : (m s : ℕ) → s < m → let t = m - 1 - s in tri (s + (2 * t + 1)) ≡ tri s + m + 2 * m * t
mirror m s h =
    let t = m - 1 - s in
    let e : m ≡ s + t + 1 = omega arith in
    omega (arith, tri-add s (2 * t + 1), tri_odd t, ap (λ x. x + 2 * x * t) e)

-- A step below n reaches the bucket at a distance from the first one.
abbrev Reaches : ℕ → ℕ → Type 0
Reaches n d = (s : ℕ) × (s < n) × (tri s % n ≡ d)

-- Where the remainder by half of the buckets is right, this step or its mirror image is.
reach_double : (m d s : ℕ) → d < 2 * m → s < m → tri s % m ≡ d % m → Reaches (2 * m) d
reach_double m d s h l e =
    let u = tri s / m / 2 in
    let t = m - 1 - s in
    let far : tri (s + (2 * t + 1)) ≡ tri s + m + 2 * m * t = mirror m s l in
    let here : tri s ≡ m * (tri s / m) + d % m = omega (arith, Nat.div-add-mod (tri s) m) in
    let near : tri s ≡ 2 * m * u + d → Reaches (2 * m) d =
      λ y. (s, omega arith, rem_of (2 * m) u (tri s) d y h) in
    let other : (v : ℕ) → tri (s + (2 * t + 1)) ≡ 2 * m * v + d → Reaches (2 * m) d =
      λ v y. (s + (2 * t + 1), omega arith, rem_of (2 * m) v _ d y h) in
    elim (Bool-cases (tri s / m % 2 == 0)) [
      | inl even ↦
          let halves : tri s / m ≡ 2 * u = ground arith in
          let twice : m * (tri s / m) ≡ 2 * m * u = omega (arith, ap (λ x. m * x) halves) in
          elim (Bool-cases (ltb d m)) [
            | inl low ↦ near (omega (arith, Nat.mod-eq_of_lt {n = d} {m = m} (ground arith)))
            | inr high ↦ other (u + t) (omega (arith, mod_high d m (ground arith) h))
          ]
      | inr odd ↦
          let halves : tri s / m ≡ 2 * u + 1 = ground arith in
          let twice : m * (tri s / m) ≡ 2 * m * u + m = omega (arith, ap (λ x. m * x) halves) in
          elim (Bool-cases (ltb d m)) [
            | inl low ↦
                other (u + t + 1) (omega (arith, Nat.mod-eq_of_lt {n = d} {m = m} (ground arith)))
            | inr high ↦ near (omega (arith, mod_high d m (ground arith) h))
          ]
    ]

reach_zero : (k d : ℕ) → d < 2 ^ k → Reaches (2 ^ k) d
reach_zero zero d h = (0, omega arith, omega arith)
reach_zero (suc k) d h =
    let (s, l, e) = reach_zero k (d % 2 ^ k) (Nat.mod-lt d (pow_pos k)) in
    let (r, small, found) = reach_double (2 ^ k) d s (omega arith) l e in
    subst (λ n. Reaches n d) (sym (Nat.pow-succ' 2 k)) (r, small, found)

-- The search reaches every bucket in fewer steps than there are buckets.
pub slot-reaches : (k hash i : ℕ) → i < 2 ^ k → (s : ℕ) × (s < 2 ^ k) × (slot (2 ^ k) hash s ≡ i)
slot-reaches k hash i h =
    let n = 2 ^ k in
    let r = hash % n in
    let small : r < n = Nat.mod-lt hash (pow_pos k) in
    let (s, l, e) = reach_zero k ((i + (n - r)) % n) (Nat.mod-lt _ (pow_pos k)) in
    let back : r + (i + (n - r)) ≡ n * 1 + i = omega arith in
    (
      s,
      l,
      Nat.add-mod hash (tri s) n
          ∙ ap (λ x. (r + x) % n) e
          ∙ Nat.add-mod-mod r (i + (n - r)) n
          ∙ rem_of n 1 _ i back h,
    )

pow_double : (j c : ℕ) → 2 ^ suc j * c ≡ 2 * (2 ^ j * c)
pow_double j c = omega (arith, ap (λ z. z * c) (Nat.pow-succ' 2 j))

-- An odd factor holds no power of two.
odd_factor : (j x y c : ℕ) → x % 2 ≡ 1 → x * y ≡ 2 ^ j * c → (e : ℕ) × (y ≡ 2 ^ j * e)
odd_factor zero x y c o h = (y, omega arith)
odd_factor (suc j) x y c o h =
    let u = x / 2 in
    let odd : x * y ≡ (2 * u + 1) * y = ap (λ z. z * y) (omega arith) in
    let even : y ≡ 2 * (y / 2) = omega (arith, pow_double j c) in
    let part : x * y ≡ x * (2 * (y / 2)) = ap (λ z. x * z) even in
    let (e, f) = odd_factor j x (y / 2) c o (omega (arith, pow_double j c)) in
    (e, omega (arith, pow_double j e))

multiple_le : (n y e : ℕ) → y ≡ n * e → 0 < y → n ≤ y
multiple_le n y zero h p = absurd (omega arith)
multiple_le n y (suc e) h p = omega arith

-- No triangular number but the first one is a multiple of 2 ^ k before step 2 ^ k.
tri_multiple : (k s c : ℕ) → 0 < s → s < 2 ^ k → tri s ≢ 2 ^ k * c
tri_multiple k s c p h e =
    let twice : s * suc s ≡ 2 ^ suc k * c = omega (arith, tri-twice s, pow_double k c) in
    let pow = Nat.pow-succ' 2 k in
    elim (Bool-cases (s % 2 == 0)) [
      | inl even ↦
          let (m, f) = odd_factor (suc k) (suc s) s c (ground arith) (omega arith) in
          omega (arith, pow, multiple_le (2 ^ suc k) s m f p)
      | inr odd ↦
          let (m, f) = odd_factor (suc k) s (suc s) c (ground arith) twice in
          omega (arith, pow, multiple_le (2 ^ suc k) (suc s) m f (omega arith))
    ]

-- The search does not come back to its first bucket within that many steps.
pub slot-returns : (k hash s : ℕ) → 0 < s → s < 2 ^ k → slot (2 ^ k) hash s ≢ slot (2 ^ k) hash 0
slot-returns k hash s p h e =
    let n = 2 ^ k in
    let r = hash % n in
    let small : r < n = Nat.mod-lt hash (pow_pos k) in
    let rest : tri s % n < n = Nat.mod-lt (tri s) (pow_pos k) in
    let sum : (r + tri s % n) % n ≡ r =
      sym (Nat.add-mod hash (tri s) n) ∙ e ∙ ap (λ x. x % n) (omega arith) in
    elim (Bool-cases (ltb (r + tri s % n) n)) [
      | inl low ↦
          let none : tri s % n ≡ 0 =
            omega (arith, Nat.mod-eq_of_lt {n = r + tri s % n} {m = n} (ground arith)) in
          tri_multiple k s (tri s / n) p h (omega (arith, Nat.div-add-mod (tri s) n))
      | inr high ↦
          let far : n ≤ r + tri s % n = ground arith in
          let over : (r + tri s % n) % n ≡ r + tri s % n - n =
            rem_of n 1 _ _ (omega arith) (omega arith) in
          omega arith
    ]

-- The buckets that the loops of openhash_get and openhash_set come to, by the number of steps.
abbrev pub probe : ℕ → ℕ → ℕ → ℕ
probe mask hash zero = bit_and hash mask
probe mask hash (suc s) = next mask (probe mask hash s) (s + 1)

probe-slot : (k hash s : ℕ) → probe (2 ^ k - 1) hash s ≡ slot (2 ^ k) hash s
probe-slot k hash zero = bit_and-mask k hash ∙ ap (λ x. x % 2 ^ k) (omega arith)
probe-slot k hash (suc s) =
    ap (λ i. next (2 ^ k - 1) i (s + 1)) (probe-slot k hash s)
    ∙ next-slot k hash s
    ∙ ap (slot (2 ^ k) hash) (add-one s)

-- Of 2 ^ k buckets, the steps below 2 ^ k of the loops of openhash_get and openhash_set come to each
-- one, and no step between the first one and 2 ^ k comes back to the first bucket.
pub probe-covers :
    (k hash : ℕ)
    → ((i : ℕ) → i < 2 ^ k → (s : ℕ) × (s < 2 ^ k) × (probe (2 ^ k - 1) hash s ≡ i))
      × ((s : ℕ) → 0 < s → s < 2 ^ k → probe (2 ^ k - 1) hash s ≢ probe (2 ^ k - 1) hash 0)
probe-covers k hash = (
  λ i l. let (s, m, e) = slot-reaches k hash i l in (s, m, probe-slot k hash s ∙ e),
  λ s p l e. slot-returns k hash s p l (sym (probe-slot k hash s) ∙ e ∙ probe-slot k hash 0),
)
