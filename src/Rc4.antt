-- ===== src/Rc4.antt =====
-- ulib/src/base/crypt_rc4.c: the cipher RC4. A buffer is the list of its bytes; the 256 bytes of the
-- key state are a C array, and bytes wrap around at 256.
pub mod Permutation
mod Tests
use mathlib.Core.Option
use colossal.Prelude.{
  ℕ, zero, suc, ◌+◌, ◌-◌, ◌%◌, Option, none, some, List, [], ◌∷◌, length, get_elem?, write,
}
use Prim.Native.Nat.{bit_and, bit_xor}

-- rc4_ks_t
pub record Ks : Type 0 where
  state : ℕ → ℕ
  x : ℕ
  y : ℕ

-- _swap of two entries
abbrev pub swap : (ℕ → ℕ) → ℕ → ℕ → ℕ → ℕ
swap base i j = write (write base i (base j)) j (base i)

-- The first loop of rc4_setks, on the rounds to go.
pub identity_loop : ℕ → ℕ → (ℕ → ℕ) → ℕ → ℕ
identity_loop zero i state = state
identity_loop (suc n) i state = identity_loop n (i + 1) (write state i i)

-- The second one, none standing for a read of the key behind its end.
pub mix_loop : List ℕ → ℕ → ℕ → ℕ → (ℕ → ℕ) → Option (ℕ → ℕ)
mix_loop buf zero i j state = some state
mix_loop buf (suc n) i j state = elim (get_elem? buf (i % length buf)) [
  | none ↦ none
  | some b ↦ let j' = (j + state i + b) % 256 in mix_loop buf n (i + 1) j' (swap state i j')
]

-- rc4_setks, on what the memory of the key state held; none for the division by the length zero
unfoldable pub rc4_setks : List ℕ → Ks → Option Ks
unfolding mix_loop
rc4_setks [] ks = none
rc4_setks (b ∷ buf) ks =
    Option.map (λ state. record { state = state; x = 0; y = 0 })
      (mix_loop (b ∷ buf) 256 0 0 (identity_loop 256 0 ks.state))

-- One round of rc4_crypt: the key state after it, and the byte of the key stream.
abbrev pub next_state : Ks → Ks
next_state ks =
    let x = (ks.x + 1) % 256 in
    let y = (ks.y + ks.state x) % 256 in record { state = swap ks.state x y; x = x; y = y }

abbrev pub key_byte : Ks → ℕ
key_byte ks = ks.state (bit_and (ks.state ks.x + ks.state ks.y) 0xff)

-- rc4_crypt: the buffer and the key state
unfoldable pub rc4_crypt : List ℕ → Ks → List ℕ × Ks
rc4_crypt [] ks = ([], ks)
rc4_crypt (b ∷ buf) ks =
    let ks' = next_state ks in
    let (out, end) = rc4_crypt buf ks' in (bit_xor b (key_byte ks') ∷ out, end)
