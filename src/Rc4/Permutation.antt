-- ===== src/Rc4/Permutation.antt =====
-- The key state is a permutation of the bytes at every moment.
use mathlib.Core.Option
use mathlib.Core.Option.{some-injective, none-ne-some}
use colossal.Prelude.{
  ℕ, zero, suc, ◌+◌, ◌%◌, ◌<◌, ◌≡◌, ◌↔◌, ◌∙◌, refl, sym, subst, ap, Bool, none, some, List, [], ◌∷◌,
  length, get_elem?, write, count, count-write, count-congr, SameEntries, bit, arith,
}
use colossal.Rc4.{Ks, swap, identity_loop, mix_loop, rc4_setks, rc4_crypt, next_state}

count-swap :
    (p : ℕ → Bool) (base : ℕ → ℕ) (i j n : ℕ)
    → i < n
    → j < n
    → count p (swap base i j) n ≡ count p base n
count-swap p base i j n h k =
    let w = write base i (base j) in
    let same : w j ≡ base j = ground arith in
    omega (
      arith,
      count-write p base i n (base j) h,
      count-write p w j n (base i) k,
      ap (λ b. bit (p b)) same,
    )

identity-entries :
    (n i : ℕ) (state : ℕ → ℕ)
    → ((k : ℕ) → k < i → state k ≡ k)
    → (k : ℕ) → k < i + n
    → identity_loop n i state k ≡ k
unfolding identity_loop
identity-entries zero i state h k q = h k (omega arith)
identity-entries (suc n) i state h k q =
    identity-entries n (i + 1) (write state i i) (λ m l. ground (arith, h m)) k (omega arith)

get-within : (key : List ℕ) (i : ℕ) → i < length key → (b : ℕ) × (get_elem? key i ≡ some b)
get-within [] i h = absurd (omega arith)
get-within (b ∷ key) zero h = (b, refl)
get-within (b ∷ key) (suc i) h = get-within key i (omega arith)

-- The state that the second loop leaves.
abbrev Mixes : List ℕ → ℕ → ℕ → ℕ → (ℕ → ℕ) → Type 0
Mixes buf n i j state =
    (state' : ℕ → ℕ) × (mix_loop buf n i j state ≡ some state') × SameEntries 256 state' state

mix_loop-Mixes :
    (c : ℕ) (buf : List ℕ) (n i j : ℕ) (state : ℕ → ℕ) → i + n ≡ 256 → Mixes (c ∷ buf) n i j state
unfolding mix_loop
mix_loop-Mixes c buf zero i j state e = (state, refl, λ p. refl)
mix_loop-Mixes c buf (suc n) i j state e =
    let (b, got) = get-within (c ∷ buf) (i % length (c ∷ buf)) (omega arith) in
    let next = (j + state i + b) % 256 in
    let (mixed, found, same) =
      mix_loop-Mixes c buf n (i + 1) next (swap state i next) (omega arith) in
    let swapped = λ (p : ℕ → Bool). count-swap p state i next 256 (omega arith) (omega arith) in
    (mixed, rw (mix_loop, got) found, λ p. same p ∙ swapped p)

-- The bytes of the state are those from 0 to 255, each once, and the two indices are bytes.
pub record IsKeyState (ks : Ks) : Type 0 where
  same : SameEntries 256 ks.state (λ i. i)
  x_lt : ks.x < 256
  y_lt : ks.y < 256

-- The key states that calls lead to: rc4_setks of a key that is not empty, then rc4_crypt of buffers.
pub data Reachable : Ks → Type 0 where
  start :
      {ks : Ks} (b : ℕ) (buf : List ℕ) (old : Ks) → rc4_setks (b ∷ buf) old ≡ some ks → Reachable ks
  crypt : {ks : Ks} (buf : List ℕ) → Reachable ks → Reachable (rc4_crypt buf ks).1

identity-SameEntries : (old : ℕ → ℕ) → SameEntries 256 (identity_loop 256 0 old) (λ i. i)
identity-SameEntries old p =
    count-congr p _ (λ i. i) 256 (identity-entries 256 0 old (λ k q. absurd (omega arith)))

-- rc4_setks of a key that is not empty makes a key state.
pub setks-IsKeyState :
    (b : ℕ) (buf : List ℕ) (old : Ks)
    → (ks : Ks) × (rc4_setks (b ∷ buf) old ≡ some ks) × IsKeyState ks
unfolding rc4_setks
setks-IsKeyState b buf old =
    let (mixed, e, same) =
      mix_loop-Mixes b buf 256 0 0 (identity_loop 256 0 old.state) (omega arith) in
    let made : Ks = record { state = mixed; x = 0; y = 0 } in
    (
      made,
      ap (Option.map (λ state. record { state = state; x = 0; y = 0 })) e,
      record {
        same = λ p. same p ∙ identity-SameEntries old.state p;
        x_lt = omega arith;
        y_lt = omega arith;
      },
    )

next-IsKeyState : (ks : Ks) → IsKeyState ks → IsKeyState (next_state ks)
next-IsKeyState ks k = record {
  same = λ p.
      count-swap p ks.state (next_state ks).x (next_state ks).y 256 (omega arith) (omega arith)
      ∙ k.same p;
  x_lt = omega arith;
  y_lt = omega arith;
}

crypt-IsKeyState : (buf : List ℕ) (ks : Ks) → IsKeyState ks → IsKeyState (rc4_crypt buf ks).1
unfolding rc4_crypt
crypt-IsKeyState [] ks k = k
crypt-IsKeyState (b ∷ buf) ks k = crypt-IsKeyState buf (next_state ks) (next-IsKeyState ks k)

-- The key states that calls lead to hold the bytes from 0 to 255, each once, and their indices are
-- bytes.
pub Reachable-IsKeyState : (ks : Ks) → Reachable ks → IsKeyState ks
Reachable-IsKeyState ks (Reachable.start b buf old e) =
    let (made, f, k) = setks-IsKeyState b buf old in
    subst IsKeyState (some-injective _ _ (sym f ∙ e)) k
Reachable-IsKeyState ks (Reachable.crypt {ks = before} buf r) =
    crypt-IsKeyState buf before (Reachable-IsKeyState before r)

-- rc4_setks fails for the empty key and for no other: it divides by no zero and reads the key only up
-- to its end.
rc4_setks-none : (key : List ℕ) (old : Ks) → (rc4_setks key old ≡ none) ↔ (key ≡ [])
unfolding rc4_setks
rc4_setks-none [] old = (λ e. refl, λ e. refl)
rc4_setks-none (b ∷ key) old =
    let (ks, e, k) = setks-IsKeyState b key old in
    (λ f. absurd (none-ne-some ks (sym f ∙ e)), λ f. absurd (ground arith))
