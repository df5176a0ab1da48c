-- ===== src/Engine/Capacity.antt =====
-- A number of slots, those free, and the tasks that run: what waiting, posting, launching and erasing do
-- to them, for each type of task.
use colossal.Prelude.{
  ℕ, suc, ◌+◌, ◌≤◌, ◌≡◌, inl, inr, Bool, true, List, [], ◌∷◌, Bool-cases, length, arith, bit,
}
use colossal.Prelude.Int.{ℤ, pos, ◌+ℤ◌, ◌-ℤ◌, pos_part, neg_part, ltb_ℤ, int_laws}
use colossal.Select.Make.{occurs}
use colossal.Engine.{erase_first}

-- A test of two tasks for the same key.
pub record IsSameKey (eq : ℕ → ℕ → Bool) : Type 0 where
  pub itself : (t : ℕ) → eq t t ≡ true
  pub respects : (t x u : ℕ) → eq t x ≡ true → eq u x ≡ eq u t

-- Of each key there are at least as many entries in `running` as in `ts`.
abbrev pub Covers : (ℕ → ℕ → Bool) → List ℕ → List ℕ → Type 0
Covers eq running ts = (u : ℕ) → occurs (eq u) ts ≤ occurs (eq u) running

length-erase_first :
    (p : ℕ → Bool) (xs : List ℕ) → 1 ≤ occurs p xs → suc (length (erase_first p xs)) ≡ length xs
unfolding erase_first
length-erase_first p [] h = absurd (omega (arith, h))
length-erase_first p (x ∷ xs) h = elim (Bool-cases (p x)) [
  | inl e ↦ rw (erase_first, e) omega arith
  | inr e ↦ rw (erase_first, e) (omega (arith, length-erase_first p xs (ground (arith, h, e))))
]

module _ (eq : ℕ → ℕ → Bool) (key : IsSameKey eq) where
  occurs-erase_first :
      (t u : ℕ) (xs : List ℕ)
      → 1 ≤ occurs (eq t) xs
      → occurs (eq u) (erase_first (eq t) xs) + bit (eq u t) ≡ occurs (eq u) xs
  unfolding erase_first
  occurs-erase_first t u [] h = absurd (omega (arith, h))
  occurs-erase_first t u (x ∷ xs) h = elim (Bool-cases (eq t x)) [
    | inl e ↦ rw (erase_first, e, key.respects t x u e) omega arith
    | inr e ↦ rw (erase_first, e) (omega (arith, occurs-erase_first t u xs (ground (arith, h, e))))
  ]

  pub first-Covers :
      (t : ℕ) (running ts : List ℕ) → Covers eq running (t ∷ ts) → 1 ≤ occurs (eq t) running
  first-Covers t running ts c = ground (arith, c t, key.itself t)

  pub rest-Covers :
      (t : ℕ) (running ts : List ℕ) → Covers eq running (t ∷ ts) → Covers eq running ts
  rest-Covers t running ts c u = omega (arith, c u)

  pub erase_first-Covers :
      (t : ℕ) (running ts : List ℕ)
      → Covers eq running (t ∷ ts)
      → Covers eq (erase_first (eq t) running) ts
  erase_first-Covers t running ts c u =
      omega (arith, c u, occurs-erase_first t u running (first-Covers t running ts c))

-- Of the slots so many are free, a task runs in others, and `n` more are about to be given back.
pub record Fits (n : ℕ) (val : ℤ) (running : List ℕ) (slots : ℤ) : Type 0 where
  pub natural : neg_part val ≡ 0
  pub room : pos_part val + length running + n ≤ pos_part slots

module _ (n : ℕ) (val : ℤ) (running : List ℕ) (slots : ℤ) where
  pub take_slot :
      ltb_ℤ (pos 0) val ≡ true
      → Fits n val running slots
      → Fits (suc n) (val -ℤ pos 1) running slots
  take_slot g h = record {
    natural = grind (int_laws, h.natural, g);
    room = grind (int_laws, h.natural, h.room, g);
  }

  pub give_back : Fits (suc n) val running slots → Fits n (val +ℤ pos 1) running slots
  give_back h = record {
    natural = grind (int_laws, h.natural);
    room = grind (int_laws, h.natural, h.room);
  }

  pub lose_slot : Fits (suc n) val running slots → Fits n val running slots
  lose_slot h = record { natural = h.natural; room = omega (arith, h.room) }

  pub launch-Fits : (t : ℕ) → Fits (suc n) val running slots → Fits n val (t ∷ running) slots
  launch-Fits t h = record { natural = h.natural; room = omega (arith, h.room) }

  pub erase-Fits :
      (p : ℕ → Bool)
      → 1 ≤ occurs p running
      → Fits n val running slots
      → Fits (suc n) val (erase_first p running) slots
  erase-Fits p e h = record {
    natural = h.natural;
    room = omega (arith, h.room, length-erase_first p running e);
  }
