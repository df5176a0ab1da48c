-- ===== src/Vsem/Slots.antt =====
-- The slots that a semaphore hands out: how many are held, and who waits.
use colossal.Prelude.{ℕ, suc, ◌+◌, ◌<◌, ◌≡◌, refl, ap, List, [], ◌∷◌, arith, bit, length}
use colossal.Prelude.Int.{pos, ◌+ℤ◌, ◌-ℤ◌, pos_part, neg_part, int_laws}
use colossal.State.{Vsem}
use colossal.Vsem.{wait, post_first, post}

module _ {ℓ} {A : Type ℓ} where
  -- The call of the waiter in vsem::post, which waits again: the slots it takes, and the semaphore.
  abbrev pub wake : List A × Vsem A → ℕ × Vsem A
  wake ([], s) = (0, s)
  wake (obj ∷ objs, s) = let (acquired, s') = wait obj s in (bit acquired, s')

  -- The semaphores that waits and posts lead to from `total` free slots, with the number of slots
  -- held. Only a holder posts.
  pub data Reachable (total : ℕ) : ℕ → Vsem A → Type ℓ where
    start : Reachable total 0 (record { val = pos total; wlist = [] })
    waits :
        {held : ℕ} {s : Vsem A}
        → Reachable total held s
        → (obj : A) → Reachable total (held + bit (wait obj s).0) (wait obj s).1
    posts :
        {held : ℕ} {s : Vsem A}
        → Reachable total (suc held) s
        → Reachable total (held + (wake (post s)).0) (wake (post s)).1

  -- Every slot is free or held, and something waits only while all are held.
  pub record IsSound (total held : ℕ) (s : Vsem A) : Type 0 where
    pub free : pos_part s.val + held ≡ total
    pub natural : neg_part s.val ≡ 0
    pub busy : 0 < length s.wlist → held ≡ total

  wait-IsSound :
      (total held : ℕ) (s : Vsem A) (obj : A)
      → IsSound total held s
      → IsSound total (held + bit (wait obj s).0) (wait obj s).1
  unfolding wait
  wait-IsSound total held s obj h = record {
    free = grind (int_laws, h.free, h.natural);
    natural = grind (int_laws, h.free, h.natural);
    busy = λ p. grind (int_laws, h.free, h.natural, h.busy);
  }

  post_first-IsSound :
      (total held : ℕ) (s : Vsem A) (waiters : List A)
      → s.wlist ≡ waiters
      → IsSound total (suc held) s
      → IsSound total (held + (wake (post_first waiters s)).0) (wake (post_first waiters s)).1
  unfolding post_first wait ◌+ℤ◌ ◌-ℤ◌
  post_first-IsSound total held s [] e h = record {
    free = grind (int_laws, h.free, h.natural);
    natural = grind (int_laws, h.free, h.natural);
    busy = λ p. absurd (ground (arith, ap length e));
  }
  post_first-IsSound total held s (obj ∷ rest) e h =
      let full : suc held ≡ total = h.busy (ground (arith, ap length e)) in
      let none_free : s.val ≡ pos 0 = ground (arith, h.free, h.natural) in
      rw none_free (record { free = omega arith; natural = refl; busy = λ p. omega arith })

  -- At every moment that waits and posts lead to from `total` free slots, as many slots are free as
  -- are not held, and none is free while something waits: a slot is neither lost nor left idle.
  pub Reachable-IsSound :
      (total held : ℕ) (s : Vsem A) → Reachable total held s → IsSound total held s
  unfolding post
  Reachable-IsSound total held s Reachable.start = record {
    free = omega arith;
    natural = refl;
    busy = λ p. absurd (omega arith);
  }
  Reachable-IsSound total held s (Reachable.waits r obj) =
      wait-IsSound total _ _ obj (Reachable-IsSound total _ _ r)
  Reachable-IsSound total held s (Reachable.posts {s = s'} r) =
      post_first-IsSound total _ s' s'.wlist refl (Reachable-IsSound total _ _ r)

module _ {ℓ} {A : Type ℓ} where
  val-post_first : (waiters : List A) (s : Vsem A) → (post_first waiters s).1.val ≡ s.val +ℤ pos 1
  unfolding post_first
  val-post_first [] s = refl
  val-post_first (obj ∷ rest) s = refl

  pub val-post : (s : Vsem A) → (post s).1.val ≡ s.val +ℤ pos 1
  unfolding post
  val-post s = val-post_first s.wlist s
