-- ===== src/Vsem.antt =====
-- colossal/src/vsem.hpp: a counting semaphore in simulated time. A waiter is not blocked but queued,
-- and post hands the slot on by calling it.
pub mod Slots
mod Tests
use colossal.Prelude.{ℕ, Bool, true, false, List, [], ◌∷◌, ◌++◌, if◌then◌else◌}
use colossal.Prelude.Int.{ℤ, pos, ◌+ℤ◌, ◌-ℤ◌, ltb_ℤ}
use colossal.State.{Vsem}

module _ {ℓ} {A : Type ℓ} where
  -- vsem::wait
  unfoldable pub wait : A → Vsem A → Bool × Vsem A
  wait obj s =
      if ltb_ℤ (pos 0) s.val
      then (true, record s { val = s.val -ℤ pos 1 })
      else (false, record s { wlist = s.wlist ++ obj ∷ [] })

  pub post_first : List A → Vsem A → List A × Vsem A
  post_first [] s = ([], record s { val = s.val +ℤ pos 1 })
  post_first (obj ∷ rest) s = (obj ∷ [], record s { val = s.val +ℤ pos 1; wlist = rest })

  -- vsem::post, before the call of the waiter: the waiter, if there is one, and the semaphore
  unfoldable pub post : Vsem A → List A × Vsem A
  unfolding post_first
  post s = post_first s.wlist s
