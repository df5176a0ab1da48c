-- ===== src/Vsem/Tests.antt =====
-- A semaphore of one slot: taken, waited for, and handed on.
use colossal.Prelude.{ℕ, ◌≡◌, refl, [], ◌∷◌}
use colossal.Prelude.Int.{pos, ◌+ℤ◌, ◌-ℤ◌}
use colossal.State.{Vsem}
use colossal.Vsem.{wait, post}
use colossal.Vsem.Slots.{wake, Reachable, IsSound, Reachable-IsSound}

abbrev one_slot : Vsem ℕ
one_slot = record { val = pos 1; wlist = [] }

abbrev waited : Vsem ℕ
waited = (wait 8 (wait 7 one_slot).1).1

abbrev handed_on : Vsem ℕ
handed_on = (wake (post waited)).1

waits_in_line : waited.wlist ≡ 8 ∷ []
unfolding wait ◌-ℤ◌
waits_in_line = refl

handed_on-Reachable : Reachable 1 1 handed_on
unfolding wait post ◌-ℤ◌ ◌+ℤ◌
handed_on-Reachable = Reachable.posts (Reachable.waits (Reachable.waits Reachable.start 7) 8)

Reachable-IsSound_example : IsSound 1 1 handed_on
Reachable-IsSound_example = Reachable-IsSound 1 1 handed_on handed_on-Reachable
