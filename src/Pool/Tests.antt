-- ===== src/Pool/Tests.antt =====
-- The theorems on the marks of a pool, at a pool that is below its min share.
use colossal.Prelude.{◌≡◌, refl, ◌&&◌, not}
use colossal.Prelude.Int.{ℤ, pos, ltb_ℤ, ◌-ℤ◌}
use colossal.Double.{fixed_double}
use colossal.State.{Pool, Engine, pool_ctx, get}
use colossal.State
use colossal.Pool.{below_ms, starved_minshare, transit_n2s, transit_s2n}
use colossal.Pool.Starved.{IsMarked, transit, transit-IsMarked, starved_minshare-IsMarked}
use colossal.Sample.{sample, the_pool, no_marks, idle, units}

abbrev starving : Pool ℤ
starving = record the_pool {
  sides = record the_pool.sides {
    of_map = record no_marks { fs_ctx = record (idle 0) { demand = pos 3; fairshare = units 2 } };
  };
}

abbrev engine : Engine ℤ
engine = record sample { pools = λ p. starving; time_now = units 2 }

abbrev marked : Pool ℤ
marked = (transit State.map 0 engine).pools 0

starved_later : starved_minshare State.map marked (units 7) ≡ pos 1
unfolding starved_minshare transit_n2s transit_s2n ◌-ℤ◌
starved_later = refl

transit-IsMarked_example : IsMarked State.map ((transit State.map 0 engine).pools 0)
transit-IsMarked_example = transit-IsMarked refl State.map 0 engine refl

starved_minshare-IsMarked_example : ltb_ℤ (pos 0) (starved_minshare State.map marked (units 7)) ≡ (
    below_ms (pool_ctx State.map marked)
    && not (
        ltb_ℤ
          (fixed_double.sub (units 7) (get State.map marked.sides).last_at_ms)
          marked.ms_timeout))
unfolding transit_n2s transit_s2n
starved_minshare-IsMarked_example =
    starved_minshare-IsMarked State.map marked (units 7) refl
      (transit-IsMarked refl State.map 0 engine refl)
