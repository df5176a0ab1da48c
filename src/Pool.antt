-- ===== src/Pool.antt =====
-- colossal/src/pool.cpp: when a pool is starved, and its transitions between normal and starved.
-- The functions for maps and for reduces differ in the fields alone, which a task type selects.
pub mod Starved
mod Tests
use colossal.Prelude.{ℕ, zero, suc, Bool, true, false, ◌&&◌, ◌||◌, not, if◌then◌else◌}
use colossal.Prelude.Int.{ℤ, pos, negsuc, ◌-ℤ◌, min_ℤ, ltb_ℤ}
use colossal.Double.{Double}
use colossal.State.{
  TaskType, map, reduce, get, put, Pool, PoolSide, Engine, Event, ev_preempt, pool_ctx, upd_pool,
}
use colossal.Fsched.{FsContext}
use colossal.Queue.{add_event}

module _ {ℓ} {D : Type ℓ} ⦃d : Double D⦄ where
  open d use {of_int, to_int, lt, le, add, sub, div}

  -- `last < 0 || now - last < timeout`
  abbrev pub in_time : D → D → D → Bool
  in_time last now timeout = lt last (of_int (pos 0)) || lt (sub now last) timeout

  -- `std::min(demand, (int)minshare)`
  abbrev pub wanted : FsContext D → ℤ
  wanted c = min_ℤ c.demand (to_int c.minshare)

  -- `(int)(fairshare / 2.0)`
  abbrev pub half_share : FsContext D → ℤ
  half_share c = to_int (div c.fairshare (of_int (pos 2)))

  -- `below_ms` and `below_hf`
  abbrev pub below_ms : FsContext D → Bool
  below_ms c = ltb_ℤ c.alloc (wanted c)

  abbrev pub below_hf : FsContext D → Bool
  below_hf c = ltb_ℤ c.alloc (half_share c)

  -- starved_for_map_minshare and starved_for_reduce_minshare
  unfoldable pub starved_minshare : TaskType → Pool D → D → ℤ
  starved_minshare k p now =
      let s = get k p.sides in
      let need = wanted s.fs_ctx -ℤ s.fs_ctx.alloc in
      if in_time s.last_at_ms now p.ms_timeout
      then pos 0
      else if ltb_ℤ (pos 0) need
      then need
      else pos 0

  -- starved_for_map_halffairshare and starved_for_reduce_halffairshare
  unfoldable pub starved_halffairshare : TaskType → Pool D → D → ℤ
  starved_halffairshare k p now =
      let s = get k p.sides in
      if in_time s.last_at_hf now p.hf_timeout
      then pos 0
      else if below_hf s.fs_ctx
      then to_int (sub s.fs_ctx.fairshare (of_int s.fs_ctx.alloc))
      else pos 0

  pub set_ms : TaskType → D → Pool D → Pool D
  set_ms k t p = record p { sides = put k (record (get k p.sides) { last_at_ms = t }) p.sides }

  pub set_hf : TaskType → D → Pool D → Pool D
  set_hf k t p = record p { sides = put k (record (get k p.sides) { last_at_hf = t }) p.sides }

  -- The first `if` of map_transit_n2s, with the tests of the function's head.
  unfoldable pub check_ms : TaskType → ℕ → Bool → Engine D → Engine D
  unfolding set_ms add_event
  check_ms k i below e =
      let p = e.pools i in
      if le (of_int (pos 0)) p.ms_timeout && lt (get k p.sides).last_at_ms (of_int (pos 0)) && below
      then add_event (ev_preempt k (add e.time_now p.ms_timeout) i)
          (upd_pool i (set_ms k e.time_now) e)
      else e

  -- The second one.
  unfoldable pub check_hf : TaskType → ℕ → Bool → Engine D → Engine D
  unfolding set_hf add_event
  check_hf k i below e =
      let p = e.pools i in
      if le (of_int (pos 0)) p.hf_timeout && lt (get k p.sides).last_at_hf (of_int (pos 0)) && below
      then add_event (ev_preempt k (add e.time_now p.hf_timeout) i)
          (upd_pool i (set_hf k e.time_now) e)
      else e

  -- map_transit_n2s and reduce_transit_n2s
  unfoldable pub transit_n2s : TaskType → ℕ → Engine D → Engine D
  unfolding check_ms check_hf
  transit_n2s k i e =
      let c = pool_ctx k (e.pools i) in check_hf k i (below_hf c) (check_ms k i (below_ms c) e)

  -- map_transit_s2n and reduce_transit_s2n
  unfoldable pub transit_s2n : TaskType → Pool D → Pool D
  unfolding set_ms set_hf
  transit_s2n k p =
      let c = pool_ctx k p in
      let q = if below_ms c then p else set_ms k (of_int (negsuc 0)) p in
      if below_hf c then q else set_hf k (of_int (negsuc 0)) q

  -- The members of the class, for each type of task.
  abbrev pub starved_for_map_minshare : Pool D → D → ℤ
  starved_for_map_minshare = starved_minshare map

  abbrev pub starved_for_reduce_minshare : Pool D → D → ℤ
  starved_for_reduce_minshare = starved_minshare reduce

  abbrev pub starved_for_map_halffairshare : Pool D → D → ℤ
  starved_for_map_halffairshare = starved_halffairshare map

  abbrev pub starved_for_reduce_halffairshare : Pool D → D → ℤ
  starved_for_reduce_halffairshare = starved_halffairshare reduce

  abbrev pub map_transit_n2s : ℕ → Engine D → Engine D
  map_transit_n2s = transit_n2s map

  abbrev pub reduce_transit_n2s : ℕ → Engine D → Engine D
  reduce_transit_n2s = transit_n2s reduce

  abbrev pub map_transit_s2n : Pool D → Pool D
  map_transit_s2n = transit_s2n map

  abbrev pub reduce_transit_s2n : Pool D → Pool D
  reduce_transit_s2n = transit_s2n reduce
