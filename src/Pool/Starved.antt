-- ===== src/Pool/Starved.antt =====
-- The marks of a pool: since when it is below its min share, and below half of its fair share.
use colossal.Prelude.{ℕ, ◌≡◌, Bool, true, false, ◌&&◌, not, if◌then◌else◌, arith}
use colossal.Prelude.Int.{pos, negsuc, ltb_ℤ, int_laws}
use colossal.Double.{Double}
use colossal.Queue.{add_event}
use colossal.State.{TaskType, reduce, get, put, Pool, PoolSide, Engine, pool_ctx, upd_pool}
use colossal.State
use colossal.Pool.{
  below_ms, below_hf, starved_minshare, set_ms, set_hf, check_ms, check_hf, transit_n2s,
  transit_s2n,
}

module _ {ℓ} {D : Type ℓ} ⦃d : Double D⦄ where
  open d use {of_int, to_int, lt, le, sub}

  -- A mark: a time from 0 on while the pool is below, negative while it is not. A negative timeout
  -- turns the marks off.
  pub record IsMark (timeout last : D) (below : Bool) : Type 0 where
    pub on : le (of_int (pos 0)) timeout ≡ true → below ≡ true → lt last (of_int (pos 0)) ≡ false
    pub off : below ≡ false → lt last (of_int (pos 0)) ≡ true

  pub record IsMarked (k : TaskType) (p : Pool D) : Type 0 where
    pub ms : IsMark p.ms_timeout (get k p.sides).last_at_ms (below_ms (pool_ctx k p))
    pub hf : IsMark p.hf_timeout (get k p.sides).last_at_hf (below_hf (pool_ctx k p))

  -- Both transitions, one after the other.
  abbrev pub transit : TaskType → ℕ → Engine D → Engine D
  transit k i e = upd_pool i (transit_s2n k) (transit_n2s k i e)

  -- What the two transitions do to a mark.
  abbrev mark : D → Bool → D → D → D
  mark timeout below now last =
      let m =
        if le (of_int (pos 0)) timeout && lt last (of_int (pos 0)) && below then now else last in
      if below then m else of_int (negsuc 0)

  module _ (minus_one : lt (of_int (negsuc 0)) (of_int (pos 0)) ≡ true) where
    mark-IsMark :
        (timeout : D) (below : Bool) (now last : D)
        → lt now (of_int (pos 0)) ≡ false
        → IsMark timeout (mark timeout below now last) below
    mark-IsMark timeout below now last h = record {
      on = λ p q. ground arith;
      off = λ p. ground arith;
    }

  -- The sides of the pool after them.
  transit_sides :
      (k : TaskType) (i : ℕ) (e : Engine D)
      → let p = e.pools i in
        let s = get k p.sides in
        let q = (transit k i e).pools i in
        let s' = get k q.sides in
        (s'.fs_ctx ≡ s.fs_ctx)
        × (q.ms_timeout ≡ p.ms_timeout)
        × (q.hf_timeout ≡ p.hf_timeout)
        × (s'.last_at_ms ≡ mark p.ms_timeout (below_ms s.fs_ctx) e.time_now s.last_at_ms)
        × (s'.last_at_hf ≡ mark p.hf_timeout (below_hf s.fs_ctx) e.time_now s.last_at_hf)
  unfolding transit_n2s transit_s2n check_ms check_hf set_ms set_hf add_event
  transit_sides State.map i e =
      (ground arith, ground arith, ground arith, ground arith, ground arith)
  transit_sides reduce i e = (ground arith, ground arith, ground arith, ground arith, ground arith)

  -- If -1 is less than 0 and the clock is not negative, then after the transitions from normal to
  -- starved and back both marks of the pool are right, whatever they were.
  pub transit-IsMarked :
      lt (of_int (negsuc 0)) (of_int (pos 0)) ≡ true
      → (k : TaskType) (i : ℕ) (e : Engine D) → lt e.time_now (of_int (pos 0)) ≡ false
      → IsMarked k ((transit k i e).pools i)
  transit-IsMarked minus_one k i e started =
      let (ctx, ms_timeout, hf_timeout, ms, hf) = transit_sides k i e in
      record {
        ms = rw (ctx, ms_timeout, ms) (mark-IsMark minus_one _ _ e.time_now _ started);
        hf = rw (ctx, hf_timeout, hf) (mark-IsMark minus_one _ _ e.time_now _ started);
      }

  -- If the marks of a pool are right and its timeout for the min share is not negative, the pool is
  -- found starved exactly if it is below its min share and the timeout has passed since the mark.
  pub starved_minshare-IsMarked :
      (k : TaskType) (p : Pool D) (now : D)
      → le (of_int (pos 0)) p.ms_timeout ≡ true
      → IsMarked k p
      → ltb_ℤ (pos 0) (starved_minshare k p now)
        ≡ (below_ms (pool_ctx k p) && not (lt (sub now (get k p.sides).last_at_ms) p.ms_timeout))
  unfolding starved_minshare
  starved_minshare-IsMarked k p now enabled h = grind (int_laws, h.ms.on, h.ms.off, enabled)
