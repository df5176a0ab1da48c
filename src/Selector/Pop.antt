-- ===== src/Selector/Pop.antt =====
-- pop_map and pop_reduce of colossal/src/selector.cpp, with the choice of the job. `none` is a
-- crash: a NULL from the choice of the job, or the front of an empty queue, is dereferenced.
use colossal.Prelude.{
  ℕ, ◌+◌, Bool, true, Option, none, some, List, [], ◌∷◌, ◌==◌, if◌then◌else◌, length,
}
use colossal.Prelude.Int.{eqb_ℤ}
use colossal.Double.{Double}
use colossal.Fsched.{FsContext}
use colossal.Prelude.{◌>>=◌}
use colossal.Fsched.Compare.{gt}
use colossal.Select
use colossal.State.{
  TaskType, SchedMode, sched_fair, sched_fcfs, Engine, pool_ctx, set_pool_ctx, job_ctx, set_job_ctx,
  upd_pool, upd_job, upd_desc,
}
use colossal.Selector.{job_later, side, set_side, pool_of, job_of}
use colossal.Selector.Tree.{lookup, modify, remove, keys}

-- The front of a queue, and the queue after pop().
abbrev pub pop_front {ℓ} : {A : Type ℓ} → List A → Option (A × List A)
pop_front [] = none
pop_front (x ∷ xs) = some (x, xs)

module _ {ℓ} {D : Type ℓ} ⦃d : Double D⦄ where
  -- The order of fs_select over pool_map_fs_itr and job_map_fs_itr.
  abbrev pub fair : ℕ → ℕ → FsContext D → FsContext D → Bool
  fair u v a b = gt a b

  -- The order of the jobs of a pool: fair, or by job_map_fcfs_itr.
  abbrev pub job_order : Engine D → SchedMode → ℕ → ℕ → FsContext D → FsContext D → Bool
  job_order e sched_fair u v a b = gt a b
  job_order e sched_fcfs u v a b = job_later (e.jobs (job_of e u)) (e.jobs (job_of e v))

  abbrev pub pool_memory : TaskType → Engine D → ℕ → FsContext D
  pool_memory k e u = pool_ctx k (e.pools (pool_of e u))

  abbrev pub job_memory : TaskType → Engine D → ℕ → FsContext D
  job_memory k e u = job_ctx k (e.jobs (job_of e u))

  -- `fs_select<...> fs(begin, end)` and `fs()` over the keys of a hash map.
  abbrev pub choose :
      (ℕ → ℕ → FsContext D → FsContext D → Bool)
      → (ℕ → FsContext D)
      → List ℕ
      → Option ℕ × (ℕ → FsContext D)
  choose cmp ctx users =
      let (choice, after, s) = Select.select cmp ctx (Select.make cmp ctx users) in (choice, after)

  -- job_select_map_fs, job_select_map_fcfs and their twins for reduces: `key` is the pool's entry
  -- of the tree, and `m` its map of jobs.
  unfoldable pub job_select :
      TaskType → SchedMode → ℕ → List (ℕ × List ℕ) → Engine D → Option (ℕ × Engine D)
  unfolding Select.make Select.select lookup modify remove keys
  job_select k sched key m e =
      let (choice, after) = choose (job_order e sched) (job_memory k e) (keys m) in
      do
        u ← choice
        q ← lookup ◌==◌ u m
        (t, rest) ← pop_front q
        let c = after u
        let m' = if eqb_ℤ c.alloc c.demand then remove ◌==◌ u m else modify ◌==◌ u (λ q'. rest) m
        let s = side k e
        some (
          t,
          set_side k (record s { tree = modify ◌==◌ key (λ m''. m') s.tree })
              (upd_job (job_of e u) (set_job_ctx k c) e),
        )

  -- The rest of pop_map, once the pool is chosen.
  unfoldable pub pop_from : TaskType → ℕ → FsContext D → Engine D → Option (Option ℕ × Engine D)
  unfolding job_select
  pop_from k key c e = do
    let e1 = upd_pool (pool_of e key) (set_pool_ctx k c) e
    m ← lookup ◌==◌ key (side k e1).tree
    (t, e2) ← job_select k (e1.pools (pool_of e key)).sched key m e1
    let s = side k e2
    let tree = if eqb_ℤ c.alloc c.demand then remove ◌==◌ key s.tree else s.tree
    some (
      some t,
      set_side k (record s { popped = s.popped + 1; tree = tree })
          (upd_desc t (λ r. record r { popped = true }) e2),
    )

  -- pop_map and pop_reduce
  unfoldable pub pop : TaskType → Engine D → Option (Option ℕ × Engine D)
  unfolding pop_from
  pop k e =
      let s = side k e in
      let (choice, after) = choose fair (pool_memory k e) (keys s.tree) in
      let next : Option (Option ℕ × Engine D) = elim choice [
        | none ↦ some (none, e)
        | some key ↦ pop_from k key (after key) e
      ] in
      if s.popped == length s.seen then some (none, e) else next
