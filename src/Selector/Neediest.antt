-- ===== src/Selector/Neediest.antt =====
-- pop_map and pop_reduce pop the first task of the neediest job of the neediest pool.
use colossal.Prelude.{
  ℕ, ◌+◌, ◌≤◌, ◌≡◌, ◌≢◌, ◌∙◌, refl, sym, subst, ◌⊎◌, inl, inr, true, false, none, some, List, [],
  ◌∷◌, ◌==◌, ==_refl, arith, All, length, Bool-cases, if◌then◌else◌,
}
use colossal.Double.{Double}
use colossal.Heap.Order.{IsWeakOrder}
use colossal.Fsched.{FsContext}
use colossal.Select.{greater, is_met, allot}
use colossal.Select.Make.{occurs}
use colossal.Select.Pick.{IsNeediest, pick_correct}
use colossal.State.{TaskType, reduce, PerType, get, put, sched_fair, Engine, Pool, SelectorSide}
use colossal.State
use colossal.Selector.{side, set_side, pool_of, job_of}
use colossal.Selector.Tree.{lookup, modify, remove, keys}
use colossal.Prelude.Int.{eqb_ℤ}
use colossal.Selector.Taken.{one_more, IsTaken, job_taken, pool_taken, pool_taken-IsTaken}
use colossal.Selector.Pop.{fair, pool_memory, job_memory, choose, job_select, pop_from, pop}

abbrev pub Once : List ℕ → Type 0
Once us = (v : ℕ) → occurs (λ u. u == v) us ≤ 1

member_of {κ} :
    (P : ℕ → Type κ) (us : List ℕ) (u : ℕ) → 1 ≤ occurs (λ v. v == u) us → All P us → P u
member_of P [] u h a = absurd (omega arith)
member_of P (v ∷ us) u h (p, a) = elim (Bool-cases (v == u)) [
  | inl e ↦ subst P (ground arith) p
  | inr e ↦ member_of P us u (ground arith) a
]

module _ {ℓ} {D : Type ℓ} ⦃d : Double D⦄ (k : TaskType) where
  -- The users are ordered by the comparator before and after a task is given to one of them.
  pub record IsRanked (ctx : ℕ → FsContext D) : Type 0 where
    pub before : IsWeakOrder (greater fair ctx)
    pub after : (u : ℕ) → IsWeakOrder (greater fair (allot fair ctx u))

  -- A job has a task to come for each unmet demand, at least one.
  pub record HasTasks (e : Engine D) (m : List (ℕ × List ℕ)) : Type 0 where
    pub once : Once (keys m)
    pub waiting :
        (u : ℕ)
        → is_met fair (job_memory k e) u ≡ false
        → occurs (λ v. v == u) (keys m) ≡ 1
        → (t : ℕ) × (rest : List ℕ) × (lookup ◌==◌ u m ≡ some (t ∷ rest))
    pub some_job :
        (u : ℕ) × (is_met fair (job_memory k e) u ≡ false) × (occurs (λ v. v == u) (keys m) ≡ 1)

  -- What a popped task `t` is: first in the queue of the neediest job of the neediest pool.
  pub record IsNext (e : Engine D) (t : ℕ) : Type 0 where
    pub pool : ℕ
    pub job : ℕ
    pub jobs : List (ℕ × List ℕ)
    pub rest : List ℕ
    pub neediest_pool : IsNeediest fair (pool_memory k e) (keys (side k e).tree) pool
    pub of_pool : lookup ◌==◌ pool (side k e).tree ≡ some jobs
    pub neediest_job : IsNeediest fair (job_memory k e) (keys jobs) job
    pub of_job : lookup ◌==◌ job jobs ≡ some (t ∷ rest)

  -- The choice of the job, and what it finds, determine what job_select leaves.
  job_select-some :
      (e : Engine D) (key u t : ℕ) (m : List (ℕ × List ℕ)) (rest : List ℕ) (c : FsContext D)
      → (choose fair (job_memory k e) (keys m)).0 ≡ some u
      → (choose fair (job_memory k e) (keys m)).1 u ≡ c
      → lookup ◌==◌ u m ≡ some (t ∷ rest)
      → let m' = if eqb_ℤ c.alloc c.demand then remove ◌==◌ u m else modify ◌==◌ u (λ q. rest) m in
        job_select k sched_fair key m e
        ≡ some (
          t,
          set_side k
              (record (side k e) { tree = modify ◌==◌ key (λ m''. m') (side k e).tree })
              (State.upd_job (job_of e u) (State.set_job_ctx k c) e),
        )
  unfolding job_select
  job_select-some e key u t m rest c g a q = rw (g, q, a) refl

  pop_from-some :
      (e e2 : Engine D) (key t : ℕ) (m : List (ℕ × List ℕ)) (c : FsContext D)
      → (e.pools (pool_of e key)).sched ≡ sched_fair
      → lookup ◌==◌ key (side k e).tree ≡ some m
      → job_select k sched_fair key m (State.upd_pool (pool_of e key) (State.set_pool_ctx k c) e)
        ≡ some (t, e2)
      → let s = side k e2 in
        let tree = if eqb_ℤ c.alloc c.demand then remove ◌==◌ key s.tree else s.tree in
        pop_from k key c e
        ≡ some (
          some t,
          set_side k
              (record s { popped = s.popped + 1; tree = tree })
              (State.upd_desc t (λ r. record r { popped = true }) e2),
        )
  unfolding pop_from
  pop_from-some e e2 key t m c f l j =
      let fair_still : ((State.upd_pool (pool_of e key) (State.set_pool_ctx k c) e).pools
            (pool_of e key)).sched
          ≡ sched_fair =
        ground arith in
      rw (l, fair_still, j) refl

  none_left :
      {e : Engine D} {m : List (ℕ × List ℕ)}
      → HasTasks e m
      → All (λ u. is_met fair (job_memory k e) u ≡ true) (keys m)
      → true ≡ false
  none_left {e} {m} tasks met =
      let (u, unmet, member) = tasks.some_job in
      sym (member_of (λ v. is_met fair (job_memory k e) v ≡ true) (keys m) u (omega arith) met)
      ∙ unmet

  -- Each pool with an unmet demand schedules its jobs by fair shares, and has jobs with tasks.
  pub record IsStocked (e : Engine D) : Type 0 where
    pub once : Once (keys (side k e).tree)
    pub jobs_of :
        (key : ℕ)
        → is_met fair (pool_memory k e) key ≡ false
        → occurs (λ v. v == key) (keys (side k e).tree) ≡ 1
        → (m : List (ℕ × List ℕ)) × (lookup ◌==◌ key (side k e).tree ≡ some m) × HasTasks e m
    pub fair_pools : (i : ℕ) → (e.pools i).sched ≡ sched_fair

  -- If a seen task is not popped, the contexts of the pools and of the jobs are ranked by a weak
  -- order, and all pools are fair and those with an unmet demand have jobs with tasks, then pop_map
  -- and pop_reduce pop the first task of the neediest job of the neediest pool: it leaves the
  -- queue, with its job and its pool where they have all they demand, is flagged and counted, and
  -- adds one to what its job and its pool have, all else in the queue, the pools and the jobs being
  -- as before. Or they change nothing and give NULL, where no pool has an unmet demand.
  pub pop_correct :
      (e : Engine D)
      → (side k e).popped ≢ length (side k e).seen
      → IsRanked (pool_memory k e)
      → IsRanked (job_memory k e)
      → IsStocked e
      → ((pop k e ≡ some (none, e))
          × All (λ key. is_met fair (pool_memory k e) key ≡ true) (keys (side k e).tree))
        ⊎ ((t : ℕ) × (e' : Engine D) × (pop k e ≡ some (some t, e'))
            × (n : IsNext e t) × IsTaken k e n.pool n.job t n.jobs n.rest e')
  unfolding pop
  pop_correct e fresh pools jobs stocked =
      let unseen : ((side k e).popped == length (side k e).seen) ≡ false = ground arith in
      elim (pick_correct fair (pool_memory k e) (keys (side k e).tree) pools.before pools.after
        stocked.once) [
          | inl (h, after, met) ↦ rw (unseen, h) (inl (refl, met))
          | inr (key, h, after, n) ↦
              let (m, l, tasks) = stocked.jobs_of key n.unmet n.member in
              elim (pick_correct fair (job_memory k e) (keys m) jobs.before jobs.after tasks.once) [
                | inl (g, after', met) ↦ absurd (ground (arith, none_left tasks met))
                | inr (u, g, after', n') ↦
                    let (t, rest, q) = tasks.waiting u n'.unmet n'.member in
                    let mine : (choose fair (job_memory k e) (keys m)).1 u
                        ≡ one_more (job_memory k e u) =
                      rw after' (rw (==_refl u) refl) in
                    let its : (choose fair (pool_memory k e) (keys (side k e).tree)).1 key
                        ≡ one_more (pool_memory k e key) =
                      rw after (rw (==_refl key) refl) in
                    inr (
                      t,
                      pool_taken k e key u t m rest,
                      rw (unseen, h, its)
                          (pop_from-some e (job_taken k e key u t m rest) key t m
                            (one_more (pool_memory k e key)) (stocked.fair_pools (pool_of e key)) l
                            (job_select-some
                              (State.upd_pool (pool_of e key)
                                (State.set_pool_ctx k (one_more (pool_memory k e key))) e)
                              key u t m rest (one_more (job_memory k e u)) g mine q)),
                      record {
                        pool = key;
                        job = u;
                        jobs = m;
                        rest = rest;
                        neediest_pool = n;
                        of_pool = l;
                        neediest_job = n';
                        of_job = q;
                      },
                      pool_taken-IsTaken k e key u t m rest (stocked.once key) l (tasks.once u) q,
                    )
              ]
        ]
