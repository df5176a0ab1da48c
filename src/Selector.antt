-- ===== src/Selector.antt =====
-- colossal/src/selector.cpp: the tasks that are to come, the tasks that have emerged, and the choice
-- of the next one to launch, first among the pools and then among the jobs of a pool.
pub mod Tree
pub mod See
pub mod Make
pub mod Pop
pub mod Taken
pub mod Neediest
mod Tests
use colossal.Prelude.{
  ℕ, zero, suc, ◌+◌, ◌-◌, Bool, true, false, ◌&&◌, ◌||◌, not, Option, none, some, List, [], ◌∷◌,
  ◌++◌, map, ◌==◌, ltb, if◌then◌else◌, write, length,
}
use colossal.Prelude.Int.{ℤ, pos, negsuc, ◌+ℤ◌, ◌-ℤ◌, eqb_ℤ}
use colossal.Double.{Double}
use colossal.Heap
use colossal.Fsched.{FsContext}
use colossal.Prelude.{◌>>=◌}
use colossal.Fsched.Compare.{gt}
use colossal.Select
use colossal.State.{
  TaskType, reduce, PerType, get, put, TaskDesc, Job, Pool, SchedMode, sched_fair, sched_fcfs,
  SelectorSide, Engine, pool_ctx, set_pool_ctx, job_ctx, set_job_ctx, upd_pool, upd_job, upd_desc,
}
use colossal.State
use colossal.Selector.Tree.{upsert, lookup, modify, remove, keys}

abbrev pub no_tasks : SelectorSide
no_tasks = record { refs = λ i. 0; left = 0; seen = []; tree = []; popped = 0 }

module _ {ℓ} {D : Type ℓ} ⦃d : Double D⦄ where
  open d use {of_int, lt, le, sub, micro}

  abbrev pub ctime : Engine D → ℕ → D
  ctime e t = (e.descs t).task.ctime

  abbrev pub pool_of : Engine D → ℕ → ℕ
  pool_of e t = (e.descs t).pool

  abbrev pub job_of : Engine D → ℕ → ℕ
  job_of e t = (e.descs t).job

  -- ctime_comp::operator>
  abbrev pub ctime_later : Engine D → ℕ → ℕ → Bool
  ctime_later e a b = lt (ctime e b) (ctime e a)

  -- pool_view::operator== and job_view::operator==
  abbrev pub same_pool : Engine D → ℕ → ℕ → Bool
  same_pool e a b = (e.pools (pool_of e a)).id == (e.pools (pool_of e b)).id

  abbrev pub same_job : Engine D → ℕ → ℕ → Bool
  same_job e a b = (e.jobs (job_of e a)).id == (e.jobs (job_of e b)).id && same_pool e a b

  -- double_equal
  unfoldable pub double_equal : D → D → Bool
  double_equal a b = lt (sub a b) micro && lt (sub (of_int (pos 0)) micro) (sub a b)

  -- job_ctime_hash::operator>, on two jobs
  unfoldable pub job_later : Job D → Job D → Bool
  unfolding double_equal
  job_later a b =
      let wa = (job_ctx State.map a).weight in
      let wb = (job_ctx State.map b).weight in
      if double_equal a.ctime b.ctime
      then (if double_equal wa wb then ltb b.id a.id else lt wb wa)
      else lt b.ctime a.ctime

  abbrev pub side : TaskType → Engine D → SelectorSide
  side k e = get k e.selector

  abbrev pub set_side : TaskType → SelectorSide → Engine D → Engine D
  set_side k s e = record e { selector = put k s e.selector }

  -- A push_back of a reference, with its task_desc made anew.
  pub add_ref : TaskType → ℕ → ℕ → ℕ → Engine D → Engine D
  add_ref k p j t e =
      let s = side k e in
      set_side k (record s { refs = write s.refs s.left t; left = s.left + 1 })
        (upd_desc t (λ r. record r { job = j; pool = p; popped = false; preempted = false }) e)

  pub add_refs : TaskType → ℕ → ℕ → List ℕ → Engine D → Engine D
  unfolding add_ref
  add_refs k p j [] e = e
  add_refs k p j (t ∷ ts) e = add_refs k p j ts (add_ref k p j t e)

  pub add_jobs : ℕ → List ℕ → Engine D → Engine D
  unfolding add_refs
  add_jobs p [] e = e
  add_jobs p (j ∷ js) e =
      let tasks = (e.jobs j).tasks in
      add_jobs p js
        (add_refs reduce p j (get reduce tasks) (add_refs State.map p j (get State.map tasks) e))

  -- The pools from number `p` on, `n` of them.
  pub add_pools : ℕ → ℕ → Engine D → Engine D
  unfolding add_jobs
  add_pools zero p e = e
  add_pools (suc n) p e = add_pools n (p + 1) (add_jobs p (e.pools p).jobs e)

  abbrev pub heap_refs : TaskType → Engine D → Engine D
  heap_refs k e =
      let s = side k e in set_side k (record s { refs = Heap.init (ctime_later e) s.refs s.left }) e

  -- The constructor.
  unfoldable pub make_selector : Engine D → Engine D
  unfolding add_pools Heap.init
  make_selector e =
      let start = record e { selector = record { of_map = no_tasks; of_reduce = no_tasks } } in
      heap_refs reduce (heap_refs State.map (add_pools e.npools 0 start))

  -- add_preempted_map and add_preempted_reduce
  unfoldable pub add_preempted : TaskType → ℕ → Engine D → Engine D
  unfolding Heap.push
  add_preempted k t e =
      let s = side k e in
      set_side k
        (record s {
          refs = Heap.push (ctime_later e) (write s.refs s.left t) s.left 0 t;
          left = s.left + 1;
        })
        e

  -- The first task seen without the flag of a popped one.
  pub first_unpopped : Engine D → List ℕ → D
  first_unpopped e [] = of_int (negsuc 0)
  first_unpopped e (t ∷ ts) = if (e.descs t).popped then first_unpopped e ts else ctime e t

  -- map_min_ctime and reduce_min_ctime
  unfoldable pub min_ctime : TaskType → Engine D → D
  unfolding first_unpopped
  min_ctime k e =
      let s = side k e in
      if s.popped == length s.seen
      then (if s.left == 0 then of_int (negsuc 0) else ctime e (s.refs 0))
      else first_unpopped e s.seen

  -- has_map and has_reduce
  unfoldable pub has_task : TaskType → Engine D → Bool
  has_task k e = let s = side k e in not (s.left == 0) || ltb s.popped (length s.seen)

  -- The insertion of a task into the hash set of changed pools.
  pub mark_changed : Engine D → ℕ → List ℕ → List ℕ
  mark_changed e t [] = t ∷ []
  mark_changed e t (c ∷ cs) = if same_pool e c t then c ∷ cs else c ∷ mark_changed e t cs

  -- ++demand
  abbrev pub more_demand : FsContext D → FsContext D
  more_demand c = record c { demand = c.demand +ℤ pos 1 }

  -- The body of the loop of see_maps: the top moves into the task tree.
  unfoldable pub see_one : TaskType → Engine D → Engine D
  unfolding Heap.pop_to_rear
  see_one k e =
      let s = side k e in
      let top = s.refs 0 in
      let push_task = upsert (same_job e) top [] (λ q. q ++ top ∷ []) in
      let e' =
        set_side k
          (record s {
            refs = Heap.pop_to_rear (ctime_later e) s.refs s.left;
            left = s.left - 1;
            seen = s.seen ++ top ∷ [];
            tree = upsert (same_pool e) top [] push_task s.tree;
          })
          e in
      upd_job (job_of e top) (λ j. set_job_ctx k (more_demand (job_ctx k j)) j)
        (upd_pool (pool_of e top) (λ p. set_pool_ctx k (more_demand (pool_ctx k p)) p) e')

  -- The loop, with as many rounds as tasks are left; `now` is the time that has come.
  unfoldable pub see_loop : ℕ → TaskType → D → Engine D × List ℕ → Engine D × List ℕ
  see_loop zero k now (e, changes) = (e, changes)
  see_loop (suc n) k now (e, changes) =
      let top = (side k e).refs 0 in
      let rest = see_loop n k now (see_one k e, mark_changed e top changes) in
      if le (ctime e top) now then rest else (e, changes)

  -- see_maps and see_reduces: the engine, and the changed pools by a task of each
  unfoldable pub see : TaskType → D → Engine D → Engine D × List ℕ
  unfolding see_loop see_one mark_changed
  see k now e = see_loop (side k e).left k now (e, [])
