-- ===== src/Engine.antt =====
-- colossal/src/engine.cpp and event.cpp: the simulation. The functions for maps and for reduces
-- differ in the fields alone, which a task type selects. `none` is a crash, or the fuel of the
-- doubling loop of compute_fairshares running out. Logging and metrics are left out.
pub mod Shares
pub mod ByStart
pub mod Capacity
pub mod Taking
pub mod Preempt
pub mod Frame
pub mod Within
pub mod Keys
pub mod Rounds
mod Tests
use colossal.Prelude.{
  ℕ, zero, suc, ◌+◌, ◌-◌, Bool, true, false, ◌&&◌, ◌||◌, not, Option, none, some, List, [], ◌∷◌,
  ◌++◌, ◌==◌, if◌then◌else◌, write,
}
use colossal.Prelude.Int.{ℤ, pos, negsuc, ◌+ℤ◌, ◌-ℤ◌, eqb_ℤ, ltb_ℤ}
use colossal.Double.{Double}
use colossal.Fsched
use colossal.Fsched.{FsContext}
use colossal.Prelude.{◌>>=◌}
use colossal.State.{
  TaskType, reduce, PerType, get, put, Task, TaskDesc, Event, ev_create, ev_finish, ev_preempt,
  Vsem, Engine, pool_ctx, set_pool_ctx, job_ctx, set_job_ctx, upd_pool, upd_job, upd_desc,
}
use colossal.State
use colossal.Queue.{add_event, take_event}
use colossal.Pool.{starved_minshare, starved_halffairshare, transit_n2s, transit_s2n}
use colossal.Selector.{
  double_equal, pool_of, job_of, make_selector, add_preempted, min_ctime, has_task, see,
}
use colossal.Selector.Pop.{pop}
use colossal.Vsem

-- hlist::erase: chainhash_del of the entry that chainhash_get finds, if there is one.
unfoldable pub erase_first : (ℕ → Bool) → List ℕ → List ℕ
erase_first p [] = []
erase_first p (x ∷ xs) = if p x then xs else x ∷ erase_first p xs

module _ {ℓ} {D : Type ℓ} ⦃d : Double D⦄ where
  open d use {of_int, lt, add}

  abbrev set_task : ℕ → (Task D → Task D) → Engine D → Engine D
  set_task t f = upd_desc t (λ r. record r { task = f r.task })

  -- engine::run_map and run_reduce. The running set is the list of its entries: hlist::insert adds
  -- one, whether the task has one or not.
  unfoldable pub run : TaskType → ℕ → Engine D → Engine D
  unfolding add_event
  run k t e =
      let e1 = set_task t (λ x. record x { stime = e.time_now }) e in
      let e2 = record e1 { running = put k (t ∷ get k e1.running) e1.running } in
      let x = (e2.descs t).task in add_event (ev_finish k (add x.stime x.ptime) t) e2

  -- The contexts of the pools from number `p` on, `n` of them, and their replacement.
  unfoldable pub contexts : TaskType → ℕ → ℕ → Engine D → List (FsContext D)
  contexts k zero p e = []
  contexts k (suc n) p e = pool_ctx k (e.pools p) ∷ contexts k n (p + 1) e

  unfoldable pub replace_contexts : TaskType → ℕ → List (FsContext D) → Engine D → Engine D
  replace_contexts k p [] e = e
  replace_contexts k p (c ∷ cs) e = replace_contexts k (p + 1) cs (upd_pool p (set_pool_ctx k c) e)

  -- engine::update_map_fairshares and update_reduce_fairshares
  unfoldable pub update_fairshares : ℕ → TaskType → Engine D → Option (Engine D)
  unfolding contexts replace_contexts Fsched.compute_fairshares
  update_fairshares fuel k e = do
    (cs, r) ← Fsched.compute_fairshares fuel (contexts k e.npools 0 e) (get k e.slots)
    some (replace_contexts k 0 cs e)

  -- The loop over the changed pools in ev_create_map.
  pub transit_all : TaskType → List ℕ → Engine D → Engine D
  unfolding transit_n2s
  transit_all k [] e = e
  transit_all k (t ∷ ts) e = transit_all k ts (transit_n2s k (pool_of e t) e)

  -- `if (_time > eng->time_now) eng->time_now = _time;`
  abbrev pub advance : D → Engine D → Engine D
  advance t e = record e { time_now = if lt e.time_now t then t else e.time_now }

  -- The launch of a popped task at the end of ev_create_map, and the next creation event.
  unfoldable pub launch : TaskType → ℕ → Engine D → Engine D
  unfolding transit_s2n run has_task min_ctime add_event
  launch k t e =
      let e1 = upd_pool (pool_of e t) (transit_s2n k) e in
      let e2 = upd_desc t (λ r. record r { popped = false; preempted = false }) e1 in
      let e3 = run k t e2 in
      if has_task k e3 then add_event (ev_create k (min_ctime k e3)) e3 else e3

  -- ev_create_map and ev_create_reduce up to the semaphore: demands, shares and checkpoints
  unfoldable pub prepare : ℕ → TaskType → D → Engine D → Option (Engine D)
  unfolding see update_fairshares transit_all
  prepare fuel k time e = do
    let (e1, changes) = see k (advance time e).time_now (advance time e)
    e2 ← update_fairshares fuel k e1
    some (transit_all k changes e2)

  -- ... and behind it
  unfoldable pub pop_and_launch : TaskType → Engine D → Option (Engine D)
  unfolding pop launch
  pop_and_launch k e = do (t, e') ← pop k e; some (elim t [ none ↦ e' | some r ↦ launch k r e' ])

  -- ev_create_map and ev_create_reduce: true if the event is done
  unfoldable pub create : ℕ → TaskType → D → Engine D → Option (Bool × Engine D)
  unfolding prepare Vsem.wait pop_and_launch
  create fuel k time e = do
    e1 ← prepare fuel k time e
    let (acquired, sem) = Vsem.wait time (get k e1.sems)
    let e2 = record e1 { sems = put k sem e1.sems }
    let go : Option (Bool × Engine D) = do e3 ← pop_and_launch k e2; some (true, e3)
    if acquired then go else some (false, e2)

  -- The call of the waiter in vsem::post.
  abbrev pub wake : ℕ → TaskType → List D → Engine D → Option (Engine D)
  wake fuel k [] e = some e
  wake fuel k (t ∷ ts) e = do (finished, e') ← create fuel k t e; some e'

  -- vsem::post on the semaphore of the engine
  unfoldable pub post : ℕ → TaskType → Engine D → Option (Engine D)
  unfolding Vsem.post create
  post fuel k e =
      let (waiter, sem) = Vsem.post (get k e.sems) in
      wake fuel k waiter (record e { sems = put k sem e.sems })

  -- `--alloc; --demand;`
  abbrev pub release : FsContext D → FsContext D
  release c = record c { alloc = c.alloc -ℤ pos 1; demand = c.demand -ℤ pos 1 }

  abbrev pub release_task : TaskType → ℕ → Engine D → Engine D
  release_task k t e =
      upd_pool (pool_of e t) (λ p. set_pool_ctx k (release (pool_ctx k p)) p)
        (upd_job (job_of e t) (λ j. set_job_ctx k (release (job_ctx k j)) j) e)

  -- task_desc::ref::operator==, by which the running set finds a task
  unfoldable pub same_task : Engine D → ℕ → ℕ → Bool
  same_task e t u =
      let task = (e.descs t).task.id == (e.descs u).task.id in
      let job = (e.jobs (job_of e t)).id == (e.jobs (job_of e u)).id in
      let pool = (e.pools (pool_of e t)).id == (e.pools (pool_of e u)).id in task && job && pool

  -- hlist::erase on a running set
  abbrev pub erase_running : TaskType → ℕ → Engine D → Engine D
  erase_running k t e = record e {
    running = put k (erase_first (same_task e t) (get k e.running)) e.running;
  }

  -- engine::finish_map and finish_reduce
  unfoldable pub finish : ℕ → TaskType → ℕ → Engine D → Option (Engine D)
  unfolding update_fairshares transit_n2s transit_s2n post same_task erase_first
  finish fuel k t e = do
    let e1 = erase_running k t (set_task t (λ x. record x { ftime = e.time_now }) e)
    e2 ← update_fairshares fuel k (release_task k t e1)
    let p = pool_of e2 t
    post fuel k (upd_pool p (transit_s2n k) (transit_n2s k p e2))

  -- The running tasks by reversed start time (stime_hash): the sort of the task set.
  pub insert_by_stime : Engine D → ℕ → List ℕ → List ℕ
  insert_by_stime e t [] = t ∷ []
  insert_by_stime e t (x ∷ xs) =
      if lt (e.descs x).task.stime (e.descs t).task.stime
      then t ∷ x ∷ xs
      else x ∷ insert_by_stime e t xs

  pub sort_by_stime : Engine D → List ℕ → List ℕ
  unfolding insert_by_stime
  sort_by_stime e [] = []
  sort_by_stime e (t ∷ ts) = insert_by_stime e t (sort_by_stime e ts)

  -- The preemption of a task in the loop of preempt_maps.
  unfoldable pub preempt_one : TaskType → ℕ → Engine D → Engine D
  unfolding add_preempted same_task erase_first
  preempt_one k t e =
      erase_running k t
        (add_preempted k t (release_task k t (upd_desc t (λ r. record r { preempted = true }) e)))

  -- The loop: the tasks of pools above their fair share, until `m` are found; it counts in `n`.
  unfoldable pub preempt_loop : TaskType → List ℕ → ℤ → ℕ → Engine D → ℕ × Engine D
  unfolding preempt_one
  preempt_loop k [] m n e = (n, e)
  preempt_loop k (t ∷ ts) m n e =
      let c = pool_ctx k (e.pools (pool_of e t)) in
      let above = lt c.fairshare (of_int c.alloc) in
      let rest =
        preempt_loop k ts (if above then m -ℤ pos 1 else m) (if above then n + 1 else n)
          (if above then preempt_one k t e else e) in
      if eqb_ℤ m (pos 0) then (n, e) else rest

  pub post_times : ℕ → ℕ → TaskType → Engine D → Option (Engine D)
  unfolding post
  post_times zero fuel k e = some e
  post_times (suc n) fuel k e = do e' ← post fuel k e; post_times n fuel k e'

  -- engine::preempt_maps and preempt_reduces
  unfoldable pub preempt : ℕ → TaskType → ℤ → Engine D → Option (Engine D)
  unfolding sort_by_stime preempt_loop update_fairshares post_times
  preempt fuel k num e = do
    let (n, e1) = preempt_loop k (sort_by_stime e (get k e.running)) num 0 e
    e2 ← update_fairshares fuel k e1
    post_times n fuel k e2

  -- ev_finish_map and ev_finish_reduce: only effective if the task was not preempted
  unfoldable pub on_finish : ℕ → TaskType → D → ℕ → Engine D → Option (Engine D)
  unfolding double_equal finish
  on_finish fuel k time t e =
      let r = e.descs t in
      if double_equal (add r.task.stime r.task.ptime) time && not r.preempted
      then finish fuel k t (record e { time_now = time })
      else some e

  -- ev_preempt_map and ev_preempt_reduce
  unfoldable pub on_preempt : ℕ → TaskType → D → ℕ → Engine D → Option (Engine D)
  unfolding starved_minshare starved_halffairshare preempt
  on_preempt fuel k time p e =
      let e1 = record e { time_now = time } in
      let ms = starved_minshare k (e1.pools p) time in
      let hf = starved_halffairshare k (e1.pools p) time in
      if ltb_ℤ hf ms
      then preempt fuel k ms e1
      else if ltb_ℤ (pos 0) hf
      then preempt fuel k hf e1
      else some e1

  -- event::operator()
  unfoldable pub handle : ℕ → Event D → Engine D → Option (Engine D)
  unfolding create on_finish on_preempt
  handle fuel (ev_create k time) e = do (finished, e') ← create fuel k time e; some e'
  handle fuel (ev_finish k time t) e = on_finish fuel k time t e
  handle fuel (ev_preempt k time p) e = on_preempt fuel k time p e

  -- engine::submit_tasks
  unfoldable pub submit_tasks : Engine D → Engine D
  unfolding has_task min_ctime add_event
  submit_tasks e =
      let e1 =
        if has_task State.map e
        then add_event (ev_create State.map (min_ctime State.map e)) e
        else e in
      if has_task reduce e1 then add_event (ev_create reduce (min_ctime reduce e1)) e1 else e1

  -- A round of the loop of engine::process.
  unfoldable pub step : ℕ → Engine D → Option (Engine D)
  unfolding take_event handle
  step fuel e = let (ev, e') = take_event e in handle fuel ev e'

  -- The loop, on fuel of its own.
  pub process_loop : ℕ → ℕ → Engine D → Option (Engine D)
  process_loop zero fuel e = none
  process_loop (suc n) fuel e =
      let next : Option (Engine D) = (do e' ← step fuel e; process_loop n fuel e') in
      if e.nevents == 0 then some e else next

  unfoldable pub process : ℕ → ℕ → Engine D → Option (Engine D)
  unfolding make_selector submit_tasks process_loop step
  process n fuel e = process_loop n fuel (submit_tasks (make_selector e))
