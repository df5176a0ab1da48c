-- ===== src/State.antt =====
-- The objects of the simulator and the references between them: colossal/src/task.hpp, job.hpp,
-- pool.hpp, event.hpp, selector.hpp, vsem.hpp and engine.hpp. A pointer to a task, job or pool is a
-- number, and the engine's record holds what the numbers stand for. Each task has one task_desc,
-- which all its references share, so a `td_ref *` is the number of the task.
use colossal.Prelude.{ℕ, Bool, List, write}
use colossal.Prelude.Int.{ℤ}
use colossal.Fsched.{FsContext}

-- task::task_type
pub data TaskType : Type 0 where
  reduce map : TaskType

-- What the source keeps twice, for maps and for reduces.
pub record PerType {ℓ} (A : Type ℓ) : Type ℓ where
  pub of_map : A
  pub of_reduce : A

module _ {ℓ} {A : Type ℓ} where
  abbrev pub get : TaskType → PerType A → A
  get map p = p.of_map
  get reduce p = p.of_reduce

  abbrev pub put : TaskType → A → PerType A → PerType A
  put map a p = record p { of_map = a }
  put reduce a p = record p { of_reduce = a }

-- task
pub record Task {ℓ} (D : Type ℓ) : Type ℓ where
  pub id : ℕ
  pub ctime : D
  pub ptime : D
  pub stime : D
  pub ftime : D

-- task_desc: the task, its job and pool, and the bits of `_flags`
pub record TaskDesc {ℓ} (D : Type ℓ) : Type ℓ where
  pub task : Task D
  pub job : ℕ
  pub pool : ℕ
  pub popped : Bool
  pub preempted : Bool

pub record Job {ℓ} (D : Type ℓ) : Type ℓ where
  pub id : ℕ
  pub ctime : D
  pub fs_ctx : PerType (FsContext D)
  pub tasks : PerType (List ℕ)

-- pool::sched_mode
pub data SchedMode : Type 0 where
  sched_fair sched_fcfs : SchedMode

-- What a pool keeps for maps and for reduces.
pub record PoolSide {ℓ} (D : Type ℓ) : Type ℓ where
  pub last_at_ms : D
  pub last_at_hf : D
  pub fs_ctx : FsContext D

pub record Pool {ℓ} (D : Type ℓ) : Type ℓ where
  pub id : ℕ
  pub sched : SchedMode
  pub ms_timeout : D
  pub hf_timeout : D
  pub sides : PerType (PoolSide D)
  pub jobs : List ℕ

-- The classes derived from event, with `_time` first. The selector is the engine's one.
pub data Event {ℓ} (D : Type ℓ) : Type ℓ where
  ev_create : TaskType → D → Event D
  ev_finish : TaskType → D → ℕ → Event D
  ev_preempt : TaskType → D → ℕ → Event D

-- What the selector keeps for maps and for reduces: the heap of tasks to come (a vector), the tasks
-- seen, the tasks seen and not popped by pool and job, and the count of popped ones.
pub record SelectorSide : Type 0 where
  pub refs : ℕ → ℕ
  pub left : ℕ
  pub seen : List ℕ
  pub tree : List (ℕ × List (ℕ × List ℕ))
  pub popped : ℕ

-- vsem
pub record Vsem {ℓ} (A : Type ℓ) : Type ℓ where
  pub val : ℤ
  pub wlist : List A

pub record Engine {ℓ} (D : Type ℓ) : Type ℓ where
  pub time_now : D
  pub descs : ℕ → TaskDesc D
  pub jobs : ℕ → Job D
  pub pools : ℕ → Pool D
  pub npools : ℕ
  pub selector : PerType SelectorSide
  -- Only creation events wait; their times are kept.
  pub sems : PerType (Vsem D)
  pub running : PerType (List ℕ)
  -- `_eventheap`, a vector
  pub events : ℕ → Event D
  pub nevents : ℕ
  -- `_nmap` and `_nreduce`
  pub slots : PerType ℤ

module _ {ℓ} {D : Type ℓ} where
  abbrev pub time_of : Event D → D
  time_of (ev_create k t) = t
  time_of (ev_finish k t r) = t
  time_of (ev_preempt k t p) = t

  -- The fair scheduling context of a pool or a job, and a change of it.
  abbrev pub pool_ctx : TaskType → Pool D → FsContext D
  pool_ctx k p = (get k p.sides).fs_ctx

  abbrev pub set_pool_ctx : TaskType → FsContext D → Pool D → Pool D
  set_pool_ctx k c p = record p { sides = put k (record (get k p.sides) { fs_ctx = c }) p.sides }

  abbrev pub job_ctx : TaskType → Job D → FsContext D
  job_ctx k j = get k j.fs_ctx

  abbrev pub set_job_ctx : TaskType → FsContext D → Job D → Job D
  set_job_ctx k c j = record j { fs_ctx = put k c j.fs_ctx }

  abbrev pub upd_pool : ℕ → (Pool D → Pool D) → Engine D → Engine D
  upd_pool p f e = record e { pools = write e.pools p (f (e.pools p)) }

  abbrev pub upd_job : ℕ → (Job D → Job D) → Engine D → Engine D
  upd_job j f e = record e { jobs = write e.jobs j (f (e.jobs j)) }

  abbrev pub upd_desc : ℕ → (TaskDesc D → TaskDesc D) → Engine D → Engine D
  upd_desc t f e = record e { descs = write e.descs t (f (e.descs t)) }
