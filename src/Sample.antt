-- ===== src/Sample.antt =====
-- A small simulation for the tests, in millionths: one pool with two jobs, three maps and a reduce,
-- and two slots of each type.
use colossal.Prelude.{ℕ, zero, suc, ◌+◌, List, [], ◌∷◌, false}
use colossal.Prelude.Int.{ℤ, pos, negsuc}
use colossal.Double.{fixed_double}
use colossal.Fsched.{FsContext}
use colossal.State
use colossal.State.{
  PerType, Task, TaskDesc, Job, Pool, PoolSide, sched_fair, SelectorSide, Vsem, Engine, Event,
  ev_create,
}

abbrev pub units : ℕ → ℤ
units n = fixed_double.of_int (pos n)

abbrev pub idle : ℕ → FsContext ℤ
idle u = record {
  weight = units 1;
  minshare = units 1;
  demand = pos 0;
  fairshare = pos 0;
  alloc = pos 0;
  uid = u;
}

abbrev pub task_at : ℕ → ℕ → ℕ → ℕ → TaskDesc ℤ
task_at n created length job = record {
  task = record {
    id = n;
    ctime = units created;
    ptime = units length;
    stime = negsuc 999_999;
    ftime = negsuc 999_999;
  };
  job = job;
  pool = 0;
  popped = false;
  preempted = false;
}

abbrev pub job_at : ℕ → List ℕ → List ℕ → Job ℤ
job_at j maps reduces = record {
  id = j;
  ctime = units 0;
  fs_ctx = record { of_map = idle j; of_reduce = idle j };
  tasks = record { of_map = maps; of_reduce = reduces };
}

abbrev pub no_marks : PoolSide ℤ
no_marks = record { last_at_ms = negsuc 999_999; last_at_hf = negsuc 999_999; fs_ctx = idle 0 }

abbrev pub the_pool : Pool ℤ
the_pool = record {
  id = 0;
  sched = sched_fair;
  ms_timeout = units 5;
  hf_timeout = units 8;
  sides = record { of_map = no_marks; of_reduce = no_marks };
  jobs = 0 ∷ 1 ∷ [];
}

abbrev pub none_seen : SelectorSide
none_seen = record { refs = λ i. 0; left = 0; seen = []; tree = []; popped = 0 }

abbrev pub descs : ℕ → TaskDesc ℤ
descs zero = task_at 0 3 2 0
descs (suc zero) = task_at 1 1 4 0
descs (suc (suc zero)) = task_at 2 1 1 1
descs (suc (suc (suc t))) = task_at (3 + t) 7 1 1

abbrev pub jobs : ℕ → Job ℤ
jobs zero = job_at 0 (0 ∷ 1 ∷ []) []
jobs (suc j) = job_at 1 (2 ∷ []) (3 ∷ [])

abbrev pub sample : Engine ℤ
sample = record {
  time_now = pos 0;
  descs = descs;
  jobs = jobs;
  pools = λ p. the_pool;
  npools = 1;
  selector = record { of_map = none_seen; of_reduce = none_seen };
  sems = record {
    of_map = record { val = pos 2; wlist = [] };
    of_reduce = record { val = pos 2; wlist = [] };
  };
  running = record { of_map = []; of_reduce = [] };
  events = λ i. ev_create State.map (pos 0);
  nevents = 0;
  slots = record { of_map = pos 2; of_reduce = pos 2 };
}
