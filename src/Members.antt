-- ===== src/Members.antt =====
-- The members of selector and engine (colossal/src/selector.cpp, event.cpp, engine.cpp) by their
-- names: what the source writes once for maps and once for reduces, at each type of task.
use colossal.Prelude.{ℕ, ◌+◌, Bool, Option, List, ◌==◌, if◌then◌else◌}
use colossal.Prelude.Int.{ℤ, pos}
use colossal.Double.{Double}
use colossal.Fsched
use colossal.State.{TaskType, map, reduce, get, sched_fair, sched_fcfs, Engine}
use colossal.Selector.{side, add_preempted, min_ctime, has_task, see}
use colossal.Selector.Pop.{job_select, pop}
use colossal.Engine.{
  run, update_fairshares, create, finish, preempt, on_finish, on_preempt, contexts,
  replace_contexts,
}

module _ {ℓ} {D : Type ℓ} ⦃d : Double D⦄ where
  abbrev pub add_preempted_map : ℕ → Engine D → Engine D
  add_preempted_map = add_preempted map

  abbrev pub add_preempted_reduce : ℕ → Engine D → Engine D
  add_preempted_reduce = add_preempted reduce

  abbrev pub map_min_ctime : Engine D → D
  map_min_ctime = min_ctime map

  abbrev pub reduce_min_ctime : Engine D → D
  reduce_min_ctime = min_ctime reduce

  abbrev pub has_map : Engine D → Bool
  has_map = has_task map

  abbrev pub has_reduce : Engine D → Bool
  has_reduce = has_task reduce

  abbrev pub see_maps : D → Engine D → Engine D × List ℕ
  see_maps = see map

  abbrev pub see_reduces : D → Engine D → Engine D × List ℕ
  see_reduces = see reduce

  abbrev pub job_select_map_fs : ℕ → List (ℕ × List ℕ) → Engine D → Option (ℕ × Engine D)
  job_select_map_fs = job_select map sched_fair

  abbrev pub job_select_map_fcfs : ℕ → List (ℕ × List ℕ) → Engine D → Option (ℕ × Engine D)
  job_select_map_fcfs = job_select map sched_fcfs

  abbrev pub job_select_reduce_fs : ℕ → List (ℕ × List ℕ) → Engine D → Option (ℕ × Engine D)
  job_select_reduce_fs = job_select reduce sched_fair

  abbrev pub job_select_reduce_fcfs : ℕ → List (ℕ × List ℕ) → Engine D → Option (ℕ × Engine D)
  job_select_reduce_fcfs = job_select reduce sched_fcfs

  abbrev pub pop_map : Engine D → Option (Option ℕ × Engine D)
  pop_map = pop map

  abbrev pub pop_reduce : Engine D → Option (Option ℕ × Engine D)
  pop_reduce = pop reduce

  -- pop_map and pop_reduce with a time: see, and pop
  abbrev pub see_and_pop : TaskType → D → Engine D → Option (Option ℕ × Engine D)
  see_and_pop k now e = pop k (see k now e).0

  abbrev pub run_map : ℕ → Engine D → Engine D
  run_map = run map

  abbrev pub run_reduce : ℕ → Engine D → Engine D
  run_reduce = run reduce

  abbrev pub update_map_fairshares : ℕ → Engine D → Option (Engine D)
  update_map_fairshares fuel = update_fairshares fuel map

  abbrev pub update_reduce_fairshares : ℕ → Engine D → Option (Engine D)
  update_reduce_fairshares fuel = update_fairshares fuel reduce

  abbrev pub create_map : ℕ → D → Engine D → Option (Bool × Engine D)
  create_map fuel = create fuel map

  abbrev pub create_reduce : ℕ → D → Engine D → Option (Bool × Engine D)
  create_reduce fuel = create fuel reduce

  abbrev pub finish_map : ℕ → ℕ → Engine D → Option (Engine D)
  finish_map fuel = finish fuel map

  abbrev pub finish_reduce : ℕ → ℕ → Engine D → Option (Engine D)
  finish_reduce fuel = finish fuel reduce

  abbrev pub preempt_maps : ℕ → ℤ → Engine D → Option (Engine D)
  preempt_maps fuel = preempt fuel map

  abbrev pub preempt_reduces : ℕ → ℤ → Engine D → Option (Engine D)
  preempt_reduces fuel = preempt fuel reduce

  abbrev pub on_finish_map : ℕ → D → ℕ → Engine D → Option (Engine D)
  on_finish_map fuel = on_finish fuel map

  abbrev pub on_finish_reduce : ℕ → D → ℕ → Engine D → Option (Engine D)
  on_finish_reduce fuel = on_finish fuel reduce

  abbrev pub on_preempt_map : ℕ → D → ℕ → Engine D → Option (Engine D)
  on_preempt_map fuel = on_preempt fuel map

  abbrev pub on_preempt_reduce : ℕ → D → ℕ → Engine D → Option (Engine D)
  on_preempt_reduce fuel = on_preempt fuel reduce

  -- map_progress and reduce_progress, once there is a selector
  unfoldable pub progress : TaskType → Engine D → D
  progress k e =
      let s = side k e in
      let total = s.popped + s.left in
      if total == 0
      then d.of_int (pos 1)
      else d.div (d.of_int (pos s.popped)) (d.of_int (pos total))

  -- engine::scale_minshares, for one type of task and for both
  unfoldable pub scale_side : TaskType → Engine D → Engine D
  unfolding contexts replace_contexts Fsched.scale_minshares
  scale_side k e =
      replace_contexts k 0 (Fsched.scale_minshares (contexts k e.npools 0 e) (get k e.slots)) e

  unfoldable pub scale_minshares : Engine D → Engine D
  unfolding scale_side
  scale_minshares e = scale_side reduce (scale_side map e)
