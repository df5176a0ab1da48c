-- ===== src/Engine/Keys.antt =====
-- The keys of the running tasks, and what the preemption of a task does to them.
use colossal.Prelude.{ℕ, ◌≡◌, refl, ap, arith, ==_refl, true}
use colossal.Double.{Double}
use colossal.State.{
  TaskType, reduce, PerType, get, put, Vsem, Engine, Event, ev_create, ev_finish, ev_preempt,
  pool_ctx, upd_pool, upd_desc,
}
use colossal.State
use colossal.Selector.{pool_of, job_of, add_preempted}
use colossal.Engine.{preempt_one, same_task, erase_first, release_task}
use colossal.Engine.Capacity.{IsSameKey}

module _ {ℓ} {D : Type ℓ} ⦃d : Double D⦄ where
  pub same_task-IsSameKey : (e : Engine D) → IsSameKey (same_task e)
  unfolding same_task
  same_task-IsSameKey e = record {
    itself = λ t.
        rw
          (
            ==_refl (e.descs t).task.id,
            ==_refl (e.jobs (job_of e t)).id,
            ==_refl (e.pools (pool_of e t)).id,
          )
          refl;
    respects = λ t x u h. ground (arith, h);
  }

  -- The first part of preempt_one, before the task leaves the running ones.
  abbrev pub taken_back : TaskType → ℕ → Engine D → Engine D
  taken_back k t e =
      add_preempted k t (release_task k t (upd_desc t (λ r. record r { preempted = true }) e))

  pub same_task-taken_back :
      (k : TaskType) (t : ℕ) (e : Engine D) → same_task (taken_back k t e) ≡ same_task e
  unfolding same_task add_preempted
  same_task-taken_back k t e = λ i u v. same u v i
    where
      same : (u v : ℕ) → same_task (taken_back k t e) u v ≡ same_task e u v
      same u v = ground arith

  pub running-preempt_one :
      (k : TaskType) (t : ℕ) (e : Engine D)
      → get k (preempt_one k t e).running ≡ erase_first (same_task e t) (get k e.running)
  unfolding preempt_one add_preempted
  running-preempt_one State.map t e =
      ap (λ f. erase_first (f t) e.running.of_map) (same_task-taken_back State.map t e)
  running-preempt_one reduce t e =
      ap (λ f. erase_first (f t) e.running.of_reduce) (same_task-taken_back reduce t e)

  pub same_task-preempt_one :
      (k : TaskType) (t : ℕ) (e : Engine D) → same_task (preempt_one k t e) ≡ same_task e
  unfolding preempt_one same_task
  same_task-preempt_one k t e = same_task-taken_back k t e
