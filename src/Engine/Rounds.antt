-- ===== src/Engine/Rounds.antt =====
-- A round of the event loop of engine.cpp never lets more tasks run than the cluster has slots.
use colossal.Prelude.{
  ℕ, suc, ◌+◌, ◌≤◌, ◌≡◌, sym, subst, ap, arith, inl, inr, Bool, true, ◌&&◌, not, some, List, [],
  ◌∷◌, Bool-cases,
}
use native.Mathlib.Numerals.{add-one}
use colossal.Prelude.Int.{ℤ, pos, ◌-ℤ◌, ltb_ℤ, eqb_ℤ}
use colossal.Double.{Double}
use colossal.Select.Make.{occurs}
use colossal.State.{
  TaskType, reduce, PerType, get, put, Vsem, Engine, Event, ev_create, ev_finish, ev_preempt,
  pool_ctx, upd_pool, upd_desc,
}
use colossal.State
use colossal.Queue.{take_event}
use colossal.Pool.{starved_minshare, starved_halffairshare}
use colossal.Selector.{pool_of, double_equal, add_preempted}
use colossal.Engine.{
  create, update_fairshares, preempt_one, preempt_loop, sort_by_stime, preempt, on_finish,
  on_preempt, handle, step, same_task, erase_first,
}
use colossal.Engine.Frame.{
  OnSome, OnSome-some, OnSome-weaken, bind-OnSome, cluster, cluster-update_fairshares,
}
use colossal.Engine.ByStart.{occurs-sort_by_stime}
use colossal.Engine.Capacity.{Covers, first-Covers, rest-Covers, erase_first-Covers, erase-Fits}
use colossal.Engine.Within.{
  twin, Side, Pending, Pending-running, After, create-Pending, post_times-Pending, finish-Pending,
}
use colossal.Engine.Keys.{
  same_task-IsSameKey, taken_back, same_task-taken_back, running-preempt_one, same_task-preempt_one,
}

module _ {ℓ} {D : Type ℓ} ⦃d : Double D⦄ where
  preempt_one-Pending :
      (k : TaskType) (t n : ℕ) (e : Engine D)
      → 1 ≤ occurs (same_task e t) (get k e.running)
      → Pending k n (cluster e)
      → Pending k (suc n) (cluster (preempt_one k t e))
  unfolding preempt_one add_preempted
  preempt_one-Pending k t n e r p =
      let e1 = taken_back k t e in
      Pending-running k n (suc n) (erase_first (same_task e1 t) (get k e.running)) (cluster e) p (
        erase-Fits n _ _ _ (same_task e1 t) (rw (ap (λ f. f t) (same_task-taken_back k t e)) r)
          p.here)

  preempt_loop-Pending :
      (k : TaskType) (ts : List ℕ) (m : ℤ) (n : ℕ) (e : Engine D)
      → Covers (same_task e) (get k e.running) ts
      → Pending k n (cluster e)
      → let (n', e') = preempt_loop k ts m n e in Pending k n' (cluster e')
  unfolding preempt_loop
  preempt_loop-Pending k [] m n e r p = p
  preempt_loop-Pending k (t ∷ ts) m n e r p = elim (Bool-cases (eqb_ℤ m (pos 0))) [
    | inl z ↦ rw (preempt_loop, z) p
    | inr z ↦
        let c = pool_ctx k (e.pools (pool_of e t)) in
        let key = same_task-IsSameKey e in
        elim (Bool-cases (d.lt c.fairshare (d.of_int c.alloc))) [
          | inl a ↦
              rw (preempt_loop, z, a)
                (preempt_loop-Pending k ts (m -ℤ pos 1) (n + 1) (preempt_one k t e)
                  (subst (λ f. Covers f (get k (preempt_one k t e).running) ts)
                    (sym (same_task-preempt_one k t e))
                    (subst (λ running. Covers (same_task e) running ts)
                      (sym (running-preempt_one k t e))
                      (erase_first-Covers (same_task e) key t (get k e.running) ts r)))
                  (subst (λ j. Pending k j (cluster (preempt_one k t e))) (sym (add-one n))
                    (preempt_one-Pending k t n e
                      (first-Covers (same_task e) key t (get k e.running) ts r) p)))
          | inr a ↦
              rw (preempt_loop, z, a)
                (preempt_loop-Pending k ts m n e
                  (rest-Covers (same_task e) key t (get k e.running) ts r) p)
        ]
  ]

  preempt-Pending :
      (fuel : ℕ) (k : TaskType) (num : ℤ) (e : Engine D)
      → Pending k 0 (cluster e)
      → After k 0 (preempt fuel k num e)
  unfolding preempt After
  preempt-Pending fuel k num e p =
      let ts = sort_by_stime e (get k e.running) in
      let (n, e1) = preempt_loop k ts num 0 e in
      let q =
        preempt_loop-Pending k ts num 0 e
          (λ u. omega (arith, occurs-sort_by_stime e (same_task e u) (get k e.running))) p in
      bind-OnSome (update_fairshares fuel k e1) (cluster-update_fairshares fuel k e1)
        (λ e2 h. post_times-Pending n fuel k e2 (subst (Pending k n) (sym h) q))

  -- The finish event takes effect.
  abbrev pub is_effective : D → ℕ → Engine D → Bool
  is_effective time t e =
      let r = e.descs t in double_equal (d.add r.task.stime r.task.ptime) time && not r.preempted

  -- A finish event that takes effect is one of a running task.
  abbrev pub FinishesRunning : Event D → Engine D → Type 0
  FinishesRunning (ev_create k time) e = Unit
  FinishesRunning (ev_finish k time t) e =
      is_effective time t e ≡ true → 1 ≤ occurs (same_task e t) (get k e.running)
  FinishesRunning (ev_preempt k time p) e = Unit

  on_finish-Pending :
      (fuel : ℕ) (k : TaskType) (time : D) (t : ℕ) (e : Engine D)
      → FinishesRunning (ev_finish k time t) e
      → Pending k 0 (cluster e)
      → After k 0 (on_finish fuel k time t e)
  unfolding on_finish After
  on_finish-Pending fuel k time t e r p = elim (Bool-cases (is_effective time t e)) [
    | inl g ↦ rw (on_finish, g) (finish-Pending fuel k t (record e { time_now = time }) (r g) p)
    | inr g ↦ rw (on_finish, g) (OnSome.something p)
  ]

  on_preempt-Pending :
      (fuel : ℕ) (k : TaskType) (time : D) (i : ℕ) (e : Engine D)
      → Pending k 0 (cluster e)
      → After k 0 (on_preempt fuel k time i e)
  unfolding on_preempt After
  on_preempt-Pending fuel k time i e p =
      let e1 = record e { time_now = time } in
      let ms = starved_minshare k (e1.pools i) time in
      let hf = starved_halffairshare k (e1.pools i) time in
      elim (Bool-cases (ltb_ℤ hf ms)) [
        | inl g ↦ rw (on_preempt, g) (preempt-Pending fuel k ms e1 p)
        | inr g ↦ elim (Bool-cases (ltb_ℤ (pos 0) hf)) [
          | inl z ↦ rw (on_preempt, g, z) (preempt-Pending fuel k hf e1 p)
          | inr z ↦ rw (on_preempt, g, z) (OnSome.something p)
        ]
      ]

  -- Of each type no more tasks run than there are slots, which are not handed out twice.
  abbrev pub IsWithin : Engine D → Type 0
  IsWithin e = (k : TaskType) → Side k 0 (cluster e)

  pending : (k : TaskType) (e : Engine D) → IsWithin e → Pending k 0 (cluster e)
  pending k e w = record { here = w k; there = w (twin k) }

  within : (k : TaskType) (e : Engine D) → Pending k 0 (cluster e) → IsWithin e
  within State.map e p State.map = p.here
  within State.map e p reduce = p.there
  within reduce e p State.map = p.there
  within reduce e p reduce = p.here

  handle-IsWithin :
      (fuel : ℕ) (ev : Event D) (e : Engine D)
      → FinishesRunning ev e
      → IsWithin e
      → OnSome IsWithin (handle fuel ev e)
  unfolding handle After
  handle-IsWithin fuel (ev_create k time) e r w =
      bind-OnSome (create fuel k time e) (create-Pending fuel k 0 time e (pending k e w))
        (λ s h. OnSome.something (within k s.1 h))
  handle-IsWithin fuel (ev_finish k time t) e r w =
      OnSome-weaken (on_finish fuel k time t e)
        (on_finish-Pending fuel k time t e r (pending k e w)) (λ e' h. within k e' h)
  handle-IsWithin fuel (ev_preempt k time i) e r w =
      OnSome-weaken (on_preempt fuel k time i e)
        (on_preempt-Pending fuel k time i e (pending k e w)) (λ e' h. within k e' h)

  -- If of each type the free slots and the running tasks together are at most the slots, no
  -- semaphore being negative, and the event that the loop of process takes is not the finish event,
  -- taking effect, of a task that does not run, then all of this holds again where a round of the
  -- loop ends.
  pub step-IsWithin :
      (fuel : ℕ) (e e' : Engine D)
      → IsWithin e
      → FinishesRunning (take_event e).0 (take_event e).1
      → step fuel e ≡ some e'
      → IsWithin e'
  unfolding step take_event
  step-IsWithin fuel e e' w r q =
      OnSome-some IsWithin (step fuel e) e'
        (handle-IsWithin fuel (take_event e).0 (take_event e).1 r w) q
