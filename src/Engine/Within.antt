-- ===== src/Engine/Within.antt =====
-- The handlers of event.cpp never let more tasks run than the cluster has slots.
use colossal.Prelude.{
  ℕ, zero, suc, ◌≤◌, ◌≡◌, ◌∙◌, refl, sym, subst, inl, inr, Bool, true, false, Option, none, some,
  List, [], ◌∷◌, ◌++◌, Bool-cases, if◌then◌else◌, ◌>>=◌, arith,
}
use colossal.Prelude.Int.{ℤ, pos, ◌-ℤ◌, ltb_ℤ}
use colossal.Double.{Double}
use colossal.Select.Make.{occurs}
use colossal.State.{
  TaskType, reduce, PerType, get, put, Vsem, Engine, Event, ev_create, ev_finish, ev_preempt,
  pool_ctx, upd_pool, upd_desc,
}
use colossal.State
use colossal.Queue.{add_event}
use colossal.Pool.{transit_n2s, transit_s2n}
use colossal.Selector.{pool_of, has_task}
use colossal.Selector.Pop.{pop}
use colossal.Vsem
use colossal.Vsem.Slots.{val-post}
use colossal.Engine.{
  run, launch, pop_and_launch, prepare, create, wake, post, update_fairshares, release_task,
  erase_running, erase_first, same_task, set_task, finish, post_times,
}
use colossal.Engine.Frame.{
  OnSome, bind-OnSome, cluster, cluster-prepare, cluster-pop, cluster-update_fairshares,
  cluster-transit_n2s,
}
use colossal.Engine.Capacity.{Fits, take_slot, give_back, lose_slot, launch-Fits, erase-Fits}

abbrev pub Cluster {ℓ} : Type ℓ → Type ℓ
Cluster D = PerType (Vsem D) × PerType (List ℕ) × PerType ℤ

-- The other type of task.
abbrev pub twin : TaskType → TaskType
twin State.map = reduce
twin reduce = State.map

module _ {ℓ} {D : Type ℓ} where
  abbrev pub Side : TaskType → ℕ → Cluster D → Type 0
  Side k n c = Fits n (get k c.0).val (get k c.1) (get k c.2)

  -- `n` slots of this type are about to be given back, none of the other type.
  pub record Pending (k : TaskType) (n : ℕ) (c : Cluster D) : Type 0 where
    pub here : Side k n c
    pub there : Side (twin k) 0 c

  pub Pending-sems :
      (k : TaskType) (n m : ℕ) (v : Vsem D) (c : Cluster D)
      → Pending k n c
      → Fits m v.val (get k c.1) (get k c.2)
      → Pending k m (put k v c.0, c.1, c.2)
  Pending-sems State.map n m v c p f = record { here = f; there = p.there }
  Pending-sems reduce n m v c p f = record { here = f; there = p.there }

  pub Pending-running :
      (k : TaskType) (n m : ℕ) (xs : List ℕ) (c : Cluster D)
      → Pending k n c
      → Fits m (get k c.0).val xs (get k c.2)
      → Pending k m (c.0, put k xs c.1, c.2)
  Pending-running State.map n m xs c p f = record { here = f; there = p.there }
  Pending-running reduce n m xs c p f = record { here = f; there = p.there }

module _ {ℓ} {D : Type ℓ} ⦃d : Double D⦄ where
  cluster-launch :
      (k : TaskType) (t : ℕ) (e : Engine D)
      → cluster (launch k t e) ≡ (e.sems, put k (t ∷ get k e.running) e.running, e.slots)
  unfolding launch run add_event
  cluster-launch k t e =
      elim (Bool-cases (
        has_task k (
          run k t (
            upd_desc t (λ r. record r { popped = false; preempted = false })
              (upd_pool (pool_of e t) (transit_s2n k) e))))) [
                | inl h ↦ rw (launch, h) refl
                | inr h ↦ rw (launch, h) refl
              ]

  unfoldable pub After : TaskType → ℕ → Option (Engine D) → Type ℓ
  After k n o = OnSome (λ (e : Engine D). Pending k n (cluster e)) o

  pop_and_launch-Pending :
      (k : TaskType) (n : ℕ) (e : Engine D)
      → Pending k (suc n) (cluster e)
      → After k n (pop_and_launch k e)
  unfolding pop_and_launch After
  pop_and_launch-Pending k n e p =
      bind-OnSome (pop k e) (cluster-pop k e)
        (λ r h. popped r.0 r.1 (subst (Pending k (suc n)) (sym h) p))
    where
      popped :
          (t : Option ℕ) (e' : Engine D)
          → Pending k (suc n) (cluster e')
          → OnSome
              (λ (e : Engine D). Pending k n (cluster e))
              (some (elim t [ none ↦ e' | some r ↦ launch k r e' ]))
      popped none e' q =
          OnSome.something (record { here = lose_slot n _ _ _ q.here; there = q.there })
      popped (some r) e' q = OnSome.something (
          subst (Pending k n) (sym (cluster-launch k r e'))
            (Pending-running k (suc n) n _ (cluster e') q (launch-Fits n _ _ _ r q.here)))

  acquired :
      (k : TaskType) (n : ℕ) (time : D) (e : Engine D)
      → Pending k n (cluster e)
      → let (acquired, sem) = Vsem.wait time (get k e.sems) in
        Pending k (if acquired then suc n else n) (put k sem e.sems, e.running, e.slots)
  unfolding Vsem.wait
  acquired k n time e p = elim (Bool-cases (ltb_ℤ (pos 0) (get k e.sems).val)) [
    | inl g ↦
        rw (Vsem.wait, g)
          (Pending-sems k n (suc n) (record (get k e.sems) { val = (get k e.sems).val -ℤ pos 1 })
            (cluster e) p (take_slot n _ _ _ g p.here))
    | inr g ↦
        rw (Vsem.wait, g)
          (Pending-sems k n n (record (get k e.sems) { wlist = (get k e.sems).wlist ++ time ∷ [] })
            (cluster e) p p.here)
  ]

  entered :
      (k : TaskType) (n : ℕ) (e : Engine D) (b : Bool)
      → Pending k (if b then suc n else n) (cluster e)
      → OnSome
          (λ (r : Bool × Engine D). Pending k n (cluster r.1))
          (let go : Option (Bool × Engine D) = (do e3 ← pop_and_launch k e; some (true, e3)) in
            if b then go else some (false, e))
  unfolding After
  entered k n e true p =
      bind-OnSome (pop_and_launch k e) (pop_and_launch-Pending k n e p) (λ e3 h. OnSome.something h)
  entered k n e false p = OnSome.something p

  pub create-Pending :
      (fuel : ℕ) (k : TaskType) (n : ℕ) (time : D) (e : Engine D)
      → Pending k n (cluster e)
      → OnSome (λ (r : Bool × Engine D). Pending k n (cluster r.1)) (create fuel k time e)
  unfolding create
  create-Pending fuel k n time e p =
      bind-OnSome (prepare fuel k time e) (cluster-prepare fuel k time e) (λ e1 h.
        let w = Vsem.wait time (get k e1.sems) in
        entered k n (record e1 { sems = put k w.1 e1.sems }) w.0
          (acquired k n time e1 (subst (Pending k n) (sym h) p)))

  wake-Pending :
      (fuel : ℕ) (k : TaskType) (n : ℕ) (ts : List D) (e : Engine D)
      → Pending k n (cluster e)
      → After k n (wake fuel k ts e)
  unfolding After
  wake-Pending fuel k n [] e p = OnSome.something p
  wake-Pending fuel k n (t ∷ ts) e p =
      bind-OnSome (create fuel k t e) (create-Pending fuel k n t e p) (λ r h. OnSome.something h)

  post-Pending :
      (fuel : ℕ) (k : TaskType) (n : ℕ) (e : Engine D)
      → Pending k (suc n) (cluster e)
      → After k n (post fuel k e)
  unfolding post Vsem.post
  post-Pending fuel k n e p =
      let (waiter, sem) = Vsem.post (get k e.sems) in
      wake-Pending fuel k n waiter (record e { sems = put k sem e.sems })
        (Pending-sems k (suc n) n sem (cluster e) p
          (rw (val-post (get k e.sems)) (give_back n _ _ _ p.here)))

  pub post_times-Pending :
      (m fuel : ℕ) (k : TaskType) (e : Engine D)
      → Pending k m (cluster e)
      → After k 0 (post_times m fuel k e)
  unfolding post_times After
  post_times-Pending zero fuel k e p = OnSome.something p
  post_times-Pending (suc m) fuel k e p =
      bind-OnSome (post fuel k e) (post-Pending fuel k m e p)
        (λ e' h. post_times-Pending m fuel k e' h)

  same_task-finished :
      (t : ℕ) (e : Engine D) (u : ℕ)
      → same_task (set_task t (λ x. record x { ftime = e.time_now }) e) t u ≡ same_task e t u
  unfolding same_task
  same_task-finished t e u = ground arith

  -- The task of a finish event runs.
  pub finish-Pending :
      (fuel : ℕ) (k : TaskType) (t : ℕ) (e : Engine D)
      → 1 ≤ occurs (same_task e t) (get k e.running)
      → Pending k 0 (cluster e)
      → After k 0 (finish fuel k t e)
  unfolding finish After
  finish-Pending fuel k t e r p =
      let e0 = set_task t (λ x. record x { ftime = e.time_now }) e in
      let same : same_task e0 t ≡ same_task e t = λ x u. same_task-finished t e u x in
      let e1 = erase_running k t e0 in
      bind-OnSome (update_fairshares fuel k (release_task k t e1))
        (cluster-update_fairshares fuel k (release_task k t e1))
        (λ e2 h.
          let e3 = upd_pool (pool_of e2 t) (transit_s2n k) (transit_n2s k (pool_of e2 t) e2) in
          post-Pending fuel k 0 e3 (
            subst (Pending k 1) (sym (cluster-transit_n2s k (pool_of e2 t) e2 ∙ h)) (
              Pending-running k 0 1 (erase_first (same_task e0 t) (get k e.running)) (cluster e) p
                (erase-Fits 0 _ _ _ (same_task e0 t) (rw same r) p.here))))
