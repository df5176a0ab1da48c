-- ===== src/Selector/Taken.antt =====
-- What pop_map and pop_reduce leave: the queue without the popped task, and one more task given to its
-- job and to its pool.
use colossal.Prelude.{
  ℕ, ◌+◌, ◌≤◌, ◌≡◌, ◌∙◌, refl, ap, inl, inr, Bool, true, false, none, some, List, ◌∷◌, ◌==◌,
  ==_refl, arith, Bool-cases, if◌then◌else◌,
}
use colossal.Prelude.Int.{pos, ◌+ℤ◌, eqb_ℤ}
use colossal.Double.{Double}
use colossal.Fsched.{FsContext}
use colossal.Select.Make.{occurs}
use colossal.State.{
  TaskType, reduce, PerType, get, put, Engine, Pool, Job, SelectorSide, pool_ctx, set_pool_ctx,
  job_ctx, set_job_ctx, upd_pool, upd_job, upd_desc,
}
use colossal.State
use colossal.Selector.{side, set_side, pool_of, job_of}
use colossal.Selector.Tree.{lookup, modify, remove, keys}
use colossal.Selector.Tree.Entries.{
  lookup-modify, lookup-modify_ne, lookup-remove, lookup-remove_ne, keys-modify,
}
use colossal.Selector.Pop.{pool_memory, job_memory}

pub get-put {ℓ} : {A : Type ℓ} (k : TaskType) (s : A) (p : PerType A) → get k (put k s p) ≡ s
get-put State.map s p = refl
get-put reduce s p = refl

module _ {ℓ} {D : Type ℓ} where
  -- The context with one more task given to it, and whether it has all it demands.
  abbrev pub one_more : FsContext D → FsContext D
  one_more c = record c { alloc = c.alloc +ℤ pos 1 }

  abbrev pub is_served : FsContext D → Bool
  is_served c = eqb_ℤ c.alloc c.demand

module _ {ℓ} {D : Type ℓ} ⦃d : Double D⦄ (k : TaskType) (e : Engine D) (pool job t : ℕ)
    (jobs : List (ℕ × List ℕ)) (rest : List ℕ) where
  -- The map of jobs of the pool has lost the task, and the job with it if that has all it demands.
  pub record IsQueueOf (after : List (ℕ × List ℕ)) : Type 0 where
    pub other_jobs : (j : ℕ) → (j == job) ≡ false → lookup ◌==◌ j after ≡ lookup ◌==◌ j jobs
    pub the_job :
        lookup ◌==◌ job after
        ≡ (if is_served (one_more (job_memory k e job)) then none else some rest)

  -- From `e` to `e'` the task `t` is taken from a job of a pool, whose contexts count one more task,
  -- and nothing else in the queue, the pools and the jobs has changed.
  pub record IsTaken (e' : Engine D) : Type ℓ where
    pub counted : (side k e').popped ≡ (side k e).popped + 1
    pub flagged : (e'.descs t).popped ≡ true
    pub given_pool :
        e'.pools (pool_of e pool)
        ≡ set_pool_ctx k (one_more (pool_memory k e pool)) (e.pools (pool_of e pool))
    pub other_pools : (i : ℕ) → (i == pool_of e pool) ≡ false → e'.pools i ≡ e.pools i
    pub given_job :
        e'.jobs (job_of e job)
        ≡ set_job_ctx k (one_more (job_memory k e job)) (e.jobs (job_of e job))
    pub other_jobs : (i : ℕ) → (i == job_of e job) ≡ false → e'.jobs i ≡ e.jobs i
    pub other_queues :
        (i : ℕ)
        → (i == pool) ≡ false
        → lookup ◌==◌ i (side k e').tree ≡ lookup ◌==◌ i (side k e).tree
    pub the_queue :
        (after : List (ℕ × List ℕ)) × IsQueueOf after
        × (lookup ◌==◌ pool (side k e').tree
            ≡ (if is_served (one_more (pool_memory k e pool)) then none else some after))

  -- The engine that pop_map and pop_reduce leave.
  abbrev pub queue_after : List (ℕ × List ℕ)
  queue_after =
      let c = one_more (job_memory k e job) in
      if eqb_ℤ c.alloc c.demand then remove ◌==◌ job jobs else modify ◌==◌ job (λ q. rest) jobs

  abbrev pub job_taken : Engine D
  job_taken =
      let e1 = upd_pool (pool_of e pool) (set_pool_ctx k (one_more (pool_memory k e pool))) e in
      set_side k
        (record (side k e1) { tree = modify ◌==◌ pool (λ m. queue_after) (side k e1).tree })
        (upd_job (job_of e1 job) (set_job_ctx k (one_more (job_memory k e1 job))) e1)

  abbrev pub pool_taken : Engine D
  pool_taken =
      let c = one_more (pool_memory k e pool) in
      let s = side k job_taken in
      let tree = if eqb_ℤ c.alloc c.demand then remove ◌==◌ pool s.tree else s.tree in
      set_side k (record s { popped = s.popped + 1; tree = tree })
        (upd_desc t (λ r. record r { popped = true }) job_taken)

  abbrev tree_after : List (ℕ × List (ℕ × List ℕ))
  tree_after =
      let c = one_more (pool_memory k e pool) in
      let tree = modify ◌==◌ pool (λ m. queue_after) (side k e).tree in
      if eqb_ℤ c.alloc c.demand then remove ◌==◌ pool tree else tree

  side-pool_taken :
      side k pool_taken ≡ record (side k e) { popped = (side k e).popped + 1; tree = tree_after }
  side-pool_taken =
      let c = one_more (pool_memory k e pool) in
      get-put k _ job_taken.selector
      ∙ ap
          (λ (s : SelectorSide). record s {
            popped = s.popped + 1;
            tree = if eqb_ℤ c.alloc c.demand then remove ◌==◌ pool s.tree else s.tree;
          })
          (get-put k _ e.selector)

  queue_after-IsQueueOf :
      occurs (λ v. v == job) (keys jobs) ≤ 1
      → lookup ◌==◌ job jobs ≡ some (t ∷ rest)
      → IsQueueOf queue_after
  queue_after-IsQueueOf once l = elim (Bool-cases (is_served (one_more (job_memory k e job)))) [
    | inl g ↦ rw g (record {
      other_jobs = λ j n. lookup-remove_ne job j jobs n;
      the_job = rw g (lookup-remove job jobs once);
    })
    | inr g ↦ rw g (record {
      other_jobs = λ j n. lookup-modify_ne job (λ q. rest) j jobs n;
      the_job = rw g (lookup-modify job (λ q. rest) jobs (t ∷ rest) l);
    })
  ]

  -- What the entry of another pool is, and that of the pool.
  other_queue :
      (i : ℕ) → (i == pool) ≡ false → lookup ◌==◌ i tree_after ≡ lookup ◌==◌ i (side k e).tree
  other_queue i n = elim (Bool-cases (is_served (one_more (pool_memory k e pool)))) [
    | inl g ↦ rw g (
        lookup-remove_ne pool i (modify ◌==◌ pool (λ m. queue_after) (side k e).tree) n
        ∙ lookup-modify_ne pool (λ m. queue_after) i (side k e).tree n)
    | inr g ↦ rw g (lookup-modify_ne pool (λ m. queue_after) i (side k e).tree n)
  ]

  its_queue :
      occurs (λ v. v == pool) (keys (side k e).tree) ≤ 1
      → lookup ◌==◌ pool (side k e).tree ≡ some jobs
      → lookup ◌==◌ pool tree_after
        ≡ (if is_served (one_more (pool_memory k e pool)) then none else some queue_after)
  its_queue once l = elim (Bool-cases (is_served (one_more (pool_memory k e pool)))) [
    | inl g ↦ rw g (
        lookup-remove pool (modify ◌==◌ pool (λ m. queue_after) (side k e).tree)
          (rw (keys-modify pool (λ m. queue_after) (side k e).tree) once))
    | inr g ↦ rw g (lookup-modify pool (λ m. queue_after) (side k e).tree jobs l)
  ]

  pub pool_taken-IsTaken :
      occurs (λ v. v == pool) (keys (side k e).tree) ≤ 1
      → lookup ◌==◌ pool (side k e).tree ≡ some jobs
      → occurs (λ v. v == job) (keys jobs) ≤ 1
      → lookup ◌==◌ job jobs ≡ some (t ∷ rest)
      → IsTaken pool_taken
  pool_taken-IsTaken once l once' l' = record {
    counted = ap (λ (s : SelectorSide). s.popped) side-pool_taken;
    flagged = ground arith;
    given_pool = rw (==_refl (pool_of e pool)) refl;
    other_pools = λ i n. rw n refl;
    given_job = rw (==_refl (job_of e job)) refl;
    other_jobs = λ i n. rw n refl;
    other_queues =
        λ i n. ap (λ (s : SelectorSide). lookup ◌==◌ i s.tree) side-pool_taken ∙ other_queue i n;
    the_queue = (
      queue_after,
      queue_after-IsQueueOf once' l',
      ap (λ (s : SelectorSide). lookup ◌==◌ pool s.tree) side-pool_taken ∙ its_queue once l,
    );
  }
