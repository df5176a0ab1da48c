-- ===== src/Selector/Make.antt =====
-- The constructor of the selector: every task is to come, in heap order.
use colossal.Prelude.{
  ℕ, zero, suc, ◌+◌, ◌≡◌, refl, ap, ap₂, subst, sym, ◌∙◌, Bool, true, false, List, [], ◌∷◌, bit,
  count, count-push_back, arith, if◌then◌else◌,
}
use colossal.Double.{Double, IsOrdered}
use colossal.Heap.Order.{IsWeakOrder, IsHeap}
use colossal.Heap.Adjust.{init-IsHeap}
use colossal.Heap.Entries.{init-same}
use colossal.Select.Make.{occurs}
use colossal.State.{TaskType, reduce, get, Engine, Job, Pool}
use colossal.State
use colossal.Selector.{
  ctime, ctime_later, side, add_ref, add_refs, add_jobs, add_pools, heap_refs, no_tasks,
  make_selector,
}

-- Whether the tasks of type `k'` are those of type `k`.
abbrev pub same_type : TaskType → TaskType → Bool
same_type State.map State.map = true
same_type reduce reduce = true
same_type k k' = false

both :
    (k : TaskType) (x : TaskType → ℕ)
    → (if same_type State.map k then x State.map else 0)
        + (if same_type reduce k then x reduce else 0)
      ≡ x k
both State.map x = omega arith
both reduce x = omega arith

module _ {ℓ} {D : Type ℓ} ⦃d : Double D⦄ where
  abbrev refs_count : TaskType → (ℕ → Bool) → Engine D → ℕ
  refs_count k p e = count p (side k e).refs (side k e).left

  -- The tasks of the jobs `js`, and of `n` pools from number `i` on, that pass a test.
  abbrev pub tasks_of_jobs : TaskType → (ℕ → Bool) → Engine D → List ℕ → ℕ
  tasks_of_jobs k p e [] = 0
  tasks_of_jobs k p e (j ∷ js) = occurs p (get k (e.jobs j).tasks) + tasks_of_jobs k p e js

  abbrev pub tasks_of_pools : TaskType → (ℕ → Bool) → Engine D → ℕ → ℕ → ℕ
  tasks_of_pools k p e zero i = 0
  tasks_of_pools k p e (suc n) i =
      tasks_of_jobs k p e (e.pools i).jobs + tasks_of_pools k p e n (i + 1)

  -- From `e` to `e'` the heaps of references have grown by as many entries as `more` says.
  record Grows (e e' : Engine D) (more : TaskType → (ℕ → Bool) → ℕ) : Type ℓ where
    times : ctime e' ≡ ctime e
    jobs : e'.jobs ≡ e.jobs
    pools : e'.pools ≡ e.pools
    counts : (k : TaskType) (p : ℕ → Bool) → refs_count k p e' ≡ refs_count k p e + more k p

  Grows-twice :
      {e e' e'' : Engine D} {f g h : TaskType → (ℕ → Bool) → ℕ}
      → Grows e e' f
      → Grows e' e'' g
      → ((k : TaskType) (p : ℕ → Bool) → f k p + g k p ≡ h k p)
      → Grows e e'' h
  Grows-twice a b c = record {
    times = b.times ∙ a.times;
    jobs = b.jobs ∙ a.jobs;
    pools = b.pools ∙ a.pools;
    counts = λ k p. omega (arith, a.counts k p, b.counts k p, c k p);
  }

  add_ref-ctime :
      (k : TaskType) (i j t : ℕ) (e : Engine D) (u : ℕ) → ctime (add_ref k i j t e) u ≡ ctime e u
  unfolding add_ref
  add_ref-ctime k i j t e u = ground arith

  add_ref-counts :
      (k k' : TaskType) (i j t : ℕ) (e : Engine D) (p : ℕ → Bool)
      → refs_count k' p (add_ref k i j t e)
        ≡ refs_count k' p e + (if same_type k k' then bit (p t) else 0)
  unfolding add_ref
  add_ref-counts State.map State.map i j t e p =
      omega (arith, count-push_back p (side State.map e).refs (side State.map e).left t)
  add_ref-counts reduce reduce i j t e p =
      omega (arith, count-push_back p (side reduce e).refs (side reduce e).left t)
  add_ref-counts State.map reduce i j t e p = omega arith
  add_ref-counts reduce State.map i j t e p = omega arith

  add_ref-Grows :
      (k : TaskType) (i j t : ℕ) (e : Engine D)
      → Grows e (add_ref k i j t e) (λ k' p. if same_type k k' then bit (p t) else 0)
  unfolding add_ref
  add_ref-Grows k i j t e = record {
    times = λ x u. add_ref-ctime k i j t e u x;
    jobs = refl;
    pools = refl;
    counts = λ k' p. add_ref-counts k k' i j t e p;
  }

  stays :
      (e : Engine D) (f : TaskType → (ℕ → Bool) → ℕ)
      → ((k : TaskType) (p : ℕ → Bool) → f k p ≡ 0)
      → Grows e e f
  stays e f h = record {
    times = refl;
    jobs = refl;
    pools = refl;
    counts = λ k p. omega (arith, h k p);
  }

  add_refs-Grows :
      (k : TaskType) (i j : ℕ) (ts : List ℕ) (e : Engine D)
      → Grows e (add_refs k i j ts e) (λ k' p. if same_type k k' then occurs p ts else 0)
  unfolding add_refs
  add_refs-Grows k i j [] e = stays e _ (λ k' p. ground arith)
  add_refs-Grows k i j (t ∷ ts) e =
      Grows-twice (add_ref-Grows k i j t e) (add_refs-Grows k i j ts (add_ref k i j t e))
        (λ k' p. ground arith)

  add_jobs-Grows :
      (i : ℕ) (js : List ℕ) (e : Engine D)
      → Grows e (add_jobs i js e) (λ k p. tasks_of_jobs k p e js)
  unfolding add_jobs
  add_jobs-Grows i [] e = stays e _ (λ k p. refl)
  add_jobs-Grows i (j ∷ js) e =
      let tasks = (e.jobs j).tasks in
      let e1 = add_refs State.map i j (get State.map tasks) e in
      let e2 = add_refs reduce i j (get reduce tasks) e1 in
      let a =
        Grows-twice (add_refs-Grows State.map i j (get State.map tasks) e)
          (add_refs-Grows reduce i j (get reduce tasks) e1)
          (λ k p. both k (λ k'. occurs p (get k' tasks))) in
      Grows-twice a (add_jobs-Grows i js e2) (λ k p.
        ap (λ g. occurs p (get k tasks) + tasks_of_jobs k p (record e { jobs = g }) js) a.jobs)

  add_pools-Grows :
      (n i : ℕ) (e : Engine D) → Grows e (add_pools n i e) (λ k p. tasks_of_pools k p e n i)
  unfolding add_pools
  add_pools-Grows zero i e = stays e _ (λ k p. refl)
  add_pools-Grows (suc n) i e =
      let a = add_jobs-Grows i (e.pools i).jobs e in
      Grows-twice a (add_pools-Grows n (i + 1) (add_jobs i (e.pools i).jobs e)) (λ k p.
        ap₂
          (λ g h.
            tasks_of_jobs k p e (e.pools i).jobs
            + tasks_of_pools k p (record e { pools = g; jobs = h }) n (i + 1))
          a.pools a.jobs)

  pub ctime_later-IsWeakOrder :
      (laws : IsOrdered D) (e : Engine D)
      → ((t : ℕ) → laws.IsNumber (ctime e t))
      → IsWeakOrder (ctime_later e)
  ctime_later-IsWeakOrder laws e numbers = record {
    asym = λ a b h. laws.asym _ _ h;
    not_trans = λ a b c h k. laws.not_trans _ (ctime e b) _ (numbers b) k h;
  }

  heaped :
      (k : TaskType) (e : Engine D)
      → IsWeakOrder (ctime_later e)
      → let e' = heap_refs reduce (heap_refs State.map e) in
        let s = side k e' in
        IsHeap (ctime_later e') s.left s.refs
        × ((p : ℕ → Bool) → count p s.refs s.left ≡ refs_count k p e)
  heaped State.map e order =
      let s = side State.map e in
      (init-IsHeap (ctime_later e) order s.left s.refs, init-same s.left (ctime_later e) s.refs)
  heaped reduce e order =
      let s = side reduce e in
      (init-IsHeap (ctime_later e) order s.left s.refs, init-same s.left (ctime_later e) s.refs)

  none_yet :
      (k : TaskType) (p : ℕ → Bool) (e : Engine D)
      → refs_count k p (record e { selector = record { of_map = no_tasks; of_reduce = no_tasks } })
        ≡ 0
  none_yet State.map p e = refl
  none_yet reduce p e = refl

  -- If no creation time is NaN, the constructor leaves the tasks to come as heaps by their creation
  -- times, which hold each task of each job of the pools as often as it stands there, and no other.
  pub make_selector_correct :
      (laws : IsOrdered D) (e : Engine D)
      → ((t : ℕ) → laws.IsNumber (ctime e t))
      → (k : TaskType)
      → let s = side k (make_selector e) in
        IsHeap (ctime_later (make_selector e)) s.left s.refs
        × ((p : ℕ → Bool) → count p s.refs s.left ≡ tasks_of_pools k p e e.npools 0)
  unfolding make_selector
  make_selector_correct laws e numbers k =
      let start = record e { selector = record { of_map = no_tasks; of_reduce = no_tasks } } in
      let g = add_pools e.npools 0 start in
      let grown = add_pools-Grows e.npools 0 start in
      let order =
        ctime_later-IsWeakOrder laws g
          (subst (λ (f : ℕ → D). (t : ℕ) → laws.IsNumber (f t)) (sym grown.times) numbers) in
      let h = heaped k g order in
      (h.0, λ p. h.1 p ∙ grown.counts k p ∙ omega (arith, none_yet k p e))
