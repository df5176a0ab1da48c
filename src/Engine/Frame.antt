-- ===== src/Engine/Frame.antt =====
-- What of the engine the selector, the fair shares and the checkpoints leave alone: the semaphores, the
-- running tasks and the numbers of slots.
use colossal.Prelude.{
  ℕ, zero, suc, ◌+◌, ◌≡◌, ◌∙◌, refl, subst, ap, inl, inr, Bool, Option, none, some, List, [], ◌∷◌,
  Bool-cases, Option-cases, ◌>>=◌, ◌==◌, length, arith,
}
use colossal.Prelude.Int.{ℤ}
use colossal.Double.{Double}
use colossal.Fsched.{FsContext}
use colossal.Fsched
use colossal.State.{
  Job, TaskType, reduce, PerType, get, put, Vsem, Event, Engine, pool_ctx, SchedMode, SelectorSide,
  upd_pool, upd_job, set_pool_ctx, set_job_ctx,
}
use colossal.State
use colossal.Queue.{add_event}
use colossal.Pool.{check_ms, check_hf, transit_n2s, below_ms, below_hf}
use colossal.Selector.{pool_of, side, see, see_one, see_loop, mark_changed, ctime}
use colossal.Selector.Pop.{
  pop, pop_from, job_select, pop_front, choose, job_order, job_memory, pool_memory, fair,
}
use colossal.Selector.Tree.{lookup, keys}
use colossal.Engine.{contexts, replace_contexts, update_fairshares, transit_all, prepare, advance}

-- A result, if there is one, has a property.
pub data OnSome {ℓ κ} {A : Type ℓ} (P : A → Type κ) : Option A → Type (ℓ ⊔ κ) where
  nothing : OnSome P none
  something : {a : A} → P a → OnSome P (some a)

module _ {ℓ κ} {A : Type ℓ} where
  pub OnSome-some : (P : A → Type κ) (o : Option A) (a : A) → OnSome P o → o ≡ some a → P a
  OnSome-some P none a OnSome.nothing e = absurd (cc)
  OnSome-some P (some b) a (OnSome.something p) e = subst P (ap (or b) e) p
    where
      or : A → Option A → A
      or b none = b
      or b (some a) = a

  pub OnSome-weaken {ν} :
      {P : A → Type κ} {Q : A → Type ν} (o : Option A)
      → OnSome P o
      → ((a : A) → P a → Q a)
      → OnSome Q o
  OnSome-weaken none OnSome.nothing k = OnSome.nothing
  OnSome-weaken (some a) (OnSome.something p) k = OnSome.something (k a p)

module _ {ℓ μ κ ν} {A : Type ℓ} {B : Type μ} {Q : B → Type ν} where
  pub bind-OnSome :
      {P : A → Type κ} (o : Option A) {f : A → Option B}
      → OnSome P o
      → ((a : A) → P a → OnSome Q (f a))
      → OnSome Q (o >>= f)
  bind-OnSome none h k = OnSome.nothing
  bind-OnSome (some a) (OnSome.something p) k = k a p

module _ {ℓ μ ν} {A : Type ℓ} {B : Type μ} {Q : B → Type ν} where
  pub each-OnSome :
      (o : Option A) {f : A → Option B} → ((a : A) → OnSome Q (f a)) → OnSome Q (o >>= f)
  each-OnSome none k = OnSome.nothing
  each-OnSome (some a) k = k a

module _ {ℓ} {D : Type ℓ} ⦃d : Double D⦄ where
  -- The semaphores, the running tasks and the numbers of slots.
  abbrev pub cluster : Engine D → PerType (Vsem D) × PerType (List ℕ) × PerType ℤ
  cluster e = (e.sems, e.running, e.slots)

  pub cluster-add_event : (ev : Event D) (e : Engine D) → cluster (add_event ev e) ≡ cluster e
  unfolding add_event
  cluster-add_event ev e = refl

  cluster-see_one : (k : TaskType) (e : Engine D) → cluster (see_one k e) ≡ cluster e
  unfolding see_one
  cluster-see_one State.map e = refl
  cluster-see_one reduce e = refl

  cluster-see_loop :
      (n : ℕ) (k : TaskType) (now : D) (e : Engine D) (changes : List ℕ)
      → cluster (see_loop n k now (e, changes)).0 ≡ cluster e
  unfolding see_loop
  cluster-see_loop zero k now e changes = refl
  cluster-see_loop (suc n) k now e changes =
      elim (Bool-cases (d.le (ctime e ((side k e).refs 0)) now)) [
        | inl h ↦
            rw (see_loop, h)
              (cluster-see_loop n k now (see_one k e) (mark_changed e ((side k e).refs 0) changes)
                ∙ cluster-see_one k e)
        | inr h ↦ rw (see_loop, h) refl
      ]

  pub cluster-see : (k : TaskType) (now : D) (e : Engine D) → cluster (see k now e).0 ≡ cluster e
  unfolding see
  cluster-see k now e = cluster-see_loop (side k e).left k now e []

  cluster-check_ms :
      (k : TaskType) (i : ℕ) (b : Bool) (e : Engine D) → cluster (check_ms k i b e) ≡ cluster e
  unfolding check_ms add_event
  cluster-check_ms k i b e = ground arith

  cluster-check_hf :
      (k : TaskType) (i : ℕ) (b : Bool) (e : Engine D) → cluster (check_hf k i b e) ≡ cluster e
  unfolding check_hf add_event
  cluster-check_hf k i b e = ground arith

  pub cluster-transit_n2s :
      (k : TaskType) (i : ℕ) (e : Engine D) → cluster (transit_n2s k i e) ≡ cluster e
  unfolding transit_n2s
  cluster-transit_n2s k i e =
      let c = pool_ctx k (e.pools i) in
      cluster-check_hf k i (below_hf c) (check_ms k i (below_ms c) e)
      ∙ cluster-check_ms k i (below_ms c) e

  pub cluster-transit_all :
      (k : TaskType) (ts : List ℕ) (e : Engine D) → cluster (transit_all k ts e) ≡ cluster e
  unfolding transit_all
  cluster-transit_all k [] e = refl
  cluster-transit_all k (t ∷ ts) e =
      cluster-transit_all k ts (transit_n2s k (pool_of e t) e)
      ∙ cluster-transit_n2s k (pool_of e t) e

  cluster-replace_contexts :
      (k : TaskType) (p : ℕ) (cs : List (FsContext D)) (e : Engine D)
      → cluster (replace_contexts k p cs e) ≡ cluster e
  unfolding replace_contexts
  cluster-replace_contexts k p [] e = refl
  cluster-replace_contexts k p (c ∷ cs) e =
      cluster-replace_contexts k (p + 1) cs (upd_pool p (set_pool_ctx k c) e)

  pub cluster-update_fairshares :
      (fuel : ℕ) (k : TaskType) (e : Engine D)
      → OnSome (λ e'. cluster e' ≡ cluster e) (update_fairshares fuel k e)
  unfolding update_fairshares
  cluster-update_fairshares fuel k e =
      elim (Option-cases
        (Fsched.compute_fairshares fuel (contexts k e.npools 0 e) (get k e.slots))) [
          | inl h ↦ rw h OnSome.nothing
          | inr ((cs, r), h) ↦ rw h (OnSome.something (cluster-replace_contexts k 0 cs e))
        ]

  cluster-job_select :
      (k : TaskType) (sched : SchedMode) (key : ℕ) (m : List (ℕ × List ℕ)) (e : Engine D)
      → OnSome (λ r. cluster r.1 ≡ cluster e) (job_select k sched key m e)
  unfolding job_select
  cluster-job_select k sched key m e =
      each-OnSome (choose (job_order e sched) (job_memory k e) (keys m)).0 (λ u.
        each-OnSome (lookup ◌==◌ u m) (λ q. each-OnSome (pop_front q) (λ r. OnSome.something refl)))

  cluster-pop_from :
      (k : TaskType) (key : ℕ) (c : FsContext D) (e : Engine D)
      → OnSome (λ r. cluster r.1 ≡ cluster e) (pop_from k key c e)
  unfolding pop_from
  cluster-pop_from k key c e =
      let e1 = upd_pool (pool_of e key) (set_pool_ctx k c) e in
      each-OnSome (lookup ◌==◌ key (side k e1).tree) (λ m.
        bind-OnSome (job_select k (e1.pools (pool_of e key)).sched key m e1)
          (cluster-job_select k (e1.pools (pool_of e key)).sched key m e1)
          (λ r h. OnSome.something h))

  pub cluster-pop : (k : TaskType) (e : Engine D) → OnSome (λ r. cluster r.1 ≡ cluster e) (pop k e)
  unfolding pop
  cluster-pop k e =
      let (choice, after) = choose fair (pool_memory k e) (keys (side k e).tree) in
      elim (Bool-cases ((side k e).popped == length (side k e).seen)) [
        | inl h ↦ rw h (OnSome.something refl)
        | inr h ↦ rw h (elim (Option-cases choice) [
          | inl g ↦ rw g (OnSome.something refl)
          | inr (key, g) ↦ rw g (cluster-pop_from k key (after key) e)
        ])
      ]

  pub cluster-prepare :
      (fuel : ℕ) (k : TaskType) (time : D) (e : Engine D)
      → OnSome (λ e'. cluster e' ≡ cluster e) (prepare fuel k time e)
  unfolding prepare
  cluster-prepare fuel k time e =
      let (e1, changes) = see k (advance time e).time_now (advance time e) in
      bind-OnSome (update_fairshares fuel k e1) (cluster-update_fairshares fuel k e1) (λ e2 h.
        OnSome.something (
          cluster-transit_all k changes e2
          ∙ h
          ∙ cluster-see k (advance time e).time_now (advance time e)))
