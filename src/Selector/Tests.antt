-- ===== src/Selector/Tests.antt =====
-- The selector of the sample simulation, two seconds into it.
use colossal.Prelude.{
  ℕ, zero, suc, ◌≡◌, ◌⊎◌, refl, true, ◌==◌, none, some, All, List, Bool, count, [], ◌∷◌, arith,
}
use colossal.Prelude.Int.{ℤ, pos}
use colossal.Double.{fixed_double, ℤ-IsOrdered}
use colossal.Heap.Order.{IsHeap}
use colossal.State.{SelectorSide, Engine, Pool, Job}
use colossal.State
use colossal.Selector.{ctime, ctime_later, side, make_selector, see}
use colossal.Selector.See.{Sees, see-Sees}
use colossal.Selector.Make.{tasks_of_pools, make_selector_correct}
use colossal.Fsched.Compare.{gt-IsWeakOrder}
use colossal.Select.{is_met}
use colossal.Selector.Tree.{keys, lookup}
use colossal.Select.Make.{occurs}
use colossal.Selector.Pop.{fair, pool_memory, pop}
use colossal.Selector.Taken.{IsTaken}
use colossal.Selector.Neediest.{IsRanked, HasTasks, Once, IsStocked, IsNext, pop_correct}
use colossal.Fsched.{FsContext}
use colossal.Sample.{sample, none_seen, units, the_pool, no_marks, idle, job_at}

seen_at_two : (side State.map (see State.map (units 2) (make_selector sample)).0).seen ≡ 2 ∷ 1 ∷ []
unfolding make_selector see
seen_at_two = refl

abbrev refs : ℕ → ℕ
refs zero = 2
refs (suc zero) = 1
refs (suc (suc i)) = 0

abbrev engine : Engine ℤ
engine = record sample {
  selector = record sample.selector { of_map = record none_seen { refs = refs; left = 3 } };
}

engine-IsHeap : IsHeap (ctime_later engine) 3 refs
engine-IsHeap (suc zero) p q r = refl
engine-IsHeap (suc (suc zero)) p q r = refl
engine-IsHeap c p q r = absurd (omega arith)

see-Sees_example :
    Sees
      (ctime engine)
      (units 2)
      (side State.map engine)
      (side State.map (see State.map (units 2) engine).0)
    × ((see State.map (units 2) engine).0.descs ≡ engine.descs)
see-Sees_example = see-Sees ℤ-IsOrdered State.map (units 2) engine (λ t. tt) tt engine-IsHeap

-- Both maps that are created at second 1 are seen; each job waits for one.
abbrev waiting_job : ℕ → Job ℤ
waiting_job j = record (job_at j [] []) {
  fs_ctx = record { of_map = record (idle j) { demand = pos 1 }; of_reduce = idle j };
}

abbrev waiting : Engine ℤ
waiting = record sample {
  jobs = waiting_job;
  pools = λ p. record the_pool {
    sides = record {
      of_map = record no_marks { fs_ctx = record (idle 0) { demand = pos 2 } };
      of_reduce = no_marks;
    };
  };
  selector = record sample.selector {
    of_map = record none_seen {
      seen = 2 ∷ 1 ∷ [];
      tree = (2, (2, 2 ∷ []) ∷ (1, 1 ∷ []) ∷ []) ∷ [];
    };
  };
}

all-IsRanked : (ctx : ℕ → FsContext ℤ) → IsRanked State.map ctx
all-IsRanked ctx = record {
  before = gt-IsWeakOrder ℤ-IsOrdered _ (λ u. record { share = tt; weight = tt });
  after = λ v. gt-IsWeakOrder ℤ-IsOrdered _ (λ u. record { share = tt; weight = tt });
}

waiting-Once : Once (2 ∷ 1 ∷ [])
waiting-Once v = ground arith

pool-Once : Once (2 ∷ [])
pool-Once v = ground arith

queue_of :
    (u : ℕ)
    → occurs (λ v. v == u) (2 ∷ 1 ∷ []) ≡ 1
    → (t : ℕ) × (rest : List ℕ) × (lookup ◌==◌ u ((2, 2 ∷ []) ∷ (1, 1 ∷ []) ∷ []) ≡ some (t ∷ rest))
unfolding lookup
queue_of (suc zero) o = (1, [], refl)
queue_of (suc (suc zero)) o = (2, [], refl)
queue_of u o = absurd (ground arith)

waiting-HasTasks : HasTasks State.map waiting ((2, 2 ∷ []) ∷ (1, 1 ∷ []) ∷ [])
unfolding keys
waiting-HasTasks = record {
  once = waiting-Once;
  waiting = λ u h. queue_of u;
  some_job = (2, refl, refl);
}

jobs_of_pool :
    (key : ℕ)
    → occurs (λ v. v == key) (2 ∷ []) ≡ 1
    → (m : List (ℕ × List ℕ)) × (lookup ◌==◌ key (side State.map waiting).tree ≡ some m)
      × HasTasks State.map waiting m
unfolding lookup
jobs_of_pool (suc (suc zero)) o = (_, refl, waiting-HasTasks)
jobs_of_pool key o = absurd (ground arith)

waiting-IsStocked : IsStocked State.map waiting
unfolding keys
waiting-IsStocked = record {
  once = pool-Once;
  jobs_of = λ key h. jobs_of_pool key;
  fair_pools = λ i. refl;
}

pop_correct_example :
    ((pop State.map waiting ≡ some (none, waiting))
      × All
          (λ key. is_met fair (pool_memory State.map waiting) key ≡ true)
          (keys (side State.map waiting).tree))
    ⊎ ((t : ℕ) × (e' : Engine ℤ) × (pop State.map waiting ≡ some (some t, e'))
        × (n : IsNext State.map waiting t) × IsTaken State.map waiting n.pool n.job t n.jobs n.rest
            e')
pop_correct_example =
    pop_correct State.map waiting (λ h. absurd (omega (arith, h))) (all-IsRanked _) (all-IsRanked _)
      waiting-IsStocked

make_selector_correct_example :
    let s = side State.map (make_selector sample) in
    IsHeap (ctime_later (make_selector sample)) s.left s.refs
    × ((p : ℕ → Bool) → count p s.refs s.left ≡ tasks_of_pools State.map p sample 1 0)
make_selector_correct_example = make_selector_correct ℤ-IsOrdered sample (λ t. tt) State.map
