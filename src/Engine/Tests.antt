-- ===== src/Engine/Tests.antt =====
-- The sample simulation, run to its end.
use colossal.Prelude.{ℕ, ◌+◌, ◌<◌, ◌≤◌, ◌≡◌, refl, arith, length, List, [], ◌∷◌, Option, none, some}
use colossal.Prelude.Int.{ℤ, pos, ◌+ℤ◌, ◌-ℤ◌}
use colossal.Double.{fixed_double, ℤ-IsOrdered}
use colossal.State.{ev_finish, Engine, get, pool_ctx}
use colossal.State
use colossal.Fsched.{is_enough, compute_fairshare, is_needy, share_ratio, compare}
use colossal.Fsched.Compare.{gt}
use colossal.Selector.Tree.{upsert}
use colossal.Queue.{take_event}
use colossal.Engine.Rounds.{IsWithin, step-IsWithin}
use colossal.Engine.{step, same_task, process, update_fairshares, contexts, preempt_loop}
use colossal.Engine.Preempt.{IsToCome, ComesBack, chosen, preempt_loop-ComesBack}
use colossal.Engine.Shares.{IsShared, update_fairshares_total}
use colossal.Sample.{sample, units, the_pool, no_marks, idle, none_seen}

-- The clock at the end, and when the tasks finished.
abbrev outcome : Option (Engine ℤ) → Option (ℤ × List ℤ)
outcome none = none
outcome (some e) =
    let at : ℕ → ℤ = λ t. (e.descs t).task.ftime in
    some (e.time_now, at 0 ∷ at 1 ∷ at 2 ∷ at 3 ∷ [])

sample-process :
    outcome (process 30 10 sample) ≡ some (units 12, units 5 ∷ units 5 ∷ units 2 ∷ units 8 ∷ [])
unfolding process compute_fairshare is_needy share_ratio compare gt upsert ◌+ℤ◌ ◌-ℤ◌
sample-process = refl

-- Three maps are wanted, and there are two slots.
abbrev busy : Engine ℤ
busy = record sample {
  pools = λ p. record the_pool {
    sides = record {
      of_map = record no_marks { fs_ctx = record (idle 0) { demand = pos 3 } };
      of_reduce = no_marks;
    };
  };
}

update_fairshares_total_example :
    (e' : Engine ℤ) × (update_fairshares 4 State.map busy ≡ some e')
    × ((p : ℕ)
        → p < 1
        → IsShared State.map (pool_ctx State.map (busy.pools p)) (pool_ctx State.map (e'.pools p)))
    × ((p : ℕ) → 1 ≤ p → e'.pools p ≡ busy.pools p)
unfolding is_enough contexts compute_fairshare
update_fairshares_total_example =
    update_fairshares_total State.map ℤ-IsOrdered 4 1 busy (omega arith) refl (λ p. tt)

-- Two maps run in a pool whose fair share is one slot, and one more is to come.
abbrev above_share : Engine ℤ
above_share = record sample {
  pools = λ p. record the_pool {
    sides = record {
      of_map = record no_marks {
        fs_ctx = record (idle 0) { demand = pos 2; alloc = pos 2; fairshare = units 1 };
      };
      of_reduce = no_marks;
    };
  };
  selector = record sample.selector { of_map = record none_seen { refs = λ i. 0; left = 1 } };
  running = record sample.running { of_map = 1 ∷ 2 ∷ [] };
}

above_share-IsToCome : IsToCome ℤ-IsOrdered State.map above_share
above_share-IsToCome = record { numbers = λ t. tt; heap = λ c p q r. absurd (omega arith) }

one_is_enough : (preempt_loop State.map (1 ∷ 2 ∷ []) (pos 1) 0 above_share).0 ≡ 1
unfolding preempt_loop ◌-ℤ◌
one_is_enough = refl

the_first : chosen ℤ-IsOrdered State.map above_share [] 1 (1 ∷ 2 ∷ []) ≡ 1 ∷ []
unfolding chosen ◌-ℤ◌
the_first = refl

preempt_loop-ComesBack_example :
    let (n', e') = preempt_loop State.map (1 ∷ 2 ∷ []) (pos 1) 0 above_share in
    let taken = chosen ℤ-IsOrdered State.map above_share [] 1 (1 ∷ 2 ∷ []) in
    (length taken ≤ 1)
    × (n' ≡ 0 + length taken)
    × ComesBack ℤ-IsOrdered State.map above_share e' taken
preempt_loop-ComesBack_example =
    preempt_loop-ComesBack ℤ-IsOrdered State.map (1 ∷ 2 ∷ []) 1 0 above_share above_share-IsToCome

-- One map runs, and its finish event is due; one slot is free.
abbrev finishing : Engine ℤ
finishing = record sample {
  running = record { of_map = 1 ∷ []; of_reduce = [] };
  sems = record sample.sems { of_map = record { val = pos 1; wlist = [] } };
  events = λ i. ev_finish State.map (units 3) 1;
  nevents = 1;
}

abbrev or_start : Option (Engine ℤ) → Engine ℤ
or_start none = finishing
or_start (some e) = e

finishing_round : step 4 finishing ≡ some (or_start (step 4 finishing))
unfolding step compute_fairshare is_needy share_ratio compare gt upsert ◌+ℤ◌ ◌-ℤ◌
finishing_round = refl

finished : (or_start (step 4 finishing)).running.of_map ≡ []
unfolding step compute_fairshare is_needy share_ratio compare gt upsert ◌+ℤ◌ ◌-ℤ◌
finished = refl

finishing-IsWithin : IsWithin finishing
finishing-IsWithin State.map = record { natural = refl; room = omega arith }
finishing-IsWithin State.reduce = record { natural = refl; room = omega arith }

step-IsWithin_example : IsWithin (or_start (step 4 finishing))
unfolding take_event same_task
step-IsWithin_example =
    step-IsWithin 4 finishing (or_start (step 4 finishing)) finishing-IsWithin (λ h. omega arith)
      finishing_round
