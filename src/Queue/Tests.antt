-- ===== src/Queue/Tests.antt =====
-- The theorems on the event heap at the sample simulation.
use colossal.Prelude.{◌+◌, ◌≡◌, refl, Bool, arith, bit}
use colossal.Prelude.Int.{ℤ}
use colossal.Double.{fixed_double, ℤ-IsOrdered}
use colossal.State.{Event, ev_create, Engine, reduce}
use colossal.State
use colossal.Queue.{add_event, take_event}
use colossal.Queue.Earliest.{
  IsQueue, TakesEarliest, events_count, add_event-IsQueue, take_event-TakesEarliest,
}
use colossal.Sample.{sample, units}

abbrev late : Event ℤ
late = ev_create State.map (units 4)

abbrev soon : Event ℤ
soon = ev_create reduce (units 1)

sample-IsQueue : IsQueue ℤ-IsOrdered 0 sample.events
sample-IsQueue = record { numbers = λ i. tt; heap = λ c p q r. absurd (omega arith) }

abbrev two_events : Engine ℤ
two_events = add_event soon (add_event late sample)

two_events-IsQueue : IsQueue ℤ-IsOrdered 2 two_events.events
unfolding add_event
two_events-IsQueue =
    let h = add_event-IsQueue ℤ-IsOrdered late sample tt sample-IsQueue in
    (add_event-IsQueue ℤ-IsOrdered soon (add_event late sample) tt h.0).0

add_event-IsQueue_example :
    IsQueue ℤ-IsOrdered (add_event late sample).nevents (add_event late sample).events
    × ((p : Event ℤ → Bool)
        → events_count ℤ-IsOrdered p (add_event late sample)
          ≡ bit (p late) + events_count ℤ-IsOrdered p sample)
add_event-IsQueue_example = add_event-IsQueue ℤ-IsOrdered late sample tt sample-IsQueue

take_event-TakesEarliest_example :
    TakesEarliest ℤ-IsOrdered two_events (take_event two_events).0 (take_event two_events).1
unfolding add_event
take_event-TakesEarliest_example =
    take_event-TakesEarliest ℤ-IsOrdered 1 two_events refl two_events-IsQueue
