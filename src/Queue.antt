-- ===== src/Queue.antt =====
-- The event heap of colossal/src/engine.cpp: add_event, and the removal of the first event.
pub mod Earliest
mod Tests
use colossal.Prelude.{ℕ, ◌+◌, ◌-◌, Bool, write}
use colossal.Double.{Double}
use colossal.Heap
use colossal.State.{Event, Engine, time_of}

module _ {ℓ} {D : Type ℓ} ⦃d : Double D⦄ where
  -- event::operator>, by which std::greater orders the heap
  abbrev pub later : Event D → Event D → Bool
  later a b = d.lt (time_of b) (time_of a)

  -- engine::add_event
  unfoldable pub add_event : Event D → Engine D → Engine D
  unfolding Heap.push
  add_event ev e = record e {
    events = Heap.push later (write e.events e.nevents ev) e.nevents 0 ev;
    nevents = e.nevents + 1;
  }

  -- The removal of the top in the loop of engine::process: the event, and the rest.
  unfoldable pub take_event : Engine D → Event D × Engine D
  unfolding Heap.pop_to_rear
  take_event e = (
    e.events 0,
    record e { events = Heap.pop_to_rear later e.events e.nevents; nevents = e.nevents - 1 },
  )
