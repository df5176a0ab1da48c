-- ===== src/Queue/Earliest.antt =====
-- The event heap: what add_event and the removal of its top do to it. A time that is NaN would
-- break the order, so the events are numbers here, and stay so.
use colossal.Prelude.{ℕ, suc, ◌+◌, ◌-◌, ◌<◌, ◌≡◌, sym, subst, Bool, false, arith, bit, count, write}
use native.Mathlib.Numerals.{add-one}
use colossal.Double.{Double, IsOrdered}
use colossal.Heap.{push, pop_to_rear}
use colossal.Heap.Order.{IsWeakOrder, IsHeap}
use colossal.Heap.Sort.{pop_to_rear-PopsToRear, push_back-IsHeap}
use colossal.Heap.Image.{image, on, image-push_back, image-pop_to_rear}
use colossal.State.{Event, Engine, time_of}
use colossal.Queue.{later, add_event, take_event}

module _ {ℓ} {D : Type ℓ} ⦃d : Double D⦄ (laws : IsOrdered D) where
  -- No time in the heap is NaN, and no event is later than its children.
  pub record IsQueue (n : ℕ) (events : ℕ → Event D) : Type 0 where
    pub numbers : (i : ℕ) → laws.IsNumber (time_of (events i))
    pub heap : IsHeap later n events

  -- The events that pass a test.
  abbrev pub events_count : (Event D → Bool) → Engine D → ℕ
  events_count p e = count p e.events e.nevents

  -- `ev` is an event of `e`, none of the others, which `e'` keeps as a heap, being earlier.
  pub record TakesEarliest (e : Engine D) (ev : Event D) (e' : Engine D) : Type ℓ where
    pub queue : IsQueue e'.nevents e'.events
    pub earliest : (i : ℕ) → i < e'.nevents → d.lt (time_of (e'.events i)) (time_of ev) ≡ false
    pub others : (p : Event D → Bool) → events_count p e ≡ bit (p ev) + events_count p e'

  -- An event whose time is a number.
  abbrev Timed : Type ℓ
  Timed = (ev : Event D) × laws.IsNumber (time_of ev)

  abbrev event : Timed → Event D
  event t = t.0

  timed-IsWeakOrder : IsWeakOrder (on event later)
  timed-IsWeakOrder = record {
    asym = λ a b h. laws.asym _ _ h;
    not_trans = λ a b c h k. laws.not_trans _ (time_of (event b)) _ b.1 k h;
  }

  -- If the events are a heap and neither their times nor that of `ev` is NaN, they are so after
  -- add_event as well, which adds `ev` to them and nothing else.
  pub add_event-IsQueue :
      (ev : Event D) (e : Engine D)
      → laws.IsNumber (time_of ev)
      → IsQueue e.nevents e.events
      → IsQueue (add_event ev e).nevents (add_event ev e).events
        × ((p : Event D → Bool) → events_count p (add_event ev e) ≡ bit (p ev) + events_count p e)
  unfolding add_event
  add_event-IsQueue ev e number h =
      let n = e.nevents in
      let base : ℕ → Timed = λ i. (e.events i, h.numbers i) in
      let r = push (on event later) (write base n (ev, number)) n 0 (ev, number) in
      let (heap, counts) = push_back-IsHeap _ timed-IsWeakOrder n base (ev, number) h.heap in
      let q : IsQueue (suc n) (image event later r)
          × ((p : Event D → Bool)
              → count p (image event later r) (suc n) ≡ bit (p ev) + count p e.events n) =
        (record { numbers = λ i. (r i).1; heap = heap }, λ p. counts (λ t. p (event t))) in
      subst
        (λ m.
          IsQueue m (add_event ev e).events
          × ((p : Event D → Bool)
              → count p (add_event ev e).events m ≡ bit (p ev) + count p e.events n))
        (sym (add-one n))
        (subst
          (λ g.
            IsQueue (suc n) g
            × ((p : Event D → Bool) → count p g (suc n) ≡ bit (p ev) + count p e.events n))
          (image-push_back event later base n (ev, number)) q)

  -- If the events are a heap of at least one event and no time is NaN, the loop of process takes one
  -- of them that none of the others is earlier than, and leaves these as such a heap.
  pub take_event-TakesEarliest :
      (n : ℕ) (e : Engine D)
      → e.nevents ≡ suc n
      → IsQueue e.nevents e.events
      → TakesEarliest e (take_event e).0 (take_event e).1
  unfolding take_event
  take_event-TakesEarliest n e size h =
      let less : suc n - 1 ≡ n = omega arith in
      let base : ℕ → Timed = λ i. (e.events i, h.numbers i) in
      let r = pop_to_rear (on event later) base (suc n) in
      let q = pop_to_rear-PopsToRear _ timed-IsWeakOrder n base (rw size at h.heap) in
      let t : TakesEarliest e (e.events 0)
          (record e { events = image event later r; nevents = n }) =
        record {
          queue = record { numbers = λ i. (r i).1; heap = q.heap };
          earliest = q.first;
          others = λ p. ground (arith, q.rear, q.same (λ t. p (event t)), size);
        } in
      subst
        (λ m.
          TakesEarliest e (e.events 0)
            (record e { events = pop_to_rear later e.events m; nevents = m - 1 }))
        (sym size)
        (subst
          (λ m.
            TakesEarliest e (e.events 0)
              (record e { events = pop_to_rear later e.events (suc n); nevents = m }))
          (sym less)
          (subst (λ g. TakesEarliest e (e.events 0) (record e { events = g; nevents = n }))
            (image-pop_to_rear event later base (suc n)) t))
