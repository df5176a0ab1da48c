-- ===== src/Selector/See.antt =====
-- The loop of see_maps and see_reduces: which tasks emerge, and which are still to come.
use colossal.Prelude.{
  ℕ, zero, suc, ◌+◌, ◌-◌, ◌<◌, ◌≡◌, refl, ap, sym, ◌∙◌, inl, inr, Bool, true, false, List, [], ◌∷◌,
  ◌++◌, arith, bit, count, Bool-cases,
}
use colossal.Double.{Double, IsOrdered}
use colossal.Heap.{pop_to_rear}
use colossal.Heap.Order.{IsWeakOrder, IsHeap, root_first}
use colossal.Heap.Sort.{pop_to_rear-PopsToRear}
use colossal.State.{TaskType, reduce, get, SelectorSide, Engine, TaskDesc}
use colossal.State
use colossal.Selector.{ctime, ctime_later, side, see_one, see_loop, see}

-- The members of a list that pass a test.
abbrev pub count_list : (ℕ → Bool) → List ℕ → ℕ
count_list p [] = 0
count_list p (t ∷ ts) = bit (p t) + count_list p ts

count_list-append :
    (p : ℕ → Bool) (xs ys : List ℕ) → count_list p (xs ++ ys) ≡ count_list p xs + count_list p ys
count_list-append p [] ys = omega arith
count_list-append p (x ∷ xs) ys = omega (arith, count_list-append p xs ys)

module _ {ℓ} {D : Type ℓ} ⦃d : Double D⦄ where
  -- The order of the heap, by the times of the tasks.
  abbrev pub later_by : (ℕ → D) → ℕ → ℕ → Bool
  later_by time a b = d.lt (time b) (time a)

  -- From `s` to `s'` tasks up to the time `now` have moved from the heap to those seen, and the
  -- heap holds later ones only.
  pub record Sees (time : ℕ → D) (now : D) (s s' : SelectorSide) : Type ℓ where
    pub heap : IsHeap (later_by time) s'.left s'.refs
    pub to_come : (i : ℕ) → i < s'.left → d.le (time (s'.refs i)) now ≡ false
    pub kept :
        (p : ℕ → Bool)
        → count_list p s'.seen + count p s'.refs s'.left
          ≡ count_list p s.seen + count p s.refs s.left
    pub emerged :
        (p : ℕ → Bool)
        → ((t : ℕ) → d.le (time t) now ≡ true → p t ≡ false)
        → count_list p s'.seen ≡ count_list p s.seen
    pub popped : s'.popped ≡ s.popped

  side-see_one :
      (k : TaskType) (e : Engine D)
      → let s = side k e in
        let s' = side k (see_one k e) in
        (s'.refs ≡ pop_to_rear (ctime_later e) s.refs s.left)
        × (s'.left ≡ s.left - 1)
        × (s'.seen ≡ s.seen ++ s.refs 0 ∷ [])
        × (s'.popped ≡ s.popped)
  unfolding see_one
  side-see_one State.map e = (refl, refl, refl, refl)
  side-see_one reduce e = (refl, refl, refl, refl)

  see_one-descs : (k : TaskType) (e : Engine D) → (see_one k e).descs ≡ e.descs
  unfolding see_one
  see_one-descs k e = refl

  see_loop-descs :
      (n : ℕ) (k : TaskType) (now : D) (e : Engine D) (changes : List ℕ)
      → (see_loop n k now (e, changes)).0.descs ≡ e.descs
  unfolding see_loop
  see_loop-descs zero k now e changes = refl
  see_loop-descs (suc n) k now e changes =
      elim (Bool-cases (d.le (ctime e ((side k e).refs 0)) now)) [
        | inl y ↦ rw y (see_loop-descs n k now (see_one k e) _ ∙ see_one-descs k e)
        | inr y ↦ rw y refl
      ]

  module _ (laws : IsOrdered D) (time : ℕ → D) (numbers : (t : ℕ) → laws.IsNumber (time t)) where
    later_by-IsWeakOrder : IsWeakOrder (later_by time)
    later_by-IsWeakOrder = record {
      asym = λ a b h. laws.asym _ _ h;
      not_trans = λ a b c h k. laws.not_trans _ (time b) _ (numbers b) k h;
    }

    module _ (now : D) (number : laws.IsNumber now) where
      -- Where the top is later than now, so are all.
      none_emerges :
          (s : SelectorSide)
          → IsHeap (later_by time) s.left s.refs
          → ((i : ℕ) → i < s.left → d.le (time (s.refs 0)) now ≡ false)
          → Sees time now s s
      none_emerges s h top = record {
        heap = h;
        to_come = λ i q. ground (
          arith,
          top i q,
          laws.le-eq-not-lt (time (s.refs 0)) now (numbers (s.refs 0)) number,
          laws.le-eq-not-lt (time (s.refs i)) now (numbers (s.refs i)) number,
          root_first _ later_by-IsWeakOrder s.left s.refs i h q,
          laws.not_trans now (time (s.refs i)) (time (s.refs 0)) (numbers (s.refs i)),
        );
        kept = λ p. refl;
        emerged = λ p h. refl;
        popped = refl;
      }

      one_emerges :
          (n : ℕ) (s s1 s' : SelectorSide)
          → s.left ≡ suc n
          → IsHeap (later_by time) s.left s.refs
          → d.le (time (s.refs 0)) now ≡ true
          → (s1.refs ≡ pop_to_rear (later_by time) s.refs s.left)
            × (s1.left ≡ s.left - 1)
            × (s1.seen ≡ s.seen ++ s.refs 0 ∷ [])
            × (s1.popped ≡ s.popped)
          → (IsHeap (later_by time) s1.left s1.refs → Sees time now s1 s')
          → Sees time now s s'
      one_emerges n s s1 s' size h due (refs, left, seen, popped) rest =
          let q = pop_to_rear-PopsToRear _ later_by-IsWeakOrder n s.refs (rw size at h) in
          let less : s1.left ≡ n = omega arith in
          let grown : (p : ℕ → Bool)
              → count_list p s1.seen ≡ count_list p s.seen + bit (p (s.refs 0)) =
            λ p.
              omega (arith, ap (count_list p) seen, count_list-append p s.seen (s.refs 0 ∷ [])) in
          let shrunk : (p : ℕ → Bool)
              → bit (p (s.refs 0)) + count p s1.refs s1.left ≡ count p s.refs s.left =
            λ p. rw (less, refs, size) (ground (arith, q.rear, q.same p)) in
          let r = rest (rw (less, refs, size) q.heap) in
          record {
            heap = r.heap;
            to_come = r.to_come;
            kept = λ p. omega (arith, r.kept p, grown p, shrunk p);
            emerged = λ p f. ground (arith, r.emerged p f, grown p, f (s.refs 0) due);
            popped = r.popped ∙ popped;
          }

      see_loop-Sees :
          (n : ℕ) (k : TaskType) (e : Engine D) (changes : List ℕ)
          → ctime e ≡ time
          → (side k e).left ≡ n
          → IsHeap (later_by time) (side k e).left (side k e).refs
          → Sees time now (side k e) (side k (see_loop n k now (e, changes)).0)
      unfolding see_loop
      see_loop-Sees zero k e changes times size h =
          none_emerges (side k e) h (λ i q. absurd (omega arith))
      see_loop-Sees (suc n) k e changes times size h =
          let top = (side k e).refs 0 in
          let (refs, left, seen, count) = side-see_one k e in
          let at_top : ctime e top ≡ time top = ap (λ (f : ℕ → D). f top) times in
          elim (Bool-cases (d.le (ctime e top) now)) [
            | inl due ↦ rw due (
                one_emerges n _ _ _ size h (ap (λ t. d.le t now) (sym at_top) ∙ due)
                  (
                    refs ∙ ap (λ f. pop_to_rear (later_by f) (side k e).refs (side k e).left) times,
                    left,
                    seen,
                    count,
                  )
                  (see_loop-Sees n k (see_one k e) _
                    (ap (λ f t. (f t).task.ctime) (see_one-descs k e) ∙ times) (omega arith)))
            | inr ahead ↦
                rw ahead
                  (none_emerges (side k e) h (λ i q. ap (λ t. d.le t now) (sym at_top) ∙ ahead))
          ]

  -- If the tasks to come are a heap by their creation times and neither these nor `now` is NaN, then
  -- see_maps and see_reduces keep each task, move tasks up to `now` only to those seen, and leave
  -- a heap of later tasks; the times are as before.
  pub see-Sees :
      (laws : IsOrdered D) (k : TaskType) (now : D) (e : Engine D)
      → ((t : ℕ) → laws.IsNumber (ctime e t))
      → laws.IsNumber now
      → IsHeap (ctime_later e) (side k e).left (side k e).refs
      → Sees (ctime e) now (side k e) (side k (see k now e).0) × ((see k now e).0.descs ≡ e.descs)
  unfolding see
  see-Sees laws k now e numbers number h = (
    see_loop-Sees laws (ctime e) numbers now number (side k e).left k e [] refl refl h,
    see_loop-descs (side k e).left k now e [],
  )
