-- ===== src/Heap/Tests.antt =====
-- Runs of the heap routines, and the theorems at concrete arrays.
use colossal.Prelude.{ℕ, zero, suc, ◌≤◌, ◌≡◌, refl, List, [], ◌∷◌, arith, ltb, slice}
use colossal.Heap.{init, pop_to_rear, heapsort}
use colossal.Heap.Order.{IsWeakOrder, IsHeap}
use colossal.Heap.Sort.{PopsToRear, Sorts, pop_to_rear-PopsToRear, heapsort-Sorts}

ltb-IsWeakOrder : IsWeakOrder ltb
ltb-IsWeakOrder = record { asym = λ a b h. ground arith; not_trans = λ a b c h k. ground arith }

abbrev array : List ℕ → ℕ → ℕ
array [] i = 0
array (x ∷ xs) zero = x
array (x ∷ xs) (suc i) = array xs i

abbrev sample : ℕ → ℕ
sample = array (3 ∷ 9 ∷ 4 ∷ 1 ∷ 7 ∷ [])

abbrev heap : ℕ → ℕ
heap = array (9 ∷ 7 ∷ 4 ∷ 1 ∷ 3 ∷ [])

init-sample : slice 5 (init ltb sample 5) ≡ 9 ∷ 7 ∷ 4 ∷ 1 ∷ 3 ∷ []
unfolding init
init-sample = refl

heapsort-sample : slice 5 (heapsort ltb sample 5) ≡ 1 ∷ 3 ∷ 4 ∷ 7 ∷ 9 ∷ []
unfolding heapsort
heapsort-sample = refl

heap-IsHeap : (n : ℕ) → n ≤ 5 → IsHeap ltb n heap
heap-IsHeap n h (suc zero) p q r = refl
heap-IsHeap n h (suc (suc zero)) p q r = refl
heap-IsHeap n h (suc (suc (suc zero))) p q r = refl
heap-IsHeap n h (suc (suc (suc (suc zero)))) p q r = refl
heap-IsHeap n h c p q r = absurd (omega arith)

pop_to_rear-PopsToRear_example : PopsToRear ltb 4 heap (pop_to_rear ltb heap 5)
pop_to_rear-PopsToRear_example =
    pop_to_rear-PopsToRear ltb ltb-IsWeakOrder 4 heap (heap-IsHeap 5 (omega arith))

heapsort-Sorts_example : Sorts ltb 5 sample (heapsort ltb sample 5)
heapsort-Sorts_example = heapsort-Sorts ltb ltb-IsWeakOrder 5 sample
