-- ===== src/Heap.antt =====
-- ulib/src/base/heap_prot.h and sort_heap_prot.h: the heap that DEFINE_HEAP generates for an element
-- type and an order `lt`. `base` is the C array; a routine returns the array after its writes.
-- Indices stay far below 2 ^ 63, so `HEAP_RIGHT` does not wrap. HEAP_PARENT(0) wraps in C and is 0
-- here; neither is read, since `hole > top` fails first.
pub mod Order
pub mod Push
pub mod Adjust
pub mod Entries
pub mod Sort
pub mod Image
mod Tests
use colossal.Prelude.{ℕ, zero, suc, ◌+◌, ◌-◌, ◌*◌, ◌/◌, Bool, ◌&&◌, ltb, ◌==◌, if◌then◌else◌, write}

-- HEAP_RIGHT; the left child is the index before it.
abbrev pub right : ℕ → ℕ
right i = i * 2 + 2

-- HEAP_PARENT
abbrev pub parent : ℕ → ℕ
parent i = (i - 1) / 2

module _ {ℓ} {A : Type ℓ} (lt : A → A → Bool) where
  -- The `while` of heap_push, on fuel. With `hole` rounds the fuel runs out at the root at the
  -- earliest, where the loop stops as well.
  pub push_loop : ℕ → (ℕ → A) → ℕ → ℕ → A → ℕ → A
  push_loop zero base hole top val = write base hole val
  push_loop (suc k) base hole top val =
      let up = push_loop k (write base hole (base (parent hole))) (parent hole) top val in
      if ltb top hole && lt (base (parent hole)) val then up else write base hole val

  -- heap_push
  unfoldable pub push : (ℕ → A) → ℕ → ℕ → A → ℕ → A
  unfolding push_loop
  push base hole top val = push_loop hole base hole top val

  -- The child that heap_adjust moves up: the left one if the right one is less.
  abbrev pub large_child : (ℕ → A) → ℕ → ℕ
  large_child base hole =
      if lt (base (right hole)) (base (right hole - 1)) then right hole - 1 else right hole

  -- The `while` of heap_adjust: the array and the hole, where both children existed on the way.
  pub sink_loop : ℕ → (ℕ → A) → ℕ → ℕ → (ℕ → A) × ℕ
  sink_loop zero base size hole = (base, hole)
  sink_loop (suc k) base size hole =
      let m = large_child base hole in
      let down = sink_loop k (write base hole (base m)) size m in
      if ltb (right hole) size then down else (base, hole)

  -- The `if` after it: a last parent with a left child only.
  pub sink_last : ℕ → (ℕ → A) × ℕ → (ℕ → A) × ℕ
  sink_last size (base, hole) =
      if right hole == size
      then (write base hole (base (right hole - 1)), right hole - 1)
      else (base, hole)

  -- heap_adjust
  unfoldable pub adjust : (ℕ → A) → ℕ → ℕ → A → ℕ → A
  unfolding push sink_loop sink_last
  adjust base size hole val =
      let (b, h) = sink_last size (sink_loop size base size hole) in push b h hole val

  -- The `for` of heap_init, with `parent + 1` rounds left.
  pub init_loop : ℕ → (ℕ → A) → ℕ → ℕ → A
  init_loop zero base size = base
  init_loop (suc i) base size = init_loop i (adjust base size i (base i)) size

  -- heap_init
  unfoldable pub init : (ℕ → A) → ℕ → ℕ → A
  unfolding init_loop adjust
  init base size = if ltb size 2 then base else init_loop (size / 2) base size

  -- heap_pop: `rear` and `res` are indices from `base`.
  unfoldable pub pop : (ℕ → A) → ℕ → ℕ → A → ℕ → A
  unfolding adjust
  pop base rear res val = adjust (write base res (base 0)) rear 0 val

  -- heap_pop_to_rear, for the array of `last` entries
  unfoldable pub pop_to_rear : (ℕ → A) → ℕ → ℕ → A
  unfolding pop
  pop_to_rear base last = pop base (last - 1) (last - 1) (base (last - 1))

  -- heap_sort
  unfoldable pub sort : ℕ → (ℕ → A) → ℕ → A
  unfolding pop_to_rear
  sort zero base = base
  sort (suc n) base =
      let rest = sort n (pop_to_rear base (suc n)) in if ltb 1 (suc n) then rest else base

  -- heapsort
  unfoldable pub heapsort : (ℕ → A) → ℕ → ℕ → A
  unfolding init sort
  heapsort base n = sort n (init base n)
