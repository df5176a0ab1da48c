-- ===== src/Select.antt =====
-- class fs_select of colossal/src/fsched.hpp: a heap of users from which a task is selected at a
-- time. A user (an iterator of the source) is a number, and `ctx` is the memory that the iterators
-- point into. The hash set of users is a list of their ids without repetition.
pub mod Settle
pub mod Choose
pub mod Make
pub mod Pick
mod Tests
use colossal.Prelude.{
  ℕ, zero, suc, ◌+◌, ◌-◌, Bool, true, false, not, ◌||◌, Option, none, some, List, [], ◌∷◌, ◌==◌,
  if◌then◌else◌, write, length,
}
use colossal.Prelude.Int.{ℤ, pos, ◌+ℤ◌, eqb_ℤ}
use colossal.Double.{Double}
use colossal.Heap
use colossal.Fsched.{FsContext}

pub record FsSelect : Type 0 where
  -- `_heap`, a vector: its array and its size
  pub heap : ℕ → ℕ
  pub size : ℕ
  -- `_users`
  pub users : List ℕ

-- The operations of the hash set that the class uses.
unfoldable pub contains : List ℕ → ℕ → Bool
contains [] k = false
contains (x ∷ xs) k = x == k || contains xs k

unfoldable pub insert : ℕ → List ℕ → List ℕ
unfolding contains
insert k xs = if contains xs k then xs else k ∷ xs

unfoldable pub erase : ℕ → List ℕ → List ℕ
erase k [] = []
erase k (x ∷ xs) = if x == k then xs else x ∷ erase k xs

module _ {ℓ} {D : Type ℓ} (cmp : ℕ → ℕ → FsContext D → FsContext D → Bool) where
  -- `operator>` of comp_pointer<T>: the users are compared through the memory.
  abbrev pub greater : (ℕ → FsContext D) → ℕ → ℕ → Bool
  greater ctx u v = cmp u v (ctx u) (ctx v)

  -- `demand == alloc`
  abbrev pub is_met : (ℕ → FsContext D) → ℕ → Bool
  is_met ctx u = eqb_ℤ (ctx u).demand (ctx u).alloc

  -- A push_back of each user of the range, and its insertion.
  pub load : (ℕ → FsContext D) → List ℕ → FsSelect → FsSelect
  load ctx [] s = s
  load ctx (u ∷ us) s = load ctx us (record s {
    heap = write s.heap s.size u;
    size = s.size + 1;
    users = insert (ctx u).uid s.users;
  })

  -- The constructor.
  unfoldable pub make : (ℕ → FsContext D) → List ℕ → FsSelect
  unfolding load insert Heap.init
  make ctx us =
      let s = load ctx us (record { heap = λ i. 0; size = 0; users = [] }) in
      record s { heap = Heap.init (greater ctx) s.heap s.size }

  unfoldable pub add : (ℕ → FsContext D) → ℕ → FsSelect → Bool × FsSelect
  unfolding contains insert Heap.push
  add ctx u s =
      if is_met ctx u then (false, s) else if contains s.users (ctx u).uid then (false, s) else (
        true,
        record s {
          heap = Heap.push (greater ctx) (write s.heap s.size u) s.size 0 u;
          size = s.size + 1;
          users = insert (ctx u).uid s.users;
        },
      )

  -- A user whose demand is met leaves from the top.
  unfoldable pub drop_top : (ℕ → FsContext D) → FsSelect → FsSelect
  unfolding erase Heap.pop_to_rear
  drop_top ctx s = record s {
    heap = Heap.pop_to_rear (greater ctx) s.heap s.size;
    size = s.size - 1;
    users = erase (ctx (s.heap 0)).uid s.users;
  }

  -- The `for` of operator(), with as many rounds as there are users in the heap.
  pub settle : ℕ → (ℕ → FsContext D) → FsSelect → FsSelect
  settle zero ctx s = s
  settle (suc k) ctx s =
      let rest = settle k ctx (drop_top ctx s) in if is_met ctx (s.heap 0) then rest else s

  -- `++alloc`
  abbrev pub allot : (ℕ → FsContext D) → ℕ → ℕ → FsContext D
  allot ctx u = write ctx u (record (ctx u) { alloc = (ctx u).alloc +ℤ pos 1 })

  -- operator(): the selected user, `none` for `_end`, with the memory and the selector after it
  unfoldable pub select : (ℕ → FsContext D) → FsSelect → Option ℕ × (ℕ → FsContext D) × FsSelect
  unfolding settle drop_top Heap.adjust
  select ctx s =
      let t = settle s.size ctx s in
      let top = t.heap 0 in
      let after = allot ctx top in
      if t.size == 0
      then (none, ctx, t)
      else (some top, after, record t { heap = Heap.adjust (greater after) t.heap t.size 0 top })
