-- ===== src/Select/Make.antt =====
-- The constructor and add() of fs_select.
use colossal.Prelude.{
  ◌⊎◌, ℕ, ◌+◌, ◌≤◌, ◌≡◌, refl, inl, inr, Bool, true, false, not, ◌||◌, List, [], ◌∷◌, ◌==◌,
  if◌then◌else◌, bit, count, arith, write, count-push_back, Bool-cases,
}
use native.Mathlib.Numerals.{add-one}
use colossal.Heap
use colossal.Heap.Order.{IsWeakOrder}
use colossal.Heap.Adjust.{init-IsHeap}
use colossal.Heap.Entries.{init-same}
use colossal.Heap.Sort.{push_back-IsHeap}
use colossal.Fsched.{FsContext}
use colossal.Select.{FsSelect, greater, is_met, contains, insert, load, make, add}
use colossal.Select.Settle.{IsReady}

-- How many users of a list pass the test.
abbrev pub occurs : (ℕ → Bool) → List ℕ → ℕ
occurs p [] = 0
occurs p (u ∷ us) = bit (p u) + occurs p us

bit_le : (b : Bool) → bit b ≤ 1
bit_le true = omega arith
bit_le false = omega arith

module _ {ℓ} {D : Type ℓ} (cmp : ℕ → ℕ → FsContext D → FsContext D → Bool) where
  load_lem :
      (ctx : ℕ → FsContext D) (us : List ℕ) (s : FsSelect) (p : ℕ → Bool)
      → count p (load cmp ctx us s).heap (load cmp ctx us s).size
        ≡ count p s.heap s.size + occurs p us
  unfolding load
  load_lem ctx [] s p = omega arith
  load_lem ctx (u ∷ us) s p = omega (
    arith,
    load_lem ctx us
        (record s {
          heap = write s.heap s.size u;
          size = s.size + 1;
          users = insert (ctx u).uid s.users;
        })
        p,
    count-push_back p s.heap s.size u,
  )

  module _ (ctx : ℕ → FsContext D) (laws : IsWeakOrder (greater cmp ctx)) where
    -- Under a weak order, the constructor makes a heap without duplicates of a range without
    -- repetition, which holds each user of the range and no other.
    pub make-IsReady :
        (us : List ℕ)
        → ((v : ℕ) → occurs (λ u. u == v) us ≤ 1)
        → IsReady cmp ctx (make cmp ctx us)
          × ((p : ℕ → Bool) → count p (make cmp ctx us).heap (make cmp ctx us).size ≡ occurs p us)
    unfolding make
    make-IsReady us once =
        let start : FsSelect = record { heap = λ i. 0; size = 0; users = [] } in
        let s = load cmp ctx us start in
        let same : (p : ℕ → Bool)
            → count p (Heap.init (greater cmp ctx) s.heap s.size) s.size ≡ occurs p us =
          λ p.
            omega (arith, init-same s.size (greater cmp ctx) s.heap p, load_lem ctx us start p) in
        (
          record {
            heap = init-IsHeap (greater cmp ctx) laws s.size s.heap;
            distinct = λ v. omega (arith, same (λ u. u == v), once v);
          },
          same,
        )

    -- If the users are a heap without duplicates under a weak order and `u` is not among them, add()
    -- accepts `u` exactly if its demand is not met and its id is not known. It leaves the selector
    -- alone if it refuses, and else adds `u` and nothing else, the users staying such a heap.
    add_correct :
        (u : ℕ) (s : FsSelect)
        → IsReady cmp ctx s
        → count (λ v. v == u) s.heap s.size ≡ 0
        → let (added, s') = add cmp ctx u s in
          IsReady cmp ctx s'
          × (added ≡ not (is_met cmp ctx u || contains s.users (ctx u).uid))
          × ((added ≡ true) ⊎ (s' ≡ s))
          × ((p : ℕ → Bool)
              → count p s'.heap s'.size ≡ (if added then bit (p u) else 0) + count p s.heap s.size)
    unfolding add
    add_correct u s r fresh = elim (Bool-cases (is_met cmp ctx u)) [
      | inl met ↦ rw met (r, refl, inr refl, λ p. omega arith)
      | inr unmet ↦ elim (Bool-cases (contains s.users (ctx u).uid)) [
        | inl known ↦ rw (unmet, known) (r, refl, inr refl, λ p. omega arith)
        | inr unknown ↦
            let (h, c) = push_back-IsHeap _ laws s.size s.heap u r.heap in
            rw (unmet, unknown, add-one)
              (
                record {
                  heap = h;
                  distinct = λ v. elim (Bool-cases (u == v)) [
                    | inl q ↦
                        let e : u ≡ v = ground arith in
                        omega (arith, c (λ w. w == v), bit_le (u == v), rw e at fresh)
                    | inr q ↦ ground (arith, c (λ w. w == v), r.distinct v)
                  ];
                },
                refl,
                inl refl,
                λ p. c p,
              )
      ]
    ]
