-- ===== src/HashOpen/Resize/Place.antt =====
-- Each round of the loop that places pairs keeps the map, and the loop ends.
use colossal.Prelude.{
  ℕ, zero, suc, ◌+◌, ◌-◌, ◌^◌, ◌<◌, ◌≡◌, ◌∙◌, refl, sym, ap, ap₂, inl, inr, Bool, true, false, ◌||◌,
  Option, some, arith, Bool-cases, not_both, ◌==◌, ==_iff, ltb, write, write-at, write-off, count,
  count-write, bit,
}
use Prim.Native.Nat.{bit_and}
use native.Mathlib.Nat
use colossal.HashOpen.{Flag, is_live, set_del, OpenHash}
use colossal.HashOpen.Probe.{slot}
use colossal.HashOpen.Table.{IsKey}
use colossal.HashOpen.Steps.{start}
use colossal.HashOpen.Erase.{set_del-dead}
use colossal.HashOpen.Resize.{empty_loop, kick_loop}
use colossal.HashOpen.Resize.Carry.{Carries, put-Holds, kick-Carries}
use colossal.HashOpen.Resize.Kick.{
  old, stored, full, clear_empty, old-off, new-off, new-at, or_right, or_none, Hole, search-Hole,
  empty_loop-Hole,
}
use colossal.HashOpen.Resize.Wrote.{
  IsMoving, Kicked, wrote, taken, count-taken, wrote-IsMoving, and_none, and_dead, and_both,
  or_left,
}

module _ {ℓ} {K V : Type ℓ} (hashfn : K → ℕ) (equalfn : K → K → Bool) where
  module _ (laws : IsKey hashfn equalfn) (m : K → Option V) (N k : ℕ) (power : N ≡ 2 ^ k) where
    -- A pair placed in a bucket that holds none by the old flags.
    place-Kicked :
        (h : OpenHash K V) (G : ℕ → Flag) (key : K) (val : V)
        → IsMoving hashfn equalfn h N G
        → Carries hashfn equalfn m (stored h.nbucket h.flags N G) h.keys h.vals key val
        → count is_live h.flags h.nbucket + count full G N + 1 ≡ h.nelem
        → (hole : Hole N (hashfn key) G)
        → let x = slot N (hashfn key) hole.at in
          old h.nbucket h.flags x ≡ false
          → Kicked hashfn equalfn m h N (wrote hashfn equalfn h h.flags x key val, taken G x)
    place-Kicked h G key val moving c counted hole free =
        let x = slot N (hashfn key) hole.at in
        let l : x < N = Nat.mod-lt _ (omega (arith, hole.within)) in
        let off = λ (i : ℕ) (o : (i == x) ≡ false).
          ap (λ b. old h.nbucket h.flags i || b) (new-off N x i G (clear_empty (G x)) o) in
        record {
          buckets = refl;
          elements = refl;
          moving = wrote-IsMoving hashfn equalfn h N G h.flags key val moving hole (λ i a.
              elim (Bool-cases (i == x)) [
                | inr n ↦ (n, a)
                | inl p ↦ absurd (
                    not_both (old h.nbucket h.flags x)
                      (ap (old h.nbucket h.flags) (sym ((==_iff i x).0 p)) ∙ a) free)
              ]);
          map =
              put-Holds hashfn equalfn m laws _ _ h.keys h.vals x key val c
                (λ i a o. sym (off i o) ∙ a) (or_right _ _ (new-at N x G l)) (λ i o a. off i o ∙ a)
                (or_none _ _ free (and_none (ltb x N) (G x).empty hole.hole));
          counted = omega (arith, count-taken N G x l hole.hole, counted);
          fades = λ i a. a;
        }

    -- The pair of the bucket is taken up and the one in hand is placed there.
    swapped : OpenHash K V → ℕ → K → V → OpenHash K V
    swapped h x key val = wrote hashfn equalfn h (write h.flags x (set_del (h.flags x))) x key val

    pub old-fades :
        (h : OpenHash K V) (x i : ℕ)
        → old h.nbucket (write h.flags x (set_del (h.flags x))) i ≡ true
        → ((i == x) ≡ false) × (old h.nbucket h.flags i ≡ true)
    old-fades h x i a = elim (Bool-cases (i == x)) [
      | inr n ↦ (n, sym (old-off h.nbucket x i h.flags (set_del (h.flags x)) n) ∙ a)
      | inl p ↦
          let dead =
            ap is_live (write-at h.flags x i (set_del (h.flags x)) p) ∙ set_del-dead (h.flags x) in
          absurd (not_both _ a (and_dead (ltb i h.nbucket) _ dead))
    ]

    pub live-fades :
        (F : ℕ → Flag) (x i : ℕ)
        → is_live (F i) ≡ false
        → is_live (write F x (set_del (F x)) i) ≡ false
    live-fades F x i a = elim (Bool-cases (i == x)) [
      | inr n ↦ ap is_live (write-off F x i (set_del (F x)) n) ∙ a
      | inl p ↦ ap is_live (write-at F x i (set_del (F x)) p) ∙ set_del-dead (F x)
    ]

    pub count-fades :
        (F : ℕ → Flag) (x n : ℕ)
        → old n F x ≡ true
        → count is_live (write F x (set_del (F x))) n + 1 ≡ count is_live F n
    count-fades F x n a =
        let (inside, alive) = and_both (ltb x n) (is_live (F x)) a in
        omega (
          arith,
          count-write is_live F x n (set_del (F x)) (ground arith),
          ap bit alive,
          ap bit (set_del-dead (F x)),
        )

    swap-Carries :
        (h : OpenHash K V) (G : ℕ → Flag) (key : K) (val : V)
        → Carries hashfn equalfn m (stored h.nbucket h.flags N G) h.keys h.vals key val
        → (x : ℕ) → x < N
        → old h.nbucket h.flags x ≡ true
        → Carries hashfn equalfn m
            (stored h.nbucket (write h.flags x (set_del (h.flags x))) N (taken G x))
            (write h.keys x key)
            (write h.vals x val)
            (h.keys x)
            (h.vals x)
    swap-Carries h G key val c x l a =
        let off = λ (i : ℕ) (o : (i == x) ≡ false).
          ap₂ (λ b d. b || d) (old-off h.nbucket x i h.flags (set_del (h.flags x)) o)
            (new-off N x i G (clear_empty (G x)) o) in
        kick-Carries hashfn equalfn m laws _ _ h.keys h.vals x key val c
          (λ i b o. sym (off i o) ∙ b) (or_left _ _ a) (or_right _ _ (new-at N x G l))
          (λ i o b. off i o ∙ b)

    empty_loop-start :
        (G : ℕ → Flag) (key : K) (hole : Hole N (hashfn key) G)
        → empty_loop N G (N - 1) (bit_and (hashfn key) (N - 1)) 0
          ≡ some (slot N (hashfn key) hole.at)
    empty_loop-start G key hole =
        ap (λ i. empty_loop N G (N - 1) i 0) (start N k (hashfn key) power)
        ∙ empty_loop-Hole N k (hashfn key) G power hole hole.at N 0 (omega arith) hole.within

    kick_loop-last :
        (n : ℕ) (h : OpenHash K V) (G : ℕ → Flag) (key : K) (val : V) (x : ℕ)
        → empty_loop N G (N - 1) (bit_and (hashfn key) (N - 1)) 0 ≡ some x
        → old h.nbucket h.flags x ≡ false
        → kick_loop hashfn equalfn (suc n) N h G key val
          ≡ some (wrote hashfn equalfn h h.flags x key val, taken G x)
    unfolding kick_loop
    kick_loop-last n h G key val x found free = rw (kick_loop, found, free) refl

    kick_loop-next :
        (n : ℕ) (h : OpenHash K V) (G : ℕ → Flag) (key : K) (val : V) (x : ℕ)
        → empty_loop N G (N - 1) (bit_and (hashfn key) (N - 1)) 0 ≡ some x
        → old h.nbucket h.flags x ≡ true
        → kick_loop hashfn equalfn (suc n) N h G key val
          ≡ kick_loop hashfn equalfn n N (swapped h x key val) (taken G x) (h.keys x) (h.vals x)
    unfolding kick_loop swapped
    kick_loop-next n h G key val x found taken_up = rw (kick_loop, found, taken_up) refl

    -- With more rounds than there are pairs by the old flags, the loop ends.
    pub kick_loop-Kicked :
        (n : ℕ) (h : OpenHash K V) (G : ℕ → Flag) (key : K) (val : V)
        → IsMoving hashfn equalfn h N G
        → Carries hashfn equalfn m (stored h.nbucket h.flags N G) h.keys h.vals key val
        → count is_live h.flags h.nbucket + count full G N + 1 ≡ h.nelem
        → h.nelem < N
        → count is_live h.flags h.nbucket < n
        → (r : OpenHash K V × (ℕ → Flag)) × (kick_loop hashfn equalfn n N h G key val ≡ some r)
          × Kicked hashfn equalfn m h N r
    unfolding swapped
    kick_loop-Kicked zero h G key val moving c counted room fuel = absurd (omega arith)
    kick_loop-Kicked (suc n) h G key val moving c counted room fuel =
        let hole = search-Hole N k (hashfn key) G power (omega arith) in
        let x = slot N (hashfn key) hole.at in
        let l : x < N = Nat.mod-lt _ (omega (arith, hole.within)) in
        let found = empty_loop-start G key hole in
        elim (Bool-cases (old h.nbucket h.flags x)) [
          | inr free ↦ (
            (wrote hashfn equalfn h h.flags x key val, taken G x),
            kick_loop-last n h G key val x found free,
            place-Kicked h G key val moving c counted hole free,
          )
          | inl a ↦
              let F = write h.flags x (set_del (h.flags x)) in
              let less = count-fades h.flags x h.nbucket a in
              let more = count-taken N G x l hole.hole in
              let (r, e, kicked) =
                kick_loop-Kicked n (swapped h x key val) (taken G x) (h.keys x) (h.vals x)
                  (wrote-IsMoving hashfn equalfn h N G F key val moving hole (old-fades h x))
                  (swap-Carries h G key val c x l a) (omega (arith, less, more, counted)) room
                  (omega (arith, less, fuel)) in
              (
                r,
                kick_loop-next n h G key val x found a ∙ e,
                record {
                  buckets = kicked.buckets;
                  elements = kicked.elements;
                  moving = kicked.moving;
                  map = kicked.map;
                  counted = kicked.counted;
                  fades = λ i b. kicked.fades i (live-fades h.flags x i b);
                },
              )
        ]
