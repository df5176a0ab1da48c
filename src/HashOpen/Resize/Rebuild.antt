-- ===== src/HashOpen/Resize/Rebuild.antt =====
-- openhash_resize as a whole.
use colossal.Prelude.{
  ℕ, zero, suc, ◌^◌, ◌<◌, ◌≡◌, ◌∙◌, refl, sym, ap, inl, inr, Bool, true, false, not, ◌||◌, Option,
  some, arith, Bool-cases, ltb, leb, count, count-none, bit,
}
use colossal.HashOpen.{Flag, is_live, fresh, load, OpenHash}
use colossal.HashOpen.Table.{IsKey, Models}
use colossal.HashOpen.Resize.{move_loop, resize}
use colossal.HashOpen.Resize.Kick.{old, new, stored, full, or_right}
use colossal.HashOpen.Resize.Wrote.{and_both, and_dead}
use colossal.HashOpen.Resize.Move.{Moved, IsStored, start-IsBetween, move_loop-Moved}

count-agree {ℓ} :
    {A : Type ℓ} (p q : A → Bool) (b : ℕ → A) (n : ℕ)
    → ((i : ℕ) → p (b i) ≡ q (b i))
    → count p b n ≡ count q b n
count-agree p q b zero h = refl
count-agree p q b (suc n) h = omega (arith, ap bit (h n), count-agree p q b n h)

clean_live : (e d : Bool) → d ≡ false → not (e || d) ≡ not e
clean_live e d h = ground arith

or_cut : (a b : Bool) → a ≡ false → (a || b) ≡ true → b ≡ true
or_cut true b h g = absurd (ground arith)
or_cut false b h g = g

module _ {ℓ} {K V : Type ℓ} (hashfn : K → ℕ) (equalfn : K → K → Bool) where
  -- The table that openhash_resize leaves.
  abbrev rebuilt : ℕ → ℕ → OpenHash K V × (ℕ → Flag) → OpenHash K V
  rebuilt N nelem r = record r.0 { flags = r.1; nbucket = N; noccupied = nelem; bound = load N }

  module _ (laws : IsKey hashfn equalfn) (m : K → Option V) (N k : ℕ) (power : N ≡ 2 ^ k) where
    module _ (h : OpenHash K V) (r : OpenHash K V × (ℕ → Flag))
        (moved : Moved hashfn equalfn m h N r) where
      live-full : (i : ℕ) → is_live (r.1 i) ≡ full (r.1 i)
      live-full i = clean_live (r.1 i).empty (r.1 i).deleted (moved.between.moving.clean i)

      none_old : (i : ℕ) → old r.0.nbucket r.0.flags i ≡ false
      none_old i = elim (Bool-cases (ltb i r.0.nbucket)) [
        | inl inside ↦ and_dead (ltb i r.0.nbucket) _ (moved.dead i (ground arith))
        | inr outside ↦ rw outside refl
      ]

      stored_here : (i : ℕ) → i < N → is_live (r.1 i) ≡ true → new N r.1 i ≡ true
      stored_here i l a =
          let inside : ltb i N ≡ true = ground arith in
          let filled : not (r.1 i).empty ≡ true = sym (live-full i) ∙ a in rw (inside, filled) refl

      stored_before :
          (i : ℕ) → i < N → is_live (r.1 i) ≡ true → stored r.0.nbucket r.0.flags N r.1 i ≡ true
      stored_before i l a = or_right _ _ (stored_here i l a)

      live_of_stored :
          (i : ℕ) → stored r.0.nbucket r.0.flags N r.1 i ≡ true → (i < N) × (is_live (r.1 i) ≡ true)
      live_of_stored i a =
          let (inside, filled) = and_both (ltb i N) (full (r.1 i)) (or_cut _ _ (none_old i) a) in
          (ground arith, live-full i ∙ filled)

      rebuilt-Models : h.nelem < N → Models hashfn equalfn (rebuilt N h.nelem r) m
      rebuilt-Models room =
          let map = moved.between.map in
          let counted = moved.between.counted in
          let occupied : count full r.1 N ≡ h.nelem =
            omega (
              arith,
              counted,
              moved.elements,
              count-none is_live r.0.flags r.0.nbucket moved.dead,
            ) in
          record {
            table = record {
              exponent = k;
              power = power;
              occupied = occupied;
              elements = count-agree is_live full r.1 N live-full ∙ occupied ∙ sym moved.elements;
              room = room;
              met = λ i l a. moved.between.moving.met i (stored_here i l a);
              single =
                  λ i j l o a b e. map.single i j (stored_before i l a) (stored_before j o b) e;
            };
            holds = λ i q l a e. map.holds i q (stored_before i l a) e;
            absent = λ q gone. map.absent q (λ i a. let (l, b) = live_of_stored i a in gone i l b);
          }

    resize-done :
        (alloc : ℕ → Bool) (h : OpenHash K V) (r : OpenHash K V × (ℕ → Flag))
        → leb (load N) h.nelem ≡ false
        → alloc 0 ≡ true
        → alloc 1 ≡ true
        → alloc 2 ≡ true
        → move_loop hashfn equalfn h.nbucket 0 N h (λ i. fresh) ≡ some r
        → resize hashfn equalfn alloc h N ≡ some (rebuilt N h.nelem r, true)
    unfolding resize
    resize-done alloc h r fits a b c e = elim (Bool-cases (ltb h.nbucket N)) [
      | inl grows ↦ rw (resize, fits, a, b, c, grows, e) refl
      | inr shrinks ↦ rw (resize, fits, a, b, c, shrinks, e) refl
    ]

    -- If equality of keys is an equivalence that the hash respects, the live buckets are the graph of a
    -- map and counted, the allocations succeed, and the elements are fewer than the load of the new
    -- number of buckets, a power of two, openhash_resize leaves a table that stands for the same map.
    pub resize-Models :
        (alloc : ℕ → Bool) (h : OpenHash K V)
        → alloc 0 ≡ true
        → alloc 1 ≡ true
        → alloc 2 ≡ true
        → IsStored hashfn equalfn h m
        → h.nelem < load N
        → (after : OpenHash K V) × (resize hashfn equalfn alloc h N ≡ some (after, true))
          × Models hashfn equalfn after m
          × (after.nbucket ≡ N)
          × (after.bound ≡ load N)
          × (after.noccupied ≡ h.nelem)
    resize-Models alloc h a b c s few =
        let room : h.nelem < N = omega arith in
        let (r, e, moved) =
          move_loop-Moved hashfn equalfn laws m N k power h.nbucket 0 h (λ i. fresh)
            (start-IsBetween hashfn equalfn laws m N k power h s) room (omega arith)
            (λ i l. absurd (omega arith)) in
        let fits : leb (load N) h.nelem ≡ false = ground arith in
        (
          rebuilt N h.nelem r,
          resize-done alloc h r fits a b c e,
          rebuilt-Models h r moved room,
          refl,
          refl,
          refl,
        )
