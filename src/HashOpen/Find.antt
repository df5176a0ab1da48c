-- ===== src/HashOpen/Find.antt =====
-- openhash_get finds the keys of the table.
use colossal.Prelude.{
  ℕ, zero, suc, ◌+◌, ◌-◌, ◌*◌, ◌<◌, ◌≡◌, ◌∙◌, refl, sym, ap, subst, ◌⊎◌, inl, inr, Bool, true,
  false, not, ◌&&◌, ◌||◌, Option, some, arith, Bool-cases, not_both, ==_iff, ◌==◌, ltb,
  if◌then◌else◌,
}
use native.Mathlib.Nat
use colossal.HashOpen.{OpenHash, goes_on, get_loop, get, next}
use colossal.HashOpen.Probe.{slot, tri}
use colossal.HashOpen.Table.{IsKey, path, live, IsTable, IsAbsent, Models, read}
use colossal.HashOpen.Steps.{first, fails, reaches, advance, returns, start}

flag_cases :
    (e d b : Bool)
    → not e && (d || not b) ≡ false
    → (e ≡ true) ⊎ ((not (e || d) ≡ true) × (b ≡ true))
flag_cases true d b h = inl refl
flag_cases false false true h = inr (refl, refl)
flag_cases false true b h = absurd (ground arith)
flag_cases false false false h = absurd (ground arith)

live_cases :
    (e d b : Bool) → not (e || d) ≡ true → b ≡ true → (not e && (d || not b) ≡ false) × (e ≡ false)
live_cases false false true h g = (refl, refl)
live_cases false false false h g = absurd (ground arith)
live_cases false true b h g = absurd (ground arith)
live_cases true d b h g = absurd (ground arith)

module _ {ℓ} {K V : Type ℓ} (hashfn : K → ℕ) (equalfn : K → K → Bool) where
  -- Where the search for a key stops.
  pub record Stop (h : OpenHash K V) (key : K) : Type 0 where
    pub at : ℕ
    pub within : at < h.nbucket
    pub stops : goes_on hashfn equalfn h key (path hashfn equalfn h key at) ≡ false
    pub before :
        (u : ℕ) → u < at → goes_on hashfn equalfn h key (path hashfn equalfn h key u) ≡ true

  pub search : (h : OpenHash K V) (key : K) → IsTable hashfn equalfn h → Stop h key
  search h key table =
      let (i, l, e) =
        fails (λ f. not f.empty) h.flags h.nbucket (omega (arith, table.occupied, table.room)) in
      let (s, m, there) = reaches h.nbucket table.exponent (hashfn key) i table.power l in
      let full : not (h.flags (path hashfn equalfn h key s)).empty ≡ false =
        ap (λ j. not (h.flags j).empty) there ∙ e in
      let (t, n, stop, before) =
        first (λ u. goes_on hashfn equalfn h key (path hashfn equalfn h key u)) s (rw full refl) in
      record { at = t; within = omega arith; stops = stop; before = before }

  -- What openhash_get makes of the bucket where the search stops.
  abbrev pub answer : OpenHash K V → ℕ → ℕ
  answer h i = if (h.flags i).empty then h.nbucket else i

  get_loop-next :
      (h : OpenHash K V) (key : K) (n i s last : ℕ)
      → goes_on hashfn equalfn h key i ≡ true
      → (next (h.nbucket - 1) i (s + 1) == last) ≡ false
      → get_loop hashfn equalfn (suc n) h key i s last
        ≡ get_loop hashfn equalfn n h key (next (h.nbucket - 1) i (s + 1)) (s + 1) last
  unfolding get_loop
  get_loop-next h key n i s last a b = rw (get_loop, a, b) refl

  -- The loop of openhash_get goes on to where the search stops.
  get_loop-Stop :
      (h : OpenHash K V) (key : K)
      → IsTable hashfn equalfn h
      → (stop : Stop h key) (d n s : ℕ) → s + d ≡ stop.at
      → d < n
      → let walk = path hashfn equalfn h key in
        get_loop hashfn equalfn n h key (walk s) s (walk 0) ≡ some (answer h (walk stop.at))
  unfolding get_loop
  get_loop-Stop h key table stop d zero s e m = absurd (omega arith)
  get_loop-Stop h key table stop zero (suc n) s e m =
      let walk = path hashfn equalfn h key in
      let same : s ≡ stop.at = omega arith in
      subst
        (λ u.
          get_loop hashfn equalfn (suc n) h key (walk u) u (walk 0)
          ≡ some (answer h (walk stop.at)))
        (sym same) (rw (get_loop, stop.stops) refl)
  get_loop-Stop h key table stop (suc d) (suc n) s e m =
      let within = stop.within in
      let walk = path hashfn equalfn h key in
      let step = advance h.nbucket table.exponent (hashfn key) s table.power in
      let new =
        returns h.nbucket table.exponent (hashfn key) (s + 1) table.power (omega arith)
          (omega arith) in
      get_loop-next h key n (walk s) s (walk 0) (stop.before s (omega arith))
        (ap (λ j. j == walk 0) step ∙ new)
      ∙ ap (λ j. get_loop hashfn equalfn n h key j (s + 1) (walk 0)) step
      ∙ get_loop-Stop h key table stop d n (s + 1) (omega arith) (omega arith)

  pub get-Stop :
      (h : OpenHash K V) (key : K)
      → IsTable hashfn equalfn h
      → (stop : Stop h key)
      → get hashfn equalfn h key ≡ some (answer h (path hashfn equalfn h key stop.at))
  unfolding get
  get-Stop h key table stop =
      let within = stop.within in
      let some_bucket : (h.nbucket == 0) ≡ false = ground arith in
      rw (some_bucket, start h.nbucket table.exponent (hashfn key) table.power)
        (get_loop-Stop h key table stop stop.at (2 * h.nbucket) 0 (omega arith) (omega arith))

  pub path-lt :
      (h : OpenHash K V) (key : K)
      → IsTable hashfn equalfn h
      → (s : ℕ) → path hashfn equalfn h key s < h.nbucket
  path-lt h key table s = Nat.mod-lt (hashfn key + tri s) (omega (arith, table.room))

  -- A search stops at an empty bucket, or at a live one with an equal key.
  pub stop-cases :
      (h : OpenHash K V) (key : K) (i : ℕ)
      → goes_on hashfn equalfn h key i ≡ false
      → ((h.flags i).empty ≡ true)
        ⊎ ((live hashfn equalfn h i ≡ true) × (equalfn (h.keys i) key ≡ true))
  stop-cases h key i e = flag_cases (h.flags i).empty (h.flags i).deleted (equalfn (h.keys i) key) e

  -- A search does not go on at a live bucket with an equal key.
  pub live-stops :
      (h : OpenHash K V) (key : K) (i : ℕ)
      → live hashfn equalfn h i ≡ true
      → equalfn (h.keys i) key ≡ true
      → (goes_on hashfn equalfn h key i ≡ false) × ((h.flags i).empty ≡ false)
  live-stops h key i l e =
      live_cases (h.flags i).empty (h.flags i).deleted (equalfn (h.keys i) key) l e

  module _ (laws : IsKey hashfn equalfn) where
    -- The search for a key stops at the live bucket of an equal key, if there is one.
    pub Stop-live :
        (h : OpenHash K V) (key : K) (table : IsTable hashfn equalfn h) (stop : Stop h key) (j : ℕ)
        → j < h.nbucket
        → live hashfn equalfn h j ≡ true
        → equalfn (h.keys j) key ≡ true
        → path hashfn equalfn h key stop.at ≡ j
    Stop-live h key table stop j l a e =
        let (s, m, there, full) = table.met j l a in
        let walk = path hashfn equalfn h key in
        let hash : hashfn (h.keys j) ≡ hashfn key = laws.hash (h.keys j) key e in
        let here : walk s ≡ j = ap (λ x. slot h.nbucket x s) (sym hash) ∙ there in
        elim (Bool-cases (ltb s stop.at)) [
          | inl early ↦
              let more : goes_on hashfn equalfn h key j ≡ true =
                sym (ap (goes_on hashfn equalfn h key) here) ∙ stop.before s (ground arith) in
              let over = (live-stops h key j a e).0 in
              absurd (not_both (goes_on hashfn equalfn h key j) more over)
          | inr late ↦ elim (Bool-cases (s == stop.at)) [
            | inl same ↦ ap walk (sym ((==_iff s stop.at).0 same)) ∙ here
            | inr later ↦
                let met : (h.flags (walk stop.at)).empty ≡ false =
                  ap (λ x. (h.flags (slot h.nbucket x stop.at)).empty) (sym hash)
                  ∙ full stop.at (ground arith) in
                elim (stop-cases h key (walk stop.at) stop.stops) [
                  | inl hole ↦ absurd (not_both (h.flags (walk stop.at)).empty hole met)
                  | inr (b, f) ↦ table.single (walk stop.at) j (path-lt h key table stop.at) l b a (
                      laws.chain (h.keys (walk stop.at)) key (h.keys j) f
                        (laws.turn (h.keys j) key e))
                ]
          ]
        ]

    -- If the search for a key stops at an empty bucket, the table does not have it.
    pub Stop-IsAbsent :
        (h : OpenHash K V) (key : K) (table : IsTable hashfn equalfn h) (stop : Stop h key)
        → (h.flags (path hashfn equalfn h key stop.at)).empty ≡ true
        → IsAbsent hashfn equalfn h key
    Stop-IsAbsent h key table stop hole j l a = elim (Bool-cases (equalfn (h.keys j) key)) [
      | inr differs ↦ differs
      | inl same ↦
          let there = Stop-live h key table stop j l a same in
          let full = ap (λ x. (h.flags x).empty) there ∙ (live-stops h key j a same).1 in
          absurd (not_both (h.flags (path hashfn equalfn h key stop.at)).empty hole full)
    ]

    -- What an iterator of openhash_get is: the end for an absent key, or the live bucket of the key.
    abbrev pub IsFound : OpenHash K V → K → ℕ → Type 0
    IsFound h key x =
        ((x ≡ h.nbucket) × IsAbsent hashfn equalfn h key)
        ⊎ ((x < h.nbucket) × (live hashfn equalfn h x ≡ true) × (equalfn (h.keys x) key ≡ true))

    pub get-IsFound :
        (h : OpenHash K V) (key : K)
        → IsTable hashfn equalfn h
        → (x : ℕ) × (get hashfn equalfn h key ≡ some x) × IsFound h key x
    get-IsFound h key table =
        let stop = search h key table in
        let i = path hashfn equalfn h key stop.at in
        (
          answer h i,
          get-Stop h key table stop,
          elim (stop-cases h key i stop.stops) [
            | inl hole ↦ inl (rw hole refl, Stop-IsAbsent h key table stop hole)
            | inr (a, same) ↦
                let here : i ≡ answer h i = rw (live-stops h key i a same).1 refl in
                inr (
                  subst
                    (λ x.
                      (x < h.nbucket)
                      × (live hashfn equalfn h x ≡ true)
                      × (equalfn (h.keys x) key ≡ true))
                    here (path-lt h key table stop.at, a, same))
          ],
        )

    -- If equality of keys is an equivalence that the hash respects, and the table stands for a map,
    -- openhash_get returns: an iterator whose value is that of the map, nbucket for a key that the map
    -- does not have.
    pub get-Models :
        (h : OpenHash K V) (m : K → Option V) (key : K)
        → Models hashfn equalfn h m
        → (x : ℕ) × (get hashfn equalfn h key ≡ some x) × (read hashfn equalfn h x ≡ m key)
    get-Models h m key models =
        let (x, found, cases) = get-IsFound h key models.table in
        (
          x,
          found,
          elim cases [
            | inl (end, gone) ↦
                let last : (x == h.nbucket) ≡ true = ground arith in
                rw (last, models.absent key gone) refl
            | inr (l, a, same) ↦
                let inside : (x == h.nbucket) ≡ false = ground arith in
                rw (inside, models.holds x key l a same) refl
          ],
        )
