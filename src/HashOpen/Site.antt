-- ===== src/HashOpen/Site.antt =====
-- The bucket that openhash_set chooses.
use colossal.Prelude.{
  ℕ, zero, suc, ◌+◌, ◌-◌, ◌*◌, ◌<◌, ◌≡◌, ◌∙◌, refl, sym, ap, subst, ◌⊎◌, inl, inr, Bool, true,
  false, not, ◌&&◌, ◌||◌, some, arith, Bool-cases, ◌==◌, ==_refl, if◌then◌else◌,
}
use colossal.HashOpen.{OpenHash, goes_on, next, set_loop, choose, find_from, find_site}
use colossal.HashOpen.Table.{IsKey, live, IsMet, path, IsTable, IsAbsent}
use colossal.HashOpen.Find.{Stop, search, stop-cases, Stop-IsAbsent, path-lt, live-stops}
use colossal.HashOpen.Steps.{advance, returns, start}

step_full : (e d b : Bool) → not e && (d || not b) ≡ true → e ≡ false
step_full false d b h = refl
step_full true d b h = absurd (ground arith)

deleted_dead : (e d : Bool) → d ≡ true → not (e || d) ≡ false
deleted_dead true d h = refl
deleted_dead false true h = refl
deleted_dead false false h = absurd (ground arith)

empty_dead : (e d : Bool) → e ≡ true → not (e || d) ≡ false
empty_dead true d h = refl
empty_dead false d h = absurd (ground arith)

module _ {ℓ} {K V : Type ℓ} (hashfn : K → ℕ) (equalfn : K → K → Bool) where
  -- `site` before a step: the end, or a bucket of a deleted key that the search has met.
  abbrev IsSite : OpenHash K V → K → ℕ → ℕ → Type 0
  IsSite h key s x =
      (x ≡ h.nbucket)
      ⊎ ((u : ℕ) × (u < s) × (path hashfn equalfn h key u ≡ x) × ((h.flags x).deleted ≡ true))

  set_loop-next :
      (h : OpenHash K V) (key : K) (n i s last site : ℕ)
      → goes_on hashfn equalfn h key i ≡ true
      → (next (h.nbucket - 1) i (s + 1) == last) ≡ false
      → set_loop hashfn equalfn (suc n) h key i s last site
        ≡ set_loop hashfn equalfn n h key
            (next (h.nbucket - 1) i (s + 1))
            (s + 1)
            last
            (if (h.flags i).deleted then i else site)
  unfolding set_loop
  set_loop-next h key n i s last site a b = rw (set_loop, a, b) refl

  IsSite-next :
      (h : OpenHash K V) (key : K) (s site : ℕ)
      → IsSite h key s site
      → let i = path hashfn equalfn h key s in
        IsSite h key (s + 1) (if (h.flags i).deleted then i else site)
  IsSite-next h key s site old =
      let i = path hashfn equalfn h key s in
      elim (Bool-cases (h.flags i).deleted) [
        | inl gone ↦ subst (IsSite h key (s + 1)) (rw gone refl) (inr (s, omega arith, refl, gone))
        | inr kept ↦ subst (IsSite h key (s + 1)) (rw kept refl) (elim old [
          | inl e ↦ inl e
          | inr (u, l, there, gone) ↦ inr (u, omega arith, there, gone)
        ])
      ]

  set_loop-Stop :
      (h : OpenHash K V) (key : K)
      → IsTable hashfn equalfn h
      → (stop : Stop hashfn equalfn h key) (d n s site : ℕ) → s + d ≡ stop.at
      → d < n
      → IsSite h key s site
      → let walk = path hashfn equalfn h key in
        (y : ℕ) × (set_loop hashfn equalfn n h key (walk s) s (walk 0) site
          ≡ some (walk stop.at, y, h.nbucket))
        × IsSite h key stop.at y
  unfolding set_loop
  set_loop-Stop h key table stop d zero s site e m old = absurd (omega arith)
  set_loop-Stop h key table stop zero (suc n) s site e m old =
      let walk = path hashfn equalfn h key in
      let same : stop.at ≡ s = omega arith in
      (
        site,
        subst
            (λ u.
              set_loop hashfn equalfn (suc n) h key (walk u) u (walk 0) site
              ≡ some (walk stop.at, site, h.nbucket))
            same (rw (set_loop, stop.stops) refl),
        subst (λ u. IsSite h key u site) (sym same) old,
      )
  set_loop-Stop h key table stop (suc d) (suc n) s site e m old =
      let within = stop.within in
      let walk = path hashfn equalfn h key in
      let step = advance h.nbucket table.exponent (hashfn key) s table.power in
      let new =
        returns h.nbucket table.exponent (hashfn key) (s + 1) table.power (omega arith)
          (omega arith) in
      let site' = if (h.flags (walk s)).deleted then walk s else site in
      let (y, found, last) =
        set_loop-Stop h key table stop d n (s + 1) site' (omega arith) (omega arith)
          (IsSite-next h key s site old) in
      (
        y,
        set_loop-next h key n (walk s) s (walk 0) site (stop.before s (omega arith))
              (ap (λ j. j == walk 0) step ∙ new)
            ∙ ap (λ j. set_loop hashfn equalfn n h key j (s + 1) (walk 0) site') step
            ∙ found,
        last,
      )

  -- A bucket for a key that the table does not have: the search meets it, and it holds no key.
  pub record IsFree (h : OpenHash K V) (key : K) (x : ℕ) : Type ℓ where
    pub met : IsMet hashfn equalfn h key x
    pub dead : live hashfn equalfn h x ≡ false
    pub gone : IsAbsent hashfn equalfn h key

  -- The bucket of the key, or a free one for it.
  abbrev pub IsChosen : OpenHash K V → K → ℕ → Type ℓ
  IsChosen h key x =
      IsFree h key x
      ⊎ ((x < h.nbucket) × (live hashfn equalfn h x ≡ true) × (equalfn (h.keys x) key ≡ true))

  module _ (laws : IsKey hashfn equalfn) (h : OpenHash K V) (key : K)
      (table : IsTable hashfn equalfn h) where
    -- Where the search stops at an empty bucket, each one up to there that holds no key is free.
    hole-IsFree :
        (stop : Stop hashfn equalfn h key) (u x : ℕ)
        → let walk = path hashfn equalfn h key in
          (h.flags (walk stop.at)).empty ≡ true
          → u < stop.at + 1
          → walk u ≡ x
          → live hashfn equalfn h x ≡ false
          → IsFree h key x
    hole-IsFree stop u x hole l there dead =
        let within = stop.within in
        let walk = path hashfn equalfn h key in
        let full = λ (t : ℕ) (o : t < u). step_full _ _ _ (stop.before t (omega arith)) in
        record {
          met = (u, omega arith, there, full);
          dead = dead;
          gone = Stop-IsAbsent hashfn equalfn laws h key table stop hole;
        }

    choose-end : (i y : ℕ) → (y == h.nbucket) ≡ true → choose hashfn equalfn h (i, y, h.nbucket) ≡ i
    choose-end i y e = elim (Bool-cases (h.flags i).empty) [
      | inl hole ↦ rw (==_refl h.nbucket, e, hole) refl
      | inr full ↦ rw (==_refl h.nbucket, full) refl
    ]

    choose-spare :
        (i y : ℕ)
        → (h.flags i).empty ≡ true
        → (y == h.nbucket) ≡ false
        → choose hashfn equalfn h (i, y, h.nbucket) ≡ y
    choose-spare i y hole e = rw (==_refl h.nbucket, hole, e) refl

    choose-full :
        (i y : ℕ) → (h.flags i).empty ≡ false → choose hashfn equalfn h (i, y, h.nbucket) ≡ i
    choose-full i y full = rw (==_refl h.nbucket, full) refl

    choose-IsChosen :
        (stop : Stop hashfn equalfn h key) (y : ℕ)
        → IsSite h key stop.at y
        → IsChosen h key (choose hashfn equalfn h (path hashfn equalfn h key stop.at, y, h.nbucket))
    choose-IsChosen stop y site =
        let i = path hashfn equalfn h key stop.at in
        elim (stop-cases hashfn equalfn h key i stop.stops) [
          | inr (a, same) ↦
              let full = (live-stops hashfn equalfn h key i a same).1 in
              subst (IsChosen h key) (sym (choose-full i y full))
                (inr (path-lt hashfn equalfn h key table stop.at, a, same))
          | inl hole ↦ elim site [
            | inl end ↦
                let dead = empty_dead (h.flags i).empty (h.flags i).deleted hole in
                subst (IsChosen h key) (sym (choose-end i y (ground arith)))
                  (inl (hole-IsFree stop stop.at i hole (omega arith) refl dead))
            | inr (u, l, there, spare) ↦
                let small : y < h.nbucket =
                  subst (λ x. x < h.nbucket) there (path-lt hashfn equalfn h key table u) in
                let dead = deleted_dead (h.flags y).empty (h.flags y).deleted spare in
                subst (IsChosen h key) (sym (choose-spare i y hole (ground arith)))
                  (inl (hole-IsFree stop u y hole (omega arith) there dead))
          ]
        ]

    pub find_site-IsChosen : (x : ℕ) × (find_site hashfn equalfn h key ≡ some x) × IsChosen h key x
    unfolding find_site find_from
    find_site-IsChosen =
        let stop = search hashfn equalfn h key table in
        let within = stop.within in
        let walk = path hashfn equalfn h key in
        let begin = start h.nbucket table.exponent (hashfn key) table.power in
        elim (Bool-cases (h.flags (walk 0)).empty) [
          | inl hole ↦
              let dead = empty_dead (h.flags (walk 0)).empty (h.flags (walk 0)).deleted hole in
              let at_once : Stop hashfn equalfn h key = record {
                at = 0;
                within = omega arith;
                stops = rw hole refl;
                before = λ u l. absurd (omega arith);
              } in
              (
                walk 0,
                ap (find_from hashfn equalfn h key) begin ∙ rw (find_from, hole) refl,
                inl (hole-IsFree at_once 0 (walk 0) hole (omega arith) refl dead),
              )
          | inr full ↦
              let (y, found, site) =
                set_loop-Stop h key table stop stop.at (2 * h.nbucket) 0 h.nbucket (omega arith)
                  (omega arith) (inl refl) in
              (
                choose hashfn equalfn h (walk stop.at, y, h.nbucket),
                ap (find_from hashfn equalfn h key) begin ∙ rw (find_from, full, found) refl,
                choose-IsChosen stop y site,
              )
        ]
