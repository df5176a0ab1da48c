-- ===== src/HashOpen/Resize/Move.antt =====
-- openhash_resize keeps the map.
use colossal.Prelude.{
  ℕ, zero, suc, ◌+◌, ◌^◌, ◌<◌, ◌≡◌, ◌∙◌, refl, sym, ap, inl, inr, Bool, true, false, ◌||◌, Option,
  some, arith, Bool-cases, not_both, ◌==◌, ==_iff, ==_refl, ltb, write, write-at, count, count-none,
}
use colossal.HashOpen.{Flag, is_live, set_del, fresh, OpenHash}
use colossal.HashOpen.Table.{IsKey, Models}
use colossal.HashOpen.Erase.{set_del-dead}
use colossal.HashOpen.Resize.{kick_loop, move_loop}
use colossal.HashOpen.Resize.Carry.{Holds, Carries, take-Carries}
use colossal.HashOpen.Resize.Kick.{old, new, stored, full, or_none, old-off}
use colossal.HashOpen.Resize.Place.{kick_loop-Kicked, old-fades, live-fades, count-fades}
use colossal.HashOpen.Resize.Wrote.{IsMoving, and_none, and_both, or_left, and_dead}

below : (i n : ℕ) → ltb i n ≡ true → i < n
below i n h = ground arith

or_false : (a : Bool) → (a || false) ≡ a
or_false true = refl
or_false false = refl

module _ {ℓ} {K V : Type ℓ} (hashfn : K → ℕ) (equalfn : K → K → Bool) where
  -- The table between two rounds of the loop over the old buckets.
  pub record IsBetween (m : K → Option V) (h : OpenHash K V) (N : ℕ) (G : ℕ → Flag) : Type ℓ where
    pub moving : IsMoving hashfn equalfn h N G
    pub map : Holds hashfn equalfn m (stored h.nbucket h.flags N G) h.keys h.vals
    pub counted : count is_live h.flags h.nbucket + count full G N ≡ h.nelem

  -- The table behind that loop.
  pub record Moved (m : K → Option V) (h : OpenHash K V) (N : ℕ) (r : OpenHash K V × (ℕ → Flag))
      : Type ℓ where
    pub between : IsBetween m r.0 N r.1
    pub elements : r.0.nelem ≡ h.nelem
    pub dead : (i : ℕ) → i < r.0.nbucket → is_live (r.0.flags i) ≡ false

  module _ (laws : IsKey hashfn equalfn) (m : K → Option V) (N k : ℕ) (power : N ≡ 2 ^ k) where
    marked : OpenHash K V → ℕ → OpenHash K V
    marked h j = record h { flags = write h.flags j (set_del (h.flags j)) }

    marked-IsMoving :
        (h : OpenHash K V) (G : ℕ → Flag) (j : ℕ)
        → IsMoving hashfn equalfn h N G
        → IsMoving hashfn equalfn (marked h j) N G
    unfolding marked
    marked-IsMoving h G j moving = record {
      apart = λ i a. moving.apart i (old-fades hashfn equalfn laws m N k power h j i a).1;
      met = moving.met;
      clean = moving.clean;
    }

    marked-Carries :
        (h : OpenHash K V) (G : ℕ → Flag) (j : ℕ)
        → IsBetween m h N G
        → old h.nbucket h.flags j ≡ true
        → Carries hashfn equalfn m
            (stored h.nbucket (write h.flags j (set_del (h.flags j))) N G)
            h.keys
            h.vals
            (h.keys j)
            (h.vals j)
    marked-Carries h G j b a =
        let F = write h.flags j (set_del (h.flags j)) in
        let off = λ (i : ℕ) (o : (i == j) ≡ false).
          ap (λ c. c || new N G i) (old-off h.nbucket j i h.flags (set_del (h.flags j)) o) in
        let gone : stored h.nbucket F N G j ≡ false =
          or_none _ _
            (and_dead (ltb j h.nbucket) _ (
              ap is_live (write-at h.flags j j (set_del (h.flags j)) (==_refl j))
              ∙ set_del-dead (h.flags j)))
            (b.moving.apart j a) in
        take-Carries hashfn equalfn m laws (stored h.nbucket h.flags N G) (stored h.nbucket F N G)
          h.keys h.vals j b.map (or_left _ _ a)
          (λ i c. elim (Bool-cases (i == j)) [
            | inl p ↦ absurd (
                not_both (stored h.nbucket F N G j)
                  (ap (stored h.nbucket F N G) (sym ((==_iff i j).0 p)) ∙ c) gone)
            | inr n ↦ (n, sym (off i n) ∙ c)
          ])
          (λ i n c. off i n ∙ c)

    move_loop-skip :
        (rest j : ℕ) (h : OpenHash K V) (G : ℕ → Flag)
        → is_live (h.flags j) ≡ false
        → move_loop hashfn equalfn (suc rest) j N h G ≡ move_loop hashfn equalfn rest (j + 1) N h G
    unfolding move_loop
    move_loop-skip rest j h G a = rw (move_loop, a) refl

    move_loop-take :
        (rest j : ℕ) (h : OpenHash K V) (G : ℕ → Flag) (r : OpenHash K V × (ℕ → Flag))
        → is_live (h.flags j) ≡ true
        → kick_loop hashfn equalfn (h.nelem + 1) N (marked h j) G (h.keys j) (h.vals j) ≡ some r
        → move_loop hashfn equalfn (suc rest) j N h G
          ≡ move_loop hashfn equalfn rest (j + 1) N r.0 r.1
    unfolding move_loop marked
    move_loop-take rest j h G r a e = rw (move_loop, a, e) refl

    dead_up_to :
        (h : OpenHash K V) (j : ℕ)
        → ((i : ℕ) → i < j → is_live (h.flags i) ≡ false)
        → is_live (h.flags j) ≡ false
        → (i : ℕ) → i < j + 1
        → is_live (h.flags i) ≡ false
    dead_up_to h j dead last i l = elim (Bool-cases (i == j)) [
      | inl p ↦ ap (λ x. is_live (h.flags x)) ((==_iff i j).0 p) ∙ last
      | inr n ↦ dead i (ground arith)
    ]

    -- The loop over the old buckets ends, and keeps the map.
    pub move_loop-Moved :
        (rest j : ℕ) (h : OpenHash K V) (G : ℕ → Flag)
        → IsBetween m h N G
        → h.nelem < N
        → j + rest ≡ h.nbucket
        → ((i : ℕ) → i < j → is_live (h.flags i) ≡ false)
        → (r : OpenHash K V × (ℕ → Flag)) × (move_loop hashfn equalfn rest j N h G ≡ some r)
          × Moved m h N r
    unfolding move_loop marked
    move_loop-Moved zero j h G b room e dead =
        ((h, G), refl, record { between = b; elements = refl; dead = λ i l. dead i (omega arith) })
    move_loop-Moved (suc rest) j h G b room e dead = elim (Bool-cases (is_live (h.flags j))) [
      | inr a ↦
          let (r, f, moved) =
            move_loop-Moved rest (j + 1) h G b room (omega arith) (dead_up_to h j dead a) in
          (r, move_loop-skip rest j h G a ∙ f, moved)
      | inl a ↦
          let inside : ltb j h.nbucket ≡ true = ground arith in
          let held : old h.nbucket h.flags j ≡ true = rw (inside, a) refl in
          let less = count-fades hashfn equalfn laws m N k power h.flags j h.nbucket held in
          let (r, f, kicked) =
            kick_loop-Kicked hashfn equalfn laws m N k power (h.nelem + 1) (marked h j) G (h.keys j)
              (h.vals j) (marked-IsMoving h G j b.moving) (marked-Carries h G j b held)
              (omega (arith, less, b.counted)) room (omega (arith, less, b.counted)) in
          let between' : IsBetween m r.0 N r.1 = record {
            moving = kicked.moving;
            map = kicked.map;
            counted = kicked.counted ∙ sym kicked.elements;
          } in
          let size = kicked.buckets in
          let room' : r.0.nelem < N = omega (arith, kicked.elements, room) in
          let cleared =
            ap is_live (write-at h.flags j j (set_del (h.flags j)) (==_refl j))
            ∙ set_del-dead (h.flags j) in
          let fade = live-fades hashfn equalfn laws m N k power h.flags j in
          let dead' =
            dead_up_to r.0 j (λ i l. kicked.fades i (fade i (dead i l))) (kicked.fades j cleared) in
          let (q, g, moved) =
            move_loop-Moved rest (j + 1) r.0 r.1 between' room' (omega (arith, size, e)) dead' in
          (
            q,
            move_loop-take rest j h G r a f ∙ g,
            record {
              between = moved.between;
              elements = moved.elements ∙ kicked.elements;
              dead = moved.dead;
            },
          )
    ]

  -- What openhash_resize needs of a table: its live buckets are the graph of the map, and counted.
  pub record IsStored (h : OpenHash K V) (m : K → Option V) : Type ℓ where
    pub map : Holds hashfn equalfn m (old h.nbucket h.flags) h.keys h.vals
    pub counted : count is_live h.flags h.nbucket ≡ h.nelem

  pub Models-IsStored :
      (h : OpenHash K V) (m : K → Option V) → Models hashfn equalfn h m → IsStored h m
  Models-IsStored h m models =
      let split = λ (i : ℕ) (a : old h.nbucket h.flags i ≡ true).
        and_both (ltb i h.nbucket) (is_live (h.flags i)) a in
      let inside =
        λ (i : ℕ) (a : old h.nbucket h.flags i ≡ true). below i h.nbucket (split i a).0 in
      record {
        map = record {
          single = λ i j a b e.
              models.table.single i j (inside i a) (inside j b) (split i a).1 (split j b).1 e;
          holds = λ i q a e. models.holds i q (inside i a) (split i a).1 e;
          absent = λ q gone.
              models.absent q
                (λ i l a. gone i (let o : ltb i h.nbucket ≡ true = ground arith in rw (o, a) refl));
        };
        counted = models.table.elements;
      }

  module _ (laws : IsKey hashfn equalfn) (m : K → Option V) (N k : ℕ) (power : N ≡ 2 ^ k) where
    none_new : (i : ℕ) → new N (λ i. fresh) i ≡ false
    none_new i = and_none (ltb i N) true refl

    stored-old :
        (h : OpenHash K V) (i : ℕ)
        → stored h.nbucket h.flags N (λ i. fresh) i ≡ old h.nbucket h.flags i
    stored-old h i = rw (none_new i) (or_false (old h.nbucket h.flags i))

    pub start-IsBetween : (h : OpenHash K V) → IsStored h m → IsBetween m h N (λ i. fresh)
    start-IsBetween h s = record {
      moving = record {
        apart = λ i a. none_new i;
        met = λ i a. absurd (not_both (new N (λ i. fresh) i) a (none_new i));
        clean = λ i. refl;
      };
      map = record {
        single =
            λ i j a b e. s.map.single i j (sym (stored-old h i) ∙ a) (sym (stored-old h j) ∙ b) e;
        holds = λ i q a e. s.map.holds i q (sym (stored-old h i) ∙ a) e;
        absent = λ q gone. s.map.absent q (λ i a. gone i (stored-old h i ∙ a));
      };
      counted = omega (arith, s.counted, count-none full (λ i. fresh) N (λ i l. refl));
    }
