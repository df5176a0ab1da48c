-- ===== src/HashOpen/Insert.antt =====
-- openhash_set on a table with room adds a key to the map.
use colossal.Prelude.{
  ℕ, ◌+◌, ◌<◌, ◌≡◌, ◌∙◌, refl, ap, subst, inl, inr, Bool, true, false, not, ◌||◌, Option, some,
  arith, Bool-cases, not_both, ◌==◌, ==_iff, ==_refl, write-at, write-off, bit,
}
use colossal.HashOpen.{OpenHash, find_site, place}
use colossal.HashOpen.Table.{IsKey, live, Models}
use colossal.HashOpen.Find.{path-lt}
use colossal.HashOpen.Site.{IsFree, find_site-IsChosen}
use colossal.HashOpen.Fill.{insert, set_value, filled-Models}

live_bits : (e d : Bool) → not (e || d) ≡ true → (e ≡ false) × (d ≡ false)
live_bits false false h = (refl, refl)
live_bits false true h = absurd (ground arith)
live_bits true d h = absurd (ground arith)

dead_deleted : (e d : Bool) → e ≡ false → not (e || d) ≡ false → d ≡ true
dead_deleted false true h g = refl
dead_deleted false false h g = absurd (ground arith)
dead_deleted true d h g = absurd (ground arith)

module _ {ℓ} {K V : Type ℓ} (hashfn : K → ℕ) (equalfn : K → K → Bool) where
  module _ (laws : IsKey hashfn equalfn) (h : OpenHash K V) (key : K) (x : ℕ) (v : V) where
    -- The value of a key that the table has already.
    kept-Models :
        (m : K → Option V)
        → Models hashfn equalfn h m
        → x < h.nbucket
        → live hashfn equalfn h x ≡ true
        → equalfn (h.keys x) key ≡ true
        → Models hashfn equalfn (set_value hashfn equalfn h x v) (insert hashfn equalfn m key v)
    kept-Models m models l a same =
        let table = models.table in
        record {
          table = record {
            exponent = table.exponent;
            power = table.power;
            occupied = table.occupied;
            elements = table.elements;
            room = table.room;
            met = table.met;
            single = table.single;
          };
          holds = λ i q o b e. elim (Bool-cases (i == x)) [
            | inl here ↦
                let at_x = subst (λ j. equalfn (h.keys j) q ≡ true) ((==_iff i x).0 here) e in
                let equal = laws.chain key (h.keys x) q (laws.turn (h.keys x) key same) at_x in
                rw (equal, write-at h.vals x i v here) refl
            | inr other ↦ elim (Bool-cases (equalfn key q)) [
              | inr differs ↦ rw (differs, write-off h.vals x i v other) (models.holds i q o b e)
              | inl equal ↦
                  let one = laws.chain (h.keys i) q key e (laws.turn key q equal) in
                  let two =
                    laws.chain (h.keys i) key (h.keys x) one (laws.turn (h.keys x) key same) in
                  let there = table.single i x o l b a two in
                  absurd (not_both (i == x) (ap (λ j. j == x) there ∙ ==_refl x) other)
            ]
          ];
          absent = λ q gone. elim (Bool-cases (equalfn key q)) [
            | inr differs ↦ rw differs (models.absent q gone)
            | inl equal ↦
                let one = laws.chain (h.keys x) key q same equal in
                absurd (not_both (equalfn (h.keys x) q) one (gone x l a))
          ];
        }

  -- The table behind openhash_set, with the value written to the bucket that it returns.
  abbrev pub put : OpenHash K V → K → ℕ → V → OpenHash K V
  put h key x v = set_value hashfn equalfn (place hashfn equalfn h key x).0 x v

  place-IsFree :
      (laws : IsKey hashfn equalfn) (h : OpenHash K V) (key : K) (x : ℕ) (v : V) (m : K → Option V)
      → Models hashfn equalfn h m
      → h.noccupied + 1 < h.nbucket
      → IsFree hashfn equalfn h key x
      → x < h.nbucket
      → Models hashfn equalfn (put h key x v) (insert hashfn equalfn m key v)
  place-IsFree laws h key x v m models room free l = elim (Bool-cases (h.flags x).empty) [
    | inl hole ↦ rw hole (
        filled-Models hashfn equalfn laws h key x v (h.noccupied + 1) m models free l
          (omega (arith, ap (λ b. bit (not b)) hole)) room)
    | inr full ↦
        let spare = dead_deleted (h.flags x).empty (h.flags x).deleted full free.dead in
        rw (full, spare)
          (filled-Models hashfn equalfn laws h key x v h.noccupied m models free l
            (omega (arith, ap (λ b. bit (not b)) full)) (omega arith))
  ]

  place-kept :
      (laws : IsKey hashfn equalfn) (h : OpenHash K V) (key : K) (x : ℕ) (v : V) (m : K → Option V)
      → Models hashfn equalfn h m
      → x < h.nbucket
      → live hashfn equalfn h x ≡ true
      → equalfn (h.keys x) key ≡ true
      → Models hashfn equalfn (put h key x v) (insert hashfn equalfn m key v)
  place-kept laws h key x v m models l a same =
      let (full, kept) = live_bits (h.flags x).empty (h.flags x).deleted a in
      rw (full, kept) (kept-Models laws h key x v m models l a same)

  -- If equality of keys is an equivalence that the hash respects, the table stands for a map, and at
  -- least two buckets are empty, the search of openhash_set returns a bucket, and the end of
  -- openhash_set, with the value written to that bucket, leaves a table that stands for the map with
  -- the value for the key.
  pub put-Models :
      (laws : IsKey hashfn equalfn) (h : OpenHash K V) (key : K) (v : V) (m : K → Option V)
      → Models hashfn equalfn h m
      → h.noccupied + 1 < h.nbucket
      → (x : ℕ) × (find_site hashfn equalfn h key ≡ some x)
        × Models hashfn equalfn (put h key x v) (insert hashfn equalfn m key v)
  put-Models laws h key v m models room =
      let (x, found, chosen) = find_site-IsChosen hashfn equalfn laws h key models.table in
      (
        x,
        found,
        elim chosen [
          | inl free ↦
              let (u, o, there, full) = free.met in
              let l =
                subst (λ j. j < h.nbucket) there (path-lt hashfn equalfn h key models.table u) in
              place-IsFree laws h key x v m models room free l
          | inr (l, a, same) ↦ place-kept laws h key x v m models l a same
        ],
      )
