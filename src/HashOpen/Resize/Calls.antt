-- ===== src/HashOpen/Resize/Calls.antt =====
-- openhash_get and openhash_del on the tables between calls.
use colossal.Prelude.{
  ℕ, ◌≤◌, ◌≡◌, ◌∙◌, refl, sym, ap, subst, inl, inr, Bool, true, not, ◌&&◌, Option, none, some,
  arith, Bool-cases, not_both, ◌==◌,
}
use colossal.HashOpen.{is_live, OpenHash, get, del, load}
use colossal.HashOpen.Table.{IsKey, read}
use colossal.HashOpen.Find.{get-Models}
use colossal.HashOpen.Erase.{remove, del-Models}
use colossal.HashOpen.Resize.Kick.{old}
use colossal.HashOpen.Resize.Move.{IsStored}
use colossal.HashOpen.Resize.Set.{IsOpen, no_bucket}

module _ {ℓ} {K V : Type ℓ} (hashfn : K → ℕ) (equalfn : K → K → Bool) where
  -- A table without buckets is one of the empty map.
  no_key :
      (h : OpenHash K V) (m : K → Option V)
      → h.nbucket ≡ 0
      → IsStored hashfn equalfn h m
      → (key : K) → m key ≡ none
  no_key h m zero_buckets stored key = stored.map.absent key (λ i a. absurd (
      not_both (old h.nbucket h.flags i) a
        (ap (λ n. old n h.flags i) zero_buckets ∙ no_bucket h.flags i)))

  get-nowhere : (h : OpenHash K V) (key : K) → h.nbucket ≡ 0 → get hashfn equalfn h key ≡ some 0
  unfolding get
  get-nowhere h key zero_buckets =
      let none_yet : (h.nbucket == 0) ≡ true = ground arith in rw none_yet refl

  -- If equality of keys is an equivalence that the hash respects, and the table is one between calls, of
  -- a map, openhash_get returns: an iterator whose value is that of the map, nbucket for a key that the
  -- map does not have.
  pub get-IsOpen :
      (laws : IsKey hashfn equalfn) (h : OpenHash K V) (m : K → Option V) (key : K)
      → IsOpen hashfn equalfn h m
      → (x : ℕ) × (get hashfn equalfn h key ≡ some x) × (read hashfn equalfn h x ≡ m key)
  get-IsOpen laws h m key state = elim state.stands [
    | inl models ↦ get-Models hashfn equalfn laws h m key models
    | inr (zero_buckets, stored) ↦
        let end : (0 == h.nbucket) ≡ true = ground arith in
        (0, get-nowhere h key zero_buckets, rw end (sym (no_key h m zero_buckets stored key)))
  ]

  -- What openhash_del changes besides the flags.
  record IsFewer (h after : OpenHash K V) : Type ℓ where
    buckets : after.nbucket ≡ h.nbucket
    bound : after.bound ≡ h.bound
    occupied : after.noccupied ≡ h.noccupied
    fewer : after.nelem ≤ h.nelem

  del-IsFewer : (h : OpenHash K V) (x : ℕ) → IsFewer h (del hashfn equalfn h x)
  unfolding del
  del-IsFewer h x = elim (Bool-cases (not (x == h.nbucket) && is_live (h.flags x))) [
    | inl held ↦
        rw held (record { buckets = refl; bound = refl; occupied = refl; fewer = omega arith })
    | inr free ↦
        rw free (record { buckets = refl; bound = refl; occupied = refl; fewer = omega arith })
  ]

  del-end : (h : OpenHash K V) → h.nbucket ≡ 0 → del hashfn equalfn h 0 ≡ h
  unfolding del
  del-end h zero_buckets = let end : (0 == h.nbucket) ≡ true = ground arith in rw end refl

  -- If equality of keys is an equivalence that the hash respects, and the table is one between calls, of
  -- a map, openhash_get of a key returns, and openhash_del of its iterator leaves such a table of the
  -- map without the key.
  pub del-IsOpen :
      (laws : IsKey hashfn equalfn) (h : OpenHash K V) (m : K → Option V) (key : K)
      → IsOpen hashfn equalfn h m
      → (x : ℕ) × (get hashfn equalfn h key ≡ some x)
        × IsOpen hashfn equalfn (del hashfn equalfn h x) (remove hashfn equalfn m key)
  del-IsOpen laws h m key state = elim state.stands [
    | inl models ↦
        let (x, found, after) = del-Models hashfn equalfn laws h m key models in
        let same = del-IsFewer h x in
        (
          x,
          found,
          record {
            bounded = same.bound ∙ state.bounded ∙ ap load (sym same.buckets);
            within = omega (arith, same.occupied, same.bound, state.within);
            few = omega (arith, same.occupied, same.fewer, state.few);
            stands = inl after;
          },
        )
    | inr (zero_buckets, stored) ↦ (
      0,
      get-nowhere h key zero_buckets,
      subst (λ t. IsOpen hashfn equalfn t (remove hashfn equalfn m key))
          (sym (del-end h zero_buckets))
          (record {
            bounded = state.bounded;
            within = state.within;
            few = state.few;
            stands = inr (
              zero_buckets,
              record {
                map = record {
                  single = stored.map.single;
                  holds = λ i q a e. absurd (
                      not_both (old h.nbucket h.flags i) a
                        (ap (λ n. old n h.flags i) zero_buckets ∙ no_bucket h.flags i));
                  absent = λ q gone. elim (Bool-cases (equalfn key q)) [
                    | inl equal ↦ rw equal refl
                    | inr differs ↦ rw differs (no_key h m zero_buckets stored q)
                  ];
                };
                counted = stored.counted;
              },
            );
          }),
    )
  ]
