-- ===== src/HashOpen/Resize/Set.antt =====
-- openhash_set adds a key to the map, with a resize where one is needed.
use colossal.Prelude.{
  ℕ, zero, suc, ◌+◌, ◌*◌, ◌^◌, ◌<◌, ◌≤◌, ◌≡◌, ◌∙◌, refl, sym, ap, subst, ◌⊎◌, inl, inr, Bool, true,
  false, not, ◌||◌, Option, none, some, arith, Bool-cases, not_both, ltb, leb, ◌==◌, if◌then◌else◌,
  count, bit,
}
use native.Mathlib.Nat
use colossal.HashOpen.{Flag, is_live, OpenHash, Ret, init, load, find_site, place}
use colossal.HashOpen.Table.{IsKey, Models}
use colossal.HashOpen.Fill.{insert, set_value}
use colossal.HashOpen.Insert.{put-Models}
use colossal.HashOpen.Resize.{set_key, resize, set}
use colossal.HashOpen.Resize.Kick.{old, full}
use colossal.HashOpen.Resize.Move.{IsStored, Models-IsStored}
use colossal.HashOpen.Resize.Rebuild.{resize-Models}

live_le : (e d : Bool) → bit (not (e || d)) ≤ bit (not e)
live_le e d = ground arith

count-live_le : (F : ℕ → Flag) (n : ℕ) → count is_live F n ≤ count full F n
count-live_le F zero = omega arith
count-live_le F (suc n) = omega (arith, live_le (F n).empty (F n).deleted, count-live_le F n)

pub no_bucket : (F : ℕ → Flag) (i : ℕ) → old 0 F i ≡ false
no_bucket F i = let outside : ltb i 0 ≡ false = ground arith in rw outside refl

module _ {ℓ} {K V : Type ℓ} (hashfn : K → ℕ) (equalfn : K → K → Bool) where
  -- A table between calls: it stands for the map, or has no buckets yet; bound is the load of the
  -- buckets, and not exceeded.
  pub record IsOpen (h : OpenHash K V) (m : K → Option V) : Type ℓ where
    pub bounded : h.bound ≡ load h.nbucket
    pub within : h.noccupied ≤ h.bound
    pub few : h.nelem ≤ h.noccupied
    pub stands : Models hashfn equalfn h m ⊎ ((h.nbucket ≡ 0) × IsStored hashfn equalfn h m)

  -- What openhash_set does for a map: it returns a bucket, and writing a value to it leaves a table of
  -- the map with the value for the key.
  abbrev pub Sets : Option (OpenHash K V × ℕ × Option Ret) → (K → Option V) → K → V → Type ℓ
  Sets r m key v =
      (after : OpenHash K V) × (x : ℕ) × (ret : Ret) × (r ≡ some (after, x, some ret))
      × IsOpen (set_value hashfn equalfn after x v) (insert hashfn equalfn m key v)

  set_key-place :
      (h : OpenHash K V) (key : K) (x : ℕ)
      → find_site hashfn equalfn h key ≡ some x
      → let r = place hashfn equalfn h key x in
        set_key hashfn equalfn h key ≡ some (r.0, x, some r.1)
  unfolding set_key
  set_key-place h key x found = rw (set_key, found) refl

  -- What the end of openhash_set leaves alone.
  record IsSame (h after : OpenHash K V) : Type ℓ where
    buckets : after.nbucket ≡ h.nbucket
    bound : after.bound ≡ h.bound
    more : after.noccupied ≤ h.noccupied + 1

  place-IsSame : (h : OpenHash K V) (key : K) (x : ℕ) → IsSame h (place hashfn equalfn h key x).0
  place-IsSame h key x = elim (Bool-cases (h.flags x).empty) [
    | inl hole ↦ rw hole (record { buckets = refl; bound = refl; more = omega arith })
    | inr filled ↦ elim (Bool-cases (h.flags x).deleted) [
      | inl gone ↦ rw (filled, gone) (record { buckets = refl; bound = refl; more = omega arith })
      | inr kept ↦ rw (filled, kept) (record { buckets = refl; bound = refl; more = omega arith })
    ]
  ]

  elements_le :
      (h : OpenHash K V) (m : K → Option V) → Models hashfn equalfn h m → h.nelem ≤ h.noccupied
  elements_le h m models =
      omega (arith, count-live_le h.flags h.nbucket, models.table.elements, models.table.occupied)

  set_key-Sets :
      (laws : IsKey hashfn equalfn) (h : OpenHash K V) (key : K) (v : V) (m : K → Option V)
      → Models hashfn equalfn h m
      → h.bound ≡ load h.nbucket
      → h.noccupied < h.bound
      → Sets (set_key hashfn equalfn h key) m key v
  set_key-Sets laws h key v m models bounded room =
      let (x, found, kept) = put-Models hashfn equalfn laws h key v m models (omega arith) in
      let same = place-IsSame h key x in
      let r = place hashfn equalfn h key x in
      (
        r.0,
        x,
        r.1,
        set_key-place h key x found,
        record {
          bounded = same.bound ∙ bounded ∙ ap load (sym same.buckets);
          within = omega (arith, same.more, same.bound, room);
          few = elements_le (set_value hashfn equalfn r.0 x v) (insert hashfn equalfn m key v) kept;
          stands = inl kept;
        },
      )

  set-key :
      (alloc : ℕ → Bool) (h : OpenHash K V) (key : K)
      → leb h.bound h.noccupied ≡ false
      → set hashfn equalfn alloc h key ≡ set_key hashfn equalfn h key
  unfolding set
  set-key alloc h key stays = rw (set, stays) refl

  set-resize :
      (alloc : ℕ → Bool) (h after : OpenHash K V) (key : K) (N : ℕ)
      → leb h.bound h.noccupied ≡ true
      → (if h.nbucket == 0 then 2 else 2 * h.nbucket) ≡ N
      → resize hashfn equalfn alloc h N ≡ some (after, true)
      → set hashfn equalfn alloc h key ≡ set_key hashfn equalfn after key
  unfolding set
  set-resize alloc h after key N grows size e = rw (set, grows, size, e) refl

  -- openhash_set behind a resize to a larger power of two.
  grown-Sets :
      (laws : IsKey hashfn equalfn) (alloc : ℕ → Bool) (h : OpenHash K V) (key : K) (v : V)
      (m : K → Option V) (N k : ℕ)
      → alloc 0 ≡ true
      → alloc 1 ≡ true
      → alloc 2 ≡ true
      → IsStored hashfn equalfn h m
      → leb h.bound h.noccupied ≡ true
      → (if h.nbucket == 0 then 2 else 2 * h.nbucket) ≡ N
      → N ≡ 2 ^ k
      → h.nelem < load N
      → Sets (set hashfn equalfn alloc h key) m key v
  grown-Sets laws alloc h key v m N k a b c stored grows size power room =
      let (new, e, models, buckets, bound, occupied) =
        resize-Models hashfn equalfn laws m N k power alloc h a b c stored room in
      subst (λ r. Sets r m key v) (sym (set-resize alloc h new key N grows size e))
        (set_key-Sets laws new key v m models (bound ∙ ap load (sym buckets))
          (omega (arith, bound, occupied, room)))

  -- If equality of keys is an equivalence that the hash respects, the table is one between calls, of a
  -- map, and the allocations succeed, openhash_set returns a bucket, and writing the value to it leaves
  -- such a table of the map with the value for the key.
  pub set-Sets :
      (laws : IsKey hashfn equalfn) (alloc : ℕ → Bool) (h : OpenHash K V) (key : K) (v : V)
      (m : K → Option V)
      → alloc 0 ≡ true
      → alloc 1 ≡ true
      → alloc 2 ≡ true
      → IsOpen h m
      → Sets (set hashfn equalfn alloc h key) m key v
  set-Sets laws alloc h key v m a b c state = elim state.stands [
    | inr (zero_buckets, stored) ↦
        let none_yet : (h.nbucket == 0) ≡ true = ground arith in
        let zero_bound : h.bound ≡ 0 = omega (arith, state.bounded, zero_buckets) in
        let grows : leb h.bound h.noccupied ≡ true = ground arith in
        let small : h.nelem < load 2 = omega (arith, state.few, state.within, zero_bound) in
        grown-Sets laws alloc h key v m 2 1 a b c stored grows (rw none_yet refl) (omega arith)
          small
    | inl models ↦ elim (Bool-cases (leb h.bound h.noccupied)) [
      | inr stays ↦
          subst (λ r. Sets r m key v) (sym (set-key alloc h key stays))
            (set_key-Sets laws h key v m models state.bounded (ground arith))
      | inl grows ↦
          let some_bucket : (h.nbucket == 0) ≡ false = ground (arith, models.table.room) in
          let power : 2 * h.nbucket ≡ 2 ^ suc models.table.exponent =
            omega (arith, models.table.power, Nat.pow-succ' 2 models.table.exponent) in
          let small : h.nelem < load (2 * h.nbucket) =
            omega (arith, state.few, state.within, state.bounded, models.table.room) in
          grown-Sets laws alloc h key v m (2 * h.nbucket) (suc models.table.exponent) a b c
            (Models-IsStored hashfn equalfn h m models) grows (rw some_bucket refl) power small
    ]
  ]

  -- openhash_init makes a table of the empty map.
  pub init-IsOpen :
      (flags : ℕ → Flag) (keys : ℕ → K) (vals : ℕ → V) → IsOpen (init flags keys vals) (λ key. none)
  init-IsOpen flags keys vals = record {
    bounded = omega arith;
    within = omega arith;
    few = omega arith;
    stands = inr (
      refl,
      record {
        map = record {
          single = λ i j a b e. absurd (not_both (old 0 flags i) a (no_bucket flags i));
          holds = λ i q a e. absurd (not_both (old 0 flags i) a (no_bucket flags i));
          absent = λ q gone. refl;
        };
        counted = refl;
      },
    );
  }
