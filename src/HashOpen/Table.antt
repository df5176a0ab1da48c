-- ===== src/HashOpen/Table.antt =====
-- What a table stands for: a map from keys to values, up to the equality of keys.
use colossal.Prelude.{
  ℕ, ◌^◌, ◌<◌, ◌≡◌, Bool, true, false, not, Option, none, some, ◌==◌, count, if◌then◌else◌,
}
use colossal.HashOpen.{is_live, OpenHash}
use colossal.HashOpen.Probe.{slot}

-- The test of keys is an equivalence, and equal keys have the same hash.
pub record IsKey {ℓ} {K : Type ℓ} (hashfn : K → ℕ) (equalfn : K → K → Bool) : Type ℓ where
  pub same : (a : K) → equalfn a a ≡ true
  pub turn : (a b : K) → equalfn a b ≡ true → equalfn b a ≡ true
  pub chain : (a b c : K) → equalfn a b ≡ true → equalfn b c ≡ true → equalfn a c ≡ true
  pub hash : (a b : K) → equalfn a b ≡ true → hashfn a ≡ hashfn b

module _ {ℓ} {K V : Type ℓ} (hashfn : K → ℕ) (equalfn : K → K → Bool) where
  -- The bucket of a step of the search for a key.
  abbrev pub path : OpenHash K V → K → ℕ → ℕ
  path h key s = slot h.nbucket (hashfn key) s

  abbrev pub live : OpenHash K V → ℕ → Bool
  live h i = is_live (h.flags i)

  -- The search for a key meets the bucket behind buckets that are not empty.
  abbrev pub IsMet : OpenHash K V → K → ℕ → Type 0
  IsMet h key i =
      (s : ℕ) × (s < h.nbucket)
      × (path h key s ≡ i)
      × ((t : ℕ) → t < s → (h.flags (path h key t)).empty ≡ false)

  -- The buckets are a power of two; noccupied counts those that are not empty, and leaves one out;
  -- nelem counts the live ones. The search for a live key meets its bucket, and no two live keys are
  -- equal.
  pub record IsTable (h : OpenHash K V) : Type ℓ where
    pub exponent : ℕ
    pub power : h.nbucket ≡ 2 ^ exponent
    pub occupied : count (λ f. not f.empty) h.flags h.nbucket ≡ h.noccupied
    pub elements : count is_live h.flags h.nbucket ≡ h.nelem
    pub room : h.noccupied < h.nbucket
    pub met : (i : ℕ) → i < h.nbucket → live h i ≡ true → IsMet h (h.keys i) i
    pub single :
        (i j : ℕ)
        → i < h.nbucket
        → j < h.nbucket
        → live h i ≡ true
        → live h j ≡ true
        → equalfn (h.keys i) (h.keys j) ≡ true
        → i ≡ j

  -- No live key is equal to this one.
  abbrev pub IsAbsent : OpenHash K V → K → Type 0
  IsAbsent h key = (i : ℕ) → i < h.nbucket → live h i ≡ true → equalfn (h.keys i) key ≡ false

  -- The live buckets are the graph of the map.
  pub record Models (h : OpenHash K V) (m : K → Option V) : Type ℓ where
    pub table : IsTable h
    pub holds :
        (i : ℕ) (key : K)
        → i < h.nbucket
        → live h i ≡ true
        → equalfn (h.keys i) key ≡ true
        → m key ≡ some (h.vals i)
    pub absent : (key : K) → IsAbsent h key → m key ≡ none

  -- The value that an iterator stands for, nbucket being the end.
  abbrev pub read : OpenHash K V → ℕ → Option V
  read h x = if x == h.nbucket then none else some (h.vals x)
