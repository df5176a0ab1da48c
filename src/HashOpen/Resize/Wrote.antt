-- ===== src/HashOpen/Resize/Wrote.antt =====
-- A pair written to a bucket that is empty in the new flags.
use colossal.Prelude.{
  ℕ, ◌+◌, ◌<◌, ◌≡◌, ◌∙◌, refl, sym, ap, subst, inl, inr, Bool, true, false, not, ◌&&◌, ◌||◌, Option,
  arith, Bool-cases, ◌==◌, ==_iff, write, write-at, write-off, count, count-write, bit,
}
use colossal.HashOpen.{Flag, is_live, OpenHash}
use colossal.HashOpen.Probe.{slot}
use colossal.HashOpen.Resize.Carry.{Holds}
use colossal.HashOpen.Resize.Kick.{old, new, stored, full, clear_empty, new-off, Hole}

-- The search in the new flags meets the bucket.
abbrev pub IsMetNew : ℕ → (ℕ → Flag) → ℕ → ℕ → Type 0
IsMetNew N G hash i =
    (s : ℕ) × (s < N) × (slot N hash s ≡ i) × ((t : ℕ) → t < s → (G (slot N hash t)).empty ≡ false)

abbrev pub taken : (ℕ → Flag) → ℕ → ℕ → Flag
taken G x = write G x (clear_empty (G x))

pub taken-full : (G : ℕ → Flag) (x j : ℕ) → (G j).empty ≡ false → (taken G x j).empty ≡ false
taken-full G x j e = elim (Bool-cases (j == x)) [
  | inl here ↦ ap (λ f. f.empty) (write-at G x j (clear_empty (G x)) here)
  | inr other ↦ ap (λ f. f.empty) (write-off G x j (clear_empty (G x)) other) ∙ e
]

pub count-taken :
    (N : ℕ) (G : ℕ → Flag) (x : ℕ)
    → x < N
    → (G x).empty ≡ true
    → count full (taken G x) N ≡ count full G N + 1
count-taken N G x l e =
    omega (arith, count-write full G x N (clear_empty (G x)) l, ap (λ b. bit (not b)) e)

pub and_none : (a b : Bool) → b ≡ true → a && not b ≡ false
and_none true b h = ground arith
and_none false b h = refl

pub and_dead : (a b : Bool) → b ≡ false → a && b ≡ false
and_dead true b h = h
and_dead false b h = refl

pub and_both : (a b : Bool) → a && b ≡ true → (a ≡ true) × (b ≡ true)
and_both true b h = (refl, h)
and_both false b h = absurd (ground arith)

pub or_left : (a b : Bool) → a ≡ true → (a || b) ≡ true
or_left true b h = refl
or_left false b h = absurd (ground arith)

module _ {ℓ} {K V : Type ℓ} (hashfn : K → ℕ) (equalfn : K → K → Bool) where
  -- No bucket holds a pair by both flags, and those of the new ones are where the searches meet them.
  pub record IsMoving (h : OpenHash K V) (N : ℕ) (G : ℕ → Flag) : Type ℓ where
    pub apart : (i : ℕ) → old h.nbucket h.flags i ≡ true → new N G i ≡ false
    pub met : (i : ℕ) → new N G i ≡ true → IsMetNew N G (hashfn (h.keys i)) i
    pub clean : (i : ℕ) → (G i).deleted ≡ false

  abbrev pub wrote : OpenHash K V → (ℕ → Flag) → ℕ → K → V → OpenHash K V
  wrote h F x key val = record h { flags = F; keys = write h.keys x key; vals = write h.vals x val }

  pub wrote-IsMoving :
      (h : OpenHash K V) (N : ℕ) (G F : ℕ → Flag) (key : K) (val : V)
      → IsMoving h N G
      → (hole : Hole N (hashfn key) G)
      → let x = slot N (hashfn key) hole.at in
        ((i : ℕ) → old h.nbucket F i ≡ true → ((i == x) ≡ false) × (old h.nbucket h.flags i ≡ true))
        → IsMoving (wrote h F x key val) N (taken G x)
  wrote-IsMoving h N G F key val moving hole fades =
      let x = slot N (hashfn key) hole.at in
      record {
        apart = λ i a.
            let (other, b) = fades i a in
            new-off N x i G (clear_empty (G x)) other ∙ moving.apart i b;
        met = λ i a. elim (Bool-cases (i == x)) [
          | inl p ↦
              subst (λ k. IsMetNew N (taken G x) (hashfn k) i) (sym (write-at h.keys x i key p))
                (
                  hole.at,
                  hole.within,
                  sym ((==_iff i x).0 p),
                  λ t o. taken-full G x _ (hole.before t o),
                )
          | inr n ↦
              let (s, l, there, before) =
                moving.met i (sym (new-off N x i G (clear_empty (G x)) n) ∙ a) in
              subst (λ k. IsMetNew N (taken G x) (hashfn k) i) (sym (write-off h.keys x i key n))
                (s, l, there, λ t o. taken-full G x _ (before t o))
        ];
        clean = λ i. elim (Bool-cases (i == x)) [
          | inl p ↦ ap (λ f. f.deleted) (write-at G x i (clear_empty (G x)) p) ∙ moving.clean x
          | inr n ↦ ap (λ f. f.deleted) (write-off G x i (clear_empty (G x)) n) ∙ moving.clean i
        ];
      }

  -- What the loop leaves.
  pub record Kicked (m : K → Option V) (h : OpenHash K V) (N : ℕ) (r : OpenHash K V × (ℕ → Flag))
      : Type ℓ where
    pub buckets : r.0.nbucket ≡ h.nbucket
    pub elements : r.0.nelem ≡ h.nelem
    pub moving : IsMoving r.0 N r.1
    pub map : Holds hashfn equalfn m (stored r.0.nbucket r.0.flags N r.1) r.0.keys r.0.vals
    pub counted : count is_live r.0.flags r.0.nbucket + count full r.1 N ≡ h.nelem
    pub fades : (i : ℕ) → is_live (h.flags i) ≡ false → is_live (r.0.flags i) ≡ false
