-- ===== src/HashOpen/Fill.antt =====
-- A free bucket filled by openhash_set.
use colossal.Prelude.{
  ℕ, ◌+◌, ◌<◌, ◌≡◌, ◌∙◌, refl, sym, ap, subst, ◌⊎◌, inl, inr, Bool, true, false, not, Option, some,
  arith, Bool-cases, not_both, ◌==◌, ==_iff, ==_refl, if◌then◌else◌, write, write-at, write-off,
  count-write, bit,
}
use colossal.HashOpen.{is_live, clear_both, OpenHash}
use colossal.HashOpen.Table.{IsKey, live, IsMet, IsTable, Models}
use colossal.HashOpen.Site.{IsFree}

module _ {ℓ} {K V : Type ℓ} (hashfn : K → ℕ) (equalfn : K → K → Bool) where
  -- The map with a value for a key.
  abbrev pub insert : (K → Option V) → K → V → K → Option V
  insert m key v q = if equalfn key q then some v else m q

  -- `openhash_value(h, x) = v`
  abbrev pub set_value : OpenHash K V → ℕ → V → OpenHash K V
  set_value h x v = record h { vals = write h.vals x v }

  -- A free bucket filled, with its value, and with a count of buckets that are not empty.
  abbrev pub filled : OpenHash K V → K → ℕ → V → ℕ → OpenHash K V
  filled h key x v n = record h {
    keys = write h.keys x key;
    flags = write h.flags x (clear_both (h.flags x));
    nelem = h.nelem + 1;
    noccupied = n;
    vals = write h.vals x v;
  }

  module _ (laws : IsKey hashfn equalfn) (h : OpenHash K V) (key : K) (x : ℕ) (v : V) (n : ℕ) where
    abbrev after : OpenHash K V
    after = filled h key x v n

    filled-full : (j : ℕ) → (h.flags j).empty ≡ false → (after.flags j).empty ≡ false
    filled-full j e = elim (Bool-cases (j == x)) [
      | inl here ↦ ap (λ f. f.empty) (write-at h.flags x j (clear_both (h.flags x)) here)
      | inr other ↦ ap (λ f. f.empty) (write-off h.flags x j (clear_both (h.flags x)) other) ∙ e
    ]

    filled-live : (j : ℕ) → (j == x) ≡ false → live hashfn equalfn after j ≡ live hashfn equalfn h j
    filled-live j other = ap is_live (write-off h.flags x j (clear_both (h.flags x)) other)

    filled-IsMet :
        IsTable hashfn equalfn h
        → IsFree hashfn equalfn h key x
        → (i : ℕ) → i < h.nbucket
        → live hashfn equalfn after i ≡ true
        → IsMet hashfn equalfn after (after.keys i) i
    filled-IsMet table free i l a = elim (Bool-cases (i == x)) [
      | inl here ↦
          let (u, m, there, full) = free.met in
          subst (λ k. IsMet hashfn equalfn after k i) (sym (write-at h.keys x i key here))
            (u, m, there ∙ sym ((==_iff i x).0 here), λ t o. filled-full _ (full t o))
      | inr other ↦
          let (u, m, there, full) = table.met i l (sym (filled-live i other) ∙ a) in
          subst (λ k. IsMet hashfn equalfn after k i) (sym (write-off h.keys x i key other))
            (u, m, there, λ t o. filled-full _ (full t o))
    ]

    -- A key of the new table is the one of the new bucket, or an old one.
    abbrev Origin : ℕ → Type ℓ
    Origin i =
        (((i == x) ≡ true) × (after.keys i ≡ key) × (after.vals i ≡ v))
        ⊎ (((i == x) ≡ false)
            × (live hashfn equalfn h i ≡ true)
            × (after.keys i ≡ h.keys i)
            × (after.vals i ≡ h.vals i))

    origin : (i : ℕ) → live hashfn equalfn after i ≡ true → Origin i
    origin i a = elim (Bool-cases (i == x)) [
      | inl here ↦ inl (here, write-at h.keys x i key here, write-at h.vals x i v here)
      | inr other ↦ inr (
        other,
        sym (filled-live i other) ∙ a,
        write-off h.keys x i key other,
        write-off h.vals x i v other,
      )
    ]

    -- No old key is equal to a key that is equal to the new one.
    unequal :
        IsFree hashfn equalfn h key x
        → (i : ℕ) (q : K) → i < h.nbucket
        → live hashfn equalfn h i ≡ true
        → equalfn (h.keys i) q ≡ true
        → equalfn key q ≡ false
    unequal free i q l a e = elim (Bool-cases (equalfn key q)) [
      | inr differs ↦ differs
      | inl equal ↦
          let back = laws.chain (h.keys i) q key e (laws.turn key q equal) in
          absurd (not_both (equalfn (h.keys i) key) back (free.gone i l a))
    ]

    filled-single :
        IsTable hashfn equalfn h
        → IsFree hashfn equalfn h key x
        → (i j : ℕ) → i < h.nbucket
        → j < h.nbucket
        → live hashfn equalfn after i ≡ true
        → live hashfn equalfn after j ≡ true
        → equalfn (after.keys i) (after.keys j) ≡ true
        → i ≡ j
    filled-single table free i j l m a b e = elim (origin i a) [
      | inl (p, k, w) ↦ elim (origin j b) [
        | inl (p', k', w') ↦ (==_iff i x).0 p ∙ sym ((==_iff j x).0 p')
        | inr (p', b', k', w') ↦
            let to_key = rw (k, k') at e in
            absurd (
              not_both (equalfn (h.keys j) key) (laws.turn key (h.keys j) to_key)
                (free.gone j m b'))
      ]
      | inr (p, a', k, w) ↦ elim (origin j b) [
        | inl (p', k', w') ↦
            let to_key = rw (k, k') at e in
            absurd (not_both (equalfn (h.keys i) key) to_key (free.gone i l a'))
        | inr (p', b', k', w') ↦ table.single i j l m a' b' (rw (k, k') at e)
      ]
    ]

    filled-IsTable :
        IsTable hashfn equalfn h
        → IsFree hashfn equalfn h key x
        → x < h.nbucket
        → n + bit (not (h.flags x).empty) ≡ h.noccupied + 1
        → n < h.nbucket
        → IsTable hashfn equalfn after
    filled-IsTable table free l counted room = record {
      exponent = table.exponent;
      power = table.power;
      occupied = omega (
        arith,
        table.occupied,
        counted,
        count-write (λ f. not f.empty) h.flags x h.nbucket (clear_both (h.flags x)) l,
      );
      elements = omega (
        arith,
        table.elements,
        ap bit free.dead,
        count-write is_live h.flags x h.nbucket (clear_both (h.flags x)) l,
      );
      room = room;
      met = filled-IsMet table free;
      single = filled-single table free;
    }

    -- Filling a free bucket for a key adds it to the map.
    pub filled-Models :
        (m : K → Option V)
        → Models hashfn equalfn h m
        → IsFree hashfn equalfn h key x
        → x < h.nbucket
        → n + bit (not (h.flags x).empty) ≡ h.noccupied + 1
        → n < h.nbucket
        → Models hashfn equalfn after (insert m key v)
    filled-Models m models free l counted room = record {
      table = filled-IsTable models.table free l counted room;
      holds = λ i q o a e. elim (origin i a) [
        | inl (p, k, w) ↦ let equal : equalfn key q ≡ true = rw k at e in rw (equal, w) refl
        | inr (p, a', k, w) ↦
            let old : equalfn (h.keys i) q ≡ true = rw k at e in
            rw (unequal free i q o a' old, w) (models.holds i q o a' old)
      ];
      absent = λ q gone.
          let new = ap is_live (write-at h.flags x x (clear_both (h.flags x)) (==_refl x)) in
          let differs : equalfn key q ≡ false =
            rw (write-at h.keys x x key (==_refl x)) at (gone x l new) in
          rw differs (
            models.absent q (λ i o a. elim (Bool-cases (i == x)) [
              | inl here ↦
                  let there = ap (live hashfn equalfn h) (sym ((==_iff i x).0 here)) ∙ a in
                  absurd (not_both (live hashfn equalfn h x) there free.dead)
              | inr other ↦
                  rw (write-off h.keys x i key other) at (gone i o (filled-live i other ∙ a))
            ]));
    }
