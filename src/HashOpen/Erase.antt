-- ===== src/HashOpen/Erase.antt =====
-- openhash_del takes the key of an iterator from the map.
use colossal.Prelude.{
  ℕ, ◌-◌, ◌<◌, ◌≡◌, ◌∙◌, refl, sym, ap, subst, inl, inr, Bool, true, false, not, ◌||◌, Option, none,
  some, arith, Bool-cases, not_both, ◌==◌, ==_iff, ==_refl, count-write, write-at, write-off, bit,
  write, if◌then◌else◌,
}
use colossal.HashOpen.{Flag, is_live, set_del, OpenHash, get, del}
use colossal.HashOpen.Table.{IsKey, live, path, IsTable, IsAbsent, Models}
use colossal.HashOpen.Find.{get-IsFound}

pub set_del-dead : (f : Flag) → is_live (set_del f) ≡ false
set_del-dead f = dead f.empty
  where
    dead : (b : Bool) → not (b || true) ≡ false
    dead true = refl
    dead false = refl

live-full : (f : Flag) → is_live f ≡ true → f.empty ≡ false
live-full f h = full f.empty f.deleted h
  where
    full : (e d : Bool) → not (e || d) ≡ true → e ≡ false
    full false d h = refl
    full true d h = absurd (ground arith)

module _ {ℓ} {K V : Type ℓ} (hashfn : K → ℕ) (equalfn : K → K → Bool) where
  -- The map without a key.
  abbrev pub remove : (K → Option V) → K → K → Option V
  remove m key q = if equalfn key q then none else m q

  -- The state behind the guard of openhash_del.
  abbrev erased : OpenHash K V → ℕ → OpenHash K V
  erased h x = record h { flags = write h.flags x (set_del (h.flags x)); nelem = h.nelem - 1 }

  erased-live :
      (h : OpenHash K V) (x i : ℕ)
      → live hashfn equalfn (erased h x) i ≡ true
      → ((i == x) ≡ false) × (live hashfn equalfn h i ≡ true)
  erased-live h x i l = elim (Bool-cases (i == x)) [
    | inl e ↦
        let dead =
          ap is_live (write-at h.flags x i (set_del (h.flags x)) e) ∙ set_del-dead (h.flags x) in
        absurd (not_both (live hashfn equalfn (erased h x) i) l dead)
    | inr n ↦ (n, ap is_live (sym (write-off h.flags x i (set_del (h.flags x)) n)) ∙ l)
  ]

  erased-empty : (h : OpenHash K V) (x i : ℕ) → ((erased h x).flags i).empty ≡ (h.flags i).empty
  erased-empty h x i = elim (Bool-cases (i == x)) [
    | inl e ↦
        ap (λ f. f.empty) (write-at h.flags x i (set_del (h.flags x)) e)
        ∙ ap (λ j. (h.flags j).empty) (sym ((==_iff i x).0 e))
    | inr n ↦ ap (λ f. f.empty) (write-off h.flags x i (set_del (h.flags x)) n)
  ]

  erased-IsTable :
      (h : OpenHash K V) (x : ℕ)
      → x < h.nbucket
      → live hashfn equalfn h x ≡ true
      → IsTable hashfn equalfn h
      → IsTable hashfn equalfn (erased h x)
  erased-IsTable h x l a table = record {
    exponent = table.exponent;
    power = table.power;
    occupied = omega (
      arith,
      table.occupied,
      count-write (λ f. not f.empty) h.flags x h.nbucket (set_del (h.flags x)) l,
    );
    elements = omega (
      arith,
      table.elements,
      count-write is_live h.flags x h.nbucket (set_del (h.flags x)) l,
      ap bit a,
      ap bit (set_del-dead (h.flags x)),
    );
    room = table.room;
    met = λ i m b.
        let (s, n, there, full) = table.met i m (erased-live h x i b).1 in
        (s, n, there, λ t o. erased-empty h x (path hashfn equalfn h (h.keys i) t) ∙ full t o);
    single = λ i j m n b c. table.single i j m n (erased-live h x i b).1 (erased-live h x j c).1;
  }

  module _ (laws : IsKey hashfn equalfn) (h : OpenHash K V) (m : K → Option V) where
    erased-Models :
        (key : K) (x : ℕ)
        → Models hashfn equalfn h m
        → x < h.nbucket
        → live hashfn equalfn h x ≡ true
        → equalfn (h.keys x) key ≡ true
        → Models hashfn equalfn (erased h x) (remove m key)
    erased-Models key x models l a same = record {
      table = erased-IsTable h x l a models.table;
      holds = λ i q n b e.
          let (other, c) = erased-live h x i b in
          elim (Bool-cases (equalfn key q)) [
            | inr differs ↦ rw differs (models.holds i q n c e)
            | inl equal ↦
                let one = laws.chain (h.keys x) key q same equal in
                let two = laws.chain (h.keys i) q (h.keys x) e (laws.turn (h.keys x) q one) in
                let there = models.table.single i x n l c a two in
                absurd (not_both (i == x) (ap (λ j. j == x) there ∙ ==_refl x) other)
          ];
      absent = λ q gone. elim (Bool-cases (equalfn key q)) [
        | inl equal ↦ rw equal refl
        | inr differs ↦ rw differs (
            models.absent q (λ i n c. elim (Bool-cases (i == x)) [
              | inr other ↦
                  gone i n (ap is_live (write-off h.flags x i (set_del (h.flags x)) other) ∙ c)
              | inl there ↦ elim (Bool-cases (equalfn (h.keys i) q)) [
                | inr unequal ↦ unequal
                | inl e ↦
                    let here =
                      subst (λ j. equalfn (h.keys j) key ≡ true) (sym ((==_iff i x).0 there))
                        same in
                    let back = laws.chain key (h.keys i) q (laws.turn (h.keys i) key here) e in
                    absurd (not_both (equalfn key q) back differs)
              ]
            ]))
      ];
    }

    -- Without the key there is nothing to remove.
    absent-Models :
        (key : K)
        → Models hashfn equalfn h m
        → IsAbsent hashfn equalfn h key
        → Models hashfn equalfn h (remove m key)
    absent-Models key models gone = record {
      table = models.table;
      holds = λ i q n b e. elim (Bool-cases (equalfn key q)) [
        | inr differs ↦ rw differs (models.holds i q n b e)
        | inl equal ↦
            let back = laws.chain (h.keys i) q key e (laws.turn key q equal) in
            absurd (not_both (equalfn (h.keys i) key) back (gone i n b))
      ];
      absent = λ q none_left. elim (Bool-cases (equalfn key q)) [
        | inl equal ↦ rw equal refl
        | inr differs ↦ rw differs (models.absent q none_left)
      ];
    }

    del-end : (x : ℕ) → x ≡ h.nbucket → del hashfn equalfn h x ≡ h
    unfolding del
    del-end x e = let last : (x == h.nbucket) ≡ true = ground arith in rw last refl

    del-inside :
        (x : ℕ)
        → x < h.nbucket
        → live hashfn equalfn h x ≡ true
        → del hashfn equalfn h x ≡ erased h x
    unfolding del
    del-inside x l a = let inside : (x == h.nbucket) ≡ false = ground arith in rw (inside, a) refl

    -- If equality of keys is an equivalence that the hash respects, and the table stands for a map,
    -- openhash_get of a key returns, and openhash_del of its iterator leaves a table that stands for the
    -- map without the key.
    pub del-Models :
        (key : K)
        → Models hashfn equalfn h m
        → (x : ℕ) × (get hashfn equalfn h key ≡ some x)
          × Models hashfn equalfn (del hashfn equalfn h x) (remove m key)
    del-Models key models =
        let (x, found, cases) = get-IsFound hashfn equalfn laws h key models.table in
        (
          x,
          found,
          elim cases [
            | inl (end, gone) ↦ rw (del-end x end) (absent-Models key models gone)
            | inr (l, a, same) ↦ rw (del-inside x l a) (erased-Models key x models l a same)
          ],
        )
