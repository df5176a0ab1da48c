-- ===== src/HashOpen/Resize/Carry.antt =====
-- What a set of buckets stands for while openhash_resize moves the pairs, one of which it may hold in
-- `key` and `val`.
use colossal.Prelude.{
  ℕ, ◌≡◌, ◌∙◌, sym, ap, subst, inl, inr, Bool, true, false, Option, none, some, Bool-cases,
  not_both, ◌==◌, ==_iff, ==_refl, write, write-at, write-off,
}
use colossal.HashOpen.Table.{IsKey}

module _ {ℓ} {K V : Type ℓ} (hashfn : K → ℕ) (equalfn : K → K → Bool) (m : K → Option V) where
  -- The stored pairs are the graph of the map.
  pub record Holds (stored : ℕ → Bool) (keys : ℕ → K) (vals : ℕ → V) : Type ℓ where
    pub single :
        (i j : ℕ) → stored i ≡ true → stored j ≡ true → equalfn (keys i) (keys j) ≡ true → i ≡ j
    pub holds : (i : ℕ) (q : K) → stored i ≡ true → equalfn (keys i) q ≡ true → m q ≡ some (vals i)
    pub absent : (q : K) → ((i : ℕ) → stored i ≡ true → equalfn (keys i) q ≡ false) → m q ≡ none

  -- The stored pairs and one more are the graph of the map.
  pub record Carries (stored : ℕ → Bool) (keys : ℕ → K) (vals : ℕ → V) (key : K) (val : V)
      : Type ℓ where
    pub single :
        (i j : ℕ) → stored i ≡ true → stored j ≡ true → equalfn (keys i) (keys j) ≡ true → i ≡ j
    pub apart : (i : ℕ) → stored i ≡ true → equalfn (keys i) key ≡ false
    pub holds : (i : ℕ) (q : K) → stored i ≡ true → equalfn (keys i) q ≡ true → m q ≡ some (vals i)
    pub carried : (q : K) → equalfn key q ≡ true → m q ≡ some val
    pub absent :
        (q : K)
        → equalfn key q ≡ false
        → ((i : ℕ) → stored i ≡ true → equalfn (keys i) q ≡ false)
        → m q ≡ none

  module _ (laws : IsKey hashfn equalfn) (stored after : ℕ → Bool) (keys : ℕ → K) (vals : ℕ → V)
      (x : ℕ) where
    -- A bucket is emptied.
    pub take-Carries :
        Holds stored keys vals
        → stored x ≡ true
        → ((i : ℕ) → after i ≡ true → ((i == x) ≡ false) × (stored i ≡ true))
        → ((i : ℕ) → (i == x) ≡ false → stored i ≡ true → after i ≡ true)
        → Carries after keys vals (keys x) (vals x)
    take-Carries h at_x back forth = record {
      single = λ i j a b e. h.single i j (back i a).1 (back j b).1 e;
      apart = λ i a. elim (Bool-cases (equalfn (keys i) (keys x))) [
        | inr differs ↦ differs
        | inl same ↦
            let there = h.single i x (back i a).1 at_x same in
            absurd (not_both (i == x) (ap (λ j. j == x) there ∙ ==_refl x) (back i a).0)
      ];
      holds = λ i q a e. h.holds i q (back i a).1 e;
      carried = λ q e. h.holds x q at_x e;
      absent = λ q differs gone. h.absent q (λ i a. elim (Bool-cases (i == x)) [
        | inl here ↦ subst (λ j. equalfn (keys j) q ≡ false) (sym ((==_iff i x).0 here)) differs
        | inr other ↦ gone i (forth i other a)
      ]);
    }

    module _ (key : K) (val : V) (c : Carries stored keys vals key val)
        (back : (i : ℕ) → after i ≡ true → (i == x) ≡ false → stored i ≡ true) where
      -- The other keys are not equal to the one that is written.
      other_differs : (i : ℕ) → after i ≡ true → (i == x) ≡ false → equalfn (keys i) key ≡ false
      other_differs i a other = c.apart i (back i a other)

      written-single :
          (i j : ℕ)
          → after i ≡ true
          → after j ≡ true
          → equalfn (write keys x key i) (write keys x key j) ≡ true
          → i ≡ j
      written-single i j a b e = elim (Bool-cases (i == x)) [
        | inl p ↦ elim (Bool-cases (j == x)) [
          | inl p' ↦ (==_iff i x).0 p ∙ sym ((==_iff j x).0 p')
          | inr n' ↦
              let to_key = rw (write-at keys x i key p, write-off keys x j key n') at e in
              absurd (
                not_both (equalfn (keys j) key) (laws.turn key (keys j) to_key)
                  (other_differs j b n'))
        ]
        | inr n ↦ elim (Bool-cases (j == x)) [
          | inl p' ↦
              let to_key = rw (write-off keys x i key n, write-at keys x j key p') at e in
              absurd (not_both (equalfn (keys i) key) to_key (other_differs i a n))
          | inr n' ↦
              c.single i j (back i a n) (back j b n')
                (rw (write-off keys x i key n, write-off keys x j key n') at e)
        ]
      ]

      written-holds :
          (i : ℕ) (q : K)
          → after i ≡ true
          → equalfn (write keys x key i) q ≡ true
          → m q ≡ some (write vals x val i)
      written-holds i q a e = elim (Bool-cases (i == x)) [
        | inl p ↦
            c.carried q (rw (write-at keys x i key p) at e)
            ∙ ap some (sym (write-at vals x i val p))
        | inr n ↦
            c.holds i q (back i a n) (rw (write-off keys x i key n) at e)
            ∙ ap some (sym (write-off vals x i val n))
      ]

      -- What is not equal to a key that is stored now is not equal to another one of before.
      before_gone :
          (forth : (i : ℕ) → (i == x) ≡ false → stored i ≡ true → after i ≡ true)
          → (q : K) → ((i : ℕ) → after i ≡ true → equalfn (write keys x key i) q ≡ false)
          → (i : ℕ) → (i == x) ≡ false
          → stored i ≡ true
          → equalfn (keys i) q ≡ false
      before_gone forth q gone i n a = rw (write-off keys x i key n) at (gone i (forth i n a))

      -- The pair is put into a bucket that stores none.
      pub put-Holds :
          after x ≡ true
          → ((i : ℕ) → (i == x) ≡ false → stored i ≡ true → after i ≡ true)
          → stored x ≡ false
          → Holds after (write keys x key) (write vals x val)
      put-Holds at_x forth unused = record {
        single = written-single;
        holds = written-holds;
        absent = λ q gone.
            c.absent q (rw (write-at keys x x key (==_refl x)) at (gone x at_x)) (λ i a.
              elim (Bool-cases (i == x)) [
                | inl p ↦
                    absurd (not_both (stored x) (ap stored (sym ((==_iff i x).0 p)) ∙ a) unused)
                | inr n ↦ before_gone forth q gone i n a
              ]);
      }

      -- The pair is put into a bucket, and that of the bucket is carried.
      pub kick-Carries :
          stored x ≡ true
          → after x ≡ true
          → ((i : ℕ) → (i == x) ≡ false → stored i ≡ true → after i ≡ true)
          → Carries after (write keys x key) (write vals x val) (keys x) (vals x)
      kick-Carries at_x at_x' forth = record {
        single = written-single;
        apart = λ i a. elim (Bool-cases (equalfn (write keys x key i) (keys x))) [
          | inr differs ↦ differs
          | inl same ↦ elim (Bool-cases (i == x)) [
            | inl p ↦
                let back_to = laws.turn key (keys x) (rw (write-at keys x i key p) at same) in
                absurd (not_both (equalfn (keys x) key) back_to (c.apart x at_x))
            | inr n ↦
                let there =
                  c.single i x (back i a n) at_x (rw (write-off keys x i key n) at same) in
                absurd (not_both (i == x) (ap (λ j. j == x) there ∙ ==_refl x) n)
          ]
        ];
        holds = written-holds;
        carried = λ q e. c.holds x q at_x e;
        absent = λ q differs gone.
            c.absent q (rw (write-at keys x x key (==_refl x)) at (gone x at_x')) (λ i a.
              elim (Bool-cases (i == x)) [
                | inl p ↦ subst (λ j. equalfn (keys j) q ≡ false) (sym ((==_iff i x).0 p)) differs
                | inr n ↦ before_gone forth q gone i n a
              ]);
      }
