-- ===== src/Tree/Order.antt =====
-- The comparison functions that the trees of ulib/src/base/tree.c are ordered by, sorted lists of
-- entries, and where an entry belongs in one.
use mathlib.Core.List.{Memᴰ}
use mathlib.Core.List.Memᴰ
use colossal.Prelude.{
  ◌≡◌, refl, sym, ◌∙◌, inl, inr, true, false, Option, none, some, List, [], ◌∷◌, ◌++◌, All,
  All-append, All-weaken, Bool-cases, not_both, arith,
}
use colossal.Prelude.Int.{ℤ}
use colossal.Tree.{is_less, is_equal, is_greater}

-- The comparison function orders the entries: what is not before `y`, which is not before `z`, is not
-- before `z`; and one entry is after another one when that one is before it.
pub record IsOrder {ℓ} {A : Type ℓ} (cmp : A → A → ℤ) : Type ℓ where
  pub no_less_trans :
      (x y z : A) → is_less cmp x y ≡ false → is_less cmp y z ≡ false → is_less cmp x z ≡ false
  pub flip : (x y : A) → is_greater cmp x y ≡ is_less cmp y x

module _ {ℓ} {A : Type ℓ} where
  pub All-parts {κ} : (P : A → Type κ) (xs ys : List A) → All P (xs ++ ys) → All P xs × All P ys
  All-parts P [] ys h = (tt, h)
  All-parts P (x ∷ xs) ys (p, h) = let (a, b) = All-parts P xs ys h in ((p, a), b)

module _ {ℓ} {A : Type ℓ} (cmp : A → A → ℤ) where
  -- tree_add puts an entry behind those that are not after it.
  abbrev pub insert : A → List A → List A
  insert x [] = x ∷ []
  insert x (y ∷ ys) = elim (is_less cmp x y) [ true ↦ x ∷ y ∷ ys | false ↦ y ∷ insert x ys ]

  abbrev pub IsSorted : List A → Type 0
  IsSorted [] = Unit
  IsSorted (x ∷ xs) = All (λ y. is_less cmp y x ≡ false) xs × IsSorted xs

  -- No entry is after `x`, none before it.
  abbrev pub AtMost : A → List A → Type 0
  AtMost x = All (λ b. is_less cmp x b ≡ false)

  abbrev pub AtLeast : A → List A → Type 0
  AtLeast x = All (λ b. is_less cmp b x ≡ false)

  -- All entries are before `x`, all are after it.
  abbrev pub Below : A → List A → Type 0
  Below x = All (λ b. is_less cmp b x ≡ true)

  abbrev pub Above : A → List A → Type 0
  Above x = All (λ b. is_less cmp x b ≡ true)

  abbrev pub NoneEqual : A → List A → Type 0
  NoneEqual x = All (λ b. is_equal cmp x b ≡ false)

  pub IsSorted-parts :
      (xs : List A) (x : A) (ys : List A)
      → IsSorted (xs ++ x ∷ ys)
      → IsSorted xs × IsSorted ys × AtMost x xs × AtLeast x ys
  IsSorted-parts [] x ys (h, s) = (tt, s, tt, h)
  IsSorted-parts (w ∷ xs) x ys (h, s) =
      let (a, b, c, d) = IsSorted-parts xs x ys s in
      let (before_w, x_w) = All-parts (λ y. is_less cmp y w ≡ false) xs (x ∷ ys) h in
      ((before_w, a), b, (x_w.0, c), d)

  -- Where the entries in front are not after an entry and those behind are, insert puts it between.
  pub insert-between :
      (e : A) (xs ys : List A) → AtMost e xs → Above e ys → insert e (xs ++ ys) ≡ xs ++ e ∷ ys
  insert-between e [] [] h k = refl
  insert-between e [] (y ∷ ys) h (k, _) = rw (insert, k) refl
  insert-between e (x ∷ xs) ys (h, hs) k = rw (insert, h, insert-between e xs ys hs k) refl

  module _ (o : IsOrder cmp) where
    pub less_asym : (x y : A) → is_less cmp x y ≡ true → is_less cmp y x ≡ false
    less_asym x y h = sym (o.flip x y) ∙ ground arith

    -- `x` is before `y`, and `z` is not.
    pub less_of_no_less :
        (x y z : A) → is_less cmp x y ≡ true → is_less cmp z y ≡ false → is_less cmp x z ≡ true
    less_of_no_less x y z h k = elim (Bool-cases (is_less cmp x z)) [
      | inl t ↦ t
      | inr f ↦ absurd (not_both (is_less cmp x y) h (o.no_less_trans x z y f k))
    ]

    -- `x` is before `y`, and not before `b`.
    pub no_less-less :
        (b x y : A) → is_less cmp x b ≡ false → is_less cmp x y ≡ true → is_less cmp b y ≡ true
    no_less-less b x y k h = elim (Bool-cases (is_less cmp b y)) [
      | inl t ↦ t
      | inr f ↦ absurd (not_both (is_less cmp x y) h (o.no_less_trans x b y k f))
    ]

    -- What is neither equal nor before is after.
    pub less_of_not :
        (x y : A) → is_equal cmp x y ≡ false → is_less cmp x y ≡ false → is_less cmp y x ≡ true
    less_of_not x y h k = sym (o.flip x y) ∙ ground arith

    pub less_of_greater : (x y : A) → is_greater cmp x y ≡ true → is_less cmp y x ≡ true
    less_of_greater x y h = sym (o.flip x y) ∙ h

    pub not_equal_of_less : (x y : A) → is_less cmp x y ≡ true → is_equal cmp x y ≡ false
    not_equal_of_less x y h = ground arith

    pub not_equal_of_after : (x y : A) → is_less cmp y x ≡ true → is_equal cmp x y ≡ false
    not_equal_of_after x y h = let g : is_greater cmp x y ≡ true = o.flip x y ∙ h in ground arith

    pub NoneEqual-around :
        (e : A) (xs ys : List A) → Below e xs → Above e ys → NoneEqual e (xs ++ ys)
    NoneEqual-around e xs ys h k =
        All-append _ xs ys (All-weaken xs (λ b. not_equal_of_after e b) h)
          (All-weaken ys (λ b. not_equal_of_less e b) k)

    pub Below-AtMost : (e : A) (xs : List A) → Below e xs → AtMost e xs
    Below-AtMost e xs h = All-weaken xs (λ b. less_asym b e) h

-- What a search for an equal entry of a list may return.
pub data Finds {ℓ} {A : Type ℓ} (cmp : A → A → ℤ) (e : A) (ys : List A) : Option A → Type ℓ where
  missing : NoneEqual cmp e ys → Finds cmp e ys none
  found : {x : A} → Memᴰ x ys → is_equal cmp e x ≡ true → Finds cmp e ys (some x)

module _ {ℓ} {A : Type ℓ} (cmp : A → A → ℤ) (e : A) where
  pub Finds-append :
      (xs ys : List A) (o : Option A)
      → NoneEqual cmp e ys
      → Finds cmp e xs o
      → Finds cmp e (xs ++ ys) o
  Finds-append xs ys o h (Finds.missing k) = Finds.missing (All-append _ xs ys k h)
  Finds-append xs ys o h (Finds.found m q) = Finds.found (Memᴰ.append_left ys m) q

  pub Finds-behind :
      (xs ys : List A) (o : Option A)
      → NoneEqual cmp e xs
      → Finds cmp e ys o
      → Finds cmp e (xs ++ ys) o
  Finds-behind xs ys o h (Finds.missing k) = Finds.missing (All-append _ xs ys h k)
  Finds-behind xs ys o h (Finds.found m q) = Finds.found (Memᴰ.append_right xs m) q

  pub found_at :
      (xs : List A) (x : A) (ys : List A)
      → is_equal cmp e x ≡ true
      → Finds cmp e (xs ++ x ∷ ys) (some x)
  found_at xs x ys q = Finds.found (Memᴰ.append_right xs (Memᴰ.head refl)) q
