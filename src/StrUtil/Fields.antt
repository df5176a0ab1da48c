-- ===== src/StrUtil/Fields.antt =====
-- getfield on text that is made of fields.
use colossal.Prelude.{
  ℕ, zero, suc, ◌-◌, ◌≤◌, ◌<◌, ◌≡◌, ◌≢◌, ◌∙◌, refl, ap, inl, inr, Bool-cases, true, none, some,
  List, [], ◌∷◌, ◌++◌, All, ltb, arith, length, if◌then◌else◌,
}
use colossal.StrUtil.{Bytes, after, skip, until, take, getfield}

-- A field does not hold the delimiter.
abbrev pub IsField : ℕ → Bytes → Type 0
IsField delim f = All (λ c. c ≢ delim) f

abbrev pub join : ℕ → List Bytes → Bytes
join delim [] = []
join delim (f ∷ []) = f
join delim (f ∷ g ∷ fields) = f ++ delim ∷ join delim (g ∷ fields)

module _ (delim : ℕ) where
  after-field : (f s : Bytes) → IsField delim f → after delim (f ++ delim ∷ s) ≡ some s
  unfolding after
  after-field [] s t = ground arith
  after-field (c ∷ f) s (n, t) = ground (arith, after-field f s t)

  after-last : (f : Bytes) → IsField delim f → after delim f ≡ none
  unfolding after
  after-last [] t = refl
  after-last (c ∷ f) (n, t) = ground (arith, after-last f t)

  until-field :
      (n : ℕ) (f s : Bytes) → IsField delim f → until delim (take n (f ++ delim ∷ s)) ≡ take n f
  unfolding until take
  until-field zero [] s t = refl
  until-field zero (c ∷ f) s t = refl
  until-field (suc n) [] s t = ground arith
  until-field (suc n) (c ∷ f) s (u, t) = ground (arith, until-field n f s t)

  until-last : (n : ℕ) (f : Bytes) → IsField delim f → until delim (take n f) ≡ take n f
  unfolding until take
  until-last zero f t = refl
  until-last (suc n) [] t = refl
  until-last (suc n) (c ∷ f) (u, t) = ground (arith, until-last n f t)

  take_all : (n : ℕ) (s : Bytes) → length s ≤ n → take n s ≡ take (length s) s
  unfolding take
  take_all zero [] h = refl
  take_all zero (c ∷ s) h = absurd (omega arith)
  take_all (suc n) [] h = refl
  take_all (suc n) (c ∷ s) h = ap (◌∷◌ c) (take_all n s (omega arith))

  take-length : (n : ℕ) (s : Bytes) → take (if ltb n (length s) then n else length s) s ≡ take n s
  take-length n s = elim (Bool-cases (ltb n (length s))) [
    | inl less ↦ rw less
    | inr more ↦ rw (more, take_all n s (ground arith))
  ]

  skip-after :
      (n : ℕ) (s rest : Bytes)
      → after delim s ≡ some rest
      → skip (suc n) delim s ≡ skip n delim rest
  unfolding skip after
  skip-after n [] rest h = absurd (ground arith)
  skip-after n (c ∷ s) rest h = rw (h, skip)

  skip-none : (n : ℕ) (s : Bytes) → after delim s ≡ none → skip (suc n) delim s ≡ []
  unfolding skip
  skip-none n [] h = refl
  skip-none n (c ∷ s) h = rw (h, skip)

  skip-join :
      (before : List Bytes) (f : Bytes) (behind : List Bytes)
      → All (IsField delim) before
      → skip (length before) delim (join delim (before ++ f ∷ behind)) ≡ join delim (f ∷ behind)
  unfolding skip
  skip-join [] f behind t = refl
  skip-join (g ∷ []) f behind (t, ts) = skip-after 0 _ _ (after-field g (join delim (f ∷ behind)) t)
  skip-join (g ∷ h ∷ before) f behind (t, ts) =
      skip-after (suc (length before)) _ _ (after-field g (join delim (h ∷ before ++ f ∷ behind)) t)
      ∙ skip-join (h ∷ before) f behind ts

  skip-join_beyond :
      (fields : List Bytes) (id : ℕ)
      → All (IsField delim) fields
      → length fields ≤ id
      → skip id delim (join delim fields) ≡ []
  unfolding skip
  skip-join_beyond [] zero t h = refl
  skip-join_beyond [] (suc id) t h = refl
  skip-join_beyond (f ∷ fields) zero t h = absurd (omega arith)
  skip-join_beyond (f ∷ []) (suc id) (t, ts) h = skip-none id f (after-last f t)
  skip-join_beyond (f ∷ g ∷ fields) (suc id) (t, ts) h =
      skip-after id _ _ (after-field f (join delim (g ∷ fields)) t)
      ∙ skip-join_beyond (g ∷ fields) id ts (omega arith)

  until-join :
      (n : ℕ) (f : Bytes) (behind : List Bytes)
      → IsField delim f
      → until delim (take n (join delim (f ∷ behind))) ≡ take n f
  until-join n f [] t = until-last n f t
  until-join n f (g ∷ behind) t = until-field n f (join delim (g ∷ behind)) t

  -- If the fields up to one do not hold the delimiter, the buffer has room and the text does not end
  -- where that field starts, getfield of the number of that field in the joined text returns the place
  -- where it starts and writes it, cut to what the buffer has room for, with a zero behind.
  pub getfield-join :
      (before : List Bytes) (f : Bytes) (behind : List Bytes) (flen : ℕ)
      → All (IsField delim) before
      → IsField delim f
      → 0 < flen
      → 0 < length (join delim (f ∷ behind))
      → getfield (join delim (before ++ f ∷ behind)) (length before) flen delim
        ≡ (join delim (f ∷ behind), some (take (flen - 1) f ++ 0 ∷ []))
  unfolding getfield
  getfield-join before f behind flen ts t room more =
      let text = join delim (f ∷ behind) in
      let a : ltb 0 (length text) ≡ true = ground arith in
      let b : ltb 0 flen ≡ true = ground arith in
      rw (
        skip-join before f behind ts,
        a,
        b,
        take-length (flen - 1) text,
        until-join (flen - 1) f behind t,
      )

  -- If the fields do not hold the delimiter and the number is not that of one of them, getfield in the
  -- joined text returns the end of the text and writes nothing.
  pub getfield-join_beyond :
      (fields : List Bytes) (id flen : ℕ)
      → All (IsField delim) fields
      → length fields ≤ id
      → getfield (join delim fields) id flen delim ≡ ([], none)
  unfolding getfield
  getfield-join_beyond fields id flen ts h = rw (skip-join_beyond fields id ts h)
