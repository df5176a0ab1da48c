-- ===== src/StrUtil/Pattern.antt =====
-- What the patterns of regex_match mean.
use colossal.Prelude.{ℕ, ◌≡◌, ◌≢◌, true, [], ◌∷◌, ◌++◌, All}
use colossal.StrUtil.{Bytes, fits}

-- The pattern matches a text from its start on: a `$` at the end of the pattern stands for the end
-- of the text, a character before a `*` for any number of fitting ones, any other for one.
pub data Matches : Bytes → Bytes → Type 0 where
  done : {text : Bytes} → Matches [] text
  at_end : {ch : ℕ} → ch ≡ b'$' → Matches (ch ∷ []) []
  last : {ch x : ℕ} {text : Bytes} → ch ≢ b'$' → fits ch x ≡ true → Matches (ch ∷ []) (x ∷ text)
  many :
      {ch c : ℕ} {regex text : Bytes}
      → c ≡ b'*'
      → (run rest : Bytes) → text ≡ run ++ rest
      → All (λ x. fits ch x ≡ true) run
      → Matches regex rest
      → Matches (ch ∷ c ∷ regex) text
  one :
      {ch c x : ℕ} {regex text : Bytes}
      → c ≢ b'*'
      → fits ch x ≡ true
      → Matches (c ∷ regex) text
      → Matches (ch ∷ c ∷ regex) (x ∷ text)

-- The pattern matches the text from some place on.
abbrev pub MatchesWithin : Bytes → Bytes → Type 0
MatchesWithin regex text =
    (before : Bytes) × (rest : Bytes) × (text ≡ before ++ rest) × Matches regex rest

-- A `^` at the start of the pattern ties it to the start of the text.
pub data Finds : Bytes → Bytes → Type 0 where
  anchored : {c : ℕ} {regex text : Bytes} → c ≡ b'^' → Matches regex text → Finds (c ∷ regex) text
  free :
      {c : ℕ} {regex text : Bytes}
      → c ≢ b'^'
      → MatchesWithin (c ∷ regex) text
      → Finds (c ∷ regex) text
  trivial : {text : Bytes} → Finds [] text
