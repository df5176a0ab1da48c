-- ===== src/StrUtil/Regex.antt =====
-- regex_match decides what its patterns mean.
use colossal.Prelude.{
  ℕ, ◌≡◌, ◌∙◌, refl, ap, ◌↔◌, inl, inr, Bool, true, [], ◌∷◌, ◌++◌, All, ◌==◌, arith, Bool-cases,
}
use colossal.StrUtil.{Bytes, fits, matchstar, match, match_from, regex_match}
use colossal.StrUtil.Pattern.{Matches, MatchesWithin, Finds}

-- What matchstar finds: a run of fitting characters, with what `rest` takes behind it.
abbrev Splits : (Bytes → Bool) → ℕ → Bytes → Type 0
Splits rest ch text =
    (run : Bytes) × (behind : Bytes) × (text ≡ run ++ behind)
    × All (λ x. fits ch x ≡ true) run
    × (rest behind ≡ true)

matchstar-Splits :
    (rest : Bytes → Bool) (ch : ℕ) (text : Bytes)
    → matchstar rest ch text ≡ true
    → Splits rest ch text
unfolding matchstar
matchstar-Splits rest ch [] h = ([], [], refl, tt, h)
matchstar-Splits rest ch (x ∷ text) h = elim (Bool-cases (rest (x ∷ text))) [
  | inl now ↦ ([], x ∷ text, refl, tt, now)
  | inr later ↦
      let fit : fits ch x ≡ true = ground arith in
      let (run, behind, e, all, found) = matchstar-Splits rest ch text (ground arith) in
      (x ∷ run, behind, ap (◌∷◌ x) e, (fit, all), found)
]

Splits-matchstar :
    (rest : Bytes → Bool) (ch : ℕ) (run behind : Bytes)
    → All (λ x. fits ch x ≡ true) run
    → rest behind ≡ true
    → matchstar rest ch (run ++ behind) ≡ true
unfolding matchstar
Splits-matchstar rest ch [] [] a h = h
Splits-matchstar rest ch [] (x ∷ behind) a h = rw h
Splits-matchstar rest ch (x ∷ run) behind (fit, a) h =
    ground (arith, Splits-matchstar rest ch run behind a h)

match-Matches : (regex text : Bytes) → match regex text ≡ true → Matches regex text
unfolding match
match-Matches [] text h = Matches.done
match-Matches (ch ∷ []) [] h = Matches.at_end (ground arith)
match-Matches (ch ∷ []) (x ∷ text) h = Matches.last (ground arith) (ground arith)
match-Matches (ch ∷ c ∷ regex) [] h = elim (Bool-cases (c == b'*')) [
  | inl star ↦
      let (run, behind, e, all, found) = matchstar-Splits (match regex) ch [] (ground arith) in
      Matches.many (ground arith) run behind e all (match-Matches regex behind found)
  | inr plain ↦ absurd (ground arith)
]
match-Matches (ch ∷ c ∷ regex) (x ∷ text) h = elim (Bool-cases (c == b'*')) [
  | inl star ↦
      let (run, behind, e, all, found) =
        matchstar-Splits (match regex) ch (x ∷ text) (ground arith) in
      Matches.many (ground arith) run behind e all (match-Matches regex behind found)
  | inr plain ↦
      Matches.one (ground arith) (ground arith) (match-Matches (c ∷ regex) text (ground arith))
]

Matches-match : {regex text : Bytes} → Matches regex text → match regex text ≡ true
unfolding match
Matches-match Matches.done = refl
Matches-match (Matches.at_end e) = ground arith
Matches-match (Matches.last n fit) = ground arith
Matches-match (Matches.many {ch} {c} {regex} {text} star run rest e all m) =
    let found = Splits-matchstar (match regex) ch run rest all (Matches-match m) in
    let here : matchstar (match regex) ch text ≡ true = ap (matchstar (match regex) ch) e ∙ found in
    ground arith
Matches-match (Matches.one {regex = regex} {text = text} n fit m) = ground (arith, Matches-match m)

match_from-MatchesWithin :
    (regex text : Bytes) → match_from regex text ≡ true → MatchesWithin regex text
unfolding match_from
match_from-MatchesWithin regex [] h = ([], [], refl, match-Matches regex [] h)
match_from-MatchesWithin regex (x ∷ text) h = elim (Bool-cases (match regex (x ∷ text))) [
  | inl now ↦ ([], x ∷ text, refl, match-Matches regex (x ∷ text) now)
  | inr later ↦
      let (before, rest, e, m) = match_from-MatchesWithin regex text (ground arith) in
      (x ∷ before, rest, ap (◌∷◌ x) e, m)
]

match_from-append :
    (regex before rest : Bytes) → Matches regex rest → match_from regex (before ++ rest) ≡ true
unfolding match_from
match_from-append regex [] [] m = Matches-match m
match_from-append regex [] (x ∷ rest) m = rw (Matches-match m)
match_from-append regex (x ∷ before) rest m = ground (arith, match_from-append regex before rest m)

regex_match-Finds_sound : (regex text : Bytes) → regex_match text regex ≡ true → Finds regex text
unfolding regex_match
regex_match-Finds_sound [] text h = Finds.trivial
regex_match-Finds_sound (c ∷ regex) text h = elim (Bool-cases (c == b'^')) [
  | inl hat ↦ Finds.anchored (ground arith) (match-Matches regex text (ground arith))
  | inr none ↦ Finds.free (ground arith) (match_from-MatchesWithin (c ∷ regex) text (ground arith))
]

Finds-regex_match : {regex text : Bytes} → Finds regex text → regex_match text regex ≡ true
unfolding regex_match
Finds-regex_match (Finds.anchored hat m) = ground (arith, Matches-match m)
Finds-regex_match (Finds.free {c} {regex} none (before, rest, e, m)) =
    let found = ap (match_from (c ∷ regex)) e ∙ match_from-append (c ∷ regex) before rest m in
    ground arith
Finds-regex_match (Finds.trivial {text}) = match_from-append [] [] text Matches.done

-- regex_match finds the pattern in the text exactly if the pattern stands for a part of the text, or
-- for its beginning where it starts with `^`.
pub regex_match-Finds : (regex text : Bytes) → (regex_match text regex ≡ true) ↔ Finds regex text
regex_match-Finds regex text = (regex_match-Finds_sound regex text, Finds-regex_match)
