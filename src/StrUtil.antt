-- ===== src/StrUtil.antt =====
-- ulib/src/base/str_util.c, on text without its NUL at the end: a string is the list of its bytes,
-- and a pointer into it is the list of those from there on.
pub mod Pattern
pub mod Regex
pub mod Fields
pub mod Lines
mod Tests
use mathlib.Core.Option
use colossal.Prelude.{
  ℕ, zero, suc, ◌+◌, ◌-◌, Bool, true, false, ◌&&◌, ◌||◌, Option, none, some, List, [], ◌∷◌, ◌++◌,
  ◌==◌, ltb, leb, if◌then◌else◌, length, set,
}

abbrev pub Bytes : Type 0
Bytes = List ℕ

-- `ch == '.' || *text == ch`
abbrev pub fits : ℕ → ℕ → Bool
fits ch x = x == ch || ch == b'.'

-- __matchstar; `rest` is __match with the pattern behind the star.
pub matchstar : (Bytes → Bool) → ℕ → Bytes → Bool
matchstar rest ch [] = rest []
matchstar rest ch (x ∷ text) = rest (x ∷ text) || (fits ch x && matchstar rest ch text)

abbrev pub is_end : Bytes → Bool
is_end [] = true
is_end (x ∷ text) = false

-- The last test of __match: one character.
abbrev pub match_one : (Bytes → Bool) → ℕ → Bytes → Bool
match_one rest ch [] = false
match_one rest ch (x ∷ text) = fits ch x && rest text

-- __match
pub match : Bytes → Bytes → Bool
unfolding matchstar
match [] text = true
match (ch ∷ []) text = if ch == b'$' then is_end text else match_one (match []) ch text
match (ch ∷ c ∷ regex) text = elim (c == b'*') [
  | true ↦ matchstar (match regex) ch text
  | false ↦ match_one (match (c ∷ regex)) ch text
]

-- The loop of regex_match over the starts of a match.
pub match_from : Bytes → Bytes → Bool
unfolding match
match_from regex [] = match regex []
match_from regex (x ∷ text) = match regex (x ∷ text) || match_from regex text

unfoldable pub regex_match : Bytes → Bytes → Bool
unfolding match match_from
regex_match text [] = match_from [] text
regex_match text (c ∷ regex) = if c == b'^' then match regex text else match_from (c ∷ regex) text

-- The first end of a line, `buf` being all of the buffer behind it.
pub line_end : Bytes → Option ℕ
line_end [] = none
line_end (c ∷ buf) =
    let later = Option.map suc (line_end buf) in
    if c == b'\n' then some 0 else if c == 0 then some 0 else later

-- nextline: the buffer after the write, and where the next line starts
unfoldable pub nextline : Bytes → Bytes × Option ℕ
unfolding line_end
nextline buf = elim (line_end buf) [
  | none ↦ (buf, none)
  | some i ↦ (set buf i 0, if ltb (i + 1) (length buf) then some (i + 1) else none)
]

-- memchr, and the step over the character that it finds
pub after : ℕ → Bytes → Option Bytes
after delim [] = none
after delim (c ∷ s) = if c == delim then some s else after delim s

-- The loop of getfield.
pub skip : ℕ → ℕ → Bytes → Bytes
unfolding after
skip zero delim s = s
skip (suc id) delim [] = []
skip (suc id) delim (c ∷ s) = elim (after delim (c ∷ s)) [
  | none ↦ []
  | some rest ↦ skip id delim rest
]

-- The part of a text before a character, and its first bytes.
pub until : ℕ → Bytes → Bytes
until delim [] = []
until delim (c ∷ s) = if c == delim then [] else c ∷ until delim s

pub take : ℕ → Bytes → Bytes
take zero s = []
take (suc n) [] = []
take (suc n) (c ∷ s) = c ∷ take n s

-- getfield: the pointer that it returns, and what it writes into the field, if anything
unfoldable pub getfield : Bytes → ℕ → ℕ → ℕ → Bytes × Option Bytes
unfolding skip until take
getfield from id flen delim =
    let s = skip id delim from in
    let len = if ltb (flen - 1) (length s) then flen - 1 else length s in
    (s, if ltb 0 (length s) && ltb 0 flen then some (until delim (take len s) ++ 0 ∷ []) else none)
