-- ===== src/StrUtil/Tests.antt =====
-- Runs of the string routines, and the theorems at concrete strings.
use colossal.Prelude.{◌≡◌, ◌↔◌, refl, true, false, none, some, List, [], ◌∷◌, arith}
use colossal.StrUtil.{Bytes, regex_match, take, getfield}
use colossal.StrUtil.Pattern.{Finds}
use colossal.StrUtil.Regex.{regex_match-Finds}
use colossal.StrUtil.Fields.{join, getfield-join, getfield-join_beyond}

-- "ab,,cd"
abbrev fields : List Bytes
fields = (b'a' ∷ b'b' ∷ []) ∷ [] ∷ (b'c' ∷ b'd' ∷ []) ∷ []

-- `^a*b$` on "aab" and on "abb"
anchored_run : regex_match (b'a' ∷ b'a' ∷ b'b' ∷ []) (b'^' ∷ b'a' ∷ b'*' ∷ b'b' ∷ b'$' ∷ []) ≡ true
unfolding regex_match
anchored_run = refl

anchored_miss :
    regex_match (b'a' ∷ b'b' ∷ b'b' ∷ []) (b'^' ∷ b'a' ∷ b'*' ∷ b'b' ∷ b'$' ∷ []) ≡ false
unfolding regex_match
anchored_miss = refl

-- An empty last field is not written.
empty_last : getfield (b'a' ∷ b',' ∷ []) 1 8 b',' ≡ ([], none)
unfolding getfield
empty_last = refl

-- A field that the buffer has no room for is cut.
long_field :
    getfield (b'a' ∷ b'b' ∷ b'c' ∷ []) 0 3 b','
    ≡ (b'a' ∷ b'b' ∷ b'c' ∷ [], some (b'a' ∷ b'b' ∷ 0 ∷ []))
unfolding getfield
long_field = refl

regex_match-Finds_example :
    (regex_match (b'a' ∷ b'b' ∷ []) (b'.' ∷ b'$' ∷ []) ≡ true)
    ↔ Finds (b'.' ∷ b'$' ∷ []) (b'a' ∷ b'b' ∷ [])
regex_match-Finds_example = regex_match-Finds (b'.' ∷ b'$' ∷ []) (b'a' ∷ b'b' ∷ [])

getfield-join_example :
    getfield (join b',' fields) 1 3 b',' ≡ (join b',' ([] ∷ (b'c' ∷ b'd' ∷ []) ∷ []), some (0 ∷ []))
unfolding take
getfield-join_example =
    getfield-join b',' ((b'a' ∷ b'b' ∷ []) ∷ []) [] ((b'c' ∷ b'd' ∷ []) ∷ []) 3 (ground arith) tt
      (omega arith) (omega arith)

getfield-join_beyond_example : getfield (join b',' fields) 3 9 b',' ≡ ([], none)
getfield-join_beyond_example = getfield-join_beyond b',' fields 3 9 (ground arith) (omega arith)
