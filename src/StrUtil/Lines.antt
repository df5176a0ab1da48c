-- ===== src/StrUtil/Lines.antt =====
-- nextline on text that has a line's end.
use mathlib.Core.Option
use colossal.Prelude.{
  ℕ, suc, ◌+◌, ◌≡◌, ◌≢◌, refl, ap, ◌⊎◌, inl, inr, none, some, [], ◌∷◌, ◌++◌, All, ltb, arith,
  length, length-append, set, if◌then◌else◌,
}
use colossal.StrUtil.{Bytes, line_end, nextline}

-- Text within a line.
abbrev pub IsLine : Bytes → Type 0
IsLine line = All (λ c. (c ≢ b'\n') × (c ≢ 0)) line

abbrev pub IsEnd : ℕ → Type 0
IsEnd c = (c ≡ b'\n') ⊎ (c ≡ 0)

line_end-append :
    (line : Bytes) (c : ℕ) (rest : Bytes)
    → IsLine line
    → IsEnd c
    → line_end (line ++ c ∷ rest) ≡ some (length line)
unfolding line_end
line_end-append [] c rest t (inl e) = ground arith
line_end-append [] c rest t (inr e) = ground arith
line_end-append (d ∷ line) c rest ((m, n), t) e =
    ground (arith, ap (Option.map suc) (line_end-append line c rest t e))

set-append :
    (line : Bytes) (c d : ℕ) (rest : Bytes)
    → set (line ++ c ∷ rest) (length line) d ≡ line ++ d ∷ rest
set-append [] c d rest = refl
set-append (x ∷ line) c d rest = ap (◌∷◌ x) (set-append line c d rest)

-- Behind the end of the line there is text exactly if the rest is not empty.
behind_end :
    (line : Bytes) (c : ℕ) (rest : Bytes)
    → ltb (length line + 1) (length (line ++ c ∷ rest)) ≡ ltb 0 (length rest)
behind_end line c rest = ground (arith, length-append line (c ∷ rest))

-- If text within a line is followed by an end of the line, nextline turns that end into a zero and
-- leaves the rest alone; it returns the place behind the end exactly if the buffer goes on there.
nextline-cut :
    (line : Bytes) (c : ℕ) (rest : Bytes)
    → IsLine line
    → IsEnd c
    → nextline (line ++ c ∷ rest)
      ≡ (line ++ 0 ∷ rest, if ltb 0 (length rest) then some (length line + 1) else none)
unfolding nextline
nextline-cut line c rest t e =
    rw (nextline, line_end-append line c rest t e, set-append line c 0 rest, behind_end line c rest)
