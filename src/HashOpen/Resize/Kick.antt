-- ===== src/HashOpen/Resize/Kick.antt =====
-- The loop of openhash_resize that places a pair and those that it takes the place of.
use colossal.Prelude.{
  ℕ, zero, suc, ◌+◌, ◌-◌, ◌^◌, ◌<◌, ◌≡◌, ◌∙◌, refl, sym, ap, subst, Bool, true, false, not, ◌&&◌,
  ◌||◌, some, arith, ◌==◌, ==_refl, ltb, write, write-at, write-off, count,
}
use colossal.HashOpen.{Flag, is_live, next}
use colossal.HashOpen.Probe.{slot}
use colossal.HashOpen.Steps.{first, fails, reaches, advance}
use colossal.HashOpen.Resize.{empty_loop}

-- The buckets that still hold a pair by the old flags, by the new flags, and by either.
abbrev pub old : ℕ → (ℕ → Flag) → ℕ → Bool
old n F i = ltb i n && is_live (F i)

abbrev pub new : ℕ → (ℕ → Flag) → ℕ → Bool
new N G i = ltb i N && not (G i).empty

abbrev pub stored : ℕ → (ℕ → Flag) → ℕ → (ℕ → Flag) → ℕ → Bool
stored n F N G i = old n F i || new N G i

abbrev pub full : Flag → Bool
full f = not f.empty

-- OH_CLEAR_EMPTY
abbrev pub clear_empty : Flag → Flag
clear_empty f = record f { empty = false }

pub old-off :
    (n x i : ℕ) (F : ℕ → Flag) (f : Flag) → (i == x) ≡ false → old n (write F x f) i ≡ old n F i
old-off n x i F f other = ap (λ g. ltb i n && is_live g) (write-off F x i f other)

pub new-off :
    (N x i : ℕ) (G : ℕ → Flag) (g : Flag) → (i == x) ≡ false → new N (write G x g) i ≡ new N G i
new-off N x i G g other = ap (λ f. ltb i N && not f.empty) (write-off G x i g other)

pub new-at : (N x : ℕ) (G : ℕ → Flag) → x < N → new N (write G x (clear_empty (G x))) x ≡ true
new-at N x G l =
    let inside : ltb x N ≡ true = ground arith in
    ap (λ f. ltb x N && not f.empty) (write-at G x x (clear_empty (G x)) (==_refl x))
    ∙ rw inside refl

pub or_right : (a b : Bool) → b ≡ true → (a || b) ≡ true
or_right true b h = refl
or_right false b h = h

pub or_none : (a b : Bool) → a ≡ false → b ≡ false → (a || b) ≡ false
or_none a b h g = ground arith

-- Where the search for an empty bucket of the new flags ends.
pub record Hole (N hash : ℕ) (G : ℕ → Flag) : Type 0 where
  pub at : ℕ
  pub within : at < N
  pub hole : (G (slot N hash at)).empty ≡ true
  pub before : (u : ℕ) → u < at → (G (slot N hash u)).empty ≡ false

negation_true : (b : Bool) → not b ≡ false → b ≡ true
negation_true b h = ground arith

negation_false : (b : Bool) → not b ≡ true → b ≡ false
negation_false b h = ground arith

pub search-Hole : (N k hash : ℕ) (G : ℕ → Flag) → N ≡ 2 ^ k → count full G N < N → Hole N hash G
search-Hole N k hash G e room =
    let (i, l, empty) = fails full G N room in
    let (s, m, there) = reaches N k hash i e l in
    let (t, o, stop, before) =
      first (λ u. full (G (slot N hash u))) s (ap (λ j. full (G j)) there ∙ empty) in
    record {
      at = t;
      within = omega arith;
      hole = negation_true (G (slot N hash t)).empty stop;
      before = λ u p. negation_false (G (slot N hash u)).empty (before u p);
    }

next_round :
    (n : ℕ) (G : ℕ → Flag) (mask i s : ℕ)
    → (G i).empty ≡ false
    → empty_loop (suc n) G mask i s ≡ empty_loop n G mask (next mask i (s + 1)) (s + 1)
unfolding empty_loop
next_round n G mask i s h = rw (empty_loop, h) refl

pub empty_loop-Hole :
    (N k hash : ℕ) (G : ℕ → Flag)
    → N ≡ 2 ^ k
    → (h : Hole N hash G) (d n s : ℕ) → s + d ≡ h.at
    → d < n
    → empty_loop n G (N - 1) (slot N hash s) s ≡ some (slot N hash h.at)
unfolding empty_loop
empty_loop-Hole N k hash G e h d zero s p q = absurd (omega arith)
empty_loop-Hole N k hash G e h zero (suc n) s p q =
    let same : s ≡ h.at = omega arith in
    subst (λ u. empty_loop (suc n) G (N - 1) (slot N hash u) u ≡ some (slot N hash h.at)) (sym same)
      (rw (empty_loop, h.hole) refl)
empty_loop-Hole N k hash G e h (suc d) (suc n) s p q =
    let full_here = h.before s (omega arith) in
    let rest = empty_loop-Hole N k hash G e h d n (s + 1) (omega arith) (omega arith) in
    let step = ap (λ i. empty_loop n G (N - 1) i (s + 1)) (advance N k hash s e) in
    next_round n G (N - 1) (slot N hash s) s full_here ∙ step ∙ rest
