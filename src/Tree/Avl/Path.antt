-- ===== src/Tree/Avl/Path.antt =====
-- The ancestors of a place in a balanced tree, for the height that the place has to have.
use colossal.Prelude.{◌≡◌, refl, ℕ, List, [], ◌∷◌}
use colossal.Prelude.Int.{pos, ◌+ℤ◌}
use colossal.Tree.{Side, left, right, other, Tree, Frame, link, plug, zip}
use colossal.Tree.Avl.{Avl, lean, twice}
use colossal.Tree.Avl.Shape.{Shape, keys, IsAvl, IsAvl-link}

module _ {ℓ} {A : Type ℓ} where
  abbrev pub IsPath : List (Frame (Avl A)) → ℕ → Type 0
  IsPath [] h = Unit
  IsPath (f ∷ path) h =
      (k : ℕ) × (n : ℕ) × IsAvl f.sibling k × Shape f.side (f.entry).balance h k n × IsPath path n

  pub zip-IsAvl :
      (path : List (Frame (Avl A))) (t : Tree (Avl A)) (h : ℕ)
      → IsAvl t h
      → IsPath path h
      → (n : ℕ) × IsAvl (zip t path) n
  unfolding zip
  zip-IsAvl [] t h v p = (h, v)
  zip-IsAvl (f ∷ path) t h v (k, n, w, s, p) =
      zip-IsAvl path (plug t f) n (IsAvl-link f.side t f.entry f.sibling h k n v w s) p

  keys-link :
      (d : Side) (u t : Tree (Avl A)) (x y : Avl A) (far : Tree (Avl A))
      → keys u ≡ keys t
      → x.entry ≡ y.entry
      → keys (link d u x far) ≡ keys (link d t y far)
  keys-link left u t x y far q e = rw (q, e) refl
  keys-link right u t x y far q e = rw (q, e) refl

  pub keys-zip :
      (path : List (Frame (Avl A))) (u t : Tree (Avl A))
      → keys u ≡ keys t
      → keys (zip u path) ≡ keys (zip t path)
  unfolding zip
  keys-zip [] u t q = q
  keys-zip (f ∷ path) u t q =
      keys-zip path (plug u f) (plug t f) (keys-link f.side u t f.entry f.entry f.sibling q refl)

  pub keys-rebalanced :
      (d : Side) (t : Tree (Avl A)) (x y : Avl A) (far : Tree (Avl A))
      → x.entry ≡ y.entry
      → keys (link d t x far) ≡ keys (link d t y far)
  keys-rebalanced d t x y far e = keys-link d t t x y far refl e

-- What the steps up and down do to the balances.
pub even_tilted : (d : Side) → pos 0 +ℤ lean d ≡ lean d
unfolding ◌+ℤ◌
even_tilted left = refl
even_tilted right = refl

pub lean_tilted : (d : Side) → lean d +ℤ lean d ≡ twice d
unfolding ◌+ℤ◌
lean_tilted left = refl
lean_tilted right = refl

pub lean_levelled : (d : Side) → lean (other d) +ℤ lean d ≡ pos 0
unfolding ◌+ℤ◌
lean_levelled left = refl
lean_levelled right = refl

pub lean_lowered : (d : Side) → lean d +ℤ lean (other d) ≡ pos 0
unfolding ◌+ℤ◌
lean_lowered left = refl
lean_lowered right = refl
