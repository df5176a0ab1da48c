-- ===== src/Selector/Tree.antt =====
-- The hash maps of the selector, as association lists up to a test of the keys.
pub mod Entries
use colossal.Prelude.{Bool, Option, none, some, List, [], ◌∷◌, if◌then◌else◌}

module _ {ℓ κ} {K : Type ℓ} {V : Type κ} (eq : K → K → Bool) where
  -- find, an insertion of `new` if there is none, and a change of the value
  unfoldable pub upsert : K → V → (V → V) → List (K × V) → List (K × V)
  upsert k new f [] = (k, f new) ∷ []
  upsert k new f ((j, v) ∷ m) = if eq j k then (j, f v) ∷ m else (j, v) ∷ upsert k new f m

  unfoldable pub lookup : K → List (K × V) → Option V
  lookup k [] = none
  lookup k ((j, v) ∷ m) = if eq j k then some v else lookup k m

  unfoldable pub modify : K → (V → V) → List (K × V) → List (K × V)
  modify k f [] = []
  modify k f ((j, v) ∷ m) = if eq j k then (j, f v) ∷ m else (j, v) ∷ modify k f m

  unfoldable pub remove : K → List (K × V) → List (K × V)
  remove k [] = []
  remove k ((j, v) ∷ m) = if eq j k then m else (j, v) ∷ remove k m

unfoldable pub keys {ℓ κ} : {K : Type ℓ} {V : Type κ} → List (K × V) → List K
keys [] = []
keys ((k, v) ∷ m) = k ∷ keys m
