-- ===== src/Selector/Tree/Entries.antt =====
-- What a change and a removal of an entry of the selector's hash maps do to what is found, where the
-- keys are numbers.
use colossal.Prelude.{ℕ, ◌≤◌, ◌≡◌, refl, false, none, some, List, [], ◌∷◌, ◌==◌, arith}
use colossal.Select.Make.{occurs}
use colossal.Selector.Tree.{lookup, modify, remove, keys}

module _ {ℓ} {V : Type ℓ} (k : ℕ) where
  pub lookup-modify :
      (f : V → V) (m : List (ℕ × V)) (v : V)
      → lookup ◌==◌ k m ≡ some v
      → lookup ◌==◌ k (modify ◌==◌ k f m) ≡ some (f v)
  unfolding lookup modify
  lookup-modify f [] v h = cc
  lookup-modify f ((j, w) ∷ m) v h = ground (arith, lookup-modify f m v)

  pub lookup-modify_ne :
      (f : V → V) (i : ℕ) (m : List (ℕ × V))
      → (i == k) ≡ false
      → lookup ◌==◌ i (modify ◌==◌ k f m) ≡ lookup ◌==◌ i m
  unfolding lookup modify
  lookup-modify_ne f i [] n = refl
  lookup-modify_ne f i ((j, w) ∷ m) n = ground (arith, lookup-modify_ne f i m n)

  pub lookup-remove_ne :
      (i : ℕ) (m : List (ℕ × V))
      → (i == k) ≡ false
      → lookup ◌==◌ i (remove ◌==◌ k m) ≡ lookup ◌==◌ i m
  unfolding lookup remove
  lookup-remove_ne i [] n = refl
  lookup-remove_ne i ((j, w) ∷ m) n = ground (arith, lookup-remove_ne i m n)

  lookup_absent : (m : List (ℕ × V)) → occurs (λ v. v == k) (keys m) ≡ 0 → lookup ◌==◌ k m ≡ none
  unfolding lookup keys
  lookup_absent [] h = refl
  lookup_absent ((j, w) ∷ m) h = ground (arith, lookup_absent m)

  pub lookup-remove :
      (m : List (ℕ × V))
      → occurs (λ v. v == k) (keys m) ≤ 1
      → lookup ◌==◌ k (remove ◌==◌ k m) ≡ none
  unfolding lookup remove keys
  lookup-remove [] h = refl
  lookup-remove ((j, w) ∷ m) h = ground (arith, lookup_absent m, lookup-remove m)

  pub keys-modify : (f : V → V) (m : List (ℕ × V)) → keys (modify ◌==◌ k f m) ≡ keys m
  unfolding keys modify
  keys-modify f [] = refl
  keys-modify f ((j, w) ∷ m) = ground (arith, keys-modify f m)
