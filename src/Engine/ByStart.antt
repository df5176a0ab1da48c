-- ===== src/Engine/ByStart.antt =====
-- The running tasks sorted by their start times are the same entries.
use colossal.Prelude.{ℕ, ◌+◌, ◌≡◌, refl, inl, inr, Bool, List, [], ◌∷◌, Bool-cases, bit, arith}
use colossal.Double.{Double}
use colossal.Select.Make.{occurs}
use colossal.State.{Engine}
use colossal.Engine.{insert_by_stime, sort_by_stime}

module _ {ℓ} {D : Type ℓ} ⦃d : Double D⦄ (e : Engine D) (p : ℕ → Bool) where
  occurs-insert_by_stime :
      (t : ℕ) (xs : List ℕ) → occurs p (insert_by_stime e t xs) ≡ bit (p t) + occurs p xs
  unfolding insert_by_stime
  occurs-insert_by_stime t [] = refl
  occurs-insert_by_stime t (x ∷ xs) =
      elim (Bool-cases (d.lt (e.descs x).task.stime (e.descs t).task.stime)) [
        | inl g ↦ rw (insert_by_stime, g) refl
        | inr g ↦ rw (insert_by_stime, g) (omega (arith, occurs-insert_by_stime t xs))
      ]

  pub occurs-sort_by_stime : (ts : List ℕ) → occurs p (sort_by_stime e ts) ≡ occurs p ts
  unfolding sort_by_stime
  occurs-sort_by_stime [] = refl
  occurs-sort_by_stime (t ∷ ts) =
      omega (arith, occurs-insert_by_stime t (sort_by_stime e ts), occurs-sort_by_stime ts)
