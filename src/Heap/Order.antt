-- ===== src/Heap/Order.antt =====
-- The heap order, and what holds around the hole that heap_push and heap_adjust move.
use colossal.Prelude.{ℕ, zero, suc, ◌≤◌, ◌<◌, ◌≡◌, ◌≢◌, refl, Bool, true, false, arith}
use colossal.Heap.{parent}

-- `lt` is an order in which "neither is less" may relate different entries.
pub record IsWeakOrder {ℓ} {A : Type ℓ} (lt : A → A → Bool) : Type ℓ where
  pub asym : (a b : A) → lt a b ≡ true → lt b a ≡ false
  pub not_trans : (a b c : A) → lt a b ≡ false → lt b c ≡ false → lt a c ≡ false

module _ {ℓ} {A : Type ℓ} (lt : A → A → Bool) where
  -- No parent at `lo` or later is less than its child, among the first `n` entries.
  abbrev pub IsHeapFrom : ℕ → ℕ → (ℕ → A) → Type 0
  IsHeapFrom lo n base =
      (c : ℕ) → 0 < c → c < n → lo ≤ parent c → lt (base (parent c)) (base c) ≡ false

  abbrev pub IsHeap : ℕ → (ℕ → A) → Type 0
  IsHeap n base = IsHeapFrom 0 n base

-- `i` is `top`, or stands below it in the tree.
pub data Below (top : ℕ) : ℕ → Type 0 where
  at : {i : ℕ} → i ≡ top → Below top i
  under : {i : ℕ} → 0 < i → Below top (parent i) → Below top i

pub le-Below : (top i : ℕ) → Below top i → top ≤ i
le-Below top i (at e) = omega arith
le-Below top i (under p b) = omega (arith, le-Below top (parent i) b)

pub Below-parent : (top i : ℕ) → Below top i → top < i → Below top (parent i)
Below-parent top i (at e) h = absurd (omega arith)
Below-parent top i (under p b) h = b

-- Every index stands below the root.
pub Below-root : (k i : ℕ) → i ≤ k → Below 0 i
Below-root k zero h = Below.at refl
Below-root zero (suc i) h = absurd (omega arith)
Below-root (suc k) (suc i) h =
    Below.under (omega arith) (Below-root k (parent (suc i)) (omega arith))

module _ {ℓ} {A : Type ℓ} (lt : A → A → Bool) where
  -- Every edge from `top` on is in order, but for those at the hole, which may be bridged.
  pub record HoleInv (top n : ℕ) (base : ℕ → A) (hole : ℕ) : Type 0 where
    pub below : Below top hole
    pub edges :
        (c : ℕ)
        → 0 < c
        → c < n
        → top ≤ parent c
        → c ≢ hole
        → parent c ≢ hole
        → lt (base (parent c)) (base c) ≡ false
    pub bridged :
        (c : ℕ)
        → 0 < c
        → c < n
        → parent c ≡ hole
        → top < hole
        → lt (base (parent hole)) (base c) ≡ false

  module _ (laws : IsWeakOrder lt) where
    root_first_below :
        (k n : ℕ) (base : ℕ → A) (i : ℕ)
        → IsHeap lt n base
        → i < k
        → i < n
        → lt (base 0) (base i) ≡ false
    root_first_below zero n base i h f p = absurd (omega arith)
    root_first_below (suc k) n base zero h f p = ground (arith, laws.asym (base 0) (base 0))
    root_first_below (suc k) n base (suc i) h f p =
        laws.not_trans _ (base (parent (suc i))) _
          (root_first_below k n base (parent (suc i)) h (omega arith) (omega arith))
          (h (suc i) (omega arith) p (omega arith))

    -- The root of a heap is not less than any entry.
    pub root_first :
        (n : ℕ) (base : ℕ → A) (i : ℕ) → IsHeap lt n base → i < n → lt (base 0) (base i) ≡ false
    root_first n base i h p = root_first_below (suc i) n base i h (omega arith) p
