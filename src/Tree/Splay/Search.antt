-- ===== src/Tree/Splay/Search.antt =====
-- splay_search: it ends, keeps the entries in order, and brings an equal entry to the root.
use mathlib.Core.List.{append-nil}
use colossal.Prelude.{
  ◌≡◌, refl, sym, subst, ℕ, zero, suc, ◌≤◌, inl, inr, Bool, true, false, Option, none, some, List,
  Bool-cases, if◌then◌else◌, arith, ◌>>=◌,
}
use colossal.Prelude.Int.{ℤ}
use colossal.Tree.{tree_count, Side, left, right, Tree, leaf, node, link, parts, is_less, is_equal}
use colossal.Tree.Splay.{
  Chains, pass, assemble_link, beyond, no_chains, search_turn, search_loop, splay_search,
}
use colossal.Tree.Splay.Sides.{
  around, around-pass, inorder-rotated, parts-cases, tree_count-link, Divides, Past, Keeps,
  IsSorted-link, pass-Divides, beyond-Past, Divides-NoneEqual, inorder-assemble, assemble_link-node,
}
use colossal.Tree.Inorder.{inorder}
use colossal.Tree.Order.{IsOrder, IsSorted, NoneEqual, less_of_not}

-- The loop ends with all entries in order; it finds the root equal, or no entry is equal.
data Splays {ℓ} {A : Type ℓ} (cmp : A → A → ℤ) (e : A) (ys : List A)
    : Option (Tree A × Bool) → Type ℓ where
  to_equal :
      {l : Tree A} {x : A} {r : Tree A}
      → inorder (node l x r) ≡ ys
      → is_equal cmp e x ≡ true
      → Splays cmp e ys (some (node l x r, true))
  to_other :
      {l : Tree A} {x : A} {r : Tree A}
      → inorder (node l x r) ≡ ys
      → NoneEqual cmp e ys
      → Splays cmp e ys (some (node l x r, false))

module _ {ℓ} {A : Type ℓ} (cmp : A → A → ℤ) (o : IsOrder cmp) (e : A) where
  -- The loop breaks at a head that has no child towards the entry.
  stop :
      (d : Side) (x : A) (far : Tree A) (c : Chains A)
      → Past cmp o e d x
      → Keeps cmp o e d x far
      → Divides cmp e c
      → Splays cmp e
          (around c (inorder (link d leaf x far)))
          (some (assemble_link d leaf x far c, false))
  stop d x far c h k v =
      let (l, r, q, f) = assemble_link-node cmp o e d leaf x far c v in
      subst (λ t. Splays cmp e (around c (inorder (link d leaf x far))) (some (t, false))) (sym q)
        (Splays.to_other f (
          subst (NoneEqual cmp e) (sym (around-pass d leaf x far c))
            (Divides-NoneEqual cmp o e (pass d x far c) (pass-Divides cmp o e d x far c h k v))))

  module _ (go : Tree A → Chains A → Option (Tree A × Bool)) (n : ℕ)
      (goes : (l : Tree A) (x : A) (r : Tree A) (c : Chains A)
        → tree_count (node l x r) ≤ n
        → IsSorted cmp (inorder (node l x r))
        → Divides cmp e c
        → Splays cmp e (around c (inorder (node l x r))) (go (node l x r) c)) where
    rotated :
        (d : Side) (a : Tree A) (y : A) (b : Tree A) (x : A) (far : Tree A) (c : Chains A)
        → tree_count a ≤ n
        → Past cmp o e d y
        → Keeps cmp o e d y (link d b x far)
        → IsSorted cmp (inorder a)
        → Divides cmp e c
        → Splays cmp e (around c (inorder (link d a y (link d b x far)))) (elim a [
          | leaf ↦ some (assemble_link d leaf y (link d b x far) c, false)
          | node l z r ↦ go (node l z r) (pass d y (link d b x far) c)
        ])
    rotated d leaf y b x far c m h k s v = stop d y (link d b x far) c h k v
    rotated d (node l z r) y b x far c m h k s v =
        subst (λ ys. Splays cmp e ys (go (node l z r) (pass d y (link d b x far) c)))
          (sym (around-pass d (node l z r) y (link d b x far) c))
          (goes l z r (pass d y (link d b x far) c) m s
            (pass-Divides cmp o e d y (link d b x far) c h k v))

    goes_link :
        (d : Side) (a : Tree A) (y : A) (b : Tree A) (c : Chains A)
        → tree_count (link d a y b) ≤ n
        → IsSorted cmp (inorder (link d a y b))
        → Divides cmp e c
        → Splays cmp e (around c (inorder (link d a y b))) (go (link d a y b) c)
    goes_link left a y b c = goes a y b c
    goes_link right a y b c = goes b y a c

    turn_child :
        (d : Side) (a : Tree A) (y : A) (b : Tree A) (x : A) (far : Tree A) (c : Chains A)
        → tree_count (link d a y b) ≤ n
        → Past cmp o e d x
        → IsSorted cmp (inorder (link d (link d a y b) x far))
        → Divides cmp e c
        → parts d (link d a y b) ≡ some (a, y, b)
        → Splays cmp e
            (around c (inorder (link d (link d a y b) x far)))
            (search_turn cmp go e d (link d a y b) x far c)
    unfolding search_turn
    turn_child d a y b x far c m h s v p =
        let up = inorder-rotated d a y b x far in
        let (sn, kx, _) = IsSorted-link cmp o e d (link d a y b) x far s in
        let (sa, ky, _) =
          IsSorted-link cmp o e d a y (link d b x far) (subst (IsSorted cmp) up s) in
        elim (Bool-cases (beyond cmp d e y)) [
          | inl g ↦
              rw (search_turn, p, g, up)
                (rotated d a y b x far c (omega (arith, m, tree_count-link d a y b))
                  (beyond-Past cmp o e d y g) ky sa v)
          | inr g ↦
              rw (search_turn, p, g)
                (subst (λ ys. Splays cmp e ys (go (link d a y b) (pass d x far c)))
                  (sym (around-pass d (link d a y b) x far c))
                  (goes_link d a y b (pass d x far c) m sn (pass-Divides cmp o e d x far c h kx v)))
        ]

    search_turn-Splays :
        (d : Side) (near : Tree A) (x : A) (far : Tree A) (c : Chains A)
        → tree_count near ≤ n
        → Past cmp o e d x
        → IsSorted cmp (inorder (link d near x far))
        → Divides cmp e c
        → Splays cmp e
            (around c (inorder (link d near x far)))
            (search_turn cmp go e d near x far c)
    unfolding search_turn
    search_turn-Splays d near x far c m h s v = elim (parts-cases d near) [
      | inl (q, p) ↦
          rw (search_turn, p)
            (subst
              (λ t.
                Splays cmp e (around c (inorder (link d t x far)))
                  (some (assemble_link d t x far c, false)))
              (sym q) (stop d x far c h (IsSorted-link cmp o e d near x far s).1 v))
      | inr (a, y, b, q, p) ↦
          subst
            (λ t.
              tree_count t ≤ n
              → IsSorted cmp (inorder (link d t x far))
              → parts d t ≡ some (a, y, b)
              → Splays cmp e (around c (inorder (link d t x far)))
                  (search_turn cmp go e d t x far c))
            (sym q) (λ m' s' p'. turn_child d a y b x far c m' h s' v p') m s p
    ]

  search_loop-Splays :
      (n : ℕ) (l : Tree A) (x : A) (r : Tree A) (c : Chains A)
      → tree_count (node l x r) ≤ n
      → IsSorted cmp (inorder (node l x r))
      → Divides cmp e c
      → Splays cmp e (around c (inorder (node l x r))) (search_loop cmp n e (node l x r) c)
  unfolding search_loop
  search_loop-Splays zero l x r c m s v = absurd (omega (arith, m))
  search_loop-Splays (suc n) l x r c m s v = elim (Bool-cases (is_equal cmp e x)) [
    | inl q ↦ rw (search_loop, q) (Splays.to_equal (inorder-assemble cmp o e l x r c v) q)
    | inr q ↦ elim (Bool-cases (is_less cmp e x)) [
      | inl h ↦
          rw (search_loop, q, h)
            (search_turn-Splays (search_loop cmp n e) n (search_loop-Splays n) left l x r c
              (omega (arith, m)) h s v)
      | inr h ↦
          rw (search_loop, q, h)
            (search_turn-Splays (search_loop cmp n e) n (search_loop-Splays n) right r x l c
              (omega (arith, m)) (less_of_not cmp o e x q h) s v)
    ]
  ]

-- The search returns the root when it is equal, NULL when no entry is; the entries stay in order.
pub data Brings {ℓ} {A : Type ℓ} (cmp : A → A → ℤ) (e : A) (ys : List A)
    : Option (Tree A × Option A) → Type ℓ where
  to_root :
      {l : Tree A} {x : A} {r : Tree A}
      → inorder (node l x r) ≡ ys
      → is_equal cmp e x ≡ true
      → Brings cmp e ys (some (node l x r, some x))
  to_null :
      {l : Tree A} {x : A} {r : Tree A}
      → inorder (node l x r) ≡ ys
      → NoneEqual cmp e ys
      → Brings cmp e ys (some (node l x r, none))

module _ {ℓ} {A : Type ℓ} (cmp : A → A → ℤ) (o : IsOrder cmp) (e : A) where
  brings :
      (ys : List A) (w : Option (Tree A × Bool))
      → Splays cmp e ys w
      → Brings cmp e ys
          (do (t, found) ← w; (l, x, r) ← parts left t; some (t, if found then some x else none))
  brings ys w (Splays.to_equal q p) = Brings.to_root q p
  brings ys w (Splays.to_other q p) = Brings.to_null q p

  -- If the comparison orders the entries and those of a tree with at least one node are sorted,
  -- splay_search ends with all entries in their order; it returns the root, which is equal, or
  -- NULL, and then no entry is equal.
  pub splay_search-Brings :
      (l : Tree A) (x : A) (r : Tree A)
      → IsSorted cmp (inorder (node l x r))
      → Brings cmp e (inorder (node l x r)) (splay_search cmp e (node l x r))
  unfolding splay_search
  splay_search-Brings l x r s = brings (inorder (node l x r)) _ (
      subst
        (λ ys. Splays cmp e ys (search_loop cmp (tree_count (node l x r)) e (node l x r) no_chains))
        (append-nil (inorder (node l x r)))
        (search_loop-Splays cmp o e (tree_count (node l x r)) l x r no_chains (omega arith) s
          (record { small_right = refl; large_left = refl; below = tt; above = tt })))
