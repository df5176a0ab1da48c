-- ===== src/Tree/Splay/Map.antt =====
-- splay_map: it ends, and its root is an equal entry, or the new one, put in order.
use mathlib.Core.List.{append-nil}
use colossal.Prelude.{
  ◌≡◌, refl, sym, subst, ◌∙◌, ℕ, zero, suc, ◌<◌, inl, inr, true, false, Option, some, List, [],
  Bool-cases, arith,
}
use colossal.Prelude.Int.{ℤ}
use colossal.Tree.{
  tree_count, Side, left, right, other, Tree, leaf, node, link, parts, is_less, is_equal,
}
use colossal.Tree.Splay.{
  Chains, pass, assemble, assemble_link, beyond, no_chains, map_turn, map_loop, splay_map,
}
use colossal.Tree.Splay.Sides.{
  around, around-pass, inorder-rotated, parts-cases, tree_count-link, link-other, Divides, Past,
  IsSorted-link, pass-Divides, beyond-Past, Divides-NoneEqual, inorder-assemble,
}
use colossal.Tree.Inorder.{inorder, before, after}
use colossal.Tree.Order.{
  IsOrder, IsSorted, NoneEqual, insert, insert-between, Below-AtMost, less_of_not,
}

-- The root is equal to the new entry and the entries stay, or it is the new one and none is equal.
pub data Roots {ℓ} {A : Type ℓ} (cmp : A → A → ℤ) (e : A) (ys : List A)
    : Option (Tree A) → Type ℓ where
  equal :
      {l : Tree A} {x : A} {r : Tree A}
      → inorder (node l x r) ≡ ys
      → is_equal cmp e x ≡ true
      → Roots cmp e ys (some (node l x r))
  added :
      {l r : Tree A}
      → inorder (node l e r) ≡ insert cmp e ys
      → NoneEqual cmp e ys
      → Roots cmp e ys (some (node l e r))

module _ {ℓ} {A : Type ℓ} (cmp : A → A → ℤ) (o : IsOrder cmp) (e : A) where
  -- What follows the loop when the head is NULL.
  plant :
      (c : Chains A) → Divides cmp e c → Roots cmp e (around c []) (some (assemble leaf e leaf c))
  plant c v =
      Roots.added
        (inorder-assemble cmp o e leaf e leaf c v
          ∙ sym (
              insert-between cmp e (before c.small) (after c.large)
                (Below-AtMost cmp o e (before c.small) v.below) v.above))
        (Divides-NoneEqual cmp o e c v)

  raise_equal :
      (d : Side) (a : Tree A) (y : A) (b : Tree A) (c : Chains A)
      → is_equal cmp e y ≡ true
      → Divides cmp e c
      → Roots cmp e (around c (inorder (link d a y b))) (some (assemble_link d a y b c))
  raise_equal left a y b c q v = Roots.equal (inorder-assemble cmp o e a y b c v) q
  raise_equal right a y b c q v = Roots.equal (inorder-assemble cmp o e b y a c v) q

  -- An entry that is beyond another one on neither side is equal.
  neither_beyond :
      (d : Side) (y : A)
      → beyond cmp d e y ≡ false
      → beyond cmp (other d) e y ≡ false
      → is_equal cmp e y ≡ true
  neither_beyond left y h k = ground arith
  neither_beyond right y h k = ground arith

  module _ (go : Tree A → Chains A → Option (Tree A)) (n : ℕ)
      (goes : (t : Tree A) (c : Chains A)
        → tree_count t < n
        → IsSorted cmp (inorder t)
        → Divides cmp e c
        → Roots cmp e (around c (inorder t)) (go t c)) where
    -- The loop goes on at the child on a side.
    onward :
        (d : Side) (near : Tree A) (x : A) (far : Tree A) (c : Chains A)
        → tree_count near < n
        → Past cmp o e d x
        → IsSorted cmp (inorder (link d near x far))
        → Divides cmp e c
        → Roots cmp e (around c (inorder (link d near x far))) (go near (pass d x far c))
    onward d near x far c m h s v =
        let (sn, k, _) = IsSorted-link cmp o e d near x far s in
        subst (λ ys. Roots cmp e ys (go near (pass d x far c))) (sym (around-pass d near x far c))
          (goes near (pass d x far c) m sn (pass-Divides cmp o e d x far c h k v))

    turn_child :
        (d : Side) (a : Tree A) (y : A) (b : Tree A) (x : A) (far : Tree A) (c : Chains A)
        → tree_count (link d a y b) < n
        → Past cmp o e d x
        → IsSorted cmp (inorder (link d (link d a y b) x far))
        → Divides cmp e c
        → parts d (link d a y b) ≡ some (a, y, b)
        → Roots cmp e
            (around c (inorder (link d (link d a y b) x far)))
            (map_turn cmp go e d (link d a y b) x far c)
    unfolding map_turn
    turn_child d a y b x far c m h s v p =
        let up = inorder-rotated d a y b x far in
        let (sn, kx, _) = IsSorted-link cmp o e d (link d a y b) x far s in
        let w = pass-Divides cmp o e d x far c h kx v in
        elim (Bool-cases (beyond cmp d e y)) [
          | inl g ↦
              rw (map_turn, p, g, up)
                (onward d a y (link d b x far) c (omega (arith, m, tree_count-link d a y b))
                  (beyond-Past cmp o e d y g) (subst (IsSorted cmp) up s) v)
          | inr g ↦ elim (Bool-cases (beyond cmp (other d) e y)) [
            | inl k ↦
                rw (map_turn, p, g, k, around-pass d (link d a y b) x far c, ← link-other d a y b)
                  (onward (other d) b y a (pass d x far c)
                    (omega (arith, m, tree_count-link d a y b)) (beyond-Past cmp o e (other d) y k)
                    (subst (λ t. IsSorted cmp (inorder t)) (sym (link-other d a y b)) sn) w)
            | inr k ↦
                rw (map_turn, p, g, k, around-pass d (link d a y b) x far c)
                  (raise_equal d a y b (pass d x far c) (neither_beyond d y g k) w)
          ]
        ]

    map_turn-Roots :
        (d : Side) (near : Tree A) (x : A) (far : Tree A) (c : Chains A)
        → tree_count near < n
        → Past cmp o e d x
        → IsSorted cmp (inorder (link d near x far))
        → Divides cmp e c
        → Roots cmp e (around c (inorder (link d near x far))) (map_turn cmp go e d near x far c)
    unfolding map_turn
    map_turn-Roots d near x far c m h s v = elim (parts-cases d near) [
      | inl (q, p) ↦
          let (sn, k, _) = IsSorted-link cmp o e d near x far s in
          rw (map_turn, p, around-pass d near x far c, q)
            (plant (pass d x far c) (pass-Divides cmp o e d x far c h k v))
      | inr (a, y, b, q, p) ↦
          subst
            (λ t.
              tree_count t < n
              → IsSorted cmp (inorder (link d t x far))
              → parts d t ≡ some (a, y, b)
              → Roots cmp e (around c (inorder (link d t x far))) (map_turn cmp go e d t x far c))
            (sym q) (λ m' s' p'. turn_child d a y b x far c m' h s' v p') m s p
    ]

  map_loop-Roots :
      (n : ℕ) (t : Tree A) (c : Chains A)
      → tree_count t < n
      → IsSorted cmp (inorder t)
      → Divides cmp e c
      → Roots cmp e (around c (inorder t)) (map_loop cmp n e t c)
  unfolding map_loop
  map_loop-Roots zero t c m s v = absurd (omega (arith, m))
  map_loop-Roots (suc n) leaf c m s v = plant c v
  map_loop-Roots (suc n) (node l x r) c m s v = elim (Bool-cases (is_equal cmp e x)) [
    | inl q ↦ rw (map_loop, q) (Roots.equal (inorder-assemble cmp o e l x r c v) q)
    | inr q ↦ elim (Bool-cases (is_less cmp e x)) [
      | inl h ↦
          rw (map_loop, q, h)
            (map_turn-Roots (map_loop cmp n e) n (map_loop-Roots n) left l x r c (omega (arith, m))
              h s v)
      | inr h ↦
          rw (map_loop, q, h)
            (map_turn-Roots (map_loop cmp n e) n (map_loop-Roots n) right r x l c (omega (arith, m))
              (less_of_not cmp o e x q h) s v)
    ]
  ]

  -- If the comparison orders the entries and those of the tree are sorted, splay_map ends, and its
  -- root is an equal entry, all entries staying as they are, or, where no entry is equal, the new
  -- one, put in order.
  pub splay_map-Roots :
      (t : Tree A) → IsSorted cmp (inorder t) → Roots cmp e (inorder t) (splay_map cmp e t)
  unfolding splay_map
  splay_map-Roots t s =
      subst (λ ys. Roots cmp e ys (map_loop cmp (suc (tree_count t)) e t no_chains))
        (append-nil (inorder t))
        (map_loop-Roots (suc (tree_count t)) t no_chains (omega arith) s
          (record { small_right = refl; large_left = refl; below = tt; above = tt }))
