-- ===== src/Tree/Avl/Balance.antt =====
-- __avl_balance: behind an insertion it makes the whole tree balanced again.
use colossal.Prelude.{
  ◌≡◌, ◌≢◌, refl, sym, ap, subst, ◌∙◌, ℕ, suc, ◌⊎◌, inl, inr, Bool, true, false, Option, some, List,
  [], ◌∷◌, if◌then◌else◌, not_both, arith, ◌>>=◌,
}
use colossal.Prelude.Int.{ℤ, pos, ◌+ℤ◌, eqb_ℤ}
use colossal.Tree.{Side, left, right, other, Tree, leaf, node, Frame, link, plug, zip}
use colossal.Tree.Avl.{
  Avl, lean, twice, mark, single, double, raise, level, climb_balance, avl_balance,
}
use colossal.Tree.Avl.Shape.{Shape, keys, IsAvl, IsAvl-link, link-IsAvl, Avls, is_link}
use colossal.Tree.Avl.Rotate.{lean-even, lean-same, other-lean, single-lower, double-lower}
use colossal.Tree.Avl.Path.{
  IsPath, zip-IsAvl, keys-zip, keys-rebalanced, even_tilted, lean_tilted, lean_levelled,
}

lean≢even : (d : Side) → lean d ≢ pos 0
lean≢even d h = not_both (eqb_ℤ (lean d) (pos 0)) (ap (λ b. eqb_ℤ b (pos 0)) h) (lean-even d)

module _ {ℓ} {A : Type ℓ} where
  -- The root is not even.
  abbrev pub Leans : Tree (Avl A) → Type 0
  Leans leaf = Unit
  Leans (node l x r) = x.balance ≢ pos 0

  Leans-link :
      (d : Side) (a : Tree (Avl A)) (c : Avl A) (b : Tree (Avl A))
      → Leans (link d a c b)
      → c.balance ≢ pos 0
  Leans-link left a c b h = h
  Leans-link right a c b h = h

  link-Leans :
      (d : Side) (a : Tree (Avl A)) (c : Avl A) (b : Tree (Avl A))
      → c.balance ≡ lean d
      → Leans (link d a c b)
  link-Leans left a c b e = λ h. lean≢even left (sym e ∙ h)
  link-Leans right a c b e = λ h. lean≢even right (sym e ∙ h)

  level-node :
      (l : Tree (Avl A)) (x : Avl A) (r : Tree (Avl A)) (h k n : ℕ)
      → Shape left x.balance h k n
      → level (node l x r) ≡ some (node l x r)
  unfolding level
  level-node l x r h k n (Shape.even p q s) = rw (level, p) refl
  level-node l x r h k n (Shape.near_higher p q s) = rw (level, p) refl
  level-node l x r h k n (Shape.far_higher p q s) = rw (level, p) refl

  -- The last step of __avl_balance leaves a balanced node alone.
  level-IsAvl :
      (d : Side) (a : Tree (Avl A)) (x : Avl A) (b : Tree (Avl A)) (n : ℕ)
      → IsAvl (link d a x b) n
      → level (link d a x b) ≡ some (link d a x b)
  level-IsAvl left a x b n (h, k, va, vb, s) = level-node a x b h k n s
  level-IsAvl right a x b n (h, k, va, vb, s) = level-node b x a h k n s

  level-twice :
      (d : Side) (a : Tree (Avl A)) (x : Avl A) (b : Tree (Avl A))
      → x.balance ≡ twice d
      → level (link d a x b) ≡ raise d (link d a x b)
  unfolding level
  level-twice left a x b e = rw (level, e) refl
  level-twice right a x b e = rw (level, e) refl

  raise-link :
      (d : Side) (a : Tree (Avl A)) (c : Avl A) (b : Tree (Avl A)) (x : Avl A) (far : Tree (Avl A))
      (w : Bool)
      → eqb_ℤ c.balance (lean d) ≡ w
      → raise d (link d (link d a c b) x far) ≡ (
          if w
          then single d (pos 0) (pos 0) (link d (link d a c b) x far)
          else double d (link d (link d a c b) x far))
  unfolding raise
  raise-link left a c b x far w e = rw (raise, e) refl
  raise-link right a c b x far w e = rw (raise, e) refl

  raise_at :
      (d : Side) (a : Tree (Avl A)) (c : Avl A) (b : Tree (Avl A)) (x : Avl A) (far : Tree (Avl A))
      (k : ℕ)
      → IsAvl (link d a c b) (suc (suc k))
      → Leans (link d a c b)
      → IsAvl far k
      → Avls
          (keys (link d (link d a c b) x far))
          (suc (suc k))
          (raise d (link d (link d a c b) x far))
  raise_at d a c b x far k v e w =
      let (h, j, va, vb, s) = link-IsAvl d a c b (suc (suc k)) v in
      elim s [
        | Shape.even p q r ↦ absurd (Leans-link d a c b e p)
        | Shape.near_higher p q r ↦
            rw (raise-link d a c b x far true (rw p (lean-same d)))
              (single-lower d a c b x far k v w p)
        | Shape.far_higher p q r ↦
            rw (raise-link d a c b x far false (rw p (other-lean d)))
              (double-lower d a c b x far k v w p)
      ]

  -- A child that leans and is higher by two than the other is brought up.
  raise-Avls :
      (d : Side) (near : Tree (Avl A)) (x : Avl A) (far : Tree (Avl A)) (k : ℕ)
      → IsAvl near (suc (suc k))
      → Leans near
      → IsAvl far k
      → Avls (keys (link d near x far)) (suc (suc k)) (raise d (link d near x far))
  raise-Avls d near x far k v e w =
      let (a, c, b, f) = is_link d near (suc k) v in
      subst
        (λ t.
          IsAvl t (suc (suc k))
          → Leans t
          → Avls (keys (link d t x far)) (suc (suc k)) (raise d (link d t x far)))
        (sym f) (λ v' e'. raise_at d a c b x far k v' e' w) v e

  -- What follows the loop.
  finish : Tree (Avl A) × List (Frame (Avl A)) → Option (Tree (Avl A))
  finish (top, rest) = do t ← level top; some (zip t rest)

  finish-Avls :
      (top : Tree (Avl A)) (rest : List (Frame (Avl A))) (h : ℕ) (ks : List A)
      → Avls (keys top) h (level top)
      → IsPath rest h
      → keys (zip top rest) ≡ ks
      → (n : ℕ) × Avls ks n (finish (top, rest))
  unfolding finish
  finish-Avls top rest h ks v p q =
      let (n, w) = zip-IsAvl rest v.tree h v.balanced p in
      (
        n,
        record {
          tree = zip v.tree rest;
          returned = rw v.returned refl;
          balanced = w;
          same_keys = keys-zip rest v.tree top v.same_keys ∙ q;
        },
      )

  still :
      (d : Side) (a : Tree (Avl A)) (x : Avl A) (b : Tree (Avl A)) (n : ℕ)
      → IsAvl (link d a x b) n
      → Avls (keys (link d a x b)) n (level (link d a x b))
  still d a x b n v = record {
    tree = link d a x b;
    returned = level-IsAvl d a x b n v;
    balanced = v;
    same_keys = refl;
  }

  climb-go :
      (t : Tree (Avl A)) (f : Frame (Avl A)) (path : List (Frame (Avl A))) (b : ℤ)
      → eqb_ℤ (f.entry).balance (pos 0) ≡ true
      → (f.entry).balance +ℤ lean f.side ≡ b
      → climb_balance t (f ∷ path) ≡ climb_balance (link f.side t (mark b f.entry) f.sibling) path
  unfolding climb_balance
  climb-go t f path b e q = rw (climb_balance, e, q) refl

  climb-stop :
      (t : Tree (Avl A)) (f : Frame (Avl A)) (path : List (Frame (Avl A))) (b : ℤ)
      → eqb_ℤ (f.entry).balance (pos 0) ≡ false
      → (f.entry).balance +ℤ lean f.side ≡ b
      → climb_balance t (f ∷ path) ≡ (link f.side t (mark b f.entry) f.sibling, path)
  unfolding climb_balance
  climb-stop t f path b e q = rw (climb_balance, e, q) refl

  -- The loop stops at a parent: what is left to do there.
  stopped :
      (t : Tree (Avl A)) (f : Frame (Avl A)) (path : List (Frame (Avl A))) (b : ℤ) (n : ℕ)
      → Avls
          (keys (link f.side t (mark b f.entry) f.sibling))
          n
          (level (link f.side t (mark b f.entry) f.sibling))
      → IsPath path n
      → (m : ℕ) × Avls
          (keys (zip (plug t f) path))
          m
          (finish (link f.side t (mark b f.entry) f.sibling, path))
  stopped t f path b n v p =
      let top = link f.side t (mark b f.entry) f.sibling in
      finish-Avls top path n _ v p (
        keys-zip path top (plug t f)
          (keys-rebalanced f.side t (mark b f.entry) f.entry f.sibling refl))

  leans : (t : Tree (Avl A)) (h k : ℕ) → h ≡ suc k → (h ≡ 0) ⊎ Leans t → Leans t
  leans t h k q (inl z) = absurd (omega (arith, q, z))
  leans t h k q (inr l) = l

  climb_balance-Avls :
      (path : List (Frame (Avl A))) (t : Tree (Avl A)) (h : ℕ)
      → IsAvl t (suc h)
      → IsPath path h
      → (h ≡ 0) ⊎ Leans t
      → (n : ℕ) × Avls (keys (zip t path)) n (finish (climb_balance t path))
  unfolding climb_balance finish zip
  climb_balance-Avls [] t h v p l =
      let (a, x, b, f) = is_link left t h v in
      subst (λ t. IsAvl t (suc h) → (n : ℕ) × Avls (keys t) n (finish (t, []))) (sym f)
        (λ v'. finish-Avls (link left a x b) [] (suc h) _ (still left a x b (suc h) v') tt refl) v
  climb_balance-Avls (f ∷ path) t h v (k, n, w, Shape.even p q r, ps) l =
      let top = link f.side t (mark (lean f.side) f.entry) f.sibling in
      let (m, z) =
        climb_balance-Avls path top n
          (IsAvl-link f.side t (mark (lean f.side) f.entry) f.sibling (suc h) k (suc n) v w
            (Shape.near_higher refl (ap suc q) (ap suc r)))
          ps (inr (link-Leans f.side t (mark (lean f.side) f.entry) f.sibling refl)) in
      (
        m,
        rw (climb-go t f path (lean f.side) (rw p refl) (rw p (even_tilted f.side))) (
            subst (λ ks. Avls ks m (finish (climb_balance top path)))
              (keys-zip path top (plug t f)
                (keys-rebalanced f.side t (mark (lean f.side) f.entry) f.entry f.sibling refl))
              z),
      )
  climb_balance-Avls (f ∷ path) t h v (k, n, w, Shape.near_higher p q r, ps) l =
      rw (climb-stop t f path (twice f.side) (rw p (lean-even f.side)) (rw p (lean_tilted f.side)))
        (stopped t f path (twice f.side) n
          (rw (level-twice f.side t (mark (twice f.side) f.entry) f.sibling refl) (
            subst
              (λ m.
                Avls (keys (link f.side t (mark (twice f.side) f.entry) f.sibling)) m
                  (raise f.side (link f.side t (mark (twice f.side) f.entry) f.sibling)))
              (omega (arith, q, r))
              (raise-Avls f.side t (mark (twice f.side) f.entry) f.sibling k
                (subst (λ m. IsAvl t (suc m)) q v) (leans t h k q l) w)))
          ps)
  climb_balance-Avls (f ∷ path) t h v (k, n, w, Shape.far_higher p q r, ps) l =
      rw
        (climb-stop t f path (pos 0) (rw p (lean-even (other f.side)))
          (rw p (lean_levelled f.side)))
        (stopped t f path (pos 0) n
          (still f.side t (mark (pos 0) f.entry) f.sibling n (
            IsAvl-link f.side t (mark (pos 0) f.entry) f.sibling (suc h) k n v w
              (Shape.even refl (sym q) (r ∙ ap suc q))))
          ps)

  -- __avl_balance behind an insertion
  pub avl_balance-Avls :
      (path : List (Frame (Avl A))) (x : Avl A)
      → x.balance ≡ pos 0
      → IsPath path 0
      → (n : ℕ) × Avls (keys (zip (node leaf x leaf) path)) n (avl_balance (node leaf x leaf) path)
  unfolding avl_balance finish
  avl_balance-Avls path x e p =
      climb_balance-Avls path (node leaf x leaf) 0 (0, 0, refl, refl, Shape.even e refl refl) p
        (inl refl)
