-- ===== src/Tree/Avl/Shrink.antt =====
-- The loop of avl_del: where a subtree has become lower by one, it makes the whole tree balanced again.
use colossal.Prelude.{
  ◌≡◌, refl, sym, ap, subst, ◌∙◌, ℕ, suc, Bool, true, false, Option, some, List, [], ◌∷◌,
  if◌then◌else◌, arith, ◌>>=◌,
}
use colossal.Prelude.Int.{ℤ, pos, ◌+ℤ◌, eqb_ℤ}
use colossal.Tree.{Side, left, right, other, Tree, Frame, link, plug, zip, parts}
use colossal.Tree.Splay.Sides.{link-other}
use colossal.Tree.Avl.{Avl, lean, twice, mark, single, double, lose, shrink}
use colossal.Tree.Avl.Shape.{Shape, keys, IsAvl, IsAvl-link, link-IsAvl, Avls, parts-link, is_link}
use colossal.Tree.Avl.Rotate.{
  lean-even, other-lean, lean-same, even-lean, even-twice, twice-lean, twice-same, single-lower,
  single-even, double-lower,
}
use colossal.Tree.Avl.Path.{
  IsPath, zip-IsAvl, keys-zip, keys-rebalanced, even_tilted, lean_tilted, lean_lowered,
}

other-other : (s : Side) → other (other s) ≡ s
other-other left = refl
other-other right = refl

module _ {ℓ} {A : Type ℓ} where
  -- One round leaves a balanced tree at the parent, as high as before or lower by one.
  data Loses (ks : List A) (n : ℕ) : Option (Tree (Avl A) × Bool) → Type ℓ where
    kept : {u : Tree (Avl A)} → IsAvl u n → keys u ≡ ks → Loses ks n (some (u, false))
    lower :
        {u : Tree (Avl A)} (m : ℕ)
        → n ≡ suc m
        → IsAvl u m
        → keys u ≡ ks
        → Loses ks n (some (u, true))

  -- The node of the parent with a new balance.
  abbrev at : Tree (Avl A) → Frame (Avl A) → ℤ → Tree (Avl A)
  at t f b = link f.side t (mark b f.entry) f.sibling

  keys-at : (t : Tree (Avl A)) (f : Frame (Avl A)) (b : ℤ) → keys (at t f b) ≡ keys (plug t f)
  keys-at t f b = keys-rebalanced f.side t (mark b f.entry) f.entry f.sibling refl

  lose-lean :
      (t : Tree (Avl A)) (f : Frame (Avl A))
      → (f.entry).balance +ℤ lean (other f.side) ≡ lean (other f.side)
      → lose t f ≡ some (at t f (lean (other f.side)), false)
  unfolding lose
  lose-lean t f e = rw (lose, e, lean-same (other f.side)) refl

  lose-level :
      (t : Tree (Avl A)) (f : Frame (Avl A))
      → (f.entry).balance +ℤ lean (other f.side) ≡ pos 0
      → lose t f ≡ some (at t f (pos 0), true)
  unfolding lose
  lose-level t f e = rw (lose, e, even-lean (other f.side), even-twice (other f.side)) refl

  -- The round at a parent whose other child is now higher by two.
  abbrev twist : Side → ℤ → Tree (Avl A) → Option (Tree (Avl A) × Bool)
  twist s b u =
      if eqb_ℤ b (lean s)
      then (do v ← double (other s) u; some (v, true))
      else if eqb_ℤ b (pos 0)
      then (do v ← single (other s) (lean s) (lean (other s)) u; some (v, false))
      else (do v ← single (other s) (pos 0) (pos 0) u; some (v, true))

  lose-twice :
      (t : Tree (Avl A)) (f : Frame (Avl A)) (a : Tree (Avl A)) (c : Avl A) (b : Tree (Avl A))
      → (f.entry).balance +ℤ lean (other f.side) ≡ twice (other f.side)
      → parts (other f.side) f.sibling ≡ some (a, c, b)
      → lose t f ≡ twist f.side c.balance (at t f (twice (other f.side)))
  unfolding lose
  lose-twice t f a c b e p =
      rw (lose, e, twice-lean (other f.side), twice-same (other f.side), p) refl

  from_lower :
      (ks : List A) (m : ℕ) (w : Option (Tree (Avl A)))
      → Avls ks m w
      → Loses ks (suc m) (do v ← w; some (v, true))
  from_lower ks m w v = rw v.returned (Loses.lower m refl v.balanced v.same_keys)

  from_kept :
      (ks : List A) (m : ℕ) (w : Option (Tree (Avl A)))
      → Avls ks m w
      → Loses ks m (do v ← w; some (v, false))
  from_kept ks m w v = rw v.returned (Loses.kept v.balanced v.same_keys)

  twist-Loses :
      (s : Side) (a : Tree (Avl A)) (c : Avl A) (b : Tree (Avl A)) (x : Avl A) (t : Tree (Avl A))
      (h : ℕ)
      → IsAvl (link (other s) a c b) (suc (suc h))
      → IsAvl t h
      → Loses
          (keys (link (other s) (link (other s) a c b) x t))
          (suc (suc (suc h)))
          (twist s c.balance (link (other s) (link (other s) a c b) x t))
  twist-Loses s a c b x t h v w =
      let d = other s in
      let u = link d (link d a c b) x t in
      let (j, k, va, vb, sh) = link-IsAvl d a c b (suc (suc h)) v in
      let goal : ℤ → Type ℓ = λ g. Loses (keys u) (suc (suc (suc h))) (twist s g u) in
      elim sh [
        | Shape.even p q r ↦ subst goal (sym p) (
            rw (even-lean s) (
              from_kept _ (suc (suc (suc h))) (single d (lean s) (lean d) u) (
                subst (λ z. Avls (keys u) (suc (suc (suc h))) (single d (lean z) (lean d) u))
                  (other-other s) (single-even d a c b x t h v w p))))
        | Shape.near_higher p q r ↦ subst goal (sym p) (
            rw (other-lean s, lean-even d)
              (from_lower _ (suc (suc h)) (single d (pos 0) (pos 0) u)
                (single-lower d a c b x t h v w p)))
        | Shape.far_higher p q r ↦ subst goal (sym (p ∙ ap lean (other-other s))) (
            rw (lean-same s)
              (from_lower _ (suc (suc h)) (double d u) (double-lower d a c b x t h v w p)))
      ]

  rebalanced :
      (t : Tree (Avl A)) (f : Frame (Avl A)) (b : ℤ) (n : ℕ) (w : Option (Tree (Avl A) × Bool))
      → Loses (keys (at t f b)) n w
      → Loses (keys (plug t f)) n w
  rebalanced t f b n w l = subst (λ ks. Loses ks n w) (keys-at t f b) l

  lose-Loses :
      (t : Tree (Avl A)) (f : Frame (Avl A)) (h k n : ℕ)
      → IsAvl t h
      → IsAvl f.sibling k
      → Shape f.side (f.entry).balance (suc h) k n
      → Loses (keys (plug t f)) n (lose t f)
  lose-Loses t f h k n v w (Shape.even p q r) =
      rw (lose-lean t f (rw p (even_tilted (other f.side)))) (
        Loses.kept
          (IsAvl-link f.side t (mark (lean (other f.side)) f.entry) f.sibling h k n v w
            (Shape.far_higher refl (sym q) (r ∙ ap suc q)))
          (keys-at t f (lean (other f.side))))
  lose-Loses t f h k n v w (Shape.near_higher p q r) =
      rw (lose-level t f (rw p (lean_lowered f.side))) (
        Loses.lower (suc h) r
          (IsAvl-link f.side t (mark (pos 0) f.entry) f.sibling h k (suc h) v w
            (Shape.even refl (omega (arith, q)) refl))
          (keys-at t f (pos 0)))
  lose-Loses t f h k n v w (Shape.far_higher p q r) =
      let s = f.side in
      let x = mark (twice (other s)) f.entry in
      let (a, c, b, g) = is_link (other s) f.sibling (suc h) (subst (IsAvl f.sibling) q w) in
      let turned : link (other s) (link (other s) a c b) x t ≡ at t f (twice (other s)) =
        ap (λ y. link (other s) y x t) (sym g) ∙ link-other s t x f.sibling in
      rw
        (lose-twice t f a c b (rw p (lean_tilted (other s)))
          (ap (parts (other s)) g ∙ parts-link (other s) a c b))
        (rebalanced t f (twice (other s)) n _ (
          subst (λ u. Loses (keys u) n (twist s c.balance u)) turned
            (subst
              (λ m.
                Loses (keys (link (other s) (link (other s) a c b) x t)) m
                  (twist s c.balance (link (other s) (link (other s) a c b) x t)))
              (sym (r ∙ ap suc q))
              (twist-Loses s a c b x t h
                (subst (λ y. IsAvl y (suc (suc h))) g (subst (IsAvl f.sibling) q w)) v))))

  shrink_on :
      (t : Tree (Avl A)) (f : Frame (Avl A)) (path : List (Frame (Avl A))) (n : ℕ)
      → ((u : Tree (Avl A)) (m : ℕ)
          → n ≡ suc m
          → IsAvl u m
          → (z : ℕ) × Avls (keys (zip u path)) z (shrink u path))
      → IsPath path n
      → (w : Option (Tree (Avl A) × Bool)) → lose t f ≡ w
      → Loses (keys (plug t f)) n w
      → (z : ℕ) × Avls (keys (zip t (f ∷ path))) z (shrink t (f ∷ path))
  unfolding shrink zip
  shrink_on t f path n go p w e (Loses.kept {u} v q) =
      let (z, y) = zip-IsAvl path u n v p in
      (
        z,
        record {
          tree = zip u path;
          returned = rw (shrink, e) refl;
          balanced = y;
          same_keys = keys-zip path u (plug t f) q;
        },
      )
  shrink_on t f path n go p w e (Loses.lower {u} m r v q) =
      let (z, y) = go u m r v in
      (z, rw (shrink, e) (subst (λ ks. Avls ks z (shrink u path)) (keys-zip path u (plug t f) q) y))

  -- The loop of avl_del makes the whole tree balanced again, whose entries stay.
  pub shrink-Avls :
      (path : List (Frame (Avl A))) (t : Tree (Avl A)) (h : ℕ)
      → IsAvl t h
      → IsPath path (suc h)
      → (n : ℕ) × Avls (keys (zip t path)) n (shrink t path)
  unfolding shrink zip
  shrink-Avls [] t h v p = (h, record { tree = t; returned = refl; balanced = v; same_keys = refl })
  shrink-Avls (f ∷ path) t h v (k, n, w, s, p) =
      shrink_on t f path n (λ u m r y. shrink-Avls path u m y (subst (IsPath path) r p)) p
        (lose t f) refl (lose-Loses t f h k n v w s)
