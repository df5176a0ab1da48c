-- ===== src/Heap/Image.antt =====
-- The heap routines on the images of entries, such as events read from a subset of them: they move
-- images as they move the entries.
use colossal.Prelude.{
  ℕ, zero, suc, ◌-◌, ◌≡◌, refl, ap, ap₂, ◌∙◌, Bool, true, false, ◌&&◌, if◌then◌else◌, ◌==◌, ltb,
  write,
}
use colossal.Heap.{
  right, parent, push_loop, push, large_child, sink_loop, sink_last, adjust, pop, pop_to_rear,
}

module _ {ℓ κ} {I : Type ℓ} {A : Type κ} (f : I → A) (lt : A → A → Bool) where
  -- The order of the images.
  abbrev pub on : I → I → Bool
  on i j = lt (f i) (f j)

  abbrev pub image : (ℕ → I) → ℕ → A
  image base i = f (base i)

  if_apart : (b : Bool) (x y : I) → f (if b then x else y) ≡ (if b then f x else f y)
  if_apart true x y = refl
  if_apart false x y = refl

  image-write : (base : ℕ → I) (i : ℕ) (v : I) → image (write base i v) ≡ write (image base) i (f v)
  image-write base i v = λ t j. if_apart (j == i) v (base j) t

  image-if :
      (b : Bool) (x y : ℕ → I) → image (if b then x else y) ≡ (if b then image x else image y)
  image-if true x y = refl
  image-if false x y = refl

  image-push_loop :
      (k : ℕ) (base : ℕ → I) (hole top : ℕ) (val : I)
      → image (push_loop on k base hole top val) ≡ push_loop lt k (image base) hole top (f val)
  unfolding push_loop
  image-push_loop zero base hole top val = image-write base hole val
  image-push_loop (suc k) base hole top val =
      let b = ltb top hole && on (base (parent hole)) val in
      let moved = write base hole (base (parent hole)) in
      image-if b (push_loop on k moved (parent hole) top val) (write base hole val)
      ∙ ap₂ (λ (x : ℕ → A) y. if b then x else y)
          (image-push_loop k moved (parent hole) top val
            ∙ ap (λ g. push_loop lt k g (parent hole) top (f val))
                (image-write base hole (base (parent hole))))
          (image-write base hole val)

  image-push :
      (base : ℕ → I) (hole top : ℕ) (val : I)
      → image (push on base hole top val) ≡ push lt (image base) hole top (f val)
  unfolding push
  image-push base hole top val = image-push_loop hole base hole top val

  -- An array and its hole.
  abbrev image2 : (ℕ → I) × ℕ → (ℕ → A) × ℕ
  image2 (base, hole) = (image base, hole)

  image2-if :
      (b : Bool) (x y : (ℕ → I) × ℕ)
      → image2 (if b then x else y) ≡ (if b then image2 x else image2 y)
  image2-if true x y = refl
  image2-if false x y = refl

  image-sink_loop :
      (k : ℕ) (base : ℕ → I) (size hole : ℕ)
      → image2 (sink_loop on k base size hole) ≡ sink_loop lt k (image base) size hole
  unfolding sink_loop
  image-sink_loop zero base size hole = refl
  image-sink_loop (suc k) base size hole =
      let m = large_child on base hole in
      let b = ltb (right hole) size in
      image2-if b (sink_loop on k (write base hole (base m)) size m) (base, hole)
      ∙ ap (λ (x : (ℕ → A) × ℕ). if b then x else (image base, hole))
          (image-sink_loop k (write base hole (base m)) size m
            ∙ ap (λ g. sink_loop lt k g size m) (image-write base hole (base m)))

  image-sink_last :
      (size : ℕ) (base : ℕ → I) (hole : ℕ)
      → image2 (sink_last on size (base, hole)) ≡ sink_last lt size (image base, hole)
  unfolding sink_last
  image-sink_last size base hole =
      let b = right hole == size in
      let left = right hole - 1 in
      image2-if b (write base hole (base left), left) (base, hole)
      ∙ ap (λ (g : ℕ → A). if b then (g, left) else (image base, hole))
          (image-write base hole (base left))

  image-adjust :
      (base : ℕ → I) (size hole : ℕ) (val : I)
      → image (adjust on base size hole val) ≡ adjust lt (image base) size hole (f val)
  unfolding adjust
  image-adjust base size hole val =
      let (b, h) = sink_loop on size base size hole in
      let (b', h') = sink_last on size (b, h) in
      image-push b' h' hole val
      ∙ ap (λ (x : (ℕ → A) × ℕ). push lt x.0 x.1 hole (f val))
          (image-sink_last size b h ∙ ap (sink_last lt size) (image-sink_loop size base size hole))

  pub image-pop_to_rear :
      (base : ℕ → I) (last : ℕ)
      → image (pop_to_rear on base last) ≡ pop_to_rear lt (image base) last
  unfolding pop_to_rear pop
  image-pop_to_rear base last =
      let res = last - 1 in
      image-adjust (write base res (base 0)) res 0 (base res)
      ∙ ap (λ g. adjust lt g res 0 (f (base res))) (image-write base res (base 0))

  pub image-push_back :
      (base : ℕ → I) (n : ℕ) (val : I)
      → image (push on (write base n val) n 0 val)
        ≡ push lt (write (image base) n (f val)) n 0 (f val)
  image-push_back base n val =
      image-push (write base n val) n 0 val
      ∙ ap (λ g. push lt g n 0 (f val)) (image-write base n val)
