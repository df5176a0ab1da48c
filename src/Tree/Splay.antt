-- ===== src/Tree/Splay.antt =====
-- The splay trees of ulib/src/base/tree.c. The nodes that the search has passed by hang in two chains
-- at `small` and `large`; a chain is the list of its nodes as frames, the last one first, and
-- SPLAY_ASSEMBLE plugs what is below the head into them. The versions without links to the parents,
-- splay_search_np and splay_map_np, read the same but for those links.
pub mod Map
pub mod Sides
pub mod Search
use colossal.Prelude.{
  ℕ, zero, suc, ◌+◌, Bool, true, false, Option, none, some, List, [], ◌∷◌, if◌then◌else◌, ◌>>=◌,
}
use colossal.Prelude.Int.{ℤ}
use colossal.Tree.{
  tree_count, Side, left, right, other, Tree, leaf, node, Frame, link, zip, parts, is_less,
  is_equal, is_greater,
}

pub record Chains {ℓ} (A : Type ℓ) : Type ℓ where
  pub small : List (Frame A)
  pub large : List (Frame A)

module _ {ℓ} {A : Type ℓ} where
  abbrev pub frame : Side → A → Tree A → Frame A
  frame d x far = record { side = d; entry = x; sibling = far }

  -- SPLAY_LINK_RIGHT of the head on its way to the left, and SPLAY_LINK_LEFT on its way to the right
  abbrev pub pass : Side → A → Tree A → Chains A → Chains A
  pass left x far c = record c { large = frame left x far ∷ c.large }
  pass right x far c = record c { small = frame right x far ∷ c.small }

  -- SPLAY_ASSEMBLE
  abbrev pub assemble : Tree A → A → Tree A → Chains A → Tree A
  assemble l x r c = node (zip l c.small) x (zip r c.large)

  abbrev pub assemble_link : Side → Tree A → A → Tree A → Chains A → Tree A
  assemble_link left near x far c = assemble near x far c
  assemble_link right near x far c = assemble far x near c

  abbrev pub no_chains : Chains A
  no_chains = record { small = []; large = [] }

module _ {ℓ} {A : Type ℓ} (cmp : A → A → ℤ) where
  -- The entry lies beyond another one on a side.
  abbrev pub beyond : Side → A → A → Bool
  beyond left entry y = is_less cmp entry y
  beyond right entry y = is_greater cmp entry y

  -- One round of splay_search at a head whose entry is not equal, `go` being the rounds behind it.
  pub search_turn :
      (Tree A → Chains A → Option (Tree A × Bool))
      → A
      → Side
      → Tree A
      → A
      → Tree A
      → Chains A
      → Option (Tree A × Bool)
  search_turn go entry d near x far c = elim (parts d near) [
    | none ↦ some (assemble_link d near x far c, false)
    | some (a, y, b) ↦ elim (beyond d entry y) [
      | true ↦ elim a [
        | leaf ↦ some (assemble_link d leaf y (link d b x far) c, false)
        | node l z r ↦ go (node l z r) (pass d y (link d b x far) c)
      ]
      | false ↦ go near (pass d x far c)
    ]
  ]

  -- The loop of splay_search, on fuel: the tree, and whether its root is equal. There is none for NULL.
  pub search_loop : ℕ → A → Tree A → Chains A → Option (Tree A × Bool)
  unfolding search_turn
  search_loop zero entry head c = none
  search_loop (suc n) entry leaf c = none
  search_loop (suc n) entry (node l x r) c = elim (is_equal cmp entry x) [
    | true ↦ some (assemble l x r c, true)
    | false ↦ elim (is_less cmp entry x) [
      | true ↦ search_turn (search_loop n entry) entry left l x r c
      | false ↦ search_turn (search_loop n entry) entry right r x l c
    ]
  ]

  -- splay_search: the tree, and the entry that it returns
  unfoldable pub splay_search : A → Tree A → Option (Tree A × Option A)
  unfolding search_loop
  splay_search entry root = do
    (t, found) ← search_loop (tree_count root) entry root no_chains
    (l, x, r) ← parts left t
    some (t, if found then some x else none)

  -- splay_search_np
  abbrev pub splay_search_np : A → Tree A → Option (Tree A × Option A)
  splay_search_np = splay_search

  -- One round of splay_map.
  pub map_turn :
      (Tree A → Chains A → Option (Tree A))
      → A
      → Side
      → Tree A
      → A
      → Tree A
      → Chains A
      → Option (Tree A)
  map_turn go new d near x far c = elim (parts d near) [
    | none ↦ some (assemble leaf new leaf (pass d x far c))
    | some (a, y, b) ↦ elim (beyond d new y) [
      | true ↦ go a (pass d y (link d b x far) c)
      | false ↦ elim (beyond (other d) new y) [
        | true ↦ go b (pass (other d) y a (pass d x far c))
        | false ↦ some (assemble_link d a y b (pass d x far c))
      ]
    ]
  ]

  -- The loop of splay_map, on fuel, with what follows it.
  pub map_loop : ℕ → A → Tree A → Chains A → Option (Tree A)
  unfolding map_turn
  map_loop zero new head c = none
  map_loop (suc n) new leaf c = some (assemble leaf new leaf c)
  map_loop (suc n) new (node l x r) c = elim (is_equal cmp new x) [
    | true ↦ some (assemble l x r c)
    | false ↦ elim (is_less cmp new x) [
      | true ↦ map_turn (map_loop n new) new left l x r c
      | false ↦ map_turn (map_loop n new) new right r x l c
    ]
  ]

  -- splay_map: the tree, whose root it returns
  unfoldable pub splay_map : A → Tree A → Option (Tree A)
  unfolding map_loop
  splay_map new root = map_loop (suc (tree_count root)) new root no_chains

  -- splay_map_np
  abbrev pub splay_map_np : A → Tree A → Option (Tree A)
  splay_map_np = splay_map
