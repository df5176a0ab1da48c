-- ===== src/Tree/Tests.antt =====
-- Trees of numbers.
use colossal.Prelude.{ℕ, ◌≡◌, ◌≤◌, ◌^◌, ◌/◌, suc, refl, some, List, [], ◌∷◌, ◌++◌, length, arith}
use colossal.Prelude.Int.{ℤ, pos, negsuc, sub_ℕ}
use colossal.Tree.{
  tree_count, left, right, Tree, leaf, node, Frame, zip, tree_search, tree_add, tree_map, tree_del,
  tree_successor, tree_predecessor, tree_min, tree_max, add_path,
}
use colossal.Tree.Splay.{frame, splay_search, splay_map}
use colossal.Tree.Inorder.{inorder, before, after, neighbours_correct, inorder-tree_del}
use colossal.Tree.Order.{IsOrder, insert, Finds}
use colossal.Tree.Insert.{tree_add-insert}
use colossal.Tree.Search.{or_add, search_and_map_correct}
use colossal.Tree.Splay.Search.{Brings, splay_search-Brings}
use colossal.Tree.Splay.Map.{Roots, splay_map-Roots}
use colossal.Tree.Avl.{Avl, by_entry, avl_add, avl_map, avl_del}
use colossal.Tree.Avl.Shape.{Shape, keys, IsAvl, Avls}
use colossal.Tree.Avl.Keys.{entries}
use colossal.Tree.Avl.Insert.{avl_add-Avls, AvlMaps, avl_map-AvlMaps}
use colossal.Tree.Avl.Delete.{avl_del-Avls}
use colossal.Tree.Avl.Height.{add_path-bound}

abbrev by_number : ℕ → ℕ → ℤ
by_number a b = sub_ℕ a b

by_number-IsOrder : IsOrder by_number
by_number-IsOrder = record { no_less_trans = λ x y z h k. ground arith; flip = λ x y. ground arith }

abbrev one : Tree ℕ
one = node leaf 1 leaf

abbrev six : Tree ℕ
six = node leaf 6 leaf

abbrev nine : Tree ℕ
nine = node leaf 9 leaf

abbrev seven : Tree ℕ
seven = node six 7 nine

-- 1, 3, 6, 7 and 9, with 3 at the root
abbrev numbers : Tree ℕ
numbers = node one 3 seven

add_and_search : tree_search by_number 5 (tree_add by_number 5 numbers) ≡ some 5
unfolding tree_search tree_add
add_and_search = refl

splayed :
    splay_search by_number 6 numbers
    ≡ some (node (node one 3 leaf) 6 (node leaf 7 (node leaf 9 leaf)), some 6)
unfolding splay_search zip
splayed = refl

splayed_in : splay_map by_number 5 numbers ≡ some (node (node one 3 leaf) 5 seven)
unfolding splay_map zip
splayed_in = refl

tree_add-insert_example :
    inorder (tree_add by_number 5 numbers) ≡ insert by_number 5 (inorder numbers)
tree_add-insert_example = tree_add-insert by_number by_number-IsOrder 5 numbers (ground arith)

search_and_map_correct_example :
    Finds by_number 7 (inorder numbers) (tree_search by_number 7 numbers)
    × (tree_map by_number 7 numbers ≡ or_add by_number 7 (tree_search by_number 7 numbers) numbers)
search_and_map_correct_example =
    search_and_map_correct by_number by_number-IsOrder 7 numbers (ground arith)

-- The place of 7 in the tree.
abbrev at_seven : List (Frame ℕ)
at_seven = frame right 3 one ∷ []

inorder-tree_del_example :
    (inorder (zip seven at_seven) ≡ (before at_seven ++ 6 ∷ []) ++ 7 ∷ 9 ∷ after at_seven)
    × (inorder (tree_del six nine at_seven) ≡ (before at_seven ++ 6 ∷ []) ++ 9 ∷ after at_seven)
inorder-tree_del_example = inorder-tree_del six 7 nine at_seven

neighbours_correct_example :
    (tree_successor six nine at_seven ≡ some 9)
    × (tree_predecessor six nine at_seven ≡ some 6)
    × (tree_min nine ≡ some 9)
    × (tree_max six ≡ some 6)
neighbours_correct_example = neighbours_correct six nine at_seven

splay_search-Brings_example :
    Brings by_number 6 (inorder numbers) (splay_search by_number 6 numbers)
splay_search-Brings_example =
    splay_search-Brings by_number by_number-IsOrder 6 one 3 seven (ground arith)

splay_map-Roots_example : Roots by_number 5 (inorder numbers) (splay_map by_number 5 numbers)
splay_map-Roots_example = splay_map-Roots by_number by_number-IsOrder 5 numbers (ground arith)

abbrev avl : ℕ → ℤ → Avl ℕ
avl n b = record { entry = n; balance = b }

abbrev avl_one : Tree (Avl ℕ)
avl_one = node leaf (avl 1 (pos 0)) leaf

abbrev avl_eight : Tree (Avl ℕ)
avl_eight = node (node leaf (avl 6 (pos 0)) leaf) (avl 8 (negsuc 0)) leaf

-- 1, 3, 6 and 8
abbrev avl_numbers : Tree (Avl ℕ)
avl_numbers = node avl_one (avl 3 (pos 1)) avl_eight

avl_eight-IsAvl : IsAvl avl_eight 2
avl_eight-IsAvl =
    (1, 0, (0, 0, refl, refl, Shape.even refl refl refl), refl, Shape.near_higher refl refl refl)

avl_numbers-IsAvl : IsAvl avl_numbers 3
avl_numbers-IsAvl = (
  1,
  2,
  (0, 0, refl, refl, Shape.even refl refl refl),
  avl_eight-IsAvl,
  Shape.far_higher refl refl refl,
)

-- A double rotation.
avl_added :
    avl_add by_number (avl 7 (pos 0)) avl_numbers
    ≡ some (
        node avl_one
          (avl 3 (pos 1))
          (node (node leaf (avl 6 (pos 0)) leaf) (avl 7 (pos 0)) (node leaf (avl 8 (pos 0)) leaf)))
unfolding avl_add
avl_added = refl

avl_add-Avls_example :
    (n : ℕ) × Avls
      (insert by_number 7 (keys avl_numbers))
      n
      (avl_add by_number (avl 7 (pos 0)) avl_numbers)
avl_add-Avls_example =
    avl_add-Avls by_number by_number-IsOrder (avl 7 (pos 0)) avl_numbers 3 avl_numbers-IsAvl
      (ground arith)

avl_map-AvlMaps_example :
    AvlMaps by_number (avl 7 (pos 0)) avl_numbers (avl_map by_number (avl 7 (pos 0)) avl_numbers)
avl_map-AvlMaps_example =
    avl_map-AvlMaps by_number by_number-IsOrder (avl 7 (pos 0)) avl_numbers 3 avl_numbers-IsAvl
      (ground arith)

-- The place of 1 in the tree.
abbrev at_one : List (Frame (Avl ℕ))
at_one = frame left (avl 3 (pos 1)) avl_eight ∷ []

avl_del-Avls_example :
    (n : ℕ) × Avls
      (entries (before at_one ++ []) ++ entries ([] ++ after at_one))
      n
      (avl_del leaf (avl 1 (pos 0)) leaf at_one)
avl_del-Avls_example =
    avl_del-Avls leaf (avl 1 (pos 0)) leaf at_one 1 (0, 0, refl, refl, Shape.even refl refl refl)
      (2, 3, avl_eight-IsAvl, Shape.far_higher refl refl refl, tt)

add_path-bound_example :
    2 ^ (length (add_path (by_entry by_number) (avl 7 (pos 0)) avl_numbers []) / 2)
    ≤ suc (tree_count avl_numbers)
add_path-bound_example = add_path-bound by_number (avl 7 (pos 0)) avl_numbers 3 avl_numbers-IsAvl
