-- ===== src/Tests/Trees.antt =====
-- The theorems on src/containers/avltree.c at small trees of texts, with `strcmp` as the order and
-- the callbacks of src/desktop/xdgappcache.c for keys and for groups without entries.
use Prim.Native.Nat.{Ordering}
use libxdg.Base.{
  ℕ, suc, ◌*◌, ◌≡◌, ◌≢◌, refl, ◌↔◌, Option, none, some, List, [], ◌∷◌, ◌++◌, length, arith,
}
use libxdg.Base.Sort.{IsSorted}
use libxdg.Base.Text.{Bytes, IsText, codes, strcmp, strcmp_eq}
use libxdg.Containers.Avl.{
  balanced, left_is_heavy, right_is_heavy, none_is_visited, Item, Tree, leaf, node,
  left_right_rotation, search_or_create_node, search_node, search_routine, found_or_created,
  rebalance_grew, whole,
}
use libxdg.Containers.Avl.Entries.{
  flip, IsOrder, Precedes, entries, insert_entry, find_entry, or_null,
}
use libxdg.Containers.Avl.Fits.{IsSafe}
use libxdg.Containers.Avl.Safe.{search_or_create_node-IsSafe, search_node-search_or_create_node}
use libxdg.Containers.Avl.Labels.{IsLabelled, left_right_rotation-IsLabelled}
use libxdg.Containers.Avl.Traverse.{size, depth_first_search}
use libxdg.Containers.Avl.Traverse.Postorder.{all_visited, postorder, depth_first_search-postorder}
use libxdg.Containers.Avl.Serial.{
  Cell, byte_cell, write_to_file, map_from_memory, map_root, take_node,
}
use libxdg.Desktop.Cache.Keys.{write_app_key, read_app_key, read_app_key-write_app_key}
use libxdg.Containers.Avl.Serial.RoundTrip.{AllWritable, moved_tree, map_from_memory-write_to_file}
use libxdg.Containers.Avl.Destroy.{destroy_subtree, destroy_order, destroy_subtree-order}

strcmp_flips : (a b : Bytes) → strcmp b a ≡ flip (strcmp a b)
unfolding strcmp
strcmp_flips [] [] = refl
strcmp_flips [] (y ∷ ys) = refl
strcmp_flips (x ∷ xs) [] = refl
strcmp_flips (x ∷ xs) (y ∷ ys) = ground (arith, strcmp_flips xs ys)

strcmp_trans :
    (a b c : Bytes) → strcmp a b ≡ Ordering.lt → strcmp b c ≡ Ordering.lt → strcmp a c ≡ Ordering.lt
unfolding strcmp
strcmp_trans [] [] c h k = absurd (cc)
strcmp_trans [] (y ∷ ys) [] h k = absurd (cc)
strcmp_trans [] (y ∷ ys) (z ∷ zs) h k = refl
strcmp_trans (x ∷ xs) [] c h k = absurd (cc)
strcmp_trans (x ∷ xs) (y ∷ ys) [] h k = absurd (cc)
strcmp_trans (x ∷ xs) (y ∷ ys) (z ∷ zs) h k = ground (arith, strcmp_trans xs ys zs)

strcmp-IsOrder : IsOrder strcmp
strcmp-IsOrder = record { flips = strcmp_flips; eq_of_cmp = strcmp_eq; lt_trans = strcmp_trans }

abbrev item : Bytes → ℕ → Item
item key value = record { visit = none_is_visited; balance = balanced; key = key; value = value }

abbrev left_heavy_item : Bytes → ℕ → Item
left_heavy_item key value = record {
  visit = none_is_visited;
  balance = left_is_heavy;
  key = key;
  value = value;
}

abbrev right_heavy_item : Bytes → ℕ → Item
right_heavy_item key value = record {
  visit = none_is_visited;
  balance = right_is_heavy;
  key = key;
  value = value;
}

-- The keys b and d, with b on the left.
abbrev two : Tree
two = node (left_heavy_item (codes "d") 4) (node (item (codes "b") 2) leaf leaf) leaf

two-IsSorted : IsSorted (Precedes strcmp) (entries two)
unfolding strcmp
two-IsSorted = ((refl, tt), (tt, tt))

search_or_create_node-IsSafe_example :
    (t' : Tree) × (v : ℕ) × (search_or_create_node strcmp two (codes "c") ≡ some (t', v))
    × IsSafe t'
    × IsSorted (Precedes strcmp) (entries t')
    × (entries t' ≡ insert_entry strcmp (codes "c") (entries two))
    × (v ≡ or_null (find_entry strcmp (codes "c") (entries two)))
search_or_create_node-IsSafe_example =
    search_or_create_node-IsSafe strcmp two (codes "c") strcmp-IsOrder (tt, (tt, tt, tt), tt)
      two-IsSorted

-- The tree after c was added to `two`, with c at the root.
abbrev three : Tree
three =
    node (item (codes "c") 0) (node (item (codes "b") 2) leaf leaf)
      (node (item (codes "d") 4) leaf leaf)

three-created : search_or_create_node strcmp two (codes "c") ≡ some (three, 0)
unfolding search_or_create_node search_routine found_or_created strcmp rebalance_grew whole
three-created = refl

search_node-search_or_create_node_example :
    (codes "c" ≡ codes "b" → search_node strcmp three (codes "b") ≡ some 0)
    × (codes "c" ≢ codes "b"
        → search_node strcmp three (codes "b") ≡ search_node strcmp two (codes "b"))
search_node-search_or_create_node_example =
    search_node-search_or_create_node strcmp two three (codes "c") (codes "b") 0 strcmp-IsOrder
      two-IsSorted three-created

-- A left child that is heavy on its right, with a right child that is heavy on its left.
abbrev child : Item
child = right_heavy_item (codes "b") 0

abbrev grandchild : Item
grandchild = left_heavy_item (codes "d") 0

abbrev below : Tree
below = node (item (codes "c") 0) leaf leaf

left_right_rotation-IsLabelled_example :
    (t : Tree) × (left_right_rotation
        (item (codes "e") 0)
        (node child (node (item (codes "a") 0) leaf leaf) (node grandchild below leaf))
        (node (item (codes "f") 0) leaf leaf)
      ≡ some t)
    × (IsLabelled t ↔ (grandchild.balance ≡ balanced))
left_right_rotation-IsLabelled_example =
    left_right_rotation-IsLabelled (item (codes "e") 0) child grandchild
      (node (item (codes "a") 0) leaf leaf) below leaf (node (item (codes "f") 0) leaf leaf) refl
      (refl, (refl, tt, tt), (refl, (refl, tt, tt), tt)) (refl, tt, tt) refl

abbrev count : Bytes → ℕ → ℕ → ℕ
count key value n = suc n

depth_first_search-postorder_example :
    depth_first_search count three 0 ≡ some (all_visited three, postorder count three 0)
depth_first_search-postorder_example = depth_first_search-postorder count three 0

destroy_subtree-order_example : destroy_subtree three ≡ some (destroy_order three)
destroy_subtree-order_example = destroy_subtree-order three

abbrev or_nothing : Option (List Cell) → List Cell
or_nothing none = []
or_nothing (some cells) = cells

-- The group without entries, which is written as its tree, and read as its address, counted from the
-- end of the memory.
abbrev write_app_group : ℕ → List Cell
write_app_group group = or_nothing (write_to_file write_app_key (λ entry. []) leaf)

abbrev read_app_group : List Cell → Option (ℕ × List Cell)
read_app_group memory = elim (map_from_memory read_app_key (λ rest. none) 0 memory) [
  | none ↦ none
  | some (entries, rest) ↦ some (length memory, rest)
]

-- Every group has an address.
abbrev IsGroup : ℕ → Type 0
IsGroup group = Unit

abbrev address : ℕ → List Cell → ℕ
address group rest = suc (suc (length rest))

app_group_back :
    (group : ℕ) (rest : List Cell)
    → IsGroup group
    → read_app_group (write_app_group group ++ rest) ≡ some (address group rest, rest)
unfolding write_to_file map_from_memory map_root take_node
app_group_back group rest u = refl

three-AllWritable : AllWritable IsText IsGroup three
three-AllWritable = ground arith

map_from_memory-write_to_file_example :
    (file : List Cell) × (write_to_file write_app_key write_app_group three ≡ some file)
    × (map_from_memory read_app_key read_app_group (3 * size three) (file ++ (byte_cell 7 ∷ []))
        ≡ some (
          all_visited (moved_tree write_app_key write_app_group address three (byte_cell 7 ∷ [])),
          byte_cell 7 ∷ [],
        ))
map_from_memory-write_to_file_example =
    map_from_memory-write_to_file write_app_key write_app_group read_app_key read_app_group IsText
      IsGroup address read_app_key-write_app_key app_group_back three (byte_cell 7 ∷ [])
      three-AllWritable
