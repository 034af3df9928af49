-- ===== src/Containers/Avl/Serial.antt =====
-- `write_to_file` and `map_from_memory` of src/containers/avltree.c. A file is a list of cells; a
-- node is a cell with its fields and what the callbacks write for its key and its value. The links
-- in it are stale but for NULL, which stands where an empty node follows.
pub mod RoundTrip
use libxdg.Base.{
  ℕ, zero, suc, ◌+◌, ◌*◌, Bool, true, false, Option, none, some, List, [], ◌∷◌, ◌++◌, if◌then◌else◌,
}
use libxdg.Base.Text.{Bytes}
use libxdg.Containers.Avl.{
  Balance, balanced, Visit, none_is_visited, left_is_visited, right_is_visited, all_is_visited,
  Item, Tree, leaf, node, Step, left_of, right_of, Ancestors,
}
use libxdg.Containers.Avl.Traverse.{has_left, has_right, or_left, or_right, with_visit, size}

-- The `AvlTree` at the front, an `AvlNode`, or a byte that a callback writes.
pub data Cell : Type 0 where
  tree_cell : Cell
  node_cell : Visit → Balance → Cell
  byte_cell : ℕ → Cell

-- `write_empty_node_to_file`
abbrev pub empty_node : Cell
empty_node = node_cell none_is_visited balanced

module _ (write_key : Bytes → List Cell) (write_value : ℕ → List Cell) where
  -- `write_node_to_file`
  abbrev pub node_to_file : Item → List Cell
  node_to_file i = node_cell all_is_visited i.balance ∷ (write_key i.key ++ write_value i.value)

  -- The steps of the loop of `write_subtree_to_file`, each with the loop that goes on and with what
  -- is written so far.
  unfoldable pub write_up :
      (Tree → Ancestors → List Cell → Option (List Cell))
      → Tree
      → Ancestors
      → List Cell
      → Option (List Cell)
  write_up loop t [] out = some out
  write_up loop t (left_of i r ∷ path) out = loop (node i t r) path out
  write_up loop t (right_of i l ∷ path) out = loop (node i l t) path out

  unfoldable pub write_left :
      (Tree → Ancestors → List Cell → Option (List Cell))
      → Item
      → Tree
      → Tree
      → Ancestors
      → List Cell
      → Option (List Cell)
  write_left loop i leaf r path out = loop (node i leaf r) path (out ++ (empty_node ∷ []))
  write_left loop i (node j a b) r path out =
      loop (node (with_visit none_is_visited j) a b) (left_of i r ∷ path) (out ++ node_to_file j)

  unfoldable pub write_right :
      (Tree → Ancestors → List Cell → Option (List Cell))
      → Item
      → Tree
      → Tree
      → Ancestors
      → List Cell
      → Option (List Cell)
  write_right loop i l leaf path out = loop (node i l leaf) path (out ++ (empty_node ∷ []))
  write_right loop i l (node j a b) path out =
      loop (node (with_visit none_is_visited j) a b) (right_of i l ∷ path) (out ++ node_to_file j)

  unfoldable pub write_loop : ℕ → Tree → Ancestors → List Cell → Option (List Cell)
  unfolding write_up write_left write_right
  write_loop zero t path out = none
  write_loop (suc f) leaf path out = none
  write_loop (suc f) (node i l r) path out =
      if has_left i.visit
      then (if has_right i.visit
          then write_up (write_loop f) (node i l r) path out
          else write_right (write_loop f) (with_visit (or_right i.visit) i) l r path out)
      else write_left (write_loop f) (with_visit (or_left i.visit) i) l r path out

  -- The fuel is three rounds for each node.
  unfoldable pub write_to_file : Tree → Option (List Cell)
  unfolding write_loop
  write_to_file leaf = some (tree_cell ∷ empty_node ∷ [])
  write_to_file (node i l r) =
      write_loop (3 * size (node i l r)) (node (with_visit none_is_visited i) l r) []
        (tree_cell ∷ node_to_file i)

-- `visit` as a condition.
abbrev pub is_node : Visit → Bool
is_node none_is_visited = false
is_node left_is_visited = true
is_node right_is_visited = true
is_node all_is_visited = true

abbrev pub unlinked : Item → Tree
unlinked i = node i leaf leaf

module _ (read_key : List Cell → Option (Bytes × List Cell))
    (read_value : List Cell → Option (ℕ × List Cell)) where
  -- The key and the value behind a node.
  abbrev pub read_item : Balance → List Cell → Option (Item × List Cell)
  read_item b memory = elim (read_key memory) [
    | none ↦ none
    | some (key, memory') ↦ elim (read_value memory') [
      | none ↦ none
      | some (value, memory'') ↦
          some (record { visit = none_is_visited; balance = b; key = key; value = value }, memory'')
    ]
  ]

  -- `stack_node->visit` at the place that is read next: the node there, nothing for an empty one.
  -- A read behind the memory, or of what is no node, is a fault.
  unfoldable pub take_node : List Cell → Option (Option Item × List Cell)
  take_node [] = none
  take_node (tree_cell ∷ memory) = none
  take_node (byte_cell c ∷ memory) = none
  take_node (node_cell v b ∷ memory) =
      if is_node v
      then elim (read_item b memory) [ none ↦ none | some (i, memory') ↦ some (some i, memory') ]
      else some (none, memory)

  unfoldable pub map_up :
      (Tree → Ancestors → List Cell → Option (Tree × List Cell))
      → Tree
      → Ancestors
      → List Cell
      → Option (Tree × List Cell)
  map_up loop t [] memory = some (t, memory)
  map_up loop t (left_of i r ∷ path) memory = loop (node i t r) path memory
  map_up loop t (right_of i l ∷ path) memory = loop (node i l t) path memory

  unfoldable pub map_left :
      (Tree → Ancestors → List Cell → Option (Tree × List Cell))
      → Item
      → Tree
      → Tree
      → Ancestors
      → Option (Option Item × List Cell)
      → Option (Tree × List Cell)
  map_left loop i l r path none = none
  map_left loop i l r path (some (none, memory)) = loop (node i l r) path memory
  map_left loop i l r path (some (some j, memory)) = loop (unlinked j) (left_of i r ∷ path) memory

  unfoldable pub map_right :
      (Tree → Ancestors → List Cell → Option (Tree × List Cell))
      → Item
      → Tree
      → Tree
      → Ancestors
      → Option (Option Item × List Cell)
      → Option (Tree × List Cell)
  map_right loop i l r path none = none
  map_right loop i l r path (some (none, memory)) = loop (node i l r) path memory
  map_right loop i l r path (some (some j, memory)) = loop (unlinked j) (right_of i l ∷ path) memory

  -- The loop of `map_subtree_from_memory`.
  unfoldable pub map_loop : ℕ → Tree → Ancestors → List Cell → Option (Tree × List Cell)
  unfolding map_up map_left map_right take_node
  map_loop zero t path memory = none
  map_loop (suc f) leaf path memory = none
  map_loop (suc f) (node i l r) path memory =
      if has_left i.visit
      then (if has_right i.visit
          then map_up (map_loop f) (node i l r) path memory
          else map_right (map_loop f) (with_visit (or_right i.visit) i) l r path (take_node memory))
      else map_left (map_loop f) (with_visit (or_left i.visit) i) l r path (take_node memory)

  unfoldable pub map_root : ℕ → Option (Option Item × List Cell) → Option (Tree × List Cell)
  unfolding map_loop
  map_root f none = none
  map_root f (some (none, memory)) = some (leaf, memory)
  map_root f (some (some i, memory)) = map_loop f (unlinked i) [] memory

  -- `map_from_memory`, with the rounds that the loop may take.
  unfoldable pub map_from_memory : ℕ → List Cell → Option (Tree × List Cell)
  unfolding map_root take_node
  map_from_memory f [] = none
  map_from_memory f (c ∷ memory) = map_root f (take_node memory)
