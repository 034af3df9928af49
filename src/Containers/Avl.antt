-- ===== src/Containers/Avl.antt =====
-- src/containers/avltree.c: AVL trees with parent links. A node is seen through the path from its
-- parent up to the root, so that to follow `links.parent` is to take a step off that path.
-- A result `none` is a read or a write through NULL.
pub mod Entries
pub mod Rebalance
pub mod Insert
pub mod Fits
pub mod Safe
pub mod Labels
pub mod Traverse
pub mod Serial
pub mod Destroy
use Prim.Native.Nat.{Ordering}
use libxdg.Base.{ℕ, zero, suc, Bool, true, false, Option, none, some, List, [], ◌∷◌, if◌then◌else◌}
use libxdg.Base.Text.{Bytes}

-- `Balanced`
pub data Balance : Type 0 where
  balanced left_is_heavy right_is_heavy : Balance

-- `Visit`, the sets of `LEFT_IS_VISITED` and `RIGHT_IS_VISITED`.
pub data Visit : Type 0 where
  none_is_visited left_is_visited right_is_visited all_is_visited : Visit

-- The fields of `AvlNode` but its links. A value is a pointer, and 0 is NULL.
pub record Item : Type 0 where
  pub visit : Visit
  pub balance : Balance
  pub key : Bytes
  pub value : ℕ

-- `AvlNode` with what its left and right links lead to; `leaf` is NULL.
pub data Tree : Type 0 where
  leaf : Tree
  node : Item → Tree → Tree → Tree

-- A step of the path to a parent, with the parent's item and its other subtree: the node is its
-- left child, or its right one.
pub data Step : Type 0 where
  left_of : Item → Tree → Step
  right_of : Item → Tree → Step

abbrev pub Ancestors : Type 0
Ancestors = List Step

-- The whole tree round a subtree.
unfoldable pub whole : Tree → Ancestors → Tree
whole t [] = t
whole t (left_of i r ∷ path) = whole (node i t r) path
whole t (right_of i l ∷ path) = whole (node i l t) path

abbrev pub with_balance : Balance → Item → Item
with_balance b i = record i { balance = b }

-- `create_avl_node`
abbrev pub create_avl_node : Bytes → Tree
create_avl_node key =
    node (record { visit = none_is_visited; balance = balanced; key = key; value = 0 }) leaf leaf

-- The rotations, of the parent's item and other subtree and the child. What they return takes the
-- parent's place.
unfoldable pub left_left_rotation : Item → Tree → Tree → Option Tree
left_left_rotation parent left leaf = none
left_left_rotation parent left (node child l r) =
    some (node (with_balance balanced child) (node (with_balance balanced parent) left l) r)

unfoldable pub right_right_rotation : Item → Tree → Tree → Option Tree
right_right_rotation parent leaf right = none
right_right_rotation parent (node child l r) right =
    some (node (with_balance balanced child) l (node (with_balance balanced parent) r right))

unfoldable pub right_left_rotation : Item → Tree → Tree → Option Tree
right_left_rotation parent left leaf = none
right_left_rotation parent left (node child leaf r) = none
right_left_rotation parent left (node child (node grandchild l m) r) = some (
    node (with_balance balanced grandchild) (node (with_balance balanced parent) left l)
      (node (with_balance balanced child) m r))

unfoldable pub left_right_rotation : Item → Tree → Tree → Option Tree
left_right_rotation parent leaf right = none
left_right_rotation parent (node child l leaf) right = none
left_right_rotation parent (node child l (node grandchild m r)) right = some (
    node (with_balance balanced grandchild) (node (with_balance balanced child) l m)
      (node (with_balance balanced parent) r right))

-- `previous_node->balance`
abbrev pub balance_of : Tree → Option Balance
balance_of leaf = none
balance_of (node i l r) = some i.balance

abbrev pub in_place : Ancestors → Option Tree → Option Tree
in_place path none = none
in_place path (some t) = some (whole t path)

-- The rotation where the left subtree, or the right one, grew too high.
unfoldable pub rotate_left_grown : Option Balance → Item → Tree → Tree → Option Tree
unfolding right_right_rotation left_right_rotation
rotate_left_grown none i l r = none
rotate_left_grown (some left_is_heavy) i l r = right_right_rotation i l r
rotate_left_grown (some balanced) i l r = left_right_rotation i l r
rotate_left_grown (some right_is_heavy) i l r = left_right_rotation i l r

unfoldable pub rotate_right_grown : Option Balance → Item → Tree → Tree → Option Tree
unfolding left_left_rotation right_left_rotation
rotate_right_grown none i l r = none
rotate_right_grown (some right_is_heavy) i l r = left_left_rotation i l r
rotate_right_grown (some balanced) i l r = right_left_rotation i l r
rotate_right_grown (some left_is_heavy) i l r = right_left_rotation i l r

-- A round of `rebalance_grew` at the parent's balance, where its left child grew, or its right one;
-- the last argument is what the loop does from the parent on.
unfoldable pub left_grew : Balance → Item → Tree → Tree → Ancestors → Option Tree → Option Tree
unfolding rotate_left_grown whole
left_grew right_is_heavy i l r path onward = some (whole (node (with_balance balanced i) l r) path)
left_grew balanced i l r path onward = onward
left_grew left_is_heavy i l r path onward = in_place path (rotate_left_grown (balance_of l) i l r)

unfoldable pub right_grew : Balance → Item → Tree → Tree → Ancestors → Option Tree → Option Tree
unfolding rotate_right_grown whole
right_grew left_is_heavy i l r path onward = some (whole (node (with_balance balanced i) l r) path)
right_grew balanced i l r path onward = onward
right_grew right_is_heavy i l r path onward =
    in_place path (rotate_right_grown (balance_of r) i l r)

-- `rebalance_grew`: the subtree `previous_node`, which grew, and the path above it.
unfoldable pub rebalance_grew : Tree → Ancestors → Option Tree
unfolding left_grew right_grew
rebalance_grew previous [] = some previous
rebalance_grew previous (left_of i r ∷ path) =
    let onward = rebalance_grew (node (with_balance left_is_heavy i) previous r) path in
    left_grew i.balance i previous r path onward
rebalance_grew previous (right_of i l ∷ path) =
    let onward = rebalance_grew (node (with_balance right_is_heavy i) l previous) path in
    right_grew i.balance i l previous path onward

abbrev pub value_at : Tree → Option ℕ
value_at leaf = none
value_at (node i l r) = some i.value

module _ (compare_keys : Bytes → Bytes → Ordering) where
  -- `search_routine`: what is found under the key, or the empty place for it, and the path there.
  unfoldable pub search_routine : Bytes → Tree → Ancestors → Tree × Ancestors
  search_routine key leaf path = (leaf, path)
  search_routine key (node i l r) path = elim (compare_keys i.key key) [
    | Ordering.eq ↦ (node i l r, path)
    | Ordering.lt ↦ search_routine key r (right_of i l ∷ path)
    | Ordering.gt ↦ search_routine key l (left_of i r ∷ path)
  ]

  -- The end of `search_or_create_node`: the tree, and the value behind the pointer returned.
  unfoldable pub found_or_created : Bytes → Tree → Tree × Ancestors → Option (Tree × ℕ)
  unfolding rebalance_grew
  found_or_created key t (node i l r, path) = some (t, i.value)
  found_or_created key t (leaf, path) = elim (rebalance_grew (create_avl_node key) path) [
    | none ↦ none
    | some t' ↦ some (t', 0)
  ]

  unfoldable pub search_or_create_node : Tree → Bytes → Option (Tree × ℕ)
  unfolding search_routine found_or_created
  search_or_create_node t key = found_or_created key t (search_routine key t [])

  unfoldable pub search_node : Tree → Bytes → Option ℕ
  unfolding search_routine
  search_node t key = value_at (search_routine key t []).0
