-- ===== src/Containers/Avl/Traverse.antt =====
-- `depth_first_search` of src/containers/avltree.c, with its flags in the nodes and its way up by
-- the parent links. A callback is a function on the state behind its `user_data`.
pub mod Postorder
use libxdg.Base.{
  ℕ, zero, suc, ◌+◌, ◌*◌, Bool, true, false, Option, none, some, List, [], ◌∷◌, if◌then◌else◌,
}
use libxdg.Base.Text.{Bytes}
use libxdg.Containers.Avl.{
  Visit, none_is_visited, left_is_visited, right_is_visited, all_is_visited, Item, Tree, leaf, node,
  Step, left_of, right_of, Ancestors,
}

-- `visit & LEFT_IS_VISITED` and `visit & RIGHT_IS_VISITED`
abbrev pub has_left : Visit → Bool
has_left none_is_visited = false
has_left left_is_visited = true
has_left right_is_visited = false
has_left all_is_visited = true

abbrev pub has_right : Visit → Bool
has_right none_is_visited = false
has_right left_is_visited = false
has_right right_is_visited = true
has_right all_is_visited = true

-- `visit |= LEFT_IS_VISITED` and `visit |= RIGHT_IS_VISITED`
abbrev pub or_left : Visit → Visit
or_left none_is_visited = left_is_visited
or_left left_is_visited = left_is_visited
or_left right_is_visited = all_is_visited
or_left all_is_visited = all_is_visited

abbrev pub or_right : Visit → Visit
or_right none_is_visited = right_is_visited
or_right left_is_visited = all_is_visited
or_right right_is_visited = right_is_visited
or_right all_is_visited = all_is_visited

abbrev pub with_visit : Visit → Item → Item
with_visit v i = record i { visit = v }

abbrev pub size : Tree → ℕ
size leaf = 0
size (node i l r) = suc (size l + size r)

module _ {ℓ} {S : Type ℓ} where
  -- Each of these takes the loop that goes on: to the parent, which ends it at the root; to the left
  -- child, if there is one; and to the right child.
  unfoldable pub ascend :
      (Tree → Ancestors → S → Option (Tree × S)) → Tree → Ancestors → S → Option (Tree × S)
  ascend loop t [] s = some (t, s)
  ascend loop t (left_of i r ∷ path) s = loop (node i t r) path s
  ascend loop t (right_of i l ∷ path) s = loop (node i l t) path s

  unfoldable pub descend_left :
      (Tree → Ancestors → S → Option (Tree × S))
      → Item
      → Tree
      → Tree
      → Ancestors
      → S
      → Option (Tree × S)
  descend_left loop i leaf r path s = loop (node i leaf r) path s
  descend_left loop i (node j a b) r path s =
      loop (node (with_visit none_is_visited j) a b) (left_of i r ∷ path) s

  unfoldable pub descend_right :
      (Tree → Ancestors → S → Option (Tree × S))
      → Item
      → Tree
      → Tree
      → Ancestors
      → S
      → Option (Tree × S)
  descend_right loop i l leaf path s = loop (node i l leaf) path s
  descend_right loop i l (node j a b) path s =
      loop (node (with_visit none_is_visited j) a b) (right_of i l ∷ path) s

  -- `while (TRUE)`
  unfoldable pub search_loop : ℕ → (Bytes → ℕ → S → S) → Tree → Ancestors → S → Option (Tree × S)
  unfolding ascend descend_left descend_right
  search_loop zero callback t path s = none
  search_loop (suc f) callback leaf path s = none
  search_loop (suc f) callback (node i l r) path s =
      if has_left i.visit
      then (if has_right i.visit
          then ascend (search_loop f callback) (node i l r) path (callback i.key i.value s)
          else descend_right (search_loop f callback) (with_visit (or_right i.visit) i) l r path s)
      else descend_left (search_loop f callback) (with_visit (or_left i.visit) i) l r path s

  -- The tree with its flags, and the state. The fuel is three rounds for each node.
  unfoldable pub depth_first_search : (Bytes → ℕ → S → S) → Tree → S → Option (Tree × S)
  unfolding search_loop
  depth_first_search callback leaf s = some (leaf, s)
  depth_first_search callback (node i l r) s =
      search_loop (3 * size (node i l r)) callback (node (with_visit none_is_visited i) l r) [] s
