-- ===== src/Containers/Avl/Traverse/Postorder.antt =====
-- `depth_first_search` of src/containers/avltree.c and the order of its callbacks.
use libxdg.Base.{ℕ, suc, ◌+◌, ◌*◌, ◌≡◌, refl, ap, ◌∙◌, some, [], ◌∷◌, arith}
use libxdg.Base.Text.{Bytes}
use libxdg.Containers.Avl.{
  none_is_visited, left_is_visited, all_is_visited, Item, Tree, leaf, node, left_of, right_of,
  Ancestors,
}
use libxdg.Containers.Avl.Traverse.{
  with_visit, size, ascend, descend_left, descend_right, search_loop, depth_first_search,
}

-- The tree with all flags set.
abbrev pub all_visited : Tree → Tree
all_visited leaf = leaf
all_visited (node i l r) = node (with_visit all_is_visited i) (all_visited l) (all_visited r)

-- The rounds on a tree, before those that follow.
abbrev pub rounds : Tree → ℕ → ℕ
rounds leaf f = f
rounds (node i l r) f = suc (rounds l (suc (rounds r (suc f))))

pub rounds-size : (t : Tree) (f : ℕ) → rounds t f ≡ 3 * size t + f
rounds-size leaf f = omega arith
rounds-size (node i l r) f =
    omega (arith, rounds-size l (suc (rounds r (suc f))), rounds-size r (suc f))

module _ {ℓ} {S : Type ℓ} (callback : Bytes → ℕ → S → S) where
  -- Both subtrees before the node, the left one first.
  abbrev pub postorder : Tree → S → S
  postorder leaf s = s
  postorder (node i l r) s = callback i.key i.value (postorder r (postorder l s))

  -- The loop, entered at a node, comes to its parent when all below the node is done.
  abbrev Enters : Tree → Type ℓ
  Enters leaf = Unit
  Enters (node i l r) =
      (f : ℕ) (path : Ancestors) (s : S)
      → search_loop (rounds (node i l r) f) callback (node (with_visit none_is_visited i) l r) path
          s
        ≡ ascend (search_loop f callback) (all_visited (node i l r)) path (postorder (node i l r) s)

  left_done :
      (i : Item) (l r : Tree) (f : ℕ) (path : Ancestors) (s : S)
      → Enters l
      → descend_left (search_loop (rounds l f) callback) i l r path s
        ≡ search_loop f callback (node i (all_visited l) r) path (postorder l s)
  unfolding descend_left ascend
  left_done i leaf r f path s h = refl
  left_done i (node j a b) r f path s h = h f (left_of i r ∷ path) s

  right_done :
      (i : Item) (l r : Tree) (f : ℕ) (path : Ancestors) (s : S)
      → Enters r
      → descend_right (search_loop (rounds r f) callback) i l r path s
        ≡ search_loop f callback (node i l (all_visited r)) path (postorder r s)
  unfolding descend_right ascend
  right_done i l leaf f path s h = refl
  right_done i l (node j a b) f path s h = h f (right_of i l ∷ path) s

  enters : (t : Tree) → Enters t
  unfolding search_loop
  enters leaf = tt
  enters (node i l r) = λ f path s.
      left_done (with_visit left_is_visited i) l r (suc (rounds r (suc f))) path s (enters l)
      ∙ right_done (with_visit all_is_visited i) (all_visited l) r (suc f) path (postorder l s)
          (enters r)

  -- `depth_first_search` ends on every tree, whatever flags are left in it from before, and calls
  -- back for each node once, after the nodes of its left and of its right subtree.
  pub depth_first_search-postorder :
      (t : Tree) (s : S) → depth_first_search callback t s ≡ some (all_visited t, postorder t s)
  unfolding depth_first_search
  depth_first_search-postorder leaf s = refl
  depth_first_search-postorder (node i l r) s =
      let fuel : 3 * size (node i l r) ≡ rounds (node i l r) 0 =
        omega (arith, rounds-size (node i l r) 0) in
      ap (λ f. search_loop f callback (node (with_visit none_is_visited i) l r) [] s) fuel
      ∙ enters (node i l r) 0 [] s
      ∙ last
    where
      last :
          ascend (search_loop 0 callback) (all_visited (node i l r)) [] (postorder (node i l r) s)
          ≡ some (all_visited (node i l r), postorder (node i l r) s)
      last = unfold ascend in refl
