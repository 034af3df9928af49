-- ===== src/Containers/Avl/Destroy.antt =====
-- `destroy_subtree` and `destroy_subtree_and_values` of src/containers/avltree.c: the nodes that
-- they free, by the keys and the values that the callbacks are given.
use mathlib.Core.List.{append_assoc, append-nil}
use libxdg.Base.{
  ℕ, zero, suc, ◌+◌, ◌*◌, ◌≡◌, refl, sym, ap, ◌∙◌, Option, none, some, List, [], ◌∷◌, ◌++◌, arith,
}
use libxdg.Containers.Avl.{Item, Tree, leaf, node, left_of, right_of, Ancestors}
use libxdg.Containers.Avl.Entries.{Entry, entry_of}
use libxdg.Containers.Avl.Traverse.{size}

-- The node without children is freed, and the link to it is cleared in its parent, where the loop
-- goes on; at the root it ends.
unfoldable pub cut_off :
    (Tree → Ancestors → List Entry → Option (List Entry))
    → Ancestors
    → List Entry
    → Option (List Entry)
cut_off loop [] freed = some freed
cut_off loop (left_of i r ∷ path) freed = loop (node i leaf r) path freed
cut_off loop (right_of i l ∷ path) freed = loop (node i l leaf) path freed

-- A round of the loop, with the loop that goes on.
unfoldable pub destroy_round :
    (Tree → Ancestors → List Entry → Option (List Entry))
    → Tree
    → Ancestors
    → List Entry
    → Option (List Entry)
unfolding cut_off
destroy_round loop leaf path freed = none
destroy_round loop (node i l (node j a b)) path freed =
    loop (node j a b) (right_of i l ∷ path) freed
destroy_round loop (node i (node j a b) leaf) path freed =
    loop (node j a b) (left_of i leaf ∷ path) freed
destroy_round loop (node i leaf leaf) path freed = cut_off loop path (freed ++ (entry_of i ∷ []))

unfoldable pub destroy_loop : ℕ → Tree → Ancestors → List Entry → Option (List Entry)
unfolding destroy_round
destroy_loop zero t path freed = none
destroy_loop (suc f) t path freed = destroy_round (destroy_loop f) t path freed

-- The fuel is two rounds for each node: one on the way down, and one to free it.
unfoldable pub destroy_subtree : Tree → Option (List Entry)
unfolding destroy_loop
destroy_subtree leaf = some []
destroy_subtree (node i l r) = destroy_loop (2 * size (node i l r)) (node i l r) [] []

-- The right subtree, the left one, and the node.
abbrev pub destroy_order : Tree → List Entry
destroy_order leaf = []
destroy_order (node i l r) = destroy_order r ++ (destroy_order l ++ (entry_of i ∷ []))

-- The rounds on a subtree from its parent and back, before those that follow.
abbrev rounds : Tree → ℕ → ℕ
rounds leaf f = f
rounds (node i l r) f = suc (rounds r (rounds l (suc f)))

rounds-size : (t : Tree) (f : ℕ) → rounds t f ≡ 2 * size t + f
rounds-size leaf f = omega arith
rounds-size (node i l r) f = omega (arith, rounds-size r (rounds l (suc f)), rounds-size l (suc f))

abbrev Frees : Tree → Type 0
Frees leaf = Unit
Frees (node i l r) =
    (f : ℕ) (path : Ancestors) (freed : List Entry)
    → destroy_loop (rounds r (rounds l (suc f))) (node i l r) path freed
      ≡ cut_off (destroy_loop f) path (freed ++ destroy_order (node i l r))

right_freed :
    (i : Item) (l r : Tree) (f : ℕ) (path : Ancestors) (freed : List Entry)
    → Frees r
    → destroy_loop (rounds r f) (node i l r) path freed
      ≡ destroy_loop f (node i l leaf) path (freed ++ destroy_order r)
unfolding cut_off destroy_round destroy_loop
right_freed i l leaf f path freed h =
    ap (destroy_loop f (node i l leaf) path) (sym (append-nil freed))
right_freed i l (node j a b) f path freed h = h f (right_of i l ∷ path) freed

left_freed :
    (i : Item) (l : Tree) (f : ℕ) (path : Ancestors) (freed : List Entry)
    → Frees l
    → destroy_loop (rounds l f) (node i l leaf) path freed
      ≡ destroy_loop f (node i leaf leaf) path (freed ++ destroy_order l)
unfolding cut_off destroy_round destroy_loop
left_freed i leaf f path freed h =
    ap (destroy_loop f (node i leaf leaf) path) (sym (append-nil freed))
left_freed i (node j a b) f path freed h = h f (left_of i leaf ∷ path) freed

frees : (t : Tree) → Frees t
unfolding destroy_round destroy_loop
frees leaf = tt
frees (node i l r) = λ f path freed.
    right_freed i l r (rounds l (suc f)) path freed (frees r)
    ∙ left_freed i l (suc f) path (freed ++ destroy_order r) (frees l)
    ∙ ap (cut_off (destroy_loop f) path) (
        append_assoc (freed ++ destroy_order r) (destroy_order l) (entry_of i ∷ [])
        ∙ append_assoc freed (destroy_order r) (destroy_order l ++ (entry_of i ∷ [])))

-- Destroying ends on every tree, and frees each node once, after its right and its left subtree.
pub destroy_subtree-order : (t : Tree) → destroy_subtree t ≡ some (destroy_order t)
unfolding destroy_subtree cut_off
destroy_subtree-order leaf = refl
destroy_subtree-order (node i l r) =
    let fuel : 2 * size (node i l r) ≡ rounds r (rounds l 2) =
      omega (arith, rounds-size r (rounds l 2), rounds-size l 2) in
    ap (λ f. destroy_loop f (node i l r) [] []) fuel ∙ frees (node i l r) 1 [] []
