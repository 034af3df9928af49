-- ===== src/Containers/Avl/Serial/RoundTrip.antt =====
-- `map_from_memory` of src/containers/avltree.c on what `write_to_file` writes.
use mathlib.Core.List.{append_assoc}
use libxdg.Base.{ℕ, suc, ◌*◌, ◌≡◌, refl, ap, ◌∙◌, Option, some, List, [], ◌∷◌, ◌++◌, arith}
use libxdg.Base.Text.{Bytes}
use libxdg.Containers.Avl.{
  none_is_visited, left_is_visited, all_is_visited, Item, Tree, leaf, node, left_of, right_of,
  Ancestors,
}
use libxdg.Containers.Avl.Traverse.{with_visit, size}
use libxdg.Containers.Avl.Traverse.Postorder.{all_visited, rounds, rounds-size}
use libxdg.Containers.Avl.Serial.{
  Cell, tree_cell, empty_node, node_to_file, write_up, write_left, write_right, write_loop,
  write_to_file, unlinked, take_node, map_up, map_left, map_right, map_loop, map_root,
  map_from_memory,
}

-- The keys and the values of a tree meet two predicates.
module _ (IsKey : Bytes → Type 0) (IsValue : ℕ → Type 0) where
  abbrev pub AllWritable : Tree → Type 0
  AllWritable leaf = Unit
  AllWritable (node i l r) = (IsKey i.key × IsValue i.value) × AllWritable l × AllWritable r

module _ (write_key : Bytes → List Cell) (write_value : ℕ → List Cell) where
  abbrev file_of : Item → List Cell
  file_of = node_to_file write_key write_value

  -- The nodes in preorder, with empty ones in the places without a child.
  abbrev preorder : Tree → List Cell
  preorder leaf = empty_node ∷ []
  preorder (node i l r) = file_of i ++ (preorder l ++ preorder r)

  abbrev Writes : Tree → Type 0
  Writes leaf = Unit
  Writes (node i l r) =
      (f : ℕ) (path : Ancestors) (out : List Cell)
      → write_loop write_key write_value (rounds (node i l r) f)
          (node (with_visit none_is_visited i) l r) path out
        ≡ write_up write_key write_value (write_loop write_key write_value f)
            (all_visited (node i l r)) path (out ++ (preorder l ++ preorder r))

  left_written :
      (i : Item) (l r : Tree) (f : ℕ) (path : Ancestors) (out : List Cell)
      → Writes l
      → write_left write_key write_value
          (write_loop write_key write_value (rounds l f))
          i
          l
          r
          path
          out
        ≡ write_loop write_key write_value f (node i (all_visited l) r) path (out ++ preorder l)
  unfolding write_left write_up
  left_written i leaf r f path out h = refl
  left_written i (node j a b) r f path out h =
      h f (left_of i r ∷ path) (out ++ file_of j)
      ∙ ap (write_loop write_key write_value f (node i (all_visited (node j a b)) r) path)
          (append_assoc out (file_of j) (preorder a ++ preorder b))

  right_written :
      (i : Item) (l r : Tree) (f : ℕ) (path : Ancestors) (out : List Cell)
      → Writes r
      → write_right write_key write_value
          (write_loop write_key write_value (rounds r f))
          i
          l
          r
          path
          out
        ≡ write_loop write_key write_value f (node i l (all_visited r)) path (out ++ preorder r)
  unfolding write_right write_up
  right_written i l leaf f path out h = refl
  right_written i l (node j a b) f path out h =
      h f (right_of i l ∷ path) (out ++ file_of j)
      ∙ ap (write_loop write_key write_value f (node i l (all_visited (node j a b))) path)
          (append_assoc out (file_of j) (preorder a ++ preorder b))

  writes : (t : Tree) → Writes t
  unfolding write_loop
  writes leaf = tt
  writes (node i l r) = λ f path out.
      left_written (with_visit left_is_visited i) l r (suc (rounds r (suc f))) path out (writes l)
      ∙ right_written (with_visit all_is_visited i) (all_visited l) r (suc f) path
          (out ++ preorder l) (writes r)
      ∙ ap
          (write_up write_key write_value (write_loop write_key write_value f)
            (all_visited (node i l r)) path)
          (append_assoc out (preorder l) (preorder r))

  write_to_file-preorder :
      (t : Tree) → write_to_file write_key write_value t ≡ some (tree_cell ∷ preorder t)
  unfolding write_to_file write_up
  write_to_file-preorder leaf = refl
  write_to_file-preorder (node i l r) =
      let fuel : 3 * size (node i l r) ≡ rounds (node i l r) 0 =
        omega (arith, rounds-size (node i l r) 0) in
      ap
        (λ f.
          write_loop write_key write_value f (node (with_visit none_is_visited i) l r) []
            (tree_cell ∷ file_of i))
        fuel
      ∙ writes (node i l r) 0 [] (tree_cell ∷ file_of i)

  module _ (moved : ℕ → List Cell → ℕ) where
    abbrev moved_item : Item → List Cell → Item
    moved_item i rest = record i { visit = none_is_visited; value = moved i.value rest }

    -- The tree with its values at their new addresses, if some memory is behind it.
    abbrev pub moved_tree : Tree → List Cell → Tree
    moved_tree leaf rest = leaf
    moved_tree (node i l r) rest =
        node (moved_item i (preorder l ++ (preorder r ++ rest))) (moved_tree l (preorder r ++ rest))
          (moved_tree r rest)

  -- What the callbacks that read give back: the text of a key, and for a value its new address, which
  -- depends on the memory behind it, for the keys and the values that a tree may hold.
  module _ (read_key : List Cell → Option (Bytes × List Cell))
      (read_value : List Cell → Option (ℕ × List Cell)) (IsKey : Bytes → Type 0)
      (IsValue : ℕ → Type 0) (moved : ℕ → List Cell → ℕ)
      (key_back : (k : Bytes) (rest : List Cell)
        → IsKey k
        → read_key (write_key k ++ rest) ≡ some (k, rest))
      (value_back : (v : ℕ) (rest : List Cell)
        → IsValue v
        → read_value (write_value v ++ rest) ≡ some (moved v rest, rest)) where
    take_node-file :
        (i : Item) (rest : List Cell)
        → IsKey i.key
        → IsValue i.value
        → take_node read_key read_value (file_of i ++ rest)
          ≡ some (some (moved_item moved i rest), rest)
    unfolding take_node
    take_node-file i rest k v =
        rw
          (
            append_assoc (write_key i.key) (write_value i.value) rest,
            key_back i.key (write_value i.value ++ rest) k,
            value_back i.value rest v,
          )
          refl

    abbrev Maps : Tree → Type 0
    Maps leaf = Unit
    Maps (node i l r) =
        (f : ℕ) (path : Ancestors) (rest : List Cell)
        → map_loop read_key read_value (rounds (node i l r) f)
            (unlinked (moved_item moved i (preorder l ++ (preorder r ++ rest)))) path
            (preorder l ++ (preorder r ++ rest))
          ≡ map_up read_key read_value (map_loop read_key read_value f)
              (all_visited (moved_tree moved (node i l r) rest)) path rest

    take_node-preorder :
        (j : Item) (a b : Tree) (rest : List Cell)
        → IsKey j.key
        → IsValue j.value
        → take_node read_key read_value (preorder (node j a b) ++ rest)
          ≡ some (
            some (moved_item moved j (preorder a ++ (preorder b ++ rest))),
            preorder a ++ (preorder b ++ rest),
          )
    take_node-preorder j a b rest k v =
        ap (take_node read_key read_value) (
          append_assoc (file_of j) (preorder a ++ preorder b) rest
          ∙ ap (λ x. file_of j ++ x) (append_assoc (preorder a) (preorder b) rest))
        ∙ take_node-file j (preorder a ++ (preorder b ++ rest)) k v

    left_mapped :
        (i : Item) (l : Tree) (f : ℕ) (path : Ancestors) (rest : List Cell)
        → AllWritable IsKey IsValue l
        → Maps l
        → map_left read_key read_value
            (map_loop read_key read_value (rounds l f))
            i
            leaf
            leaf
            path
            (take_node read_key read_value (preorder l ++ rest))
          ≡ map_loop read_key read_value f
              (node i (all_visited (moved_tree moved l rest)) leaf)
              path
              rest
    unfolding map_left take_node map_up
    left_mapped i leaf f path rest w h = refl
    left_mapped i (node j a b) f path rest ((k, v), wa, wb) h =
        ap
          (map_left read_key read_value (map_loop read_key read_value (rounds (node j a b) f)) i
            leaf leaf path)
          (take_node-preorder j a b rest k v)
        ∙ h f (left_of i leaf ∷ path) rest

    right_mapped :
        (i : Item) (l r : Tree) (f : ℕ) (path : Ancestors) (rest : List Cell)
        → AllWritable IsKey IsValue r
        → Maps r
        → map_right read_key read_value
            (map_loop read_key read_value (rounds r f))
            i
            l
            leaf
            path
            (take_node read_key read_value (preorder r ++ rest))
          ≡ map_loop read_key read_value f
              (node i l (all_visited (moved_tree moved r rest)))
              path
              rest
    unfolding map_right take_node map_up
    right_mapped i l leaf f path rest w h = refl
    right_mapped i l (node j a b) f path rest ((k, v), wa, wb) h =
        ap
          (map_right read_key read_value (map_loop read_key read_value (rounds (node j a b) f)) i l
            leaf path)
          (take_node-preorder j a b rest k v)
        ∙ h f (right_of i l ∷ path) rest

    maps : (t : Tree) → AllWritable IsKey IsValue t → Maps t
    unfolding map_loop
    maps leaf w = tt
    maps (node i l r) (here, wl, wr) = λ f path rest.
        left_mapped
          (with_visit left_is_visited (moved_item moved i (preorder l ++ (preorder r ++ rest)))) l
          (suc (rounds r (suc f))) path (preorder r ++ rest) wl (maps l wl)
        ∙ right_mapped
            (with_visit all_is_visited (moved_item moved i (preorder l ++ (preorder r ++ rest))))
            (all_visited (moved_tree moved l (preorder r ++ rest))) r (suc f) path rest wr
            (maps r wr)

    map_root-preorder :
        (t : Tree) (rest : List Cell)
        → AllWritable IsKey IsValue t
        → map_root read_key read_value
            (3 * size t)
            (take_node read_key read_value (preorder t ++ rest))
          ≡ some (all_visited (moved_tree moved t rest), rest)
    unfolding map_root map_up take_node
    map_root-preorder leaf rest w = refl
    map_root-preorder (node i l r) rest w =
        let fuel : 3 * size (node i l r) ≡ rounds (node i l r) 0 =
          omega (arith, rounds-size (node i l r) 0) in
        ap (map_root read_key read_value (3 * size (node i l r)))
          (take_node-preorder i l r rest w.0.0 w.0.1)
        ∙ ap
            (λ f.
              map_loop read_key read_value f
                (unlinked (moved_item moved i (preorder l ++ (preorder r ++ rest)))) []
                (preorder l ++ (preorder r ++ rest)))
            fuel
        ∙ maps (node i l r) w 0 [] rest

    -- A tree that is written to a file and mapped from what was written, with anything behind it, is
    -- the same tree with all flags set and each value at the address that reading it gives, and the
    -- reading stops behind the tree; this in three rounds for each node, if for each key of the tree
    -- the text, and for each value some address, is read back from what the callbacks write.
    pub map_from_memory-write_to_file :
        (t : Tree) (rest : List Cell)
        → AllWritable IsKey IsValue t
        → (file : List Cell) × (write_to_file write_key write_value t ≡ some file)
          × (map_from_memory read_key read_value (3 * size t) (file ++ rest)
              ≡ some (all_visited (moved_tree moved t rest), rest))
    unfolding map_from_memory
    map_from_memory-write_to_file t rest w =
        (tree_cell ∷ preorder t, write_to_file-preorder t, map_root-preorder t rest w)
