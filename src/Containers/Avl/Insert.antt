-- ===== src/Containers/Avl/Insert.antt =====
-- `search_or_create_node` of src/containers/avltree.c: the entries of the tree that it makes.
use Prim.Native.Nat.{Ordering}
use libxdg.Base.{
  Ordering-cases, ℕ, ◌≡◌, refl, sym, ap, ◌∙◌, subst, inl, inr, Option, none, some, [], ◌∷◌, ◌++◌,
}
use libxdg.Base.Sort.{IsSorted}
use libxdg.Base.Text.{Bytes}
use libxdg.Containers.Avl.{
  Item, Tree, leaf, node, left_of, right_of, Ancestors, whole, create_avl_node, rebalance_grew,
  search_routine, found_or_created, search_or_create_node, value_at,
}
use libxdg.Containers.Avl.Entries.{
  IsOrder, entry_of, entries, or_null, Precedes, find_entry, insert_entry, insert_entry-gt,
  insert_entry-lt, insert_entry-eq, find_entry-lt, find_entry-eq, find_entry-gt, All-Before,
  All-Behind, IsSorted-left, IsSorted-right,
}
use libxdg.Containers.Avl.Rebalance.{HasEntries, HasEntries-eq, rebalance_grew-entries}

module _ (compare_keys : Bytes → Bytes → Ordering) where
  -- The tree with another at the place of the key, if that place is empty.
  abbrev placed : Bytes → Tree → Tree → Tree
  placed key leaf n = n
  placed key (node i l r) n = elim (compare_keys i.key key) [
    | Ordering.eq ↦ node i l r
    | Ordering.lt ↦ node i l (placed key r n)
    | Ordering.gt ↦ node i (placed key l n) r
  ]

  -- What the search returns: an empty place and the path to it, or a node with the key.
  abbrev Found : Bytes → Tree → Ancestors → Tree × Ancestors → Type 0
  Found key t path (leaf, path') = (n : Tree) → whole n path' ≡ whole (placed key t n) path
  Found key t path (node i l r, path') = (n : Tree) → placed key t n ≡ t

  Found-right :
      (key : Bytes) (i : Item) (l r : Tree) (path : Ancestors) (f : Tree × Ancestors)
      → compare_keys i.key key ≡ Ordering.lt
      → Found key r (right_of i l ∷ path) f
      → Found key (node i l r) path f
  unfolding whole
  Found-right key i l r path (leaf, path') e h = λ n. h n ∙ rw (e, placed) refl
  Found-right key i l r path (node j a b, path') e h = λ n. rw (e, placed) (ap (node i l) (h n))

  Found-left :
      (key : Bytes) (i : Item) (l r : Tree) (path : Ancestors) (f : Tree × Ancestors)
      → compare_keys i.key key ≡ Ordering.gt
      → Found key l (left_of i r ∷ path) f
      → Found key (node i l r) path f
  unfolding whole
  Found-left key i l r path (leaf, path') e h = λ n. h n ∙ rw (e, placed) refl
  Found-left key i l r path (node j a b, path') e h =
      λ n. rw (e, placed) (ap (λ x. node i x r) (h n))

  search_routine-Found :
      (key : Bytes) (t : Tree) (path : Ancestors)
      → Found key t path (search_routine compare_keys key t path)
  unfolding search_routine
  search_routine-Found key leaf path = λ n. refl
  search_routine-Found key (node i l r) path = elim (Ordering-cases (compare_keys i.key key)) [
    | inl e ↦ subst (Found key (node i l r) path) (sym (rw (e, search_routine) refl)) (
        Found-right key i l r path (search_routine compare_keys key r (right_of i l ∷ path)) e
          (search_routine-Found key r (right_of i l ∷ path)))
    | inr (inl e) ↦ rw (e, search_routine) (λ n. rw (e, placed) refl)
    | inr (inr e) ↦ subst (Found key (node i l r) path) (sym (rw (e, search_routine) refl)) (
        Found-left key i l r path (search_routine compare_keys key l (left_of i r ∷ path)) e
          (search_routine-Found key l (left_of i r ∷ path)))
  ]

  module _ (order : IsOrder compare_keys) where
    placed-entries :
        (key : Bytes) (t n : Tree)
        → IsSorted (Precedes compare_keys) (entries t)
        → entries n ≡ (key, 0) ∷ []
        → entries (placed key t n) ≡ insert_entry compare_keys key (entries t)
    placed-entries key leaf n s e = e
    placed-entries key (node i l r) n s e =
        let x = entry_of i in
        let all = All-Before compare_keys order key (entries l) x (entries r) s in
        elim (Ordering-cases (compare_keys i.key key)) [
          | inl o ↦
              rw
                (
                  insert_entry-lt compare_keys key (entries l) x (entries r) (all (inl o)) o,
                  o,
                  placed,
                )
                (ap (λ y. entries l ++ (x ∷ y))
                  (placed-entries key r n
                    (IsSorted-right compare_keys order (entries l) (x ∷ entries r) s).1 e))
          | inr (inl o) ↦
              rw
                (
                  insert_entry-eq compare_keys key (entries l) x (entries r) (all (inr o)) o,
                  o,
                  placed,
                )
                refl
          | inr (inr o) ↦
              rw (insert_entry-gt compare_keys key (entries l) x (entries r) o, o, placed)
                (ap (λ y. y ++ (x ∷ entries r))
                  (placed-entries key l n
                    (IsSorted-left compare_keys order (entries l) (x ∷ entries r) s) e))
        ]

    pub search_routine-find_entry :
        (key : Bytes) (t : Tree) (path : Ancestors)
        → IsSorted (Precedes compare_keys) (entries t)
        → value_at (search_routine compare_keys key t path).0
          ≡ find_entry compare_keys key (entries t)
    unfolding search_routine
    search_routine-find_entry key leaf path s = refl
    search_routine-find_entry key (node i l r) path s =
        let x = entry_of i in
        let all = All-Before compare_keys order key (entries l) x (entries r) s in
        elim (Ordering-cases (compare_keys i.key key)) [
          | inl o ↦
              rw
                (
                  find_entry-lt compare_keys key (entries l) x (entries r) (all (inl o)) o,
                  o,
                  search_routine,
                )
                (search_routine-find_entry key r (right_of i l ∷ path)
                  (IsSorted-right compare_keys order (entries l) (x ∷ entries r) s).1)
          | inr (inl o) ↦
              rw
                (
                  find_entry-eq compare_keys key (entries l) x (entries r) (all (inr o)) o,
                  o,
                  search_routine,
                )
                refl
          | inr (inr o) ↦
              rw
                (
                  find_entry-gt compare_keys key (entries l) (x ∷ entries r)
                      (All-Behind compare_keys order key (entries l) x (entries r) s o),
                  o,
                  search_routine,
                )
                (search_routine-find_entry key l (left_of i r ∷ path)
                  (IsSorted-left compare_keys order (entries l) (x ∷ entries r) s))
        ]

    -- The tree and the value that are returned, if they are, are those of the list of entries.
    abbrev pub Refines : Bytes → Tree → Option (Tree × ℕ) → Type 0
    Refines key t none = Unit
    Refines key t (some (t', v)) =
        (entries t' ≡ insert_entry compare_keys key (entries t))
        × (v ≡ or_null (find_entry compare_keys key (entries t)))

    created :
        (key : Bytes) (t : Tree) (o : Option Tree)
        → HasEntries o (insert_entry compare_keys key (entries t))
        → find_entry compare_keys key (entries t) ≡ none
        → Refines key t
            (elim o as (λ _. Option (Tree × ℕ)) [ none ↦ none | some t' ↦ some (t', 0) ])
    created key t none h e = tt
    created key t (some t') h e = (h, rw e refl)

    found_or_created-Refines :
        (key : Bytes) (t : Tree) (f : Tree × Ancestors)
        → IsSorted (Precedes compare_keys) (entries t)
        → Found key t [] f
        → value_at f.0 ≡ find_entry compare_keys key (entries t)
        → Refines key t (found_or_created compare_keys key t f)
    unfolding found_or_created whole
    found_or_created-Refines key t (leaf, path) s h v =
        created key t (rebalance_grew (create_avl_node key) path)
          (HasEntries-eq _ _ _
            (ap entries (h (create_avl_node key))
              ∙ placed-entries key t (create_avl_node key) s refl)
            (rebalance_grew-entries (create_avl_node key) path))
          (sym v)
    found_or_created-Refines key t (node i l r, path) s h v = (
      ap entries (sym (h (create_avl_node key)))
          ∙ placed-entries key t (create_avl_node key) s refl,
      rw (← v) refl,
    )

    pub search_or_create_node-Refines :
        (t : Tree) (key : Bytes)
        → IsSorted (Precedes compare_keys) (entries t)
        → Refines key t (search_or_create_node compare_keys t key)
    unfolding search_or_create_node
    search_or_create_node-Refines t key s =
        found_or_created-Refines key t (search_routine compare_keys key t []) s
          (search_routine-Found key t []) (search_routine-find_entry key t [] s)
