-- ===== src/Containers/Avl/Safe.antt =====
-- `search_or_create_node` of src/containers/avltree.c and the links that its rotations follow.
use Prim.Native.Nat.{Ordering}
use libxdg.Base.{Ordering-cases, ℕ, ◌≡◌, ◌≢◌, refl, sym, ap, ◌∙◌, subst, inl, inr, some, [], ◌∷◌}
use libxdg.Base.Sort.{IsSorted}
use libxdg.Base.Text.{Bytes}
use libxdg.Containers.Avl.{
  none_is_visited, Balance, balanced, left_is_heavy, right_is_heavy, Item, Tree, leaf, node,
  left_of, right_of, Ancestors, search_routine, found_or_created, search_or_create_node,
  search_node,
}
use libxdg.Containers.Avl.Entries.{
  IsOrder, entries, or_null, Precedes, find_entry, insert_entry, insert_entry-IsSorted,
  find_entry-insert_same, find_entry-insert_other,
}
use libxdg.Containers.Avl.Insert.{search_routine-find_entry, Refines, search_or_create_node-Refines}
use libxdg.Containers.Avl.Fits.{Fits, IsSafe, IsSafePath, IsLight, rebalance_grew-Succeeds}

abbrev IsSafePlace : Tree × Ancestors → Type 0
IsSafePlace (leaf, path) = IsLight path × IsSafePath path
IsSafePlace (node i l r, path) = Unit

abbrev IsLightAt : Tree → Ancestors → Type 0
IsLightAt leaf path = IsLight path
IsLightAt (node i l r) path = Unit

right-IsLightAt :
    (b : Balance) (i : Item) (l r : Tree) (path : Ancestors)
    → i.balance ≡ b
    → Fits b l r
    → IsLightAt r (right_of i l ∷ path)
right-IsLightAt balanced i l leaf path e f = λ h. cc
right-IsLightAt left_is_heavy i l leaf path e f = λ h. cc
right-IsLightAt right_is_heavy i l leaf path e f = absurd f
right-IsLightAt b i l (node c m n) path e f = tt

left-IsLightAt :
    (b : Balance) (i : Item) (l r : Tree) (path : Ancestors)
    → i.balance ≡ b
    → Fits b l r
    → IsLightAt l (left_of i r ∷ path)
left-IsLightAt balanced i leaf r path e f = λ h. cc
left-IsLightAt left_is_heavy i leaf r path e f = absurd f
left-IsLightAt right_is_heavy i leaf r path e f = λ h. cc
left-IsLightAt b i (node c m n) r path e f = tt

module _ (compare_keys : Bytes → Bytes → Ordering) where
  search_routine-IsSafePlace :
      (key : Bytes) (t : Tree) (path : Ancestors)
      → IsSafe t
      → IsSafePath path
      → IsLightAt t path
      → IsSafePlace (search_routine compare_keys key t path)
  unfolding search_routine
  search_routine-IsSafePlace key leaf path s p l = (l, p)
  search_routine-IsSafePlace key (node i l r) path s p h =
      elim (Ordering-cases (compare_keys i.key key)) [
        | inl e ↦
            rw (e, search_routine)
              (search_routine-IsSafePlace key r (right_of i l ∷ path) s.2
                ((λ b. subst (λ x. Fits x l r) b s.0), s.1, p)
                (right-IsLightAt i.balance i l r path refl s.0))
        | inr (inl e) ↦ rw (e, search_routine) tt
        | inr (inr e) ↦
            rw (e, search_routine)
              (search_routine-IsSafePlace key l (left_of i r ∷ path) s.1
                ((λ b. subst (λ x. Fits x l r) b s.0), s.2, p)
                (left-IsLightAt i.balance i l r path refl s.0))
      ]

  found_or_created-IsSafe :
      (key : Bytes) (t : Tree) (f : Tree × Ancestors)
      → IsSafe t
      → IsSafePlace f
      → (t' : Tree) × (v : ℕ) × (found_or_created compare_keys key t f ≡ some (t', v)) × IsSafe t'
  unfolding found_or_created
  found_or_created-IsSafe key t (leaf, path) s p =
      let (t', e, safe) =
        rebalance_grew-Succeeds path
          (record { visit = none_is_visited; balance = balanced; key = key; value = 0 }) leaf leaf
          (inr p.0) (tt, tt, tt) p.1 in
      (t', 0, rw (e, found_or_created) refl, safe)
  found_or_created-IsSafe key t (node i l r, path) s p = (t, i.value, refl, s)

  -- On a tree in the order of its keys, in which the side that a balance calls heavy is not empty,
  -- `search_or_create_node` follows no NULL and keeps both. It adds the key with the value NULL at
  -- its place, unless it is there, changes no other entry, and returns the value of the key.
  pub search_or_create_node-IsSafe :
      (t : Tree) (key : Bytes)
      → IsOrder compare_keys
      → IsSafe t
      → IsSorted (Precedes compare_keys) (entries t)
      → (t' : Tree) × (v : ℕ) × (search_or_create_node compare_keys t key ≡ some (t', v))
        × IsSafe t'
        × IsSorted (Precedes compare_keys) (entries t')
        × (entries t' ≡ insert_entry compare_keys key (entries t))
        × (v ≡ or_null (find_entry compare_keys key (entries t)))
  unfolding search_or_create_node
  search_or_create_node-IsSafe t key order s k =
      let (t', v, e, safe) =
        found_or_created-IsSafe key t (search_routine compare_keys key t []) s
          (search_routine-IsSafePlace key t [] s tt (start t)) in
      let (es, value) =
        subst (Refines compare_keys order key t) e
          (search_or_create_node-Refines compare_keys order t key k) in
      (
        t',
        v,
        e,
        safe,
        subst (IsSorted (Precedes compare_keys)) (sym es)
            (insert_entry-IsSorted compare_keys order key (entries t) k),
        es,
        value,
      )
    where
      start : (t : Tree) → IsLightAt t []
      start leaf = tt
      start (node i l r) = tt

  -- After `search_or_create_node` a search for the key finds the value that it returned, and a
  -- search for any other key finds what it found before.
  pub search_node-search_or_create_node :
      (t t' : Tree) (key q : Bytes) (v : ℕ)
      → IsOrder compare_keys
      → IsSorted (Precedes compare_keys) (entries t)
      → search_or_create_node compare_keys t key ≡ some (t', v)
      → (key ≡ q → search_node compare_keys t' q ≡ some v)
        × (key ≢ q → search_node compare_keys t' q ≡ search_node compare_keys t q)
  unfolding search_node
  search_node-search_or_create_node t t' key q v order k e =
      let (es, value) =
        subst (Refines compare_keys order key t) e
          (search_or_create_node-Refines compare_keys order t key k) in
      let sorted : IsSorted (Precedes compare_keys) (entries t') =
        subst (IsSorted (Precedes compare_keys)) (sym es)
          (insert_entry-IsSorted compare_keys order key (entries t) k) in
      let after =
        search_routine-find_entry compare_keys order q t' [] sorted
        ∙ ap (find_entry compare_keys q) es in
      (
        λ same.
            after
            ∙ ap (λ x. find_entry compare_keys x (insert_entry compare_keys key (entries t)))
                (sym same)
            ∙ find_entry-insert_same compare_keys order key (entries t) k
            ∙ ap some (sym value),
        λ other.
            after
            ∙ find_entry-insert_other compare_keys order key q (entries t) other
            ∙ sym (search_routine-find_entry compare_keys order q t [] k),
      )
