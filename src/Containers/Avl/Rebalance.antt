-- ===== src/Containers/Avl/Rebalance.antt =====
-- The entries of the trees of src/containers/avltree.c under rotations and rebalancing.
use mathlib.Core.List.{append_assoc}
use libxdg.Base.{◌≡◌, refl, sym, ap, ◌∙◌, subst, Option, none, some, List, [], ◌∷◌, ◌++◌}
use libxdg.Containers.Avl.{
  Balance, balanced, left_is_heavy, right_is_heavy, Item, Tree, leaf, node, left_of, right_of,
  Ancestors, whole, with_balance, left_left_rotation, right_right_rotation, right_left_rotation,
  left_right_rotation, rotate_left_grown, rotate_right_grown, balance_of, in_place, left_grew,
  right_grew, rebalance_grew,
}
use libxdg.Containers.Avl.Entries.{Entry, entry_of, entries}

pub whole-entries :
    (path : Ancestors) (s t : Tree)
    → entries s ≡ entries t
    → entries (whole s path) ≡ entries (whole t path)
unfolding whole
whole-entries [] s t e = e
whole-entries (left_of i r ∷ path) s t e =
    whole-entries path (node i s r) (node i t r) (ap (λ x. x ++ (entry_of i ∷ entries r)) e)
whole-entries (right_of i l ∷ path) s t e =
    whole-entries path (node i l s) (node i l t) (ap (λ x. entries l ++ (entry_of i ∷ x)) e)

-- A result has the entries of a tree, if there is a result.
abbrev pub HasEntries : Option Tree → List Entry → Type 0
HasEntries none es = Unit
HasEntries (some t) es = entries t ≡ es

left_left-entries :
    (i : Item) (l r : Tree) → HasEntries (left_left_rotation i l r) (entries (node i l r))
unfolding left_left_rotation
left_left-entries i l leaf = tt
left_left-entries i l (node c m r) =
    append_assoc (entries l) (entry_of i ∷ entries m) (entry_of c ∷ entries r)

right_right-entries :
    (i : Item) (l r : Tree) → HasEntries (right_right_rotation i l r) (entries (node i l r))
unfolding right_right_rotation
right_right-entries i leaf r = tt
right_right-entries i (node c l m) r =
    sym (append_assoc (entries l) (entry_of c ∷ entries m) (entry_of i ∷ entries r))

right_left-entries :
    (i : Item) (l r : Tree) → HasEntries (right_left_rotation i l r) (entries (node i l r))
unfolding right_left_rotation
right_left-entries i l leaf = tt
right_left-entries i l (node c leaf r) = tt
right_left-entries i l (node c (node g m n) r) =
    append_assoc (entries l) (entry_of i ∷ entries m)
      (entry_of g ∷ (entries n ++ (entry_of c ∷ entries r)))
    ∙ ap (λ x. entries l ++ (entry_of i ∷ x))
        (sym (append_assoc (entries m) (entry_of g ∷ entries n) (entry_of c ∷ entries r)))

left_right-entries :
    (i : Item) (l r : Tree) → HasEntries (left_right_rotation i l r) (entries (node i l r))
unfolding left_right_rotation
left_right-entries i leaf r = tt
left_right-entries i (node c l leaf) r = tt
left_right-entries i (node c l (node g m n)) r =
    append_assoc (entries l) (entry_of c ∷ entries m)
      (entry_of g ∷ (entries n ++ (entry_of i ∷ entries r)))
    ∙ ap (λ x. entries l ++ (entry_of c ∷ x))
        (sym (append_assoc (entries m) (entry_of g ∷ entries n) (entry_of i ∷ entries r)))
    ∙ sym (
        append_assoc (entries l) (entry_of c ∷ (entries m ++ (entry_of g ∷ entries n)))
          (entry_of i ∷ entries r))

rotate_left-entries :
    (b : Option Balance) (i : Item) (l r : Tree)
    → HasEntries (rotate_left_grown b i l r) (entries (node i l r))
unfolding rotate_left_grown
rotate_left-entries none i l r = tt
rotate_left-entries (some left_is_heavy) i l r = right_right-entries i l r
rotate_left-entries (some balanced) i l r = left_right-entries i l r
rotate_left-entries (some right_is_heavy) i l r = left_right-entries i l r

rotate_right-entries :
    (b : Option Balance) (i : Item) (l r : Tree)
    → HasEntries (rotate_right_grown b i l r) (entries (node i l r))
unfolding rotate_right_grown
rotate_right-entries none i l r = tt
rotate_right-entries (some right_is_heavy) i l r = left_left-entries i l r
rotate_right-entries (some balanced) i l r = right_left-entries i l r
rotate_right-entries (some left_is_heavy) i l r = right_left-entries i l r

in_place-entries :
    (path : Ancestors) (o : Option Tree) (t : Tree)
    → HasEntries o (entries t)
    → HasEntries (in_place path o) (entries (whole t path))
in_place-entries path none t h = tt
in_place-entries path (some s) t h = whole-entries path s t h

left_grew-entries :
    (b : Balance) (i : Item) (l r : Tree) (path : Ancestors) (onward : Option Tree)
    → HasEntries onward (entries (whole (node i l r) path))
    → HasEntries (left_grew b i l r path onward) (entries (whole (node i l r) path))
unfolding left_grew
left_grew-entries right_is_heavy i l r path onward h =
    whole-entries path (node (with_balance balanced i) l r) (node i l r) refl
left_grew-entries balanced i l r path onward h = h
left_grew-entries left_is_heavy i l r path onward h =
    in_place-entries path (rotate_left_grown (balance_of l) i l r) (node i l r)
      (rotate_left-entries (balance_of l) i l r)

right_grew-entries :
    (b : Balance) (i : Item) (l r : Tree) (path : Ancestors) (onward : Option Tree)
    → HasEntries onward (entries (whole (node i l r) path))
    → HasEntries (right_grew b i l r path onward) (entries (whole (node i l r) path))
unfolding right_grew
right_grew-entries left_is_heavy i l r path onward h =
    whole-entries path (node (with_balance balanced i) l r) (node i l r) refl
right_grew-entries balanced i l r path onward h = h
right_grew-entries right_is_heavy i l r path onward h =
    in_place-entries path (rotate_right_grown (balance_of r) i l r) (node i l r)
      (rotate_right-entries (balance_of r) i l r)

pub HasEntries-eq :
    (o : Option Tree) (es fs : List Entry) → es ≡ fs → HasEntries o es → HasEntries o fs
HasEntries-eq o es fs e h = subst (HasEntries o) e h

pub rebalance_grew-entries :
    (t : Tree) (path : Ancestors) → HasEntries (rebalance_grew t path) (entries (whole t path))
unfolding rebalance_grew whole
rebalance_grew-entries t [] = refl
rebalance_grew-entries t (left_of i r ∷ path) = left_grew-entries i.balance i t r path _ (
    HasEntries-eq _ _ _
      (whole-entries path (node (with_balance left_is_heavy i) t r) (node i t r) refl)
      (rebalance_grew-entries (node (with_balance left_is_heavy i) t r) path))
rebalance_grew-entries t (right_of i l ∷ path) = right_grew-entries i.balance i l t path _ (
    HasEntries-eq _ _ _
      (whole-entries path (node (with_balance right_is_heavy i) l t) (node i l t) refl)
      (rebalance_grew-entries (node (with_balance right_is_heavy i) l t) path))
