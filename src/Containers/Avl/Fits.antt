-- ===== src/Containers/Avl/Fits.antt =====
-- What rebalancing in src/containers/avltree.c needs of a tree to follow no NULL.
use libxdg.Base.{◌≡◌, ◌≢◌, refl, ◌⊎◌, inl, inr, Option, some, [], ◌∷◌}
use libxdg.Containers.Avl.{
  Balance, balanced, left_is_heavy, right_is_heavy, Item, Tree, leaf, node, left_of, right_of,
  Ancestors, whole, with_balance, left_left_rotation, right_right_rotation, right_left_rotation,
  left_right_rotation, rotate_left_grown, rotate_right_grown, in_place, left_grew, right_grew,
  rebalance_grew,
}

abbrev pub Full : Tree → Type 0
Full leaf = ⊥
Full (node i l r) = Unit

-- The side that a balance calls heavy is not empty.
abbrev pub Fits : Balance → Tree → Tree → Type 0
Fits balanced l r = Unit
Fits left_is_heavy l r = Full l
Fits right_is_heavy l r = Full r

-- In every node the side that its balance calls heavy is not empty.
abbrev pub IsSafe : Tree → Type 0
IsSafe leaf = Unit
IsSafe (node i l r) = Fits i.balance l r × IsSafe l × IsSafe r

-- The other side of each parent is as it should be.
abbrev pub IsSafePath : Ancestors → Type 0
IsSafePath [] = Unit
IsSafePath (left_of i r ∷ path) = (i.balance ≡ right_is_heavy → Full r) × IsSafe r × IsSafePath path
IsSafePath (right_of i l ∷ path) = (i.balance ≡ left_is_heavy → Full l) × IsSafe l × IsSafePath path

-- The parent is not heavy on this side.
abbrev pub IsLight : Ancestors → Type 0
IsLight [] = Unit
IsLight (left_of i r ∷ path) = i.balance ≢ left_is_heavy
IsLight (right_of i l ∷ path) = i.balance ≢ right_is_heavy

pub Fits-left : (b : Balance) (l r : Tree) → Full l → (b ≡ right_is_heavy → Full r) → Fits b l r
Fits-left balanced l r f h = tt
Fits-left left_is_heavy l r f h = f
Fits-left right_is_heavy l r f h = h refl

pub Fits-right : (b : Balance) (l r : Tree) → Full r → (b ≡ left_is_heavy → Full l) → Fits b l r
Fits-right balanced l r f h = tt
Fits-right left_is_heavy l r f h = h refl
Fits-right right_is_heavy l r f h = f

pub whole-IsSafe :
    (path : Ancestors) (t : Tree) → IsSafe t → Full t → IsSafePath path → IsSafe (whole t path)
unfolding whole
whole-IsSafe [] t s f p = s
whole-IsSafe (left_of i r ∷ path) t s f p =
    whole-IsSafe path (node i t r) (Fits-left i.balance t r f p.0, s, p.1) tt p.2
whole-IsSafe (right_of i l ∷ path) t s f p =
    whole-IsSafe path (node i l t) (Fits-right i.balance l t f p.0, p.1, s) tt p.2

abbrev pub Succeeds : Option Tree → Type 0
Succeeds o = (t : Tree) × (o ≡ some t) × IsSafe t

in_place-Succeeds :
    (path : Ancestors) (o : Option Tree)
    → IsSafePath path
    → (t : Tree) × (o ≡ some t) × IsSafe t × Full t
    → Succeeds (in_place path o)
in_place-Succeeds path o p (t, e, s, f) = rw e (whole t path, refl, whole-IsSafe path t s f p)

-- The rotation of a tree whose grown child is not balanced.
rotate_left-Succeeds :
    (b : Balance) (i c : Item) (m n r : Tree)
    → c.balance ≡ b
    → b ≢ balanced
    → IsSafe (node c m n)
    → IsSafe r
    → (t : Tree) × (rotate_left_grown (some b) i (node c m n) r ≡ some t) × IsSafe t × Full t
unfolding rotate_left_grown right_right_rotation left_right_rotation
rotate_left-Succeeds balanced i c m n r e ne s h = absurd (ne refl)
rotate_left-Succeeds left_is_heavy i c m n r e ne s h = (_, refl, (tt, s.1, (tt, s.2, h)), tt)
rotate_left-Succeeds right_is_heavy i c m leaf r e ne s h = absurd (rw e at s.0)
rotate_left-Succeeds right_is_heavy i c m (node g a b) r e ne s h =
    (_, refl, (tt, (tt, s.1, s.2.1), (tt, s.2.2, h)), tt)

rotate_right-Succeeds :
    (b : Balance) (i c : Item) (l m n : Tree)
    → c.balance ≡ b
    → b ≢ balanced
    → IsSafe (node c m n)
    → IsSafe l
    → (t : Tree) × (rotate_right_grown (some b) i l (node c m n) ≡ some t) × IsSafe t × Full t
unfolding rotate_right_grown left_left_rotation right_left_rotation
rotate_right-Succeeds balanced i c l m n e ne s h = absurd (ne refl)
rotate_right-Succeeds right_is_heavy i c l m n e ne s h = (_, refl, (tt, (tt, h, s.1), s.2), tt)
rotate_right-Succeeds left_is_heavy i c l leaf n e ne s h = absurd (rw e at s.0)
rotate_right-Succeeds left_is_heavy i c l (node g a b) n e ne s h =
    (_, refl, (tt, (tt, h, s.1.1), (tt, s.1.2, s.2)), tt)

left_grew-Succeeds :
    (b : Balance) (i c : Item) (m n r : Tree) (path : Ancestors) (onward : Option Tree)
    → (c.balance ≢ balanced) ⊎ (b ≢ left_is_heavy)
    → IsSafe (node c m n)
    → IsSafe r
    → IsSafePath path
    → (b ≡ balanced → Succeeds onward)
    → Succeeds (left_grew b i (node c m n) r path onward)
unfolding left_grew
left_grew-Succeeds balanced i c m n r path onward u s h p k = k refl
left_grew-Succeeds right_is_heavy i c m n r path onward u s h p k =
    (_, refl, whole-IsSafe path _ (tt, s, h) tt p)
left_grew-Succeeds left_is_heavy i c m n r path onward (inr u) s h p k = absurd (u refl)
left_grew-Succeeds left_is_heavy i c m n r path onward (inl u) s h p k =
    in_place-Succeeds path _ p (rotate_left-Succeeds c.balance i c m n r refl u s h)

right_grew-Succeeds :
    (b : Balance) (i c : Item) (l m n : Tree) (path : Ancestors) (onward : Option Tree)
    → (c.balance ≢ balanced) ⊎ (b ≢ right_is_heavy)
    → IsSafe (node c m n)
    → IsSafe l
    → IsSafePath path
    → (b ≡ balanced → Succeeds onward)
    → Succeeds (right_grew b i l (node c m n) path onward)
unfolding right_grew
right_grew-Succeeds balanced i c l m n path onward u s h p k = k refl
right_grew-Succeeds left_is_heavy i c l m n path onward u s h p k =
    (_, refl, whole-IsSafe path _ (tt, h, s) tt p)
right_grew-Succeeds right_is_heavy i c l m n path onward (inr u) s h p k = absurd (u refl)
right_grew-Succeeds right_is_heavy i c l m n path onward (inl u) s h p k =
    in_place-Succeeds path _ p (rotate_right-Succeeds c.balance i c l m n refl u s h)

-- A grown child that is unbalanced, or a parent that was not heavy on its side.
pub rebalance_grew-Succeeds :
    (path : Ancestors) (c : Item) (m n : Tree)
    → (c.balance ≢ balanced) ⊎ IsLight path
    → IsSafe (node c m n)
    → IsSafePath path
    → Succeeds (rebalance_grew (node c m n) path)
unfolding rebalance_grew
rebalance_grew-Succeeds [] c m n u s p = (_, refl, s)
rebalance_grew-Succeeds (left_of i r ∷ path) c m n u s p =
    left_grew-Succeeds i.balance i c m n r path _ u s p.1 p.2 (λ e.
      rebalance_grew-Succeeds path (with_balance left_is_heavy i) (node c m n) r (inl (λ f. cc))
        (tt, s, p.1) p.2)
rebalance_grew-Succeeds (right_of i l ∷ path) c m n u s p =
    right_grew-Succeeds i.balance i c l m n path _ u s p.1 p.2 (λ e.
      rebalance_grew-Succeeds path (with_balance right_is_heavy i) l (node c m n) (inl (λ f. cc))
        (tt, p.1, s) p.2)
