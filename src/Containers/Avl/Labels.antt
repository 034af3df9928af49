-- ===== src/Containers/Avl/Labels.antt =====
-- The balances of src/containers/avltree.c as the differences of heights, and the double rotations.
use libxdg.Base.{ℕ, suc, ◌≡◌, ◌↔◌, refl, subst, some, max, arith}
use libxdg.Containers.Avl.{
  Balance, balanced, left_is_heavy, right_is_heavy, Item, Tree, leaf, node, left_right_rotation,
  right_left_rotation,
}

abbrev pub height : Tree → ℕ
height leaf = 0
height (node i l r) = suc (max (height l) (height r))

-- A balance says which of two heights is greater by one, or that they are equal.
abbrev pub Says : Balance → ℕ → ℕ → Type 0
Says balanced a b = a ≡ b
Says left_is_heavy a b = a ≡ suc b
Says right_is_heavy a b = b ≡ suc a

-- Every balance of a tree says how the heights of its subtrees differ.
abbrev pub IsLabelled : Tree → Type 0
IsLabelled leaf = Unit
IsLabelled (node i l r) = Says i.balance (height l) (height r) × IsLabelled l × IsLabelled r

balanced_iff : (b : Balance) (m n : ℕ) → Says b m n → (m ≡ n) ↔ (b ≡ balanced)
balanced_iff balanced m n s = (λ e. refl, λ e. s)
balanced_iff left_is_heavy m n s = (λ e. absurd (omega arith), λ e. absurd (cc))
balanced_iff right_is_heavy m n s = (λ e. absurd (omega arith), λ e. absurd (cc))

-- In a tree whose left child is higher than the right one by two and heavy on its right, the double
-- rotation makes a tree whose balances say how its heights differ exactly if the grandchild that
-- comes up was balanced; this if the balances in both children say so.
pub left_right_rotation-IsLabelled :
    (i c g : Item) (m a b r : Tree)
    → c.balance ≡ right_is_heavy
    → IsLabelled (node c m (node g a b))
    → IsLabelled r
    → height (node c m (node g a b)) ≡ suc (suc (height r))
    → ((t : Tree) × (left_right_rotation i (node c m (node g a b)) r ≡ some t)
        × (IsLabelled t ↔ (g.balance ≡ balanced)))
unfolding left_right_rotation
left_right_rotation-IsLabelled i c g m a b r e k s h =
    let said : Says right_is_heavy (height m) (height (node g a b)) =
      subst (λ x. Says x (height m) (height (node g a b))) e k.0 in
    let (to, from) = balanced_iff g.balance (height a) (height b) k.2.0 in
    (
      _,
      refl,
      (
        λ t. to (omega (arith, t.0, t.1.0, t.2.0)),
        λ f.
            let same : height a ≡ height b = from f in
            (omega arith, (omega arith, k.1, k.2.1), (omega arith, k.2.2, s)),
      ),
    )

-- The other way round.
pub right_left_rotation-IsLabelled :
    (i c g : Item) (l a b n : Tree)
    → c.balance ≡ left_is_heavy
    → IsLabelled (node c (node g a b) n)
    → IsLabelled l
    → height (node c (node g a b) n) ≡ suc (suc (height l))
    → ((t : Tree) × (right_left_rotation i l (node c (node g a b) n) ≡ some t)
        × (IsLabelled t ↔ (g.balance ≡ balanced)))
unfolding right_left_rotation
right_left_rotation-IsLabelled i c g l a b n e k s h =
    let said : Says left_is_heavy (height (node g a b)) (height n) =
      subst (λ x. Says x (height (node g a b)) (height n)) e k.0 in
    let (to, from) = balanced_iff g.balance (height a) (height b) k.1.0 in
    (
      _,
      refl,
      (
        λ t. to (omega (arith, t.0, t.1.0, t.2.0)),
        λ f.
            let same : height a ≡ height b = from f in
            (omega arith, (omega arith, s, k.1.1), (omega arith, k.1.2, k.2)),
      ),
    )
