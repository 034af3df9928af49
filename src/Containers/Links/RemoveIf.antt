-- ===== src/Containers/Links/RemoveIf.antt =====
-- The removal of all items that match, in src/containers/xdglist.c.
use mathlib.Core.List.{append_assoc}
use libxdg.Base.{
  ℕ, zero, suc, ◌≤◌, ◌≡◌, ◌≢◌, refl, sym, ap, ◌∙◌, subst, inl, inr, Bool, true, false, Option, some,
  List, [], ◌∷◌, ◌++◌, ◌==◌, if◌then◌else◌, length, arith, Bool-cases,
}
use libxdg.Containers.Links.{Store, remove, remove_loop, remove_if}
use libxdg.Containers.Links.Chain.{first, Links, Holds, Links-split}
use libxdg.Containers.Links.Remove.{remove-Holds}

-- The items that do not match.
abbrev pub remaining : (ℕ → Bool) → List ℕ → List ℕ
remaining match [] = []
remaining match (x ∷ xs) = let rest = remaining match xs in if match x then rest else x ∷ rest

-- The loop from an item on leaves the items before it and those behind that do not match.
abbrev Leaves : ℕ → List ℕ → Option Store → Type 0
Leaves l xs o = (s : Store) × (o ≡ some s) × Holds s l xs

remove_loop-match :
    (f : ℕ) (match : ℕ → Bool) (s : Store) (item : ℕ)
    → match item ≡ true
    → remove_loop (suc f) match s item ≡ (
        if (remove s item).1 == 0
        then some (remove s item).0
        else remove_loop f match (remove s item).0 (remove s item).1)
unfolding remove_loop
remove_loop-match f match s item e = rw (e, remove_loop) refl

remove_loop-pass :
    (f : ℕ) (match : ℕ → Bool) (s : Store) (item : ℕ)
    → match item ≡ false
    → remove_loop (suc f) match s item
      ≡ (if s.next item == 0 then some s else remove_loop f match s (s.next item))
unfolding remove_loop
remove_loop-pass f match s item e = rw (e, remove_loop) refl

if_zero : (n : ℕ) (o p : Option Store) → n ≡ 0 → (if n == 0 then o else p) ≡ o
if_zero n o p e = ground arith

if_other : (n : ℕ) (o p : Option Store) → n ≢ 0 → (if n == 0 then o else p) ≡ p
if_other n o p h = ground arith

Links-next :
    (s : Store) (l item : ℕ) (xs ys : List ℕ)
    → Links s l 0 (xs ++ (item ∷ ys)) 0
    → (s.next item ≡ first ys 0) × Links s l item ys 0
Links-next s l item xs ys k =
    let (front, ((z, e, f, g), back)) = Links-split s l 0 xs (item ∷ ys) 0 k in (g, back)

remove_loop-Leaves :
    (f : ℕ) (match : ℕ → Bool) (s : Store) (l item : ℕ) (kept ys : List ℕ)
    → Holds s l (kept ++ (item ∷ ys))
    → length (item ∷ ys) ≤ f
    → Leaves l (kept ++ remaining match (item ∷ ys)) (remove_loop f match s item)
remove_loop-Leaves zero match s l item kept ys held h = absurd (omega arith)
remove_loop-Leaves (suc f) match s l item kept [] held h = elim (Bool-cases (match item)) [
  | inl e ↦
      let (gone, r) = remove-Holds s l item kept [] held in
      rw e (
        (remove s item).0,
        remove_loop-match f match s item e ∙ if_zero (remove s item).1 _ _ r,
        gone,
      )
  | inr e ↦ rw e (
    s,
    remove_loop-pass f match s item e
        ∙ if_zero (s.next item) _ _ (Links-next s l item kept [] held.0).0,
    held,
  )
]
remove_loop-Leaves (suc f) match s l item kept (y ∷ ys) held h =
    let (n, later) = Links-next s l item kept (y ∷ ys) held.0 in
    let z : y ≢ 0 = later.0.0 in
    elim (Bool-cases (match item)) [
      | inl e ↦
          let (gone, r) = remove-Holds s l item kept (y ∷ ys) held in
          let (s', g, leaves) =
            remove_loop-Leaves f match (remove s item).0 l y kept ys gone (omega arith) in
          rw e (
            s',
            remove_loop-match f match s item e
                ∙ if_other (remove s item).1 _ _ (λ x. z (sym r ∙ x))
                ∙ ap (remove_loop f match (remove s item).0) r
                ∙ g,
            leaves,
          )
      | inr e ↦
          let shifted : Holds s l ((kept ++ (item ∷ [])) ++ (y ∷ ys)) =
            subst (Holds s l) (sym (append_assoc kept (item ∷ []) (y ∷ ys))) held in
          let (s', g, leaves) =
            remove_loop-Leaves f match s l y (kept ++ (item ∷ [])) ys shifted (omega arith) in
          rw e (
            s',
            remove_loop-pass f match s item e
                ∙ if_other (s.next item) _ _ (λ x. z (sym n ∙ x))
                ∙ ap (remove_loop f match s) n
                ∙ g,
            subst (Holds s' l) (append_assoc kept (item ∷ []) (remaining match (y ∷ ys))) leaves,
          )
    ]

-- On a list with as many items as the loop may take rounds, or less, the removal ends and leaves the
-- items that do not match, in their order.
pub remove_if-Holds :
    (f : ℕ) (match : ℕ → Bool) (s : Store) (l : ℕ) (xs : List ℕ)
    → Holds s l xs
    → length xs ≤ f
    → (s' : Store) × (remove_if f match s l ≡ some s') × Holds s' l (remaining match xs)
unfolding remove_if
remove_if-Holds f match s l [] held h = (s, if_zero (s.head l) _ _ held.1, held)
remove_if-Holds f match s l (x ∷ xs) held h =
    let (s', g, leaves) = remove_loop-Leaves f match s l x [] xs held h in
    (
      s',
      if_other (s.head l) _ _ (λ e. held.0.0.0 (sym held.1 ∙ e))
          ∙ ap (remove_loop f match s) held.1
          ∙ g,
      leaves,
    )
