-- ===== src/Containers/Links/Append.antt =====
-- Additions at the end of the lists of src/containers/xdglist.c.
use libxdg.Base.{
  ℕ, ◌≡◌, ◌≢◌, sym, ap, ◌∙◌, subst, true, false, List, [], ◌∷◌, ◌++◌, ◌==◌, All, arith,
}
use libxdg.Containers.Links.{Store, set, apped}
use libxdg.Containers.Links.Chain.{
  last, IsDistinct, Holds, set_same, set_other, All-map, only_item-Holds, onto_tail, last-append,
  Links-join, Links-redirect, last-All,
}

apped-onto_tail :
    (s : Store) (l value t : ℕ)
    → s.head l ≢ 0
    → s.tail l ≡ t
    → apped s l value ≡ onto_tail s l value t
unfolding apped
apped-onto_tail s l value t h e =
    let test : (s.head l == 0) ≡ false = ground arith in
    rw (test, apped) (ap (onto_tail s l value) e)

All-snoc : (P : ℕ → Type 0) (xs : List ℕ) (y : ℕ) → All P xs → P y → All P (xs ++ (y ∷ []))
All-snoc P [] y a p = (p, tt)
All-snoc P (x ∷ xs) y a p = (a.0, All-snoc P xs y a.1 p)

IsDistinct-snoc :
    (xs : List ℕ) (v : ℕ) → All (λ x. x ≢ v) xs → IsDistinct xs → IsDistinct (xs ++ (v ∷ []))
IsDistinct-snoc [] v a d = (tt, tt)
IsDistinct-snoc (x ∷ xs) v a d =
    (All-snoc (λ y. y ≢ x) xs v d.0 (λ e. a.0 (sym e)), IsDistinct-snoc xs v a.1 d.1)

onto_tail-Holds :
    (s : Store) (l value y : ℕ) (ys : List ℕ)
    → Holds s l (y ∷ ys)
    → value ≢ 0
    → All (λ x. x ≢ value) (y ∷ ys)
    → Holds (onto_tail s l value (last y ys)) l ((y ∷ ys) ++ (value ∷ []))
onto_tail-Holds s l value y ys (k, h, t, d) v a =
    let end = last y ys in
    let apart : end ≢ value = last-All (λ x. x ≢ value) y ys a in
    (
      Links-join (onto_tail s l value end) l 0 (y ∷ ys) (value ∷ []) 0
          (Links-redirect s (onto_tail s l value end) l 0 (y ∷ ys) 0 value
            (All-map (λ x. x ≢ value) _ (y ∷ ys)
              (λ x p. (set_other s.list value l x p, set_other s.prev value end x p)) a)
            (All-map (λ x. x ≢ value) _ (y ∷ ys)
              (λ x p q. set_other (set s.next value 0) end value x q ∙ set_other s.next value 0 x p)
              a)
            (set_same (set s.next value 0) end value) d k)
          (
            (
              v,
              set_same s.list value l,
              set_same s.prev value end,
              set_other (set s.next value 0) end value value (λ e. apart (sym e))
                  ∙ set_same s.next value 0,
            ),
            tt,
          ),
      h,
      set_same s.tail l value ∙ sym (last-append y ys (value ∷ [])),
      IsDistinct-snoc (y ∷ ys) value a d,
    )

-- Appending a new item to a list puts it behind the others.
pub apped-Holds :
    (s : Store) (l value : ℕ) (xs : List ℕ)
    → Holds s l xs
    → value ≢ 0
    → All (λ x. x ≢ value) xs
    → Holds (apped s l value) l (xs ++ (value ∷ []))
unfolding apped
apped-Holds s l value [] (k, h, t, d) v a =
    let test : (s.head l == 0) ≡ true = ground arith in
    rw (test, apped) (only_item-Holds s l value v)
apped-Holds s l value (y ∷ ys) held v a =
    subst (λ x. Holds x l ((y ∷ ys) ++ (value ∷ [])))
      (sym (apped-onto_tail s l value (last y ys) (λ e. held.0.0.0 (sym held.1 ∙ e)) held.2))
      (onto_tail-Holds s l value y ys held v a)
