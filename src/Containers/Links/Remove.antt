-- ===== src/Containers/Links/Remove.antt =====
-- The removal from the lists of src/containers/xdglist.c.
use libxdg.Base.{ℕ, ◌≡◌, ◌≢◌, refl, sym, ◌∙◌, subst, false, List, [], ◌∷◌, ◌++◌, ◌==◌, All, arith}
use libxdg.Containers.Links.{Store, set, unlink_before, unlink_behind, remove}
use libxdg.Containers.Links.Chain.{
  first, last, Links, IsDistinct, Holds, set_same, set_other, Agree, All-map, Links-Agree,
  first-append, last-append, Links-join, Links-split, Links-redirect, last-All,
}

-- No item of the one list is in the other.
abbrev AreApart : List ℕ → List ℕ → Type 0
AreApart xs ys = All (λ x. All (λ y. y ≢ x) ys) xs

All-append : (P : ℕ → Type 0) (xs ys : List ℕ) → All P (xs ++ ys) → All P xs × All P ys
All-append P [] ys a = (tt, a)
All-append P (x ∷ xs) ys (p, a) = let (b, c) = All-append P xs ys a in ((p, b), c)

All-join : (P : ℕ → Type 0) (xs ys : List ℕ) → All P xs → All P ys → All P (xs ++ ys)
All-join P [] ys a b = b
All-join P (x ∷ xs) ys (p, a) b = (p, All-join P xs ys a b)

IsDistinct-split :
    (xs ys : List ℕ) → IsDistinct (xs ++ ys) → IsDistinct xs × IsDistinct ys × AreApart xs ys
IsDistinct-split [] ys d = (tt, d, tt)
IsDistinct-split (x ∷ xs) ys (a, d) =
    let (dx, dy, apart) = IsDistinct-split xs ys d in
    let (ax, ay) = All-append (λ y. y ≢ x) xs ys a in ((ax, dx), dy, (ay, apart))

IsDistinct-join :
    (xs ys : List ℕ) → IsDistinct xs → IsDistinct ys → AreApart xs ys → IsDistinct (xs ++ ys)
IsDistinct-join [] ys dx dy apart = dy
IsDistinct-join (x ∷ xs) ys (a, dx) dy (ay, apart) =
    (All-join (λ y. y ≢ x) xs ys a ay, IsDistinct-join xs ys dx dy apart)

always : (P : ℕ → Type 0) (xs : List ℕ) → ((x : ℕ) → P x) → All P xs
always P [] h = tt
always P (x ∷ xs) h = (h x, always P xs h)

Links-present : (s : Store) (l p : ℕ) (xs : List ℕ) (n : ℕ) → Links s l p xs n → All (λ x. x ≢ 0) xs
Links-present s l p [] n k = tt
Links-present s l p (x ∷ xs) n (here, k) = (here.0, Links-present s l x xs n k)

unlink_before-next :
    (s : Store) (l p n : ℕ) → p ≢ 0 → unlink_before s l p n ≡ record s { next = set s.next p n }
unlink_before-next s l p n h = let test : (p == 0) ≡ false = ground arith in rw test refl

unlink_behind-prev :
    (s : Store) (l p n : ℕ) → n ≢ 0 → unlink_behind s l p n ≡ record s { prev = set s.prev n p }
unlink_behind-prev s l p n h = let test : (n == 0) ≡ false = ground arith in rw test refl

-- After the links in front of the item are set, it is still before the items behind it.
abbrev IsHalf : Store → ℕ → ℕ → List ℕ → List ℕ → Store → Type 0
IsHalf s l item xs ys t =
    Links t l 0 xs (first ys 0)
    × Links t l item ys 0
    × (t.head l ≡ first (xs ++ ys) 0)
    × (t.tail l ≡ s.tail l)

unlink_before-IsHalf :
    (s : Store) (l item : ℕ) (xs ys : List ℕ)
    → Links s l 0 xs item
    → Links s l item ys 0
    → IsDistinct xs
    → AreApart xs ys
    → s.head l ≡ first xs item
    → IsHalf s l item xs ys (unlink_before s l (last 0 xs) (first ys 0))
unlink_before-IsHalf s l item [] ys k later d apart h = (
  tt,
  Links-Agree s (record s { head = set s.head l (first ys 0) }) l item ys 0
      (always (Agree s (record s { head = set s.head l (first ys 0) })) ys
        (λ x. (refl, refl, refl)))
      later,
  set_same s.head l (first ys 0),
  refl,
)
unlink_before-IsHalf s l item (x ∷ xs) ys k later d apart h =
    let end = last x xs in
    let n = first ys 0 in
    let t : Store = record s { next = set s.next end n } in
    let there : end ≢ 0 = last-All (λ y. y ≢ 0) x xs (Links-present s l 0 (x ∷ xs) item k) in
    subst (IsHalf s l item (x ∷ xs) ys) (sym (unlink_before-next s l end n there)) (
      Links-redirect s t l 0 (x ∷ xs) item n
          (always (λ y. (t.list y ≡ s.list y) × (t.prev y ≡ s.prev y)) (x ∷ xs) (λ y. (refl, refl)))
          (always (λ y. y ≢ end → t.next y ≡ s.next y) (x ∷ xs) (λ y q. set_other s.next end n y q))
          (set_same s.next end n) d k,
      Links-Agree s t l item ys 0
          (All-map (λ y. y ≢ end) (Agree s t) ys (λ y q. (refl, refl, set_other s.next end n y q))
            (last-All (λ z. All (λ y. y ≢ z) ys) x xs apart))
          later,
      h,
      refl,
    )

-- The items on both sides, linked to each other.
abbrev IsWhole : ℕ → List ℕ → List ℕ → Store → Type 0
IsWhole l xs ys t =
    Links t l 0 xs (first ys 0)
    × Links t l (last 0 xs) ys 0
    × (t.head l ≡ first (xs ++ ys) 0)
    × (t.tail l ≡ last (last 0 xs) ys)

unlink_behind-IsWhole :
    (s t : Store) (l item : ℕ) (xs ys : List ℕ)
    → IsHalf s l item xs ys t
    → IsDistinct ys
    → AreApart xs ys
    → s.tail l ≡ last item ys
    → IsWhole l xs ys (unlink_behind t l (last 0 xs) (first ys 0))
unlink_behind-IsWhole s t l item xs [] (k, later, h, e) d apart last_one =
    let u : Store = record t { tail = set t.tail l (last 0 xs) } in
    (
      Links-Agree t u l 0 xs 0 (always (Agree t u) xs (λ x. (refl, refl, refl))) k,
      tt,
      h,
      set_same t.tail l (last 0 xs),
    )
unlink_behind-IsWhole s t l item xs (y ∷ ys) (k, ((z, a, b, c), later), h, e) d apart last_one =
    let p = last 0 xs in
    let u : Store = record t { prev = set t.prev y p } in
    subst (IsWhole l xs (y ∷ ys)) (sym (unlink_behind-prev t l p y z)) (
      Links-Agree t u l 0 xs y
          (All-map (λ x. All (λ w. w ≢ x) (y ∷ ys)) (Agree t u) xs
            (λ x q. (refl, set_other t.prev y p x (λ r. q.0 (sym r)), refl)) apart)
          k,
      (
        (z, a, set_same t.prev y p, c),
        Links-Agree t u l y ys 0
            (All-map (λ x. x ≢ y) (Agree t u) ys (λ x q. (refl, set_other t.prev y p x q, refl))
              d.0)
            later,
      ),
      h,
      e ∙ last_one,
    )

remove-unlinks :
    (s : Store) (item l p n : ℕ)
    → s.list item ≡ l
    → s.prev item ≡ p
    → s.next item ≡ n
    → remove s item ≡ (unlink_behind (unlink_before s l p n) l p n, n)
unfolding remove
remove-unlinks s item l p n e f g = rw (e, f, g) refl

-- Removing an item of a list leaves the items before and behind it, in their order, and returns the
-- one behind it or NULL.
pub remove-Holds :
    (s : Store) (l item : ℕ) (xs ys : List ℕ)
    → Holds s l (xs ++ (item ∷ ys))
    → Holds (remove s item).0 l (xs ++ ys) × ((remove s item).1 ≡ first ys 0)
remove-Holds s l item xs ys (k, h, t, d) =
    let (front, ((z, e, f, g), back)) = Links-split s l 0 xs (item ∷ ys) 0 k in
    let (dx, dy, apart) = IsDistinct-split xs (item ∷ ys) d in
    let beyond : AreApart xs ys =
      All-map (λ x. All (λ y. y ≢ x) (item ∷ ys)) (λ x. All (λ y. y ≢ x) ys) xs (λ x q. q.1)
        apart in
    let n = first ys 0 in
    let p = last 0 xs in
    let half =
      unlink_before-IsHalf s l item xs ys front back dx beyond
        (h ∙ first-append xs (item ∷ ys) 0) in
    let (a, b, c, m) =
      unlink_behind-IsWhole s (unlink_before s l p n) l item xs ys half dy.1 beyond
        (t ∙ last-append 0 xs (item ∷ ys)) in
    subst (λ r. Holds r.0 l (xs ++ ys) × (r.1 ≡ n)) (sym (remove-unlinks s item l p n e f g))
      (
        (
          Links-join (unlink_behind (unlink_before s l p n) l p n) l 0 xs ys 0 a b,
          c,
          m ∙ sym (last-append 0 xs ys),
          IsDistinct-join xs ys dx dy.1 beyond,
        ),
        refl,
      )
