-- ===== src/Containers/Links/Chain.antt =====
-- What it means that the store of src/containers/xdglist.c holds a list, and the additions to it.
use libxdg.Base.{
  ℕ, ◌≡◌, ◌≢◌, refl, sym, ap, ◌∙◌, subst, true, false, List, [], ◌∷◌, ◌++◌, ◌==◌, All, arith,
}
use libxdg.Containers.Links.{Store, set, only_item, prepend}

-- The first address, or the one that follows; the last one, or the one before.
abbrev pub first : List ℕ → ℕ → ℕ
first [] n = n
first (x ∷ xs) n = x

abbrev pub last : ℕ → List ℕ → ℕ
last p [] = p
last p (x ∷ xs) = last x xs

-- Items of a list that are linked both ways, from the item before them to the one behind them.
abbrev pub Links : Store → ℕ → ℕ → List ℕ → ℕ → Type 0
Links s l p [] n = Unit
Links s l p (x ∷ xs) n =
    ((x ≢ 0) × (s.list x ≡ l) × (s.prev x ≡ p) × (s.next x ≡ first xs n)) × Links s l x xs n

abbrev pub IsDistinct : List ℕ → Type 0
IsDistinct [] = Unit
IsDistinct (x ∷ xs) = All (λ y. y ≢ x) xs × IsDistinct xs

-- The store holds these items as the list.
abbrev pub Holds : Store → ℕ → List ℕ → Type 0
Holds s l xs = Links s l 0 xs 0 × (s.head l ≡ first xs 0) × (s.tail l ≡ last 0 xs) × IsDistinct xs

pub set_same : (field : ℕ → ℕ) (at v : ℕ) → set field at v at ≡ v
unfolding set
set_same field at v = ground arith

pub set_other : (field : ℕ → ℕ) (at v a : ℕ) → a ≢ at → set field at v a ≡ field a
unfolding set
set_other field at v a h = ground arith

-- Two stores have the same fields at an address.
abbrev pub Agree : Store → Store → ℕ → Type 0
Agree s s' x = (s'.list x ≡ s.list x) × (s'.prev x ≡ s.prev x) × (s'.next x ≡ s.next x)

pub Links-Agree :
    (s s' : Store) (l p : ℕ) (xs : List ℕ) (n : ℕ)
    → All (Agree s s') xs
    → Links s l p xs n
    → Links s' l p xs n
Links-Agree s s' l p [] n a k = tt
Links-Agree s s' l p (x ∷ xs) n (a, more) ((z, e, f, g), k) =
    ((z, a.0 ∙ e, a.1 ∙ f, a.2 ∙ g), Links-Agree s s' l x xs n more k)

pub All-map : (P Q : ℕ → Type 0) (xs : List ℕ) → ((x : ℕ) → P x → Q x) → All P xs → All Q xs
All-map P Q [] h a = tt
All-map P Q (x ∷ xs) h (p, a) = (h x p, All-map P Q xs h a)

pub All-both : (P Q : ℕ → Type 0) (xs : List ℕ) → All P xs → All Q xs → All (λ x. P x × Q x) xs
All-both P Q [] a b = tt
All-both P Q (x ∷ xs) (p, a) (q, b) = ((p, q), All-both P Q xs a b)

-- What the additions write where the list is not empty, with the head or the tail that they find.
abbrev onto_head : Store → ℕ → ℕ → ℕ → Store
onto_head s l value y = record s {
  list = set s.list value l;
  prev = set (set s.prev value 0) y value;
  next = set s.next value y;
  head = set s.head l value;
}

abbrev pub onto_tail : Store → ℕ → ℕ → ℕ → Store
onto_tail s l value y = record s {
  list = set s.list value l;
  prev = set s.prev value y;
  next = set (set s.next value 0) y value;
  tail = set s.tail l value;
}

prepend-onto_head :
    (s : Store) (l value y : ℕ) → s.head l ≡ y → y ≢ 0 → prepend s l value ≡ onto_head s l value y
unfolding prepend
prepend-onto_head s l value y e h =
    let test : (s.head l == 0) ≡ false = ground arith in
    rw (test, prepend) (ap (onto_head s l value) e)

pub only_item-Holds :
    (s : Store) (l value : ℕ) → value ≢ 0 → Holds (only_item s l value) l (value ∷ [])
only_item-Holds s l value v = (
  ((v, set_same s.list value l, set_same s.prev value 0, set_same s.next value 0), tt),
  set_same s.head l value,
  set_same s.tail l value,
  (tt, tt),
)

onto_head-Holds :
    (s : Store) (l value y : ℕ) (ys : List ℕ)
    → Holds s l (y ∷ ys)
    → value ≢ 0
    → All (λ x. x ≢ value) (y ∷ ys)
    → Holds (onto_head s l value y) l (value ∷ y ∷ ys)
onto_head-Holds s l value y ys (((z, e, f, g), k), h, t, d) v (a, more) = (
  (
    (
      v,
      set_same s.list value l,
      set_other (set s.prev value 0) y value value (λ x. a (sym x)) ∙ set_same s.prev value 0,
      set_same s.next value y,
    ),
    (
      (
        z,
        set_other s.list value l y a ∙ e,
        set_same (set s.prev value 0) y value,
        set_other s.next value y y a ∙ g,
      ),
      Links-Agree s (onto_head s l value y) l y ys 0
          (All-map (λ x. (x ≢ value) × (x ≢ y)) (Agree s (onto_head s l value y)) ys
            (λ x (p, q). (
              set_other s.list value l x p,
              set_other (set s.prev value 0) y value x q ∙ set_other s.prev value 0 x p,
              set_other s.next value y x p,
            ))
            (All-both (λ x. x ≢ value) (λ x. x ≢ y) ys more d.0))
          k,
    ),
  ),
  set_same s.head l value,
  t,
  ((a, more), d),
)

-- Prepending a new item to a list puts it in front.
pub prepend-Holds :
    (s : Store) (l value : ℕ) (xs : List ℕ)
    → Holds s l xs
    → value ≢ 0
    → All (λ x. x ≢ value) xs
    → Holds (prepend s l value) l (value ∷ xs)
unfolding prepend
prepend-Holds s l value [] (k, h, t, d) v a =
    let test : (s.head l == 0) ≡ true = ground arith in
    rw (test, prepend) (only_item-Holds s l value v)
prepend-Holds s l value (y ∷ ys) held v a =
    subst (λ x. Holds x l (value ∷ y ∷ ys)) (sym (prepend-onto_head s l value y held.1 held.0.0.0))
      (onto_head-Holds s l value y ys held v a)

pub first-append : (xs ys : List ℕ) (n : ℕ) → first (xs ++ ys) n ≡ first xs (first ys n)
first-append [] ys n = refl
first-append (x ∷ xs) ys n = refl

pub last-append : (p : ℕ) (xs ys : List ℕ) → last p (xs ++ ys) ≡ last (last p xs) ys
last-append p [] ys = refl
last-append p (x ∷ xs) ys = last-append x xs ys

pub Links-join :
    (s : Store) (l p : ℕ) (xs ys : List ℕ) (n : ℕ)
    → Links s l p xs (first ys n)
    → Links s l (last p xs) ys n
    → Links s l p (xs ++ ys) n
Links-join s l p [] ys n a b = b
Links-join s l p (x ∷ xs) ys n ((z, e, f, g), k) b =
    ((z, e, f, g ∙ sym (first-append xs ys n)), Links-join s l x xs ys n k b)

pub Links-split :
    (s : Store) (l p : ℕ) (xs ys : List ℕ) (n : ℕ)
    → Links s l p (xs ++ ys) n
    → Links s l p xs (first ys n) × Links s l (last p xs) ys n
Links-split s l p [] ys n k = (tt, k)
Links-split s l p (x ∷ xs) ys n ((z, e, f, g), k) =
    let (a, b) = Links-split s l x xs ys n k in (((z, e, f, g ∙ first-append xs ys n), a), b)

pub last-All : (P : ℕ → Type 0) (x : ℕ) (xs : List ℕ) → All P (x ∷ xs) → P (last x xs)
last-All P x [] a = a.0
last-All P x (y ∷ ys) a = last-All P y ys a.1

-- What agrees but for the link from the last item to what is behind.
pub Links-redirect :
    (s s' : Store) (l p : ℕ) (xs : List ℕ) (n m : ℕ)
    → All (λ x. (s'.list x ≡ s.list x) × (s'.prev x ≡ s.prev x)) xs
    → All (λ x. x ≢ last p xs → s'.next x ≡ s.next x) xs
    → s'.next (last p xs) ≡ m
    → IsDistinct xs
    → Links s l p xs n
    → Links s' l p xs m
Links-redirect s s' l p [] n m a other here d k = tt
Links-redirect s s' l p (x ∷ []) n m ((a, b), more) other here d ((z, e, f, g), k) =
    ((z, a ∙ e, b ∙ f, here), tt)
Links-redirect s s' l p (x ∷ y ∷ ys) n m ((a, b), more) other here d ((z, e, f, g), k) = (
  (z, a ∙ e, b ∙ f, other.0 (λ h. last-All (λ w. w ≢ x) y ys d.0 (sym h)) ∙ g),
  Links-redirect s s' l x (y ∷ ys) n m more other.1 here d.1 k,
)
