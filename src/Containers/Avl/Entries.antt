-- ===== src/Containers/Avl/Entries.antt =====
-- A map as a sorted list of entries, which the trees of src/containers/avltree.c are compared with.
use Prim.Native.Nat.{Ordering}
use libxdg.Base.{
  Ordering-cases, ℕ, ◌≡◌, ◌≢◌, refl, ap, ◌∙◌, subst, ◌⊎◌, inl, inr, Option, none, some, List, [],
  ◌∷◌, ◌++◌, All, arith,
}
use libxdg.Base.Sort.{IsSorted}
use libxdg.Base.Text.{Bytes}
use libxdg.Containers.Avl.{Item, Tree, leaf, node}

abbrev pub flip : Ordering → Ordering
flip Ordering.lt = Ordering.gt
flip Ordering.eq = Ordering.eq
flip Ordering.gt = Ordering.lt

-- What the trees rely on of a `CompareKeys`.
pub record IsOrder (compare_keys : Bytes → Bytes → Ordering) : Type 0 where
  pub flips : (a b : Bytes) → compare_keys b a ≡ flip (compare_keys a b)
  pub eq_of_cmp : (a b : Bytes) → compare_keys a b ≡ Ordering.eq → a ≡ b
  pub lt_trans :
      (a b c : Bytes)
      → compare_keys a b ≡ Ordering.lt
      → compare_keys b c ≡ Ordering.lt
      → compare_keys a c ≡ Ordering.lt

abbrev pub Entry : Type 0
Entry = Bytes × ℕ

abbrev pub entry_of : Item → Entry
entry_of i = (i.key, i.value)

-- The keys and values of a tree from left to right.
abbrev pub entries : Tree → List Entry
entries leaf = []
entries (node i l r) = entries l ++ (entry_of i ∷ entries r)

abbrev pub or_null : Option ℕ → ℕ
or_null none = 0
or_null (some v) = v

module _ (compare_keys : Bytes → Bytes → Ordering) where
  abbrev pub Precedes : Entry → Entry → Type 0
  Precedes x y = compare_keys x.0 y.0 ≡ Ordering.lt

  abbrev pub Before : Bytes → Entry → Type 0
  Before key x = compare_keys x.0 key ≡ Ordering.lt

  abbrev pub find_entry : Bytes → List Entry → Option ℕ
  find_entry key [] = none
  find_entry key (x ∷ xs) = elim (compare_keys x.0 key) [
    | Ordering.lt ↦ find_entry key xs
    | Ordering.eq ↦ some x.1
    | Ordering.gt ↦ find_entry key xs
  ]

  -- An entry with the value NULL for a key that is not there.
  abbrev pub insert_entry : Bytes → List Entry → List Entry
  insert_entry key [] = (key, 0) ∷ []
  insert_entry key (x ∷ xs) = elim (compare_keys x.0 key) [
    | Ordering.lt ↦ x ∷ insert_entry key xs
    | Ordering.eq ↦ x ∷ xs
    | Ordering.gt ↦ (key, 0) ∷ x ∷ xs
  ]

  pub insert_entry-gt :
      (key : Bytes) (xs : List Entry) (x : Entry) (ys : List Entry)
      → compare_keys x.0 key ≡ Ordering.gt
      → insert_entry key (xs ++ (x ∷ ys)) ≡ insert_entry key xs ++ (x ∷ ys)
  insert_entry-gt key [] x ys h = ground arith
  insert_entry-gt key (z ∷ xs) x ys h = ground (arith, insert_entry-gt key xs x ys h)

  pub insert_entry-lt :
      (key : Bytes) (xs : List Entry) (x : Entry) (ys : List Entry)
      → All (Before key) xs
      → compare_keys x.0 key ≡ Ordering.lt
      → insert_entry key (xs ++ (x ∷ ys)) ≡ xs ++ (x ∷ insert_entry key ys)
  insert_entry-lt key [] x ys a h = ground arith
  insert_entry-lt key (z ∷ xs) x ys a h = ground (arith, insert_entry-lt key xs x ys a.1 h, a.0)

  pub insert_entry-eq :
      (key : Bytes) (xs : List Entry) (x : Entry) (ys : List Entry)
      → All (Before key) xs
      → compare_keys x.0 key ≡ Ordering.eq
      → insert_entry key (xs ++ (x ∷ ys)) ≡ xs ++ (x ∷ ys)
  insert_entry-eq key [] x ys a h = ground arith
  insert_entry-eq key (z ∷ xs) x ys a h = ground (arith, insert_entry-eq key xs x ys a.1 h, a.0)

  pub find_entry-lt :
      (key : Bytes) (xs : List Entry) (x : Entry) (ys : List Entry)
      → All (Before key) xs
      → compare_keys x.0 key ≡ Ordering.lt
      → find_entry key (xs ++ (x ∷ ys)) ≡ find_entry key ys
  find_entry-lt key [] x ys a h = ground arith
  find_entry-lt key (z ∷ xs) x ys a h = ground (arith, find_entry-lt key xs x ys a.1 h, a.0)

  pub find_entry-eq :
      (key : Bytes) (xs : List Entry) (x : Entry) (ys : List Entry)
      → All (Before key) xs
      → compare_keys x.0 key ≡ Ordering.eq
      → find_entry key (xs ++ (x ∷ ys)) ≡ some x.1
  find_entry-eq key [] x ys a h = ground arith
  find_entry-eq key (z ∷ xs) x ys a h = ground (arith, find_entry-eq key xs x ys a.1 h, a.0)

  abbrev pub Behind : Bytes → Entry → Type 0
  Behind key x = compare_keys x.0 key ≡ Ordering.gt

  find_entry-Behind :
      (key : Bytes) (xs : List Entry) → All (Behind key) xs → find_entry key xs ≡ none
  find_entry-Behind key [] a = refl
  find_entry-Behind key (x ∷ xs) a = ground (arith, find_entry-Behind key xs a.1, a.0)

  pub find_entry-gt :
      (key : Bytes) (xs ys : List Entry)
      → All (Behind key) ys
      → find_entry key (xs ++ ys) ≡ find_entry key xs
  find_entry-gt key [] ys a = find_entry-Behind key ys a
  find_entry-gt key (z ∷ xs) ys a = ground (arith, find_entry-gt key xs ys a)

  module _ (order : IsOrder compare_keys) where
    cmp_refl : (a : Bytes) → compare_keys a a ≡ Ordering.eq
    cmp_refl a = ground (arith, order.flips a a)

    -- What stands before an entry that is not behind the key stands before the key.
    Before-left :
        (key : Bytes) (x z : Entry)
        → Precedes z x
        → (compare_keys x.0 key ≡ Ordering.lt) ⊎ (compare_keys x.0 key ≡ Ordering.eq)
        → Before key z
    Before-left key x z p (inl e) = order.lt_trans z.0 x.0 key p e
    Before-left key x z p (inr e) =
        subst (λ k. compare_keys z.0 k ≡ Ordering.lt) (order.eq_of_cmp x.0 key e) p

    All-middle :
        (P : Entry → Type 0) (xs : List Entry) (x : Entry) (ys : List Entry)
        → All P (xs ++ (x ∷ ys))
        → P x
    All-middle P [] x ys a = a.0
    All-middle P (z ∷ xs) x ys a = All-middle P xs x ys a.1

    pub All-Before :
        (key : Bytes) (xs : List Entry) (x : Entry) (ys : List Entry)
        → IsSorted Precedes (xs ++ (x ∷ ys))
        → (compare_keys x.0 key ≡ Ordering.lt) ⊎ (compare_keys x.0 key ≡ Ordering.eq)
        → All (Before key) xs
    All-Before key [] x ys s h = tt
    All-Before key (z ∷ xs) x ys s h =
        (Before-left key x z (All-middle (Precedes z) xs x ys s.0) h, All-Before key xs x ys s.1 h)

    All-gt :
        (key : Bytes) (x : Entry) (ys : List Entry)
        → compare_keys x.0 key ≡ Ordering.gt
        → All (Precedes x) ys
        → All (Behind key) ys
    All-gt key x [] h a = tt
    All-gt key x (y ∷ ys) h a = (behind, All-gt key x ys h a.1)
      where
        under : compare_keys key y.0 ≡ Ordering.lt
        under = order.lt_trans key x.0 y.0 (order.flips x.0 key ∙ ap flip h) a.0

        behind : Behind key y
        behind = order.flips key y.0 ∙ ap flip under

    pub All-Behind :
        (key : Bytes) (xs : List Entry) (x : Entry) (ys : List Entry)
        → IsSorted Precedes (xs ++ (x ∷ ys))
        → compare_keys x.0 key ≡ Ordering.gt
        → All (Behind key) (x ∷ ys)
    All-Behind key [] x ys s h = (h, All-gt key x ys h s.0)
    All-Behind key (z ∷ xs) x ys s h = All-Behind key xs x ys s.1 h

    pub IsSorted-left : (xs ys : List Entry) → IsSorted Precedes (xs ++ ys) → IsSorted Precedes xs
    IsSorted-left [] ys s = tt
    IsSorted-left (x ∷ xs) ys s = (left (Precedes x) xs ys s.0, IsSorted-left xs ys s.1)
      where
        left : (P : Entry → Type 0) (xs ys : List Entry) → All P (xs ++ ys) → All P xs
        left P [] ys a = tt
        left P (x ∷ xs) ys a = (a.0, left P xs ys a.1)

    pub IsSorted-right : (xs ys : List Entry) → IsSorted Precedes (xs ++ ys) → IsSorted Precedes ys
    IsSorted-right [] ys s = s
    IsSorted-right (x ∷ xs) ys s = IsSorted-right xs ys s.1

    insert_entry-All :
        (P : Entry → Type 0) (key : Bytes) (xs : List Entry)
        → All P xs
        → P (key, 0)
        → All P (insert_entry key xs)
    insert_entry-All P key [] a p = (p, tt)
    insert_entry-All P key (x ∷ xs) a p = elim (Ordering-cases (compare_keys x.0 key)) [
      | inl e ↦ rw (e, insert_entry) (a.0, insert_entry-All P key xs a.1 p)
      | inr (inl e) ↦ rw (e, insert_entry) a
      | inr (inr e) ↦ rw (e, insert_entry) (p, a)
    ]

    All-trans :
        (x y : Entry) (xs : List Entry) → Precedes x y → All (Precedes y) xs → All (Precedes x) xs
    All-trans x y [] p a = tt
    All-trans x y (z ∷ xs) p a = (order.lt_trans x.0 y.0 z.0 p a.0, All-trans x y xs p a.1)

    pub insert_entry-IsSorted :
        (key : Bytes) (xs : List Entry)
        → IsSorted Precedes xs
        → IsSorted Precedes (insert_entry key xs)
    insert_entry-IsSorted key [] s = (tt, tt)
    insert_entry-IsSorted key (x ∷ xs) s = elim (Ordering-cases (compare_keys x.0 key)) [
      | inl e ↦
          rw (e, insert_entry)
            (insert_entry-All (Precedes x) key xs s.0 e, insert_entry-IsSorted key xs s.1)
      | inr (inl e) ↦ rw (e, insert_entry) s
      | inr (inr e) ↦
          let p : Precedes (key, 0) x = order.flips x.0 key ∙ ap flip e in
          rw (e, insert_entry) ((p, All-trans (key, 0) x xs p s.0), s)
    ]

    pub find_entry-insert_other :
        (key q : Bytes) (xs : List Entry)
        → key ≢ q
        → find_entry q (insert_entry key xs) ≡ find_entry q xs
    find_entry-insert_other key q [] ne = elim (Ordering-cases (compare_keys key q)) [
      | inl e ↦ rw (e, find_entry)
      | inr (inl e) ↦ absurd (ne (order.eq_of_cmp key q e))
      | inr (inr e) ↦ rw (e, find_entry)
    ]
    find_entry-insert_other key q (x ∷ xs) ne =
        ground (arith, find_entry-insert_other key q xs ne, order.eq_of_cmp key q)

    pub find_entry-insert_same :
        (key : Bytes) (xs : List Entry)
        → IsSorted Precedes xs
        → find_entry key (insert_entry key xs) ≡ some (or_null (find_entry key xs))
    find_entry-insert_same key [] s = rw (cmp_refl key, find_entry)
    find_entry-insert_same key (x ∷ xs) s = elim (Ordering-cases (compare_keys x.0 key)) [
      | inl e ↦ ground (arith, find_entry-insert_same key xs s.1)
      | inr (inl e) ↦ ground arith
      | inr (inr e) ↦ ground (arith, cmp_refl key, find_entry-Behind key xs (All-gt key x xs e s.0))
    ]
