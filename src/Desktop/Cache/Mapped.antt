-- ===== src/Desktop/Cache/Mapped.antt =====
-- The lists that src/desktop/xdgappcache.c maps from what it wrote.
use libxdg.Base.{
  ℕ, zero, suc, ◌+◌, ◌<◌, ◌≡◌, ◌≢◌, refl, sym, ap, ◌∙◌, Bool, true, false, some, List, [], ◌∷◌,
  ◌++◌, ◌==◌, All, arith, length, map, ne→==_false,
}
use libxdg.Base.Faults.{◌>>=◌}
use libxdg.Containers.Links.{Store, set}
use libxdg.Containers.Links.Chain.{
  first, last, Links, IsDistinct, Holds, Agree, set_same, set_other,
}
use libxdg.Desktop.Cache.{
  MappedCell, list_cell, item_cell, write_items, write_list, map_item, map_list, link_item,
  read_items, read_list,
}

take_false {ℓ} :
    {B : Type ℓ} (b : Bool) (x y : B) {z : B}
    → b ≡ false
    → y ≡ z
    → elim b [ true ↦ x | false ↦ y ] ≡ z
take_false true x y e h = absurd (ground arith)
take_false false x y e h = h

-- Addresses one after the other.
abbrev pub places : ℕ → ℕ → List ℕ
places a zero = []
places a (suc n) = a ∷ places (suc a) n

places-later : (a b n : ℕ) → a < b → All (λ y. y ≢ a) (places b n)
places-later a b zero h = tt
places-later a b (suc n) h =
    ((λ o. absurd (omega (arith, o))), places-later a (suc b) n (omega arith))

places-IsDistinct : (a n : ℕ) → IsDistinct (places a n)
places-IsDistinct a zero = tt
places-IsDistinct a (suc n) = (places-later a (suc a) n (omega arith), places-IsDistinct (suc a) n)

module _ {ℓ} {A : Type ℓ} where
  -- Items as they are written.
  abbrev items_of : Store → (ℕ → A) → List ℕ → List (MappedCell A)
  items_of s content [] = []
  items_of s content (x ∷ xs) = item_cell (s.prev x) (s.next x) (content x) ∷ items_of s content xs

  write_items_step :
      (s : Store) (content : ℕ → A) (f x n : ℕ) {cells : List (MappedCell A)}
      → x ≢ 0
      → s.next x ≡ n
      → write_items f s content n ≡ some cells
      → write_items (suc f) s content x ≡ some (item_cell (s.prev x) (s.next x) (content x) ∷ cells)
  unfolding write_items
  write_items_step s content f x n z e h = take_false (x == 0) _ _ (ne→==_false x 0 z) (
      ap (λ o. o >>= λ cells. some (item_cell (s.prev x) (s.next x) (content x) ∷ cells))
        (ap (write_items f s content) e ∙ h))

  write_items-Links :
      (s : Store) (content : ℕ → A) (l p : ℕ) (xs : List ℕ) (f : ℕ)
      → Links s l p xs 0
      → length xs < f
      → write_items f s content (first xs 0) ≡ some (items_of s content xs)
  unfolding write_items
  write_items-Links s content l p [] (suc f) k h = refl
  write_items-Links s content l p xs zero k h = absurd (omega arith)
  write_items-Links s content l p (x ∷ xs) (suc f) ((z, e, g, n), k) h =
      write_items_step s content f x (first xs 0) z n
        (write_items-Links s content l x xs f k (omega arith))

  read_items_end :
      (s : Store) (l p n : ℕ) (memory : List (MappedCell A))
      → n ≡ 0
      → read_items s l p n memory ≡ some (record s { tail = set s.tail l p }, suc p, memory)
  unfolding read_items
  read_items_end s l p n [] e = rw e refl
  read_items_end s l p n (list_cell h t ∷ memory) e = rw e refl
  read_items_end s l p n (item_cell b m x ∷ memory) e = rw e refl

  -- What the reading of items from one on comes to: the items stand one after the other behind it, linked
  -- both ways, and nothing before it has changed but its own link.
  record Reads (s : Store) (l p n : ℕ) (k : ℕ) (memory rest : List (MappedCell A)) : Type ℓ where
    store : Store
    place : ℕ
    reads : read_items s l p n memory ≡ some (store, place, rest)
    place_is : place ≡ suc (p + k)
    links : Links store l p (places (suc p) k) 0
    next_is : store.next p ≡ first (places (suc p) k) 0
    before : (x : ℕ) → x < p → Agree s store x
    list_kept : store.list p ≡ s.list p
    prev_kept : store.prev p ≡ s.prev p
    head_kept : store.head l ≡ s.head l
    tail_is : store.tail l ≡ last p (places (suc p) k)

  read_items-Reads :
      (s₀ : Store) (content : ℕ → A) (l₀ q : ℕ) (xs : List ℕ) (s : Store) (l p n : ℕ)
      (rest : List (MappedCell A))
      → Links s₀ l₀ q xs 0
      → n ≡ first xs 0
      → s.next p ≡ first xs 0
      → Reads s l p n (length xs) (items_of s₀ content xs ++ rest) rest
  unfolding read_items
  read_items-Reads s₀ content l₀ q [] s l p n rest links e h = record {
    store = record s { tail = set s.tail l p };
    place = suc p;
    reads = read_items_end s l p n rest e;
    place_is = omega arith;
    links = tt;
    next_is = h;
    before = λ x a. (refl, refl, refl);
    list_kept = refl;
    prev_kept = refl;
    head_kept = refl;
    tail_is = set_same s.tail l p;
  }
  read_items-Reads s₀ content l₀ q (x ∷ xs) s l p n rest ((z, e, g, m), links) e' h =
      let s₁ = link_item (map_item s (suc p) (s₀.prev x) (s₀.next x)) l p (suc p) in
      let r =
        read_items-Reads s₀ content l₀ x xs s₁ l (suc p) (s₀.next x) rest links m
          (set_other _ p (suc p) (suc p) (omega arith) ∙ set_same s.next (suc p) (s₀.next x) ∙ m) in
      record {
        store = r.store;
        place = r.place;
        reads = take_false (n == 0) _ _ (ne→==_false n 0 (λ o. z (sym e' ∙ o))) r.reads;
        place_is = omega (arith, r.place_is);
        links = (
          (
            (λ o. absurd (omega (arith, o))),
            r.list_kept ∙ set_same s.list (suc p) l,
            r.prev_kept ∙ set_same _ (suc p) p,
            r.next_is,
          ),
          r.links,
        );
        next_is = (r.before p (omega arith)).2 ∙ set_same _ p (suc p);
        before = λ y a. (
          (r.before y (omega arith)).0 ∙ set_other s.list (suc p) l y (omega arith),
          (r.before y (omega arith)).1
              ∙ set_other _ (suc p) p y (omega arith)
              ∙ set_other s.prev (suc p) (s₀.prev x) y (omega arith),
          (r.before y (omega arith)).2
              ∙ set_other _ p (suc p) y (omega arith)
              ∙ set_other s.next (suc p) (s₀.next x) y (omega arith),
        );
        list_kept = (r.before p (omega arith)).0 ∙ set_other s.list (suc p) l p (omega arith);
        prev_kept =
            (r.before p (omega arith)).1
            ∙ set_other _ (suc p) p p (omega arith)
            ∙ set_other s.prev (suc p) (s₀.prev x) p (omega arith);
        head_kept = r.head_kept;
        tail_is = r.tail_is;
      }

  -- What the items hold.
  abbrev pub contents_of : List (MappedCell A) → List A
  contents_of [] = []
  contents_of (list_cell h t ∷ cells) = contents_of cells
  contents_of (item_cell b m x ∷ cells) = x ∷ contents_of cells

  contents_of-items_of :
      (s : Store) (content : ℕ → A) (xs : List ℕ)
      → contents_of (items_of s content xs) ≡ map content xs
  contents_of-items_of s content [] = refl
  contents_of-items_of s content (x ∷ xs) = ap (◌∷◌ (content x)) (contents_of-items_of s content xs)

  -- The list at an address, with items one after the other behind it.
  abbrev pub IsMapped : Store → ℕ → ℕ → List (MappedCell A) → List (MappedCell A) → Type ℓ
  IsMapped m a n memory rest =
      (s : Store) × (place : ℕ) × (read_list m a memory ≡ some (s, place, rest))
      × (place ≡ suc (a + n))
      × Holds s a (places (suc a) n)

  read_list-items :
      (m : Store) (a : ℕ) (s : Store) (content : ℕ → A) (l : ℕ) (xs : List ℕ)
      (rest : List (MappedCell A))
      → Holds s l xs
      → IsMapped m a
          (length xs)
          (list_cell (s.head l) (s.tail l) ∷ (items_of s content xs ++ rest))
          rest
  unfolding read_list
  read_list-items m a s content l [] rest (links, head, tail, distinct) = (
    map_list m a (s.head l) (s.tail l),
    suc a,
    rw head refl,
    omega arith,
    (tt, set_same m.head a (s.head l) ∙ head, set_same m.tail a (s.tail l) ∙ tail, tt),
  )
  read_list-items m a s content l (x ∷ xs) rest (((z, e, g, n), links), head, tail, distinct) =
      let s₀ = map_list m a (s.head l) (s.tail l) in
      let s₁ = map_item s₀ (suc a) (s.prev x) (s.next x) in
      let s₂ : Store = record s₁ { head = set s₀.head a (suc a); list = set s₀.list (suc a) a } in
      let r =
        read_items-Reads s content l x xs s₂ a (suc a) (s.next x) rest links n
          (set_same s₀.next (suc a) (s.next x) ∙ n) in
      (
        r.store,
        r.place,
        take_false (s.head l == 0) _ _ (ne→==_false (s.head l) 0 (λ o. z (sym head ∙ o))) r.reads,
        omega (arith, r.place_is),
        (
          (
            (
              (λ o. absurd (omega (arith, o))),
              r.list_kept ∙ set_same s₀.list (suc a) a,
              r.prev_kept ∙ set_same s₀.prev (suc a) (s.prev x) ∙ g,
              r.next_is,
            ),
            r.links,
          ),
          r.head_kept ∙ set_same s₀.head a (suc a),
          r.tail_is,
          places-IsDistinct (suc a) (suc (length xs)),
        ),
      )

  -- A list that the store holds is written without a fault, with what its items hold in their order;
  -- and from what was written, with any memory behind it, a list is mapped at any address, whose items
  -- follow it one after the other, linked both ways, and nothing of the memory behind is read.
  pub read_list-write_list :
      (s : Store) (content : ℕ → A) (l : ℕ) (xs : List ℕ) (f : ℕ) (m : Store) (a : ℕ)
      (rest : List (MappedCell A))
      → Holds s l xs
      → length xs < f
      → (cells : List (MappedCell A)) × (write_list f s content l ≡ some cells)
        × (contents_of cells ≡ map content xs)
        × IsMapped m a (length xs) (cells ++ rest) rest
  unfolding write_list
  read_list-write_list s content l xs f m a rest h k = (
    list_cell (s.head l) (s.tail l) ∷ items_of s content xs,
    ap (λ o. o >>= λ cells. some (list_cell (s.head l) (s.tail l) ∷ cells))
        (ap (write_items f s content) h.1 ∙ write_items-Links s content l 0 xs f h.0 k),
    contents_of-items_of s content xs,
    read_list-items m a s content l xs rest h,
  )
