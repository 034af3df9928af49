-- ===== src/Mime/Glob/Tree/Entries.antt =====
-- `_xdg_glob_hash_insert_ucs4` of src/mime/xdgmimeglob.c on an ordered tree: the entries before and
-- after it.
use libxdg.Base.{
  ℕ, ◌≡◌, ◌≢◌, refl, sym, ap, ap₂, subst, ◌||◌, inl, inr, Option, none, some, List, [], ◌∷◌, ◌++◌,
  ◌==◌, arith, All, Bool-cases, ==_iff, ==_false→ne, ==-ne,
}
use libxdg.Base.Text.{Bytes, str_eq}
use libxdg.Mime.Glob.Tree.{GlobEntry, Label, HashNode, insert_ucs4}
use libxdg.Mime.Glob.Tree.Stored.{
  find, child_of, label_in, labelled, zero_entries, stored, has_type, add_entry,
}
use libxdg.Mime.Glob.Tree.Insert.{
  grown, new_child, new_label, store, IsKey, IsKey-All, find-fits, zero_entries-FirstNotZero,
  zero_entries-put, store-IsTree, insert_ucs4-store,
}
use libxdg.Mime.Glob.Tree.Ordered.{FirstNotZero, IsTree, put, find-put_self, find-put_ne}

entries-new :
    (e : GlobEntry) (l : Label) (child : HashNode)
    → (l.mime_type ≡ none → FirstNotZero child)
    → labelled (new_label e l) ++ zero_entries (new_child e l child)
      ≡ add_entry e (labelled l ++ zero_entries child)
entries-new e l child h = ground (arith, zero_entries-FirstNotZero child)

stored-store_self :
    (text : List ℕ) (e : GlobEntry) (n : HashNode)
    → IsKey text
    → IsTree n
    → stored (store text e n) text ≡ add_entry e (stored n text)
stored-store_self [] e n k t = absurd k
stored-store_self (c ∷ []) e n k t =
    let l = label_in (find c n) in
    let child = child_of (find c n) in
    rw (find-put_self c (new_label e l) (new_child e l child) n)
      (entries-new e l child (find-fits c n k.0 t).0.1)
stored-store_self (c ∷ d ∷ text) e n k t =
    let l = label_in (find c n) in
    let child = child_of (find c n) in
    rw (find-put_self c l (store (d ∷ text) e child) n)
      (stored-store_self (d ∷ text) e child k.1 (find-fits c n k.0 t).1)

-- The children of a new node with character 0 are found behind it.
find-grown :
    (c : ℕ) (e : GlobEntry) (o : Option Bytes) (child : HashNode)
    → c ≢ 0
    → find c (grown e o child) ≡ find c child
find-grown c e none child z = refl
find-grown c e (some m) child z =
    elim (Bool-cases (str_eq m e.mime_type || has_type e.mime_type (zero_entries child))) [
      | inl h ↦ rw h
      | inr h ↦ rw (h, ==-ne c 0 z)
    ]

stored-grown :
    (key : List ℕ) (e : GlobEntry) (o : Option Bytes) (child : HashNode)
    → All (λ x. x ≢ 0) key
    → stored (grown e o child) key ≡ stored child key
stored-grown [] e o child k = refl
stored-grown (c ∷ []) e o child k = rw (find-grown c e o child k.0)
stored-grown (c ∷ d ∷ key) e o child k = rw (find-grown c e o child k.0)

stored_other_head :
    (b c : ℕ) (l : Label) (child n : HashNode) (key : List ℕ)
    → b ≢ c
    → stored (put c l child n) (b ∷ key) ≡ stored n (b ∷ key)
stored_other_head b c l child n [] h = rw (find-put_ne b c l child n h)
stored_other_head b c l child n (d ∷ key) h = rw (find-put_ne b c l child n h)

zero_entries-store :
    (d : ℕ) (text : List ℕ) (e : GlobEntry) (n : HashNode)
    → d ≢ 0
    → zero_entries (store (d ∷ text) e n) ≡ zero_entries n
zero_entries-store d [] e n z =
    zero_entries-put d (new_label e (label_in (find d n)))
      (new_child e (label_in (find d n)) (child_of (find d n))) n z
zero_entries-store d (x ∷ text) e n z =
    zero_entries-put d (label_in (find d n)) (store (x ∷ text) e (child_of (find d n))) n z

-- Keys that begin alike.
stored-store_head :
    (c : ℕ) (text key : List ℕ) (e : GlobEntry) (n : HashNode)
    → IsKey (c ∷ text)
    → All (λ x. x ≢ 0) key
    → text ≢ key
    → ((m : HashNode) → stored (store text e m) key ≡ stored m key)
    → stored (store (c ∷ text) e n) (c ∷ key) ≡ stored n (c ∷ key)
stored-store_head c [] [] e n k j h ih = absurd (h refl)
stored-store_head c [] (b ∷ key) e n k j h ih =
    let l = label_in (find c n) in
    let child = child_of (find c n) in
    rw (find-put_self c (new_label e l) (new_child e l child) n)
      (stored-grown (b ∷ key) e l.mime_type child j)
stored-store_head c (d ∷ text) [] e n k j h ih =
    let l = label_in (find c n) in
    let child = child_of (find c n) in
    rw (find-put_self c l (store (d ∷ text) e child) n)
      (ap (◌++◌ (labelled l)) (zero_entries-store d text e child k.1.0))
stored-store_head c (d ∷ text) (b ∷ key) e n k j h ih =
    let l = label_in (find c n) in
    let child = child_of (find c n) in
    rw (find-put_self c l (store (d ∷ text) e child) n) (ih child)

stored-store_ne :
    (text key : List ℕ) (e : GlobEntry) (n : HashNode)
    → All (λ x. x ≢ 0) text
    → All (λ x. x ≢ 0) key
    → text ≢ key
    → stored (store text e n) key ≡ stored n key
stored-store_ne [] key e n k j h = refl
stored-store_ne (c ∷ []) [] e n k j h = refl
stored-store_ne (c ∷ d ∷ text) [] e n k j h = refl
stored-store_ne (c ∷ text) (b ∷ key) e n k j h = elim (Bool-cases (b == c)) [
  | inl f ↦
      let bc : b ≡ c = (==_iff b c).0 f in
      subst (λ x. stored (store (c ∷ text) e n) (x ∷ key) ≡ stored n (x ∷ key)) (sym bc)
        (stored-store_head c text key e n k j.1 (λ g. h (ap₂ ◌∷◌ (sym bc) g))
          (λ m. stored-store_ne text key e m k.1 j.1 (λ g. h (ap₂ ◌∷◌ (sym bc) g))))
  | inr f ↦ other_head c b text key e n (==_false→ne b c f)
]
  where
    other_head :
        (c b : ℕ) (text key : List ℕ) (e : GlobEntry) (n : HashNode)
        → b ≢ c
        → stored (store (c ∷ text) e n) (b ∷ key) ≡ stored n (b ∷ key)
    other_head c b [] key e n ne = stored_other_head b c _ _ n key ne
    other_head c b (d ∷ text) key e n ne = stored_other_head b c _ _ n key ne

-- Inserting a text that is not empty and has no 0 into an ordered tree reads nothing out of
-- bounds and gives an ordered tree. Under the text it adds the entry, unless the type is there
-- already; under every other key without 0 the entries are as before.
pub insert_ucs4-stored :
    (text : List ℕ) (e : GlobEntry) (n : HashNode)
    → IsKey text
    → IsTree n
    → (n' : HashNode) × (insert_ucs4 text e n ≡ some n')
      × IsTree n'
      × (stored n' text ≡ add_entry e (stored n text))
      × ((key : List ℕ) → All (λ x. x ≢ 0) key → text ≢ key → stored n' key ≡ stored n key)
insert_ucs4-stored text e n k t = (
  store text e n,
  insert_ucs4-store text e n k t,
  store-IsTree text e n k t,
  stored-store_self text e n k t,
  λ key j h. stored-store_ne text key e n (IsKey-All text k) j h,
)
