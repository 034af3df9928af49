-- ===== src/Mime/Glob/Tree/Insert.antt =====
-- `_xdg_glob_hash_insert_ucs4` of src/mime/xdgmimeglob.c on an ordered tree: the tree it makes.
use libxdg.Base.{
  ℕ, zero, suc, ◌≡◌, ◌≢◌, refl, ◌∙◌, Bool, true, false, ◌||◌, inl, inr, Option, none, some, List,
  [], ◌∷◌, ◌==◌, if◌then◌else◌, arith, All, Bool-cases, ==_iff, ==-ne,
}
use libxdg.Base.Text.{Bytes, str_eq}
use libxdg.Mime.Glob.Tree.{
  GlobEntry, Label, HashNode, nil, node, label_of, has_zero_child, add_zero_child, set_end,
  insert_char, in_child, insert_ucs4,
}
use libxdg.Mime.Glob.Tree.Stored.{find, child_of, label_in, zero_entries, has_type}
use libxdg.Mime.Glob.Tree.Ordered.{
  FirstNotZero, LabelFits, IsTree, put, Above, put-IsTree, insert_char-put,
}

-- The level after the insertion, in one piece.
abbrev pub grown : GlobEntry → Option Bytes → HashNode → HashNode
grown e none child = child
grown e (some m) child =
    if str_eq m e.mime_type || has_type e.mime_type (zero_entries child)
    then child
    else node 0 (label_of e) child nil

abbrev pub new_child : GlobEntry → Label → HashNode → HashNode
new_child e l child = grown e l.mime_type child

abbrev pub new_label : GlobEntry → Label → Label
new_label e l = elim l.mime_type [ none ↦ label_of e | some m ↦ l ]

if-or : (a b : Bool) → (if a then some true else some b) ≡ some (a || b)
if-or true b = refl
if-or false b = refl

has_zero_child-has_type :
    (m : Bytes) (n : HashNode) → IsTree n → has_zero_child m n ≡ some (has_type m (zero_entries n))
unfolding has_zero_child
has_zero_child-has_type m nil t = refl
has_zero_child-has_type m (node c l next child) t = elim (Bool-cases (c == 0)) [
  | inl e ↦
      let (k, f) = t.1.0 ((==_iff c 0).0 e) in
      rw (e, f) (rw (has_zero_child-has_type m next t.2) (if-or (str_eq k m) _))
  | inr e ↦ rw e refl
]

set_end-new :
    (e : GlobEntry) (l : Label) (child : HashNode)
    → IsTree child
    → set_end e l child ≡ some (new_label e l, new_child e l child)
unfolding set_end add_zero_child
set_end-new e l child t = ground (arith, has_zero_child-has_type e.mime_type child t)

Above-zero : (n : HashNode) → Above 0 n
Above-zero nil = tt
Above-zero (node zero l next child) = inr (refl, refl)
Above-zero (node (suc d) l next child) = inl (omega arith)

grown-IsTree :
    (e : GlobEntry) (o : Option Bytes) (child : HashNode) → IsTree child → IsTree (grown e o child)
grown-IsTree e none child t = t
grown-IsTree e (some m) child t =
    elim (Bool-cases (str_eq m e.mime_type || has_type e.mime_type (zero_entries child))) [
      | inl h ↦ rw h t
      | inr h ↦ rw h (Above-zero child, (λ w. (e.mime_type, refl), λ w. tt), t, tt)
    ]

new-LabelFits :
    (c : ℕ) (e : GlobEntry) (l : Label) (child : HashNode)
    → c ≢ 0
    → LabelFits c (new_label e l) child
new-LabelFits c e l child z = (λ w. absurd (z w), λ w. absurd (ground arith))

pub find-fits :
    (c : ℕ) (n : HashNode)
    → c ≢ 0
    → IsTree n
    → LabelFits c (label_in (find c n)) (child_of (find c n)) × IsTree (child_of (find c n))
find-fits c nil z t = ((λ w. absurd (z w), λ w. tt), tt)
find-fits c (node d l next child) z t = elim (Bool-cases (c == d)) [
  | inl e ↦ rw e ((λ w. absurd (z w), t.1.1), t.3)
  | inr e ↦ rw e (find-fits c next z t.2)
]

FirstNotZero-put :
    (c : ℕ) (l : Label) (child n : HashNode)
    → c ≢ 0
    → FirstNotZero n
    → FirstNotZero (put c l child n)
FirstNotZero-put c l child nil z h = omega arith
FirstNotZero-put c l child (node d m next ch) z h = ground arith

pub zero_entries-put :
    (c : ℕ) (l : Label) (child n : HashNode)
    → c ≢ 0
    → zero_entries (put c l child n) ≡ zero_entries n
zero_entries-put c l child nil z = rw (==-ne c 0 z)
zero_entries-put c l child (node d m next ch) z = ground (arith, zero_entries-put c l child next z)

pub zero_entries-FirstNotZero : (n : HashNode) → FirstNotZero n → zero_entries n ≡ []
zero_entries-FirstNotZero nil h = refl
zero_entries-FirstNotZero (node d l next child) h = rw (==-ne d 0 (omega arith))

-- The tree with one entry more.
abbrev pub store : List ℕ → GlobEntry → HashNode → HashNode
store [] e n = n
store (c ∷ []) e n =
    put c (new_label e (label_in (find c n)))
      (new_child e (label_in (find c n)) (child_of (find c n))) n
store (c ∷ d ∷ text) e n = put c (label_in (find c n)) (store (d ∷ text) e (child_of (find c n))) n

-- The text of a pattern as code points: not empty and with no 0 in it.
abbrev pub IsKey : List ℕ → Type 0
IsKey [] = ⊥
IsKey (c ∷ text) = All (λ x. x ≢ 0) (c ∷ text)

pub IsKey-All : (text : List ℕ) → IsKey text → All (λ x. x ≢ 0) text
IsKey-All [] k = absurd k
IsKey-All (c ∷ text) k = k

FirstNotZero-store :
    (d : ℕ) (text : List ℕ) (e : GlobEntry) (n : HashNode)
    → d ≢ 0
    → FirstNotZero n
    → FirstNotZero (store (d ∷ text) e n)
FirstNotZero-store d [] e n z h = FirstNotZero-put d _ _ n z h
FirstNotZero-store d (x ∷ text) e n z h = FirstNotZero-put d _ _ n z h

pub store-IsTree :
    (text : List ℕ) (e : GlobEntry) (n : HashNode) → IsKey text → IsTree n → IsTree (store text e n)
store-IsTree [] e n k t = absurd k
store-IsTree (c ∷ []) e n k t =
    let l = label_in (find c n) in
    let child = child_of (find c n) in
    put-IsTree c (new_label e l) (new_child e l child) n k.0 t
      (new-LabelFits c e l (new_child e l child) k.0)
      (grown-IsTree e l.mime_type child (find-fits c n k.0 t).1)
store-IsTree (c ∷ d ∷ text) e n k t =
    let l = label_in (find c n) in
    let child = child_of (find c n) in
    let (fits, below) = find-fits c n k.0 t in
    put-IsTree c l (store (d ∷ text) e child) n k.0 t
      (fits.0, λ w. FirstNotZero-store d text e child k.1.0 (fits.1 w))
      (store-IsTree (d ∷ text) e child k.1 below)

in_child-some :
    (insert : HashNode → Option HashNode) (l : Label) (child child' : HashNode)
    → insert child ≡ some child'
    → in_child insert l child ≡ some (l, child')
in_child-some insert l child child' h = rw (h, in_child)

insert_ucs4_step :
    (c d : ℕ) (text : List ℕ) (e : GlobEntry) (n : HashNode)
    → d ≢ 0
    → insert_ucs4 (c ∷ d ∷ text) e n ≡ insert_char c (in_child (insert_ucs4 (d ∷ text) e)) n
insert_ucs4_step c d text e n z = unfold insert_ucs4 in rw (==-ne d 0 z) refl

pub insert_ucs4-store :
    (text : List ℕ) (e : GlobEntry) (n : HashNode)
    → IsKey text
    → IsTree n
    → insert_ucs4 text e n ≡ some (store text e n)
insert_ucs4-store [] e n k t = absurd k
insert_ucs4-store (c ∷ []) e n k t =
    let l = label_in (find c n) in
    let child = child_of (find c n) in
    unfold insert_ucs4 in
    insert_char-put c (set_end e) n (new_label e l) (new_child e l child) k.0 t
      (set_end-new e l child (find-fits c n k.0 t).1)
insert_ucs4-store (c ∷ d ∷ text) e n k t =
    let l = label_in (find c n) in
    let child = child_of (find c n) in
    insert_ucs4_step c d text e n k.1.0
    ∙ insert_char-put c (in_child (insert_ucs4 (d ∷ text) e)) n l (store (d ∷ text) e child) k.0 t (
        in_child-some (insert_ucs4 (d ∷ text) e) l child (store (d ∷ text) e child)
          (insert_ucs4-store (d ∷ text) e child k.1 (find-fits c n k.0 t).1))
