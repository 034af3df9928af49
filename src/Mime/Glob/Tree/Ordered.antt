-- ===== src/Mime/Glob/Tree/Ordered.antt =====
-- The order of the levels of a glob tree, on which the search of src/mime/xdgmimeglob.c relies,
-- and trees with one node changed.
use libxdg.Base.{
  ℕ, ◌≤◌, ◌<◌, ◌≡◌, ◌≢◌, refl, sym, ap, ◌∙◌, ◌⊎◌, inl, inr, none, some, ltb, ◌==◌, if◌then◌else◌,
  arith, Bool-cases, ltb→lt, ltb_false→le, ==_iff, ==_false→ne, ==_refl, ==-ne,
}
use libxdg.Base.Text.{Bytes}
use libxdg.Mime.Glob.Tree.{Label, HashNode, nil, node, Update, insert_char}
use libxdg.Mime.Glob.Tree.Stored.{find, child_of, label_in}

-- The first character of a level is above `c`; only the character 0 may be repeated.
abbrev pub Above : ℕ → HashNode → Type 0
Above c nil = Unit
Above c (node d l next child) = (c < d) ⊎ ((c ≡ 0) × (d ≡ 0))

abbrev pub HasType : Label → Type 0
HasType l = (m : Bytes) × (l.mime_type ≡ some m)

abbrev pub FirstNotZero : HashNode → Type 0
FirstNotZero nil = Unit
FirstNotZero (node d l next child) = 0 < d

-- A node with character 0 has a type, and only a node with a type has such a child.
abbrev pub LabelFits : ℕ → Label → HashNode → Type 0
LabelFits c l child = (c ≡ 0 → HasType l) × (l.mime_type ≡ none → FirstNotZero child)

-- Every level is in order and every label fits.
abbrev pub IsTree : HashNode → Type 0
IsTree nil = Unit
IsTree (node c l next child) = Above c next × LabelFits c l child × IsTree next × IsTree child

-- The level with this label and these children at a character.
abbrev pub put : ℕ → Label → HashNode → HashNode → HashNode
put c l child nil = node c l nil child
put c l child (node d m next ch) =
    let onward = put c l child next in
    if ltb c d
    then node c l (node d m next ch) child
    else if c == d
    then node d l next child
    else node d m onward ch

Above-lt : (b c : ℕ) (n : HashNode) → 0 < c → b < c → Above c n → Above b n
Above-lt b c nil p h a = tt
Above-lt b c (node d l next child) p h (inl a) = inl (omega arith)
Above-lt b c (node d l next child) p h (inr a) = absurd (omega arith)

-- A character below the level is not on it.
pub find-Above :
    (b c : ℕ) (n : HashNode) → 0 < c → b ≤ c → IsTree n → Above c n → b ≢ 0 → find b n ≡ none
find-Above b c nil p h t a z = refl
find-Above b c (node d l next child) p h t (inr a) z = absurd (omega arith)
find-Above b c (node d l next child) p h t (inl a) z =
    rw (==-ne b d (omega arith)) (find-Above b d next (omega arith) (omega arith) t.2 t.0 z)

pub find_below :
    (c d : ℕ) (l : Label) (next child : HashNode)
    → IsTree (node d l next child)
    → c < d
    → c ≢ 0
    → find c (node d l next child) ≡ none
find_below c d l next child t h z =
    rw (==-ne c d (omega arith)) (find-Above c d next (omega arith) (omega arith) t.2 t.0 z)

pub find-put_self :
    (c : ℕ) (l : Label) (child n : HashNode) → find c (put c l child n) ≡ some (l, child)
find-put_self c l child nil = rw (==_refl c)
find-put_self c l child (node d m next ch) = elim (Bool-cases (ltb c d)) [
  | inl e ↦ rw (e, ==_refl c)
  | inr e ↦ elim (Bool-cases (c == d)) [
    | inl f ↦ rw (e, f, f)
    | inr f ↦ rw (e, f, f) (find-put_self c l child next)
  ]
]

pub find-put_ne :
    (b c : ℕ) (l : Label) (child n : HashNode) → b ≢ c → find b (put c l child n) ≡ find b n
find-put_ne b c l child nil h = rw (==-ne b c h)
find-put_ne b c l child (node d m next ch) h = elim (Bool-cases (ltb c d)) [
  | inl e ↦ rw (e, ==-ne b c h)
  | inr e ↦ elim (Bool-cases (c == d)) [
    | inl f ↦ let cd : c ≡ d = (==_iff c d).0 f in rw (e, f, ==-ne b d (λ k. h (k ∙ sym cd)))
    | inr f ↦ rw (e, f, find-put_ne b c l child next h)
  ]
]

Above-put :
    (b c : ℕ) (l : Label) (child n : HashNode) → b < c → Above b n → Above b (put c l child n)
Above-put b c l child nil h a = inl h
Above-put b c l child (node d m next ch) h a = elim (Bool-cases (ltb c d)) [
  | inl e ↦ rw e (inl h)
  | inr e ↦ elim (Bool-cases (c == d)) [ inl f ↦ rw (e, f) a | inr f ↦ rw (e, f) a ]
]

pub put-IsTree :
    (c : ℕ) (l : Label) (child n : HashNode)
    → c ≢ 0
    → IsTree n
    → LabelFits c l child
    → IsTree child
    → IsTree (put c l child n)
put-IsTree c l child nil z t f k = (tt, f, tt, k)
put-IsTree c l child (node d m next ch) z t f k = elim (Bool-cases (ltb c d)) [
  | inl e ↦ rw e (inl (ltb→lt c d e), f, t, k)
  | inr e ↦ elim (Bool-cases (c == d)) [
    | inl g ↦
        let cd : c ≡ d = (==_iff c d).0 g in
        rw (e, g) (t.0, (λ w. absurd (z (cd ∙ w)), f.1), t.2, k)
    | inr g ↦
        rw (e, g)
          (
            Above-put d c l child next (omega (arith, ltb_false→le c d e, ==_false→ne c d g)) t.0,
            t.1,
            put-IsTree c l child next z t.2 f k,
            t.3,
          )
  ]
]

-- The recursion over a level makes the change where the search finds the character.
pub insert_char-put :
    (c : ℕ) (update : Update) (n : HashNode) (l : Label) (child : HashNode)
    → c ≢ 0
    → IsTree n
    → update (label_in (find c n)) (child_of (find c n)) ≡ some (l, child)
    → insert_char c update n ≡ some (put c l child n)
unfolding insert_char
insert_char-put c update nil l child z t h = rw h
insert_char-put c update (node d m next ch) l child z t h = elim (Bool-cases (ltb c d)) [
  | inl e ↦
      let found = find_below c d m next ch t (ltb→lt c d e) z in
      rw e (rw (ap (λ f. update (label_in f) (child_of f)) (sym found) ∙ h))
  | inr e ↦ elim (Bool-cases (c == d)) [
    | inl f ↦ let h' : update m ch ≡ some (l, child) = rw f at h in rw (e, f) (rw h')
    | inr f ↦
        let h' : update (label_in (find c next)) (child_of (find c next)) ≡ some (l, child) =
          rw f at h in
        rw (e, f) (rw (insert_char-put c update next l child z t.2 h'))
  ]
]
