-- ===== src/Mime/Parents/Lookup.antt =====
-- What the table of src/mime/xdgmimeparent.c finds after reading a file.
use mathlib.Core.List.{Permᴰ, append_assoc, append-nil}
use mathlib.Core.List.Permᴰ as Permᴰ
use libxdg.Base.{
  suc, ◌≡◌, ◌≢◌, refl, sym, ap, ◌∙◌, subst, inl, inr, true, false, Option, none, some, List, [],
  ◌∷◌, ◌++◌, ltb, if◌then◌else◌, length, All, Any, arith, Bool-cases, Option-cases, ltb_false→le,
}
use libxdg.Base.Sort.{IsSorted, IsQsort, IsSorted-short, All-Permᴰ, Any-Permᴰ}
use libxdg.Base.Search.{IsBsearch}
use libxdg.Base.Text.{Bytes, str_eq, str_eq_iff, str_eq_refl, str_eq-false, str_eq-ne}
use libxdg.Mime.Table.Lines.{IsRow, rows, file_of, lines_entries-file_of}
use libxdg.Mime.Table.{Entry, fgets_lines, lines_entries}
use libxdg.Mime.Parents.{
  MimeParents, Before, add_parent, add_parents, parent_read_from_file, parents_of,
  parent_list_lookup,
}

-- No type has two entries.
abbrev pub IsUnique : List MimeParents → Type 0
IsUnique [] = Unit
IsUnique (p ∷ ps) = All (λ q. p.mime ≢ q.mime) ps × IsUnique ps

abbrev Apart : List MimeParents → MimeParents → Type 0
Apart qs p = All (λ q. p.mime ≢ q.mime) qs

-- The parents in the entry of a type.
abbrev pub entry_parents : List MimeParents → Bytes → List Bytes
entry_parents [] k = []
entry_parents (p ∷ ps) k =
    let rest = entry_parents ps k in if str_eq p.mime k then p.parents else rest

-- The parents that lines give a type.
abbrev pub line_parents : List Entry → Bytes → List Bytes
line_parents [] k = []
line_parents (e ∷ es) k =
    let rest = line_parents es k in if str_eq e.key k then e.value ∷ rest else rest

abbrev pub or_empty : Option (List Bytes) → List Bytes
or_empty none = []
or_empty (some ps) = ps

add_parent-All :
    (P : Bytes → Type 0) (ps : List MimeParents) (e : Entry)
    → P e.key
    → All (λ p. P p.mime) ps
    → All (λ p. P p.mime) (add_parent ps e)
unfolding add_parent
add_parent-All P [] e h a = (h, tt)
add_parent-All P (p ∷ ps) e h a = elim (Bool-cases (str_eq p.mime e.key)) [
  | inl t ↦ rw t a
  | inr t ↦ rw t (a.0, add_parent-All P ps e h a.1)
]

add_parent-IsUnique : (ps : List MimeParents) (e : Entry) → IsUnique ps → IsUnique (add_parent ps e)
unfolding add_parent
add_parent-IsUnique [] e u = (tt, tt)
add_parent-IsUnique (p ∷ ps) e u = elim (Bool-cases (str_eq p.mime e.key)) [
  | inl t ↦ rw t u
  | inr t ↦ rw t (
    add_parent-All (λ m. p.mime ≢ m) ps e (str_eq-false p.mime e.key t) u.0,
    add_parent-IsUnique ps e u.1,
  )
]

add_parents-IsUnique :
    (ps : List MimeParents) (es : List Entry) → IsUnique ps → IsUnique (add_parents ps es)
unfolding add_parents
add_parents-IsUnique ps [] u = u
add_parents-IsUnique ps (e ∷ es) u =
    add_parents-IsUnique (add_parent ps e) es (add_parent-IsUnique ps e u)

entry_parents-add_parent :
    (ps : List MimeParents) (e : Entry) (k : Bytes)
    → entry_parents (add_parent ps e) k ≡ entry_parents ps k ++ line_parents (e ∷ []) k
unfolding add_parent
entry_parents-add_parent [] e k = ground arith
entry_parents-add_parent (p ∷ ps) e k = elim (Bool-cases (str_eq p.mime e.key)) [
  | inl t ↦
      let same : str_eq p.mime k ≡ str_eq e.key k =
        ap (λ m. str_eq m k) ((str_eq_iff p.mime e.key).0 t) in
      elim (Bool-cases (str_eq e.key k)) [
        | inl u ↦ rw (t, same, u) refl
        | inr u ↦ rw (t, same, u) (sym (append-nil (entry_parents ps k)))
      ]
  | inr t ↦ elim (Bool-cases (str_eq p.mime k)) [
    | inl u ↦
        let here : p.mime ≡ k = (str_eq_iff p.mime k).0 u in
        let apart : str_eq e.key k ≡ false =
          str_eq-ne e.key k (λ x. str_eq-false p.mime e.key t (here ∙ sym x)) in
        rw (t, u, apart) (sym (append-nil p.parents))
    | inr u ↦ rw (t, u) (entry_parents-add_parent ps e k)
  ]
]

line_parents_cons :
    (e : Entry) (es : List Entry) (k : Bytes)
    → line_parents (e ∷ es) k ≡ line_parents (e ∷ []) k ++ line_parents es k
line_parents_cons e es k = ground arith

entry_parents-add_parents :
    (ps : List MimeParents) (es : List Entry) (k : Bytes)
    → entry_parents (add_parents ps es) k ≡ entry_parents ps k ++ line_parents es k
unfolding add_parents
entry_parents-add_parents ps [] k = sym (append-nil (entry_parents ps k))
entry_parents-add_parents ps (e ∷ es) k =
    entry_parents-add_parents (add_parent ps e) es k
    ∙ ap (λ x. x ++ line_parents es k) (entry_parents-add_parent ps e k)
    ∙ append_assoc (entry_parents ps k) (line_parents (e ∷ []) k) (line_parents es k)
    ∙ ap (λ x. entry_parents ps k ++ x) (sym (line_parents_cons e es k))

entry_parents-Any :
    (ps : List MimeParents) (e : MimeParents)
    → IsUnique ps
    → Any (λ p. p ≡ e) ps
    → entry_parents ps e.mime ≡ e.parents
entry_parents-Any [] e u x = elim x [ ]
entry_parents-Any (p ∷ ps) e u (inl same) =
    rw (ap (λ x. str_eq x.mime e.mime) same, str_eq_refl e.mime) (ap (λ x. x.parents) same)
entry_parents-Any (p ∷ ps) e u (inr later) =
    rw (str_eq-ne p.mime e.mime (apart ps u.0 later)) (entry_parents-Any ps e u.1 later)
  where
    apart :
        (qs : List MimeParents)
        → All (λ q. p.mime ≢ q.mime) qs
        → Any (λ q. q ≡ e) qs
        → p.mime ≢ e.mime
    apart [] a x h = elim x [ ]
    apart (q ∷ qs) a (inl same) h = a.0 (h ∙ ap (λ x. x.mime) (sym same))
    apart (q ∷ qs) a (inr more) h = apart qs a.1 more h

entry_parents-All :
    (ps : List MimeParents) (k : Bytes) → All (λ p. p.mime ≢ k) ps → entry_parents ps k ≡ []
entry_parents-All [] k a = refl
entry_parents-All (p ∷ ps) k a = rw (str_eq-ne p.mime k a.0) (entry_parents-All ps k a.1)

IsUnique-Permᴰ : {ps qs : List MimeParents} → Permᴰ ps qs → IsUnique ps → IsUnique qs
IsUnique-Permᴰ Permᴰ.nil u = tt
IsUnique-Permᴰ (Permᴰ.cons {l₂ = l₂} e d) u =
    (subst (Apart l₂) e (All-Permᴰ _ d u.0), IsUnique-Permᴰ d u.1)
IsUnique-Permᴰ (Permᴰ.swap {l = l} e f) u = (
  (λ h. u.0.0 (ap (λ p. p.mime) e ∙ sym h ∙ ap (λ p. p.mime) (sym f)), subst (Apart l) f u.1.0),
  (subst (Apart l) e u.0.1, u.1.1),
)
IsUnique-Permᴰ (Permᴰ.trans c d) u = IsUnique-Permᴰ d (IsUnique-Permᴰ c u)

module _ (qsort : List MimeParents → List MimeParents)
    (bsearch : Bytes → List MimeParents → Option MimeParents) (permuting : IsQsort Before qsort)
    (searching : IsBsearch (λ p. p.mime) bsearch) where
  bsearch-entry_parents :
      (ps qs : List MimeParents) (k : Bytes)
      → IsUnique qs
      → IsSorted Before ps
      → Permᴰ ps qs
      → or_empty (parents_of (bsearch k ps)) ≡ entry_parents qs k
  bsearch-entry_parents ps qs k u s d = elim (Option-cases (bsearch k ps)) [
    | inl e ↦ rw e (sym (entry_parents-All qs k (All-Permᴰ _ d (searching.missing k ps s e))))
    | inr (p, e) ↦
        let (named, inside) = searching.found k ps p s e in
        rw e (
          sym (ap (entry_parents qs) (sym named) ∙ entry_parents-Any qs p u (Any-Permᴰ _ d inside)))
  ]

  lookup-entry_parents :
      (ps qs : List MimeParents) (k : Bytes)
      → IsUnique qs
      → IsSorted Before ps
      → Permᴰ ps qs
      → or_empty (parent_list_lookup bsearch ps k) ≡ entry_parents qs k
  unfolding parent_list_lookup
  lookup-entry_parents [] qs k u s d = sym (entry_parents-All qs k (All-Permᴰ _ d tt))
  lookup-entry_parents (p ∷ ps) qs k u s d =
      let some_there : ltb 0 (suc (length ps)) ≡ true = ground arith in
      rw some_there (bsearch-entry_parents (p ∷ ps) qs k u s d)

  parent_list_lookup-lines :
      (list : List MimeParents) (s k : Bytes)
      → IsUnique list
      → IsUnique (parent_read_from_file qsort list (some s))
        × (or_empty (parent_list_lookup bsearch (parent_read_from_file qsort list (some s)) k)
            ≡ entry_parents list k ++ line_parents (lines_entries b' ' (fgets_lines s)) k)
  unfolding parent_read_from_file
  parent_list_lookup-lines list s k u =
      let es = lines_entries b' ' (fgets_lines s) in
      let ps = add_parents list es in
      let v : IsUnique ps = add_parents-IsUnique list es u in
      let read : entry_parents ps k ≡ entry_parents list k ++ line_parents es k =
        entry_parents-add_parents list es k in
      elim (Bool-cases (ltb 1 (length ps))) [
        | inl e ↦ rw e (
          IsUnique-Permᴰ (Permᴰ.symm (permuting.permutes ps)) v,
          lookup-entry_parents (qsort ps) ps k v (permuting.sorts ps) (permuting.permutes ps)
              ∙ read,
        )
        | inr e ↦ rw e (
          v,
          lookup-entry_parents ps ps k v (IsSorted-short Before ps (ltb_false→le 1 (length ps) e))
                (Permᴰ.refl ps)
              ∙ read,
        )
      ]

  -- With a `qsort` and a `bsearch` as documented, reading a file whose lines hold pairs of a type
  -- without a blank and a parent, a blank between them, each line of at most 253 bytes with its end
  -- behind it, without NUL and not begun by a '#', into a table without two entries for a type keeps
  -- it so, and the lookup of a type then answers with its parents in the table before and behind them
  -- with those that the pairs give it, in their order.
  pub parent_list_lookup-read :
      (list : List MimeParents) (es : List Entry) (k : Bytes)
      → All (IsRow b' ') es
      → IsUnique list
      → IsUnique (parent_read_from_file qsort list (some (file_of (rows b' ' es))))
        × (or_empty (
              parent_list_lookup bsearch
                (parent_read_from_file qsort list (some (file_of (rows b' ' es))))
                k)
            ≡ entry_parents list k ++ line_parents es k)
  parent_list_lookup-read list es k h u =
      let (v, e) = parent_list_lookup-lines list (file_of (rows b' ' es)) k u in
      (v, e ∙ ap (λ l. entry_parents list k ++ line_parents l k) (lines_entries-file_of b' ' es h))
