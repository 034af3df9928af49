-- ===== src/Tests/Types.antt =====
-- The subclass test at small tables of parents, with a linear search in the place of `bsearch`.
use libxdg.Base.{
  ℕ, ◌≡◌, refl, sym, ap, subst, true, false, Option, some, List, [], ◌∷◌, Any, inl, inr, arith,
  Bool-cases, if◌then◌else◌,
}
use libxdg.Base.Search.{linear_search}
use libxdg.Base.Text.{Bytes, codes, strcmp, strchr, str_eq, str_eq_refl}
use libxdg.Mime.Table.{Entry, alias_list_lookup, unalias_mime_type}
use libxdg.Mime.Parents.{MimeParents, parent_list_lookup}
use libxdg.Mime.Subclass.{
  unfinished, strncmp_eq, media_type_equal, is_super_type, is_direct, mime_type_subclass,
}
use libxdg.Mime.Subclass.Derives.{
  Decides, Derives, Falls, unaliased, parents_of, mime_type_subclass-Decides,
}
use libxdg.Mime.Subclass.Endless.{IsCyclic, mime_type_subclass-unfinished}

abbrev search_aliases : Bytes → List Entry → Option Entry
search_aliases = linear_search (λ e. e.key)

abbrev search_parents : Bytes → List MimeParents → Option MimeParents
search_parents = linear_search (λ p. p.mime)

-- The type a/b with the parent a/c.
abbrev one_parent : List MimeParents
one_parent = (record { mime = codes "a/b"; parents = codes "a/c" ∷ [] }) ∷ []

abbrev rank : Bytes → ℕ
rank mime = if str_eq (codes "a/b") mime then 1 else 0

unaliased_nothing :
    (ps : List MimeParents) (mime : Bytes)
    → unaliased search_aliases search_parents [] ps mime ≡ mime
unfolding unalias_mime_type alias_list_lookup
unaliased_nothing ps mime = refl

abbrev one_parents_of : Bytes → List Bytes
one_parents_of = parents_of search_aliases search_parents [] one_parent

one_parents_of-true :
    (mime : Bytes) → str_eq (codes "a/b") mime ≡ true → one_parents_of mime ≡ codes "a/c" ∷ []
unfolding unalias_mime_type alias_list_lookup parent_list_lookup
one_parents_of-true mime e = rw (e, parent_list_lookup) refl

one_parents_of-false : (mime : Bytes) → str_eq (codes "a/b") mime ≡ false → one_parents_of mime ≡ []
unfolding unalias_mime_type alias_list_lookup parent_list_lookup
one_parents_of-false mime e = rw (e, parent_list_lookup) refl

rank_top : (mime : Bytes) → str_eq (codes "a/b") mime ≡ true → rank mime ≡ 1
rank_top mime e = rw e refl

rank-Falls : Falls search_aliases search_parents [] one_parent rank
unfolding str_eq strcmp
rank-Falls mime p a = elim (Bool-cases (str_eq (codes "a/b") mime)) [
  | inl e ↦ elim (subst (λ x. Any (λ q. q ≡ p) x) (one_parents_of-true mime e) a) [
    | inl same ↦
        let bottom : rank p ≡ 0 = ap rank (sym same) in omega (arith, rank_top mime e, bottom)
    | inr x ↦ elim x [ ]
  ]
  | inr e ↦ elim (subst (λ x. Any (λ q. q ≡ p) x) (one_parents_of-false mime e) a) [ ]
]

mime_type_subclass-Decides_example :
    Decides
      (mime_type_subclass search_aliases search_parents [] one_parent 2 (codes "a/b") (codes "a/*"))
      (Derives search_aliases search_parents [] one_parent (codes "a/b") (codes "a/*"))
unfolding unalias_mime_type
mime_type_subclass-Decides_example =
    mime_type_subclass-Decides search_aliases search_parents [] one_parent rank 2 (codes "a/b")
      (codes "a/*") rank-Falls (λ b h. h)
      (omega (arith, rank_top (codes "a/b") (str_eq_refl (codes "a/b")))) (omega arith)

-- The type a/b with itself as its parent.
abbrev own_parent : List MimeParents
own_parent = (record { mime = codes "a/b"; parents = codes "a/b" ∷ [] }) ∷ []

abbrev IsAb : Bytes → Type 0
IsAb mime = mime ≡ codes "a/b"

IsAb-IsCyclic : IsCyclic search_aliases search_parents [] own_parent IsAb
unfolding unalias_mime_type alias_list_lookup parent_list_lookup str_eq strcmp
IsAb-IsCyclic mime e =
    (codes "a/b", [], ap (parents_of search_aliases search_parents [] own_parent) e, refl)

IsAb-apart :
    (m : Bytes)
    → IsAb m
    → is_direct (unaliased search_aliases search_parents [] own_parent m) (codes "x/y") ≡ some false
unfolding unalias_mime_type alias_list_lookup str_eq strcmp is_direct is_super_type media_type_equal
    strncmp_eq strchr
IsAb-apart m e = ap (λ x. is_direct x (codes "x/y")) e

mime_type_subclass-unfinished_example :
    mime_type_subclass search_aliases search_parents [] own_parent 9 (codes "a/b") (codes "x/y")
    ≡ unfinished
mime_type_subclass-unfinished_example =
    mime_type_subclass-unfinished search_aliases search_parents [] own_parent IsAb 9 (codes "a/b")
      (codes "x/y") IsAb-IsCyclic (unaliased_nothing own_parent (codes "x/y")) IsAb-apart refl
