-- ===== src/Mime/Subclass/Endless.antt =====
-- The subclass test of src/mime/xdgmime.c on types whose first parents never end.
use libxdg.Base.{ℕ, zero, suc, ◌≡◌, refl, sym, ap, ◌∙◌, subst, Bool, false, Option, some, List, ◌∷◌}
use libxdg.Base.Text.{Bytes}
use libxdg.Mime.Table.{Entry}
use libxdg.Mime.Parents.{MimeParents}
use libxdg.Mime.Subclass.{
  Outcome, unfinished, is_direct, any_parent, then_parents, mime_type_subclass,
}
use libxdg.Mime.Subclass.Derives.{unaliased, parents_of}

then_parents-unfinished :
    (o : Option Bool) (call : Bytes → Outcome) (qs : List Bytes) (p : Bytes) (ps : List Bytes)
    → o ≡ some false
    → qs ≡ p ∷ ps
    → call p ≡ unfinished
    → then_parents o call qs ≡ unfinished
unfolding then_parents any_parent
then_parents-unfinished o call qs p ps d e u = rw (d, e, then_parents, any_parent, u) refl

module _ (bsearch_alias : Bytes → List Entry → Option Entry)
    (bsearch_parents : Bytes → List MimeParents → Option MimeParents) (aliases : List Entry)
    (parent_list : List MimeParents) where
  -- The first parent of each type of a set is in the set again.
  abbrev pub IsCyclic : (Bytes → Type 0) → Type 0
  IsCyclic Among =
      (mime : Bytes)
      → Among mime
      → (p : Bytes) × (ps : List Bytes) × (parents_of bsearch_alias bsearch_parents aliases
            parent_list mime
          ≡ p ∷ ps)
        × Among p

  -- In a set of types whose first parents are in the set again, and of which none is directly below
  -- a base that is no alias, the test of any type against the base calls itself without end: no fuel
  -- is enough.
  pub mime_type_subclass-unfinished :
      (Among : Bytes → Type 0) (f : ℕ) (mime base : Bytes)
      → IsCyclic Among
      → unaliased bsearch_alias bsearch_parents aliases parent_list base ≡ base
      → ((m : Bytes)
          → Among m
          → is_direct (unaliased bsearch_alias bsearch_parents aliases parent_list m) base
            ≡ some false)
      → Among mime
      → mime_type_subclass bsearch_alias bsearch_parents aliases parent_list f mime base
        ≡ unfinished
  unfolding mime_type_subclass
  mime_type_subclass-unfinished Among zero mime base cyclic own apart among = refl
  mime_type_subclass-unfinished Among (suc f) mime base cyclic own apart among =
      let (p, ps, e, above) = cyclic mime among in
      then_parents-unfinished _ _ _ p ps
        (ap (is_direct (unaliased bsearch_alias bsearch_parents aliases parent_list mime)) own
          ∙ apart mime among)
        e
        (subst
          (λ b.
            mime_type_subclass bsearch_alias bsearch_parents aliases parent_list f p b ≡ unfinished)
          (sym own) (mime_type_subclass-unfinished Among f p base cyclic own apart above))
