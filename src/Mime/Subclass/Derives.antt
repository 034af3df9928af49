-- ===== src/Mime/Subclass/Derives.antt =====
-- The subclass test of src/mime/xdgmime.c as a walk up the parents, where their chains end.
use libxdg.Base.{
  ℕ, zero, suc, ◌<◌, ◌≤◌, ◌≡◌, ◌↔◌, refl, sym, subst, ◌⊎◌, inl, inr, Bool, true, false, Option,
  List, [], ◌∷◌, length, Any, arith,
}
use libxdg.Base.Text.{Bytes}
use libxdg.Mime.Table.{Entry, unalias_mime_type}
use libxdg.Mime.Parents.{MimeParents}
use libxdg.Mime.Subclass.{
  Outcome, answer, any_parent, then_parents, listed, get_mime_parents, mime_type_subclass,
}
use libxdg.Mime.Subclass.Direct.{IsDirect, Tests, is_direct-Tests}

-- An answer that is positive exactly if a statement holds.
abbrev pub Decides : Outcome → Type 0 → Type 0
Decides o P = (r : Bool) × (o ≡ answer r) × ((r ≡ true) ↔ P)

any_parent-true :
    (P : Bytes → Type 0) (call : Bytes → Outcome) (p : Bytes) (ps : List Bytes)
    → Decides (call p) (P p)
    → Decides (any_parent call ps) (Any P ps)
    → Decides (any_parent call (p ∷ ps)) (Any P (p ∷ ps))
unfolding any_parent
any_parent-true P call p ps (true, e, (to, from)) later =
    (true, rw (e, any_parent) refl, ((λ t. inl (to refl)), (λ x. refl)))
any_parent-true P call p ps (false, e, (to, from)) (r, rest, (some_later, back)) = (
  r,
  rw (e, any_parent) rest,
  (
    (λ t. inr (some_later t)),
    (λ x. elim x [ inl y ↦ absurd (ground (arith, from y)) | inr y ↦ back y ]),
  ),
)

any_parent-Decides :
    (P : Bytes → Type 0) (call : Bytes → Outcome) (ps : List Bytes)
    → ((p : Bytes) → Any (λ q. q ≡ p) ps → Decides (call p) (P p))
    → Decides (any_parent call ps) (Any P ps)
unfolding any_parent
any_parent-Decides P call [] h = (false, refl, ((λ e. absurd (cc)), (λ x. elim x [ ])))
any_parent-Decides P call (p ∷ ps) h =
    any_parent-true P call p ps (h p (inl refl)) (any_parent-Decides P call ps (λ q a. h q (inr a)))

then_parents-Decides :
    (o : Option Bool) (call : Bytes → Outcome) (ps : List Bytes) (P : Type 0) (Q : Bytes → Type 0)
    → Tests o P
    → Decides (any_parent call ps) (Any Q ps)
    → Decides (then_parents o call ps) (P ⊎ Any Q ps)
unfolding then_parents
then_parents-Decides o call ps P Q (true, e, (to, from)) later =
    (true, rw (e, then_parents) refl, ((λ t. inl (to refl)), (λ x. refl)))
then_parents-Decides o call ps P Q (false, e, (to, from)) (r, rest, (some_later, back)) = (
  r,
  rw (e, then_parents) rest,
  (
    (λ t. inr (some_later t)),
    (λ x. elim x [ inl y ↦ absurd (ground (arith, from y)) | inr y ↦ back y ]),
  ),
)

module _ (bsearch_alias : Bytes → List Entry → Option Entry)
    (bsearch_parents : Bytes → List MimeParents → Option MimeParents) (aliases : List Entry)
    (parent_list : List MimeParents) where
  abbrev pub unaliased : Bytes → Bytes
  unaliased = unalias_mime_type bsearch_alias aliases

  abbrev pub parents_of : Bytes → List Bytes
  parents_of mime = listed (get_mime_parents bsearch_alias bsearch_parents aliases parent_list mime)

  -- A type is below a base: directly, or because a parent of it is below the unaliased base.
  pub data Derives : Bytes → Bytes → Type 0 where
    directly : (mime base : Bytes) → IsDirect (unaliased mime) (unaliased base) → Derives mime base
    by_parent :
        (mime base p : Bytes)
        → Any (λ q. q ≡ p) (parents_of mime)
        → Derives p (unaliased base)
        → Derives mime base

  -- A rank that falls from each type to its parents.
  abbrev pub Falls : (Bytes → ℕ) → Type 0
  Falls rank = (mime p : Bytes) → Any (λ q. q ≡ p) (parents_of mime) → rank p < rank mime

  Any-Derives :
      (mime base : Bytes) (ps : List Bytes)
      → ((p : Bytes) → Any (λ q. q ≡ p) ps → Any (λ q. q ≡ p) (parents_of mime))
      → Any (λ p. Derives p (unaliased base)) ps
      → Derives mime base
  Any-Derives mime base [] inside a = elim a [ ]
  Any-Derives mime base (p ∷ ps) inside (inl d) = by_parent mime base p (inside p (inl refl)) d
  Any-Derives mime base (p ∷ ps) inside (inr a) =
      Any-Derives mime base ps (λ q x. inside q (inr x)) a

  Derives-Any :
      (base p : Bytes) (ps : List Bytes)
      → Any (λ q. q ≡ p) ps
      → Derives p (unaliased base)
      → Any (λ p. Derives p (unaliased base)) ps
  Derives-Any base p [] a d = elim a [ ]
  Derives-Any base p (q ∷ ps) (inl same) d =
      inl (subst (λ x. Derives x (unaliased base)) (sym same) d)
  Derives-Any base p (q ∷ ps) (inr a) d = inr (Derives-Any base p ps a d)

  Derives-cases :
      (mime base : Bytes)
      → Derives mime base
      → IsDirect (unaliased mime) (unaliased base)
        ⊎ Any (λ p. Derives p (unaliased base)) (parents_of mime)
  Derives-cases mime base (directly m b d) = inl d
  Derives-cases mime base (by_parent m b p a d) = inr (Derives-Any base p (parents_of mime) a d)

  Decides-Derives :
      (mime base : Bytes) (o : Outcome)
      → Decides o (
          IsDirect (unaliased mime) (unaliased base)
          ⊎ Any (λ p. Derives p (unaliased base)) (parents_of mime))
      → Decides o (Derives mime base)
  Decides-Derives mime base o (r, e, (to, from)) = (
    r,
    e,
    (
      (λ t. elim (to t) [
        | inl d ↦ directly mime base d
        | inr a ↦ Any-Derives mime base (parents_of mime) (λ p x. x) a
      ]),
      (λ d. from (Derives-cases mime base d)),
    ),
  )

  -- Where a rank falls from each type to its parents, the test of a type ends within as many calls
  -- of itself as its rank, and answers so exactly if the type is below the base; this for a base of
  -- two bytes or more and for aliases that lead from such types to such types only.
  pub mime_type_subclass-Decides :
      (rank : Bytes → ℕ) (f : ℕ) (mime base : Bytes)
      → Falls rank
      → ((b : Bytes) → 2 ≤ length b → 2 ≤ length (unaliased b))
      → rank mime < f
      → 2 ≤ length base
      → Decides
          (mime_type_subclass bsearch_alias bsearch_parents aliases parent_list f mime base)
          (Derives mime base)
  unfolding mime_type_subclass
  mime_type_subclass-Decides rank zero mime base falls long h k = absurd (omega arith)
  mime_type_subclass-Decides rank (suc f) mime base falls long h k = Decides-Derives mime base _ (
      then_parents-Decides _ _ _ _ _
        (is_direct-Tests (unaliased mime) (unaliased base) (long base k))
        (any_parent-Decides _ _ (parents_of mime) (λ p a.
          mime_type_subclass-Decides rank f p (unaliased base) falls long
            (omega (arith, falls mime p a)) (long base k))))
