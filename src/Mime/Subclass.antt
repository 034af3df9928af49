-- ===== src/Mime/Subclass.antt =====
-- The subclass test of src/mime/xdgmime.c, without cache files. `bsearch` of the C library is an
-- argument, once for each of the two tables.
pub mod Direct
pub mod Derives
pub mod Endless
use libxdg.Base.{
  ℕ, zero, suc, ◌-◌, Bool, true, false, ◌&&◌, Option, none, some, List, [], ◌∷◌, ltb, ◌==◌,
  if◌then◌else◌, length, drop,
}
use libxdg.Base.Text.{Bytes, codes, strchr, str_eq}
use libxdg.Mime.Table.{Entry, unalias_mime_type}
use libxdg.Mime.Parents.{MimeParents, parent_list_lookup}

-- `strncmp (a, b, n) == 0`
unfoldable pub strncmp_eq : ℕ → Bytes → Bytes → Bool
strncmp_eq zero a b = true
strncmp_eq (suc n) [] [] = true
strncmp_eq (suc n) [] (y ∷ b) = false
strncmp_eq (suc n) (x ∷ a) [] = false
strncmp_eq (suc n) (x ∷ a) (y ∷ b) = (x == y) && strncmp_eq n a b

-- `xdg_mime_media_type_equal`
unfoldable pub media_type_equal : Bytes → Bytes → Bool
unfolding strncmp_eq
media_type_equal mime_a mime_b = elim (strchr b'/' mime_a) [
  | none ↦ false
  | some (before, behind) ↦ strncmp_eq (suc (length before)) mime_a mime_b
]

-- `xdg_mime_is_super_type`; none is a read in front of the text.
unfoldable pub is_super_type : Bytes → Option Bool
is_super_type mime =
    if ltb (length mime) 2 then none else some (str_eq (drop (length mime - 2) mime) (codes "/*"))

-- What a call of the subclass test comes to; `unfinished` is the end of the fuel.
pub data Outcome : Type 0 where
  answer : Bool → Outcome
  out_of_bounds unfinished : Outcome

-- The tests in front of the loop, on the unaliased types.
unfoldable pub is_direct : Bytes → Bytes → Option Bool
unfolding media_type_equal is_super_type
is_direct umime ubase = if str_eq umime ubase then some true else elim (is_super_type ubase) [
  | none ↦ none
  | some is_super ↦
      if is_super && media_type_equal umime ubase
      then some true
      else (if str_eq ubase (codes "text/plain") && strncmp_eq 5 umime (codes "text/")
          then some true
          else some (str_eq ubase (codes "application/octet-stream")))
]

-- The loop over the parents, with the call for each of them.
unfoldable pub any_parent : (Bytes → Outcome) → List Bytes → Outcome
any_parent call [] = answer false
any_parent call (p ∷ ps) = elim (call p) [
  | answer true ↦ answer true
  | answer false ↦ any_parent call ps
  | out_of_bounds ↦ out_of_bounds
  | unfinished ↦ unfinished
]

-- The loop, unless a test in front of it answers.
unfoldable pub then_parents : Option Bool → (Bytes → Outcome) → List Bytes → Outcome
unfolding any_parent
then_parents none call ps = out_of_bounds
then_parents (some true) call ps = answer true
then_parents (some false) call ps = any_parent call ps

abbrev pub listed : Option (List Bytes) → List Bytes
listed none = []
listed (some ps) = ps

module _ (bsearch_alias : Bytes → List Entry → Option Entry)
    (bsearch_parents : Bytes → List MimeParents → Option MimeParents) (aliases : List Entry)
    (parent_list : List MimeParents) where
  -- `_xdg_mime_unalias_mime_type`
  abbrev pub unalias : Bytes → Bytes
  unalias = unalias_mime_type bsearch_alias aliases

  -- `xdg_mime_get_mime_parents`
  abbrev pub get_mime_parents : Bytes → Option (List Bytes)
  get_mime_parents mime = parent_list_lookup bsearch_parents parent_list (unalias mime)

  -- `_xdg_mime_mime_type_subclass`; the fuel bounds the depth of its calls of itself.
  unfoldable pub mime_type_subclass : ℕ → Bytes → Bytes → Outcome
  unfolding is_direct then_parents
  mime_type_subclass zero mime base = unfinished
  mime_type_subclass (suc f) mime base =
      then_parents (is_direct (unalias mime) (unalias base))
        (λ p. mime_type_subclass f p (unalias base)) (listed (get_mime_parents mime))
