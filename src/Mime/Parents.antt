-- ===== src/Mime/Parents.antt =====
-- src/mime/xdgmimeparent.c: the table of the parents of MIME types, which is read from files of
-- lines. The arrays are lists, without the NULL behind the parents.
pub mod Lookup
use libxdg.Base.{
  ℕ, Bool, true, false, Option, none, some, List, [], ◌∷◌, ◌++◌, ltb, if◌then◌else◌, length,
}
use libxdg.Base.Search.{NotBehind}
use libxdg.Base.Text.{Bytes, str_eq}
use libxdg.Mime.Table.{Entry, fgets_lines, lines_entries}

-- `XdgMimeParents`
pub record MimeParents : Type 0 where
  pub mime : Bytes
  pub parents : List Bytes

-- `parent_entry_cmp`
abbrev pub Before : MimeParents → MimeParents → Type 0
Before = NotBehind (λ p. p.mime)

-- A round of the loop over the lines, with the type and the parent that stand on the line: the parent
-- goes behind those of the first entry for the type, or a new entry is made for it.
unfoldable pub add_parent : List MimeParents → Entry → List MimeParents
add_parent [] e = (record { mime = e.key; parents = e.value ∷ [] }) ∷ []
add_parent (p ∷ ps) e =
    let rest = add_parent ps e in
    if str_eq p.mime e.key
    then (record { mime = p.mime; parents = p.parents ++ (e.value ∷ []) }) ∷ ps
    else p ∷ rest

unfoldable pub add_parents : List MimeParents → List Entry → List MimeParents
unfolding add_parent
add_parents ps [] = ps
add_parents ps (e ∷ es) = add_parents (add_parent ps e) es

-- `_xdg_mime_parent_read_from_file`; none is a file that cannot be opened.
unfoldable pub parent_read_from_file :
    (List MimeParents → List MimeParents) → List MimeParents → Option Bytes → List MimeParents
unfolding add_parents
parent_read_from_file qsort list none = list
parent_read_from_file qsort list (some s) =
    let parents = add_parents list (lines_entries b' ' (fgets_lines s)) in
    if ltb 1 (length parents) then qsort parents else parents

abbrev pub parents_of : Option MimeParents → Option (List Bytes)
parents_of none = none
parents_of (some p) = some p.parents

-- `_xdg_mime_parent_list_lookup`; none is NULL.
unfoldable pub parent_list_lookup :
    (Bytes → List MimeParents → Option MimeParents) → List MimeParents → Bytes → Option (List Bytes)
parent_list_lookup bsearch list mime =
    if ltb 0 (length list) then parents_of (bsearch mime list) else none
