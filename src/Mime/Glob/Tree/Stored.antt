-- ===== src/Mime/Glob/Tree/Stored.antt =====
-- What a glob tree holds, read without regard to the order of its levels: the entries under each
-- key.
use libxdg.Base.{
  ℕ, Bool, false, not, ◌||◌, Option, none, some, List, [], ◌∷◌, ◌++◌, ◌==◌, if◌then◌else◌, take,
  select, map,
}
use libxdg.Base.Text.{Bytes, str_eq}
use libxdg.Mime.Glob.Tree.{GlobEntry, Label, HashNode, nil, node, blank, MimeWeight, n_mimes}

-- The node of a character on a level.
abbrev pub find : ℕ → HashNode → Option (Label × HashNode)
find c nil = none
find c (node d l next child) = let rest = find c next in if c == d then some (l, child) else rest

abbrev pub child_of : Option (Label × HashNode) → HashNode
child_of none = nil
child_of (some (l, child)) = child

abbrev pub label_in : Option (Label × HashNode) → Label
label_in none = blank
label_in (some (l, child)) = l

-- The entry of a label, if it has a type.
abbrev pub labelled : Label → List GlobEntry
labelled l = elim l.mime_type [
  | none ↦ []
  | some m ↦ (record { mime_type = m; weight = l.weight; case_sensitive = l.case_sensitive }) ∷ []
]

-- The entries of the children with character 0 at the front of a level.
abbrev pub zero_entries : HashNode → List GlobEntry
zero_entries nil = []
zero_entries (node c l next child) =
    let rest = zero_entries next in if c == 0 then labelled l ++ rest else []

abbrev pub entries_here : Option (Label × HashNode) → List GlobEntry
entries_here f = labelled (label_in f) ++ zero_entries (child_of f)

-- The entries under a key; no entry is under the empty one.
abbrev pub stored : HashNode → List ℕ → List GlobEntry
stored n [] = []
stored n (c ∷ []) = entries_here (find c n)
stored n (c ∷ d ∷ key) = stored (child_of (find c n)) (d ∷ key)

abbrev pub has_type : Bytes → List GlobEntry → Bool
has_type m [] = false
has_type m (e ∷ es) = str_eq e.mime_type m || has_type m es

-- A further entry under a key: dropped if its type is there, else second behind the first one.
abbrev pub add_entry : GlobEntry → List GlobEntry → List GlobEntry
add_entry e [] = e ∷ []
add_entry e (f ∷ es) = if has_type e.mime_type (f ∷ es) then f ∷ es else f ∷ e ∷ es

-- The types that a search offers of some entries, as many as its array takes.
abbrev pub hits : Bool → List GlobEntry → List MimeWeight
hits check es = take n_mimes (
    map (λ e. record { mime = e.mime_type; weight = e.weight })
      (select (λ e. check || not e.case_sensitive) es))
