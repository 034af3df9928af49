-- ===== src/Mime/Glob/Tree.antt =====
-- The tree of src/mime/xdgmimeglob.c for patterns of the form *text. Its keys are the texts read
-- backwards; a node has the next node of its level and the first node of the level below.
-- A result `none` is a read out of bounds or a `strcmp` with NULL.
pub mod Stored
pub mod Ordered
pub mod Insert
pub mod Entries
pub mod Lookup
use libxdg.Base.{
  ℕ, zero, suc, ◌+◌, ◌-◌, Bool, true, false, not, ◌||◌, Option, none, some, List, [], ◌∷◌, ltb,
  ◌==◌, if◌then◌else◌,
}
use libxdg.Base.Int.{ℤ, pos}
use libxdg.Base.Text.{Bytes, str_eq}
use libxdg.Mime.Unicode.{char_to_ucs4}

-- The arguments of an insertion: the type, its weight, and whether the case of letters counts.
pub record GlobEntry : Type 0 where
  pub mime_type : Bytes
  pub weight : ℤ
  pub case_sensitive : Bool

-- The fields of `XdgGlobHashNode` of the same names; `mime_type` may be NULL.
pub record Label : Type 0 where
  pub mime_type : Option Bytes
  pub weight : ℤ
  pub case_sensitive : Bool

-- `XdgGlobHashNode`: the character, the label, `next` and `child`; `nil` is NULL.
pub data HashNode : Type 0 where
  nil : HashNode
  node : ℕ → Label → HashNode → HashNode → HashNode

-- The label of a node from `calloc`.
abbrev pub blank : Label
blank = record { mime_type = none; weight = pos 0; case_sensitive = false }

abbrev pub label_of : GlobEntry → Label
label_of e = record {
  mime_type = some e.mime_type;
  weight = e.weight;
  case_sensitive = e.case_sensitive;
}

-- `*text == 0`
abbrev pub at_end : List ℕ → Bool
at_end [] = true
at_end (c ∷ text) = c == 0

-- `while (child && child->character == 0)`: is the type among these children?
unfoldable pub has_zero_child : Bytes → HashNode → Option Bool
has_zero_child mime_type nil = some false
has_zero_child mime_type (node c l next child) =
    let rest = has_zero_child mime_type next in
    if c == 0
    then elim l.mime_type [ none ↦ none | some m ↦ if str_eq m mime_type then some true else rest ]
    else some false

-- A new child for one more type of the same text, unless the search found it.
unfoldable pub add_zero_child :
    GlobEntry → Label → HashNode → Option Bool → Option (Label × HashNode)
add_zero_child e l child none = none
add_zero_child e l child (some true) = some (l, child)
add_zero_child e l child (some false) = some (l, node 0 (label_of e) child nil)

-- What is done to the label and the children of the node where the text ends.
unfoldable pub set_end : GlobEntry → Label → HashNode → Option (Label × HashNode)
unfolding has_zero_child add_zero_child
set_end e l child = elim l.mime_type [
  | none ↦ some (label_of e, child)
  | some m ↦
      if str_eq m e.mime_type
      then some (l, child)
      else add_zero_child e l child (has_zero_child e.mime_type child)
]

abbrev pub Update : Type 0
Update = Label → HashNode → Option (Label × HashNode)

-- The node with what an update made of its label and its children.
abbrev pub rebuilt : ℕ → HashNode → Option (Label × HashNode) → Option HashNode
rebuilt c next none = none
rebuilt c next (some (l, child)) = some (node c l next child)

abbrev pub behind : ℕ → Label → HashNode → Option HashNode → Option HashNode
behind c l child none = none
behind c l child (some next) = some (node c l next child)

-- Find the node of a character on a level, or make it at its place, and update it.
unfoldable pub insert_char : ℕ → Update → HashNode → Option HashNode
insert_char c update nil = rebuilt c nil (update blank nil)
insert_char c update (node d l next child) =
    let onward = insert_char c update next in
    if ltb c d
    then rebuilt c (node d l next child) (update blank nil)
    else if c == d
    then rebuilt d next (update l child)
    else behind d l child onward

abbrev pub in_child : (HashNode → Option HashNode) → Update
in_child insert l child = elim (insert child) [ none ↦ none | some child' ↦ some (l, child') ]

-- `_xdg_glob_hash_insert_ucs4`. An empty text has the character 0, and the read of the one behind
-- it is out of bounds.
unfoldable pub insert_ucs4 : List ℕ → GlobEntry → HashNode → Option HashNode
unfolding insert_char set_end
insert_ucs4 [] e n = none
insert_ucs4 (c ∷ text) e n =
    insert_char c (if at_end text then set_end e else in_child (insert_ucs4 text e)) n

-- `MimeWeight`
pub record MimeWeight : Type 0 where
  pub mime : Bytes
  pub weight : ℤ

-- A type that the node offers: it has one, and its letters may have either case or are checked.
abbrev pub offered : Bool → Label → Option MimeWeight
offered check l = elim l.mime_type [
  | none ↦ none
  | some m ↦
      if check || not l.case_sensitive then some (record { mime = m; weight = l.weight }) else none
]

-- `mime_types[n] = …; n++` under its test.
abbrev pub push : Option MimeWeight → List MimeWeight → List MimeWeight
push none found = found
push (some m) found = m ∷ found

abbrev pub room_behind : Option MimeWeight → ℕ → ℕ
room_behind none room = room
room_behind (some m) room = room - 1

-- The loop over the children with character 0, while there is room in the array.
unfoldable pub zero_types : Bool → ℕ → HashNode → List MimeWeight
zero_types check room nil = []
zero_types check room (node c l next child) =
    let rest = zero_types check (room_behind (offered check l) room) next in
    if room == 0 then [] else if c == 0 then push (offered check l) rest else []

-- `n_mime_types` of every call.
abbrev pub n_mimes : ℕ
n_mimes = 10

abbrev pub types_here : Bool → Label → HashNode → List MimeWeight
types_here check l child =
    push (offered check l) (zero_types check (room_behind (offered check l) n_mimes) child)

-- `if (n == 0)`: the types of this node where the levels below gave none.
abbrev pub or_here : Option (List MimeWeight) → List MimeWeight → Option (List MimeWeight)
or_here none here = none
or_here (some []) here = some here
or_here (some (m ∷ found)) here = some (m ∷ found)

-- `_xdg_glob_hash_node_lookup_file_name`. The name is given backwards, so that its head is
-- `file_name[len - 1]`; that is out of bounds where nothing is left of the name.
unfoldable pub lookup_node : HashNode → Bytes → Bool → Option (List MimeWeight)
lookup_node nil name check = some []
lookup_node (node d l next child) [] check = none
lookup_node (node d l next child) (b ∷ []) check =
    let onward = lookup_node next (b ∷ []) check in
    if ltb (char_to_ucs4 b) d
    then some []
    else if char_to_ucs4 b == d
    then some (types_here check l child)
    else onward
lookup_node (node d l next child) (b ∷ a ∷ name) check =
    let onward = lookup_node next (b ∷ a ∷ name) check in
    let deeper = lookup_node child (a ∷ name) check in
    if ltb (char_to_ucs4 b) d
    then some []
    else if char_to_ucs4 b == d
    then or_here deeper (types_here check l child)
    else onward
