-- ===== src/Mime/Table.antt =====
-- src/mime/xdgmimealias.c and src/mime/xdgmimeicon.c: sorted tables of pairs of strings that are read
-- from files of lines, and the equality of MIME types in src/mime/xdgmime.c, without a cache file.
-- `qsort` and `bsearch` of the C library are arguments.
pub mod Lines
pub mod Lookup
use Prim.Native.Nat.{Ordering}
use libxdg.Base.{
  ℕ, zero, suc, ◌+◌, ◌-◌, ◌≡◌, ◌≢◌, Bool, true, false, ◌||◌, Option, none, some, List, [], ◌∷◌,
  ◌++◌, ltb, ◌==◌, if◌then◌else◌, length, All, Any,
}
use libxdg.Base.Sort.{IsSorted}
use libxdg.Base.Search.{NotBehind}
use libxdg.Base.Text.{Bytes, cstr, strchr, strcmp, str_eq}

-- `XdgAlias`, an alias and its MIME type, or `XdgIcon`, a MIME type and the name of its icon.
pub record Entry : Type 0 where
  pub key : Bytes
  pub value : Bytes

abbrev pub line_size : ℕ
line_size = 255

abbrev pub close : Bytes → List Bytes → List Bytes
close [] later = later
close (c ∷ line) later = (c ∷ line) ∷ later

abbrev pub ends_line : ℕ → ℕ → Bool
ends_line room c = c == 10 || room == 1

-- What `fgets` reads call by call: the rest of a line with room for some bytes, and the later
-- lines.
unfoldable pub cut : ℕ → Bytes → Bytes × List Bytes
cut room [] = ([], [])
cut room (c ∷ s) =
    let rest = cut (if ends_line room c then line_size - 1 else room - 1) s in
    if ends_line room c then (c ∷ [], close rest.0 rest.1) else (c ∷ rest.0, rest.1)

unfoldable pub fgets_lines : Bytes → List Bytes
unfolding cut
fgets_lines s = let lines = cut (line_size - 1) s in close lines.0 lines.1

-- `sep[strlen (sep) - 1] = '\000'`; with an empty text this writes the NUL of the separator again.
unfoldable pub without_last : Bytes → Bytes
without_last [] = []
without_last (c ∷ []) = []
without_last (c ∷ d ∷ s) = c ∷ without_last (d ∷ s)

-- `line[0] == '#'`
abbrev pub is_comment : Bytes → Bool
is_comment [] = false
is_comment (c ∷ s) = c == b'#'

abbrev pub pair_of : Option (Bytes × Bytes) → List Entry
pair_of none = []
pair_of (some (key, behind)) = (record { key = key; value = without_last behind }) ∷ []

-- A round of the loop over the lines: at most one entry.
unfoldable pub line_entries : ℕ → Bytes → List Entry
unfolding without_last
line_entries sep line = if is_comment (cstr line) then [] else pair_of (strchr sep (cstr line))

unfoldable pub lines_entries : ℕ → List Bytes → List Entry
unfolding line_entries
lines_entries sep [] = []
lines_entries sep (line ∷ lines) = line_entries sep line ++ lines_entries sep lines

-- `alias_entry_cmp`, `icon_entry_cmp`: the first entry is not behind the second.
abbrev pub Before : Entry → Entry → Type 0
Before = NotBehind (λ e. e.key)

module _ (qsort : List Entry → List Entry) where
  -- The loop, and the sorting behind it; none is a file that cannot be opened.
  unfoldable pub read_from_file : ℕ → List Entry → Option Bytes → List Entry
  unfolding lines_entries fgets_lines
  read_from_file sep list none = list
  read_from_file sep list (some s) =
      let entries = list ++ lines_entries sep (fgets_lines s) in
      if ltb 1 (length entries) then qsort entries else entries

  -- `_xdg_mime_alias_read_from_file`
  unfoldable pub alias_read_from_file : List Entry → Option Bytes → List Entry
  unfolding read_from_file
  alias_read_from_file list file = read_from_file b' ' list file

  -- `_xdg_mime_icon_read_from_file`
  unfoldable pub icon_read_from_file : List Entry → Option Bytes → List Entry
  unfolding read_from_file
  icon_read_from_file list file = read_from_file b':' list file

abbrev pub value_of : Option Entry → Option Bytes
value_of none = none
value_of (some e) = some e.value

module _ (bsearch : Bytes → List Entry → Option Entry) where
  -- `_xdg_mime_alias_list_lookup`
  unfoldable pub alias_list_lookup : List Entry → Bytes → Option Bytes
  alias_list_lookup list alias = if ltb 0 (length list) then value_of (bsearch alias list) else none

  -- `_xdg_mime_icon_list_lookup`
  unfoldable pub icon_list_lookup : List Entry → Bytes → Option Bytes
  icon_list_lookup list mime_type =
      if ltb 0 (length list) then value_of (bsearch mime_type list) else none

  -- `_xdg_mime_unalias_mime_type`
  unfoldable pub unalias_mime_type : List Entry → Bytes → Bytes
  unfolding alias_list_lookup
  unalias_mime_type list mime_type = elim (alias_list_lookup list mime_type) [
    | none ↦ mime_type
    | some lookup ↦ lookup
  ]

  -- `_xdg_mime_mime_type_equal`
  unfoldable pub mime_type_equal : List Entry → Bytes → Bytes → Bool
  unfolding unalias_mime_type
  mime_type_equal list mime_a mime_b =
      str_eq (unalias_mime_type list mime_a) (unalias_mime_type list mime_b)
