-- ===== src/Mime/Glob/Hash.antt =====
-- The table of file name patterns of src/mime/xdgmimeglob.c: literal names, the tree for patterns
-- of the form *text, and the list of all other patterns. `qsort` and `fnmatch` of the C library are
-- arguments. A result `none` is a read or a write out of bounds, or a failed assertion.
pub mod Kinds
pub mod Search
pub mod Append
pub mod Found
use mathlib.Core.List.{reverse}
use libxdg.Base.{
  ℕ, zero, suc, ◌+◌, ◌-◌, Bool, true, false, not, ◌&&◌, ◌||◌, Option, none, some, List, [], ◌∷◌,
  ◌++◌, ltb, leb, ◌==◌, if◌then◌else◌, length, some_of, take, map,
}
use libxdg.Base.Int.{ℤ}
use libxdg.Base.Text.{Bytes, str_eq}
use libxdg.Mime.Glob.Tree.{GlobEntry, HashNode, nil, MimeWeight, insert_ucs4, lookup_node}
use libxdg.Mime.Unicode.{utf8_skip, convert_to_ucs4, reverse_ucs4}

-- An element of `XdgGlobList`; the field `data` is `text` here.
pub record GlobItem : Type 0 where
  pub text : Bytes
  pub entry : GlobEntry

pub record GlobHash : Type 0 where
  pub literal_list : List GlobItem
  pub simple_node : HashNode
  pub full_list : List GlobItem

abbrev pub empty_hash : GlobHash
empty_hash = record { literal_list = []; simple_node = nil; full_list = [] }

-- The test of the search loop of `_xdg_glob_list_append`.
abbrev pub same_item : GlobItem → GlobItem → Bool
same_item new old = str_eq old.text new.text && str_eq old.entry.mime_type new.entry.mime_type

unfoldable pub glob_list_append : List GlobItem → GlobItem → List GlobItem
glob_list_append items new = if some_of (same_item new) items then items else items ++ (new ∷ [])

pub data GlobType : Type 0 where
  literal simple full : GlobType

abbrev pub star : ℕ
star = b'*'

-- The characters other than a first star that make a pattern a full one.
abbrev pub is_special : ℕ → Bool
is_special c = c == 92 || c == b'[' || c == b'?' || c == star

-- The loop of `_xdg_glob_determine_type`. The number counts the bytes to pass over, the flags are
-- `first_char` and `maybe_in_simple_glob`.
unfoldable pub type_loop : ℕ → Bool → Bool → Bytes → Option GlobType
type_loop zero first maybe [] = some (if maybe then simple else literal)
type_loop (suc k) first maybe [] = none
type_loop zero first maybe (c ∷ s) =
    let onward = type_loop (utf8_skip c - 1) false (c == star && first || maybe) s in
    if c == star && first then onward else if is_special c then some full else onward
type_loop (suc k) first maybe (c ∷ s) = type_loop k first maybe s

unfoldable pub determine_type : Bytes → Option GlobType
unfolding type_loop utf8_skip
determine_type glob = type_loop 0 true false glob

-- `_xdg_glob_hash_insert_text`
unfoldable pub insert_text : HashNode → Bytes → GlobEntry → Option HashNode
unfolding convert_to_ucs4 reverse_ucs4 insert_ucs4
insert_text n text e = elim (convert_to_ucs4 text) [
  | none ↦ none
  | some unitext ↦ insert_ucs4 (reverse_ucs4 unitext (length unitext)) e n
]

abbrev pub rest_of : Bytes → Bytes
rest_of [] = []
rest_of (c ∷ s) = s

abbrev pub with_tree : GlobHash → Option HashNode → Option GlobHash
with_tree hash none = none
with_tree hash (some n) = some (record hash { simple_node = n })

-- The `switch` of `_xdg_glob_hash_append_glob`.
unfoldable pub append_as : GlobHash → Bytes → GlobEntry → Option GlobType → Option GlobHash
unfolding glob_list_append
append_as hash glob e none = none
append_as hash glob e (some literal) = some (record hash {
  literal_list = glob_list_append hash.literal_list (record { text = glob; entry = e });
})
append_as hash glob e (some simple) = with_tree hash (insert_text hash.simple_node (rest_of glob) e)
append_as hash glob e (some full) = some (record hash {
  full_list = glob_list_append hash.full_list (record { text = glob; entry = e });
})

unfoldable pub append_glob : GlobHash → Bytes → GlobEntry → Option GlobHash
unfolding determine_type append_as insert_text
append_glob hash glob e = append_as hash glob e (determine_type glob)

-- `ascii_tolower`
abbrev pub to_lower : ℕ → ℕ
to_lower c = if leb b'A' c && leb c b'Z' then c - b'A' + b'a' else c

abbrev pub ascii_tolower : Bytes → Bytes
ascii_tolower = map to_lower

-- The two loops over the literal names: the first item that passes a test.
abbrev pub literal_type : (GlobItem → Bool) → List GlobItem → Option Bytes
literal_type test [] = none
literal_type test (i ∷ items) =
    let rest = literal_type test items in if test i then some i.entry.mime_type else rest

abbrev pub exact_test : Bytes → GlobItem → Bool
exact_test file_name i = str_eq i.text file_name

abbrev pub lower_test : Bytes → GlobItem → Bool
lower_test lower_case i = not i.entry.case_sensitive && str_eq i.text lower_case

-- The size of the array `mimes`.
abbrev pub mimes_size : ℕ
mimes_size = 10

abbrev pub weigh : GlobItem → MimeWeight
weigh i = record { mime = i.entry.mime_type; weight = i.entry.weight }

abbrev pub cons_weigh : GlobItem → Option (List MimeWeight) → Option (List MimeWeight)
cons_weigh i none = none
cons_weigh i (some ms) = some (weigh i ∷ ms)

-- `for (list = glob_hash->full_list; list && n < n_mime_types; …)`. A write behind the array of
-- ten is a fault.
unfoldable pub full_types : (GlobItem → Bool) → ℕ → ℕ → List GlobItem → Option (List MimeWeight)
full_types matches n_mime_types n [] = some []
full_types matches n_mime_types n (i ∷ items) =
    let taken = full_types matches n_mime_types (suc n) items in
    let passed = full_types matches n_mime_types n items in
    if ltb n n_mime_types
    then (if matches i then (if ltb n mimes_size then cons_weigh i taken else none) else passed)
    else some []

-- `if (n == 0)` and the next search.
abbrev pub or_else : Option (List MimeWeight) → Option (List MimeWeight) → Option (List MimeWeight)
or_else none next = none
or_else (some []) next = next
or_else (some (m ∷ ms)) next = some (m ∷ ms)

abbrev pub answer :
    (List MimeWeight → List MimeWeight) → ℕ → Option (List MimeWeight) → Option (List Bytes)
answer qsort n_mime_types none = none
answer qsort n_mime_types (some ms) = some (map (λ m. m.mime) (take n_mime_types (qsort ms)))

-- `mime_types[0] = list->mime_type; return 1;` and what follows the loop.
abbrev pub or_literal : Option Bytes → Option (List Bytes) → Option (List Bytes)
or_literal (some m) next = some (m ∷ [])
or_literal none next = next

module _ (qsort : List MimeWeight → List MimeWeight) (fnmatch : Bytes → Bytes → Bool) where
  -- The search that follows the literal names.
  unfoldable pub pattern_types : GlobHash → Bytes → ℕ → Option (List MimeWeight)
  unfolding full_types
  pattern_types hash file_name n_mime_types =
      or_else (lookup_node hash.simple_node (reverse (ascii_tolower file_name)) false) (
        or_else (lookup_node hash.simple_node (reverse file_name) true)
          (full_types (λ i. fnmatch i.text file_name) n_mime_types 0 hash.full_list))

  -- `_xdg_glob_hash_lookup_file_name`, with the types that it writes to `mime_types`.
  unfoldable pub lookup_file_name : GlobHash → Bytes → ℕ → Option (List Bytes)
  unfolding pattern_types
  lookup_file_name hash file_name n_mime_types =
      let patterns = answer qsort n_mime_types (pattern_types hash file_name n_mime_types) in
      let lower =
        or_literal (literal_type (lower_test (ascii_tolower file_name)) hash.literal_list)
          patterns in
      let exact = or_literal (literal_type (exact_test file_name) hash.literal_list) lower in
      if n_mime_types == 0 then none else exact
