-- ===== src/Mime/Database/Sniff.antt =====
-- The types of data and of files in src/mime/xdgmime.c, without cache files: names first, then the
-- rules on contents, then the test for text.
pub mod Freed
use libxdg.Base.{
  ℕ, zero, suc, ltb, get_elem?, Bool, true, false, Option, none, some, List, [], ◌∷◌, ◌==◌,
  if◌then◌else◌, length, take, map,
}
use libxdg.Base.Text.{Bytes, codes}
use libxdg.Base.Faults.{◌>>=◌}
use libxdg.Mime.Unicode.{get_base_name, text_fallback, is_control}
use libxdg.Mime.Glob.Tree.{MimeWeight}
use libxdg.Mime.Glob.Hash.{lookup_file_name}
use libxdg.Mime.Magic.{MimeMagic, Sniffed, lookup_data}
use libxdg.Mime.Table.{Entry, mime_type_equal}
use libxdg.Mime.Database.{Database}

abbrev pub mime_type_unknown : Bytes
mime_type_unknown = codes "application/octet-stream"

abbrev pub mime_type_empty : Bytes
mime_type_empty = codes "application/x-zerosize"

abbrev pub mime_type_textplain : Bytes
mime_type_textplain = codes "text/plain"

-- `_xdg_binary_or_text_fallback`
unfoldable pub binary_or_text_fallback : Bytes → Bytes
unfolding text_fallback
binary_or_text_fallback bytes =
    if text_fallback bytes then mime_type_textplain else mime_type_unknown

-- A block of `malloc`. To free it twice is a fault, and so is to read it after `free` or behind its
-- end.
pub record Block : Type 0 where
  pub contents : Bytes
  pub is_freed : Bool

abbrev pub new_block : Bytes → Block
new_block bytes = record { contents = bytes; is_freed = false }

abbrev pub free : Block → Option Block
free block = if block.is_freed then none else some (record block { is_freed = true })

abbrev pub read_byte : Block → ℕ → Option ℕ
read_byte block i = if block.is_freed then none else get_elem? block.contents i

-- The loop of `_xdg_binary_or_text_fallback` on a block, from an index on, for the rounds left.
unfoldable pub fallback_loop : ℕ → ℕ → Block → ℕ → Option Bytes
fallback_loop zero i block len = some mime_type_textplain
fallback_loop (suc n) i block len = elim (ltb i len) [
  | false ↦ some mime_type_textplain
  | true ↦ elim (read_byte block i) [
    | none ↦ none
    | some c ↦ elim (is_control c) [
      | true ↦ some mime_type_unknown
      | false ↦ fallback_loop n (suc i) block len
    ]
  ]
]

-- `_xdg_binary_or_text_fallback` on a block and a length.
unfoldable pub block_fallback : Block → ℕ → Option Bytes
unfolding fallback_loop
block_fallback block len = fallback_loop 32 0 block len

-- A file: whether it is a regular one, and what reading it gives: none where it cannot be opened, and
-- none within where `ferror` holds.
pub record File : Type 0 where
  pub is_regular : Bool
  pub reading : Option (Option Bytes)

abbrev pub or_fallback : Option Bytes → Option Bytes → Option Bytes
or_fallback none fallback = fallback
or_fallback (some mime_type) fallback = some mime_type

module _ (qsort : List MimeWeight → List MimeWeight) (fnmatch : Bytes → Bytes → Bool)
    (bsearch : Bytes → List Entry → Option Entry) (db : Database) where
  -- `_xdg_mime_magic_lookup_data` with the equality of types behind it.
  unfoldable pub sniff : Bytes → List Bytes → Sniffed
  unfolding lookup_data
  sniff bytes mime_types =
      lookup_data (mime_type_equal bsearch db.alias_list) db.global_magic bytes
        (map some mime_types)

  -- `xdg_mime_get_mime_type_for_data`: the type, and what it writes to `result_prio`.
  unfoldable pub get_mime_type_for_data : Bytes → Bytes × ℕ
  unfolding sniff binary_or_text_fallback
  get_mime_type_for_data [] = (mime_type_empty, 100)
  get_mime_type_for_data (c ∷ bytes) = elim (sniff (c ∷ bytes) []).mime_type [
    | none ↦ (binary_or_text_fallback (c ∷ bytes), (sniff (c ∷ bytes) []).prio)
    | some mime_type ↦ (mime_type, (sniff (c ∷ bytes) []).prio)
  ]

  -- The lookup in what was read, which is freed behind it, and what follows.
  unfoldable pub type_of_data : List Bytes → Bytes → Option Bytes
  unfolding sniff block_fallback
  type_of_data mime_types bytes = do
    block ← free (new_block bytes)
    or_fallback (sniff bytes mime_types).mime_type (block_fallback block (length bytes))

  -- From `fopen` on.
  abbrev pub type_of_reading : List Bytes → Option (Option Bytes) → Option Bytes
  type_of_reading mime_types none = some mime_type_unknown
  type_of_reading mime_types (some none) = some mime_type_unknown
  type_of_reading mime_types (some (some s)) =
      type_of_data mime_types (take db.global_magic.max_extent s)

  -- From the test of `statbuf` on; none is a file for which `stat` fails.
  abbrev pub type_of_file : List Bytes → Option File → Option Bytes
  type_of_file mime_types none = some mime_type_unknown
  type_of_file mime_types (some file) =
      if file.is_regular then type_of_reading mime_types file.reading else some mime_type_unknown

  abbrev pub type_of_names : Option (List Bytes) → Option File → Option Bytes
  type_of_names none file = none
  type_of_names (some []) file = type_of_file [] file
  type_of_names (some (t ∷ [])) file = some t
  type_of_names (some (t ∷ u ∷ ts)) file = type_of_file (t ∷ u ∷ ts) file

  -- `xdg_mime_get_mime_type_for_file`; a result `none` is a fault.
  unfoldable pub get_mime_type_for_file : Bytes → Option File → Option Bytes
  unfolding type_of_data
  get_mime_type_for_file file_name file =
      type_of_names (lookup_file_name qsort fnmatch db.global_hash (get_base_name file_name) 5) file

  abbrev pub first_or_unknown : List Bytes → Bytes
  first_or_unknown [] = mime_type_unknown
  first_or_unknown (t ∷ ts) = t

  abbrev pub first_if_any : Option (List Bytes) → Option Bytes
  first_if_any none = none
  first_if_any (some ts) = some (first_or_unknown ts)

  -- `xdg_mime_get_mime_type_from_file_name`
  unfoldable pub get_mime_type_from_file_name : Bytes → Option Bytes
  unfolding lookup_file_name
  get_mime_type_from_file_name file_name =
      first_if_any (lookup_file_name qsort fnmatch db.global_hash file_name 1)
