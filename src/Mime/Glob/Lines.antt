-- ===== src/Mime/Glob/Lines.antt =====
-- `_xdg_mime_glob_read_from_file` of src/mime/xdgmimeglob.c: the lines of the files globs and
-- globs2. `atoi` of the C library is an argument. A result `none` of the reader is a fault of
-- `append_glob`.
pub mod Fields
use libxdg.Base.{
  ℕ, zero, suc, Bool, true, false, ◌&&◌, ◌||◌, Option, none, some, List, [], ◌∷◌, ◌++◌, ◌==◌,
  if◌then◌else◌,
}
use libxdg.Base.Int.{ℤ, pos}
use libxdg.Base.Text.{Bytes, cstr, strchr}
use libxdg.Mime.Table.{fgets_lines, is_comment}
use libxdg.Mime.Glob.Tree.{GlobEntry}
use libxdg.Mime.Glob.Hash.{GlobHash, append_glob}

abbrev pub colon : ℕ
colon = b':'

abbrev pub comma : ℕ
comma = b','

-- `if (*end == '\n') *end = 0;`
unfoldable pub strip_newline : Bytes → Bytes
strip_newline [] = []
strip_newline (c ∷ []) = if c == 10 then [] else c ∷ []
strip_newline (c ∷ d ∷ s) = c ∷ strip_newline (d ∷ s)

abbrev pub ends_flag : Bytes → Bool
ends_flag [] = true
ends_flag (c ∷ s) = c == comma

-- The first "cs" of the flags, between commas or the ends. The number is the byte before, a comma
-- at the start.
unfoldable pub cs_flag : ℕ → Bytes → Bool
cs_flag before [] = false
cs_flag before (c ∷ []) = false
cs_flag before (c ∷ d ∷ s) =
    let rest = cs_flag c (d ∷ s) in
    if c == b'c' && d == b's' then before == comma && ends_flag s else rest

-- `if (colon != NULL) *colon = 0;`
abbrev pub first_field : Bytes → Option (Bytes × Bytes) → Bytes
first_field p none = p
first_field p (some (flags, behind)) = flags

-- The pattern and its entry, from the text behind the second colon on.
abbrev pub with_flags : Bytes → ℤ → Bytes → Option (Bytes × Bytes) → Bytes × GlobEntry
with_flags mime_type weight p none =
    (p, record { mime_type = mime_type; weight = weight; case_sensitive = false })
with_flags mime_type weight p (some (glob, behind)) = (
  glob,
  record {
    mime_type = mime_type;
    weight = weight;
    case_sensitive = cs_flag comma (first_field behind (strchr colon behind));
  },
)

abbrev pub third_colon : Bool → Bytes → Option (Bytes × Bytes)
third_colon true p = strchr colon p
third_colon false p = none

unfoldable pub glob_fields : Bool → ℤ → Option (Bytes × Bytes) → Option (Bytes × GlobEntry)
unfolding cs_flag
glob_fields version_two weight none = none
glob_fields version_two weight (some (mime_type, p)) =
    some (with_flags mime_type weight p (third_colon version_two p))

module _ (atoi : Bytes → ℤ) where
  unfoldable pub weighted_fields : Option (Bytes × Bytes) → Option (Bytes × GlobEntry)
  unfolding glob_fields
  weighted_fields none = none
  weighted_fields (some (weight, p)) = glob_fields true (atoi weight) (strchr colon p)

  abbrev pub line_fields : Bool → Bytes → Option (Bytes × GlobEntry)
  line_fields true p = weighted_fields (strchr colon p)
  line_fields false p = glob_fields false (pos 50) (strchr colon p)

  -- One line: nothing for a comment, an empty line or one without its colons.
  unfoldable pub parse_line : Bool → Bytes → Option (Bytes × GlobEntry)
  unfolding weighted_fields glob_fields strip_newline
  parse_line version_two [] = none
  parse_line version_two (c ∷ line) =
      if is_comment (c ∷ line) then none else line_fields version_two (strip_newline (c ∷ line))

  abbrev pub append_line : GlobHash → Option (Bytes × GlobEntry) → Option GlobHash
  append_line hash none = some hash
  append_line hash (some (glob, e)) = append_glob hash glob e

  abbrev pub then_lines : (GlobHash → Option GlobHash) → Option GlobHash → Option GlobHash
  then_lines f none = none
  then_lines f (some hash) = f hash

  unfoldable pub read_lines : Bool → List Bytes → GlobHash → Option GlobHash
  unfolding parse_line append_glob
  read_lines version_two [] hash = some hash
  read_lines version_two (line ∷ lines) hash =
      then_lines (read_lines version_two lines)
        (append_line hash (parse_line version_two (cstr line)))

  unfoldable pub glob_read_from_file : GlobHash → Option Bytes → Bool → Option GlobHash
  unfolding read_lines fgets_lines
  glob_read_from_file hash none version_two = some hash
  glob_read_from_file hash (some s) version_two = read_lines version_two (fgets_lines s) hash
