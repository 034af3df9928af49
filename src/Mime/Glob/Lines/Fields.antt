-- ===== src/Mime/Glob/Lines/Fields.antt =====
-- The lines that src/mime/xdgmimeglob.c reads from globs2 files.
use mathlib.Core.List.{append-nil}
use mathlib.Core.Path.{fun_ext}
use libxdg.Base.{
  ℕ, ◌≡◌, ◌≢◌, refl, ap, ◌∙◌, Bool, true, false, Option, some, List, All, [], ◌∷◌, ◌++◌, ◌==◌,
  ==-ne,
}
use libxdg.Base.Int.{ℤ}
use libxdg.Base.Text.{Bytes, codes, strchr, Lacks, strchr-append, strchr-none}
use libxdg.Mime.Table.Lines.{IsLine, file_of, ended, cstr-line, fgets_lines-file_of}
use libxdg.Mime.Glob.Tree.{GlobEntry}
use libxdg.Mime.Glob.Hash.{GlobHash, append_glob}
use libxdg.Mime.Glob.Lines.{
  colon, strip_newline, glob_fields, parse_line, read_lines, then_lines, glob_read_from_file,
}

-- The ending of a line for an entry whose case counts, or does not.
abbrev pub flag_text : Bool → Bytes
flag_text true = codes ":cs"
flag_text false = []

-- A line of globs2.
abbrev pub line_of : Bytes → Bytes → Bytes → Bool → Bytes
line_of weight mime_type glob case_sensitive =
    weight ++ (colon ∷ (mime_type ++ (colon ∷ (glob ++ flag_text case_sensitive))))

strip_newline-append : (s : Bytes) → strip_newline (s ++ (10 ∷ [])) ≡ s
unfolding strip_newline
strip_newline-append [] = refl
strip_newline-append (c ∷ []) = refl
strip_newline-append (c ∷ d ∷ s) = ap (◌∷◌ c) (strip_newline-append (d ∷ s))

flags_field :
    (mime_type : Bytes) (w : ℤ) (glob : Bytes) (case_sensitive : Bool)
    → Lacks colon glob
    → glob_fields true w (some (mime_type, glob ++ flag_text case_sensitive))
      ≡ some (glob, record { mime_type = mime_type; weight = w; case_sensitive = case_sensitive })
unfolding glob_fields strchr
flags_field mime_type w glob true h = rw (strchr-append colon glob (codes "cs") h) refl
flags_field mime_type w glob false h = rw (append-nil glob, strchr-none colon glob h) refl

-- A pattern with its entry, and the text of its weight.
pub record GlobRow : Type 0 where
  pub weight : Bytes
  pub mime_type : Bytes
  pub glob : Bytes
  pub case_sensitive : Bool

abbrev pub row_text : GlobRow → Bytes
row_text r = line_of r.weight r.mime_type r.glob r.case_sensitive

abbrev pub row_texts : List GlobRow → List Bytes
row_texts [] = []
row_texts (r ∷ rs) = row_text r ∷ row_texts rs

-- A weight that is not empty.
abbrev pub IsWeight : Bytes → Type 0
IsWeight [] = ⊥
IsWeight (c ∷ weight) = c ≢ b'#'

-- A row whose line fits, is no comment and has no colons but those between its parts.
abbrev pub IsGlobRow : GlobRow → Type 0
IsGlobRow r =
    IsLine (row_text r)
    × IsWeight r.weight
    × Lacks colon r.weight
    × Lacks colon r.mime_type
    × Lacks colon r.glob

module _ (atoi : Bytes → ℤ) where
  parse_line-line_of :
      (c : ℕ) (weight mime_type glob : Bytes) (case_sensitive : Bool)
      → c ≢ b'#'
      → Lacks colon (c ∷ weight)
      → Lacks colon mime_type
      → Lacks colon glob
      → parse_line atoi true (line_of (c ∷ weight) mime_type glob case_sensitive ++ (10 ∷ []))
        ≡ some (
          glob,
          record {
            mime_type = mime_type;
            weight = atoi (c ∷ weight);
            case_sensitive = case_sensitive;
          },
        )
  unfolding parse_line
  parse_line-line_of c weight mime_type glob case_sensitive n h k l =
      let plain : (c == b'#') ≡ false = ==-ne c b'#' n in
      rw
        (
          plain,
          strip_newline-append (line_of (c ∷ weight) mime_type glob case_sensitive),
          strchr-append colon (c ∷ weight)
              (mime_type ++ (colon ∷ (glob ++ flag_text case_sensitive))) h,
          strchr-append colon mime_type (glob ++ flag_text case_sensitive) k,
        )
        (flags_field mime_type (atoi (c ∷ weight)) glob case_sensitive l)

  abbrev pub row_entry : GlobRow → GlobEntry
  row_entry r = record {
    mime_type = r.mime_type;
    weight = atoi r.weight;
    case_sensitive = r.case_sensitive;
  }

  -- The appends of the patterns with their entries, one after the other.
  abbrev pub append_rows : GlobHash → List GlobRow → Option GlobHash
  append_rows hash [] = some hash
  append_rows hash (r ∷ rs) =
      then_lines atoi (λ hash'. append_rows hash' rs) (append_glob hash r.glob (row_entry r))

  parse_line-row :
      (w mime_type glob : Bytes) (case_sensitive : Bool)
      → IsWeight w
      → Lacks colon w
      → Lacks colon mime_type
      → Lacks colon glob
      → parse_line atoi true (line_of w mime_type glob case_sensitive ++ (10 ∷ []))
        ≡ some (
          glob,
          record { mime_type = mime_type; weight = atoi w; case_sensitive = case_sensitive },
        )
  parse_line-row [] mime_type glob case_sensitive n h k l = absurd n
  parse_line-row (c ∷ w) mime_type glob case_sensitive n h k l =
      parse_line-line_of c w mime_type glob case_sensitive n h k l

  read_lines-rows :
      (rs : List GlobRow) (hash : GlobHash)
      → All IsGlobRow rs
      → read_lines atoi true (ended (row_texts rs)) hash ≡ append_rows hash rs
  unfolding read_lines
  read_lines-rows [] hash h = refl
  read_lines-rows (r ∷ rs) hash ((line, weight, w, m, g), more) =
      rw
        (
          cstr-line (row_text r) line.0,
          parse_line-row r.weight r.mime_type r.glob r.case_sensitive weight w m g,
        )
        (ap (λ f. then_lines atoi f (append_glob hash r.glob (row_entry r)))
          (fun_ext λ hash'. read_lines-rows rs hash' more))

  row_texts-IsLine : (rs : List GlobRow) → All IsGlobRow rs → All IsLine (row_texts rs)
  row_texts-IsLine [] h = tt
  row_texts-IsLine (r ∷ rs) h = (h.0.0, row_texts-IsLine rs h.1)

  -- Reading a globs2 file whose lines join a weight, a type, a pattern and, where the case counts, the
  -- flag "cs" by colons appends exactly these patterns, in their order, each with its type, the number
  -- of its weight and its flag. The weight is not empty and does not begin with a '#', none of the parts
  -- has a colon, and a line has at most 253 bytes with its end behind it and no NUL.
  pub glob_read_from_file-append_rows :
      (rs : List GlobRow) (hash : GlobHash)
      → All IsGlobRow rs
      → glob_read_from_file atoi hash (some (file_of (row_texts rs))) true ≡ append_rows hash rs
  unfolding glob_read_from_file
  glob_read_from_file-append_rows rs hash h =
      ap (λ ls. read_lines atoi true ls hash)
        (fgets_lines-file_of (row_texts rs) (row_texts-IsLine rs h))
      ∙ read_lines-rows rs hash h
