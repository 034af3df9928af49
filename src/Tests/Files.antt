-- ===== src/Tests/Files.antt =====
-- The readers of src/mime/xdgmimemagic.c on a section with two rules, and of src/mime/xdgmimeglob.c
-- on a line.
use libxdg.Base.{true, ◌≡◌, refl, none, some, List, [], ◌∷◌, ◌++◌, inl, arith}
use libxdg.Base.Text.{Bytes, codes}
use libxdg.Mime.Magic.{MagicMatch}
use libxdg.Base.Int.{ℤ, pos}
use libxdg.Mime.Table.Lines.{file_of}
use libxdg.Mime.Glob.Hash.{GlobHash}
use libxdg.Mime.Glob.Tree.{nil}
use libxdg.Mime.Glob.Lines.{glob_read_from_file}
use libxdg.Mime.Glob.Lines.Fields.{
  GlobRow, IsGlobRow, row_texts, append_rows, glob_read_from_file-append_rows,
}
use libxdg.Base.{All, arith, false}
use libxdg.Mime.Magic.Swap.{swap_loop}
use libxdg.Mime.Magic.Swap.Overflow.{swap_loop-overflow}
use libxdg.Mime.Magic.File.{read_magic_file}
use libxdg.Mime.Magic.File.Total.{Ends, read_magic_file-Ends}

abbrev file : Bytes
file =
    codes "[50:a/zip]"
    ++ (10 ∷ codes ">0="
        ++ (0 ∷ 2 ∷ codes "PK" ++ (10 ∷ codes "1>4=" ++ (0 ∷ 1 ∷ codes "z+3" ++ (10 ∷ [])))))

abbrev before : List MagicMatch
before = (record { mime_type = codes "a/b"; priority = 80; matchlets = [] }) ∷ []

read_magic_file-Ends_example : Ends (read_magic_file before file)
read_magic_file-Ends_example = read_magic_file-Ends before file (tt, tt)

swap_loop-overflow_example : swap_loop 4 2 0 (1 ∷ 2 ∷ 3 ∷ 4 ∷ []) none ≡ none
swap_loop-overflow_example =
    swap_loop-overflow 2 0 (1 ∷ 2 ∷ 3 ∷ 4 ∷ []) none (inl refl) (omega arith)

-- Every weight is 7.
abbrev seven : Bytes → ℤ
seven weight = pos 7

abbrev empty_hash : GlobHash
empty_hash = record { literal_list = []; simple_node = nil; full_list = [] }

-- Two lines, one with the flag.
abbrev globs : List GlobRow
globs =
    (record {
      weight = codes "50";
      mime_type = codes "a/b";
      glob = codes "*.c";
      case_sensitive = true;
    })
    ∷ (record {
      weight = codes "7";
      mime_type = codes "a/d";
      glob = codes "x*";
      case_sensitive = false;
    })
    ∷ []

globs-IsGlobRow : All (IsGlobRow) globs
globs-IsGlobRow = ground arith

glob_read_from_file-append_rows_example :
    glob_read_from_file seven empty_hash (some (file_of (row_texts globs))) true
    ≡ append_rows seven empty_hash globs
glob_read_from_file-append_rows_example =
    glob_read_from_file-append_rows seven globs empty_hash globs-IsGlobRow
