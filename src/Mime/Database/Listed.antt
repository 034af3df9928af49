-- ===== src/Mime/Database/Listed.antt =====
-- The files that src/mime/xdgmime.c lists when it reads a directory of data.
use libxdg.Base.{
  ℕ, ◌≡◌, refl, inl, inr, Bool, true, false, Option, none, some, List, [], ◌∷◌, ◌++◌, Any, arith,
  Bool-cases, Option-cases,
}
use libxdg.Base.Int.{ℤ}
use libxdg.Base.Text.{Bytes, codes, str_eq, str_eq_iff}
use libxdg.Mime.Glob.Hash.{GlobHash}
use libxdg.Mime.Magic.{MimeMagic}
use libxdg.Mime.Table.{Entry}
use libxdg.Mime.Parents.{MimeParents}
use libxdg.Mime.Watch.{DirTime, is_listed, dir_time_list_add}
use libxdg.Mime.Database.{
  FileSystem, Database, cache_new_from_file, with_hash, with_magic, then_watched, read_globs_file,
  read_globs, read_magic, tables_after, magic_after, read_text_files, init_from_directory,
  init_directory,
}

abbrev pub IsNamed : Bytes → DirTime → Type 0
IsNamed name e = e.directory_name ≡ name

is_listed-Any :
    (list : List DirTime) (name : Bytes) → is_listed list name ≡ true → Any (IsNamed name) list
unfolding is_listed
is_listed-Any [] name h = absurd (cc)
is_listed-Any (e ∷ es) name h = elim (Bool-cases (str_eq e.directory_name name)) [
  | inl n ↦ inl ((str_eq_iff e.directory_name name).0 n)
  | inr n ↦ inr (is_listed-Any es name (ground arith))
]

-- An addition puts its file on the list, and takes none off.
dir_time_list_add-listed :
    (list : List DirTime) (name : Bytes) (mtime : ℕ)
    → Any (IsNamed name) (dir_time_list_add list name mtime)
unfolding dir_time_list_add
dir_time_list_add-listed list name mtime = elim (Bool-cases (is_listed list name)) [
  | inl e ↦ rw (e, dir_time_list_add) (is_listed-Any list name e)
  | inr e ↦ rw (e, dir_time_list_add) (inl refl)
]

dir_time_list_add-kept :
    (list : List DirTime) (name other : Bytes) (mtime : ℕ)
    → Any (IsNamed other) list
    → Any (IsNamed other) (dir_time_list_add list name mtime)
unfolding dir_time_list_add
dir_time_list_add-kept list name other mtime a = elim (Bool-cases (is_listed list name)) [
  | inl e ↦ rw (e, dir_time_list_add) a
  | inr e ↦ rw (e, dir_time_list_add) (inr a)
]

-- A file is on the list, where there was no fault.
abbrev pub Lists : Bytes → Option Database → Type 0
Lists name none = Unit
Lists name (some db) = Any (IsNamed name) db.dir_time_list

with_hash-Lists :
    (name : Bytes) (db : Database) (h : Option GlobHash)
    → Lists name (some db)
    → Lists name (with_hash db h)
with_hash-Lists name db none a = tt
with_hash-Lists name db (some h) a = a

with_magic-Lists :
    (name : Bytes) (db : Database) (m : Option MimeMagic)
    → Lists name (some db)
    → Lists name (with_magic db m)
with_magic-Lists name db none a = tt
with_magic-Lists name db (some m) a = a

then_watched-kept :
    (name file : Bytes) (mtime : ℕ) (o : Option Database)
    → Lists name o
    → Lists name (then_watched o file mtime)
then_watched-kept name file mtime none a = tt
then_watched-kept name file mtime (some db) a =
    dir_time_list_add-kept db.dir_time_list file name mtime a

then_watched-listed :
    (file : Bytes) (mtime : ℕ) (o : Option Database) → Lists file (then_watched o file mtime)
then_watched-listed file mtime none = tt
then_watched-listed file mtime (some db) = dir_time_list_add-listed db.dir_time_list file mtime

module _ (atoi : Bytes → ℤ) (qsort : List Entry → List Entry)
    (qsort_parents : List MimeParents → List MimeParents) (fs : FileSystem) where
  read_globs_file-kept :
      (name file : Bytes) (two : Bool) (o : Option ℕ) (db : Database)
      → Lists name (some db)
      → Lists name (read_globs_file atoi qsort qsort_parents fs file two o db)
  unfolding read_globs_file
  read_globs_file-kept name file two none db a = a
  read_globs_file-kept name file two (some mtime) db a =
      then_watched-kept name file mtime _ (with_hash-Lists name db _ a)

  pub read_globs-kept :
      (name directory : Bytes) (o : Option ℕ) (db : Database)
      → Lists name (some db)
      → Lists name (read_globs atoi qsort qsort_parents fs directory o db)
  unfolding read_globs
  read_globs-kept name directory none db a = read_globs_file-kept name _ false _ db a
  read_globs-kept name directory (some mtime) db a =
      read_globs_file-kept name _ true (some mtime) db a

  pub read_globs-listed :
      (directory : Bytes) (mtime : ℕ) (db : Database)
      → Lists
          (directory ++ codes "/mime/globs2")
          (read_globs atoi qsort qsort_parents fs directory (some mtime) db)
  unfolding read_globs read_globs_file
  read_globs-listed directory mtime db =
      then_watched-listed (directory ++ codes "/mime/globs2") mtime _

  magic_after-kept :
      (name directory : Bytes) (o : Option Database)
      → Lists name o
      → Lists name (magic_after atoi qsort qsort_parents fs directory o)
  magic_after-kept name directory none a = tt
  magic_after-kept name directory (some db) a =
      read_magic-kept (fs.stat (directory ++ codes "/mime/magic"))
    where
      read_magic-kept :
          (o : Option ℕ)
          → Lists name
              (read_magic atoi qsort qsort_parents fs (directory ++ codes "/mime/magic") o db)
      read_magic-kept none = unfold read_magic in a
      read_magic-kept (some mtime) =
          unfold read_magic in
          then_watched-kept name (directory ++ codes "/mime/magic") mtime _
            (with_magic-Lists name db _ a)

  tables_after-kept :
      (name directory : Bytes) (o : Option Database)
      → Lists name o
      → Lists name (tables_after atoi qsort qsort_parents fs directory o)
  tables_after-kept name directory none a = tt
  tables_after-kept name directory (some db) a = a

  pub text_files-kept :
      (name directory : Bytes) (db : Database)
      → Lists name (
          read_globs atoi qsort qsort_parents fs directory
            (fs.stat (directory ++ codes "/mime/globs2"))
            db)
      → Lists name (read_text_files atoi qsort qsort_parents fs directory db)
  unfolding read_text_files
  text_files-kept name directory db a =
      tables_after-kept name directory _ (magic_after-kept name directory _ a)

  pub init_from_directory-kept :
      (name directory : Bytes) (db : Database)
      → Lists name (some db)
      → Lists name (init_from_directory atoi qsort qsort_parents fs directory db)
  unfolding init_from_directory
  init_from_directory-kept name directory db a =
      let text = text_files-kept name directory db (read_globs-kept name directory _ db a) in
      elim (Option-cases (fs.stat (directory ++ codes "/mime/mime.cache"))) [
        | inl e ↦ rw (e, init_from_directory) text
        | inr (mtime, e) ↦
            elim (Option-cases
              (cache_new_from_file (fs.contents (directory ++ codes "/mime/mime.cache")))) [
                | inl f ↦ rw (e, f, init_from_directory) text
                | inr (buffer, f) ↦
                    rw (e, f, init_from_directory)
                      (dir_time_list_add-kept db.dir_time_list
                        (directory ++ codes "/mime/mime.cache") name mtime a)
              ]
      ]

  pub init_directory-kept :
      (name directory : Bytes) (o : Option Database)
      → Lists name o
      → Lists name (init_directory atoi qsort qsort_parents fs directory o).0
  unfolding init_directory
  init_directory-kept name directory none a = tt
  init_directory-kept name directory (some db) a = init_from_directory-kept name directory db a
