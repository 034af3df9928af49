-- ===== src/Mime/Database.antt =====
-- The data behind src/mime/xdgmime.c: what is read from the data directories, the reload, and the
-- lookups without cache files. The static variables are the record `Database`; a result `none` is a
-- fault of a reader or of a lookup.
mod Listed
pub mod Reload
pub mod Sniff
use libxdg.Base.{
  ℕ, ◌+◌, ◌*◌, Bool, true, false, ◌&&◌, not, Option, none, some, List, [], ◌∷◌, ◌++◌, ltb, leb,
  ◌==◌, if◌then◌else◌, length, take, map,
}
use libxdg.Base.Int.{ℤ}
use libxdg.Base.Text.{Bytes, codes}
use libxdg.BaseDirectory.{Env, for_each_data_dir}
use libxdg.Mime.Unicode.{get_base_name, text_fallback}
use libxdg.Mime.Glob.Hash.{GlobItem, GlobHash, empty_hash, lookup_file_name}
use libxdg.Mime.Glob.Lines.{glob_read_from_file}
use libxdg.Mime.Magic.{MimeMagic, Sniffed, lookup_data}
use libxdg.Mime.Magic.File.{read_from_file}
use libxdg.Mime.Table.{Entry, alias_read_from_file, icon_read_from_file, mime_type_equal}
use libxdg.Mime.Parents.{MimeParents, parent_read_from_file}
use libxdg.Mime.Watch.{DirTime, dir_time_list_add}

-- What `stat` says of the time of a file, and what a file that can be opened holds.
pub record FileSystem : Type 0 where
  pub stat : Bytes → Option ℕ
  pub contents : Bytes → Option Bytes

-- The static variables; a cache is the bytes of its file.
pub record Database : Type 0 where
  pub global_hash : GlobHash
  pub global_magic : MimeMagic
  pub alias_list : List Entry
  pub parent_list : List MimeParents
  pub icon_list : List Entry
  pub generic_icon_list : List Entry
  pub dir_time_list : List DirTime
  pub caches : List Bytes

-- The lists that `_xdg_mime_init` makes new.
abbrev pub empty_database : Database
empty_database = record {
  global_hash = empty_hash;
  global_magic = record { match_list = []; max_extent = 0 };
  alias_list = [];
  parent_list = [];
  icon_list = [];
  generic_icon_list = [];
  dir_time_list = [];
  caches = [];
}

-- `MAJOR_VERSION`, and `minor` between `MINOR_VERSION_MIN` and `MINOR_VERSION_MAX`, at the front.
unfoldable pub is_cache_version : Bytes → Bool
is_cache_version (a ∷ b ∷ c ∷ d ∷ s) =
    (256 * a + b == 1) && (leb 1 (256 * c + d) && leb (256 * c + d) 2)
is_cache_version s = false

-- `_xdg_mime_cache_new_from_file`
unfoldable pub cache_new_from_file : Option Bytes → Option Bytes
unfolding is_cache_version
cache_new_from_file none = none
cache_new_from_file (some buffer) = if is_cache_version buffer then some buffer else none

abbrev pub watched : Database → Bytes → ℕ → Database
watched db file_name mtime = record db {
  dir_time_list = dir_time_list_add db.dir_time_list file_name mtime;
}

abbrev pub with_hash : Database → Option GlobHash → Option Database
with_hash db none = none
with_hash db (some h) = some (record db { global_hash = h })

abbrev pub with_magic : Database → Option MimeMagic → Option Database
with_magic db none = none
with_magic db (some m) = some (record db { global_magic = m })

-- `xdg_dir_time_list_add` behind a reader that had no fault.
abbrev pub then_watched : Option Database → Bytes → ℕ → Option Database
then_watched none file_name mtime = none
then_watched (some db) file_name mtime = some (watched db file_name mtime)

module _ (atoi : Bytes → ℤ) (qsort : List Entry → List Entry)
    (qsort_parents : List MimeParents → List MimeParents) (fs : FileSystem) where
  -- A globs file, if it is there.
  unfoldable pub read_globs_file : Bytes → Bool → Option ℕ → Database → Option Database
  read_globs_file file_name version_two none db = some db
  read_globs_file file_name version_two (some mtime) db =
      then_watched
        (with_hash db (glob_read_from_file atoi db.global_hash (fs.contents file_name) version_two))
        file_name mtime

  -- The file globs2, or else globs.
  unfoldable pub read_globs : Bytes → Option ℕ → Database → Option Database
  unfolding read_globs_file
  read_globs directory none db =
      read_globs_file (directory ++ codes "/mime/globs") false
        (fs.stat (directory ++ codes "/mime/globs")) db
  read_globs directory (some mtime) db =
      read_globs_file (directory ++ codes "/mime/globs2") true (some mtime) db

  unfoldable pub read_magic : Bytes → Option ℕ → Database → Option Database
  read_magic file_name none db = some db
  read_magic file_name (some mtime) db =
      then_watched (with_magic db (read_from_file db.global_magic (fs.contents file_name)))
        file_name mtime

  -- The files aliases, subclasses, icons and generic-icons.
  abbrev pub read_tables : Bytes → Database → Database
  read_tables directory db = record db {
    alias_list =
        alias_read_from_file qsort db.alias_list (fs.contents (directory ++ codes "/mime/aliases"));
    parent_list =
        parent_read_from_file qsort_parents db.parent_list
          (fs.contents (directory ++ codes "/mime/subclasses"));
    icon_list =
        icon_read_from_file qsort db.icon_list (fs.contents (directory ++ codes "/mime/icons"));
    generic_icon_list =
        icon_read_from_file qsort db.generic_icon_list
          (fs.contents (directory ++ codes "/mime/generic-icons"));
  }

  abbrev pub tables_after : Bytes → Option Database → Option Database
  tables_after directory none = none
  tables_after directory (some db) = some (read_tables directory db)

  abbrev pub magic_after : Bytes → Option Database → Option Database
  magic_after directory none = none
  magic_after directory (some db) =
      read_magic (directory ++ codes "/mime/magic") (fs.stat (directory ++ codes "/mime/magic")) db

  -- The files of text of a directory.
  unfoldable pub read_text_files : Bytes → Database → Option Database
  unfolding read_globs read_magic
  read_text_files directory db = tables_after directory (
      magic_after directory (read_globs directory (fs.stat (directory ++ codes "/mime/globs2")) db))

  -- The cache file in the place of the files of text.
  abbrev pub with_cache : Database → Bytes → ℕ → Bytes → Database
  with_cache db file_name mtime buffer = record db {
    dir_time_list = dir_time_list_add db.dir_time_list file_name mtime;
    caches = db.caches ++ (buffer ∷ []);
  }

  -- `xdg_mime_init_from_directory`
  unfoldable pub init_from_directory : Bytes → Database → Option Database
  unfolding read_text_files cache_new_from_file
  init_from_directory directory db = elim (fs.stat (directory ++ codes "/mime/mime.cache")) [
    | none ↦ read_text_files directory db
    | some mtime ↦
        elim (cache_new_from_file (fs.contents (directory ++ codes "/mime/mime.cache"))) [
          | none ↦ read_text_files directory db
          | some buffer ↦ some (with_cache db (directory ++ codes "/mime/mime.cache") mtime buffer)
        ]
  ]

  -- The call for each directory; a fault stays.
  unfoldable pub init_directory : Bytes → Option Database → Option Database × Bool
  unfolding init_from_directory
  init_directory directory none = (none, true)
  init_directory directory (some db) = (init_from_directory directory db, false)

  -- `_xdg_mime_init`
  unfoldable pub mime_init : Env → Option Database
  unfolding init_directory
  mime_init env = elim (for_each_data_dir init_directory env (some empty_database)) [
    | none ↦ none
    | some (db, stopped) ↦ db
  ]
