-- ===== src/Tests/Databases.antt =====
-- The database of MIME types in a file system with one directory of data, which holds a file globs2.
use libxdg.Base.{
  ℕ, ◌≡◌, refl, inl, Bool, true, false, Option, none, some, List, [], ◌∷◌, if◌then◌else◌, All,
  arith,
}
use libxdg.Base.Int.{ℤ, pos}
use libxdg.Base.Text.{Bytes, codes, strchr, strcmp, str_eq}
use libxdg.BaseDirectory.{
  Env, for_each_data_dir, user_data_dir, data_loop, scan_end, copy_dir, dir_len,
}
use libxdg.Mime.Glob.Tree.{MimeWeight, GlobEntry}
use libxdg.Mime.Glob.Hash.{empty_hash, lookup_file_name}
use libxdg.Mime.Glob.Hash.{append_glob, append_as, glob_list_append, determine_type, type_loop}
use libxdg.Mime.Glob.Lines.{
  glob_read_from_file, read_lines, parse_line, weighted_fields, glob_fields, strip_newline, cs_flag,
}
use libxdg.Mime.Unicode.{utf8_skip}
use libxdg.Mime.Magic.{
  MagicMatch, match_compare_to_data, bytes_match, match_at, compare_from, matchlet_compare_to_data,
  compare_level,
}
use libxdg.Mime.Glob.Tree.{lookup_node}
use libxdg.Mime.Glob.Hash.{pattern_types, full_types}
use libxdg.Mime.Unicode.{get_base_name}
use libxdg.Base.Text.{after_last}
use libxdg.Base.Search.{linear_search}
use libxdg.Mime.Table.{
  Entry, fgets_lines, cut, alias_read_from_file, icon_read_from_file, read_from_file,
}
use libxdg.Mime.Parents.{MimeParents, parent_read_from_file}
use libxdg.Mime.Watch.{DirTime, is_listed, dir_time_list_add, unchecked, check_dirs}
use libxdg.Mime.Watch.Sound.{files, check_dirs-unchanged}
use libxdg.Mime.Database.{
  FileSystem, Database, empty_database, mime_init, init_directory, init_from_directory,
  read_text_files, read_globs, read_globs_file, read_magic,
}
use libxdg.Mime.Database.Reload.{check_dirs-mime_init}
use libxdg.Mime.Database.Sniff.{
  File, binary_or_text_fallback, new_block, block_fallback, get_mime_type_for_data,
  get_mime_type_for_file,
}
use libxdg.Mime.Database.Sniff.Freed.{get_mime_type_for_file-freed}

abbrev env : Env
env = record { data_home = none; home = none; data_dirs = some (codes "/a") }

-- The time of one file.
abbrev stat : Bytes → Option ℕ
stat path = if str_eq path (codes "/a/mime/globs2") then some 7 else none

abbrev listed : List DirTime
listed = (record { mtime = 7; directory_name = codes "/a/mime/globs"; checked = unchecked }) ∷ []

check_dirs-unchanged_example :
    (list' : List DirTime) × (changed : Bool) × (check_dirs stat env listed ≡ some (list', changed))
    × (files list' ≡ files listed)
    × (changed ≡ false → All (λ e. stat e.directory_name ≡ some e.mtime) list')
check_dirs-unchanged_example = check_dirs-unchanged stat env listed (omega arith)

abbrev atoi : Bytes → ℤ
atoi s = pos 50

abbrev same_entries : List Entry → List Entry
same_entries es = es

abbrev same_parents : List MimeParents → List MimeParents
same_parents ps = ps

-- A line for the name x.
abbrev contents : Bytes → Option Bytes
contents path = if str_eq path (codes "/a/mime/globs2") then some (codes "50:a/b:x") else none

abbrev fs : FileSystem
fs = record { stat = stat; contents = contents }

abbrev entry : GlobEntry
entry = record { mime_type = codes "a/b"; weight = pos 50; case_sensitive = false }

abbrev db : Database
db = record empty_database {
  global_hash = record empty_hash {
    literal_list = (record { text = codes "x"; entry = entry }) ∷ [];
  };
  dir_time_list =
      (record { mtime = 7; directory_name = codes "/a/mime/globs2"; checked = unchecked }) ∷ [];
}

db-read : mime_init atoi same_entries same_parents fs env ≡ some db
unfolding mime_init for_each_data_dir user_data_dir data_loop scan_end copy_dir dir_len
    init_directory init_from_directory read_text_files read_globs read_globs_file read_magic str_eq
    strcmp dir_time_list_add is_listed glob_read_from_file read_lines fgets_lines cut parse_line
    weighted_fields glob_fields strip_newline cs_flag strchr append_glob append_as glob_list_append
    determine_type type_loop utf8_skip alias_read_from_file icon_read_from_file
    parent_read_from_file read_from_file
db-read = refl

no_cache : stat (codes "/a/mime/mime.cache") ≡ none
unfolding str_eq strcmp
no_cache = refl

globs2 : stat (codes "/a/mime/globs2") ≡ some 7
unfolding str_eq strcmp
globs2 = refl

check_dirs-mime_init_example :
    (list : List DirTime) × (check_dirs fs.stat env db.dir_time_list ≡ some (list, true))
check_dirs-mime_init_example =
    check_dirs-mime_init atoi same_entries same_parents fs (codes "/a") 7 no_cache globs2 env db
      (omega arith) (inl refl) db-read

-- A rule for the text PK at the front, and no name.
abbrev rule : MagicMatch
rule = record {
  mime_type = codes "a/zip";
  priority = 50;
  matchlets =
      (record {
        indent = 0;
        offset = 0;
        value = codes "PK";
        mask = none;
        range_length = 1;
        word_size = 1;
      })
      ∷ [];
}

abbrev rules : Database
rules = record empty_database { global_magic = record { match_list = rule ∷ []; max_extent = 2 } }

abbrev file : File
file = record { is_regular = true; reading = some (some (codes "PCX")) }

abbrev same_weights : List MimeWeight → List MimeWeight
same_weights ms = ms

abbrev never : Bytes → Bytes → Bool
never p n = false

abbrev bsearch : Bytes → List Entry → Option Entry
bsearch = linear_search (λ e. e.key)

rule-fails : match_compare_to_data rule (codes "PC") ≡ false
unfolding match_compare_to_data compare_level matchlet_compare_to_data compare_from match_at
    bytes_match
rule-fails = refl

no_name : lookup_file_name same_weights never empty_hash (get_base_name (codes "/d/x")) 5 ≡ some []
unfolding lookup_file_name pattern_types full_types lookup_node get_base_name after_last
no_name = refl

get_mime_type_for_file-freed_example :
    (get_mime_type_for_data same_weights never bsearch rules (codes "PC")
      ≡ (binary_or_text_fallback (codes "PC"), 0))
    × (block_fallback (new_block (codes "PC")) 2 ≡ some (binary_or_text_fallback (codes "PC")))
    × (get_mime_type_for_file same_weights never bsearch rules (codes "/d/x") (some file) ≡ none)
get_mime_type_for_file-freed_example =
    get_mime_type_for_file-freed same_weights never bsearch rules (codes "/d/x") b'P' (codes "C")
      (codes "PCX") file (rule-fails, tt) no_name refl refl refl
