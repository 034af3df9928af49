-- ===== src/Mime/Watch.antt =====
-- The list of the files that src/mime/xdgmime.c has read, with their times, and the test whether
-- they have changed. `stat` is a function from a path to the time of a file that there is.
pub mod Sound
pub mod Globs2
use libxdg.Base.{
  ℕ, ◌+◌, Bool, true, false, not, Option, none, some, List, [], ◌∷◌, ◌++◌, map, leb, ◌==◌,
  if◌then◌else◌,
}
use libxdg.Base.Text.{Bytes, codes, str_eq}
use libxdg.BaseDirectory.{Env, for_each_data_dir}

-- `XDG_CHECKED_UNCHECKED`, `XDG_CHECKED_VALID` and `XDG_CHECKED_INVALID`
pub data Checked : Type 0 where
  unchecked valid invalid : Checked

-- `XdgDirTimeList`
pub record DirTime : Type 0 where
  pub mtime : ℕ
  pub directory_name : Bytes
  pub checked : Checked

unfoldable pub is_listed : List DirTime → Bytes → Bool
is_listed [] file_name = false
is_listed (e ∷ es) file_name =
    let rest = is_listed es file_name in if str_eq e.directory_name file_name then true else rest

-- `xdg_dir_time_list_add`
unfoldable pub dir_time_list_add : List DirTime → Bytes → ℕ → List DirTime
unfolding is_listed
dir_time_list_add list file_name mtime =
    if is_listed list file_name
    then list
    else (record { mtime = mtime; directory_name = file_name; checked = unchecked }) ∷ list

-- The loop of `xdg_check_file` for a file with the time `mtime`: the list, and the value returned.
unfoldable pub check_listed : ℕ → Bytes → List DirTime → List DirTime × Bool
check_listed mtime file_path [] = ([], true)
check_listed mtime file_path (e ∷ es) =
    let rest = check_listed mtime file_path es in
    if str_eq e.directory_name file_path
    then (
      (record e { checked = if mtime == e.mtime then valid else invalid }) ∷ es,
      not (mtime == e.mtime),
    )
    else (e ∷ rest.0, rest.1)

abbrev pub is_valid : Checked → Bool
is_valid unchecked = false
is_valid valid = true
is_valid invalid = false

-- The last loop of `xdg_check_dirs`.
unfoldable pub some_not_valid : List DirTime → Bool
some_not_valid [] = false
some_not_valid (e ∷ es) = let rest = some_not_valid es in if is_valid e.checked then rest else true

abbrev pub uncheck : DirTime → DirTime
uncheck e = record e { checked = unchecked }

module _ (stat : Bytes → Option ℕ) where
  -- `xdg_check_file`: the list, what it writes to `exists`, and the value returned.
  unfoldable pub check_file : Bytes → List DirTime → List DirTime × Bool × Bool
  unfolding check_listed
  check_file file_path list = elim (stat file_path) [
    | none ↦ (list, false, false)
    | some mtime ↦
        let (list', changed) = check_listed mtime file_path list in (list', true, changed)
  ]

  -- `xdg_check_dir`: the list with the flag behind `invalid_dir_list`, and the value returned.
  unfoldable pub check_dir : Bytes → List DirTime × Bool → (List DirTime × Bool) × Bool
  unfolding check_file
  check_dir directory (list, invalid_dir_list) =
      let (list1, exists, invalid1) = check_file (directory ++ codes "/mime/mime.cache") list in
      let (list2, exists2, invalid2) = check_file (directory ++ codes "/mime/globs") list1 in
      let (list3, exists3, invalid3) = check_file (directory ++ codes "/mime/magic") list2 in
      if invalid1
      then ((list1, true), true)
      else (if exists
          then ((list1, invalid_dir_list), false)
          else (if invalid2
              then ((list2, true), true)
              else (if invalid3
                  then ((list3, true), true)
                  else ((list3, invalid_dir_list), false))))

  -- `xdg_check_dirs`: the list, and the value returned.
  unfoldable pub check_dirs : Env → List DirTime → Option (List DirTime × Bool)
  unfolding check_dir some_not_valid
  check_dirs env list = elim (for_each_data_dir check_dir env (map uncheck list, false)) [
    | none ↦ none
    | some ((list', invalid_dir_list), stopped) ↦
        some (list', if invalid_dir_list then true else some_not_valid list')
  ]

  -- `xdg_check_time_and_dirs` at a time: the list, `last_stat_time`, and the value returned.
  unfoldable pub check_time_and_dirs : Env → ℕ → List DirTime → ℕ → Option (List DirTime × ℕ × Bool)
  unfolding check_dirs
  check_time_and_dirs env current_time list last_stat_time =
      let changed = check_dirs env list in
      if leb (last_stat_time + 5) current_time
      then elim changed [ none ↦ none | some (list', retval) ↦ some (list', current_time, retval) ]
      else some (list, last_stat_time, false)
