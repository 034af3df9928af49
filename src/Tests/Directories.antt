-- ===== src/Tests/Directories.antt =====
-- The walks of src/basedirectory/xdgbasedirectory.c in an environment with two directories in
-- XDG_DATA_DIRS and an empty field between them.
use libxdg.Base.{
  ◌≡◌, Bool, true, false, Option, none, some, List, [], ◌∷◌, ◌++◌, ◌==◌, length, arith,
}
use libxdg.Base.Text.{Bytes, codes}
use libxdg.BaseDirectory.{Env, for_each_data_dir, search_in_each_theme_dir}
use libxdg.BaseDirectory.Visits.{data_dirs, theme_dirs, visit, for_each_data_dir-visit}
use libxdg.BaseDirectory.Find.{visit_find, search_in_each_theme_dir-visit}

abbrev env : Env
env = record { data_home = none; home = some (codes "/h"); data_dirs = some (codes "/a::/b") }

abbrev joined : Env
joined = record { data_home = none; home = none; data_dirs = some (codes "/a:/b") }

-- Keeps every directory and stops at one of two bytes.
abbrev keep : Bytes → List Bytes → List Bytes × Bool
keep d ds = (ds ++ (d ∷ []), length d == 2)

abbrev keep_path : Bytes → List Bytes → List Bytes × Option Bytes
keep_path d ds = (ds ++ (d ∷ []), if_two (length d == 9) d)
  where
    if_two : Bool → Bytes → Option Bytes
    if_two true d = some d
    if_two false d = none

for_each_data_dir-visit_example :
    for_each_data_dir keep env [] ≡ some (visit keep (data_dirs env) [])
for_each_data_dir-visit_example = for_each_data_dir-visit keep env [] (omega arith)

search_in_each_theme_dir-visit_example :
    search_in_each_theme_dir keep_path env [] ≡ some (visit_find keep_path (theme_dirs env) [])
search_in_each_theme_dir-visit_example =
    search_in_each_theme_dir-visit keep_path env [] (omega arith)
