-- ===== src/Themes/Icons.antt =====
-- The search for the file of an icon in src/themes/xdgtheme.c. `atoi` of the C library and the files
-- that `stat` finds are arguments; a result `none` is the end of the fuel or a theme that is not there.
pub mod Walk
pub mod Unmatched
use libxdg.Base.{
  ℕ, zero, suc, ◌+◌, ◌-◌, ◌^◌, Bool, true, false, Option, none, some, List, [], ◌∷◌, ◌++◌,
  if◌then◌else◌, length, take, ltb,
}
use libxdg.Base.Faults.{◌>>=◌, ◌>>◌}
use libxdg.Base.Int.{ℤ, pos}
use libxdg.Base.Text.{Bytes, codes, str_eq, strchr}
use libxdg.BaseDirectory.{Env, search_in_each_theme_dir}
use libxdg.Themes.{Group, Theme, ThemeMap, search_map}
use libxdg.Themes.Sizes.{Closest, directory_matches_size_and_context, context_at, contextes}

abbrev pub icon_extensions : List Bytes
icon_extensions = codes "png" ∷ codes "svg" ∷ codes "xpm" ∷ []

module _ (is_file : Bytes → Bool) where
  -- The loop over the extensions, which the first file ends.
  unfoldable pub file_in_subdir : Bytes → Bytes → List Bytes → Option Bytes
  file_in_subdir sub_dir icon [] = none
  file_in_subdir sub_dir icon (e ∷ extensions) =
      let rest = file_in_subdir sub_dir icon extensions in
      let file_name = sub_dir ++ (codes "/" ++ (icon ++ (codes "." ++ e))) in
      if is_file file_name then some file_name else rest

  abbrev pub later_or : Option Bytes → Option Bytes → Option Bytes
  later_or res none = res
  later_or res (some file_name) = some file_name

  -- The loop over the subdirectories, which no file ends.
  unfoldable pub file_in_subdirs : Bytes → Bytes → List Bytes → Option Bytes → Option Bytes
  unfolding file_in_subdir
  file_in_subdirs theme_dir icon [] res = res
  file_in_subdirs theme_dir icon (subdir ∷ subdirs) res =
      file_in_subdirs theme_dir icon subdirs
        (later_or res (file_in_subdir (theme_dir ++ (codes "/" ++ subdir)) icon icon_extensions))

  -- `_xdg_search_icon_file`
  unfoldable pub search_icon_file : Bytes → Bytes → List Bytes → Bytes → Option Bytes
  unfolding file_in_subdirs
  search_icon_file theme_name icon subdirs directory =
      let theme_dir = directory ++ (codes "/" ++ theme_name) in
      if is_file theme_dir then file_in_subdirs theme_dir icon subdirs none else none

  -- The call of `_xdg_search_in_each_theme_dir`.
  unfoldable pub search_themes_dirs : Env → Bytes → Bytes → List Bytes → Option (Option Bytes)
  unfolding search_icon_file search_in_each_theme_dir
  search_themes_dirs env theme_name icon subdirs = do
    found ←
        search_in_each_theme_dir (λ dir n. (n, search_icon_file theme_name icon subdirs dir)) env
          zero
    some found.1

  module _ (atoi : Bytes → ℤ) (env : Env) where
    abbrev pub matches_group : Option Group → ℤ → Bytes → Bytes → Closest → Bool × Closest
    matches_group none size context directory c = (false, c)
    matches_group (some group) size context directory c =
        directory_matches_size_and_context atoi group size context directory c

    -- The loop over the directories: those that match, and the closest one.
    unfoldable pub matching_directories :
        Theme → ℤ → Bytes → List Bytes → List Bytes × Closest → List Bytes × Closest
    unfolding directory_matches_size_and_context search_map
    matching_directories theme size context [] state = state
    matching_directories theme size context (dir ∷ dirs) (directories, c) =
        let (matches, c') = matches_group (search_map dir theme.groups) size context dir c in
        matching_directories theme size context dirs
          (if matches then directories ++ (dir ∷ []) else directories, c')

    -- `int minimal_size = INT_MAX` and `closestDirName = 0`.
    abbrev pub nothing_close : Closest
    nothing_close = record { minimal_size = pos (2 ^ 31 - 1); closest_name = none }

    -- The second search, in the closest directory, if there is one.
    abbrev pub or_closest : Bytes → Bytes → Option Bytes → Option Bytes → Option (Option Bytes)
    or_closest theme_name icon (some file) closest = some (some file)
    or_closest theme_name icon none none = some none
    or_closest theme_name icon none (some closest) =
        search_themes_dirs env theme_name icon (closest ∷ [])

    abbrev pub search_matching : Bytes → Bytes → List Bytes × Closest → Option (Option Bytes)
    search_matching theme_name icon ([], c) = some none
    search_matching theme_name icon (d ∷ ds, c) = do
      file ← search_themes_dirs env theme_name icon (d ∷ ds)
      or_closest theme_name icon file c.closest_name

    -- The values of `Directories` in the group `Icon Theme`, if there are any.
    abbrev pub values_in : Option (List Bytes) → List Bytes
    values_in none = []
    values_in (some vs) = vs

    abbrev pub directories_in : Option Group → List Bytes
    directories_in none = []
    directories_in (some group) = values_in (search_map (codes "Directories") group)

    -- `_xdg_mime_lookup_icon`
    unfoldable pub lookup_icon : Bytes → ℤ → Bytes → Bytes → Theme → Option (Option Bytes)
    unfolding matching_directories search_themes_dirs search_map
    lookup_icon icon size context name theme = search_matching name icon (
        matching_directories theme size context
          (directories_in (search_map (codes "Icon Theme") theme.groups)) ([], nothing_close))

    -- The loop over the parents, for a call that is none where it does not end.
    unfoldable pub first_icon : (Bytes → Option (Option Bytes)) → List Bytes → Option (Option Bytes)
    first_icon call [] = some none
    first_icon call (p ∷ ps) = elim (call p) [
      | none ↦ none
      | some none ↦ first_icon call ps
      | some (some file) ↦ some (some file)
    ]

    -- What follows the lookup in the theme itself.
    abbrev pub in_parents :
        (Bytes → Option (Option Bytes))
        → Bytes
        → Bytes
        → List Bytes
        → Option Bytes
        → Option (Option Bytes)
    in_parents call name hicolor parents (some file) = some (some file)
    in_parents call name hicolor [] none = if str_eq name hicolor then some none else call hicolor
    in_parents call name hicolor (p ∷ ps) none = first_icon call (p ∷ ps)

    -- `_xdg_mime_find_icon_helper`; the fuel bounds the depth of its calls of itself.
    unfoldable pub find_icon_helper :
        ℕ → ThemeMap → Bytes → ℤ → Bytes → Bytes → Bytes → Option (Option Bytes)
    unfolding lookup_icon first_icon search_map
    find_icon_helper zero themes icon size context hicolor name = none
    find_icon_helper (suc f) themes icon size context hicolor name = do
      theme ← search_map name themes
      file ← lookup_icon icon size context name theme
      in_parents (find_icon_helper f themes icon size context hicolor) name hicolor theme.parents
          file

    -- `_xdg_mime_find_icon`: the fallback finds nothing.
    abbrev pub find_icon : ℕ → ThemeMap → Bytes → ℤ → Bytes → Bytes → Bytes → Option (Option Bytes)
    find_icon fuel themes icon size context hicolor name =
        find_icon_helper fuel themes icon size context hicolor name

    abbrev pub with_themes : ThemeMap → Bytes → Option (Option Bytes) → Option (Option Bytes)
    with_themes themes name found = elim (search_map (codes "hicolor") themes) [
      | none ↦ some none
      | some hicolor ↦ elim (search_map name themes) [ none ↦ some none | some theme ↦ found ]
    ]

    -- `xdg_icon_lookup` with a context of its type.
    unfoldable pub icon_lookup : ℕ → ThemeMap → Bytes → ℤ → ℕ → Bytes → Option (Option Bytes)
    unfolding find_icon_helper
    icon_lookup fuel themes icon size context theme_name = with_themes themes theme_name (do
      text ← context_at contextes context
      find_icon fuel themes icon size text (codes "hicolor") theme_name)

    -- The text with `-` for the first `/`, and the text in front of it.
    abbrev pub dashed : Bytes → Option (Bytes × Bytes) → Bytes
    dashed mime none = mime
    dashed mime (some (before, behind)) = before ++ (b'-' ∷ behind)

    -- What follows the first search: a type without `/` is a write through NULL, and a result of more
    -- than 254 bytes is one behind `mimeTypeCopy`.
    abbrev pub or_generic :
        ℕ → ThemeMap → ℤ → Bytes → Option (Bytes × Bytes) → Option Bytes → Option (Option Bytes)
    or_generic fuel themes size theme_name parts (some file) = some (some file)
    or_generic fuel themes size theme_name none none = none
    or_generic fuel themes size theme_name (some (before, behind)) none =
        if ltb 254 (length (before ++ codes "-x-generic"))
        then none
        else find_icon fuel themes (before ++ codes "-x-generic") size (codes "MimeTypes")
            (codes "hicolor") theme_name

    -- `xdg_mime_type_icon_lookup`; a type of more than 255 bytes leaves `mimeTypeCopy` without an end.
    unfoldable pub mime_type_icon_lookup : ℕ → ThemeMap → Bytes → ℤ → Bytes → Option (Option Bytes)
    unfolding find_icon_helper strchr
    mime_type_icon_lookup fuel themes mime size theme_name = with_themes themes theme_name (
        if ltb 255 (length mime) then none else do
          file ←
              find_icon fuel themes (dashed mime (strchr b'/' mime)) size (codes "MimeTypes")
                (codes "hicolor") theme_name
          or_generic fuel themes size theme_name (strchr b'/' mime) file)
