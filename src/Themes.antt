-- ===== src/Themes.antt =====
-- src/themes/xdgtheme.c: icon themes. A tree of the source is an association list, since the code
-- only adds keys and looks them up; a pointer to a theme is the name under which the tree has it.
pub mod Sizes
pub mod Icons
pub mod Values
use libxdg.Base.{
  ℕ, zero, suc, ◌+◌, ◌-◌, Bool, true, false, ◌||◌, Option, none, some, List, [], ◌∷◌, ◌++◌, ltb,
  ◌==◌, if◌then◌else◌, length, take, drop, drop_while, take_while,
}
use mathlib.Core.List.{reverse}
use libxdg.Base.Text.{Bytes, codes, cstr, str_eq, strchr}
use libxdg.BaseDirectory.{Env, for_each_theme_dir}

-- `search_node`
unfoldable pub search_map {ℓ} : {A : Type ℓ} → Bytes → List (Bytes × A) → Option A
search_map key [] = none
search_map key ((k, a) ∷ map) =
    let rest = search_map key map in if str_eq k key then some a else rest

-- `search_or_create_node`, an initial value for a new node, and a change of the value there.
unfoldable pub change_map {ℓ} :
    {A : Type ℓ} → Bytes → A → (A → A) → List (Bytes × A) → List (Bytes × A)
change_map key new f [] = (key, f new) ∷ []
change_map key new f ((k, a) ∷ map) =
    let rest = change_map key new f map in if str_eq k key then (k, f a) ∷ map else (k, a) ∷ rest

-- `XdgThemeGroup`: the entries with their values.
abbrev pub Group : Type 0
Group = List (Bytes × List Bytes)

-- `XdgTheme`
pub record Theme : Type 0 where
  pub parents : List Bytes
  pub groups : List (Bytes × Group)

abbrev pub new_theme : Theme
new_theme = record { parents = []; groups = [] }

-- `XdgThemes`
abbrev pub ThemeMap : Type 0
ThemeMap = List (Bytes × Theme)

-- `_xdg_theme_map_item_add`
abbrev pub theme_map_item_add : Bytes → ThemeMap → ThemeMap
theme_map_item_add name themes = change_map name new_theme (λ t. t) themes

-- `REMOVE_WHITE_SPACES_LEFT` on a reversed text: its last byte, the first of the line, stays.
unfoldable pub drop_inner : Bytes → Bytes
drop_inner [] = []
drop_inner (c ∷ []) = c ∷ []
drop_inner (c ∷ d ∷ s) = let rest = drop_inner (d ∷ s) in if c == b' ' then rest else c ∷ d ∷ s

abbrev pub remove_white_spaces_left : Bytes → Bytes
remove_white_spaces_left s = reverse (drop_inner (reverse s))

-- `REMOVE_WHITE_SPACES_RIGHT`
abbrev pub remove_white_spaces_right : Bytes → Bytes
remove_white_spaces_right s = drop_while (λ c. c == b' ') s

-- The value behind the last comma, if it is not empty.
abbrev pub last_value : Bytes → List Bytes
last_value [] = []
last_value (c ∷ s) = (c ∷ s) ∷ []

-- The loop over the values, with the part of a value that was passed.
unfoldable pub split_values : Bytes → Bytes → List Bytes
split_values value [] = last_value value
split_values value (c ∷ s) =
    let next = split_values [] s in
    let onward = split_values (value ++ (c ∷ [])) s in
    if c == 10 then last_value value else if c == b',' then value ∷ next else onward

-- `_xdg_list_theme_item_add` on the parents of a theme.
abbrev pub list_theme_item_add : Bytes → Theme → Theme
list_theme_item_add p t = record { parents = t.parents ++ (p ∷ []); groups = t.groups }

-- `_xdg_list_theme_item_add` and `_xdg_theme_map_item_add` for each value of `Inherits`.
unfoldable pub add_theme_parents : Bytes → List Bytes → ThemeMap → ThemeMap
unfolding change_map
add_theme_parents name [] themes = themes
add_theme_parents name (p ∷ ps) themes =
    add_theme_parents name ps
      (change_map name new_theme (list_theme_item_add p) (theme_map_item_add p themes))

-- `_xdg_list_string_item_add` for each value of an entry of a theme.
abbrev pub with_values : Bytes → Bytes → List Bytes → Theme → Theme
with_values group key values t = record {
  parents = t.parents;
  groups = change_map group [] (change_map key [] (λ vs. vs ++ values)) t.groups;
}

unfoldable pub add_values : Bytes → Bytes → Bytes → List Bytes → ThemeMap → ThemeMap
unfolding change_map
add_values name group key values themes =
    change_map name new_theme (with_values group key values) themes

-- What is done with a key and its values.
abbrev pub read_pair : Bytes → Bytes → Bytes → List Bytes → ThemeMap → ThemeMap
read_pair name group key values themes =
    if str_eq key (codes "Inherits")
    then add_theme_parents name values (add_values name group key values themes)
    else add_values name group key values themes

-- `_xdg_theme_group_read_entry`
unfoldable pub theme_group_read_entry : Bytes → Bytes → Bytes → ThemeMap → ThemeMap
unfolding split_values add_values add_theme_parents strchr
theme_group_read_entry name group line themes = elim (strchr b'=' line) [
  | none ↦ themes
  | some (before, behind) ↦
      read_pair name group (remove_white_spaces_left before)
        (split_values [] (remove_white_spaces_right behind)) themes
]

-- `READ_FROM_FILE_BUFFER_SIZE`
abbrev pub buffer_size : ℕ
buffer_size = 1024

abbrev pub closed_line : Bytes → List Bytes → List Bytes
closed_line [] lines = lines
closed_line (c ∷ line) lines = (c ∷ line) ∷ lines

-- What `fgets` reads call by call: the rest of a line with room for some bytes, and the later lines.
unfoldable pub cut_lines : ℕ → Bytes → Bytes × List Bytes
cut_lines room [] = ([], [])
cut_lines room (c ∷ s) =
    let last = c == 10 || room == 1 in
    let rest = cut_lines (if last then buffer_size - 1 else room - 1) s in
    if last then (c ∷ [], closed_line rest.0 rest.1) else (c ∷ rest.0, rest.1)

-- A new group, or none where the line has no `]`.
abbrev pub group_name : Option (Bytes × Bytes) → Option Bytes
group_name none = none
group_name (some (name, behind)) = some name

-- `_xdg_theme_group_map_item_add`
abbrev pub theme_group_map_item_add : Bytes → Option Bytes → ThemeMap → ThemeMap
theme_group_map_item_add name none themes = themes
theme_group_map_item_add name (some group) themes =
    change_map name new_theme
      (λ t. record { parents = t.parents; groups = change_map group [] (λ g. g) t.groups }) themes

abbrev pub is_skipped : Bytes → Bool
is_skipped [] = false
is_skipped (c ∷ line) = c == b'#' || (c == 13 || c == 10)

-- The text behind a `[` at the start of a line.
abbrev pub heading : Bytes → Option Bytes
heading [] = none
heading (c ∷ line) = if c == b'[' then some line else none

-- The loop over the lines, with the group that they belong to; an entry without one ends it.
unfoldable pub read_theme_lines : Bytes → List Bytes → Option Bytes → ThemeMap → ThemeMap
unfolding theme_group_read_entry change_map strchr
read_theme_lines name [] group themes = themes
read_theme_lines name (line ∷ lines) group themes = elim (is_skipped line) [
  | true ↦ read_theme_lines name lines group themes
  | false ↦ elim (heading line) [
    | some rest ↦
        read_theme_lines name lines (group_name (strchr b']' rest))
          (theme_group_map_item_add name (group_name (strchr b']' rest)) themes)
    | none ↦ elim group [
      | none ↦ themes
      | some g ↦ read_theme_lines name lines (some g) (theme_group_read_entry name g line themes)
    ]
  ]
]

abbrev pub theme_lines : Bytes → List Bytes
theme_lines s = let lines = cut_lines (buffer_size - 1) s in map_cstr (closed_line lines.0 lines.1)
  where
    map_cstr : List Bytes → List Bytes
    map_cstr [] = []
    map_cstr (line ∷ lines) = cstr line ∷ map_cstr lines

-- `_xdg_applications_read_theme_file`
unfoldable pub read_theme_file : ThemeMap → Bytes → Bytes → ThemeMap
unfolding read_theme_lines cut_lines
read_theme_file themes file name =
    read_theme_lines name (theme_lines file) none (theme_map_item_add name themes)

-- An entry of a directory of themes: whether it is a directory, by its type or by `lstat`, and what
-- it holds as `index.theme`, if that can be opened.
pub record ThemeEntry : Type 0 where
  pub d_name : Bytes
  pub is_directory : Bool
  pub index_theme : Option Bytes

-- `__xdg_mime_themes_read_from_directory`
abbrev pub read_theme_directory : ThemeMap → Option Bytes → Bytes → ThemeMap
read_theme_directory themes none name = themes
read_theme_directory themes (some file) name = read_theme_file themes file name

-- `_xdg_mime_themes_read_from_directory` on the entries that `readdir` gives.
unfoldable pub themes_read_from_directory : List ThemeEntry → ThemeMap → ThemeMap
unfolding read_theme_file str_eq
themes_read_from_directory [] themes = themes
themes_read_from_directory (entry ∷ entries) themes = themes_read_from_directory entries (
    if str_eq entry.d_name (codes ".") || str_eq entry.d_name (codes "..")
    then themes
    else if entry.is_directory
    then read_theme_directory themes entry.index_theme entry.d_name
    else themes)

-- `_xdg_themes_init`, with the entries of each directory, none where it cannot be opened.
unfoldable pub themes_init : (Bytes → List ThemeEntry) → Env → Option ThemeMap
unfolding themes_read_from_directory for_each_theme_dir
themes_init entries_of env =
    for_each_theme_dir (λ dir themes. (themes_read_from_directory (entries_of dir) themes, false))
      env []
