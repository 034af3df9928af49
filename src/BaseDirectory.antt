-- ===== src/BaseDirectory.antt =====
-- src/basedirectory/xdgbasedirectory.c: the walks over the data and theme directories.
-- `getenv` is the record `Env`. A callback is a function of the directory and of the state behind
-- its `user_data`; it returns the new state and its result.
mod Fields
pub mod Visits
pub mod Find
use libxdg.Base.{
  ℕ, zero, suc, ◌+◌, ◌≡◌, refl, Bool, true, false, Option, none, some, List, [], ◌∷◌, ◌++◌, ◌==◌,
  if◌then◌else◌, length, take, drop,
}
use libxdg.Base.Text.{Bytes, codes, cstr}

-- What `getenv` returns for XDG_DATA_HOME, HOME and XDG_DATA_DIRS.
pub record Env : Type 0 where
  pub data_home : Option Bytes
  pub home : Option Bytes
  pub data_dirs : Option Bytes

abbrev pub colon : ℕ
colon = b':'

abbrev pub default_dirs : Bytes
default_dirs = codes "/usr/local/share/:/usr/share/"

abbrev pub local_share : Bytes
local_share = codes "/.local/share/"

abbrev pub user_icons : Bytes
user_icons = codes "/.icons/"

abbrev pub icons : Bytes
icons = codes "/icons/"

abbrev pub pixmaps : Bytes
pixmaps = codes "/usr/share/pixmaps/"

-- `xdg_data_dirs` after the test for NULL.
abbrev pub search_path : Env → Bytes
search_path env = elim env.data_dirs [ none ↦ default_dirs | some ds ↦ ds ]

-- `end_ptr - xdg_data_dirs` after the inner loop: the place of the first colon, or of the NUL.
unfoldable pub scan_end : Bytes → ℕ
scan_end [] = 0
scan_end (c ∷ cs) = let rest = scan_end cs in if c == colon then 0 else suc rest

-- `len`: one more where the scan ended at the NUL.
unfoldable pub dir_len : Bytes → ℕ → ℕ
dir_len (c ∷ cs) n = n
dir_len [] n = n + 1

-- The string in `dir` after `malloc`, `strncpy` and the write of `dir[len]`.
unfoldable pub copy_dir : Bytes → Bytes
unfolding dir_len
copy_dir ds =
    let len = dir_len (drop (scan_end ds) ds) (scan_end ds) in
    cstr (take len (ds ++ (0 ∷ [])) ++ (0 ∷ []))

-- The same with `strcat (dir, "/icons/")` and the write of `dir[len + strlen("/icons/")]`.
unfoldable pub copy_icons_dir : Bytes → Bytes
unfolding dir_len
copy_icons_dir ds =
    let len = dir_len (drop (scan_end ds) ds) (scan_end ds) in
    take (len + length icons) (copy_dir ds ++ icons)

module _ {ℓ} {S : Type ℓ} where
  -- The `while` loop of `_xdg_for_each_data_dir`; the flag says that the callback stopped it.
  unfoldable pub data_loop : ℕ → (Bytes → S → S × Bool) → Bytes → S → Option (S × Bool)
  data_loop zero func ds s = none
  data_loop (suc f) func [] s = some (s, false)
  data_loop (suc f) func (c ∷ cs) s =
      let skip = data_loop f func cs s in
      let (s', stop) = func (copy_dir (c ∷ cs)) s in
      let onward = data_loop f func (drop (scan_end (c ∷ cs)) (c ∷ cs)) s' in
      if scan_end (c ∷ cs) == 0 then skip else if stop then some (s', true) else onward

  -- The part before the loop: a directory of the user, if the environment gives one.
  unfoldable pub user_data_dir : (Bytes → S → S × Bool) → Env → S → S × Bool
  user_data_dir func env s = elim env.data_home [
    | some d ↦ func d s
    | none ↦ elim env.home [ none ↦ (s, false) | some h ↦ func (h ++ local_share) s ]
  ]

  unfoldable pub for_each_data_dir : (Bytes → S → S × Bool) → Env → S → Option (S × Bool)
  unfolding user_data_dir data_loop copy_dir scan_end
  for_each_data_dir func env s =
      let (s', stop) = user_data_dir func env s in
      let onward = data_loop (suc (length (search_path env))) func (search_path env) s' in
      if stop then some (s', true) else onward

  -- `_xdg_for_each_home_data_dir`: the result of the callback is not read.
  unfoldable pub for_each_home_data_dir : (Bytes → S → S × Bool) → Env → S → S
  unfolding user_data_dir
  for_each_home_data_dir func env s = (user_data_dir func env s).0

  -- The `while` loop of `_xdg_for_each_theme_dir`, which reads no result of the callback.
  unfoldable pub theme_loop : ℕ → (Bytes → S → S × Bool) → Bytes → S → Option S
  theme_loop zero func ds s = none
  theme_loop (suc f) func [] s = some s
  theme_loop (suc f) func (c ∷ cs) s =
      let skip = theme_loop f func cs s in
      let s' = (func (copy_icons_dir (c ∷ cs)) s).0 in
      let onward = theme_loop f func (drop (scan_end (c ∷ cs)) (c ∷ cs)) s' in
      if scan_end (c ∷ cs) == 0 then skip else onward

  unfoldable pub user_theme_dir : (Bytes → S → S × Bool) → Env → S → S
  user_theme_dir func env s = elim env.data_home [
    | some d ↦ (func d s).0
    | none ↦ elim env.home [ none ↦ s | some h ↦ (func (h ++ user_icons) s).0 ]
  ]

  -- The call behind the loop.
  unfoldable pub last_theme_dir : (Bytes → S → S × Bool) → Option S → Option S
  last_theme_dir func none = none
  last_theme_dir func (some s) = some (func pixmaps s).0

  unfoldable pub for_each_theme_dir : (Bytes → S → S × Bool) → Env → S → Option S
  unfolding user_theme_dir theme_loop last_theme_dir copy_icons_dir copy_dir scan_end
  for_each_theme_dir func env s = last_theme_dir func (
      theme_loop (suc (length (search_path env))) func (search_path env)
        (user_theme_dir func env s))

-- `_xdg_search_in_each_theme_dir`: the callback returns a path or NULL.
module _ {ℓ} {S : Type ℓ} where
  -- `if (res) return res;` and what follows it.
  unfoldable pub found_or : S × Option Bytes → Option (S × Option Bytes) → Option (S × Option Bytes)
  found_or (s, some path) onward = some (s, some path)
  found_or (s, none) onward = onward

  unfoldable pub search_loop :
      ℕ → (Bytes → S → S × Option Bytes) → Bytes → S → Option (S × Option Bytes)
  search_loop zero func ds s = none
  search_loop (suc f) func [] s = some (s, none)
  search_loop (suc f) func (c ∷ cs) s =
      let skip = search_loop f func cs s in
      let (s', res) = func (copy_icons_dir (c ∷ cs)) s in
      let onward = search_loop f func (drop (scan_end (c ∷ cs)) (c ∷ cs)) s' in
      if scan_end (c ∷ cs) == 0 then skip else found_or (s', res) onward

  unfoldable pub search_user_dir : (Bytes → S → S × Option Bytes) → Env → S → S × Option Bytes
  search_user_dir func env s = elim env.data_home [
    | some d ↦ func d s
    | none ↦ elim env.home [ none ↦ (s, none) | some h ↦ func (h ++ user_icons) s ]
  ]

  -- The last step: nothing was found in the directories before.
  unfoldable pub search_last :
      (Bytes → S → S × Option Bytes) → Option (S × Option Bytes) → Option (S × Option Bytes)
  search_last func none = none
  search_last func (some (s, some path)) = some (s, some path)
  search_last func (some (s, none)) = some (func pixmaps s)

  unfoldable pub search_in_each_theme_dir :
      (Bytes → S → S × Option Bytes) → Env → S → Option (S × Option Bytes)
  unfolding found_or search_user_dir search_loop search_last copy_icons_dir copy_dir scan_end
  search_in_each_theme_dir func env s =
      let (s', res) = search_user_dir func env s in
      let path = search_path env in
      let onward = search_last func (search_loop (suc (length path)) func path s') in
      found_or (s', res) onward
