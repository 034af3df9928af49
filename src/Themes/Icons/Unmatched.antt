-- ===== src/Themes/Icons/Unmatched.antt =====
-- The lookup of src/themes/xdgtheme.c in a theme without a directory of the size.
use libxdg.Base.{
  ◌≡◌, refl, sym, subst, arith, Bool, false, none, some, List, [], ◌∷◌, All, if◌then◌else◌,
}
use libxdg.Base.Int.{ℤ}
use libxdg.Base.Text.{Bytes, codes}
use libxdg.BaseDirectory.{Env}
use libxdg.Themes.{Theme, search_map}
use libxdg.Themes.Sizes.{Closest}
use libxdg.Themes.Icons.{
  matches_group, matching_directories, nothing_close, search_matching, directories_in, lookup_icon,
}

module _ (is_file : Bytes → Bool) (atoi : Bytes → ℤ) (env : Env) where
  -- A directory of a theme that does not match, whichever directory is the closest so far.
  abbrev pub Mismatches : Theme → ℤ → Bytes → Bytes → Type 0
  Mismatches theme size context dir =
      (c : Closest)
      → (matches_group is_file atoi env (search_map dir theme.groups) size context dir c).0 ≡ false

  matching_directories-none :
      (theme : Theme) (size : ℤ) (context : Bytes) (dirs : List Bytes) (c : Closest)
      → All (Mismatches theme size context) dirs
      → (matching_directories is_file atoi env theme size context dirs ([], c)).0 ≡ []
  unfolding matching_directories
  matching_directories-none theme size context [] c h = refl
  matching_directories-none theme size context (dir ∷ dirs) c h =
      let c' =
        (matches_group is_file atoi env (search_map dir theme.groups) size context dir c).1 in
      subst
        (λ b.
          (matching_directories is_file atoi env theme size context dirs
            (if b then dir ∷ [] else [], c')).0
          ≡ [])
        (sym (h.0 c)) (matching_directories-none theme size context dirs c' h.1)

  search_matching-none :
      (name icon : Bytes) (state : List Bytes × Closest)
      → state.0 ≡ []
      → search_matching is_file atoi env name icon state ≡ some none
  search_matching-none name icon ([], c) h = refl
  search_matching-none name icon (d ∷ ds, c) h = absurd (ground arith)

  -- Where no directory that a theme lists matches the size and the context, the lookup of an icon finds
  -- nothing, whatever files there are: the closest directory is not searched.
  pub lookup_icon-unmatched :
      (icon context name : Bytes) (size : ℤ) (theme : Theme)
      → All
          (Mismatches theme size context)
          (directories_in is_file atoi env (search_map (codes "Icon Theme") theme.groups))
      → lookup_icon is_file atoi env icon size context name theme ≡ some none
  unfolding lookup_icon
  lookup_icon-unmatched icon context name size theme h = search_matching-none name icon _ (
      matching_directories-none theme size context
        (directories_in is_file atoi env (search_map (codes "Icon Theme") theme.groups))
        (nothing_close is_file atoi env) h)
