-- ===== src/Tests/Icons.antt =====
-- Icon themes for src/themes/xdgtheme.c: a theme with a parent, one that is its own parent, and one
-- with a directory of another size.
use mathlib.Core.Option.{none-ne-some, some-injective}
use libxdg.Base.{
  ℕ, ◌≡◌, ◌<◌, refl, sym, subst, Bool, true, false, Option, none, some, inl, inr, ◌⊎◌, List, [],
  ◌∷◌, Any, arith, if◌then◌else◌,
}
use libxdg.Base.Int.{ℤ, pos}
use libxdg.Base.Text.{Bytes, codes, str_eq, str_eq_iff, strcmp}
use libxdg.BaseDirectory.{Env}
use libxdg.Themes.{Theme, ThemeMap, new_theme, search_map, theme_group_read_entry}
use libxdg.Themes.Values.{values_of, theme_group_read_entry-values_of}
use libxdg.Themes.Sizes.{directory_matches_size_and_context, directory_matches_size}
use libxdg.Themes.Icons.{lookup_icon, find_icon_helper, matching_directories}
use libxdg.Themes.Icons.Walk.{
  IsRanked, Known, Finds, nexts, find_icon_helper-Finds, find_icon_helper-unfinished,
}
use libxdg.Themes.Icons.Unmatched.{lookup_icon-unmatched}

abbrev env : Env
env = record { data_home = none; home = none; data_dirs = some (codes "/a") }

-- Every file is there.
abbrev is_file : Bytes → Bool
is_file path = true

-- The number of bytes, in place of `atoi`.
abbrev count : Bytes → ℤ
count s = pos 48

abbrev hicolor : Bytes
hicolor = codes "hicolor"

theme_group_read_entry-values_of_example :
    values_of
      (codes "t")
      (codes "Icon Theme")
      (codes "Directories")
      (theme_group_read_entry (codes "t") (codes "Icon Theme") (codes "Directories = a,b\n") [])
    ≡ codes "a" ∷ codes "b" ∷ []
unfolding search_map
theme_group_read_entry-values_of_example =
    theme_group_read_entry-values_of (codes "t") (codes "Icon Theme") (codes "Directorie") b's' 1 1
      (codes "a" ∷ codes "b" ∷ []) [] (ground arith) (ground arith) (ground arith)

abbrev child : Theme
child = record { parents = hicolor ∷ []; groups = [] }

abbrev themes : ThemeMap
themes = (codes "t", child) ∷ (hicolor, new_theme) ∷ []

abbrev rank : Bytes → ℕ
rank name = if str_eq (codes "t") name then 1 else 0

-- The theme that a search gives, by the tests on its name.
theme_cases :
    (b c : Bool) (theme : Theme)
    → (if b then some child else if c then some new_theme else none) ≡ some theme
    → ((b ≡ true) × (theme ≡ child)) ⊎ ((c ≡ true) × (theme ≡ new_theme))
theme_cases true c theme h = inl (refl, sym (some-injective child theme h))
theme_cases false true theme h = inr (refl, sym (some-injective new_theme theme h))
theme_cases false false theme h = absurd (none-ne-some theme h)

child_next :
    (p : Bytes)
    → (hicolor ≡ p)
    → (rank p < rank (codes "t")) × (parent : Theme) × (search_map p themes ≡ some parent)
unfolding search_map str_eq strcmp
child_next p e =
    subst
      (λ q. (rank q < rank (codes "t")) × (parent : Theme) × (search_map q themes ≡ some parent)) e
      (omega arith, new_theme, refl)

hicolor_last :
    (p : Bytes)
    → Any
        (λ q. q ≡ p)
        (nexts is_file count env themes (codes "x") (pos 32) (codes "Places") hicolor hicolor [])
    → ⊥
unfolding str_eq strcmp
hicolor_last p a = a

themes-IsRanked :
    IsRanked is_file count env themes (codes "x") (pos 32) (codes "Places") hicolor rank
unfolding search_map
themes-IsRanked name theme p k a =
    elim (theme_cases (str_eq (codes "t") name) (str_eq hicolor name) theme k) [
      | inl (e, same) ↦
          let named : codes "t" ≡ name = (str_eq_iff (codes "t") name).0 e in
          let next : Any (λ q. q ≡ p) (hicolor ∷ []) =
            subst
              (λ t.
                Any (λ q. q ≡ p)
                  (nexts is_file count env themes (codes "x") (pos 32) (codes "Places") hicolor name
                    t.parents))
              same a in
          subst (λ n. (rank p < rank n) × (parent : Theme) × (search_map p themes ≡ some parent))
            named (elim next [ inl f ↦ child_next p f | inr f ↦ elim f [ ] ])
      | inr (e, same) ↦
          let named : name ≡ hicolor = sym ((str_eq_iff hicolor name).0 e) in
          absurd (
            hicolor_last p (
              subst
                (λ n.
                  Any (λ q. q ≡ p)
                    (nexts is_file count env themes (codes "x") (pos 32) (codes "Places") hicolor n
                      []))
                named
                (subst
                  (λ t.
                    Any (λ q. q ≡ p)
                      (nexts is_file count env themes (codes "x") (pos 32) (codes "Places") hicolor
                        name t.parents))
                  same a)))
    ]

find_icon_helper-Finds_example :
    (r : Option Bytes) × (find_icon_helper is_file count env 2 themes
        (codes "x")
        (pos 32)
        (codes "Places")
        hicolor
        (codes "t")
      ≡ some r)
    × Finds is_file count env themes (codes "x") (pos 32) (codes "Places") hicolor (codes "t") r
unfolding search_map str_eq strcmp
find_icon_helper-Finds_example =
    find_icon_helper-Finds is_file count env themes (codes "x") (pos 32) (codes "Places") hicolor
      rank 2 (codes "t") child (ground arith) themes-IsRanked refl (omega arith)

abbrev own_parent : Theme
own_parent = record { parents = codes "a" ∷ []; groups = [] }

abbrev own_themes : ThemeMap
own_themes = (codes "a", own_parent) ∷ []

own_theme :
    (n : Bytes)
    → codes "a" ≡ n
    → (theme : Theme) × (p : Bytes) × (ps : List Bytes) × Known is_file count env own_themes
        (codes "x")
        (pos 32)
        (codes "Places")
        hicolor
        n
        theme
      × (theme.parents ≡ p ∷ ps)
      × (codes "a" ≡ p)
      × (lookup_icon is_file count env (codes "x") (pos 32) (codes "Places") n theme ≡ some none)
unfolding search_map str_eq strcmp lookup_icon matching_directories
own_theme n e =
    subst
      (λ n.
        (theme : Theme) × (p : Bytes) × (ps : List Bytes) × Known is_file count env own_themes
          (codes "x") (pos 32) (codes "Places") hicolor n theme
        × (theme.parents ≡ p ∷ ps)
        × (codes "a" ≡ p)
        × (lookup_icon is_file count env (codes "x") (pos 32) (codes "Places") n theme ≡ some none))
      e (own_parent, codes "a", [], refl, refl, refl, refl)

find_icon_helper-unfinished_example :
    find_icon_helper is_file count env 9 own_themes
      (codes "x")
      (pos 32)
      (codes "Places")
      hicolor
      (codes "a")
    ≡ none
find_icon_helper-unfinished_example =
    find_icon_helper-unfinished is_file count env own_themes (codes "x") (pos 32) (codes "Places")
      hicolor (λ n. codes "a" ≡ n) 9 (codes "a") own_theme refl

-- One directory of icons of 48 pixels.
abbrev large : Theme
large = record {
  parents = [];
  groups =
      (codes "Icon Theme", (codes "Directories", codes "48" ∷ []) ∷ [])
      ∷ (
        codes "48",
        (codes "Context", codes "Places" ∷ [])
            ∷ (codes "Type", codes "Fixed" ∷ [])
            ∷ (codes "Size", codes "48" ∷ [])
            ∷ [],
      )
      ∷ [];
}

lookup_icon-unmatched_example :
    lookup_icon is_file count env (codes "x") (pos 32) (codes "Places") (codes "t") large
    ≡ some none
unfolding search_map str_eq strcmp directory_matches_size_and_context directory_matches_size
lookup_icon-unmatched_example =
    lookup_icon-unmatched is_file count env (codes "x") (codes "Places") (codes "t") (pos 32) large
      ((λ c. refl), tt)
