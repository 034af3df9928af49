-- ===== src/Themes/Icons/Walk.antt =====
-- The walk of src/themes/xdgtheme.c from a theme to its parents, and where it has no end.
use libxdg.Base.{
  ℕ, zero, suc, ◌<◌, ◌≡◌, refl, sym, ap, ◌∙◌, subst, Bool, true, false, Option, none, some, inl,
  inr, List, [], ◌∷◌, Any, arith, if◌then◌else◌,
}
use mathlib.Core.Option.{some-injective}
use libxdg.Base.Faults.{◌>>=◌}
use libxdg.Base.Int.{ℤ}
use libxdg.Base.Text.{Bytes, IsText, str_eq}
use libxdg.BaseDirectory.{Env, search_path}
use libxdg.BaseDirectory.Find.{search_in_each_theme_dir-visit}
use libxdg.Themes.{Theme, ThemeMap, search_map}
use libxdg.Themes.Sizes.{Closest}
use libxdg.Themes.Icons.{
  search_icon_file, search_themes_dirs, or_closest, search_matching, lookup_icon, first_icon,
  in_parents, find_icon_helper,
}

module _ (is_file : Bytes → Bool) (atoi : Bytes → ℤ) (env : Env) where
  -- A search that comes to an end.
  abbrev pub Ends : Option (Option Bytes) → Type 0
  Ends o = (r : Option Bytes) × (o ≡ some r)

  search_themes_dirs-Ends :
      (name icon : Bytes) (subdirs : List Bytes)
      → IsText (search_path env)
      → Ends (search_themes_dirs is_file env name icon subdirs)
  unfolding search_themes_dirs
  search_themes_dirs-Ends name icon subdirs t = (
    _,
    ap (λ o. o >>= λ found. some found.1)
        (search_in_each_theme_dir-visit
          (λ dir n. (n, search_icon_file is_file name icon subdirs dir)) env zero t),
  )

  or_closest-Ends :
      (name icon : Bytes) (file closest : Option Bytes)
      → IsText (search_path env)
      → Ends (or_closest is_file atoi env name icon file closest)
  or_closest-Ends name icon (some file) closest t = (some file, refl)
  or_closest-Ends name icon none none t = (none, refl)
  or_closest-Ends name icon none (some c) t = search_themes_dirs-Ends name icon (c ∷ []) t

  search_matching-Ends :
      (name icon : Bytes) (state : List Bytes × Closest)
      → IsText (search_path env)
      → Ends (search_matching is_file atoi env name icon state)
  search_matching-Ends name icon ([], c) t = (none, refl)
  search_matching-Ends name icon (d ∷ ds, c) t =
      let (file, e) = search_themes_dirs-Ends name icon (d ∷ ds) t in
      let (r, f) = or_closest-Ends name icon file c.closest_name t in
      (r, ap (λ o. o >>= λ file. or_closest is_file atoi env name icon file c.closest_name) e ∙ f)

  module _ (themes : ThemeMap) (icon : Bytes) (size : ℤ) (context hicolor : Bytes) where
    lookup_icon-Ends :
        (name : Bytes) (theme : Theme)
        → IsText (search_path env)
        → Ends (lookup_icon is_file atoi env icon size context name theme)
    unfolding lookup_icon
    lookup_icon-Ends name theme t = search_matching-Ends name icon _ t

    -- The themes in which the search goes on, where a theme has no file for the icon.
    abbrev pub nexts : Bytes → List Bytes → List Bytes
    nexts name [] = if str_eq name hicolor then [] else hicolor ∷ []
    nexts name (p ∷ ps) = p ∷ ps

    -- The theme of a name that the map has.
    abbrev pub Known : Bytes → Theme → Type 0
    Known name theme = search_map name themes ≡ some theme

    pub data Reaches : Bytes → Bytes → Type 0 where
      here : (name : Bytes) → Reaches name name
      onward :
          (name p m : Bytes) (theme : Theme)
          → Known name theme
          → Any (λ q. q ≡ p) (nexts name theme.parents)
          → Reaches p m
          → Reaches name m

    abbrev pub Shows : Bytes → Option Bytes → Type 0
    Shows name file =
        (theme : Theme) × Known name theme
        × (lookup_icon is_file atoi env icon size context name theme ≡ some file)

    -- Without a file, no theme that is reached shows one; with one, a theme that is reached shows it.
    abbrev pub Finds : Bytes → Option Bytes → Type 0
    Finds name none = (m : Bytes) → Reaches name m → Shows m none
    Finds name (some file) = (m : Bytes) × Reaches name m × Shows m (some file)

    -- Every theme that the search goes on in is known, and of a lower rank.
    abbrev pub IsRanked : (Bytes → ℕ) → Type 0
    IsRanked rank =
        (name : Bytes) (theme : Theme) (p : Bytes)
        → Known name theme
        → Any (λ q. q ≡ p) (nexts name theme.parents)
        → (rank p < rank name) × (parent : Theme) × Known p parent

    abbrev FindsAll : List Bytes → Option Bytes → Type 0
    FindsAll ps none = (p : Bytes) → Any (λ q. q ≡ p) ps → Finds p none
    FindsAll ps (some file) = (p : Bytes) × Any (λ q. q ≡ p) ps × Finds p (some file)

    abbrev CallFinds : (Bytes → Option (Option Bytes)) → Bytes → Type 0
    CallFinds call p = (r : Option Bytes) × (call p ≡ some r) × Finds p r

    first_icon-head :
        (call : Bytes → Option (Option Bytes)) (p : Bytes) (ps : List Bytes)
        → CallFinds call p
        → ((r : Option Bytes) × (first_icon is_file atoi env call ps ≡ some r) × FindsAll ps r)
        → (r : Option Bytes) × (first_icon is_file atoi env call (p ∷ ps) ≡ some r)
          × FindsAll (p ∷ ps) r
    unfolding first_icon
    first_icon-head call p ps (some file, e, found) rest =
        (some file, rw (e, first_icon) refl, (p, inl refl, found))
    first_icon-head call p ps (none, e, found) (some file, e', (q, a, found')) =
        (some file, rw (e, first_icon) e', (q, inr a, found'))
    first_icon-head call p ps (none, e, found) (none, e', found') = (
      none,
      rw (e, first_icon) e',
      λ q a. elim a [ inl same ↦ subst (λ x. Finds x none) same found | inr b ↦ found' q b ],
    )

    first_icon-FindsAll :
        (call : Bytes → Option (Option Bytes)) (ps : List Bytes)
        → ((p : Bytes) → Any (λ q. q ≡ p) ps → CallFinds call p)
        → (r : Option Bytes) × (first_icon is_file atoi env call ps ≡ some r) × FindsAll ps r
    unfolding first_icon
    first_icon-FindsAll call [] h = (none, refl, λ p a. elim a [ ])
    first_icon-FindsAll call (p ∷ ps) h =
        first_icon-head call p ps (h p (inl refl))
          (first_icon-FindsAll call ps (λ q a. h q (inr a)))

    -- The search from one place on, where the search of each call ends.
    abbrev FindsIn : Option (Option Bytes) → List Bytes → Type 0
    FindsIn o ps = (r : Option Bytes) × (o ≡ some r) × FindsAll ps r

    alone-FindsIn :
        (call : Bytes → Option (Option Bytes)) (b : Bool)
        → ((p : Bytes) → Any (λ q. q ≡ p) (if b then [] else hicolor ∷ []) → CallFinds call p)
        → FindsIn (if b then some none else call hicolor) (if b then [] else hicolor ∷ [])
    alone-FindsIn call true h = (none, refl, λ p a. elim a [ ])
    alone-FindsIn call false h = last (h hicolor (inl refl))
      where
        last : CallFinds call hicolor → FindsIn (call hicolor) (hicolor ∷ [])
        last (some file, e, found) = (some file, e, (hicolor, inl refl, found))
        last (none, e, found) = (
          none,
          e,
          λ p a. elim a [ inl same ↦ subst (λ x. Finds x none) same found | inr b ↦ elim b [ ] ],
        )

    in_parents-FindsIn :
        (call : Bytes → Option (Option Bytes)) (name : Bytes) (ps : List Bytes)
        → ((p : Bytes) → Any (λ q. q ≡ p) (nexts name ps) → CallFinds call p)
        → FindsIn (in_parents is_file atoi env call name hicolor ps none) (nexts name ps)
    in_parents-FindsIn call name [] h = alone-FindsIn call (str_eq name hicolor) h
    in_parents-FindsIn call name (p ∷ ps) h = first_icon-FindsAll call (p ∷ ps) h

    -- Where a theme and all themes behind it show no file, no theme reached from it does.
    none-reached :
        (name : Bytes) (theme : Theme)
        → Known name theme
        → (lookup_icon is_file atoi env icon size context name theme ≡ some none)
        → FindsAll (nexts name theme.parents) none
        → (m : Bytes) → Reaches name m
        → Shows m none
    none-reached name theme k e found m (here n) = (theme, k, e)
    none-reached name theme k e found m (onward n p m' theme' k' a reach) =
        let same : theme' ≡ theme = some-injective theme' theme (sym k' ∙ k) in
        found p (subst (λ t. Any (λ q. q ≡ p) (nexts name t.parents)) same a) m reach

    -- What is found in the themes behind one that shows no file is found from it on.
    Finds-nexts :
        (name : Bytes) (theme : Theme) (r : Option Bytes)
        → Known name theme
        → (lookup_icon is_file atoi env icon size context name theme ≡ some none)
        → FindsAll (nexts name theme.parents) r
        → Finds name r
    Finds-nexts name theme (some file) k e (p, a, (m, reach, shows)) =
        (m, onward name p m theme k a reach, shows)
    Finds-nexts name theme none k e found = none-reached name theme k e found

    Finds-parents :
        (f : ℕ) (name : Bytes) (theme : Theme) (file : Option Bytes)
        → Known name theme
        → (lookup_icon is_file atoi env icon size context name theme ≡ some file)
        → ((p : Bytes)
            → Any (λ q. q ≡ p) (nexts name theme.parents)
            → CallFinds (find_icon_helper is_file atoi env f themes icon size context hicolor) p)
        → CallFinds
            (find_icon_helper is_file atoi env (suc f) themes icon size context hicolor)
            name
    unfolding find_icon_helper
    Finds-parents f name theme (some file) k e h =
        (some file, rw (k, find_icon_helper, e) refl, (name, here name, (theme, k, e)))
    Finds-parents f name theme none k e h =
        let (r, e', found) =
          in_parents-FindsIn (find_icon_helper is_file atoi env f themes icon size context hicolor)
            name theme.parents h in
        (r, rw (k, find_icon_helper, e) e', Finds-nexts name theme r k e found)

    -- For a search path that is a C string and themes of which each that the search goes on in, a parent
    -- of a known theme or hicolor for another one without parents, is known and of a lower rank than
    -- that theme, the search from a known theme comes to an end, as soon as the fuel is above its rank: it finds a file that a theme reached from it shows, or none, and then no
    -- theme reached from it shows one.
    pub find_icon_helper-Finds :
        (rank : Bytes → ℕ) (f : ℕ) (name : Bytes) (theme : Theme)
        → IsText (search_path env)
        → IsRanked rank
        → Known name theme
        → rank name < f
        → (r : Option Bytes) × (find_icon_helper is_file atoi env f themes icon size context hicolor
              name
            ≡ some r)
          × Finds name r
    find_icon_helper-Finds rank zero name theme t ranked k h = absurd (omega arith)
    find_icon_helper-Finds rank (suc f) name theme t ranked k h =
        let (file, e) = lookup_icon-Ends name theme t in
        Finds-parents f name theme file k e (λ p a.
          let (lower, parent, known) = ranked name theme p k a in
          find_icon_helper-Finds rank f p parent t ranked known (omega arith))

    -- In a set of known themes that show no file and of which each has a first parent in the set, the
    -- search from any theme calls itself without end: no fuel is enough.
    pub find_icon_helper-unfinished :
        (Among : Bytes → Type 0) (f : ℕ) (name : Bytes)
        → ((n : Bytes)
            → Among n
            → (theme : Theme) × (p : Bytes) × (ps : List Bytes) × Known n theme
              × (theme.parents ≡ p ∷ ps)
              × Among p
              × (lookup_icon is_file atoi env icon size context n theme ≡ some none))
        → Among name
        → find_icon_helper is_file atoi env f themes icon size context hicolor name ≡ none
    unfolding find_icon_helper first_icon
    find_icon_helper-unfinished Among zero name cyclic a = refl
    find_icon_helper-unfinished Among (suc f) name cyclic a =
        let (theme, p, ps, k, parents, b, e) = cyclic name a in
        rw (k, find_icon_helper, e, parents, find_icon_helper-unfinished Among f p cyclic b) refl
