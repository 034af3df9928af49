-- ===== src/BaseDirectory/Find.antt =====
-- The search in the icon directories of src/basedirectory/xdgbasedirectory.c.
use libxdg.Base.{
  ℕ, zero, suc, ◌<◌, ◌≡◌, refl, sym, ap, ◌∙◌, Option, none, some, inl, inr, List, [], ◌∷◌, ◌++◌,
  ◌==◌, length, take, drop, arith, Bool-cases, map,
}
use libxdg.Base.Text.{Bytes, IsText}
use libxdg.BaseDirectory.{
  Env, icons, user_icons, pixmaps, search_path, scan_end, found_or, search_loop, search_user_dir,
  search_last, search_in_each_theme_dir,
}
use libxdg.BaseDirectory.Fields.{path_dirs, path_dirs_skip, path_dirs_step, copy_icons_dir-append}
use libxdg.BaseDirectory.Visits.{user_dirs, theme_dirs, IsText-drop, drop_shorter}

module _ {ℓ} {S : Type ℓ} where
  -- A path that was found, or what the later calls find.
  abbrev pub first_found : S × Option Bytes → S × Option Bytes → S × Option Bytes
  first_found (s, some path) onward = (s, some path)
  first_found (s, none) onward = onward

  -- Call for each directory in order, until one call finds a path.
  abbrev pub visit_find : (Bytes → S → S × Option Bytes) → List Bytes → S → S × Option Bytes
  visit_find func [] s = (s, none)
  visit_find func (d ∷ ds) s =
      let onward = visit_find func ds (func d s).0 in first_found (func d s) onward

  found_or-some : (r k : S × Option Bytes) → found_or r (some k) ≡ some (first_found r k)
  unfolding found_or
  found_or-some (s, some path) k = refl
  found_or-some (s, none) k = refl

  search_loop-visit :
      (func : Bytes → S → S × Option Bytes) (f : ℕ) (ds : Bytes) (s : S)
      → IsText ds
      → length ds < f
      → search_loop f func ds s ≡ some (visit_find func (map (λ d. d ++ icons) (path_dirs ds)) s)
  unfolding search_loop
  search_loop-visit func zero ds s t h = absurd (omega arith)
  search_loop-visit func (suc f) [] s t h = refl
  search_loop-visit func (suc f) (c ∷ cs) s t h = elim (Bool-cases (scan_end (c ∷ cs) == 0)) [
    | inl e ↦ rw (e, path_dirs_skip c cs e) (search_loop-visit func f cs s t.1 (omega arith))
    | inr e ↦
        let ih =
          search_loop-visit func f (drop (scan_end (c ∷ cs)) (c ∷ cs))
            (func (take (scan_end (c ∷ cs)) (c ∷ cs) ++ icons) s).0
            (IsText-drop (scan_end (c ∷ cs)) (c ∷ cs) t) (drop_shorter f c cs h e) in
        rw (e, path_dirs_step c cs e, copy_icons_dir-append (c ∷ cs) t) (rw ih (found_or-some _ _))
  ]

  first_found_assoc :
      (r : S × Option Bytes) (f g : S → S × Option Bytes)
      → first_found r (first_found (f r.0) (g (f r.0).0))
        ≡ first_found (first_found r (f r.0)) (g (first_found r (f r.0)).0)
  first_found_assoc (s, some path) f g = refl
  first_found_assoc (s, none) f g = refl

  visit_find-append :
      (func : Bytes → S → S × Option Bytes) (ds es : List Bytes) (s : S)
      → visit_find func (ds ++ es) s
        ≡ first_found (visit_find func ds s) (visit_find func es (visit_find func ds s).0)
  visit_find-append func [] es s = refl
  visit_find-append func (d ∷ ds) es s =
      rw (visit_find-append func ds es (func d s).0)
        (first_found_assoc (func d s) (visit_find func ds) (visit_find func es))

  visit_find_one :
      (func : Bytes → S → S × Option Bytes) (d : Bytes) (s : S)
      → func d s ≡ visit_find func (d ∷ []) s
  visit_find_one func d s = ground arith

  search_user_dir-visit :
      (func : Bytes → S → S × Option Bytes) (env : Env) (s : S)
      → search_user_dir func env s ≡ visit_find func (user_dirs user_icons env) s
  unfolding search_user_dir
  search_user_dir-visit func env s = ground arith

  search_last-some :
      (func : Bytes → S → S × Option Bytes) (r : S × Option Bytes)
      → search_last func (some r) ≡ some (first_found r (visit_find func (pixmaps ∷ []) r.0))
  unfolding search_last
  search_last-some func (s, some path) = refl
  search_last-some func (s, none) = ap some (visit_find_one func pixmaps s)

  -- `search_in_each_theme_dir` ends, asks the icon directories in order and returns the first path
  -- found, or none after asking all of them.
  pub search_in_each_theme_dir-visit :
      (func : Bytes → S → S × Option Bytes) (env : Env) (s : S)
      → IsText (search_path env)
      → search_in_each_theme_dir func env s ≡ some (visit_find func (theme_dirs env) s)
  unfolding search_in_each_theme_dir
  search_in_each_theme_dir-visit func env s t =
      let system = map (λ d. d ++ icons) (path_dirs (search_path env)) in
      let user = visit_find func (user_dirs user_icons env) s in
      rw
        (
          search_user_dir-visit func env s,
          search_loop-visit func (suc (length (search_path env))) (search_path env) user.0 t
              (omega arith),
          search_last-some func (visit_find func system user.0),
          found_or-some user _,
        )
        (ap some (
          sym (
            visit_find-append func (user_dirs user_icons env) (system ++ (pixmaps ∷ [])) s
            ∙ ap (first_found user) (visit_find-append func system (pixmaps ∷ []) user.0))))
