-- ===== src/BaseDirectory/Visits.antt =====
-- The walks of src/basedirectory/xdgbasedirectory.c and lists of the directories that the
-- environment names.
use libxdg.Base.{
  ℕ, zero, suc, ◌<◌, ◌≡◌, refl, sym, subst, ap, ◌∙◌, Bool, true, false, none, some, inl, inr, List,
  [], ◌∷◌, ◌++◌, ◌==◌, if◌then◌else◌, length, take, drop, length-drop, All, arith, Bool-cases,
  ==_false→ne, map,
}
use libxdg.Base.Text.{Bytes, IsText}
use libxdg.BaseDirectory.{
  Env, icons, local_share, user_icons, pixmaps, search_path, scan_end, data_loop, user_data_dir,
  for_each_data_dir, theme_loop, user_theme_dir, last_theme_dir, for_each_theme_dir,
}
use libxdg.BaseDirectory.Fields.{
  path_dirs, path_dirs_skip, path_dirs_step, copy_dir-take, copy_icons_dir-append, join, IsDir,
  join-IsText, path_dirs-join,
}

-- The user's own directory, with the given ending if it is found through HOME.
abbrev pub user_dirs : Bytes → Env → List Bytes
user_dirs ending env = elim env.data_home [
  | some d ↦ d ∷ []
  | none ↦ elim env.home [ none ↦ [] | some h ↦ (h ++ ending) ∷ [] ]
]

-- The directories of data, the user's before the system's.
abbrev pub data_dirs : Env → List Bytes
data_dirs env = user_dirs local_share env ++ path_dirs (search_path env)

-- The directories of icons.
abbrev pub theme_dirs : Env → List Bytes
theme_dirs env =
    user_dirs user_icons env
    ++ (map (λ d. d ++ icons) (path_dirs (search_path env)) ++ (pixmaps ∷ []))

pub IsText-drop : (n : ℕ) (ds : Bytes) → IsText ds → IsText (drop n ds)
IsText-drop zero ds t = t
IsText-drop (suc n) [] t = tt
IsText-drop (suc n) (d ∷ ds) t = IsText-drop n ds t.1

-- The text that the loop goes on with is shorter.
pub drop_shorter :
    (f c : ℕ) (cs : Bytes)
    → length (c ∷ cs) < suc f
    → (scan_end (c ∷ cs) == 0) ≡ false
    → length (drop (scan_end (c ∷ cs)) (c ∷ cs)) < f
drop_shorter f c cs h e =
    let ne = ==_false→ne (scan_end (c ∷ cs)) 0 e in
    omega (arith, length-drop {0} (scan_end (c ∷ cs)) (c ∷ cs))

if-some {ℓ} :
    {A : Type ℓ} (b : Bool) (x y : A) → (if b then some x else some y) ≡ some (if b then x else y)
if-some true x y = refl
if-some false x y = refl

module _ {ℓ} {S : Type ℓ} where
  -- Call for each directory in order, until one call says to stop.
  abbrev pub visit : (Bytes → S → S × Bool) → List Bytes → S → S × Bool
  visit func [] s = (s, false)
  visit func (d ∷ ds) s =
      let onward = visit func ds (func d s).0 in
      if (func d s).1 then ((func d s).0, true) else onward

  -- Call for each directory in order, whatever the calls return.
  abbrev pub visit_all : (Bytes → S → S × Bool) → List Bytes → S → S
  visit_all func [] s = s
  visit_all func (d ∷ ds) s = visit_all func ds (func d s).0

  data_loop-visit :
      (func : Bytes → S → S × Bool) (f : ℕ) (ds : Bytes) (s : S)
      → IsText ds
      → length ds < f
      → data_loop f func ds s ≡ some (visit func (path_dirs ds) s)
  unfolding data_loop
  data_loop-visit func zero ds s t h = absurd (omega arith)
  data_loop-visit func (suc f) [] s t h = refl
  data_loop-visit func (suc f) (c ∷ cs) s t h = elim (Bool-cases (scan_end (c ∷ cs) == 0)) [
    | inl e ↦ rw (e, path_dirs_skip c cs e) (data_loop-visit func f cs s t.1 (omega arith))
    | inr e ↦
        let ih =
          data_loop-visit func f (drop (scan_end (c ∷ cs)) (c ∷ cs))
            (func (take (scan_end (c ∷ cs)) (c ∷ cs)) s).0
            (IsText-drop (scan_end (c ∷ cs)) (c ∷ cs) t) (drop_shorter f c cs h e) in
        rw (e, path_dirs_step c cs e, copy_dir-take (c ∷ cs) t) (rw ih (if-some _ _ _))
  ]

  visit-append :
      (func : Bytes → S → S × Bool) (ds es : List Bytes) (s : S)
      → visit func (ds ++ es) s ≡ (
          if (visit func ds s).1
          then ((visit func ds s).0, true)
          else visit func es (visit func ds s).0)
  visit-append func [] es s = refl
  visit-append func (d ∷ ds) es s = elim (Bool-cases (func d s).1) [
    | inl e ↦ rw e refl
    | inr e ↦ rw e (visit-append func ds es (func d s).0)
  ]

  visit_one : (func : Bytes → S → S × Bool) (d : Bytes) (s : S) → func d s ≡ visit func (d ∷ []) s
  visit_one func d s = ground arith

  user_data_dir-visit :
      (func : Bytes → S → S × Bool) (env : Env) (s : S)
      → user_data_dir func env s ≡ visit func (user_dirs local_share env) s
  unfolding user_data_dir
  user_data_dir-visit func env s = ground arith

  -- `for_each_data_dir` ends and visits the data directories in order, the user's before those of
  -- the search path with its empty fields left out, up to the call that asks to stop; this for
  -- every callback and every search path that is a C string.
  pub for_each_data_dir-visit :
      (func : Bytes → S → S × Bool) (env : Env) (s : S)
      → IsText (search_path env)
      → for_each_data_dir func env s ≡ some (visit func (data_dirs env) s)
  unfolding for_each_data_dir
  for_each_data_dir-visit func env s t = rw (user_data_dir-visit func env s) (
      rw
        (data_loop-visit func (suc (length (search_path env))) (search_path env)
          (visit func (user_dirs local_share env) s).0 t (omega arith))
        (if-some _ _ _ ∙ ap some (sym (visit-append func (user_dirs local_share env) _ s))))

  theme_loop-visit :
      (func : Bytes → S → S × Bool) (f : ℕ) (ds : Bytes) (s : S)
      → IsText ds
      → length ds < f
      → theme_loop f func ds s ≡ some (visit_all func (map (λ d. d ++ icons) (path_dirs ds)) s)
  unfolding theme_loop
  theme_loop-visit func zero ds s t h = absurd (omega arith)
  theme_loop-visit func (suc f) [] s t h = refl
  theme_loop-visit func (suc f) (c ∷ cs) s t h = elim (Bool-cases (scan_end (c ∷ cs) == 0)) [
    | inl e ↦ rw (e, path_dirs_skip c cs e) (theme_loop-visit func f cs s t.1 (omega arith))
    | inr e ↦
        rw (e, path_dirs_step c cs e, copy_icons_dir-append (c ∷ cs) t)
          (theme_loop-visit func f (drop (scan_end (c ∷ cs)) (c ∷ cs))
            (func (take (scan_end (c ∷ cs)) (c ∷ cs) ++ icons) s).0
            (IsText-drop (scan_end (c ∷ cs)) (c ∷ cs) t) (drop_shorter f c cs h e))
  ]

  visit_all-append :
      (func : Bytes → S → S × Bool) (ds es : List Bytes) (s : S)
      → visit_all func (ds ++ es) s ≡ visit_all func es (visit_all func ds s)
  visit_all-append func [] es s = refl
  visit_all-append func (d ∷ ds) es s = visit_all-append func ds es (func d s).0

  user_theme_dir-visit :
      (func : Bytes → S → S × Bool) (env : Env) (s : S)
      → user_theme_dir func env s ≡ visit_all func (user_dirs user_icons env) s
  unfolding user_theme_dir
  user_theme_dir-visit func env s = ground arith

  -- `for_each_theme_dir` ends and visits every icon directory in order, whatever the callback
  -- returns: the user's, those of the search path with "/icons/" behind each, and last the pixmaps.
  for_each_theme_dir-visit :
      (func : Bytes → S → S × Bool) (env : Env) (s : S)
      → IsText (search_path env)
      → for_each_theme_dir func env s ≡ some (visit_all func (theme_dirs env) s)
  unfolding for_each_theme_dir last_theme_dir
  for_each_theme_dir-visit func env s t =
      rw
        (
          user_theme_dir-visit func env s,
          theme_loop-visit func (suc (length (search_path env))) (search_path env)
              (visit_all func (user_dirs user_icons env) s) t (omega arith),
        )
        (ap some (
          sym (
            visit_all-append func (user_dirs user_icons env) _ s
            ∙ visit_all-append func (map (λ d. d ++ icons) (path_dirs (search_path env)))
                (pixmaps ∷ []) (visit_all func (user_dirs user_icons env) s))))

  -- A search path that joins directories by colons, none of them empty or with a colon, makes
  -- `for_each_data_dir` visit just these directories behind the user's.
  for_each_data_dir-join :
      (func : Bytes → S → S × Bool) (env : Env) (s : S) (ds : List Bytes)
      → search_path env ≡ join ds
      → All IsDir ds
      → for_each_data_dir func env s ≡ some (visit func (user_dirs local_share env ++ ds) s)
  for_each_data_dir-join func env s ds e h =
      for_each_data_dir-visit func env s (subst IsText (sym e) (join-IsText ds h))
      ∙ ap (λ ps. some (visit func (user_dirs local_share env ++ ps) s))
          (ap path_dirs e ∙ path_dirs-join ds h)
