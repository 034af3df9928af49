-- ===== src/Mime/Database/Reload.antt =====
-- The watch of src/mime/xdgmime.c right after the data directories were read.
use libxdg.Base.{
  ℕ, ◌≡◌, refl, sym, ◌∙◌, subst, inl, inr, Bool, true, Option, none, some, List, [], ◌∷◌, ◌++◌, Any,
  Bool-cases,
}
use libxdg.Base.Int.{ℤ}
use libxdg.Base.Text.{Bytes, codes, IsText}
use libxdg.BaseDirectory.{Env, search_path}
use libxdg.BaseDirectory.Visits.{visit, data_dirs, for_each_data_dir-visit}
use libxdg.Mime.Table.{Entry}
use libxdg.Mime.Parents.{MimeParents}
use libxdg.Mime.Watch.{DirTime, check_dirs}
use libxdg.Mime.Watch.Sound.{visit-keeps}
use libxdg.Mime.Watch.Globs2.{check_dirs-globs2}
use libxdg.Mime.Database.{
  FileSystem, Database, empty_database, read_globs, init_from_directory, init_directory, mime_init,
}
use libxdg.Mime.Database.Listed.{Lists, read_globs-listed, text_files-kept, init_directory-kept}

-- A call for the directory itself, and calls that keep what it does.
visit-reaches {ℓ} :
    {S : Type ℓ} (P : S → Type 0) (func : Bytes → S → S × Bool) (d : Bytes) (ds : List Bytes)
    (s : S)
    → ((d : Bytes) (s : S) → P s → P (func d s).0)
    → ((s : S) → P (func d s).0)
    → ((d : Bytes) (s : S) → (func d s).1 ≡ true → P (func d s).0)
    → Any (λ e. e ≡ d) ds
    → P (visit func ds s).0
visit-reaches P func d [] s keeps here stops a = elim a [ ]
visit-reaches P func d (e ∷ ds) s keeps here stops a = elim (Bool-cases (func e s).1) [
  | inl t ↦ rw t (stops e s t)
  | inr t ↦ rw t (elim a [
    | inl same ↦
        visit-keeps P func ds (func e s).0 keeps (subst (λ x. P (func x s).0) (sym same) (here s))
    | inr later ↦ visit-reaches P func d ds (func e s).0 keeps here stops later
  ])
]

module _ (atoi : Bytes → ℤ) (qsort : List Entry → List Entry)
    (qsort_parents : List MimeParents → List MimeParents) (fs : FileSystem) where
  mime_init-visit :
      (env : Env)
      → IsText (search_path env)
      → mime_init atoi qsort qsort_parents fs env
        ≡ (visit
            (init_directory atoi qsort qsort_parents fs)
            (data_dirs env)
            (some empty_database)).0
  unfolding mime_init
  mime_init-visit env t =
      rw
        (
          for_each_data_dir-visit (init_directory atoi qsort qsort_parents fs) env
              (some empty_database) t,
          mime_init,
        )
        refl

  -- A directory with a file globs2 and without a cache file.
  module _ (d : Bytes) (mtime : ℕ) (no_cache : fs.stat (d ++ codes "/mime/mime.cache") ≡ none)
      (globs2 : fs.stat (d ++ codes "/mime/globs2") ≡ some mtime) where
    init_directory-listed :
        (o : Option Database)
        → Lists (d ++ codes "/mime/globs2") (init_directory atoi qsort qsort_parents fs d o).0
    unfolding init_directory init_from_directory
    init_directory-listed none = tt
    init_directory-listed (some db) =
        rw (no_cache, init_directory, init_from_directory)
          (text_files-kept atoi qsort qsort_parents fs (d ++ codes "/mime/globs2") d db (
            subst
              (λ o.
                Lists (d ++ codes "/mime/globs2") (read_globs atoi qsort qsort_parents fs d o db))
              (sym globs2) (read_globs-listed atoi qsort qsort_parents fs d mtime db)))

    init_directory-stops :
        (name directory : Bytes) (o : Option Database)
        → (init_directory atoi qsort qsort_parents fs directory o).1 ≡ true
        → Lists name (init_directory atoi qsort qsort_parents fs directory o).0
    unfolding init_directory
    init_directory-stops name directory none e = tt
    init_directory-stops name directory (some db) e = absurd (cc)

    -- Where a directory of data has a file globs2 and no cache file, a watch right after reading the
    -- directories reports a change, although no file has changed; this for a search path that is a C
    -- string, and where reading them has no fault.
    pub check_dirs-mime_init :
        (env : Env) (db : Database)
        → IsText (search_path env)
        → Any (λ e. e ≡ d) (data_dirs env)
        → mime_init atoi qsort qsort_parents fs env ≡ some db
        → (list : List DirTime) × (check_dirs fs.stat env db.dir_time_list ≡ some (list, true))
    check_dirs-mime_init env db t inside e =
        let func = init_directory atoi qsort qsort_parents fs in
        let result : (visit func (data_dirs env) (some empty_database)).0 ≡ some db =
          sym (mime_init-visit env t) ∙ e in
        let listed : Lists (d ++ codes "/mime/globs2")
            (visit func (data_dirs env) (some empty_database)).0 =
          visit-reaches (Lists (d ++ codes "/mime/globs2")) func d (data_dirs env)
            (some empty_database)
            (init_directory-kept atoi qsort qsort_parents fs (d ++ codes "/mime/globs2"))
            init_directory-listed (init_directory-stops (d ++ codes "/mime/globs2")) inside in
        check_dirs-globs2 fs.stat env db.dir_time_list d t
          (subst (Lists (d ++ codes "/mime/globs2")) result listed)
