-- ===== src/Mime/Watch/Globs2.antt =====
-- Files on the list of src/mime/xdgmime.c that its watch does not look at.
use libxdg.Base.{
  ℕ, ◌≡◌, ◌≢◌, refl, sym, ap, ◌∙◌, inl, inr, Bool, true, false, Option, some, List, [], ◌∷◌, ◌++◌,
  map, if◌then◌else◌, Any, arith, Bool-cases, Option-cases,
}
use libxdg.Base.Text.{Bytes, codes, IsText, str_eq, str_eq_iff}
use libxdg.BaseDirectory.{Env, search_path}
use libxdg.BaseDirectory.Visits.{visit, data_dirs}
use libxdg.Mime.Watch.{
  DirTime, check_listed, some_not_valid, is_valid, uncheck, check_file, check_dir, check_dirs,
}
use libxdg.Mime.Watch.Sound.{visit-keeps, dir_branches, check_dirs-visit}

-- A path that is no globs2 file of any directory.
abbrev IsOther : Bytes → Type 0
IsOther path = (d : Bytes) → d ++ codes "/mime/globs2" ≢ path

-- The file on the list, not marked as valid.
abbrev IsPending : Bytes → DirTime → Type 0
IsPending name e = (e.directory_name ≡ name) × (is_valid e.checked ≡ false)

abbrev last : Bytes → ℕ
last [] = 0
last (c ∷ []) = c
last (c ∷ d ∷ s) = last (d ∷ s)

last-append : (s : Bytes) (c : ℕ) (t : Bytes) → last (s ++ (c ∷ t)) ≡ last (c ∷ t)
last-append [] c t = refl
last-append (x ∷ []) c t = refl
last-append (x ∷ y ∷ s) c t = last-append (y ∷ s) c t

IsOther-last : (path : Bytes) → last path ≢ b'2' → IsOther path
IsOther-last path h d e = h (sym (ap last e) ∙ last-append d b'/' (codes "mime/globs2"))

check_listed-IsPending :
    (mtime : ℕ) (path d : Bytes) (list : List DirTime)
    → IsOther path
    → Any (IsPending (d ++ codes "/mime/globs2")) list
    → Any (IsPending (d ++ codes "/mime/globs2")) (check_listed mtime path list).0
unfolding check_listed
check_listed-IsPending mtime path d [] other a = a
check_listed-IsPending mtime path d (e ∷ es) other a =
    elim (Bool-cases (str_eq e.directory_name path)) [
      | inl n ↦ elim a [
        | inl p ↦ absurd (other d (sym p.0 ∙ (str_eq_iff e.directory_name path).0 n))
        | inr later ↦ rw n (inr later)
      ]
      | inr n ↦ elim a [
        | inl p ↦ rw n (inl p)
        | inr later ↦ rw n (inr (check_listed-IsPending mtime path d es other later))
      ]
    ]

module _ (stat : Bytes → Option ℕ) where
  check_file-IsPending :
      (path d : Bytes) (list : List DirTime)
      → IsOther path
      → Any (IsPending (d ++ codes "/mime/globs2")) list
      → Any (IsPending (d ++ codes "/mime/globs2")) (check_file stat path list).0
  unfolding check_file
  check_file-IsPending path d list other a = elim (Option-cases (stat path)) [
    | inl e ↦ rw (e, check_file) a
    | inr (mtime, e) ↦ rw (e, check_file) (check_listed-IsPending mtime path d list other a)
  ]

  check_dir-IsPending :
      (d dir : Bytes) (s : List DirTime × Bool)
      → Any (IsPending (d ++ codes "/mime/globs2")) s.0
      → Any (IsPending (d ++ codes "/mime/globs2")) (check_dir stat dir s).0.0
  unfolding check_dir
  check_dir-IsPending d dir (list, flag) k =
      let one = check_file stat (dir ++ codes "/mime/mime.cache") list in
      let two = check_file stat (dir ++ codes "/mime/globs") one.0 in
      let three = check_file stat (dir ++ codes "/mime/magic") two.0 in
      let k1 =
        check_file-IsPending (dir ++ codes "/mime/mime.cache") d list
          (ending dir b'/' (codes "mime/mime.cache") (omega arith)) k in
      let k2 =
        check_file-IsPending (dir ++ codes "/mime/globs") d one.0
          (ending dir b'/' (codes "mime/globs") (omega arith)) k1 in
      let k3 =
        check_file-IsPending (dir ++ codes "/mime/magic") d two.0
          (ending dir b'/' (codes "mime/magic") (omega arith)) k2 in
      dir_branches (Any (IsPending (d ++ codes "/mime/globs2"))) one.0 two.0 three.0 one.2 one.1
        two.2 three.2 flag k1 k2 k3
    where
      ending : (dir : Bytes) (c : ℕ) (t : Bytes) → last (c ∷ t) ≢ b'2' → IsOther (dir ++ (c ∷ t))
      ending dir c t h = IsOther-last (dir ++ (c ∷ t)) (λ e. h (sym (last-append dir c t) ∙ e))

  uncheck-IsPending :
      (name : Bytes) (list : List DirTime)
      → Any (λ e. e.directory_name ≡ name) list
      → Any (IsPending name) (map uncheck list)
  uncheck-IsPending name [] a = a
  uncheck-IsPending name (e ∷ es) (inl n) = inl (n, refl)
  uncheck-IsPending name (e ∷ es) (inr a) = inr (uncheck-IsPending name es a)

  pending :
      (name : Bytes) (list : List DirTime) → Any (IsPending name) list → some_not_valid list ≡ true
  unfolding some_not_valid
  pending name [] a = elim a [ ]
  pending name (e ∷ es) (inl p) = rw p.1 refl
  pending name (e ∷ es) (inr a) = ground (arith, pending name es a)

  -- For a search path that is a C string, `check_dirs` reports a change whenever the globs2 file of
  -- any directory is on the list, whether it has changed or not.
  pub check_dirs-globs2 :
      (env : Env) (list : List DirTime) (d : Bytes)
      → IsText (search_path env)
      → Any (λ e. e.directory_name ≡ d ++ codes "/mime/globs2") list
      → (list' : List DirTime) × (check_dirs stat env list ≡ some (list', true))
  check_dirs-globs2 env list d t a =
      let walk = visit (check_dir stat) (data_dirs env) (map uncheck list, false) in
      let kept : Any (IsPending (d ++ codes "/mime/globs2")) walk.0.0 =
        visit-keeps (λ s. Any (IsPending (d ++ codes "/mime/globs2")) s.0) (check_dir stat)
          (data_dirs env) (map uncheck list, false) (check_dir-IsPending d)
          (uncheck-IsPending (d ++ codes "/mime/globs2") list a) in
      let flag : some_not_valid walk.0.0 ≡ true =
        pending (d ++ codes "/mime/globs2") walk.0.0 kept in
      (
        walk.0.0,
        check_dirs-visit stat env list t
            ∙ ap (λ b. some (walk.0.0, b)) (either walk.0.1 (some_not_valid walk.0.0) flag),
      )
    where
      either : (p q : Bool) → q ≡ true → (if p then true else q) ≡ true
      either true q e = refl
      either false q e = e
