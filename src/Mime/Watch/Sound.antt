-- ===== src/Mime/Watch/Sound.antt =====
-- What it means that the watch of src/mime/xdgmime.c reports no change.
use libxdg.Base.{
  ℕ, ◌≡◌, refl, ap, ◌∙◌, ◌⊎◌, Bool, true, false, Option, some, List, [], ◌∷◌, ◌++◌, map, inl, inr,
  ◌==◌, if◌then◌else◌, All, arith, Bool-cases, Option-cases,
}
use libxdg.Base.Text.{Bytes, codes, IsText, str_eq, str_eq_iff}
use libxdg.BaseDirectory.{Env, search_path}
use libxdg.BaseDirectory.Visits.{visit, data_dirs, for_each_data_dir-visit}
use libxdg.Mime.Watch.{
  Checked, unchecked, valid, invalid, DirTime, check_listed, some_not_valid, is_valid, uncheck,
  check_file, check_dir, check_dirs,
}

-- The names and the times on the list.
abbrev pub files : List DirTime → List (Bytes × ℕ)
files = map (λ e. (e.directory_name, e.mtime))

-- What every call of a walk keeps, the walk keeps.
pub visit-keeps {ℓ} :
    {S : Type ℓ} (P : S → Type 0) (func : Bytes → S → S × Bool) (ds : List Bytes) (s : S)
    → ((d : Bytes) (s : S) → P s → P (func d s).0)
    → P s
    → P (visit func ds s).0
visit-keeps P func [] s h p = p
visit-keeps P func (d ∷ ds) s h p = elim (Bool-cases (func d s).1) [
  | inl e ↦ rw e (h d s p)
  | inr e ↦ rw e (visit-keeps P func ds (func d s).0 h (h d s p))
]

-- What `check_dir` returns, by what it finds of its three files.
abbrev pub dir_result :
    List DirTime
    → List DirTime
    → List DirTime
    → Bool
    → Bool
    → Bool
    → Bool
    → Bool
    → (List DirTime × Bool) × Bool
dir_result list1 list2 list3 invalid1 exists invalid2 invalid3 flag =
    if invalid1
    then ((list1, true), true)
    else (if exists
        then ((list1, flag), false)
        else (if invalid2
            then ((list2, true), true)
            else (if invalid3 then ((list3, true), true) else ((list3, flag), false))))

pub dir_branches :
    (P : List DirTime → Type 0) (list1 list2 list3 : List DirTime)
    (invalid1 exists invalid2 invalid3 flag : Bool)
    → P list1
    → P list2
    → P list3
    → P (dir_result list1 list2 list3 invalid1 exists invalid2 invalid3 flag).0.0
dir_branches P l m n true x b c flag p q r = p
dir_branches P l m n false true b c flag p q r = p
dir_branches P l m n false false true c flag p q r = q
dir_branches P l m n false false false true flag p q r = r
dir_branches P l m n false false false false flag p q r = r

Checked-cases : (c : Checked) → (c ≡ valid) ⊎ (is_valid c ≡ false)
Checked-cases unchecked = inr refl
Checked-cases valid = inl refl
Checked-cases invalid = inr refl

module _ (stat : Bytes → Option ℕ) where
  -- A file marked as valid is there with the time on the list.
  abbrev IsMeant : DirTime → Type 0
  IsMeant e = e.checked ≡ valid → stat e.directory_name ≡ some e.mtime

  check_listed-IsMeant :
      (mtime : ℕ) (path : Bytes) (list : List DirTime)
      → stat path ≡ some mtime
      → All IsMeant list
      → All IsMeant (check_listed mtime path list).0
  unfolding check_listed
  check_listed-IsMeant mtime path [] there m = tt
  check_listed-IsMeant mtime path (e ∷ es) there m =
      elim (Bool-cases (str_eq e.directory_name path)) [
        | inl n ↦ elim (Bool-cases (mtime == e.mtime)) [
          | inl t ↦
              let same : e.directory_name ≡ path = (str_eq_iff e.directory_name path).0 n in
              let times : mtime ≡ e.mtime = ground arith in
              rw (n, t) ((λ v. ap stat same ∙ there ∙ ap some times), m.1)
          | inr t ↦ rw (n, t) ((λ v. absurd (cc)), m.1)
        ]
        | inr n ↦ rw n (m.0, check_listed-IsMeant mtime path es there m.1)
      ]

  check_listed-files :
      (mtime : ℕ) (path : Bytes) (list : List DirTime)
      → files (check_listed mtime path list).0 ≡ files list
  unfolding check_listed
  check_listed-files mtime path [] = refl
  check_listed-files mtime path (e ∷ es) = elim (Bool-cases (str_eq e.directory_name path)) [
    | inl n ↦ rw n refl
    | inr n ↦ rw n (ap (◌∷◌ (e.directory_name, e.mtime)) (check_listed-files mtime path es))
  ]

  -- What the walk keeps, from a list with some files on.
  abbrev Keeps : List (Bytes × ℕ) → List DirTime → Type 0
  Keeps fs list = All IsMeant list × (files list ≡ fs)

  check_file-Keeps :
      (fs : List (Bytes × ℕ)) (path : Bytes) (list : List DirTime)
      → Keeps fs list
      → Keeps fs (check_file stat path list).0
  unfolding check_file
  check_file-Keeps fs path list k = elim (Option-cases (stat path)) [
    | inl e ↦ rw (e, check_file) k
    | inr (mtime, e) ↦
        rw (e, check_file)
          (check_listed-IsMeant mtime path list e k.0, check_listed-files mtime path list ∙ k.1)
  ]

  check_dir-Keeps :
      (fs : List (Bytes × ℕ)) (d : Bytes) (s : List DirTime × Bool)
      → Keeps fs s.0
      → Keeps fs (check_dir stat d s).0.0
  unfolding check_dir
  check_dir-Keeps fs d (list, flag) k =
      let one = check_file stat (d ++ codes "/mime/mime.cache") list in
      let two = check_file stat (d ++ codes "/mime/globs") one.0 in
      let three = check_file stat (d ++ codes "/mime/magic") two.0 in
      let k1 = check_file-Keeps fs (d ++ codes "/mime/mime.cache") list k in
      let k2 = check_file-Keeps fs (d ++ codes "/mime/globs") one.0 k1 in
      let k3 = check_file-Keeps fs (d ++ codes "/mime/magic") two.0 k2 in
      dir_branches (Keeps fs) one.0 two.0 three.0 one.2 one.1 two.2 three.2 flag k1 k2 k3

  uncheck-Keeps : (list : List DirTime) → Keeps (files list) (map uncheck list)
  uncheck-Keeps [] = (tt, refl)
  uncheck-Keeps (e ∷ es) =
      let (m, f) = uncheck-Keeps es in
      (((λ v. absurd (cc)), m), ap (◌∷◌ (e.directory_name, e.mtime)) f)

  some_not_valid-false :
      (list : List DirTime)
      → All IsMeant list
      → some_not_valid list ≡ false
      → All (λ e. stat e.directory_name ≡ some e.mtime) list
  unfolding some_not_valid
  some_not_valid-false [] m h = tt
  some_not_valid-false (e ∷ es) m h = elim (Checked-cases e.checked) [
    | inl v ↦ (m.0 v, some_not_valid-false es m.1 (ground arith))
    | inr v ↦ absurd (ground arith)
  ]

  pub check_dirs-visit :
      (env : Env) (list : List DirTime)
      → IsText (search_path env)
      → check_dirs stat env list
        ≡ some (
          (visit (check_dir stat) (data_dirs env) (map uncheck list, false)).0.0,
          if (visit (check_dir stat) (data_dirs env) (map uncheck list, false)).0.1
              then true
              else some_not_valid
                  (visit (check_dir stat) (data_dirs env) (map uncheck list, false)).0.0,
        )
  unfolding check_dirs
  check_dirs-visit env list t =
      rw (for_each_data_dir-visit (check_dir stat) env (map uncheck list, false) t, check_dirs) refl

  -- For a search path that is a C string, `check_dirs` ends, keeps the files and the times on the
  -- list, and reports no change only if every file on the list is there with its time.
  pub check_dirs-unchanged :
      (env : Env) (list : List DirTime)
      → IsText (search_path env)
      → (list' : List DirTime) × (changed : Bool) × (check_dirs stat env list
          ≡ some (list', changed))
        × (files list' ≡ files list)
        × (changed ≡ false → All (λ e. stat e.directory_name ≡ some e.mtime) list')
  check_dirs-unchanged env list t =
      let walk = visit (check_dir stat) (data_dirs env) (map uncheck list, false) in
      let kept : Keeps (files list) walk.0.0 =
        visit-keeps (λ s. Keeps (files list) s.0) (check_dir stat) (data_dirs env)
          (map uncheck list, false) (check_dir-Keeps (files list)) (uncheck-Keeps list) in
      (
        walk.0.0,
        (if walk.0.1 then true else some_not_valid walk.0.0),
        check_dirs-visit env list t,
        kept.1,
        λ e. some_not_valid-false walk.0.0 kept.0 (unflagged walk.0.1 (some_not_valid walk.0.0) e),
      )
    where
      unflagged : (p q : Bool) → (if p then true else q) ≡ false → q ≡ false
      unflagged true q e = absurd (cc)
      unflagged false q e = e
