-- ===== src/BaseDirectory/Fields.antt =====
-- What a search path in the form of XDG_DATA_DIRS holds, and how the scan of
-- src/basedirectory/xdgbasedirectory.c takes it apart.
use libxdg.Base.{
  ℕ, zero, suc, ◌≤◌, ◌≡◌, ◌≢◌, refl, sym, ap, ◌∙◌, Bool, true, false, inl, inr, List, [], ◌∷◌, ◌++◌,
  ◌==◌, if◌then◌else◌, length, take, drop, take_all, length-append, length-take, All, select, arith,
  Bool-cases, List-cases, ==_iff, ==-ne,
}
use native.Mathlib.Numerals.{add-one}
use libxdg.Base.Text.{Bytes, cstr, IsText, Lacks}
use libxdg.BaseDirectory.{colon, icons, scan_end, dir_len, copy_dir, copy_icons_dir}

-- One more byte at the front of the first field.
abbrev pub cons_head : ℕ → List Bytes → List Bytes
cons_head c [] = (c ∷ []) ∷ []
cons_head c (f ∷ fs) = (c ∷ f) ∷ fs

-- All fields between colons, empty ones included.
abbrev pub fields : Bytes → List Bytes
fields [] = [] ∷ []
fields (c ∷ cs) = let rest = fields cs in if c == colon then [] ∷ rest else cons_head c rest

abbrev pub is_full : Bytes → Bool
is_full [] = false
is_full (c ∷ cs) = true

-- The directories that a search path names: its fields that are not empty.
abbrev pub path_dirs : Bytes → List Bytes
path_dirs ds = select is_full (fields ds)

-- The path that lists some directories.
abbrev pub join : List Bytes → Bytes
join [] = []
join (d ∷ []) = d
join (d ∷ e ∷ ds) = d ++ (colon ∷ join (e ∷ ds))

-- What stands behind the first field: nothing, or a colon and further fields.
abbrev tail_fields : Bytes → List Bytes
tail_fields [] = []
tail_fields (c ∷ cs) = fields cs

abbrev StartsColon : Bytes → Type 0
StartsColon [] = Unit
StartsColon (c ∷ cs) = c ≡ colon

drop-scan_end : (ds : Bytes) → StartsColon (drop (scan_end ds) ds)
unfolding scan_end
drop-scan_end [] = tt
drop-scan_end (c ∷ cs) = elim (Bool-cases (c == colon)) [
  | inl e ↦ rw e ((==_iff c colon).0 e)
  | inr e ↦ rw e (drop-scan_end cs)
]

fields-scan_end :
    (ds : Bytes) → fields ds ≡ take (scan_end ds) ds ∷ tail_fields (drop (scan_end ds) ds)
unfolding scan_end
fields-scan_end [] = refl
fields-scan_end (c ∷ cs) = elim (Bool-cases (c == colon)) [
  | inl e ↦ rw e refl
  | inr e ↦ rw e (ap (cons_head c) (fields-scan_end cs))
]

path_dirs-StartsColon :
    (ds : Bytes) → StartsColon ds → path_dirs ds ≡ select is_full (tail_fields ds)
path_dirs-StartsColon [] h = refl
path_dirs-StartsColon (c ∷ cs) h = rw ((==_iff c colon).1 h) refl

-- An empty field is passed over.
pub path_dirs_skip :
    (c : ℕ) (cs : Bytes) → (scan_end (c ∷ cs) == 0) ≡ true → path_dirs (c ∷ cs) ≡ path_dirs cs
unfolding scan_end
path_dirs_skip c cs h = elim (Bool-cases (c == colon)) [
  | inl e ↦ rw e refl
  | inr e ↦ absurd (ground arith)
]

is_full-scan_end :
    (c : ℕ) (cs : Bytes)
    → (scan_end (c ∷ cs) == 0) ≡ false
    → is_full (take (scan_end (c ∷ cs)) (c ∷ cs)) ≡ true
unfolding scan_end
is_full-scan_end c cs h = elim (Bool-cases (c == colon)) [
  | inl e ↦ absurd (ground arith)
  | inr e ↦ rw e refl
]

-- A field that is not empty is the next directory.
pub path_dirs_step :
    (c : ℕ) (cs : Bytes)
    → (scan_end (c ∷ cs) == 0) ≡ false
    → path_dirs (c ∷ cs)
      ≡ take (scan_end (c ∷ cs)) (c ∷ cs) ∷ path_dirs (drop (scan_end (c ∷ cs)) (c ∷ cs))
path_dirs_step c cs h =
    ap (select is_full) (fields-scan_end (c ∷ cs))
    ∙ rw (is_full-scan_end c cs h) (
        ap (◌∷◌ (take (scan_end (c ∷ cs)) (c ∷ cs))) (
          sym (path_dirs-StartsColon (drop (scan_end (c ∷ cs)) (c ∷ cs)) (drop-scan_end (c ∷ cs)))))

pub scan_end-le : (ds : Bytes) → scan_end ds ≤ length ds
unfolding scan_end
scan_end-le [] = omega arith
scan_end-le (c ∷ cs) = ground (arith, scan_end-le cs)

cstr-take :
    (n : ℕ) (ds : Bytes)
    → IsText ds
    → n ≤ length ds
    → cstr (take n (ds ++ (0 ∷ [])) ++ (0 ∷ [])) ≡ take n ds
cstr-take zero ds t h = refl
cstr-take (suc n) [] t h = absurd (omega arith)
cstr-take (suc n) (zero ∷ ds) t h = absurd (omega arith)
cstr-take (suc n) (suc b ∷ ds) t h = ap (◌∷◌ (suc b)) (cstr-take n ds t.1 (omega arith))

cstr-take_all :
    (n : ℕ) (ds : Bytes)
    → IsText ds
    → n ≤ length ds
    → drop n ds ≡ []
    → cstr (take (suc n) (ds ++ (0 ∷ [])) ++ (0 ∷ [])) ≡ take n ds
cstr-take_all zero [] t h e = refl
cstr-take_all zero (b ∷ ds) t h e = absurd (cc)
cstr-take_all (suc n) [] t h e = absurd (omega arith)
cstr-take_all (suc n) (zero ∷ ds) t h e = absurd (omega arith)
cstr-take_all (suc n) (suc b ∷ ds) t h e = ap (◌∷◌ (suc b)) (cstr-take_all n ds t.1 (omega arith) e)

-- The copy is the first field, whether a colon ends it or the text does.
pub copy_dir-take : (ds : Bytes) → IsText ds → copy_dir ds ≡ take (scan_end ds) ds
unfolding copy_dir dir_len
copy_dir-take ds t = elim (List-cases (drop (scan_end ds) ds)) [
  | inl e ↦ rw (e, dir_len) (rw add-one (cstr-take_all (scan_end ds) ds t (scan_end-le ds) e))
  | inr (c, cs, e) ↦ rw (e, dir_len) (cstr-take (scan_end ds) ds t (scan_end-le ds))
]

dir_len-ge : (ds : Bytes) (n : ℕ) → n ≤ dir_len ds n
unfolding dir_len
dir_len-ge [] n = omega arith
dir_len-ge (c ∷ cs) n = omega arith

pub copy_icons_dir-append :
    (ds : Bytes) → IsText ds → copy_icons_dir ds ≡ take (scan_end ds) ds ++ icons
unfolding copy_icons_dir
copy_icons_dir-append ds t = rw (copy_dir-take ds t) (
    take_all _ (take (scan_end ds) ds ++ icons) (
      omega (
        arith,
        length-append {0} (take (scan_end ds) ds) icons,
        length-take {0} (scan_end ds) ds,
        dir_len-ge (drop (scan_end ds) ds) (scan_end ds),
      )))

-- A C string that a search path can name: not empty, and with no colon.
abbrev pub IsDir : Bytes → Type 0
IsDir d = (d ≢ []) × Lacks colon d × IsText d

fields-field : (d : Bytes) → Lacks colon d → fields d ≡ d ∷ []
fields-field [] h = refl
fields-field (c ∷ cs) h = rw (==-ne c colon h.0, fields-field cs h.1)

fields-append : (d rest : Bytes) → Lacks colon d → fields (d ++ (colon ∷ rest)) ≡ d ∷ fields rest
fields-append [] rest h = refl
fields-append (c ∷ cs) rest h = rw (==-ne c colon h.0, fields-append cs rest h.1)

is_full-IsDir : (d : Bytes) → d ≢ [] → is_full d ≡ true
is_full-IsDir [] h = absurd (h refl)
is_full-IsDir (c ∷ cs) h = refl

pub path_dirs-join : (ds : List Bytes) → All IsDir ds → path_dirs (join ds) ≡ ds
path_dirs-join [] h = refl
path_dirs-join (d ∷ []) h = rw (fields-field d h.0.1, is_full-IsDir d h.0.0)
path_dirs-join (d ∷ e ∷ ds) h =
    rw (fields-append d (join (e ∷ ds)) h.0.1, is_full-IsDir d h.0.0)
      (ap (◌∷◌ d) (path_dirs-join (e ∷ ds) h.1))

IsText-append : (a b : Bytes) → IsText a → IsText b → IsText (a ++ b)
IsText-append [] b h k = k
IsText-append (x ∷ a) b h k = (h.0, IsText-append a b h.1 k)

pub join-IsText : (ds : List Bytes) → All IsDir ds → IsText (join ds)
join-IsText [] h = tt
join-IsText (d ∷ []) h = h.0.2
join-IsText (d ∷ e ∷ ds) h =
    IsText-append d (colon ∷ join (e ∷ ds)) h.0.2 (omega arith, join-IsText (e ∷ ds) h.1)
