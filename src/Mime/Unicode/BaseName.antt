-- ===== src/Mime/Unicode/BaseName.antt =====
-- What `_xdg_get_base_name` of src/mime/xdgmimeint.c returns.
use libxdg.Base.{ℕ, ◌≡◌, refl, ap, ◌⊎◌, inl, inr, none, some, [], ◌∷◌, ◌++◌, arith, Option-cases}
use libxdg.Base.Text.{Bytes, Lacks, after_last}
use libxdg.Mime.Unicode.{slash, get_base_name}

after_last-none : (c : ℕ) (s : Bytes) → after_last c s ≡ none → Lacks c s
unfolding after_last
after_last-none c [] h = tt
after_last-none c (x ∷ s) h = elim (Option-cases (after_last c s)) [
  | inl e ↦ (ground arith, after_last-none c s e)
  | inr (r, e) ↦ absurd (ground arith)
]

after_last-some :
    (c : ℕ) (s r : Bytes) → after_last c s ≡ some r → (d : Bytes) × (s ≡ d ++ (c ∷ r)) × Lacks c r
unfolding after_last
after_last-some c [] r h = absurd (ground arith)
after_last-some c (x ∷ s) r h = elim (Option-cases (after_last c s)) [
  | inl e ↦
      let xc : x ≡ c = ground arith in
      let sr : s ≡ r = ground arith in ([], rw (xc, sr) refl, rw (← sr) (after_last-none c s e))
  | inr (t, e) ↦
      let (d, split, clean) = after_last-some c s t e in
      let tr : t ≡ r = ground arith in (x ∷ d, rw (← tr) (ap (◌∷◌ x) split), rw (← tr) clean)
]

-- The base name holds no slash, and the file name is the base name alone or behind a directory
-- that ends in a slash.
get_base_name-splits :
    (file_name : Bytes)
    → Lacks slash (get_base_name file_name)
      × ((file_name ≡ get_base_name file_name)
          ⊎ ((dir : Bytes) × (file_name ≡ dir ++ (slash ∷ get_base_name file_name))))
unfolding get_base_name
get_base_name-splits file_name = elim (Option-cases (after_last slash file_name)) [
  | inl e ↦ rw (e, get_base_name) (after_last-none slash file_name e, inl refl)
  | inr (r, e) ↦
      let (d, split, clean) = after_last-some slash file_name r e in
      rw (e, get_base_name) (clean, inr (d, split))
]
