-- ===== src/Mime/Cache/Parents/Table.antt =====
-- The tables of parents in the caches of src/mime/xdgmimecache.c, as lists of types with parents.
use libxdg.Base.{
  ℕ, suc, ◌+◌, ◌≡◌, refl, inl, inr, some, List, [], ◌∷◌, leb, length, if◌then◌else◌, Bool-cases,
}
use libxdg.Base.Text.{Bytes, str_eq}
use libxdg.Mime.Cache.{u32, get_uint32, text_at, entry_offset}
use libxdg.Mime.Cache.Parents.{
  most_parents, add_new, parent_place, add_listed_parents, add_entry_parents, add_cache_parents,
}

-- A type and its parents.
abbrev pub Family : Type 0
Family = Bytes × List Bytes

-- The words from a place on lead to these texts.
abbrev pub ReadsTexts : Bytes → ℕ → ℕ → List Bytes → Type 0
ReadsTexts buffer offset k [] = Unit
ReadsTexts buffer offset k (q ∷ qs) =
    (text_at buffer (parent_place offset k) ≡ some q) × ReadsTexts buffer offset (suc k) qs

abbrev pub ReadsEntry : Bytes → ℕ → ℕ → Family → Type 0
ReadsEntry buffer list_offset j (mime, qs) =
    (text_at buffer (entry_offset list_offset 8 j) ≡ some mime)
    × (offset : ℕ) × (get_uint32 buffer (u32 (entry_offset list_offset 8 j + 4)) ≡ some offset)
    × (get_uint32 buffer offset ≡ some (length qs))
    × ReadsTexts buffer offset 0 qs

abbrev pub ReadsEntries : Bytes → ℕ → ℕ → List Family → Type 0
ReadsEntries buffer list_offset j [] = Unit
ReadsEntries buffer list_offset j (e ∷ es) =
    ReadsEntry buffer list_offset j e × ReadsEntries buffer list_offset (suc j) es

-- A cache holds these types with their parents.
abbrev pub IsFamilies : Bytes → List Family → Type 0
IsFamilies buffer es =
    (list_offset : ℕ) × (get_uint32 buffer 8 ≡ some list_offset)
    × (get_uint32 buffer list_offset ≡ some (length es))
    × ReadsEntries buffer list_offset 0 es

abbrev pub AreFamilies : List Bytes → List (List Family) → Type 0
AreFamilies [] [] = Unit
AreFamilies [] (es ∷ tables) = ⊥
AreFamilies (buffer ∷ buffers) [] = ⊥
AreFamilies (buffer ∷ buffers) (es ∷ tables) = IsFamilies buffer es × AreFamilies buffers tables

-- The parents of the first entry for a type.
abbrev pub family_of : Bytes → List Family → List Bytes
family_of mime [] = []
family_of mime (e ∷ es) = let rest = family_of mime es in if str_eq e.0 mime then e.1 else rest

-- Texts added one after the other, each unless it is there, as long as there is room.
abbrev pub take_new : List Bytes → List Bytes → List Bytes
take_new ps [] = ps
take_new ps (q ∷ qs) =
    let rest = take_new (add_new ps q) qs in if leb most_parents (length ps) then ps else rest

abbrev pub take_families : Bytes → List (List Family) → List Bytes → List Bytes
take_families mime [] ps = ps
take_families mime (es ∷ tables) ps = take_families mime tables (take_new ps (family_of mime es))

add_listed_parents-take_new :
    (buffer : Bytes) (offset k : ℕ) (qs ps : List Bytes)
    → ReadsTexts buffer offset k qs
    → add_listed_parents buffer offset (length qs) k ps ≡ some (take_new ps qs)
unfolding add_listed_parents
add_listed_parents-take_new buffer offset k [] ps r = refl
add_listed_parents-take_new buffer offset k (q ∷ qs) ps (here, r) =
    elim (Bool-cases (leb most_parents (length ps))) [
      | inl e ↦ rw (e, add_listed_parents) refl
      | inr e ↦
          rw (e, add_listed_parents, here)
            (add_listed_parents-take_new buffer offset (suc k) qs (add_new ps q) r)
    ]

add_entry_parents-take_new :
    (buffer : Bytes) (list_offset j : ℕ) (mime : Bytes) (es : List Family) (ps : List Bytes)
    → ReadsEntries buffer list_offset j es
    → add_entry_parents buffer list_offset mime (length es) j ps
      ≡ some (take_new ps (family_of mime es))
unfolding add_entry_parents
add_entry_parents-take_new buffer list_offset j mime [] ps r = refl
add_entry_parents-take_new buffer list_offset j mime ((m, qs) ∷ es) ps
      ((key, offset, at, size, texts), r) =
    elim (Bool-cases (str_eq m mime)) [
      | inl e ↦
          rw (key, add_entry_parents, at, e, size)
            (add_listed_parents-take_new buffer offset 0 qs ps texts)
      | inr e ↦
          rw (key, add_entry_parents, at, e)
            (add_entry_parents-take_new buffer list_offset (suc j) mime es ps r)
    ]

pub add_cache_parents-take_families :
    (caches : List Bytes) (tables : List (List Family)) (mime : Bytes) (ps : List Bytes)
    → AreFamilies caches tables
    → add_cache_parents caches mime ps ≡ some (take_families mime tables ps)
unfolding add_cache_parents
add_cache_parents-take_families [] [] mime ps h = refl
add_cache_parents-take_families [] (es ∷ tables) mime ps h = elim h [ ]
add_cache_parents-take_families (buffer ∷ buffers) [] mime ps h = elim h [ ]
add_cache_parents-take_families (buffer ∷ buffers) (es ∷ tables) mime ps
      ((list_offset, at, size, r), h) =
    rw (at, add_cache_parents, size, add_entry_parents-take_new buffer list_offset 0 mime es ps r)
      (add_cache_parents-take_families buffers tables mime (take_new ps (family_of mime es)) h)
