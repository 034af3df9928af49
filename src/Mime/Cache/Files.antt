-- ===== src/Mime/Cache/Files.antt =====
-- The types of data and of files in the caches of src/mime/xdgmimecache.c. `qsort` and `fnmatch` of
-- the C library are arguments; the fuel bounds the depth of the matchlets and of the calls of the
-- subclass test, and a result `none` is a fault or the end of the fuel. A type is a pointer, as the
-- bytes from it on.
use libxdg.Base.{
  ℕ, zero, suc, ◌+◌, ◌^◌, Bool, true, false, ◌&&◌, Option, none, some, List, [], ◌∷◌, ◌++◌, leb,
  ltb, ◌==◌, if◌then◌else◌, take, map,
}
use libxdg.Base.Faults.{◌>>=◌}
use libxdg.Base.Text.{Bytes}
use libxdg.Mime.Unicode.{get_base_name}
use libxdg.Mime.Glob.Tree.{MimeWeight}
use libxdg.Mime.Magic.{Sniffed}
use libxdg.Mime.Subclass.{Outcome, answer, out_of_bounds, unfinished}
use libxdg.Mime.Database.Sniff.{mime_type_unknown, mime_type_empty, binary_or_text_fallback}
use libxdg.Mime.Cache.{u32, get_uint32, nul_ended}
use libxdg.Mime.Cache.Parents.{cache_mime_type_subclass}
use libxdg.Mime.Cache.Globs.{cache_glob_lookup_file_name}
use libxdg.Mime.Cache.Magic.{cache_lookup_data}

-- The loop of `_xdg_mime_cache_get_max_buffer_extents`.
unfoldable pub max_extents : List Bytes → ℕ → Option ℕ
unfolding get_uint32
max_extents [] max_extent = some max_extent
max_extents (buffer ∷ buffers) max_extent = do
  offset ← get_uint32 buffer 24
  extent ← get_uint32 buffer (u32 (offset + 4))
  max_extents buffers (if ltb extent max_extent then max_extent else extent)

-- `if (prio > priority)`: a `prio` behind the range of an `int` is negative.
abbrev pub better : Sniffed → Sniffed → Sniffed
better best found = if ltb found.prio (2 ^ 31) && ltb best.prio found.prio then found else best

-- The loop over the caches, with the best match so far and the types that are not struck.
unfoldable pub best_match :
    ℕ
    → List Bytes
    → Bytes
    → List Bytes
    → Sniffed
    → List (Option Bytes)
    → Option (Sniffed × List (Option Bytes))
unfolding cache_lookup_data
best_match fuel caches bytes [] best mime_types = some (best, mime_types)
best_match fuel caches bytes (buffer ∷ buffers) best mime_types = do
  found ← cache_lookup_data fuel caches buffer bytes mime_types
  best_match fuel caches bytes buffers (better best found.0) found.1

abbrev pub answered : Outcome → Option Bool
answered (answer b) = some b
answered out_of_bounds = none
answered unfinished = none

-- The subclass test on two pointers.
abbrev pub subclass_at : (Bytes → Bytes → Outcome) → Bytes → Bytes → Option Bool
subclass_at subclass t m = do s ← nul_ended t; b ← nul_ended m; answered (subclass s b)

-- The first type by name that the type by contents is a supertype of, or else the latter.
unfoldable pub pick_subclass :
    (Bytes → Bytes → Outcome) → Bytes → List (Option Bytes) → Option Bytes
pick_subclass subclass mime_type [] = some mime_type
pick_subclass subclass mime_type (none ∷ mime_types) = pick_subclass subclass mime_type mime_types
pick_subclass subclass mime_type (some t ∷ mime_types) = elim (subclass_at subclass t mime_type) [
  | none ↦ none
  | some true ↦ some t
  | some false ↦ pick_subclass subclass mime_type mime_types
]

abbrev pub first_type : List (Option Bytes) → Option Bytes
first_type [] = none
first_type (none ∷ mime_types) = first_type mime_types
first_type (some t ∷ mime_types) = some t

-- What follows the loop over the caches; a priority above 0 comes with a type.
abbrev pub settled_type :
    (Bytes → Bytes → Outcome) → ℕ → Option Bytes → List (Option Bytes) → Option (Option Bytes)
settled_type subclass zero found mime_types = some (first_type mime_types)
settled_type subclass (suc priority) none mime_types = none
settled_type subclass (suc priority) (some m) mime_types = do
  mime_type ← pick_subclass subclass m mime_types
  some (some mime_type)

-- `cache_get_mime_type_for_data`: the type, and what it writes to `result_prio`.
unfoldable pub cache_get_mime_type_for_data :
    ℕ → List Bytes → Bytes → List Bytes → Option (Option Bytes × ℕ)
unfolding best_match pick_subclass
cache_get_mime_type_for_data fuel caches bytes mime_types = do
  found ←
      best_match fuel caches bytes caches (record { prio = 0; mime_type = none })
        (map some mime_types)
  mime_type ←
      settled_type (cache_mime_type_subclass fuel caches) found.0.prio found.0.mime_type found.1
  some (mime_type, found.0.prio)

-- What `stat` and the calls for a stream give: none in `reading` is a file that cannot be opened, and
-- none within one for which `ferror` holds.
pub record StatFile : Type 0 where
  pub st_size : ℕ
  pub is_regular : Bool
  pub reading : Option (Option Bytes)

-- The constants, as pointers to their texts.
abbrev pub terminated : Bytes → Bytes
terminated s = s ++ (0 ∷ [])

module _ (qsort : List MimeWeight → List MimeWeight) (fnmatch : Bytes → Bytes → Bool) (fuel : ℕ)
    (caches : List Bytes) where
  abbrev pub type_or_fallback : Option Bytes → Bytes → Bytes
  type_or_fallback none bytes = terminated (binary_or_text_fallback bytes)
  type_or_fallback (some mime_type) bytes = mime_type

  -- From `cache_get_mime_type_for_data` on.
  abbrev pub type_of_read : List Bytes → Bytes → Option Bytes
  type_of_read mime_types bytes = do
    found ← cache_get_mime_type_for_data fuel caches bytes mime_types
    some (type_or_fallback found.0 bytes)

  -- From `fopen` on.
  abbrev pub cache_type_of_reading : List Bytes → ℕ → Option (Option Bytes) → Option Bytes
  cache_type_of_reading mime_types max_extent none = some (terminated mime_type_unknown)
  cache_type_of_reading mime_types max_extent (some none) = some (terminated mime_type_unknown)
  cache_type_of_reading mime_types max_extent (some (some s)) =
      type_of_read mime_types (take max_extent s)

  -- From `malloc` on, which fails for an extent that is negative as an `int`.
  abbrev pub type_of_contents : List Bytes → Option (Option Bytes) → Option Bytes
  type_of_contents mime_types reading = do
    max_extent ← max_extents caches 0
    if leb (2 ^ 31) max_extent
        then some (terminated mime_type_unknown)
        else cache_type_of_reading mime_types max_extent reading

  -- From the tests of `statbuf` on.
  abbrev pub type_of_stat : List Bytes → Option StatFile → Option Bytes
  type_of_stat mime_types none = some (terminated mime_type_unknown)
  type_of_stat mime_types (some file) =
      if file.st_size == 0
      then some (terminated mime_type_empty)
      else if file.is_regular
      then type_of_contents mime_types file.reading
      else some (terminated mime_type_unknown)

  abbrev pub type_of_candidates : List Bytes → Option StatFile → Option Bytes
  type_of_candidates [] file = type_of_stat [] file
  type_of_candidates (t ∷ []) file = some t
  type_of_candidates (t ∷ u ∷ ts) file = type_of_stat (t ∷ u ∷ ts) file

  -- `_xdg_mime_cache_get_mime_type_for_file` on a name that is UTF-8.
  unfoldable pub cache_get_mime_type_for_file : Bytes → Option StatFile → Option Bytes
  unfolding cache_glob_lookup_file_name max_extents cache_get_mime_type_for_data
  cache_get_mime_type_for_file file_name file = do
    mime_types ← cache_glob_lookup_file_name qsort fnmatch caches (get_base_name file_name) 10
    type_of_candidates mime_types file

  abbrev pub named_or_unknown : List Bytes → Bytes
  named_or_unknown [] = terminated mime_type_unknown
  named_or_unknown (t ∷ ts) = t

  -- `_xdg_mime_cache_get_mime_type_from_file_name`
  unfoldable pub cache_get_mime_type_from_file_name : Bytes → Option Bytes
  unfolding cache_glob_lookup_file_name
  cache_get_mime_type_from_file_name file_name = do
    mime_types ← cache_glob_lookup_file_name qsort fnmatch caches file_name 1
    some (named_or_unknown mime_types)
