-- ===== src/Mime/Cache/Parents.antt =====
-- The parents of types in the caches of src/mime/xdgmimecache.c: the subclass test and the list of
-- parents.
pub mod Table
pub mod Bound
use libxdg.Base.{
  ℕ, zero, suc, ◌+◌, ◌*◌, Bool, true, false, ◌||◌, Option, none, some, List, [], ◌∷◌, ◌++◌, leb,
  if◌then◌else◌, length, some_of,
}
use libxdg.Base.Faults.{◌>>=◌, ◌>>◌}
use libxdg.Base.Text.{Bytes, str_eq}
use libxdg.Mime.Subclass.{Outcome, answer, out_of_bounds, unfinished, is_direct}
use libxdg.Mime.Cache.{
  u32, get_uint32, text_at, entry_offset, search_entries, cache_unalias_mime_type,
}

-- The size of `all_parents` but for its NULL.
abbrev pub most_parents : ℕ
most_parents = 127

abbrev pub add_new : List Bytes → Bytes → List Bytes
add_new ps parent = if some_of (str_eq parent) ps then ps else ps ++ (parent ∷ [])

-- The place of a parent in the list at an offset.
abbrev pub parent_place : ℕ → ℕ → ℕ
parent_place parents_offset k = u32 (parents_offset + 4 + 4 * k)

-- The loop over the parents of one entry, for the parents left.
unfoldable pub add_listed_parents : Bytes → ℕ → ℕ → ℕ → List Bytes → Option (List Bytes)
unfolding text_at
add_listed_parents buffer parents_offset zero k ps = some ps
add_listed_parents buffer parents_offset (suc n) k ps = elim (leb most_parents (length ps)) [
  | true ↦ some ps
  | false ↦ elim (text_at buffer (parent_place parents_offset k)) [
    | none ↦ none
    | some parent ↦ add_listed_parents buffer parents_offset n (suc k) (add_new ps parent)
  ]
]

-- The parents of the first entry for the type, from an entry on, for the entries left.
unfoldable pub add_entry_parents : Bytes → ℕ → Bytes → ℕ → ℕ → List Bytes → Option (List Bytes)
unfolding add_listed_parents text_at get_uint32
add_entry_parents buffer list_offset mime zero j ps = some ps
add_entry_parents buffer list_offset mime (suc n) j ps =
    elim (text_at buffer (entry_offset list_offset 8 j)) [
      | none ↦ none
      | some mimetype ↦ elim (get_uint32 buffer (u32 (entry_offset list_offset 8 j + 4))) [
        | none ↦ none
        | some parents_offset ↦ elim (str_eq mimetype mime) [
          | false ↦ add_entry_parents buffer list_offset mime n (suc j) ps
          | true ↦ (do
            n_parents ← get_uint32 buffer parents_offset
            add_listed_parents buffer parents_offset n_parents 0 ps)
        ]
      ]
    ]

-- The loop over the caches.
unfoldable pub add_cache_parents : List Bytes → Bytes → List Bytes → Option (List Bytes)
unfolding add_entry_parents get_uint32
add_cache_parents [] mime ps = some ps
add_cache_parents (buffer ∷ buffers) mime ps = do
  list_offset ← get_uint32 buffer 8
  n_entries ← get_uint32 buffer list_offset
  ps' ← add_entry_parents buffer list_offset mime n_entries 0 ps
  add_cache_parents buffers mime ps'

-- `_xdg_mime_cache_list_mime_parents`, without the NULL at the end.
unfoldable pub cache_list_mime_parents : List Bytes → Bytes → Option (List Bytes)
unfolding add_cache_parents
cache_list_mime_parents caches mime = do
  umime ← cache_unalias_mime_type caches mime
  add_cache_parents caches umime []

-- The calls for the parents of an entry, for the parents left.
unfoldable pub any_listed : (Bytes → Outcome) → Bytes → ℕ → ℕ → ℕ → Outcome
unfolding text_at
any_listed call buffer offset zero j = answer false
any_listed call buffer offset (suc n) j = elim (text_at buffer (parent_place offset j)) [
  | none ↦ out_of_bounds
  | some parent ↦ elim (call parent) [
    | answer true ↦ answer true
    | answer false ↦ any_listed call buffer offset n (suc j)
    | out_of_bounds ↦ out_of_bounds
    | unfinished ↦ unfinished
  ]
]

abbrev pub outcome_of : Option Outcome → Outcome
outcome_of none = out_of_bounds
outcome_of (some o) = o

-- The parents behind the entry found, if there is one.
abbrev pub any_at : (Bytes → Outcome) → Bytes → ℕ → Option ℕ → Option Outcome
any_at call buffer list_offset none = some (answer false)
any_at call buffer list_offset (some med) = do
  offset ← get_uint32 buffer (u32 (entry_offset list_offset 8 med + 4))
  n_parents ← get_uint32 buffer offset
  some (any_listed call buffer offset n_parents 0)

unfoldable pub any_in_cache : (Bytes → Outcome) → Bytes → Bytes → Outcome
unfolding any_listed search_entries get_uint32
any_in_cache call umime buffer = outcome_of (do
  list_offset ← get_uint32 buffer 8
  n_entries ← get_uint32 buffer list_offset
  found ← search_entries buffer list_offset 8 n_entries umime
  any_at call buffer list_offset found)

-- The loop over the caches.
unfoldable pub any_in_caches : (Bytes → Outcome) → Bytes → List Bytes → Outcome
unfolding any_in_cache
any_in_caches call umime [] = answer false
any_in_caches call umime (buffer ∷ buffers) = elim (any_in_cache call umime buffer) [
  | answer true ↦ answer true
  | answer false ↦ any_in_caches call umime buffers
  | out_of_bounds ↦ out_of_bounds
  | unfinished ↦ unfinished
]

abbrev pub then_caches : (Bytes → Outcome) → Bytes → List Bytes → Option Bool → Outcome
then_caches call umime caches none = out_of_bounds
then_caches call umime caches (some true) = answer true
then_caches call umime caches (some false) = any_in_caches call umime caches

-- `_xdg_mime_cache_mime_type_subclass`; the fuel bounds the depth of its calls of itself.
unfoldable pub cache_mime_type_subclass : ℕ → List Bytes → Bytes → Bytes → Outcome
unfolding any_in_caches is_direct cache_unalias_mime_type
cache_mime_type_subclass zero caches mime base = unfinished
cache_mime_type_subclass (suc f) caches mime base = outcome_of (do
  umime ← cache_unalias_mime_type caches mime
  ubase ← cache_unalias_mime_type caches base
  some (
      then_caches (λ p. cache_mime_type_subclass f caches p ubase) umime caches
        (is_direct umime ubase)))
