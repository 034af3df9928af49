-- ===== src/Mime/Cache/Globs.antt =====
-- The patterns in the caches of src/mime/xdgmimecache.c. `qsort` and `fnmatch` of the C library are
-- arguments. A MIME type is a pointer into a cache, which is formed without a read: it stands as the
-- bytes of the cache from it on.
pub mod Room
use Prim.Native.Nat.{compare, Ordering}
use mathlib.Core.List.{reverse}
use libxdg.Base.{
  ℕ, zero, suc, ◌+◌, ◌-◌, ◌*◌, ◌/◌, ◌%◌, ◌^◌, Bool, true, false, not, ◌||◌, ◌&&◌, Option, none,
  some, List, [], ◌∷◌, ◌++◌, leb, ltb, ◌==◌, if◌then◌else◌, length, take, drop, map,
}
use libxdg.Base.Faults.{◌>>=◌, ◌>>◌}
use libxdg.Base.Int.{ℤ, pos}
use libxdg.Base.Text.{Bytes}
use libxdg.Mime.Glob.Tree.{MimeWeight}
use libxdg.Mime.Glob.Hash.{ascii_tolower}
use libxdg.Mime.Cache.{
  u32, get_uint32, text_at, string_at, entry_offset, rounds, binary_search, settled, above_max,
  search_entries, first_answer,
}

-- `weight & 0x100`, and `case_sensitive_check || !case_sensitive`.
abbrev pub may_match : Bool → ℕ → Bool
may_match case_sensitive_check weight = case_sensitive_check || not ((weight / 256) % 2 == 1)

-- `weight & 0xff`
abbrev pub weight_of : ℕ → ℤ
weight_of weight = pos (weight % 256)

-- What a literal entry that was found gives: its type, or none, which ends the lookup too.
abbrev pub literal_at : Bytes → ℕ → Bool → Option ℕ → Option (Option (Option Bytes))
literal_at buffer list_offset check none = some none
literal_at buffer list_offset check (some mid) = do
  weight ← get_uint32 buffer (u32 (entry_offset list_offset 12 mid + 8))
  elim (may_match check weight) [
    | false ↦ some (some none)
    | true ↦ (do
      offset ← get_uint32 buffer (u32 (entry_offset list_offset 12 mid + 4))
      some (some (some (drop offset buffer))))
  ]

unfoldable pub lookup_literal : Bytes → Bool → Bytes → Option (Option (Option Bytes))
unfolding search_entries get_uint32 text_at
lookup_literal file_name check buffer = do
  list_offset ← get_uint32 buffer 12
  n_entries ← get_uint32 buffer list_offset
  found ← search_entries buffer list_offset 12 n_entries file_name
  literal_at buffer list_offset check found

abbrev pub flattened {ℓ} : {A : Type ℓ} → Option (Option A) → Option A
flattened none = none
flattened (some a) = a

-- `cache_glob_lookup_literal`: the type that it writes, if it returns 1.
unfoldable pub cache_glob_lookup_literal : List Bytes → Bytes → Bool → Option (Option Bytes)
unfolding first_answer lookup_literal
cache_glob_lookup_literal caches file_name check = do
  found ← first_answer (lookup_literal file_name check) caches
  some (flattened found)

-- No answer where there are no types.
abbrev pub if_any : List MimeWeight → Option (List MimeWeight)
if_any [] = none
if_any (m ∷ ms) = some (m ∷ ms)

abbrev pub or_no_types : Option (List MimeWeight) → List MimeWeight
or_no_types none = []
or_no_types (some ms) = ms

module _ (fnmatch : Bytes → Bytes → Bool) where
  -- The body of the loop behind the reads: the pattern is read only if the case allows a match.
  abbrev pub fnmatch_entry :
      Bytes → Bytes → Bool → ℕ → ℕ → ℕ → List MimeWeight → Option (List MimeWeight)
  fnmatch_entry buffer file_name check offset mimetype_offset weight ms =
      elim (may_match check weight) [
        | false ↦ some ms
        | true ↦ (do
          ptr ← string_at buffer offset
          some (
              if fnmatch ptr file_name
              then ms
                ++ ((record { mime = drop mimetype_offset buffer; weight = weight_of weight }) ∷ [])
              else ms))
      ]

  -- The loop over the entries of a cache, for the entries left, with the types written so far.
  unfoldable pub fnmatch_entries :
      Bytes → ℕ → Bytes → Bool → ℕ → ℕ → ℕ → List MimeWeight → Option (List MimeWeight)
  unfolding get_uint32 string_at
  fnmatch_entries buffer list_offset file_name check limit zero j ms = some ms
  fnmatch_entries buffer list_offset file_name check limit (suc n) j ms =
      elim (leb limit (length ms)) [
        | true ↦ some ms
        | false ↦ (do
          offset ← get_uint32 buffer (entry_offset list_offset 12 j)
          mimetype_offset ← get_uint32 buffer (u32 (entry_offset list_offset 12 j + 4))
          weight ← get_uint32 buffer (u32 (entry_offset list_offset 12 j + 8))
          next ← fnmatch_entry buffer file_name check offset mimetype_offset weight ms
          fnmatch_entries buffer list_offset file_name check limit n (suc j) next)
      ]

  unfoldable pub lookup_fnmatch : Bytes → Bool → ℕ → Bytes → Option (Option (List MimeWeight))
  unfolding fnmatch_entries get_uint32
  lookup_fnmatch file_name check limit buffer = do
    list_offset ← get_uint32 buffer 20
    n_entries ← get_uint32 buffer list_offset
    ms ← fnmatch_entries buffer list_offset file_name check limit n_entries 0 []
    some (if_any ms)

  -- `cache_glob_lookup_fnmatch`
  unfoldable pub cache_glob_lookup_fnmatch :
      List Bytes → Bytes → ℕ → Bool → Option (List MimeWeight)
  unfolding first_answer lookup_fnmatch
  cache_glob_lookup_fnmatch caches file_name limit check = do
    found ← first_answer (lookup_fnmatch file_name check limit) caches
    some (or_no_types found)

-- A byte of the name as a character: it goes through a signed `char`.
abbrev pub character_of : ℕ → ℕ
character_of c = if ltb c 128 then c else 2 ^ 32 - 256 + c

-- The comparison of the character of a node with that of the name.
abbrev pub compare_node : Bytes → ℕ → ℕ → ℕ → Option Ordering
compare_node buffer offset character mid = do
  match_char ← get_uint32 buffer (u32 (offset + 12 * mid))
  some (compare match_char character)

-- The types of the nodes with the character 0 at the front of the children, for the children left.
unfoldable pub end_types : Bytes → Bool → ℕ → ℕ → ℕ → ℕ → List MimeWeight → Option (List MimeWeight)
unfolding get_uint32
end_types buffer check limit child_offset zero i ms = some ms
end_types buffer check limit child_offset (suc n) i ms = elim (leb limit (length ms)) [
  | true ↦ some ms
  | false ↦ elim (get_uint32 buffer (u32 (child_offset + 12 * i))) [
    | none ↦ none
    | some match_char ↦ elim (match_char == 0) [
      | false ↦ some ms
      | true ↦ (do
        mimetype_offset ← get_uint32 buffer (u32 (child_offset + 12 * i + 4))
        weight ← get_uint32 buffer (u32 (child_offset + 12 * i + 8))
        end_types buffer check limit child_offset n (suc i) (
            if may_match check weight
            then ms
              ++ ((record { mime = drop mimetype_offset buffer; weight = weight_of weight }) ∷ [])
            else ms))
    ]
  ]
]

-- The types below, or those that end here where there are none below.
abbrev pub or_end_types : Bytes → Bool → ℕ → ℕ → ℕ → List MimeWeight → Option (List MimeWeight)
or_end_types buffer check limit n_children child_offset [] =
    end_types buffer check limit child_offset n_children 0 []
or_end_types buffer check limit n_children child_offset (m ∷ ms) = some (m ∷ ms)

-- What follows the search for a node: nothing, or its number and place of children.
abbrev pub children_at : Bytes → ℕ → Option ℕ → Option (Option (ℕ × ℕ))
children_at buffer offset none = some none
children_at buffer offset (some mid) = do
  n_children ← get_uint32 buffer (u32 (offset + 12 * mid + 4))
  child_offset ← get_uint32 buffer (u32 (offset + 12 * mid + 8))
  some (some (n_children, child_offset))

unfoldable pub find_node : Bytes → ℕ → ℕ → ℕ → Option (Option (ℕ × ℕ))
unfolding binary_search get_uint32
find_node buffer n_entries offset character = do
  found ←
      settled (binary_search rounds (compare_node buffer offset character) 0 (above_max n_entries))
  children_at buffer offset found

-- `cache_glob_node_lookup_suffix` on the name read from its end. An empty name is read in front of
-- its start; the `assert` on the character is a fault.
unfoldable pub node_lookup_suffix : Bytes → Bool → ℕ → Bytes → ℕ → ℕ → Option (List MimeWeight)
unfolding find_node end_types
node_lookup_suffix buffer check limit [] n_entries offset = none
node_lookup_suffix buffer check limit (zero ∷ rest) n_entries offset = none
node_lookup_suffix buffer check limit (suc c ∷ []) n_entries offset =
    elim (find_node buffer n_entries offset (character_of (suc c))) [
      | none ↦ none
      | some none ↦ some []
      | some (some (n_children, child_offset)) ↦
          end_types buffer check limit child_offset n_children 0 []
    ]
node_lookup_suffix buffer check limit (suc c ∷ d ∷ rest) n_entries offset =
    elim (find_node buffer n_entries offset (character_of (suc c))) [
      | none ↦ none
      | some none ↦ some []
      | some (some (n_children, child_offset)) ↦
          elim (node_lookup_suffix buffer check limit (d ∷ rest) n_children child_offset) [
            | none ↦ none
            | some ms ↦ or_end_types buffer check limit n_children child_offset ms
          ]
    ]

unfoldable pub lookup_suffix : Bytes → Bool → ℕ → Bytes → Option (Option (List MimeWeight))
unfolding node_lookup_suffix get_uint32
lookup_suffix file_name check limit buffer = do
  list_offset ← get_uint32 buffer 16
  n_entries ← get_uint32 buffer list_offset
  offset ← get_uint32 buffer (u32 (list_offset + 4))
  ms ← node_lookup_suffix buffer check limit (reverse file_name) n_entries offset
  some (if_any ms)

-- `cache_glob_lookup_suffix`
unfoldable pub cache_glob_lookup_suffix : List Bytes → Bytes → Bool → ℕ → Option (List MimeWeight)
unfolding first_answer lookup_suffix
cache_glob_lookup_suffix caches file_name check limit = do
  found ← first_answer (lookup_suffix file_name check limit) caches
  some (or_no_types found)

-- A further search, where there are no types yet.
abbrev pub unless_any : List MimeWeight → Option (List MimeWeight) → Option (List MimeWeight)
unless_any [] next = next
unless_any (m ∷ ms) next = some (m ∷ ms)

-- The size of `mimes`.
abbrev pub mimes_room : ℕ
mimes_room = 10

module _ (qsort : List MimeWeight → List MimeWeight) (fnmatch : Bytes → Bytes → Bool) where
  -- The searches behind those for literal names.
  unfoldable pub cache_pattern_types : List Bytes → Bytes → Option (List MimeWeight)
  unfolding cache_glob_lookup_suffix cache_glob_lookup_fnmatch
  cache_pattern_types caches file_name = do
    first ← cache_glob_lookup_suffix caches (ascii_tolower file_name) false mimes_room
    second ← unless_any first (cache_glob_lookup_suffix caches file_name true mimes_room)
    third ←
        unless_any second
          (cache_glob_lookup_fnmatch fnmatch caches (ascii_tolower file_name) mimes_room false)
    unless_any third (cache_glob_lookup_fnmatch fnmatch caches file_name mimes_room true)

  abbrev pub sorted_types : ℕ → List MimeWeight → List Bytes
  sorted_types n_mime_types ms = map (λ m. m.mime) (take n_mime_types (qsort ms))

  abbrev pub or_patterns : List Bytes → Bytes → ℕ → Option Bytes → Option (List Bytes)
  or_patterns caches file_name n_mime_types (some t) = some (t ∷ [])
  or_patterns caches file_name n_mime_types none = do
    ms ← cache_pattern_types caches file_name
    some (sorted_types n_mime_types ms)

  abbrev pub or_exact : List Bytes → Bytes → ℕ → Option Bytes → Option (List Bytes)
  or_exact caches file_name n_mime_types (some t) = some (t ∷ [])
  or_exact caches file_name n_mime_types none = do
    exact ← cache_glob_lookup_literal caches file_name true
    or_patterns caches file_name n_mime_types exact

  -- `cache_glob_lookup_file_name`: the types that it writes to `mime_types`; a limit of 0 fails the
  -- `assert`.
  unfoldable pub cache_glob_lookup_file_name : List Bytes → Bytes → ℕ → Option (List Bytes)
  unfolding cache_glob_lookup_literal cache_pattern_types
  cache_glob_lookup_file_name caches file_name zero = none
  cache_glob_lookup_file_name caches file_name (suc n) = do
    lower ← cache_glob_lookup_literal caches (ascii_tolower file_name) false
    or_exact caches file_name (suc n) lower
