-- ===== src/Mime/Cache/Magic.antt =====
-- The rules on contents in the caches of src/mime/xdgmimecache.c. Matchlets may lead to matchlets
-- without an end: the fuel bounds their depth, and a result `none` is a fault or the end of the fuel.
pub mod Matchlets
use Prim.Native.Nat.{bit_and}
use libxdg.Base.{
  ℕ, zero, suc, ◌+◌, ◌-◌, ◌*◌, ◌^◌, Bool, true, false, ◌&&◌, Option, none, some, List, [], ◌∷◌, leb,
  ltb, ◌==◌, if◌then◌else◌, length, take, drop,
}
use libxdg.Base.Faults.{◌>>=◌, ◌>>◌}
use libxdg.Base.Text.{Bytes, str_eq}
use libxdg.Mime.Magic.{Sniffed}
use libxdg.Mime.Subclass.{Outcome, answer, out_of_bounds, unfinished}
use libxdg.Mime.Cache.{u32, get_uint32, text_at, string_at, nul_ended, cache_unalias_mime_type}
use libxdg.Mime.Cache.Parents.{cache_mime_type_subclass}

abbrev pub byte_at : Bytes → ℕ → Option ℕ
byte_at [] i = none
byte_at (b ∷ s) zero = some b
byte_at (b ∷ s) (suc i) = byte_at s i

-- The bytes that `memcmp` may read.
abbrev pub block_at : Bytes → ℕ → ℕ → Option Bytes
block_at buffer offset n =
    if leb (offset + n) (length buffer) then some (take n (drop offset buffer)) else none

-- The loop under a mask, from an index on, for the bytes left.
unfoldable pub masked_equal : Bytes → ℕ → ℕ → Bytes → ℕ → ℕ → ℕ → Option Bool
masked_equal buffer data_offset mask_offset bytes i zero j = some true
masked_equal buffer data_offset mask_offset bytes i (suc n) j = do
  v ← byte_at buffer (u32 (data_offset + j))
  m ← byte_at buffer (u32 (mask_offset + j))
  d ← byte_at bytes (j + i)
  elim (bit_and v m == bit_and d m) [
    | false ↦ some false
    | true ↦ masked_equal buffer data_offset mask_offset bytes i n (suc j)
  ]

-- `memcmp (…) == 0` on blocks of one length.
unfoldable pub memcmp_equal : Bytes → Bytes → Bool
memcmp_equal [] d = true
memcmp_equal (x ∷ v) [] = false
memcmp_equal (x ∷ v) (y ∷ d) = x == y && memcmp_equal v d

abbrev pub plain_equal : Bytes → ℕ → Bytes → ℕ → ℕ → Option Bool
plain_equal buffer data_offset bytes i n = do
  v ← block_at buffer data_offset n
  d ← block_at bytes i n
  some (memcmp_equal v d)

abbrev pub valid_matchlet : Bytes → ℕ → ℕ → ℕ → Bytes → ℕ → Option Bool
valid_matchlet buffer data_length data_offset zero bytes i =
    plain_equal buffer data_offset bytes i data_length
valid_matchlet buffer data_length data_offset (suc mask_offset) bytes i =
    masked_equal buffer data_offset (suc mask_offset) bytes i data_length 0

-- The loop over the range, for the indices left.
unfoldable pub compare_range : (ℕ → Option Bool) → ℕ → ℕ → ℕ → ℕ → Option Bool
compare_range valid_at data_length len zero i = some false
compare_range valid_at data_length len (suc n) i = elim (ltb len (u32 (i + data_length))) [
  | true ↦ some false
  | false ↦ elim (valid_at i) [
    | none ↦ none
    | some true ↦ some true
    | some false ↦ elim (leb (2 ^ 31) (i + 1)) [
      | true ↦ none
      | false ↦ compare_range valid_at data_length len n (i + 1)
    ]
  ]
]

-- `cache_magic_matchlet_compare_to_data`
unfoldable pub cache_matchlet_compare_to_data : Bytes → ℕ → Bytes → Option Bool
unfolding compare_range masked_equal get_uint32
cache_matchlet_compare_to_data buffer offset bytes = do
  range_start ← get_uint32 buffer offset
  range_length ← get_uint32 buffer (u32 (offset + 4))
  data_length ← get_uint32 buffer (u32 (offset + 12))
  data_offset ← get_uint32 buffer (u32 (offset + 16))
  mask_offset ← get_uint32 buffer (u32 (offset + 20))
  compare_range (valid_matchlet buffer data_length data_offset mask_offset bytes) data_length
      (length bytes) (u32 (range_start + range_length) - range_start) range_start

-- The calls for matchlets that follow each other in the cache, for those left.
unfoldable pub any_matchlet : (ℕ → Option Bool) → ℕ → ℕ → ℕ → Option Bool
any_matchlet compare_at offset zero i = some false
any_matchlet compare_at offset (suc n) i = elim (compare_at (u32 (offset + 32 * i))) [
  | none ↦ none
  | some true ↦ some true
  | some false ↦ any_matchlet compare_at offset n (suc i)
]

-- What follows the comparison of a matchlet itself.
abbrev pub with_children : (ℕ → Option Bool) → ℕ → ℕ → Bool → Option Bool
with_children compare_at n_children child_offset false = some false
with_children compare_at zero child_offset true = some true
with_children compare_at (suc n) child_offset true = any_matchlet compare_at child_offset (suc n) 0

-- `cache_magic_matchlet_compare`
unfoldable pub cache_matchlet_compare : ℕ → Bytes → Bytes → ℕ → Option Bool
unfolding cache_matchlet_compare_to_data any_matchlet get_uint32
cache_matchlet_compare zero buffer bytes offset = none
cache_matchlet_compare (suc f) buffer bytes offset = do
  n_children ← get_uint32 buffer (u32 (offset + 24))
  child_offset ← get_uint32 buffer (u32 (offset + 28))
  matches ← cache_matchlet_compare_to_data buffer offset bytes
  with_children (cache_matchlet_compare f buffer bytes) n_children child_offset matches

-- The pointer to the type of a match that succeeded, as the bytes from it on.
abbrev pub match_type : Bytes → ℕ → ℕ → Bool → Option (Option Sniffed)
match_type buffer priority place false = some none
match_type buffer priority place true =
    some (some (record { prio = priority; mime_type = some (drop place buffer) }))

-- `cache_magic_compare_to_data`
unfoldable pub cache_compare_to_data : ℕ → Bytes → ℕ → Bytes → Option (Option Sniffed)
unfolding cache_matchlet_compare get_uint32
cache_compare_to_data fuel buffer offset bytes = do
  priority ← get_uint32 buffer offset
  mimetype_offset ← get_uint32 buffer (u32 (offset + 4))
  n_matchlets ← get_uint32 buffer (u32 (offset + 8))
  matchlet_offset ← get_uint32 buffer (u32 (offset + 12))
  matches ← any_matchlet (cache_matchlet_compare fuel buffer bytes) matchlet_offset n_matchlets 0
  match_type buffer priority mimetype_offset matches

-- `_xdg_mime_mime_type_equal` where there are caches.
abbrev pub cache_type_equal : List Bytes → Bytes → Bytes → Option Bool
cache_type_equal caches mime_a mime_b = do
  unalias_a ← cache_unalias_mime_type caches mime_a
  unalias_b ← cache_unalias_mime_type caches mime_b
  some (str_eq unalias_a unalias_b)

-- `mime_types[n] = NULL` for the types that are that of a match that failed. The types are pointers,
-- as the bytes from them on.
unfoldable pub cache_strike :
    List Bytes → Bytes → List (Option Bytes) → Option (List (Option Bytes))
cache_strike caches non_match [] = some []
cache_strike caches non_match (none ∷ mime_types) = do
  rest ← cache_strike caches non_match mime_types
  some (none ∷ rest)
cache_strike caches non_match (some t ∷ mime_types) = do
  s ← nul_ended t
  m ← nul_ended non_match
  same ← cache_type_equal caches s m
  rest ← cache_strike caches non_match mime_types
  some ((if same then none else some t) ∷ rest)

-- The rules of a cache, from one on, for the rules left, with the types that are not struck.
unfoldable pub cache_rules :
    ℕ
    → List Bytes
    → Bytes
    → Bytes
    → ℕ
    → ℕ
    → ℕ
    → List (Option Bytes)
    → Option (Sniffed × List (Option Bytes))
unfolding cache_compare_to_data cache_strike text_at
cache_rules fuel caches buffer bytes offset zero j mime_types =
    some (record { prio = 0; mime_type = none }, mime_types)
cache_rules fuel caches buffer bytes offset (suc n) j mime_types =
    elim (cache_compare_to_data fuel buffer (u32 (offset + 16 * j)) bytes) [
      | none ↦ none
      | some (some found) ↦ some (found, mime_types)
      | some none ↦ (do
        place ← get_uint32 buffer (u32 (offset + 16 * j + 4))
        left ← cache_strike caches (drop place buffer) mime_types
        cache_rules fuel caches buffer bytes offset n (suc j) left)
    ]

-- `cache_magic_lookup_data`
unfoldable pub cache_lookup_data :
    ℕ → List Bytes → Bytes → Bytes → List (Option Bytes) → Option (Sniffed × List (Option Bytes))
unfolding cache_rules get_uint32
cache_lookup_data fuel caches buffer bytes mime_types = do
  list_offset ← get_uint32 buffer 24
  n_entries ← get_uint32 buffer list_offset
  offset ← get_uint32 buffer (u32 (list_offset + 8))
  cache_rules fuel caches buffer bytes offset n_entries 0 mime_types
