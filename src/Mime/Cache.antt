-- ===== src/Mime/Cache.antt =====
-- src/mime/xdgmimecache.c: the lookups in cache files, which are mapped into memory. A cache is the
-- bytes of its file. A result `none` is a read behind them, or an overflow of the sum of two indices;
-- the product of an index and a size is taken as a word, as in the code for usual processors.
pub mod Search
pub mod Pairs
pub mod Parents
pub mod Globs
pub mod Magic
pub mod Files
use Prim.Native.Nat.{Ordering}
use libxdg.Base.{
  ℕ, zero, suc, ◌+◌, ◌-◌, ◌*◌, ◌/◌, ◌%◌, ◌^◌, Bool, true, false, Option, none, some, List, [], ◌∷◌,
  leb, ltb, if◌then◌else◌, drop,
}
use libxdg.Base.Faults.{◌>>=◌, ◌>>◌}
use libxdg.Base.Text.{Bytes, strcmp}

-- `xdg_uint32_t`
abbrev pub u32 : ℕ → ℕ
u32 x = x % 2 ^ 32

abbrev pub word_of : Bytes → Option ℕ
word_of (a ∷ b ∷ c ∷ d ∷ s) = some (((a * 256 + b) * 256 + c) * 256 + d)
word_of s = none

-- `GET_UINT32`
unfoldable pub get_uint32 : Bytes → ℕ → Option ℕ
get_uint32 buffer offset = word_of (drop offset buffer)

abbrev pub nul_ended : Bytes → Option Bytes
nul_ended [] = none
nul_ended (zero ∷ s) = some []
nul_ended (suc c ∷ s) = elim (nul_ended s) [ none ↦ none | some t ↦ some (suc c ∷ t) ]

-- The string at `cache->buffer + offset`.
unfoldable pub string_at : Bytes → ℕ → Option Bytes
string_at buffer offset = nul_ended (drop offset buffer)

-- The string that a word in the cache leads to.
unfoldable pub text_at : Bytes → ℕ → Option Bytes
unfolding get_uint32 string_at
text_at buffer place = do offset ← get_uint32 buffer place; string_at buffer offset

-- What a binary search comes to: `unfinished` is the end of the fuel.
pub data SearchResult : Type 0 where
  hit : ℕ → SearchResult
  miss fault unfinished : SearchResult

-- `max = n_entries - 1` as an `int`; the model keeps the number above it, 0 for a negative one.
abbrev pub above_max : ℕ → ℕ
above_max n_entries = if leb n_entries (2 ^ 31) then n_entries else 0

-- `while (max >= min)`, with the comparison of the entry at an index. The fault in front of `mid` is
-- an overflow of `min + max`.
unfoldable pub binary_search : ℕ → (ℕ → Option Ordering) → ℕ → ℕ → SearchResult
binary_search zero compare_at min above = unfinished
binary_search (suc f) compare_at min above =
    if leb above min
    then miss
    else (if leb (2 ^ 31) (min + (above - 1))
        then fault
        else elim (compare_at ((min + (above - 1)) / 2)) [
          | none ↦ fault
          | some Ordering.lt ↦ binary_search f compare_at ((min + (above - 1)) / 2 + 1) above
          | some Ordering.eq ↦ hit ((min + (above - 1)) / 2)
          | some Ordering.gt ↦ binary_search f compare_at min ((min + (above - 1)) / 2)
        ])

-- The place of an entry in a list of entries of some size.
abbrev pub entry_offset : ℕ → ℕ → ℕ → ℕ
entry_offset list_offset size i = u32 (list_offset + 4 + size * i)

-- `strcmp` of the text of an entry with a key.
unfoldable pub compare_entry : Bytes → ℕ → ℕ → Bytes → ℕ → Option Ordering
unfolding text_at
compare_entry buffer list_offset size key mid = do
  ptr ← text_at buffer (entry_offset list_offset size mid)
  some (strcmp ptr key)

-- The result of a search, as a fault or an index.
abbrev pub settled : SearchResult → Option (Option ℕ)
settled (hit i) = some (some i)
settled miss = some none
settled fault = none
settled unfinished = none

-- The rounds that the search may take: 32 halve a range of 2 ^ 31 to nothing.
unfoldable pub rounds : ℕ
rounds = 33

-- The search for a key in the list of a cache.
unfoldable pub search_entries : Bytes → ℕ → ℕ → ℕ → Bytes → Option (Option ℕ)
unfolding binary_search compare_entry
search_entries buffer list_offset size n_entries key =
    settled
      (binary_search rounds (compare_entry buffer list_offset size key) 0 (above_max n_entries))

-- The string that the second word of the entry found leads to.
abbrev pub pair_value_at : Bytes → ℕ → ℕ → Option ℕ → Option (Option Bytes)
pair_value_at buffer list_offset size none = some none
pair_value_at buffer list_offset size (some mid) = do
  text ← text_at buffer (u32 (entry_offset list_offset size mid + 4))
  some (some text)

-- The search of one cache for the value of a key; `header` is the place of the offset of the list.
unfoldable pub lookup_pair : ℕ → Bytes → Bytes → Option (Option Bytes)
unfolding search_entries
lookup_pair header key buffer = do
  list_offset ← get_uint32 buffer header
  n_entries ← get_uint32 buffer list_offset
  found ← search_entries buffer list_offset 8 n_entries key
  pair_value_at buffer list_offset 8 found

-- The loop over the caches: the first answer there is.
unfoldable pub first_answer {ℓ} :
    {A : Type ℓ} → (Bytes → Option (Option A)) → List Bytes → Option (Option A)
first_answer search [] = some none
first_answer search (buffer ∷ buffers) = elim (search buffer) [
  | none ↦ none
  | some none ↦ first_answer search buffers
  | some (some a) ↦ some (some a)
]

-- `cache_alias_lookup`
unfoldable pub cache_alias_lookup : List Bytes → Bytes → Option (Option Bytes)
unfolding first_answer lookup_pair
cache_alias_lookup caches alias = first_answer (lookup_pair 4 alias) caches

-- `cache_lookup_icon`
unfoldable pub cache_lookup_icon : List Bytes → Bytes → ℕ → Option (Option Bytes)
unfolding first_answer lookup_pair
cache_lookup_icon caches mime header = first_answer (lookup_pair header mime) caches

-- `_xdg_mime_cache_get_icon`
abbrev pub cache_get_icon : List Bytes → Bytes → Option (Option Bytes)
cache_get_icon caches mime = cache_lookup_icon caches mime 32

-- `_xdg_mime_cache_get_generic_icon`
abbrev pub cache_get_generic_icon : List Bytes → Bytes → Option (Option Bytes)
cache_get_generic_icon caches mime = cache_lookup_icon caches mime 36

-- `_xdg_mime_cache_unalias_mime_type`
unfoldable pub cache_unalias_mime_type : List Bytes → Bytes → Option Bytes
unfolding cache_alias_lookup
cache_unalias_mime_type caches mime = do
  lookup ← cache_alias_lookup caches mime
  some (elim lookup [ none ↦ mime | some alias ↦ alias ])
