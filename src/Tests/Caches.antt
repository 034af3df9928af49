-- ===== src/Tests/Caches.antt =====
-- A cache file for src/mime/xdgmimecache.c with two aliases, the parents of one type, an icon, a
-- pattern and a matchlet.
use Prim.Native.Nat.{◌≤◌, ◌<◌}
use libxdg.Base.{
  ◌≡◌, refl, ℕ, zero, suc, Bool, true, none, some, List, [], ◌∷◌, ◌++◌, arith, length, get_or, ◌+◌,
  All,
}
use libxdg.Base.Int.{pos}
use libxdg.Base.Text.{Bytes, codes, str_eq, strcmp}
use libxdg.Mime.Cache.Parents.Bound.{IsParent, IsDistinct}
use libxdg.Mime.Cache.Globs.{
  cache_glob_lookup_suffix, lookup_suffix, node_lookup_suffix, find_node, cache_glob_lookup_fnmatch,
  lookup_fnmatch, fnmatch_entries,
}
use libxdg.Mime.Glob.Tree.{MimeWeight}
use libxdg.Mime.Magic.{Matchlet, compare_from, match_at, bytes_match, matchlet_compare_to_data}
use libxdg.Mime.Cache.{
  u32, entry_offset, first_answer, rounds, binary_search, get_uint32, string_at, text_at,
  cache_unalias_mime_type, cache_lookup_icon,
}
use libxdg.Mime.Cache.Pairs.{Pair, Ascends, key_of, blank_pair, IsTable, cache_lookups-find}
use libxdg.Mime.Cache.Parents.{cache_list_mime_parents}
use libxdg.Mime.Cache.Parents.Table.{Family, AreFamilies}
use libxdg.Mime.Cache.Parents.Bound.{cache_list_mime_parents-bounded}
use libxdg.Mime.Cache.Globs.{cache_pattern_types}
use libxdg.Mime.Cache.Globs.Room.{length-cache_pattern_types}
use libxdg.Mime.Cache.Magic.{cache_matchlet_compare_to_data}
use libxdg.Mime.Cache.Magic.Matchlets.{ReadsMatchlet, cache_matchlet_compare_to_data-match}

-- A 32-bit word in network order.
abbrev word : ℕ → Bytes
word n = 0 ∷ 0 ∷ 0 ∷ n ∷ []

abbrev words : List ℕ → Bytes
words [] = []
words (n ∷ ns) = word n ++ words ns

abbrev string : Bytes → Bytes
string s = s ++ (0 ∷ [])

abbrev header : Bytes
header = words (0 ∷ 40 ∷ 60 ∷ 112 ∷ 112 ∷ 96 ∷ 0 ∷ 0 ∷ 84 ∷ 84 ∷ [])

abbrev alias_words : Bytes
alias_words = words (2 ∷ 152 ∷ 156 ∷ 156 ∷ 160 ∷ [])

abbrev parent_words : Bytes
parent_words = words (1 ∷ 156 ∷ 72 ∷ 2 ∷ 152 ∷ 160 ∷ [])

abbrev icon_words : Bytes
icon_words = words (1 ∷ 160 ∷ 164 ∷ [])

abbrev pattern_words : Bytes
pattern_words = words (1 ∷ 166 ∷ 152 ∷ 50 ∷ 0 ∷ 0 ∷ [])

abbrev matchlet_words : Bytes
matchlet_words = words (1 ∷ 3 ∷ 1 ∷ 2 ∷ 160 ∷ 0 ∷ 0 ∷ 0 ∷ [])

abbrev strings : Bytes
strings =
    string (codes "a/x")
    ++ (string (codes "b/y")
        ++ (string (codes "c/z") ++ (string (codes "i") ++ string (codes "*~"))))

abbrev cache : Bytes
cache =
    header
    ++ (alias_words
        ++ (parent_words ++ (icon_words ++ (pattern_words ++ (matchlet_words ++ strings)))))

abbrev aliases : List Pair
aliases = (codes "a/x", codes "b/y") ∷ (codes "b/y", codes "c/z") ∷ []

abbrev icons : List Pair
icons = (codes "c/z", codes "i") ∷ []

aliases-Ascends : Ascends aliases
unfolding strcmp
aliases-Ascends zero zero h k = absurd (omega arith)
aliases-Ascends zero (suc zero) h k = refl
aliases-Ascends zero (suc (suc j)) h k = absurd (omega arith)
aliases-Ascends (suc i) zero h k = absurd (omega arith)
aliases-Ascends (suc i) (suc zero) h k = absurd (omega arith)
aliases-Ascends (suc i) (suc (suc j)) h k = absurd (omega arith)

aliases-IsTable : IsTable 4 cache aliases
unfolding get_uint32 text_at string_at
aliases-IsTable = record {
  list_offset = 40;
  header_read = refl;
  size_read = refl;
  keys = keys;
  values = values;
  ascends = aliases-Ascends;
  small = omega arith;
}
  where
    keys : (i : ℕ) → i < 2 → text_at cache (entry_offset 40 8 i) ≡ some (key_of aliases i)
    keys zero h = refl
    keys (suc zero) h = refl
    keys (suc (suc i)) h = absurd (omega arith)

    values :
        (i : ℕ)
        → i < 2
        → text_at cache (u32 (entry_offset 40 8 i + 4)) ≡ some (get_or aliases i blank_pair).1
    values zero h = refl
    values (suc zero) h = refl
    values (suc (suc i)) h = absurd (omega arith)

icons-IsTable : IsTable 32 cache icons
unfolding get_uint32 text_at string_at
icons-IsTable = record {
  list_offset = 84;
  header_read = refl;
  size_read = refl;
  keys = keys;
  values = values;
  ascends = λ i j h k. absurd (omega arith);
  small = omega arith;
}
  where
    keys : (i : ℕ) → i < 1 → text_at cache (entry_offset 84 8 i) ≡ some (key_of icons i)
    keys zero h = refl
    keys (suc i) h = absurd (omega arith)

    values :
        (i : ℕ)
        → i < 1
        → text_at cache (u32 (entry_offset 84 8 i + 4)) ≡ some (get_or icons i blank_pair).1
    values zero h = refl
    values (suc i) h = absurd (omega arith)

cache_lookups-find_example :
    (cache_unalias_mime_type (cache ∷ []) (codes "b/y") ≡ some (codes "c/z"))
    × (cache_lookup_icon (cache ∷ []) (codes "b/y") 32 ≡ some none)
unfolding str_eq strcmp
cache_lookups-find_example =
    cache_lookups-find 32 (codes "b/y") (cache ∷ []) (aliases ∷ []) (icons ∷ [])
      (aliases-IsTable, tt) (icons-IsTable, tt)

abbrev families : List Family
families = (codes "b/y", codes "a/x" ∷ codes "c/z" ∷ []) ∷ []

cache-AreFamilies : AreFamilies (cache ∷ []) (families ∷ [])
unfolding get_uint32 text_at string_at
cache-AreFamilies = ((60, refl, refl, ((refl, 72, refl, refl, (refl, (refl, tt))), tt)), tt)

cache_list_mime_parents-bounded_example :
    (ps : List Bytes) × (cache_list_mime_parents (cache ∷ []) (codes "a/x") ≡ some ps)
    × (length ps ≤ 127)
    × IsDistinct ps
    × All (IsParent (codes "b/y") (families ∷ [])) ps
unfolding str_eq strcmp
cache_list_mime_parents-bounded_example =
    cache_list_mime_parents-bounded (cache ∷ []) (aliases ∷ []) (families ∷ []) (codes "a/x")
      (aliases-IsTable, tt) cache-AreFamilies

-- A pattern that every name ends with.
abbrev is_backup : Bytes → Bytes → Bool
is_backup pattern name = str_eq pattern (codes "*~")

abbrev matched : List MimeWeight
matched = (record { mime = strings; weight = pos 50 }) ∷ []

patterns_found : cache_pattern_types (λ ms. ms) is_backup (cache ∷ []) (codes "f~") ≡ some matched
unfolding cache_pattern_types cache_glob_lookup_suffix lookup_suffix first_answer get_uint32
    node_lookup_suffix find_node rounds binary_search cache_glob_lookup_fnmatch lookup_fnmatch
    fnmatch_entries text_at string_at str_eq strcmp
patterns_found = refl

length-cache_pattern_types_example : 1 ≤ 10
length-cache_pattern_types_example =
    length-cache_pattern_types (λ ms. ms) is_backup (cache ∷ []) (codes "f~") matched patterns_found

abbrev matchlet : Matchlet
matchlet = record {
  indent = 0;
  offset = 1;
  value = codes "c/";
  mask = none;
  range_length = 3;
  word_size = 1;
}

cache-ReadsMatchlet : ReadsMatchlet cache 120 matchlet
unfolding get_uint32
cache-ReadsMatchlet = record {
  data_offset = 160;
  mask_offset = 0;
  start_at = refl;
  range_at = refl;
  length_at = refl;
  data_at = refl;
  mask_at = refl;
  value_there = refl;
  mask_there = tt;
}

cache_matchlet_compare_to_data-match_example :
    cache_matchlet_compare_to_data cache 120 (codes "abc/d") ≡ some true
unfolding matchlet_compare_to_data compare_from match_at bytes_match
cache_matchlet_compare_to_data-match_example =
    cache_matchlet_compare_to_data-match cache 120 matchlet (codes "abc/d") (omega arith)
      cache-ReadsMatchlet (omega arith)
