-- ===== src/Mime/Magic.antt =====
-- src/mime/xdgmimemagic.c: rules on the contents of a file, and the MIME types that they stand for.
-- The comparison of a rule with data takes the sums of offsets, lengths and ranges in the natural
-- numbers, as for rules in which they stay below 2^31; the extents wrap as in the code.
pub mod Compare
pub mod Levels
pub mod Order
pub mod Extent
pub mod Reader
pub mod Swap
pub mod Parse
pub mod File
use Prim.Native.Nat.{bit_and}
use mathlib.Core.List.{reverse}
use libxdg.Base.{
  ℕ, zero, suc, ◌+◌, ◌-◌, ◌^◌, ◌%◌, Bool, true, false, not, ◌&&◌, ◌||◌, Option, none, some, List,
  [], ◌∷◌, ◌++◌, ltb, leb, ◌==◌, if◌then◌else◌, length, drop, map,
}
use libxdg.Base.Int.{ℤ, pos, negsuc}
use libxdg.Base.Text.{Bytes}
use libxdg.Base.Words.{as_int}

-- `XdgMimeMagicMatchlet`; the lists `value` and `mask` have `value_length` bytes.
pub record Matchlet : Type 0 where
  pub indent : ℕ
  pub offset : ℕ
  pub value : Bytes
  pub mask : Option Bytes
  pub range_length : ℕ
  pub word_size : ℕ

-- `XdgMimeMagicMatch`, with the list that begins at `matchlet`.
pub record MagicMatch : Type 0 where
  pub mime_type : Bytes
  pub priority : ℕ
  pub matchlets : List Matchlet

pub record MimeMagic : Type 0 where
  pub match_list : List MagicMatch
  pub max_extent : ℕ

-- The inner loops of `_xdg_mime_magic_matchlet_compare_to_data`, on the data from index `i` on.
unfoldable pub bytes_match : Bytes → Bytes → Bool
bytes_match [] bytes = true
bytes_match (v ∷ value) [] = false
bytes_match (v ∷ value) (d ∷ bytes) = v == d && bytes_match value bytes

unfoldable pub masked_match : Bytes → Bytes → Bytes → Bool
masked_match [] mask bytes = true
masked_match (v ∷ value) [] bytes = false
masked_match (v ∷ value) (m ∷ mask) [] = false
masked_match (v ∷ value) (m ∷ mask) (d ∷ bytes) =
    bit_and v m == bit_and d m && masked_match value mask bytes

unfoldable pub match_at : Matchlet → Bytes → Bool
unfolding bytes_match masked_match
match_at m bytes = elim m.mask [
  | none ↦ bytes_match m.value bytes
  | some mask ↦ masked_match m.value mask bytes
]

-- The outer loop: the rounds that are left, and the index.
unfoldable pub compare_from : ℕ → ℕ → Matchlet → Bytes → Bool
compare_from zero i m bytes = false
compare_from (suc rounds) i m bytes =
    let onward = compare_from rounds (i + 1) m bytes in
    if ltb (length bytes) (i + length m.value)
    then false
    else if match_at m (drop i bytes)
    then true
    else onward

unfoldable pub matchlet_compare_to_data : Matchlet → Bytes → Bool
unfolding compare_from match_at
matchlet_compare_to_data m bytes = compare_from m.range_length m.offset m bytes

-- `matchlet->next == NULL || matchlet->next->indent <= indent`
abbrev pub is_leaf : ℕ → List Matchlet → Bool
is_leaf indent [] = true
is_leaf indent (m ∷ ms) = leb m.indent indent

-- `_xdg_mime_magic_matchlet_compare_level`. The flag says that the inner `do … while` is running,
-- which passes over the matchlets with a greater indent.
unfoldable pub compare_level : Bool → Bytes → ℕ → List Matchlet → Bool
compare_level passing bytes indent [] = false
compare_level passing bytes indent (m ∷ ms) =
    let over = compare_level true bytes indent ms in
    let below = compare_level false bytes (indent + 1) ms in
    if passing && ltb indent m.indent
    then over
    else if m.indent == indent
    then (if matchlet_compare_to_data m bytes && (is_leaf indent ms || below) then true else over)
    else false

unfoldable pub match_compare_to_data : MagicMatch → Bytes → Bool
unfolding compare_level
match_compare_to_data m bytes = compare_level false bytes 0 m.matchlets

-- `_xdg_mime_magic_insert_match`: behind all matches of at least its priority.
unfoldable pub insert_match : List MagicMatch → MagicMatch → List MagicMatch
insert_match [] new = new ∷ []
insert_match (m ∷ ms) new =
    let rest = insert_match ms new in if ltb m.priority new.priority then new ∷ m ∷ ms else m ∷ rest

-- `_xdg_mime_magic_matchlet_mirror`: each matchlet is linked in front of those before it.
unfoldable pub mirror_onto : List Matchlet → List Matchlet → List Matchlet
mirror_onto new_list [] = new_list
mirror_onto new_list (m ∷ ms) = mirror_onto (m ∷ new_list) ms

unfoldable pub matchlet_mirror : List Matchlet → List Matchlet
unfolding mirror_onto
matchlet_mirror [] = []
matchlet_mirror (m ∷ []) = m ∷ []
matchlet_mirror (m ∷ n ∷ ms) = mirror_onto [] (m ∷ n ∷ ms)

abbrev pub extent : Matchlet → ℤ
extent m = as_int ((length m.value + m.offset + m.range_length) % 2 ^ 32)

-- `if (max_extent < extent) max_extent = extent;`: from 0 on, `max_extent` is never negative.
abbrev pub raised : ℕ → ℤ → ℕ
raised max_extent (pos n) = if ltb max_extent n then n else max_extent
raised max_extent (negsuc n) = max_extent

-- The loops of `_xdg_mime_update_mime_magic_extents`.
unfoldable pub matchlets_extent : ℕ → List Matchlet → ℕ
matchlets_extent max_extent [] = max_extent
matchlets_extent max_extent (m ∷ ms) = matchlets_extent (raised max_extent (extent m)) ms

unfoldable pub matches_extent : ℕ → List MagicMatch → ℕ
unfolding matchlets_extent
matches_extent max_extent [] = max_extent
matches_extent max_extent (m ∷ ms) = matches_extent (matchlets_extent max_extent m.matchlets) ms

unfoldable pub update_extents : List MagicMatch → MimeMagic
unfolding matches_extent
update_extents ms = record { match_list = ms; max_extent = matches_extent 0 ms }

-- `mime_types[n] = NULL` where the type is that of a match that failed. The equality of types is
-- `_xdg_mime_mime_type_equal` of src/mime/xdgmime.c.
unfoldable pub strike : (Bytes → Bytes → Bool) → Bytes → List (Option Bytes) → List (Option Bytes)
strike equal m [] = []
strike equal m (none ∷ mime_types) = none ∷ strike equal m mime_types
strike equal m (some t ∷ mime_types) =
    (if equal t m then none else some t) ∷ strike equal m mime_types

-- `mime_type = mime_types[n]` for each that is not NULL: the last one stays.
unfoldable pub last_type : Option Bytes → List (Option Bytes) → Option Bytes
last_type found [] = found
last_type found (none ∷ mime_types) = last_type found mime_types
last_type found (some t ∷ mime_types) = last_type (some t) mime_types

-- `*result_prio` and the type returned.
pub record Sniffed : Type 0 where
  pub prio : ℕ
  pub mime_type : Option Bytes

unfoldable pub lookup_matches :
    (Bytes → Bytes → Bool) → List MagicMatch → Bytes → List (Option Bytes) → Sniffed
lookup_matches equal [] bytes mime_types = record {
  prio = 0;
  mime_type = last_type none mime_types;
}
lookup_matches equal (m ∷ ms) bytes mime_types =
    let rest = lookup_matches equal ms bytes (strike equal m.mime_type mime_types) in
    if match_compare_to_data m bytes
    then record { prio = m.priority; mime_type = some m.mime_type }
    else rest

unfoldable pub lookup_data :
    (Bytes → Bytes → Bool) → MimeMagic → Bytes → List (Option Bytes) → Sniffed
unfolding lookup_matches strike last_type
lookup_data equal magic bytes mime_types = lookup_matches equal magic.match_list bytes mime_types
