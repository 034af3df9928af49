-- ===== src/Mime/Magic/Swap.antt =====
-- The byte swap in `_xdg_mime_magic_parse_magic_line` of src/mime/xdgmimemagic.c. A result `none` is
-- a write behind the value or the mask.
pub mod Overflow
use mathlib.Core.List.{reverse}
use libxdg.Base.{
  ℕ, zero, suc, ◌+◌, ◌-◌, ◌*◌, ◌%◌, ◌^◌, Bool, true, false, not, ◌&&◌, ◌||◌, Option, none, some,
  List, [], ◌∷◌, ◌++◌, ltb, leb, ◌==◌, if◌then◌else◌, length, take, drop,
}
use libxdg.Base.Text.{Bytes, codes, strchr}

-- One assignment of the byte swap at index `i`, as on little-endian machines: the index is
-- scaled by the word size on the left, so that the word goes to byte `word_size * i`.
unfoldable pub swap_word : ℕ → ℕ → Bytes → Option Bytes
swap_word word_size i value =
    if ltb (length value) (word_size * i + word_size)
    then none
    else some (
        take (word_size * i) value
        ++ (reverse (take word_size (drop i value)) ++ drop (word_size * i + word_size) value))

abbrev pub swap_mask : ℕ → ℕ → Option Bytes → Option (Option Bytes)
swap_mask word_size i none = some none
swap_mask word_size i (some mask) = elim (swap_word word_size i mask) [
  | none ↦ none
  | some mask' ↦ some (some mask')
]

abbrev pub both : Option Bytes → Option (Option Bytes) → Option (Bytes × Option Bytes)
both none mask = none
both (some value) none = none
both (some value) (some mask) = some (value, mask)

abbrev pub and_then :
    (Bytes → Option Bytes → Option (Bytes × Option Bytes))
    → Option (Bytes × Option Bytes)
    → Option (Bytes × Option Bytes)
and_then f none = none
and_then f (some (value, mask)) = f value mask

-- `for (i = 0; i < value_length; i = i + word_size)`, with as many rounds as the value has bytes.
unfoldable pub swap_loop : ℕ → ℕ → ℕ → Bytes → Option Bytes → Option (Bytes × Option Bytes)
unfolding swap_word
swap_loop zero word_size i value mask = some (value, mask)
swap_loop (suc rounds) word_size i value mask =
    let swapped = both (swap_word word_size i value) (swap_mask word_size i mask) in
    let onward = and_then (swap_loop rounds word_size (i + word_size)) swapped in
    if ltb i (length value) then onward else some (value, mask)
