-- ===== src/Mime/Unicode.antt =====
-- src/mime/xdgmimeint.c: UTF-8 and UCS-4 text, base names, and the test for binary data.
-- `char` is signed, as on the platforms that the library is built for. A result `none` is a read
-- behind the NUL of a string.
pub mod Decode
pub mod Reverse
pub mod BaseName
use libxdg.Base.{
  ℕ, zero, suc, ◌+◌, ◌-◌, ◌*◌, ◌%◌, ◌^◌, Bool, true, false, not, ◌&&◌, Option, none, some, List, [],
  ◌∷◌, ltb, leb, ◌==◌, if◌then◌else◌, length, get_elem?, get_or, set, take, some_of,
}
use libxdg.Base.Text.{Bytes, after_last}

abbrev pub slash : ℕ
slash = b'/'

-- The modulus of `xdg_unichar_t`.
abbrev pub ucs4_mod : ℕ
ucs4_mod = 2 ^ 32

-- A `char` converted to `xdg_unichar_t`: the bytes from 128 on are negative.
unfoldable pub char_to_ucs4 : ℕ → ℕ
char_to_ucs4 c = if ltb c 128 then c else c + ucs4_mod - 256

-- The table `_xdg_utf8_skip_data`.
unfoldable pub utf8_skip : ℕ → ℕ
utf8_skip c =
    if ltb c 192
    then 1
    else if ltb c 224
    then 2
    else if ltb c 240
    then 3
    else if ltb c 248
    then 4
    else if ltb c 252
    then 5
    else if ltb c 254
    then 6
    else 1

-- `for (bytelength--; …) { result <<= 6; result |= *source++ & 0x3F; }`. The low six bits are
-- free after the shift, so the `or` is a sum. One read may hit the NUL, no further one.
unfoldable pub continuation : ℕ → ℕ → Bytes → Option ℕ
continuation zero result source = some result
continuation (suc zero) result [] = some (result * 64 % ucs4_mod)
continuation (suc (suc n)) result [] = none
continuation (suc n) result (c ∷ source) = continuation n (result * 64 % ucs4_mod + c % 64) source

-- The ladder of tests reads the highest bits of the first byte.
unfoldable pub utf8_to_ucs4 : Bytes → Option ℕ
unfolding char_to_ucs4 continuation
utf8_to_ucs4 [] = some 0
utf8_to_ucs4 (c ∷ source) =
    if ltb c 128
    then some c
    else if ltb c 192
    then some (char_to_ucs4 c)
    else if ltb c 224
    then continuation 1 (c % 32) source
    else if ltb c 240
    then continuation 2 (c % 16) source
    else if ltb c 248
    then continuation 3 (c % 8) source
    else if ltb c 252
    then continuation 4 (c % 4) source
    else if ltb c 254
    then continuation 5 (c % 2) source
    else some (char_to_ucs4 c)

-- `cons` under an option.
abbrev pub cons_some : ℕ → Option (List ℕ) → Option (List ℕ)
cons_some u none = none
cons_some u (some us) = some (u ∷ us)

abbrev pub cons_maybe : Option ℕ → Option (List ℕ) → Option (List ℕ)
cons_maybe none rest = none
cons_maybe (some u) rest = cons_some u rest

-- The loop of `_xdg_convert_to_ucs4`; the number counts the bytes that `_xdg_utf8_next_char` has
-- yet to pass over. The array has room for one code point for each byte and the final 0.
unfoldable pub ucs4_from : ℕ → Bytes → Option (List ℕ)
ucs4_from zero [] = some []
ucs4_from (suc k) [] = none
ucs4_from zero (c ∷ source) =
    cons_maybe (utf8_to_ucs4 (c ∷ source)) (ucs4_from (utf8_skip c - 1) source)
ucs4_from (suc k) (c ∷ source) = ucs4_from k source

-- The code points before the final 0; `*len` is their number.
unfoldable pub convert_to_ucs4 : Bytes → Option (List ℕ)
unfolding ucs4_from utf8_to_ucs4 utf8_skip
convert_to_ucs4 source = ucs4_from 0 source

-- The three assignments of a round of `_xdg_reverse_ucs4`.
unfoldable pub swap_ends : List ℕ → ℕ → ℕ → List ℕ
swap_ends source i j = let c = get_or source i 0 in set (set source i (get_or source j 0)) j c

-- `for (i = 0; i < len - i - 1; i++)`, on fuel. The test is on `int`, so it fails at i = len.
unfoldable pub reverse_loop : ℕ → ℕ → ℕ → List ℕ → List ℕ
reverse_loop zero i len source = source
reverse_loop (suc f) i len source =
    let rest = reverse_loop f (i + 1) len (swap_ends source i (len - i - 1)) in
    if ltb (i + i + 1) len then rest else source

unfoldable pub reverse_ucs4 : List ℕ → ℕ → List ℕ
unfolding reverse_loop swap_ends
reverse_ucs4 source len = reverse_loop len 0 len source

-- `_xdg_get_base_name` of a string that is not NULL.
unfoldable pub get_base_name : Bytes → Bytes
unfolding after_last
get_base_name file_name = elim (after_last slash file_name) [ none ↦ file_name | some base ↦ base ]

-- A byte that the fallback takes as a sign of binary data.
unfoldable pub is_control : ℕ → Bool
is_control c = ltb c 32 && not (c == 9) && not (c == 10) && not (c == 13)

-- `_xdg_binary_or_text_fallback`: true for text/plain, false for the unknown type.
unfoldable pub text_fallback : Bytes → Bool
unfolding is_control
text_fallback chardata = not (some_of is_control (take 32 chardata))
