-- ===== src/Mime/Unicode/Decode.antt =====
-- `_xdg_convert_to_ucs4` of src/mime/xdgmimeint.c and the encoding of code points in UTF-8.
use libxdg.Base.{
  ℕ, ◌+◌, ◌-◌, ◌/◌, ◌%◌, ◌^◌, ◌<◌, ◌≡◌, refl, ap, ◌∙◌, some, List, [], ◌∷◌, ◌++◌, ltb,
  if◌then◌else◌, All, arith, length,
}
use libxdg.Base.Text.{Bytes}
use libxdg.Mime.Unicode.{utf8_skip, utf8_to_ucs4, cons_some, ucs4_from, convert_to_ucs4}

-- The byte that carries the six bits of `u` above the lowest `6 * k`.
abbrev low : ℕ → ℕ
low u = 128 + u % 64

-- UTF-8 in up to six bytes, as it was first defined: the first byte and those behind it.
abbrev pub lead : ℕ → ℕ
lead u =
    if ltb u 0x80
    then u
    else if ltb u 0x800
    then 192 + u / 64
    else if ltb u 0x10000
    then 224 + u / 64 / 64
    else if ltb u 0x200000
    then 240 + u / 64 / 64 / 64
    else if ltb u 0x4000000
    then 248 + u / 64 / 64 / 64 / 64
    else 252 + u / 64 / 64 / 64 / 64 / 64

abbrev pub trail : ℕ → Bytes
trail u =
    if ltb u 0x80
    then []
    else if ltb u 0x800
    then low u ∷ []
    else if ltb u 0x10000
    then low (u / 64) ∷ low u ∷ []
    else if ltb u 0x200000
    then low (u / 64 / 64) ∷ low (u / 64) ∷ low u ∷ []
    else if ltb u 0x4000000
    then low (u / 64 / 64 / 64) ∷ low (u / 64 / 64) ∷ low (u / 64) ∷ low u ∷ []
    else low (u / 64 / 64 / 64 / 64)
      ∷ low (u / 64 / 64 / 64)
      ∷ low (u / 64 / 64)
      ∷ low (u / 64)
      ∷ low u
      ∷ []

abbrev pub encode : ℕ → Bytes
encode u = lead u ∷ trail u

abbrev pub encode_all : List ℕ → Bytes
encode_all [] = []
encode_all (u ∷ us) = encode u ++ encode_all us

-- A code point that six bytes can hold, and not the end of a string.
abbrev pub IsCodePoint : ℕ → Type 0
IsCodePoint u = (0 < u) × (u < 2 ^ 31)

utf8_to_ucs4-encode :
    (u : ℕ) (rest : Bytes) → IsCodePoint u → utf8_to_ucs4 (encode u ++ rest) ≡ some u
unfolding utf8_to_ucs4
utf8_to_ucs4-encode u rest h = ground arith

pub utf8_skip-lead : (u : ℕ) → IsCodePoint u → utf8_skip (lead u) - 1 ≡ length (trail u)
unfolding utf8_skip
utf8_skip-lead u h = ground arith

-- The loop passes over the bytes of the code point that it has decoded.
ucs4_from-append : (cs rest : Bytes) → ucs4_from (length cs) (cs ++ rest) ≡ ucs4_from 0 rest
unfolding ucs4_from
ucs4_from-append [] rest = refl
ucs4_from-append (c ∷ cs) rest = ucs4_from-append cs rest

pub ucs4_from-encode :
    (u : ℕ) (rest : Bytes)
    → IsCodePoint u
    → ucs4_from 0 (encode u ++ rest) ≡ cons_some u (ucs4_from 0 rest)
unfolding ucs4_from
ucs4_from-encode u rest h =
    rw (utf8_to_ucs4-encode u rest h, utf8_skip-lead u h, ucs4_from-append (trail u) rest)

ucs4_from-encode_all : (us : List ℕ) → All IsCodePoint us → ucs4_from 0 (encode_all us) ≡ some us
ucs4_from-encode_all [] h = unfold ucs4_from in refl
ucs4_from-encode_all (u ∷ us) h =
    ucs4_from-encode u (encode_all us) h.0 ∙ ap (cons_some u) (ucs4_from-encode_all us h.1)

-- Decoding the UTF-8 text of some code points gives these code points back, in any number of bytes
-- from one to six; none of them is 0, which ends a string.
pub convert_to_ucs4-encode :
    (us : List ℕ) → All IsCodePoint us → convert_to_ucs4 (encode_all us) ≡ some us
unfolding convert_to_ucs4
convert_to_ucs4-encode us h = ucs4_from-encode_all us h
